-- ===== src/Cdc/Comm.antt =====
-- The control interface of a virtual serial port: CdcAcmCommunicationInterfaceHandler of components/
-- usbipdcpp/usbipdcpp/src/virtual_device/CdcAcmVirtualInterfaceHandler.cpp.
use esp32_usb_ip.Prelude.{
  ℕ, ◌%◌, ◌^◌, Bool, true, false, ltb, ◌==◌, ◌&&◌, if◌then◌else◌, not, Option, none, some, List, [],
  ◌∷◌, ◌++◌, length, take,
}
use esp32_usb_ip.SetupPacket.{SetupPacket, calc_request_type, is_out, class_request}
use esp32_usb_ip.Protocol.{urb_status, epipe}
use esp32_usb_ip.Protocol.Transfer.{GenericTransfer}
use esp32_usb_ip.Protocol.Response.{
  RetSubmit, RetUnlink, create_ret_submit_with_status_and_no_iso,
  create_ret_submit_with_status_and_no_data, create_ret_submit_epipe_without_data,
  create_ret_submit_ok_with_no_iso, create_ret_unlink_success,
}
use esp32_usb_ip.Requests.{
  Request, EndpointRequestQueue, enqueue, dequeue_any, empty, cancel_by_seqnum,
}
use esp32_usb_ip.Cdc.Coding.{
  LineCoding, to_bytes, from_bytes, ControlSignalState, from_uint16, serial_state,
  notification_to_bytes,
}

-- `data_handler` tells whether a data interface is connected.
pub record CdcAcmCommunicationInterfaceHandler : Type 0 where
  pub line_coding : LineCoding
  pub control_signal_state : ControlSignalState
  pub pending_notification : List ℕ
  pub endpoint_requests : EndpointRequestQueue
  pub data_handler : Bool

-- A call of a function that a subclass overrides, and the one into the data interface.
pub data Notice : Type 0 where
  on_set_line_coding : LineCoding → Notice
  on_set_control_line_state : ControlSignalState → Notice
  on_send_break : ℕ → Notice
  on_rts_changed : Bool → Notice

abbrev pub set_line_coding : ℕ
set_line_coding = 0x20

abbrev pub get_line_coding : ℕ
get_line_coding = 0x21

abbrev pub set_control_line_state : ℕ
set_control_line_state = 0x22

abbrev pub send_break : ℕ
send_break = 0x23

-- The status of a request OUT, the calls it makes, and what it changes.
abbrev pub ClassOut : Type 0
ClassOut = ℕ × List Notice × CdcAcmCommunicationInterfaceHandler

unfoldable pub class_out : SetupPacket → List ℕ → CdcAcmCommunicationInterfaceHandler → ClassOut
class_out setup out_data h =
    if setup.request == set_line_coding
    then (
      urb_status 0,
      on_set_line_coding (from_bytes out_data) ∷ [],
      record h { line_coding = from_bytes out_data },
    )
    else if setup.request == set_control_line_state
    then (
      urb_status 0,
      on_set_control_line_state state
          ∷ (if h.data_handler then on_rts_changed state.rts ∷ [] else []),
      record h { control_signal_state = state },
    )
    else if setup.request == send_break
    then (urb_status 0, on_send_break setup.value ∷ [], h)
    else (urb_status epipe, [], h)
  where
    state : ControlSignalState
    state = from_uint16 setup.value

-- The status of a request IN, and its transfer.
unfoldable pub class_in :
    SetupPacket → GenericTransfer → CdcAcmCommunicationInterfaceHandler → ℕ × GenericTransfer
class_in setup trx h =
    if setup.request == get_line_coding
    then (urb_status 0, record trx { bytes = coding; actual_length = length coding })
    else (urb_status epipe, record trx { actual_length = 0 })
  where
    coding : List ℕ
    coding =
        if ltb setup.length (length (to_bytes h.line_coding))
        then take setup.length (to_bytes h.line_coding)
        else to_bytes h.line_coding

abbrev pub Answered : Type 0
Answered = RetSubmit GenericTransfer × List Notice × CdcAcmCommunicationInterfaceHandler

-- What the base class answers to a request that is not of the class.
unfoldable pub handle_non_cdc_request_type_control_urb : ℕ → RetSubmit GenericTransfer
handle_non_cdc_request_type_control_urb seqnum = create_ret_submit_epipe_without_data seqnum 0

unfoldable pub handle_non_standard_request_type_control_urb :
    ℕ → SetupPacket → GenericTransfer → CdcAcmCommunicationInterfaceHandler → Answered
handle_non_standard_request_type_control_urb seqnum setup trx h =
    if calc_request_type setup == class_request
    then if is_out setup
      then answer_out (class_out setup trx.bytes h)
      else (answer_in (class_in setup trx h), [], h)
    else (handle_non_cdc_request_type_control_urb seqnum, [], h)
  where
    answer_out : ClassOut → Answered
    answer_out (status, notices, after) =
        (create_ret_submit_with_status_and_no_data seqnum status 0, notices, after)

    answer_in : ℕ × GenericTransfer → RetSubmit GenericTransfer
    answer_in (status, result) =
        create_ret_submit_with_status_and_no_iso seqnum status (result.actual_length % 2 ^ 32)
          (some result)

abbrev pub Outcome : Type 0
Outcome = List (RetSubmit GenericTransfer) × CdcAcmCommunicationInterfaceHandler

-- The notification, whole, for a request.
unfoldable pub notification_reply : List ℕ → Request → RetSubmit GenericTransfer
notification_reply notification request =
    create_ret_submit_ok_with_no_iso request.seqnum (length notification % 2 ^ 32)
      (some (record request.transfer { bytes = notification; actual_length = length notification }))

abbrev pub is_empty : List ℕ → Bool
is_empty [] = true
is_empty (b ∷ bs) = false

-- `handle_interrupt_transfer` of an endpoint IN.
unfoldable pub handle_interrupt_in : ℕ → Request → CdcAcmCommunicationInterfaceHandler → Outcome
handle_interrupt_in ep request h =
    if not (is_empty h.pending_notification) && empty ep h.endpoint_requests
    then (
      notification_reply h.pending_notification request ∷ [],
      record h { pending_notification = [] },
    )
    else ([], record h { endpoint_requests = enqueue ep request h.endpoint_requests })

-- Of an endpoint OUT.
unfoldable pub handle_interrupt_out : ℕ → RetSubmit GenericTransfer
handle_interrupt_out seqnum = create_ret_submit_epipe_without_data seqnum 0

unfoldable pub notify :
    List ℕ → Option (Request × EndpointRequestQueue) → CdcAcmCommunicationInterfaceHandler → Outcome
notify notification none h = ([], record h { pending_notification = notification })
notify notification (some (request, queues)) h = (
  notification_reply notification request ∷ [],
  record h { pending_notification = []; endpoint_requests = queues },
)

unfoldable pub send_serial_state_notification : ℕ → CdcAcmCommunicationInterfaceHandler → Outcome
send_serial_state_notification state_bits h =
    notify (notification_to_bytes (serial_state state_bits)) (dequeue_any h.endpoint_requests) h

unfoldable pub handle_unlink_seqnum :
    ℕ → ℕ → CdcAcmCommunicationInterfaceHandler → RetUnlink × CdcAcmCommunicationInterfaceHandler
handle_unlink_seqnum unlink_seqnum cmd_seqnum h = (
  create_ret_unlink_success cmd_seqnum,
  record h { endpoint_requests = cancel_by_seqnum unlink_seqnum h.endpoint_requests },
)

unfoldable pub on_disconnection :
    CdcAcmCommunicationInterfaceHandler → CdcAcmCommunicationInterfaceHandler
on_disconnection h = record h { pending_notification = []; endpoint_requests = [] }

-- The functional descriptors: header, call management, abstract control management, union.
unfoldable pub get_class_specific_descriptor : List ℕ
get_class_specific_descriptor =
    (0x05 ∷ 0x24 ∷ 0x00 ∷ 0x10 ∷ 0x01 ∷ [])
    ++ ((0x05 ∷ 0x24 ∷ 0x01 ∷ 0x00 ∷ 0x01 ∷ [])
        ++ ((0x04 ∷ 0x24 ∷ 0x02 ∷ 0x02 ∷ []) ++ (0x05 ∷ 0x24 ∷ 0x06 ∷ 0x00 ∷ 0x01 ∷ [])))
