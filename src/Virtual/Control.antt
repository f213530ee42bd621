-- ===== src/Virtual/Control.antt =====
-- The dispatch of a command by a virtual device, and its control requests, in
-- components/usbipdcpp/usbipdcpp/src/virtual_device/VirtualDeviceHandler.cpp.
use esp32_usb_ip.Prelude.{
  ℕ, ◌/◌, ◌%◌, ◌^◌, Bool, ◌==◌, if◌then◌else◌, Option, none, some, List, [], ◌∷◌, length, take,
  get_elem?,
}
use esp32_usb_ip.Prelude.Int.{ℤ}
use esp32_usb_ip.Wire.{int, vector_append_to_net}
use esp32_usb_ip.SetupPacket.{
  SetupPacket, calc_request_type, calc_standard_request, calc_recipient, is_out, clear_feature,
  set_feature, set_configuration, set_interface, recipient_device, recipient_interface,
  recipient_endpoint,
}
use esp32_usb_ip.Device.{Endpoint, Interface, find_ep}
use esp32_usb_ip.Protocol.{ErrorType, internal_error, invalid_arg, urb_status, epipe}
use esp32_usb_ip.Protocol.Transfer.{GenericTransfer}
use esp32_usb_ip.Protocol.Command.{CmdSubmit, num_iso}
use esp32_usb_ip.Protocol.Response.{
  RetSubmit, create_ret_submit_with_status_and_no_data, create_ret_submit_ok_with_no_iso,
  create_ret_submit_epipe_without_data,
}
use esp32_usb_ip.Virtual.{InterfaceHandler, VirtualDevice, handler_at}
use esp32_usb_ip.Virtual.Descriptors.{cut, request_get_descriptor}

-- The calls of virtual functions that take the transfer over and reply themselves: those for
-- requests that are not standard, of the device, an interface, or an endpoint, with the index, and
-- those of the handler of an interface for the other kinds of transfer.
pub data Call : Type 0 where
  device_request : Call
  interface_request endpoint_request : ℕ → Call
  bulk_transfer interrupt_transfer : Interface → Endpoint → Call
  isochronous_transfer : Interface → Endpoint → ℤ → Call

-- What the handling of a command comes to: the replies it submits, in their order, the call that it
-- passes the transfer on by, its error code, and the handlers' state. `undefined` is an access
-- behind the interfaces or through a missing handler.
pub data Handled (S : Type 0) : Type 0 where
  handled : List (RetSubmit GenericTransfer) → Option Call → Option ErrorType → S → Handled S
  undefined : Handled S

abbrev pub reply : {S : Type 0} → RetSubmit GenericTransfer → S → Handled S
reply r s = handled (r ∷ []) none none s

-- EPIPE, with an error code that ends the session or without.
abbrev pub refuse : {S : Type 0} → ℕ → Option ErrorType → S → Handled S
refuse seqnum ec s = handled (create_ret_submit_epipe_without_data seqnum 0 ∷ []) none ec s

abbrev pub pass_on : {S : Type 0} → Call → S → Handled S
pass_on call s = handled [] (some call) none s

-- The answer to an OUT request: its status.
unfoldable pub answer_out : {S : Type 0} → ℕ → ℕ × S → Handled S
answer_out seqnum (status, s) = reply (create_ret_submit_with_status_and_no_data seqnum status 0) s

-- The answer to an IN request: the data, and always OK.
unfoldable pub with_result : GenericTransfer → List ℕ → GenericTransfer
with_result trx result = record trx {
  bytes = result;
  actual_length = length result;
  data_offset = 0;
}

unfoldable pub answer_in : {S : Type 0} → ℕ → GenericTransfer → Option (List ℕ × ℕ × S) → Handled S
answer_in seqnum trx none = undefined
answer_in seqnum trx (some (result, status, s)) =
    reply
      (create_ret_submit_ok_with_no_iso seqnum (length result % 2 ^ 32)
        (some (with_result trx result)))
      s

-- An 8-bit or a 16-bit answer, appended to no data.
abbrev pub number : {S : Type 0} → Bool → ℕ → ℕ × ℕ × S → Option (List ℕ × ℕ × S)
number little width (value, status, s) =
    some (vector_append_to_net little [] (int width value ∷ []), status, s)

abbrev pub no_answer : {S : Type 0} → ℕ × S → Option (List ℕ × ℕ × S)
no_answer (status, s) = some ([], status, s)

-- The descriptor, cut once more to the length asked for.
abbrev pub cut_answer : {S : Type 0} → ℕ → Option (List ℕ × ℕ × S) → Option (List ℕ × ℕ × S)
cut_answer n none = none
cut_answer n (some (desc, status, s)) = some (cut n desc, status, s)

module _ {S : Type 0} (v : VirtualDevice S) (setup : SetupPacket) (little : Bool) where
  -- `out_data` is the front of the transfer's data.
  unfoldable pub device_out : ℕ → GenericTransfer → S → ℕ × S
  device_out transfer_buffer_length trx s =
      let request = calc_standard_request setup in
      let handler = v.device_handler in
      if request == clear_feature
      then handler.clear_feature setup.value 0 s
      else if request == 5
      then handler.set_address setup.value 0 s
      else if request == set_configuration
      then handler.set_configuration setup.value 0 s
      else if request == 7
      then handler.set_descriptor (setup.value / 2 ^ 8) (setup.value % 2 ^ 8) setup.index
          setup.length (take transfer_buffer_length trx.bytes) 0 s
      else if request == set_feature
      then handler.set_feature setup.value 0 s
      else (urb_status epipe, s)

  unfoldable pub device_in : S → Option (List ℕ × ℕ × S)
  device_in s =
      let request = calc_standard_request setup in
      if request == 8
      then number little 1 (v.device.configuration_value, 0, s)
      else if request == 6
      then cut_answer setup.length
          (request_get_descriptor v (setup.value / 2 ^ 8) (setup.value % 2 ^ 8) setup.length 0 s)
      else if request == 0
      then number little 2 (v.device_handler.get_status 0 s)
      else some ([], 0, s)

  unfoldable pub interface_out : InterfaceHandler S → S → ℕ × S
  interface_out handler s =
      let request = calc_standard_request setup in
      if request == clear_feature
      then handler.clear_feature setup.value 0 s
      else if request == set_feature
      then handler.set_feature setup.value 0 s
      else if request == set_interface
      then handler.set_interface setup.value 0 s
      else (0, s)

  unfoldable pub interface_in : InterfaceHandler S → S → Option (List ℕ × ℕ × S)
  interface_in handler s =
      let request = calc_standard_request setup in
      if request == 10
      then number little 1 (handler.get_interface 0 s)
      else if request == 0
      then number little 2 (handler.get_status 0 s)
      else if request == 6
      then cut_answer setup.length (
          some
            (handler.get_descriptor (setup.value / 2 ^ 8) (setup.value % 2 ^ 8) setup.length 0 s))
      else some ([], 0, s)

  unfoldable pub endpoint_out : InterfaceHandler S → S → ℕ × S
  endpoint_out handler s =
      let request = calc_standard_request setup in
      if request == clear_feature
      then handler.endpoint_clear_feature setup.value (setup.index % 2 ^ 8) 0 s
      else if request == set_feature
      then handler.endpoint_set_feature setup.value (setup.index % 2 ^ 8) 0 s
      else (0, s)

  unfoldable pub endpoint_in : InterfaceHandler S → S → Option (List ℕ × ℕ × S)
  endpoint_in handler s =
      let request = calc_standard_request setup in
      if request == 0
      then number little 2 (handler.endpoint_get_status (setup.index % 2 ^ 8) 0 s)
      else if request == 12
      then no_answer (handler.endpoint_sync_frame (setup.index % 2 ^ 8) 0 s)
      else some ([], 0, s)

  module _ (seqnum : ℕ) (trx : GenericTransfer) where
    unfoldable pub to_device : ℕ → S → Handled S
    to_device transfer_buffer_length s =
        if is_out setup
        then answer_out seqnum (device_out transfer_buffer_length trx s)
        else answer_in seqnum trx (device_in s)

    -- The handler that was looked up: behind the interfaces, missing, or there.
    unfoldable pub to_interface : S → Option (Option (InterfaceHandler S)) → Handled S
    to_interface s none = undefined
    to_interface s (some none) = refuse seqnum (some invalid_arg) s
    to_interface s (some (some handler)) =
        if is_out setup
        then answer_out seqnum (interface_out handler s)
        else answer_in seqnum trx (interface_in handler s)

    unfoldable pub to_handler : S → Option (InterfaceHandler S) → Handled S
    to_handler s none = refuse seqnum (some invalid_arg) s
    to_handler s (some handler) =
        if is_out setup
        then answer_out seqnum (endpoint_out handler s)
        else answer_in seqnum trx (endpoint_in handler s)

    -- No reply at all, if the device has no such endpoint.
    unfoldable pub to_endpoint : S → Option (Endpoint × Option Interface) → Handled S
    to_endpoint s none = handled [] none none s
    to_endpoint s (some (ep, none)) = refuse seqnum (some invalid_arg) s
    to_endpoint s (some (ep, some intf)) =
        to_handler s (handler_at (setup.index % 2 ^ 8) v.device.interfaces v.interface_handlers)

    unfoldable pub standard_request : ℕ → S → Handled S
    standard_request transfer_buffer_length s =
        let recipient = calc_recipient setup in
        if recipient == recipient_device
        then to_device transfer_buffer_length s
        else if recipient == recipient_interface
        then to_interface s (get_elem? v.interface_handlers setup.index)
        else if recipient == recipient_endpoint
        then to_endpoint s (find_ep v.device (setup.index % 2 ^ 8))
        else refuse seqnum none s

    unfoldable pub pass_to : Call → S → Option (Option (InterfaceHandler S)) → Handled S
    pass_to call s none = undefined
    pass_to call s (some none) = refuse seqnum (some invalid_arg) s
    pass_to call s (some (some handler)) = pass_on call s

    unfoldable pub other_request : S → Handled S
    other_request s =
        let recipient = calc_recipient setup in
        let found = get_elem? v.interface_handlers setup.index in
        if recipient == recipient_device
        then pass_on device_request s
        else if recipient == recipient_interface
        then pass_to (interface_request setup.index) s found
        else if recipient == recipient_endpoint
        then pass_to (endpoint_request setup.index) s found
        else refuse seqnum none s

    unfoldable pub handle_control_urb : ℕ → S → Handled S
    handle_control_urb transfer_buffer_length s =
        if calc_request_type setup == 0
        then standard_request transfer_buffer_length s
        else other_request s

-- A transfer to the handler of an interface, which refuses it if there is none.
abbrev pub to_transfer : {S : Type 0} → ℕ → Call → S → Option (InterfaceHandler S) → Handled S
to_transfer seqnum call s none = refuse seqnum none s
to_transfer seqnum call s (some handler) = pass_on call s

-- The transfers of the other kinds; `intf` is a copy of the interface that `find_ep` found for the
-- command, and `handler` its member.
unfoldable pub dispatch_transfer :
    {S : Type 0} → ℕ → ℕ → Endpoint → Interface → Option (InterfaceHandler S) → S → Handled S
dispatch_transfer seqnum number_of_packets ep intf handler s =
    if ep.attributes == 2
    then to_transfer seqnum (bulk_transfer intf ep) s handler
    else if ep.attributes == 3
    then to_transfer seqnum (interrupt_transfer intf ep) s handler
    else if ep.attributes == 1
    then to_transfer seqnum (isochronous_transfer intf ep (num_iso number_of_packets)) s handler
    else handled [] none (some invalid_arg) s

-- The command has the transfer `trx`.
unfoldable pub dispatch_urb :
    {S : Type 0}
    → VirtualDevice S
    → Bool
    → CmdSubmit GenericTransfer
    → GenericTransfer
    → Endpoint
    → Option (Interface × Option (InterfaceHandler S))
    → S
    → Handled S
dispatch_urb v little cmd trx ep none s =
    if ep.attributes == 0
    then handle_control_urb v cmd.setup little cmd.header.seqnum trx cmd.transfer_buffer_length s
    else handled [] none (some internal_error) s
dispatch_urb v little cmd trx ep (some (intf, handler)) s =
    if ep.attributes == 0
    then handle_control_urb v cmd.setup little cmd.header.seqnum trx cmd.transfer_buffer_length s
    else dispatch_transfer cmd.header.seqnum cmd.number_of_packets ep intf handler s
