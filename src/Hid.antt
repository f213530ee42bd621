-- ===== src/Hid.antt =====
-- The input reports of a virtual HID device: the interrupt transfers of components/usbipdcpp/
-- usbipdcpp/src/virtual_device/HidVirtualInterfaceHandler.cpp, over the queue of requests of
-- include/virtual_device/VirtualInterfaceHandler.h. Every operation runs under its locks.
use esp32_usb_ip.Prelude.{
  ℕ, ◌%◌, ◌^◌, min, Bool, true, false, ◌==◌, if◌then◌else◌, Option, none, some, List, [], ◌∷◌, ◌++◌,
  length, take,
}
use esp32_usb_ip.Protocol.Transfer.{GenericTransfer}
use esp32_usb_ip.Requests.{
  Request, EndpointRequestQueue, enqueue, dequeue_any, empty, cancel_by_seqnum,
}
use esp32_usb_ip.Protocol.Response.{
  RetSubmit, RetUnlink, create_ret_submit_ok_with_no_iso, create_ret_unlink_success,
}
pub mod Steps
pub mod Reports
mod Examples

pub record HidVirtualInterfaceHandler : Type 0 where
  pub pending_input_reports : List (List ℕ)
  pub endpoint_requests : EndpointRequestQueue

-- A request answered with a report, of which it gets what it asks for.
unfoldable pub report_reply : List ℕ → Request → RetSubmit GenericTransfer
report_reply report request =
    let send_len = min (length report) request.length in
    create_ret_submit_ok_with_no_iso request.seqnum (send_len % 2 ^ 32)
      (some (record request.transfer { bytes = take send_len report; actual_length = send_len }))

abbrev pub Answer : Type 0
Answer = List (RetSubmit GenericTransfer) × HidVirtualInterfaceHandler

-- `handle_interrupt_transfer` of an endpoint IN, by whether its queue is empty and by the reports.
unfoldable pub take_report : ℕ → Request → List (List ℕ) → HidVirtualInterfaceHandler → Answer
take_report ep request [] h =
    ([], record h { endpoint_requests = enqueue ep request h.endpoint_requests })
take_report ep request (front ∷ reports) h =
    (report_reply front request ∷ [], record h { pending_input_reports = reports })

unfoldable pub handle_interrupt_in : ℕ → Request → HidVirtualInterfaceHandler → Answer
handle_interrupt_in ep request h =
    if empty ep h.endpoint_requests
    then take_report ep request h.pending_input_reports h
    else ([], record h { endpoint_requests = enqueue ep request h.endpoint_requests })

unfoldable pub give_report :
    List ℕ → Option (Request × EndpointRequestQueue) → HidVirtualInterfaceHandler → Answer
give_report report none h =
    ([], record h { pending_input_reports = h.pending_input_reports ++ (report ∷ []) })
give_report report (some (request, queues)) h =
    (report_reply report request ∷ [], record h { endpoint_requests = queues })

unfoldable pub send_input_report : List ℕ → HidVirtualInterfaceHandler → Answer
send_input_report report h = give_report report (dequeue_any h.endpoint_requests) h

unfoldable pub handle_unlink_seqnum :
    ℕ → ℕ → HidVirtualInterfaceHandler → RetUnlink × HidVirtualInterfaceHandler
handle_unlink_seqnum unlink_seqnum cmd_seqnum h = (
  create_ret_unlink_success cmd_seqnum,
  record h { endpoint_requests = cancel_by_seqnum unlink_seqnum h.endpoint_requests },
)
