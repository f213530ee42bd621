-- ===== src/Cdc/Examples.antt =====
-- A serial port with a buffer of four bytes, and the theorems at it.
use esp32_usb_ip.Prelude.{
  ℕ, ◌%◌, ◌^◌, ◌≡◌, refl, inl, min, true, false, some, List, [], ◌∷◌, ◌++◌, length, take, arith,
}
use esp32_usb_ip.Protocol.{urb_status}
use esp32_usb_ip.Protocol.Transfer.{GenericTransfer}
use esp32_usb_ip.Protocol.Response.{create_ret_submit_with_status_and_no_iso}
use esp32_usb_ip.SetupPacket.{SetupPacket, calc_request_type, is_out}
use esp32_usb_ip.Requests.{Request}
use esp32_usb_ip.Ring.{new}
use esp32_usb_ip.Ring.Operations.{new_lem}
use esp32_usb_ip.Cdc.Coding.{default_coding}
use esp32_usb_ip.Cdc.Data.{CdcAcmDataInterfaceHandler, send_data}
use esp32_usb_ip.Cdc.Flow.{Streamed, Offered, send_data-Offered}
use esp32_usb_ip.Cdc.Runs as Runs
use esp32_usb_ip.Cdc.Comm.{
  CdcAcmCommunicationInterfaceHandler, handle_non_standard_request_type_control_urb,
}
use esp32_usb_ip.Cdc.LineCoding.{IsClassRequest, coding_of, get_line_coding-set_line_coding}
use esp32_usb_ip.Cdc.Notifications as Notifications

abbrev carrying : List ℕ → GenericTransfer
carrying bytes = record { bytes = bytes; iso_descriptors = []; actual_length = 0; data_offset = 0 }

abbrev request : ℕ → Request
request n = record { seqnum = n; length = 2; transfer = carrying [] }

abbrev port : CdcAcmDataInterfaceHandler
port = record {
  tx_buffer = new 4;
  endpoint_requests = [];
  tx_high_watermark = 3;
  tx_low_watermark = 1;
  disconnected = false;
}

-- A request that is given three bytes and has room for two, five bytes of which three find room,
-- and the requests that take them.
abbrev traffic : List Runs.Event
traffic =
    Runs.asks 0x82 (request 5) (1 ∷ 2 ∷ 3 ∷ [])
    ∷ Runs.sends (4 ∷ 5 ∷ 6 ∷ 7 ∷ 8 ∷ [])
    ∷ Runs.asks 0x82 (request 6) []
    ∷ Runs.fills (9 ∷ [])
    ∷ Runs.unlinks 6 7
    ∷ Runs.flushes
    ∷ Runs.asks 0x82 (request 8) []
    ∷ []

run-Streamed_example : Streamed port (Runs.all_accepted traffic port) (Runs.run traffic port)
run-Streamed_example = Runs.run-Streamed traffic port (new_lem 4 (omega arith)).0

send_data-Offered_example :
    Offered (1 ∷ 2 ∷ 3 ∷ 4 ∷ 5 ∷ []) port (send_data (1 ∷ 2 ∷ 3 ∷ 4 ∷ 5 ∷ []) port)
send_data-Offered_example =
    send_data-Offered (1 ∷ 2 ∷ 3 ∷ 4 ∷ 5 ∷ []) port (new_lem 4 (omega arith)).0

abbrev control : CdcAcmCommunicationInterfaceHandler
control = record {
  line_coding = default_coding;
  control_signal_state = record { dtr = false; rts = false };
  pending_notification = [];
  endpoint_requests = [];
  data_handler = true;
}

abbrev set_setup : SetupPacket
set_setup = record { request_type = 0x21; request = 0x20; value = 0; index = 0; length = 7 }

abbrev get_setup : SetupPacket
get_setup = record { request_type = 0xA1; request = 0x21; value = 0; index = 0; length = 7 }

-- 9600 baud, two stop bits, even parity, seven data bits.
abbrev slow : List ℕ
slow = 0x80 ∷ 0x25 ∷ 0x00 ∷ 0x00 ∷ 0x02 ∷ 0x02 ∷ 0x07 ∷ []

get_line_coding-set_line_coding_example :
    (handle_non_standard_request_type_control_urb 10 get_setup
      (carrying [])
      (handle_non_standard_request_type_control_urb 9 set_setup (carrying slow) control).2).0
    ≡ create_ret_submit_with_status_and_no_iso 10
        (urb_status 0)
        (min 7 (length (coding_of slow)) % 2 ^ 32)
        (some (record (carrying []) {
          bytes = take 7 (coding_of slow);
          actual_length = min 7 (length (coding_of slow));
        }))
unfolding IsClassRequest calc_request_type is_out
get_line_coding-set_line_coding_example =
    get_line_coding-set_line_coding 9 10 set_setup get_setup (carrying slow) (carrying []) control
      (ground arith) (refl, refl, refl) (refl, refl, refl)

abbrev changes : List Notifications.Event
changes =
    Notifications.changes 1
    ∷ Notifications.changes 3
    ∷ Notifications.asks 0x81 (request 11)
    ∷ Notifications.asks 0x81 (request 12)
    ∷ Notifications.unlinks 12 13
    ∷ Notifications.changes 2
    ∷ []

run-Told_example :
    Notifications.Told
      (Notifications.held control.pending_notification ++ Notifications.notified changes)
      (Notifications.run changes control)
unfolding Notifications.IsExclusive
run-Told_example = Notifications.run-Told changes control (inl refl)
