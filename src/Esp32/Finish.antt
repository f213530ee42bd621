-- ===== src/Esp32/Finish.antt =====
-- The end of a transfer: `transfer_callback` of components/usbipdcpp/src/esp32_handler/
-- Esp32DeviceHandler.cpp, which the USB host library calls.
use esp32_usb_ip.Prelude.{
  ℕ, ◌+◌, ◌-◌, ◌%◌, ◌^◌, true, ltb, ◌==◌, not, ◌&&◌, if◌then◌else◌, some, List, [], ◌∷◌, length,
}
use esp32_usb_ip.Protocol.Response.{
  create_ret_submit, create_ret_submit_with_status_and_no_data, create_ret_unlink,
}
use esp32_usb_ip.Esp32.{
  TransferStatus, status_completed, status_error, status_timed_out, status_canceled, status_stall,
  status_overflow, status_no_device, status_other, trxstat2error, Submission, submitted, not_found,
  rejected, CallbackArgs, Reply, ret_submit, ret_unlink, Esp32DeviceHandler, submit,
}
use esp32_usb_ip.Esp32.Submit.{unregister, refused}

-- What the host library wrote into the transfer: its status, the bytes that moved, and those of
-- every isochronous packet.
pub record Completion : Type 0 where
  pub status : TransferStatus
  pub actual_num_bytes : ℕ
  pub packets : List ℕ

unfoldable pub total : List ℕ → ℕ
total [] = 0
total (n ∷ ns) = (n + total ns) % 2 ^ 32

unfoldable pub actual_length : CallbackArgs → Completion → ℕ
actual_length cb c =
    if not cb.is_out && ltb 0 (length c.packets)
    then total c.packets
    else if not cb.is_out && (cb.endpoint_address % 2 ^ 7 == 0)
    then (if ltb 8 c.actual_num_bytes then c.actual_num_bytes - 8 else 0)
    else c.actual_num_bytes

unfoldable pub reply_of : ℕ → CallbackArgs → Completion → Reply
reply_of address cb c =
    if cb.unlinked
    then ret_unlink (create_ret_unlink cb.unlink_cmd_seqnum (trxstat2error c.status))
    else if cb.is_out
    then ret_submit (
        create_ret_submit_with_status_and_no_data cb.seqnum (trxstat2error c.status)
          (actual_length cb c))
    else ret_submit (
        create_ret_submit cb.seqnum (trxstat2error c.status) (actual_length cb c) 0
          (length c.packets) (some address))

unfoldable pub finish : ℕ → CallbackArgs → Completion → Esp32DeviceHandler → Esp32DeviceHandler
finish address cb c d = submit (reply_of address cb c) (unregister cb.seqnum address d)

-- A transfer that was cancelled along with another one is submitted again.
unfoldable pub resubmit : ℕ → CallbackArgs → Submission → Esp32DeviceHandler → Esp32DeviceHandler
resubmit address cb submitted d = d
resubmit address cb not_found d = refused cb.seqnum address d
resubmit address cb rejected d = refused cb.seqnum address d

unfoldable pub finish_by :
    ℕ
    → CallbackArgs
    → Completion
    → Submission
    → TransferStatus
    → Esp32DeviceHandler
    → Esp32DeviceHandler
finish_by address cb c err status_canceled d =
    if cb.unlinked then finish address cb c d else resubmit address cb err d
finish_by address cb c err status_no_device d =
    finish address cb c (record d { device_removed = true })
finish_by address cb c err status_completed d = finish address cb c d
finish_by address cb c err status_error d = finish address cb c d
finish_by address cb c err status_timed_out d = finish address cb c d
finish_by address cb c err status_stall d = finish address cb c d
finish_by address cb c err status_overflow d = finish address cb c d
finish_by address cb c err status_other d = finish address cb c d

-- `cb` are the arguments at `address`, and `err` is what the host library answers if the transfer is
-- submitted again. Once the session ends, nothing is sent.
unfoldable pub transfer_callback :
    ℕ → CallbackArgs → Completion → Submission → Esp32DeviceHandler → Esp32DeviceHandler
transfer_callback address cb c err d =
    if d.all_transfer_should_stop
    then unregister cb.seqnum address d
    else finish_by address cb c err c.status d
