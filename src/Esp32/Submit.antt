-- ===== src/Esp32/Submit.antt =====
-- A command goes to the device, and is unlinked: `receive_urb` and `handle_unlink_seqnum` of
-- components/usbipdcpp/src/esp32_handler/Esp32DeviceHandler.cpp.
use esp32_usb_ip.Prelude.{
  ℕ, ◌+◌, ◌-◌, ◌*◌, ◌/◌, ◌%◌, ◌^◌, bit_and, bit_or, Bool, true, false, ltb, ◌==◌, not, ◌&&◌,
  if◌then◌else◌, Option, none, some, List, [], ◌∷◌,
}
use esp32_usb_ip.Prelude.Int.{ℤ}
use esp32_usb_ip.Prelude.Bytes.{size_mod}
use esp32_usb_ip.SetupPacket.{SetupPacket, is_out}
use esp32_usb_ip.SetupPacket.Requests.{is_tweaked}
use esp32_usb_ip.Device.{Endpoint, is_in}
use esp32_usb_ip.Protocol.{ErrorType, no_device, internal_error, invalid_arg}
use esp32_usb_ip.Protocol.Response.{
  create_ret_submit_ok_without_data, create_ret_submit_epipe_without_data, create_ret_unlink,
}
use esp32_usb_ip.Esp32.{
  Submission, submitted, not_found, rejected, TransferType, transfer_ctrl, transfer_bulk,
  transfer_intr, transfer_isochronous, CallbackArgs, ret_submit, ret_unlink, lookup, erase, assign,
  free, Esp32DeviceHandler, submit,
}

-- The fields of a command that `receive_urb` reads, its endpoint, and whether it has an interface.
pub record Urb : Type 0 where
  pub seqnum : ℕ
  pub transfer_flags : ℕ
  pub transfer_buffer_length : ℕ
  pub setup : SetupPacket
  pub ep : Endpoint
  pub has_interface : Bool

abbrev pub is_control : Urb → Bool
is_control u = u.ep.attributes == 0

abbrev pub goes_out : Urb → Bool
goes_out u = if is_control u then is_out u.setup else not (is_in u.ep)

-- The smallest multiple of `mps` that holds `n`, in 32 bits; the code writes it in two ways.
abbrev pub align_bulk : ℕ → ℕ → ℕ
align_bulk mps n = (n + mps - 1) % 2 ^ 32 / mps * mps % 2 ^ 32

abbrev pub align_other : ℕ → ℕ → ℕ
align_other mps n = (n / mps + 1) * mps % 2 ^ 32

unfoldable pub num_bytes : Urb → ℕ
num_bytes u =
    let mps = u.ep.max_packet_size in
    let n = u.transfer_buffer_length in
    if is_control u
    then 8 + u.setup.length
    else if not (goes_out u) && ltb 0 mps
    then (if n % mps == 0
        then n
        else if u.ep.attributes == 2
        then align_bulk mps n
        else align_other mps n)
    else n

-- USB_TRANSFER_FLAG_ZERO_PACK is 1, and URB_ZERO_PACKET 0x40.
abbrev pub get_esp32_transfer_flags : ℕ → ℕ
get_esp32_transfer_flags flags = if bit_and flags 0x40 == 0 then 0 else 1

unfoldable pub type_of : ℕ → Option TransferType
type_of attributes =
    if attributes == 0
    then some transfer_ctrl
    else if attributes == 2
    then some transfer_bulk
    else if attributes == 3
    then some transfer_intr
    else if attributes == 1
    then some transfer_isochronous
    else none

unfoldable pub trx_flags : Urb → ℕ
trx_flags u =
    let flags = get_esp32_transfer_flags u.transfer_flags in
    if u.ep.attributes == 2 && goes_out u then bit_or flags 1 else flags

unfoldable pub callback_args : Urb → TransferType → CallbackArgs
callback_args u transfer_type = record {
  seqnum = u.seqnum;
  transfer_type = transfer_type;
  is_out = goes_out u;
  unlinked = false;
  unlink_cmd_seqnum = 0;
  original_transfer_buffer_length = u.transfer_buffer_length;
  endpoint_address = u.ep.address;
  num_bytes = num_bytes u;
  flags = trx_flags u;
}

unfoldable pub register : ℕ → CallbackArgs → Esp32DeviceHandler → Esp32DeviceHandler
register address cb d = record d {
  transfers = assign cb.seqnum address d.transfers;
  callbacks = (address, cb) ∷ d.callbacks;
  pending_count = (d.pending_count + 1) % size_mod;
}

-- The transfer is over: its number is erased, and its arguments are freed.
unfoldable pub unregister : ℕ → ℕ → Esp32DeviceHandler → Esp32DeviceHandler
unregister seqnum address d = record d {
  transfers = erase seqnum d.transfers;
  callbacks = free address d.callbacks;
  pending_count = (d.pending_count + size_mod - 1) % size_mod;
}

abbrev pub refused : ℕ → ℕ → Esp32DeviceHandler → Esp32DeviceHandler
refused seqnum address d =
    submit (ret_submit (create_ret_submit_epipe_without_data seqnum 0))
      (unregister seqnum address d)

-- What the host library answers.
unfoldable pub after_submit :
    ℕ → ℕ → Submission → Esp32DeviceHandler → Option ErrorType × Esp32DeviceHandler
after_submit seqnum address submitted d = (none, d)
after_submit seqnum address not_found d =
    (some no_device, refused seqnum address (record d { device_removed = true }))
after_submit seqnum address rejected d = (none, refused seqnum address d)

-- For an unknown type of transfer the new arguments, which own the transfer, are never freed.
unfoldable pub start_transfer :
    Urb
    → ℕ
    → Submission
    → Option TransferType
    → Esp32DeviceHandler
    → Option ErrorType × Esp32DeviceHandler
start_transfer u address err none d = (some invalid_arg, record d { leaked = address ∷ d.leaked })
start_transfer u address err (some transfer_type) d =
    after_submit u.seqnum address err (register address (callback_args u transfer_type) d)

-- `address` is that of the new arguments, `tweak_ret` what `tweak_special_requests` gives and `err`
-- what the host library answers. An error code ends the session.
unfoldable pub receive_urb :
    Urb → ℕ → ℤ → Submission → Esp32DeviceHandler → Option ErrorType × Esp32DeviceHandler
receive_urb u address tweak_ret err d =
    if d.device_removed
    then (some no_device, d)
    else if is_control u
    then (if is_tweaked tweak_ret
        then (
          none,
          submit (ret_submit (create_ret_submit_ok_without_data u.seqnum u.transfer_buffer_length))
              d,
        )
        else start_transfer u address err (type_of u.ep.attributes) d)
    else if u.has_interface
    then start_transfer u address err (type_of u.ep.attributes) d
    else (some internal_error, d)

-- `cb->unlinked = true; cb->unlink_cmd_seqnum = cmd_seqnum;`
unfoldable pub mark : ℕ → ℕ → List (ℕ × CallbackArgs) → List (ℕ × CallbackArgs)
mark address cmd_seqnum [] = []
mark address cmd_seqnum ((k, cb) ∷ rest) =
    let others = mark address cmd_seqnum rest in
    if k == address
    then (k, record cb { unlinked = true; unlink_cmd_seqnum = cmd_seqnum }) ∷ rest
    else (k, cb) ∷ others

unfoldable pub mark_found : ℕ → Option ℕ → Esp32DeviceHandler → Option ℕ × Esp32DeviceHandler
mark_found cmd_seqnum none d = (none, submit (ret_unlink (create_ret_unlink cmd_seqnum 0)) d)
mark_found cmd_seqnum (some address) d =
    (some address, record d { callbacks = mark address cmd_seqnum d.callbacks })

-- `handle_unlink_seqnum` until it gives `transfers_mutex_` back: then it has the arguments, if any,
-- whose transfer it reads for the endpoint to cancel.
unfoldable pub mark_unlinked : ℕ → ℕ → Esp32DeviceHandler → Option ℕ × Esp32DeviceHandler
mark_unlinked unlink_seqnum cmd_seqnum d =
    if d.device_removed
    then (none, d)
    else mark_found cmd_seqnum (lookup unlink_seqnum d.transfers) d
