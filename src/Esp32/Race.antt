-- ===== src/Esp32/Race.antt =====
-- `handle_unlink_seqnum` of components/usbipdcpp/src/esp32_handler/Esp32DeviceHandler.cpp reads
-- `cb->transfer` after it gave `transfers_mutex_` back.
use esp32_usb_ip.Prelude.{ℕ, ◌≡◌, refl, arith, true, ◌==◌, none, some, [], ◌∷◌}
use esp32_usb_ip.Prelude.Int.{negsuc}
use esp32_usb_ip.Device.{is_in}
use esp32_usb_ip.Esp32.{status_completed, submitted, transfer_bulk, CallbackArgs, lookup, free}
use esp32_usb_ip.Esp32.Submit.{
  Urb, callback_args, type_of, register, unregister, after_submit, start_transfer, receive_urb,
  mark, mark_found, mark_unlinked,
}
use esp32_usb_ip.Esp32.Finish.{Completion, finish, finish_by, transfer_callback}
use esp32_usb_ip.Esp32.Order.{System, start, Reach, starts, receives, marks, finishes}

-- A bulk transfer OUT of one byte, whose number is `n`.
abbrev pub one_byte : ℕ → Urb
one_byte n = record {
  seqnum = n;
  transfer_flags = 0;
  transfer_buffer_length = 1;
  setup = record { request_type = 0; request = 0; value = 0; index = 0; length = 0 };
  ep = record { address = 2; attributes = 2; max_packet_size = 64; interval = 0 };
  has_interface = true;
}

abbrev pub in_flight : ℕ → CallbackArgs
in_flight n = callback_args (one_byte n) transfer_bulk

abbrev pub unlinked_by : ℕ → CallbackArgs → CallbackArgs
unlinked_by m cb = record cb { unlinked = true; unlink_cmd_seqnum = m }

abbrev pub done : Completion
done = record { status = status_completed; actual_num_bytes = 1; packets = [] }

-- For any two numbers, an order of the steps leads to a receiver that is about to read the transfer
-- of arguments that were freed: the command of the one number was submitted, that of the other
-- unlinks it, and the transfer ended before the receiver went on to cancel it.
pub unlink_race :
    (n m : ℕ)
    → (s : System) × Reach (m ∷ n ∷ []) s
      × (s.cancelling ≡ some 0)
      × (lookup 0 s.handler.callbacks ≡ none)
unfolding start receive_urb type_of start_transfer after_submit register mark_unlinked mark_found
    mark lookup transfer_callback finish_by finish unregister free callback_args is_in
unlink_race n m =
    let same : (n == n) ≡ true = ground arith in
    (
      _,
      finishes 0 (unlinked_by m (in_flight n)) done submitted
          (marks n m (receives (one_byte n) 0 (negsuc 0) submitted starts refl refl) refl)
          (rw same refl),
      rw same refl,
      rw same refl,
    )
