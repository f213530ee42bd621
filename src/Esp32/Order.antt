-- ===== src/Esp32/Order.antt =====
-- The threads of the ESP32 device handler: the session's receiver, which submits and unlinks, and
-- the client of the USB host library, which calls back, in any order of their steps.
-- components/usbipdcpp/src/esp32_handler/Esp32DeviceHandler.cpp.
-- `receive_urb` is one step: the library has the transfer only from its submission on, which ends it,
-- and what a failed submission undoes no other thread can reach.
use esp32_usb_ip.Prelude.{ℕ, ◌≡◌, true, false, Option, none, some, List, [], ◌∷◌}
use esp32_usb_ip.Prelude.Int.{ℤ}
use esp32_usb_ip.Esp32.{Submission, CallbackArgs, lookup, Esp32DeviceHandler}
use esp32_usb_ip.Esp32.Submit.{Urb, receive_urb, mark_unlinked}
use esp32_usb_ip.Esp32.Finish.{Completion, transfer_callback}

-- `cancelling` are the arguments that the receiver has in hand in `handle_unlink_seqnum`, between the
-- mark and the read of their endpoint.
pub record System : Type 0 where
  pub handler : Esp32DeviceHandler
  pub cancelling : Option ℕ

unfoldable pub start : System
start = record {
  handler = record {
    device_removed = false;
    all_transfer_should_stop = false;
    transfers = [];
    callbacks = [];
    pending_count = 0;
    replies = [];
    leaked = [];
  };
  cancelling = none;
}

-- What the threads can come to, and the numbers of the commands received until then, the last first.
-- A new address is not one in use. The cancelling itself only asks the host library to call back.
pub data Reach : List ℕ → System → Type 0 where
  starts : Reach [] start
  receives :
      {numbers : List ℕ} {s : System} (u : Urb) (address : ℕ) (tweak_ret : ℤ) (err : Submission)
      → Reach numbers s
      → s.cancelling ≡ none
      → lookup address s.handler.callbacks ≡ none
      → Reach
          (u.seqnum ∷ numbers)
          (record s { handler = (receive_urb u address tweak_ret err s.handler).1 })
  marks :
      {numbers : List ℕ} {s : System} (unlink_seqnum cmd_seqnum : ℕ)
      → Reach numbers s
      → s.cancelling ≡ none
      → Reach (cmd_seqnum ∷ numbers) (record {
        handler = (mark_unlinked unlink_seqnum cmd_seqnum s.handler).1;
        cancelling = (mark_unlinked unlink_seqnum cmd_seqnum s.handler).0;
      })
  cancels :
      {numbers : List ℕ} {s : System} (address : ℕ) (cb : CallbackArgs)
      → Reach numbers s
      → s.cancelling ≡ some address
      → lookup address s.handler.callbacks ≡ some cb
      → Reach numbers (record s { cancelling = none })
  finishes :
      {numbers : List ℕ} {s : System} (address : ℕ) (cb : CallbackArgs) (c : Completion)
      (err : Submission)
      → Reach numbers s
      → lookup address s.handler.callbacks ≡ some cb
      → Reach numbers (record s { handler = transfer_callback address cb c err s.handler })
  -- `on_disconnection`, and `on_device_removed`
  stops :
      {numbers : List ℕ} {s : System}
      → Reach numbers s
      → Reach numbers (record s { handler = record s.handler { all_transfer_should_stop = true } })
  removes :
      {numbers : List ℕ} {s : System}
      → Reach numbers s
      → Reach numbers (record s { handler = record s.handler { device_removed = true } })
