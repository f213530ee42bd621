-- ===== src/Esp32.antt =====
-- The transfers of the ESP32 device handler: components/usbipdcpp/src/esp32_handler/
-- Esp32DeviceHandler.cpp and its header. The constructor switches chunked transfers off, so that
-- their tables stay empty and only the other path runs. The contents of the buffers are left out.
-- What the USB host library answers is an argument of the operations.
use esp32_usb_ip.Prelude.{ℕ, Bool, ◌==◌, if◌then◌else◌, Option, none, some, List, [], ◌∷◌}
use esp32_usb_ip.Protocol.{urb_status, epipe, enoent}
use esp32_usb_ip.Protocol.Response.{RetSubmit, RetUnlink}
pub mod Submit
pub mod Finish
pub mod Order
pub mod Table
pub mod Ledger
pub mod Flights
pub mod Answers
pub mod PacketSizes
pub mod Buffers
pub mod Race
mod Examples

-- The statuses that the code names; the others are one.
pub data TransferStatus : Type 0 where
  status_completed status_error status_timed_out status_canceled : TransferStatus
  status_stall status_overflow status_no_device status_other : TransferStatus

-- An `int`, as it goes into a 32-bit field.
unfoldable pub trxstat2error : TransferStatus → ℕ
trxstat2error status_completed = urb_status 0
trxstat2error status_canceled = urb_status 104
trxstat2error status_error = urb_status epipe
trxstat2error status_stall = urb_status epipe
trxstat2error status_timed_out = urb_status epipe
trxstat2error status_overflow = urb_status epipe
trxstat2error status_no_device = urb_status 108
trxstat2error status_other = urb_status enoent

-- The answer of the host library to a submission, as far as the code tells it apart: ESP_OK,
-- ESP_ERR_NOT_FOUND, and the other errors.
pub data Submission : Type 0 where
  submitted not_found rejected : Submission

pub data TransferType : Type 0 where
  transfer_ctrl transfer_bulk transfer_intr transfer_isochronous : TransferType

-- `esp32_callback_args`, with the fields that `receive_urb` sets of the transfer that it owns.
pub record CallbackArgs : Type 0 where
  pub seqnum : ℕ
  pub transfer_type : TransferType
  pub is_out : Bool
  pub unlinked : Bool
  pub unlink_cmd_seqnum : ℕ
  pub original_transfer_buffer_length : ℕ
  pub endpoint_address : ℕ
  pub num_bytes : ℕ
  pub flags : ℕ

-- A transfer in a reply is the address of the arguments that owned it.
pub data Reply : Type 0 where
  ret_submit : RetSubmit ℕ → Reply
  ret_unlink : RetUnlink → Reply

unfoldable pub lookup {ℓ} : {A : Type ℓ} → ℕ → List (ℕ × A) → Option A
lookup key [] = none
lookup key ((k, a) ∷ rest) = let found = lookup key rest in if k == key then some a else found

-- `map.erase(key)`
unfoldable pub erase {ℓ} : {A : Type ℓ} → ℕ → List (ℕ × A) → List (ℕ × A)
erase key [] = []
erase key ((k, a) ∷ rest) =
    let others = erase key rest in if k == key then others else (k, a) ∷ others

-- `map[key] = a`
abbrev pub assign {ℓ} : {A : Type ℓ} → ℕ → A → List (ℕ × A) → List (ℕ × A)
assign key a entries = (key, a) ∷ erase key entries

-- The object at an address is freed.
unfoldable pub free {ℓ} : {A : Type ℓ} → ℕ → List (ℕ × A) → List (ℕ × A)
free address [] = []
free address ((k, a) ∷ rest) =
    let others = free address rest in if k == address then rest else (k, a) ∷ others

-- `transfers` gives the address of the arguments of a sequence number. `callbacks` are the arguments
-- in use, by their addresses: those of the transfers that the host library has. `replies` are those
-- handed to the session, the last one first. `leaked` are the addresses of arguments, with the transfers
-- that they own, that nothing leads to any more.
pub record Esp32DeviceHandler : Type 0 where
  pub device_removed : Bool
  pub all_transfer_should_stop : Bool
  pub transfers : List (ℕ × ℕ)
  pub callbacks : List (ℕ × CallbackArgs)
  pub pending_count : ℕ
  pub replies : List Reply
  pub leaked : List ℕ

abbrev pub submit : Reply → Esp32DeviceHandler → Esp32DeviceHandler
submit r d = record d { replies = r ∷ d.replies }
