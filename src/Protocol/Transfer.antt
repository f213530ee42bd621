-- ===== src/Protocol/Transfer.antt =====
-- The transfer interface of `AbstDeviceHandler` (components/usbipdcpp/usbipdcpp/include/
-- DeviceHandler/DeviceHandler.h) and its default implementation on `GenericTransfer`
-- (src/DeviceHandler/DeviceHandler.cpp). A transfer handle is owned by one `TransferHandle` at a
-- time, so the object behind it is a plain value here.
use esp32_usb_ip.Prelude.{
  ℕ, ◌-◌, ◌/◌, ◌^◌, Bool, false, ltb, if◌then◌else◌, Option, none, some, List, get_or, set,
  replicate,
}
use esp32_usb_ip.Prelude.Int.{ℤ, pos, negsuc}
use esp32_usb_ip.Wire.{memcpy}
use esp32_usb_ip.Stream.{Asio, Outcome, done, thrown, Code, system_error, length_error}
use esp32_usb_ip.SetupPacket.{SetupPacket}
use esp32_usb_ip.Protocol.{Header, IsoDescriptor, iso_zero}

-- The virtual functions that the messages call, over the socket states `S` and the transfers `T`.
-- `alloc_transfer_handle` gives `none` where it throws `std::length_error`, and
-- `recv_transfer_data` an optional error code with the transfer and the socket after it.
pub record Handler (S T : Type 0) : Type 0 where
  pub alloc_transfer_handle : ℕ → ℤ → Header → SetupPacket → Option T
  pub get_transfer_buffer : T → List ℕ
  pub put_transfer_buffer : T → List ℕ → T
  pub get_read_data_offset : T → ℕ
  pub get_write_data_offset : Header → ℕ
  pub get_iso_descriptor : T → ℕ → IsoDescriptor
  pub set_iso_descriptor : T → ℕ → IsoDescriptor → T
  pub custom_transfer_io : Bool
  pub recv_transfer_data : T → ℕ → S → Option Code × T × S

pub record GenericTransfer : Type 0 where
  pub bytes : List ℕ
  pub iso_descriptors : List IsoDescriptor
  pub actual_length : ℕ
  pub data_offset : ℕ

-- `resize(num_iso_packets)`: the `int` becomes a `size_t`, and a vector of 20-byte descriptors
-- holds PTRDIFF_MAX / 20 of them at most; `none` is the `std::length_error`. Running out of memory
-- below that bound is not modelled.
abbrev pub max_iso : ℕ
max_iso = (2 ^ 31 - 1) / 20

abbrev pub iso_count : ℤ → ℕ
iso_count (pos n) = n
iso_count (negsuc k) = 2 ^ 32 - 1 - k

unfoldable pub generic_alloc : ℕ → ℤ → Header → SetupPacket → Option GenericTransfer
generic_alloc buffer_length num_iso_packets header setup =
    if ltb max_iso (iso_count num_iso_packets)
    then none
    else some (record {
      bytes = replicate buffer_length 0;
      iso_descriptors = replicate (iso_count num_iso_packets) iso_zero;
      actual_length = 0;
      data_offset = 0;
    })

-- The default `recv_transfer_data` reads to the front of the buffer. A read throws nothing but a
-- `system_error`, which the overload with an error code hands over as that code.
pub generic_received :
    {S : Type 0} → GenericTransfer → Outcome S (List ℕ) → Option Code × GenericTransfer × S
generic_received t (done bytes s) = (none, record t { bytes = memcpy t.bytes 0 bytes }, s)
generic_received t (thrown (system_error c) s) = (some c, t, s)
generic_received t (thrown length_error s) = (none, t, s)

unfoldable pub generic_recv :
    {S : Type 0} → Asio S → GenericTransfer → ℕ → S → Option Code × GenericTransfer × S
generic_recv net t n s = generic_received t (net.read n s)

unfoldable pub generic_handler : {S : Type 0} → Asio S → Handler S GenericTransfer
generic_handler net = record {
  alloc_transfer_handle = generic_alloc;
  get_transfer_buffer = λ t. t.bytes;
  put_transfer_buffer = λ t bytes. record t { bytes = bytes };
  get_read_data_offset = λ t. t.data_offset;
  get_write_data_offset = λ header. 0;
  get_iso_descriptor = λ t i. get_or t.iso_descriptors i iso_zero;
  set_iso_descriptor = λ t i desc. record t { iso_descriptors = set t.iso_descriptors i desc };
  custom_transfer_io = false;
  recv_transfer_data = generic_recv net;
}
