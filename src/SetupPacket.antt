-- ===== src/SetupPacket.antt =====
-- components/usbipdcpp/usbipdcpp/include/SetupPacket.h: the eight bytes of a USB control request.
pub mod Codec
pub mod Requests
mod Examples
use esp32_usb_ip.Prelude.{ℕ, zero, suc, ◌+◌, ◌*◌, ◌/◌, ◌%◌, ◌^◌, bit_and, bit_or}
use esp32_usb_ip.Prelude.{Bool, true, false, not, ◌&&◌, ◌||◌, ◌==◌, if◌then◌else◌}
use esp32_usb_ip.Prelude.{List, [], ◌∷◌, get_or}

pub record SetupPacket : Type 0 where
  pub request_type : ℕ
  pub request : ℕ
  pub value : ℕ
  pub index : ℕ
  pub length : ℕ

-- The two stores of a 16-bit field: `x & 0xFF`, and `x >> 8` cut to a byte.
abbrev pub low_half : ℕ → ℕ
low_half x = bit_and x 0xFF

abbrev pub high_half : ℕ → ℕ
high_half x = x / 2 ^ 8 % 256

unfoldable pub to_bytes : SetupPacket → List ℕ
to_bytes s =
    s.request_type
    ∷ s.request
    ∷ low_half s.value
    ∷ high_half s.value
    ∷ low_half s.index
    ∷ high_half s.index
    ∷ low_half s.length
    ∷ high_half s.length
    ∷ []

-- `(uint16_t)(high << 8 | low)`
abbrev pub join : ℕ → ℕ → ℕ
join high low = bit_or (high * 256) low % 2 ^ 16

-- `setup` is a `std::array` of eight bytes, so no index is out of range.
unfoldable pub parse : List ℕ → SetupPacket
parse setup = record {
  request_type = at 0;
  request = at 1;
  value = join (at 3) (at 2);
  index = join (at 5) (at 4);
  length = join (at 7) (at 6);
}
  where
    at : ℕ → ℕ
    at i = get_or setup i 0

-- `StandardRequest`, `RequestRecipient`, `RequestType` and `PortFeat` of constant.h, as far as used.
abbrev pub clear_feature : ℕ
clear_feature = 1

abbrev pub set_feature : ℕ
set_feature = 3

abbrev pub set_configuration : ℕ
set_configuration = 9

abbrev pub set_interface : ℕ
set_interface = 11

abbrev pub recipient_device : ℕ
recipient_device = 0

abbrev pub recipient_interface : ℕ
recipient_interface = 1

abbrev pub recipient_endpoint : ℕ
recipient_endpoint = 2

abbrev pub recipient_other : ℕ
recipient_other = 3

abbrev pub class_request : ℕ
class_request = 0x01 * 2 ^ 5

abbrev pub port_reset : ℕ
port_reset = 4

abbrev pub usb_endpoint_halt : ℕ
usb_endpoint_halt = 0

abbrev pub usb_type_mask : ℕ
usb_type_mask = 0b01100000

abbrev pub usb_recip_mask : ℕ
usb_recip_mask = 0b00011111

unfoldable pub calc_request_type : SetupPacket → ℕ
calc_request_type s = bit_and s.request_type usb_type_mask

pub calc_standard_request : SetupPacket → ℕ
calc_standard_request s = s.request

pub calc_recipient : SetupPacket → ℕ
calc_recipient s = bit_and s.request_type usb_recip_mask

pub is_clear_halt_cmd : SetupPacket → Bool
is_clear_halt_cmd s =
    s.request == clear_feature
    && (s.request_type == recipient_endpoint && s.value == usb_endpoint_halt)

pub is_set_interface_cmd : SetupPacket → Bool
is_set_interface_cmd s = s.request == set_interface && s.request_type == recipient_interface

pub is_set_configuration_cmd : SetupPacket → Bool
is_set_configuration_cmd s = s.request == set_configuration && s.request_type == recipient_device

pub is_reset_device_cmd : SetupPacket → Bool
is_reset_device_cmd s =
    s.request == set_feature
    && (s.request_type == bit_or class_request recipient_other && s.value == port_reset)

unfoldable pub is_out : SetupPacket → Bool
is_out s = bit_and s.request_type 0x80 == 0 || s.length == 0

pub is_in : SetupPacket → Bool
is_in s = not (is_out s)

pub calc_ep0_address : SetupPacket → ℕ
calc_ep0_address s = if is_out s then 0x80 else 0x00
