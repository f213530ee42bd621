-- ===== src/Device.antt =====
-- components/usbipdcpp/usbipdcpp: a device as it is announced to a client, of include/Device.h,
-- src/Device.cpp, include/Interface.h, src/Interface.cpp, include/Endpoint.h and include/Version.h.
-- A string is the list of its bytes, and so is `path.string()` of a file path.
pub mod Layout
pub mod Lookup
mod Examples
use esp32_usb_ip.Prelude.{
  ℕ, ◌+◌, ◌-◌, ◌*◌, ◌/◌, ◌%◌, ◌^◌, min, bit_and, bit_or, Bool, ◌==◌, not, if◌then◌else◌, Option,
  none, some, List, [], ◌∷◌, ◌++◌, length, take, set, replicate,
}
use esp32_usb_ip.Wire.{Field, int, arr, memcpy, to_network_array, to_network_data}

pub record Version : Type 0 where
  pub major : ℕ
  pub minor : ℕ
  pub patch : ℕ

-- `Version(std::uint16_t bcd)`
unfoldable pub version_of_bcd : ℕ → Version
version_of_bcd bcd = record {
  major = bcd / 256 % 2 ^ 8;
  minor = bit_and (bcd / 16) 15;
  patch = bit_and bcd 15;
}

-- `operator std::uint16_t`; the shifts are on `int`, each is cut to 16 bits by `|=`.
unfoldable pub bcd_of_version : Version → ℕ
bcd_of_version v =
    bit_or (bit_or (v.major * 2 ^ 8 % 2 ^ 16) (v.minor * 2 ^ 4 % 2 ^ 16)) (v.patch % 2 ^ 16)

pub record Endpoint : Type 0 where
  pub address : ℕ
  pub attributes : ℕ
  pub max_packet_size : ℕ
  pub interval : ℕ

-- `direction() == Direction::In`
unfoldable pub is_in : Endpoint → Bool
is_in e = not (bit_and e.address 128 == 0)

unfoldable pub is_ep0 : Endpoint → Bool
is_ep0 e = bit_and e.address 127 == 0

abbrev pub get_ep0_in : ℕ → Endpoint
get_ep0_in size = record { address = 0x80; attributes = 0; max_packet_size = size; interval = 0 }

abbrev pub get_ep0_out : ℕ → Endpoint
get_ep0_out size = record { address = 0x00; attributes = 0; max_packet_size = size; interval = 0 }

pub record Interface : Type 0 where
  pub interface_class : ℕ
  pub interface_subclass : ℕ
  pub interface_protocol : ℕ
  pub endpoints : List Endpoint

unfoldable pub interface_to_bytes : Interface → List ℕ
interface_to_bytes i =
    set (set (set (replicate 4 0) 0 i.interface_class) 1 i.interface_subclass) 2
      i.interface_protocol

pub record UsbDevice : Type 0 where
  pub path : List ℕ
  pub busid : List ℕ
  pub bus_num : ℕ
  pub dev_num : ℕ
  pub speed : ℕ
  pub vendor_id : ℕ
  pub product_id : ℕ
  pub device_bcd : Version
  pub device_class : ℕ
  pub device_subclass : ℕ
  pub device_protocol : ℕ
  pub configuration_value : ℕ
  pub num_configurations : ℕ
  pub interfaces : List Interface
  pub ep0_in : Endpoint
  pub ep0_out : Endpoint

-- A string copied into a zeroed array of `n` bytes, of which the last stays 0.
unfoldable pub string_buffer : ℕ → List ℕ → List ℕ
string_buffer n s = memcpy (replicate n 0) 0 (take (min (length s) (n - 1)) s)

abbrev pub device_fields : UsbDevice → List Field
device_fields d =
    arr (string_buffer 256 d.path)
    ∷ arr (string_buffer 32 d.busid)
    ∷ int 4 d.bus_num
    ∷ int 4 d.dev_num
    ∷ int 4 d.speed
    ∷ int 2 d.vendor_id
    ∷ int 2 d.product_id
    ∷ int 2 (bcd_of_version d.device_bcd)
    ∷ int 1 d.device_class
    ∷ int 1 d.device_subclass
    ∷ int 1 d.device_protocol
    ∷ int 1 d.configuration_value
    ∷ int 1 d.num_configurations
    ∷ int 1 (length d.interfaces % 2 ^ 8)
    ∷ []

unfoldable pub to_bytes_without_interfaces : Bool → UsbDevice → List ℕ
to_bytes_without_interfaces little d = to_network_array little (device_fields d)

unfoldable pub device_to_bytes : Bool → UsbDevice → List ℕ
device_to_bytes little d = to_bytes_without_interfaces little d

unfoldable pub append_interfaces : List ℕ → List Interface → List ℕ
append_interfaces result [] = result
append_interfaces result (i ∷ is) = append_interfaces (result ++ interface_to_bytes i) is

unfoldable pub to_bytes_with_interfaces : Bool → UsbDevice → List ℕ
to_bytes_with_interfaces little d =
    append_interfaces (to_network_data little (arr (to_bytes_without_interfaces little d) ∷ []))
      d.interfaces

-- The loops of `find_ep`: the endpoints of an interface, and the interfaces.
unfoldable pub find_endpoint : ℕ → List Endpoint → Option Endpoint
find_endpoint ep [] = none
find_endpoint ep (e ∷ es) = if e.address == ep then some e else find_endpoint ep es

unfoldable pub find_interface : ℕ → List Interface → Option (Endpoint × Option Interface)
find_interface ep [] = none
find_interface ep (i ∷ is) = elim (find_endpoint ep i.endpoints) [
  | some e ↦ some (e, some i)
  | none ↦ find_interface ep is
]

unfoldable pub find_ep : UsbDevice → ℕ → Option (Endpoint × Option Interface)
find_ep d ep =
    if ep == d.ep0_in.address
    then some (d.ep0_in, none)
    else if ep == d.ep0_out.address
    then some (d.ep0_out, none)
    else find_interface ep d.interfaces
