-- ===== src/Virtual/Descriptors.antt =====
-- The descriptors of a virtual device, in components/usbipdcpp/usbipdcpp/src/virtual_device/
-- VirtualDeviceHandler.cpp.
use esp32_usb_ip.Prelude.{
  ℕ, ◌+◌, ◌*◌, ◌/◌, ◌%◌, ◌^◌, ltb, ◌==◌, if◌then◌else◌, Option, none, some, List, [], ◌∷◌, ◌++◌,
  length, take, set,
}
use esp32_usb_ip.Device.{bcd_of_version, Endpoint, Interface}
use esp32_usb_ip.Protocol.{urb_status, epipe}
use esp32_usb_ip.Virtual.{InterfaceHandler, VirtualDevice}
use esp32_usb_ip.Virtual.Pool.{get_string}

-- `if (descriptor_length < desc.size()) desc.resize(descriptor_length);`
unfoldable pub cut : ℕ → List ℕ → List ℕ
cut descriptor_length desc =
    if ltb descriptor_length (length desc) then take descriptor_length desc else desc

abbrev pub low_byte : ℕ → ℕ
low_byte n = n % 2 ^ 8

abbrev pub high_byte : ℕ → ℕ
high_byte n = n / 2 ^ 8 % 2 ^ 8

module _ {S : Type 0} (v : VirtualDevice S) where
  unfoldable pub device_descriptor : List ℕ
  device_descriptor =
      0x12
      ∷ 1
      ∷ low_byte (bcd_of_version v.usb_version)
      ∷ high_byte (bcd_of_version v.usb_version)
      ∷ v.device.device_class
      ∷ v.device.device_subclass
      ∷ v.device.device_protocol
      ∷ low_byte v.device.ep0_in.max_packet_size
      ∷ low_byte v.device.vendor_id
      ∷ high_byte v.device.vendor_id
      ∷ low_byte v.device.product_id
      ∷ high_byte v.device.product_id
      ∷ v.device.device_bcd.minor
      ∷ v.device.device_bcd.major
      ∷ v.string_manufacturer_value
      ∷ v.string_product_value
      ∷ v.string_serial_value
      ∷ v.device.num_configurations
      ∷ []

  unfoldable pub get_device_descriptor : ℕ → List ℕ
  get_device_descriptor descriptor_length = cut descriptor_length device_descriptor

  unfoldable pub get_bos_descriptor : ℕ → List ℕ
  get_bos_descriptor descriptor_length = cut descriptor_length (5 ∷ 0xF ∷ 5 ∷ 0 ∷ 0 ∷ [])

  unfoldable pub get_device_qualifier_descriptor : ℕ → List ℕ
  get_device_qualifier_descriptor descriptor_length = cut descriptor_length (
      0x0A
      ∷ 6
      ∷ v.usb_version.minor
      ∷ v.usb_version.major
      ∷ v.device.device_class
      ∷ v.device.device_subclass
      ∷ v.device.device_protocol
      ∷ low_byte v.device.ep0_in.max_packet_size
      ∷ v.device.num_configurations
      ∷ 0
      ∷ [])

unfoldable pub endpoint_descriptor : Endpoint → List ℕ
endpoint_descriptor e =
    7
    ∷ 5
    ∷ e.address
    ∷ e.attributes
    ∷ low_byte e.max_packet_size
    ∷ high_byte e.max_packet_size
    ∷ e.interval
    ∷ []

unfoldable pub endpoint_descriptors : List Endpoint → List ℕ
endpoint_descriptors [] = []
endpoint_descriptors (e ∷ es) = endpoint_descriptor e ++ endpoint_descriptors es

unfoldable pub interface_descriptor : {S : Type 0} → ℕ → Interface → InterfaceHandler S → List ℕ
interface_descriptor i intf handler =
    (9
      ∷ 4
      ∷ low_byte i
      ∷ 0
      ∷ low_byte (length intf.endpoints)
      ∷ intf.interface_class
      ∷ intf.interface_subclass
      ∷ intf.interface_protocol
      ∷ handler.string_interface_value
      ∷ [])
    ++ (handler.class_specific_descriptor ++ endpoint_descriptors intf.endpoints)

-- The loop over the interfaces; `none` where one has no handler, which the loop does not test.
abbrev pub prefixed : List ℕ → Option (List ℕ) → Option (List ℕ)
prefixed desc none = none
prefixed desc (some rest) = some (desc ++ rest)

unfoldable pub interface_descriptors :
    {S : Type 0} → ℕ → List Interface → List (Option (InterfaceHandler S)) → Option (List ℕ)
interface_descriptors i [] handlers = some []
interface_descriptors i (intf ∷ intfs) [] = none
interface_descriptors i (intf ∷ intfs) (none ∷ handlers) = none
interface_descriptors i (intf ∷ intfs) (some handler ∷ handlers) =
    prefixed (interface_descriptor i intf handler) (interface_descriptors (i + 1) intfs handlers)

-- `desc[2]` and `desc[3]`, the length of the whole.
unfoldable pub with_total : List ℕ → List ℕ
with_total desc = set (set desc 2 (low_byte (length desc))) 3 (high_byte (length desc))

module _ {S : Type 0} (v : VirtualDevice S) where
  unfoldable pub configuration_header : List ℕ
  configuration_header =
      9
      ∷ 2
      ∷ 0
      ∷ 0
      ∷ low_byte (length v.device.interfaces)
      ∷ v.device.configuration_value
      ∷ v.string_configuration_value
      ∷ 0x80
      ∷ 0x32
      ∷ []

  unfoldable pub configuration_of : ℕ → Option (List ℕ) → Option (List ℕ)
  configuration_of descriptor_length none = none
  configuration_of descriptor_length (some rest) =
      some (cut descriptor_length (with_total (configuration_header ++ rest)))

  unfoldable pub get_configuration_descriptor : ℕ → Option (List ℕ)
  get_configuration_descriptor descriptor_length =
      configuration_of descriptor_length
        (interface_descriptors 0 v.device.interfaces v.interface_handlers)

-- The characters of a string, low byte first.
unfoldable pub character_bytes : List ℕ → List ℕ
character_bytes [] = []
character_bytes (c ∷ cs) = low_byte c ∷ high_byte c ∷ character_bytes cs

unfoldable pub string_descriptor : List ℕ → List ℕ
string_descriptor string = low_byte ((length string + 1) * 2) ∷ 3 ∷ character_bytes string

abbrev pub string_answer : ℕ → ℕ → Option (List ℕ) → List ℕ × ℕ
string_answer descriptor_length status none = ([], urb_status epipe)
string_answer descriptor_length status (some string) =
    (cut descriptor_length (string_descriptor string), status)

-- The descriptor, and the status behind `p_status`.
unfoldable pub get_string_descriptor : {S : Type 0} → VirtualDevice S → ℕ → ℕ → ℕ → List ℕ × ℕ
get_string_descriptor v language_id descriptor_length status =
    if language_id == 0
    then (cut descriptor_length (4 ∷ 3 ∷ 9 ∷ 4 ∷ []), status)
    else string_answer descriptor_length status (get_string language_id v.string_pool)

-- `request_get_descriptor`; the handlers' state is threaded for `get_other_speed_descriptor`, and
-- `none` is the missing handler.
abbrev pub answered : {S : Type 0} → ℕ → S → Option (List ℕ) → Option (List ℕ × ℕ × S)
answered status s none = none
answered status s (some desc) = some (desc, status, s)

abbrev pub answered_string : {S : Type 0} → S → List ℕ × ℕ → Option (List ℕ × ℕ × S)
answered_string s (desc, status) = some (desc, status, s)

unfoldable pub request_get_descriptor :
    {S : Type 0} → VirtualDevice S → ℕ → ℕ → ℕ → ℕ → S → Option (List ℕ × ℕ × S)
request_get_descriptor v type language_id descriptor_length status s =
    if type == 1
    then some (get_device_descriptor v descriptor_length, status, s)
    else if type == 2
    then answered status s (get_configuration_descriptor v descriptor_length)
    else if type == 6
    then some (get_device_qualifier_descriptor v descriptor_length, status, s)
    else if type == 0xF
    then some (get_bos_descriptor v descriptor_length, status, s)
    else if type == 3
    then answered_string s (get_string_descriptor v language_id descriptor_length status)
    else if type == 7
    then some (v.device_handler.get_other_speed_descriptor language_id descriptor_length status s)
    else some ([], status, s)
