-- ===== src/Cdc/Serial.antt =====
-- A serial port as a virtual device: the standard requests that both interfaces answer alike, in
-- components/usbipdcpp/usbipdcpp/src/virtual_device/CdcAcmVirtualInterfaceHandler.cpp, with the
-- defaults of VirtualInterfaceHandler.cpp beside it, and the configuration that a host reads.
use esp32_usb_ip.Prelude.{
  ℕ, ◌+◌, ◌*◌, ◌≡◌, refl, ◌==◌, if◌then◌else◌, some, List, [], ◌∷◌, length, arith,
}
use esp32_usb_ip.Protocol.{urb_status, epipe}
use esp32_usb_ip.Device.{Interface}
use esp32_usb_ip.Virtual.{InterfaceHandler, VirtualDevice}
use esp32_usb_ip.Virtual.Descriptors.{get_configuration_descriptor}
use esp32_usb_ip.Virtual.Layout.{
  IsBlock, AreBlocks, HaveHandlers, interfaces_length, Configured,
  get_configuration_descriptor-Configured,
}
use esp32_usb_ip.Cdc.Comm.{get_class_specific_descriptor}

unfoldable pub request_set_interface : ℕ → ℕ → ℕ
request_set_interface alternate_setting status =
    if alternate_setting == 0 then status else urb_status epipe

-- The default of `request_get_descriptor`.
abbrev pub no_descriptor : List ℕ × ℕ
no_descriptor = ([], urb_status epipe)

-- The class-specific descriptor tells the two interfaces apart.
unfoldable pub serial_interface : {S : Type 0} → List ℕ → ℕ → InterfaceHandler S
serial_interface descriptor string_interface = record {
  string_interface_value = string_interface;
  class_specific_descriptor = descriptor;
  clear_feature = λ feature_selector status s. (urb_status epipe, s);
  set_feature = λ feature_selector status s. (urb_status epipe, s);
  set_interface = λ setting status s. (request_set_interface setting status, s);
  get_interface = λ status s. (0, status, s);
  get_status = λ status s. (0, status, s);
  get_descriptor = λ type language_id n m s. (no_descriptor.0, no_descriptor.1, s);
  endpoint_clear_feature = λ feature_selector ep status s. (urb_status epipe, s);
  endpoint_set_feature = λ feature_selector ep status s. (urb_status epipe, s);
  endpoint_get_status = λ ep status s. (0, status, s);
  endpoint_sync_frame = λ ep status s. (status, s);
}

unfoldable pub comm_interface : {S : Type 0} → ℕ → InterfaceHandler S
comm_interface string_interface = serial_interface get_class_specific_descriptor string_interface

-- The data interface has no descriptor of its own.
unfoldable pub data_interface : {S : Type 0} → ℕ → InterfaceHandler S
data_interface string_interface = serial_interface [] string_interface

-- A control interface and a data interface, with any endpoints.
unfoldable pub IsSerialPort : {S : Type 0} → VirtualDevice S → Interface → Interface → Type 0
IsSerialPort v comm bulk =
    (v.device.interfaces ≡ comm ∷ bulk ∷ [])
    × ((string_comm : ℕ) × (string_data : ℕ) × (v.interface_handlers
          ≡ some (comm_interface string_comm) ∷ some (data_interface string_data) ∷ []))

functional-AreBlocks : AreBlocks get_class_specific_descriptor
unfolding AreBlocks get_class_specific_descriptor IsBlock
functional-AreBlocks = (
  (0x05 ∷ 0x24 ∷ 0x00 ∷ 0x10 ∷ 0x01 ∷ [])
      ∷ (0x05 ∷ 0x24 ∷ 0x01 ∷ 0x00 ∷ 0x01 ∷ [])
      ∷ (0x04 ∷ 0x24 ∷ 0x02 ∷ 0x02 ∷ [])
      ∷ (0x05 ∷ 0x24 ∷ 0x06 ∷ 0x00 ∷ 0x01 ∷ [])
      ∷ [],
  refl,
  ((omega arith, refl), ((omega arith, refl), ((omega arith, refl), ((omega arith, refl), tt)))),
)

nothing-AreBlocks : AreBlocks []
unfolding AreBlocks
nothing-AreBlocks = ([], refl, tt)

-- The configuration of a serial port is well formed for every length that a host asks for, and its
-- interfaces take 37 bytes and 7 for each of their endpoints.
serial_configuration :
    {S : Type 0} (v : VirtualDevice S) (comm bulk : Interface) (n : ℕ)
    → IsSerialPort v comm bulk
    → Configured v n (get_configuration_descriptor v n)
      × (interfaces_length v.device.interfaces v.interface_handlers
          ≡ 37 + 7 * (length comm.endpoints + length bulk.endpoints))
unfolding IsSerialPort HaveHandlers interfaces_length get_class_specific_descriptor serial_interface
    comm_interface data_interface
serial_configuration v comm bulk n (intfs, (string_comm, string_data, handlers)) = (
  get_configuration_descriptor-Configured v n
      (rw (intfs, handlers) (functional-AreBlocks, (nothing-AreBlocks, tt))),
  rw (intfs, handlers) (omega arith),
)
