-- ===== src/Virtual.antt =====
-- Virtual devices: components/usbipdcpp/usbipdcpp/src/virtual_device/VirtualDeviceHandler.cpp. The
-- dispatch of a command to the interfaces, the standard requests on endpoint 0 and the descriptors.
-- The virtual functions, which each device and interface defines for itself, are parameters.
pub mod Pool
pub mod Descriptors
pub mod Control
pub mod Layout
pub mod Answers
mod Examples
use esp32_usb_ip.Prelude.{ℕ, Option, none, some, List, [], ◌∷◌, get_elem?}
use esp32_usb_ip.Device.{Version, UsbDevice, Endpoint, Interface, find_endpoint}
use esp32_usb_ip.Virtual.Pool.{StringPool}

-- The virtual functions of an interface handler over the state `S` of the handlers of a device. A
-- request reads and writes the status behind `p_status`; one that answers gives its value first.
pub record InterfaceHandler (S : Type 0) : Type 0 where
  pub string_interface_value : ℕ
  pub class_specific_descriptor : List ℕ
  pub clear_feature : ℕ → ℕ → S → ℕ × S
  pub set_feature : ℕ → ℕ → S → ℕ × S
  pub set_interface : ℕ → ℕ → S → ℕ × S
  pub get_interface : ℕ → S → ℕ × ℕ × S
  pub get_status : ℕ → S → ℕ × ℕ × S
  pub get_descriptor : ℕ → ℕ → ℕ → ℕ → S → List ℕ × ℕ × S
  pub endpoint_clear_feature : ℕ → ℕ → ℕ → S → ℕ × S
  pub endpoint_set_feature : ℕ → ℕ → ℕ → S → ℕ × S
  pub endpoint_get_status : ℕ → ℕ → S → ℕ × ℕ × S
  pub endpoint_sync_frame : ℕ → ℕ → S → ℕ × S

-- The virtual functions of the device itself.
pub record DeviceHandler (S : Type 0) : Type 0 where
  pub clear_feature : ℕ → ℕ → S → ℕ × S
  pub set_address : ℕ → ℕ → S → ℕ × S
  pub set_configuration : ℕ → ℕ → S → ℕ × S
  pub set_descriptor : ℕ → ℕ → ℕ → ℕ → List ℕ → ℕ → S → ℕ × S
  pub set_feature : ℕ → ℕ → S → ℕ × S
  pub get_status : ℕ → S → ℕ × ℕ × S
  pub get_other_speed_descriptor : ℕ → ℕ → ℕ → S → List ℕ × ℕ × S

-- `interface_handlers` are the members `handler` of the interfaces of `device`, in their order.
pub record VirtualDevice (S : Type 0) : Type 0 where
  pub device : UsbDevice
  pub interface_handlers : List (Option (InterfaceHandler S))
  pub device_handler : DeviceHandler S
  pub usb_version : Version
  pub string_configuration_value : ℕ
  pub string_manufacturer_value : ℕ
  pub string_product_value : ℕ
  pub string_serial_value : ℕ
  pub string_pool : StringPool

-- The handler of the interface that `find_ep` finds an endpoint in.
unfoldable pub handler_at :
    {S : Type 0}
    → ℕ
    → List Interface
    → List (Option (InterfaceHandler S))
    → Option (InterfaceHandler S)
handler_at ep [] handlers = none
handler_at ep (intf ∷ intfs) [] = none
handler_at ep (intf ∷ intfs) (handler ∷ handlers) =
    let rest = handler_at ep intfs handlers in
    elim (find_endpoint ep intf.endpoints) [ some e ↦ handler | none ↦ rest ]
