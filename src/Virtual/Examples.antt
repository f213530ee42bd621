-- ===== src/Virtual/Examples.antt =====
-- A mouse and its descriptors, and the theorems about them.
use esp32_usb_ip.Prelude.{ℕ, ◌≡◌, refl, arith, true, some, [], ◌∷◌}
use esp32_usb_ip.SetupPacket.{SetupPacket}
use esp32_usb_ip.Device.{version_of_bcd, get_ep0_in, get_ep0_out, Interface}
use esp32_usb_ip.Protocol.Transfer.{GenericTransfer}
use esp32_usb_ip.Virtual.{InterfaceHandler, DeviceHandler, VirtualDevice}
use esp32_usb_ip.Virtual.Pool.{StringPool, contains, assign, first_free, new_at, new_string}
use esp32_usb_ip.Virtual.Descriptors.{get_configuration_descriptor}
use esp32_usb_ip.Virtual.Control.{handle_control_urb}
use esp32_usb_ip.Virtual.Answers.{Answered, handle_control_urb-Answered}
use esp32_usb_ip.Virtual.Layout.{
  IsBlock, AreBlocks, HaveHandlers, Configured, get_configuration_descriptor-Configured,
}

-- A handler that keeps no state and answers 0.
abbrev quiet : InterfaceHandler ℕ
quiet = record {
  string_interface_value = 4;
  class_specific_descriptor = 9 ∷ 0x21 ∷ 0x11 ∷ 1 ∷ 0 ∷ 1 ∷ 0x22 ∷ 52 ∷ 0 ∷ [];
  clear_feature = λ feature status s. (status, s);
  set_feature = λ feature status s. (status, s);
  set_interface = λ setting status s. (status, s);
  get_interface = λ status s. (0, status, s);
  get_status = λ status s. (0, status, s);
  get_descriptor = λ type index n status s. (0x22 ∷ 1 ∷ 2 ∷ [], status, s);
  endpoint_clear_feature = λ feature ep status s. (status, s);
  endpoint_set_feature = λ feature ep status s. (status, s);
  endpoint_get_status = λ ep status s. (0, status, s);
  endpoint_sync_frame = λ ep status s. (status, s);
}

abbrev simple_device : DeviceHandler ℕ
simple_device = record {
  clear_feature = λ feature status s. (status, s);
  set_address = λ address status s. (status, s);
  set_configuration = λ value status s. (status, s);
  set_descriptor = λ type index language n bytes status s. (status, s);
  set_feature = λ feature status s. (status, s);
  get_status = λ status s. (0, status, s);
  get_other_speed_descriptor = λ language n status s. ([], status, s);
}

abbrev report_interface : Interface
report_interface = record {
  interface_class = 3;
  interface_subclass = 1;
  interface_protocol = 2;
  endpoints = record { address = 0x81; attributes = 3; max_packet_size = 8; interval = 10 } ∷ [];
}

abbrev two_strings : StringPool
two_strings = (1, 77 ∷ []) ∷ (3, 80 ∷ 81 ∷ []) ∷ []

abbrev pointer : VirtualDevice ℕ
pointer = record {
  device = record {
    path = 47 ∷ [];
    busid = 49 ∷ 45 ∷ 49 ∷ [];
    bus_num = 1;
    dev_num = 1;
    speed = 1;
    vendor_id = 0x1234;
    product_id = 0x5678;
    device_bcd = version_of_bcd 0x0213;
    device_class = 0;
    device_subclass = 0;
    device_protocol = 0;
    configuration_value = 1;
    num_configurations = 1;
    interfaces = report_interface ∷ [];
    ep0_in = get_ep0_in 64;
    ep0_out = get_ep0_out 64;
  };
  interface_handlers = some quiet ∷ [];
  device_handler = simple_device;
  usb_version = version_of_bcd 0x0200;
  string_configuration_value = 1;
  string_manufacturer_value = 1;
  string_product_value = 3;
  string_serial_value = 0;
  string_pool = two_strings;
}

pointer-HaveHandlers : HaveHandlers pointer.device.interfaces pointer.interface_handlers
unfolding HaveHandlers AreBlocks IsBlock
pointer-HaveHandlers = ((quiet.class_specific_descriptor ∷ [], refl, ((omega arith, refl), tt)), tt)

get_configuration_descriptor-Configured_example :
    Configured pointer 9 (get_configuration_descriptor pointer 9)
get_configuration_descriptor-Configured_example =
    get_configuration_descriptor-Configured pointer 9 pointer-HaveHandlers

-- GET_DESCRIPTOR(string 3), and room for it
abbrev get_string_3 : SetupPacket
get_string_3 = record { request_type = 0x80; request = 6; value = 0x0303; index = 0; length = 255 }

abbrev empty_transfer : GenericTransfer
empty_transfer = record { bytes = []; iso_descriptors = []; actual_length = 0; data_offset = 0 }

handle_control_urb-Answered_example :
    Answered pointer get_string_3 5 0
      (handle_control_urb pointer get_string_3 true 5 empty_transfer 255 0)
handle_control_urb-Answered_example =
    handle_control_urb-Answered pointer get_string_3 true 5 empty_transfer 255 0

new_string_run :
    new_string (90 ∷ []) two_strings
    ≡ some (2, (1, 77 ∷ []) ∷ (3, 80 ∷ 81 ∷ []) ∷ (2, 90 ∷ []) ∷ [])
unfolding new_string new_at first_free contains assign
new_string_run = refl
