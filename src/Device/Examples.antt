-- ===== src/Device/Examples.antt =====
-- A mouse, to exercise the theorems about devices.
use esp32_usb_ip.Prelude.{◌≡◌, refl, some, [], ◌∷◌}
use esp32_usb_ip.Device.{
  version_of_bcd, Endpoint, get_ep0_in, get_ep0_out, Interface, UsbDevice, find_ep, find_interface,
  find_endpoint,
}
use esp32_usb_ip.Device.Lookup.{Found, find_ep-Found}

abbrev pub reports : Endpoint
reports = record { address = 0x81; attributes = 3; max_packet_size = 8; interval = 10 }

abbrev pub hid : Interface
hid = record {
  interface_class = 3;
  interface_subclass = 1;
  interface_protocol = 2;
  endpoints = reports ∷ [];
}

abbrev pub mouse : UsbDevice
mouse = record {
  path = 47 ∷ 109 ∷ [];
  busid = 49 ∷ 45 ∷ 49 ∷ [];
  bus_num = 1;
  dev_num = 1;
  speed = 1;
  vendor_id = 0x1234;
  product_id = 0x5678;
  device_bcd = version_of_bcd 0x0213;
  device_class = 0;
  device_subclass = 0;
  device_protocol = 0;
  configuration_value = 1;
  num_configurations = 1;
  interfaces = hid ∷ [];
  ep0_in = get_ep0_in 64;
  ep0_out = get_ep0_out 64;
}

find_ep_run : find_ep mouse 0x81 ≡ some (reports, some hid)
unfolding find_ep find_interface find_endpoint
find_ep_run = refl

find_ep-Found_example : Found mouse 0x81 (find_ep mouse 0x81)
find_ep-Found_example = find_ep-Found mouse 0x81
