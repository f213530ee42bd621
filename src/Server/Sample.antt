-- ===== src/Server/Sample.antt =====
-- A server with a mouse and a keyboard, for the tests of servers and sessions.
use esp32_usb_ip.Prelude.{ℕ, refl, List, [], ◌∷◌, arith}
use esp32_usb_ip.Device.{version_of_bcd, get_ep0_in, get_ep0_out, UsbDevice}
use esp32_usb_ip.Server.{
  Server, server_of_devices, has_bound_device, is_available, contains, try_moving_device_to_using,
  add_device,
}
use esp32_usb_ip.Server.Lists.{count_busid, count_key, Labelled}
use esp32_usb_ip.Server.Moves.{IsValid, add_device-IsValid}

unfoldable pub device : List ℕ → UsbDevice
device busid = record {
  path = 47 ∷ busid;
  busid = busid;
  bus_num = 1;
  dev_num = 1;
  speed = 1;
  vendor_id = 0x1234;
  product_id = 0x5678;
  device_bcd = version_of_bcd 0x0213;
  device_class = 0;
  device_subclass = 0;
  device_protocol = 0;
  configuration_value = 1;
  num_configurations = 1;
  interfaces = [];
  ep0_in = get_ep0_in 64;
  ep0_out = get_ep0_out 64;
}

abbrev pub no_devices : Server
no_devices = server_of_devices []

pub no_devices-IsValid : IsValid no_devices
unfolding server_of_devices count_busid count_key Labelled
no_devices-IsValid = record { distinct = λ b. omega arith; labelled = tt }

-- The busids "1-1" and "1-2".
abbrev pub mouse_id : List ℕ
mouse_id = 49 ∷ 45 ∷ 49 ∷ []

abbrev pub keyboard_id : List ℕ
keyboard_id = 49 ∷ 45 ∷ 50 ∷ []

abbrev pub with_mouse : Server
with_mouse = add_device (device mouse_id) no_devices

pub with_mouse-IsValid : IsValid with_mouse
unfolding has_bound_device server_of_devices is_available contains
with_mouse-IsValid = add_device-IsValid (device mouse_id) no_devices no_devices-IsValid refl

-- The server when the mouse is in use.
abbrev pub mouse_used : Server
mouse_used = (try_moving_device_to_using mouse_id with_mouse).1
