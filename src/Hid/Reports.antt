-- ===== src/Hid/Reports.antt =====
-- No input report of components/usbipdcpp/usbipdcpp/src/virtual_device/HidVirtualInterfaceHandler.cpp
-- is lost, doubled or overtaken, whatever comes first, the report or the request.
use esp32_usb_ip.Prelude.{List}
use mathlib.Core.List.{Perm}
use mathlib.Core.List.Perm
