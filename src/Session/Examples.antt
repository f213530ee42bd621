-- ===== src/Session/Examples.antt =====
-- The theorems about sessions, on a server with a mouse and on a mouse with one endpoint.
use esp32_usb_ip.Prelude.{ℕ, ◌≡◌, refl, Bool, true, false, none, some, [], ◌∷◌, arith}
use esp32_usb_ip.Prelude.Strings.{same_bytes}
use esp32_usb_ip.Device.{UsbDevice, Endpoint}
use esp32_usb_ip.Server.{
  server_of_devices, is_device_using, is_available, contains, add_device,
  try_moving_device_to_using, take_out, move_to_using,
}
use esp32_usb_ip.Server.Moves.{IsValid}
use esp32_usb_ip.Server.Sample.{device, with_mouse, with_mouse-IsValid, mouse_id, mouse_used}
use esp32_usb_ip.Protocol.Command.{CmdSubmit, submit, got}
use esp32_usb_ip.Session.{new_session, import_device, dispatch}
use esp32_usb_ip.Session.Import.{Imported, import_device-Imported}
use esp32_usb_ip.Session.Release.{Returned, connection, connection-Returned}
use esp32_usb_ip.Session.Ownership.{
  checked, opening, System, update, Reach, here, next, checks, claims, start, owned,
  mutual_exclusion, owned-in_use,
}
use esp32_usb_ip.Session.Dispatch.{Dispatched, dispatch-Dispatched}

abbrev opens_all : UsbDevice → Bool
opens_all d = true

fresh : new_session.current_import_device ≡ none
unfolding new_session
fresh = refl

no_id : new_session.current_import_device_id ≡ none
unfolding new_session
no_id = refl

import_device-Imported_example :
    Imported opens_all mouse_id with_mouse new_session
      (import_device opens_all mouse_id with_mouse new_session)
import_device-Imported_example =
    import_device-Imported opens_all mouse_id with_mouse new_session with_mouse-IsValid fresh no_id

idle : new_session.cmd_transferring ≡ false
unfolding new_session
idle = refl

connection-Returned_example :
    Returned
      (import_device opens_all mouse_id with_mouse new_session).2.cmd_transferring
      with_mouse
      new_session
      (connection opens_all false mouse_id with_mouse new_session)
connection-Returned_example =
    connection-Returned opens_all mouse_id with_mouse new_session with_mouse-IsValid fresh no_id
      idle

-- Session 5 has looked for the mouse and claimed it.
abbrev claimed : System
claimed = record {
  server = mouse_used;
  phase = update (update (start with_mouse).phase 5 (checked mouse_id)) 5 (opening mouse_id);
}

claimed-Reach : Reach (start with_mouse) claimed
unfolding start update is_device_using contains add_device server_of_devices
    try_moving_device_to_using take_out move_to_using device same_bytes
claimed-Reach =
    next (next here (checks 5 mouse_id refl refl))
      (claims 5 mouse_id (device mouse_id) mouse_used refl refl)

owns : owned (claimed.phase 5) ≡ some mouse_id
unfolding owned update
owns = refl

mutual_exclusion_example : ◌≡◌ {A = ℕ} 5 5
mutual_exclusion_example = mutual_exclusion 5 5 mouse_id with_mouse-IsValid claimed-Reach owns owns

owned-in_use_example :
    IsValid mouse_used
    × (is_device_using mouse_id mouse_used ≡ true)
    × (is_available mouse_id mouse_used.available_devices ≡ false)
owned-in_use_example = owned-in_use 5 mouse_id with_mouse-IsValid claimed-Reach owns

-- The mouse with an endpoint for its reports, and a command that reads from it.
abbrev reports : Endpoint
reports = record { address = 0x81; attributes = 3; max_packet_size = 8; interval = 10 }

abbrev mouse : UsbDevice
mouse = record (device mouse_id) {
  interfaces =
      record {
        interface_class = 3;
        interface_subclass = 1;
        interface_protocol = 2;
        endpoints = reports ∷ [];
      }
      ∷ [];
}

abbrev read_report : CmdSubmit ℕ
read_report = record {
  header = record { command = 1; seqnum = 7; devid = 1; direction = 1; ep = 1 };
  transfer_flags = 0;
  transfer_buffer_length = 4;
  start_frame = 0;
  number_of_packets = 0xffffffff;
  interval = 10;
  setup = record { request_type = 0; request = 0; value = 0; index = 0; length = 0 };
  transfer = none;
}

dispatch-Dispatched_example :
    Dispatched mouse read_report (dispatch mouse (got (submit read_report)))
dispatch-Dispatched_example = dispatch-Dispatched mouse read_report (omega arith)
