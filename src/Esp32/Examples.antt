-- ===== src/Esp32/Examples.antt =====
-- A bulk transfer of one byte that is submitted and unlinked, and the theorems about it.
use esp32_usb_ip.Prelude.{◌+◌, ◌≤◌, ◌≡◌, refl, arith, true, false, none, some, [], ◌∷◌}
use esp32_usb_ip.Prelude.Int.{negsuc}
use esp32_usb_ip.Device.{
  Endpoint, Interface, UsbDevice, is_in, find_ep, find_interface, find_endpoint, get_ep0_in,
  get_ep0_out, version_of_bcd,
}
use esp32_usb_ip.Esp32.{status_canceled, submitted, lookup, Esp32DeviceHandler}
use esp32_usb_ip.Esp32.Submit.{Urb, num_bytes, receive_urb, mark_unlinked}
use esp32_usb_ip.Esp32.Finish.{Completion, transfer_callback}
use esp32_usb_ip.Esp32.Order.{System, start, Reach, starts, receives, marks}
use esp32_usb_ip.Esp32.Ledger.{count, owed, answered, answered-le}
use esp32_usb_ip.Esp32.Flights.{Tracked, reach-Tracked}
use esp32_usb_ip.Esp32.Answers.{
  Finished, Accepted, transfer_callback-Finished, receive_urb-Accepted,
}
use esp32_usb_ip.Esp32.Buffers.{Fits, actual_buffer_length, num_bytes-Fits}
use esp32_usb_ip.Esp32.PacketSizes.{endpoint_mps_map}
use esp32_usb_ip.Esp32.Race.{one_byte, in_flight, unlinked_by, unlink_race}

abbrev sent : Esp32DeviceHandler
sent = (receive_urb (one_byte 7) 0 (negsuc 0) submitted start.handler).1

-- Command 7 is in flight, and command 9 unlinks it.
abbrev unlinking : System
unlinking = record { handler = (mark_unlinked 7 9 sent).1; cancelling = (mark_unlinked 7 9 sent).0 }

reach_unlinking : Reach (9 ∷ 7 ∷ []) unlinking
unfolding start lookup
reach_unlinking = marks 7 9 (receives (one_byte 7) 0 (negsuc 0) submitted starts refl refl) refl

answered-le_example :
    count 9 (answered unlinking.handler.replies) + count 9 (owed unlinking.handler.callbacks)
    ≤ count 9 (9 ∷ 7 ∷ [])
answered-le_example = answered-le reach_unlinking 9

reach-Tracked_example : Tracked unlinking.handler
reach-Tracked_example = reach-Tracked reach_unlinking

unlink_race_example :
    (s : System) × Reach (9 ∷ 7 ∷ []) s
    × (s.cancelling ≡ some 0)
    × (lookup 0 s.handler.callbacks ≡ none)
unlink_race_example = unlink_race 7 9

abbrev canceled : Completion
canceled = record { status = status_canceled; actual_num_bytes = 0; packets = [] }

transfer_callback-Finished_example :
    Finished 0
      (unlinked_by 9 (in_flight 7))
      canceled
      submitted
      unlinking.handler
      (transfer_callback 0 (unlinked_by 9 (in_flight 7)) canceled submitted unlinking.handler)
transfer_callback-Finished_example =
    transfer_callback-Finished 0 (unlinked_by 9 (in_flight 7)) canceled submitted unlinking.handler

receive_urb-Accepted_example :
    Accepted
      (one_byte 8)
      1
      (negsuc 0)
      submitted
      sent
      (receive_urb (one_byte 8) 1 (negsuc 0) submitted sent)
receive_urb-Accepted_example = receive_urb-Accepted (one_byte 8) 1 (negsuc 0) submitted sent

-- 100 bytes from the second endpoint of a device, with packets of 64.
abbrev source : Endpoint
source = record { address = 0x81; attributes = 2; max_packet_size = 64; interval = 0 }

abbrev bulk_interface : Interface
bulk_interface = record {
  interface_class = 0xFF;
  interface_subclass = 0;
  interface_protocol = 0;
  endpoints =
      record { address = 0x02; attributes = 2; max_packet_size = 32; interval = 0 } ∷ source ∷ [];
}

abbrev stick : UsbDevice
stick = record {
  path = [];
  busid = 49 ∷ 45 ∷ 49 ∷ [];
  bus_num = 1;
  dev_num = 1;
  speed = 3;
  vendor_id = 1;
  product_id = 2;
  device_bcd = version_of_bcd 0x0100;
  device_class = 0xFF;
  device_subclass = 0;
  device_protocol = 0;
  configuration_value = 1;
  num_configurations = 1;
  interfaces = bulk_interface ∷ [];
  ep0_in = get_ep0_in 64;
  ep0_out = get_ep0_out 64;
}

abbrev hundred : Urb
hundred = record (one_byte 7) { transfer_buffer_length = 100; ep = source }

num_bytes-hundred : num_bytes hundred ≡ 128
unfolding num_bytes is_in
num_bytes-hundred = refl

num_bytes-Fits_example :
    Fits hundred
      (actual_buffer_length false true (endpoint_mps_map stick) 1 100)
      (num_bytes hundred)
unfolding is_in find_ep find_interface find_endpoint
num_bytes-Fits_example =
    num_bytes-Fits stick 1 hundred bulk_interface (omega arith) refl refl
      (((λ e. absurd (omega (arith, e))), ((λ e. refl), tt)), tt) refl refl (omega arith)
      (omega arith)
