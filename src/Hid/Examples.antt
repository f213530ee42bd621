-- ===== src/Hid/Examples.antt =====
-- Two requests and three reports of a mouse, and the theorem about them.
use esp32_usb_ip.Prelude.{ℕ, List, [], ◌∷◌}
use esp32_usb_ip.Requests.{Request}
use esp32_usb_ip.Hid.{HidVirtualInterfaceHandler}
use esp32_usb_ip.Hid.Steps.{Event, asks, reports, unlinks}

abbrev quiet : HidVirtualInterfaceHandler
quiet = record { pending_input_reports = []; endpoint_requests = [] }

abbrev request : ℕ → Request
request n = record {
  seqnum = n;
  length = 2;
  transfer = record { bytes = []; iso_descriptors = []; actual_length = 0; data_offset = 0 };
}

abbrev moves : List Event
moves =
    reports (1 ∷ 2 ∷ 3 ∷ [])
    ∷ asks 0x81 (request 5)
    ∷ asks 0x81 (request 6)
    ∷ unlinks 6 7
    ∷ reports (4 ∷ [])
    ∷ reports (8 ∷ 9 ∷ [])
    ∷ []
