-- ===== src/SetupPacket/Examples.antt =====
-- Control requests of the USB enumeration, and the theorems at them.
use esp32_usb_ip.Prelude.{ℕ, ◌≡◌, ◌↔◌, refl, true, List, [], ◌∷◌}
use esp32_usb_ip.Prelude.Int.{pos}
use esp32_usb_ip.SetupPacket.{SetupPacket, to_bytes}
use esp32_usb_ip.SetupPacket.Requests.{
  UsbHost, IsKept, is_tweaked, tweak_special_requests, tweak_special_requests-is_tweaked_iff,
}

-- GET_DESCRIPTOR(device, 18 bytes)
abbrev get_descriptor : SetupPacket
get_descriptor = record { request_type = 0x80; request = 6; value = 0x0100; index = 0; length = 18 }

-- CLEAR_FEATURE(ENDPOINT_HALT) to endpoint 0x81
abbrev clear_halt : SetupPacket
clear_halt = record { request_type = 2; request = 1; value = 0; index = 0x81; length = 0 }

abbrev descriptor_bytes : List ℕ
descriptor_bytes = 0x80 ∷ 6 ∷ 0 ∷ 1 ∷ 0 ∷ 0 ∷ 18 ∷ 0 ∷ []

-- A host library that does all it is asked for.
abbrev willing_host : UsbHost
willing_host = record {
  transfer_alloc = pos 0;
  transfer_submit_control = λ s. pos 0;
  endpoint_clear = λ endpoint. pos 0;
  err_not_supported = pos 0x106;
}

to_bytes-get_descriptor : to_bytes get_descriptor ≡ descriptor_bytes
unfolding to_bytes
to_bytes-get_descriptor = refl

tweak_special_requests-is_tweaked_iff_example :
    (is_tweaked (tweak_special_requests willing_host clear_halt) ≡ true) ↔ IsKept clear_halt
tweak_special_requests-is_tweaked_iff_example =
    tweak_special_requests-is_tweaked_iff willing_host clear_halt (record {
      alloc_answer = refl;
      submit_answer = refl;
      clear_answer = refl;
      not_supported_answer = refl;
    })
