-- ===== src/Wire/Examples.antt =====
-- Runs of the writers of network.h, and their theorems at concrete inputs.
use esp32_usb_ip.Prelude.{ℕ, ◌≡◌, refl, true, List, [], ◌∷◌}
use esp32_usb_ip.Wire.{
  Field, int, arr, to_network_array_in, process, memcpy, field_bytes, field_size, to_memory, hton,
  ntoh, byteswap, le_bytes, le_value,
}

abbrev fields : List Field
fields = int 2 0x0111 ∷ int 4 0x1234_5678 ∷ arr (7 ∷ 8 ∷ []) ∷ []

abbrev on_wire : List ℕ
on_wire = 0x01 ∷ 0x11 ∷ 0x12 ∷ 0x34 ∷ 0x56 ∷ 0x78 ∷ 7 ∷ 8 ∷ []

abbrev old_bytes : List ℕ
old_bytes = 9 ∷ 9 ∷ 9 ∷ 9 ∷ 9 ∷ 9 ∷ 9 ∷ 9 ∷ []

to_network_array_runs : to_network_array_in old_bytes true fields ≡ on_wire
unfolding to_network_array_in process memcpy field_bytes field_size to_memory hton ntoh byteswap
    le_bytes le_value
to_network_array_runs = refl
