-- ===== src/SetupPacket/Codec.antt =====
-- `SetupPacket::parse` and `SetupPacket::to_bytes` are inverse to one another.
use esp32_usb_ip.Prelude.{ℕ, ◌%◌, ◌≡◌, arith, List, [], ◌∷◌, length, get_or}
use esp32_usb_ip.Prelude.Bits.{low_byte, join_bytes}
use esp32_usb_ip.Prelude.Bytes.{AreBytes, IsByte, IsU16}
use esp32_usb_ip.SetupPacket.{SetupPacket, low_half, high_half, join, to_bytes, parse}

-- What the types of the fields say.
pub record IsValid (s : SetupPacket) : Type 0 where
  pub request_type_in : IsByte s.request_type
  pub request_in : IsByte s.request
  pub value_in : IsU16 s.value
  pub index_in : IsU16 s.index
  pub length_in : IsU16 s.length

join-halves : (x : ℕ) → IsU16 x → join (high_half x) (low_half x) ≡ x
join-halves x h = rw (low_byte x) (omega (arith, join_bytes (high_half x) (x % 256) (omega arith)))

low_half-join : (high low : ℕ) → IsByte high → IsByte low → low_half (join high low) ≡ low
low_half-join high low hh hl = omega (arith, low_byte (join high low), join_bytes high low hl)

high_half-join : (high low : ℕ) → IsByte high → IsByte low → high_half (join high low) ≡ high
high_half-join high low hh hl = omega (arith, join_bytes high low hl)

-- Every setup packet is read back from the bytes that it is written as.
pub parse-to_bytes : (s : SetupPacket) → IsValid s → parse (to_bytes s) ≡ s
unfolding parse to_bytes
parse-to_bytes s v = cc (
  join-halves s.value v.value_in,
  join-halves s.index v.index_in,
  join-halves s.length v.length_in,
)

parse-IsValid_of : (b : List ℕ) → IsByte (get_or b 0 0) → IsByte (get_or b 1 0) → IsValid (parse b)
unfolding parse
parse-IsValid_of b h0 h1 = ground arith

-- Eight bytes of any content are a setup packet, whose fields are in the range of their types, and
-- are written back unchanged.
to_bytes-parse :
    (b : List ℕ) → AreBytes b → length b ≡ 8 → (to_bytes (parse b) ≡ b) × IsValid (parse b)
unfolding parse to_bytes
to_bytes-parse (b0 ∷ b1 ∷ b2 ∷ b3 ∷ b4 ∷ b5 ∷ b6 ∷ b7 ∷ []) h e = (
  cc (
    low_half-join b3 b2 (omega arith) (omega arith),
    high_half-join b3 b2 (omega arith) (omega arith),
    low_half-join b5 b4 (omega arith) (omega arith),
    high_half-join b5 b4 (omega arith) (omega arith),
    low_half-join b7 b6 (omega arith) (omega arith),
    high_half-join b7 b6 (omega arith) (omega arith),
  ),
  parse-IsValid_of (b0 ∷ b1 ∷ b2 ∷ b3 ∷ b4 ∷ b5 ∷ b6 ∷ b7 ∷ []) (omega arith) (omega arith),
)
to_bytes-parse _ h e = absurd (omega arith)
