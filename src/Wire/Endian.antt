-- ===== src/Wire/Endian.antt =====
-- Byte order of network.h: what reaches the wire is big-endian on every host.
use esp32_usb_ip.Prelude.{
  ℕ, zero, suc, ◌+◌, ◌*◌, ◌/◌, ◌%◌, ◌^◌, ◌<◌, ◌≡◌, refl, sym, ap, ◌∙◌, arith, Bool, true, false,
  List, [], ◌∷◌, ◌++◌, reverse, length, length-append,
}
use esp32_usb_ip.Prelude.Bytes.{AreBytes, IsByte, All-append}
use esp32_usb_ip.Wire.{le_bytes, le_value, to_memory, from_memory, byteswap, ntoh, hton, read_int}
use mathlib.Core.List.{reverse-cons, reverse-reverse}
use native.Mathlib.Nat.{pow-suc}

-- The highest byte first, written without a word about the host.
unfoldable pub be_bytes : ℕ → ℕ → List ℕ
be_bytes zero v = []
be_bytes (suc w) v = be_bytes w (v / 256) ++ ((v % 256) ∷ [])

pub length-reverse {ℓ} : {A : Type ℓ} (xs : List A) → length (reverse xs) ≡ length xs
length-reverse [] = refl
length-reverse (x ∷ xs) = rw (reverse-cons, length-append) (omega (arith, length-reverse xs))

reverse-AreBytes : (xs : List ℕ) → AreBytes xs → AreBytes (reverse xs)
reverse-AreBytes [] h = tt
reverse-AreBytes (x ∷ xs) h =
    rw reverse-cons (All-append IsByte (reverse xs) (x ∷ []) (reverse-AreBytes xs h.1) (h.0, tt))

pub length-le_bytes : (w v : ℕ) → length (le_bytes w v) ≡ w
unfolding le_bytes
length-le_bytes zero v = refl
length-le_bytes (suc w) v = ap suc (length-le_bytes w (v / 256))

le_bytes-AreBytes : (w v : ℕ) → AreBytes (le_bytes w v)
unfolding le_bytes
le_bytes-AreBytes zero v = tt
le_bytes-AreBytes (suc w) v = (omega arith, le_bytes-AreBytes w (v / 256))

le_bytes-le_value : (bs : List ℕ) → AreBytes bs → le_bytes (length bs) (le_value bs) ≡ bs
unfolding le_bytes le_value
le_bytes-le_value [] h = refl
le_bytes-le_value (b ∷ bs) h =
    let low : (b + 256 * le_value bs) % 256 ≡ b = omega arith in
    let high : (b + 256 * le_value bs) / 256 ≡ le_value bs = omega arith in
    rw (low, high, le_bytes-le_value bs h.1)

le_bytes-le_value_sized :
    (w : ℕ) (bs : List ℕ) → length bs ≡ w → AreBytes bs → le_bytes w (le_value bs) ≡ bs
le_bytes-le_value_sized w bs size h =
    ap (λ n. le_bytes n (le_value bs)) (sym size) ∙ le_bytes-le_value bs h

pub le_value-le_bytes : (w v : ℕ) → v < 256 ^ w → le_value (le_bytes w v) ≡ v
unfolding le_bytes le_value
le_value-le_bytes zero v h = omega arith
le_value-le_bytes (suc w) v h =
    let bound : v / 256 < 256 ^ w = omega (arith, pow-suc 256 w) in
    omega (arith, le_value-le_bytes w (v / 256) bound)

reverse-le_bytes : (w v : ℕ) → reverse (le_bytes w v) ≡ be_bytes w v
unfolding le_bytes be_bytes
reverse-le_bytes zero v = refl
reverse-le_bytes (suc w) v = rw (reverse-cons, reverse-le_bytes w (v / 256))

pub length-be_bytes : (w v : ℕ) → length (be_bytes w v) ≡ w
length-be_bytes w v = rw (← reverse-le_bytes) (length-reverse (le_bytes w v) ∙ length-le_bytes w v)

pub be_bytes-AreBytes : (w v : ℕ) → AreBytes (be_bytes w v)
be_bytes-AreBytes w v =
    rw (← reverse-le_bytes) (reverse-AreBytes (le_bytes w v) (le_bytes-AreBytes w v))

-- A value through `le_value` and back is the same bytes, reversed once: both lists have `w` bytes.
le_bytes-byteswap : (w v : ℕ) → le_bytes w (byteswap w v) ≡ reverse (le_bytes w v)
unfolding byteswap
le_bytes-byteswap w v =
    let swapped = reverse (le_bytes w v) in
    le_bytes-le_value_sized w swapped (length-reverse (le_bytes w v) ∙ length-le_bytes w v)
      (reverse-AreBytes (le_bytes w v) (le_bytes-AreBytes w v))

-- An integer that went through `hton` stands in memory highest byte first, whatever the byte
-- order of the host.
pub to_memory-hton : (little : Bool) (w v : ℕ) → to_memory little w (hton little w v) ≡ be_bytes w v
unfolding to_memory hton ntoh
to_memory-hton true w v = le_bytes-byteswap w v ∙ reverse-le_bytes w v
to_memory-hton false w v = reverse-le_bytes w v

-- The readers' `memcpy` and `ntoh` give back the integer whose big-endian bytes they are given, if
-- it fits its width.
pub read_int-be_bytes :
    (little : Bool) (w v : ℕ) → v < 256 ^ w → read_int little w (be_bytes w v) ≡ v
unfolding read_int ntoh from_memory byteswap
read_int-be_bytes true w v h =
    let swapped = le_bytes-le_value_sized w _ (length-be_bytes w v) (be_bytes-AreBytes w v) in
    rw (swapped, ← reverse-le_bytes, reverse-reverse) (le_value-le_bytes w v h)
read_int-be_bytes false w v h = rw (← reverse-le_bytes, reverse-reverse) (le_value-le_bytes w v h)

-- What a host lays out in its memory it reads back.
pub length-to_memory : (little : Bool) (w v : ℕ) → length (to_memory little w v) ≡ w
unfolding to_memory
length-to_memory true w v = length-le_bytes w v
length-to_memory false w v = length-reverse (le_bytes w v) ∙ length-le_bytes w v

pub from_memory-to_memory :
    (little : Bool) (w v : ℕ) → v < 256 ^ w → from_memory little (to_memory little w v) ≡ v
unfolding to_memory from_memory
from_memory-to_memory true w v h = le_value-le_bytes w v h
from_memory-to_memory false w v h = rw reverse-reverse (le_value-le_bytes w v h)
