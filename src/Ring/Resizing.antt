-- ===== src/Ring/Resizing.antt =====
-- `resize` of components/usbipdcpp/usbipdcpp/src/utils/RingBuffer.cpp: the bytes are read out, and
-- written back into a buffer of the new size.
use esp32_usb_ip.Prelude.{
  ℕ, ◌-◌, ◌≤◌, ◌<◌, min, ◌≡◌, refl, ◌∙◌, ap, ◌⊎◌, inl, inr, arith, ne→==_false, List, [], ◌∷◌,
  length, take, replicate, length-replicate, length-take, take-long, take-trim,
}
use esp32_usb_ip.Ring.{RingBuffer, new, read, peek_bytes, refill, resize}
use esp32_usb_ip.Ring.Positions.{max_vector, walk}
use esp32_usb_ip.Ring.Contents.{contents, IsValid}
use esp32_usb_ip.Ring.Operations.{write_lem, read_lem, new_lem, take-min, length-contents}

-- A buffer of zeros that is allocated and holds nothing.
fresh : ℕ → RingBuffer
fresh n = record { buffer = replicate n 0; capacity = n; head = 0; tail = 0; count = 0 }

fresh_lem : (n : ℕ) → n ≤ max_vector → IsValid (fresh n) × (contents (fresh n) ≡ [])
unfolding fresh IsValid contents peek_bytes walk
fresh_lem n fits = ((fits, omega arith, ground arith, inl (length-replicate n 0)), refl)

refill_lem :
    (n : ℕ) (old : List ℕ)
    → n ≤ max_vector
    → IsValid (refill n old)
      × ((refill n old).capacity ≡ n)
      × (contents (refill n old) ≡ take n old)
unfolding refill fresh
refill_lem n [] fits = (
  (fresh_lem n fits).0,
  refl,
  (fresh_lem n fits).1 ∙ take-trim [] 0 n (inr (omega arith, omega arith)),
)
refill_lem n (x ∷ old) fits =
    let (valid, cap, taken, held) =
      write_lem (fresh n) (take (min (length (x ∷ old)) n) (x ∷ old)) ((fresh_lem n fits).0) in
    let nothing = (fresh_lem n fits).1 in
    rw (ne→==_false (length (x ∷ old)) 0 (omega arith)) (
      valid,
      cap,
      held
          ∙ rw nothing (
              take-long (n - 0) _ (omega (arith, length-take (min (length (x ∷ old)) n) (x ∷ old)))
              ∙ take-min n (x ∷ old)),
    )

-- `resize` keeps the first bytes, as many as there is room for.
pub resize_lem :
    (r : RingBuffer) (n : ℕ)
    → IsValid r
    → n ≤ max_vector
    → IsValid (resize r n)
      × ((resize r n).capacity ≡ n)
      × (contents (resize r n) ≡ take n (contents r))
unfolding resize new
resize_lem r n valid fits = elim none_or_some [
  | inl none_asked ↦ rw none_asked ((new_lem 0 (omega arith)).0, refl, (new_lem 0 (omega arith)).1)
  | inr some_asked ↦
      let (valid', cap, held) = refill_lem n (read r r.count).0 fits in
      rw (ne→==_false n 0 (omega arith)) (
        valid',
        cap,
        held
            ∙ ap (take n) (
                (read_lem r r.count valid).2
                ∙ take-long r.count (contents r) (omega (arith, length-contents r))),
      )
]
  where
    none_or_some : (n ≡ 0) ⊎ (0 < n)
    none_or_some = ground arith
