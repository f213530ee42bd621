-- ===== src/Ring/Operations.antt =====
-- What each operation of components/usbipdcpp/usbipdcpp/src/utils/RingBuffer.cpp does to the bytes
-- that the buffer holds.
use esp32_usb_ip.Prelude.{
  ℕ, ◌+◌, ◌-◌, ◌%◌, ◌^◌, ◌≤◌, ◌<◌, min, ◌≡◌, refl, sym, ◌∙◌, ap, ap₂, ◌⊎◌, inl, inr, arith, true,
  ltb, lt→ltb, le→ltb_false, ne→==_false, List, [], ◌++◌, length, take, drop, replicate, append-nil,
  length-append, length-replicate, length-take, take-append, drop-append, take-trim, drop-trim,
}
use esp32_usb_ip.Ring.{
  RingBuffer, new, write, write_bytes, allocate, read, read_bytes, peek, peek_bytes, clear,
}
use esp32_usb_ip.Ring.Positions.{max_vector, walk}
use esp32_usb_ip.Ring.Contents.{
  contents, IsValid, IsReady, write_bytes_lem, read_bytes_lem, length-peek_bytes, take-peek_bytes,
}

pub length-contents : (r : RingBuffer) → length (contents r) ≡ r.count
unfolding contents
length-contents r = length-peek_bytes r.buffer r.capacity r.head r.count

pub IsReady→IsValid : (r : RingBuffer) → IsReady r → IsValid r
unfolding IsReady IsValid
IsReady→IsValid r (fits, le, lt, at_tail, long) = (fits, le, inr (lt, at_tail), inl long)

pub IsValid-count :
    (r : RingBuffer) → IsValid r → (r.count ≤ r.capacity) × (r.capacity ≤ max_vector)
unfolding IsValid
IsValid-count r (fits, le, rest, long) = (le, fits)

allocate_lem :
    (r : RingBuffer)
    → IsValid r
    → 0 < r.capacity
    → IsReady (allocate r)
      × ((allocate r).capacity ≡ r.capacity)
      × ((allocate r).count ≡ r.count)
      × (contents (allocate r) ≡ contents r)
unfolding allocate IsReady IsValid contents peek_bytes
allocate_lem r (fits, le, inl (none_left, at_zero, at_tail), long) some_room = absurd (omega arith)
allocate_lem r (fits, le, inr (lt, at_tail), inl long) some_room =
    rw (le→ltb_false (length r.buffer) r.capacity (omega arith))
      ((fits, le, lt, at_tail, long), refl, refl, refl)
allocate_lem r (fits, le, inr (lt, at_tail), inr (no_buffer, nothing)) some_room =
    let short : ltb (length r.buffer) r.capacity ≡ true = rw no_buffer (lt→ltb _ _ some_room) in
    let empty : length r.buffer ≡ 0 = ap length no_buffer in
    rw short (
      (
        fits,
        le,
        lt,
        at_tail,
        omega (
          arith,
          length-append r.buffer (replicate (r.capacity - length r.buffer) 0),
          length-replicate {A = ℕ} (r.capacity - length r.buffer) 0,
        ),
      ),
      refl,
      refl,
      rw nothing refl,
    )

pub take-min : (n : ℕ) (xs : List ℕ) → take (min (length xs) n) xs ≡ take n xs
take-min n xs = take-trim xs _ n (ground arith)

write-none : (r : RingBuffer) (bytes : List ℕ) → r.capacity ≡ 0 → write r bytes ≡ (0, r)
unfolding write
write-none r bytes h = rw h refl

write-some :
    (r : RingBuffer) (bytes : List ℕ)
    → IsValid r
    → 0 < r.capacity
    → write r bytes ≡ (
      min (length bytes) (r.capacity - r.count),
      write_bytes (allocate r) (take (min (length bytes) (r.capacity - r.count)) bytes),
    )
unfolding write
write-some r bytes valid some_room =
    let (le, fits) = IsValid-count r valid in
    let free : (r.capacity + 2 ^ 32 - r.count) % 2 ^ 32 ≡ r.capacity - r.count = omega arith in
    rw (free, ne→==_false r.capacity 0 (omega arith)) refl

-- `write` appends as many bytes as there is room for.
pub write_lem :
    (r : RingBuffer) (bytes : List ℕ)
    → IsValid r
    → IsValid (write r bytes).1
      × ((write r bytes).1.capacity ≡ r.capacity)
      × ((write r bytes).0 ≡ min (length bytes) (r.capacity - length (contents r)))
      × (contents (write r bytes).1 ≡ contents r ++ take (r.capacity - length (contents r)) bytes)
write_lem r bytes valid = elim no_room_or_some [
  | inl no_room ↦
      let full : r.capacity - r.count ≡ 0 = omega arith in
      rw (write-none r bytes no_room, length-contents r, full)
        (valid, refl, omega arith, sym (append-nil (contents r)))
  | inr some_room ↦
      let (ready, cap, same, held) = allocate_lem r valid some_room in
      let bound = IsValid-count r valid in
      let fit =
        write_bytes_lem (allocate r) (take (min (length bytes) (r.capacity - r.count)) bytes) ready
          (omega (
            arith,
            cap,
            same,
            bound,
            length-take (min (length bytes) (r.capacity - r.count)) bytes,
          )) in
      rw (write-some r bytes valid some_room, length-contents r)
        (
          IsReady→IsValid _ fit.0,
          fit.1 ∙ cap,
          refl,
          fit.2 ∙ ap₂ (λ xs ys. xs ++ ys) held (take-min (r.capacity - r.count) bytes),
        )
]
  where
    no_room_or_some : (r.capacity ≡ 0) ⊎ (0 < r.capacity)
    no_room_or_some = ground arith

-- `peek` copies the first bytes and changes nothing.
pub peek_lem : (r : RingBuffer) (n : ℕ) → peek r n ≡ take n (contents r)
unfolding peek contents
peek_lem r n =
    let long = length-peek_bytes r.buffer r.capacity r.head r.count in
    sym (take-peek_bytes r.buffer r.capacity r.head (min n r.count) r.count (omega arith))
    ∙ take-trim (peek_bytes r.buffer r.capacity r.head r.count) (min n r.count) n (ground arith)

read-nothing : (r : RingBuffer) (n : ℕ) → r.count ≡ 0 → read r n ≡ ([], r)
unfolding read read_bytes
read-nothing r n h = let nothing : min n r.count ≡ 0 = omega arith in rw nothing refl

IsValid→IsReady : (r : RingBuffer) → IsValid r → 0 < r.count → IsReady r
unfolding IsReady IsValid
IsValid→IsReady r (fits, le, inl (none_left, at_zero, at_tail), long) h = absurd (omega arith)
IsValid→IsReady r (fits, le, inr (lt, at_tail), inl long) h = (fits, le, lt, at_tail, long)
IsValid→IsReady r (fits, le, inr (lt, at_tail), inr (no_buffer, nothing)) h = absurd (omega arith)

-- `read` copies the first bytes and keeps the rest.
pub read_lem :
    (r : RingBuffer) (n : ℕ)
    → IsValid r
    → IsValid (read r n).1
      × ((read r n).1.capacity ≡ r.capacity)
      × ((read r n).0 ≡ take n (contents r))
      × (contents (read r n).1 ≡ drop n (contents r))
unfolding read
read_lem r n valid = elim nothing_or_some [
  | inl nothing ↦
      let none_held : length (contents r) ≡ 0 = length-contents r ∙ nothing in
      rw (read-nothing r n nothing) (
        valid,
        refl,
        take-trim (contents r) 0 n (inr (omega arith, omega arith)),
        drop-trim (contents r) 0 n (inr (omega arith, omega arith)),
      )
  | inr some_held ↦
      let (ready, cap, split, long) =
        read_bytes_lem (min n r.count) r (IsValid→IsReady r valid some_held) (omega arith) in
      (
        IsReady→IsValid _ ready,
        cap,
        sym (take-append (read r n).0 (contents (read r n).1) (min n r.count) long)
            ∙ ap (take (min n r.count)) split
            ∙ take-trim (contents r) (min n r.count) n (ground (arith, length-contents r)),
        sym (drop-append (read r n).0 (contents (read r n).1) (min n r.count) long)
            ∙ ap (drop (min n r.count)) split
            ∙ drop-trim (contents r) (min n r.count) n (ground (arith, length-contents r)),
      )
]
  where
    nothing_or_some : (r.count ≡ 0) ⊎ (0 < r.count)
    nothing_or_some = ground arith

pub clear_lem : (r : RingBuffer) → IsValid r → IsValid (clear r) × (contents (clear r) ≡ [])
unfolding clear IsValid contents peek_bytes walk
clear_lem r (fits, le, at_ends, long) = ((fits, omega arith, ground arith, ground arith), refl)

pub new_lem :
    (capacity : ℕ) → capacity ≤ max_vector → IsValid (new capacity) × (contents (new capacity) ≡ [])
unfolding new IsValid contents peek_bytes walk
new_lem capacity fits = ((fits, omega arith, ground arith, inr (refl, refl)), refl)
