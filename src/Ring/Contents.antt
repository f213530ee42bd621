-- ===== src/Ring/Contents.antt =====
-- What a ring buffer of components/usbipdcpp/usbipdcpp/src/utils/RingBuffer.cpp holds: the bytes
-- from `head_` on, and how the rounds of `write` and `read` change them.
use esp32_usb_ip.Prelude.{
  ℕ, zero, suc, ◌+◌, ◌%◌, ◌^◌, ◌≤◌, ◌<◌, ◌≡◌, refl, sym, ◌∙◌, ap, ap₂, ◌≢◌, ◌⊎◌, arith, List, [],
  ◌∷◌, ◌++◌, length, take, get_or, set, append_assoc, append-nil, length-set,
}
use esp32_usb_ip.Ring.{RingBuffer, next, write_byte, write_bytes, pop, read_bytes, peek_bytes}
use esp32_usb_ip.Ring.Positions.{max_vector, walk, walk-lt, walk-ne, walk-next, next-lt}

pub get_or-set_self : (xs : List ℕ) (i v d : ℕ) → i < length xs → get_or (set xs i v) i d ≡ v
get_or-set_self [] i v d h = absurd (omega arith)
get_or-set_self (x ∷ xs) zero v d h = refl
get_or-set_self (x ∷ xs) (suc i) v d h = get_or-set_self xs i v d (omega arith)

pub get_or-set_ne : (xs : List ℕ) (i j v d : ℕ) → i ≢ j → get_or (set xs j v) i d ≡ get_or xs i d
get_or-set_ne [] i j v d h = refl
get_or-set_ne (x ∷ xs) zero zero v d h = absurd (h refl)
get_or-set_ne (x ∷ xs) zero (suc j) v d h = refl
get_or-set_ne (x ∷ xs) (suc i) zero v d h = refl
get_or-set_ne (x ∷ xs) (suc i) (suc j) v d h = get_or-set_ne xs i j v d (λ e. h (ap suc e))

-- One more byte is peeked at the end of the walk.
pub peek_bytes-snoc :
    (buffer : List ℕ) (cap pos n : ℕ)
    → peek_bytes buffer cap pos (suc n)
      ≡ peek_bytes buffer cap pos n ++ (get_or buffer (walk cap pos n) 0 ∷ [])
unfolding peek_bytes walk
peek_bytes-snoc buffer cap pos zero = refl
peek_bytes-snoc buffer cap pos (suc n) =
    ap (λ t. get_or buffer pos 0 ∷ t) (peek_bytes-snoc buffer cap (next cap pos) n)

-- A write at a position that the walk does not meet.
pub peek_bytes-set :
    (buffer : List ℕ) (cap pos n j v : ℕ)
    → ((k : ℕ) → k < n → walk cap pos k ≢ j)
    → peek_bytes (set buffer j v) cap pos n ≡ peek_bytes buffer cap pos n
unfolding peek_bytes walk
peek_bytes-set buffer cap pos zero j v miss = refl
peek_bytes-set buffer cap pos (suc n) j v miss =
    ap₂ (λ a t. a ∷ t) (get_or-set_ne buffer pos j v 0 (miss 0 (omega arith)))
      (peek_bytes-set buffer cap (next cap pos) n j v (λ k h. miss (suc k) (omega arith)))

pub length-peek_bytes : (buffer : List ℕ) (cap pos n : ℕ) → length (peek_bytes buffer cap pos n) ≡ n
unfolding peek_bytes
length-peek_bytes buffer cap pos zero = refl
length-peek_bytes buffer cap pos (suc n) = ap suc (length-peek_bytes buffer cap (next cap pos) n)

pub take-peek_bytes :
    (buffer : List ℕ) (cap pos m n : ℕ)
    → m ≤ n
    → take m (peek_bytes buffer cap pos n) ≡ peek_bytes buffer cap pos m
unfolding peek_bytes
take-peek_bytes buffer cap pos zero n h = refl
take-peek_bytes buffer cap pos (suc m) zero h = absurd (omega arith)
take-peek_bytes buffer cap pos (suc m) (suc n) h =
    ap (λ t. get_or buffer pos 0 ∷ t) (take-peek_bytes buffer cap (next cap pos) m n (omega arith))

-- The bytes in the order in which they will be read.
unfoldable pub contents : RingBuffer → List ℕ
contents r = peek_bytes r.buffer r.capacity r.head r.count

-- What holds between the operations: the buffer is allocated or empty, `head_` is a position, and
-- `tail_` is the position `count_` rounds after it. Without capacity all three are 0.
unfoldable pub IsValid : RingBuffer → Type 0
IsValid r =
    (r.capacity ≤ max_vector)
    × (r.count ≤ r.capacity)
    × ((r.capacity ≡ 0) × (r.head ≡ 0) × (r.tail ≡ 0)
        ⊎ (r.head < r.capacity) × (r.tail ≡ walk r.capacity r.head r.count))
    × ((length r.buffer ≡ r.capacity) ⊎ (r.buffer ≡ []) × (r.count ≡ 0))

-- The same for a buffer that is allocated and has a capacity, as the loops find it.
unfoldable pub IsReady : RingBuffer → Type 0
IsReady r =
    (r.capacity ≤ max_vector)
    × (r.count ≤ r.capacity)
    × (r.head < r.capacity)
    × (r.tail ≡ walk r.capacity r.head r.count)
    × (length r.buffer ≡ r.capacity)

-- A round of `write` appends its byte.
pub write_byte-IsReady :
    (r : RingBuffer) (b : ℕ) → IsReady r → r.count < r.capacity → IsReady (write_byte r b)
unfolding IsReady write_byte
write_byte-IsReady r b (fits, le, lt, at_tail, long) room =
    let one_more : (r.count + 1) % 2 ^ 32 ≡ suc r.count = omega arith in
    (
      fits,
      rw one_more (omega arith),
      lt,
      rw (one_more, at_tail) (sym (walk-next r.capacity r.head r.count)),
      length-set r.buffer r.tail b ∙ long,
    )

pub contents-write_byte :
    (r : RingBuffer) (b : ℕ)
    → IsReady r
    → r.count < r.capacity
    → contents (write_byte r b) ≡ contents r ++ (b ∷ [])
unfolding IsReady write_byte contents
contents-write_byte r b (fits, le, lt, at_tail, long) room =
    let one_more : (r.count + 1) % 2 ^ 32 ≡ suc r.count = omega arith in
    let missed : (k : ℕ) → k < r.count → walk r.capacity r.head k ≢ r.tail =
      λ k h e. walk-ne r.capacity r.head k r.count lt h room fits (e ∙ at_tail) in
    rw (one_more, peek_bytes-snoc (set r.buffer r.tail b) r.capacity r.head r.count)
      (ap₂ (λ xs x. xs ++ (x ∷ []))
        (peek_bytes-set r.buffer r.capacity r.head r.count r.tail b missed)
        (ap (λ i. get_or (set r.buffer r.tail b) i 0) (sym at_tail)
          ∙ get_or-set_self r.buffer r.tail b 0
              (rw (at_tail, long) (walk-lt r.capacity r.head r.count lt le fits))))

write_byte-counts :
    (r : RingBuffer) (b : ℕ)
    → IsReady r
    → r.count < r.capacity
    → ((write_byte r b).count ≡ suc r.count) × ((write_byte r b).capacity ≡ r.capacity)
unfolding IsReady write_byte
write_byte-counts r b (fits, le, lt, at_tail, long) room = (omega arith, refl)

-- The whole loop, where there is room for the bytes.
pub write_bytes_lem :
    (r : RingBuffer) (bytes : List ℕ)
    → IsReady r
    → r.count + length bytes ≤ r.capacity
    → IsReady (write_bytes r bytes)
      × ((write_bytes r bytes).capacity ≡ r.capacity)
      × (contents (write_bytes r bytes) ≡ contents r ++ bytes)
unfolding write_bytes
write_bytes_lem r [] ready room = (ready, refl, sym (append-nil _))
write_bytes_lem r (b ∷ bytes) ready room =
    let (more, same) = write_byte-counts r b ready (omega arith) in
    let (ready', cap', held') =
      write_bytes_lem (write_byte r b) bytes (write_byte-IsReady r b ready (omega arith))
        (omega (arith, more, same)) in
    (
      ready',
      cap' ∙ same,
      held'
          ∙ ap (λ xs. xs ++ bytes) (contents-write_byte r b ready (omega arith))
          ∙ append_assoc (contents r) (b ∷ []) bytes,
    )

-- A round of `read` takes the first byte away.
count-pop : (r : RingBuffer) → IsReady r → 0 < r.count → suc (pop r).count ≡ r.count
unfolding IsReady pop
count-pop r (fits, le, lt, at_tail, long) some_left = omega arith

capacity-pop : (r : RingBuffer) → (pop r).capacity ≡ r.capacity
unfolding pop
capacity-pop r = refl

pub pop-IsReady : (r : RingBuffer) → IsReady r → 0 < r.count → IsReady (pop r)
unfolding IsReady pop walk
pop-IsReady r (fits, le, lt, at_tail, long) some_left =
    let e = count-pop r (fits, le, lt, at_tail, long) some_left in
    (
      fits,
      omega arith,
      next-lt r.capacity r.head lt fits,
      at_tail ∙ ap (walk r.capacity r.head) (sym e),
      long,
    )

pub contents-pop :
    (r : RingBuffer)
    → IsReady r
    → 0 < r.count
    → get_or r.buffer r.head 0 ∷ contents (pop r) ≡ contents r
unfolding contents peek_bytes pop
contents-pop r ready some_left =
    ap (peek_bytes r.buffer r.capacity r.head) (count-pop r ready some_left)

-- The whole loop: the first `n` bytes are copied, the rest stays.
pub read_bytes_lem :
    (n : ℕ) (r : RingBuffer)
    → IsReady r
    → n ≤ r.count
    → IsReady (read_bytes n r).1
      × ((read_bytes n r).1.capacity ≡ r.capacity)
      × ((read_bytes n r).0 ++ contents (read_bytes n r).1 ≡ contents r)
      × (length (read_bytes n r).0 ≡ n)
unfolding read_bytes
read_bytes_lem zero r ready le = (ready, refl, refl, refl)
read_bytes_lem (suc n) r ready le =
    let (ready', cap', held', long') =
      read_bytes_lem n (pop r) (pop-IsReady r ready (omega arith))
        (omega (arith, count-pop r ready (omega arith))) in
    (
      ready',
      cap' ∙ capacity-pop r,
      ap (λ t. get_or r.buffer r.head 0 ∷ t) held' ∙ contents-pop r ready (omega arith),
      ap suc long',
    )
