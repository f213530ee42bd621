-- ===== src/Ring/Refines.antt =====
-- components/usbipdcpp/usbipdcpp/src/utils/RingBuffer.cpp against a bounded queue: the answers of
-- any sequence of calls are those of a list with a limit.
use esp32_usb_ip.Prelude.{
  ℕ, ◌+◌, ◌-◌, ◌%◌, ◌^◌, ◌≤◌, min, ◌≡◌, refl, sym, ◌∙◌, ap, ap₂, arith, Bool, ◌==◌, List, [], ◌∷◌,
  ◌++◌, length, take, drop,
}
use esp32_usb_ip.Prelude.Bytes.{All}
use esp32_usb_ip.Ring.{
  RingBuffer, new, write, read, peek, clear, resize, size, available, empty, full,
}
use esp32_usb_ip.Ring.Positions.{max_vector}
use esp32_usb_ip.Ring.Contents.{contents, IsValid}
use esp32_usb_ip.Ring.Operations.{
  length-contents, IsValid-count, write_lem, read_lem, peek_lem, clear_lem, new_lem,
}
use esp32_usb_ip.Ring.Resizing.{resize_lem}

-- The calls; `look` asks for size, free space, emptiness and fullness.
pub data Call : Type 0 where
  put : List ℕ → Call
  get : ℕ → Call
  glance : ℕ → Call
  wipe : Call
  change_limit : ℕ → Call
  look : Call

pub data Answer : Type 0 where
  taken : ℕ → Answer
  bytes : List ℕ → Answer
  nothing : Answer
  state : ℕ → ℕ → Bool → Bool → Answer

pub record Queue : Type 0 where
  pub limit : ℕ
  pub items : List ℕ

unfoldable pub step : RingBuffer → Call → Answer × RingBuffer
step r (put data_) = let (n, r') = write r data_ in (taken n, r')
step r (get n) = let (bs, r') = read r n in (bytes bs, r')
step r (glance n) = (bytes (peek r n), r)
step r wipe = (nothing, clear r)
step r (change_limit n) = (nothing, resize r n)
step r look = (state (size r) (available r) (empty r) (full r), r)

-- The queue takes what there is room for, and a new limit keeps the oldest bytes.
unfoldable pub queue_step : Queue → Call → Answer × Queue
queue_step q (put data_) =
    let room = q.limit - length q.items in
    (taken (min (length data_) room), record q { items = q.items ++ take room data_ })
queue_step q (get n) = (bytes (take n q.items), record q { items = drop n q.items })
queue_step q (glance n) = (bytes (take n q.items), q)
queue_step q wipe = (nothing, record q { items = [] })
queue_step q (change_limit n) = (nothing, record { limit = n; items = take n q.items })
queue_step q look = (
  state (length q.items) (q.limit - length q.items) (length q.items == 0)
      (length q.items == q.limit),
  q,
)

unfoldable pub run : RingBuffer → List Call → List Answer
run r [] = []
run r (c ∷ calls) = let (a, r') = step r c in a ∷ run r' calls

unfoldable pub queue_run : Queue → List Call → List Answer
queue_run q [] = []
queue_run q (c ∷ calls) = let (a, q') = queue_step q c in a ∷ queue_run q' calls

-- No call asks for more than a vector can hold.
abbrev pub Fits : Call → Type 0
Fits (put data_) = Unit
Fits (get n) = Unit
Fits (glance n) = Unit
Fits wipe = Unit
Fits (change_limit n) = n ≤ max_vector
Fits look = Unit

abbrev pub queue : ℕ → List ℕ → Queue
queue limit items = record { limit = limit; items = items }

abbrev queue_of : RingBuffer → Queue
queue_of r = queue r.capacity (contents r)

abbrev pair : Answer → Queue → Answer × Queue
pair a q = (a, q)

-- One call: the queue makes the same step, and the buffer stays well formed.
pub step_lem :
    (r : RingBuffer) (c : Call)
    → IsValid r
    → Fits c
    → IsValid (step r c).1 × (queue_step (queue_of r) c ≡ ((step r c).0, queue_of (step r c).1))
unfolding step queue_step clear size available empty full
step_lem r (put data_) valid fits =
    let (valid', cap, n, held) = write_lem r data_ valid in
    (valid', ap₂ pair (ap taken (sym n)) (ap₂ queue (sym cap) (sym held)))
step_lem r (get n) valid fits =
    let (valid', cap, bs, held) = read_lem r n valid in
    (valid', ap₂ pair (ap bytes (sym bs)) (ap₂ queue (sym cap) (sym held)))
step_lem r (glance n) valid fits =
    (valid, ap (λ bs. pair (bytes bs) (queue_of r)) (sym (peek_lem r n)))
step_lem r wipe valid fits =
    let (valid', held) = clear_lem r valid in
    (valid', ap (λ items. pair nothing (queue r.capacity items)) (sym held))
step_lem r (change_limit n) valid fits =
    let (valid', cap, held) = resize_lem r n valid fits in
    (valid', ap₂ (λ limit items. pair nothing (queue limit items)) (sym cap) (sym held))
step_lem r look valid fits =
    let (le, small) = IsValid-count r valid in
    let free : (r.capacity + 2 ^ 32 - r.count) % 2 ^ 32 ≡ r.capacity - r.count = omega arith in
    (valid, rw (length-contents r, free) refl)

run_lem :
    (r : RingBuffer) (calls : List Call)
    → IsValid r
    → All Fits calls
    → run r calls ≡ queue_run (queue_of r) calls
unfolding run queue_run
run_lem r [] valid fits = refl
run_lem r (c ∷ calls) valid fits =
    let (valid', e) = step_lem r c valid fits.0 in
    rw e (ap (λ t. (step r c).0 ∷ t) (run_lem (step r c).1 calls valid' fits.1))

-- From a new ring buffer on, every sequence of calls is answered as by a queue with the capacity as
-- its limit, provided that no capacity asked for is beyond what a vector can hold.
pub run-refines_queue :
    (capacity : ℕ) (calls : List Call)
    → capacity ≤ max_vector
    → All Fits calls
    → run (new capacity) calls ≡ queue_run (record { limit = capacity; items = [] }) calls
unfolding new
run-refines_queue capacity calls small fits =
    let (valid, held) = new_lem capacity small in
    run_lem (new capacity) calls valid fits
    ∙ ap (λ items. queue_run (queue capacity items) calls) held
