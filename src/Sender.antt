-- ===== src/Sender.antt =====
-- The replies of a device on their way to the client, in components/usbipdcpp/usbipdcpp/src/
-- Session.cpp: any thread queues them in `write_buffer`, the thread of `sender` swaps that with its
-- `read_buffer` and sends what is there. A step is what one thread does between two points at which
-- another can come in.
pub mod Order
pub mod Wakeup
mod Examples
use esp32_usb_ip.Prelude.{
  ℕ, zero, suc, ◌+◌, ◌<◌, ◌≡◌, Bool, true, false, ◌||◌, if◌then◌else◌, Option, none, some, List, [],
  ◌∷◌, ◌++◌,
}

-- The members of `Session` that the queue consists of; `R` is the type of the replies.
pub record Buffers (R : Type 0) : Type 0 where
  pub write_buffer : List R
  pub read_buffer : List R
  pub has_data : Bool

unfoldable pub empty_buffers : (R : Type 0) → Buffers R
empty_buffers R = record { write_buffer = []; read_buffer = []; has_data = false }

-- `enqueue_ret_submit` and `enqueue_ret_unlink`, under `swap_mutex`
unfoldable pub enqueue : {R : Type 0} → R → Buffers R → Buffers R
enqueue r b = record b { write_buffer = b.write_buffer ++ (r ∷ []) }

-- The first half of `wakeup_sender`; the second is `notify_one`.
unfoldable pub flag_data : {R : Type 0} → Buffers R → Buffers R
flag_data b = record b { has_data = true }

-- `sender_get_data` behind the wait, under `swap_mutex`, with an empty `read_buffer`
abbrev pub swapped : {R : Type 0} → Buffers R → List R → Buffers R
swapped b [] = b
swapped b (r ∷ rs) = record { write_buffer = []; read_buffer = r ∷ rs; has_data = false }

unfoldable pub swap_buffers : {R : Type 0} → Buffers R → Buffers R
swap_buffers b = swapped b b.write_buffer

-- The rest of `sender_get_data`: the front of `read_buffer`.
abbrev pub popped : {R : Type 0} → Buffers R → List R → Option R × Buffers R
popped b [] = (none, b)
popped b (r ∷ rs) = (some r, record b { read_buffer = rs })

unfoldable pub pop_front : {R : Type 0} → Buffers R → Option R × Buffers R
pop_front b = popped b b.read_buffer

-- Where the sender is: at the head of its loop; at the test of the wait, which it makes holding
-- `swap_mutex`; between a test that failed and the sleep, still holding it; asleep; behind the
-- wait, still holding it; about to take the front of `read_buffer`; with what it took; or out of
-- its loop.
pub data Place : Type 0 where
  looping testing dozing asleep taking popping holding over : Place

-- `flagging` threads have queued a reply and not yet set `has_data`, `notifying` ones have set it,
-- or the flag to stop, and not yet called `notify_one`. `in_hand` is `send_data_opt` of the loop,
-- `queued` are all the replies so far, `sent` those that went out.
pub record System (R : Type 0) : Type 0 where
  pub buffers : Buffers R
  pub should_immediately_stop : Bool
  pub place : Place
  pub in_hand : Option R
  pub flagging : ℕ
  pub notifying : ℕ
  pub queued : List R
  pub sent : List R

unfoldable pub start : (R : Type 0) → System R
start R = record {
  buffers = empty_buffers R;
  should_immediately_stop = false;
  place = looping;
  in_hand = none;
  flagging = 0;
  notifying = 0;
  queued = [];
  sent = [];
}

-- Whether the sender holds `swap_mutex` at the point between two steps.
unfoldable pub is_locked : Place → Bool
is_locked testing = true
is_locked dozing = true
is_locked taking = true
is_locked looping = false
is_locked asleep = false
is_locked popping = false
is_locked holding = false
is_locked over = false

-- `notify_one` reaches only a sender that sleeps; it then holds the mutex again and tests.
unfoldable pub notified : Place → Place
notified asleep = testing
notified looping = looping
notified testing = testing
notified dozing = dozing
notified taking = taking
notified popping = popping
notified holding = holding
notified over = over

pub data Step {R : Type 0} (s : System R) : System R → Type 0 where
  -- the threads that queue replies, and the one that stops the session
  enqueues :
      (r : R)
      → is_locked s.place ≡ false
      → Step s (record s {
        buffers = enqueue r s.buffers;
        flagging = suc s.flagging;
        queued = s.queued ++ (r ∷ []);
      })
  flags :
      (n : ℕ)
      → s.flagging ≡ suc n
      → Step s
          (record s { buffers = flag_data s.buffers; flagging = n; notifying = suc s.notifying })
  stops : Step s (record s { should_immediately_stop = true; notifying = suc s.notifying })
  notifies :
      (n : ℕ) → s.notifying ≡ suc n → Step s (record s { place = notified s.place; notifying = n })
  -- the sender: the head of its loop
  leaves : s.place ≡ looping → s.should_immediately_stop ≡ true → Step s (record s { place = over })
  skips :
      (r : R) (rs : List R)
      → s.place ≡ looping
      → s.should_immediately_stop ≡ false
      → s.buffers.read_buffer ≡ r ∷ rs
      → Step s (record s { place = popping })
  locks :
      s.place ≡ looping
      → s.should_immediately_stop ≡ false
      → s.buffers.read_buffer ≡ []
      → Step s (record s { place = testing })
  -- its wait, which may also end for no reason
  passes :
      s.place ≡ testing
      → (s.buffers.has_data || s.should_immediately_stop) ≡ true
      → Step s (record s { place = taking })
  dozes :
      s.place ≡ testing
      → (s.buffers.has_data || s.should_immediately_stop) ≡ false
      → Step s (record s { place = dozing })
  sleeps : s.place ≡ dozing → Step s (record s { place = asleep })
  wakes : s.place ≡ asleep → Step s (record s { place = testing })
  -- the rest of its round
  swaps : s.place ≡ taking → Step s (record s { buffers = swap_buffers s.buffers; place = popping })
  pops :
      s.place ≡ popping
      → Step s (record s {
        buffers = (pop_front s.buffers).1;
        in_hand = (pop_front s.buffers).0;
        place = holding;
      })
  drops : s.place ≡ holding → s.should_immediately_stop ≡ true → Step s (record s { place = over })
  spins :
      s.place ≡ holding
      → s.should_immediately_stop ≡ false
      → s.in_hand ≡ none
      → Step s (record s { place = looping })
  sends :
      (r : R)
      → s.place ≡ holding
      → s.should_immediately_stop ≡ false
      → s.in_hand ≡ some r
      → Step s (record s { place = looping; in_hand = none; sent = s.sent ++ (r ∷ []) })
  fails :
      (r : R)
      → s.place ≡ holding
      → s.should_immediately_stop ≡ false
      → s.in_hand ≡ some r
      → Step s (record s { place = over })

pub data Reach {R : Type 0} (s : System R) : System R → Type 0 where
  here : Reach s s
  next : {t u : System R} → Reach s t → Step t u → Reach s u
