-- ===== src/Sender/Examples.antt =====
-- The theorems about the queue of replies, on short runs.
use esp32_usb_ip.Prelude.{ℕ, ◌<◌, ◌≡◌, ◌≢◌, refl, ◌⊎◌, true, false, none, some, [], ◌∷◌, ◌++◌}
use esp32_usb_ip.Sender.{
  empty_buffers, enqueue, flag_data, testing, asleep, holding, System, start, is_locked, Step,
  enqueues, flags, locks, passes, swaps, pops, swap_buffers, pop_front, Reach, here, next,
}
use esp32_usb_ip.Sender.Order.{hand, queued-in_order, waiting-flagged}
use esp32_usb_ip.Sender.Wakeup.{IsForgotten, IsIdle, lost_wakeup, lost_stop, spins_idly}

-- The first of two replies is in hand, the second in the read buffer, a third came in behind them.
abbrev three_queued : System ℕ
three_queued = record {
  buffers = record { write_buffer = 3 ∷ []; read_buffer = 2 ∷ []; has_data = false };
  should_immediately_stop = false;
  place = holding;
  in_hand = some 1;
  flagging = 2;
  notifying = 1;
  queued = 1 ∷ 2 ∷ 3 ∷ [];
  sent = [];
}

three_queued-Reach : Reach (start ℕ) three_queued
unfolding start empty_buffers enqueue flag_data is_locked swap_buffers pop_front
three_queued-Reach =
    let written = next (next (next here (enqueues 1 refl)) (enqueues 2 refl)) (flags 1 refl) in
    let swapped =
      next (next (next written (locks refl refl refl)) (passes refl refl)) (swaps refl) in
    next (next swapped (pops refl)) (enqueues 3 refl)

queued-in_order_example : three_queued.queued ≡ [] ++ (hand (some 1) ++ ((2 ∷ []) ++ (3 ∷ [])))
queued-in_order_example = queued-in_order three_queued-Reach

waiting-flagged_example :
    ((is_locked holding ≡ true) ⊎ (holding ≡ asleep)
      → (three_queued.buffers.read_buffer ≡ []) × (three_queued.in_hand ≡ none))
    × ((three_queued.buffers.write_buffer ≢ [])
        → (three_queued.buffers.has_data ≡ true) ⊎ (0 < three_queued.flagging))
waiting-flagged_example = waiting-flagged three_queued-Reach

lost_wakeup_example :
    (t : System ℕ) × Reach (start ℕ) t
    × IsForgotten t
    × (t.buffers.write_buffer ≡ 7 ∷ [])
    × (t.buffers.has_data ≡ true)
lost_wakeup_example = lost_wakeup 7

lost_stop_example :
    (t : System ℕ) × Reach (start ℕ) t × IsForgotten t × (t.should_immediately_stop ≡ true)
lost_stop_example = lost_stop ℕ

spins_idly_example :
    (t : System ℕ) × Reach (start ℕ) t
    × IsIdle t
    × (t.sent ≡ 7 ∷ 8 ∷ [])
    × ((u : System ℕ) × Step t u × (u.place ≡ testing) × Reach u t)
spins_idly_example = spins_idly 7 8
