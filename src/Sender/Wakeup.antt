-- ===== src/Sender/Wakeup.antt =====
-- The wake-ups of the sender in components/usbipdcpp/usbipdcpp/src/Session.cpp: `wakeup_sender` and
-- `immediately_stop` set their flag and notify without `swap_mutex`.
use esp32_usb_ip.Prelude.{◌≡◌, refl, true, false, [], ◌∷◌, ◌++◌}
use esp32_usb_ip.Sender.{
  empty_buffers, enqueue, flag_data, swap_buffers, pop_front, looping, testing, asleep, System,
  start, is_locked, notified, Step, enqueues, flags, stops, notifies, skips, locks, passes, dozes,
  sleeps, swaps, pops, spins, sends, Reach, here, next,
}

-- The sender sleeps and no thread is on its way to notify it.
unfoldable pub IsForgotten : {R : Type 0} → System R → Type 0
IsForgotten s = (s.place ≡ asleep) × (s.flagging ≡ 0) × (s.notifying ≡ 0)

-- The sender is at the head of its loop with nothing to send, and no thread is on its way.
unfoldable pub IsIdle : {R : Type 0} → System R → Type 0
IsIdle s =
    (s.place ≡ looping)
    × (s.should_immediately_stop ≡ false)
    × (s.buffers.read_buffer ++ s.buffers.write_buffer ≡ [])
    × (s.flagging ≡ 0)
    × (s.notifying ≡ 0)

-- A reply can be left behind: whatever the reply, an order of the steps leads to a sender that
-- sleeps beside it, with the flag set and every thread that could notify the sender gone on.
pub lost_wakeup :
    {R : Type 0} (r : R)
    → (t : System R) × Reach (start R) t
      × IsForgotten t
      × (t.buffers.write_buffer ≡ r ∷ [])
      × (t.buffers.has_data ≡ true)
unfolding start empty_buffers enqueue flag_data notified is_locked IsForgotten
lost_wakeup {R} r = (
  _,
  next
      (next
        (next (next (next (next here (enqueues r refl)) (locks refl refl refl)) (dozes refl refl))
          (flags 0 refl))
        (notifies 0 refl))
      (sleeps refl),
  (refl, refl, refl),
  refl,
  refl,
)

-- A stop can be left behind: an order of the steps leads to a sender that sleeps although the
-- session is to stop, with every thread that could notify it gone on to wait for its end.
pub lost_stop :
    (R : Type 0)
    → (t : System R) × Reach (start R) t × IsForgotten t × (t.should_immediately_stop ≡ true)
unfolding start empty_buffers notified IsForgotten
lost_stop R = (
  _,
  next
      (next (next (next (next here (locks refl refl refl)) (dozes refl refl)) stops)
        (notifies 0 refl))
      (sleeps refl),
  (refl, refl, refl),
  refl,
)

-- The sender can spin: whatever two replies, an order of the steps sends both and leads to a sender
-- with nothing to send that, without a step of any other thread, comes back to the same state.
pub spins_idly :
    {R : Type 0} (q r : R)
    → (t : System R) × Reach (start R) t
      × IsIdle t
      × (t.sent ≡ q ∷ r ∷ [])
      × ((u : System R) × Step t u × (u.place ≡ testing) × Reach u t)
unfolding start empty_buffers enqueue flag_data notified is_locked swap_buffers pop_front IsIdle
spins_idly {R} q r = (
  _,
  next
      (next
        (next
          (next
            (next
              (next
                (next
                  (next
                    (next
                      (next
                        (next
                          (next (next (next here (enqueues q refl)) (enqueues r refl))
                            (flags 1 refl))
                          (notifies 0 refl))
                        (locks refl refl refl))
                      (passes refl refl))
                    (swaps refl))
                  (pops refl))
                (sends q refl refl refl))
              (skips r [] refl refl refl))
            (pops refl))
          (sends r refl refl refl))
        (flags 0 refl))
      (notifies 0 refl),
  (refl, refl, refl, refl, refl),
  refl,
  (
    _,
    locks refl refl refl,
    refl,
    next (next (next (next here (passes refl refl)) (swaps refl)) (pops refl))
        (spins refl refl refl),
  ),
)
