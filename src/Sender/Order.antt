-- ===== src/Sender/Order.antt =====
-- No reply of components/usbipdcpp/usbipdcpp/src/Session.cpp is lost, doubled or overtaken between the
-- threads that queue it and the sender.
use esp32_usb_ip.Prelude.{
  ◌<◌, ◌≡◌, ◌≢◌, refl, ap, ◌⊎◌, inl, inr, true, Option, none, some, List, [], ◌∷◌, ◌++◌,
  append_assoc, append-nil, arith,
}
use esp32_usb_ip.Sender.{
  Buffers, empty_buffers, enqueue, flag_data, swapped, swap_buffers, popped, pop_front, Place,
  looping, testing, dozing, asleep, taking, popping, holding, over, System, start, is_locked,
  notified, Step, enqueues, flags, stops, notifies, leaves, skips, locks, passes, dozes, sleeps,
  wakes, swaps, pops, drops, spins, sends, fails, Reach, here, next,
}

-- The replies that are neither sent nor still in the buffer that the producers write.
unfoldable pub hand : {R : Type 0} → Option R → List R
hand none = []
hand (some r) = r ∷ []

-- Where a reply can be, in the order of the queue.
unfoldable pub on_the_way : {R : Type 0} → System R → List R
on_the_way s = hand s.in_hand ++ (s.buffers.read_buffer ++ s.buffers.write_buffer)

-- What holds at every point: the order; nothing in hand while the sender is in the queue; an
-- empty read buffer while it waits; and replies to be swapped are flagged, or about to be.
pub record Inv {R : Type 0} (s : System R) : Type 0 where
  pub in_order : s.queued ≡ s.sent ++ on_the_way s
  pub empty_handed : (s.place ≡ holding) ⊎ (s.place ≡ over) ⊎ (s.in_hand ≡ none)
  pub read_empty : is_locked s.place ≡ true → s.buffers.read_buffer ≡ []
  pub asleep_empty : s.place ≡ asleep → s.buffers.read_buffer ≡ []
  pub flagged : (s.buffers.write_buffer ≡ []) ⊎ (s.buffers.has_data ≡ true) ⊎ (0 < s.flagging)

-- Behind the wait, and before it, the sender has nothing that it took.
unhanded :
    {R : Type 0} (s : System R)
    → Inv s
    → (s.place ≡ holding → ⊥)
    → (s.place ≡ over → ⊥)
    → s.in_hand ≡ none
unhanded s inv not_holding not_over = elim inv.empty_handed [
  | inl at ↦ absurd (not_holding at)
  | inr (inl at) ↦ absurd (not_over at)
  | inr (inr nothing) ↦ nothing
]

-- A step of the sender alone, from one place to another.
moves :
    {R : Type 0} (s : System R) (p : Place)
    → Inv s
    → (p ≡ holding) ⊎ (p ≡ over) ⊎ (s.in_hand ≡ none)
    → (is_locked p ≡ true → s.buffers.read_buffer ≡ [])
    → (p ≡ asleep → s.buffers.read_buffer ≡ [])
    → Inv (record s { place = p })
unfolding on_the_way
moves s p inv handed read slept = record {
  in_order = inv.in_order;
  empty_handed = handed;
  read_empty = read;
  asleep_empty = slept;
  flagged = inv.flagged;
}

-- The same inside of `sender_get_data`, up to the swap.
moves_inside :
    {R : Type 0} (s : System R) (p : Place)
    → Inv s
    → (s.place ≡ holding → ⊥)
    → (s.place ≡ over → ⊥)
    → s.buffers.read_buffer ≡ []
    → Inv (record s { place = p })
moves_inside s p inv not_holding not_over read =
    moves s p inv (inr (inr (unhanded s inv not_holding not_over))) (λ e. read) (λ e. read)

notified-lem : (p : Place) → (notified p ≡ p) ⊎ (p ≡ asleep) × (notified p ≡ testing)
unfolding notified
notified-lem asleep = inr (refl, refl)
notified-lem looping = inl refl
notified-lem testing = inl refl
notified-lem dozing = inl refl
notified-lem taking = inl refl
notified-lem popping = inl refl
notified-lem holding = inl refl
notified-lem over = inl refl

enqueued_order :
    {R : Type 0} (queued sent taken read write : List R) (r : R)
    → queued ≡ sent ++ (taken ++ (read ++ write))
    → queued ++ (r ∷ []) ≡ sent ++ (taken ++ (read ++ (write ++ (r ∷ []))))
enqueued_order queued sent taken read write r h =
    rw (h, append_assoc, append_assoc, append_assoc) refl

swapped-lem :
    {R : Type 0} (b : Buffers R) (w : List R)
    → b.read_buffer ≡ []
    → b.write_buffer ≡ w
    → ((swapped b w).read_buffer ++ (swapped b w).write_buffer ≡ w)
      × ((swapped b w).write_buffer ≡ [])
swapped-lem b [] nothing e = (rw (nothing, e) refl, e)
swapped-lem b (r ∷ rs) nothing e = (append-nil (r ∷ rs), refl)

popped-lem :
    {R : Type 0} (b : Buffers R) (w : List R)
    → b.read_buffer ≡ w
    → (hand (popped b w).0 ++ ((popped b w).1.read_buffer ++ (popped b w).1.write_buffer)
        ≡ w ++ b.write_buffer)
      × ((popped b w).1.write_buffer ≡ b.write_buffer)
      × ((popped b w).1.has_data ≡ b.has_data)
unfolding hand
popped-lem b [] e = (rw e refl, refl, refl)
popped-lem b (r ∷ rs) e = (refl, refl, refl)

Step-Inv : {R : Type 0} {s t : System R} → Step s t → Inv s → Inv t
unfolding on_the_way hand enqueue flag_data is_locked swap_buffers pop_front
Step-Inv {s = s} (enqueues r free) inv = record {
  in_order =
      enqueued_order s.queued s.sent (hand s.in_hand) s.buffers.read_buffer s.buffers.write_buffer r
        inv.in_order;
  empty_handed = inv.empty_handed;
  read_empty = inv.read_empty;
  asleep_empty = inv.asleep_empty;
  flagged = inr (inr (omega arith));
}
Step-Inv (flags n some_flag) inv = record {
  in_order = inv.in_order;
  empty_handed = inv.empty_handed;
  read_empty = inv.read_empty;
  asleep_empty = inv.asleep_empty;
  flagged = inr (inl refl);
}
Step-Inv stops inv = record {
  in_order = inv.in_order;
  empty_handed = inv.empty_handed;
  read_empty = inv.read_empty;
  asleep_empty = inv.asleep_empty;
  flagged = inv.flagged;
}
Step-Inv {s = s} (notifies n pending) inv = elim (notified-lem s.place) [
  | inl same ↦ record {
    in_order = inv.in_order;
    empty_handed = rw same inv.empty_handed;
    read_empty = rw same inv.read_empty;
    asleep_empty = rw same inv.asleep_empty;
    flagged = inv.flagged;
  }
  | inr (slept, woken) ↦ record {
    in_order = inv.in_order;
    empty_handed =
        inr (inr (unhanded s inv (λ e. ground (arith, e, slept)) (λ e. ground (arith, e, slept))));
    read_empty = λ e. inv.asleep_empty slept;
    asleep_empty = λ e. inv.asleep_empty slept;
    flagged = inv.flagged;
  }
]
Step-Inv {s = s} (leaves at stop) inv =
    moves s over inv (inr (inl refl)) (λ e. ground (arith, e)) (λ e. ground (arith, e))
Step-Inv {s = s} (skips r rs at on has) inv =
    moves s popping inv
      (inr (inr (unhanded s inv (λ e. ground (arith, e, at)) (λ e. ground (arith, e, at)))))
      (λ e. ground (arith, e)) (λ e. ground (arith, e))
Step-Inv {s = s} (locks at on none_left) inv =
    moves_inside s testing inv (λ e. ground (arith, e, at)) (λ e. ground (arith, e, at)) none_left
Step-Inv {s = s} (passes at ready) inv =
    moves_inside s taking inv (λ e. ground (arith, e, at)) (λ e. ground (arith, e, at))
      (inv.read_empty (ap is_locked at))
Step-Inv {s = s} (dozes at ready) inv =
    moves_inside s dozing inv (λ e. ground (arith, e, at)) (λ e. ground (arith, e, at))
      (inv.read_empty (ap is_locked at))
Step-Inv {s = s} (sleeps at) inv =
    moves_inside s asleep inv (λ e. ground (arith, e, at)) (λ e. ground (arith, e, at))
      (inv.read_empty (ap is_locked at))
Step-Inv {s = s} (wakes at) inv =
    moves_inside s testing inv (λ e. ground (arith, e, at)) (λ e. ground (arith, e, at))
      (inv.asleep_empty at)
Step-Inv {s = s} (swaps at) inv =
    let read = inv.read_empty (ap is_locked at) in
    let nothing = unhanded s inv (λ e. ground (arith, e, at)) (λ e. ground (arith, e, at)) in
    let (same, written) = swapped-lem s.buffers s.buffers.write_buffer read refl in
    record {
      in_order = rw same (rw read at inv.in_order);
      empty_handed = inr (inr nothing);
      read_empty = λ e. ground (arith, e);
      asleep_empty = λ e. ground (arith, e);
      flagged = inl written;
    }
Step-Inv {s = s} (pops at) inv =
    let nothing = unhanded s inv (λ e. ground (arith, e, at)) (λ e. ground (arith, e, at)) in
    let (same, written, flag) = popped-lem s.buffers s.buffers.read_buffer refl in
    record {
      in_order = rw same (rw nothing at inv.in_order);
      empty_handed = inl refl;
      read_empty = λ e. ground (arith, e);
      asleep_empty = λ e. ground (arith, e);
      flagged = rw (written, flag) inv.flagged;
    }
Step-Inv {s = s} (drops at stop) inv =
    moves s over inv (inr (inl refl)) (λ e. ground (arith, e)) (λ e. ground (arith, e))
Step-Inv {s = s} (spins at on nothing) inv =
    moves s looping inv (inr (inr nothing)) (λ e. ground (arith, e)) (λ e. ground (arith, e))
Step-Inv {s = s} (sends r at on held) inv = record {
  in_order = rw append_assoc (rw held at inv.in_order);
  empty_handed = inr (inr refl);
  read_empty = λ e. ground (arith, e);
  asleep_empty = λ e. ground (arith, e);
  flagged = inv.flagged;
}
Step-Inv {s = s} (fails r at on held) inv =
    moves s over inv (inr (inl refl)) (λ e. ground (arith, e)) (λ e. ground (arith, e))

pub Reach-Inv : {R : Type 0} {s t : System R} → Inv s → Reach s t → Inv t
Reach-Inv inv here = inv
Reach-Inv inv (next r st) = Step-Inv st (Reach-Inv inv r)

start-Inv : (R : Type 0) → Inv (start R)
unfolding start empty_buffers on_the_way hand
start-Inv R = record {
  in_order = refl;
  empty_handed = inr (inr refl);
  read_empty = λ e. refl;
  asleep_empty = λ e. refl;
  flagged = inl refl;
}

-- In whatever order the threads take their steps, at every point: the replies that were queued are,
-- in this order, those that were sent, the one that the sender holds, those in its read buffer and
-- those in the write buffer. So none is lost, sent twice or overtaken.
pub queued-in_order :
    {R : Type 0} {t : System R}
    → Reach (start R) t
    → t.queued ≡ t.sent ++ (hand t.in_hand ++ (t.buffers.read_buffer ++ t.buffers.write_buffer))
unfolding on_the_way
queued-in_order {R} r = (Reach-Inv (start-Inv R) r).in_order

-- At every point: while the sender waits, with its mutex or asleep, its read buffer is empty and it
-- holds nothing; and replies in the write buffer are flagged in `has_data`, or a thread is still
-- about to flag them.
pub waiting-flagged :
    {R : Type 0} {t : System R}
    → Reach (start R) t
    → ((is_locked t.place ≡ true) ⊎ (t.place ≡ asleep)
        → (t.buffers.read_buffer ≡ []) × (t.in_hand ≡ none))
      × ((t.buffers.write_buffer ≢ []) → (t.buffers.has_data ≡ true) ⊎ (0 < t.flagging))
unfolding is_locked
waiting-flagged {R} {t} r =
    let inv = Reach-Inv (start-Inv R) r in
    (
      (λ waits. elim waits [
        | inl locked ↦ (
          inv.read_empty locked,
          unhanded t inv (λ e. ground (arith, e, locked)) (λ e. ground (arith, e, locked)),
        )
        | inr slept ↦ (
          inv.asleep_empty slept,
          unhanded t inv (λ e. ground (arith, e, slept)) (λ e. ground (arith, e, slept)),
        )
      ]),
      (λ some_written. elim inv.flagged [
        | inl nothing ↦ absurd (some_written nothing)
        | inr rest ↦ rest
      ]),
    )
