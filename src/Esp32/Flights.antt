-- ===== src/Esp32/Flights.antt =====
-- The table of transfers of components/usbipdcpp/src/esp32_handler/Esp32DeviceHandler.cpp and the
-- count of those in flight.
use esp32_usb_ip.Prelude.{
  ℕ, ◌+◌, ◌%◌, ◌≡◌, ◌≢◌, refl, sym, ap, ◌∙◌, inl, inr, Bool, true, Bool-cases, ◌==◌, ==_iff,
  ne→==_false, if_lem, Option, none, some, Option-cases, List, [], ◌∷◌, length, arith,
}
use esp32_usb_ip.Prelude.Int.{ℤ}
use esp32_usb_ip.Prelude.Bytes.{size_mod}
use esp32_usb_ip.Protocol.{ErrorType}
use esp32_usb_ip.Esp32.{
  TransferStatus, status_completed, status_error, status_timed_out, status_canceled, status_stall,
  status_overflow, status_no_device, status_other, Submission, submitted, not_found, rejected,
  TransferType, CallbackArgs, Reply, lookup, erase, free, Esp32DeviceHandler, submit,
}
use esp32_usb_ip.Esp32.Submit.{
  Urb, is_control, callback_args, register, unregister, after_submit, start_transfer, type_of,
  receive_urb, mark, mark_found, mark_unlinked,
}
use esp32_usb_ip.SetupPacket.Requests.{is_tweaked}
use esp32_usb_ip.Esp32.Finish.{Completion, finish, resubmit, finish_by, transfer_callback}
use esp32_usb_ip.Esp32.Order.{
  System, start, Reach, starts, receives, marks, cancels, finishes, stops, removes,
}
use esp32_usb_ip.Esp32.Table.{
  lookup-here, lookup-there, ==_false→ne, lookup_self, lookup-erase_key, lookup-erase_ne,
  lookup-free_ne,
}

length-free :
    (address : ℕ) (xs : List (ℕ × CallbackArgs)) (cb : CallbackArgs)
    → lookup address xs ≡ some cb
    → length (free address xs) + 1 ≡ length xs
unfolding lookup free
length-free address [] cb e = cc
length-free address ((k, a) ∷ rest) cb e = elim (Bool-cases (k == address)) [
  | inl here ↦ rw here (omega arith)
  | inr there ↦
      let found = sym (lookup-there address k a rest there) ∙ e in
      rw there (omega (arith, length-free address rest cb found))
]

length-mark :
    (address n : ℕ) (xs : List (ℕ × CallbackArgs)) → length (mark address n xs) ≡ length xs
unfolding mark
length-mark address n [] = refl
length-mark address n ((k, a) ∷ rest) = elim (Bool-cases (k == address)) [
  | inl here ↦ rw here (omega arith)
  | inr there ↦ rw there (omega (arith, length-mark address n rest))
]

-- There are arguments at `address`, of the command `n`.
unfoldable pub IsFor : ℕ → ℕ → List (ℕ × CallbackArgs) → Type 0
IsFor n address cbs = (cb : CallbackArgs) × (lookup address cbs ≡ some cb) × (cb.seqnum ≡ n)

mark-IsFor :
    (n b address m : ℕ) (cbs : List (ℕ × CallbackArgs))
    → IsFor n b cbs
    → IsFor n b (mark address m cbs)
unfolding IsFor mark lookup
mark-IsFor n b address m [] h = h
mark-IsFor n b address m ((k, a) ∷ rest) (cb, e, same) = elim (Bool-cases (k == address)) [
  | inl at ↦ elim (Bool-cases (k == b)) [
    | inl here ↦
        let is_a : a ≡ cb = lookup-here b k a cb rest here e in
        (
          record a { unlinked = true; unlink_cmd_seqnum = m },
          rw (at, here) refl,
          ap (λ c. c.seqnum) is_a ∙ same,
        )
    | inr there ↦ (cb, rw (at, there) (sym (lookup-there b k a rest there) ∙ e), same)
  ]
  | inr off ↦ elim (Bool-cases (k == b)) [
    | inl here ↦ (cb, rw (off, here) (ap (λ c. some c) (lookup-here b k a cb rest here e)), same)
    | inr there ↦
        let (cb', e', same') =
          mark-IsFor n b address m rest (cb, sym (lookup-there b k a rest there) ∙ e, same) in
        (cb', rw (off, there) e', same')
  ]
]

-- The count of the transfers in flight is right, in the bits of a `size_t`, and every number in the
-- table leads to arguments in use, those of the command with that number.
pub record Tracked (d : Esp32DeviceHandler) : Type 0 where
  pub pending : d.pending_count ≡ length d.callbacks % size_mod
  pub in_use : (n address : ℕ) → lookup n d.transfers ≡ some address → IsFor n address d.callbacks

register-in_use :
    (u : Urb) (address : ℕ) (t : TransferType) (d : Esp32DeviceHandler)
    → Tracked d
    → lookup address d.callbacks ≡ none
    → (n b : ℕ) → lookup n (register address (callback_args u t) d).transfers ≡ some b
    → IsFor n b (register address (callback_args u t) d).callbacks
unfolding register callback_args IsFor
register-in_use u address t d h fresh n b e =
    let cb = callback_args u t in
    let rest = erase u.seqnum d.transfers in
    elim (Bool-cases (u.seqnum == n)) [
      | inl at ↦
          let same : address ≡ b = lookup-here n u.seqnum address b rest at e in
          let found : lookup b ((address, cb) ∷ d.callbacks) ≡ some cb =
            ap (λ k. lookup k ((address, cb) ∷ d.callbacks)) (sym same)
            ∙ lookup_self address cb d.callbacks in
          (cb, found, (==_iff u.seqnum n).0 at)
      | inr off ↦
          let before : lookup n d.transfers ≡ some b =
            sym (lookup-erase_ne u.seqnum n d.transfers (==_false→ne u.seqnum n off))
            ∙ (sym (lookup-there n u.seqnum address rest off) ∙ e) in
          let (old, there, same) = h.in_use n b before in
          let ne : address ≢ b = λ is.
            let never : none ≡ some old = sym fresh ∙ (ap (λ k. lookup k d.callbacks) is ∙ there) in
            cc in
          (old, lookup-there b address cb d.callbacks (ne→==_false address b ne) ∙ there, same)
    ]

registered :
    (u : Urb) (address : ℕ) (t : TransferType) (d : Esp32DeviceHandler)
    → Tracked d
    → lookup address d.callbacks ≡ none
    → Tracked (register address (callback_args u t) d)
unfolding register
registered u address t d h fresh = record {
  pending = omega (arith, h.pending);
  in_use = register-in_use u address t d h fresh;
}

unregister-in_use :
    (address : ℕ) (cb : CallbackArgs) (d : Esp32DeviceHandler)
    → Tracked d
    → lookup address d.callbacks ≡ some cb
    → (n b : ℕ) → lookup n (erase cb.seqnum d.transfers) ≡ some b
    → IsFor n b (free address d.callbacks)
unfolding IsFor
unregister-in_use address cb d h there n b e = elim (Bool-cases (cb.seqnum == n)) [
  | inl at ↦
      let gone : lookup n (erase cb.seqnum d.transfers) ≡ none =
        ap (λ k. lookup k (erase cb.seqnum d.transfers)) (sym ((==_iff cb.seqnum n).0 at))
        ∙ lookup-erase_key cb.seqnum d.transfers in
      let never : none ≡ some b = sym gone ∙ e in cc
  | inr off ↦
      let differ : cb.seqnum ≢ n = ==_false→ne cb.seqnum n off in
      let before : lookup n d.transfers ≡ some b =
        sym (lookup-erase_ne cb.seqnum n d.transfers differ) ∙ e in
      let (other, found, same) = h.in_use n b before in
      let apart : address ≢ b = λ is.
        let agree : some cb ≡ some other =
          sym there ∙ (ap (λ k. lookup k d.callbacks) is ∙ found) in
        let is_other : cb ≡ other = cc in differ (ap (λ c. c.seqnum) is_other ∙ same) in
      (other, lookup-free_ne address b d.callbacks apart ∙ found, same)
]

unregistered :
    (address : ℕ) (cb : CallbackArgs) (d : Esp32DeviceHandler)
    → Tracked d
    → lookup address d.callbacks ≡ some cb
    → Tracked (unregister cb.seqnum address d)
unfolding unregister
unregistered address cb d h there = record {
  pending = omega (arith, h.pending, length-free address d.callbacks cb there);
  in_use = unregister-in_use address cb d h there;
}

-- An error of the host library undoes the registration.
module _ (u : Urb) (address : ℕ) (d : Esp32DeviceHandler) (h : Tracked d)
    (fresh : lookup address d.callbacks ≡ none) where
  refused-Tracked :
      (t : TransferType) (removed : Bool)
      → Tracked (
          unregister u.seqnum address
            (record (register address (callback_args u t) d) { device_removed = removed }))
  unfolding register callback_args
  refused-Tracked t removed =
      let cb = callback_args u t in
      let now = registered u address t d h fresh in
      unregistered address cb (record (register address cb d) { device_removed = removed })
        (record { pending = now.pending; in_use = now.in_use }) (lookup_self address cb d.callbacks)

  Tracks : Option ErrorType × Esp32DeviceHandler → Type 0
  Tracks p = Tracked p.1

  replied : {d' : Esp32DeviceHandler} (r : Reply) → Tracked d' → Tracked (submit r d')
  replied r h' = record { pending = h'.pending; in_use = h'.in_use }

  start_transfer-Tracks :
      (err : Submission) (o : Option TransferType) → Tracks (start_transfer u address err o d)
  unfolding start_transfer after_submit Tracks unregister register callback_args
  start_transfer-Tracks err none = record { pending = h.pending; in_use = h.in_use }
  start_transfer-Tracks submitted (some t) = registered u address t d h fresh
  start_transfer-Tracks not_found (some t) = replied _ (refused-Tracked t true)
  start_transfer-Tracks rejected (some t) =
      let over = refused-Tracked t d.device_removed in
      record { pending = over.pending; in_use = over.in_use }

  receive_urb-Tracks :
      (tweak_ret : ℤ) (err : Submission) → Tracks (receive_urb u address tweak_ret err d)
  unfolding receive_urb Tracks
  receive_urb-Tracks tweak_ret err =
      let starts = start_transfer-Tracks err (type_of u.ep.attributes) in
      if_lem Tracks d.device_removed (λ e. h)
        (λ e.
          if_lem Tracks (is_control u)
            (λ e. if_lem Tracks (is_tweaked tweak_ret) (λ e. replied _ h) (λ e. starts))
            (λ e. if_lem Tracks u.has_interface (λ e. starts) (λ e. h)))

mark_unlinked-Tracked :
    (n m : ℕ) (d : Esp32DeviceHandler) → Tracked d → Tracked (mark_unlinked n m d).1
unfolding mark_unlinked mark_found
mark_unlinked-Tracked n m d h =
    if_lem (λ (p : Option ℕ × Esp32DeviceHandler). Tracked p.1) d.device_removed (λ e. h)
      (λ e. elim (Option-cases (lookup n d.transfers)) [
        | inl none_there ↦ rw none_there (record { pending = h.pending; in_use = h.in_use })
        | inr (address, there) ↦ rw there (record {
          pending = omega (arith, h.pending, length-mark address m d.callbacks);
          in_use = λ k b e. mark-IsFor k b address m d.callbacks (h.in_use k b e);
        })
      ])

module _ (address : ℕ) (cb : CallbackArgs) (c : Completion) where
  finish-Tracked :
      (d : Esp32DeviceHandler)
      → Tracked d
      → lookup address d.callbacks ≡ some cb
      → Tracked (finish address cb c d)
  unfolding finish
  finish-Tracked d h e =
      let over = unregistered address cb d h e in
      record { pending = over.pending; in_use = over.in_use }

  resubmit-Tracked :
      (err : Submission) (d : Esp32DeviceHandler)
      → Tracked d
      → lookup address d.callbacks ≡ some cb
      → Tracked (resubmit address cb err d)
  unfolding resubmit
  resubmit-Tracked submitted d h e = h
  resubmit-Tracked not_found d h e =
      let over = unregistered address cb d h e in
      record { pending = over.pending; in_use = over.in_use }
  resubmit-Tracked rejected d h e =
      let over = unregistered address cb d h e in
      record { pending = over.pending; in_use = over.in_use }

  finish_by-Tracked :
      (err : Submission) (status : TransferStatus) (d : Esp32DeviceHandler)
      → Tracked d
      → lookup address d.callbacks ≡ some cb
      → Tracked (finish_by address cb c err status d)
  unfolding finish_by
  finish_by-Tracked err status_canceled d h e =
      if_lem Tracked cb.unlinked (λ is_unlinked. finish-Tracked d h e)
        (λ plain. resubmit-Tracked err d h e)
  finish_by-Tracked err status_no_device d h e =
      finish-Tracked (record d { device_removed = true })
        (record { pending = h.pending; in_use = h.in_use }) e
  finish_by-Tracked err status_completed d h e = finish-Tracked d h e
  finish_by-Tracked err status_error d h e = finish-Tracked d h e
  finish_by-Tracked err status_timed_out d h e = finish-Tracked d h e
  finish_by-Tracked err status_stall d h e = finish-Tracked d h e
  finish_by-Tracked err status_overflow d h e = finish-Tracked d h e
  finish_by-Tracked err status_other d h e = finish-Tracked d h e

-- In whatever order the threads take their steps, `pending_count_` is the number of transfers in
-- flight, in the bits of a `size_t`, and what the table gives for a number is arguments in use, of
-- the command with that number: `handle_unlink_seqnum` marks no arguments that were freed.
pub reach-Tracked : {numbers : List ℕ} {s : System} → Reach numbers s → Tracked s.handler
unfolding start Tracks transfer_callback lookup
reach-Tracked starts = record { pending = omega arith; in_use = λ n b e. cc }
reach-Tracked (receives {s = s} u address tweak_ret err before free_hand fresh) =
    receive_urb-Tracks u address s.handler (reach-Tracked before) fresh tweak_ret err
reach-Tracked (marks {s = s} n m before free_hand) =
    mark_unlinked-Tracked n m s.handler (reach-Tracked before)
reach-Tracked (cancels address cb before in_hand there) = reach-Tracked before
reach-Tracked (finishes {s = s} address cb c err before there) =
    if_lem Tracked s.handler.all_transfer_should_stop
      (λ stopping. unregistered address cb s.handler (reach-Tracked before) there)
      (λ going. finish_by-Tracked address cb c err c.status s.handler (reach-Tracked before) there)
reach-Tracked (stops before) =
    let h = reach-Tracked before in record { pending = h.pending; in_use = h.in_use }
reach-Tracked (removes before) =
    let h = reach-Tracked before in record { pending = h.pending; in_use = h.in_use }
