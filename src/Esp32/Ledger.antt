-- ===== src/Esp32/Ledger.antt =====
-- No command to components/usbipdcpp/src/esp32_handler/Esp32DeviceHandler.cpp is answered twice.
use esp32_usb_ip.Prelude.{
  ℕ, ◌+◌, ◌≤◌, ◌≡◌, refl, sym, ap, ◌∙◌, inl, inr, Bool, true, false, Bool-cases, ◌==◌,
  if◌then◌else◌, if_lem, Option, none, some, Option-cases, List, [], ◌∷◌, arith,
}
use esp32_usb_ip.Prelude.Int.{ℤ}
use esp32_usb_ip.Protocol.{ErrorType, get_server_header}
use esp32_usb_ip.Protocol.Response.{
  create_ret_submit, create_ret_submit_with_status_and_no_data, create_ret_submit_ok_without_data,
  create_ret_submit_epipe_without_data, create_ret_unlink,
}
use esp32_usb_ip.Esp32.{
  TransferStatus, status_completed, status_error, status_timed_out, status_canceled, status_stall,
  status_overflow, status_no_device, status_other, Submission, submitted, not_found, rejected,
  TransferType, CallbackArgs, Reply, ret_submit, ret_unlink, lookup, free, Esp32DeviceHandler,
  submit,
}
use esp32_usb_ip.Esp32.Submit.{
  Urb, is_control, callback_args, register, unregister, refused, after_submit, start_transfer,
  type_of, receive_urb, mark, mark_found, mark_unlinked,
}
use esp32_usb_ip.SetupPacket.Requests.{is_tweaked}
use esp32_usb_ip.Esp32.Finish.{Completion, reply_of, finish, resubmit, finish_by, transfer_callback}
use esp32_usb_ip.Esp32.Table.{lookup-here, lookup-there}
use esp32_usb_ip.Esp32.Order.{
  System, start, Reach, starts, receives, marks, cancels, finishes, stops, removes,
}

unfoldable pub one : ℕ → ℕ → ℕ
one x n = if n == x then 1 else 0

unfoldable pub count : ℕ → List ℕ → ℕ
count x [] = 0
count x (n ∷ ns) = one x n + count x ns

-- The command that a transfer is to answer: its own, or the one that unlinked it.
unfoldable pub due : CallbackArgs → ℕ
due cb = if cb.unlinked then cb.unlink_cmd_seqnum else cb.seqnum

unfoldable pub owed : List (ℕ × CallbackArgs) → List ℕ
owed [] = []
owed ((address, cb) ∷ rest) = due cb ∷ owed rest

unfoldable pub number_of : Reply → ℕ
number_of (ret_submit r) = r.header.seqnum
number_of (ret_unlink r) = r.header.seqnum

unfoldable pub answered : List Reply → List ℕ
answered [] = []
answered (r ∷ rs) = number_of r ∷ answered rs

-- How often a command is answered, or will be by a transfer in flight.
unfoldable pub load : ℕ → Esp32DeviceHandler → ℕ
load x d = count x (answered d.replies) + count x (owed d.callbacks)

pub owed-free :
    (x address : ℕ) (cbs : List (ℕ × CallbackArgs)) (cb : CallbackArgs)
    → lookup address cbs ≡ some cb
    → count x (owed cbs) ≡ one x (due cb) + count x (owed (free address cbs))
unfolding owed count lookup free
owed-free x address [] cb e = cc
owed-free x address ((k, c) ∷ rest) cb e = elim (Bool-cases (k == address)) [
  | inl here ↦
      rw here
        (ap (λ a. one x (due a) + count x (owed rest)) (lookup-here address k c cb rest here e))
  | inr there ↦
      let found = sym (lookup-there address k c rest there) ∙ e in
      rw there (omega (arith, owed-free x address rest cb found))
]

owed-mark :
    (x address n : ℕ) (cbs : List (ℕ × CallbackArgs))
    → count x (owed (mark address n cbs)) ≤ one x n + count x (owed cbs)
unfolding owed count mark due
owed-mark x address n [] = omega arith
owed-mark x address n ((k, c) ∷ rest) = elim (Bool-cases (k == address)) [
  | inl here ↦ rw here (omega arith)
  | inr there ↦ rw there (omega (arith, owed-mark x address n rest))
]

pub number_of-reply_of :
    (address : ℕ) (cb : CallbackArgs) (c : Completion) → number_of (reply_of address cb c) ≡ due cb
unfolding number_of reply_of due create_ret_unlink create_ret_submit
    create_ret_submit_with_status_and_no_data get_server_header
number_of-reply_of address cb c = elim (Bool-cases cb.unlinked) [
  | inl is_unlinked ↦ rw is_unlinked refl
  | inr plain ↦ elim (Bool-cases cb.is_out) [
    | inl out ↦ rw (plain, out) refl
    | inr into ↦ rw (plain, into) refl
  ]
]

-- A transfer that ends with a reply to the command that it is to answer.
ended-load :
    (address : ℕ) (cb : CallbackArgs) (r : Reply) (x : ℕ) (d : Esp32DeviceHandler)
    → lookup address d.callbacks ≡ some cb
    → number_of r ≡ due cb
    → load x (submit r (unregister cb.seqnum address d)) ≡ load x d
unfolding load answered count unregister
ended-load address cb r x d e same = rw same (omega (arith, owed-free x address d.callbacks cb e))

-- A new transfer is to answer its command.
module _ (u : Urb) (address : ℕ) (x : ℕ) (d : Esp32DeviceHandler) where
  registered-load :
      (t : TransferType)
      → load x (register address (callback_args u t) d) ≡ one x u.seqnum + load x d
  unfolding load register owed count due callback_args
  registered-load t = omega arith

  refused-load :
      (t : TransferType) (removed : Bool)
      → load x (
          refused u.seqnum address
            (record (register address (callback_args u t) d) { device_removed = removed }))
        ≡ one x u.seqnum + load x d
  unfolding load register owed count due callback_args unregister free answered number_of
      create_ret_submit_epipe_without_data create_ret_submit get_server_header
  refused-load t removed =
      let same : (address == address) ≡ true = ground arith in rw same (omega arith)

  Adds : Option ErrorType × Esp32DeviceHandler → Type 0
  Adds p = load x p.1 ≤ one x u.seqnum + load x d

  after_submit-Adds :
      (t : TransferType) (err : Submission)
      → Adds (after_submit u.seqnum address err (register address (callback_args u t) d))
  unfolding after_submit Adds load one count answered number_of owed unregister
      create_ret_submit_epipe_without_data create_ret_submit get_server_header
  after_submit-Adds t submitted = omega (arith, registered-load t)
  after_submit-Adds t not_found = omega (arith, refused-load t true)
  after_submit-Adds t rejected = omega (arith, refused-load t d.device_removed)

  start_transfer-Adds :
      (err : Submission) (o : Option TransferType) → Adds (start_transfer u address err o d)
  unfolding start_transfer Adds load one
  start_transfer-Adds err none = omega arith
  start_transfer-Adds err (some t) = after_submit-Adds t err

  receive_urb-Adds :
      (tweak_ret : ℤ) (err : Submission) → Adds (receive_urb u address tweak_ret err d)
  unfolding receive_urb Adds load answered count number_of create_ret_submit_ok_without_data
      create_ret_submit get_server_header
  receive_urb-Adds tweak_ret err =
      if_lem Adds d.device_removed (λ e. omega arith)
        (λ e.
          if_lem Adds (is_control u)
            (λ e.
              if_lem Adds (is_tweaked tweak_ret) (λ e. omega arith)
                (λ e. start_transfer-Adds err (type_of u.ep.attributes)))
            (λ e.
              if_lem Adds u.has_interface (λ e. start_transfer-Adds err (type_of u.ep.attributes))
                (λ e. omega arith)))

mark_unlinked-adds :
    (x n m : ℕ) (d : Esp32DeviceHandler) → load x (mark_unlinked n m d).1 ≤ one x m + load x d
unfolding mark_unlinked mark_found load answered count number_of create_ret_unlink get_server_header
mark_unlinked-adds x n m d =
    if_lem (λ (p : Option ℕ × Esp32DeviceHandler). load x p.1 ≤ one x m + load x d) d.device_removed
      (λ e. omega arith)
      (λ e. elim (Option-cases (lookup n d.transfers)) [
        | inl none_there ↦ rw none_there (omega arith)
        | inr (address, there) ↦ rw there (omega (arith, owed-mark x address m d.callbacks))
      ])

-- A call back adds nothing.
module _ (address : ℕ) (cb : CallbackArgs) (c : Completion) (x : ℕ) where
  finish-load :
      (d : Esp32DeviceHandler)
      → lookup address d.callbacks ≡ some cb
      → load x (finish address cb c d) ≡ load x d
  unfolding finish
  finish-load d e =
      ended-load address cb (reply_of address cb c) x d e (number_of-reply_of address cb c)

  resubmit-load :
      (err : Submission) (d : Esp32DeviceHandler)
      → lookup address d.callbacks ≡ some cb
      → cb.unlinked ≡ false
      → load x (resubmit address cb err d) ≡ load x d
  unfolding resubmit number_of due create_ret_submit_epipe_without_data create_ret_submit
      get_server_header
  resubmit-load submitted d e plain = refl
  resubmit-load not_found d e plain = ended-load address cb _ x d e (rw plain refl)
  resubmit-load rejected d e plain = ended-load address cb _ x d e (rw plain refl)

  -- The marking of a device as removed does not count.
  finish_by-load :
      (err : Submission) (status : TransferStatus) (d : Esp32DeviceHandler)
      → lookup address d.callbacks ≡ some cb
      → load x (finish_by address cb c err status d) ≡ load x d
  unfolding finish_by load
  finish_by-load err status_canceled d e =
      if_lem (λ d'. load x d' ≡ load x d) cb.unlinked (λ is_unlinked. finish-load d e)
        (λ plain. resubmit-load err d e plain)
  finish_by-load err status_no_device d e = finish-load (record d { device_removed = true }) e
  finish_by-load err status_completed d e = finish-load d e
  finish_by-load err status_error d e = finish-load d e
  finish_by-load err status_timed_out d e = finish-load d e
  finish_by-load err status_stall d e = finish-load d e
  finish_by-load err status_overflow d e = finish-load d e
  finish_by-load err status_other d e = finish-load d e

  transfer_callback-le :
      (err : Submission) (d : Esp32DeviceHandler)
      → lookup address d.callbacks ≡ some cb
      → load x (transfer_callback address cb c err d) ≤ load x d
  unfolding transfer_callback load unregister
  transfer_callback-le err d e =
      if_lem (λ d'. load x d' ≤ load x d) d.all_transfer_should_stop
        (λ stopping. omega (arith, owed-free x address d.callbacks cb e))
        (λ going. omega (arith, finish_by-load err c.status d e))

-- In whatever order the receiver and the client of the host library take their steps, no command is
-- answered, or in flight to be answered, more often than it was received: of a transfer that was
-- unlinked, the reply to the command that unlinked it takes the place of its own.
pub answered-le :
    {numbers : List ℕ} {s : System}
    → Reach numbers s
    → (x : ℕ)
    → count x (answered s.handler.replies) + count x (owed s.handler.callbacks) ≤ count x numbers
unfolding count answered owed load start Adds
answered-le starts x = omega arith
answered-le (receives {s = s} u address tweak_ret err before free_hand fresh) x =
    let more = receive_urb-Adds u address x s.handler tweak_ret err in
    omega (arith, answered-le before x, more)
answered-le (marks {s = s} n m before free_hand) x =
    let more = mark_unlinked-adds x n m s.handler in omega (arith, answered-le before x, more)
answered-le (cancels address cb before in_hand there) x = answered-le before x
answered-le (finishes {s = s} address cb c err before there) x =
    let no_more = transfer_callback-le address cb c x err s.handler there in
    omega (arith, answered-le before x, no_more)
answered-le (stops before) x = answered-le before x
answered-le (removes before) x = answered-le before x
