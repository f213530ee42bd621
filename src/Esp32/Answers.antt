-- ===== src/Esp32/Answers.antt =====
-- What a command and a call back come to in components/usbipdcpp/src/esp32_handler/
-- Esp32DeviceHandler.cpp, on every branch.
use esp32_usb_ip.Prelude.{
  ℕ, ◌+◌, ◌-◌, ◌%◌, ◌≡◌, ◌≢◌, refl, ◌⊎◌, inl, inr, Bool, true, false, Option, none, some, if_lem,
  ◌∷◌, arith, ◌==◌,
}
use esp32_usb_ip.Prelude.Int.{ℤ}
use esp32_usb_ip.Prelude.Bytes.{size_mod}
use esp32_usb_ip.Protocol.{ErrorType, invalid_arg, get_server_header}
use esp32_usb_ip.Protocol.Response.{
  create_ret_submit, create_ret_submit_ok_without_data, create_ret_submit_epipe_without_data,
}
use esp32_usb_ip.Esp32.{
  TransferStatus, status_completed, status_error, status_timed_out, status_canceled, status_stall,
  status_overflow, status_no_device, status_other, Submission, submitted, not_found, rejected,
  TransferType, CallbackArgs, Reply, lookup, erase, free, Esp32DeviceHandler,
}
use esp32_usb_ip.Esp32.Submit.{
  Urb, is_control, callback_args, register, unregister, refused, after_submit, start_transfer,
  type_of, receive_urb,
}
use esp32_usb_ip.SetupPacket.Requests.{is_tweaked}
use esp32_usb_ip.Esp32.Finish.{Completion, reply_of, finish, resubmit, finish_by, transfer_callback}
use esp32_usb_ip.Esp32.Ledger.{due, number_of, number_of-reply_of}

-- The transfer is over: its number, its arguments and its place in the count are given
-- back.
abbrev pub GivenBack : ℕ → CallbackArgs → Esp32DeviceHandler → Esp32DeviceHandler → Type 0
GivenBack address cb d d' =
    (d'.callbacks ≡ free address d.callbacks)
    × (d'.transfers ≡ erase cb.seqnum d.transfers)
    × (d'.pending_count ≡ (d.pending_count + size_mod - 1) % size_mod)

-- The transfer was cancelled along with another one, and is taken again by the host library.
unfoldable pub GoesOn : CallbackArgs → Completion → Submission → Type 0
GoesOn cb c err = (c.status ≡ status_canceled) × (cb.unlinked ≡ false) × (err ≡ submitted)

-- Which end a call back has: without a reply once the session ends, and before that in flight again
-- if the transfer goes on, and with one reply to the command that it was to answer if not.
unfoldable pub Finished :
    ℕ → CallbackArgs → Completion → Submission → Esp32DeviceHandler → Esp32DeviceHandler → Type 0
Finished address cb c err d d' =
    ((d.all_transfer_should_stop ≡ true) × (d'.replies ≡ d.replies) × GivenBack address cb d d')
    ⊎ ((d.all_transfer_should_stop ≡ false) × GoesOn cb c err × (d' ≡ d))
    ⊎ ((d.all_transfer_should_stop ≡ false)
        × ¬ GoesOn cb c err
        × ((r : Reply) × (number_of r ≡ due cb) × (d'.replies ≡ r ∷ d.replies))
        × GivenBack address cb d d')

module _ (address : ℕ) (cb : CallbackArgs) (c : Completion) where
  -- What a call back comes to while the session goes on.
  Going : Submission → Esp32DeviceHandler → Esp32DeviceHandler → Type 0
  Going err d d' = (d.all_transfer_should_stop ≡ false) → Finished address cb c err d d'

  finish-Going :
      (err : Submission) (removed : Bool) (d : Esp32DeviceHandler)
      → ¬ GoesOn cb c err
      → Going err d (finish address cb c (record d { device_removed = removed }))
  unfolding finish unregister Finished Going
  finish-Going err removed d ended going = inr (
      inr (
        going,
        ended,
        (reply_of address cb c, number_of-reply_of address cb c, refl),
        (refl, refl, refl),
      ))

  refused-Going :
      (err : Submission) (d : Esp32DeviceHandler)
      → cb.unlinked ≡ false
      → err ≢ submitted
      → Going err d (refused cb.seqnum address d)
  unfolding Finished Going GoesOn unregister number_of due create_ret_submit_epipe_without_data
      create_ret_submit get_server_header
  refused-Going err d plain not_taken going =
      inr (inr (going, λ on. not_taken on.2, (_, rw plain refl, refl), (refl, refl, refl)))

  resubmit-Going :
      (err : Submission) (d : Esp32DeviceHandler)
      → c.status ≡ status_canceled
      → cb.unlinked ≡ false
      → Going err d (resubmit address cb err d)
  unfolding resubmit Finished Going GoesOn
  resubmit-Going submitted d at plain going = inr (inl (going, (at, plain, refl), refl))
  resubmit-Going not_found d at plain going = refused-Going not_found d plain (λ e. cc) going
  resubmit-Going rejected d at plain going = refused-Going rejected d plain (λ e. cc) going

  finish_by-Going :
      (err : Submission) (status : TransferStatus) (d : Esp32DeviceHandler)
      → c.status ≡ status
      → Going err d (finish_by address cb c err status d)
  unfolding finish_by GoesOn
  finish_by-Going err status_canceled d at =
      if_lem (Going err d) cb.unlinked
        (λ is_unlinked. finish-Going err d.device_removed d (λ on. cc))
        (λ plain. resubmit-Going err d at plain)
  finish_by-Going err status_no_device d at = finish-Going err true d (λ on. cc)
  finish_by-Going err status_completed d at = finish-Going err d.device_removed d (λ on. cc)
  finish_by-Going err status_error d at = finish-Going err d.device_removed d (λ on. cc)
  finish_by-Going err status_timed_out d at = finish-Going err d.device_removed d (λ on. cc)
  finish_by-Going err status_stall d at = finish-Going err d.device_removed d (λ on. cc)
  finish_by-Going err status_overflow d at = finish-Going err d.device_removed d (λ on. cc)
  finish_by-Going err status_other d at = finish-Going err d.device_removed d (λ on. cc)

-- Once the session ends, a call back gives its transfer back and sends nothing. Before that, a
-- transfer that was cancelled without having been unlinked, and that the host library takes again,
-- goes on with nothing changed; and every other call back gives its transfer back and sends exactly
-- one reply, to the command that unlinked it or else to its own.
pub transfer_callback-Finished :
    (address : ℕ) (cb : CallbackArgs) (c : Completion) (err : Submission) (d : Esp32DeviceHandler)
    → Finished address cb c err d (transfer_callback address cb c err d)
unfolding transfer_callback Finished unregister Going
transfer_callback-Finished address cb c err d =
    if_lem (Finished address cb c err d) d.all_transfer_should_stop
      (λ stopping. inl (stopping, refl, (refl, refl, refl)))
      (λ going. finish_by-Going address cb c err c.status d refl going)

-- What a command meets: no device, or no interface where it needs one; or it is a control request
-- that the handler answers itself; or it is to be submitted.
unfoldable pub Blocked : Urb → Esp32DeviceHandler → Type 0
Blocked u d = (d.device_removed ≡ true) ⊎ ((is_control u ≡ false) × (u.has_interface ≡ false))

unfoldable pub Kept : Urb → ℤ → Esp32DeviceHandler → Type 0
Kept u tweak_ret d =
    (d.device_removed ≡ false) × (is_control u ≡ true) × (is_tweaked tweak_ret ≡ true)

unfoldable pub Goes : Urb → ℤ → Esp32DeviceHandler → Type 0
Goes u tweak_ret d =
    (d.device_removed ≡ false)
    × (((is_control u ≡ true) × (is_tweaked tweak_ret ≡ false))
        ⊎ ((is_control u ≡ false) × (u.has_interface ≡ true)))

abbrev pub Outcome : Type 0
Outcome = Option ErrorType × Esp32DeviceHandler

-- One reply under the command's number, and no transfer is started.
unfoldable pub RepliedOnce : Urb → Esp32DeviceHandler → Esp32DeviceHandler → Type 0
RepliedOnce u d d' =
    ((r : Reply) × (number_of r ≡ u.seqnum) × (d'.replies ≡ r ∷ d.replies))
    × (d'.callbacks ≡ d.callbacks)
    × (d'.leaked ≡ d.leaked)

-- What becomes of a command that is to be submitted, by its type and by what the library answers.
unfoldable pub Started : Urb → ℕ → Submission → Esp32DeviceHandler → Outcome → Type 0
Started u address err d p =
    ((type_of u.ep.attributes ≡ none)
      × (p ≡ (some invalid_arg, record d { leaked = address ∷ d.leaked })))
    ⊎ ((type_of u.ep.attributes ≢ none)
        × (err ≡ submitted)
        × (p.0 ≡ none)
        × ((cb : CallbackArgs) × (due cb ≡ u.seqnum)
            × (p.1.callbacks ≡ (address, cb) ∷ d.callbacks))
        × (lookup u.seqnum p.1.transfers ≡ some address)
        × (p.1.replies ≡ d.replies))
    ⊎ ((type_of u.ep.attributes ≢ none) × (err ≢ submitted) × RepliedOnce u d p.1)

unfoldable pub Accepted : Urb → ℕ → ℤ → Submission → Esp32DeviceHandler → Outcome → Type 0
Accepted u address tweak_ret err d p =
    (Blocked u d × (p.0 ≢ none) × (p.1 ≡ d))
    ⊎ (Kept u tweak_ret d × (p.0 ≡ none) × RepliedOnce u d p.1)
    ⊎ (Goes u tweak_ret d × Started u address err d p)

module _ (u : Urb) (address : ℕ) (d : Esp32DeviceHandler) where
  refused-RepliedOnce :
      (t : TransferType) (removed : Bool)
      → RepliedOnce u d (
          refused u.seqnum address
            (record (register address (callback_args u t) d) { device_removed = removed }))
  unfolding RepliedOnce register unregister free number_of create_ret_submit_epipe_without_data
      create_ret_submit get_server_header
  refused-RepliedOnce t removed =
      let same : (address == address) ≡ true = ground arith in ((_, refl, refl), rw same refl, refl)

  start_transfer-Started :
      (err : Submission) (o : Option TransferType)
      → type_of u.ep.attributes ≡ o
      → Started u address err d (start_transfer u address err o d)
  unfolding start_transfer after_submit Started register callback_args due lookup
  start_transfer-Started err none e = inl (e, refl)
  start_transfer-Started submitted (some t) e =
      let same : (u.seqnum == u.seqnum) ≡ true = ground arith in
      inr (inl (λ unknown. cc, refl, refl, (callback_args u t, refl, refl), rw same refl, refl))
  start_transfer-Started not_found (some t) e =
      inr (inr (λ unknown. cc, λ taken. cc, refused-RepliedOnce t true))
  start_transfer-Started rejected (some t) e =
      inr (inr (λ unknown. cc, λ taken. cc, refused-RepliedOnce t d.device_removed))

-- What `receive_urb` comes to. Where the device was removed, or a command that is not a control
-- request has no interface, it gives an error code and changes nothing. A control request that
-- `tweak_special_requests` handled is answered at once. Every other command is submitted: if the
-- library takes it, one transfer is in flight, filed under the command's number, that is to answer
-- it; if not, it is answered at once; and for an unknown type of transfer there is an error code, no
-- reply, and the new arguments are leaked.
pub receive_urb-Accepted :
    (u : Urb) (address : ℕ) (tweak_ret : ℤ) (err : Submission) (d : Esp32DeviceHandler)
    → Accepted u address tweak_ret err d (receive_urb u address tweak_ret err d)
unfolding receive_urb Accepted Blocked Kept Goes RepliedOnce number_of
    create_ret_submit_ok_without_data create_ret_submit get_server_header
receive_urb-Accepted u address tweak_ret err d =
    let P = Accepted u address tweak_ret err d in
    let started = start_transfer-Started u address d err (type_of u.ep.attributes) refl in
    if_lem P d.device_removed (λ e. inl (inl e, λ h. cc, refl))
      (λ here.
        if_lem P (is_control u)
          (λ control.
            if_lem P (is_tweaked tweak_ret)
              (λ kept. inr (inl ((here, control, kept), refl, ((_, refl, refl), refl, refl))))
              (λ goes. inr (inr ((here, inl (control, goes)), started))))
          (λ plain.
            if_lem P u.has_interface (λ e. inr (inr ((here, inr (plain, e)), started)))
              (λ e. inl (inr (plain, e), λ h. cc, refl))))
