-- ===== src/Cdc/Notifications.antt =====
-- The serial state notifications of components/usbipdcpp/usbipdcpp/src/virtual_device/
-- CdcAcmVirtualInterfaceHandler.cpp: one waits, and a newer one takes its place.
use esp32_usb_ip.Prelude.{
  ℕ, ◌≡◌, refl, ap, ◌⊎◌, inl, inr, Bool, Bool-cases, true, false, not, ◌&&◌, Option, none, some,
  List, [], ◌∷◌, ◌++◌, append_assoc, append-nil,
}
use esp32_usb_ip.Protocol.Transfer.{GenericTransfer}
use esp32_usb_ip.Protocol.Response.{
  RetSubmit, create_ret_submit, create_ret_submit_with_status_and_no_iso,
  create_ret_submit_ok_with_no_iso,
}
use esp32_usb_ip.Requests.{Request, EndpointRequestQueue, dequeue_any, empty}
use esp32_usb_ip.Requests.Idle.{IsIdle, empty-IsIdle, IsIdle-dequeue_any, cancel_by_seqnum-IsIdle}
use esp32_usb_ip.Cdc.Coding.{serial_state, notification_to_bytes}
use esp32_usb_ip.Cdc.Comm.{
  CdcAcmCommunicationInterfaceHandler, is_empty, Outcome, notification_reply, handle_interrupt_in,
  notify, send_serial_state_notification, handle_unlink_seqnum,
}
use esp32_usb_ip.Cdc.Flow.{bytes_of}

-- A request, a change of the serial state, and an unlink.
pub data Event : Type 0 where
  asks : ℕ → Request → Event
  changes : ℕ → Event
  unlinks : ℕ → ℕ → Event

unfoldable pub step : Event → CdcAcmCommunicationInterfaceHandler → Outcome
step (asks ep request) h = handle_interrupt_in ep request h
step (changes state_bits) h = send_serial_state_notification state_bits h
step (unlinks n m) h = ([], (handle_unlink_seqnum n m h).1)

unfoldable pub run : List Event → CdcAcmCommunicationInterfaceHandler → Outcome
run [] h = ([], h)
run (e ∷ es) h = let after = step e h in let rest = run es after.1 in (after.0 ++ rest.0, rest.1)

unfoldable pub notified : List Event → List (List ℕ)
notified [] = []
notified (asks ep request ∷ es) = notified es
notified (changes state_bits ∷ es) = notification_to_bytes (serial_state state_bits) ∷ notified es
notified (unlinks n m ∷ es) = notified es

-- What each reply carries.
unfoldable pub payloads : List (RetSubmit GenericTransfer) → List (List ℕ)
payloads [] = []
payloads (r ∷ rs) = bytes_of r.transfer ∷ payloads rs

-- The notification that waits, if there is one.
unfoldable pub held : List ℕ → List (List ℕ)
held [] = []
held (b ∷ bs) = (b ∷ bs) ∷ []

-- What is left of some notifications when only those are dropped that a newer one follows.
pub data Newest : List (List ℕ) → List (List ℕ) → Type 0 where
  nothing : Newest [] []
  kept : (x : List ℕ) {xs ys : List (List ℕ)} → Newest xs ys → Newest (x ∷ xs) (x ∷ ys)
  dropped : (x y : List ℕ) {xs ys : List (List ℕ)} → Newest (y ∷ xs) ys → Newest (x ∷ y ∷ xs) ys

-- A notification waits only while no request does.
unfoldable pub IsExclusive : CdcAcmCommunicationInterfaceHandler → Type 0
IsExclusive h = (h.pending_notification ≡ []) ⊎ IsIdle h.endpoint_requests

-- What came of the notification that waited and of those of some events.
unfoldable pub Told : List (List ℕ) → Outcome → Type 0
Told before p = Newest before (payloads p.0 ++ held p.1.pending_notification) × IsExclusive p.1

payload-reply :
    (notification : List ℕ) (request : Request)
    → bytes_of (notification_reply notification request).transfer ≡ notification
unfolding bytes_of notification_reply create_ret_submit_ok_with_no_iso
    create_ret_submit_with_status_and_no_iso create_ret_submit
payload-reply notification request = refl

-- A step, given what becomes of what it leaves and of all that follows it.
unfoldable pub Follows : List (List ℕ) → List (List ℕ) → Outcome → Type 0
Follows before given p =
    ((later rest : List (List ℕ))
      → Newest (held p.1.pending_notification ++ later) rest
      → Newest (before ++ (given ++ later)) (payloads p.0 ++ rest))
    × IsExclusive p.1

kept_first :
    (p : List ℕ) (none_asks : Bool) (later rest : List (List ℕ))
    → (not (is_empty p) && none_asks) ≡ true
    → Newest later rest
    → Newest (held p ++ later) (p ∷ rest)
unfolding held
kept_first [] none_asks later rest ready n = absurd cc
kept_first (x ∷ xs) none_asks later rest ready n = kept (x ∷ xs) n

none_waits :
    (p : List ℕ) (none_asks : Bool)
    → none_asks ≡ true
    → (not (is_empty p) && none_asks) ≡ false
    → p ≡ []
none_waits [] none_asks e wait = refl
none_waits (x ∷ xs) none_asks e wait = absurd cc

interrupt-Follows :
    (ep : ℕ) (request : Request) (h : CdcAcmCommunicationInterfaceHandler)
    → IsExclusive h
    → Follows (held h.pending_notification) [] (handle_interrupt_in ep request h)
unfolding Follows handle_interrupt_in payloads held IsExclusive
interrupt-Follows ep request h exclusive =
    elim (Bool-cases (not (is_empty h.pending_notification) && empty ep h.endpoint_requests)) [
      | inl ready ↦
          rw (ready, payload-reply h.pending_notification request)
            ((λ later rest n. kept_first h.pending_notification _ later rest ready n), inl refl)
      | inr wait ↦
          let none_held : h.pending_notification ≡ [] = elim exclusive [
            | inl already ↦ already
            | inr idle ↦
                none_waits h.pending_notification _ (empty-IsIdle ep h.endpoint_requests idle) wait
          ] in
          rw wait ((λ later rest n. n), inl none_held)
    ]

replaced :
    (p n : List ℕ) (later rest : List (List ℕ))
    → Newest (n ∷ later) rest
    → Newest (held p ++ (n ∷ later)) rest
unfolding held
replaced [] n later rest newest = newest
replaced (x ∷ xs) n later rest newest = dropped (x ∷ xs) n newest

notify-Follows :
    (b : ℕ) (bs : List ℕ) (found : Option (Request × EndpointRequestQueue))
    (h : CdcAcmCommunicationInterfaceHandler)
    → (found ≡ none → IsIdle h.endpoint_requests)
    → Follows (held h.pending_notification) ((b ∷ bs) ∷ []) (notify (b ∷ bs) found h)
unfolding Follows notify payloads held IsExclusive
notify-Follows b bs none h idle =
    ((λ later rest n. replaced h.pending_notification (b ∷ bs) later rest n), inr (idle refl))
notify-Follows b bs (some (request, queues)) h idle =
    rw (payload-reply (b ∷ bs) request) (
      (λ later rest n. replaced h.pending_notification (b ∷ bs) later _ (kept (b ∷ bs) n)),
      inl refl,
    )

unlink-Follows :
    (n m : ℕ) (h : CdcAcmCommunicationInterfaceHandler)
    → IsExclusive h
    → Follows (held h.pending_notification) [] ([], (handle_unlink_seqnum n m h).1)
unfolding Follows handle_unlink_seqnum payloads IsExclusive
unlink-Follows n m h (inl none_held) = ((λ later rest newest. newest), inl none_held)
unlink-Follows n m h (inr idle) =
    ((λ later rest newest. newest), inr (cancel_by_seqnum-IsIdle n h.endpoint_requests idle))

step-Follows :
    (e : Event) (h : CdcAcmCommunicationInterfaceHandler)
    → IsExclusive h
    → Follows (held h.pending_notification) (notified (e ∷ [])) (step e h)
unfolding step notified send_serial_state_notification notification_to_bytes serial_state
step-Follows (asks ep request) h exclusive = interrupt-Follows ep request h exclusive
step-Follows (changes state_bits) h exclusive =
    notify-Follows _ _ (dequeue_any h.endpoint_requests) h
      (λ none_found. IsIdle-dequeue_any h.endpoint_requests none_found)
step-Follows (unlinks n m) h exclusive = unlink-Follows n m h exclusive

notified-cons : (e : Event) (es : List Event) → notified (e ∷ es) ≡ notified (e ∷ []) ++ notified es
unfolding notified
notified-cons (asks ep request) es = refl
notified-cons (changes state_bits) es = refl
notified-cons (unlinks n m) es = refl

payloads-append :
    (rs qs : List (RetSubmit GenericTransfer)) → payloads (rs ++ qs) ≡ payloads rs ++ payloads qs
unfolding payloads
payloads-append [] qs = refl
payloads-append (r ∷ rs) qs = ap (λ ps. bytes_of r.transfer ∷ ps) (payloads-append rs qs)

Newest-self : (xs : List (List ℕ)) → Newest xs xs
Newest-self [] = nothing
Newest-self (x ∷ xs) = kept x (Newest-self xs)

-- Whatever comes in whatever order, requests, changes of the serial state and unlinks, where at the
-- start no notification waits or no request does: of the notification that waited and of those of
-- the changes, in their order, each is carried by a reply, in the order of the replies, or still
-- waits, behind them, or a newer one has taken its place; and no notification waits while a request
-- does.
pub run-Told :
    (es : List Event) (h : CdcAcmCommunicationInterfaceHandler)
    → IsExclusive h
    → Told (held h.pending_notification ++ notified es) (run es h)
unfolding Told run notified payloads Follows
run-Told [] h exclusive =
    rw (append-nil (held h.pending_notification))
      (Newest-self (held h.pending_notification), exclusive)
run-Told (e ∷ es) h exclusive =
    let (onward, exclusive') = step-Follows e h exclusive in
    let (newest, after) = run-Told es (step e h).1 exclusive' in
    let (rs, h') = run es (step e h).1 in
    let all = onward (notified es) _ newest in
    let replies = payloads-append (step e h).0 rs in
    rw (notified-cons e es, replies, append_assoc (payloads (step e h).0) (payloads rs) _)
      (all, after)
