-- ===== src/Cdc/Runs.antt =====
-- Any sequence of requests, bytes to send and unlinks at the data interface of components/usbipdcpp/
-- usbipdcpp/src/virtual_device/CdcAcmVirtualInterfaceHandler.cpp.
use esp32_usb_ip.Prelude.{
  ℕ, ◌+◌, ◌≡◌, refl, sym, ap, ◌∙◌, inl, inr, Bool-cases, Bool, true, false, ◌&&◌, if◌then◌else◌,
  List, [], ◌∷◌, ◌++◌, append_assoc, append-nil, take,
}
use esp32_usb_ip.Ring.{available}
use esp32_usb_ip.Ring as Ring
use esp32_usb_ip.Ring.Contents.{contents, IsValid}
use esp32_usb_ip.Requests.{Request}
use esp32_usb_ip.Requests as Requests
use esp32_usb_ip.Cdc.Data.{
  CdcAcmDataInterfaceHandler, Outcome, try_send_pending, fill, send_data, hold, handle_bulk_in,
  handle_unlink_seqnum,
}
use esp32_usb_ip.Cdc.Flow.{
  sent, sent-append, Streamed, try_send_pending-Streamed, fill_lem, send_data-Streamed,
  empty-contents, supply-Streamed,
}

-- A request with what `on_data_requested` gives for it; `send_data`; the two halves of
-- `send_data_blocking`, between which it waits; and an unlink.
pub data Event : Type 0 where
  asks : ℕ → Request → List ℕ → Event
  sends : List ℕ → Event
  fills : List ℕ → Event
  flushes : Event
  unlinks : ℕ → ℕ → Event

-- The replies with data, and what is left.
unfoldable pub step : Event → CdcAcmDataInterfaceHandler → Outcome
step (asks ep request bytes) h = handle_bulk_in ep request bytes h
step (sends bytes) h = (send_data bytes h).1
step (fills bytes) h = ([], (fill bytes h).1)
step flushes h = try_send_pending h
step (unlinks n m) h = ([], (handle_unlink_seqnum n m h).1)

unfoldable pub run : List Event → CdcAcmDataInterfaceHandler → Outcome
run [] h = ([], h)
run (e ∷ es) h = let after = step e h in let rest = run es after.1 in (after.0 ++ rest.0, rest.1)

-- The bytes that an event hands over, up to the room that there is for them.
unfoldable pub accepted : Event → CdcAcmDataInterfaceHandler → List ℕ
accepted (asks ep request bytes) h =
    if Ring.empty h.tx_buffer && Requests.empty ep h.endpoint_requests
    then take (request.length + available h.tx_buffer) bytes
    else []
accepted (sends bytes) h = take (available h.tx_buffer) bytes
accepted (fills bytes) h = take (available h.tx_buffer) bytes
accepted flushes h = []
accepted (unlinks n m) h = []

unfoldable pub all_accepted : List Event → CdcAcmDataInterfaceHandler → List ℕ
all_accepted [] h = []
all_accepted (e ∷ es) h = accepted e h ++ all_accepted es (step e h).1

and-true_left : (a b : Bool) → (a && b) ≡ true → a ≡ true
and-true_left true b h = refl
and-true_left false b h = absurd cc

step-Streamed :
    (e : Event) (h : CdcAcmDataInterfaceHandler)
    → IsValid h.tx_buffer
    → Streamed h (accepted e h) (step e h)
unfolding Streamed step accepted sent handle_unlink_seqnum handle_bulk_in
step-Streamed (asks ep request bytes) h valid =
    elim (Bool-cases (Ring.empty h.tx_buffer && Requests.empty ep h.endpoint_requests)) [
      | inl idle ↦
          let nothing = empty-contents h.tx_buffer (and-true_left _ _ idle) in
          rw idle (supply-Streamed ep request bytes h valid nothing)
      | inr busy ↦ rw busy (try_send_pending-Streamed (hold ep request h) valid)
    ]
step-Streamed (sends bytes) h valid = send_data-Streamed bytes h valid
step-Streamed (fills bytes) h valid =
    let (valid', held) = fill_lem bytes h valid in (valid', sym held)
step-Streamed flushes h valid = try_send_pending-Streamed h valid
step-Streamed (unlinks n m) h valid = (valid, append-nil (contents h.tx_buffer))

-- Whatever comes in whatever order, requests, bytes to send and unlinks: the bytes that were waiting,
-- followed by all that were accepted, are those that the replies carry, in the order of the replies,
-- followed by those still in the buffer, which stays valid.
pub run-Streamed :
    (es : List Event) (h : CdcAcmDataInterfaceHandler)
    → IsValid h.tx_buffer
    → Streamed h (all_accepted es h) (run es h)
unfolding Streamed run all_accepted sent
run-Streamed [] h valid = (valid, append-nil (contents h.tx_buffer))
run-Streamed (e ∷ es) h valid =
    let (valid', now) = step-Streamed e h valid in
    let (valid'', later) = run-Streamed es (step e h).1 valid' in
    (
      valid'',
      sym (append_assoc (contents h.tx_buffer) (accepted e h) (all_accepted es (step e h).1))
          ∙ ap (λ xs. xs ++ all_accepted es (step e h).1) now
          ∙ append_assoc (sent (step e h).0) (contents (step e h).1.tx_buffer) _
          ∙ ap (λ xs. sent (step e h).0 ++ xs) later
          ∙ sym (append_assoc (sent (step e h).0) (sent (run es (step e h).1).0) _)
          ∙ ap (λ xs. xs ++ contents (run es (step e h).1).1.tx_buffer)
              (sym (sent-append (step e h).0 (run es (step e h).1).0)),
    )
