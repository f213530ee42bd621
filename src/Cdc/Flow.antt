-- ===== src/Cdc/Flow.antt =====
-- No byte that components/usbipdcpp/usbipdcpp/src/virtual_device/CdcAcmVirtualInterfaceHandler.cpp
-- took for sending is lost, doubled or overtaken.
use esp32_usb_ip.Prelude.{
  ℕ, zero, suc, ◌+◌, ◌-◌, ◌≤◌, ◌≡◌, refl, sym, ap, ◌∙◌, ◌⊎◌, inl, inr, min, Bool-cases, true, leb,
  leb→le, ==_iff, Option, none, some, Option-cases, List, [], ◌∷◌, ◌++◌, append_assoc, append-nil,
  length, take, drop, take-append-drop, take-long, take-nil, take-add, arith,
}
use esp32_usb_ip.Protocol.Transfer.{GenericTransfer}
use esp32_usb_ip.Protocol.Response.{
  create_ret_submit, create_ret_submit_with_status_and_no_iso, create_ret_submit_ok_with_no_iso,
}
use esp32_usb_ip.Ring.{RingBuffer, write, read, size, available}
use esp32_usb_ip.Ring as Ring
use esp32_usb_ip.Ring.Contents.{contents, IsValid}
use esp32_usb_ip.Ring.Operations.{length-contents, IsValid-count, write_lem, read_lem, take-min}
use esp32_usb_ip.Requests.{Request, EndpointRequestQueue, dequeue_any}
use esp32_usb_ip.Requests.Idle.{
  IsIdle, IsIdle-dequeue_any, waiting, waiting-IsIdle, waiting-dequeue_any,
}
use esp32_usb_ip.Cdc.Data.{
  CdcAcmDataInterfaceHandler, Replies, data_reply, send_from_tx_buffer, send_rounds, Outcome,
  try_send_pending, fill, send_data, send_supplied, supply,
}

unfoldable pub bytes_of : Option GenericTransfer → List ℕ
bytes_of none = []
bytes_of (some t) = t.bytes

-- The bytes that some replies carry, in their order.
unfoldable pub sent : Replies → List ℕ
sent [] = []
sent (r ∷ rs) = bytes_of r.transfer ++ sent rs

pub sent-append : (rs qs : Replies) → sent (rs ++ qs) ≡ sent rs ++ sent qs
unfolding sent
sent-append [] qs = refl
sent-append (r ∷ rs) qs =
    ap (λ xs. bytes_of r.transfer ++ xs) (sent-append rs qs)
    ∙ sym (append_assoc (bytes_of r.transfer) (sent rs) (sent qs))

sent-data_reply :
    (request : Request) (bytes : List ℕ) → sent (data_reply request bytes ∷ []) ≡ bytes
unfolding sent bytes_of data_reply create_ret_submit_ok_with_no_iso
    create_ret_submit_with_status_and_no_iso create_ret_submit
sent-data_reply request bytes = append-nil bytes

-- A round sends the front of the buffer.
send_from_tx_buffer_lem :
    (request : Request) (tx : RingBuffer)
    → IsValid tx
    → IsValid (send_from_tx_buffer request tx).1
      × (contents tx
          ≡ bytes_of (send_from_tx_buffer request tx).0.transfer
            ++ contents (send_from_tx_buffer request tx).1)
unfolding send_from_tx_buffer bytes_of data_reply create_ret_submit_ok_with_no_iso
    create_ret_submit_with_status_and_no_iso create_ret_submit
send_from_tx_buffer_lem request tx valid =
    let n = min (size tx) request.length in
    let (valid', cap, bytes, held) = read_lem tx n valid in
    (valid', rw (bytes, held) (sym (take-append-drop n (contents tx))))

-- What is sent and what is left in the buffer are what it held; and nothing is left in it, or no
-- request waits.
unfoldable pub Drained : RingBuffer → Replies × RingBuffer × EndpointRequestQueue → Type 0
Drained tx p =
    IsValid p.1 × (contents tx ≡ sent p.0 ++ contents p.1) × ((Ring.empty p.1 ≡ true) ⊎ IsIdle p.2)

send_rounds-Drained :
    (n : ℕ) (tx : RingBuffer) (qs : EndpointRequestQueue)
    → IsValid tx
    → waiting qs ≤ n
    → Drained tx (send_rounds n tx qs)
unfolding send_rounds Drained sent
send_rounds-Drained zero tx qs valid enough = (valid, refl, inr (waiting-IsIdle qs (omega arith)))
send_rounds-Drained (suc n) tx qs valid enough = elim (Bool-cases (Ring.empty tx)) [
  | inl none_held ↦ rw (send_rounds, none_held) (valid, refl, inl none_held)
  | inr some_held ↦ elim (Option-cases (dequeue_any qs)) [
    | inl left ↦ rw (send_rounds, some_held, left) (valid, refl, inr (IsIdle-dequeue_any qs left))
    | inr ((request, others), found) ↦
        let (valid', e) = send_from_tx_buffer_lem request tx valid in
        let fewer = waiting-dequeue_any qs request others found in
        let (valid'', e', done) =
          send_rounds-Drained n (send_from_tx_buffer request tx).1 others valid'
            (omega (arith, fewer)) in
        let (r, tx') = send_from_tx_buffer request tx in
        let stream =
          e
          ∙ ap (λ xs. bytes_of r.transfer ++ xs) e'
          ∙ sym (
              append_assoc (bytes_of r.transfer) (sent (send_rounds n tx' others).0)
                (contents (send_rounds n tx' others).1)) in
        rw (send_rounds, some_held, found) (valid'', stream, done)
  ]
]

-- What an operation took for sending is in its replies or still in the buffer, behind what was there.
unfoldable pub Streamed : CdcAcmDataInterfaceHandler → List ℕ → Outcome → Type 0
Streamed h taken p =
    IsValid p.1.tx_buffer × (contents h.tx_buffer ++ taken ≡ sent p.0 ++ contents p.1.tx_buffer)

pub try_send_pending-Streamed :
    (h : CdcAcmDataInterfaceHandler) → IsValid h.tx_buffer → Streamed h [] (try_send_pending h)
unfolding Streamed try_send_pending Drained
try_send_pending-Streamed h valid =
    let (valid', e, done) =
      send_rounds-Drained (waiting h.endpoint_requests) h.tx_buffer h.endpoint_requests valid
        (omega arith) in
    (valid', append-nil (contents h.tx_buffer) ∙ e)

room : (tx : RingBuffer) → IsValid tx → available tx ≡ tx.capacity - length (contents tx)
unfolding available
room tx valid = let (le, small) = IsValid-count tx valid in omega (arith, length-contents tx)

pub fill_lem :
    (bytes : List ℕ) (h : CdcAcmDataInterfaceHandler)
    → IsValid h.tx_buffer
    → IsValid (fill bytes h).1.tx_buffer
      × (contents (fill bytes h).1.tx_buffer
          ≡ contents h.tx_buffer ++ take (available h.tx_buffer) bytes)
unfolding fill
fill_lem bytes h valid =
    let (valid', cap, n, held) = write_lem h.tx_buffer bytes valid in
    (valid', rw (room h.tx_buffer valid) held)

fill_count :
    (bytes : List ℕ) (h : CdcAcmDataInterfaceHandler)
    → IsValid h.tx_buffer
    → (fill bytes h).0 ≡ min (length bytes) (available h.tx_buffer)
unfolding fill
fill_count bytes h valid =
    let (valid', cap, n, held) = write_lem h.tx_buffer bytes valid in rw (room h.tx_buffer valid) n

pub send_data-Streamed :
    (bytes : List ℕ) (h : CdcAcmDataInterfaceHandler)
    → IsValid h.tx_buffer
    → Streamed h (take (available h.tx_buffer) bytes) (send_data bytes h).1
unfolding Streamed send_data
send_data-Streamed bytes h valid =
    let (filled, held) = fill_lem bytes h valid in
    let (valid', e) = try_send_pending-Streamed (fill bytes h).1 filled in
    (valid', sym held ∙ sym (append-nil (contents (fill bytes h).1.tx_buffer)) ∙ e)

nil_of_length : (xs : List ℕ) → length xs ≡ 0 → xs ≡ []
nil_of_length [] h = refl
nil_of_length (x ∷ xs) h = absurd (omega (arith, h))

pub empty-contents : (tx : RingBuffer) → Ring.empty tx ≡ true → contents tx ≡ []
unfolding Ring.empty
empty-contents tx e = nil_of_length (contents tx) (length-contents tx ∙ (==_iff tx.count 0).0 e)

send_supplied-Streamed :
    (request : Request) (bytes : List ℕ) (h : CdcAcmDataInterfaceHandler)
    → IsValid h.tx_buffer
    → contents h.tx_buffer ≡ []
    → Streamed h
        (take (request.length + available h.tx_buffer) bytes)
        (send_supplied request bytes h)
unfolding Streamed send_supplied
send_supplied-Streamed request bytes h valid nothing =
    elim (Bool-cases (leb (length bytes) request.length)) [
      | inl fits ↦
          let le = leb→le (length bytes) request.length fits in
          let all = take-long (request.length + available h.tx_buffer) bytes (omega (arith, le)) in
          rw (fits, all, nothing, sent-data_reply request bytes) (valid, sym (append-nil bytes))
      | inr long ↦
          let (valid', held) = fill_lem (drop request.length bytes) h valid in
          let now = take request.length bytes in
          rw (long, held, nothing, sent-data_reply request now)
            (valid', sym (take-add request.length (available h.tx_buffer) bytes))
    ]

pub supply-Streamed :
    (ep : ℕ) (request : Request) (bytes : List ℕ) (h : CdcAcmDataInterfaceHandler)
    → IsValid h.tx_buffer
    → contents h.tx_buffer ≡ []
    → Streamed h (take (request.length + available h.tx_buffer) bytes) (supply ep request bytes h)
unfolding Streamed supply sent
supply-Streamed ep request [] h valid nothing =
    let none_taken = take-nil ℕ (request.length + available h.tx_buffer) in
    rw none_taken (valid, append-nil (contents h.tx_buffer))
supply-Streamed ep request (byte ∷ bytes) h valid nothing =
    send_supplied-Streamed request (byte ∷ bytes) h valid nothing

-- What `send_data` gives: as many bytes as there is room for are counted and taken, and then nothing
-- is left in the buffer, or no request waits.
unfoldable pub Offered : List ℕ → CdcAcmDataInterfaceHandler → ℕ × Outcome → Type 0
Offered bytes h p =
    (p.0 ≡ min (length bytes) (available h.tx_buffer))
    × Streamed h (take p.0 bytes) p.1
    × ((Ring.empty p.1.1.tx_buffer ≡ true) ⊎ IsIdle p.1.1.endpoint_requests)

-- For a valid buffer, `send_data` returns the number of bytes that there is room for, or of all the
-- bytes if that is less; so many of them, from the front, are taken behind what the buffer held and
-- none is lost; and afterwards the buffer is empty or no request waits.
pub send_data-Offered :
    (bytes : List ℕ) (h : CdcAcmDataInterfaceHandler)
    → IsValid h.tx_buffer
    → Offered bytes h (send_data bytes h)
unfolding Offered Streamed send_data try_send_pending Drained fill
send_data-Offered bytes h valid =
    let count = fill_count bytes h valid in
    let (filled, held) = fill_lem bytes h valid in
    let (valid', e) = send_data-Streamed bytes h valid in
    let (v, f, done) =
      send_rounds-Drained (waiting h.endpoint_requests) (fill bytes h).1.tx_buffer
        h.endpoint_requests filled (omega arith) in
    (count, (valid', rw (count, take-min (available h.tx_buffer) bytes) e), done)
