-- ===== src/Cdc/Data.antt =====
-- The bytes that a virtual serial port sends: the data interface of components/usbipdcpp/usbipdcpp/
-- src/virtual_device/CdcAcmVirtualInterfaceHandler.cpp, over its ring buffer and the requests that
-- wait. Every operation runs under the locks that it takes.
use esp32_usb_ip.Prelude.{
  ℕ, zero, suc, ◌*◌, ◌/◌, ◌%◌, ◌^◌, min, Bool, true, false, leb, ◌&&◌, if◌then◌else◌, none, some,
  List, [], ◌∷◌, length, take, drop,
}
use esp32_usb_ip.Prelude.Bytes.{size_mod}
use esp32_usb_ip.Protocol.Transfer.{GenericTransfer}
use esp32_usb_ip.Protocol.Response.{
  RetSubmit, RetUnlink, create_ret_submit_ok_with_no_iso, create_ret_submit_ok_without_data,
  create_ret_unlink_success,
}
use esp32_usb_ip.Ring.{RingBuffer, write, read, resize, clear, size}
use esp32_usb_ip.Ring as Ring
use esp32_usb_ip.Requests.{Request, EndpointRequestQueue, enqueue, dequeue_any, cancel_by_seqnum}
use esp32_usb_ip.Requests as Requests
use esp32_usb_ip.Requests.Idle.{waiting}

pub record CdcAcmDataInterfaceHandler : Type 0 where
  pub tx_buffer : RingBuffer
  pub endpoint_requests : EndpointRequestQueue
  pub tx_high_watermark : ℕ
  pub tx_low_watermark : ℕ
  pub disconnected : Bool

abbrev pub Replies : Type 0
Replies = List (RetSubmit GenericTransfer)

-- A reply that carries these bytes.
unfoldable pub data_reply : Request → List ℕ → RetSubmit GenericTransfer
data_reply request bytes =
    create_ret_submit_ok_with_no_iso request.seqnum (length bytes % 2 ^ 32)
      (some (record request.transfer { bytes = bytes; actual_length = length bytes }))

-- `send_from_tx_buffer_locked`, without the notification of the waiting senders.
unfoldable pub send_from_tx_buffer : Request → RingBuffer → RetSubmit GenericTransfer × RingBuffer
send_from_tx_buffer request tx =
    let (bytes, rest) = read tx (min (size tx) request.length) in (data_reply request bytes, rest)

-- The loop of `try_send_pending_locked`; each round answers a request, so as many rounds as there are
-- requests are enough.
unfoldable pub send_rounds :
    ℕ → RingBuffer → EndpointRequestQueue → Replies × RingBuffer × EndpointRequestQueue
send_rounds zero tx queues = ([], tx, queues)
send_rounds (suc n) tx queues = elim (Ring.empty tx) [
  | true ↦ ([], tx, queues)
  | false ↦ elim (dequeue_any queues) [
    | none ↦ ([], tx, queues)
    | some (request, others) ↦
        let (r, rest) = send_from_tx_buffer request tx in
        let (rs, left, still) = send_rounds n rest others in (r ∷ rs, left, still)
  ]
]

abbrev pub Outcome : Type 0
Outcome = Replies × CdcAcmDataInterfaceHandler

unfoldable pub try_send_pending : CdcAcmDataInterfaceHandler → Outcome
try_send_pending h =
    let (replies, tx, queues) =
      send_rounds (waiting h.endpoint_requests) h.tx_buffer h.endpoint_requests in
    (replies, record h { tx_buffer = tx; endpoint_requests = queues })

-- What the buffer takes of some bytes; `write` gives how many they are.
unfoldable pub fill : List ℕ → CdcAcmDataInterfaceHandler → ℕ × CdcAcmDataInterfaceHandler
fill bytes h = let (n, tx) = write h.tx_buffer bytes in (n, record h { tx_buffer = tx })

unfoldable pub send_data : List ℕ → CdcAcmDataInterfaceHandler → ℕ × Outcome
send_data bytes h = let (n, filled) = fill bytes h in (n, try_send_pending filled)

abbrev pub hold : ℕ → Request → CdcAcmDataInterfaceHandler → CdcAcmDataInterfaceHandler
hold ep request h = record h { endpoint_requests = enqueue ep request h.endpoint_requests }

-- The reply with what `on_data_requested` gave; what is too long for it goes into the buffer.
unfoldable pub send_supplied : Request → List ℕ → CdcAcmDataInterfaceHandler → Outcome
send_supplied request bytes h =
    if leb (length bytes) request.length then (data_reply request bytes ∷ [], h) else (
      data_reply request (take request.length bytes) ∷ [],
      (fill (drop request.length bytes) h).1,
    )

unfoldable pub supply : ℕ → Request → List ℕ → CdcAcmDataInterfaceHandler → Outcome
supply ep request [] h = ([], hold ep request h)
supply ep request (byte ∷ bytes) h = send_supplied request (byte ∷ bytes) h

-- `handle_bulk_transfer` of an endpoint IN; `bytes` are what `on_data_requested` gives.
unfoldable pub handle_bulk_in : ℕ → Request → List ℕ → CdcAcmDataInterfaceHandler → Outcome
handle_bulk_in ep request bytes h =
    if Ring.empty h.tx_buffer && Requests.empty ep h.endpoint_requests
    then supply ep request bytes h
    else try_send_pending (hold ep request h)

-- Of an endpoint OUT: the bytes for `on_data_received`, and the reply.
unfoldable pub handle_bulk_out : ℕ → List ℕ → List ℕ × RetSubmit GenericTransfer
handle_bulk_out seqnum bytes =
    (bytes, create_ret_submit_ok_without_data seqnum (length bytes % 2 ^ 32))

unfoldable pub handle_unlink_seqnum :
    ℕ → ℕ → CdcAcmDataInterfaceHandler → RetUnlink × CdcAcmDataInterfaceHandler
handle_unlink_seqnum unlink_seqnum cmd_seqnum h = (
  create_ret_unlink_success cmd_seqnum,
  record h { endpoint_requests = cancel_by_seqnum unlink_seqnum h.endpoint_requests },
)

unfoldable pub on_new_connection : CdcAcmDataInterfaceHandler → CdcAcmDataInterfaceHandler
on_new_connection h = record h { disconnected = false }

unfoldable pub on_disconnection : CdcAcmDataInterfaceHandler → CdcAcmDataInterfaceHandler
on_disconnection h = record h {
  disconnected = true;
  tx_buffer = clear h.tx_buffer;
  endpoint_requests = [];
}

unfoldable pub set_tx_buffer_capacity : ℕ → CdcAcmDataInterfaceHandler → CdcAcmDataInterfaceHandler
set_tx_buffer_capacity capacity h = record h {
  tx_buffer = resize h.tx_buffer capacity;
  tx_high_watermark = capacity * 3 % size_mod / 4;
  tx_low_watermark = capacity / 4;
}
