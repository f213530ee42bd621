-- ===== src/Requests.antt =====
-- The requests that wait at the endpoints of a virtual interface: `EndpointRequestQueue` of
-- components/usbipdcpp/usbipdcpp/include/virtual_device/VirtualInterfaceHandler.h.
use esp32_usb_ip.Prelude.{
  ℕ, Bool, true, false, ◌==◌, if◌then◌else◌, Option, none, some, List, [], ◌∷◌, ◌++◌,
}
use esp32_usb_ip.Protocol.Transfer.{GenericTransfer}
pub mod Idle
pub mod Contents

pub record Request : Type 0 where
  pub seqnum : ℕ
  pub length : ℕ
  pub transfer : GenericTransfer

-- The queues of the endpoints, in the order in which the map is walked.
abbrev pub EndpointRequestQueue : Type 0
EndpointRequestQueue = List (ℕ × List Request)

unfoldable pub enqueue : ℕ → Request → EndpointRequestQueue → EndpointRequestQueue
enqueue ep request [] = (ep, request ∷ []) ∷ []
enqueue ep request ((e, queue) ∷ queues) =
    let others = enqueue ep request queues in
    if e == ep then (e, queue ++ (request ∷ [])) ∷ queues else (e, queue) ∷ others

abbrev pub behind :
    ℕ × List Request
    → Option (Request × EndpointRequestQueue)
    → Option (Request × EndpointRequestQueue)
behind entry none = none
behind entry (some (request, queues)) = some (request, entry ∷ queues)

-- The endpoint's address, which comes with the request, is not used.
unfoldable pub dequeue_any : EndpointRequestQueue → Option (Request × EndpointRequestQueue)
dequeue_any [] = none
dequeue_any ((e, []) ∷ queues) = behind (e, []) (dequeue_any queues)
dequeue_any ((e, request ∷ queue) ∷ queues) = some (request, (e, queue) ∷ queues)

abbrev pub is_nil : List Request → Bool
is_nil [] = true
is_nil (r ∷ rs) = false

unfoldable pub empty : ℕ → EndpointRequestQueue → Bool
empty ep [] = true
empty ep ((e, queue) ∷ queues) =
    let rest = empty ep queues in if e == ep then is_nil queue else rest

-- `queue.erase(it)`, if the request is there.
unfoldable pub without : ℕ → List Request → Option (List Request)
without n [] = none
without n (r ∷ rs) =
    let rest = without n rs in
    if r.seqnum == n then some rs else elim rest [ none ↦ none | some others ↦ some (r ∷ others) ]

unfoldable pub cancel_by_seqnum : ℕ → EndpointRequestQueue → EndpointRequestQueue
cancel_by_seqnum n [] = []
cancel_by_seqnum n ((e, queue) ∷ queues) =
    let rest = cancel_by_seqnum n queues in
    elim (without n queue) [ none ↦ (e, queue) ∷ rest | some others ↦ (e, others) ∷ queues ]
