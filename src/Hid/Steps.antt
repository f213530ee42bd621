-- ===== src/Hid/Steps.antt =====
-- What a request, a report and an unlink do to the reports and the requests that wait, in
-- components/usbipdcpp/usbipdcpp/src/virtual_device/HidVirtualInterfaceHandler.cpp.
use esp32_usb_ip.Prelude.{
  length, ℕ, ◌≡◌, refl, sym, ap, ◌∙◌, ◌⊎◌, inl, inr, true, false, Option, none, some, List, [], ◌∷◌,
  ◌++◌, append-nil, if_lem,
}
use esp32_usb_ip.Protocol.Transfer.{GenericTransfer}
use esp32_usb_ip.Protocol.Response.{RetSubmit}
use mathlib.Core.List.{Perm, perm_middle}
use mathlib.Core.List.Perm
use esp32_usb_ip.Requests.{
  Request, EndpointRequestQueue, enqueue, dequeue_any, empty, cancel_by_seqnum,
}
use esp32_usb_ip.Requests.Contents.{
  all_waiting, enqueue-Perm, all_waiting-dequeue_any, Unlinked, no_more, cancel_by_seqnum-Unlinked,
}
use esp32_usb_ip.Requests.Idle.{
  IsIdle, empty-IsIdle, dequeue_any-IsIdle, IsIdle-dequeue_any, cancel_by_seqnum-IsIdle,
}
use esp32_usb_ip.Hid.{
  HidVirtualInterfaceHandler, report_reply, Answer, take_report, handle_interrupt_in, give_report,
  send_input_report, handle_unlink_seqnum,
}

-- A request of an endpoint, a report of the device, and an unlink.
pub data Event : Type 0 where
  asks : ℕ → Request → Event
  reports : List ℕ → Event
  unlinks : ℕ → ℕ → Event

-- The replies with data, and what is left.
unfoldable pub step : Event → HidVirtualInterfaceHandler → Answer
step (asks ep request) h = handle_interrupt_in ep request h
step (reports report) h = send_input_report report h
step (unlinks n m) h = ([], (handle_unlink_seqnum n m h).1)

unfoldable pub run : List Event → HidVirtualInterfaceHandler → Answer
run [] h = ([], h)
run (e ∷ es) h = let after = step e h in let rest = run es after.1 in (after.0 ++ rest.0, rest.1)

unfoldable pub reported : List Event → List (List ℕ)
reported [] = []
reported (asks ep request ∷ es) = reported es
reported (reports report ∷ es) = report ∷ reported es
reported (unlinks n m ∷ es) = reported es

unfoldable pub requested : List Event → List Request
requested [] = []
requested (asks ep request ∷ es) = request ∷ requested es
requested (reports report ∷ es) = requested es
requested (unlinks n m ∷ es) = requested es

-- The numbers that the unlinks name.
unfoldable pub unlinked : List Event → List ℕ
unlinked [] = []
unlinked (asks ep request ∷ es) = unlinked es
unlinked (reports report ∷ es) = unlinked es
unlinked (unlinks n m ∷ es) = n ∷ unlinked es

-- The replies answer the requests with the reports, one with one, in their order.
unfoldable pub answers : List (List ℕ) → List Request → List (RetSubmit GenericTransfer)
answers [] requests = []
answers (report ∷ rest) [] = []
answers (report ∷ rest) (request ∷ requests) = report_reply report request ∷ answers rest requests

-- Reports wait only while no request does.
unfoldable pub IsExclusive : HidVirtualInterfaceHandler → Type 0
IsExclusive h = (h.pending_input_reports ≡ []) ⊎ IsIdle h.endpoint_requests

-- What came of reports and of requests, some of which were unlinked: as many reports as requests met
-- and make the replies, and what has not met still waits or was taken away by an unlink.
pub record Passed (before : List (List ℕ)) (asked : List Request) (numbers : List ℕ) (p : Answer)
    : Type 0 where
  pub sent : List (List ℕ)
  pub served : List Request
  pub dropped : List Request
  pub one_each : length sent ≡ length served
  pub replies : p.0 ≡ answers sent served
  pub reports_kept : before ≡ sent ++ p.1.pending_input_reports
  pub requests_kept : Perm asked (served ++ (dropped ++ all_waiting p.1.endpoint_requests))
  pub by_unlinks : Unlinked dropped numbers
  pub exclusive : IsExclusive p.1

-- A request joins those that wait.
joins :
    (request : Request) (waiting : List Request)
    → Perm (waiting ++ (request ∷ [])) (request ∷ waiting)
joins request waiting =
    Perm.trans (perm_middle waiting []) (rw (append-nil waiting) (Perm.refl (request ∷ waiting)))

held-Passed :
    (ep : ℕ) (request : Request) (h : HidVirtualInterfaceHandler)
    → h.pending_input_reports ≡ []
    → Passed h.pending_input_reports
        (all_waiting h.endpoint_requests ++ (request ∷ []))
        []
        ([], record h { endpoint_requests = enqueue ep request h.endpoint_requests })
unfolding answers IsExclusive
held-Passed ep request h nothing = record {
  sent = [];
  served = [];
  dropped = [];
  one_each = refl;
  replies = refl;
  reports_kept = refl;
  requests_kept =
      Perm.trans (joins request (all_waiting h.endpoint_requests))
        (Perm.symm (enqueue-Perm ep request h.endpoint_requests));
  by_unlinks = no_more;
  exclusive = inl nothing;
}

take_report-Passed :
    (ep : ℕ) (request : Request) (ready : List (List ℕ)) (h : HidVirtualInterfaceHandler)
    → h.pending_input_reports ≡ ready
    → IsExclusive h
    → Passed h.pending_input_reports
        (all_waiting h.endpoint_requests ++ (request ∷ []))
        []
        (take_report ep request ready h)
unfolding take_report answers IsExclusive
take_report-Passed ep request [] h e exclusive = held-Passed ep request h e
take_report-Passed ep request (front ∷ rest) h e exclusive = record {
  sent = front ∷ [];
  served = request ∷ [];
  dropped = [];
  one_each = refl;
  replies = refl;
  reports_kept = e;
  requests_kept = joins request (all_waiting h.endpoint_requests);
  by_unlinks = no_more;
  exclusive = elim exclusive [
    | inl nothing ↦ (let never : front ∷ rest ≡ [] = sym e ∙ nothing in absurd cc)
    | inr idle ↦ inr idle
  ];
}

handle_interrupt_in-Passed :
    (ep : ℕ) (request : Request) (h : HidVirtualInterfaceHandler)
    → IsExclusive h
    → Passed h.pending_input_reports
        (all_waiting h.endpoint_requests ++ (request ∷ []))
        []
        (handle_interrupt_in ep request h)
unfolding handle_interrupt_in IsExclusive
handle_interrupt_in-Passed ep request h exclusive =
    if_lem (Passed h.pending_input_reports (all_waiting h.endpoint_requests ++ (request ∷ [])) [])
      (empty ep h.endpoint_requests)
      (λ free. take_report-Passed ep request h.pending_input_reports h refl exclusive)
      (λ busy. elim exclusive [
        | inl nothing ↦ held-Passed ep request h nothing
        | inr idle ↦
            let never : true ≡ false = sym (empty-IsIdle ep h.endpoint_requests idle) ∙ busy in
            absurd cc
      ])

give_report-Passed :
    (report : List ℕ) (o : Option (Request × EndpointRequestQueue)) (h : HidVirtualInterfaceHandler)
    → dequeue_any h.endpoint_requests ≡ o
    → IsExclusive h
    → Passed
        (h.pending_input_reports ++ (report ∷ []))
        (all_waiting h.endpoint_requests)
        []
        (give_report report o h)
unfolding give_report answers IsExclusive
give_report-Passed report none h e exclusive = record {
  sent = [];
  served = [];
  dropped = [];
  one_each = refl;
  replies = refl;
  reports_kept = refl;
  requests_kept = Perm.refl (all_waiting h.endpoint_requests);
  by_unlinks = no_more;
  exclusive = inr (IsIdle-dequeue_any h.endpoint_requests e);
}
give_report-Passed report (some (request, queues)) h e exclusive = elim exclusive [
  | inl nothing ↦ record {
    sent = report ∷ [];
    served = request ∷ [];
    dropped = [];
    one_each = refl;
    replies = refl;
    reports_kept = ap (λ ps. ps ++ (report ∷ [])) nothing ∙ ap (λ ps. report ∷ ps) (sym nothing);
    requests_kept =
        rw (all_waiting-dequeue_any h.endpoint_requests request queues e)
          (Perm.refl (request ∷ all_waiting queues));
    by_unlinks = no_more;
    exclusive = inl nothing;
  }
  | inr idle ↦
      let never = sym (dequeue_any-IsIdle h.endpoint_requests idle) ∙ e in absurd (cc never)
]

unlinked-Passed :
    (n : ℕ) (h : HidVirtualInterfaceHandler)
    → IsExclusive h
    → Passed h.pending_input_reports
        (all_waiting h.endpoint_requests)
        (n ∷ [])
        ([], record h { endpoint_requests = cancel_by_seqnum n h.endpoint_requests })
unfolding answers IsExclusive
unlinked-Passed n h exclusive =
    let (dropped, by_unlink, kept) = cancel_by_seqnum-Unlinked n h.endpoint_requests in
    record {
      sent = [];
      served = [];
      dropped = dropped;
      one_each = refl;
      replies = refl;
      reports_kept = refl;
      requests_kept = kept;
      by_unlinks = by_unlink;
      exclusive = elim exclusive [
        | inl nothing ↦ inl nothing
        | inr idle ↦ inr (cancel_by_seqnum-IsIdle n h.endpoint_requests idle)
      ];
    }

pub step-Passed :
    (e : Event) (h : HidVirtualInterfaceHandler)
    → IsExclusive h
    → Passed
        (h.pending_input_reports ++ reported (e ∷ []))
        (all_waiting h.endpoint_requests ++ requested (e ∷ []))
        (unlinked (e ∷ []))
        (step e h)
unfolding step reported requested unlinked send_input_report handle_unlink_seqnum
step-Passed (asks ep request) h exclusive =
    rw (append-nil h.pending_input_reports) (handle_interrupt_in-Passed ep request h exclusive)
step-Passed (reports report) h exclusive =
    rw (append-nil (all_waiting h.endpoint_requests))
      (give_report-Passed report (dequeue_any h.endpoint_requests) h refl exclusive)
step-Passed (unlinks n m) h exclusive =
    rw (append-nil h.pending_input_reports, append-nil (all_waiting h.endpoint_requests))
      (unlinked-Passed n h exclusive)
