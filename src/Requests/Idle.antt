-- ===== src/Requests/Idle.antt =====
-- Queues without a request, in components/usbipdcpp/usbipdcpp/include/virtual_device/
-- VirtualInterfaceHandler.h.
use esp32_usb_ip.Prelude.{
  ℕ, suc, ◌+◌, ◌≡◌, refl, sym, ap, ◌∙◌, inl, inr, Bool-cases, true, ◌==◌, none, some, Option-cases,
  [], ◌∷◌, length, arith,
}
use esp32_usb_ip.Requests.{
  Request, EndpointRequestQueue, dequeue_any, behind, empty, without, cancel_by_seqnum,
}

unfoldable pub IsIdle : EndpointRequestQueue → Type 0
IsIdle [] = Unit {0}
IsIdle ((e, []) ∷ queues) = IsIdle queues
IsIdle ((e, r ∷ rs) ∷ queues) = ⊥

pub empty-IsIdle : (ep : ℕ) (qs : EndpointRequestQueue) → IsIdle qs → empty ep qs ≡ true
unfolding IsIdle empty
empty-IsIdle ep [] idle = refl
empty-IsIdle ep ((e, []) ∷ qs) idle = elim (Bool-cases (e == ep)) [
  | inl here ↦ rw here refl
  | inr there ↦ rw there (empty-IsIdle ep qs idle)
]
empty-IsIdle ep ((e, r ∷ rs) ∷ qs) idle = absurd idle

pub dequeue_any-IsIdle : (qs : EndpointRequestQueue) → IsIdle qs → dequeue_any qs ≡ none
unfolding IsIdle dequeue_any
dequeue_any-IsIdle [] idle = refl
dequeue_any-IsIdle ((e, []) ∷ qs) idle = ap (behind (e, [])) (dequeue_any-IsIdle qs idle)
dequeue_any-IsIdle ((e, r ∷ rs) ∷ qs) idle = absurd idle

pub IsIdle-dequeue_any : (qs : EndpointRequestQueue) → dequeue_any qs ≡ none → IsIdle qs
unfolding IsIdle dequeue_any
IsIdle-dequeue_any [] e = tt
IsIdle-dequeue_any ((e, []) ∷ qs) h = elim (Option-cases (dequeue_any qs)) [
  | inl left ↦ IsIdle-dequeue_any qs left
  | inr ((request, rest), found) ↦
      let never : behind (e, []) (some (request, rest)) ≡ none =
        ap (behind (e, [])) (sym found) ∙ h in
      absurd cc
]
IsIdle-dequeue_any ((e, r ∷ rs) ∷ qs) h = absurd cc

pub cancel_by_seqnum-IsIdle :
    (n : ℕ) (qs : EndpointRequestQueue) → IsIdle qs → IsIdle (cancel_by_seqnum n qs)
unfolding IsIdle cancel_by_seqnum without
cancel_by_seqnum-IsIdle n [] idle = tt
cancel_by_seqnum-IsIdle n ((e, []) ∷ qs) idle = cancel_by_seqnum-IsIdle n qs idle
cancel_by_seqnum-IsIdle n ((e, r ∷ rs) ∷ qs) idle = absurd idle

-- How many requests wait.
unfoldable pub waiting : EndpointRequestQueue → ℕ
waiting [] = 0
waiting ((e, queue) ∷ queues) = length queue + waiting queues

pub waiting-IsIdle : (qs : EndpointRequestQueue) → waiting qs ≡ 0 → IsIdle qs
unfolding waiting IsIdle
waiting-IsIdle [] e = tt
waiting-IsIdle ((e, []) ∷ qs) h = waiting-IsIdle qs (omega (arith, h))
waiting-IsIdle ((e, r ∷ rs) ∷ qs) h = absurd (omega (arith, h))

pub waiting-dequeue_any :
    (qs : EndpointRequestQueue) (request : Request) (rest : EndpointRequestQueue)
    → dequeue_any qs ≡ some (request, rest)
    → waiting qs ≡ suc (waiting rest)
unfolding waiting dequeue_any
waiting-dequeue_any [] request rest h = absurd cc
waiting-dequeue_any ((e, []) ∷ qs) request rest h = elim (Option-cases (dequeue_any qs)) [
  | inl left ↦ let never = sym (ap (behind (e, [])) left) ∙ h in absurd (cc never)
  | inr ((first, others), found) ↦
      let same = sym (ap (behind (e, [])) found) ∙ h in
      let is_rest : ((e, []) ∷ others) ≡ rest = cc same in
      omega (arith, waiting-dequeue_any qs first others found, ap waiting is_rest)
]
waiting-dequeue_any ((e, r ∷ rs) ∷ qs) request rest h =
    let is_rest : ((e, rs) ∷ qs) ≡ rest = cc h in omega (arith, ap waiting is_rest)
