-- ===== src/Requests/Contents.antt =====
-- Which requests wait, whatever their endpoints, in components/usbipdcpp/usbipdcpp/include/
-- virtual_device/VirtualInterfaceHandler.h.
use esp32_usb_ip.Prelude.{
  ℕ, ◌≡◌, refl, sym, ap, ◌∙◌, inl, inr, Bool-cases, ◌==◌, ==_iff, none, some, Option-cases, List,
  [], ◌∷◌, ◌++◌, append_assoc,
}
use mathlib.Core.List.{Perm, perm_middle}
use mathlib.Core.List.Perm
use esp32_usb_ip.Requests.{
  Request, EndpointRequestQueue, enqueue, dequeue_any, behind, without, cancel_by_seqnum,
}

pub perm_front : (xs ys zs : List Request) → Perm (xs ++ (ys ++ zs)) (ys ++ (xs ++ zs))
perm_front xs [] zs = Perm.refl (xs ++ zs)
perm_front xs (y ∷ ys) zs =
    Perm.trans (perm_middle xs (ys ++ zs)) (Perm.cons y (perm_front xs ys zs))

unfoldable pub all_waiting : EndpointRequestQueue → List Request
all_waiting [] = []
all_waiting ((e, queue) ∷ queues) = queue ++ all_waiting queues

pub enqueue-Perm :
    (ep : ℕ) (request : Request) (qs : EndpointRequestQueue)
    → Perm (all_waiting (enqueue ep request qs)) (request ∷ all_waiting qs)
unfolding all_waiting enqueue
enqueue-Perm ep request [] = Perm.refl (request ∷ [])
enqueue-Perm ep request ((e, queue) ∷ qs) = elim (Bool-cases (e == ep)) [
  | inl here ↦
      rw here (
        rw (append_assoc queue (request ∷ []) (all_waiting qs))
          (perm_middle queue (all_waiting qs)))
  | inr there ↦ rw there (
      Perm.trans (Perm.append (Perm.refl queue) (enqueue-Perm ep request qs))
        (perm_middle queue (all_waiting qs)))
]

pub all_waiting-dequeue_any :
    (qs : EndpointRequestQueue) (request : Request) (rest : EndpointRequestQueue)
    → dequeue_any qs ≡ some (request, rest)
    → all_waiting qs ≡ request ∷ all_waiting rest
unfolding all_waiting dequeue_any
all_waiting-dequeue_any [] request rest h = absurd cc
all_waiting-dequeue_any ((e, []) ∷ qs) request rest h = elim (Option-cases (dequeue_any qs)) [
  | inl left ↦ let never = sym (ap (behind (e, [])) left) ∙ h in absurd (cc never)
  | inr ((first, others), found) ↦
      let same = sym (ap (behind (e, [])) found) ∙ h in
      let is_rest : ((e, []) ∷ others) ≡ rest = cc same in
      let is_first : first ≡ request = cc same in
      all_waiting-dequeue_any qs first others found
      ∙ ap (λ r. r ∷ all_waiting others) is_first
      ∙ ap (λ q. request ∷ all_waiting q) is_rest
]
all_waiting-dequeue_any ((e, r ∷ rs) ∷ qs) request rest h =
    let is_rest : ((e, rs) ∷ qs) ≡ rest = cc h in
    let is_first : r ≡ request = cc h in
    ap (λ x. x ∷ (rs ++ all_waiting qs)) is_first ∙ ap (λ q. request ∷ all_waiting q) is_rest

-- Requests that were taken away by unlinks with these numbers, each by one of them.
pub data Unlinked : List Request → List ℕ → Type 0 where
  no_more : Unlinked [] []
  missed : (n : ℕ) {rs : List Request} {ns : List ℕ} → Unlinked rs ns → Unlinked rs (n ∷ ns)
  hit :
      (r : Request) (n : ℕ) {rs : List Request} {ns : List ℕ}
      → r.seqnum ≡ n
      → Unlinked rs ns
      → Unlinked (r ∷ rs) (n ∷ ns)

pub Unlinked-append :
    {rs qs : List Request} {ms ns : List ℕ}
    → Unlinked rs ms
    → Unlinked qs ns
    → Unlinked (rs ++ qs) (ms ++ ns)
Unlinked-append no_more more = more
Unlinked-append (missed n u) more = missed n (Unlinked-append u more)
Unlinked-append (hit r n e u) more = hit r n e (Unlinked-append u more)

without-Perm :
    (n : ℕ) (queue others : List Request)
    → without n queue ≡ some others
    → (r : Request) × (r.seqnum ≡ n) × Perm queue (r ∷ others)
unfolding without
without-Perm n [] others h = absurd cc
without-Perm n (r ∷ rs) others h = elim (Bool-cases (r.seqnum == n)) [
  | inl here ↦
      let found : without n (r ∷ rs) ≡ some rs = rw here refl in
      let same : rs ≡ others = cc (sym found ∙ h) in
      (r, (==_iff r.seqnum n).0 here, rw same (Perm.refl (r ∷ others)))
  | inr there ↦ elim (Option-cases (without n rs)) [
    | inl left ↦
        let never : without n (r ∷ rs) ≡ none = rw (there, left) refl in absurd (cc (sym never ∙ h))
    | inr (fewer, found) ↦
        let rest : without n (r ∷ rs) ≡ some (r ∷ fewer) = rw (there, found) refl in
        let same : r ∷ fewer ≡ others = cc (sym rest ∙ h) in
        let (q, e, p) = without-Perm n rs fewer found in
        (q, e, rw (← same) (Perm.trans (Perm.cons r p) (Perm.swap q r fewer)))
  ]
]

-- What an unlink takes away, and what it leaves.
pub cancel_by_seqnum-Unlinked :
    (n : ℕ) (qs : EndpointRequestQueue)
    → (dropped : List Request) × Unlinked dropped (n ∷ [])
      × Perm (all_waiting qs) (dropped ++ all_waiting (cancel_by_seqnum n qs))
unfolding all_waiting cancel_by_seqnum
cancel_by_seqnum-Unlinked n [] = ([], missed n no_more, Perm.refl [])
cancel_by_seqnum-Unlinked n ((e, queue) ∷ qs) = elim (Option-cases (without n queue)) [
  | inl none_here ↦
      let (dropped, u, p) = cancel_by_seqnum-Unlinked n qs in
      (
        dropped,
        u,
        rw (all_waiting, none_here)
            (Perm.trans (Perm.append (Perm.refl queue) p)
              (perm_front queue dropped (all_waiting (cancel_by_seqnum n qs)))),
      )
  | inr (others, found) ↦
      let (r, same, p) = without-Perm n queue others found in
      (
        r ∷ [],
        hit r n same no_more,
        rw (all_waiting, found) (Perm.append p (Perm.refl (all_waiting qs))),
      )
]
