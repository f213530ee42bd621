-- ===== src/ReuseMap/Effects.antt =====
-- What filling and releasing a slot of components/usbipdcpp/usbipdcpp/include/utils/ReuseMap.h does
-- to the values under the keys, to the number of occupied slots, and to their being distinct.
use esp32_usb_ip.Prelude.{
  suc, ◌≡◌, refl, sym, ap, ◌∙◌, ◌≢◌, inl, inr, arith, true, false, Bool-cases, none, some, List, [],
  ◌∷◌,
}
use esp32_usb_ip.ReuseMap.{KeyEq, Slot, for_each, hit}
use esp32_usb_ip.ReuseMap.Slots.{lookup, fill, drop_first, occupied_count}

pub same_self : {K : Type 0} (eq : KeyEq K) (k : K) → eq.same k k ≡ true
same_self eq k = (eq.same_iff k k).1 refl

pub same_ne : {K : Type 0} (eq : KeyEq K) (k k' : K) → k ≢ k' → eq.same k k' ≡ false
same_ne eq k k' ne = elim (Bool-cases (eq.same k k')) [
  | inl e ↦ absurd (ne ((eq.same_iff k k').0 e))
  | inr e ↦ e
]

module _ {K V : Type 0} (eq : KeyEq K) where
  pub lookup-fill_self :
      (key : K) (value : V) (slots : List (Slot K V))
      → lookup eq key slots ≡ none
      → lookup eq key (fill eq key value slots) ≡ some value
  unfolding lookup fill
  lookup-fill_self key value [] absent = rw (same_self eq key) refl
  lookup-fill_self key value (slot ∷ slots) absent =
      ground (arith, lookup-fill_self key value slots, same_self eq key)

  pub lookup-fill_other :
      (key other : K) (value : V) (slots : List (Slot K V))
      → key ≢ other
      → lookup eq other (fill eq key value slots) ≡ lookup eq other slots
  unfolding lookup fill
  lookup-fill_other key other value [] ne = rw (same_ne eq key other ne) refl
  lookup-fill_other key other value (slot ∷ slots) ne =
      ground (arith, lookup-fill_other key other value slots ne, same_ne eq key other ne)

  pub lookup-drop_first_other :
      (key other : K) (slots : List (Slot K V))
      → key ≢ other
      → lookup eq other (drop_first eq key slots) ≡ lookup eq other slots
  unfolding lookup drop_first
  lookup-drop_first_other key other [] ne = refl
  lookup-drop_first_other key other (slot ∷ slots) ne =
      let wrong_key : eq.same slot.key key ≡ true → eq.same slot.key other ≡ false =
        λ e. ap (λ k. eq.same k other) ((eq.same_iff slot.key key).0 e) ∙ same_ne eq key other ne in
      ground (arith, lookup-drop_first_other key other slots ne, wrong_key)

  -- No two occupied slots have the same key.
  unfoldable pub Unique : List (Slot K V) → Type 0
  Unique [] = Unit
  Unique (slot ∷ slots) = (slot.occupied ≡ true → lookup eq slot.key slots ≡ none) × Unique slots

  pub lookup-drop_first_self :
      (key : K) (slots : List (Slot K V))
      → Unique slots
      → lookup eq key (drop_first eq key slots) ≡ none
  unfolding lookup drop_first Unique
  lookup-drop_first_self key [] unique = refl
  lookup-drop_first_self key (slot ∷ slots) (first, unique) =
      let gone : slot.occupied ≡ true → eq.same slot.key key ≡ true → lookup eq key slots ≡ none =
        λ used e. ap (λ k. lookup eq k slots) (sym ((eq.same_iff slot.key key).0 e)) ∙ first used in
      ground (arith, gone, lookup-drop_first_self key slots unique)

  pub occupied_count-fill :
      (key : K) (value : V) (slots : List (Slot K V))
      → occupied_count (fill eq key value slots) ≡ suc (occupied_count slots)
  unfolding occupied_count fill for_each
  occupied_count-fill key value [] = refl
  occupied_count-fill key value (slot ∷ slots) = ground (arith, occupied_count-fill key value slots)

  pub occupied_count-drop_first :
      (key : K) (value : V) (slots : List (Slot K V))
      → lookup eq key slots ≡ some value
      → suc (occupied_count (drop_first eq key slots)) ≡ occupied_count slots
  unfolding occupied_count drop_first for_each lookup
  occupied_count-drop_first key value [] h = absurd (ground (arith, h))
  occupied_count-drop_first key value (slot ∷ slots) h =
      ground (arith, occupied_count-drop_first key value slots, h)

  pub fill-Unique :
      (key : K) (value : V) (slots : List (Slot K V))
      → lookup eq key slots ≡ none
      → Unique slots
      → Unique (fill eq key value slots)
  unfolding lookup fill Unique
  fill-Unique key value [] absent unique = ((λ e. refl), tt)
  fill-Unique key value (slot ∷ slots) absent (first, unique) = elim (Bool-cases slot.occupied) [
    | inl used ↦
        let distinct : key ≢ slot.key =
          λ e. ground (arith, used, absent, (eq.same_iff slot.key key).1 (sym e)) in
        let absent' : lookup eq key slots ≡ none = ground (arith, used, absent) in
        simp used (
          (λ e. lookup-fill_other key slot.key value slots distinct ∙ first used),
          fill-Unique key value slots absent' unique,
        )
    | inr free ↦
        let absent' : lookup eq key slots ≡ none = ground (arith, free, absent) in
        simp free ((λ e. absent'), unique)
  ]

  pub drop_first-Unique :
      (key : K) (slots : List (Slot K V)) → Unique slots → Unique (drop_first eq key slots)
  unfolding drop_first Unique
  drop_first-Unique key [] unique = tt
  drop_first-Unique key (slot ∷ slots) (first, unique) = elim (Bool-cases (hit eq key slot)) [
    | inl here ↦ rw here ((λ e. absurd (ground (arith, e))), unique)
    | inr not_here ↦
        let distinct : slot.occupied ≡ true → key ≢ slot.key =
          λ used e. ground (arith, used, not_here, (eq.same_iff slot.key key).1 (sym e)) in
        rw not_here (
          (λ used. lookup-drop_first_other key slot.key slots (distinct used) ∙ first used),
          drop_first-Unique key slots unique,
        )
  ]
