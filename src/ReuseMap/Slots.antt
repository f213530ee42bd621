-- ===== src/ReuseMap/Slots.antt =====
-- The vector of slots of components/usbipdcpp/usbipdcpp/include/utils/ReuseMap.h, as a row of
-- keys and values.
use esp32_usb_ip.Prelude.{
  ℕ, suc, ◌≤◌, ◌≡◌, refl, ap, ◌∙◌, inl, inr, arith, Bool-cases, Option-cases, if◌then◌else◌, Option,
  none, some, List, [], ◌∷◌, ◌++◌, length, set,
}
use esp32_usb_ip.ReuseMap.{
  KeyEq, Slot, taken_slot, release, shift, free_slot, release_at, value_at, for_each, hit,
  find_slot, ReuseMap, find,
}

-- How many slots are occupied.
unfoldable pub occupied_count : {K V : Type 0} → List (Slot K V) → ℕ
occupied_count slots = length (for_each slots)

module _ {K V : Type 0} (eq : KeyEq K) where
  -- The first value under a key, without an index.
  unfoldable pub lookup : K → List (Slot K V) → Option V
  lookup key [] = none
  lookup key (slot ∷ slots) =
      let rest = lookup key slots in if hit eq key slot then some slot.value else rest

  abbrev pub value_of : List (Slot K V) → Option ℕ → Option V
  value_of slots none = none
  value_of slots (some i) = value_at slots i

  value_of-shift :
      (slot : Slot K V) (slots : List (Slot K V)) (o : Option ℕ)
      → value_of (slot ∷ slots) (shift o) ≡ value_of slots o
  value_of-shift slot slots none = refl
  value_of-shift slot slots (some i) = refl

  pub find_slot-lookup :
      (key : K) (slots : List (Slot K V))
      → value_of slots (find_slot eq key slots) ≡ lookup key slots
  unfolding find_slot lookup
  find_slot-lookup key [] = refl
  find_slot-lookup key (slot ∷ slots) = elim (Bool-cases (hit eq key slot)) [
    | inl here ↦ rw here refl
    | inr not_here ↦
        rw not_here
          (value_of-shift slot slots (find_slot eq key slots) ∙ find_slot-lookup key slots)
  ]

  pub find-lookup : (key : K) (m : ReuseMap K V) → find eq key m ≡ lookup key m.slots
  unfolding find
  find-lookup key m = by_index (find_slot eq key m.slots) (find_slot-lookup key m.slots)
    where
      by_index :
          (o : Option ℕ)
          → value_of m.slots o ≡ lookup key m.slots
          → elim o [ none ↦ none | some i ↦ value_at m.slots i ] ≡ lookup key m.slots
      by_index none h = h
      by_index (some i) h = h

  -- The slots after an insertion of a new key, and after the erasure of a key.
  unfoldable pub fill : K → V → List (Slot K V) → List (Slot K V)
  fill key value [] = taken_slot key value ∷ []
  fill key value (slot ∷ slots) =
      let rest = fill key value slots in
      if slot.occupied then slot ∷ rest else taken_slot key value ∷ slots

  unfoldable pub drop_first : K → List (Slot K V) → List (Slot K V)
  drop_first key [] = []
  drop_first key (slot ∷ slots) =
      let rest = drop_first key slots in
      if hit eq key slot then release slot ∷ slots else slot ∷ rest

  abbrev pub filled_at : K → V → List (Slot K V) → Option ℕ → List (Slot K V)
  filled_at key value slots none = slots ++ (taken_slot key value ∷ [])
  filled_at key value slots (some i) = set slots i (taken_slot key value)

  filled_at-shift :
      (key : K) (value : V) (slot : Slot K V) (slots : List (Slot K V)) (o : Option ℕ)
      → filled_at key value (slot ∷ slots) (shift o) ≡ slot ∷ filled_at key value slots o
  filled_at-shift key value slot slots none = refl
  filled_at-shift key value slot slots (some i) = refl

  pub filled_at-fill :
      (key : K) (value : V) (slots : List (Slot K V))
      → filled_at key value slots (free_slot slots) ≡ fill key value slots
  unfolding free_slot fill
  filled_at-fill key value [] = refl
  filled_at-fill key value (slot ∷ slots) = elim (Bool-cases slot.occupied) [
    | inl used ↦ simp used (
        filled_at-shift key value slot slots (free_slot slots)
        ∙ ap (λ t. slot ∷ t) (filled_at-fill key value slots))
    | inr free ↦ simp free refl
  ]

  abbrev pub released_at : List (Slot K V) → Option ℕ → List (Slot K V)
  released_at slots none = slots
  released_at slots (some i) = release_at slots i

  released_at-shift :
      (slot : Slot K V) (slots : List (Slot K V)) (o : Option ℕ)
      → released_at (slot ∷ slots) (shift o) ≡ slot ∷ released_at slots o
  released_at-shift slot slots none = refl
  released_at-shift slot slots (some i) = refl

  pub released_at-drop_first :
      (key : K) (slots : List (Slot K V))
      → released_at slots (find_slot eq key slots) ≡ drop_first key slots
  unfolding find_slot drop_first
  released_at-drop_first key [] = refl
  released_at-drop_first key (slot ∷ slots) = elim (Bool-cases (hit eq key slot)) [
    | inl here ↦ rw here refl
    | inr not_here ↦ rw not_here (
        released_at-shift slot slots (find_slot eq key slots)
        ∙ ap (λ t. slot ∷ t) (released_at-drop_first key slots))
  ]

  -- A slot that was found holds a value.
  pub find_slot-some :
      (key : K) (slots : List (Slot K V)) (i : ℕ)
      → find_slot eq key slots ≡ some i
      → (value : V) × (lookup key slots ≡ some value)
  unfolding find_slot lookup
  find_slot-some key [] i h = absurd (ground (arith, h))
  find_slot-some key (slot ∷ slots) i h = elim (Bool-cases (hit eq key slot)) [
    | inl here ↦ (slot.value, rw here refl)
    | inr not_here ↦ elim (Option-cases (find_slot eq key slots)) [
      | inl nowhere ↦ absurd (ground (arith, h, not_here, nowhere))
      | inr (j, later) ↦ rw not_here (find_slot-some key slots j later)
    ]
  ]

  pub length-fill :
      (key : K) (value : V) (slots : List (Slot K V))
      → length (fill key value slots) ≤ suc (length slots)
  unfolding fill
  length-fill key value [] = omega arith
  length-fill key value (slot ∷ slots) = ground (arith, length-fill key value slots)

  pub length-drop_first :
      (key : K) (slots : List (Slot K V)) → length (drop_first key slots) ≡ length slots
  unfolding drop_first
  length-drop_first key [] = refl
  length-drop_first key (slot ∷ slots) = ground (arith, length-drop_first key slots)
