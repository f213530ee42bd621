-- ===== src/ReuseMap.antt =====
-- components/usbipdcpp/usbipdcpp/include/utils/ReuseMap.h: a map in a vector of slots, of which an
-- erased one is used again. A `Value *` into the vector is the index of its slot.
pub mod Slots
pub mod Effects
pub mod Laws
mod Examples
use esp32_usb_ip.Prelude.{
  ℕ, zero, suc, ◌↔◌, ◌≡◌, Bool, true, false, ◌&&◌, not, if◌then◌else◌, Option, none, some, List, [],
  ◌∷◌, ◌++◌, length, set, map,
}
use esp32_usb_ip.Prelude.Bytes.{add_size, sub_size}

-- The comparison of keys, `==`.
pub record KeyEq (K : Type 0) : Type 0 where
  pub same : K → K → Bool
  pub same_iff : (a b : K) → (same a b ≡ true) ↔ (a ≡ b)

pub record Slot (K V : Type 0) : Type 0 where
  pub key : K
  pub value : V
  pub occupied : Bool

pub record ReuseMap (K V : Type 0) : Type 0 where
  pub slots : List (Slot K V)
  pub size : ℕ

abbrev pub taken_slot : {K V : Type 0} → K → V → Slot K V
taken_slot key value = record { key = key; value = value; occupied = true }

-- `slot.occupied = false`
abbrev pub release : {K V : Type 0} → Slot K V → Slot K V
release slot = record slot { occupied = false }

abbrev pub shift : Option ℕ → Option ℕ
shift none = none
shift (some i) = some (suc i)

-- The loop for a slot that is not occupied.
unfoldable pub free_slot : {K V : Type 0} → List (Slot K V) → Option ℕ
free_slot [] = none
free_slot (slot ∷ slots) =
    let rest = free_slot slots in if not slot.occupied then some 0 else shift rest

abbrev pub release_at : {K V : Type 0} → List (Slot K V) → ℕ → List (Slot K V)
release_at [] i = []
release_at (slot ∷ slots) zero = release slot ∷ slots
release_at (slot ∷ slots) (suc i) = slot ∷ release_at slots i

abbrev pub value_at : {K V : Type 0} → List (Slot K V) → ℕ → Option V
value_at [] i = none
value_at (slot ∷ slots) zero = some slot.value
value_at (slot ∷ slots) (suc i) = value_at slots i

unfoldable pub for_each : {K V : Type 0} → List (Slot K V) → List (K × V)
for_each [] = []
for_each (slot ∷ slots) =
    let rest = for_each slots in if slot.occupied then (slot.key, slot.value) ∷ rest else rest

unfoldable pub clear : {K V : Type 0} → ReuseMap K V → ReuseMap K V
clear m = record { slots = map release m.slots; size = 0 }

module _ {K V : Type 0} (eq : KeyEq K) where
  -- `slot.occupied && slot.key == key`
  abbrev pub hit : K → Slot K V → Bool
  hit key slot = slot.occupied && eq.same slot.key key

  -- The loop for a key.
  unfoldable pub find_slot : K → List (Slot K V) → Option ℕ
  find_slot key [] = none
  find_slot key (slot ∷ slots) =
      let rest = find_slot key slots in if hit key slot then some 0 else shift rest

  -- The value that the pointer of `find` points to.
  unfoldable pub find : K → ReuseMap K V → Option V
  find key m = elim (find_slot key m.slots) [ none ↦ none | some i ↦ value_at m.slots i ]

  unfoldable pub insert_new : K → V → ReuseMap K V → Option ℕ → ℕ × ReuseMap K V
  insert_new key value m (some i) =
      (i, record { slots = set m.slots i (taken_slot key value); size = add_size m.size 1 })
  insert_new key value m none = (
    length m.slots,
    record { slots = m.slots ++ (taken_slot key value ∷ []); size = add_size m.size 1 },
  )

  -- A key that is there keeps its value.
  unfoldable pub insert : K → V → ReuseMap K V → ℕ × ReuseMap K V
  insert key value m = elim (find_slot key m.slots) [
    | some i ↦ (i, m)
    | none ↦ insert_new key value m (free_slot m.slots)
  ]

  unfoldable pub erase : K → ReuseMap K V → Bool × ReuseMap K V
  erase key m = elim (find_slot key m.slots) [
    | none ↦ (false, m)
    | some i ↦ (true, record { slots = release_at m.slots i; size = sub_size m.size 1 })
  ]
