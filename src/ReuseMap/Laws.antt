-- ===== src/ReuseMap/Laws.antt =====
-- The laws of a finite map for components/usbipdcpp/usbipdcpp/include/utils/ReuseMap.h.
use esp32_usb_ip.Prelude.{
  ℕ, suc, ◌+◌, ◌-◌, ◌%◌, ◌^◌, ◌<◌, ◌≡◌, refl, sym, ap, ◌∙◌, ◌≢◌, inl, inr, arith, Bool, true, false,
  Option-cases, Option, none, some,
}
use esp32_usb_ip.ReuseMap.{KeyEq, ReuseMap, free_slot, find_slot, find, insert, insert_new, erase}
use esp32_usb_ip.ReuseMap.Slots.{
  lookup, value_of, fill, drop_first, occupied_count, find_slot-lookup, find-lookup, find_slot-some,
  filled_at, filled_at-fill, released_at, released_at-drop_first,
}
use esp32_usb_ip.ReuseMap.Effects.{
  Unique, lookup-fill_self, lookup-fill_other, lookup-drop_first_self, lookup-drop_first_other,
  occupied_count-fill, occupied_count-drop_first, fill-Unique, drop_first-Unique,
}

module _ {K V : Type 0} (eq : KeyEq K) where
  -- The occupied slots have distinct keys, `size_` is their number, and the vector has a size.
  unfoldable pub IsValid : ReuseMap K V → Type 0
  IsValid m =
      Unique eq m.slots × (m.size ≡ occupied_count m.slots) × (occupied_count m.slots < 2 ^ 32)

  -- The value under a key after an insertion: the one that was there, or the new one.
  abbrev pub kept : V → Option V → V
  kept value none = value
  kept value (some old) = old

  -- The number of keys after it.
  abbrev pub one_more : ℕ → Option V → ℕ
  one_more n none = suc n
  one_more n (some old) = n

  unfoldable pub Inserted : K → V → ReuseMap K V → ReuseMap K V → Type 0
  Inserted key value m m' =
      IsValid m'
      × (find eq key m' ≡ some (kept value (find eq key m)))
      × ((other : K) → key ≢ other → find eq other m' ≡ find eq other m)
      × (m'.size ≡ one_more m.size (find eq key m))

  insert_new-fill :
      (key : K) (value : V) (m : ReuseMap K V) (o : Option ℕ)
      → ((insert_new eq key value m o).1.slots ≡ filled_at eq key value m.slots o)
        × ((insert_new eq key value m o).1.size ≡ (m.size + 1) % 2 ^ 32)
  unfolding insert_new
  insert_new-fill key value m none = (refl, refl)
  insert_new-fill key value m (some i) = (refl, refl)

  -- What makes a map the result of an insertion of a new key.
  new_key :
      (key : K) (value : V) (m m' : ReuseMap K V)
      → IsValid m
      → suc m.size < 2 ^ 32
      → lookup eq key m.slots ≡ none
      → m'.slots ≡ fill eq key value m.slots
      → m'.size ≡ (m.size + 1) % 2 ^ 32
      → Inserted key value m m'
  unfolding Inserted IsValid
  new_key key value m m' (unique, counted, fits) room absent filled size =
      let count = occupied_count-fill eq key value m.slots in
      let before : find eq key m ≡ none = find-lookup eq key m ∙ absent in
      (
        rw filled (
          fill-Unique eq key value m.slots absent unique,
          omega (arith, count, size, counted, room),
          omega (arith, count, counted, room),
        ),
        find-lookup eq key m'
            ∙ ap (lookup eq key) filled
            ∙ lookup-fill_self eq key value m.slots absent
            ∙ ap (λ o. some (kept value o)) (sym before),
        (λ other ne.
            find-lookup eq other m'
            ∙ ap (lookup eq other) filled
            ∙ lookup-fill_other eq key other value m.slots ne
            ∙ sym (find-lookup eq other m)),
        (let grown : m'.size ≡ suc m.size = omega (arith, size, room) in
            grown ∙ ap (one_more m.size) (sym before)),
      )

  present_key :
      (key : K) (value old : V) (m : ReuseMap K V)
      → IsValid m
      → find eq key m ≡ some old
      → Inserted key value m m
  unfolding Inserted
  present_key key value old m valid h = (
    valid,
    h ∙ ap (λ o. some (kept value o)) (sym h),
    (λ other ne. refl),
    ap (one_more m.size) (sym h),
  )

  -- `insert` on a well-formed map whose size does not overflow: the key is there afterwards, with
  -- the value that it had or else the new one, every other key is as before, and the size grows
  -- exactly for a new key.
  pub insert-Inserted :
      (key : K) (value : V) (m : ReuseMap K V)
      → IsValid m
      → suc m.size < 2 ^ 32
      → Inserted key value m (insert eq key value m).1
  unfolding insert
  insert-Inserted key value m valid room = elim (Option-cases (find_slot eq key m.slots)) [
    | inl absent ↦
        let new = insert_new-fill key value m (free_slot m.slots) in
        rw (absent, insert)
          (new_key key value m (insert_new eq key value m (free_slot m.slots)).1 valid room
            (sym (find_slot-lookup eq key m.slots) ∙ ap (value_of eq m.slots) absent)
            (new.0 ∙ filled_at-fill eq key value m.slots) new.1)
    | inr (i, there) ↦
        let (old, present) = find_slot-some eq key m.slots i there in
        rw (there, insert) (present_key key value old m valid (find-lookup eq key m ∙ present))
  ]

  abbrev pub is_some : Option V → Bool
  is_some none = false
  is_some (some v) = true

  unfoldable pub Erased : K → ReuseMap K V → Bool × ReuseMap K V → Type 0
  Erased key m (was_there, m') =
      IsValid m'
      × (find eq key m' ≡ none)
      × ((other : K) → key ≢ other → find eq other m' ≡ find eq other m)
      × (was_there ≡ is_some (find eq key m))

  dropped :
      (key : K) (value : V) (m m' : ReuseMap K V)
      → IsValid m
      → lookup eq key m.slots ≡ some value
      → m'.slots ≡ drop_first eq key m.slots
      → m'.size ≡ (m.size + 2 ^ 32 - 1) % 2 ^ 32
      → Erased key m (true, m')
  unfolding Erased IsValid
  dropped key value m m' (unique, counted, fits) present slots size =
      let count = occupied_count-drop_first eq key value m.slots present in
      let before : find eq key m ≡ some value = find-lookup eq key m ∙ present in
      (
        rw slots (
          drop_first-Unique eq key m.slots unique,
          omega (arith, count, size, counted, fits),
          omega (arith, count, fits),
        ),
        find-lookup eq key m'
            ∙ ap (lookup eq key) slots
            ∙ lookup-drop_first_self eq key m.slots unique,
        (λ other ne.
            find-lookup eq other m'
            ∙ ap (lookup eq other) slots
            ∙ lookup-drop_first_other eq key other m.slots ne
            ∙ sym (find-lookup eq other m)),
        ap is_some (sym before),
      )

  absent_key :
      (key : K) (m : ReuseMap K V) → IsValid m → find eq key m ≡ none → Erased key m (false, m)
  unfolding Erased
  absent_key key m valid h = (valid, h, (λ other ne. refl), ap is_some (sym h))

  -- `erase` on a well-formed map: the key is gone, every other key is as before, and the answer
  -- says whether it was there.
  pub erase-Erased : (key : K) (m : ReuseMap K V) → IsValid m → Erased key m (erase eq key m)
  unfolding erase
  erase-Erased key m valid = elim (Option-cases (find_slot eq key m.slots)) [
    | inl absent ↦
        let before : find eq key m ≡ none =
          find-lookup eq key m
          ∙ sym (find_slot-lookup eq key m.slots)
          ∙ ap (value_of eq m.slots) absent in
        rw (absent, erase) (absent_key key m valid before)
    | inr (i, there) ↦
        let (value, present) = find_slot-some eq key m.slots i there in
        let released =
          ap (released_at eq m.slots) (sym there) ∙ released_at-drop_first eq key m.slots in
        rw (there, erase) (dropped key value m _ valid present released refl)
  ]
