-- ===== src/ReuseMap/Examples.antt =====
-- A map from sequence numbers, with a slot that is used again.
use esp32_usb_ip.Prelude.{ℕ, ◌≡◌, refl, arith, ◌==◌, ==_iff, [], ◌∷◌}
use esp32_usb_ip.ReuseMap.{
  KeyEq, ReuseMap, taken_slot, release, insert, insert_new, erase, find_slot, free_slot, for_each,
}
use esp32_usb_ip.ReuseMap.Slots.{lookup, occupied_count}
use esp32_usb_ip.ReuseMap.Effects.{Unique}
use esp32_usb_ip.ReuseMap.Laws.{IsValid, Inserted, Erased, insert-Inserted, erase-Erased}

abbrev numbers : KeyEq ℕ
numbers = record { same = λ a b. a == b; same_iff = ==_iff }

-- The keys 7 and 9, and between them a slot that was released.
abbrev pending : ReuseMap ℕ ℕ
pending = record {
  slots = taken_slot 7 70 ∷ release (taken_slot 8 80) ∷ taken_slot 9 90 ∷ [];
  size = 2;
}

pending-IsValid : IsValid numbers pending
unfolding IsValid Unique lookup occupied_count for_each
pending-IsValid = (((λ e. refl), ((λ e. refl), ((λ e. refl), tt))), refl, omega arith)

slot_again : (insert numbers 5 50 pending).0 ≡ 1
unfolding insert insert_new find_slot free_slot
slot_again = refl

insert-Inserted_example : Inserted numbers 5 50 pending (insert numbers 5 50 pending).1
insert-Inserted_example = insert-Inserted numbers 5 50 pending pending-IsValid (omega arith)

erase-Erased_example : Erased numbers 9 pending (erase numbers 9 pending)
erase-Erased_example = erase-Erased numbers 9 pending pending-IsValid
