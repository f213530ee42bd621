-- ===== src/Server/UsingLists.antt =====
-- The map of the devices in use of components/usbipdcpp/usbipdcpp/src/Server.cpp: what assigning and
-- erasing a key does to it.
use esp32_usb_ip.Prelude.{
  ℕ, ◌+◌, ◌≡◌, refl, sym, ap, ◌∙◌, inl, inr, true, false, Bool-cases, none, some, List, [], ◌∷◌,
  arith,
}
use mathlib.Core.List.{Perm}
use mathlib.Core.List.Perm
use esp32_usb_ip.Prelude.Strings.{same_bytes, same_bytes_iff}
use esp32_usb_ip.Device.{UsbDevice}
use esp32_usb_ip.Server.{Using, contains, find_using, assign_using, erase_using}
use esp32_usb_ip.Server.Lists.{tally, tally_same, count_key, used, Labelled}

-- What the assignment to a new key makes of the map.
pub record Added (busid : List ℕ) (d : UsbDevice) (using using' : Using) : Type 0 where
  pub counted : (b : List ℕ) → count_key b using' ≡ tally busid b + count_key b using
  pub labelled : busid ≡ d.busid → Labelled using → Labelled using'
  pub same_devices : Perm (used using') (d ∷ used using)
  pub there : contains busid using' ≡ true

pub assign_using-Added :
    (busid : List ℕ) (d : UsbDevice) (using : Using)
    → count_key busid using ≡ 0
    → Added busid d using (assign_using busid d using)
unfolding count_key used Labelled contains assign_using
assign_using-Added busid d [] h = record {
  counted = λ b. refl;
  labelled = λ same l. (same, tt);
  same_devices = Perm.refl (d ∷ []);
  there = ground (arith, same_bytes_iff busid busid);
}
assign_using-Added busid d ((key, x) ∷ using) h = elim (Bool-cases (same_bytes key busid)) [
  | inl here ↦ absurd (unfold tally in ground (arith, h, here))
  | inr other ↦
      let later = assign_using-Added busid d using (omega (arith, h)) in
      simp other (record {
        counted = λ b. omega (arith, later.counted b);
        labelled = λ same l. (l.0, later.labelled same l.1);
        same_devices = Perm.trans (Perm.cons x later.same_devices) (Perm.swap d x (used using));
        there = ground (arith, later.there);
      })
]

-- What the erasure of a key makes of it.
pub record Removed (busid : List ℕ) (d : UsbDevice) (using using' : Using) : Type 0 where
  pub named : Labelled using → busid ≡ d.busid
  pub counted : (b : List ℕ) → count_key b using ≡ tally busid b + count_key b using'
  pub labelled : Labelled using → Labelled using'
  pub same_devices : Perm (used using) (d ∷ used using')

pub erase_using-Removed :
    (busid : List ℕ) (d : UsbDevice) (using : Using)
    → find_using busid using ≡ some d
    → Removed busid d using (erase_using busid using)
unfolding count_key used Labelled find_using erase_using
erase_using-Removed busid d [] h = absurd (ground (arith, h))
erase_using-Removed busid d ((key, x) ∷ using) h = elim (Bool-cases (same_bytes key busid)) [
  | inl here ↦
      let same : x ≡ d = ground (arith, h, here) in
      simp here (record {
        named = λ l. sym ((same_bytes_iff key busid).0 here) ∙ l.0 ∙ ap (λ y. y.busid) same;
        counted = λ b. omega (arith, tally_same key busid here b);
        labelled = λ l. l.1;
        same_devices = rw same (Perm.refl (d ∷ used using));
      })
  | inr other ↦
      let later = erase_using-Removed busid d using (ground (arith, h, other)) in
      simp other (record {
        named = λ l. later.named l.1;
        counted = λ b. omega (arith, later.counted b);
        labelled = λ l. (l.0, later.labelled l.1);
        same_devices =
            Perm.trans (Perm.cons x later.same_devices)
              (Perm.swap d x (used (erase_using busid using)));
      })
]

pub find_using-none :
    (busid : List ℕ) (using : Using) → find_using busid using ≡ none → count_key busid using ≡ 0
unfolding find_using count_key tally
find_using-none busid [] h = refl
find_using-none busid ((key, x) ∷ using) h = ground (arith, find_using-none busid using)

pub find_using-contains :
    (busid : List ℕ) (using : Using) (d : UsbDevice)
    → contains busid using ≡ false
    → find_using busid using ≡ none
unfolding find_using contains
find_using-contains busid [] d h = refl
find_using-contains busid ((key, x) ∷ using) d h = ground (arith, find_using-contains busid using d)
