-- ===== src/Server/Lists.antt =====
-- The loops over the device lists of components/usbipdcpp/usbipdcpp/src/Server.cpp: how often a
-- busid occurs, and which devices there are.
use esp32_usb_ip.Prelude.{
  ℕ, ◌+◌, ◌≤◌, ◌<◌, ◌≡◌, refl, sym, ap, inl, inr, true, false, Bool-cases, if◌then◌else◌, Option,
  none, some, List, [], ◌∷◌, ◌++◌, arith,
}
use mathlib.Core.List.{Perm}
use mathlib.Core.List.Perm
use esp32_usb_ip.Prelude.Strings.{same_bytes, same_bytes_iff}
use esp32_usb_ip.Device.{UsbDevice}
use esp32_usb_ip.Server.{Using, contains, is_available, keep_device, take_out}

unfoldable pub tally : List ℕ → List ℕ → ℕ
tally key busid = if same_bytes key busid then 1 else 0

unfoldable pub count_busid : List ℕ → List UsbDevice → ℕ
count_busid busid [] = 0
count_busid busid (d ∷ devices) = tally d.busid busid + count_busid busid devices

unfoldable pub count_key : List ℕ → Using → ℕ
count_key busid [] = 0
count_key busid ((key, d) ∷ using) = tally key busid + count_key busid using

unfoldable pub used : Using → List UsbDevice
used [] = []
used ((key, d) ∷ using) = d ∷ used using

-- Every key is the busid of its device.
unfoldable pub Labelled : Using → Type 0
Labelled [] = Unit
Labelled ((key, d) ∷ using) = (key ≡ d.busid) × Labelled using

pub tally_self : (busid : List ℕ) → tally busid busid ≡ 1
unfolding tally
tally_self busid = ground (arith, same_bytes_iff busid busid)

pub tally-le : (a b : List ℕ) → tally a b ≤ 1
unfolding tally
tally-le a b = ground arith

pub tally_other : (a b : List ℕ) → same_bytes a b ≡ false → tally a b ≡ 0
unfolding tally
tally_other a b h = ground (arith, h)

pub tally_same : (a b : List ℕ) → same_bytes a b ≡ true → (c : List ℕ) → tally a c ≡ tally b c
tally_same a b h c = ap (λ x. tally x c) ((same_bytes_iff a b).0 h)

pub count_busid-snoc :
    (busid : List ℕ) (devices : List UsbDevice) (d : UsbDevice)
    → count_busid busid (devices ++ (d ∷ [])) ≡ tally d.busid busid + count_busid busid devices
unfolding count_busid
count_busid-snoc busid [] d = refl
count_busid-snoc busid (x ∷ devices) d = omega (arith, count_busid-snoc busid devices d)

pub is_available-count :
    (busid : List ℕ) (devices : List UsbDevice)
    → is_available busid devices ≡ false
    → count_busid busid devices ≡ 0
unfolding is_available count_busid tally
is_available-count busid [] h = refl
is_available-count busid (d ∷ devices) h = ground (arith, is_available-count busid devices)

pub count-available :
    (busid : List ℕ) (devices : List UsbDevice)
    → count_busid busid devices ≡ 0
    → is_available busid devices ≡ false
unfolding is_available count_busid tally
count-available busid [] h = refl
count-available busid (d ∷ devices) h = ground (arith, count-available busid devices)

pub available_of_count :
    (busid : List ℕ) (devices : List UsbDevice)
    → 0 < count_busid busid devices
    → is_available busid devices ≡ true
available_of_count busid devices some_there = elim (Bool-cases (is_available busid devices)) [
  | inl yes_there ↦ yes_there
  | inr not_there ↦ absurd (omega (arith, is_available-count busid devices not_there))
]

pub contains-count :
    (busid : List ℕ) (using : Using) → contains busid using ≡ false → count_key busid using ≡ 0
unfolding contains count_key tally
contains-count busid [] h = refl
contains-count busid ((key, d) ∷ using) h = ground (arith, contains-count busid using)

pub used_of_count :
    (busid : List ℕ) (using : Using) → 0 < count_key busid using → contains busid using ≡ true
used_of_count busid using some_there = elim (Bool-cases (contains busid using)) [
  | inl yes_there ↦ yes_there
  | inr not_there ↦ absurd (omega (arith, contains-count busid using not_there))
]

pub count-contains :
    (busid : List ℕ) (using : Using) → count_key busid using ≡ 0 → contains busid using ≡ false
unfolding contains count_key tally
count-contains busid [] h = refl
count-contains busid ((key, d) ∷ using) h = ground (arith, count-contains busid using)

-- What a successful search of the available devices gives.
pub record Taken (busid : List ℕ) (devices : List UsbDevice) (d : UsbDevice) (rest : List UsbDevice)
    : Type 0 where
  pub named : d.busid ≡ busid
  pub counted : (b : List ℕ) → count_busid b devices ≡ tally busid b + count_busid b rest
  pub same_devices : Perm devices (d ∷ rest)

found_here :
    (busid : List ℕ) (d : UsbDevice) (devices : List UsbDevice)
    → same_bytes busid d.busid ≡ true
    → Taken busid (d ∷ devices) d devices
unfolding count_busid
found_here busid d devices h = record {
  named = sym ((same_bytes_iff busid d.busid).0 h);
  counted = λ b. omega (arith, tally_same busid d.busid h b);
  same_devices = Perm.refl (d ∷ devices);
}

found_later :
    (busid : List ℕ) (x d : UsbDevice) (devices rest : List UsbDevice)
    → Taken busid devices d rest
    → Taken busid (x ∷ devices) d (x ∷ rest)
unfolding count_busid
found_later busid x d devices rest t = record {
  named = t.named;
  counted = λ b. omega (arith, t.counted b);
  same_devices = Perm.trans (Perm.cons x t.same_devices) (Perm.swap d x rest);
}

-- `take_out` finds a device exactly if one with the busid is there.
unfoldable pub TakeOut : List ℕ → List UsbDevice → Option (UsbDevice × List UsbDevice) → Type 0
TakeOut busid devices none = count_busid busid devices ≡ 0
TakeOut busid devices (some (d, rest)) = Taken busid devices d rest

TakeOut-keep :
    (busid : List ℕ) (x : UsbDevice) (devices : List UsbDevice)
    (o : Option (UsbDevice × List UsbDevice))
    → same_bytes busid x.busid ≡ false
    → TakeOut busid devices o
    → TakeOut busid (x ∷ devices) (keep_device x o)
unfolding TakeOut count_busid tally
TakeOut-keep busid x devices none other found =
    ground (arith, same_bytes_iff busid x.busid, same_bytes_iff x.busid busid)
TakeOut-keep busid x devices (some (d, rest)) other found = found_later busid x d devices rest found

pub take_out_lem :
    (busid : List ℕ) (devices : List UsbDevice) → TakeOut busid devices (take_out busid devices)
unfolding take_out TakeOut count_busid
take_out_lem busid [] = refl
take_out_lem busid (x ∷ devices) = elim (Bool-cases (same_bytes busid x.busid)) [
  | inl here ↦ rw (here, take_out) (found_here busid x devices here)
  | inr other ↦
      rw (other, take_out)
        (TakeOut-keep busid x devices (take_out busid devices) other (take_out_lem busid devices))
]
