-- ===== src/Server/Moves.antt =====
-- The moves of a device between the lists of components/usbipdcpp/usbipdcpp/src/Server.cpp: no device
-- is lost or doubled, and no busid is ever in two places.
use esp32_usb_ip.Prelude.{
  ℕ, ◌+◌, ◌≤◌, ◌≡◌, refl, sym, ap, inl, inr, true, false, Bool-cases, Option, none, some,
  Option-cases, List, [], ◌∷◌, ◌++◌, append_assoc, append-nil, arith,
}
use mathlib.Core.List.{Perm, perm_middle}
use mathlib.Core.List.Perm
use esp32_usb_ip.Prelude.Strings.{same_bytes, same_bytes_iff}
use esp32_usb_ip.Device.{UsbDevice}
use esp32_usb_ip.Server.{
  Server, Using, contains, assign_using, find_using, erase_device, erase_using, is_device_using,
  add_device, is_available, has_bound_device, take_out, move_to_using, try_moving_device_to_using,
  move_to_available, try_moving_device_to_available,
}
use esp32_usb_ip.Server.Lists.{
  tally, tally_self, tally_other, tally-le, count_busid, count_busid-snoc, count_key, used,
  Labelled, TakeOut, take_out_lem, contains-count, count-contains, is_available-count,
  count-available, available_of_count,
}
use esp32_usb_ip.Server.UsingLists.{assign_using-Added, erase_using-Removed, find_using-none}

unfoldable pub all_devices : Server → List UsbDevice
all_devices s = s.available_devices ++ used s.using_devices

-- A busid is in one place at most, and the devices in use are filed under their own.
pub record IsValid (s : Server) : Type 0 where
  pub distinct : (b : List ℕ) → count_busid b s.available_devices + count_key b s.using_devices ≤ 1
  pub labelled : Labelled s.using_devices

-- The same devices are in use, under the same busids, and the same ones are available, and the
-- sessions are the same.
pub record SamePlaces (s s' : Server) : Type 0 where
  pub same_using : s'.using_devices ≡ s.using_devices
  pub same_available : Perm s'.available_devices s.available_devices
  pub same_sessions : s'.sessions ≡ s.sessions

pub SamePlaces-refl : (s : Server) → SamePlaces s s
SamePlaces-refl s = record {
  same_using = refl;
  same_available = Perm.refl s.available_devices;
  same_sessions = refl;
}

-- The outcome of a successful move to the devices in use; the move back undoes it.
pub record NowUsing (busid : List ℕ) (d : UsbDevice) (s s' : Server) : Type 0 where
  pub valid : IsValid s'
  pub named : d.busid ≡ busid
  pub was_available : is_available busid s.available_devices ≡ true
  pub is_using : is_device_using busid s' ≡ true
  pub not_available : count_busid busid s'.available_devices ≡ 0
  pub counted :
      (b : List ℕ) → count_key b s'.using_devices ≡ tally busid b + count_key b s.using_devices
  pub same_devices : Perm (all_devices s') (all_devices s)
  pub undone : SamePlaces s (try_moving_device_to_available busid s')

unfoldable pub MovedToUsing : List ℕ → Server → Option UsbDevice × Server → Type 0
MovedToUsing busid s (none, s') = (count_busid busid s.available_devices ≡ 0) × (s' ≡ s)
MovedToUsing busid s (some d, s') = NowUsing busid d s s'

same_bytes_self : (b : List ℕ) → same_bytes b b ≡ true
same_bytes_self b = (same_bytes_iff b b).1 refl

find_using-assign_using :
    (busid : List ℕ) (d : UsbDevice) (u : Using)
    → find_using busid (assign_using busid d u) ≡ some d
unfolding find_using assign_using
find_using-assign_using busid d [] = rw (same_bytes_self busid) refl
find_using-assign_using busid d ((key, k) ∷ u) = elim (Bool-cases (same_bytes key busid)) [
  | inl same ↦ rw (same, find_using, same) refl
  | inr other ↦ rw (other, find_using, other) (find_using-assign_using busid d u)
]

erase_using-assign_using :
    (busid : List ℕ) (d : UsbDevice) (u : Using)
    → contains busid u ≡ false
    → erase_using busid (assign_using busid d u) ≡ u
unfolding erase_using assign_using contains
erase_using-assign_using busid d [] free = rw (same_bytes_self busid) refl
erase_using-assign_using busid d ((key, k) ∷ u) free = elim (Bool-cases (same_bytes key busid)) [
  | inl same ↦ absurd (ground (arith, free, same))
  | inr other ↦
      rw (other, erase_using, other)
        (ap (λ rest. (key, k) ∷ rest)
          (erase_using-assign_using busid d u (ground (arith, free, other))))
]

moved-undone :
    (busid : List ℕ) (d : UsbDevice) (rest : List UsbDevice) (s : Server)
    → contains busid s.using_devices ≡ false
    → Perm s.available_devices (d ∷ rest)
    → SamePlaces s (try_moving_device_to_available busid (move_to_using busid s (some (d, rest))).1)
unfolding try_moving_device_to_available move_to_using move_to_available
moved-undone busid d rest s free same =
    rw (find_using-assign_using busid d s.using_devices) (record {
      same_using = erase_using-assign_using busid d s.using_devices free;
      same_available = Perm.trans (perm_middle rest []) (rw append-nil (Perm.symm same));
      same_sessions = refl;
    })

moved :
    (busid : List ℕ) (s : Server) (o : Option (UsbDevice × List UsbDevice))
    → IsValid s
    → TakeOut busid s.available_devices o
    → MovedToUsing busid s (move_to_using busid s o)
unfolding TakeOut MovedToUsing move_to_using is_device_using all_devices
moved busid s none v found = (found, refl)
moved busid s (some (d, rest)) v t =
    let a =
      assign_using-Added busid d s.using_devices
        (omega (arith, v.distinct busid, t.counted busid, tally_self busid)) in
    record {
      valid = record {
        distinct = λ b. omega (arith, v.distinct b, t.counted b, a.counted b);
        labelled = a.labelled (sym t.named) v.labelled;
      };
      named = t.named;
      was_available =
          available_of_count busid s.available_devices
            (omega (arith, t.counted busid, tally_self busid));
      is_using = a.there;
      not_available = omega (arith, v.distinct busid, t.counted busid, tally_self busid);
      counted = a.counted;
      same_devices = Perm.trans (Perm.append (Perm.refl rest) a.same_devices) (
          Perm.trans (perm_middle rest (used s.using_devices))
            (Perm.append (Perm.symm t.same_devices) (Perm.refl (used s.using_devices))));
      undone =
          moved-undone busid d rest s
            (count-contains busid s.using_devices
              (omega (arith, v.distinct busid, t.counted busid, tally_self busid)))
            t.same_devices;
    }

-- On a well-formed server `try_moving_device_to_using` either finds no available device with the
-- busid and changes nothing, or hands out one that has it, after which the busid is in use and no
-- longer available; the server stays well formed and has the same devices as before.
pub try_moving_device_to_using-MovedToUsing :
    (busid : List ℕ) (s : Server)
    → IsValid s
    → MovedToUsing busid s (try_moving_device_to_using busid s)
unfolding try_moving_device_to_using
try_moving_device_to_using-MovedToUsing busid s v =
    moved busid s (take_out busid s.available_devices) v (take_out_lem busid s.available_devices)

pub record NowAvailable (busid : List ℕ) (s s' : Server) : Type 0 where
  pub valid : IsValid s'
  pub not_using : is_device_using busid s' ≡ false
  pub same_devices : Perm (all_devices s') (all_devices s)
  pub others :
      (b : List ℕ)
      → same_bytes busid b ≡ false
      → count_key b s'.using_devices ≡ count_key b s.using_devices
  pub still_bound :
      (b : List ℕ)
      → count_busid b s'.available_devices + count_key b s'.using_devices
        ≡ count_busid b s.available_devices + count_key b s.using_devices

released :
    (busid : List ℕ) (s : Server) (o : Option UsbDevice)
    → IsValid s
    → find_using busid s.using_devices ≡ o
    → NowAvailable busid s (move_to_available busid s o)
unfolding move_to_available is_device_using all_devices
released busid s none v found = record {
  valid = v;
  not_using = count-contains busid s.using_devices (find_using-none busid s.using_devices found);
  same_devices = Perm.refl (all_devices s);
  others = λ b other. refl;
  still_bound = λ b. refl;
}
released busid s (some d) v found =
    let r = erase_using-Removed busid d s.using_devices found in
    let named = r.named v.labelled in
    let rest = used (erase_using busid s.using_devices) in
    let same_name : (b : List ℕ) → tally d.busid b ≡ tally busid b =
      λ b. ap (λ x. tally x b) (sym named) in
    record {
      valid = record {
        distinct = λ b. omega (
          arith,
          v.distinct b,
          r.counted b,
          same_name b,
          count_busid-snoc b s.available_devices d,
        );
        labelled = r.labelled v.labelled;
      };
      not_using =
          count-contains busid (erase_using busid s.using_devices)
            (omega (arith, v.distinct busid, r.counted busid, tally_self busid));
      same_devices =
          rw append_assoc (Perm.append (Perm.refl s.available_devices) (Perm.symm r.same_devices));
      others = λ b other. omega (arith, r.counted b, tally_other busid b other);
      still_bound =
          λ b. omega (arith, r.counted b, same_name b, count_busid-snoc b s.available_devices d);
    }

-- On a well-formed server `try_moving_device_to_available` leaves the busid not in use and, if it
-- was, available; the server stays well formed and has the same devices as before.
pub try_moving_device_to_available-NowAvailable :
    (busid : List ℕ) (s : Server)
    → IsValid s
    → NowAvailable busid s (try_moving_device_to_available busid s)
unfolding try_moving_device_to_available
try_moving_device_to_available-NowAvailable busid s v =
    released busid s (find_using busid s.using_devices) v refl

once_more :
    (d : UsbDevice) (s : Server) (b : List ℕ)
    → IsValid s
    → count_busid d.busid s.available_devices ≡ 0
    → count_key d.busid s.using_devices ≡ 0
    → tally d.busid b + count_busid b s.available_devices + count_key b s.using_devices ≤ 1
once_more d s b v not_there not_used = elim (Bool-cases (same_bytes d.busid b)) [
  | inl same ↦
      let e = (same_bytes_iff d.busid b).0 same in
      omega (
        arith,
        tally-le d.busid b,
        ap (λ x. count_busid x s.available_devices) e,
        ap (λ x. count_key x s.using_devices) e,
      )
  | inr other ↦ omega (arith, v.distinct b, tally_other d.busid b other)
]

-- `add_device` keeps a server well formed if it has no device with that busid yet, in use or not.
pub add_device-IsValid :
    (d : UsbDevice) (s : Server)
    → IsValid s
    → has_bound_device d.busid s ≡ false
    → IsValid (add_device d s)
unfolding add_device has_bound_device
add_device-IsValid d s v unknown =
    let not_there = is_available-count d.busid s.available_devices (ground (arith, unknown)) in
    let not_used = contains-count d.busid s.using_devices (ground (arith, unknown)) in
    record {
      distinct = λ b.
          omega
            (arith, once_more d s b v not_there not_used, count_busid-snoc b s.available_devices d);
      labelled = v.labelled;
    }

-- A device that was unplugged while in use is erased: its busid is in no place any more.
pub record NowGone (busid : List ℕ) (s s' : Server) : Type 0 where
  pub valid : IsValid s'
  pub gone : has_bound_device busid s' ≡ false
  pub others :
      (b : List ℕ)
      → same_bytes busid b ≡ false
      → count_key b s'.using_devices ≡ count_key b s.using_devices

pub erase_device-NowGone :
    (busid : List ℕ) (s : Server)
    → IsValid s
    → is_device_using busid s ≡ true
    → NowGone busid s (erase_device busid s)
unfolding erase_device has_bound_device is_device_using
erase_device-NowGone busid s v used_now = elim (Option-cases (find_using busid s.using_devices)) [
  | inl missing ↦ absurd (
      ground (
        arith,
        used_now,
        count-contains busid s.using_devices (find_using-none busid s.using_devices missing),
      ))
  | inr (d, found) ↦
      let r = erase_using-Removed busid d s.using_devices found in
      record {
        valid = record {
          distinct = λ b. omega (arith, v.distinct b, r.counted b);
          labelled = r.labelled v.labelled;
        };
        gone =
            rw
              (
                count-available busid s.available_devices
                    (omega (arith, v.distinct busid, r.counted busid, tally_self busid)),
                count-contains busid (erase_using busid s.using_devices)
                    (omega (arith, v.distinct busid, r.counted busid, tally_self busid)),
              )
              refl;
        others = λ b other. omega (arith, r.counted b, tally_other busid b other);
      }
]
