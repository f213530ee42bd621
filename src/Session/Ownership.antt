-- ===== src/Session/Ownership.antt =====
-- Any number of sessions of components/usbipdcpp/usbipdcpp/src/Session.cpp on one server. `parse_op`
-- asks whether the device is in use and claims it under two separate locks, so that the steps of
-- different sessions can stand between the two.
use esp32_usb_ip.Prelude.{
  ℕ, ◌<◌, ◌≡◌, ◌≢◌, refl, sym, ap, ◌∙◌, ◌⊎◌, inl, inr, true, false, Bool-cases, ◌==◌, if◌then◌else◌,
  Option, none, some, List, arith,
}
use mathlib.Core.Path.{subst}
use esp32_usb_ip.Prelude.Strings.{same_bytes, same_bytes_iff}
use esp32_usb_ip.Device.{UsbDevice}
use esp32_usb_ip.Server.{
  Server, is_device_using, has_bound_device, is_available, add_device, erase_device,
  try_moving_device_to_using, try_moving_device_to_available,
}
use esp32_usb_ip.Server.Lists.{tally_self, count_key, used_of_count, count-available}
use esp32_usb_ip.Server.Moves.{
  IsValid, MovedToUsing, try_moving_device_to_using-MovedToUsing,
  try_moving_device_to_available-NowAvailable, erase_device-NowGone, add_device-IsValid,
}

-- Where a session is: it has not asked, it has seen that the busid is not in use, it is opening
-- the device that it has claimed, or it transfers.
pub data Phase : Type 0 where
  idle : Phase
  checked : List ℕ → Phase
  opening : List ℕ → Phase
  transferring : List ℕ → Phase

pub record System : Type 0 where
  pub server : Server
  pub phase : ℕ → Phase

unfoldable pub update : (ℕ → Phase) → ℕ → Phase → ℕ → Phase
update phase i p j = if i == j then p else phase j

abbrev pub goes : System → Server → ℕ → Phase → System
goes s server i p = record { server = server; phase = update s.phase i p }

-- The steps of the sessions, one for each stretch that holds a lock, and the adding of a device by
-- a server that has none with that busid.
pub data Step (s : System) : System → Type 0 where
  checks :
      (i : ℕ) (b : List ℕ)
      → s.phase i ≡ idle
      → is_device_using b s.server ≡ false
      → Step s (goes s s.server i (checked b))
  claims :
      (i : ℕ) (b : List ℕ) (d : UsbDevice) (server : Server)
      → s.phase i ≡ checked b
      → try_moving_device_to_using b s.server ≡ (some d, server)
      → Step s (goes s server i (opening b))
  misses :
      (i : ℕ) (b : List ℕ) (server : Server)
      → s.phase i ≡ checked b
      → try_moving_device_to_using b s.server ≡ (none, server)
      → Step s (goes s server i idle)
  opens : (i : ℕ) (b : List ℕ) → s.phase i ≡ opening b → Step s (goes s s.server i (transferring b))
  fails :
      (i : ℕ) (b : List ℕ)
      → s.phase i ≡ opening b
      → Step s (goes s (try_moving_device_to_available b s.server) i idle)
  ends :
      (i : ℕ) (b : List ℕ)
      → s.phase i ≡ transferring b
      → Step s (goes s (try_moving_device_to_available b s.server) i idle)
  unplugged :
      (i : ℕ) (b : List ℕ)
      → s.phase i ≡ transferring b
      → Step s (goes s (erase_device b s.server) i idle)
  adds :
      (d : UsbDevice)
      → has_bound_device d.busid s.server ≡ false
      → Step s (record s { server = add_device d s.server })

pub data Reach (s : System) : System → Type 0 where
  here : Reach s s
  next : {t u : System} → Reach s t → Step t u → Reach s u

-- The busid of the device that a session has claimed and not given back.
unfoldable pub owned : Phase → Option (List ℕ)
owned idle = none
owned (checked b) = none
owned (opening b) = some b
owned (transferring b) = some b

pub record Inv (s : System) : Type 0 where
  pub valid : IsValid s.server
  pub in_use :
      (i : ℕ) (b : List ℕ) → owned (s.phase i) ≡ some b → 0 < count_key b s.server.using_devices
  pub unique :
      (i j : ℕ) (b : List ℕ) → owned (s.phase i) ≡ some b → owned (s.phase j) ≡ some b → i ≡ j

owned-update :
    (phase : ℕ → Phase) (i : ℕ) (p : Phase) (j : ℕ) (b : List ℕ)
    → owned (update phase i p j) ≡ some b
    → (j ≡ i) × (owned p ≡ some b) ⊎ (j ≢ i) × (owned (phase j) ≡ some b)
unfolding update
owned-update phase i p j b h = elim (Bool-cases (i == j)) [
  | inl same ↦ inl (ground (arith, same), ground (arith, same, h))
  | inr differs ↦ inr ((λ e. ground (arith, differs, e)), ground (arith, differs, h))
]

-- One session changes its phase: the invariant stays if the server is well formed, still uses what
-- the other sessions own, and uses what this one owns then, which no other does.
goes-Inv :
    (s : System) (server : Server) (i : ℕ) (p : Phase)
    → Inv s
    → IsValid server
    → ((j : ℕ) (b : List ℕ)
        → j ≢ i
        → owned (s.phase j) ≡ some b
        → 0 < count_key b server.using_devices)
    → ((b : List ℕ) → owned p ≡ some b → 0 < count_key b server.using_devices)
    → ((j : ℕ) (b : List ℕ) → owned p ≡ some b → owned (s.phase j) ≡ some b → j ≡ i)
    → Inv (goes s server i p)
goes-Inv s server i p inv valid others mine only = record {
  valid = valid;
  in_use = λ j b h. elim (owned-update s.phase i p j b h) [
    | inl (same, own) ↦ mine b own
    | inr (differs, own) ↦ others j b differs own
  ];
  unique = λ j k b h h'. elim (owned-update s.phase i p j b h) [
    | inl (same, own) ↦ elim (owned-update s.phase i p k b h') [
      | inl (same', own') ↦ same ∙ sym same'
      | inr (differs', own') ↦ same ∙ sym (only k b own own')
    ]
    | inr (differs, own) ↦ elim (owned-update s.phase i p k b h') [
      | inl (same', own') ↦ only j b own' own ∙ sym same'
      | inr (differs', own') ↦ inv.unique j k b own own'
    ]
  ];
}

-- The phase of a session that owns nothing afterwards.
drops :
    (s : System) (server : Server) (i : ℕ) (p : Phase)
    → Inv s
    → owned p ≡ none
    → IsValid server
    → ((j : ℕ) (b : List ℕ)
        → j ≢ i
        → owned (s.phase j) ≡ some b
        → 0 < count_key b server.using_devices)
    → Inv (goes s server i p)
drops s server i p inv nothing valid others =
    goes-Inv s server i p inv valid others (λ b h. absurd (ground (arith, nothing, h)))
      (λ j b h h'. absurd (ground (arith, nothing, h)))

-- Giving a busid back takes nothing from a session that owns another one.
keeps_others :
    (s : System) (server : Server) (i : ℕ) (b : List ℕ)
    → Inv s
    → owned (s.phase i) ≡ some b
    → ((c : List ℕ)
        → same_bytes b c ≡ false
        → count_key c server.using_devices ≡ count_key c s.server.using_devices)
    → (j : ℕ) (c : List ℕ) → j ≢ i
    → owned (s.phase j) ≡ some c
    → 0 < count_key c server.using_devices
keeps_others s server i b inv own same_counts j c differs own' =
    elim (Bool-cases (same_bytes b c)) [
      | inl same ↦
          absurd (differs (inv.unique j i c own' (own ∙ ap some ((same_bytes_iff b c).0 same))))
      | inr other ↦ omega (arith, same_counts c other, inv.in_use j c own')
    ]

Step-Inv : {s t : System} → Step s t → Inv s → Inv t
unfolding owned MovedToUsing is_device_using add_device
Step-Inv {s} (checks i b at free) inv =
    drops s s.server i (checked b) inv refl inv.valid (λ j c differs own. inv.in_use j c own)
Step-Inv {s} (misses i b server at missed) inv =
    let moved = try_moving_device_to_using-MovedToUsing b s.server inv.valid in
    let same = (subst (MovedToUsing b s.server) missed moved).1 in
    drops s server i idle inv refl (rw same inv.valid)
      (λ j c differs own. rw same (inv.in_use j c own))
Step-Inv {s} (claims i b d server at moved) inv =
    let now =
      subst (MovedToUsing b s.server) moved
        (try_moving_device_to_using-MovedToUsing b s.server inv.valid) in
    let was_unused : count_key b s.server.using_devices ≡ 0 =
      omega (arith, now.counted b, now.valid.distinct b, tally_self b) in
    let same : (c : List ℕ) → some b ≡ some c → b ≡ c = λ c e. cc in
    goes-Inv s server i (opening b) inv now.valid
      (λ j c differs own. omega (arith, now.counted c, inv.in_use j c own))
      (λ c e.
        omega (
          arith,
          now.counted b,
          tally_self b,
          ap (λ x. count_key x server.using_devices) (same c e),
        ))
      (λ j c e own. absurd (
        omega (
          arith,
          was_unused,
          inv.in_use j c own,
          ap (λ x. count_key x s.server.using_devices) (same c e),
        )))
Step-Inv {s} (opens i b at) inv =
    goes-Inv s s.server i (transferring b) inv inv.valid (λ j c differs own. inv.in_use j c own)
      (λ c e. inv.in_use i c (ap owned at ∙ e))
      (λ j c e own. inv.unique j i c own (ap owned at ∙ e))
Step-Inv {s} (fails i b at) inv =
    let back = try_moving_device_to_available-NowAvailable b s.server inv.valid in
    drops s (try_moving_device_to_available b s.server) i idle inv refl back.valid
      (keeps_others s (try_moving_device_to_available b s.server) i b inv (ap owned at) back.others)
Step-Inv {s} (ends i b at) inv =
    let back = try_moving_device_to_available-NowAvailable b s.server inv.valid in
    drops s (try_moving_device_to_available b s.server) i idle inv refl back.valid
      (keeps_others s (try_moving_device_to_available b s.server) i b inv (ap owned at) back.others)
Step-Inv {s} (unplugged i b at) inv =
    let own = ap owned at in
    let gone =
      erase_device-NowGone b s.server inv.valid
        (used_of_count b s.server.using_devices (inv.in_use i b own)) in
    drops s (erase_device b s.server) i idle inv refl gone.valid
      (keeps_others s (erase_device b s.server) i b inv own gone.others)
Step-Inv {s} (adds d unknown) inv = record {
  valid = add_device-IsValid d s.server inv.valid unknown;
  in_use = inv.in_use;
  unique = inv.unique;
}

pub Reach-Inv : {s t : System} → Inv s → Reach s t → Inv t
Reach-Inv inv here = inv
Reach-Inv inv (next r st) = Step-Inv st (Reach-Inv inv r)

-- A server with its devices and no session that has asked for one.
unfoldable pub start : Server → System
start server = record { server = server; phase = λ i. idle }

pub start-Inv : (server : Server) → IsValid server → Inv (start server)
unfolding start owned
start-Inv server valid = record {
  valid = valid;
  in_use = λ i b h. absurd (ground (arith, h));
  unique = λ i j b h h'. absurd (ground (arith, h));
}

-- In whatever order the steps of the sessions are taken, from a well-formed server on: two
-- sessions never own the same device, although each looks and claims under separate locks.
pub mutual_exclusion :
    {server : Server} {t : System} (i j : ℕ) (b : List ℕ)
    → IsValid server
    → Reach (start server) t
    → owned (t.phase i) ≡ some b
    → owned (t.phase j) ≡ some b
    → i ≡ j
mutual_exclusion {server} i j b valid r h h' =
    (Reach-Inv (start-Inv server valid) r).unique i j b h h'

-- In whatever order: the server stays well formed, and a device that a session owns is one that the
-- server has in use, and not one that it offers.
pub owned-in_use :
    {server : Server} {t : System} (i : ℕ) (b : List ℕ)
    → IsValid server
    → Reach (start server) t
    → owned (t.phase i) ≡ some b
    → IsValid t.server
      × (is_device_using b t.server ≡ true)
      × (is_available b t.server.available_devices ≡ false)
unfolding is_device_using
owned-in_use {server} {t} i b valid r h =
    let inv = Reach-Inv (start-Inv server valid) r in
    let used_now = inv.in_use i b h in
    (
      inv.valid,
      used_of_count b t.server.using_devices used_now,
      count-available b t.server.available_devices (omega (arith, inv.valid.distinct b)),
    )
