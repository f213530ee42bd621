-- ===== src/Device/Lookup.antt =====
-- `UsbDevice::find_ep` of components/usbipdcpp/usbipdcpp/src/Device.cpp.
use esp32_usb_ip.Prelude.{
  ℕ, ◌≡◌, refl, sym, ◌⊎◌, ◌≢◌, ◌==◌, ==_iff, Bool-cases, inl, inr, Option, none, some, List, [],
  ◌∷◌, arith,
}
use mathlib.Core.List.{Memᴰ}
use mathlib.Core.List.Memᴰ.{head, tail}
use esp32_usb_ip.Prelude.Bytes.{All}
use esp32_usb_ip.Device.{Endpoint, Interface, UsbDevice, find_endpoint, find_interface, find_ep}

-- None of the endpoints, none of the interfaces, has the address.
abbrev pub Absent : ℕ → List Endpoint → Type 0
Absent ep = All (λ e. e.address ≢ ep)

abbrev pub AbsentFrom : ℕ → List Interface → Type 0
AbsentFrom ep = All (λ i. Absent ep i.endpoints)

-- What a search gives: an endpoint with the address, or nothing, if there is none.
unfoldable pub FoundEndpoint : ℕ → List Endpoint → Option Endpoint → Type 0
FoundEndpoint ep es none = Absent ep es
FoundEndpoint ep es (some e) = (e.address ≡ ep) × Memᴰ e es

later_endpoint :
    (ep : ℕ) (e : Endpoint) (es : List Endpoint) (o : Option Endpoint)
    → e.address ≢ ep
    → FoundEndpoint ep es o
    → FoundEndpoint ep (e ∷ es) o
unfolding FoundEndpoint
later_endpoint ep e es none other found = (other, found)
later_endpoint ep e es (some e') other found = (found.0, tail found.1)

find_endpoint_lem : (ep : ℕ) (es : List Endpoint) → FoundEndpoint ep es (find_endpoint ep es)
unfolding find_endpoint FoundEndpoint
find_endpoint_lem ep [] = tt
find_endpoint_lem ep (e ∷ es) = elim (Bool-cases (e.address == ep)) [
  | inl same ↦ rw same ((==_iff _ _).0 same, head refl)
  | inr different ↦
      rw different
        (later_endpoint ep e es (find_endpoint ep es) (ground arith) (find_endpoint_lem ep es))
]

unfoldable pub FoundInterface : ℕ → List Interface → Option (Endpoint × Option Interface) → Type 0
FoundInterface ep is none = AbsentFrom ep is
FoundInterface ep is (some (e, none)) = ⊥
FoundInterface ep is (some (e, some i)) = (e.address ≡ ep) × Memᴰ e i.endpoints × Memᴰ i is

later_interface :
    (ep : ℕ) (i : Interface) (is : List Interface) (o : Option (Endpoint × Option Interface))
    → Absent ep i.endpoints
    → FoundInterface ep is o
    → FoundInterface ep (i ∷ is) o
unfolding FoundInterface
later_interface ep i is none absent found = (absent, found)
later_interface ep i is (some (e, none)) absent found = found
later_interface ep i is (some (e, some i')) absent (same, inside, found) =
    (same, inside, tail found)

first_interface :
    (ep : ℕ) (i : Interface) (is : List Interface) (o : Option Endpoint)
    (later : Option (Endpoint × Option Interface))
    → FoundEndpoint ep i.endpoints o
    → FoundInterface ep is later
    → FoundInterface ep (i ∷ is) (elim o [ some e ↦ some (e, some i) | none ↦ later ])
unfolding FoundEndpoint FoundInterface
first_interface ep i is none later absent found = later_interface ep i is later absent found
first_interface ep i is (some e) later (same, inside) found = (same, inside, head refl)

find_interface_lem : (ep : ℕ) (is : List Interface) → FoundInterface ep is (find_interface ep is)
unfolding find_interface FoundInterface
find_interface_lem ep [] = tt
find_interface_lem ep (i ∷ is) =
    first_interface ep i is (find_endpoint ep i.endpoints) (find_interface ep is)
      (find_endpoint_lem ep i.endpoints) (find_interface_lem ep is)

-- An endpoint of address 0 in either direction belongs to no interface and comes first; any other
-- is that of an interface.
unfoldable pub Found : UsbDevice → ℕ → Option (Endpoint × Option Interface) → Type 0
Found d ep none = (d.ep0_in.address ≢ ep) × (d.ep0_out.address ≢ ep) × AbsentFrom ep d.interfaces
Found d ep (some (e, none)) = (e.address ≡ ep) × ((e ≡ d.ep0_in) ⊎ (e ≡ d.ep0_out))
Found d ep (some (e, some i)) =
    (d.ep0_in.address ≢ ep)
    × (d.ep0_out.address ≢ ep)
    × (e.address ≡ ep)
    × Memᴰ e i.endpoints
    × Memᴰ i d.interfaces

from_interface :
    (d : UsbDevice) (ep : ℕ) (o : Option (Endpoint × Option Interface))
    → d.ep0_in.address ≢ ep
    → d.ep0_out.address ≢ ep
    → FoundInterface ep d.interfaces o
    → Found d ep o
unfolding Found FoundInterface
from_interface d ep none not_in not_out found = (not_in, not_out, found)
from_interface d ep (some (e, none)) not_in not_out found = elim found [ ]
from_interface d ep (some (e, some i)) not_in not_out (same, inside, found) =
    (not_in, not_out, same, inside, found)

-- `find_ep` gives an endpoint with the address asked for: one of the two endpoints 0 without an
-- interface, or, where neither has that address, an endpoint of an interface of the device,
-- together with that interface; it gives nothing only where no endpoint has the address.
pub find_ep-Found : (d : UsbDevice) (ep : ℕ) → Found d ep (find_ep d ep)
unfolding find_ep Found
find_ep-Found d ep = elim (Bool-cases (ep == d.ep0_in.address)) [
  | inl is_in ↦ rw is_in (sym ((==_iff _ _).0 is_in), inl refl)
  | inr not_in ↦ elim (Bool-cases (ep == d.ep0_out.address)) [
    | inl is_out ↦ rw (not_in, is_out) (sym ((==_iff _ _).0 is_out), inr refl)
    | inr not_out ↦
        rw (not_in, not_out)
          (from_interface d ep (find_interface ep d.interfaces) (ground arith) (ground arith)
            (find_interface_lem ep d.interfaces))
  ]
]
