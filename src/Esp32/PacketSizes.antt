-- ===== src/Esp32/PacketSizes.antt =====
-- `endpoint_mps_map_` of components/usbipdcpp/src/esp32_handler/Esp32DeviceHandler.cpp: the packet
-- sizes of the endpoints, by their addresses.
use esp32_usb_ip.Prelude.{
  ℕ, ◌≡◌, ◌≢◌, sym, ap, ◌∙◌, inl, inr, Bool-cases, ltb, ◌==◌, ==_iff, ne→==_false, if◌then◌else◌,
  if_lem, some, List, [], ◌∷◌,
}
use mathlib.Core.List.{Memᴰ}
use mathlib.Core.List.Memᴰ.{head, tail}
use esp32_usb_ip.Prelude.Bytes.{All}
use esp32_usb_ip.Device.{Endpoint, Interface, UsbDevice}
use esp32_usb_ip.Esp32.{lookup, assign}
use esp32_usb_ip.Esp32.Table.{lookup_self, lookup-there, lookup-erase_ne, ==_false→ne}

abbrev pub PacketSizes : Type 0
PacketSizes = List (ℕ × ℕ)

-- The two loops: an address that comes again gets the later size.
unfoldable pub add_endpoints : List Endpoint → PacketSizes → PacketSizes
add_endpoints [] sizes = sizes
add_endpoints (e ∷ es) sizes = add_endpoints es (assign e.address e.max_packet_size sizes)

unfoldable pub add_interfaces : List Interface → PacketSizes → PacketSizes
add_interfaces [] sizes = sizes
add_interfaces (i ∷ is) sizes = add_interfaces is (add_endpoints i.endpoints sizes)

abbrev pub add_ep0 : ℕ → Endpoint → PacketSizes → PacketSizes
add_ep0 address e sizes =
    if ltb 0 e.max_packet_size then assign address e.max_packet_size sizes else sizes

unfoldable pub endpoint_mps_map : UsbDevice → PacketSizes
endpoint_mps_map d = add_ep0 0x00 d.ep0_out (add_ep0 0x80 d.ep0_in (add_interfaces d.interfaces []))

module _ (a m : ℕ) where
  -- The endpoints with the address `a` have packets of the size `m`.
  abbrev pub Agree : List Endpoint → Type 0
  Agree = All (λ e. e.address ≡ a → e.max_packet_size ≡ m)

  abbrev pub AllAgree : List Interface → Type 0
  AllAgree = All (λ i. Agree i.endpoints)

  -- The size of the address in a table.
  Has : PacketSizes → Type 0
  Has sizes = lookup a sizes ≡ some m

  assign-here : (sizes : PacketSizes) (k n : ℕ) → k ≡ a → n ≡ m → Has (assign k n sizes)
  unfolding Has
  assign-here sizes k n here same =
      ap (λ x. lookup x (assign k n sizes)) (sym here) ∙ lookup_self k n _ ∙ ap some same

  assign-ne : (sizes : PacketSizes) (k n : ℕ) → k ≢ a → Has sizes → Has (assign k n sizes)
  unfolding Has
  assign-ne sizes k n other has =
      lookup-there a k n _ (ne→==_false k a other) ∙ lookup-erase_ne k a sizes other ∙ has

  assign-Has :
      (sizes : PacketSizes) (e : Endpoint)
      → (e.address ≡ a → e.max_packet_size ≡ m)
      → Has sizes
      → Has (assign e.address e.max_packet_size sizes)
  assign-Has sizes e agrees has = elim (Bool-cases (e.address == a)) [
    | inl here ↦
        let at = (==_iff e.address a).0 here in
        assign-here sizes e.address e.max_packet_size at (agrees at)
    | inr there ↦ assign-ne sizes e.address e.max_packet_size (==_false→ne e.address a there) has
  ]

  add_endpoints-Has :
      (es : List Endpoint) (sizes : PacketSizes)
      → Agree es
      → Has sizes
      → Has (add_endpoints es sizes)
  unfolding add_endpoints
  add_endpoints-Has [] sizes agree has = has
  add_endpoints-Has (e ∷ es) sizes (agrees, agree) has =
      add_endpoints-Has es _ agree (assign-Has sizes e agrees has)

  add_endpoints-Mem :
      (e : Endpoint) (es : List Endpoint) (sizes : PacketSizes)
      → Memᴰ e es
      → e.address ≡ a
      → Agree es
      → Has (add_endpoints es sizes)
  unfolding add_endpoints
  add_endpoints-Mem e [] sizes inside at agree = elim inside [ ]
  add_endpoints-Mem e (x ∷ es) sizes (head same) at (agrees, agree) =
      let at' : x.address ≡ a = ap (λ (y : Endpoint). y.address) (sym same) ∙ at in
      add_endpoints-Has es _ agree (assign-here sizes x.address x.max_packet_size at' (agrees at'))
  add_endpoints-Mem e (x ∷ es) sizes (tail inside) at (agrees, agree) =
      add_endpoints-Mem e es _ inside at agree

  add_interfaces-Has :
      (is : List Interface) (sizes : PacketSizes)
      → AllAgree is
      → Has sizes
      → Has (add_interfaces is sizes)
  unfolding add_interfaces
  add_interfaces-Has [] sizes agree has = has
  add_interfaces-Has (i ∷ is) sizes (here, agree) has =
      add_interfaces-Has is _ agree (add_endpoints-Has i.endpoints sizes here has)

  add_interfaces-Mem :
      (e : Endpoint) (i : Interface) (is : List Interface) (sizes : PacketSizes)
      → Memᴰ e i.endpoints
      → Memᴰ i is
      → e.address ≡ a
      → AllAgree is
      → Has (add_interfaces is sizes)
  unfolding add_interfaces
  add_interfaces-Mem e i [] sizes inside later at agree = elim later [ ]
  add_interfaces-Mem e i (x ∷ is) sizes inside (head same) at (here, agree) =
      let inside' : Memᴰ e x.endpoints = rw (← same) inside in
      add_interfaces-Has is _ agree (add_endpoints-Mem e x.endpoints sizes inside' at here)
  add_interfaces-Mem e i (x ∷ is) sizes inside (tail later) at (here, agree) =
      add_interfaces-Mem e i is _ inside later at agree

  -- An endpoint of an interface, not at an address of endpoint 0, is in the table with its size, if
  -- no other endpoint at its address has another.
  pub endpoint_mps_map-Mem :
      (d : UsbDevice) (e : Endpoint) (i : Interface)
      → Memᴰ e i.endpoints
      → Memᴰ i d.interfaces
      → e.address ≡ a
      → AllAgree d.interfaces
      → 0x80 ≢ a
      → 0x00 ≢ a
      → lookup a (endpoint_mps_map d) ≡ some m
  unfolding endpoint_mps_map Has
  endpoint_mps_map-Mem d e i inside later at agree not_in not_out =
      let of_interfaces = add_interfaces-Mem e i d.interfaces [] inside later at agree in
      let with_in =
        if_lem Has (ltb 0 d.ep0_in.max_packet_size)
          (λ b.
            assign-ne (add_interfaces d.interfaces []) 0x80 d.ep0_in.max_packet_size not_in
              of_interfaces)
          (λ b. of_interfaces) in
      if_lem Has (ltb 0 d.ep0_out.max_packet_size)
        (λ b. assign-ne _ 0x00 d.ep0_out.max_packet_size not_out with_in) (λ b. with_in)
