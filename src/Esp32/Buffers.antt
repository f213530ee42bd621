-- ===== src/Esp32/Buffers.antt =====
-- The buffer of a transfer and what the host library is asked to put into it: components/usbipdcpp/
-- src/esp32_handler/Esp32DeviceHandler.cpp.
use esp32_usb_ip.Prelude.{
  ℕ, ◌+◌, ◌-◌, ◌*◌, ◌/◌, ◌%◌, ◌^◌, ◌≤◌, ◌<◌, ◌≡◌, ◌≢◌, refl, ap, ◌∙◌, bit_or, Bool, true, false,
  ltb, lt→ltb, ◌==◌, ==_iff, not, ◌&&◌, if◌then◌else◌, if_lem, Option, none, some, arith,
}
use native.Mathlib.Nat.{div-eq_of_lt-le, div-add-mod, mod-lt, mod-le, mul-mod_left}
use esp32_usb_ip.Prelude.Bytes.{size_mod}
use esp32_usb_ip.Prelude.Bits.{set_top_bit}
use esp32_usb_ip.Device.{Endpoint, Interface, UsbDevice, is_in, find_ep}
use esp32_usb_ip.Device.Lookup.{Found, find_ep-Found}
use esp32_usb_ip.Esp32.{lookup}
use esp32_usb_ip.Esp32.PacketSizes.{PacketSizes, AllAgree, endpoint_mps_map, endpoint_mps_map-Mem}
use esp32_usb_ip.Esp32.Table.{==_false→ne}
use esp32_usb_ip.Esp32.Submit.{Urb, is_control, align_bulk, align_other, num_bytes}

-- `mps` is what the table of packet sizes has for the endpoint.
abbrev pub aligned : Option ℕ → ℕ → ℕ
aligned none n = n
aligned (some mps) n =
    if ltb 0 mps && not (n % mps == 0) then (n + mps - 1) % size_mod / mps * mps % size_mod else n

-- What `alloc_transfer_handle` asks for; `header_ep` is the endpoint number of the command.
unfoldable pub actual_buffer_length : Bool → Bool → PacketSizes → ℕ → ℕ → ℕ
actual_buffer_length control into sizes header_ep buffer_length =
    if control
    then (8 + buffer_length) % size_mod
    else if into && ltb 0 buffer_length
    then aligned (lookup (bit_or header_ep 128 % 2 ^ 8) sizes) buffer_length
    else buffer_length

module _ (n mps : ℕ) (pos : 0 < mps) (rest : n % mps ≢ 0) where
  rounded_up : (n + mps - 1) / mps ≡ n / mps + 1
  rounded_up =
      let whole = div-add-mod n mps in
      let below = mod-lt n pos in
      div-eq_of_lt-le mps (grind (arith, whole)) (grind (arith, whole, below))

  -- The next multiple of `mps` behind `n`.
  rounded-between : (n < (n / mps + 1) * mps) × ((n / mps + 1) * mps < n + mps)
  rounded-between =
      let whole = div-add-mod n mps in
      let below = mod-lt n pos in (grind (arith, whole, below), grind (arith, whole, below))

  module _ (fits : n + mps < 2 ^ 32) where
    in_32_bits : (n / mps + 1) * mps % 2 ^ 32 ≡ (n / mps + 1) * mps
    in_32_bits = let (above, below) = rounded-between in omega (arith, below)

    align_bulk_lem : align_bulk mps n ≡ (n / mps + 1) * mps
    align_bulk_lem =
        let small : (n + mps - 1) % 2 ^ 32 ≡ n + mps - 1 = omega arith in
        ap (λ k. k / mps * mps % 2 ^ 32) small ∙ ap (λ k. k * mps % 2 ^ 32) rounded_up ∙ in_32_bits

    align_other_lem : align_other mps n ≡ (n / mps + 1) * mps
    align_other_lem = in_32_bits

-- The bytes asked for: the smallest multiple of the packet size that holds what the client wants,
-- and no more than the buffer.
unfoldable pub Fits : Urb → ℕ → ℕ → Type 0
Fits u buffer total =
    (u.transfer_buffer_length ≤ total)
    × (total < u.transfer_buffer_length + u.ep.max_packet_size)
    × (total % u.ep.max_packet_size ≡ 0)
    × (total ≤ buffer)

-- The buffer of a transfer IN, once the packet size was found.
unfoldable in_buffer : Urb → ℕ
in_buffer u =
    let n = u.transfer_buffer_length in if ltb 0 n then aligned (some u.ep.max_packet_size) n else n

module _ (u : Urb) (pos : 0 < u.ep.max_packet_size)
    (fits : u.transfer_buffer_length + u.ep.max_packet_size < 2 ^ 32) where
  exact-Fits :
      (u.transfer_buffer_length % u.ep.max_packet_size == 0) ≡ true
      → Fits u (in_buffer u) u.transfer_buffer_length
  unfolding Fits in_buffer
  exact-Fits whole =
      let mps = u.ep.max_packet_size in
      let n = u.transfer_buffer_length in
      let buffer : in_buffer u ≡ n =
        if_lem (λ k. k ≡ n) (ltb 0 n) (λ e. rw (lt→ltb 0 mps pos, whole) refl) (λ e. refl) in
      (omega arith, omega arith, (==_iff (n % mps) 0).0 whole, omega (arith, buffer))

  rounded-Fits :
      (u.transfer_buffer_length % u.ep.max_packet_size == 0) ≡ false
      → Fits u
          (in_buffer u)
          ((u.transfer_buffer_length / u.ep.max_packet_size + 1) * u.ep.max_packet_size)
  unfolding Fits in_buffer
  rounded-Fits broken =
      let mps = u.ep.max_packet_size in
      let n = u.transfer_buffer_length in
      let rest : n % mps ≢ 0 = ==_false→ne (n % mps) 0 broken in
      let (above, below) = rounded-between n mps pos rest in
      let some_bytes : 0 < n = omega (arith, rest, mod-le n mps) in
      let buffer : in_buffer u ≡ (n / mps + 1) * mps =
        rw (lt→ltb 0 n some_bytes, lt→ltb 0 mps pos, broken) (align_bulk_lem n mps pos rest fits) in
      (omega (arith, above), below, mul-mod_left (n / mps + 1) mps, omega (arith, buffer))

  in_buffer-Fits : is_control u ≡ false → is_in u.ep ≡ true → Fits u (in_buffer u) (num_bytes u)
  unfolding num_bytes
  in_buffer-Fits plain into =
      let mps = u.ep.max_packet_size in
      let n = u.transfer_buffer_length in
      let P = Fits u (in_buffer u) in
      rw (plain, into, lt→ltb 0 mps pos)
        (if_lem P (n % mps == 0) (λ whole. exact-Fits whole)
          (λ broken.
            let rest : n % mps ≢ 0 = ==_false→ne (n % mps) 0 broken in
            if_lem P (u.ep.attributes == 2)
              (λ e. rw (align_bulk_lem n mps pos rest fits) (rounded-Fits broken))
              (λ e. rw (align_other_lem n mps pos rest fits) (rounded-Fits broken))))

find_ep-Found_inside :
    (d : UsbDevice) (ep : ℕ) (e : Endpoint) (i : Interface)
    → find_ep d ep ≡ some (e, some i)
    → Found d ep (some (e, some i))
find_ep-Found_inside d ep e i found = rw (← found) (find_ep-Found d ep)

-- The receiver's lookup gives an endpoint at the address that the table is asked for.
found_size :
    (d : UsbDevice) (header_ep : ℕ) (e : Endpoint) (i : Interface)
    → header_ep < 2 ^ 8
    → find_ep d (bit_or (header_ep % 2 ^ 8) 128) ≡ some (e, some i)
    → d.ep0_in.address ≡ 0x80
    → AllAgree e.address e.max_packet_size d.interfaces
    → lookup (bit_or header_ep 128 % 2 ^ 8) (endpoint_mps_map d) ≡ some e.max_packet_size
unfolding Found
found_size d header_ep e i small found at_80 agree =
    let (not_in, not_out, at, inside, later) =
      find_ep-Found_inside d (bit_or (header_ep % 2 ^ 8) 128) e i found in
    let byte : header_ep % 2 ^ 8 ≡ header_ep = omega arith in
    let high = set_top_bit header_ep small in
    let at' : e.address ≡ bit_or header_ep 128 = at ∙ ap (λ x. bit_or x 128) byte in
    let here : bit_or header_ep 128 % 2 ^ 8 ≡ e.address = omega (arith, high, at') in
    rw here (
      endpoint_mps_map-Mem e.address e.max_packet_size d e i inside later refl agree
        (λ h. not_in (at_80 ∙ h ∙ at)) (omega (arith, high, at')))

-- A command that is not a control transfer reads from an endpoint that `find_ep` found in an
-- interface: its transfer asks for the smallest multiple of the packet size that holds what the
-- client wants, and this is no more than the buffer that `alloc_transfer_handle` made for it. That
-- is so if every endpoint of the device at this address has the same packet size, which is not 0
-- (the table keeps the size of the last one, `find_ep` gives the first), if endpoint 0 has the
-- address 0x80, if the endpoint number fits into a byte, and if the length and a packet together do
-- not overflow 32 bits.
pub num_bytes-Fits :
    (d : UsbDevice) (header_ep : ℕ) (u : Urb) (i : Interface)
    → header_ep < 2 ^ 8
    → find_ep d (bit_or (header_ep % 2 ^ 8) 128) ≡ some (u.ep, some i)
    → d.ep0_in.address ≡ 0x80
    → AllAgree u.ep.address u.ep.max_packet_size d.interfaces
    → is_control u ≡ false
    → is_in u.ep ≡ true
    → 0 < u.ep.max_packet_size
    → u.transfer_buffer_length + u.ep.max_packet_size < 2 ^ 32
    → Fits u
        (actual_buffer_length false true (endpoint_mps_map d) header_ep u.transfer_buffer_length)
        (num_bytes u)
unfolding actual_buffer_length in_buffer
num_bytes-Fits d header_ep u i small found at_80 agree plain into pos fits =
    rw (found_size d header_ep u.ep i small found at_80 agree)
      (in_buffer-Fits u pos fits plain into)
