-- ===== src/Device/Layout.antt =====
-- The bytes of a device in components/usbipdcpp/usbipdcpp/src/Device.cpp and src/Interface.cpp, and
-- the version number of include/Version.h.
use esp32_usb_ip.Prelude.{
  ℕ, zero, suc, ◌+◌, ◌-◌, ◌*◌, ◌/◌, ◌%◌, ◌^◌, ◌<◌, min, bit_or, ◌≡◌, ap, ap₂, ◌∙◌, arith, Bool,
  List, [], ◌∷◌, ◌++◌, length, length-append, length-replicate, length-take, take, take-trim, drop,
  replicate,
}
use esp32_usb_ip.Prelude.Bits.{low_nibble, join_bytes, join_nibbles}
use esp32_usb_ip.Wire.{arr, calculate_total_size_with_array, field_size}
use esp32_usb_ip.Wire.Pack.{
  memcpy-append, length-concat_fields, to_network_array_lem, to_network_data_lem,
}
use esp32_usb_ip.Device.{
  version_of_bcd, bcd_of_version, Interface, interface_to_bytes, UsbDevice, string_buffer,
  device_fields, to_bytes_without_interfaces, device_to_bytes, append_interfaces,
  to_bytes_with_interfaces,
}

drop-replicate : (m n : ℕ) → drop {A = ℕ} m (replicate n 0) ≡ replicate (n - m) 0
drop-replicate zero n = let same : n ≡ n - 0 = omega arith in ap (λ k. replicate k 0) same
drop-replicate (suc m) zero =
    let none_left : 0 ≡ 0 - suc m = omega arith in ap (λ k. replicate k 0) none_left
drop-replicate (suc m) (suc n) =
    let same : n - m ≡ suc n - suc m = omega arith in
    drop-replicate m n ∙ ap (λ k. replicate k 0) same

-- A string is cut to what leaves room for a last 0, and filled up with zeros.
string_buffer_lem :
    (n : ℕ) (s : List ℕ)
    → 0 < n
    → string_buffer n s ≡ take (n - 1) s ++ replicate (n - min (length s) (n - 1)) 0
unfolding string_buffer
string_buffer_lem n s some_room =
    let bytes = take (min (length s) (n - 1)) s in
    let long : length bytes ≡ min (length s) (n - 1) =
      omega (arith, length-take (min (length s) (n - 1)) s) in
    let zero_byte : ℕ = 0 in
    memcpy-append bytes [] (replicate n 0) (omega (arith, length-replicate n zero_byte))
    ∙ ap₂ (λ xs ys. xs ++ ys) (take-trim s (min (length s) (n - 1)) (n - 1) (ground arith))
        (ap (λ k. drop k (replicate n 0)) long ∙ drop-replicate (min (length s) (n - 1)) n)

pub length-string_buffer : (n : ℕ) (s : List ℕ) → 0 < n → length (string_buffer n s) ≡ n
length-string_buffer n s some_room =
    let zero_byte : ℕ = 0 in
    ap length (string_buffer_lem n s some_room)
    ∙ omega (
      arith,
      length-append (take (n - 1) s) (replicate (n - min (length s) (n - 1)) 0),
      length-take (n - 1) s,
      length-replicate (n - min (length s) (n - 1)) zero_byte,
    )

pub length-device_to_bytes :
    (little : Bool) (d : UsbDevice) → length (device_to_bytes little d) ≡ 312
unfolding device_to_bytes to_bytes_without_interfaces calculate_total_size_with_array field_size
length-device_to_bytes little d =
    ap length (to_network_array_lem little (device_fields d))
    ∙ length-concat_fields (device_fields d)
    ∙ omega (
      arith,
      length-string_buffer 256 d.path (omega arith),
      length-string_buffer 32 d.busid (omega arith),
    )

length-append_interfaces :
    (result : List ℕ) (is : List Interface)
    → length (append_interfaces result is) ≡ length result + 4 * length is
unfolding append_interfaces interface_to_bytes
length-append_interfaces result [] = omega arith
length-append_interfaces result (i ∷ is) = omega (
  arith,
  length-append_interfaces (result ++ interface_to_bytes i) is,
  length-append result (interface_to_bytes i),
)

-- A device takes 312 bytes, and in a device list 4 more for each of its interfaces, however long
-- its strings are.
length-to_bytes_with_interfaces :
    (little : Bool) (d : UsbDevice)
    → (length (device_to_bytes little d) ≡ 312)
      × (length (to_bytes_with_interfaces little d) ≡ 312 + 4 * length d.interfaces)
unfolding to_bytes_with_interfaces device_to_bytes calculate_total_size_with_array field_size
length-to_bytes_with_interfaces little d =
    let alone = length-device_to_bytes little d in
    (
      alone,
      length-append_interfaces _ d.interfaces
          ∙ omega (
            arith,
            ap length
                (to_network_data_lem little (arr (to_bytes_without_interfaces little d) ∷ [])),
            length-concat_fields (arr (to_bytes_without_interfaces little d) ∷ []),
          ),
    )

-- A 16-bit version number is the same after it was taken apart into its three parts.
bcd_of_version-version_of_bcd : (bcd : ℕ) → bcd < 2 ^ 16 → bcd_of_version (version_of_bcd bcd) ≡ bcd
unfolding bcd_of_version version_of_bcd
bcd_of_version-version_of_bcd bcd fits =
    let low : bcd % 16 < 16 = omega arith in
    let high : bcd / 256 % 2 ^ 8 * 2 ^ 8 % 2 ^ 16 ≡ bcd / 256 * 256 = omega arith in
    let middle : bcd / 16 % 16 * 2 ^ 4 % 2 ^ 16 ≡ bcd / 16 % 16 * 16 = omega arith in
    let last : bcd % 16 % 2 ^ 16 ≡ bcd % 16 = omega arith in
    let joined : bcd / 256 * 256 + bcd / 16 % 16 * 16 ≡ bcd / 16 * 16 = omega arith in
    rw (low_nibble (bcd / 16), low_nibble bcd, high, middle, last)
      (ap (λ x. bit_or x (bcd % 16))
          (join_bytes (bcd / 256) (bcd / 16 % 16 * 16) (omega arith) ∙ joined)
        ∙ join_nibbles (bcd / 16) (bcd % 16) low
        ∙ omega arith)
