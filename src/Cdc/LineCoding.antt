-- ===== src/Cdc/LineCoding.antt =====
-- SET_LINE_CODING and GET_LINE_CODING of components/usbipdcpp/usbipdcpp/src/virtual_device/
-- CdcAcmVirtualInterfaceHandler.cpp.
use esp32_usb_ip.Prelude.{
  ℕ, ◌%◌, ◌^◌, ◌≡◌, refl, inl, inr, Bool, Bool-cases, true, false, min, ltb, ltb_false→le, leb,
  leb→le, if◌then◌else◌, some, List, [], ◌∷◌, length, length-take, take, take-long,
}
use esp32_usb_ip.Prelude.Bytes.{AreBytes}
use esp32_usb_ip.SetupPacket.{SetupPacket, calc_request_type, is_out, class_request}
use esp32_usb_ip.Protocol.{urb_status}
use esp32_usb_ip.Protocol.Transfer.{GenericTransfer}
use esp32_usb_ip.Protocol.Response.{create_ret_submit_with_status_and_no_iso}
use esp32_usb_ip.Cdc.Coding.{to_bytes, from_bytes, to_bytes-from_bytes}
use esp32_usb_ip.Cdc.Comm.{
  CdcAcmCommunicationInterfaceHandler, set_line_coding, get_line_coding, class_out, class_in,
  handle_non_standard_request_type_control_urb,
}

-- The seven bytes that a host finds for the bytes that it set: the first seven of them, and
-- 115200 baud, eight data bits, no parity and one stop bit when they are fewer.
unfoldable pub coding_of : List ℕ → List ℕ
coding_of bytes =
    if leb 7 (length bytes)
    then take 7 bytes
    else 0x00 ∷ 0xC2 ∷ 0x01 ∷ 0x00 ∷ 0x00 ∷ 0x00 ∷ 0x08 ∷ []

short_bytes :
    (bytes : List ℕ)
    → leb 7 (length bytes) ≡ false
    → to_bytes (from_bytes bytes) ≡ 0x00 ∷ 0xC2 ∷ 0x01 ∷ 0x00 ∷ 0x00 ∷ 0x00 ∷ 0x08 ∷ []
unfolding to_bytes from_bytes
short_bytes bytes short = rw short refl

to_bytes-coding_of :
    (bytes : List ℕ) → AreBytes bytes → to_bytes (from_bytes bytes) ≡ coding_of bytes
unfolding coding_of
to_bytes-coding_of bytes all = elim (Bool-cases (leb 7 (length bytes))) [
  | inl long ↦ rw long (to_bytes-from_bytes bytes all (leb→le 7 (length bytes) long))
  | inr short ↦ rw short (short_bytes bytes short)
]

-- A request of the class, by its direction and its code.
unfoldable pub IsClassRequest : SetupPacket → Bool → ℕ → Type 0
IsClassRequest setup out code =
    (calc_request_type setup ≡ class_request) × (is_out setup ≡ out) × (setup.request ≡ code)

class_in-get :
    (setup : SetupPacket) (trx : GenericTransfer) (h : CdcAcmCommunicationInterfaceHandler)
    → setup.request ≡ get_line_coding
    → class_in setup trx h ≡ (
      urb_status 0,
      record trx {
        bytes = take setup.length (to_bytes h.line_coding);
        actual_length = length (take setup.length (to_bytes h.line_coding));
      },
    )
unfolding class_in
class_in-get setup trx h is_get =
    elim (Bool-cases (ltb setup.length (length (to_bytes h.line_coding)))) [
      | inl short ↦ rw (is_get, short) refl
      | inr long ↦
          let le = ltb_false→le setup.length (length (to_bytes h.line_coding)) long in
          rw (is_get, long, take-long setup.length (to_bytes h.line_coding) le) refl
    ]

changed :
    (m : ℕ) (setup : SetupPacket) (trx : GenericTransfer) (h : CdcAcmCommunicationInterfaceHandler)
    → IsClassRequest setup true set_line_coding
    → (handle_non_standard_request_type_control_urb m setup trx h).2.line_coding
      ≡ from_bytes trx.bytes
unfolding IsClassRequest handle_non_standard_request_type_control_urb class_out
changed m setup trx h set = rw (set.0, set.1, set.2) refl

-- After a SET_LINE_CODING with any bytes, of the right number or not, a GET_LINE_CODING is answered
-- with status 0 and with those bytes cut to the length that it asks for, or with the bytes of the
-- default if fewer than seven were set.
pub get_line_coding-set_line_coding :
    (m n : ℕ) (set_setup get_setup : SetupPacket) (trx reply : GenericTransfer)
    (h : CdcAcmCommunicationInterfaceHandler)
    → AreBytes trx.bytes
    → IsClassRequest set_setup true set_line_coding
    → IsClassRequest get_setup false get_line_coding
    → (handle_non_standard_request_type_control_urb n get_setup reply
        (handle_non_standard_request_type_control_urb m set_setup trx h).2).0
      ≡ create_ret_submit_with_status_and_no_iso n
          (urb_status 0)
          (min get_setup.length (length (coding_of trx.bytes)) % 2 ^ 32)
          (some (record reply {
            bytes = take get_setup.length (coding_of trx.bytes);
            actual_length = min get_setup.length (length (coding_of trx.bytes));
          }))
unfolding IsClassRequest handle_non_standard_request_type_control_urb
get_line_coding-set_line_coding m n set_setup get_setup trx reply h all set get =
    let after = (handle_non_standard_request_type_control_urb m set_setup trx h).2 in
    let coding : after.line_coding ≡ from_bytes trx.bytes = changed m set_setup trx h set in
    rw (get.0, get.1, class_in-get get_setup reply after get.2, coding)
      (rw (to_bytes-coding_of trx.bytes all, length-take get_setup.length (coding_of trx.bytes))
        refl)
