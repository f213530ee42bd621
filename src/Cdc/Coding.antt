-- ===== src/Cdc/Coding.antt =====
-- The data of the control interface of a virtual serial port, and the bytes that carry them:
-- components/usbipdcpp/usbipdcpp/include/virtual_device/CdcAcmVirtualInterfaceHandler.h.
use esp32_usb_ip.Prelude.{
  ℕ, ◌+◌, ◌*◌, ◌/◌, ◌%◌, ◌^◌, ◌≤◌, ◌<◌, ◌≡◌, refl, ◌∙◌, bit_and, bit_or, Bool, not, leb, ◌==◌,
  if◌then◌else◌, le→leb, List, [], ◌∷◌, length, get_or, take, arith,
}
use esp32_usb_ip.Prelude.Bits.{low_byte, join_four}
use esp32_usb_ip.Prelude.Bytes.{AreBytes}

pub record LineCoding : Type 0 where
  pub dte_rate : ℕ
  pub char_format : ℕ
  pub parity_type : ℕ
  pub data_bits : ℕ

abbrev pub default_coding : LineCoding
default_coding = record { dte_rate = 115200; char_format = 0; parity_type = 0; data_bits = 8 }

unfoldable pub to_bytes : LineCoding → List ℕ
to_bytes c =
    bit_and c.dte_rate 0xFF
    ∷ bit_and (c.dte_rate / 2 ^ 8) 0xFF
    ∷ bit_and (c.dte_rate / 2 ^ 16) 0xFF
    ∷ bit_and (c.dte_rate / 2 ^ 24) 0xFF
    ∷ c.char_format
    ∷ c.parity_type
    ∷ c.data_bits
    ∷ []

-- Fewer than seven bytes give the default.
unfoldable pub from_bytes : List ℕ → LineCoding
from_bytes bytes =
    if leb 7 (length bytes)
    then record {
      dte_rate =
          bit_or (bit_or (bit_or (at 0) (at 1 * 2 ^ 8)) (at 2 * 2 ^ 16)) (at 3 * 2 ^ 24) % 2 ^ 32;
      char_format = at 4;
      parity_type = at 5;
      data_bits = at 6;
    }
    else default_coding
  where
    at : ℕ → ℕ
    at i = get_or bytes i 0

pub record ControlSignalState : Type 0 where
  pub dtr : Bool
  pub rts : Bool

unfoldable pub from_uint16 : ℕ → ControlSignalState
from_uint16 value = record { dtr = not (bit_and value 1 == 0); rts = not (bit_and value 2 == 0) }

unfoldable pub to_uint16 : ControlSignalState → ℕ
to_uint16 s = let low = if s.dtr then bit_or 0 1 else 0 in if s.rts then bit_or low 2 else low

pub record SerialStateNotification : Type 0 where
  pub request_type : ℕ
  pub notification : ℕ
  pub value : ℕ
  pub index : ℕ
  pub length : ℕ
  pub state_bits : ℕ

-- The initial values of the fields, and the state bits.
unfoldable pub serial_state : ℕ → SerialStateNotification
serial_state bits = record {
  request_type = 0xA1;
  notification = 0x20;
  value = 0;
  index = 0;
  length = 2;
  state_bits = bits;
}

unfoldable pub notification_to_bytes : SerialStateNotification → List ℕ
notification_to_bytes n =
    n.request_type
    ∷ n.notification
    ∷ bit_and n.value 0xFF
    ∷ bit_and (n.value / 2 ^ 8) 0xFF
    ∷ bit_and n.index 0xFF
    ∷ bit_and (n.index / 2 ^ 8) 0xFF
    ∷ bit_and n.length 0xFF
    ∷ bit_and (n.length / 2 ^ 8) 0xFF
    ∷ bit_and n.state_bits 0xFF
    ∷ bit_and (n.state_bits / 2 ^ 8) 0xFF
    ∷ []

rate_bytes :
    (a b c d : ℕ)
    → a < 256
    → b < 256
    → c < 256
    → d < 256
    → (bit_and (a + b * 2 ^ 8 + c * 2 ^ 16 + d * 2 ^ 24) 0xFF ≡ a)
      × (bit_and ((a + b * 2 ^ 8 + c * 2 ^ 16 + d * 2 ^ 24) / 2 ^ 8) 0xFF ≡ b)
      × (bit_and ((a + b * 2 ^ 8 + c * 2 ^ 16 + d * 2 ^ 24) / 2 ^ 16) 0xFF ≡ c)
      × (bit_and ((a + b * 2 ^ 8 + c * 2 ^ 16 + d * 2 ^ 24) / 2 ^ 24) 0xFF ≡ d)
rate_bytes a b c d ha hb hc hd = (
  low_byte _ ∙ omega arith,
  low_byte _ ∙ omega arith,
  low_byte _ ∙ omega arith,
  low_byte _ ∙ omega arith,
)

-- What is taken from at least seven bytes gives the first seven again.
pub to_bytes-from_bytes :
    (bytes : List ℕ)
    → AreBytes bytes
    → 7 ≤ length bytes
    → to_bytes (from_bytes bytes) ≡ take 7 bytes
unfolding to_bytes from_bytes
to_bytes-from_bytes [] all long = absurd (omega arith)
to_bytes-from_bytes (a ∷ []) all long = absurd (omega arith)
to_bytes-from_bytes (a ∷ b ∷ []) all long = absurd (omega arith)
to_bytes-from_bytes (a ∷ b ∷ c ∷ []) all long = absurd (omega arith)
to_bytes-from_bytes (a ∷ b ∷ c ∷ d ∷ []) all long = absurd (omega arith)
to_bytes-from_bytes (a ∷ b ∷ c ∷ d ∷ e ∷ []) all long = absurd (omega arith)
to_bytes-from_bytes (a ∷ b ∷ c ∷ d ∷ e ∷ f ∷ []) all long = absurd (omega arith)
to_bytes-from_bytes (a ∷ b ∷ c ∷ d ∷ e ∷ f ∷ g ∷ rest) (ha, (hb, (hc, (hd, hs)))) long =
    let value = join_four a b c d ha hb hc in
    let whole : (a + b * 2 ^ 8 + c * 2 ^ 16 + d * 2 ^ 24) % 2 ^ 32
        ≡ a + b * 2 ^ 8 + c * 2 ^ 16 + d * 2 ^ 24 =
      omega arith in
    let (at0, at1, at2, at3) = rate_bytes a b c d ha hb hc hd in
    rw (le→leb 7 _ long, value, whole, at0, at1, at2, at3) refl
