-- ===== src/Protocol/Layout.antt =====
-- How a chain of readers takes a message apart field by field: shared by the round trips.
use esp32_usb_ip.Prelude.{
  ℕ, ◌^◌, ◌<◌, ◌≡◌, refl, sym, ap, ◌∙◌, Bool, List, [], ◌∷◌, ◌++◌, append_assoc, arith,
}
use esp32_usb_ip.Prelude.Bytes.{All}
use esp32_usb_ip.Wire.{Field, int, arr}
use esp32_usb_ip.Wire.Endian.{be_bytes}
use esp32_usb_ip.Wire.Pack.{concat_fields, wire_bytes}
use esp32_usb_ip.Stream.{
  Asio, Io, ◌>>=◌, >>=-done, >>=-cong, return, read_unsigned,
  unsigned_integral_and_array_read_from_socket,
}
use esp32_usb_ip.SetupPacket
use esp32_usb_ip.Protocol.{usbip_cmd_submit}
use esp32_usb_ip.Protocol.Transfer.{Handler}
use esp32_usb_ip.Stream.Reads.{
  Reads, Reads->>=, read_unsigned-be_bytes, read_block-concat_fields, Fits,
}
use esp32_usb_ip.Protocol.Command.{
  Result, got, catch_system, CmdSubmit, submit, submit_of_fields, receive_body, submit_from_socket,
  dispatch_cmd, get_cmd_from_socket,
}

pub concat_fields-int :
    (w v : ℕ) (fs : List Field) (rest : List ℕ)
    → concat_fields (int w v ∷ fs) ++ rest ≡ be_bytes w v ++ (concat_fields fs ++ rest)
unfolding concat_fields wire_bytes
concat_fields-int w v fs rest = append_assoc (be_bytes w v) (concat_fields fs) rest

pub concat_fields-append :
    (fs gs : List Field) → concat_fields (fs ++ gs) ≡ concat_fields fs ++ concat_fields gs
unfolding concat_fields
concat_fields-append [] gs = refl
concat_fields-append (f ∷ fs) gs =
    ap (λ t. wire_bytes f ++ t) (concat_fields-append fs gs)
    ∙ sym (append_assoc (wire_bytes f) (concat_fields fs) (concat_fields gs))

module _ {S : Type 0} (net : Asio S) (little : Bool) where
  -- An integer at the front of the fields is read first, and its value goes on to `f`.
  pub Reads-int :
      {B : Type 0} (w v : ℕ) (fs : List Field) (f : ℕ → Io S B) (s : S) (b : B) (rest tail : List ℕ)
      → v < 256 ^ w
      → net.pending s ≡ concat_fields (int w v ∷ fs) ++ rest
      → ((s' : S) → net.pending s' ≡ concat_fields fs ++ rest → Reads net (f v) s' b tail)
      → Reads net (read_unsigned net little w >>= f) s b tail
  Reads-int w v fs f s b rest tail fits e k =
      Reads->>= net (read_unsigned net little w) f s v b (concat_fields fs ++ rest) tail
        (read_unsigned-be_bytes net little w v (concat_fields fs ++ rest) s fits
          (e ∙ concat_fields-int w v fs rest))
        k

-- The handler of `system_error` does not touch a result.
pub Reads-catch_system :
    {S : Type 0} (net : Asio S) {A : Type 0} (m : Io S (Result A)) (s : S) (r : Result A)
    (rest : List ℕ)
    → Reads net m s r rest
    → Reads net (catch_system m) s r rest
Reads-catch_system net m s r rest (s', ran, left) = (s', rw (ran, catch_system), left)

-- The fields of a submit command behind its command code.
abbrev pub tail_fields : {T : Type 0} → CmdSubmit T → List Field
tail_fields c =
    int 4 c.header.seqnum
    ∷ int 4 c.header.devid
    ∷ int 4 c.header.direction
    ∷ int 4 c.header.ep
    ∷ int 4 c.transfer_flags
    ∷ int 4 c.transfer_buffer_length
    ∷ int 4 c.start_frame
    ∷ int 4 c.number_of_packets
    ∷ int 4 c.interval
    ∷ arr (SetupPacket.to_bytes c.setup)
    ∷ []

pub catch_system-cong :
    {S A : Type 0} (m m' : Io S (Result A)) (s s' : S)
    → m s ≡ m' s'
    → catch_system m s ≡ catch_system m' s'
catch_system-cong m m' s s' h = rw (h, catch_system)

-- Whatever is made of the fixed part of a submit command, it is read first and whole.
pub get_cmd-fixed_part :
    {S T : Type 0} (net : Asio S) (little : Bool) (handler : Handler S T) (max_size : ℕ)
    (c : CmdSubmit T) (rest : List ℕ) (s : S)
    → All Fits (tail_fields c)
    → net.pending s ≡ concat_fields (int 4 usbip_cmd_submit ∷ tail_fields c) ++ rest
    → (s' : S) × (net.pending s' ≡ rest)
      × (get_cmd_from_socket net little handler max_size s
          ≡ catch_system
              (receive_body net little handler max_size (submit_of_fields (tail_fields c)) >>= λ c'.
                return (got (submit c')))
              s')
unfolding get_cmd_from_socket dispatch_cmd submit_from_socket SetupPacket.to_bytes
get_cmd-fixed_part net little handler max_size c rest s fits e =
    let (s1, ran1, left1) =
      read_unsigned-be_bytes net little 4 usbip_cmd_submit _ s (omega arith)
        (e ∙ concat_fields-int 4 usbip_cmd_submit (tail_fields c) rest) in
    let (s2, ran2, left2) =
      read_block-concat_fields net little (tail_fields c) [] rest s1 fits left1 in
    (
      s2,
      left2,
      catch_system-cong (read_unsigned net little 4 >>= dispatch_cmd net little handler max_size)
          (receive_body net little handler max_size (submit_of_fields (tail_fields c)) >>= λ c'.
            return (got (submit c')))
          s s2
          (>>=-done (read_unsigned net little 4) (dispatch_cmd net little handler max_size) s ran1
            ∙ >>=-cong (submit_from_socket net little handler max_size)
                (receive_body net little handler max_size (submit_of_fields (tail_fields c)))
                (λ c'. return (got (submit c'))) s1 s2
                (>>=-done (unsigned_integral_and_array_read_from_socket net little 0 _)
                  (λ f. receive_body net little handler max_size (submit_of_fields f)) s1 ran2)),
    )
