-- ===== src/Protocol/SubmitRoundTrip.antt =====
-- `get_cmd_from_socket` reads a USBIP_CMD_SUBMIT with OUT data, isochronous packets included, back
-- from its bytes, through the default transfers of `AbstDeviceHandler`.
use esp32_usb_ip.Prelude.{
  ℕ, ◌≤◌, ◌≡◌, ◌≢◌, refl, sym, ap, ap₂, ◌∙◌, arith, Bool, true, false, le→ltb_false, ne→==_false,
  if◌then◌else◌, none, some, List, [], ◌∷◌, ◌++◌, append_assoc, append-nil, length,
  length-replicate, take, take-append, replicate,
}
use esp32_usb_ip.Prelude.Bytes.{IsU32, All}
use esp32_usb_ip.Prelude.Int.{ℤ, pos}
use mathlib.Core.Path.{subst}
use esp32_usb_ip.Wire.{Field, int, arr, memcpy, to_network_data, to_network_array}
use esp32_usb_ip.Wire.Pack.{
  concat_fields, wire_bytes, to_network_array_lem, to_network_data_lem, memcpy-append,
  drop-nil_of_length,
}
use esp32_usb_ip.Stream.{
  Asio, Io, done, ◌>>=◌, return, read_unsigned, int_at, arr_at,
  unsigned_integral_and_array_read_from_socket,
}
use esp32_usb_ip.Stream.Reads.{
  Reads, Reads-map, Reads->>=, read-append, read_block-concat_fields, Fits,
}
use esp32_usb_ip.SetupPacket
use esp32_usb_ip.SetupPacket.Codec
use esp32_usb_ip.SetupPacket.Codec.{parse-to_bytes}
use esp32_usb_ip.Protocol.{
  header_fields, header_to_bytes, IsoDescriptor, iso_zero, direction_in, usbip_cmd_submit,
}
use esp32_usb_ip.Protocol.Transfer.{
  Handler, GenericTransfer, generic_handler, generic_alloc, max_iso,
}
use esp32_usb_ip.Protocol.Command.{
  CmdSubmit, submit, got, submit_fields, submit_to_bytes, append_transfer, append_iso, buffer_bytes,
  num_iso, rounds, is_iso, submit_of_fields, receive_data, receive_iso, receive_transfer,
  receive_body, submit_from_socket, dispatch_cmd, get_cmd_from_socket,
}
use esp32_usb_ip.Protocol.Layout.{Reads-int, Reads-catch_system, concat_fields-append, tail_fields}
use esp32_usb_ip.Protocol.IsoRows.{
  Travels, iso_row, with_isos, append_iso-row, receive_iso-row, concat_fields_arr,
}

take_all : (xs : List ℕ) (n : ℕ) → length xs ≡ n → take n xs ≡ xs
take_all xs n h = ap (take n) (sym (append-nil xs)) ∙ take-append xs [] n h

-- Copying a whole buffer over another of its size.
memcpy_all : (bs mid : List ℕ) → length bs ≡ length mid → memcpy mid 0 bs ≡ bs
memcpy_all bs mid h =
    memcpy-append bs [] mid (omega arith) ∙ rw (drop-nil_of_length _ mid (sym h), append-nil)

nil_of_length {ℓ} : {A : Type ℓ} (xs : List A) → length xs ≡ 0 → xs ≡ []
nil_of_length [] h = refl
nil_of_length (x ∷ xs) h = absurd (omega arith)

-- A submit command that the default transfers can carry: every field in the range of its type, OUT
-- data of the announced length within the limit, and a fresh transfer `t` with as many descriptors
-- as the packet count says.
pub record IsSendable (max_size : ℕ) (c : CmdSubmit GenericTransfer) (t : GenericTransfer)
    : Type 0 where
  pub command_is : c.header.command ≡ usbip_cmd_submit
  pub seqnum_in : IsU32 c.header.seqnum
  pub devid_in : IsU32 c.header.devid
  pub direction_in_range : IsU32 c.header.direction
  pub ep_in : IsU32 c.header.ep
  pub is_out : c.header.direction ≢ direction_in
  pub flags_in : IsU32 c.transfer_flags
  pub length_in : IsU32 c.transfer_buffer_length
  pub start_in : IsU32 c.start_frame
  pub packets_in : IsU32 c.number_of_packets
  pub interval_in : IsU32 c.interval
  pub setup_valid : SetupPacket.Codec.IsValid c.setup
  pub holds : c.transfer ≡ some t
  pub within : c.transfer_buffer_length ≤ max_size
  pub data_size : length t.bytes ≡ c.transfer_buffer_length
  pub iso_size : num_iso c.number_of_packets ≡ pos (length t.iso_descriptors)
  pub iso_small : length t.iso_descriptors ≤ max_iso
  pub iso_travel : All Travels t.iso_descriptors
  pub not_run : t.actual_length ≡ 0
  pub no_offset : t.data_offset ≡ 0

-- What the fixed part is read as: the command without its transfer.
abbrev without_transfer : CmdSubmit GenericTransfer → CmdSubmit GenericTransfer
without_transfer c = record c { transfer = none }

module _ {S : Type 0} (net : Asio S) (little : Bool) (max_size : ℕ) where
  abbrev handler : Handler S GenericTransfer
  handler = generic_handler net

  module _ {c : CmdSubmit GenericTransfer} {t : GenericTransfer}
      (ok : IsSendable max_size c t) where
    rebuilt : submit_of_fields (tail_fields c) ≡ without_transfer c
    unfolding int_at arr_at
    rebuilt = cc (parse-to_bytes c.setup ok.setup_valid, ok.command_is)

    tail-Fits : All Fits (tail_fields c)
    tail-Fits = omega arith

    -- The wire form of the command: the code, the other fields, the data and the descriptors.
    submit_to_bytes-layout :
        submit_to_bytes little handler c
        ≡ concat_fields (int 4 usbip_cmd_submit ∷ tail_fields c)
          ++ (t.bytes ++ iso_row t.iso_descriptors)
    unfolding submit_to_bytes append_transfer concat_fields wire_bytes header_to_bytes
        generic_handler
    submit_to_bytes-layout =
        ap (append_transfer little handler c fixed) ok.holds
        ∙ ap
            (λ n.
              append_iso little handler t 0 (rounds n)
                (fixed ++ buffer_bytes t.bytes 0 c.transfer_buffer_length))
            ok.iso_size
        ∙ append_iso-row net little t.iso_descriptors [] t _
        ∙ ap (λ out. out ++ iso_row t.iso_descriptors)
            (ap₂ ◌++◌ fixed-eq (take_all t.bytes _ ok.data_size))
        ∙ append_assoc (concat_fields (int 4 usbip_cmd_submit ∷ tail_fields c)) t.bytes
            (iso_row t.iso_descriptors)
      where
        fixed : List ℕ
        fixed = to_network_data little (arr (to_network_array little (submit_fields little c)) ∷ [])

        parameters : List Field
        parameters =
            int 4 c.transfer_flags
            ∷ int 4 c.transfer_buffer_length
            ∷ int 4 c.start_frame
            ∷ int 4 c.number_of_packets
            ∷ int 4 c.interval
            ∷ arr (SetupPacket.to_bytes c.setup)
            ∷ []

        fixed-eq : fixed ≡ concat_fields (int 4 usbip_cmd_submit ∷ tail_fields c)
        fixed-eq =
            to_network_data_lem little (arr (to_network_array little (submit_fields little c)) ∷ [])
            ∙ concat_fields_arr _
            ∙ to_network_array_lem little (submit_fields little c)
            ∙ ap (λ b. b ++ concat_fields parameters)
                (to_network_array_lem little (header_fields c.header))
            ∙ sym (concat_fields-append (header_fields c.header) parameters)
            ∙ ap (λ k. concat_fields (int 4 k ∷ tail_fields c)) ok.command_is

    abbrev new_isos : List IsoDescriptor
    new_isos = replicate (length t.iso_descriptors) iso_zero

    allocated :
        generic_alloc c.transfer_buffer_length (num_iso c.number_of_packets) c.header c.setup
        ≡ some
            (record t { bytes = replicate c.transfer_buffer_length 0; iso_descriptors = new_isos })
    unfolding generic_alloc
    allocated =
        ap (λ n. generic_alloc c.transfer_buffer_length n c.header c.setup) ok.iso_size
        ∙ ground (arith, ok.iso_small, ok.not_run, ok.no_offset)

    -- The data that was read fills the new buffer exactly.
    receive_data-bytes :
        (isos : List IsoDescriptor) (rest : List ℕ) (s : S)
        → net.pending s ≡ t.bytes ++ rest
        → Reads net
            (receive_data net little handler max_size
              (without_transfer c)
              (record t { bytes = replicate c.transfer_buffer_length 0; iso_descriptors = isos }))
            s
            (with_isos t isos)
            rest
    unfolding receive_data generic_handler
    receive_data-bytes isos rest s e = rw (ne→==_false _ _ ok.is_out) (
        Reads->>= net (net.read c.transfer_buffer_length)
          (λ bytes. return (record t {
            bytes = memcpy (replicate c.transfer_buffer_length 0) 0 bytes;
            iso_descriptors = isos;
          }))
          s t.bytes (with_isos t isos) rest rest
          (read-append net c.transfer_buffer_length s t.bytes rest ok.data_size e)
          (λ s' left.
            (s', ap (λ b. done (record t { bytes = b; iso_descriptors = isos }) s') filled, left)))
      where
        filled : memcpy (replicate c.transfer_buffer_length 0) 0 t.bytes ≡ t.bytes
        filled = memcpy_all t.bytes _ (ok.data_size ∙ sym (length-replicate _ 0))

    -- The descriptor loop runs if the packet count asks for it, and else there are none.
    receive_isos :
        (wanted : Bool) (n : ℤ) (rest : List ℕ) (s : S)
        → (wanted ≡ false → n ≡ pos 0)
        → n ≡ pos (length t.iso_descriptors)
        → net.pending s ≡ iso_row t.iso_descriptors ++ rest
        → Reads net
            (if wanted
              then receive_iso net little handler max_size (rounds n) 0 (with_isos t new_isos)
              else return (with_isos t new_isos))
            s
            t
            rest
    unfolding iso_row
    receive_isos true n rest s none_else size e = rw size (
        receive_iso-row net little max_size t.iso_descriptors [] new_isos t rest s
          (length-replicate _ iso_zero) ok.iso_travel e)
    receive_isos false n rest s none_else size e =
        let empty = nil_of_length t.iso_descriptors (ground (arith, none_else refl)) in
        (
          s,
          ap (λ t'. done t' s)
              (ap (λ ds. with_isos t (replicate (length ds) iso_zero)) empty
                ∙ ap (λ ds. with_isos t ds) (sym empty)),
          e ∙ ap (λ ds. iso_row ds ++ rest) empty,
        )

    receive_transfer-sent :
        (rest : List ℕ) (s : S)
        → net.pending s ≡ (t.bytes ++ iso_row t.iso_descriptors) ++ rest
        → Reads net (receive_body net little handler max_size (without_transfer c)) s c rest
    unfolding receive_body receive_transfer generic_handler
    receive_transfer-sent rest s e =
        rw (le→ltb_false _ _ ok.within, allocated)
          (Reads->>= net
            (receive_data net little handler max_size (without_transfer c) (record t {
              bytes = replicate c.transfer_buffer_length 0;
              iso_descriptors = new_isos;
            }))
            (λ t'. isos t' >>= λ t''. return (with_transfer t'')) s (with_isos t new_isos) c
            (iso_row t.iso_descriptors ++ rest) rest
            (receive_data-bytes new_isos (iso_row t.iso_descriptors ++ rest) s
              (e ∙ append_assoc t.bytes (iso_row t.iso_descriptors) rest))
            (λ s' left.
              subst
                (λ c'.
                  Reads net (isos (with_isos t new_isos) >>= λ t''. return (with_transfer t'')) s'
                    c' rest)
                (ap (λ o. record c { transfer = o }) (sym ok.holds))
                (Reads-map net (isos (with_isos t new_isos)) with_transfer s' t rest (
                  receive_isos (is_iso c.number_of_packets) (num_iso c.number_of_packets) rest s'
                    (λ no. rw no) ok.iso_size left))))
      where
        with_transfer : GenericTransfer → CmdSubmit GenericTransfer
        with_transfer t'' = record c { transfer = some t'' }

        isos : GenericTransfer → Io S GenericTransfer
        isos t' =
            if is_iso c.number_of_packets
            then receive_iso net little handler max_size (rounds (num_iso c.number_of_packets)) 0 t'
            else return t'

    submit_from_socket-sent :
        (rest : List ℕ) (s : S)
        → net.pending s
          ≡ concat_fields (tail_fields c) ++ ((t.bytes ++ iso_row t.iso_descriptors) ++ rest)
        → Reads net (submit_from_socket net little handler max_size) s c rest
    unfolding submit_from_socket SetupPacket.to_bytes
    submit_from_socket-sent rest s e =
        Reads->>= net (unsigned_integral_and_array_read_from_socket net little 0 _)
          (λ f. receive_body net little handler max_size (submit_of_fields f)) s (tail_fields c) c
          ((t.bytes ++ iso_row t.iso_descriptors) ++ rest) rest
          (read_block-concat_fields net little (tail_fields c) [] _ s tail-Fits e)
          (λ s' left. rw rebuilt (receive_transfer-sent rest s' left))

  -- A sendable submit command is read back whole from the bytes that it is written as: every header
  -- field, the setup packet, the OUT data and the isochronous descriptors, in a transfer that
  -- `alloc_transfer_handle` made for it. What follows on the socket is left there.
  pub get_cmd-submit_to_bytes :
      (c : CmdSubmit GenericTransfer) (t : GenericTransfer) (rest : List ℕ) (s : S)
      → IsSendable max_size c t
      → net.pending s ≡ submit_to_bytes little handler c ++ rest
      → Reads net (get_cmd_from_socket net little handler max_size) s (got (submit c)) rest
  unfolding get_cmd_from_socket dispatch_cmd
  get_cmd-submit_to_bytes c t rest s ok e =
      Reads-catch_system net
        (read_unsigned net little 4 >>= dispatch_cmd net little handler max_size) s (got (submit c))
        rest
        (Reads-int net little 4 usbip_cmd_submit (tail_fields c)
          (dispatch_cmd net little handler max_size) s (got (submit c))
          ((t.bytes ++ iso_row t.iso_descriptors) ++ rest) rest (omega arith)
          (e
            ∙ ap (λ b. b ++ rest) (submit_to_bytes-layout ok)
            ∙ append_assoc (concat_fields (int 4 usbip_cmd_submit ∷ tail_fields c)) _ rest)
          (λ s' left.
            Reads-map net (submit_from_socket net little handler max_size) (λ c'. got (submit c'))
              s' c rest (submit_from_socket-sent ok rest s' left)))
