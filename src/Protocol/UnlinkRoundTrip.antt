-- ===== src/Protocol/UnlinkRoundTrip.antt =====
-- `get_cmd_from_socket` reads a USBIP_CMD_UNLINK back from its bytes, whatever its padding holds.
use esp32_usb_ip.Prelude.{
  ℕ, ◌≡◌, refl, sym, ap, ◌∙◌, arith, Bool, List, [], ◌∷◌, ◌++◌, append_assoc, map, length,
  length-drop, drop,
}
use mathlib.Core.Path.{subst}
use esp32_usb_ip.Prelude.Bytes.{IsU32, All}
use esp32_usb_ip.Wire.{
  Field, int, arr, to_network_array, array_add_padding, calculate_total_size_with_array, field_size,
}
use esp32_usb_ip.Wire.Pack.{
  concat_fields, wire_bytes, length-concat_fields, to_network_array_lem, array_add_padding_lem,
}
use esp32_usb_ip.Stream.{
  Asio, ◌>>=◌, read_unsigned, int_at, unsigned_integral_and_array_read_from_socket,
}
use esp32_usb_ip.Stream.Reads.{Reads, Reads-map, read_block-concat_fields, Fits, blank}
use esp32_usb_ip.Protocol.{header_fields, header_to_bytes, usbip_cmd_unlink}
use esp32_usb_ip.Protocol.Transfer.{Handler}
use esp32_usb_ip.Protocol.Command.{
  CmdUnlink, unlink, got, unlink_to_bytes, unlink_of_fields, unlink_from_socket, dispatch_cmd,
  get_cmd_from_socket,
}
use esp32_usb_ip.Protocol.Layout.{Reads-int, Reads-catch_system, concat_fields-append}

-- The fields are in the range of their types, and the command code is the right one.
pub record IsSendable (c : CmdUnlink) : Type 0 where
  pub command_is : c.header.command ≡ usbip_cmd_unlink
  pub seqnum_in : IsU32 c.header.seqnum
  pub devid_in : IsU32 c.header.devid
  pub direction_in_range : IsU32 c.header.direction
  pub ep_in : IsU32 c.header.ep
  pub unlink_in : IsU32 c.unlink_seqnum

abbrev tail_fields : CmdUnlink → List Field
tail_fields c =
    int 4 c.header.seqnum
    ∷ int 4 c.header.devid
    ∷ int 4 c.header.direction
    ∷ int 4 c.header.ep
    ∷ int 4 c.unlink_seqnum
    ∷ []

module _ (little : Bool) {c : CmdUnlink} (ok : IsSendable c) where
  rebuilt : unlink_of_fields (tail_fields c) ≡ c
  unfolding int_at
  rebuilt = cc (ok.command_is)

  unlink-array :
      to_network_array little (arr (header_to_bytes little c.header) ∷ int 4 c.unlink_seqnum ∷ [])
      ≡ concat_fields (int 4 usbip_cmd_unlink ∷ tail_fields c)
  unfolding header_to_bytes concat_fields wire_bytes
  unlink-array =
      to_network_array_lem little
        (arr (header_to_bytes little c.header) ∷ int 4 c.unlink_seqnum ∷ [])
      ∙ ap (λ b. b ++ concat_fields (int 4 c.unlink_seqnum ∷ []))
          (to_network_array_lem little (header_fields c.header))
      ∙ sym (concat_fields-append (header_fields c.header) (int 4 c.unlink_seqnum ∷ []))
      ∙ ap (λ k. concat_fields (int 4 k ∷ tail_fields c)) ok.command_is

  length-unlink_array : length (concat_fields (int 4 usbip_cmd_unlink ∷ tail_fields c)) ≡ 24
  length-unlink_array =
      length-concat_fields (int 4 usbip_cmd_unlink ∷ tail_fields c)
      ∙ unfold calculate_total_size_with_array field_size in refl

  unlink_to_bytes-layout :
      (memory : List ℕ)
      → length memory ≡ 48
      → unlink_to_bytes little memory c
        ≡ concat_fields (int 4 usbip_cmd_unlink ∷ tail_fields c) ++ drop 24 memory
  unfolding unlink_to_bytes
  unlink_to_bytes-layout memory size =
      ap (array_add_padding memory) unlink-array
      ∙ array_add_padding_lem memory _ (omega (arith, length-unlink_array))
      ∙ ap (λ n. concat_fields (int 4 usbip_cmd_unlink ∷ tail_fields c) ++ drop n memory)
          length-unlink_array

module _ {S T : Type 0} (net : Asio S) (little : Bool) (handler : Handler S T) (max_size : ℕ) where
  -- An unlink command with fields in range is read back from its 48 bytes, whatever stands in the
  -- padding, which is whatever the memory of the message held before; and what follows on the
  -- socket is left there.
  pub get_cmd-unlink_to_bytes :
      (c : CmdUnlink) (memory rest : List ℕ) (s : S)
      → IsSendable c
      → length memory ≡ 48
      → net.pending s ≡ unlink_to_bytes little memory c ++ rest
      → Reads net (get_cmd_from_socket net little handler max_size) s (got (unlink c)) rest
  unfolding get_cmd_from_socket dispatch_cmd unlink_from_socket
  get_cmd-unlink_to_bytes c memory rest s ok size e =
      Reads-catch_system net
        (read_unsigned net little 4 >>= dispatch_cmd net little handler max_size) s (got (unlink c))
        rest
        (Reads-int net little 4 usbip_cmd_unlink (tail_fields c)
          (dispatch_cmd net little handler max_size) s (got (unlink c)) (drop 24 memory ++ rest)
          rest (omega arith)
          (e
            ∙ ap (λ b. b ++ rest) (unlink_to_bytes-layout little ok memory size)
            ∙ append_assoc (concat_fields (int 4 usbip_cmd_unlink ∷ tail_fields c)) _ rest)
          (λ s' left.
            Reads-map net (unlink_from_socket net little) (λ c'. got (unlink c')) s' c rest
              (subst (λ c'. Reads net (unlink_from_socket net little) s' c' rest)
                (rebuilt little ok)
                (Reads-map net (unsigned_integral_and_array_read_from_socket net little 24 _)
                  unlink_of_fields s' (tail_fields c) rest (read_tail s' left)))))
    where
      padding : length (drop 24 memory) ≡ 24
      padding = omega (arith, length-drop 24 memory)

      fits : All Fits (tail_fields c)
      fits = omega arith

      read_tail :
          (s' : S)
          → net.pending s' ≡ concat_fields (tail_fields c) ++ (drop 24 memory ++ rest)
          → Reads net
              (unsigned_integral_and_array_read_from_socket net little 24
                (map blank (tail_fields c)))
              s'
              (tail_fields c)
              rest
      read_tail s' left =
          subst
            (λ n.
              Reads net
                (unsigned_integral_and_array_read_from_socket net little n
                  (map blank (tail_fields c)))
                s' (tail_fields c) rest)
            padding
            (read_block-concat_fields net little (tail_fields c) (drop 24 memory) rest s' fits left)
