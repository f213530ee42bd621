-- ===== src/Protocol/Malformed.antt =====
-- What the readers of protocol.cpp answer to a bad or a cut request, and what escapes them.
use esp32_usb_ip.Prelude.{
  ℕ, ◌^◌, ◌≤◌, ◌<◌, ◌≡◌, ◌≢◌, ◌⊎◌, ◌∙◌, arith, Bool, false, le→ltb_false, lt→ltb, ne→==_false, not,
  ◌==◌, ◌&&◌, none, List, [], ◌∷◌, ◌++◌, length,
}
use esp32_usb_ip.Prelude.Bytes.{IsU32, All}
use esp32_usb_ip.Wire.{int}
use esp32_usb_ip.Wire.Pack.{concat_fields}
use esp32_usb_ip.Stream.{Asio, thrown, ◌>>=◌, length_error, read_unsigned, int_at}
use esp32_usb_ip.Stream.Reads.{Reads, Fits}
use esp32_usb_ip.SetupPacket.{SetupPacket}
use esp32_usb_ip.Protocol.{
  usbip_version, op_req_devlist, op_req_import, usbip_cmd_submit, usbip_cmd_unlink, unknown_version,
  unknown_cmd, socket_err, Header,
}
use esp32_usb_ip.Protocol.Transfer.{
  Handler, GenericTransfer, generic_handler, generic_alloc, max_iso,
}
use esp32_usb_ip.Protocol.Command.{
  CmdSubmit, error, socket_error, num_iso, receive_body, receive_transfer, dispatch_op,
  check_version, get_op_from_socket, dispatch_cmd, get_cmd_from_socket,
}
use esp32_usb_ip.Protocol.Layout.{Reads-int, Reads-catch_system, tail_fields, get_cmd-fixed_part}

too_many :
    (packets length : ℕ) (header : Header) (setup : SetupPacket)
    → max_iso < packets
    → packets ≢ 0xFFFFFFFF
    → IsU32 packets
    → generic_alloc length (num_iso packets) header setup ≡ none
unfolding generic_alloc
too_many packets length header setup many last fits = ground arith

module _ {S : Type 0} (net : Asio S) (little : Bool) where
  -- A version that is neither 0 nor that of the protocol is answered by UNKNOWN_VERSION, and
  -- nothing behind it is read.
  get_op-unknown_version :
      (version : ℕ) (rest : List ℕ) (s : S)
      → version < 2 ^ 16
      → version ≢ 0
      → version ≢ usbip_version
      → net.pending s ≡ concat_fields (int 2 version ∷ []) ++ rest
      → Reads net (get_op_from_socket net little) s (error unknown_version) rest
  unfolding get_op_from_socket check_version concat_fields
  get_op-unknown_version version rest s fits n0 n1 e =
      Reads-catch_system net (read_unsigned net little 2 >>= check_version net little) s
        (error unknown_version) rest
        (Reads-int net little 2 version [] (check_version net little) s (error unknown_version) rest
          rest fits e (λ s' left. (s', rw (ne→==_false _ _ n0, ne→==_false _ _ n1), left)))

  -- Behind a version that is 0 or that of the protocol, an operation that is no request is answered
  -- by UNKNOWN_CMD, and nothing behind it is read.
  get_op-unknown_cmd :
      (version op : ℕ) (rest : List ℕ) (s : S)
      → (version ≡ 0) ⊎ (version ≡ usbip_version)
      → op < 2 ^ 16
      → op ≢ op_req_devlist
      → op ≢ op_req_import
      → net.pending s ≡ concat_fields (int 2 version ∷ int 2 op ∷ []) ++ rest
      → Reads net (get_op_from_socket net little) s (error unknown_cmd) rest
  unfolding get_op_from_socket check_version dispatch_op concat_fields
  get_op-unknown_cmd version op rest s good fits n0 n1 e =
      Reads-catch_system net (read_unsigned net little 2 >>= check_version net little) s
        (error unknown_cmd) rest
        (Reads-int net little 2 version (int 2 op ∷ []) (check_version net little) s
          (error unknown_cmd) rest rest (ground (arith, good)) e
          (λ s' left. rw accepted (
            Reads-int net little 2 op [] (dispatch_op net little) s' (error unknown_cmd) rest rest
              fits left (λ s'' left'. (s'', rw (ne→==_false _ _ n0, ne→==_false _ _ n1), left')))))
    where
      accepted : (not (version == 0) && not (version == usbip_version)) ≡ false
      accepted = ground (arith, good)

  module _ {T : Type 0} (handler : Handler S T) (max_size : ℕ) where
    -- A command code that is neither SUBMIT nor UNLINK is answered by UNKNOWN_CMD, and nothing behind
    -- it is read.
    pub get_cmd-unknown_cmd :
        (command : ℕ) (rest : List ℕ) (s : S)
        → IsU32 command
        → command ≢ usbip_cmd_submit
        → command ≢ usbip_cmd_unlink
        → net.pending s ≡ concat_fields (int 4 command ∷ []) ++ rest
        → Reads net (get_cmd_from_socket net little handler max_size) s (error unknown_cmd) rest
    unfolding get_cmd_from_socket dispatch_cmd concat_fields
    get_cmd-unknown_cmd command rest s fits n0 n1 e =
        Reads-catch_system net
          (read_unsigned net little 4 >>= dispatch_cmd net little handler max_size) s
          (error unknown_cmd) rest
          (Reads-int net little 4 command [] (dispatch_cmd net little handler max_size) s
            (error unknown_cmd) rest rest fits e
            (λ s' left. (s', rw (ne→==_false _ _ n0, ne→==_false _ _ n1), left)))

    -- A submit command that announces more data than the limit is answered by SOCKET_ERR, whatever
    -- the handler does: nothing of the data is read, and `alloc_transfer_handle` is not reached.
    pub get_cmd-too_long :
        (c : CmdSubmit T) (rest : List ℕ) (s : S)
        → All Fits (tail_fields c)
        → max_size < c.transfer_buffer_length
        → net.pending s ≡ concat_fields (int 4 usbip_cmd_submit ∷ tail_fields c) ++ rest
        → Reads net (get_cmd_from_socket net little handler max_size) s (error socket_err) rest
    unfolding receive_body socket_error int_at
    get_cmd-too_long c rest s fits long e =
        let (s', left, ran) = get_cmd-fixed_part net little handler max_size c rest s fits e in
        (s', ran ∙ rw (lt→ltb _ _ long), left)

  -- A submit command within the size limit whose packet count is more than a vector of descriptors
  -- can hold, and is not 0xFFFFFFFF, makes the default
  -- `alloc_transfer_handle` throw `std::length_error`, which leaves `get_cmd_from_socket`: it
  -- catches only a `system_error`.
  pub get_cmd-packets_escape :
      (max_size : ℕ) (c : CmdSubmit GenericTransfer) (rest : List ℕ) (s : S)
      → All Fits (tail_fields c)
      → c.transfer_buffer_length ≤ max_size
      → max_iso < c.number_of_packets
      → c.number_of_packets ≢ 0xFFFFFFFF
      → net.pending s ≡ concat_fields (int 4 usbip_cmd_submit ∷ tail_fields c) ++ rest
      → (s' : S) × (get_cmd_from_socket net little (generic_handler net) max_size s
          ≡ thrown length_error s')
        × (net.pending s' ≡ rest)
  unfolding receive_body receive_transfer int_at generic_handler
  get_cmd-packets_escape max_size c rest s fits short many last e =
      let (s', left, ran) =
        get_cmd-fixed_part net little (generic_handler net) max_size c rest s fits e in
      (
        s',
        ran
            ∙ rw (
              le→ltb_false _ _ short,
              too_many c.number_of_packets _ _ _ many last (omega arith),
            ),
        left,
      )
