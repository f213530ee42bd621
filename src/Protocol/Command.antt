-- ===== src/Protocol/Command.antt =====
-- The requests of a client: the namespace `UsbIpCommand` of
-- components/usbipdcpp/usbipdcpp/src/protocol.cpp, written to bytes and read from a socket. The
-- builds define NDEBUG, so the `assert`s of the source are no code here.
use esp32_usb_ip.Prelude.{
  ℕ, zero, suc, ◌+◌, Bool, ltb, ◌==◌, ◌&&◌, not, if◌then◌else◌, Option, none, some, List, [], ◌∷◌,
  ◌++◌, take, drop, replicate,
}
use esp32_usb_ip.Prelude.Int.{ℤ, pos, negsuc}
use esp32_usb_ip.Wire.{
  Field, int, arr, memcpy, to_network_array, to_network_data, vector_append_to_net,
  array_add_padding,
}
use esp32_usb_ip.Stream.{
  Asio, Io, Outcome, done, thrown, ◌>>=◌, return, throw, Code, eof, no_buffer_space, other_code,
  system_error, length_error, int_at, arr_at, unsigned_integral_and_array_read_from_socket,
  data_read_from_socket, read_unsigned,
}
use esp32_usb_ip.SetupPacket.{SetupPacket}
use esp32_usb_ip.SetupPacket
use esp32_usb_ip.Protocol.{
  Header, header_to_bytes, iso_to_bytes, iso_from_socket, to_int, direction_in, ErrorType,
  unknown_version, unknown_cmd, socket_eof, socket_err, usbip_version, op_req_devlist,
  op_req_import, usbip_cmd_submit, usbip_cmd_unlink,
}
use esp32_usb_ip.Protocol.Transfer.{Handler}

pub record OpReqDevlist : Type 0 where
  pub status : ℕ

pub record OpReqImport : Type 0 where
  pub status : ℕ
  pub busid : List ℕ

-- `transfer` is `none` where the `TransferHandle` is empty.
pub record CmdSubmit (T : Type 0) : Type 0 where
  pub header : Header
  pub transfer_flags : ℕ
  pub transfer_buffer_length : ℕ
  pub start_frame : ℕ
  pub number_of_packets : ℕ
  pub interval : ℕ
  pub setup : SetupPacket
  pub transfer : Option T

pub record CmdUnlink : Type 0 where
  pub header : Header
  pub unlink_seqnum : ℕ

pub data OpCmd : Type 0 where
  devlist : OpReqDevlist → OpCmd
  import : OpReqImport → OpCmd

pub data Cmd (T : Type 0) : Type 0 where
  submit : CmdSubmit T → Cmd T
  unlink : CmdUnlink → Cmd T

-- `ec` is set, or the returned variant holds a request.
pub data Result (A : Type 0) : Type 0 where
  got : A → Result A
  error : ErrorType → Result A

abbrev pub devlist_fields : OpReqDevlist → List Field
devlist_fields r = int 2 usbip_version ∷ int 2 op_req_devlist ∷ int 4 r.status ∷ []

abbrev pub import_fields : OpReqImport → List Field
import_fields r = int 2 usbip_version ∷ int 2 op_req_import ∷ int 4 r.status ∷ arr r.busid ∷ []

unfoldable pub devlist_to_bytes : Bool → OpReqDevlist → List ℕ
devlist_to_bytes little r = to_network_array little (devlist_fields r)

unfoldable pub import_to_bytes : Bool → OpReqImport → List ℕ
import_to_bytes little r = to_network_array little (import_fields r)

-- `number_of_packets != 0 && number_of_packets != 0xFFFFFFFF`
abbrev pub is_iso : ℕ → Bool
is_iso n = not (n == 0) && not (n == 0xFFFFFFFF)

abbrev pub num_iso : ℕ → ℤ
num_iso n = if is_iso n then to_int n else pos 0

-- The rounds of `for (int i = 0; i < num_iso; i++)`.
abbrev pub rounds : ℤ → ℕ
rounds (pos n) = n
rounds (negsuc k) = 0

abbrev pub submit_fields : {T : Type 0} → Bool → CmdSubmit T → List Field
submit_fields little c =
    arr (header_to_bytes little c.header)
    ∷ int 4 c.transfer_flags
    ∷ int 4 c.transfer_buffer_length
    ∷ int 4 c.start_frame
    ∷ int 4 c.number_of_packets
    ∷ int 4 c.interval
    ∷ arr (SetupPacket.to_bytes c.setup)
    ∷ []

-- The iso descriptors `i`, `i + 1`, ... appended to what has been written.
unfoldable pub append_iso : {S T : Type 0} → Bool → Handler S T → T → ℕ → ℕ → List ℕ → List ℕ
append_iso little handler t i zero total = total
append_iso little handler t i (suc n) total = append_iso little handler t (i + 1) n (
    vector_append_to_net little total
      (arr (iso_to_bytes little (handler.get_iso_descriptor t i)) ∷ []))

-- `insert(end, byte_ptr, byte_ptr + n)` of the bytes of the transfer buffer from `offset` on
abbrev pub buffer_bytes : List ℕ → ℕ → ℕ → List ℕ
buffer_bytes buffer offset n = take n (drop offset buffer)

unfoldable pub append_transfer :
    {S T : Type 0} → Bool → Handler S T → CmdSubmit T → List ℕ → Option T → List ℕ
append_transfer little handler c total none = total
append_transfer little handler c total (some t) =
    append_iso little handler t 0 (rounds (num_iso c.number_of_packets)) (
      total
      ++ buffer_bytes (handler.get_transfer_buffer t) (handler.get_write_data_offset c.header)
          c.transfer_buffer_length)

unfoldable pub submit_to_bytes : {S T : Type 0} → Bool → Handler S T → CmdSubmit T → List ℕ
submit_to_bytes little handler c =
    append_transfer little handler c
      (to_network_data little (arr (to_network_array little (submit_fields little c)) ∷ []))
      c.transfer

-- The padding of 24 bytes is never written: `memory` is what was there before.
unfoldable pub unlink_to_bytes : Bool → List ℕ → CmdUnlink → List ℕ
unlink_to_bytes little memory c =
    array_add_padding memory
      (to_network_array little (arr (header_to_bytes little c.header) ∷ int 4 c.unlink_seqnum ∷ []))

abbrev pub ints : ℕ → List Field
ints zero = []
ints (suc n) = int 4 0 ∷ ints n

abbrev pub submit_of_fields : {T : Type 0} → List Field → CmdSubmit T
submit_of_fields f = record {
  header = record {
    command = usbip_cmd_submit;
    seqnum = int_at f 0;
    devid = int_at f 1;
    direction = int_at f 2;
    ep = int_at f 3;
  };
  transfer_flags = int_at f 4;
  transfer_buffer_length = int_at f 5;
  start_frame = int_at f 6;
  number_of_packets = int_at f 7;
  interval = int_at f 8;
  setup = SetupPacket.parse (arr_at f 9);
  transfer = none;
}

abbrev pub unlink_of_fields : List Field → CmdUnlink
unlink_of_fields f = record {
  header = record {
    command = usbip_cmd_unlink;
    seqnum = int_at f 0;
    devid = int_at f 1;
    direction = int_at f 2;
    ep = int_at f 3;
  };
  unlink_seqnum = int_at f 4;
}

-- The value of an `ErrorType` for what was thrown; only a `system_error` is caught.
unfoldable pub socket_error : Code → ErrorType
socket_error eof = socket_eof
socket_error no_buffer_space = socket_err
socket_error (other_code n) = socket_err

abbrev pub catch_system : {S A : Type 0} → Io S (Result A) → Io S (Result A)
catch_system m s = elim (m s) [
  | done r s' ↦ done r s'
  | thrown (system_error c) s' ↦ done (error (socket_error c)) s'
  | thrown length_error s' ↦ thrown length_error s'
]

module _ {S : Type 0} (net : Asio S) (little : Bool) where
  unfoldable pub devlist_from_socket : Io S OpReqDevlist
  devlist_from_socket = read_unsigned net little 4 >>= λ v. return (record { status = v })

  unfoldable pub import_from_socket : Io S OpReqImport
  import_from_socket =
      data_read_from_socket net little (int 4 0 ∷ arr (replicate 32 0) ∷ []) >>= λ f.
      return (record { status = int_at f 0; busid = arr_at f 1 })

  unfoldable pub dispatch_op : ℕ → Io S (Result OpCmd)
  dispatch_op op =
      if op == op_req_devlist
      then (devlist_from_socket >>= λ r. return (got (devlist r)))
      else if op == op_req_import
      then (import_from_socket >>= λ r. return (got (import r)))
      else return (error unknown_cmd)

  -- What follows the version.
  unfoldable pub check_version : ℕ → Io S (Result OpCmd)
  check_version version =
      if not (version == 0) && not (version == usbip_version)
      then return (error unknown_version)
      else (read_unsigned net little 2 >>= dispatch_op)

  unfoldable pub get_op_from_socket : Io S (Result OpCmd)
  get_op_from_socket = catch_system (read_unsigned net little 2 >>= check_version)

  unfoldable pub unlink_from_socket : Io S CmdUnlink
  unlink_from_socket = unsigned_integral_and_array_read_from_socket net little 24 (ints 5) >>= λ f.
      return (unlink_of_fields f)

  module _ {T : Type 0} (handler : Handler S T) (max_transfer_buffer_size : ℕ) where
    -- The transfer data: nothing for the IN direction, else by the handler or into its buffer.
    unfoldable pub throw_ec : Option Code × T × S → Outcome S T
    throw_ec (none, t, s) = done t s
    throw_ec (some c, t, s) = thrown (system_error c) s

    unfoldable pub receive_data : CmdSubmit T → T → Io S T
    receive_data c t =
        if c.header.direction == direction_in
        then return t
        else if handler.custom_transfer_io
        then (λ s. throw_ec (handler.recv_transfer_data t c.transfer_buffer_length s))
        else (net.read c.transfer_buffer_length >>= λ bytes. return (
            handler.put_transfer_buffer t (
              memcpy (handler.get_transfer_buffer t) (handler.get_write_data_offset c.header)
                bytes)))

    -- `n` rounds of the descriptor loop from index `i` on.
    unfoldable pub receive_iso : ℕ → ℕ → T → Io S T
    receive_iso zero i t = return t
    receive_iso (suc n) i t = iso_from_socket net little >>= λ desc.
        receive_iso n (i + 1) (handler.set_iso_descriptor t i desc)

    unfoldable pub receive_transfer : CmdSubmit T → Option T → Io S (CmdSubmit T)
    receive_transfer c none = throw length_error
    receive_transfer c (some t) = receive_data c t >>= λ t'.
        (if is_iso c.number_of_packets
          then receive_iso (rounds (num_iso c.number_of_packets)) 0 t'
          else return t')
        >>= λ t''. return (record c { transfer = some t'' })

    unfoldable pub receive_body : CmdSubmit T → Io S (CmdSubmit T)
    receive_body c =
        if ltb max_transfer_buffer_size c.transfer_buffer_length
        then throw (system_error no_buffer_space)
        else receive_transfer c (
            handler.alloc_transfer_handle c.transfer_buffer_length (num_iso c.number_of_packets)
              c.header c.setup)

    unfoldable pub submit_from_socket : Io S (CmdSubmit T)
    submit_from_socket =
        unsigned_integral_and_array_read_from_socket net little 0
          (ints 9 ++ (arr (replicate 8 0) ∷ []))
        >>= λ f. receive_body (submit_of_fields f)

    unfoldable pub dispatch_cmd : ℕ → Io S (Result (Cmd T))
    dispatch_cmd command =
        if command == usbip_cmd_submit
        then (submit_from_socket >>= λ c. return (got (submit c)))
        else if command == usbip_cmd_unlink
        then (unlink_from_socket >>= λ c. return (got (unlink c)))
        else return (error unknown_cmd)

    unfoldable pub get_cmd_from_socket : Io S (Result (Cmd T))
    get_cmd_from_socket = catch_system (read_unsigned net little 4 >>= dispatch_cmd)
