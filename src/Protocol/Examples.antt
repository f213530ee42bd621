-- ===== src/Protocol/Examples.antt =====
-- Requests as they stand on the wire, and the theorems of the round trips and errors at them.
use esp32_usb_ip.Prelude.{
  ℕ, ◌*◌, ◌≡◌, refl, arith, true, false, none, some, List, [], ◌∷◌, ◌++◌, replicate,
}
use esp32_usb_ip.Wire.{int}
use esp32_usb_ip.Wire.Pack.{concat_fields}
use esp32_usb_ip.Stream.{done, thrown, length_error}
use esp32_usb_ip.Stream.Feed.{feed}
use esp32_usb_ip.Stream.Reads.{Reads}
use esp32_usb_ip.SetupPacket.{SetupPacket}
use esp32_usb_ip.Protocol.{IsoDescriptor, unknown_cmd, socket_err, usbip_cmd_submit}
use esp32_usb_ip.Protocol.Transfer.{Handler, GenericTransfer, generic_handler}
use esp32_usb_ip.Protocol.Command.{
  OpReqDevlist, OpReqImport, import, CmdSubmit, CmdUnlink, Cmd, submit, unlink, Result, got, error,
  import_to_bytes, submit_to_bytes, unlink_to_bytes, get_op_from_socket, get_cmd_from_socket,
}
use esp32_usb_ip.Protocol.Layout.{tail_fields}
use esp32_usb_ip.Protocol.OpRoundTrip.{get_op-import_to_bytes}
use esp32_usb_ip.Protocol.SubmitRoundTrip.{get_cmd-submit_to_bytes}
use esp32_usb_ip.Protocol.UnlinkRoundTrip.{get_cmd-unlink_to_bytes}
use esp32_usb_ip.Protocol.Malformed.{get_cmd-unknown_cmd, get_cmd-too_long, get_cmd-packets_escape}
use esp32_usb_ip.Protocol.Total.{get_cmd_returns}

abbrev limit : ℕ
limit = 2 * 1024 * 1024

abbrev list_request : OpReqDevlist
list_request = record { status = 0 }

abbrev import_request : OpReqImport
import_request = record { status = 0; busid = 0x31 ∷ 0x2d ∷ 0x31 ∷ replicate 29 0 }

abbrev no_setup : SetupPacket
no_setup = record { request_type = 0; request = 0; value = 0; index = 0; length = 0 }

-- One isochronous packet of three bytes.
abbrev packet : IsoDescriptor
packet = record {
  offset = 0;
  length = 3;
  actual_length = 0;
  status = 0;
  length_in_transfer_buffer_only_for_send = 0;
}

abbrev transfer : GenericTransfer
transfer = record {
  bytes = 10 ∷ 20 ∷ 30 ∷ [];
  iso_descriptors = packet ∷ [];
  actual_length = 0;
  data_offset = 0;
}

abbrev out_request : CmdSubmit GenericTransfer
out_request = record {
  header = record { command = 1; seqnum = 77; devid = 0x0001_0002; direction = 0; ep = 2 };
  transfer_flags = 0;
  transfer_buffer_length = 3;
  start_frame = 0;
  number_of_packets = 1;
  interval = 1;
  setup = no_setup;
  transfer = some transfer;
}

abbrev unlink_request : CmdUnlink
unlink_request = record {
  header = record { command = 2; seqnum = 78; devid = 0x0001_0002; direction = 0; ep = 0 };
  unlink_seqnum = 77;
}

-- A handler that refuses nothing: its transfers carry no state.
abbrev idle_handler : Handler (List ℕ) (List ℕ)
idle_handler = record {
  alloc_transfer_handle = λ n packets header setup. some (replicate n 0);
  get_transfer_buffer = λ t. t;
  put_transfer_buffer = λ t bytes. bytes;
  get_read_data_offset = λ t. 0;
  get_write_data_offset = λ header. 0;
  get_iso_descriptor = λ t i. packet;
  set_iso_descriptor = λ t i desc. t;
  custom_transfer_io = false;
  recv_transfer_data = λ t n s. (none, t, s);
}

get_op-import_to_bytes_example :
    Reads feed
      (get_op_from_socket feed true)
      (import_to_bytes true import_request ++ [])
      (got (import import_request))
      []
get_op-import_to_bytes_example =
    get_op-import_to_bytes feed true import_request [] _ (omega arith) refl refl

get_cmd-submit_to_bytes_example :
    Reads feed
      (get_cmd_from_socket feed true (generic_handler feed) limit)
      (submit_to_bytes true (generic_handler feed) out_request ++ (9 ∷ []))
      (got (submit out_request))
      (9 ∷ [])
get_cmd-submit_to_bytes_example =
    get_cmd-submit_to_bytes feed true limit out_request transfer (9 ∷ []) _ (ground arith) refl

get_cmd-unlink_to_bytes_example :
    Reads feed
      (get_cmd_from_socket feed true (generic_handler feed) limit)
      (unlink_to_bytes true (replicate 48 0xAA) unlink_request ++ [])
      (got (unlink unlink_request))
      []
get_cmd-unlink_to_bytes_example =
    get_cmd-unlink_to_bytes feed true (generic_handler feed) limit unlink_request
      (replicate 48 0xAA) [] _ (omega arith) refl refl

get_cmd-unknown_cmd_example :
    Reads feed
      (get_cmd_from_socket feed true idle_handler limit)
      (concat_fields (int 4 5 ∷ []) ++ (1 ∷ []))
      (error unknown_cmd)
      (1 ∷ [])
get_cmd-unknown_cmd_example =
    get_cmd-unknown_cmd feed true idle_handler limit 5 (1 ∷ []) _ (omega arith) (omega arith)
      (omega arith) refl

abbrev huge_request : CmdSubmit (List ℕ)
huge_request = record {
  header = record { command = 1; seqnum = 77; devid = 0; direction = 1; ep = 2 };
  transfer_flags = 0;
  transfer_buffer_length = 0xFFFF_FFFF;
  start_frame = 0;
  number_of_packets = 0;
  interval = 0;
  setup = no_setup;
  transfer = none;
}

get_cmd-too_long_example :
    Reads feed
      (get_cmd_from_socket feed true idle_handler limit)
      (concat_fields (int 4 usbip_cmd_submit ∷ tail_fields huge_request) ++ (1 ∷ []))
      (error socket_err)
      (1 ∷ [])
get_cmd-too_long_example =
    get_cmd-too_long feed true idle_handler limit huge_request (1 ∷ []) _ (omega arith)
      (omega arith) refl

-- A count that is -2147483648 as an `int`.
abbrev packets_request : CmdSubmit GenericTransfer
packets_request = record out_request { number_of_packets = 0x8000_0000 }

get_cmd-packets_escape_example :
    (s' : List ℕ) × (get_cmd_from_socket feed true
        (generic_handler feed)
        limit
        (concat_fields (int 4 usbip_cmd_submit ∷ tail_fields packets_request) ++ [])
      ≡ thrown length_error s')
    × (s' ≡ [])
get_cmd-packets_escape_example =
    get_cmd-packets_escape feed true limit packets_request [] _ (omega arith) (omega arith)
      (omega arith) (omega arith) refl

get_cmd_returns_example :
    (r : Result (Cmd (List ℕ))) × (s' : List ℕ) × (get_cmd_from_socket feed true idle_handler limit
        (0 ∷ 0 ∷ 0 ∷ 1 ∷ 7 ∷ [])
      ≡ done r s')
get_cmd_returns_example =
    get_cmd_returns feed true idle_handler limit (0 ∷ 0 ∷ 0 ∷ 1 ∷ 7 ∷ []) (λ n z h su le. cc)
