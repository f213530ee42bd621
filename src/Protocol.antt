-- ===== src/Protocol.antt =====
-- components/usbipdcpp/usbipdcpp/include/protocol.h: the constants and the two fixed structures of
-- the USB/IP protocol. The children model the messages of protocol.h and protocol.cpp.
pub mod Transfer
pub mod Command
pub mod Response
pub mod Replies
pub mod SubmitReplies
pub mod Layout
pub mod OpRoundTrip
pub mod IsoRows
pub mod SubmitRoundTrip
pub mod UnlinkRoundTrip
pub mod Malformed
pub mod Total
mod Examples
mod ReplyExamples
use esp32_usb_ip.Prelude.{ℕ, ◌-◌, ◌%◌, ◌^◌, Bool, ltb, if◌then◌else◌, List, [], ◌∷◌, ◌++◌}
use esp32_usb_ip.Prelude.Int.{ℤ, pos, negsuc}
use esp32_usb_ip.Wire.{Field, int, arr, to_network_array}
use esp32_usb_ip.Stream.{Asio, Io, ◌>>=◌, return, int_at, unsigned_integral_read_from_socket}

abbrev pub usbip_version : ℕ
usbip_version = 0x0111

abbrev pub op_req_devlist : ℕ
op_req_devlist = 0x8005

abbrev pub op_rep_devlist : ℕ
op_rep_devlist = 0x0005

abbrev pub op_req_import : ℕ
op_req_import = 0x8003

abbrev pub op_rep_import : ℕ
op_rep_import = 0x0003

abbrev pub usbip_cmd_submit : ℕ
usbip_cmd_submit = 0x0001

abbrev pub usbip_cmd_unlink : ℕ
usbip_cmd_unlink = 0x0002

abbrev pub usbip_ret_submit : ℕ
usbip_ret_submit = 0x0003

abbrev pub usbip_ret_unlink : ℕ
usbip_ret_unlink = 0x0004

-- `UsbIpDirection`
abbrev pub direction_out : ℕ
direction_out = 0

abbrev pub direction_in : ℕ
direction_in = 1

-- The codes of `ErrorType` but OK, which is the absence of an error.
pub data ErrorType : Type 0 where
  unknown_version unknown_cmd protocol_error no_device socket_eof socket_err : ErrorType
  internal_error invalid_arg unimplemented transfer_error : ErrorType

-- `OperationStatuType`, as sent
abbrev pub status_ok : ℕ
status_ok = 0

abbrev pub status_na : ℕ
status_na = 1

abbrev pub status_no_dev : ℕ
status_no_dev = 4

-- `static_cast<std::uint32_t>` of a `UrbStatusType`, which is 0 or the negative of an errno
abbrev pub urb_status : ℕ → ℕ
urb_status errno = (2 ^ 32 - errno) % 2 ^ 32

abbrev pub epipe : ℕ
epipe = 32

abbrev pub enoent : ℕ
enoent = 2

-- `UsbIpHeaderBasic`
pub record Header : Type 0 where
  pub command : ℕ
  pub seqnum : ℕ
  pub devid : ℕ
  pub direction : ℕ
  pub ep : ℕ

abbrev pub header_fields : Header → List Field
header_fields h =
    int 4 h.command ∷ int 4 h.seqnum ∷ int 4 h.devid ∷ int 4 h.direction ∷ int 4 h.ep ∷ []

unfoldable pub header_to_bytes : Bool → Header → List ℕ
header_to_bytes little h = to_network_array little (header_fields h)

unfoldable pub get_server_header : ℕ → ℕ → Header
get_server_header command seqnum = record {
  command = command;
  seqnum = seqnum;
  devid = 0;
  direction = 0;
  ep = 0;
}

-- `UsbIpIsoPacketDescriptor`; the last field does not travel.
pub record IsoDescriptor : Type 0 where
  pub offset : ℕ
  pub length : ℕ
  pub actual_length : ℕ
  pub status : ℕ
  pub length_in_transfer_buffer_only_for_send : ℕ

abbrev pub iso_fields : IsoDescriptor → List Field
iso_fields d = int 4 d.offset ∷ int 4 d.length ∷ int 4 d.actual_length ∷ int 4 d.status ∷ []

unfoldable pub iso_to_bytes : Bool → IsoDescriptor → List ℕ
iso_to_bytes little d = to_network_array little (iso_fields d)

-- `UsbIpIsoPacketDescriptor iso_desc{}`
abbrev pub iso_zero : IsoDescriptor
iso_zero = record {
  offset = 0;
  length = 0;
  actual_length = 0;
  status = 0;
  length_in_transfer_buffer_only_for_send = 0;
}

-- `from_socket` on a value-initialised descriptor
abbrev pub iso_of_fields : List Field → IsoDescriptor
iso_of_fields f = record iso_zero {
  offset = int_at f 0;
  length = int_at f 1;
  actual_length = int_at f 2;
  status = int_at f 3;
}

abbrev pub four_ints : List Field
four_ints = int 4 0 ∷ int 4 0 ∷ int 4 0 ∷ int 4 0 ∷ []

unfoldable pub iso_from_socket : {S : Type 0} → Asio S → Bool → Io S IsoDescriptor
iso_from_socket net little =
    unsigned_integral_read_from_socket net little four_ints >>= λ f. return (iso_of_fields f)

-- `static_cast<int>` of a uint32_t
abbrev pub to_int : ℕ → ℤ
to_int x = if ltb x (2 ^ 31) then pos x else negsuc (2 ^ 32 - 1 - x)
