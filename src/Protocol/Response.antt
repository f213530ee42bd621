-- ===== src/Protocol/Response.antt =====
-- The replies of the server: the namespace `UsbIpResponse` of
-- components/usbipdcpp/usbipdcpp/src/protocol.cpp, as bytes and as what is handed to the socket.
-- `from_socket` of a reply has an empty body there.
use esp32_usb_ip.Prelude.{
  ℕ, zero, suc, ◌+◌, ◌%◌, ◌^◌, Bool, false, ltb, ◌==◌, not, if◌then◌else◌, Option, none, some, List,
  [], ◌∷◌, ◌++◌, length, map, replicate,
}
use esp32_usb_ip.Prelude.Bytes.{add_size}
use esp32_usb_ip.Wire.{
  Field, int, arr, to_network_array, to_network_data, vector_append_to_net, array_add_padding,
}
use esp32_usb_ip.Device.{UsbDevice, device_to_bytes, to_bytes_with_interfaces}
use esp32_usb_ip.Protocol.{
  Header, header_to_bytes, get_server_header, usbip_version, op_rep_devlist, op_rep_import,
  usbip_ret_submit, usbip_ret_unlink, status_ok, status_na, urb_status, epipe,
}
use esp32_usb_ip.Protocol.Transfer.{Handler}
use esp32_usb_ip.Protocol.Command.{append_iso, num_iso, rounds, buffer_bytes}
use esp32_usb_ip.Prelude.Int.{ℤ, pos, negsuc}

pub record OpRepDevlist : Type 0 where
  pub status : ℕ
  pub device_count : ℕ
  pub devices : List UsbDevice

pub record OpRepImport : Type 0 where
  pub status : ℕ
  pub device : Option UsbDevice

-- `send_config`, which nothing reads, is left out.
pub record RetSubmit (T : Type 0) : Type 0 where
  pub header : Header
  pub status : ℕ
  pub actual_length : ℕ
  pub start_frame : ℕ
  pub number_of_packets : ℕ
  pub error_count : ℕ
  pub transfer : Option T

pub record RetUnlink : Type 0 where
  pub header : Header
  pub status : ℕ

-- What `to_socket` hands over: one gathering write of some buffers, a write followed by others as
-- separate calls, or a header, behind which the handler sends the data of a transfer itself if
-- the header went out.
pub data Output (T : Type 0) : Type 0 where
  gather : List (List ℕ) → Output T
  writes : List (List ℕ) → Output T
  chunked : List ℕ → T → ℕ → Output T

unfoldable pub devlist_head : Bool → OpRepDevlist → List ℕ
devlist_head little r =
    to_network_data little
      (int 2 usbip_version ∷ int 2 op_rep_devlist ∷ int 4 r.status ∷ int 4 r.device_count ∷ [])

unfoldable pub append_devices : Bool → List ℕ → List UsbDevice → List ℕ
append_devices little result [] = result
append_devices little result (d ∷ ds) =
    append_devices little (result ++ to_bytes_with_interfaces little d) ds

unfoldable pub rep_devlist_to_bytes : Bool → OpRepDevlist → List ℕ
rep_devlist_to_bytes little r = append_devices little (devlist_head little r) r.devices

-- An error of one write does not keep the loop from the next.
unfoldable pub rep_devlist_to_socket : {T : Type 0} → Bool → OpRepDevlist → Output T
rep_devlist_to_socket little r =
    writes (devlist_head little r ∷ map (to_bytes_with_interfaces little) r.devices)

unfoldable pub create_from_devices : List UsbDevice → OpRepDevlist
create_from_devices devices = record {
  status = 0;
  device_count = length devices % 2 ^ 32;
  devices = devices;
}

abbrev pub rep_import_fields : OpRepImport → List Field
rep_import_fields r = int 2 usbip_version ∷ int 2 op_rep_import ∷ int 4 r.status ∷ []

unfoldable pub append_device : Bool → List ℕ → Option UsbDevice → List ℕ
append_device little result none = result
append_device little result (some d) =
    vector_append_to_net little result (arr (device_to_bytes little d) ∷ [])

unfoldable pub rep_import_to_bytes : Bool → OpRepImport → List ℕ
rep_import_to_bytes little r =
    let result = to_network_data little (rep_import_fields r) in
    if r.status == 0 then append_device little result r.device else result

unfoldable pub device_buffer : Bool → Option UsbDevice → List (List ℕ)
device_buffer little none = []
device_buffer little (some d) = device_to_bytes little d ∷ []

unfoldable pub rep_import_to_socket : {T : Type 0} → Bool → OpRepImport → Output T
rep_import_to_socket little r =
    let data1 = to_network_array little (rep_import_fields r) in
    gather (data1 ∷ (if r.status == 0 then device_buffer little r.device else []))

abbrev pub create_on_failure_with_status : ℕ → OpRepImport
create_on_failure_with_status status = record { status = status; device = none }

abbrev pub create_on_failure : OpRepImport
create_on_failure = create_on_failure_with_status status_na

abbrev pub create_on_success : UsbDevice → OpRepImport
create_on_success d = record { status = status_ok; device = some d }

abbrev pub result_fields : {T : Type 0} → RetSubmit T → List Field
result_fields r =
    int 4 r.status
    ∷ int 4 r.actual_length
    ∷ int 4 r.start_frame
    ∷ int 4 r.number_of_packets
    ∷ int 4 r.error_count
    ∷ []

unfoldable pub append_result :
    {S T : Type 0} → Bool → Handler S T → RetSubmit T → List ℕ → Option T → List ℕ
append_result little handler r total none = total
append_result little handler r total (some t) =
    if ltb 0 r.actual_length
    then append_iso little handler t 0 (rounds (num_iso r.number_of_packets)) (
        total
        ++ buffer_bytes (handler.get_transfer_buffer t) (handler.get_read_data_offset t)
            r.actual_length)
    else total

unfoldable pub ret_submit_to_bytes : {S T : Type 0} → Bool → Handler S T → RetSubmit T → List ℕ
ret_submit_to_bytes little handler r =
    append_result little handler r
      (to_network_data little (
          arr (header_to_bytes little r.header)
          ∷ arr (to_network_array little (result_fields r))
          ∷ [])
        ++ replicate 8 0)
      r.transfer

-- The buffers of the packets' data from index `i` on.
unfoldable pub packet_buffers : {S T : Type 0} → Handler S T → T → ℕ → ℕ → ℕ → List (List ℕ)
packet_buffers handler t i zero current_offset = []
packet_buffers handler t i (suc n) current_offset =
    let iso = handler.get_iso_descriptor t i in
    buffer_bytes (handler.get_transfer_buffer t) current_offset iso.actual_length
    ∷ packet_buffers handler t (i + 1) n
        (add_size current_offset iso.length_in_transfer_buffer_only_for_send)

-- `asio::buffer(iso_desc.to_bytes())` points to an array whose life ends with the statement:
-- `temporaries i` is what stands in that memory when the write reads it, of which nothing is known.
unfoldable pub descriptor_buffers : (ℕ → List ℕ) → ℕ → ℕ → List (List ℕ)
descriptor_buffers temporaries i zero = []
descriptor_buffers temporaries i (suc n) = temporaries i ∷ descriptor_buffers temporaries (i + 1) n

-- `num_iso == 0`
abbrev pub is_zero : ℤ → Bool
is_zero (pos n) = n == 0
is_zero (negsuc n) = false

unfoldable pub submit_output :
    {S T : Type 0} → Handler S T → (ℕ → List ℕ) → RetSubmit T → List ℕ → Option T → Output T
submit_output handler temporaries r data1 none = gather (data1 ∷ [])
submit_output handler temporaries r data1 (some t) =
    let n = rounds (num_iso r.number_of_packets) in
    if not (ltb 0 r.actual_length)
    then gather (data1 ∷ [])
    else if is_zero (num_iso r.number_of_packets)
    then (if handler.custom_transfer_io
        then chunked data1 t r.actual_length
        else gather (
            data1
            ∷ buffer_bytes (handler.get_transfer_buffer t) (handler.get_read_data_offset t)
                r.actual_length
            ∷ []))
    else gather (data1 ∷ (packet_buffers handler t 0 n 0 ++ descriptor_buffers temporaries 0 n))

-- `memory` is what the array with the padding held before.
unfoldable pub ret_submit_to_socket :
    {S T : Type 0} → Bool → List ℕ → (ℕ → List ℕ) → Handler S T → RetSubmit T → Output T
ret_submit_to_socket little memory temporaries handler r =
    submit_output handler temporaries r
      (array_add_padding memory
        (to_network_array little (arr (header_to_bytes little r.header) ∷ result_fields r)))
      r.transfer

unfoldable pub create_ret_submit : {T : Type 0} → ℕ → ℕ → ℕ → ℕ → ℕ → Option T → RetSubmit T
create_ret_submit seqnum status actual_length start_frame number_of_packets transfer = record {
  header = get_server_header usbip_ret_submit seqnum;
  status = status;
  actual_length = actual_length;
  start_frame = start_frame;
  number_of_packets = number_of_packets;
  error_count = 0;
  transfer = transfer;
}

unfoldable pub create_ret_submit_with_status_and_no_iso :
    {T : Type 0} → ℕ → ℕ → ℕ → Option T → RetSubmit T
create_ret_submit_with_status_and_no_iso seqnum status actual_length transfer =
    create_ret_submit seqnum status actual_length 0 0 transfer

unfoldable pub create_ret_submit_with_status_and_no_data : {T : Type 0} → ℕ → ℕ → ℕ → RetSubmit T
create_ret_submit_with_status_and_no_data seqnum status actual_length =
    create_ret_submit seqnum status actual_length 0 0 none

unfoldable pub create_ret_submit_ok_without_data : {T : Type 0} → ℕ → ℕ → RetSubmit T
create_ret_submit_ok_without_data seqnum actual_length =
    create_ret_submit seqnum (urb_status 0) actual_length 0 0 none

unfoldable pub create_ret_submit_epipe_no_iso : {T : Type 0} → ℕ → ℕ → Option T → RetSubmit T
create_ret_submit_epipe_no_iso seqnum actual_length transfer =
    create_ret_submit_with_status_and_no_iso seqnum (urb_status epipe) actual_length transfer

unfoldable pub create_ret_submit_epipe_without_data : {T : Type 0} → ℕ → ℕ → RetSubmit T
create_ret_submit_epipe_without_data seqnum actual_length =
    create_ret_submit seqnum (urb_status epipe) actual_length 0 0 none

unfoldable pub create_ret_submit_ok_with_no_iso : {T : Type 0} → ℕ → ℕ → Option T → RetSubmit T
create_ret_submit_ok_with_no_iso seqnum actual_length transfer =
    create_ret_submit_with_status_and_no_iso seqnum (urb_status 0) actual_length transfer

unfoldable pub ret_unlink_to_bytes : Bool → List ℕ → RetUnlink → List ℕ
ret_unlink_to_bytes little memory r =
    array_add_padding memory
      (to_network_array little (arr (header_to_bytes little r.header) ∷ int 4 r.status ∷ []))

unfoldable pub create_ret_unlink : ℕ → ℕ → RetUnlink
create_ret_unlink seqnum status = record {
  header = get_server_header usbip_ret_unlink seqnum;
  status = status;
}

unfoldable pub create_ret_unlink_success : ℕ → RetUnlink
create_ret_unlink_success seqnum = create_ret_unlink seqnum (urb_status 0)
