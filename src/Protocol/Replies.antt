-- ===== src/Protocol/Replies.antt =====
-- The replies of components/usbipdcpp/usbipdcpp/src/protocol.cpp: `to_bytes` against `to_socket`.
use esp32_usb_ip.Prelude.{
  ℕ, ◌≡◌, sym, ap, ◌∙◌, Bool, ◌==◌, Bool-cases, inl, inr, Option, none, some, List, [], ◌∷◌, ◌++◌,
  append_assoc, append-nil, concat, map,
}
use esp32_usb_ip.Wire.{arr, to_network_array, to_network_data}
use esp32_usb_ip.Wire.Pack.{to_network_array_lem, to_network_data_lem, vector_append_to_net_lem}
use esp32_usb_ip.Device.{UsbDevice, device_to_bytes, to_bytes_with_interfaces}
use esp32_usb_ip.Protocol.IsoRows.{concat_fields_arr}
use esp32_usb_ip.Protocol.Response.{
  OpRepDevlist, OpRepImport, Output, gather, writes, chunked, rep_devlist_to_bytes,
  rep_devlist_to_socket, append_devices, devlist_head, rep_import_to_bytes, rep_import_to_socket,
  append_device, device_buffer, rep_import_fields,
}

-- All that is written by `to_socket` itself, if no write fails.
unfoldable pub sent : {T : Type 0} → Output T → List ℕ
sent (gather buffers) = concat buffers
sent (writes buffers) = concat buffers
sent (chunked header t n) = header

append_devices_lem :
    (little : Bool) (result : List ℕ) (ds : List UsbDevice)
    → append_devices little result ds ≡ result ++ concat (map (to_bytes_with_interfaces little) ds)
unfolding append_devices
append_devices_lem little result [] = sym (append-nil result)
append_devices_lem little result (d ∷ ds) =
    append_devices_lem little (result ++ to_bytes_with_interfaces little d) ds
    ∙ append_assoc result (to_bytes_with_interfaces little d) _

-- A device list goes out as its bytes, whatever devices it holds.
rep_devlist_to_socket-bytes :
    (T : Type 0) (little : Bool) (r : OpRepDevlist)
    → sent (rep_devlist_to_socket {T = T} little r) ≡ rep_devlist_to_bytes little r
unfolding sent rep_devlist_to_socket rep_devlist_to_bytes
rep_devlist_to_socket-bytes T little r =
    sym (append_devices_lem little (devlist_head little r) r.devices)

append_device_lem :
    (little : Bool) (result : List ℕ) (d : Option UsbDevice)
    → append_device little result d ≡ result ++ concat (device_buffer little d)
unfolding append_device device_buffer
append_device_lem little result none = sym (append-nil result)
append_device_lem little result (some d) =
    vector_append_to_net_lem little result (arr (device_to_bytes little d) ∷ [])
    ∙ ap (λ t. result ++ t)
        (concat_fields_arr (device_to_bytes little d) ∙ sym (append-nil (device_to_bytes little d)))

-- A reply to an import goes out as its bytes, on success and on failure.
rep_import_to_socket-bytes :
    (T : Type 0) (little : Bool) (r : OpRepImport)
    → sent (rep_import_to_socket {T = T} little r) ≡ rep_import_to_bytes little r
unfolding sent rep_import_to_socket rep_import_to_bytes
rep_import_to_socket-bytes T little r = elim (Bool-cases (r.status == 0)) [
  | inl success ↦ rw success (
      ap (λ t. t ++ concat (device_buffer little r.device)) same
      ∙ sym (append_device_lem little (to_network_data little (rep_import_fields r)) r.device))
  | inr failure ↦ rw failure (append-nil _ ∙ same)
]
  where
    same :
        to_network_array little (rep_import_fields r) ≡ to_network_data little (rep_import_fields r)
    same = to_network_array_lem little _ ∙ sym (to_network_data_lem little _)
