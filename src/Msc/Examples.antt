-- ===== src/Msc/Examples.antt =====
-- A disk of four blocks of two bytes, and the theorems about the transport at it.
use esp32_usb_ip.Prelude.{ℕ, ◌≡◌, ◌++◌, refl, arith, true, false, none, some, List, [], ◌∷◌}
use esp32_usb_ip.Device.{Endpoint, is_in}
use esp32_usb_ip.Protocol.Transfer.{GenericTransfer}
use esp32_usb_ip.Msc.{idle, data_out, Cbw, MscBulkOnlyHandler}
use esp32_usb_ip.Msc.Bulk.{handle_bulk_transfer}
use esp32_usb_ip.Msc.Image.{RawImageBackend, image_backend}
use esp32_usb_ip.Msc.Laws.{IsValid, DiskLaws}
use esp32_usb_ip.Msc.Valid.{Served}
use esp32_usb_ip.Msc.Served.{handle_bulk_transfer-Served}
use esp32_usb_ip.Msc.Disk.{IsMapped, image_backend-DiskLaws}
use esp32_usb_ip.Msc.Host.{Urb, cbw_bytes, block_cbw, Fills, Asks, handle, sent_data}
use esp32_usb_ip.Msc.StoreLoad.{whole_command, Loads, serve-store_load}
use esp32_usb_ip.Msc.Unmap.{Hole, holes_bytes, AreHoles, handle-unmap_outside}

abbrev blank : List ℕ
blank = 0 ∷ 1 ∷ 2 ∷ 3 ∷ 4 ∷ 5 ∷ 6 ∷ 7 ∷ []

abbrev small_image : RawImageBackend
small_image = record { block_count = 4; block_size = 2; mapped_data = blank }

abbrev into : Endpoint
into = record { address = 0x81; attributes = 2; max_packet_size = 64; interval = 0 }

abbrev out : Endpoint
out = record { address = 2; attributes = 2; max_packet_size = 64; interval = 0 }

abbrev carrying : List ℕ → GenericTransfer
carrying bytes = record { bytes = bytes; iso_descriptors = []; actual_length = 0; data_offset = 0 }

abbrev sends : ℕ → ℕ → List ℕ → Urb
sends seqnum n bytes = record {
  seqnum = seqnum;
  ep = out;
  transfer_buffer_length = n;
  transfer = carrying bytes;
}

abbrev asks : ℕ → ℕ → Urb
asks seqnum n = record {
  seqnum = seqnum;
  ep = into;
  transfer_buffer_length = n;
  transfer = carrying [];
}

abbrev no_command : Cbw
no_command = record {
  signature = 0;
  tag = 0;
  data_transfer_length = 0;
  flags = 0;
  lun = 0;
  cb_length = 0;
  cb = [];
}

abbrev fresh : MscBulkOnlyHandler (List ℕ)
fresh = record {
  state = idle;
  current_cbw = no_command;
  staging_data = [];
  staging_offset = 0;
  data_residue = 0;
  command_failed = false;
  write_lba = 0;
  write_count = 0;
  data_out_unmap = false;
  disk = blank;
}

fresh-IsValid : IsValid (image_backend small_image) (IsMapped small_image) fresh
fresh-IsValid = record {
  no_residue = refl;
  failed_at = λ e. cc;
  unmaps = λ e. cc;
  offset_within = omega arith;
  offset_start = λ e. refl;
  in_range = λ e f. cc;
  is_open = omega arith;
}

-- Blocks 1 and 2, written in two pieces and read in two others.
abbrev pieces : List Urb
pieces = sends 2 1 (70 ∷ []) ∷ sends 3 3 (71 ∷ 72 ∷ 73 ∷ []) ∷ []

abbrev requests : List Urb
requests = asks 6 3 ∷ asks 7 64 ∷ []

serve-store_load_example :
    Loads
      (image_backend small_image)
      (IsMapped small_image)
      true
      (sent_data pieces)
      9
      10
      (whole_command (sends 1 31 (cbw_bytes true (block_cbw 0x2A 0 9 4 1 2))) pieces (asks 4 13)
        ++ whole_command
            (sends 5 31 (cbw_bytes true (block_cbw 0x28 0x80 10 4 1 2)))
            requests
            (asks 8 13))
      fresh
unfolding is_in Fills Asks image_backend
serve-store_load_example =
    serve-store_load (image_backend small_image) (IsMapped small_image)
      (image_backend-DiskLaws small_image) true 1 2 9 10 4 4 (omega arith) (omega arith)
      (omega arith) (omega arith) (omega arith) (omega arith) (omega arith)
      (sends 1 31 (cbw_bytes true (block_cbw 0x2A 0 9 4 1 2)))
      (sends 5 31 (cbw_bytes true (block_cbw 0x28 0x80 10 4 1 2))) pieces requests (asks 4 13)
      (asks 8 13) (refl, refl) (refl, omega arith, (refl, refl)) refl (refl, refl)
      (refl, omega arith, omega arith, (refl, omega arith, omega arith)) refl fresh fresh-IsValid
      refl

handle_bulk_transfer-Served_example :
    Served (image_backend small_image) (IsMapped small_image) 3 (is_in into) fresh (
      handle_bulk_transfer
        (some (image_backend small_image))
        false
        true
        3
        into
        13
        (carrying [])
        fresh)
handle_bulk_transfer-Served_example =
    handle_bulk_transfer-Served (image_backend small_image) (IsMapped small_image)
      (image_backend-DiskLaws small_image) false true 3 into 13 (carrying []) fresh fresh-IsValid

image_backend-DiskLaws_example : DiskLaws (image_backend small_image) (IsMapped small_image)
image_backend-DiskLaws_example = image_backend-DiskLaws small_image

-- In the data phase of an UNMAP of one descriptor.
abbrev unmapping : MscBulkOnlyHandler (List ℕ)
unmapping = record fresh { state = data_out; data_out_unmap = true; write_count = 24 }

abbrev header : List ℕ
header = 0 ∷ 22 ∷ 0 ∷ 16 ∷ 0 ∷ 0 ∷ 0 ∷ 0 ∷ []

abbrev beyond : Hole
beyond = record { lba = 4; count = 1 }

handle-unmap_outside_example :
    handle
      (some (image_backend small_image))
      false
      true
      (sends 1 24 (header ++ holes_bytes (beyond ∷ [])))
      unmapping
    ≡ none
unfolding is_in AreHoles
handle-unmap_outside_example =
    handle-unmap_outside small_image false true (sends 1 24 (header ++ holes_bytes (beyond ∷ [])))
      unmapping header beyond [] refl refl refl refl refl (omega arith) (omega arith) (omega arith)
