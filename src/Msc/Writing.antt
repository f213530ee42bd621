-- ===== src/Msc/Writing.antt =====
-- The data phase of a WRITE to a virtual disk: components/usbipdcpp/usbipdcpp/src/virtual_device/
-- devices/MscBulkOnlyHandler.cpp.
use esp32_usb_ip.Prelude.{
  ◌+◌, ◌*◌, ◌%◌, ◌^◌, ◌≤◌, ◌<◌, ◌≡◌, refl, sym, ap, ◌∙◌, Bool, false, leb, le→leb, lt→leb_false,
  if◌then◌else◌, some, List, [], ◌∷◌, ◌++◌, append-nil, append_assoc, length, length-append, arith,
}
use mathlib.Core.Path.{subst}
use esp32_usb_ip.Prelude.Bytes.{size_mod}
use esp32_usb_ip.Device.{is_in}
use esp32_usb_ip.Protocol.Response.{create_ret_submit, create_ret_submit_with_status_and_no_data}
use esp32_usb_ip.Msc.{data_out, status, StorageBackend, MscBulkOnlyHandler}
use esp32_usb_ip.Msc.Bulk.{
  bulk_out, take_data, write_blocks, written, unmapped, punch_holes, acknowledged,
  handle_bulk_transfer,
}
use esp32_usb_ip.Msc.Host.{
  Urb, handle, serve, payload, reply_data, AreOk, sent_data, Fills, Delivers, Delivers-then,
}

-- After the blocks were written.
abbrev pub all_written : {D : Type 0} → MscBulkOnlyHandler D → D → MscBulkOnlyHandler D
all_written m disk = record m { staging_data = []; data_residue = 0; state = status; disk = disk }

module _ {D : Type 0} (b : StorageBackend D) (read_only little : Bool) where
  -- A transfer OUT of the data phase.
  handle-data_out :
      (u : Urb) (m : MscBulkOnlyHandler D)
      → is_in u.ep ≡ false
      → m.state ≡ data_out
      → m.data_out_unmap ≡ false
      → handle (some b) read_only little u m
        ≡ acknowledged u.seqnum u.transfer_buffer_length
            (write_blocks (some b) (record m { staging_data = m.staging_data ++ u.transfer.bytes }))
  unfolding handle_bulk_transfer bulk_out take_data
  handle-data_out u m out at plain = rw out (
      ap
        (λ st.
          bulk_out (some b) read_only little u.seqnum u.transfer_buffer_length u.transfer.bytes st
            m)
        at
      ∙ ap (acknowledged u.seqnum u.transfer_buffer_length) (
          ap
            (λ unmaps.
              if unmaps
              then (if leb m.write_count (length (m.staging_data ++ u.transfer.bytes))
                  then unmapped (record m { staging_data = m.staging_data ++ u.transfer.bytes })
                      (punch_holes (some b) (m.staging_data ++ u.transfer.bytes) m.disk)
                  else some (record m { staging_data = m.staging_data ++ u.transfer.bytes }))
              else write_blocks (some b)
                  (record m { staging_data = m.staging_data ++ u.transfer.bytes }))
            plain))

  write_blocks-part :
      (m : MscBulkOnlyHandler D)
      → m.write_lba + m.write_count ≤ b.block_count
      → length m.staging_data < m.write_count * b.block_size % size_mod
      → write_blocks (some b) m ≡ some m
  unfolding write_blocks
  write_blocks-part m within short =
      let fits : (m.write_lba + m.write_count) % 2 ^ 64 ≤ b.block_count = omega arith in
      rw (le→leb _ _ fits, lt→leb_false _ _ short)

  write_blocks-full :
      (m : MscBulkOnlyHandler D)
      → m.write_lba + m.write_count ≤ b.block_count
      → m.write_count * b.block_size % size_mod ≤ length m.staging_data
      → write_blocks (some b) m
        ≡ written m (b.write m.write_lba m.write_count m.staging_data m.disk)
  unfolding write_blocks
  write_blocks-full m within full =
      let fits : (m.write_lba + m.write_count) % 2 ^ 64 ≤ b.block_count = omega arith in
      rw (le→leb _ _ fits, le→leb _ _ full)

  -- In whatever pieces a host sends them, the blocks are written once, whole and in order, and the
  -- status phase begins.
  pub serve-data_out :
      (us : List Urb) (m : MscBulkOnlyHandler D) (succeeded : Bool) (disk : D)
      → m.state ≡ data_out
      → m.data_out_unmap ≡ false
      → m.write_lba + m.write_count ≤ b.block_count
      → Fills (m.write_count * b.block_size % size_mod) (length m.staging_data) us
      → b.write m.write_lba m.write_count (m.staging_data ++ sent_data us) m.disk
        ≡ some (succeeded, disk)
      → Delivers [] (all_written m disk) (serve (some b) read_only little us m)
  unfolding serve Fills sent_data Delivers payload AreOk reply_data
      create_ret_submit_with_status_and_no_data create_ret_submit
  serve-data_out [] m succeeded disk at plain within fills e = elim fills [ ]
  serve-data_out (u ∷ []) m succeeded disk at plain within (out, full) e =
      let m' = record m { staging_data = m.staging_data ++ u.transfer.bytes } in
      let all : b.write m.write_lba m.write_count (m.staging_data ++ u.transfer.bytes) m.disk
          ≡ some (succeeded, disk) =
        ap (λ xs. b.write m.write_lba m.write_count (m.staging_data ++ xs) m.disk)
          (sym (append-nil u.transfer.bytes))
        ∙ e in
      rw
        (
          handle-data_out u m out at plain,
          write_blocks-full m' within
              (omega (arith, length-append m.staging_data u.transfer.bytes)),
          all,
        )
        (refl, (refl, tt), refl)
  serve-data_out (u ∷ v ∷ us) m succeeded disk at plain within (out, short, fills) e =
      let m' = record m { staging_data = m.staging_data ++ u.transfer.bytes } in
      let size = length-append m.staging_data u.transfer.bytes in
      let total = m.write_count * b.block_size % size_mod in
      rw (handle-data_out u m out at plain, write_blocks-part m' within (omega (arith, size)))
        (Delivers-then [] [] (all_written m disk)
          (create_ret_submit_with_status_and_no_data u.seqnum 0 u.transfer_buffer_length)
          (serve (some b) read_only little (v ∷ us) m') refl refl
          (serve-data_out (v ∷ us) m' succeeded disk at plain within
            (subst (λ k. Fills total k (v ∷ us)) (sym size) fills)
            (ap (λ xs. b.write m.write_lba m.write_count xs m.disk)
                (append_assoc m.staging_data u.transfer.bytes (sent_data (v ∷ us)))
              ∙ e)))
