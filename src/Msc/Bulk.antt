-- ===== src/Msc/Bulk.antt =====
-- The phases of a transfer to a virtual disk: `handle_bulk_transfer` of components/usbipdcpp/
-- usbipdcpp/src/virtual_device/devices/MscBulkOnlyHandler.cpp.
use esp32_usb_ip.Prelude.{
  ℕ, zero, suc, ◌+◌, ◌-◌, ◌*◌, ◌%◌, ◌^◌, min, Bool, false, leb, ltb, if◌then◌else◌, Option, none,
  some, List, [], ◌++◌, length, get_or, take, drop,
}
use esp32_usb_ip.Prelude.Bytes.{size_mod}
use esp32_usb_ip.Device.{Endpoint, is_in}
use esp32_usb_ip.Protocol.{urb_status}
use esp32_usb_ip.Protocol.Transfer.{GenericTransfer}
use esp32_usb_ip.Protocol.Response.{
  RetSubmit, create_ret_submit_with_status_and_no_iso, create_ret_submit_with_status_and_no_data,
  create_ret_submit_epipe_without_data,
}
use esp32_usb_ip.Msc.{
  BotState, idle, data_in, data_out, status, csw_signature, csw_size, csw_bytes, StorageBackend,
  MscBulkOnlyHandler,
}
use esp32_usb_ip.Msc.Scsi.{do_cbw}

-- Every path submits one reply; `none` is undefined behaviour.
abbrev pub Result : Type 0 → Type 0
Result D = Option (RetSubmit GenericTransfer × MscBulkOnlyHandler D)

unfoldable pub send_stall : ℕ → RetSubmit GenericTransfer
send_stall seqnum = create_ret_submit_epipe_without_data seqnum 0

-- `staging_data_.size() - staging_offset_`
unfoldable pub remaining : {D : Type 0} → MscBulkOnlyHandler D → ℕ
remaining m =
    if leb m.staging_offset (length m.staging_data)
    then length m.staging_data - m.staging_offset
    else length m.staging_data + size_mod - m.staging_offset

-- After all data was sent.
unfoldable pub end_data_in : {D : Type 0} → MscBulkOnlyHandler D → MscBulkOnlyHandler D
end_data_in m =
    if leb (length m.staging_data) m.staging_offset
    then record m { staging_data = []; staging_offset = 0; data_residue = 0; state = status }
    else m

unfoldable pub data_reply : ℕ → List ℕ → GenericTransfer → RetSubmit GenericTransfer
data_reply seqnum bytes trx =
    create_ret_submit_with_status_and_no_iso seqnum (urb_status 0) (length bytes % 2 ^ 32)
      (some (record trx { bytes = bytes; actual_length = length bytes }))

unfoldable pub send_data :
    {D : Type 0}
    → ℕ
    → ℕ
    → GenericTransfer
    → MscBulkOnlyHandler D
    → RetSubmit GenericTransfer × MscBulkOnlyHandler D
send_data seqnum len trx m =
    if ltb 0 len
    then (
      data_reply seqnum (take len (drop m.staging_offset m.staging_data)) trx,
      end_data_in (record m { staging_offset = m.staging_offset + len }),
    )
    else (create_ret_submit_with_status_and_no_data seqnum (urb_status 0) 0, end_data_in m)

unfoldable pub send_csw :
    {D : Type 0}
    → Bool
    → ℕ
    → GenericTransfer
    → MscBulkOnlyHandler D
    → RetSubmit GenericTransfer × MscBulkOnlyHandler D
send_csw little seqnum trx m =
    let csw = csw_bytes little (record {
      signature = csw_signature;
      tag = m.current_cbw.tag;
      data_residue = m.data_residue;
      status = if m.command_failed then 1 else 0;
    }) in
    (
      create_ret_submit_with_status_and_no_iso seqnum (urb_status 0) csw_size
          (some (record trx { bytes = csw; actual_length = csw_size })),
      record m { command_failed = false; state = idle },
    )

-- The switch over the state, of a transfer IN.
unfoldable pub bulk_in :
    {D : Type 0}
    → Bool
    → ℕ
    → ℕ
    → GenericTransfer
    → BotState
    → MscBulkOnlyHandler D
    → RetSubmit GenericTransfer × MscBulkOnlyHandler D
bulk_in little seqnum transfer_buffer_length trx data_in m =
    send_data seqnum (min transfer_buffer_length (remaining m)) trx m
bulk_in little seqnum transfer_buffer_length trx status m = send_csw little seqnum trx m
bulk_in little seqnum transfer_buffer_length trx _ m = (send_stall seqnum, m)

-- The 64-bit LBA of the descriptor at index `i`, and its 32-bit count.
unfoldable pub big_value : ℕ → ℕ → List ℕ → ℕ
big_value zero i d = 0
big_value (suc n) i d = get_or d (i + n) 0 + 2 ^ 8 * big_value n i d

-- The loop over the descriptors of 16 bytes; each round takes 16 bytes, so as many rounds as there
-- are bytes are more than enough.
unfoldable pub punch_from : {D : Type 0} → StorageBackend D → ℕ → ℕ → List ℕ → Option D → Option D
punch_from b zero i d disk = disk
punch_from b (suc rounds) i d none = none
punch_from b (suc rounds) i d (some disk) =
    let rest =
      punch_from b rounds (i + 16) d
        (b.punch_hole (big_value 8 i d) (big_value 4 (i + 8) d) disk) in
    if leb (i + 16) (length d) then rest else some disk

-- Without a backend the first round is undefined.
unfoldable pub punch_holes : {D : Type 0} → Option (StorageBackend D) → List ℕ → D → Option D
punch_holes none d disk = if leb 24 (length d) then none else some disk
punch_holes (some b) d disk = punch_from b (length d) 8 d (some disk)

abbrev pub unmapped : {D : Type 0} → MscBulkOnlyHandler D → Option D → Option (MscBulkOnlyHandler D)
unmapped m none = none
unmapped m (some disk) = some (record m {
  staging_data = [];
  data_out_unmap = false;
  data_residue = 0;
  state = status;
  disk = disk;
})

-- What `backend_->write` returns is not read.
abbrev pub written :
    {D : Type 0} → MscBulkOnlyHandler D → Option (Bool × D) → Option (MscBulkOnlyHandler D)
written m none = none
written m (some (succeeded, disk)) =
    some (record m { staging_data = []; data_residue = 0; state = status; disk = disk })

unfoldable pub write_blocks :
    {D : Type 0} → Option (StorageBackend D) → MscBulkOnlyHandler D → Option (MscBulkOnlyHandler D)
write_blocks none m = none
write_blocks (some b) m =
    if leb ((m.write_lba + m.write_count) % 2 ^ 64) (b.block_count)
    then (if leb (m.write_count * b.block_size % size_mod) (length m.staging_data)
        then written m (b.write m.write_lba m.write_count m.staging_data m.disk)
        else some m)
    else some m

-- The data phase, with the data appended.
unfoldable pub take_data :
    {D : Type 0} → Option (StorageBackend D) → MscBulkOnlyHandler D → Option (MscBulkOnlyHandler D)
take_data backend m =
    if m.data_out_unmap
    then (if leb m.write_count (length m.staging_data)
        then unmapped m (punch_holes backend m.staging_data m.disk)
        else some m)
    else write_blocks backend m

-- A command without a data phase.
abbrev pub to_status : {D : Type 0} → BotState → MscBulkOnlyHandler D → MscBulkOnlyHandler D
to_status idle m = record m { state = status }
to_status _ m = m

abbrev pub command_done :
    {D : Type 0} → Option (MscBulkOnlyHandler D) → Option (MscBulkOnlyHandler D)
command_done none = none
command_done (some m) = some (to_status m.state m)

abbrev pub acknowledged : {D : Type 0} → ℕ → ℕ → Option (MscBulkOnlyHandler D) → Result D
acknowledged seqnum transfer_buffer_length none = none
acknowledged seqnum transfer_buffer_length (some m) =
    some (create_ret_submit_with_status_and_no_data seqnum (urb_status 0) transfer_buffer_length, m)

module _ {D : Type 0} (backend : Option (StorageBackend D)) (read_only little : Bool) where
  -- The switch over the state, of a transfer OUT.
  unfoldable pub bulk_out : ℕ → ℕ → List ℕ → BotState → MscBulkOnlyHandler D → Result D
  bulk_out seqnum transfer_buffer_length bytes idle m =
      acknowledged seqnum transfer_buffer_length
        (command_done (do_cbw backend read_only little bytes m))
  bulk_out seqnum transfer_buffer_length bytes data_out m =
      acknowledged seqnum transfer_buffer_length
        (take_data backend (record m { staging_data = m.staging_data ++ bytes }))
  bulk_out seqnum transfer_buffer_length bytes _ m = some (send_stall seqnum, m)

  unfoldable pub handle_bulk_transfer :
      ℕ → Endpoint → ℕ → GenericTransfer → MscBulkOnlyHandler D → Result D
  handle_bulk_transfer seqnum ep transfer_buffer_length trx m =
      if is_in ep
      then some (bulk_in little seqnum transfer_buffer_length trx m.state m)
      else bulk_out seqnum transfer_buffer_length trx.bytes m.state m
