-- ===== src/Msc/Blocks.antt =====
-- The command and status blocks of the bulk-only transport, between a host and a virtual disk:
-- components/usbipdcpp/usbipdcpp/include/virtual_device/MscConstants.h and src/virtual_device/devices/
-- MscBulkOnlyHandler.cpp.
use esp32_usb_ip.Prelude.{
  ℕ, ◌+◌, ◌*◌, ◌/◌, ◌%◌, ◌^◌, ◌≤◌, ◌<◌, ◌≡◌, refl, sym, ap, ap₂, ◌∙◌, Bool, true, false,
  le→ltb_false, ne→==_false, if◌then◌else◌, some, List, [], ◌∷◌, ◌++◌, append-nil, length,
  length-append, take, drop, take-append, drop-append, take-long, get_or, arith,
}
use native.Mathlib.Nat.{le_of_eq}
use esp32_usb_ip.Prelude.Bytes.{IsU32}
use esp32_usb_ip.Wire.{to_memory, from_memory}
use esp32_usb_ip.Wire.Endian.{length-to_memory, from_memory-to_memory}
use esp32_usb_ip.Device.{is_in}
use esp32_usb_ip.Protocol.Response.{create_ret_submit, create_ret_submit_with_status_and_no_iso}
use esp32_usb_ip.Msc.{
  idle, data_in, status, Cbw, cbw_of_bytes, csw_bytes, StorageBackend, MscBulkOnlyHandler,
}
use esp32_usb_ip.Msc.Scsi.{
  command_lba, command_count, start_read, start_write, staged, read_write, scsi_command, run_cbw,
  do_cbw, block_limit,
}
use esp32_usb_ip.Msc.Bulk.{
  send_csw, bulk_in, bulk_out, acknowledged, command_done, handle_bulk_transfer,
}
use esp32_usb_ip.Msc.Host.{
  Urb, cbw_bytes, block_cbw, passed, handle, serve, payload, reply_data, AreOk, Delivers,
}

-- A field of four bytes in front of what follows.
front :
    (little : Bool) (v : ℕ) (rest : List ℕ)
    → IsU32 v
    → from_memory little (take 4 (to_memory little 4 v ++ rest)) ≡ v
front little v rest h =
    ap (from_memory little)
      (take-append (to_memory little 4 v) rest 4 (length-to_memory little 4 v))
    ∙ from_memory-to_memory little 4 v h

behind : (little : Bool) (v : ℕ) (rest : List ℕ) → drop 4 (to_memory little 4 v ++ rest) ≡ rest
behind little v rest = drop-append (to_memory little 4 v) rest 4 (length-to_memory little 4 v)

-- The fields of a command block as it is sent.
pub cbw_of_bytes-cbw_bytes :
    (little : Bool) (c : Cbw)
    → IsU32 c.signature
    → IsU32 c.tag
    → IsU32 c.data_transfer_length
    → length c.cb ≡ 16
    → cbw_of_bytes little (cbw_bytes little c) ≡ c
unfolding cbw_of_bytes cbw_bytes
cbw_of_bytes-cbw_bytes little c hs ht hl size =
    let rest = c.flags ∷ c.lun ∷ c.cb_length ∷ c.cb in
    let from_length = to_memory little 4 c.data_transfer_length ++ rest in
    let from_tag = to_memory little 4 c.tag ++ from_length in
    rw (
      behind little c.signature from_tag,
      behind little c.tag from_length,
      behind little c.data_transfer_length rest,
      front little c.signature from_tag hs,
      front little c.tag from_length ht,
      front little c.data_transfer_length rest hl,
      take-long 16 c.cb (omega (arith, size)),
    )

length-cbw_bytes : (little : Bool) (c : Cbw) → length c.cb ≡ 16 → length (cbw_bytes little c) ≡ 31
unfolding cbw_bytes
length-cbw_bytes little c size =
    let rest = c.flags ∷ c.lun ∷ c.cb_length ∷ c.cb in
    let from_length = to_memory little 4 c.data_transfer_length ++ rest in
    omega (
      arith,
      size,
      length-append (to_memory little 4 c.signature) (to_memory little 4 c.tag ++ from_length),
      length-append (to_memory little 4 c.tag) from_length,
      length-append (to_memory little 4 c.data_transfer_length) rest,
      length-to_memory little 4 c.signature,
      length-to_memory little 4 c.tag,
      length-to_memory little 4 c.data_transfer_length,
    )

block_lba :
    (operation flags tag n lba count : ℕ)
    → IsU32 lba
    → command_lba (block_cbw operation flags tag n lba count) ≡ lba
block_lba operation flags tag n lba count h = omega arith

block_count_lem :
    (operation flags tag n lba count : ℕ)
    → 0 < count
    → command_count (block_cbw operation flags tag n lba count) ≡ count
block_count_lem operation flags tag n lba count pos =
    let joined : count / 2 ^ 8 * 2 ^ 8 + count % 2 ^ 8 ≡ count = omega arith in
    rw (joined, ne→==_false count 0 (omega arith))

-- A transfer that brings the command block `c`.
abbrev pub Brings : Bool → Cbw → Urb → Type 0
Brings little c u = (is_in u.ep ≡ false) × (u.transfer.bytes ≡ cbw_bytes little c)

module _ {D : Type 0} (b : StorageBackend D) (little : Bool) (m : MscBulkOnlyHandler D) where
  do_cbw-cbw_bytes :
      (c : Cbw)
      → c.signature ≡ 0x43425355
      → IsU32 c.tag
      → IsU32 c.data_transfer_length
      → length c.cb ≡ 16
      → do_cbw (some b) false little (cbw_bytes little c) m
        ≡ scsi_command (some b) false (get_or c.cb 0 0) (record m { current_cbw = c })
  unfolding do_cbw run_cbw
  do_cbw-cbw_bytes c sig ht hl size = rw (
    le→ltb_false _ _ (le_of_eq (sym (length-cbw_bytes little c size))),
    cbw_of_bytes-cbw_bytes little c (rw sig (omega arith)) ht hl size,
    sig,
  )

  handle-idle :
      (u : Urb) (c : Cbw)
      → Brings little c u
      → m.state ≡ idle
      → handle (some b) false little u m
        ≡ acknowledged u.seqnum u.transfer_buffer_length
            (command_done (do_cbw (some b) false little (cbw_bytes little c) m))
  unfolding handle_bulk_transfer bulk_out
  handle-idle u c (out, e) at = rw out (
      ap₂ (λ st bytes. bulk_out (some b) false little u.seqnum u.transfer_buffer_length bytes st m)
        at e)

  module _ (tag n lba count : ℕ) (ht : IsU32 tag) (hl : IsU32 n) (h : IsU32 lba) (pos : 0 < count)
      (within : lba + count ≤ b.block_count) where
    abbrev commanded : ℕ → ℕ → MscBulkOnlyHandler D
    commanded operation flags = record m { current_cbw = block_cbw operation flags tag n lba count }

    read_write-within :
        (reads : Bool) (m' : MscBulkOnlyHandler D)
        → read_write (some b) false reads lba count m'
          ≡ (if reads then start_read (some b) lba count m' else some (start_write lba count m'))
    unfolding read_write block_limit
    read_write-within reads m' = rw (le→ltb_false _ _ within)

    do_write :
        do_cbw (some b) false little (cbw_bytes little (block_cbw 0x2A 0 tag n lba count)) m
        ≡ some (start_write lba count (commanded 0x2A 0))
    unfolding scsi_command
    do_write =
        let m' = commanded 0x2A 0 in
        do_cbw-cbw_bytes (block_cbw 0x2A 0 tag n lba count) refl ht hl refl
        ∙ ap₂ (λ l k. read_write (some b) false false l k m') (block_lba 0x2A 0 tag n lba count h)
            (block_count_lem 0x2A 0 tag n lba count pos)
        ∙ read_write-within false m'

    do_read :
        do_cbw (some b) false little (cbw_bytes little (block_cbw 0x28 0x80 tag n lba count)) m
        ≡ staged (commanded 0x28 0x80) (b.read lba count m.disk)
    unfolding scsi_command start_read
    do_read =
        let m' = commanded 0x28 0x80 in
        do_cbw-cbw_bytes (block_cbw 0x28 0x80 tag n lba count) refl ht hl refl
        ∙ ap₂ (λ l k. read_write (some b) false true l k m') (block_lba 0x28 0x80 tag n lba count h)
            (block_count_lem 0x28 0x80 tag n lba count pos)
        ∙ read_write-within true m'

    -- WRITE (10) and READ (10) begin their data phases.
    pub handle-write :
        (u : Urb)
        → Brings little (block_cbw 0x2A 0 tag n lba count) u
        → m.state ≡ idle
        → handle (some b) false little u m
          ≡ acknowledged u.seqnum u.transfer_buffer_length
              (some (start_write lba count (commanded 0x2A 0)))
    unfolding start_write
    handle-write u brings at =
        handle-idle u (block_cbw 0x2A 0 tag n lba count) brings at
        ∙ ap (λ o. acknowledged u.seqnum u.transfer_buffer_length (command_done o)) do_write

    pub handle-read :
        (u : Urb) (bytes : List ℕ) (disk : D)
        → Brings little (block_cbw 0x28 0x80 tag n lba count) u
        → m.state ≡ idle
        → b.read lba count m.disk ≡ some (bytes, disk)
        → handle (some b) false little u m
          ≡ acknowledged u.seqnum u.transfer_buffer_length (
              some (record m {
                current_cbw = block_cbw 0x28 0x80 tag n lba count;
                staging_offset = 0;
                staging_data = bytes;
                state = data_in;
                disk = disk;
              }))
    unfolding staged
    handle-read u bytes disk brings at read =
        handle-idle u (block_cbw 0x28 0x80 tag n lba count) brings at
        ∙ ap (λ o. acknowledged u.seqnum u.transfer_buffer_length (command_done o))
            (do_read ∙ ap (staged (commanded 0x28 0x80)) read)

  handle-csw :
      (u : Urb)
      → is_in u.ep ≡ true
      → m.state ≡ status
      → handle (some b) false little u m ≡ some (send_csw little u.seqnum u.transfer m)
  unfolding handle_bulk_transfer bulk_in
  handle-csw u into at =
      rw into
        (ap (λ st. some (bulk_in little u.seqnum u.transfer_buffer_length u.transfer st m)) at)

  -- The status block of a command that did not fail.
  pub serve-csw :
      (u : Urb)
      → is_in u.ep ≡ true
      → m.state ≡ status
      → m.command_failed ≡ false
      → m.data_residue ≡ 0
      → Delivers
          (passed little m.current_cbw.tag)
          (record m { command_failed = false; state = idle })
          (serve (some b) false little (u ∷ []) m)
  unfolding serve send_csw Delivers payload AreOk reply_data create_ret_submit
      create_ret_submit_with_status_and_no_iso
  serve-csw u into at passes residue =
      let csw : Bool → ℕ → List ℕ = λ failed left. csw_bytes little (record {
        signature = 0x53425355;
        tag = m.current_cbw.tag;
        data_residue = left;
        status = if failed then 1 else 0;
      }) in
      rw (handle-csw u into at) (
        append-nil (csw m.command_failed m.data_residue) ∙ ap₂ csw passes residue,
        (refl, tt),
        refl,
      )
