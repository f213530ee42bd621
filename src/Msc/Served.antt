-- ===== src/Msc/Served.antt =====
-- What a virtual disk answers to a bulk transfer, in every state: components/usbipdcpp/usbipdcpp/
-- src/virtual_device/devices/MscBulkOnlyHandler.cpp.
use esp32_usb_ip.Prelude.{
  ℕ, zero, suc, ◌+◌, ◌*◌, ◌%◌, ◌^◌, ◌≡◌, ◌≢◌, refl, Bool, true, false, leb, if_lem, leb→le, Option,
  none, some, List, [], ◌++◌, length, arith, Bool-cases, inl, inr,
}
use esp32_usb_ip.Prelude.Bytes.{size_mod}
use esp32_usb_ip.Device.{Endpoint, is_in}
use esp32_usb_ip.Protocol.{get_server_header}
use esp32_usb_ip.Protocol.Transfer.{GenericTransfer}
use esp32_usb_ip.Protocol.Response.{create_ret_submit, create_ret_submit_with_status_and_no_data}
use esp32_usb_ip.Msc.{BotState, idle, data_in, data_out, status, StorageBackend, MscBulkOnlyHandler}
use esp32_usb_ip.Msc.Scsi.{do_cbw}
use esp32_usb_ip.Msc.Bulk.{
  punch_holes, punch_from, big_value, unmapped, written, write_blocks, take_data, to_status,
  command_done, acknowledged, bulk_out, handle_bulk_transfer,
}
use esp32_usb_ip.Msc.Laws.{Writes, Punches, DiskLaws, Holds, IsValid}
use esp32_usb_ip.Msc.Commands.{Fresh, Commanded, do_cbw-Commanded}
use esp32_usb_ip.Msc.Valid.{takes, Next, Served, accepted, stalled, bulk_in-Served}

module _ {D : Type 0} (b : StorageBackend D) (IsOpen : D → Type 0) (laws : DiskLaws b IsOpen) where
  punch_from-Punches :
      (rounds i : ℕ) (d : List ℕ) (o : Option D)
      → Punches b IsOpen o
      → Punches b IsOpen (punch_from b rounds i d o)
  unfolding punch_from
  punch_from-Punches zero i d o h = h
  punch_from-Punches (suc rounds) i d none h = tt
  punch_from-Punches (suc rounds) i d (some disk) h =
      let punched = b.punch_hole (big_value 8 i d) (big_value 4 (i + 8) d) disk in
      if_lem (Punches b IsOpen) (leb (i + 16) (length d))
        (λ e.
          punch_from-Punches rounds (i + 16) d punched
            (laws.can_punch (big_value 8 i d) (big_value 4 (i + 8) d) disk h))
        (λ e. h)

  module _ (m : MscBulkOnlyHandler D) (h : IsValid b IsOpen m) (at : m.state ≡ data_out) where
    abbrev Taken : Option (MscBulkOnlyHandler D) → Type 0
    Taken none = m.data_out_unmap ≡ true
    Taken (some m') = IsValid b IsOpen m' × Next data_out m'.state

    over :
        (still : Bool) (disk : D)
        → still ≡ false
        → IsOpen disk
        → Taken (
            some (record m {
              staging_data = [];
              data_out_unmap = still;
              data_residue = 0;
              state = status;
              disk = disk;
            }))
    over still disk kept is_open = (
      record {
        no_residue = refl;
        failed_at = λ e. refl;
        unmaps = λ e. cc (kept);
        offset_within = omega (arith, h.offset_start (λ e. cc (e, at)));
        offset_start = λ e. h.offset_start (λ f. cc (f, at));
        in_range = λ e f. cc;
        is_open = is_open;
      },
      inr refl,
    )

    appended : List ℕ → MscBulkOnlyHandler D
    appended bytes = record m { staging_data = m.staging_data ++ bytes }

    more : (bytes : List ℕ) → Taken (some (appended bytes))
    unfolding appended
    more bytes = (
      record {
        no_residue = h.no_residue;
        failed_at = h.failed_at;
        unmaps = h.unmaps;
        offset_within = omega (arith, h.offset_start (λ e. cc (e, at)));
        offset_start = h.offset_start;
        in_range = h.in_range;
        is_open = h.is_open;
      },
      inl at,
    )

    unmapped-Taken :
        (bytes : List ℕ) (o : Option D)
        → m.data_out_unmap ≡ true
        → Punches b IsOpen o
        → Taken (unmapped (appended bytes) o)
    unfolding appended
    unmapped-Taken bytes none unmaps punches = unmaps
    unmapped-Taken bytes (some disk) unmaps punches = over false disk refl punches

    written-Taken :
        (bytes : List ℕ) (o : Option (Bool × D))
        → m.data_out_unmap ≡ false
        → Writes b IsOpen m.write_lba m.write_count (m.staging_data ++ bytes) o
        → Taken (written (appended bytes) o)
    unfolding appended
    written-Taken bytes none kept writes = elim writes [ ]
    written-Taken bytes (some (succeeded, disk)) kept writes =
        over m.data_out_unmap disk kept writes.0

    write_blocks-Taken :
        (bytes : List ℕ) → m.data_out_unmap ≡ false → Taken (write_blocks (some b) (appended bytes))
    unfolding write_blocks appended
    write_blocks-Taken bytes kept =
        let all = m.staging_data ++ bytes in
        if_lem Taken (leb ((m.write_lba + m.write_count) % 2 ^ 64) b.block_count)
          (λ e.
            if_lem Taken (leb (m.write_count * b.block_size % size_mod) (length all))
              (λ full. written-Taken bytes (b.write m.write_lba m.write_count all m.disk) kept (
                laws.can_write m.write_lba m.write_count all m.disk h.is_open (h.in_range at kept)
                  (leb→le (m.write_count * b.block_size % size_mod) (length all) full)))
              (λ e. more bytes))
          (λ e. more bytes)

    take_data-Taken : (bytes : List ℕ) → Taken (take_data (some b) (appended bytes))
    unfolding take_data appended punch_holes
    take_data-Taken bytes =
        let all = m.staging_data ++ bytes in
        if_lem Taken m.data_out_unmap
          (λ unmaps.
            if_lem Taken (leb m.write_count (length all))
              (λ e.
                unmapped-Taken bytes (punch_from b (length all) 8 all (some m.disk)) unmaps
                  (punch_from-Punches (length all) 8 all (some m.disk) h.is_open))
              (λ e. more bytes))
          (λ kept. write_blocks-Taken bytes kept)

  pub Fresh-idle :
      (m : MscBulkOnlyHandler D) → IsValid b IsOpen m → m.state ≡ idle → Fresh b IsOpen m
  Fresh-idle m h at = record {
    is_idle = at;
    not_failed = elim (Bool-cases m.command_failed) [ inl e ↦ cc (h.failed_at e, at) | inr e ↦ e ];
    no_unmap = elim (Bool-cases m.data_out_unmap) [ inl e ↦ cc (h.unmaps e, at) | inr e ↦ e ];
    no_residue = h.no_residue;
    at_start = h.offset_start (λ e. cc (e, at));
    is_open = h.is_open;
  }

  settled :
      (m : MscBulkOnlyHandler D)
      → m.state ≢ idle
      → Holds b IsOpen idle m
      → IsValid b IsOpen m × Next idle m.state
  settled m busy h = (
    record {
      no_residue = h.no_residue;
      failed_at = λ e. absurd (busy (h.failed_at e));
      unmaps = h.unmaps;
      offset_within = h.offset_within;
      offset_start = h.offset_start;
      in_range = h.in_range;
      is_open = h.is_open;
    },
    busy,
  )

  to_status-IsValid :
      (st : BotState) (m : MscBulkOnlyHandler D)
      → m.state ≡ st
      → Holds b IsOpen idle m
      → IsValid b IsOpen (to_status st m) × Next idle (to_status st m).state
  to_status-IsValid idle m at h = (
    record {
      no_residue = h.no_residue;
      failed_at = λ e. refl;
      unmaps = λ e. cc (h.unmaps e, at);
      offset_within = h.offset_within;
      offset_start = λ e. h.offset_start (λ f. cc (f, at));
      in_range = λ e f. cc;
      is_open = h.is_open;
    },
    λ e. cc,
  )
  to_status-IsValid data_in m at h = settled m (λ e. cc (e, at)) h
  to_status-IsValid data_out m at h = settled m (λ e. cc (e, at)) h
  to_status-IsValid status m at h = settled m (λ e. cc (e, at)) h

  module _ (seqnum n : ℕ) (m : MscBulkOnlyHandler D) (h : IsValid b IsOpen m) where
    idle-Served :
        (o : Option (MscBulkOnlyHandler D))
        → m.state ≡ idle
        → Commanded b IsOpen o
        → Served b IsOpen seqnum false m (acknowledged seqnum n (command_done o))
    unfolding takes create_ret_submit_with_status_and_no_data create_ret_submit get_server_header
    idle-Served none at commanded = elim commanded [ ]
    idle-Served (some m') at commanded =
        let done = to_status-IsValid m'.state m' refl commanded in
        (
          refl,
          done.0,
          accepted b IsOpen false idle m (to_status m'.state m')
              (create_ret_submit_with_status_and_no_data seqnum 0 n) at refl refl done.1,
        )

    data_out-Served :
        (o : Option (MscBulkOnlyHandler D)) (at : m.state ≡ data_out)
        → Taken m h at o
        → Served b IsOpen seqnum false m (acknowledged seqnum n o)
    unfolding takes create_ret_submit_with_status_and_no_data create_ret_submit get_server_header
    data_out-Served none at taken = (at, taken)
    data_out-Served (some m') at taken = (
      refl,
      taken.0,
      accepted b IsOpen false data_out m m' (create_ret_submit_with_status_and_no_data seqnum 0 n)
          at refl refl taken.1,
    )

    bulk_out-Served :
        (read_only little : Bool) (bytes : List ℕ) (st : BotState)
        → m.state ≡ st
        → Served b IsOpen seqnum false m (bulk_out (some b) read_only little seqnum n bytes st m)
    unfolding bulk_out takes appended
    bulk_out-Served read_only little bytes idle at =
        idle-Served (do_cbw (some b) read_only little bytes m) at
          (do_cbw-Commanded b IsOpen laws read_only little bytes m (Fresh-idle m h at))
    bulk_out-Served read_only little bytes data_in at = stalled b IsOpen seqnum false m h (rw at)
    bulk_out-Served read_only little bytes data_out at =
        data_out-Served (take_data (some b) (appended m h at bytes)) at
          (take_data-Taken m h at bytes)
    bulk_out-Served read_only little bytes status at = stalled b IsOpen seqnum false m h (rw at)

-- Over a disk that keeps the laws, a bulk transfer in a valid state is answered by one reply under
-- its number and leads to a valid state: a transfer that the state takes is answered OK and leads on
-- as the transport demands, any other is stalled and changes nothing. Only the data of an UNMAP
-- can make the behaviour undefined. In a valid state the residue is 0, only a command in its status
-- phase has failed, and the blocks to be written are on the disk.
pub handle_bulk_transfer-Served :
    {D : Type 0} (b : StorageBackend D) (IsOpen : D → Type 0)
    → DiskLaws b IsOpen
    → (read_only little : Bool) (seqnum : ℕ) (ep : Endpoint) (n : ℕ) (trx : GenericTransfer)
      (m : MscBulkOnlyHandler D)
    → IsValid b IsOpen m
    → Served b IsOpen seqnum
        (is_in ep)
        m
        (handle_bulk_transfer (some b) read_only little seqnum ep n trx m)
unfolding handle_bulk_transfer
handle_bulk_transfer-Served b IsOpen laws read_only little seqnum ep n trx m h =
    elim (Bool-cases (is_in ep)) [
      | inl into ↦ rw into (bulk_in-Served b IsOpen seqnum trx m h little n m.state refl)
      | inr out ↦
          rw out
            (bulk_out-Served b IsOpen laws seqnum n m h read_only little trx.bytes m.state refl)
    ]
