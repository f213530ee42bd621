-- ===== src/Msc/Commands.antt =====
-- What a command leaves behind: `do_cbw` of components/usbipdcpp/usbipdcpp/src/virtual_device/
-- devices/MscBulkOnlyHandler.cpp.
use esp32_usb_ip.Prelude.{
  ℕ, ◌+◌, ◌-◌, ◌%◌, ◌^◌, ◌≤◌, ◌≡◌, refl, Bool, true, false, ltb, ◌==◌, ◌||◌, if_lem, ltb_false→le,
  Option, none, some, List, ◌++◌, length, get_or, arith,
}
use esp32_usb_ip.Msc.{idle, cbw_of_bytes, Cbw, StorageBackend, MscBulkOnlyHandler}
use esp32_usb_ip.Msc.Scsi.{
  fail, answer, sense, inquiry, mode, read_capacity, block_limit, staged, start_read, start_write,
  start_unmap, command_lba, command_count, parameter_length, read_write, unmap, scsi_command,
  run_cbw, do_cbw, big_endian,
}
use esp32_usb_ip.Msc.Laws.{Reads, DiskLaws, Holds}

module _ {D : Type 0} (b : StorageBackend D) (IsOpen : D → Type 0) where
  -- Before a command is looked at.
  pub record Fresh (m : MscBulkOnlyHandler D) : Type 0 where
    pub is_idle : m.state ≡ idle
    pub not_failed : m.command_failed ≡ false
    pub no_unmap : m.data_out_unmap ≡ false
    pub no_residue : m.data_residue ≡ 0
    pub at_start : m.staging_offset ≡ 0
    pub is_open : IsOpen m.disk

  abbrev pub Commanded : Option (MscBulkOnlyHandler D) → Type 0
  Commanded none = ⊥
  Commanded (some m) = Holds b IsOpen idle m

  Fresh-Holds :
      (m : MscBulkOnlyHandler D) (failed : Bool)
      → Fresh m
      → Holds b IsOpen idle (record m { command_failed = failed })
  Fresh-Holds m failed h = record {
    no_residue = h.no_residue;
    failed_at = λ e. h.is_idle;
    unmaps = λ e. cc (h.no_unmap);
    offset_within = omega arith;
    offset_start = λ e. h.at_start;
    in_range = λ e f. cc (h.is_idle);
    is_open = h.is_open;
  }

  answer-Holds :
      (bytes : List ℕ) (m : MscBulkOnlyHandler D) → Fresh m → Holds b IsOpen idle (answer bytes m)
  unfolding answer
  answer-Holds bytes m h = record {
    no_residue = h.no_residue;
    failed_at = λ e. cc (h.not_failed);
    unmaps = λ e. cc (h.no_unmap);
    offset_within = omega arith;
    offset_start = λ e. refl;
    in_range = λ e f. cc;
    is_open = h.is_open;
  }

  abbrev Range : ℕ → ℕ → Type 0
  Range lba count = lba + count ≤ b.block_count

  module _ (laws : DiskLaws b IsOpen) (m : MscBulkOnlyHandler D) (h : Fresh m) where
    staged-Holds :
        (count : ℕ) (o : Option (List ℕ × D)) → Reads b IsOpen count o → Commanded (staged m o)
    unfolding staged
    staged-Holds count none reads = elim reads [ ]
    staged-Holds count (some (bytes, disk)) reads = record {
      no_residue = h.no_residue;
      failed_at = λ e. cc (h.not_failed);
      unmaps = λ e. cc (h.no_unmap);
      offset_within = omega arith;
      offset_start = λ e. refl;
      in_range = λ e f. cc;
      is_open = reads.1;
    }

    start_write-Holds :
        (lba count : ℕ)
        → lba + count ≤ b.block_count
        → Holds b IsOpen idle (start_write lba count m)
    unfolding start_write
    start_write-Holds lba count within = record {
      no_residue = h.no_residue;
      failed_at = λ e. cc (h.not_failed);
      unmaps = λ e. refl;
      offset_within = omega arith;
      offset_start = λ e. refl;
      in_range = λ e f. within;
      is_open = h.is_open;
    }

    start_unmap-Holds : (param_len : ℕ) → Holds b IsOpen idle (start_unmap param_len m)
    unfolding start_unmap
    start_unmap-Holds param_len = record {
      no_residue = h.no_residue;
      failed_at = λ e. cc (h.not_failed);
      unmaps = λ e. refl;
      offset_within = omega arith;
      offset_start = λ e. refl;
      in_range = λ e f. cc;
      is_open = h.is_open;
    }

    fail-Holds : Holds b IsOpen idle (fail m)
    fail-Holds = Fresh-Holds m true h

    same-Holds : Holds b IsOpen idle m
    same-Holds = Fresh-Holds m m.command_failed h

    read_write-Commanded :
        (read_only reads : Bool) (lba count : ℕ)
        → Commanded (read_write (some b) read_only reads lba count m)
    unfolding read_write block_limit start_read
    read_write-Commanded read_only reads lba count =
        if_lem Commanded (ltb b.block_count (lba + count)) (λ e. fail-Holds)
          (λ e.
            let within : lba + count ≤ b.block_count = ltb_false→le b.block_count (lba + count) e in
            if_lem Commanded reads
              (λ e.
                staged-Holds count (b.read lba count m.disk)
                  (laws.can_read lba count m.disk h.is_open within))
              (λ e.
                if_lem Commanded read_only (λ e. fail-Holds)
                  (λ e. start_write-Holds lba count within)))

    unmap-Holds :
        (read_only : Bool) (param_len : ℕ)
        → Holds b IsOpen idle (unmap (some b) read_only param_len m)
    unfolding unmap
    unmap-Holds read_only param_len =
        if_lem (Holds b IsOpen idle) read_only (λ e. fail-Holds)
          (λ e.
            if_lem (Holds b IsOpen idle) (param_len == 0) (λ e. same-Holds)
              (λ e. start_unmap-Holds param_len))

    scsi_command-Commanded :
        (read_only : Bool) (cmd : ℕ) → Commanded (scsi_command (some b) read_only cmd m)
    unfolding scsi_command read_capacity
    scsi_command-Commanded read_only cmd =
        let both = cmd == 0x28 || cmd == 0x2A in
        if_lem Commanded (cmd == 0x00) (λ e. Fresh-Holds m false h)
          (λ e.
            if_lem Commanded (cmd == 0x03) (λ e. answer-Holds sense m h)
              (λ e.
                if_lem Commanded (cmd == 0x12) (λ e. answer-Holds inquiry m h)
                  (λ e.
                    if_lem Commanded (cmd == 0x1A) (λ e. answer-Holds (mode read_only) m h)
                      (λ e.
                        if_lem Commanded (cmd == 0x1E) (λ e. same-Holds)
                          (λ e.
                            if_lem Commanded (cmd == 0x25)
                              (λ e.
                                answer-Holds
                                  (big_endian ((b.block_count + 2 ^ 64 - 1) % 2 ^ 64)
                                    ++ big_endian b.block_size)
                                  m h)
                              (λ e.
                                if_lem Commanded both
                                  (λ e.
                                    read_write-Commanded read_only (cmd == 0x28)
                                      (command_lba m.current_cbw) (command_count m.current_cbw))
                                  (λ e.
                                    if_lem Commanded (cmd == 0x1B || cmd == 0x2F) (λ e. same-Holds)
                                      (λ e.
                                        if_lem Commanded (cmd == 0x85) (λ e. fail-Holds)
                                          (λ e.
                                            if_lem Commanded (cmd == 0x42)
                                              (λ e.
                                                unmap-Holds read_only
                                                  (parameter_length m.current_cbw))
                                              (λ e. fail-Holds))))))))))

  Fresh-cbw :
      (m : MscBulkOnlyHandler D) (cbw : Cbw) → Fresh m → Fresh (record m { current_cbw = cbw })
  Fresh-cbw m cbw h = record {
    is_idle = h.is_idle;
    not_failed = h.not_failed;
    no_unmap = h.no_unmap;
    no_residue = h.no_residue;
    at_start = h.at_start;
    is_open = h.is_open;
  }

  -- Whatever comes as a command, it is defined.
  pub do_cbw-Commanded :
      (laws : DiskLaws b IsOpen) (read_only little : Bool) (bytes : List ℕ)
      (m : MscBulkOnlyHandler D)
      → Fresh m
      → Commanded (do_cbw (some b) read_only little bytes m)
  unfolding do_cbw run_cbw
  do_cbw-Commanded laws read_only little bytes m h =
      let cbw = cbw_of_bytes little bytes in
      let m' = record m { current_cbw = cbw } in
      if_lem Commanded (ltb (length bytes) 31) (λ e. fail-Holds laws m h)
        (λ e.
          if_lem Commanded (cbw.signature == 0x43425355)
            (λ e. scsi_command-Commanded laws m' (Fresh-cbw m cbw h) read_only (get_or cbw.cb 0 0))
            (λ e. fail-Holds laws m' (Fresh-cbw m cbw h)))
