-- ===== src/Msc/Scsi.antt =====
-- The SCSI commands of a virtual disk: `do_cbw` of components/usbipdcpp/usbipdcpp/src/
-- virtual_device/devices/MscBulkOnlyHandler.cpp. The parts of an OR of shifted bytes do not overlap,
-- so it is written as their sum; `none` is undefined behaviour.
use esp32_usb_ip.Prelude.{
  ℕ, ◌+◌, ◌-◌, ◌*◌, ◌/◌, ◌%◌, ◌^◌, min, Bool, true, false, ltb, ◌==◌, not, ◌||◌, if◌then◌else◌,
  Option, none, some, List, [], ◌∷◌, ◌++◌, length, get_or, take, replicate,
}
use esp32_usb_ip.Msc.{
  data_in, data_out, Cbw, cbw_signature, cbw_size, cbw_of_bytes, StorageBackend, MscBulkOnlyHandler,
}

abbrev pub fail : {D : Type 0} → MscBulkOnlyHandler D → MscBulkOnlyHandler D
fail m = record m { command_failed = true }

-- The data phase of an answer, of which the first `transfer_len` bytes are sent.
unfoldable pub answer : {D : Type 0} → List ℕ → MscBulkOnlyHandler D → MscBulkOnlyHandler D
answer bytes m = record m {
  staging_offset = 0;
  state = data_in;
  staging_data = take (min m.current_cbw.data_transfer_length (length bytes)) bytes;
}

abbrev pub sense : List ℕ
sense = 0x70 ∷ 0 ∷ 0 ∷ 0 ∷ 0 ∷ 0 ∷ 0 ∷ 10 ∷ replicate 10 0

-- "USBIPDC ", "USB Flash Drive " and "1.00" behind the first 8 bytes
abbrev pub inquiry : List ℕ
inquiry =
    (0 ∷ 0x80 ∷ 6 ∷ 2 ∷ 31 ∷ 0 ∷ 0 ∷ 0 ∷ [])
    ++ ((0x55 ∷ 0x53 ∷ 0x42 ∷ 0x49 ∷ 0x50 ∷ 0x44 ∷ 0x43 ∷ 0x20 ∷ [])
        ++ ((0x55 ∷ 0x53 ∷ 0x42 ∷ 0x20 ∷ 0x46 ∷ 0x6C ∷ 0x61 ∷ 0x73 ∷ [])
            ++ ((0x68 ∷ 0x20 ∷ 0x44 ∷ 0x72 ∷ 0x69 ∷ 0x76 ∷ 0x65 ∷ 0x20 ∷ [])
                ++ (0x31 ∷ 0x2E ∷ 0x30 ∷ 0x30 ∷ []))))

abbrev pub mode : Bool → List ℕ
mode read_only = 3 ∷ 0 ∷ (if read_only then 0x80 else 0) ∷ 0 ∷ []

-- `(v >> 24) & 0xFF` and so on
abbrev pub big_endian : ℕ → List ℕ
big_endian v = v / 2 ^ 24 % 2 ^ 8 ∷ v / 2 ^ 16 % 2 ^ 8 ∷ v / 2 ^ 8 % 2 ^ 8 ∷ v % 2 ^ 8 ∷ []

abbrev pub exists : {D : Type 0} → Option (StorageBackend D) → Bool
exists none = false
exists (some b) = true

-- `backend_ ? backend_->block_count() : 0`
unfoldable pub block_limit : {D : Type 0} → Option (StorageBackend D) → ℕ
block_limit none = 0
block_limit (some b) = b.block_count

-- `backend_` is tested for the last block, and then used untested.
unfoldable pub read_capacity :
    {D : Type 0} → Option (StorageBackend D) → MscBulkOnlyHandler D → Option (MscBulkOnlyHandler D)
read_capacity none m = none
read_capacity (some b) m =
    let last_lba = (b.block_count + 2 ^ 64 - 1) % 2 ^ 64 in
    some (answer (big_endian last_lba ++ big_endian (b.block_size)) m)

abbrev pub command_lba : Cbw → ℕ
command_lba c =
    get_or c.cb 2 0 * 2 ^ 24 + get_or c.cb 3 0 * 2 ^ 16 + get_or c.cb 4 0 * 2 ^ 8 + get_or c.cb 5 0

-- `if (count == 0) count = 256;`
abbrev pub command_count : Cbw → ℕ
command_count c =
    let count = get_or c.cb 7 0 * 2 ^ 8 + get_or c.cb 8 0 in if count == 0 then 256 else count

-- What `backend_->read` left in the buffer.
unfoldable pub staged :
    {D : Type 0} → MscBulkOnlyHandler D → Option (List ℕ × D) → Option (MscBulkOnlyHandler D)
staged m none = none
staged m (some (bytes, disk)) =
    some (record m { staging_offset = 0; staging_data = bytes; state = data_in; disk = disk })

unfoldable pub start_read :
    {D : Type 0}
    → Option (StorageBackend D)
    → ℕ
    → ℕ
    → MscBulkOnlyHandler D
    → Option (MscBulkOnlyHandler D)
start_read none lba count m = none
start_read (some b) lba count m = staged m (b.read lba count m.disk)

unfoldable pub start_write : {D : Type 0} → ℕ → ℕ → MscBulkOnlyHandler D → MscBulkOnlyHandler D
start_write lba count m = record m {
  write_lba = lba;
  write_count = count;
  staging_offset = 0;
  staging_data = [];
  state = data_out;
}

abbrev pub parameter_length : Cbw → ℕ
parameter_length c = get_or c.cb 6 0 * 2 ^ 8 + get_or c.cb 7 0

unfoldable pub start_unmap : {D : Type 0} → ℕ → MscBulkOnlyHandler D → MscBulkOnlyHandler D
start_unmap param_len m = record m {
  write_count = param_len;
  data_out_unmap = true;
  staging_offset = 0;
  staging_data = [];
  state = data_out;
}

module _ {D : Type 0} (backend : Option (StorageBackend D)) (read_only : Bool) where
  -- READ (10) and WRITE (10)
  unfoldable pub read_write : Bool → ℕ → ℕ → MscBulkOnlyHandler D → Option (MscBulkOnlyHandler D)
  read_write reads lba count m =
      if ltb (block_limit backend) (lba + count)
      then some (fail m)
      else if reads
      then start_read backend lba count m
      else if read_only
      then some (fail m)
      else some (start_write lba count m)

  unfoldable pub unmap : ℕ → MscBulkOnlyHandler D → MscBulkOnlyHandler D
  unmap param_len m =
      if read_only then fail m else if param_len == 0 then m else start_unmap param_len m

  -- The switch over the command.
  unfoldable pub scsi_command : ℕ → MscBulkOnlyHandler D → Option (MscBulkOnlyHandler D)
  scsi_command cmd m =
      if cmd == 0x00
      then some (record m { command_failed = not (exists backend) })
      else if cmd == 0x03
      then some (answer sense m)
      else if cmd == 0x12
      then some (answer inquiry m)
      else if cmd == 0x1A
      then some (answer (mode read_only) m)
      else if cmd == 0x1E
      then some m
      else if cmd == 0x25
      then read_capacity backend m
      else if cmd == 0x28 || cmd == 0x2A
      then read_write (cmd == 0x28) (command_lba m.current_cbw) (command_count m.current_cbw) m
      else if cmd == 0x1B || cmd == 0x2F
      then some m
      else if cmd == 0x85
      then some (fail m)
      else if cmd == 0x42
      then some (unmap (parameter_length m.current_cbw) m)
      else some (fail m)

  -- The command that `current_cbw_` holds, if its signature is right.
  unfoldable pub run_cbw : MscBulkOnlyHandler D → Option (MscBulkOnlyHandler D)
  run_cbw m =
      if m.current_cbw.signature == cbw_signature
      then scsi_command (get_or m.current_cbw.cb 0 0) m
      else some (fail m)

  unfoldable pub do_cbw : Bool → List ℕ → MscBulkOnlyHandler D → Option (MscBulkOnlyHandler D)
  do_cbw little bytes m =
      if ltb (length bytes) cbw_size
      then some (fail m)
      else run_cbw (record m { current_cbw = cbw_of_bytes little bytes })
