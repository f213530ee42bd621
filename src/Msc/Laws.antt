-- ===== src/Msc/Laws.antt =====
-- The states that the transport of a virtual disk can be in, and what it relies on of the disk:
-- components/usbipdcpp/usbipdcpp/include/virtual_device/devices/MscBulkOnlyHandler.h and
-- virtual_device/storage_backends/StorageBackend.h.
use esp32_usb_ip.Prelude.{
  ℕ, ◌+◌, ◌*◌, ◌%◌, ◌≤◌, ◌≡◌, ◌≢◌, Bool, true, false, Option, none, some, List, length, take,
}
use esp32_usb_ip.Prelude.Bytes.{size_mod}
use esp32_usb_ip.Msc.{BotState, data_in, data_out, status, StorageBackend, MscBulkOnlyHandler}

-- What the code relies on of a storage backend whose disk `IsOpen`: blocks in range are read and
-- written, and what was written is read back. Of a hole nothing is asked but that it leaves the disk
-- open, if it is defined at all.
module _ {D : Type 0} (b : StorageBackend D) (IsOpen : D → Type 0) where
  abbrev pub Reads : ℕ → Option (List ℕ × D) → Type 0
  Reads count none = ⊥
  Reads count (some (bytes, disk)) = (length bytes ≡ count * b.block_size % size_mod) × IsOpen disk

  abbrev pub Writes : ℕ → ℕ → List ℕ → Option (Bool × D) → Type 0
  Writes lba count bytes none = ⊥
  Writes lba count bytes (some (succeeded, disk)) =
      IsOpen disk
      × (b.read lba count disk ≡ some (take (count * b.block_size % size_mod) bytes, disk))

  abbrev pub Punches : Option D → Type 0
  Punches none = Unit
  Punches (some disk) = IsOpen disk

  pub record DiskLaws : Type 0 where
    pub can_read :
        (lba count : ℕ) (disk : D)
        → IsOpen disk
        → lba + count ≤ b.block_count
        → Reads count (b.read lba count disk)
    pub can_write :
        (lba count : ℕ) (bytes : List ℕ) (disk : D)
        → IsOpen disk
        → lba + count ≤ b.block_count
        → count * b.block_size % size_mod ≤ length bytes
        → Writes lba count bytes (b.write lba count bytes disk)
    pub can_punch : (lba count : ℕ) (disk : D) → IsOpen disk → Punches (b.punch_hole lba count disk)

  -- In between, a command that failed is marked in the state `at`.
  pub record Holds (at : BotState) (m : MscBulkOnlyHandler D) : Type 0 where
    pub no_residue : m.data_residue ≡ 0
    pub failed_at : m.command_failed ≡ true → m.state ≡ at
    pub unmaps : m.data_out_unmap ≡ true → m.state ≡ data_out
    pub offset_within : m.staging_offset ≤ length m.staging_data
    pub offset_start : m.state ≢ data_in → m.staging_offset ≡ 0
    pub in_range :
        m.state ≡ data_out → m.data_out_unmap ≡ false → m.write_lba + m.write_count ≤ b.block_count
    pub is_open : IsOpen m.disk

  abbrev pub IsValid : MscBulkOnlyHandler D → Type 0
  IsValid = Holds status
