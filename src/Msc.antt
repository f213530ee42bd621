-- ===== src/Msc.antt =====
-- A virtual USB disk: the bulk-only transport of components/usbipdcpp/usbipdcpp/include/
-- virtual_device/devices/MscBulkOnlyHandler.h, with the blocks of include/virtual_device/
-- MscConstants.h and the interface of include/virtual_device/storage_backends/StorageBackend.h.
pub mod Scsi
pub mod Bulk
pub mod Image
pub mod Laws
pub mod Commands
pub mod Valid
pub mod Served
pub mod Disk
pub mod Host
pub mod Reading
pub mod Writing
pub mod Blocks
pub mod StoreLoad
pub mod Unmap
mod Examples
use esp32_usb_ip.Prelude.{
  ℕ, ◌+◌, ◌*◌, ◌^◌, Bool, if◌then◌else◌, Option, List, [], ◌∷◌, ◌++◌, get_or, take, drop,
}
use esp32_usb_ip.Wire.{to_memory, from_memory}

pub data BotState : Type 0 where
  idle data_in data_out status : BotState

pub record Cbw : Type 0 where
  pub signature : ℕ
  pub tag : ℕ
  pub data_transfer_length : ℕ
  pub flags : ℕ
  pub lun : ℕ
  pub cb_length : ℕ
  pub cb : List ℕ

pub record Csw : Type 0 where
  pub signature : ℕ
  pub tag : ℕ
  pub data_residue : ℕ
  pub status : ℕ

abbrev pub cbw_signature : ℕ
cbw_signature = 0x43425355

abbrev pub csw_signature : ℕ
csw_signature = 0x53425355

-- `sizeof`, of the packed structures
abbrev pub cbw_size : ℕ
cbw_size = 31

abbrev pub csw_size : ℕ
csw_size = 13

-- `memcpy(&current_cbw_, data, sizeof(CBW))`
unfoldable pub cbw_of_bytes : Bool → List ℕ → Cbw
cbw_of_bytes little bytes =
    let from_tag = drop 4 bytes in
    let from_length = drop 4 from_tag in
    let from_flags = drop 4 from_length in
    record {
      signature = from_memory little (take 4 bytes);
      tag = from_memory little (take 4 from_tag);
      data_transfer_length = from_memory little (take 4 from_length);
      flags = get_or from_flags 0 0;
      lun = get_or from_flags 1 0;
      cb_length = get_or from_flags 2 0;
      cb = take 16 (drop 3 from_flags);
    }

-- `memcpy(data, &csw, sizeof(CSW))`
unfoldable pub csw_bytes : Bool → Csw → List ℕ
csw_bytes little csw =
    to_memory little 4 csw.signature
    ++ (to_memory little 4 csw.tag ++ (to_memory little 4 csw.data_residue ++ csw.status ∷ []))

-- What lies behind `StorageBackend`, over the states `D` of a disk. `read` gives what the buffer of
-- `count` blocks holds then, `write` is given what the pointer points to, and `none` is an access
-- outside of the disk's memory. The number and the size of the blocks are those of the construction.
pub record StorageBackend (D : Type 0) : Type 0 where
  pub read : ℕ → ℕ → D → Option (List ℕ × D)
  pub write : ℕ → ℕ → List ℕ → D → Option (Bool × D)
  pub punch_hole : ℕ → ℕ → D → Option D
  pub block_count : ℕ
  pub block_size : ℕ

-- The members of `MscBulkOnlyHandler`, and the disk behind `backend_`.
pub record MscBulkOnlyHandler (D : Type 0) : Type 0 where
  pub state : BotState
  pub current_cbw : Cbw
  pub staging_data : List ℕ
  pub staging_offset : ℕ
  pub data_residue : ℕ
  pub command_failed : Bool
  pub write_lba : ℕ
  pub write_count : ℕ
  pub data_out_unmap : Bool
  pub disk : D
