-- ===== src/Msc/Image.antt =====
-- The image file behind a virtual disk, components/usbipdcpp/usbipdcpp/src/virtual_device/
-- storage_backends/RawImageBackend.cpp, as the memory that it is mapped to. The system calls of its
-- construction succeed here.
use esp32_usb_ip.Prelude.{
  ℕ, ◌+◌, ◌*◌, ◌/◌, ◌%◌, Bool, true, leb, ltb, ◌&&◌, if◌then◌else◌, Option, none, some, List, [],
  ◌∷◌, length, take, drop, replicate,
}
use esp32_usb_ip.Prelude.Bytes.{size_mod}
use esp32_usb_ip.Wire.{memcpy}
use esp32_usb_ip.Msc.{StorageBackend}

-- `mapped_data` has `mapped_size_` bytes; the pages of a file that is shorter than its mapping cannot
-- be accessed behind its end.
pub record RawImageBackend : Type 0 where
  pub block_count : ℕ
  pub block_size : ℕ
  pub mapped_data : List ℕ

-- The bytes of a file that was there; an empty one is extended by zeros.
unfoldable pub open_image : ℕ → ℕ → List ℕ → RawImageBackend
open_image initial_blocks block_size [] = record {
  block_count = initial_blocks;
  block_size = block_size;
  mapped_data = replicate (initial_blocks * block_size % size_mod) 0;
}
open_image initial_blocks block_size (byte ∷ bytes) =
    let exist_blocks = length (byte ∷ bytes) / block_size in
    record {
      block_count = if ltb 0 exist_blocks then exist_blocks else initial_blocks;
      block_size = block_size;
      mapped_data = byte ∷ bytes;
    }

-- `count` or `lba` blocks in bytes, as a `size_t`.
abbrev pub in_bytes : ℕ → ℕ → ℕ
in_bytes block_size n = n * block_size % size_mod

-- `memcpy` out of the memory, into it, and `memset`.
unfoldable pub image_read : ℕ → ℕ → ℕ → List ℕ → Option (List ℕ × List ℕ)
image_read block_size lba count mapped =
    let total = in_bytes block_size count in
    let offset = in_bytes block_size lba in
    if leb (offset + total) (length mapped)
    then some (take total (drop offset mapped), mapped)
    else none

unfoldable pub image_write : ℕ → ℕ → ℕ → List ℕ → List ℕ → Option (Bool × List ℕ)
image_write block_size lba count bytes mapped =
    let total = in_bytes block_size count in
    let offset = in_bytes block_size lba in
    if leb (offset + total) (length mapped) && leb total (length bytes)
    then some (true, memcpy mapped offset (take total bytes))
    else none

unfoldable pub image_punch_hole : ℕ → ℕ → ℕ → List ℕ → Option (List ℕ)
image_punch_hole block_size lba count mapped =
    let length_ = in_bytes block_size count in
    let offset = in_bytes block_size lba in
    if leb (offset + length_) (length mapped)
    then some (memcpy mapped offset (replicate length_ 0))
    else none

unfoldable pub image_backend : RawImageBackend → StorageBackend (List ℕ)
image_backend image = record {
  read = image_read image.block_size;
  write = image_write image.block_size;
  punch_hole = image_punch_hole image.block_size;
  block_count = image.block_count;
  block_size = image.block_size;
}
