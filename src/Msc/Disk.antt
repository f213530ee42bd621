-- ===== src/Msc/Disk.antt =====
-- An image file is a disk as the transport wants it: components/usbipdcpp/usbipdcpp/src/
-- virtual_device/storage_backends/RawImageBackend.cpp.
use esp32_usb_ip.Prelude.{
  ℕ, suc, lt→ltb, ◌+◌, ◌*◌, ◌/◌, ◌%◌, ◌≤◌, ◌<◌, ◌≡◌, ◌⊎◌, inl, inr, refl, sym, ap, ap₂, ◌∙◌, true,
  leb, le→leb, leb→le, if_lem, some, List, [], ◌∷◌, ◌++◌, length, length-append, length-take,
  length-drop, length-replicate, take, drop, take-append, drop-append, take-append-drop, replicate,
  arith,
}
use esp32_usb_ip.Prelude.Bytes.{size_mod}
use native.Mathlib.Nat.{mul-le-mul_right, le-div_iff_mul-le, div-mul-le_self}
use esp32_usb_ip.Wire.{memcpy}
use esp32_usb_ip.Wire.Pack.{memcpy-append}
use esp32_usb_ip.Msc.Image.{
  RawImageBackend, open_image, in_bytes, image_read, image_write, image_punch_hole, image_backend,
}
use esp32_usb_ip.Msc.{StorageBackend}
use esp32_usb_ip.Msc.Laws.{Reads, Writes, Punches, DiskLaws}

-- All the blocks lie in the mapping, which a `size_t` measures.
abbrev pub IsMapped : RawImageBackend → List ℕ → Type 0
IsMapped image mapped =
    (image.block_count * image.block_size ≤ length mapped) × (length mapped < size_mod)

-- A stretch of a list replaced.
abbrev pub splice : List ℕ → ℕ → List ℕ → List ℕ
splice xs offset bytes = take offset xs ++ (bytes ++ drop (length bytes) (drop offset xs))

pub memcpy-splice :
    (xs : List ℕ) (offset : ℕ) (bytes : List ℕ)
    → offset + length bytes ≤ length xs
    → memcpy xs offset bytes ≡ splice xs offset bytes
memcpy-splice xs offset bytes h =
    let at : length (take offset xs) ≡ offset = omega (arith, length-take offset xs) in
    ap₂ (λ ys i. memcpy ys i bytes) (sym (take-append-drop offset xs)) (sym at)
    ∙ memcpy-append bytes (take offset xs) (drop offset xs) (omega (arith, length-drop offset xs))

length-splice :
    (xs : List ℕ) (offset : ℕ) (bytes : List ℕ)
    → offset + length bytes ≤ length xs
    → length (splice xs offset bytes) ≡ length xs
length-splice xs offset bytes h =
    let tail = drop (length bytes) (drop offset xs) in
    omega (
      arith,
      length-append (take offset xs) (bytes ++ tail),
      length-append bytes tail,
      length-take offset xs,
      length-drop offset xs,
      length-drop (length bytes) (drop offset xs),
    )

read_splice :
    (xs : List ℕ) (offset : ℕ) (bytes : List ℕ)
    → offset + length bytes ≤ length xs
    → take (length bytes) (drop offset (splice xs offset bytes)) ≡ bytes
read_splice xs offset bytes h =
    let tail = drop (length bytes) (drop offset xs) in
    ap (take (length bytes))
      (drop-append (take offset xs) (bytes ++ tail) offset (omega (arith, length-take offset xs)))
    ∙ take-append bytes tail (length bytes) refl

-- The blocks of a command, in bytes.
in_bytes-within :
    (image : RawImageBackend) (mapped : List ℕ) (lba count : ℕ)
    → IsMapped image mapped
    → lba + count ≤ image.block_count
    → (in_bytes image.block_size lba + in_bytes image.block_size count ≤ length mapped)
in_bytes-within image mapped lba count h within =
    let size = image.block_size in
    let all : (lba + count) * size ≤ image.block_count * size = mul-le-mul_right size within in
    omega (arith, all)

module _ (image : RawImageBackend) where
  abbrev disk : StorageBackend (List ℕ)
  disk = image_backend image

  image_read-Reads :
      (lba count : ℕ) (mapped : List ℕ)
      → IsMapped image mapped
      → lba + count ≤ image.block_count
      → Reads
          (image_backend image)
          (IsMapped image)
          count
          (image_read image.block_size lba count mapped)
  unfolding image_backend image_read
  image_read-Reads lba count mapped h within =
      let fits = in_bytes-within image mapped lba count h within in
      let size = image.block_size in
      rw (le→leb _ _ fits) (
        omega (
          arith,
          length-take (in_bytes size count) (drop (in_bytes size lba) mapped),
          length-drop (in_bytes size lba) mapped,
        ),
        h,
      )

  -- What a write leaves: the blocks replaced, and nothing else.
  pub image_write_lem :
      (lba count : ℕ) (bytes mapped : List ℕ)
      → IsMapped image mapped
      → lba + count ≤ image.block_count
      → in_bytes image.block_size count ≤ length bytes
      → image_write image.block_size lba count bytes mapped
        ≡ some (
          true,
          splice mapped
              (in_bytes image.block_size lba)
              (take (in_bytes image.block_size count) bytes),
        )
  unfolding image_write
  image_write_lem lba count bytes mapped h within long =
      let size = image.block_size in
      let part = take (in_bytes size count) bytes in
      let fits = in_bytes-within image mapped lba count h within in
      rw (le→leb _ _ fits, le→leb _ _ long)
        (ap (λ xs. some (true, xs))
          (memcpy-splice mapped (in_bytes size lba) part
            (omega (arith, length-take (in_bytes size count) bytes))))

  splice-IsMapped :
      (offset : ℕ) (bytes mapped : List ℕ)
      → IsMapped image mapped
      → offset + length bytes ≤ length mapped
      → IsMapped image (splice mapped offset bytes)
  splice-IsMapped offset bytes mapped h fits = omega (arith, length-splice mapped offset bytes fits)

  read_back :
      (lba count : ℕ) (part mapped : List ℕ)
      → length part ≡ in_bytes image.block_size count
      → in_bytes image.block_size lba + length part ≤ length mapped
      → image_read image.block_size lba count (splice mapped (in_bytes image.block_size lba) part)
        ≡ some (part, splice mapped (in_bytes image.block_size lba) part)
  unfolding image_read
  read_back lba count part mapped e fits =
      let size = image.block_size in
      let offset = in_bytes size lba in
      let within : offset + in_bytes size count ≤ length (splice mapped offset part) =
        omega (arith, length-splice mapped offset part fits) in
      rw (le→leb _ _ within) (
        ap (λ xs. some (xs, splice mapped offset part))
          (ap (λ n. take n (drop offset (splice mapped offset part))) (sym e)
            ∙ read_splice mapped offset part fits))

  image_write-Writes :
      (lba count : ℕ) (bytes mapped : List ℕ)
      → IsMapped image mapped
      → lba + count ≤ image.block_count
      → in_bytes image.block_size count ≤ length bytes
      → Writes
          (image_backend image)
          (IsMapped image)
          lba
          count
          bytes
          (image_write image.block_size lba count bytes mapped)
  unfolding image_backend
  image_write-Writes lba count bytes mapped h within long =
      let size = image.block_size in
      let part = take (in_bytes size count) bytes in
      let e : length part ≡ in_bytes size count =
        omega (arith, length-take (in_bytes size count) bytes) in
      let fits : in_bytes size lba + length part ≤ length mapped =
        omega (arith, in_bytes-within image mapped lba count h within) in
      rw (image_write_lem lba count bytes mapped h within long) (
        splice-IsMapped (in_bytes size lba) part mapped h fits,
        read_back lba count part mapped e fits,
      )

  image_punch_hole-Punches :
      (lba count : ℕ) (mapped : List ℕ)
      → IsMapped image mapped
      → Punches
          (image_backend image)
          (IsMapped image)
          (image_punch_hole image.block_size lba count mapped)
  unfolding image_punch_hole
  image_punch_hole-Punches lba count mapped h =
      let size = image.block_size in
      let offset = in_bytes size lba in
      let zeros : List ℕ = replicate (in_bytes size count) 0 in
      if_lem (Punches (image_backend image) (IsMapped image))
        (leb (offset + in_bytes size count) (length mapped))
        (λ e.
          let fits : offset + length zeros ≤ length mapped =
            omega (arith, leb→le _ _ e, length-replicate {A = ℕ} (in_bytes size count) 0) in
          rw (memcpy-splice mapped offset zeros fits) (splice-IsMapped offset zeros mapped h fits))
        (λ e. tt)

  -- An image all of whose blocks are mapped is a disk: blocks in range are read in full and written,
  -- what was written is read back from its place, and no operation that is defined changes the size
  -- of the mapping.
  pub image_backend-DiskLaws : DiskLaws (image_backend image) (IsMapped image)
  unfolding image_backend
  image_backend-DiskLaws = record {
    can_read = image_read-Reads;
    can_write = image_write-Writes;
    can_punch = image_punch_hole-Punches;
  }

opened_blocks : (n size : ℕ) → 0 < size → (suc n ≡ 0) ⊎ (size ≤ suc n) → 0 < suc n / size
opened_blocks n size pos (inl e) = absurd (omega (arith, e))
opened_blocks n size pos (inr h) = (le-div_iff_mul-le {x = 1} pos).1 (omega arith)

-- A file that is opened has all its blocks mapped if a `size_t` measures it and it is empty or holds
-- a block.
pub open_image-IsMapped :
    (initial_blocks block_size : ℕ) (file : List ℕ)
    → 0 < block_size
    → initial_blocks * block_size < size_mod
    → length file < size_mod
    → (length file ≡ 0) ⊎ (block_size ≤ length file)
    → IsMapped
        (open_image initial_blocks block_size file)
        (open_image initial_blocks block_size file).mapped_data
unfolding open_image
open_image-IsMapped initial_blocks block_size [] pos new old holds =
    omega (arith, length-replicate {A = ℕ} (initial_blocks * block_size % size_mod) 0)
open_image-IsMapped initial_blocks block_size (byte ∷ bytes) pos new old holds =
    let file = byte ∷ bytes in
    let some_blocks : 0 < length file / block_size =
      opened_blocks (length bytes) block_size pos holds in
    rw (lt→ltb _ _ some_blocks) (div-mul-le_self (length file) block_size, old)
