-- ===== src/Msc/Unmap.antt =====
-- The data of an UNMAP command: components/usbipdcpp/usbipdcpp/src/virtual_device/devices/
-- MscBulkOnlyHandler.cpp, and src/virtual_device/storage_backends/RawImageBackend.cpp.
use esp32_usb_ip.Prelude.{
  ℕ, zero, suc, ◌+◌, ◌*◌, ◌/◌, ◌%◌, ◌^◌, ◌≤◌, ◌<◌, ◌≡◌, refl, sym, ap, ◌∙◌, Bool, true, false, leb,
  le→leb, lt→leb_false, if◌then◌else◌, Option, none, some, List, [], ◌∷◌, ◌++◌, append-nil,
  append_assoc, length, length-append, get_or, replicate, arith,
}
use native.Mathlib.Nat.{pow-suc}
use esp32_usb_ip.Wire.Endian.{be_bytes, length-be_bytes}
use esp32_usb_ip.Device.{is_in}
use esp32_usb_ip.Msc.{data_out, StorageBackend, MscBulkOnlyHandler}
use esp32_usb_ip.Msc.Bulk.{
  big_value, punch_from, punch_holes, unmapped, take_data, bulk_out, acknowledged, write_blocks,
  handle_bulk_transfer,
}
use esp32_usb_ip.Msc.Image.{RawImageBackend, in_bytes, image_punch_hole, image_backend}
use esp32_usb_ip.Msc.Host.{Urb, handle}

-- A range of blocks, and the 16 bytes that describe it.
pub record Hole : Type 0 where
  pub lba : ℕ
  pub count : ℕ

abbrev pub IsHole : Hole → Type 0
IsHole hole = (hole.lba < 256 ^ 8) × (hole.count < 256 ^ 4)

unfoldable pub hole_bytes : Hole → List ℕ
hole_bytes hole = be_bytes 8 hole.lba ++ (be_bytes 4 hole.count ++ replicate 4 0)

unfoldable pub holes_bytes : List Hole → List ℕ
holes_bytes [] = []
holes_bytes (hole ∷ holes) = hole_bytes hole ++ holes_bytes holes

unfoldable pub AreHoles : List Hole → Type 0
AreHoles [] = Unit {0}
AreHoles (hole ∷ holes) = IsHole hole × AreHoles holes

-- One hole after the other.
unfoldable pub punch_each : {D : Type 0} → StorageBackend D → List Hole → Option D → Option D
punch_each b holes none = none
punch_each b [] (some disk) = some disk
punch_each b (hole ∷ holes) (some disk) = punch_each b holes (b.punch_hole hole.lba hole.count disk)

get_or-append : (xs ys : List ℕ) (y i : ℕ) → length xs ≡ i → get_or (xs ++ (y ∷ ys)) i 0 ≡ y
get_or-append [] ys y zero h = refl
get_or-append [] ys y (suc i) h = absurd (omega (arith, h))
get_or-append (x ∷ xs) ys y zero h = absurd (omega (arith, h))
get_or-append (x ∷ xs) ys y (suc i) h = get_or-append xs ys y i (omega (arith, h))

big_value-be_bytes :
    (w i v : ℕ) (before after : List ℕ)
    → length before ≡ i
    → v < 256 ^ w
    → big_value w i (before ++ (be_bytes w v ++ after)) ≡ v
unfolding big_value be_bytes
big_value-be_bytes zero i v before after h small = omega arith
big_value-be_bytes (suc w) i v before after h small =
    let high = be_bytes w (v / 256) in
    let regroup : before ++ ((high ++ (v % 256 ∷ [])) ++ after)
        ≡ before ++ (high ++ (v % 256 ∷ after)) =
      ap (λ xs. before ++ xs) (append_assoc high (v % 256 ∷ []) after) in
    let last : get_or (before ++ (high ++ (v % 256 ∷ after))) (i + w) 0 ≡ v % 256 =
      ap (λ xs. get_or xs (i + w) 0) (sym (append_assoc before high (v % 256 ∷ after)))
      ∙ get_or-append (before ++ high) after (v % 256) (i + w)
          (omega (arith, h, length-append before high, length-be_bytes w (v / 256))) in
    let rest =
      big_value-be_bytes w i (v / 256) before (v % 256 ∷ after) h
        (omega (arith, pow-suc 256 w, small)) in
    rw regroup (omega (arith, last, rest))

length-hole_bytes : (hole : Hole) → length (hole_bytes hole) ≡ 16
unfolding hole_bytes
length-hole_bytes hole = omega (
  arith,
  length-append (be_bytes 8 hole.lba) (be_bytes 4 hole.count ++ replicate 4 0),
  length-append (be_bytes 4 hole.count) (replicate 4 0),
  length-be_bytes 8 hole.lba,
  length-be_bytes 4 hole.count,
)

length-holes_bytes : (holes : List Hole) → length (holes_bytes holes) ≡ 16 * length holes
unfolding holes_bytes
length-holes_bytes [] = refl
length-holes_bytes (hole ∷ holes) = omega (
  arith,
  length-append (hole_bytes hole) (holes_bytes holes),
  length-hole_bytes hole,
  length-holes_bytes holes,
)

module _ {D : Type 0} (b : StorageBackend D) where
  punch_from-none : (rounds i : ℕ) (d : List ℕ) → punch_from b rounds i d none ≡ none
  unfolding punch_from
  punch_from-none zero i d = refl
  punch_from-none (suc rounds) i d = refl

  -- The two numbers of the descriptor at index `i`.
  described :
      (hole : Hole) (before after : List ℕ) (i : ℕ)
      → IsHole hole
      → length before ≡ i
      → (big_value 8 i (before ++ (hole_bytes hole ++ after)) ≡ hole.lba)
        × (big_value 4 (i + 8) (before ++ (hole_bytes hole ++ after)) ≡ hole.count)
  unfolding hole_bytes
  described hole before after i (small_lba, small_count) h =
      let lba = be_bytes 8 hole.lba in
      let count = be_bytes 4 hole.count in
      let rest = replicate 4 0 ++ after in
      let first : before ++ ((lba ++ (count ++ replicate 4 0)) ++ after)
          ≡ before ++ (lba ++ (count ++ rest)) =
        ap (λ xs. before ++ xs)
          (append_assoc lba (count ++ replicate 4 0) after
            ∙ ap (λ xs. lba ++ xs) (append_assoc count (replicate 4 0) after)) in
      let second : before ++ ((lba ++ (count ++ replicate 4 0)) ++ after)
          ≡ (before ++ lba) ++ (count ++ rest) =
        first ∙ sym (append_assoc before lba (count ++ rest)) in
      (
        ap (big_value 8 i) first
            ∙ big_value-be_bytes 8 i hole.lba before (count ++ rest) h small_lba,
        ap (big_value 4 (i + 8)) second
            ∙ big_value-be_bytes 4 (i + 8) hole.count (before ++ lba) rest
                (omega (arith, h, length-append before lba, length-be_bytes 8 hole.lba))
                small_count,
      )

  punch_from-holes_bytes :
      (rounds i : ℕ) (before : List ℕ) (holes : List Hole) (o : Option D)
      → AreHoles holes
      → length before ≡ i
      → length holes < rounds
      → punch_from b rounds i (before ++ holes_bytes holes) o ≡ punch_each b holes o
  unfolding punch_each holes_bytes AreHoles punch_from
  punch_from-holes_bytes rounds i before holes none are h enough =
      punch_from-none rounds i (before ++ holes_bytes holes)
  punch_from-holes_bytes zero i before holes (some disk) are h enough = absurd (omega arith)
  punch_from-holes_bytes (suc rounds) i before [] (some disk) are h enough =
      let over : length before < i + 16 = omega (arith, h) in rw (append-nil, lt→leb_false _ _ over)
  punch_from-holes_bytes (suc rounds) i before (hole ∷ holes) (some disk) (is, are) h enough =
      let d = before ++ (hole_bytes hole ++ holes_bytes holes) in
      let fits : i + 16 ≤ length d = omega (
        arith,
        h,
        length-append before (hole_bytes hole ++ holes_bytes holes),
        length-append (hole_bytes hole) (holes_bytes holes),
        length-hole_bytes hole,
      ) in
      let found = described hole before (holes_bytes holes) i is h in
      let next =
        punch_from-holes_bytes rounds (i + 16) (before ++ hole_bytes hole) holes
          (b.punch_hole hole.lba hole.count disk) are
          (omega (arith, h, length-append before (hole_bytes hole), length-hole_bytes hole))
          (omega arith) in
      rw (le→leb _ _ fits, found.0, found.1, ← append_assoc) next

  take_unmap :
      (m : MscBulkOnlyHandler D) (d : List ℕ)
      → m.data_out_unmap ≡ true
      → m.write_count ≤ length d
      → take_data (some b) (record m { staging_data = d })
        ≡ unmapped (record m { staging_data = d }) (punch_from b (length d) 8 d (some m.disk))
  unfolding take_data punch_holes
  take_unmap m d unmaps all =
      ap
        (λ mode.
          if mode
          then (if leb m.write_count (length d)
              then unmapped (record m { staging_data = d })
                  (punch_from b (length d) 8 d (some m.disk))
              else some (record m { staging_data = d }))
          else write_blocks (some b) (record m { staging_data = d }))
        unmaps
      ∙ rw (le→leb _ _ all)

  -- The data of an UNMAP, once it is there in full: a header of 8 bytes and any number of
  -- descriptors. Exactly the holes that they describe are punched, one after the other, and the
  -- status phase begins; the numbers are not compared with the size of the disk.
  pub handle-unmap :
      (read_only little : Bool) (u : Urb) (m : MscBulkOnlyHandler D) (header : List ℕ)
      (holes : List Hole)
      → is_in u.ep ≡ false
      → m.state ≡ data_out
      → m.data_out_unmap ≡ true
      → m.staging_data ++ u.transfer.bytes ≡ header ++ holes_bytes holes
      → length header ≡ 8
      → m.write_count ≤ 8 + 16 * length holes
      → AreHoles holes
      → handle (some b) read_only little u m
        ≡ acknowledged u.seqnum u.transfer_buffer_length (
            unmapped
              (record m { staging_data = header ++ holes_bytes holes })
              (punch_each b holes (some m.disk)))
  unfolding handle_bulk_transfer bulk_out take_data punch_holes
  handle-unmap read_only little u m header holes out at unmaps e size full are =
      let d = header ++ holes_bytes holes in
      let long : length d ≡ 8 + 16 * length holes =
        omega (arith, size, length-append header (holes_bytes holes), length-holes_bytes holes) in
      let all : m.write_count ≤ length d = omega (arith, long) in
      let finish = λ (xs : List ℕ).
        acknowledged u.seqnum u.transfer_buffer_length
          (take_data (some b) (record m { staging_data = xs })) in
      rw out (
        ap
          (λ st.
            bulk_out (some b) read_only little u.seqnum u.transfer_buffer_length u.transfer.bytes st
              m)
          at
        ∙ ap finish e
        ∙ ap (acknowledged u.seqnum u.transfer_buffer_length) (
            take_unmap m d unmaps all
            ∙ ap (unmapped (record m { staging_data = d })) (
                punch_from-holes_bytes (length d) 8 header holes (some m.disk) are size
                  (omega (arith, long)))))

image_punch_hole-outside :
    (block_size lba count : ℕ) (mapped : List ℕ)
    → length mapped < in_bytes block_size lba + in_bytes block_size count
    → image_punch_hole block_size lba count mapped ≡ none
unfolding image_punch_hole
image_punch_hole-outside block_size lba count mapped outside = rw (lt→leb_false _ _ outside)

-- An UNMAP whose first descriptor reaches beyond the mapping of the image makes the behaviour
-- undefined, since nothing on the way compares it with the size of the disk.
pub handle-unmap_outside :
    (image : RawImageBackend) (read_only little : Bool) (u : Urb) (m : MscBulkOnlyHandler (List ℕ))
    (header : List ℕ) (hole : Hole) (holes : List Hole)
    → is_in u.ep ≡ false
    → m.state ≡ data_out
    → m.data_out_unmap ≡ true
    → m.staging_data ++ u.transfer.bytes ≡ header ++ holes_bytes (hole ∷ holes)
    → length header ≡ 8
    → m.write_count ≤ 8 + 16 * length (hole ∷ holes)
    → AreHoles (hole ∷ holes)
    → length m.disk < in_bytes image.block_size hole.lba + in_bytes image.block_size hole.count
    → handle (some (image_backend image)) read_only little u m ≡ none
unfolding punch_each image_backend
handle-unmap_outside image read_only little u m header hole holes out at unmaps e size full are
      outside =
    handle-unmap (image_backend image) read_only little u m header (hole ∷ holes) out at unmaps e
      size full are
    ∙ ap
        (λ o. acknowledged u.seqnum u.transfer_buffer_length (
          unmapped (record m { staging_data = header ++ holes_bytes (hole ∷ holes) })
            (punch_each (image_backend image) holes o)))
        (image_punch_hole-outside image.block_size hole.lba hole.count m.disk outside)
