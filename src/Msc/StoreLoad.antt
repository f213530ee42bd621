-- ===== src/Msc/StoreLoad.antt =====
-- What a host stores on a virtual disk and loads again: the whole of components/usbipdcpp/usbipdcpp/
-- src/virtual_device/devices/MscBulkOnlyHandler.cpp over a disk that keeps its laws.
use esp32_usb_ip.Prelude.{
  ℕ, ◌+◌, ◌-◌, ◌*◌, ◌%◌, ◌≤◌, ◌<◌, ◌≡◌, refl, sym, ap, ◌∙◌, Bool, true, false, Option, none, some,
  List, [], ◌∷◌, ◌++◌, length, take, take-long, append-nil, length-append, arith,
}
use mathlib.Core.Path.{subst}
use esp32_usb_ip.Prelude.Bytes.{size_mod, IsU32}
use esp32_usb_ip.Device.{is_in}
use esp32_usb_ip.Msc.{idle, data_in, StorageBackend, MscBulkOnlyHandler}
use esp32_usb_ip.Msc.Scsi.{start_write}
use esp32_usb_ip.Msc.Laws.{DiskLaws, Writes, IsValid}
use esp32_usb_ip.Msc.Served.{Fresh-idle}
use esp32_usb_ip.Msc.Host.{
  Urb, block_cbw, passed, serve, sent_data, Fills, Asks, Delivers, Delivers-append,
  Delivers-acknowledged,
}
use esp32_usb_ip.Msc.Reading.{all_sent, serve-data_in}
use esp32_usb_ip.Msc.Writing.{all_written, serve-data_out}
use esp32_usb_ip.Msc.Blocks.{Brings, handle-write, handle-read, serve-csw}

-- The transfers of a command, with its data and its status.
abbrev pub whole_command : Urb → List Urb → Urb → List Urb
whole_command command phase last = command ∷ (phase ++ (last ∷ []))

module _ {D : Type 0} (b : StorageBackend D) (little : Bool) (lba count : ℕ) (h : IsU32 lba)
    (pos : 0 < count) (within : lba + count ≤ b.block_count) where
  abbrev total : ℕ
  total = count * b.block_size % size_mod

  module _ (m : MscBulkOnlyHandler D) (at : m.state ≡ idle) (tag n : ℕ) (ht : IsU32 tag)
      (hn : IsU32 n) (command last : Urb) (phase : List Urb) (into : is_in last.ep ≡ true)
      (no_residue : m.data_residue ≡ 0) (not_failed : m.command_failed ≡ false) where
    abbrev stored : D → MscBulkOnlyHandler D
    stored disk = record m {
      current_cbw = block_cbw 0x2A 0 tag n lba count;
      staging_data = [];
      staging_offset = 0;
      data_residue = 0;
      command_failed = false;
      write_lba = lba;
      write_count = count;
      state = idle;
      disk = disk;
    }

    serve-store :
        (succeeded : Bool) (disk : D)
        → m.data_out_unmap ≡ false
        → Brings little (block_cbw 0x2A 0 tag n lba count) command
        → Fills total 0 phase
        → b.write lba count (sent_data phase) m.disk ≡ some (succeeded, disk)
        → Delivers
            (passed little tag)
            (stored disk)
            (serve (some b) false little (whole_command command phase last) m)
    unfolding start_write
    serve-store succeeded disk plain brings fills e =
        let m1 =
          start_write lba count (record m { current_cbw = block_cbw 0x2A 0 tag n lba count }) in
        let m2 = all_written m1 disk in
        Delivers-append (some b) false little (command ∷ []) (phase ++ (last ∷ [])) m m1
          (stored disk) [] (passed little tag)
          (Delivers-acknowledged (some b) false little command m m1
            (handle-write b little m tag n lba count ht hn h pos within command brings at))
          (Delivers-append (some b) false little phase (last ∷ []) m1 m2 (stored disk) []
            (passed little tag)
            (serve-data_out b false little phase m1 succeeded disk refl plain within fills e)
            (serve-csw b little m2 last into refl not_failed refl))

    abbrev loaded : D → MscBulkOnlyHandler D
    loaded disk = record m {
      current_cbw = block_cbw 0x28 0x80 tag n lba count;
      staging_data = [];
      staging_offset = 0;
      data_residue = 0;
      command_failed = false;
      state = idle;
      disk = disk;
    }

    serve-load :
        (bytes : List ℕ) (disk : D)
        → Brings little (block_cbw 0x28 0x80 tag n lba count) command
        → Asks (length bytes) phase
        → b.read lba count m.disk ≡ some (bytes, disk)
        → Delivers
            (bytes ++ passed little tag)
            (loaded disk)
            (serve (some b) false little (whole_command command phase last) m)
    serve-load bytes disk brings asks e =
        let m1 = record m {
          current_cbw = block_cbw 0x28 0x80 tag n lba count;
          staging_offset = 0;
          staging_data = bytes;
          state = data_in;
          disk = disk;
        } in
        let m2 = all_sent m1 in
        let from_start : length bytes ≡ length bytes - 0 = omega arith in
        Delivers-append (some b) false little (command ∷ []) (phase ++ (last ∷ [])) m m1
          (loaded disk) [] (bytes ++ passed little tag)
          (Delivers-acknowledged (some b) false little command m m1 (
            handle-read b little m tag n lba count ht hn h pos within command bytes disk brings at
              e))
          (Delivers-append (some b) false little phase (last ∷ []) m1 m2 (loaded disk) bytes
            (passed little tag)
            (serve-data_in (some b) false little phase m1 refl (omega arith)
              (subst (λ k. Asks k phase) from_start asks))
            (serve-csw b little m2 last into refl not_failed refl))

length-sent_data :
    (total got : ℕ) (us : List Urb) → Fills total got us → got + length (sent_data us) ≡ total
unfolding Fills sent_data
length-sent_data total got [] fills = elim fills [ ]
length-sent_data total got (u ∷ []) (out, e) = rw append-nil e
length-sent_data total got (u ∷ v ∷ us) (out, short, fills) = omega (
  arith,
  length-append u.transfer.bytes (sent_data (v ∷ us)),
  length-sent_data total (got + length u.transfer.bytes) (v ∷ us) fills,
)

-- A write that the laws allow, with what is read then.
written_back :
    {D : Type 0} (b : StorageBackend D) (IsOpen : D → Type 0) (lba count : ℕ) (bytes : List ℕ)
    (o : Option (Bool × D))
    → Writes b IsOpen lba count bytes o
    → (succeeded : Bool) × (disk : D) × (o ≡ some (succeeded, disk))
      × IsOpen disk
      × (b.read lba count disk ≡ some (take (count * b.block_size % size_mod) bytes, disk))
written_back b IsOpen lba count bytes none writes = elim writes [ ]
written_back b IsOpen lba count bytes (some (succeeded, disk)) (open_, back) =
    (succeeded, disk, refl, open_, back)

module _ {D : Type 0} (b : StorageBackend D) (IsOpen : D → Type 0) (little : Bool) where
  -- Both commands passed, with these data, and left the transport idle over an open disk.
  unfoldable pub Loads : List ℕ → ℕ → ℕ → List Urb → MscBulkOnlyHandler D → Type 0
  Loads bytes tag tag' us m =
      (m' : MscBulkOnlyHandler D) × Delivers (passed little tag ++ (bytes ++ passed little tag')) m'
        (serve (some b) false little us m)
      × (m'.state ≡ idle)
      × IsOpen m'.disk

-- What a host wrote to blocks of the disk, in whatever pieces, it reads back from them, in whatever
-- pieces, and both commands pass: from an idle valid state on, a WRITE (10) with exactly the data of
-- its blocks, followed by a READ (10) of the same blocks that asks for all of it.
pub serve-store_load :
    {D : Type 0} (b : StorageBackend D) (IsOpen : D → Type 0)
    → DiskLaws b IsOpen
    → (little : Bool) (lba count tag tag' n n' : ℕ) → IsU32 lba
    → 0 < count
    → lba + count ≤ b.block_count
    → IsU32 tag
    → IsU32 tag'
    → IsU32 n
    → IsU32 n'
    → (write read : Urb) (outs ins : List Urb) (status1 status2 : Urb)
    → Brings little (block_cbw 0x2A 0 tag n lba count) write
    → Fills (count * b.block_size % size_mod) 0 outs
    → is_in status1.ep ≡ true
    → Brings little (block_cbw 0x28 0x80 tag' n' lba count) read
    → Asks (count * b.block_size % size_mod) ins
    → is_in status2.ep ≡ true
    → (m : MscBulkOnlyHandler D) → IsValid b IsOpen m
    → m.state ≡ idle
    → Loads b IsOpen little
        (sent_data outs)
        tag
        tag'
        (whole_command write outs status1 ++ whole_command read ins status2)
        m
unfolding Loads
serve-store_load b IsOpen laws little lba count tag tag' n n' h pos within ht ht' hn hn' write read
      outs ins status1 status2 brings fills into brings' asks into' m valid at =
    let total = count * b.block_size % size_mod in
    let bytes = sent_data outs in
    let fresh = Fresh-idle b IsOpen laws m valid at in
    let size : length bytes ≡ total = omega (arith, length-sent_data total 0 outs fills) in
    let whole : take total bytes ≡ bytes = take-long total bytes (omega (arith, size)) in
    let (succeeded, disk, e, open_, back) =
      written_back b IsOpen lba count bytes (b.write lba count bytes m.disk)
        (laws.can_write lba count bytes m.disk valid.is_open within (omega (arith, size))) in
    let m1 =
      stored b little lba count h pos within m at tag n ht hn write status1 outs into
        fresh.no_residue fresh.not_failed disk in
    (
      loaded b little lba count h pos within m1 refl tag' n' ht' hn' read status2 ins into' refl
          refl disk,
      Delivers-append (some b) false little (whole_command write outs status1)
          (whole_command read ins status2) m m1
          (loaded b little lba count h pos within m1 refl tag' n' ht' hn' read status2 ins into'
            refl refl disk)
          (passed little tag) (bytes ++ passed little tag')
          (serve-store b little lba count h pos within m at tag n ht hn write status1 outs into
            fresh.no_residue fresh.not_failed succeeded disk fresh.no_unmap brings fills e)
          (serve-load b little lba count h pos within m1 refl tag' n' ht' hn' read status2 ins into'
            refl refl bytes disk brings' (subst (λ k. Asks k ins) (sym size) asks)
            (back ∙ ap (λ xs. some (xs, disk)) whole)),
      refl,
      open_,
    )
