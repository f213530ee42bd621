-- ===== src/Msc/Host.antt =====
-- A host's side of the bulk-only transport, as the USB mass storage class describes it: what it sends
-- and what it asks for. components/usbipdcpp/usbipdcpp/include/virtual_device/MscConstants.h
use esp32_usb_ip.Prelude.{
  ℕ, ◌+◌, ◌-◌, ◌/◌, ◌%◌, ◌^◌, ◌≤◌, ◌<◌, ◌≡◌, refl, sym, ap, ◌∙◌, append_assoc, Bool, true, false,
  Option, none, some, List, [], ◌∷◌, ◌++◌, length, replicate,
}
use esp32_usb_ip.Device.{Endpoint, is_in}
use esp32_usb_ip.Protocol.Transfer.{GenericTransfer}
use esp32_usb_ip.Protocol.Response.{
  RetSubmit, create_ret_submit, create_ret_submit_with_status_and_no_data,
}
use mathlib.Core.Path.{subst, subst₂}
use esp32_usb_ip.Wire.{to_memory}
use esp32_usb_ip.Msc.{
  Cbw, cbw_signature, csw_signature, csw_bytes, StorageBackend, MscBulkOnlyHandler,
}
use esp32_usb_ip.Msc.Bulk.{Result, acknowledged, handle_bulk_transfer}

-- The 31 bytes of a command block.
unfoldable pub cbw_bytes : Bool → Cbw → List ℕ
cbw_bytes little c =
    to_memory little 4 c.signature
    ++ (to_memory little 4 c.tag
        ++ (to_memory little 4 c.data_transfer_length ++ (c.flags ∷ c.lun ∷ c.cb_length ∷ c.cb)))

-- READ (10) or WRITE (10), by its operation code.
abbrev pub block_command : ℕ → ℕ → ℕ → List ℕ
block_command operation lba count =
    operation
    ∷ 0
    ∷ lba / 2 ^ 24 % 2 ^ 8
    ∷ lba / 2 ^ 16 % 2 ^ 8
    ∷ lba / 2 ^ 8 % 2 ^ 8
    ∷ lba % 2 ^ 8
    ∷ 0
    ∷ count / 2 ^ 8
    ∷ count % 2 ^ 8
    ∷ replicate 7 0

abbrev pub block_cbw : ℕ → ℕ → ℕ → ℕ → ℕ → ℕ → Cbw
block_cbw operation flags tag transfer_length lba count = record {
  signature = cbw_signature;
  tag = tag;
  data_transfer_length = transfer_length;
  flags = flags;
  lun = 0;
  cb_length = 10;
  cb = block_command operation lba count;
}

-- The status block of a command that passed, with nothing left over.
abbrev pub passed : Bool → ℕ → List ℕ
passed little tag =
    csw_bytes little (record { signature = csw_signature; tag = tag; data_residue = 0; status = 0 })

-- A transfer that the host submits.
pub record Urb : Type 0 where
  pub seqnum : ℕ
  pub ep : Endpoint
  pub transfer_buffer_length : ℕ
  pub transfer : GenericTransfer

-- The data of a reply, and of a row of them.
unfoldable pub reply_data : Option GenericTransfer → List ℕ
reply_data none = []
reply_data (some t) = t.bytes

unfoldable pub payload : List (RetSubmit GenericTransfer) → List ℕ
payload [] = []
payload (r ∷ rs) = reply_data r.transfer ++ payload rs

-- All of them were answered OK.
unfoldable pub AreOk : List (RetSubmit GenericTransfer) → Type 0
AreOk [] = Unit {0}
AreOk (r ∷ rs) = (r.status ≡ 0) × AreOk rs

-- What the data of OUT transfers comes to.
unfoldable pub sent_data : List Urb → List ℕ
sent_data [] = []
sent_data (u ∷ us) = u.transfer.bytes ++ sent_data us

-- Transfers OUT that carry `total` bytes, of which `got` came before, and the last is needed.
unfoldable pub Fills : ℕ → ℕ → List Urb → Type 0
Fills total got [] = ⊥
Fills total got (u ∷ []) = (is_in u.ep ≡ false) × (got + length u.transfer.bytes ≡ total)
Fills total got (u ∷ v ∷ us) =
    (is_in u.ep ≡ false)
    × (got + length u.transfer.bytes < total)
    × Fills total (got + length u.transfer.bytes) (v ∷ us)

-- Transfers IN that ask for all of the `left` bytes, of which the last is needed.
unfoldable pub Asks : ℕ → List Urb → Type 0
Asks left [] = ⊥
Asks left (u ∷ []) =
    (is_in u.ep ≡ true) × (0 < u.transfer_buffer_length) × (left ≤ u.transfer_buffer_length)
Asks left (u ∷ v ∷ us) =
    (is_in u.ep ≡ true)
    × (0 < u.transfer_buffer_length)
    × (u.transfer_buffer_length < left)
    × Asks (left - u.transfer_buffer_length) (v ∷ us)

module _ {D : Type 0} (backend : Option (StorageBackend D)) (read_only little : Bool) where
  abbrev pub handle : Urb → MscBulkOnlyHandler D → Result D
  handle u =
      handle_bulk_transfer backend read_only little u.seqnum u.ep u.transfer_buffer_length
        u.transfer

-- The replies to a row of transfers, and the state behind them.
abbrev pub Replies : Type 0 → Type 0
Replies D = Option (List (RetSubmit GenericTransfer) × MscBulkOnlyHandler D)

abbrev pub reply_then : {D : Type 0} → RetSubmit GenericTransfer → Replies D → Replies D
reply_then r none = none
reply_then r (some (rs, m)) = some (r ∷ rs, m)

abbrev pub then_serve : {D : Type 0} → (MscBulkOnlyHandler D → Replies D) → Result D → Replies D
then_serve next none = none
then_serve next (some (r, m)) = reply_then r (next m)

unfoldable pub serve :
    {D : Type 0}
    → Option (StorageBackend D)
    → Bool
    → Bool
    → List Urb
    → MscBulkOnlyHandler D
    → Replies D
serve backend read_only little [] m = some ([], m)
serve backend read_only little (u ∷ us) m =
    then_serve (serve backend read_only little us) (handle backend read_only little u m)

-- A row of transfers that was answered OK, with that data, and led to that state.
unfoldable pub Delivers : {D : Type 0} → List ℕ → MscBulkOnlyHandler D → Replies D → Type 0
Delivers bytes m' none = ⊥
Delivers bytes m' (some (rs, m)) = (payload rs ≡ bytes) × AreOk rs × (m ≡ m')

pub Delivers-then :
    {D : Type 0} (first rest : List ℕ) (m' : MscBulkOnlyHandler D) (r : RetSubmit GenericTransfer)
    (o : Replies D)
    → reply_data r.transfer ≡ first
    → r.status ≡ 0
    → Delivers rest m' o
    → Delivers (first ++ rest) m' (reply_then r o)
unfolding Delivers payload AreOk
Delivers-then first rest m' r none e ok d = elim d [ ]
Delivers-then first rest m' r (some (rs, m)) e ok (p, oks, q) = (rw (e, p), (ok, oks), q)

Delivers-first :
    {D : Type 0} (bytes : List ℕ) (m' : MscBulkOnlyHandler D) (r : RetSubmit GenericTransfer)
    (o : Replies D)
    → Delivers bytes m' (reply_then r o)
    → (rest : List ℕ) × (reply_data r.transfer ++ rest ≡ bytes)
      × (r.status ≡ 0)
      × Delivers rest m' o
unfolding Delivers payload AreOk
Delivers-first bytes m' r none d = elim d [ ]
Delivers-first bytes m' r (some (rs, m)) (p, (ok, oks), e) = (payload rs, p, ok, (refl, oks, e))

-- A row of transfers behind a reply, if another can stand behind it.
append_behind :
    {D : Type 0} (first rest : List ℕ) (m' m'' : MscBulkOnlyHandler D)
    (now then_ : MscBulkOnlyHandler D → Replies D) (o : Result D)
    → ((m : MscBulkOnlyHandler D) (bytes : List ℕ)
        → Delivers bytes m' (now m)
        → Delivers (bytes ++ rest) m'' (then_ m))
    → Delivers first m' (then_serve now o)
    → Delivers (first ++ rest) m'' (then_serve then_ o)
unfolding Delivers
append_behind first rest m' m'' now then_ none ih d = elim d [ ]
append_behind first rest m' m'' now then_ (some (r, m)) ih d =
    let (bytes, e, ok, later) = Delivers-first first m' r (now m) d in
    subst (λ xs. Delivers xs m'' (reply_then r (then_ m)))
      (sym (append_assoc (reply_data r.transfer) bytes rest) ∙ ap (λ xs. xs ++ rest) e)
      (Delivers-then (reply_data r.transfer) (bytes ++ rest) m'' r (then_ m) refl ok
        (ih m bytes later))

-- One row of transfers behind another.
pub Delivers-append :
    {D : Type 0} (backend : Option (StorageBackend D)) (read_only little : Bool) (us vs : List Urb)
    (m m' m'' : MscBulkOnlyHandler D) (first rest : List ℕ)
    → Delivers first m' (serve backend read_only little us m)
    → Delivers rest m'' (serve backend read_only little vs m')
    → Delivers (first ++ rest) m'' (serve backend read_only little (us ++ vs) m)
unfolding serve Delivers payload AreOk
Delivers-append backend read_only little [] vs m m' m'' first rest (p, ok, e) d =
    subst₂ (λ xs k. Delivers (xs ++ rest) m'' (serve backend read_only little vs k)) p (sym e) d
Delivers-append backend read_only little (u ∷ us) vs m m' m'' first rest d1 d2 =
    append_behind first rest m' m'' (serve backend read_only little us)
      (serve backend read_only little (us ++ vs)) (handle backend read_only little u m)
      (λ k bytes d. Delivers-append backend read_only little us vs k m' m'' bytes rest d d2) d1

-- A transfer OUT that is only acknowledged.
pub Delivers-acknowledged :
    {D : Type 0} (backend : Option (StorageBackend D)) (read_only little : Bool) (u : Urb)
    (m m' : MscBulkOnlyHandler D)
    → handle backend read_only little u m ≡ acknowledged u.seqnum u.transfer_buffer_length (some m')
    → Delivers [] m' (serve backend read_only little (u ∷ []) m)
unfolding serve Delivers payload AreOk reply_data create_ret_submit
    create_ret_submit_with_status_and_no_data
Delivers-acknowledged backend read_only little u m m' e = rw e (refl, (refl, tt), refl)
