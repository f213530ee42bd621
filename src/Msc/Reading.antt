-- ===== src/Msc/Reading.antt =====
-- The data phase of a command that a virtual disk answers with data: components/usbipdcpp/usbipdcpp/
-- src/virtual_device/devices/MscBulkOnlyHandler.cpp.
use esp32_usb_ip.Prelude.{
  ℕ, zero, suc, ◌+◌, ◌-◌, ◌≤◌, ◌<◌, ◌≡◌, refl, sym, ap, ◌∙◌, min, Bool, true, le→leb, lt→leb_false,
  lt→ltb, Option, some, List, [], ◌∷◌, ◌++◌, append-nil, length, length-drop, take, drop, drop-drop,
  drop-nil, take-long, take-append-drop, arith,
}
use mathlib.Core.Path.{subst}
use esp32_usb_ip.Device.{is_in}
use esp32_usb_ip.Protocol.Transfer.{GenericTransfer}
use esp32_usb_ip.Protocol.Response.{
  create_ret_submit, create_ret_submit_with_status_and_no_iso,
  create_ret_submit_with_status_and_no_data,
}
use esp32_usb_ip.Msc.{data_in, status, StorageBackend, MscBulkOnlyHandler}
use esp32_usb_ip.Msc.Bulk.{
  remaining, end_data_in, data_reply, send_data, bulk_in, handle_bulk_transfer,
}
use esp32_usb_ip.Msc.Host.{
  Urb, handle, serve, reply_then, payload, reply_data, AreOk, Asks, Delivers, Delivers-then,
}

drop-all : (n : ℕ) (xs : List ℕ) → length xs ≤ n → drop n xs ≡ []
drop-all n [] h = drop-nil ℕ n
drop-all zero (x ∷ xs) h = absurd (omega arith)
drop-all (suc n) (x ∷ xs) h = drop-all n xs (omega arith)

-- After the last of the data.
abbrev pub all_sent : {D : Type 0} → MscBulkOnlyHandler D → MscBulkOnlyHandler D
all_sent m = record m { staging_data = []; staging_offset = 0; data_residue = 0; state = status }

module _ {D : Type 0} (backend : Option (StorageBackend D)) (read_only little : Bool) where
  remaining_lem :
      (m : MscBulkOnlyHandler D)
      → m.staging_offset ≤ length m.staging_data
      → remaining m ≡ length m.staging_data - m.staging_offset
  unfolding remaining
  remaining_lem m within = rw (le→leb _ _ within)

  -- A transfer IN of the data phase, by the number of bytes that it sends.
  handle-data_in :
      (u : Urb) (m : MscBulkOnlyHandler D) (n : ℕ)
      → is_in u.ep ≡ true
      → m.state ≡ data_in
      → m.staging_offset ≤ length m.staging_data
      → min u.transfer_buffer_length (length m.staging_data - m.staging_offset) ≡ n
      → handle backend read_only little u m ≡ some (send_data u.seqnum n u.transfer m)
  unfolding handle_bulk_transfer bulk_in
  handle-data_in u m n into at within e =
      let sent : min u.transfer_buffer_length (remaining m) ≡ n =
        ap (min u.transfer_buffer_length) (remaining_lem m within) ∙ e in
      rw into (
        ap (λ st. some (bulk_in little u.seqnum u.transfer_buffer_length u.transfer st m)) at
        ∙ ap (λ k. some (send_data u.seqnum k u.transfer m)) sent)

  send_data-part :
      (seqnum n : ℕ) (trx : GenericTransfer) (m : MscBulkOnlyHandler D)
      → 0 < n
      → m.staging_offset + n < length m.staging_data
      → send_data seqnum n trx m ≡ (
        data_reply seqnum (take n (drop m.staging_offset m.staging_data)) trx,
        record m { staging_offset = m.staging_offset + n },
      )
  unfolding send_data end_data_in
  send_data-part seqnum n trx m pos short = rw (lt→ltb _ _ pos, lt→leb_false _ _ short)

  send_data-rest :
      (seqnum n : ℕ) (trx : GenericTransfer) (m : MscBulkOnlyHandler D)
      → n ≡ length m.staging_data - m.staging_offset
      → m.staging_offset ≤ length m.staging_data
      → Delivers
          (drop m.staging_offset m.staging_data)
          (all_sent m)
          (reply_then (send_data seqnum n trx m).0 (some ([], (send_data seqnum n trx m).1)))
  unfolding send_data end_data_in Delivers payload AreOk reply_data data_reply create_ret_submit
      create_ret_submit_with_status_and_no_iso create_ret_submit_with_status_and_no_data
  send_data-rest seqnum zero trx m e within =
      let nothing : drop m.staging_offset m.staging_data ≡ [] =
        drop-all m.staging_offset m.staging_data (omega arith) in
      let all : length m.staging_data ≤ m.staging_offset = omega arith in
      rw (nothing, le→leb _ _ all) (refl, (refl, tt), refl)
  send_data-rest seqnum (suc n) trx m e within =
      let all : length m.staging_data ≤ m.staging_offset + suc n = omega arith in
      let bytes = drop m.staging_offset m.staging_data in
      let whole : take (suc n) bytes ≡ bytes =
        take-long (suc n) bytes (omega (arith, length-drop m.staging_offset m.staging_data)) in
      rw (lt→ltb 0 (suc n) (omega arith), le→leb _ _ all)
        (append-nil (take (suc n) bytes) ∙ whole, (refl, tt), refl)

  -- In whatever pieces a host asks for them, it gets exactly the staged bytes, in their order, and
  -- the status phase begins.
  pub serve-data_in :
      (us : List Urb) (m : MscBulkOnlyHandler D)
      → m.state ≡ data_in
      → m.staging_offset ≤ length m.staging_data
      → Asks (length m.staging_data - m.staging_offset) us
      → Delivers
          (drop m.staging_offset m.staging_data)
          (all_sent m)
          (serve backend read_only little us m)
  unfolding serve Asks reply_data data_reply create_ret_submit_with_status_and_no_iso
      create_ret_submit
  serve-data_in [] m at within asks = elim asks [ ]
  serve-data_in (u ∷ []) m at within (into, pos, long) =
      let n = length m.staging_data - m.staging_offset in
      rw (handle-data_in u m n into at within (omega arith))
        (send_data-rest u.seqnum n u.transfer m refl within)
  serve-data_in (u ∷ v ∷ us) m at within (into, pos, short, asks) =
      let n = u.transfer_buffer_length in
      let m' = record m { staging_offset = m.staging_offset + n } in
      let bytes = drop m.staging_offset m.staging_data in
      let left : length m.staging_data - m.staging_offset - n
          ≡ length m.staging_data - (m.staging_offset + n) =
        omega arith in
      let later =
        serve-data_in (v ∷ us) m' at (omega arith) (subst (λ k. Asks k (v ∷ us)) left asks) in
      let split : take n bytes ++ drop (m.staging_offset + n) m.staging_data ≡ bytes =
        ap (λ xs. take n bytes ++ xs) (sym (drop-drop m.staging_offset n m.staging_data))
        ∙ take-append-drop n bytes in
      rw
        (
          handle-data_in u m n into at within (omega arith),
          send_data-part u.seqnum n u.transfer m pos (omega arith),
        )
        (subst
          (λ xs. Delivers xs (all_sent m) (
            reply_then (data_reply u.seqnum (take n bytes) u.transfer)
              (serve backend read_only little (v ∷ us) m')))
          split
          (Delivers-then (take n bytes) (drop (m.staging_offset + n) m.staging_data) (all_sent m)
            (data_reply u.seqnum (take n bytes) u.transfer)
            (serve backend read_only little (v ∷ us) m') refl refl later))
