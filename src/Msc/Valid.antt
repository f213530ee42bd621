-- ===== src/Msc/Valid.antt =====
-- The transport of a virtual disk keeps its invariant: components/usbipdcpp/usbipdcpp/src/
-- virtual_device/devices/MscBulkOnlyHandler.cpp.
use esp32_usb_ip.Prelude.{
  ℕ, ◌+◌, ◌-◌, ◌≤◌, ◌≡◌, ◌≢◌, refl, min, Bool, true, false, leb, ltb, if_lem, none, some, length,
  take, drop, arith, Bool-cases, ◌⊎◌, inl, inr,
}
use esp32_usb_ip.Protocol.{urb_status, epipe, get_server_header}
use esp32_usb_ip.Protocol.Transfer.{GenericTransfer}
use esp32_usb_ip.Protocol.Response.{
  RetSubmit, create_ret_submit, create_ret_submit_with_status_and_no_iso,
  create_ret_submit_with_status_and_no_data, create_ret_submit_epipe_without_data,
}
use esp32_usb_ip.Msc.{BotState, idle, data_in, data_out, status, StorageBackend, MscBulkOnlyHandler}
use esp32_usb_ip.Msc.Bulk.{
  Result, send_stall, remaining, end_data_in, data_reply, send_data, send_csw, bulk_in,
}
use esp32_usb_ip.Msc.Laws.{IsValid}

-- The transfers that a state takes, and where they can lead.
unfoldable pub takes : Bool → BotState → Bool
takes true idle = false
takes true data_in = true
takes true data_out = false
takes true status = true
takes false idle = true
takes false data_in = false
takes false data_out = true
takes false status = false

abbrev pub Next : BotState → BotState → Type 0
Next idle s = s ≢ idle
Next data_in s = (s ≡ data_in) ⊎ (s ≡ status)
Next data_out s = (s ≡ data_out) ⊎ (s ≡ status)
Next status s = s ≡ idle

module _ {D : Type 0} (b : StorageBackend D) (IsOpen : D → Type 0) where
  abbrev pub Moved :
      MscBulkOnlyHandler D → RetSubmit GenericTransfer → MscBulkOnlyHandler D → Bool → Type 0
  Moved m r m' true = (r.status ≡ 0) × Next m.state m'.state
  Moved m r m' false = (r.status ≡ urb_status epipe) × (r.transfer ≡ none) × (m' ≡ m)

  abbrev pub Served : ℕ → Bool → MscBulkOnlyHandler D → Result D → Type 0
  Served seqnum into m none = (m.state ≡ data_out) × (m.data_out_unmap ≡ true)
  Served seqnum into m (some (r, m')) =
      (r.header.seqnum ≡ seqnum) × IsValid b IsOpen m' × Moved m r m' (takes into m.state)

  pub accepted :
      (into : Bool) (st : BotState) (m m' : MscBulkOnlyHandler D) (r : RetSubmit GenericTransfer)
      → m.state ≡ st
      → takes into st ≡ true
      → r.status ≡ 0
      → Next st m'.state
      → Moved m r m' (takes into m.state)
  accepted into st m m' r at fits ok next = rw (at, fits) (ok, next)

  pub stalled :
      (seqnum : ℕ) (into : Bool) (m : MscBulkOnlyHandler D)
      → IsValid b IsOpen m
      → takes into m.state ≡ false
      → Served seqnum into m (some (send_stall seqnum, m))
  unfolding send_stall create_ret_submit_epipe_without_data create_ret_submit get_server_header
  stalled seqnum into m h e = rw e (refl, h, (refl, refl, refl))

  remaining-within :
      (m : MscBulkOnlyHandler D)
      → IsValid b IsOpen m
      → remaining m ≡ length m.staging_data - m.staging_offset
  unfolding remaining
  remaining-within m h = ground (arith, h.offset_within)

  end_data_in-IsValid :
      (m : MscBulkOnlyHandler D)
      → IsValid b IsOpen m
      → m.state ≡ data_in
      → IsValid b IsOpen (end_data_in m) × Next data_in (end_data_in m).state
  unfolding end_data_in
  end_data_in-IsValid m h at = elim (Bool-cases (leb (length m.staging_data) m.staging_offset)) [
    | inl over ↦ rw over (
      record {
        no_residue = refl;
        failed_at = λ e. refl;
        unmaps = λ e. cc (h.unmaps e, at);
        offset_within = omega arith;
        offset_start = λ e. refl;
        in_range = λ e f. cc;
        is_open = h.is_open;
      },
      inr refl,
    )
    | inr more ↦ rw more (h, inl at)
  ]

  moved_on :
      (m : MscBulkOnlyHandler D) (len : ℕ)
      → IsValid b IsOpen m
      → m.state ≡ data_in
      → len ≤ length m.staging_data - m.staging_offset
      → IsValid b IsOpen (record m { staging_offset = m.staging_offset + len })
  moved_on m len h at fits = record {
    no_residue = h.no_residue;
    failed_at = h.failed_at;
    unmaps = h.unmaps;
    offset_within = omega (arith, h.offset_within);
    offset_start = λ e. absurd (e at);
    in_range = h.in_range;
    is_open = h.is_open;
  }

  module _ (seqnum : ℕ) (trx : GenericTransfer) (m : MscBulkOnlyHandler D)
      (h : IsValid b IsOpen m) where
    send_data-Served :
        (len : ℕ)
        → m.state ≡ data_in
        → len ≤ length m.staging_data - m.staging_offset
        → Served seqnum true m (some (send_data seqnum len trx m))
    unfolding send_data data_reply takes create_ret_submit_with_status_and_no_iso
        create_ret_submit_with_status_and_no_data create_ret_submit get_server_header
    send_data-Served len at fits =
        let m' = record m { staging_offset = m.staging_offset + len } in
        let sent = end_data_in-IsValid m' (moved_on m len h at fits) at in
        let still = end_data_in-IsValid m h at in
        if_lem (λ p. Served seqnum true m (some p)) (ltb 0 len)
          (λ e. (
            refl,
            sent.0,
            accepted true data_in m (end_data_in m')
                (data_reply seqnum (take len (drop m.staging_offset m.staging_data)) trx) at refl
                refl sent.1,
          ))
          (λ e. (
            refl,
            still.0,
            accepted true data_in m (end_data_in m)
                (create_ret_submit_with_status_and_no_data seqnum (urb_status 0) 0) at refl refl
                still.1,
          ))

    send_csw-Served :
        (little : Bool)
        → m.state ≡ status
        → Served seqnum true m (some (send_csw little seqnum trx m))
    unfolding send_csw takes create_ret_submit_with_status_and_no_iso create_ret_submit
        get_server_header
    send_csw-Served little at = rw at (
      refl,
      record {
        no_residue = h.no_residue;
        failed_at = λ e. cc;
        unmaps = λ e. cc (h.unmaps e, at);
        offset_within = h.offset_within;
        offset_start = λ e. h.offset_start (λ f. cc (f, at));
        in_range = λ e f. cc;
        is_open = h.is_open;
      },
      (refl, refl),
    )

    pub bulk_in-Served :
        (little : Bool) (n : ℕ) (st : BotState)
        → m.state ≡ st
        → Served seqnum true m (some (bulk_in little seqnum n trx st m))
    unfolding bulk_in takes
    bulk_in-Served little n idle at = stalled seqnum true m h (rw at)
    bulk_in-Served little n data_in at =
        send_data-Served (min n (remaining m)) at (rw (remaining-within m h) (omega arith))
    bulk_in-Served little n data_out at = stalled seqnum true m h (rw at)
    bulk_in-Served little n status at = send_csw-Served little at
