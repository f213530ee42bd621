-- ===== src/Protocol/IsoRows.antt =====
-- The isochronous descriptors of a submit command: the loops of protocol.cpp that append them to a
-- message and that read them into a default transfer.
use esp32_usb_ip.Prelude.{
  ℕ, ◌+◌, ◌≡◌, refl, sym, ap, ap₂, ◌∙◌, arith, Bool, List, [], ◌∷◌, ◌++◌, append_assoc, append-nil,
  length, length-append, set, get_or,
}
use esp32_usb_ip.Prelude.Bytes.{IsU32, All}
use mathlib.Core.Path.{subst}
use esp32_usb_ip.Wire.{arr, vector_append_to_net}
use esp32_usb_ip.Wire.Pack.{
  concat_fields, wire_bytes, to_network_array_lem, vector_append_to_net_lem,
}
use esp32_usb_ip.Stream.{Asio, int_at, unsigned_integral_read_from_socket}
use esp32_usb_ip.Stream.Reads.{Reads, Reads-map, Reads->>=, read_ints-concat_fields}
use esp32_usb_ip.Protocol.{
  IsoDescriptor, iso_fields, iso_to_bytes, iso_from_socket, iso_of_fields, iso_zero, four_ints,
}
use esp32_usb_ip.Protocol.Transfer.{GenericTransfer, generic_handler}
use esp32_usb_ip.Protocol.Command.{append_iso, receive_iso}

-- What a descriptor is that travels: its fields fit, and the local one is not used.
pub record Travels (d : IsoDescriptor) : Type 0 where
  pub offset_in : IsU32 d.offset
  pub length_in : IsU32 d.length
  pub actual_length_in : IsU32 d.actual_length
  pub status_in : IsU32 d.status
  pub local_unused : d.length_in_transfer_buffer_only_for_send ≡ 0

-- Descriptors one behind the other on the wire.
unfoldable pub iso_row : List IsoDescriptor → List ℕ
iso_row [] = []
iso_row (d ∷ ds) = concat_fields (iso_fields d) ++ iso_row ds

abbrev pub with_isos : GenericTransfer → List IsoDescriptor → GenericTransfer
with_isos t ds = record t { iso_descriptors = ds }

get_or-append_at {ℓ} :
    {A : Type ℓ} (pre mid : List A) (a d : A) → get_or (pre ++ (a ∷ mid)) (length pre) d ≡ a
get_or-append_at [] mid a d = refl
get_or-append_at (p ∷ pre) mid a d = get_or-append_at pre mid a d

set-append_at {ℓ} :
    {A : Type ℓ} (pre mid : List A) (a b : A)
    → set (pre ++ (a ∷ mid)) (length pre) b ≡ (pre ++ (b ∷ [])) ++ mid
set-append_at [] mid a b = refl
set-append_at (p ∷ pre) mid a b = ap (λ t. p ∷ t) (set-append_at pre mid a b)

length-snoc {ℓ} : {A : Type ℓ} (pre : List A) (a : A) → length pre + 1 ≡ length (pre ++ (a ∷ []))
length-snoc pre a = rw length-append (omega arith)

pub concat_fields_arr : (bs : List ℕ) → concat_fields (arr bs ∷ []) ≡ bs
unfolding concat_fields wire_bytes
concat_fields_arr bs = append-nil bs

module _ {S : Type 0} (net : Asio S) (little : Bool) where
  pub append_iso-row :
      (ds pre : List IsoDescriptor) (t : GenericTransfer) (total : List ℕ)
      → append_iso little
          (generic_handler net)
          (with_isos t (pre ++ ds))
          (length pre)
          (length ds)
          total
        ≡ total ++ iso_row ds
  unfolding append_iso generic_handler iso_row iso_to_bytes
  append_iso-row [] pre t total = sym (append-nil total)
  append_iso-row (d ∷ ds) pre t total =
      let handler = generic_handler net in
      ap₂ (λ ds' out. append_iso little handler (with_isos t ds') (length pre + 1) (length ds) out)
        (sym (append_assoc pre (d ∷ []) ds)) appended
      ∙ ap
          (λ i.
            append_iso little handler (with_isos t ((pre ++ (d ∷ [])) ++ ds)) i (length ds)
              (total ++ concat_fields (iso_fields d)))
          (length-snoc pre d)
      ∙ append_iso-row ds (pre ++ (d ∷ [])) t (total ++ concat_fields (iso_fields d))
      ∙ append_assoc total (concat_fields (iso_fields d)) (iso_row ds)
    where
      appended :
          vector_append_to_net little total
            (arr (iso_to_bytes little (get_or (pre ++ (d ∷ ds)) (length pre) iso_zero)) ∷ [])
          ≡ total ++ concat_fields (iso_fields d)
      appended = rw (get_or-append_at pre ds d iso_zero) (
          vector_append_to_net_lem little total _
          ∙ ap (λ b. total ++ b) (concat_fields_arr _ ∙ to_network_array_lem little (iso_fields d)))

  iso_from_socket-fields :
      (d : IsoDescriptor) (rest : List ℕ) (s : S)
      → Travels d
      → net.pending s ≡ concat_fields (iso_fields d) ++ rest
      → Reads net (iso_from_socket net little) s d rest
  unfolding iso_from_socket int_at
  iso_from_socket-fields d rest s h e =
      subst (λ d'. Reads net (iso_from_socket net little) s d' rest)
        (ap (λ n. record d { length_in_transfer_buffer_only_for_send = n }) (sym h.local_unused))
        (Reads-map net (unsigned_integral_read_from_socket net little four_ints) iso_of_fields s
          (iso_fields d) rest
          (read_ints-concat_fields net little (iso_fields d) rest s (omega arith) e))

  module _ (max_size : ℕ) where
    pub receive_iso-row :
        (ds pre mid : List IsoDescriptor) (t : GenericTransfer) (rest : List ℕ) (s : S)
        → length mid ≡ length ds
        → All Travels ds
        → net.pending s ≡ iso_row ds ++ rest
        → Reads net
            (receive_iso net little
              (generic_handler net)
              max_size
              (length ds)
              (length pre)
              (with_isos t (pre ++ mid)))
            s
            (with_isos t (pre ++ ds))
            rest
    unfolding receive_iso generic_handler iso_row
    receive_iso-row [] pre [] t rest s size h e = (s, refl, e)
    receive_iso-row [] pre (m ∷ mid) t rest s size h e = absurd (omega arith)
    receive_iso-row (d ∷ ds) pre [] t rest s size h e = absurd (omega arith)
    receive_iso-row (d ∷ ds) pre (m ∷ mid) t rest s size h e =
        Reads->>= net (iso_from_socket net little)
          (λ desc.
            receive_iso net little (generic_handler net) max_size (length ds) (length pre + 1)
              (with_isos t (set (pre ++ (m ∷ mid)) (length pre) desc)))
          s d (with_isos t (pre ++ (d ∷ ds))) (iso_row ds ++ rest) rest
          (iso_from_socket-fields d (iso_row ds ++ rest) s h.0
            (e ∙ append_assoc (concat_fields (iso_fields d)) (iso_row ds) rest))
          (λ s' left.
            rw (set-append_at pre mid m d, length-snoc pre d, ← append_assoc pre (d ∷ []) ds)
              (receive_iso-row ds (pre ++ (d ∷ [])) mid t rest s' (omega arith) h.1 left))
