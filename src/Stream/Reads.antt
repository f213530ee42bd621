-- ===== src/Stream/Reads.antt =====
-- The readers of network.h take back what the writers of network.h put on the wire.
use esp32_usb_ip.Prelude.{
  ℕ, ◌+◌, ◌^◌, ◌<◌, ◌≡◌, refl, sym, ap, ap₂, ◌∙◌, arith, Bool, List, [], ◌∷◌, ◌++◌, append_assoc,
  append-nil, map, length, length-append, length-replicate, drop-append, take-append, replicate,
}
use esp32_usb_ip.Prelude.Bytes.{All}
use esp32_usb_ip.Wire.{Field, int, arr, field_size, calculate_total_size_with_array, read_int}
use esp32_usb_ip.Wire.Endian.{be_bytes, length-be_bytes, read_int-be_bytes}
use esp32_usb_ip.Wire.Pack.{wire_bytes, concat_fields, length-concat_fields, length-wire_bytes}
use esp32_usb_ip.Stream.{
  Asio, Io, ◌>>=◌, return, >>=-done, done, read_field, extract,
  unsigned_integral_and_array_read_from_socket, unsigned_integral_read_from_socket,
  data_read_from_socket, read_unsigned,
}

-- The value of an integer fits its width.
abbrev pub Fits : Field → Type 0
Fits (int w v) = v < 256 ^ w
Fits (arr bs) = Unit

-- The shape of a field: what a reader is told about it.
abbrev pub blank : Field → Field
blank (int w v) = int w 0
blank (arr bs) = arr (replicate (length bs) 0)

field_size-blank : (f : Field) → field_size (blank f) ≡ field_size f
unfolding field_size
field_size-blank (int w v) = refl
field_size-blank (arr bs) = length-replicate (length bs) 0

pub total-blank :
    (fs : List Field)
    → calculate_total_size_with_array (map blank fs) ≡ calculate_total_size_with_array fs
unfolding calculate_total_size_with_array
total-blank [] = refl
total-blank (f ∷ fs) = ap₂ ◌+◌ (field_size-blank f) (total-blank fs)

read_field-wire_bytes :
    (little : Bool) (f : Field) (rest : List ℕ)
    → Fits f
    → read_field little (wire_bytes f ++ rest) (blank f) ≡ f
unfolding read_field wire_bytes
read_field-wire_bytes little (int w v) rest h =
    rw (take-append (be_bytes w v) rest w (length-be_bytes w v))
      (ap (int w) (read_int-be_bytes little w v h))
read_field-wire_bytes little (arr bs) rest h =
    ap arr (take-append bs rest _ (sym (length-replicate (length bs) 0)))

length-next :
    (pre : List ℕ) (f : Field) → length pre + field_size (blank f) ≡ length (pre ++ wire_bytes f)
length-next pre f = rw length-append (omega (arith, length-wire_bytes f, field_size-blank f))

extract-at :
    (little : Bool) (fs : List Field) (pre rest : List ℕ)
    → All Fits fs
    → extract little (pre ++ (concat_fields fs ++ rest)) (length pre) (map blank fs) ≡ fs
unfolding extract concat_fields
extract-at little [] pre rest h = refl
extract-at little (f ∷ fs) pre rest h =
    ap₂ ◌∷◌
      (rw
        (
          drop-append pre ((wire_bytes f ++ concat_fields fs) ++ rest) (length pre) refl,
          append_assoc,
        )
        (read_field-wire_bytes little f (concat_fields fs ++ rest) h.0))
      (ap₂ (λ buffer offset. extract little buffer offset (map blank fs)) regroup
          (length-next pre f)
        ∙ extract-at little fs (pre ++ wire_bytes f) rest h.1)
  where
    regroup :
        pre ++ ((wire_bytes f ++ concat_fields fs) ++ rest)
        ≡ (pre ++ wire_bytes f) ++ (concat_fields fs ++ rest)
    regroup = simp append_assoc

-- Fields that stand at the front of a buffer are extracted with their values.
pub extract-concat_fields :
    (little : Bool) (fs : List Field) (rest : List ℕ)
    → All Fits fs
    → extract little (concat_fields fs ++ rest) 0 (map blank fs) ≡ fs
extract-concat_fields little fs rest h = extract-at little fs [] rest h

-- From the state `s` the reader ends normally with the value `a`, and with `rest` still to come.
abbrev pub Reads : {S A : Type 0} → Asio S → Io S A → S → A → List ℕ → Type 0
Reads {S} net m s a rest = (s' : S) × (m s ≡ done a s') × (net.pending s' ≡ rest)

module _ {S : Type 0} (net : Asio S) where
  pub Reads-return : {A : Type 0} (a : A) (s : S) → Reads net (return a) s a (net.pending s)
  Reads-return a s = (s, refl, refl)

  pub Reads->>= :
      {A B : Type 0} (m : Io S A) (f : A → Io S B) (s : S) (a : A) (b : B) (mid rest : List ℕ)
      → Reads net m s a mid
      → ((s' : S) → net.pending s' ≡ mid → Reads net (f a) s' b rest)
      → Reads net (m >>= f) s b rest
  Reads->>= m f s a b mid rest (s', ran, left) k =
      let (s'', ran', left') = k s' left in (s'', >>=-done m f s ran ∙ ran', left')

  pub Reads-map :
      {A B : Type 0} (m : Io S A) (g : A → B) (s : S) (a : A) (rest : List ℕ)
      → Reads net m s a rest
      → Reads net (m >>= λ x. return (g x)) s (g a) rest
  Reads-map m g s a rest (s', ran, left) = (s', >>=-done m (λ x. return (g x)) s ran, left)

  -- A read that is served by the front of what is pending.
  pub read-append :
      (n : ℕ) (s : S) (front rest : List ℕ)
      → length front ≡ n
      → net.pending s ≡ front ++ rest
      → Reads net (net.read n) s front rest
  read-append n s front rest size e = (
    net.skip n s,
    net.read_enough n s (rw (e, length-append) (omega arith))
        ∙ rw e (rw (take-append front rest n size)),
    net.pending-skip n s ∙ rw e (drop-append front rest n size),
  )

  -- If what is pending starts with fields as the writers lay them out, each of a value that fits,
  -- and with the padding behind them, the block reader assigns those values, takes exactly these
  -- bytes, and leaves what follows.
  pub read_block-concat_fields :
      (little : Bool) (fs : List Field) (pad rest : List ℕ) (s : S)
      → All Fits fs
      → net.pending s ≡ concat_fields fs ++ (pad ++ rest)
      → Reads net
          (unsigned_integral_and_array_read_from_socket net little (length pad) (map blank fs))
          s
          fs
          rest
  unfolding unsigned_integral_and_array_read_from_socket
  read_block-concat_fields little fs pad rest s h e =
      Reads->>= (net.read _) (λ b. return (extract little b 0 (map blank fs))) s
        (concat_fields fs ++ pad) fs rest rest
        (read-append _ s (concat_fields fs ++ pad) rest size
          (e ∙ sym (append_assoc (concat_fields fs) pad rest)))
        (λ s' left. (s', ap (λ fs'. done fs' s') (extract-concat_fields little fs pad h), left))
    where
      size :
          length (concat_fields fs ++ pad)
          ≡ calculate_total_size_with_array (map blank fs) + length pad
      size = rw length-append (omega (arith, length-concat_fields fs, total-blank fs))

  -- The reader of integers alone is the block reader without padding.
  pub read_ints-concat_fields :
      (little : Bool) (fs : List Field) (rest : List ℕ) (s : S)
      → All Fits fs
      → net.pending s ≡ concat_fields fs ++ rest
      → Reads net (unsigned_integral_read_from_socket net little (map blank fs)) s fs rest
  unfolding unsigned_integral_read_from_socket
  read_ints-concat_fields little fs rest s h e =
      Reads->>= (net.read _) (λ b. return (extract little b 0 (map blank fs))) s (concat_fields fs)
        fs rest rest
        (read-append _ s (concat_fields fs) rest (length-concat_fields fs ∙ sym (total-blank fs)) e)
        (λ s' left. (
          s',
          ap (λ fs'. done fs' s')
              (ap (λ b. extract little b 0 (map blank fs)) (sym (append-nil (concat_fields fs)))
                ∙ extract-concat_fields little fs [] h),
          left,
        ))

  pub read_unsigned-be_bytes :
      (little : Bool) (w v : ℕ) (rest : List ℕ) (s : S)
      → v < 256 ^ w
      → net.pending s ≡ be_bytes w v ++ rest
      → Reads net (read_unsigned net little w) s v rest
  unfolding read_unsigned
  read_unsigned-be_bytes little w v rest s h e =
      Reads->>= (net.read w) (λ b. return (read_int little w b)) s (be_bytes w v) v rest rest
        (read-append w s (be_bytes w v) rest (length-be_bytes w v) e)
        (λ s' left. (s', ap (λ v'. done v' s') (read_int-be_bytes little w v h), left))

  -- `data_read_from_socket`, one read for each argument, reads the same.
  pub data_read-concat_fields :
      (little : Bool) (fs : List Field) (rest : List ℕ) (s : S)
      → All Fits fs
      → net.pending s ≡ concat_fields fs ++ rest
      → Reads net (data_read_from_socket net little (map blank fs)) s fs rest
  unfolding data_read_from_socket concat_fields
  data_read-concat_fields little [] rest s h e = (s, refl, e)
  data_read-concat_fields little (f ∷ fs) rest s h e =
      Reads->>= (net.read _)
        (λ b. data_read_from_socket net little (map blank fs) >>= λ r.
          return (read_field little b (blank f) ∷ r))
        s (wire_bytes f) (f ∷ fs) (concat_fields fs ++ rest) rest
        (read-append _ s (wire_bytes f) (concat_fields fs ++ rest)
          (length-wire_bytes f ∙ sym (field_size-blank f))
          (e ∙ append_assoc (wire_bytes f) (concat_fields fs) rest))
        (λ s' left.
          Reads->>= (data_read_from_socket net little (map blank fs))
            (λ r. return (read_field little (wire_bytes f) (blank f) ∷ r)) s' fs (f ∷ fs) rest rest
            (data_read-concat_fields little fs rest s' h.1 left)
            (λ s'' left'. (
              s'',
              ap (λ f'. done (f' ∷ fs) s'')
                  (ap (λ b. read_field little b (blank f)) (sym (append-nil (wire_bytes f)))
                    ∙ read_field-wire_bytes little f [] h.0),
              left',
            )))
