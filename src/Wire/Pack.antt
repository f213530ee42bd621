-- ===== src/Wire/Pack.antt =====
-- The variadic writers of network.h: each argument lands behind the one before it, and together
-- they fill the buffer exactly.
use esp32_usb_ip.Prelude.{
  ℕ, ◌+◌, ◌≤◌, ◌≡◌, refl, sym, ap, ap₂, ◌∙◌, arith, Bool, List, [], ◌∷◌, ◌++◌, append_assoc,
  append-nil, length, length-append, length-replicate, set, drop, length-drop, drop-append,
  drop-drop,
}
use esp32_usb_ip.Wire.{
  Field, int, arr, field_size, calculate_total_size_with_array, memcpy, field_bytes, process,
  to_network_array_in, to_network_array, to_network_data, vector_append_to_net, array_add_padding,
}
use esp32_usb_ip.Wire.Endian.{be_bytes, length-be_bytes, to_memory-hton}

-- What stands on the wire for one argument, and for a row of them.
unfoldable pub wire_bytes : Field → List ℕ
wire_bytes (int w v) = be_bytes w v
wire_bytes (arr bs) = bs

unfoldable pub concat_fields : List Field → List ℕ
concat_fields [] = []
concat_fields (a ∷ args) = wire_bytes a ++ concat_fields args

field_bytes-wire : (little : Bool) (a : Field) → field_bytes little a ≡ wire_bytes a
unfolding field_bytes wire_bytes
field_bytes-wire little (int w v) = to_memory-hton little w v
field_bytes-wire little (arr bs) = refl

pub length-wire_bytes : (a : Field) → length (wire_bytes a) ≡ field_size a
unfolding wire_bytes field_size
length-wire_bytes (int w v) = length-be_bytes w v
length-wire_bytes (arr bs) = refl

pub length-concat_fields :
    (args : List Field) → length (concat_fields args) ≡ calculate_total_size_with_array args
unfolding concat_fields calculate_total_size_with_array
length-concat_fields [] = refl
length-concat_fields (a ∷ args) =
    rw length-append (omega (arith, length-wire_bytes a, length-concat_fields args))

set-append_at :
    (pre mid : List ℕ) (m b : ℕ) → set (pre ++ (m ∷ mid)) (length pre) b ≡ pre ++ (b ∷ mid)
set-append_at [] mid m b = refl
set-append_at (p ∷ pre) mid m b = ap (λ t. p ∷ t) (set-append_at pre mid m b)

length-snoc : (pre : List ℕ) (b : ℕ) → length pre + 1 ≡ length (pre ++ (b ∷ []))
length-snoc pre b = rw length-append (omega arith)

-- A copy that fits replaces exactly its own stretch of the buffer.
pub memcpy-append :
    (bs pre mid : List ℕ)
    → length bs ≤ length mid
    → memcpy (pre ++ mid) (length pre) bs ≡ pre ++ (bs ++ drop (length bs) mid)
unfolding memcpy
memcpy-append [] pre mid h = refl
memcpy-append (b ∷ bs) pre [] h = absurd (omega arith)
memcpy-append (b ∷ bs) pre (m ∷ mid) h =
    rw (set-append_at pre mid m b, length-snoc pre b, ← append_assoc pre (b ∷ []) mid)
      (memcpy-append bs (pre ++ (b ∷ [])) mid (omega arith)
        ∙ append_assoc pre (b ∷ []) (bs ++ drop (length bs) mid))

pub drop-nil_of_length : (n : ℕ) (xs : List ℕ) → length xs ≡ n → drop n xs ≡ []
drop-nil_of_length n xs h = ap (drop n) (sym (append-nil xs)) ∙ drop-append xs [] n h

-- The copy of one argument, in terms of what it is on the wire.
memcpy-field :
    (little : Bool) (a : Field) (pre mid : List ℕ)
    → field_size a ≤ length mid
    → memcpy (pre ++ mid) (length pre) (field_bytes little a)
      ≡ (pre ++ wire_bytes a) ++ drop (field_size a) mid
memcpy-field little a pre mid h =
    rw (field_bytes-wire, ← length-wire_bytes, append_assoc)
      (memcpy-append (wire_bytes a) pre mid (omega (arith, length-wire_bytes a)))

process-append :
    (little : Bool) (args : List Field) (pre mid : List ℕ)
    → calculate_total_size_with_array args ≤ length mid
    → process little (pre ++ mid) (length pre) args
      ≡ pre ++ (concat_fields args ++ drop (calculate_total_size_with_array args) mid)
unfolding process concat_fields calculate_total_size_with_array
process-append little [] pre mid h = refl
process-append little (a ∷ args) pre mid h =
    ap₂ (λ buffer offset. process little buffer offset args)
      (memcpy-field little a pre mid (omega arith)) next_offset
    ∙ process-append little args (pre ++ wire_bytes a) (drop (field_size a) mid)
        (omega (arith, length-drop (field_size a) mid))
    ∙ simp (append_assoc, drop-drop)
  where
    next_offset : length pre + field_size a ≡ length (pre ++ wire_bytes a)
    next_offset = rw length-append (omega (arith, length-wire_bytes a))

-- Into a buffer of the right size, whatever it held, the writer of `to_network_array` puts the
-- arguments one behind the other, the integers highest byte first, on hosts of either byte order;
-- not a byte of the old buffer is left, and nothing is written past its end.
to_network_array-concat :
    (buffer : List ℕ) (little : Bool) (args : List Field)
    → length buffer ≡ calculate_total_size_with_array args
    → to_network_array_in buffer little args ≡ concat_fields args
unfolding to_network_array_in
to_network_array-concat buffer little args h =
    process-append little args [] buffer (omega arith)
    ∙ rw (drop-nil_of_length _ buffer h, append-nil)

pub to_network_array_lem :
    (little : Bool) (args : List Field) → to_network_array little args ≡ concat_fields args
unfolding to_network_array
to_network_array_lem little args = to_network_array-concat _ little args (length-replicate _ 0)

pub to_network_data_lem :
    (little : Bool) (args : List Field) → to_network_data little args ≡ concat_fields args
unfolding to_network_data to_network_array_in
to_network_data_lem little args = to_network_array-concat _ little args (length-replicate _ 0)

-- `vector_append_to_net` keeps the vector and appends the arguments in network order.
pub vector_append_to_net_lem :
    (little : Bool) (vec : List ℕ) (args : List Field)
    → vector_append_to_net little vec args ≡ vec ++ concat_fields args
unfolding vector_append_to_net
vector_append_to_net_lem little vec args =
    let zero_byte : ℕ = 0 in
    let size = length-replicate (calculate_total_size_with_array args) zero_byte in
    process-append little args vec _ (omega (arith, size))
    ∙ rw (drop-nil_of_length _ _ size, append-nil)

-- `array_add_padding` keeps the array in front; behind it stands what the memory of the result
-- held before, for the padding is never written.
pub array_add_padding_lem :
    (memory array : List ℕ)
    → length array ≤ length memory
    → array_add_padding memory array ≡ array ++ drop (length array) memory
unfolding array_add_padding
array_add_padding_lem memory array h = memcpy-append array [] memory h
