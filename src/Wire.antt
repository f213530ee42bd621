-- ===== src/Wire.antt =====
-- components/usbipdcpp/usbipdcpp/include/network.h: byte order, and integers and arrays laid out
-- into one buffer. A buffer is a list of bytes; `little` says which byte order the host has.
pub mod Endian
pub mod Pack
mod Examples
use esp32_usb_ip.Prelude.{ℕ, zero, suc, ◌+◌, ◌*◌, ◌/◌, ◌%◌, Bool, if◌then◌else◌}
use esp32_usb_ip.Prelude.{List, [], ◌∷◌, ◌++◌, reverse, length, set, replicate}

-- The bytes of a `w`-byte integer, lowest first, and the integer of such bytes.
pub le_bytes : ℕ → ℕ → List ℕ
le_bytes zero v = []
le_bytes (suc w) v = (v % 256) ∷ le_bytes w (v / 256)

pub le_value : List ℕ → ℕ
le_value [] = 0
le_value (b ∷ bs) = b + 256 * le_value bs

-- The object representation of an integer on the host, which `memcpy` copies out and in.
pub to_memory : Bool → ℕ → ℕ → List ℕ
to_memory little w v = if little then le_bytes w v else reverse (le_bytes w v)

pub from_memory : Bool → List ℕ → ℕ
from_memory little bs = if little then le_value bs else le_value (reverse bs)

-- `std::byteswap`
pub byteswap : ℕ → ℕ → ℕ
byteswap w v = le_value (reverse (le_bytes w v))

pub ntoh : Bool → ℕ → ℕ → ℕ
ntoh little w num = if little then byteswap w num else num

pub hton : Bool → ℕ → ℕ → ℕ
hton little w num = ntoh little w num

-- An argument of the variadic functions: an unsigned integral of `w` bytes, or an array of bytes.
pub data Field : Type 0 where
  int : ℕ → ℕ → Field
  arr : List ℕ → Field

unfoldable pub field_size : Field → ℕ
field_size (int w v) = w
field_size (arr bs) = length bs

unfoldable pub calculate_total_size_with_array : List Field → ℕ
calculate_total_size_with_array [] = 0
calculate_total_size_with_array (a ∷ args) = field_size a + calculate_total_size_with_array args

-- `memcpy(buffer + offset, bytes)`; what would fall outside of the buffer is dropped here, and
-- `to_network_array-concat` shows that nothing does.
pub memcpy : List ℕ → ℕ → List ℕ → List ℕ
memcpy buffer offset [] = buffer
memcpy buffer offset (b ∷ bs) = memcpy (set buffer offset b) (offset + 1) bs

-- What `process` copies for one argument.
pub field_bytes : Bool → Field → List ℕ
field_bytes little (int w v) = to_memory little w (hton little w v)
field_bytes little (arr bs) = bs

-- `(process(args), ...)` with its running offset.
pub process : Bool → List ℕ → ℕ → List Field → List ℕ
process little buffer offset [] = buffer
process little buffer offset (a ∷ args) =
    process little (memcpy buffer offset (field_bytes little a)) (offset + field_size a) args

-- `to_network_array` into the buffer that it declares and does not initialise.
pub to_network_array_in : List ℕ → Bool → List Field → List ℕ
to_network_array_in buffer little args = process little buffer 0 args

-- The result does not depend on that buffer (`to_network_array-concat`), so a zeroed one stands
-- for it. `to_network_data` starts from `resize`, which does zero the buffer.
pub to_network_array : Bool → List Field → List ℕ
to_network_array little args =
    to_network_array_in (replicate (calculate_total_size_with_array args) 0) little args

pub to_network_data : Bool → List Field → List ℕ
to_network_data little args =
    process little (replicate (calculate_total_size_with_array args) 0) 0 args

-- `vec.resize(vec.size() + total_size)`, then the arguments from the old end on.
pub vector_append_to_net : Bool → List ℕ → List Field → List ℕ
vector_append_to_net little vec args =
    process little (vec ++ replicate (calculate_total_size_with_array args) 0) (length vec) args

-- `memory` is the uninitialised array that the result is built in.
pub array_add_padding : List ℕ → List ℕ → List ℕ
array_add_padding memory array = memcpy memory 0 array

-- What a reader makes of the `w` bytes of an integer: `memcpy` into it, then `ntoh`.
pub read_int : Bool → ℕ → List ℕ → ℕ
read_int little w bytes = ntoh little w (from_memory little bytes)
