-- ===== src/Ring.antt =====
-- components/usbipdcpp/usbipdcpp/src/utils/RingBuffer.cpp: the ring buffer of the virtual serial
-- devices. A vector is the list of its elements. A capacity beyond 2 ^ 31 - 1, for which the
-- vector throws `std::length_error`, is left to the hypotheses of the theorems.
pub mod Positions
pub mod Contents
pub mod Operations
pub mod Resizing
pub mod Refines
mod Examples
use esp32_usb_ip.Prelude.{
  ℕ, zero, suc, ◌+◌, ◌-◌, ◌%◌, min, Bool, ltb, ◌==◌, if◌then◌else◌, List, [], ◌∷◌, ◌++◌, length,
  take, get_or, set, replicate,
}
use esp32_usb_ip.Prelude.Bytes.{add_size, sub_size}

pub record RingBuffer : Type 0 where
  pub buffer : List ℕ
  pub capacity : ℕ
  pub head : ℕ
  pub tail : ℕ
  pub count : ℕ

-- The constructor allocates nothing.
unfoldable pub new : ℕ → RingBuffer
new capacity = record { buffer = []; capacity = capacity; head = 0; tail = 0; count = 0 }

-- `(position + 1) % capacity_`
unfoldable pub next : ℕ → ℕ → ℕ
next capacity position = add_size position 1 % capacity

-- One round of the loop of `write`.
unfoldable pub write_byte : RingBuffer → ℕ → RingBuffer
write_byte r byte = record r {
  buffer = set r.buffer r.tail byte;
  tail = next r.capacity r.tail;
  count = add_size r.count 1;
}

unfoldable pub write_bytes : RingBuffer → List ℕ → RingBuffer
write_bytes r [] = r
write_bytes r (byte ∷ bytes) = write_bytes (write_byte r byte) bytes

-- `buffer_.resize(capacity_)` where the buffer is shorter than that.
unfoldable pub allocate : RingBuffer → RingBuffer
allocate r =
    if ltb (length r.buffer) r.capacity
    then record r { buffer = r.buffer ++ replicate (r.capacity - length r.buffer) 0 }
    else r

-- What `write` returns is the number of bytes that it took.
unfoldable pub write : RingBuffer → List ℕ → ℕ × RingBuffer
write r data_ =
    let to_write = min (length data_) (sub_size r.capacity r.count) in
    if r.capacity == 0 then (0, r) else (to_write, write_bytes (allocate r) (take to_write data_))

-- One round of the loop of `read`, without the byte that it copies.
unfoldable pub pop : RingBuffer → RingBuffer
pop r = record r { head = next r.capacity r.head; count = sub_size r.count 1 }

unfoldable pub read_bytes : ℕ → RingBuffer → List ℕ × RingBuffer
read_bytes zero r = ([], r)
read_bytes (suc n) r =
    let (bytes, r') = read_bytes n (pop r) in (get_or r.buffer r.head 0 ∷ bytes, r')

-- The bytes that `read` copies; it returns how many they are.
unfoldable pub read : RingBuffer → ℕ → List ℕ × RingBuffer
read r max_size = read_bytes (min max_size r.count) r

unfoldable pub peek_bytes : List ℕ → ℕ → ℕ → ℕ → List ℕ
peek_bytes buffer capacity pos zero = []
peek_bytes buffer capacity pos (suc n) =
    get_or buffer pos 0 ∷ peek_bytes buffer capacity (next capacity pos) n

unfoldable pub peek : RingBuffer → ℕ → List ℕ
peek r max_size = peek_bytes r.buffer r.capacity r.head (min max_size r.count)

unfoldable pub size : RingBuffer → ℕ
size r = r.count

unfoldable pub available : RingBuffer → ℕ
available r = sub_size r.capacity r.count

unfoldable pub empty : RingBuffer → Bool
empty r = r.count == 0

unfoldable pub full : RingBuffer → Bool
full r = r.count == r.capacity

unfoldable pub clear : RingBuffer → RingBuffer
clear r = record r { head = 0; tail = 0; count = 0 }

-- `resize` behind the reading of the old data: a buffer of zeros, and the data written back.
unfoldable pub refill : ℕ → List ℕ → RingBuffer
refill new_capacity old_data =
    let fresh : RingBuffer = record {
      buffer = replicate new_capacity 0;
      capacity = new_capacity;
      head = 0;
      tail = 0;
      count = 0;
    } in
    if length old_data == 0
    then fresh
    else (write fresh (take (min (length old_data) new_capacity) old_data)).1

unfoldable pub resize : RingBuffer → ℕ → RingBuffer
resize r new_capacity = if new_capacity == 0 then new 0 else refill new_capacity (read r r.count).0
