-- ===== src/Stream.antt =====
-- Reading from a socket, as components/usbipdcpp/usbipdcpp/include/network.h does through asio.
-- asio is not part of the repository: a socket is any type of states with the operations and laws
-- of `Asio`. What a C++ function throws is an outcome of its own beside what it returns.
pub mod Feed
pub mod Reads
pub mod Ends
use esp32_usb_ip.Prelude.{ℕ, zero, suc, ◌+◌, ◌-◌, ◌*◌, ◌≤◌, ◌<◌, ◌≡◌, Bool, Option, none, some}
use esp32_usb_ip.Prelude.{List, [], ◌∷◌, ◌++◌, length, take, drop}
use esp32_usb_ip.Wire.{Field, int, arr, field_size, calculate_total_size_with_array, read_int}

-- The codes of `std::system_error` (which `asio::system_error` is): the end of the stream, the
-- errc that protocol.cpp throws, and any other.
pub data Code : Type 0 where
  eof : Code
  no_buffer_space : Code
  other_code : ℕ → Code

-- What can leave a function by `throw`; only a `system_error` is caught.
pub data Thrown : Type 0 where
  system_error : Code → Thrown
  length_error : Thrown

pub data Outcome (S A : Type 0) : Type 0 where
  done : A → S → Outcome S A
  thrown : Thrown → S → Outcome S A

abbrev pub Io : Type 0 → Type 0 → Type 0
Io S A = S → Outcome S A

module _ {S : Type 0} where
  infixl 5 ◌>>=◌ ◌>>◌
  abbrev pub ◌>>=◌ : {A B : Type 0} → Io S A → (A → Io S B) → Io S B
  ◌>>=◌ m f s = elim (m s) [ done a s' ↦ f a s' | thrown e s' ↦ thrown e s' ]

  abbrev pub ◌>>◌ : {A B : Type 0} → Io S A → Io S B → Io S B
  ◌>>◌ m k = m >>= λ _. k

  abbrev pub return : {A : Type 0} → A → Io S A
  return a s = done a s

  abbrev pub throw : {A : Type 0} → Thrown → Io S A
  throw e s = thrown e s

-- A step of a chain whose first part is known.
pub >>=-done :
    {S A B : Type 0} (m : Io S A) (f : A → Io S B) (s : S) {a : A} {s' : S}
    → m s ≡ done a s'
    → (m >>= f) s ≡ f a s'
>>=-done m f s h = rw (h, ◌>>=◌)

pub >>=-cong :
    {S A B : Type 0} (m m' : Io S A) (f : A → Io S B) (s s' : S)
    → m s ≡ m' s'
    → (m >>= f) s ≡ (m' >>= f) s'
>>=-cong m m' f s s' h = rw (h, ◌>>=◌)

pub >>=-thrown :
    {S A B : Type 0} (m : Io S A) (f : A → Io S B) (s : S) {e : Thrown} {s' : S}
    → m s ≡ thrown e s'
    → (m >>= f) s ≡ thrown e s'
>>=-thrown m f s h = rw (h, ◌>>=◌)

-- `asio::read(sock, buffer)` gives exactly the bytes that the buffer holds, in the order in which
-- they came, or throws. `pending` is what arrives until the stream ends, `skip` the socket after
-- a read, and `failed` and `reason` the socket and the code when the stream ends first.
pub record Asio (S : Type 0) : Type 0 where
  pub pending : S → List ℕ
  pub skip : ℕ → S → S
  pub reason : S → Code
  pub failed : ℕ → S → S
  pub read : ℕ → Io S (List ℕ)
  pub read_enough :
      (n : ℕ) (s : S) → n ≤ length (pending s) → read n s ≡ done (take n (pending s)) (skip n s)
  pub read_short :
      (n : ℕ) (s : S)
      → length (pending s) < n
      → read n s ≡ thrown (system_error (reason s)) (failed n s)
  pub pending-skip : (n : ℕ) (s : S) → pending (skip n s) ≡ drop n (pending s)

-- `process` of the readers: each argument from the running offset of the buffer on. A `Field`
-- gives the shape of an argument; its value is what is assigned.
unfoldable pub read_field : Bool → List ℕ → Field → Field
read_field little bytes (int w v) = int w (read_int little w (take w bytes))
read_field little bytes (arr bs) = arr (take (length bs) bytes)

unfoldable pub extract : Bool → List ℕ → ℕ → List Field → List Field
extract little buffer offset [] = []
extract little buffer offset (a ∷ args) =
    read_field little (drop offset buffer) a ∷ extract little buffer (offset + field_size a) args

-- The arguments by position, as the variables that the caller passes.
unfoldable pub int_at : List Field → ℕ → ℕ
int_at [] i = 0
int_at (int w v ∷ fs) zero = v
int_at (arr bs ∷ fs) zero = 0
int_at (f ∷ fs) (suc i) = int_at fs i

unfoldable pub arr_at : List Field → ℕ → List ℕ
arr_at [] i = []
arr_at (int w v ∷ fs) zero = []
arr_at (arr bs ∷ fs) zero = bs
arr_at (f ∷ fs) (suc i) = arr_at fs i

module _ {S : Type 0} (net : Asio S) (little : Bool) where
  -- `unsigned_integral_and_array_read_from_socket<padding>`
  pub unsigned_integral_and_array_read_from_socket : ℕ → List Field → Io S (List Field)
  unsigned_integral_and_array_read_from_socket padding args =
      net.read (calculate_total_size_with_array args + padding) >>= λ buffer.
      return (extract little buffer 0 args)

  -- `unsigned_integral_read_from_socket`, the same for integers alone and with no padding
  pub unsigned_integral_read_from_socket : List Field → Io S (List Field)
  unsigned_integral_read_from_socket args =
      net.read (calculate_total_size_with_array args) >>= λ buffer.
      return (extract little buffer 0 args)

  -- `data_read_from_socket` reads the arguments one at a time.
  pub data_read_from_socket : List Field → Io S (List Field)
  data_read_from_socket [] = return []
  data_read_from_socket (a ∷ args) = net.read (field_size a) >>= λ buffer.
      data_read_from_socket args >>= λ rest. return (read_field little buffer a ∷ rest)

  -- `read_u8`, `read_u16`, `read_u32`, `read_u64` for a width of 1, 2, 4 and 8
  pub read_unsigned : ℕ → Io S ℕ
  read_unsigned w = net.read w >>= λ result. return (read_int little w result)
