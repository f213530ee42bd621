-- ===== src/Virtual/Pool.antt =====
-- The strings of virtual devices, by their 8-bit indices:
-- components/usbipdcpp/usbipdcpp/include/utils/StringPool.h. A string is the list of its 16-bit
-- characters, and a map a list of keys and values.
pub mod Laws
use esp32_usb_ip.Prelude.{
  ℕ, zero, suc, ◌+◌, Bool, false, ◌==◌, ◌||◌, if◌then◌else◌, Option, none, some, List, [], ◌∷◌,
}

abbrev pub StringPool : Type 0
StringPool = List (ℕ × List ℕ)

unfoldable pub contains : ℕ → StringPool → Bool
contains index [] = false
contains index ((key, str) ∷ pool) = key == index || contains index pool

unfoldable pub get_string : ℕ → StringPool → Option (List ℕ)
get_string index [] = none
get_string index ((key, str) ∷ pool) =
    let rest = get_string index pool in if key == index then some str else rest

-- `string_pool[index] = str`
unfoldable pub assign : ℕ → List ℕ → StringPool → StringPool
assign index str [] = (index, str) ∷ []
assign index str ((key, old) ∷ pool) =
    let rest = assign index str pool in
    if key == index then (key, str) ∷ pool else (key, old) ∷ rest

-- The loop of `new_string`, with the number of indices left to try.
unfoldable pub first_free : ℕ → ℕ → StringPool → Option ℕ
first_free zero index pool = none
first_free (suc left) index pool =
    let later = first_free left (index + 1) pool in
    if contains index pool then later else some index

-- `none` is the exception for want of an index.
unfoldable pub new_at : List ℕ → StringPool → Option ℕ → Option (ℕ × StringPool)
new_at str pool none = none
new_at str pool (some index) = some (index, assign index str pool)

unfoldable pub new_string : List ℕ → StringPool → Option (ℕ × StringPool)
new_string str pool = new_at str pool (first_free 254 1 pool)

unfoldable pub change_string : ℕ → List ℕ → StringPool → Option StringPool
change_string index str pool = if contains index pool then some (assign index str pool) else none

unfoldable pub remove_string : ℕ → StringPool → StringPool
remove_string index [] = []
remove_string index ((key, str) ∷ pool) =
    let rest = remove_string index pool in if key == index then pool else (key, str) ∷ rest
