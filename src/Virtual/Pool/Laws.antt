-- ===== src/Virtual/Pool/Laws.antt =====
-- Strings under fresh indices: components/usbipdcpp/usbipdcpp/include/utils/StringPool.h.
use esp32_usb_ip.Prelude.{
  ℕ, zero, suc, ◌+◌, ◌≤◌, ◌<◌, ◌≡◌, true, false, Bool-cases, ◌==◌, if◌then◌else◌, inl, inr, Option,
  none, some, List, [], ◌∷◌, arith,
}
use esp32_usb_ip.Virtual.Pool.{
  StringPool, contains, get_string, assign, first_free, new_at, new_string,
}

get_string-assign :
    (i j : ℕ) (str : List ℕ) (pool : StringPool)
    → get_string j (assign i str pool) ≡ (if i == j then some str else get_string j pool)
unfolding get_string assign
get_string-assign i j str [] = ground arith
get_string-assign i j str ((key, old) ∷ pool) = ground (arith, get_string-assign i j str pool)

-- What the search for an index comes to.
FirstFree : ℕ → ℕ → StringPool → Option ℕ → Type 0
FirstFree left index pool none = (i : ℕ) → index ≤ i → i < index + left → contains i pool ≡ true
FirstFree left index pool (some i) = (index ≤ i) × (i < index + left) × (contains i pool ≡ false)

later_free :
    (left index : ℕ) (pool : StringPool) (o : Option ℕ)
    → contains index pool ≡ true
    → FirstFree left (index + 1) pool o
    → FirstFree (suc left) index pool o
unfolding FirstFree
later_free left index pool none used free = λ i from below. elim (Bool-cases (index == i)) [
  | inl here ↦ ground (arith, here, used)
  | inr on ↦ free i (ground (arith, on, from)) (omega arith)
]
later_free left index pool (some i) used free =
    (omega (arith, free.0), omega (arith, free.1), free.2)

first_free-FirstFree :
    (left index : ℕ) (pool : StringPool) → FirstFree left index pool (first_free left index pool)
unfolding FirstFree first_free
first_free-FirstFree zero index pool = λ i from below. absurd (omega arith)
first_free-FirstFree (suc left) index pool = elim (Bool-cases (contains index pool)) [
  | inl used ↦ rw used (
      later_free left index pool (first_free left (index + 1) pool) used
        (first_free-FirstFree left (index + 1) pool))
  | inr free ↦ rw free (omega arith, omega arith, free)
]

-- What `new_string` does: it gives the string an index from 1 to 254 that no string had, and leaves
-- the strings of the other indices alone, or throws, and then all of these indices are taken.
unfoldable pub Numbered : List ℕ → StringPool → Option (ℕ × StringPool) → Type 0
Numbered str pool none = (i : ℕ) → 1 ≤ i → i < 255 → contains i pool ≡ true
Numbered str pool (some (i, pool')) =
    (1 ≤ i)
    × (i < 255)
    × (contains i pool ≡ false)
    × ((j : ℕ) → get_string j pool' ≡ (if i == j then some str else get_string j pool))

new_at-Numbered :
    (str : List ℕ) (pool : StringPool) (o : Option ℕ)
    → FirstFree 254 1 pool o
    → Numbered str pool (new_at str pool o)
unfolding FirstFree Numbered new_at
new_at-Numbered str pool none taken = λ i from below. taken i from (omega arith)
new_at-Numbered str pool (some i) (from, below, free) =
    (from, omega arith, free, λ j. get_string-assign i j str pool)

-- A new string gets an index from 1 to 254 that was free, under which it is found, and every other
-- index keeps its string; the exception is thrown only if all 254 indices are taken.
new_string-Numbered : (str : List ℕ) (pool : StringPool) → Numbered str pool (new_string str pool)
unfolding new_string
new_string-Numbered str pool =
    new_at-Numbered str pool (first_free 254 1 pool) (first_free-FirstFree 254 1 pool)
