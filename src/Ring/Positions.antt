-- ===== src/Ring/Positions.antt =====
-- The positions of components/usbipdcpp/usbipdcpp/src/utils/RingBuffer.cpp: how `(i + 1) %
-- capacity_` walks round the buffer.
use esp32_usb_ip.Prelude.{
  ℕ, zero, suc, ◌+◌, ◌-◌, ◌%◌, ◌^◌, ◌≤◌, ◌<◌, ◌≡◌, refl, ◌≢◌, ◌⊎◌, inl, inr, arith,
}
use native.Mathlib.Nat.{mod-eq_of_lt, mod_self}
use esp32_usb_ip.Ring.{next}

-- What a vector of bytes can hold at most.
abbrev pub max_vector : ℕ
max_vector = 2 ^ 31 - 1

-- The position after `pos`, as long as the capacity is one that a vector can have.
pub next_lem :
    (cap pos : ℕ)
    → pos < cap
    → cap ≤ max_vector
    → ((suc pos < cap) × (next cap pos ≡ suc pos)) ⊎ ((suc pos ≡ cap) × (next cap pos ≡ 0))
unfolding next
next_lem cap pos lt fits =
    let small : (pos + 1) % 2 ^ 32 ≡ suc pos = omega arith in
    elim strict_or_equal [
      | inl strict ↦ inl (strict, rw (small, mod-eq_of_lt strict))
      | inr equal ↦ inr (equal, rw (small, equal, mod_self cap))
    ]
  where
    strict_or_equal : (suc pos < cap) ⊎ (suc pos ≡ cap)
    strict_or_equal = ground arith

pub next-lt : (cap pos : ℕ) → pos < cap → cap ≤ max_vector → next cap pos < cap
next-lt cap pos lt fits = ground (arith, next_lem cap pos lt fits)

-- The position `k` rounds after `pos`.
unfoldable pub walk : ℕ → ℕ → ℕ → ℕ
walk cap pos zero = pos
walk cap pos (suc k) = walk cap (next cap pos) k

-- In closed form: at most one turn is made.
pub walk_lem :
    (cap pos k : ℕ)
    → pos < cap
    → k ≤ cap
    → cap ≤ max_vector
    → ((pos + k < cap) × (walk cap pos k ≡ pos + k))
      ⊎ ((cap ≤ pos + k) × (walk cap pos k + cap ≡ pos + k))
unfolding walk
walk_lem cap pos zero lt le fits = inl (omega arith, omega arith)
walk_lem cap pos (suc k) lt le fits = elim (next_lem cap pos lt fits) [
  | inl (strict, e) ↦ rw e (ground (arith, walk_lem cap (suc pos) k strict (omega arith) fits))
  | inr (equal, e) ↦ rw e (ground (arith, walk_lem cap 0 k (omega arith) (omega arith) fits))
]

pub walk-lt : (cap pos k : ℕ) → pos < cap → k ≤ cap → cap ≤ max_vector → walk cap pos k < cap
walk-lt cap pos k lt le fits = ground (arith, walk_lem cap pos k lt le fits)

-- Different distances below the capacity lead to different positions.
pub walk-ne :
    (cap pos k n : ℕ)
    → pos < cap
    → k < n
    → n < cap
    → cap ≤ max_vector
    → walk cap pos k ≢ walk cap pos n
walk-ne cap pos k n lt below le fits e =
    ground
      (arith, walk_lem cap pos k lt (omega arith) fits, walk_lem cap pos n lt (omega arith) fits)

-- The walk, one step longer.
pub walk-next : (cap pos k : ℕ) → walk cap pos (suc k) ≡ next cap (walk cap pos k)
unfolding walk
walk-next cap pos zero = refl
walk-next cap pos (suc k) = walk-next cap (next cap pos) k
