-- ===== src/Stream/Feed.antt =====
-- A socket to run the readers on: the bytes still to come, after which the peer has closed.
use esp32_usb_ip.Prelude.{
  ℕ, ◌≤◌, ◌<◌, ◌≡◌, refl, arith, leb, if◌then◌else◌, List, [], take, drop, length, true, false,
}
use esp32_usb_ip.Stream.{Asio, Io, done, thrown, system_error, eof}

abbrev pub feed_read : ℕ → Io (List ℕ) (List ℕ)
feed_read n s =
    if leb n (length s) then done (take n s) (drop n s) else thrown (system_error eof) []

le→leb_true : (a b : ℕ) → a ≤ b → leb a b ≡ true
le→leb_true a b h = ground arith

lt→leb_false : (a b : ℕ) → b < a → leb a b ≡ false
lt→leb_false a b h = ground arith

pub feed_enough : (n : ℕ) (s : List ℕ) → n ≤ length s → feed_read n s ≡ done (take n s) (drop n s)
feed_enough n s h = rw (le→leb_true n (length s) h)

pub feed_short : (n : ℕ) (s : List ℕ) → length s < n → feed_read n s ≡ thrown (system_error eof) []
feed_short n s h = rw (lt→leb_false n (length s) h)

abbrev pub feed : Asio (List ℕ)
feed = record {
  pending = λ s. s;
  skip = drop;
  reason = λ s. eof;
  failed = λ n s. [];
  read = feed_read;
  read_enough = feed_enough;
  read_short = feed_short;
  pending-skip = λ n s. refl;
}
