-- ===== src/Stream/Ends.antt =====
-- Which readers leave nothing to escape but a `system_error`.
use esp32_usb_ip.Prelude.{
  ℕ, ◌≡◌, ◌⊎◌, inl, inr, refl, ◌∙◌, arith, Bool, true, false, if◌then◌else◌, List, [], ◌∷◌, length,
}
use native.Mathlib.Decide.{dec_le}
use esp32_usb_ip.Wire.{Field, read_int}
use esp32_usb_ip.Stream.{
  Asio, Io, done, thrown, ◌>>=◌, >>=-done, >>=-thrown, return, Code, system_error, read_field,
  extract, unsigned_integral_and_array_read_from_socket, unsigned_integral_read_from_socket,
  data_read_from_socket, read_unsigned,
}

-- It returns, or it throws a `system_error`.
abbrev pub Ends : {S A : Type 0} → Io S A → S → Type 0
Ends {S} {A} m s =
    ((a : A) × (s' : S) × (m s ≡ done a s'))
    ⊎ ((c : Code) × (s' : S) × (m s ≡ thrown (system_error c) s'))

pub Ends-return : {S A : Type 0} (a : A) (s : S) → Ends (return a) s
Ends-return a s = inl (a, s, refl)

pub Ends->>= :
    {S A B : Type 0} (m : Io S A) (f : A → Io S B) (s : S)
    → Ends m s
    → ((a : A) (s' : S) → Ends (f a) s')
    → Ends (m >>= f) s
Ends->>= m f s (inr (c, s', e)) k = inr (c, s', >>=-thrown m f s e)
Ends->>= m f s (inl (a, s', e)) k = elim (k a s') [
  | inl (b, s'', e') ↦ inl (b, s'', >>=-done m f s e ∙ e')
  | inr (c, s'', e') ↦ inr (c, s'', >>=-done m f s e ∙ e')
]

pub Ends-map :
    {S A B : Type 0} (m : Io S A) (g : A → B) (s : S) → Ends m s → Ends (m >>= λ a. return (g a)) s
Ends-map m g s h = Ends->>= m (λ a. return (g a)) s h (λ a s'. Ends-return (g a) s')

pub Ends-if :
    {S A : Type 0} (b : Bool) (m m' : Io S A) (s : S)
    → Ends m s
    → Ends m' s
    → Ends (if b then m else m') s
Ends-if true m m' s h h' = h
Ends-if false m m' s h h' = h'

module _ {S : Type 0} (net : Asio S) (little : Bool) where
  pub Ends-read : (n : ℕ) (s : S) → Ends (net.read n) s
  Ends-read n s = elim (dec_le n (length (net.pending s))) [
    | yes h ↦ inl (_, _, net.read_enough n s h)
    | no h ↦ inr (_, _, net.read_short n s (omega arith))
  ]

  pub Ends-read_unsigned : (w : ℕ) (s : S) → Ends (read_unsigned net little w) s
  unfolding read_unsigned
  Ends-read_unsigned w s =
      Ends->>= (net.read w) (λ b. return (read_int little w b)) s (Ends-read w s)
        (λ b s'. Ends-return (read_int little w b) s')

  pub Ends-read_block :
      (padding : ℕ) (fs : List Field) (s : S)
      → Ends (unsigned_integral_and_array_read_from_socket net little padding fs) s
  unfolding unsigned_integral_and_array_read_from_socket
  Ends-read_block padding fs s =
      Ends->>= (net.read _) (λ b. return (extract little b 0 fs)) s (Ends-read _ s)
        (λ b s'. Ends-return (extract little b 0 fs) s')

  pub Ends-read_ints :
      (fs : List Field) (s : S) → Ends (unsigned_integral_read_from_socket net little fs) s
  unfolding unsigned_integral_read_from_socket
  Ends-read_ints fs s =
      Ends->>= (net.read _) (λ b. return (extract little b 0 fs)) s (Ends-read _ s)
        (λ b s'. Ends-return (extract little b 0 fs) s')

  pub Ends-data_read : (fs : List Field) (s : S) → Ends (data_read_from_socket net little fs) s
  unfolding data_read_from_socket
  Ends-data_read [] s = Ends-return [] s
  Ends-data_read (f ∷ fs) s =
      Ends->>= (net.read _)
        (λ b. data_read_from_socket net little fs >>= λ r. return (read_field little b f ∷ r)) s
        (Ends-read _ s)
        (λ b s'.
          Ends->>= (data_read_from_socket net little fs) (λ r. return (read_field little b f ∷ r))
            s' (Ends-data_read fs s') (λ r s''. Ends-return (read_field little b f ∷ r) s''))
