-- ===== src/Esp32/Table.antt =====
-- Tables by number or address in components/usbipdcpp/src/esp32_handler/Esp32DeviceHandler.cpp.
use esp32_usb_ip.Prelude.{
  ℕ, ◌≡◌, ◌≢◌, refl, sym, ap, ◌∙◌, inl, inr, true, false, Bool-cases, ◌==◌, ==_iff, ne→==_false,
  if◌then◌else◌, none, some, List, [], ◌∷◌, arith,
}
use esp32_usb_ip.Esp32.{lookup, erase, free}

pub lookup-here {ℓ} :
    {A : Type ℓ} (address k : ℕ) (c cb : A) (rest : List (ℕ × A))
    → (k == address) ≡ true
    → lookup address ((k, c) ∷ rest) ≡ some cb
    → c ≡ cb
unfolding lookup
lookup-here address k c cb rest here e =
    let found : lookup address ((k, c) ∷ rest) ≡ some c = rw here refl in
    let same : some c ≡ some cb = sym found ∙ e in cc

pub lookup-there {ℓ} :
    {A : Type ℓ} (address k : ℕ) (c : A) (rest : List (ℕ × A))
    → (k == address) ≡ false
    → lookup address ((k, c) ∷ rest) ≡ lookup address rest
unfolding lookup
lookup-there address k c rest there = rw there refl

pub ==_false→ne : (a b : ℕ) → (a == b) ≡ false → a ≢ b
==_false→ne a b h e = ground arith

pub lookup_self {ℓ} :
    {A : Type ℓ} (k : ℕ) (a : A) (rest : List (ℕ × A)) → lookup k ((k, a) ∷ rest) ≡ some a
unfolding lookup
lookup_self k a rest = let same : (k == k) ≡ true = ground arith in rw same refl

pub lookup-erase_key {ℓ} :
    {A : Type ℓ} (key : ℕ) (xs : List (ℕ × A)) → lookup key (erase key xs) ≡ none
unfolding lookup erase
lookup-erase_key key [] = refl
lookup-erase_key key ((k, a) ∷ rest) = elim (Bool-cases (k == key)) [
  | inl here ↦ rw here (lookup-erase_key key rest)
  | inr there ↦ rw there (rw there (lookup-erase_key key rest))
]

pub lookup-erase_ne {ℓ} :
    {A : Type ℓ} (key other : ℕ) (xs : List (ℕ × A))
    → key ≢ other
    → lookup other (erase key xs) ≡ lookup other xs
unfolding lookup erase
lookup-erase_ne key other [] ne = refl
lookup-erase_ne key other ((k, a) ∷ rest) ne = elim (Bool-cases (k == key)) [
  | inl here ↦
      let e : k ≡ key = (==_iff k key).0 here in
      let there : (k == other) ≡ false = ne→==_false k other (λ h. ne (sym e ∙ h)) in
      rw (here, there) (lookup-erase_ne key other rest ne)
  | inr there ↦
      rw there (ap (λ o. if k == other then some a else o) (lookup-erase_ne key other rest ne))
]

pub lookup-free_ne {ℓ} :
    {A : Type ℓ} (address other : ℕ) (xs : List (ℕ × A))
    → address ≢ other
    → lookup other (free address xs) ≡ lookup other xs
unfolding lookup free
lookup-free_ne address other [] ne = refl
lookup-free_ne address other ((k, a) ∷ rest) ne = elim (Bool-cases (k == address)) [
  | inl here ↦
      let e : k ≡ address = (==_iff k address).0 here in
      let there : (k == other) ≡ false = ne→==_false k other (λ h. ne (sym e ∙ h)) in
      rw (here, there) refl
  | inr there ↦
      rw there (ap (λ o. if k == other then some a else o) (lookup-free_ne address other rest ne))
]
