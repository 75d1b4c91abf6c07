-- ===== src/Text/Equal.antt =====
-- Texts, their literals and their comparison.
use Prim.Native.Char.{code}
use Prim.Native.String.{String}
use secrets_engine.Prelude.{
  ℕ, ◌≡◌, refl, ◌↔◌, ◌⊎◌, inl, inr, ◌≢◌, Bool, true, false, List, [], ◌∷◌, ◌++◌, Option, none, some,
  arith, ◌==◌, if◌then◌else◌, Bool-cases,
}

abbrev pub Bytes : Type 0
Bytes = List ℕ

-- The code points of a literal: its bytes, since every literal of the program is ASCII.
abbrev pub codes : String → Bytes
codes String.[] = []
codes (String.◌∷◌ c s) = code c ∷ codes s

-- `s == t` on strings
unfoldable pub equal : Bytes → Bytes → Bool
equal (c ∷ s) (d ∷ t) = if c == d then equal s t else false
equal [] [] = true
equal s t = false

equal_sound : (s t : Bytes) → equal s t ≡ true → s ≡ t
unfolding equal
equal_sound [] [] h = refl
equal_sound [] (d ∷ t) h = cc
equal_sound (c ∷ s) [] h = cc
equal_sound (c ∷ s) (d ∷ t) h = ground (arith, equal_sound s t)

equal_self : (s : Bytes) → equal s s ≡ true
unfolding equal
equal_self [] = refl
equal_self (c ∷ s) = ground (arith, equal_self s)

pub equal_iff : (s t : Bytes) → (equal s t ≡ true) ↔ (s ≡ t)
equal_iff s t = (equal_sound s t, λ e. rw e (equal_self t))

pub equal_refl : (a : Bytes) → equal a a ≡ true
equal_refl = equal_self

pub equal_ne : (a b : Bytes) → a ≢ b → equal a b ≡ false
equal_ne a b h = elim (Bool-cases (equal a b)) [
  | inl e ↦ absurd (h ((equal_iff a b).0 e))
  | inr e ↦ e
]

pub Bytes-cases : (a b : Bytes) → (a ≡ b) ⊎ (a ≢ b)
Bytes-cases a b = elim (Bool-cases (equal a b)) [
  | inl e ↦ inl ((equal_iff a b).0 e)
  | inr e ↦ inr (λ p. ground (arith, equal_iff a b))
]

-- `strings.CutPrefix`: what follows the prefix, if it is there
unfoldable pub cut_prefix : Bytes → Bytes → Option Bytes
cut_prefix [] s = some s
cut_prefix (p ∷ ps) [] = none
cut_prefix (p ∷ ps) (x ∷ s) = if x == p then cut_prefix ps s else none

pub cut_prefix-append : (p s : Bytes) → cut_prefix p (p ++ s) ≡ some s
unfolding cut_prefix
cut_prefix-append [] s = refl
cut_prefix-append (x ∷ p) s = ground (arith, cut_prefix-append p s)

pub cut_prefix_sound : (p s r : Bytes) → cut_prefix p s ≡ some r → s ≡ p ++ r
unfolding cut_prefix
cut_prefix_sound [] s r h = ground arith
cut_prefix_sound (p ∷ ps) [] r h = cc
cut_prefix_sound (p ∷ ps) (x ∷ s) r h = ground (arith, cut_prefix_sound ps s r)
