-- ===== src/Text/Search.antt =====
-- `strings.ReplaceAll`, and `strings.Cut` at one byte.
use secrets_engine.Prelude.{
  ℕ, zero, suc, [], ◌∷◌, ◌++◌, Option, none, some, ◌==◌, if◌then◌else◌, length, All, arith, ◌≡◌,
  refl, Bool, true, false,
}
use secrets_engine.Text.Equal.{Bytes, cut_prefix, cut_prefix-append}

abbrev replace_round : Option Bytes → (Bytes → Bytes) → Bytes → ℕ → Bytes → Bytes
replace_round (some rest) replace new x s = new ++ replace rest
replace_round none replace new x s = x ∷ replace s

replace_fuel : ℕ → Bytes → Bytes → Bytes → Bytes
replace_fuel zero old new s = s
replace_fuel (suc f) old new [] = []
replace_fuel (suc f) old new (x ∷ s) =
    replace_round (cut_prefix old (x ∷ s)) (replace_fuel f old new) new x s

-- `strings.ReplaceAll(s, old, new)` for an `old` that is not empty; each round takes a byte at least.
unfoldable pub replace_all : Bytes → Bytes → Bytes → Bytes
unfolding replace_fuel cut_prefix
replace_all old new s = replace_fuel (length s) old new s

abbrev pub has_prefix : Bytes → Bytes → Bool
has_prefix p s = elim (cut_prefix p s) [ none ↦ false | some rest ↦ true ]

abbrev cons_cut : ℕ → Option (Bytes × Bytes) → Option (Bytes × Bytes)
cons_cut x none = none
cons_cut x (some (before, after)) = some (x ∷ before, after)

-- `strings.Cut(s, sep)` at a separator of one byte; `none` if the separator is not there.
unfoldable pub cut : ℕ → Bytes → Option (Bytes × Bytes)
cut sep [] = none
cut sep (x ∷ s) = let rest = cons_cut x (cut sep s) in if x == sep then some ([], s) else rest

-- A cut at the first separator.
pub cut-append :
    (sep : ℕ) (s rest : Bytes)
    → All (λ c. (c == sep) ≡ false) s
    → cut sep (s ++ (sep ∷ rest)) ≡ some (s, rest)
unfolding cut
cut-append sep [] rest h = ground arith
cut-append sep (c ∷ s) rest h = rw (h.0, cut-append sep s rest h.1) refl

pub has_prefix-append : (p s : Bytes) → has_prefix p (p ++ s) ≡ true
has_prefix-append p s = rw (has_prefix, cut_prefix-append p s) refl

replace_fuel_absent :
    (f b : ℕ) (new s : Bytes) → All (λ c. (c == b) ≡ false) s → replace_fuel f (b ∷ []) new s ≡ s
unfolding replace_fuel cut_prefix
replace_fuel_absent zero b new s h = refl
replace_fuel_absent (suc f) b new [] h = refl
replace_fuel_absent (suc f) b new (c ∷ s) h = rw (h.0, replace_fuel_absent f b new s h.1) refl

-- A byte that does not occur is not replaced.
pub replace_all_absent :
    (b : ℕ) (new s : Bytes) → All (λ c. (c == b) ≡ false) s → replace_all (b ∷ []) new s ≡ s
unfolding replace_all
replace_all_absent b new s h = replace_fuel_absent (length s) b new s h
