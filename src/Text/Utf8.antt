-- ===== src/Text/Utf8.antt =====
-- The texts that are UTF-8 without a zero byte: another system gives them back as they are.
use secrets_engine.Prelude.{ℕ, ◌≤◌, ◌≡◌, ◌⊎◌, [], ◌∷◌, ◌++◌, All}
use secrets_engine.Text.Equal.{Bytes}

-- The byte lies in the range.
abbrev IsBetween : ℕ → ℕ → ℕ → Type 0
IsBetween lo hi b = (lo ≤ b) × (b ≤ hi)

abbrev IsTail : ℕ → Type 0
IsTail = IsBetween 0x80 0xBF

-- The first two bytes of three: neither overlong nor a surrogate.
abbrev BeginThree : ℕ → ℕ → Type 0
BeginThree c b =
    ((c ≡ 0xE0) × IsBetween 0xA0 0xBF b)
    ⊎ (IsBetween 0xE1 0xEC c × IsTail b)
    ⊎ ((c ≡ 0xED) × IsBetween 0x80 0x9F b)
    ⊎ (IsBetween 0xEE 0xEF c × IsTail b)

-- The first two bytes of four: neither overlong nor over U+10FFFF.
abbrev BeginFour : ℕ → ℕ → Type 0
BeginFour c b =
    ((c ≡ 0xF0) × IsBetween 0x90 0xBF b)
    ⊎ (IsBetween 0xF1 0xF3 c × IsTail b)
    ⊎ ((c ≡ 0xF4) × IsBetween 0x80 0x8F b)

pub data IsUtf8 : Bytes → Type 0 where
  ended : IsUtf8 []
  one : {c : ℕ} {s : Bytes} → IsBetween 1 0x7F c → IsUtf8 s → IsUtf8 (c ∷ s)
  two : {c b : ℕ} {s : Bytes} → IsBetween 0xC2 0xDF c → IsTail b → IsUtf8 s → IsUtf8 (c ∷ b ∷ s)
  three : {c b d : ℕ} {s : Bytes} → BeginThree c b → IsTail d → IsUtf8 s → IsUtf8 (c ∷ b ∷ d ∷ s)
  four :
      {c b d e : ℕ} {s : Bytes}
      → BeginFour c b
      → IsTail d
      → IsTail e
      → IsUtf8 s
      → IsUtf8 (c ∷ b ∷ d ∷ e ∷ s)

pub IsUtf8-append : (s t : Bytes) → IsUtf8 s → IsUtf8 t → IsUtf8 (s ++ t)
IsUtf8-append _ t ended h = h
IsUtf8-append _ t (one {s = s} c u) h = one c (IsUtf8-append s t u h)
IsUtf8-append _ t (two {s = s} c b u) h = two c b (IsUtf8-append s t u h)
IsUtf8-append _ t (three {s = s} c d u) h = three c d (IsUtf8-append s t u h)
IsUtf8-append _ t (four {s = s} c d e u) h = four c d e (IsUtf8-append s t u h)

pub ascii-IsUtf8 : (s : Bytes) → All (λ c. (1 ≤ c) × (c ≤ 0x7F)) s → IsUtf8 s
ascii-IsUtf8 [] h = ended
ascii-IsUtf8 (c ∷ s) h = one h.0 (ascii-IsUtf8 s h.1)
