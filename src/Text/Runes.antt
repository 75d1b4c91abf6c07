-- ===== src/Text/Runes.antt =====
-- `for _, r := range s` over a string: the runes of its UTF-8 decoding. An invalid byte gives U+FFFD
-- and is one byte wide, as the language defines it.
use secrets_engine.Prelude.{
  ℕ, zero, suc, ◌+◌, ◌-◌, ◌*◌, ◌≤◌, ◌≡◌, refl, Bool, ◌&&◌, List, [], ◌∷◌, arith, ltb, leb, ◌==◌,
  if◌then◌else◌, length, drop,
}
use secrets_engine.Text.Equal.{Bytes}

abbrev within : ℕ → ℕ → ℕ → Bool
within lo hi b = leb lo b && leb b hi

abbrev is_tail : ℕ → Bool
is_tail = within 0x80 0xBF

-- a rune and its width in bytes
abbrev Decoded : Type 0
Decoded = ℕ × ℕ

abbrev invalid : Decoded
invalid = (0xFFFD, 1)

decode_two : ℕ → Bytes → Decoded
decode_two c (b ∷ s) = if is_tail b then ((c - 0xC0) * 64 + (b - 0x80), 2) else invalid
decode_two c s = invalid

-- The second byte's range excludes the overlong forms and the surrogates.
decode_three : ℕ → Bytes → Decoded
decode_three c (b ∷ d ∷ s) =
    if within (if c == 0xE0 then 0xA0 else 0x80) (if c == 0xED then 0x9F else 0xBF) b && is_tail d
    then ((c - 0xE0) * 4096 + (b - 0x80) * 64 + (d - 0x80), 3)
    else invalid
decode_three c s = invalid

decode_four : ℕ → Bytes → Decoded
decode_four c (b ∷ d ∷ e ∷ s) =
    if within (if c == 0xF0 then 0x90 else 0x80) (if c == 0xF4 then 0x8F else 0xBF) b
      && is_tail d
      && is_tail e
    then ((c - 0xF0) * 262144 + (b - 0x80) * 4096 + (d - 0x80) * 64 + (e - 0x80), 4)
    else invalid
decode_four c s = invalid

decode_rune : ℕ → Bytes → Decoded
decode_rune c s =
    if ltb c 0x80
    then (c, 1)
    else if within 0xC2 0xDF c
    then decode_two c s
    else if within 0xE0 0xEF c
    then decode_three c s
    else if within 0xF0 0xF4 c
    then decode_four c s
    else invalid

runes_fuel : ℕ → Bytes → List ℕ
runes_fuel zero s = []
runes_fuel (suc f) [] = []
runes_fuel (suc f) (c ∷ s) =
    let (r, width) = decode_rune c s in r ∷ runes_fuel f (drop width (c ∷ s))

unfoldable pub runes : Bytes → List ℕ
unfolding runes_fuel decode_rune decode_two decode_three decode_four
runes s = runes_fuel (length s) s

decode_rune_ascii : (c : ℕ) (s : Bytes) → suc c ≤ 0x80 → decode_rune c s ≡ (c, 1)
unfolding decode_rune
decode_rune_ascii c s h = ground arith

decode_two_high : (c : ℕ) (s : Bytes) → 0xC2 ≤ c → 0x80 ≤ (decode_two c s).0
unfolding decode_two
decode_two_high c [] h = omega arith
decode_two_high c (b ∷ s) h = ground arith

decode_three_high : (c : ℕ) (s : Bytes) → 0xE0 ≤ c → 0x80 ≤ (decode_three c s).0
unfolding decode_three
decode_three_high c [] h = omega arith
decode_three_high c (b ∷ []) h = omega arith
decode_three_high c (b ∷ d ∷ s) h = ground arith

decode_four_high : (c : ℕ) (s : Bytes) → 0xF0 ≤ c → 0x80 ≤ (decode_four c s).0
unfolding decode_four
decode_four_high c [] h = omega arith
decode_four_high c (b ∷ []) h = omega arith
decode_four_high c (b ∷ d ∷ []) h = omega arith
decode_four_high c (b ∷ d ∷ e ∷ s) h = ground arith

decode_rune_high : (c : ℕ) (s : Bytes) → 0x80 ≤ c → 0x80 ≤ (decode_rune c s).0
unfolding decode_rune
decode_rune_high c s h =
    ground (arith, decode_two_high c s, decode_three_high c s, decode_four_high c s)

-- The runes of a text with an ASCII first byte.
pub runes_ascii : (c : ℕ) (s : Bytes) → suc c ≤ 0x80 → runes (c ∷ s) ≡ c ∷ runes s
unfolding runes runes_fuel
runes_ascii c s h = rw (decode_rune_ascii c s h)

-- Any other first byte begins a rune that is not ASCII.
pub runes_high :
    (c : ℕ) (s : Bytes) → 0x80 ≤ c → (r : ℕ) × (rs : List ℕ) × (runes (c ∷ s) ≡ r ∷ rs) × (0x80 ≤ r)
unfolding runes runes_fuel
runes_high c s h = ((decode_rune c s).0, _, refl, decode_rune_high c s h)
