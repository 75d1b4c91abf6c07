-- ===== src/Release/Version/Increasing.antt =====
-- x/release/helper/release.go: the version that `GetNextVersion` chooses.
use secrets_engine.Prelude.{
  ℕ, suc, ◌<◌, ◌≡◌, refl, [], ◌∷◌, ◌++◌, some, ok, arith, All-map, Bool-cases, inl, inr,
  if◌then◌else◌,
}
use secrets_engine.Release.Version.{
  Level, Version, major, minor, cut_version_extra, three_parts, trim_prefix, print, increment,
  join_numbers, next_numbers, get_next_version,
}
use secrets_engine.Text.{Bytes, codes, equal, cut_prefix}
use secrets_engine.Text.Decimal.{pos, itoa, atoi-itoa, itoa-IsDigit}
use secrets_engine.Text.Search.{cut, cut-append}

-- A version of three numbers.
abbrev pub version_text : ℕ × ℕ × ℕ → Bytes
version_text (a, b, c) = join_numbers (itoa a) (itoa b) (itoa c)

-- The numbers of the next version of a level.
abbrev pub bumped : Level → ℕ × ℕ × ℕ → ℕ × ℕ × ℕ
bumped level (a, b, c) =
    if equal level major
    then (suc a, 0, 0)
    else if equal level minor
    then (a, suc b, 0)
    else (a, b, suc c)

cut-itoa : (n : ℕ) (rest : Bytes) → cut b'.' (itoa n ++ (b'.' ∷ rest)) ≡ some (itoa n, rest)
cut-itoa n rest =
    cut-append b'.' (itoa n) rest (All-map _ _ (λ c h. ground arith) (itoa n) (itoa-IsDigit n))

three_parts-version_text :
    (a b c : ℕ)
    → three_parts (trim_prefix (codes "v") (version_text (a, b, c))) ≡ some (itoa a, itoa b, itoa c)
unfolding cut_prefix
three_parts-version_text a b c = rw (cut-itoa a _, cut-itoa b _) refl

itoa_zero : itoa 0 ≡ codes "0"
unfolding itoa
itoa_zero = refl

print-increment : (n : ℕ) → n < 9223372036854775807 → print (increment (pos n)) ≡ itoa (suc n)
print-increment n h = ground arith

next_numbers-bumped :
    (level : Level) (a b c : ℕ)
    → a < 9223372036854775807
    → b < 9223372036854775807
    → c < 9223372036854775807
    → next_numbers level (pos a, pos b, pos c) ≡ version_text (bumped level (a, b, c))
next_numbers-bumped level a b c ha hb hc = elim (Bool-cases (equal level major)) [
  | inl e ↦ rw (e, print-increment a ha, itoa_zero) refl
  | inr e ↦ elim (Bool-cases (equal level minor)) [
    | inl f ↦ rw (e, f, print-increment b hb, itoa_zero) refl
    | inr f ↦ rw (e, f, print-increment c hc) refl
  ]
]

-- Let the canonical form of the current version, without its extra, be the version of the numbers `a`, `b`
-- and `c`, below the largest integer. Then the next version is that of the numbers bumped at the level,
-- followed by the extra if it is kept.
pub get_next_version_lem :
    (canonical : Bytes → Bytes) (s : Version) (level : Level) (a b c : ℕ)
    → canonical (cut_version_extra s.current).0 ≡ version_text (a, b, c)
    → a < 9223372036854775807
    → b < 9223372036854775807
    → c < 9223372036854775807
    → get_next_version canonical s level
      ≡ ok (
          version_text (bumped level (a, b, c))
          ++ (if s.keep_extra then (cut_version_extra s.current).1 else []))
unfolding get_next_version
get_next_version_lem canonical s level a b c e ha hb hc =
    rw
      (
        e,
        three_parts-version_text a b c,
        atoi-itoa a (omega arith),
        atoi-itoa b (omega arith),
        atoi-itoa c (omega arith),
        next_numbers-bumped level a b c ha hb hc,
      )
      refl
