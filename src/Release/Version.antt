-- ===== src/Release/Version.antt =====
-- x/release/helper/release.go: levels and versions.
pub mod Increasing
use secrets_engine.Maps.{elem}
use secrets_engine.Prelude.{
  ℕ, zero, suc, ◌+◌, ◌≤◌, ◌<◌, ◌≡◌, refl, Bool, true, false, List, [], ◌∷◌, ◌++◌, Option, none,
  some, Result, ok, err, ◌>>=◌, ◌==◌, if◌then◌else◌,
}
use secrets_engine.Release.{ReleaseError, not_canonical, unexpected_parts, not_a_number}
use secrets_engine.Text.{Bytes, codes, equal, cut_prefix}
use secrets_engine.Text.Decimal.{ℤ, pos, negsuc, itoa, atoi}
use secrets_engine.Text.Search.{cut}

-- `Level`
abbrev pub Level : Type 0
Level = Bytes

abbrev pub patch : Level
patch = codes "patch"

abbrev pub minor : Level
minor = codes "minor"

abbrev pub major : Level
major = codes "major"

-- `Levels`
abbrev pub levels : List Level
levels = patch ∷ minor ∷ major ∷ []

-- `Level.Set`: the new level, or the error.
unfoldable pub set_level : Bytes → Option Level
set_level v = if elem v levels then some v else none

-- `Version`
pub record Version : Type 0 where
  pub current : Bytes
  pub keep_extra : Bool

abbrev with_extra : ℕ → Bytes → Option (Bytes × Bytes) → Bytes × Bytes → Bytes × Bytes
with_extra sep cv none otherwise = otherwise
with_extra sep cv (some (before, after)) otherwise = (before, sep ∷ after)

-- `CutVersionExtra`
unfoldable pub cut_version_extra : Bytes → Bytes × Bytes
cut_version_extra cv = with_extra b'-' cv (cut b'-' cv) (with_extra b'+' cv (cut b'+' cv) (cv, []))

abbrev third : Bytes → Option (Bytes × Bytes) → Option (Bytes × Bytes × Bytes)
third a none = none
third a (some (b, c)) = some (a, b, c)

abbrev parts_from : Option (Bytes × Bytes) → Option (Bytes × Bytes × Bytes)
parts_from none = none
parts_from (some (a, rest)) = third a (cut b'.' rest)

-- `SplitN` at dots into three parts; `none` if there are fewer.
abbrev pub three_parts : Bytes → Option (Bytes × Bytes × Bytes)
three_parts s = parts_from (cut b'.' s)

abbrev without_prefix : Bytes → Option Bytes → Bytes
without_prefix s none = s
without_prefix s (some rest) = rest

-- `TrimPrefix`
abbrev pub trim_prefix : Bytes → Bytes → Bytes
trim_prefix p s = without_prefix s (cut_prefix p s)

-- The successor of a signed integer of 64 bits.
abbrev pub increment : ℤ → ℤ
increment (pos n) = if n == 9223372036854775807 then negsuc 9223372036854775807 else pos (suc n)
increment (negsuc zero) = pos 0
increment (negsuc (suc n)) = negsuc n

-- The verb `%d`
abbrev pub print : ℤ → Bytes
print (pos n) = itoa n
print (negsuc n) = b'-' ∷ itoa (suc n)

abbrev pub numbers : Option ℤ → Option ℤ → Option ℤ → Option (ℤ × ℤ × ℤ)
numbers (some a) (some b) (some c) = some (a, b, c)
numbers _ _ _ = none

abbrev pub join_numbers : Bytes → Bytes → Bytes → Bytes
join_numbers a b c = b'v' ∷ a ++ (b'.' ∷ b ++ (b'.' ∷ c))

-- The switch over the level.
abbrev pub next_numbers : Level → ℤ × ℤ × ℤ → Bytes
next_numbers level (a, b, c) =
    if equal level major
    then join_numbers (print (increment a)) (codes "0") (codes "0")
    else if equal level minor
    then join_numbers (print a) (print (increment b)) (codes "0")
    else join_numbers (print a) (print b) (print (increment c))

abbrev pub next_version : Level → Bytes → Bytes → Option (ℤ × ℤ × ℤ) → Result ReleaseError Bytes
next_version level v extra none = err (not_a_number v)
next_version level v extra (some n) = ok (next_numbers level n ++ extra)

abbrev pub from_parts :
    Level → Bytes → Bytes → Option (Bytes × Bytes × Bytes) → Result ReleaseError Bytes
from_parts level v extra none = err (unexpected_parts v)
from_parts level v extra (some (a, b, c)) =
    next_version level v extra (numbers (atoi a) (atoi b) (atoi c))

abbrev pub from_canonical : Level → Bytes → Bytes → Bytes → Result ReleaseError Bytes
from_canonical level current [] extra = err (not_canonical current)
from_canonical level current (c ∷ v) extra =
    from_parts level (c ∷ v) extra (three_parts (trim_prefix (codes "v") (c ∷ v)))

-- `GetNextVersion`; the first argument is `semver.Canonical`.
unfoldable pub get_next_version : (Bytes → Bytes) → Version → Level → Result ReleaseError Bytes
get_next_version canonical s level =
    from_canonical level s.current (canonical (cut_version_extra s.current).0)
      (if s.keep_extra then (cut_version_extra s.current).1 else [])
