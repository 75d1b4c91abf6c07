-- ===== src/Secrets/Match.antt =====
-- x/secrets/identifiers.go and pattern.go: which paths a pattern selects.
pub mod Relation
pub mod Includes
use secrets_engine.Prelude.{
  Bool, true, false, not, ◌&&◌, List, [], ◌∷◌, Option, none, some, if◌then◌else◌, is_nil, all,
}
use secrets_engine.Secrets.Identifier.{SecretId, split}
use secrets_engine.Secrets.Pattern.{SecretPattern, star, double_star}
use secrets_engine.Text.{Bytes, equal}

-- The loop over `skip`: the test on every suffix, the longest first and the empty one last.
unfoldable pub try_skips : (List Bytes → Bool) → List Bytes → Bool
try_skips f [] = f []
try_skips f (x ∷ path) = elim (f (x ∷ path)) [ true ↦ true | false ↦ try_skips f path ]

-- `match`; the indices `pi` and `si` are the two suffixes that are left.
unfoldable pub match_parts : List Bytes → List Bytes → Bool
match_parts [] path = is_nil path
match_parts (p ∷ pattern_parts) [] = all (λ q. equal q double_star) (p ∷ pattern_parts)
match_parts (p ∷ pattern_parts) (x ∷ path) =
    let rest = match_parts pattern_parts path in
    let skips = try_skips (match_parts pattern_parts) (x ∷ path) in
    if equal p double_star
    then (if is_nil pattern_parts then true else skips)
    else if equal p star
    then rest
    else if not (equal p x) && not (equal x star)
    then false
    else rest

-- `pattern.Match` and `id.Match`
unfoldable pub matches_id : SecretPattern → SecretId → Bool
matches_id p i = match_parts (split p) (split i)

-- `pattern.Includes`
unfoldable pub includes : SecretPattern → SecretPattern → Bool
includes p other = match_parts (split p) (split other)

-- `Filter`; `none` is the result `nil, false`.
unfoldable pub filter_pattern : SecretPattern → SecretPattern → Option SecretPattern
filter_pattern p other =
    if includes p other then some other else if includes other p then some p else none
