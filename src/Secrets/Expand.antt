-- ===== src/Secrets/Expand.antt =====
-- x/secrets/pattern.go: `ExpandID` and `ExpandPattern`, which put an identifier or a pattern in the
-- place of the one `**` of a pattern.
pub mod Pieces
pub mod Selects
use secrets_engine.Prelude.{ℕ, ◌+◌, List, [], ◌∷◌, if◌then◌else◌, length, set, Result, ok, err}
use secrets_engine.Secrets.Identifier.{SecretId, slash, split}
use secrets_engine.Secrets.Pattern.{SecretPattern, double_star}
use secrets_engine.Text.{Bytes, equal}
use secrets_engine.Text.Split.{join}

-- "expand only supports one expansion glob", with the pattern and the number of its `**`
pub record ExpandError : Type 0 where
  pub original : Bytes
  pub globs : ℕ

-- The loop that collects the indices of the components `**`, from index `idx` on.
unfoldable pub candidates : ℕ → List Bytes → List ℕ
candidates idx [] = []
candidates idx (val ∷ components) =
    let rest = candidates (idx + 1) components in if equal val double_star then idx ∷ rest else rest

-- The rest of `replace1`, on the indices found.
unfoldable pub replace_candidate : Bytes → Bytes → List Bytes → List ℕ → Result ExpandError Bytes
replace_candidate original other components (idx ∷ []) = ok (join slash (set components idx other))
replace_candidate original other components found =
    err (record { original = original; globs = length found })

-- `replace1`
unfoldable pub replace_one : Bytes → Bytes → Result ExpandError Bytes
replace_one original other =
    let components = split original in
    replace_candidate original other components (candidates 0 components)

-- `pattern.ExpandID`; the new text becomes an `id` with no further validation.
unfoldable pub expand_id : SecretPattern → SecretId → Result ExpandError SecretId
expand_id p other = replace_one p other

-- `pattern.ExpandPattern`
unfoldable pub expand_pattern : SecretPattern → SecretPattern → Result ExpandError SecretPattern
expand_pattern p other = replace_one p other
