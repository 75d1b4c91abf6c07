-- ===== src/Commands/Run/Resolving.antt =====
-- plugins/pass/commands/run.go: what a reference is resolved to.
use secrets_engine.Commands.{CommandError}
use secrets_engine.Commands.Run.{se_prefix, ValueResolver}
use secrets_engine.Prelude.{
  ◌≡◌, List, [], ◌∷◌, ◌++◌, Option, none, some, Result, ok, err, if◌then◌else◌,
}
use secrets_engine.Release.Version.{trim_prefix}
use secrets_engine.Secrets.Identifier.{SecretId, parse_id}
use secrets_engine.Secrets.Pattern.{SecretPattern, parse_pattern}
use secrets_engine.Text.{Bytes}
use secrets_engine.Text.Search.{cut, has_prefix}

-- The value is the one secret that the resolver finds for a reference, which is an identifier.
abbrev pub IsReference : ValueResolver → Bytes → Bytes → Type 0
IsReference r value resolved =
    (i : SecretId) × (p : SecretPattern) × (parse_id (trim_prefix se_prefix value) ≡ ok i)
    × (parse_pattern (trim_prefix se_prefix value) ≡ ok p)
    × (r p ≡ ok (resolved ∷ []))

-- An entry of the environment, and what the command gets for it.
abbrev pub IsEntry : ValueResolver → Bytes → Option (Bytes × Bytes) → Bytes → Type 0
IsEntry r kv none kv' = kv' ≡ kv
IsEntry r kv (some (key, value)) kv' =
    if has_prefix se_prefix value
    then ((resolved : Bytes) × IsReference r value resolved × (kv' ≡ key ++ (b'=' ∷ resolved)))
    else (kv' ≡ kv)

abbrev pub AreEntries : ValueResolver → List Bytes → List Bytes → Type 0
AreEntries r [] [] = Unit
AreEntries r (kv ∷ env) (kv' ∷ out) = IsEntry r kv (cut b'=' kv) kv' × AreEntries r env out
AreEntries r _ _ = ⊥

module _ (E : Type 0) (r : ValueResolver) where
  abbrev RefResult : Bytes → Result (CommandError E) Bytes → Type 0
  RefResult value (err e) = Unit
  RefResult value (ok resolved) = IsReference r value resolved

  abbrev EnvResult : List Bytes → Result (CommandError E) (List Bytes) → Type 0
  EnvResult env (err e) = Unit
  EnvResult env (ok out) = AreEntries r env out
