-- ===== src/Commands/Run.antt =====
-- plugins/pass/commands/run.go: the environment of the command that `run` starts.
pub mod Resolving
use secrets_engine.Commands.{
  CommandError, env_file_error, bad_id, bad_pattern, resolver_error, no_secret, several_secrets,
}
use secrets_engine.Commands.Rm.{sort}
use secrets_engine.Commands.Set.{Entries}
use secrets_engine.Prelude.{
  ℕ, zero, suc, List, [], ◌∷◌, ◌++◌, Option, none, some, Result, ok, err, ◌>>=◌, if◌then◌else◌,
  length,
}
use secrets_engine.Release.Version.{trim_prefix}
use secrets_engine.Secrets.Identifier.{SecretId, ErrInvalidId, parse_id}
use secrets_engine.Secrets.Pattern.{SecretPattern, PatternError, parse_pattern}
use secrets_engine.Text.{Bytes, codes, equal}
use secrets_engine.Text.Search.{cut, has_prefix}

-- `sePrefix`
abbrev pub se_prefix : Bytes
se_prefix = codes "se://"

-- `merged[k] = v` on the entries of a map, one for each key.
unfoldable pub set_entry : Bytes → Bytes → Entries → Entries
set_entry k v [] = (k, v) ∷ []
set_entry k v ((j, w) ∷ m) =
    let rest = set_entry k v m in if equal k j then (j, v) ∷ m else (j, w) ∷ rest

abbrev pub set_pair : Option (Bytes × Bytes) → Entries → Entries
set_pair none m = m
set_pair (some (k, v)) m = set_entry k v m

-- The loop over the process environment.
unfoldable pub merge_process : List Bytes → Entries → Entries
merge_process [] m = m
merge_process (kv ∷ env) m = merge_process env (set_pair (cut b'=' kv) m)

-- `maps.Copy`
unfoldable pub copy : Entries → Entries → Entries
copy [] m = m
copy ((k, v) ∷ parsed) m = copy parsed (set_entry k v m)

abbrev pub pairs : Entries → List Bytes
pairs [] = []
pairs ((k, v) ∷ m) = (k ++ (b'=' ∷ v)) ∷ pairs m

-- The values of the secrets that a resolver finds.
abbrev pub ValueResolver : Type 0
ValueResolver = SecretPattern → Result ℕ (List Bytes)

module _ {E : Type 0} where
  abbrev pub file_result : Bytes → Result ℕ Entries → Result (CommandError E) Entries
  file_result f (err e) = err (env_file_error f e)
  file_result f (ok parsed) = ok parsed

  -- The loop over the files; `read` is `godotenv.Read`.
  unfoldable pub merge_files :
      (Bytes → Result ℕ Entries) → List Bytes → Entries → Result (CommandError E) Entries
  merge_files read [] m = ok m
  merge_files read (f ∷ files) m =
      file_result f (read f) >>= (λ parsed. merge_files read files (copy parsed m))

  -- `mergeEnv`
  unfoldable pub merge_env :
      (Bytes → Result ℕ Entries) → List Bytes → List Bytes → Result (CommandError E) (List Bytes)
  merge_env read process_env files =
      merge_files read files (merge_process process_env []) >>= (λ m. ok (sort (pairs m)))

  abbrev pub valid_ref : Bytes → Result ErrInvalidId SecretId → Result (CommandError E) SecretId
  valid_ref key (err e) = err (bad_id key e)
  valid_ref key (ok i) = ok i

  abbrev pub valid_pattern_ref :
      Bytes → Result PatternError SecretPattern → Result (CommandError E) SecretPattern
  valid_pattern_ref key (err e) = err (bad_pattern key e)
  valid_pattern_ref key (ok p) = ok p

  abbrev pub one_value : Bytes → Bytes → Result ℕ (List Bytes) → Result (CommandError E) Bytes
  one_value key name (err e) = err (resolver_error key e)
  one_value key name (ok []) = err (no_secret key)
  one_value key name (ok (v ∷ [])) = ok v
  one_value key name (ok (v ∷ w ∷ envs)) = err (several_secrets key (suc (suc (length envs))) name)

  -- `resolveRef`
  unfoldable pub resolve_ref : ValueResolver → Bytes → Bytes → Result (CommandError E) Bytes
  resolve_ref r key value =
      let name = trim_prefix se_prefix value in
      valid_ref key (parse_id name) >>= (λ i.
        valid_pattern_ref key (parse_pattern name) >>= (λ pattern. one_value key name (r pattern)))

  abbrev pub add_entry :
      Bytes
      → Bytes
      → Result (CommandError E) Bytes
      → Result (CommandError E) (List Bytes)
      → Result (CommandError E) (List Bytes)
  add_entry key value (err e) rest = err e
  add_entry key value (ok resolved) (err e) = err e
  add_entry key value (ok resolved) (ok out) = ok ((key ++ (b'=' ∷ resolved)) ∷ out)

  abbrev pub keep_entry :
      Bytes → Result (CommandError E) (List Bytes) → Result (CommandError E) (List Bytes)
  keep_entry kv (err e) = err e
  keep_entry kv (ok out) = ok (kv ∷ out)

  abbrev pub resolve_pair :
      ValueResolver
      → Bytes
      → Option (Bytes × Bytes)
      → Result (CommandError E) (List Bytes)
      → Result (CommandError E) (List Bytes)
  resolve_pair r kv none rest = keep_entry kv rest
  resolve_pair r kv (some (key, value)) rest =
      if has_prefix se_prefix value
      then add_entry key value (resolve_ref r key value) rest
      else keep_entry kv rest

  -- `resolveEnv`
  unfoldable pub resolve_env : ValueResolver → List Bytes → Result (CommandError E) (List Bytes)
  resolve_env r [] = ok []
  resolve_env r (kv ∷ env) = resolve_pair r kv (cut b'=' kv) (resolve_env r env)
