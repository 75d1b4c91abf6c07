-- ===== src/Commands/Set.antt =====
-- plugins/pass/commands/set.go: the command `set`.
pub mod Stores
use secrets_engine.Commands.{CommandError, in_store, invalid_id, invalid_pair, no_pair, stdin_error}
use secrets_engine.Maps.{Map, put, empty}
use secrets_engine.PassPlugin.{PassValue, StoredSecret, new_pass_value}
use secrets_engine.Prelude.{
  ℕ, Bool, true, false, ◌||◌, List, [], ◌∷◌, ◌++◌, Option, none, some, Result, ok, err, ◌>>=◌, ◌==◌,
  ltb, if◌then◌else◌, is_nil, length,
}
use secrets_engine.Secrets.Identifier.{SecretId, ErrInvalidId, parse_id}
use secrets_engine.Store.{StoreOps}
use secrets_engine.Text.{Bytes}
use secrets_engine.Text.Search.{cut}

-- The entries of a map in the order in which they are set.
abbrev pub Entries : Type 0
Entries = List (Bytes × Bytes)

-- The map after some entries are set.
abbrev pub set_all : Entries → Map Bytes → Map Bytes
set_all [] m = m
set_all ((k, v) ∷ entries) m = set_all entries (put k v m)

-- `secret`
pub record Secret : Type 0 where
  pub id : Bytes
  pub val : Bytes
  pub metadata : Entries

-- `stdinPayload`
pub record StdinPayload : Type 0 where
  pub secret : Bytes
  pub metadata : Entries

module _ {E : Type 0} where
  abbrev pub add_pair :
      Bytes
      → Option (Bytes × Bytes)
      → Result (CommandError E) Entries
      → Result (CommandError E) Entries
  add_pair kv none rest = err (invalid_pair kv)
  add_pair kv (some pair) rest = rest >>= (λ entries. ok (pair ∷ entries))

  -- `parseMetadataFlags`
  unfoldable pub parse_metadata_flags : List Bytes → Result (CommandError E) Entries
  parse_metadata_flags [] = ok []
  parse_metadata_flags (kv ∷ raw) = add_pair kv (cut b'=' kv) (parse_metadata_flags raw)

  abbrev pub pair_of : Bytes → Option (Bytes × Bytes) → Result (CommandError E) Secret
  pair_of arg none = err (no_pair arg)
  pair_of arg (some (key, value)) = ok (record { id = key; val = value; metadata = [] })

  -- `parseArg`
  unfoldable pub parse_arg : Bytes → Result (CommandError E) Secret
  parse_arg arg = pair_of arg (cut b'=' arg)

-- `strings.Contains` of one byte
abbrev pub contains : ℕ → Bytes → Bool
contains c [] = false
contains c (x ∷ s) = x == c || contains c s

-- `isNotImplicitReadFromStdinSyntax`
abbrev pub is_not_implicit_read_from_stdin_syntax : Bytes → List Bytes → Bool
is_not_implicit_read_from_stdin_syntax arg args = contains b'=' arg || ltb 0 (length args)

abbrev pub raw_secret : Bytes → Bytes → Secret
raw_secret i text = record { id = i; val = text; metadata = [] }

abbrev pub payload_or_raw : Bytes → Bytes → Option StdinPayload → Secret
payload_or_raw i text none = raw_secret i text
payload_or_raw i text (some payload) =
    if is_nil payload.secret
    then raw_secret i text
    else record { id = i; val = payload.secret; metadata = payload.metadata }

-- The value with the merged metadata, if there is any.
abbrev pub value_with : Bytes → Entries → PassValue
value_with val [] = new_pass_value val
value_with val (e ∷ entries) = record (new_pass_value val) {
  metadata = set_all (e ∷ entries) empty;
}

module _ {E : Type 0} where
  -- `secretMappingFromSTDIN`; the arguments are the decoder for JSON and what was read.
  unfoldable pub secret_mapping_from_stdin :
      (Bytes → Option StdinPayload) → Result ℕ Bytes → Bytes → Result (CommandError E) Secret
  secret_mapping_from_stdin decode (err e) i = err (stdin_error e)
  secret_mapping_from_stdin decode (ok text) i = ok (payload_or_raw i text (decode text))

  abbrev pub checked_id : Result ErrInvalidId SecretId → Result (CommandError E) SecretId
  checked_id (err e) = err (invalid_id e)
  checked_id (ok i) = ok i

  -- The identifier and the value to store.
  unfoldable pub value_to_set :
      (Bytes → Option StdinPayload)
      → Result ℕ Bytes
      → Bytes
      → List Bytes
      → Result (CommandError E) (SecretId × PassValue)
  value_to_set decode stdin arg raw =
      (if is_not_implicit_read_from_stdin_syntax arg []
        then parse_arg arg
        else secret_mapping_from_stdin decode stdin arg)
      >>= (λ s. checked_id (parse_id s.id) >>= (λ i.
          parse_metadata_flags raw
          >>= (λ flag_meta. ok (i, value_with s.val (s.metadata ++ flag_meta)))))

  abbrev pub stored : Result E (Unit {0}) → Result (CommandError E) (Unit {0})
  stored (err e) = err (in_store e)
  stored (ok u) = ok u

  abbrev pub set_value :
      {S : Type 0}
      → StoreOps E S StoredSecret
      → Bool
      → Result (CommandError E) (SecretId × PassValue)
      → S
      → Result (CommandError E) (Unit {0}) × S
  set_value kc force (err e) s = (err e, s)
  set_value kc force (ok (i, pv)) s =
      let o = if force then kc.upsert i (some pv) s else kc.save i (some pv) s in (stored o.0, o.1)

  -- The command `set`: its argument, the flags `--metadata` and the flag `--force`.
  unfoldable pub set_command :
      {S : Type 0}
      → StoreOps E S StoredSecret
      → (Bytes → Option StdinPayload)
      → Result ℕ Bytes
      → Bytes
      → List Bytes
      → Bool
      → S
      → Result (CommandError E) (Unit {0}) × S
  set_command kc decode stdin arg raw force s =
      set_value kc force (value_to_set decode stdin arg raw) s
