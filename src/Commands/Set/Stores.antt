-- ===== src/Commands/Set/Stores.antt =====
-- plugins/pass/commands/set.go: what `set` stores.
use secrets_engine.Commands.Set.{
  Entries, set_all, StdinPayload, parse_metadata_flags, parse_arg, contains, value_with,
  value_to_set, set_value, set_command,
}
use secrets_engine.Maps.{Map, put, empty}
use secrets_engine.PassPlugin.{StoredSecret}
use secrets_engine.Prelude.{
  ℕ, ◌≡◌, refl, ◌==◌, Bool, true, false, List, [], ◌∷◌, ◌++◌, Option, some, Result, ok, arith, All,
}
use secrets_engine.Secrets.Identifier.{parse_id}
use secrets_engine.Store.{StoreOps}
use secrets_engine.Store.Contract.{Implements}
use secrets_engine.Text.{Bytes}
use secrets_engine.Text.Search.{cut-append}

-- A pair as a flag gives it.
abbrev pub flag : Bytes × Bytes → Bytes
flag (k, v) = k ++ (b'=' ∷ v)

abbrev pub flags : Entries → List Bytes
flags [] = []
flags (e ∷ entries) = flag e ∷ flags entries

abbrev pub HasNoEquals : Bytes → Type 0
HasNoEquals = All (λ c. (c == b'=') ≡ false)

abbrev pub AreKeys : Entries → Type 0
AreKeys [] = Unit
AreKeys ((k, v) ∷ entries) = HasNoEquals k × AreKeys entries

contains-append : (s rest : Bytes) → contains b'=' (s ++ (b'=' ∷ rest)) ≡ true
contains-append [] rest = refl
contains-append (c ∷ s) rest = rw (contains-append s rest) (ground arith)

value_with_lem :
    (val : Bytes) (entries : Entries)
    → value_with val entries ≡ record { value = val; metadata = set_all entries empty }
value_with_lem val [] = refl
value_with_lem val (e ∷ entries) = refl

module _ {E : Type 0} where
  parse_metadata_flags-flags :
      (entries : Entries)
      → AreKeys entries
      → parse_metadata_flags {E = E} (flags entries) ≡ ok entries
  unfolding parse_metadata_flags
  parse_metadata_flags-flags [] h = refl
  parse_metadata_flags-flags ((k, v) ∷ entries) h =
      rw (cut-append b'=' k v h.0, parse_metadata_flags-flags entries h.1) refl

  value_to_set-flags :
      (decode : Bytes → Option StdinPayload) (stdin : Result ℕ Bytes) (i val : Bytes)
      (entries : Entries)
      → HasNoEquals i
      → parse_id i ≡ ok i
      → AreKeys entries
      → value_to_set {E = E} decode stdin (i ++ (b'=' ∷ val)) (flags entries)
        ≡ ok (i, value_with val entries)
  unfolding value_to_set parse_arg
  value_to_set-flags decode stdin i val entries h valid k =
      rw
        (
          contains-append i val,
          cut-append b'=' i val h,
          valid,
          parse_metadata_flags-flags entries k,
        )
        refl

-- Over a store that behaves as a map and fails no operation: `set` of an identifier with `=` and a value,
-- whatever bytes the value has, and with flags for metadata whose keys have no `=`, returns no error and
-- stores that value with that metadata, the last of the values if a key is given twice. It does so with and
-- without `--force`, and changes nothing else.
pub set_command_lem :
    {E S : Type 0} (kc : StoreOps E S StoredSecret) (view : S → Map StoredSecret)
    (IsHealthy : S → Type 0) (missing : E)
    → Implements kc view IsHealthy missing
    → (decode : Bytes → Option StdinPayload) (stdin : Result ℕ Bytes) (i val : Bytes)
      (entries : Entries) (force : Bool) (s : S)
    → HasNoEquals i
    → parse_id i ≡ ok i
    → AreKeys entries
    → IsHealthy s
    → ((set_command kc decode stdin (i ++ (b'=' ∷ val)) (flags entries) force s).0 ≡ ok tt)
      × ((j : Bytes)
          → view (set_command kc decode stdin (i ++ (b'=' ∷ val)) (flags entries) force s).1 j
            ≡ put i (some (record { value = val; metadata = set_all entries empty })) (view s) j)
unfolding set_command
set_command_lem {E = E} kc view IsHealthy missing store decode stdin i val entries force s h valid k
      healthy =
    rw (value_to_set-flags decode stdin i val entries h valid k, value_with_lem val entries)
      (saved force)
  where
    pv : StoredSecret
    pv = some (record { value = val; metadata = set_all entries empty })

    saved :
        (force : Bool)
        → ((set_value {E = E} kc force
              (ok (i, record { value = val; metadata = set_all entries empty }))
              s).0
            ≡ ok tt)
          × ((j : Bytes)
              → view
                  (set_value {E = E} kc force
                    (ok (i, record { value = val; metadata = set_all entries empty }))
                    s).1
                  j
                ≡ put i pv (view s) j)
    saved true = let (e, at_key) = store.upsert_view i pv s healthy in (rw e refl, at_key)
    saved false = let (e, at_key) = store.save_view i pv s healthy in (rw e refl, at_key)
