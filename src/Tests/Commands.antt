-- ===== src/Tests/Commands.antt =====
-- Runs and instances for plugins/pass/commands.
use secrets_engine.Commands.{names_or_all}
use secrets_engine.Commands.Rm.{removed, sort, rm_loop, validate_args, run_rm}
use secrets_engine.Commands.Rm.Removes.{run_rm_lem}
use secrets_engine.Commands.Run.{
  ValueResolver, set_entry, merge_process, copy, merge_files, merge_env,
}
use secrets_engine.Commands.Set.{
  set_all, parse_metadata_flags, secret_mapping_from_stdin, value_to_set, set_command,
}
use secrets_engine.Commands.Set.Stores.{set_command_lem}
use secrets_engine.Maps.{Map, put, empty, IsKeys}
use secrets_engine.PassPlugin.{StoredSecret, new_pass_value}
use secrets_engine.Prelude.{
  ◌≡◌, refl, ap, sym, true, false, List, [], ◌∷◌, none, some, Result, ok, err, arith,
}
use secrets_engine.Secrets.Identifier.{parse_id, valid_identifier, identifier_loop, is_valid_rune}
use secrets_engine.Store.Mock.{
  init, mock_ops, mock_delete, mock_get_all_metadata, credential_not_found, mock_store-Implements,
  StoreError,
}
use secrets_engine.Text.{Bytes, codes, equal, equal_iff}
use secrets_engine.Text.Search.{cut}

abbrev id_a : Bytes
id_a = codes "a"

abbrev id_b : Bytes
id_b = codes "b"

abbrev contents : Map StoredSecret
contents = put id_b (some (new_pass_value (codes "pw"))) (put id_a none empty)

contents-IsKeys : IsKeys contents (id_b ∷ id_a ∷ [])
contents-IsKeys = record {
  visits =
      λ j. ground (arith, equal_iff j id_a, equal_iff id_a j, equal_iff j id_b, equal_iff id_b j);
  once = unfold equal in refl;
}

abbrev map_in : Result StoreError (Map StoredSecret) → Map StoredSecret
map_in (err e) = empty
map_in (ok m) = m

listed-IsKeys :
    (m : Map StoredSecret)
    → ((mock_ops StoredSecret).get_all_metadata (some contents)).0 ≡ ok m
    → IsKeys m (id_b ∷ id_a ∷ [])
unfolding mock_get_all_metadata
listed-IsKeys m e = rw (sym (ap map_in e)) contents-IsKeys

run_rm_lem_example :
    ((run_rm (mock_ops StoredSecret) (λ m. id_b ∷ id_a ∷ []) [] true (some contents)).0 ≡ ok tt)
    × ((j : Bytes)
        → init (run_rm (mock_ops StoredSecret) (λ m. id_b ∷ id_a ∷ []) [] true (some contents)).2 j
          ≡ none)
run_rm_lem_example =
    run_rm_lem (mock_ops StoredSecret) init (λ s. Unit {0}) credential_not_found
      (mock_store-Implements StoredSecret) (λ i s h. tt)
      (λ s h. (tt, λ j. unfold mock_get_all_metadata in refl)) (λ m. id_b ∷ id_a ∷ []) [] true
      (some contents) listed-IsKeys tt

-- The identifiers are removed in order.
removed_in_order :
    (run_rm (mock_ops StoredSecret) (λ m. id_b ∷ id_a ∷ []) [] true (some contents)).1
    ≡ removed id_a ∷ removed id_b ∷ []
unfolding run_rm rm_loop sort mock_get_all_metadata mock_delete
removed_in_order = refl

neither : validate_args {E = StoreError} [] false ≡ err names_or_all
unfolding validate_args
neither = refl

a_valid : parse_id id_a ≡ ok id_a
unfolding parse_id valid_identifier identifier_loop is_valid_rune
a_valid = refl

set_command_lem_example :
    ((set_command
        (mock_ops StoredSecret)
        (λ text. none)
        (ok [])
        (codes "a=x=y")
        (codes "k=v" ∷ [])
        true
        none).0
      ≡ ok tt)
    × ((j : Bytes)
        → init
            (set_command
              (mock_ops StoredSecret)
              (λ text. none)
              (ok [])
              (codes "a=x=y")
              (codes "k=v" ∷ [])
              true
              none).1
            j
          ≡ put id_a
              (some (record {
                value = codes "x=y";
                metadata = set_all ((codes "k", codes "v") ∷ []) empty;
              }))
              empty
              j)
set_command_lem_example =
    set_command_lem (mock_ops StoredSecret) init (λ s. Unit {0}) credential_not_found
      (mock_store-Implements StoredSecret) (λ text. none) (ok []) id_a (codes "x=y")
      ((codes "k", codes "v") ∷ []) true none (refl, tt) a_valid ((refl, tt), tt) tt

-- The value of a secret that a JSON payload gives.
from_stdin :
    value_to_set {E = StoreError}
      (λ text. some (record { secret = codes "s"; metadata = [] }))
      (ok (codes "{}"))
      id_a
      []
    ≡ ok (id_a, new_pass_value (codes "s"))
unfolding value_to_set secret_mapping_from_stdin parse_id valid_identifier identifier_loop
    is_valid_rune parse_metadata_flags
from_stdin = refl

-- Every pattern finds one secret.
abbrev resolver : ValueResolver
resolver pattern = ok (codes "pw" ∷ [])

abbrev environment : List Bytes
environment = codes "A=se://a" ∷ codes "B=b=c" ∷ []

-- A later file overrides an earlier one and the environment.
merged :
    merge_env {E = StoreError}
      (λ f. ok ((codes "X", f) ∷ []))
      (codes "X=0" ∷ codes "A" ∷ codes "B=2" ∷ [])
      (codes "f" ∷ codes "g" ∷ [])
    ≡ ok (codes "B=2" ∷ codes "X=g" ∷ [])
unfolding merge_env merge_files merge_process copy set_entry sort cut equal
merged = refl
