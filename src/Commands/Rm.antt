-- ===== src/Commands/Rm.antt =====
-- plugins/pass/commands/rm.go: the command `rm`.
pub mod Removes
use secrets_engine.Commands.{CommandError, in_store, joined, invalid_id, names_or_all}
use secrets_engine.Maps.{Map}
use secrets_engine.PassPlugin.{StoredSecret}
use secrets_engine.Prelude.{
  ℕ, Bool, true, false, not, ◌&&◌, ◌||◌, List, [], ◌∷◌, Result, ok, err, ltb, ◌==◌, if◌then◌else◌,
  is_nil,
}
use secrets_engine.Secrets.Identifier.{SecretId, ErrInvalidId, parse_id}
use secrets_engine.Store.{StoreOps}
use secrets_engine.Text.{Bytes}

-- `strings.Compare(a, b) < 0`
abbrev pub before : Bytes → Bytes → Bool
before s [] = false
before [] (d ∷ t) = true
before (c ∷ s) (d ∷ t) = ltb c d || (c == d && before s t)

abbrev pub insert_sorted : Bytes → List Bytes → List Bytes
insert_sorted i [] = i ∷ []
insert_sorted i (j ∷ js) =
    let rest = insert_sorted i js in if before j i then j ∷ rest else i ∷ j ∷ js

-- `SortFunc` with `strings.Compare`; texts that compare as equal are equal, so there is one result.
unfoldable pub sort : List Bytes → List Bytes
sort [] = []
sort (i ∷ is) = insert_sorted i (sort is)

module _ {E : Type 0} where
  abbrev pub add_id :
      Result ErrInvalidId SecretId
      → Result (CommandError E) (List SecretId)
      → Result (CommandError E) (List SecretId)
  add_id (err e) rest = err (invalid_id e)
  add_id (ok i) (err e) = err e
  add_id (ok i) (ok ids) = ok (i ∷ ids)

  unfoldable pub parse_ids : List Bytes → Result (CommandError E) (List SecretId)
  parse_ids [] = ok []
  parse_ids (arg ∷ args) = add_id (parse_id arg) (parse_ids args)

  -- `validateArgs`
  unfoldable pub validate_args : List Bytes → Bool → Result (CommandError E) (List SecretId)
  validate_args args all =
      if (is_nil args && not all) || (not (is_nil args) && all)
      then err names_or_all
      else parse_ids args

-- A line of the output.
pub data Line (E : Type 0) : Type 0 where
  failed : SecretId → E → Line E
  removed : SecretId → Line E

module _ {E S : Type 0} (kc : StoreOps E S StoredSecret) where
  abbrev pub add_line :
      SecretId → Result E (Unit {0}) → List E × List (Line E) × S → List E × List (Line E) × S
  add_line i (err e) rest = (e ∷ rest.0, failed i e ∷ rest.1, rest.2)
  add_line i (ok u) rest = (rest.0, removed i ∷ rest.1, rest.2)

  -- The loop of `runRm`: an error does not end it.
  unfoldable pub rm_loop : List SecretId → S → List E × List (Line E) × S
  rm_loop [] s = ([], [], s)
  rm_loop (i ∷ ids) s = add_line i (kc.delete i s).0 (rm_loop ids (kc.delete i s).1)

  -- `errors.Join`
  abbrev pub join_errors : List E → Result (CommandError E) (Unit {0})
  join_errors [] = ok tt
  join_errors (e ∷ errs) = err (joined (e ∷ errs))

  abbrev pub finish :
      List E × List (Line E) × S → Result (CommandError E) (Unit {0}) × List (Line E) × S
  finish o = (join_errors o.0, o.1, o.2)

  abbrev pub rm_listed :
      (Map StoredSecret → List SecretId)
      → Result E (Map StoredSecret)
      → S
      → Result (CommandError E) (Unit {0}) × List (Line E) × S
  rm_listed order (err e) s = (err (in_store e), [], s)
  rm_listed order (ok l) s = finish (rm_loop (sort (order l)) s)

  -- `runRm`; `order` is that in which the loop visits the keys of a map.
  unfoldable pub run_rm :
      (Map StoredSecret → List SecretId)
      → List SecretId
      → Bool
      → S
      → Result (CommandError E) (Unit {0}) × List (Line E) × S
  run_rm order ids all s =
      if all && is_nil ids
      then rm_listed order (kc.get_all_metadata s).0 (kc.get_all_metadata s).1
      else finish (rm_loop (sort ids) s)
