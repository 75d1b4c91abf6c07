-- ===== src/Commands/Rm/Removes.antt =====
-- plugins/pass/commands/rm.go: what `rm` removes.
use secrets_engine.Commands.Rm.{insert_sorted, before, sort, rm_loop, run_rm}
use secrets_engine.Maps.{Map, elem, is_some, removed_also, IsKeys}
use secrets_engine.PassPlugin.{StoredSecret}
use secrets_engine.Prelude.{
  ◌≡◌, refl, ◌∙◌, ◌&&◌, ◌||◌, Bool, List, [], ◌∷◌, Option, none, some, ok, arith, Bool-cases, inl,
  inr, if◌then◌else◌, is_nil,
}
use secrets_engine.Secrets.Identifier.{SecretId}
use secrets_engine.Store.{StoreOps}
use secrets_engine.Store.Contract.{Implements}
use secrets_engine.Text.{Bytes, equal}

elem-insert_sorted :
    (i j : Bytes) (is : List Bytes) → elem j (insert_sorted i is) ≡ (equal j i || elem j is)
elem-insert_sorted i j [] = refl
elem-insert_sorted i j (k ∷ is) = elim (Bool-cases (before k i)) [
  | inl e ↦ rw (e, elem-insert_sorted i j is) (ground arith)
  | inr e ↦ rw e refl
]

-- Sorting keeps the members.
elem-sort : (is : List Bytes) (j : Bytes) → elem j (sort is) ≡ elem j is
unfolding sort
elem-sort [] j = refl
elem-sort (i ∷ is) j = rw (elem-insert_sorted i j (sort is), elem-sort is j) refl

absent : (o : Option StoredSecret) → (if is_some o then none else o) ≡ none
absent none = refl
absent (some v) = refl

module _ {E S : Type 0} (kc : StoreOps E S StoredSecret) (view : S → Map StoredSecret)
    (IsHealthy : S → Type 0) (missing : E) (store : Implements kc view IsHealthy missing)
    (kept : (i : SecretId) (s : S) → IsHealthy s → IsHealthy (kc.delete i s).1)
    (looked : (s : S)
      → IsHealthy s
      → IsHealthy (kc.get_all_metadata s).1
        × ((j : Bytes) → view (kc.get_all_metadata s).1 j ≡ view s j)) where
  -- No error, and all of these are removed.
  abbrev pub Removes : List SecretId → S → List E → S → Type 0
  Removes ids s errs t =
      (errs ≡ []) × ((j : Bytes) → view t j ≡ (if elem j ids then none else view s j))

  rm_loop-Removes :
      (ids : List SecretId) (s : S)
      → IsHealthy s
      → Removes ids s (rm_loop kc ids s).0 (rm_loop kc ids s).2
  unfolding rm_loop
  rm_loop-Removes [] s h = (refl, λ j. refl)
  rm_loop-Removes (i ∷ ids) s h =
      let (done, after) = store.delete_view i s h in
      let (errs, views) = rm_loop-Removes ids (kc.delete i s).1 (kept i s h) in
      rw done
        (errs, λ j. views j ∙ removed_also i ids (view s) (view (kc.delete i s).1 j) j (after j))

  -- Let the store behave as a map, fail no operation, and stay so when it deletes or lists;
  -- and let `order` give the keys of the map that it lists. Then `rm` returns no error. It removes the given secrets, or all of them if none is given
  -- and the flag `--all` is, and no other.
  pub run_rm_lem :
      (order : Map StoredSecret → List SecretId) (ids : List SecretId) (all : Bool) (s : S)
      → ((m : Map StoredSecret) → (kc.get_all_metadata s).0 ≡ ok m → IsKeys m (order m))
      → IsHealthy s
      → ((run_rm kc order ids all s).0 ≡ ok tt)
        × ((j : Bytes)
            → view (run_rm kc order ids all s).2 j
              ≡ (if (all && is_nil ids) || elem j ids then none else view s j))
  unfolding run_rm
  run_rm_lem order ids all s keys h = elim (Bool-cases (all && is_nil ids)) [
    | inl e ↦
        let (m, e', at_key) = store.get_all_view s h in
        let (h', same) = looked s h in
        let (errs, views) = rm_loop-Removes (sort (order m)) (kc.get_all_metadata s).1 h' in
        rw (e, e', errs)
          (
            refl,
            λ j.
                views j
                ∙ rw (elem-sort (order m) j, (keys m e').visits j, at_key j, same j)
                    (absent (view s j)),
          )
    | inr e ↦
        let (errs, views) = rm_loop-Removes (sort ids) s h in
        rw (e, errs) (refl, λ j. views j ∙ rw (elem-sort ids j) refl)
  ]
