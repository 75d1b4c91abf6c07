-- ===== src/Store/Contract.antt =====
-- What a store promises: it behaves as a map from identifiers to secrets.
use secrets_engine.Maps.{Map, put, remove, elem, is_some, IsKeys}
use secrets_engine.Prelude.{
  ◌≡◌, refl, sym, ◌∙◌, inl, inr, ◌&&◌, List, [], ◌∷◌, Option, none, some, arith, if◌then◌else◌,
  Option-cases, Result, ok, err,
}
use secrets_engine.Secrets.Identifier.{SecretId}
use secrets_engine.Secrets.Match.{matches_id}
use secrets_engine.Secrets.Pattern.{SecretPattern}
use secrets_engine.Store.{StoreOps, filter_loop}
use secrets_engine.Text.{Bytes, equal_refl, equal_ne, Bytes-cases}

-- A found value, or the error for a missing one.
abbrev pub found_or : {E V : Type 0} → E → Option V → Result E V
found_or e none = err e
found_or e (some v) = ok v

-- `view` reads the contents from a state, and `IsHealthy` says that the state fails no operation.
pub record Implements {E S V : Type 0} (ops : StoreOps E S V) (view : S → Map V)
    (IsHealthy : S → Type 0) (not_found : E) : Type 0 where
  pub get_view :
      (i : SecretId) (s : S) → IsHealthy s → (ops.get i s).0 ≡ found_or not_found (view s i)
  pub get_keeps : (i : SecretId) (s : S) (j : Bytes) → view (ops.get i s).1 j ≡ view s j
  pub save_view :
      (i : SecretId) (v : V) (s : S)
      → IsHealthy s
      → ((ops.save i v s).0 ≡ ok tt)
        × ((j : Bytes) → view (ops.save i v s).1 j ≡ put i v (view s) j)
  pub upsert_view :
      (i : SecretId) (v : V) (s : S)
      → IsHealthy s
      → ((ops.upsert i v s).0 ≡ ok tt)
        × ((j : Bytes) → view (ops.upsert i v s).1 j ≡ put i v (view s) j)
  pub delete_view :
      (i : SecretId) (s : S)
      → IsHealthy s
      → ((ops.delete i s).0 ≡ ok tt)
        × ((j : Bytes) → view (ops.delete i s).1 j ≡ remove i (view s) j)
  pub get_all_view :
      (s : S)
      → IsHealthy s
      → (m : Map V) × ((ops.get_all_metadata s).0 ≡ ok m) × ((j : Bytes) → m j ≡ view s j)
  pub stays_healthy :
      (s : S)
      → IsHealthy s
      → ((i : SecretId) → IsHealthy (ops.get i s).1)
        × ((i : SecretId) (v : V) → IsHealthy (ops.save i v s).1)
        × ((i : SecretId) (v : V) → IsHealthy (ops.upsert i v s).1)
        × ((i : SecretId) → IsHealthy (ops.delete i s).1)
        × IsHealthy (ops.get_all_metadata s).1
        × ((keys : List Bytes) (p : SecretPattern) → IsHealthy (ops.filter keys p s).1)
  pub get_all_keeps : (s : S) (j : Bytes) → view (ops.get_all_metadata s).1 j ≡ view s j
  pub filter_keeps :
      (keys : List Bytes) (p : SecretPattern) (s : S) (j : Bytes)
      → view (ops.filter keys p s).1 j ≡ view s j
  pub filter_view :
      (keys : List Bytes) (p : SecretPattern) (s : S)
      → IsHealthy s
      → IsKeys (view s) keys
      → (m : Map V) × ((ops.filter keys p s).0 ≡ ok m)
        × ((j : Bytes) → m j ≡ (if matches_id p j then view s j else none))

module _ {V : Type 0} (p : SecretPattern) (contents : Map V) where
  -- What the loop adds at a key: the stored value, if the key is visited and matches.
  abbrev added : List Bytes → Map V → Bytes → Option V
  added keys filtered j =
      if elem j keys && matches_id p j && is_some (contents j) then contents j else filtered j

  filter_loop_at :
      (keys : List Bytes) (filtered : Map V) (j : Bytes)
      → filter_loop p keys contents filtered j ≡ added keys filtered j
  unfolding filter_loop
  filter_loop_at [] filtered j = refl
  filter_loop_at (k ∷ keys) filtered j = elim (Bytes-cases j k) [
    | inl e ↦ filter_loop_at keys _ j ∙ elim (Option-cases (contents k)) [
      | inl z ↦ rw (e, z, equal_refl k) (ground arith)
      | inr (v, z) ↦ rw (e, z, equal_refl k) (ground (arith, equal_refl k))
    ]
    | inr n ↦ filter_loop_at keys _ j ∙ elim (Option-cases (contents k)) [
      | inl z ↦ rw (z, equal_ne j k n)
      | inr (v, z) ↦ rw (z, equal_ne j k n) (ground (arith, equal_ne k j (λ w. n (sym w))))
    ]
  ]

  -- The loop finds exactly the matching part of the contents, in whatever order it visits them.
  pub filter_loop_lem :
      (keys : List Bytes)
      → IsKeys contents keys
      → (j : Bytes)
      → filter_loop p keys contents (λ i. none) j ≡ (if matches_id p j then contents j else none)
  filter_loop_lem keys v j = filter_loop_at keys (λ i. none) j ∙ elim (Option-cases (contents j)) [
    | inl z ↦ rw (v.visits j, z) (ground arith)
    | inr (f, z) ↦ rw (v.visits j, z) (ground arith)
  ]
