-- ===== src/Store/Mock.antt =====
-- store/mocks/mock_store.go: the store that keeps a map, which is nil until it is first used.
use secrets_engine.Maps.{Map, empty, put, remove}
use secrets_engine.Prelude.{List, Option, none, some, Result, ok, err, refl, ◌≡◌}
use secrets_engine.Secrets.Identifier.{SecretId}
use secrets_engine.Secrets.Pattern.{SecretPattern}
use secrets_engine.Store.{StoreOps, filter_loop}
use secrets_engine.Store.Contract.{Implements, found_or, filter_loop_lem}
use secrets_engine.Text.{Bytes}

-- `store.ErrCredentialNotFound`, which is `secrets.ErrNotFound`
pub data StoreError : Type 0 where
  credential_not_found : StoreError

-- `MockStore` without its lock: an operation holds it from start to end.
abbrev pub MockStore : Type 0 → Type 0
MockStore V = Option (Map V)

module _ {V : Type 0} where
  -- `init`
  abbrev pub init : MockStore V → Map V
  init none = empty
  init (some m) = m

  unfoldable pub mock_delete : SecretId → MockStore V → Result StoreError (Unit {0}) × MockStore V
  mock_delete i s = (ok tt, some (remove i (init s)))

  unfoldable pub mock_get : SecretId → MockStore V → Result StoreError V × MockStore V
  mock_get i s =
      (elim (init s i) [ none ↦ err credential_not_found | some secret ↦ ok secret ], some (init s))

  unfoldable pub mock_get_all_metadata : MockStore V → Result StoreError (Map V) × MockStore V
  mock_get_all_metadata s = (ok (init s), some (init s))

  unfoldable pub mock_save : SecretId → V → MockStore V → Result StoreError (Unit {0}) × MockStore V
  mock_save i secret s = (ok tt, some (put i secret (init s)))

  unfoldable pub mock_upsert :
      SecretId → V → MockStore V → Result StoreError (Unit {0}) × MockStore V
  unfolding mock_save
  mock_upsert i secret s = mock_save i secret s

  unfoldable pub mock_filter :
      List Bytes → SecretPattern → MockStore V → Result StoreError (Map V) × MockStore V
  mock_filter keys pattern s = (ok (filter_loop pattern keys (init s) empty), some (init s))

abbrev pub mock_ops : (V : Type 0) → StoreOps StoreError (MockStore V) V
mock_ops V = record {
  delete = mock_delete;
  get = mock_get;
  get_all_metadata = mock_get_all_metadata;
  save = mock_save;
  upsert = mock_upsert;
  filter = mock_filter;
}

get-found_or :
    {V : Type 0} (o : Option V)
    → (elim o as (λ x. Result StoreError V) [
      | none ↦ err credential_not_found
      | some secret ↦ ok secret
    ])
      ≡ found_or credential_not_found o
get-found_or none = refl
get-found_or (some v) = refl

-- The mock store behaves as a map from identifiers to secrets in every state: each operation returns
-- what the map says; `save`, `upsert` and `delete` change the map at the given identifier alone, and
-- `get`, `get_all_metadata` and `filter` leave it alone; `filter` returns the entries whose identifier
-- the pattern matches, whatever the order of its loop.
pub mock_store-Implements :
    (V : Type 0) → Implements (mock_ops V) init (λ s. Unit {0}) credential_not_found
unfolding mock_delete mock_get mock_get_all_metadata mock_upsert mock_filter
mock_store-Implements V = record {
  get_view = λ i s h. get-found_or (init s i);
  get_keeps = λ i s j. refl;
  save_view = λ i v s h. (refl, λ j. refl);
  upsert_view = λ i v s h. (refl, λ j. refl);
  delete_view = λ i s h. (refl, λ j. refl);
  get_all_view = λ s h. (init s, refl, λ j. refl);
  stays_healthy = λ s h. (λ i. tt, λ i v. tt, λ i v. tt, λ i. tt, tt, λ keys p. tt);
  get_all_keeps = λ s j. refl;
  filter_keeps = λ keys p s j. refl;
  filter_view = λ keys p s h v. (_, refl, filter_loop_lem p (init s) keys v);
}
