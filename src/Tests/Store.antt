-- ===== src/Tests/Store.antt =====
-- Runs and instances for the stores of store/mocks and plugins/pass/teststore.
use secrets_engine.Maps.{Map, put, empty, IsKeys}
use secrets_engine.Prelude.{ℕ, ◌≡◌, refl, List, [], ◌∷◌, none, some, ok, err, arith, if◌then◌else◌}
use secrets_engine.Secrets.Identifier.{split}
use secrets_engine.Secrets.Match.{matches_id, match_parts, try_skips}
use secrets_engine.Store.{filter_loop}
use secrets_engine.Store.Mock.{mock_ops, mock_store-Implements, mock_save, mock_get, mock_filter}
use secrets_engine.Store.TestStore.{
  TestStore, test_get, with_store, with_get_err, new_test_store, test_ops, test_store-Implements,
  injected, NoErrors,
}
use secrets_engine.Text.{Bytes, codes, equal, equal_iff}

abbrev id_a : Bytes
id_a = codes "a/b"

abbrev id_c : Bytes
id_c = codes "c"

abbrev stored : Map ℕ
stored = put id_a 1 (put id_c 2 empty)

abbrev stored_keys : List Bytes
stored_keys = id_c ∷ id_a ∷ []

stored-IsKeys : IsKeys stored stored_keys
stored-IsKeys = record {
  visits =
      λ j. ground (arith, equal_iff j id_a, equal_iff id_a j, equal_iff j id_c, equal_iff id_c j);
  once = unfold equal in refl;
}

mock_after_save : ((mock_ops ℕ).get id_c ((mock_ops ℕ).save id_c 2 none).1).0 ≡ ok 2
unfolding mock_save mock_get equal
mock_after_save = refl

mock_filter_run :
    (m : Map ℕ) × (((mock_ops ℕ).filter stored_keys (codes "*/b") (some stored)).0 ≡ ok m)
    × (m id_a ≡ some 1)
    × (m id_c ≡ none)
unfolding mock_filter filter_loop matches_id match_parts try_skips equal split
mock_filter_run = (_, refl, refl, refl)

mock_store-Implements_example :
    (m : Map ℕ) × (((mock_ops ℕ).filter stored_keys (codes "*/b") (some stored)).0 ≡ ok m)
    × ((j : Bytes) → m j ≡ (if matches_id (codes "*/b") j then stored j else none))
mock_store-Implements_example =
    (mock_store-Implements ℕ).filter_view stored_keys (codes "*/b") (some stored) tt stored-IsKeys

abbrev test_store : TestStore ℕ
test_store = record {
  err_save = none;
  err_get_all = none;
  err_delete = none;
  err_get = none;
  err_filter = none;
  err_upsert = none;
  contents = stored;
}

new_test_store_run : new_test_store (with_store stored ∷ []) ≡ test_store
unfolding new_test_store test_get
new_test_store_run = refl

injected_get :
    ((test_ops ℕ).get id_c (new_test_store (with_store stored ∷ with_get_err (some 7) ∷ []))).0
    ≡ err (injected 7)
unfolding new_test_store test_get
injected_get = refl

test_store-NoErrors : NoErrors test_store
test_store-NoErrors = record {
  saves = refl;
  gets_all = refl;
  deletes = refl;
  gets = refl;
  filters = refl;
  upserts = refl;
}

test_store-Implements_example :
    (m : Map ℕ) × (((test_ops ℕ).filter stored_keys (codes "*/b") test_store).0 ≡ ok m)
    × ((j : Bytes) → m j ≡ (if matches_id (codes "*/b") j then stored j else none))
test_store-Implements_example =
    (test_store-Implements ℕ).0.filter_view stored_keys (codes "*/b") test_store test_store-NoErrors
      stored-IsKeys
