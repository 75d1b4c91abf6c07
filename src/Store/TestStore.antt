-- ===== src/Store/TestStore.antt =====
-- plugins/pass/teststore/teststore.go: the store that keeps a map and can be made to fail.
use secrets_engine.Maps.{Map, empty, put, remove}
use secrets_engine.Prelude.{ℕ, List, Option, none, some, Result, ok, err, refl, ◌≡◌, [], ◌∷◌}
use secrets_engine.Secrets.Identifier.{SecretId}
use secrets_engine.Secrets.Pattern.{SecretPattern}
use secrets_engine.Store.{StoreOps, filter_loop}
use secrets_engine.Store.Contract.{Implements, found_or, filter_loop_lem}
use secrets_engine.Text.{Bytes}

-- The errors that a test injects are numbers.
pub data TestError : Type 0 where
  missing : TestError
  injected : ℕ → TestError

-- `MockStore` of the package teststore, without its lock.
pub record TestStore (V : Type 0) : Type 0 where
  pub err_save : Option ℕ
  pub err_get_all : Option ℕ
  pub err_delete : Option ℕ
  pub err_get : Option ℕ
  pub err_filter : Option ℕ
  pub err_upsert : Option ℕ
  pub contents : Map V

-- An option and its value.
pub data TestOption (V : Type 0) : Type 0 where
  with_save_err with_filter_err with_get_err with_get_all_err with_delete_err with_upsert_err :
      Option ℕ → TestOption V
  with_store : Map V → TestOption V

-- The injected error, or else the result.
abbrev guarded : {A : Type 0} → Option ℕ → Result TestError A → Result TestError A
guarded none r = r
guarded (some e) r = err (injected e)

module _ {V : Type 0} where
  -- the function that the option is
  pub apply_option : TestOption V → TestStore V → TestStore V
  apply_option (with_save_err e) m = record m { err_save = e }
  apply_option (with_filter_err e) m = record m { err_filter = e }
  apply_option (with_get_err e) m = record m { err_get = e }
  apply_option (with_get_all_err e) m = record m { err_get_all = e }
  apply_option (with_delete_err e) m = record m { err_delete = e }
  apply_option (with_upsert_err e) m = record m { err_upsert = e }
  apply_option (with_store store) m = record m { contents = store }

  apply_options : List (TestOption V) → TestStore V → TestStore V
  apply_options [] m = m
  apply_options (o ∷ options) m = apply_options options (apply_option o m)

  -- `NewMockStore`
  unfoldable pub new_test_store : List (TestOption V) → TestStore V
  unfolding apply_options apply_option
  new_test_store options = apply_options options (record {
    err_save = none;
    err_get_all = none;
    err_delete = none;
    err_get = none;
    err_filter = none;
    err_upsert = none;
    contents = empty;
  })

  -- The change of the contents, unless the operation fails.
  abbrev changed : Option ℕ → (Map V → Map V) → TestStore V → TestStore V
  changed none f m = record m { contents = f m.contents }
  changed (some e) f m = m

  pub test_delete : SecretId → TestStore V → Result TestError (Unit {0}) × TestStore V
  test_delete i m = (guarded m.err_delete (ok tt), changed m.err_delete (remove i) m)

  unfoldable pub test_get : SecretId → TestStore V → Result TestError V × TestStore V
  test_get i m = (guarded m.err_get (found_or missing (m.contents i)), m)

  pub test_get_all_metadata : TestStore V → Result TestError (Map V) × TestStore V
  test_get_all_metadata m = (guarded m.err_get_all (ok m.contents), m)

  pub test_save : SecretId → V → TestStore V → Result TestError (Unit {0}) × TestStore V
  test_save i secret m = (guarded m.err_save (ok tt), changed m.err_save (put i secret) m)

  pub test_upsert : SecretId → V → TestStore V → Result TestError (Unit {0}) × TestStore V
  test_upsert i secret m = (guarded m.err_upsert (ok tt), changed m.err_upsert (put i secret) m)

  pub test_filter :
      List Bytes → SecretPattern → TestStore V → Result TestError (Map V) × TestStore V
  test_filter keys pattern m =
      (guarded m.err_filter (ok (filter_loop pattern keys m.contents empty)), m)

abbrev pub test_ops : (V : Type 0) → StoreOps TestError (TestStore V) V
test_ops V = record {
  delete = test_delete;
  get = test_get;
  get_all_metadata = test_get_all_metadata;
  save = test_save;
  upsert = test_upsert;
  filter = test_filter;
}

-- No error is injected.
pub record NoErrors {V : Type 0} (m : TestStore V) : Type 0 where
  pub saves : m.err_save ≡ none
  pub gets_all : m.err_get_all ≡ none
  pub deletes : m.err_delete ≡ none
  pub gets : m.err_get ≡ none
  pub filters : m.err_filter ≡ none
  pub upserts : m.err_upsert ≡ none

changed-NoErrors :
    {V : Type 0} (e : Option ℕ) (f : Map V → Map V) (m : TestStore V)
    → NoErrors m
    → NoErrors (changed e f m)
changed-NoErrors none f m h = record {
  saves = h.saves;
  gets_all = h.gets_all;
  deletes = h.deletes;
  gets = h.gets;
  filters = h.filters;
  upserts = h.upserts;
}
changed-NoErrors (some e) f m h = h

-- With an injected error, the operation returns it and changes nothing.
abbrev pub Injects :
    {V A : Type 0} → Option ℕ → TestStore V → Result TestError A × TestStore V → Type 0
Injects none m r = Unit
Injects (some e) m r = r ≡ (err (injected e), m)

changed-Injects :
    {V A : Type 0} (o : Option ℕ) (m : TestStore V) (r : Result TestError A) (f : Map V → Map V)
    → Injects o m (guarded o r, changed o f m)
changed-Injects none m r f = tt
changed-Injects (some e) m r f = refl

kept-Injects :
    {V A : Type 0} (o : Option ℕ) (m : TestStore V) (r : Result TestError A)
    → Injects o m (guarded o r, m)
kept-Injects none m r = tt
kept-Injects (some e) m r = refl

-- The test store behaves as a map from identifiers to secrets in every state with no injected error:
-- each operation returns what the map says, `save`, `upsert` and `delete` change it at the given identifier
-- alone, and no operation injects an error. In every state, `get`, `get_all_metadata` and `filter` leave the
-- contents alone, and an operation for which an error is injected returns it and changes nothing.
pub test_store-Implements :
    (V : Type 0)
    → Implements (test_ops V) (λ m. m.contents) NoErrors missing
      × ((m : TestStore V)
          → ((i : SecretId) → Injects m.err_delete m ((test_ops V).delete i m))
            × ((i : SecretId) → Injects m.err_get m ((test_ops V).get i m))
            × ((i : SecretId) (v : V) → Injects m.err_save m ((test_ops V).save i v m))
            × ((i : SecretId) (v : V) → Injects m.err_upsert m ((test_ops V).upsert i v m))
            × ((keys : List Bytes) (p : SecretPattern)
                → Injects m.err_filter m ((test_ops V).filter keys p m))
            × Injects m.err_get_all m ((test_ops V).get_all_metadata m))
unfolding test_delete test_get test_get_all_metadata test_save test_upsert test_filter
test_store-Implements V = (
  record {
    get_view = λ i s h. rw h.gets;
    get_keeps = λ i s j. refl;
    save_view = λ i v s h. rw h.saves (refl, λ j. refl);
    upsert_view = λ i v s h. rw h.upserts (refl, λ j. refl);
    delete_view = λ i s h. rw h.deletes (refl, λ j. refl);
    get_all_view = λ s h. (s.contents, rw h.gets_all, λ j. refl);
    stays_healthy = λ s h. (
      λ i. h,
      λ i v. changed-NoErrors s.err_save (put i v) s h,
      λ i v. changed-NoErrors s.err_upsert (put i v) s h,
      λ i. changed-NoErrors s.err_delete (remove i) s h,
      h,
      λ keys p. h,
    );
    get_all_keeps = λ s j. refl;
    filter_keeps = λ keys p s j. refl;
    filter_view = λ keys p s h v. (_, rw h.filters, filter_loop_lem p s.contents keys v);
  },
  λ m. (
    λ i. changed-Injects m.err_delete m _ _,
    λ i. kept-Injects m.err_get m _,
    λ i v. changed-Injects m.err_save m _ _,
    λ i v. changed-Injects m.err_upsert m _ _,
    λ keys p. kept-Injects m.err_filter m _,
    kept-Injects m.err_get_all m _,
  ),
)
