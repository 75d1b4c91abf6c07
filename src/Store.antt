-- ===== src/Store.antt =====
-- store/store.go: what a secret and a store of secrets are.
pub mod Contract
pub mod Mock
pub mod TestStore
use secrets_engine.Maps.{Map, put}
use secrets_engine.Prelude.{ℕ, List, [], ◌∷◌, Option, none, some, if◌then◌else◌, Result}
use secrets_engine.Secrets.Identifier.{SecretId}
use secrets_engine.Secrets.Match.{matches_id}
use secrets_engine.Secrets.Pattern.{SecretPattern}
use secrets_engine.Text.{Bytes}

-- The interface `Secret`: a value with a serial form and non-sensitive metadata. Errors are numbers.
pub record SecretType : Type 1 where
  pub Value : Type 0
  pub marshal : Value → Result ℕ Bytes
  pub unmarshal : Bytes → Value → Result ℕ Value
  pub metadata : Value → Map Bytes
  pub set_metadata : Map Bytes → Value → Result ℕ Value

-- The interface `Store` as functions on a state: each returns its result and the new state. The list
-- that `filter` takes is the order in which a loop over the stored map visits the keys.
pub record StoreOps (E S V : Type 0) : Type 0 where
  pub delete : SecretId → S → Result E (Unit {0}) × S
  pub get : SecretId → S → Result E V × S
  pub get_all_metadata : S → Result E (Map V) × S
  pub save : SecretId → V → S → Result E (Unit {0}) × S
  pub upsert : SecretId → V → S → Result E (Unit {0}) × S
  pub filter : List Bytes → SecretPattern → S → Result E (Map V) × S

module _ {V : Type 0} where
  -- One round of the loop of `Filter` in the stores that keep a map.
  abbrev pub collect : SecretPattern → Bytes → Option V → Map V → Map V
  collect pattern i none filtered = filtered
  collect pattern i (some f) filtered = if matches_id pattern i then put i f filtered else filtered

  -- That loop, from the given result on.
  unfoldable pub filter_loop : SecretPattern → List Bytes → Map V → Map V → Map V
  filter_loop pattern [] contents filtered = filtered
  filter_loop pattern (i ∷ keys) contents filtered =
      filter_loop pattern keys contents (collect pattern i (contents i) filtered)
