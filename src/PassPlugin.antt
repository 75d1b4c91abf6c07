-- ===== src/PassPlugin.antt =====
-- plugins/pass/plugin.go and plugins/pass/store/store.go: the plugin that serves a store's secrets.
pub mod Selects
use secrets_engine.Maps.{Map, empty}
use secrets_engine.Prelude.{
  ℕ, List, [], ◌∷◌, ◌++◌, Option, none, some, Result, ok, err, if◌then◌else◌,
}
use secrets_engine.Realms.{secrets_engine_realm}
use secrets_engine.Resolver.{Envelope}
use secrets_engine.Secrets.Identifier.{SecretId}
use secrets_engine.Secrets.Match.{matches_id}
use secrets_engine.Secrets.Pattern.{SecretPattern}
use secrets_engine.Store.{SecretType, StoreOps}
use secrets_engine.Text.{Bytes, codes}

-- `PassValue`; its bytes are copied in `Unmarshal`, so no buffer is shared.
pub record PassValue : Type 0 where
  pub value : Bytes
  pub metadata : Map Bytes

-- `NewPassValue`
abbrev pub new_pass_value : Bytes → PassValue
new_pass_value value = record { value = value; metadata = empty }

-- The methods of `PassValue`.
abbrev pub pass_secret : SecretType
pass_secret = record {
  Value = PassValue;
  marshal = λ m. ok m.value;
  unmarshal = λ bytes m. ok (record m { value = bytes });
  metadata = λ m. m.metadata;
  set_metadata = λ md m. ok (record m { metadata = md });
}

-- A secret of a store: `none` is one of another type than `PassValue`.
abbrev pub StoredSecret : Type 0
StoredSecret = Option PassValue

pub data PassError (E : Type 0) : Type 0 where
  store_error : E → PassError E
  not_found : PassError E

-- `envelopeSchemaVersion`
abbrev pub envelope_schema_version : Bytes
envelope_schema_version = codes "0.0.1"

module _ {T : Type 0} (zero_time : T) where
  -- The envelope of a pass value.
  abbrev pub pass_envelope : SecretId → PassValue → Envelope SecretId T
  pass_envelope i impl = record {
    id = i;
    value = impl.value;
    metadata = empty;
    provider = [];
    version = envelope_schema_version;
    created_at = zero_time;
    resolved_at = zero_time;
    expires_at = zero_time;
  }

  -- `unpackValue`; `none` is an error, which the caller logs.
  abbrev pub unpack_value : SecretId → StoredSecret → Option (Envelope SecretId T)
  unpack_value i none = none
  unpack_value i (some impl) = some (pass_envelope i impl)

  -- What one round of the loop appends: the entry at the key, unless the realm hides it.
  abbrev pub selected : SecretId → Option StoredSecret → Option (Envelope SecretId T)
  selected i none = none
  selected i (some value) = if matches_id secrets_engine_realm i then none else unpack_value i value

  abbrev pub append_selected :
      Option (Envelope SecretId T) → List (Envelope SecretId T) → List (Envelope SecretId T)
  append_selected none rest = rest
  append_selected (some s) rest = s ∷ rest

  -- The loop of `GetSecrets` over the store's list, in the order of the keys.
  unfoldable pub select_loop : List Bytes → Map StoredSecret → List (Envelope SecretId T)
  select_loop [] list = []
  select_loop (i ∷ keys) list = append_selected (selected i (list i)) (select_loop keys list)

  abbrev pub found :
      {E : Type 0} → List (Envelope SecretId T) → Result (PassError E) (List (Envelope SecretId T))
  found [] = err not_found
  found (e ∷ result) = ok (e ∷ result)

  abbrev pub answer :
      {E : Type 0}
      → List Bytes
      → Result E (Map StoredSecret)
      → Result (PassError E) (List (Envelope SecretId T))
  answer keys (err e) = err (store_error e)
  answer keys (ok list) = found (select_loop keys list)

  -- `GetSecrets`; `stored_keys` is the order of the store's own loop, `keys` that of the loop over its
  -- result.
  unfoldable pub get_secrets :
      {E S : Type 0}
      → StoreOps E S StoredSecret
      → List Bytes
      → List Bytes
      → SecretPattern
      → S
      → Result (PassError E) (List (Envelope SecretId T)) × S
  get_secrets kc stored_keys keys pattern s =
      (answer keys (kc.filter stored_keys pattern s).0, (kc.filter stored_keys pattern s).1)
