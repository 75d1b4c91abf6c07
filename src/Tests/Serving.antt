-- ===== src/Tests/Serving.antt =====
-- Runs and instances for the resolver service, the realms and the pass plugin.
use secrets_engine.Maps.{Map, put, empty, IsKeys}
use secrets_engine.PassPlugin.{
  StoredSecret, new_pass_value, pass_envelope, get_secrets, select_loop,
}
use secrets_engine.PassPlugin.Selects.{served, envelopes_of, at_most_one, Answers, get_secrets_lem}
use secrets_engine.Prelude.{
  ℕ, ◌≡◌, refl, true, ◌∙◌, List, [], ◌∷◌, some, none, ok, err, arith, if◌then◌else◌,
}
use secrets_engine.Realms.{
  secrets_engine_realm, secrets_engine_plugins, docker_mcp_default, docker_mcp_oauth,
  docker_mcp_oauth_dcr, docker_sandbox, docker_sandbox_oauth,
}
use secrets_engine.Realms.Nesting.{realms_nest}
use secrets_engine.Resolver.{
  Envelope, Resolver, Timestamps, service_get_secrets, client_get_secrets, code_invalid_argument,
}
use secrets_engine.Resolver.Connected.{client-service}
use secrets_engine.Secrets.Identifier.{SecretId, parse_id, split}
use secrets_engine.Secrets.Match.{matches_id, match_parts, try_skips}
use secrets_engine.Secrets.Pattern.{parse_pattern}
use secrets_engine.Store.{filter_loop}
use secrets_engine.Store.Mock.{
  init, mock_ops, mock_filter, credential_not_found, mock_store-Implements,
}
use secrets_engine.Text.{Bytes, codes, equal, equal_iff}

abbrev same_times : Timestamps ℕ ℕ
same_times = record { stamp = λ t. t; as_time = λ t. t }

abbrev token : Envelope SecretId ℕ
token = record {
  id = codes "a/b";
  value = codes "secret";
  metadata = empty;
  provider = codes "p";
  version = codes "0.0.1";
  created_at = 1;
  resolved_at = 2;
  expires_at = 3;
}

abbrev one_token : Resolver ℕ
one_token pattern = ok (token ∷ [])

client-service_example :
    client_get_secrets same_times (service_get_secrets same_times one_token) (codes "a/*")
    ≡ ok (token ∷ [])
client-service_example =
    client-service same_times (λ t. refl) one_token (codes "a/*") (unfold parse_pattern in refl)
      (unfold parse_id in refl, tt)

invalid_pattern :
    service_get_secrets same_times one_token (codes "a//b")
    ≡ err (code_invalid_argument (codes "a//b"))
unfolding service_get_secrets parse_pattern
invalid_pattern = refl

abbrev nested : SecretId
nested = codes "docker/mcp/oauth/github"

realms_nest_example :
    (matches_id docker_mcp_oauth nested ≡ true → matches_id docker_mcp_default nested ≡ true)
    × (matches_id docker_mcp_oauth_dcr nested ≡ true → matches_id docker_mcp_default nested ≡ true)
    × (matches_id docker_sandbox_oauth nested ≡ true → matches_id docker_sandbox nested ≡ true)
    × (matches_id secrets_engine_plugins nested ≡ true
        → matches_id secrets_engine_realm nested ≡ true)
realms_nest_example = realms_nest nested

abbrev user_id : Bytes
user_id = codes "user"

abbrev internal_id : Bytes
internal_id = codes "docker/secrets-engine/x"

abbrev stored : Map StoredSecret
stored =
    put user_id (some (new_pass_value (codes "pw")))
      (put internal_id (some (new_pass_value (codes "state"))) empty)

abbrev stored_keys : List Bytes
stored_keys = internal_id ∷ user_id ∷ []

stored-IsKeys : IsKeys stored stored_keys
stored-IsKeys = record {
  visits = λ j. ground (
    arith,
    equal_iff j user_id,
    equal_iff user_id j,
    equal_iff j internal_id,
    equal_iff internal_id j,
  );
  once = unfold equal in refl;
}

abbrev zero_time : ℕ
zero_time = 0

pass_run :
    (get_secrets zero_time
      (mock_ops StoredSecret)
      stored_keys
      stored_keys
      (codes "**")
      (some stored)).0
    ≡ ok (pass_envelope zero_time user_id (new_pass_value (codes "pw")) ∷ [])
unfolding get_secrets mock_filter filter_loop select_loop matches_id match_parts try_skips equal
    split
pass_run = refl

match_parts_any : (path : List Bytes) → match_parts (codes "**" ∷ []) path ≡ true
unfolding match_parts equal
match_parts_any [] = refl
match_parts_any (x ∷ path) = refl

matches_any : (j : Bytes) → matches_id (codes "**") j ≡ true
unfolding matches_id split equal
matches_any j = match_parts_any (split j)

matching-IsKeys : IsKeys (λ j. if matches_id (codes "**") j then stored j else none) stored_keys
matching-IsKeys = record {
  visits = λ j. stored-IsKeys.visits j ∙ rw (matches_any j) refl;
  once = stored-IsKeys.once;
}

get_secrets_lem_example :
    (envelopes : List (Envelope SecretId ℕ)) × Answers 0 envelopes
      (get_secrets zero_time
        (mock_ops StoredSecret)
        stored_keys
        stored_keys
        (codes "**")
        (some stored)).0
    × ((j : SecretId) → envelopes_of j envelopes ≡ at_most_one (served 0 (codes "**") stored j))
    × ((j : Bytes)
        → init
            (get_secrets zero_time
              (mock_ops StoredSecret)
              stored_keys
              stored_keys
              (codes "**")
              (some stored)).1
            j
          ≡ stored j)
get_secrets_lem_example =
    get_secrets_lem 0 (mock_ops StoredSecret) init (λ s. Unit {0}) credential_not_found
      (mock_store-Implements StoredSecret) stored_keys stored_keys (codes "**") (some stored) tt
      stored-IsKeys matching-IsKeys
