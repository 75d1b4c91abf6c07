-- ===== src/Resolver.antt =====
-- x/secrets/secrets.go and x/api/resolver/resolver.go: envelopes, and the two ends of the resolver service.
pub mod Connected
use secrets_engine.Maps.{Map}
use secrets_engine.Prelude.{ℕ, List, [], ◌∷◌, map, Result, ok, err}
use secrets_engine.Secrets.Identifier.{SecretId, ErrInvalidId, parse_id}
use secrets_engine.Secrets.Pattern.{SecretPattern, PatternError, parse_pattern}
use secrets_engine.Text.{Bytes}

-- `Envelope`, with the type of times and of identifiers left open: `Envelope Bytes Timestamp` is the
-- message of the service.
pub record Envelope (I T : Type 0) : Type 0 where
  pub id : I
  pub value : Bytes
  pub metadata : Map Bytes
  pub provider : Bytes
  pub version : Bytes
  pub created_at : T
  pub resolved_at : T
  pub expires_at : T

-- What a resolver returns: `ErrNotFound`, wrapped or not, or another error.
pub data ResolverError : Type 0 where
  secret_not_found : ResolverError
  resolver_failure : ℕ → ResolverError

-- The interface `Resolver`.
abbrev pub Resolver : Type 0 → Type 0
Resolver T = SecretPattern → Result ResolverError (List (Envelope SecretId T))

-- The errors of the handler, by their connect codes, with what their messages quote.
pub data ConnectError : Type 0 where
  code_invalid_argument : Bytes → ConnectError
  code_not_found : ConnectError
  code_internal : Bytes → ConnectError

pub data ClientError : Type 0 where
  not_found : ClientError
  service_error : ConnectError → ClientError

-- The conversions of the package timestamppb: `New` and `AsTime`.
pub record Timestamps (T W : Type 0) : Type 0 where
  pub stamp : T → W
  pub as_time : W → T

module _ {T W : Type 0} (times : Timestamps T W) where
  -- One item of the response.
  abbrev pub to_message : Envelope SecretId T → Envelope Bytes W
  to_message e = record {
    id = e.id;
    value = e.value;
    metadata = e.metadata;
    provider = e.provider;
    version = e.version;
    created_at = times.stamp e.created_at;
    resolved_at = times.stamp e.resolved_at;
    expires_at = times.stamp e.expires_at;
  }

  -- What the handler makes of the resolver's result.
  abbrev pub respond :
      Bytes
      → Result ResolverError (List (Envelope SecretId T))
      → Result ConnectError (List (Envelope Bytes W))
  respond msg_pattern (err secret_not_found) = err code_not_found
  respond msg_pattern (err (resolver_failure e)) = err (code_internal msg_pattern)
  respond msg_pattern (ok []) = err code_not_found
  respond msg_pattern (ok (e ∷ envelopes)) = ok (map to_message (e ∷ envelopes))

  abbrev pub respond_parsed :
      Resolver T
      → Bytes
      → Result PatternError SecretPattern
      → Result ConnectError (List (Envelope Bytes W))
  respond_parsed resolver msg_pattern (err e) = err (code_invalid_argument msg_pattern)
  respond_parsed resolver msg_pattern (ok pattern) = respond msg_pattern (resolver pattern)

  -- `resolverService.GetSecrets`
  unfoldable pub service_get_secrets :
      Resolver T → Bytes → Result ConnectError (List (Envelope Bytes W))
  service_get_secrets resolver msg_pattern =
      respond_parsed resolver msg_pattern (parse_pattern msg_pattern)

  -- The envelope of an item whose identifier is accepted.
  abbrev pub from_message : SecretId → Envelope Bytes W → Envelope SecretId T
  from_message i item = record {
    id = i;
    value = item.value;
    metadata = item.metadata;
    provider = item.provider;
    version = item.version;
    created_at = times.as_time item.created_at;
    resolved_at = times.as_time item.resolved_at;
    expires_at = times.as_time item.expires_at;
  }

  abbrev pub add_item :
      Result ErrInvalidId SecretId
      → Envelope Bytes W
      → List (Envelope SecretId T)
      → List (Envelope SecretId T)
  add_item (err e) item envelopes = envelopes
  add_item (ok i) item envelopes = from_message i item ∷ envelopes

  -- The loop of the client's `GetSecrets`.
  unfoldable pub receive_loop : List (Envelope Bytes W) → List (Envelope SecretId T)
  receive_loop [] = []
  receive_loop (item ∷ items) = add_item (parse_id item.id) item (receive_loop items)

  abbrev pub receive :
      Result ConnectError (List (Envelope Bytes W))
      → Result ClientError (List (Envelope SecretId T))
  receive (err code_not_found) = err not_found
  receive (err e) = err (service_error e)
  receive (ok items) = ok (receive_loop items)

  -- `resolverClient.GetSecrets`, with the call of the service as a function.
  unfoldable pub client_get_secrets :
      (Bytes → Result ConnectError (List (Envelope Bytes W)))
      → SecretPattern
      → Result ClientError (List (Envelope SecretId T))
  client_get_secrets call pattern = receive (call pattern)
