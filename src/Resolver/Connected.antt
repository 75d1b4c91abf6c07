-- ===== src/Resolver/Connected.antt =====
-- x/api/resolver/resolver.go: a client whose calls reach the service.
use secrets_engine.Prelude.{◌≡◌, refl, ap, List, [], ◌∷◌, map, All, Result, ok, err}
use secrets_engine.Resolver.{
  Envelope, Resolver, ResolverError, secret_not_found, resolver_failure, code_internal, ClientError,
  not_found, service_error, Timestamps, to_message, service_get_secrets, receive_loop,
  client_get_secrets, respond, receive,
}
use secrets_engine.Secrets.Identifier.{SecretId, parse_id}
use secrets_engine.Secrets.Pattern.{SecretPattern, parse_pattern}
use secrets_engine.Text.{Bytes}

-- What a resolver's result is for a client: no secrets at all count as an error.
abbrev pub seen :
    {T : Type 0}
    → Bytes
    → Result ResolverError (List (Envelope SecretId T))
    → Result ClientError (List (Envelope SecretId T))
seen pattern (err secret_not_found) = err not_found
seen pattern (err (resolver_failure e)) = err (service_error (code_internal pattern))
seen pattern (ok []) = err not_found
seen pattern (ok (e ∷ envelopes)) = ok (e ∷ envelopes)

-- The identifiers of a result are valid.
abbrev pub ValidIds : {T : Type 0} → Result ResolverError (List (Envelope SecretId T)) → Type 0
ValidIds (err e) = Unit
ValidIds (ok envelopes) = All (λ e. parse_id e.id ≡ ok e.id) envelopes

module _ {T W : Type 0} (times : Timestamps T W)
    (exact : (t : T) → times.as_time (times.stamp t) ≡ t) where
  receive_loop-map :
      (envelopes : List (Envelope SecretId T))
      → All (λ e. parse_id e.id ≡ ok e.id) envelopes
      → receive_loop times (map (to_message times) envelopes) ≡ envelopes
  unfolding receive_loop
  receive_loop-map [] h = refl
  receive_loop-map (e ∷ envelopes) h = rw (
    h.0,
    exact e.created_at,
    exact e.resolved_at,
    exact e.expires_at,
    receive_loop-map envelopes h.1,
  )

  receive-respond :
      (pattern : Bytes) (r : Result ResolverError (List (Envelope SecretId T)))
      → ValidIds r
      → receive times (respond times pattern r) ≡ seen pattern r
  receive-respond pattern (err secret_not_found) h = refl
  receive-respond pattern (err (resolver_failure e)) h = refl
  receive-respond pattern (ok []) h = refl
  receive-respond pattern (ok (e ∷ envelopes)) h = ap ok (receive_loop-map (e ∷ envelopes) h)

  -- If timestamps keep times exactly, the resolver's identifiers are valid and the pattern parses, then
  -- a client whose calls reach the service gets what the resolver returns, with these changes: no
  -- secrets at all become the error for a missing one, and a failure becomes an internal error that
  -- names the pattern.
  pub client-service :
      (resolver : Resolver T) (pattern : SecretPattern)
      → parse_pattern pattern ≡ ok pattern
      → ValidIds (resolver pattern)
      → client_get_secrets times (service_get_secrets times resolver) pattern
        ≡ seen pattern (resolver pattern)
  unfolding client_get_secrets service_get_secrets
  client-service resolver pattern p h = rw p (receive-respond pattern (resolver pattern) h)
