-- ===== src/CredentialHelper/Answers.antt =====
-- plugins/credentialhelper/store.go: which secrets `GetSecrets` returns.
use secrets_engine.CredentialHelper.{
  Credentials, Helper, HelperError, not_found, list_error, identify, add_credential, add_matched,
  parsed_id, rewritten, default_key_rewriter, helper_envelope, credentials_loop, some_found,
  from_list, get_helper_secrets,
}
use secrets_engine.Prelude.{
  ℕ, ◌≡◌, ◌≢◌, refl, sym, ◌⊎◌, inl, inr, Bool, true, List, [], ◌∷◌, Option, none, some, Result, ok,
  err, Bool-cases,
}
use secrets_engine.Resolver.{Envelope}
use secrets_engine.Secrets.Identifier.{SecretId, ErrInvalidId, parse_id}
use secrets_engine.Secrets.Match.{matches_id}
use secrets_engine.Secrets.Pattern.{SecretPattern}
use secrets_engine.Text.{Bytes, codes, equal, equal_ne}

-- The credential of the server URL and the user has the identifier: by the rewriter that was given, or as what
-- `default_key_rewriter` makes of the URL.
abbrev pub IsNamed :
    (Bytes → Bool) → Option (Bytes → Bytes → Option SecretId) → Bytes × Bytes → SecretId → Type 0
IsNamed has_port none c p = parse_id (default_key_rewriter has_port c.0) ≡ ok p
IsNamed has_port (some rewriter) c p = rewriter c.0 c.1 ≡ some p

-- The envelope of a credential, field by field.
pub record IsEnvelope {T : Type 0} (zero_time resolved_at : T) (p : SecretId) (cred : Credentials)
    (e : Envelope SecretId T) : Type 0 where
  pub has_id : e.id ≡ p
  pub has_value : e.value ≡ cred.secret
  pub has_user : e.metadata (codes "Username") ≡ some cred.username
  pub has_url : e.metadata (codes "ServerURL") ≡ some cred.server_url
  pub has_no_more : (j : Bytes) → j ≢ codes "Username" → j ≢ codes "ServerURL" → e.metadata j ≡ none
  pub has_provider : e.provider ≡ codes "docker-credential-helper"
  pub has_version : e.version ≡ codes "0.0.1"
  pub has_times :
      (e.resolved_at ≡ resolved_at) × (e.created_at ≡ zero_time) × (e.expires_at ≡ zero_time)

module _ {T : Type 0} (zero_time : T) (h : Helper) (resolved_at : T) (pattern : SecretPattern) where
  -- The credential is to be served: it has an identifier, the pattern matches that, and the helper gives the
  -- secret.
  abbrev pub IsServed : Bytes × Bytes → SecretId → Credentials → Type 0
  IsServed c p cred =
      IsNamed h.has_port h.rewriter c p × (matches_id pattern p ≡ true) × (h.get c.0 ≡ ok cred)

  -- The envelopes are those of the credentials that are to be served, one for each and in their order.
  pub data Serves : List (Bytes × Bytes) → List (Envelope SecretId T) → Type 0 where
    served_all : Serves [] []
    not_served :
        {c : Bytes × Bytes} {cs : List (Bytes × Bytes)} {es : List (Envelope SecretId T)}
        → ((p : SecretId) (cred : Credentials) → IsServed c p cred → ⊥)
        → Serves cs es
        → Serves (c ∷ cs) es
    served :
        {c : Bytes × Bytes} {p : SecretId} {cred : Credentials} {e : Envelope SecretId T}
        {cs : List (Bytes × Bytes)} {es : List (Envelope SecretId T)}
        → IsServed c p cred
        → IsEnvelope zero_time resolved_at p cred e
        → Serves cs es
        → Serves (c ∷ cs) (e ∷ es)

  parsed_id-IsNamed :
      (r : Result ErrInvalidId SecretId) (p : SecretId) → parsed_id r ≡ some p → r ≡ ok p
  parsed_id-IsNamed (err x) p e = cc
  parsed_id-IsNamed (ok i) p e = cc

  rewritten-IsNamed :
      (f : Option (Bytes → Bytes → Option SecretId)) (c : Bytes × Bytes) (p : SecretId)
      → rewritten h.has_port f c ≡ some p
      → IsNamed h.has_port f c p
  rewritten-IsNamed none c p e = parsed_id-IsNamed _ p e
  rewritten-IsNamed (some rewriter) c p e = e

  IsNamed-rewritten :
      (f : Option (Bytes → Bytes → Option SecretId)) (c : Bytes × Bytes) (p : SecretId)
      → IsNamed h.has_port f c p
      → rewritten h.has_port f c ≡ some p
  IsNamed-rewritten none c p e = rw e refl
  IsNamed-rewritten (some rewriter) c p e = e

  helper_envelope-IsEnvelope :
      (p : SecretId) (cred : Credentials)
      → IsEnvelope zero_time resolved_at p cred (helper_envelope zero_time h resolved_at p cred)
  unfolding equal
  helper_envelope-IsEnvelope p cred = record {
    has_id = refl;
    has_value = refl;
    has_user = refl;
    has_url = refl;
    has_no_more = λ j u v.
        rw
          (
            equal_ne (codes "Username") j (λ e. u (sym e)),
            equal_ne (codes "ServerURL") j (λ e. v (sym e)),
          )
          refl;
    has_provider = refl;
    has_version = refl;
    has_times = (refl, refl, refl);
  }

  -- What the loop adds for one credential.
  add_matched-Serves :
      (c : Bytes × Bytes) (cs : List (Bytes × Bytes)) (es : List (Envelope SecretId T))
      (o : Option SecretId)
      → identify zero_time h resolved_at c ≡ o
      → Serves cs es
      → Serves (c ∷ cs) (add_matched zero_time h resolved_at pattern c o es)
  add_matched-Serves c cs es none e a =
      not_served (λ p cred s. cc (e, IsNamed-rewritten h.rewriter c p s.0)) a
  add_matched-Serves c cs es (some p) e a = elim (Bool-cases (matches_id pattern p)) [
    | inl m ↦ rw m (added (h.get c.0) refl m)
    | inr m ↦ rw m (not_served (λ q cred s. cc (e, m, IsNamed-rewritten h.rewriter c q s.0, s.1)) a)
  ]
    where
      added :
          (r : Result ℕ Credentials)
          → h.get c.0 ≡ r
          → matches_id pattern p ≡ true
          → Serves (c ∷ cs) (add_credential zero_time h resolved_at p r es)
      added (err k) g m = not_served (λ q cred s. cc (g, s.2)) a
      added (ok cred) g m =
          served (rewritten-IsNamed h.rewriter c p e, m, g) (helper_envelope-IsEnvelope p cred) a

  credentials_loop-Serves :
      (cs : List (Bytes × Bytes)) → Serves cs (credentials_loop zero_time h resolved_at pattern cs)
  unfolding credentials_loop
  credentials_loop-Serves [] = served_all
  credentials_loop-Serves (c ∷ cs) =
      add_matched-Serves c cs _ (identify zero_time h resolved_at c) refl
        (credentials_loop-Serves cs)

module _ {T : Type 0} where
  -- The result with these envelopes: an error if there are none.
  abbrev pub Answers :
      List (Envelope SecretId T) → Result HelperError (List (Envelope SecretId T)) → Type 0
  Answers es r = ((es ≡ []) × (r ≡ err not_found)) ⊎ ((es ≢ []) × (r ≡ ok es))

  some_found-Answers :
      (zero_time : T) (h : Helper) (resolved_at : T) (es : List (Envelope SecretId T))
      → Answers es (some_found zero_time h resolved_at es)
  some_found-Answers zero_time h resolved_at [] = inl (refl, refl)
  some_found-Answers zero_time h resolved_at (e ∷ es) = inr (λ n. cc, refl)

module _ {T : Type 0} (zero_time : T) (h : Helper) (resolved_at : T) (pattern : SecretPattern) where
  -- The result when the helper gives this for its list.
  abbrev pub IsOutcome :
      Result ℕ (List (Bytes × Bytes)) → Result HelperError (List (Envelope SecretId T)) → Type 0
  IsOutcome (err e) r = r ≡ err (list_error e)
  IsOutcome (ok cs) r =
      (es : List (Envelope SecretId T)) × Serves zero_time h resolved_at pattern cs es
      × Answers es r

  from_list-IsOutcome :
      (listing : Result ℕ (List (Bytes × Bytes)))
      → IsOutcome listing (from_list zero_time h resolved_at pattern listing)
  from_list-IsOutcome (err e) = refl
  from_list-IsOutcome (ok cs) = (
    credentials_loop zero_time h resolved_at pattern cs,
    credentials_loop-Serves zero_time h resolved_at pattern cs,
    some_found-Answers zero_time h resolved_at _,
  )

-- If the helper lists its credentials, `get_helper_secrets` returns one envelope, field by field that of the
-- credential, for each credential that has an identifier, is matched by the pattern and has a secret that the
-- helper gives, in the order of the list; the other credentials have no effect. If there is no envelope, it
-- returns the error for a missing secret, and if the helper does not list, that error.
pub get_helper_secrets_lem :
    {T : Type 0} (zero_time : T) (h : Helper) (resolved_at : T) (pattern : SecretPattern)
    → IsOutcome zero_time h resolved_at pattern h.list
        (get_helper_secrets zero_time h resolved_at pattern)
unfolding get_helper_secrets
get_helper_secrets_lem zero_time h resolved_at pattern =
    from_list-IsOutcome zero_time h resolved_at pattern h.list
