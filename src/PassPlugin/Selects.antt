-- ===== src/PassPlugin/Selects.antt =====
-- plugins/pass/plugin.go: which secrets `GetSecrets` serves.
use secrets_engine.Maps.{Map, empty, elem, distinct, distinct_head, distinct_tail, is_some, IsKeys}
use secrets_engine.PassPlugin.{
  StoredSecret, PassError, not_found, pass_envelope, selected, select_loop, found, get_secrets,
}
use secrets_engine.Prelude.{
  ◌≡◌, ◌≢◌, refl, sym, ap, true, Result, ok, err, ◌∙◌, ◌⊎◌, inl, inr, not, ◌&&◌, List, [], ◌∷◌,
  Option, none, some, arith, if◌then◌else◌, Option-cases, Bool-cases,
}
use secrets_engine.Realms.{secrets_engine_realm}
use secrets_engine.Resolver.{Envelope}
use secrets_engine.Secrets.Identifier.{SecretId}
use secrets_engine.Secrets.Match.{matches_id}
use secrets_engine.Secrets.Pattern.{SecretPattern}
use secrets_engine.Store.{StoreOps}
use secrets_engine.Store.Contract.{Implements}
use secrets_engine.Text.{Bytes, codes, equal, equal_refl, equal_ne, Bytes-cases}

module _ {T : Type 0} where
  -- All envelopes of a list with the identifier.
  abbrev pub envelopes_of : SecretId → List (Envelope SecretId T) → List (Envelope SecretId T)
  envelopes_of j [] = []
  envelopes_of j (e ∷ envelopes) =
      let rest = envelopes_of j envelopes in if equal j e.id then e ∷ rest else rest

  abbrev pub at_most_one : Option (Envelope SecretId T) → List (Envelope SecretId T)
  at_most_one none = []
  at_most_one (some e) = e ∷ []

module _ {T : Type 0} (zero_time : T) where
  abbrev pub offered : SecretId → Option StoredSecret → Option (Envelope SecretId T)
  offered j none = none
  offered j (some none) = none
  offered j (some (some v)) = some (record {
    id = j;
    value = v.value;
    metadata = empty;
    provider = [];
    version = codes "0.0.1";
    created_at = zero_time;
    resolved_at = zero_time;
    expires_at = zero_time;
  })

  -- The result with these envelopes: an error if there are none.
  abbrev pub Answers :
      {E : Type 0}
      → List (Envelope SecretId T)
      → Result (PassError E) (List (Envelope SecretId T))
      → Type 0
  Answers envelopes r =
      ((envelopes ≡ []) × (r ≡ err not_found)) ⊎ ((envelopes ≢ []) × (r ≡ ok envelopes))

  -- What is served of the contents of a store at an identifier.
  abbrev pub served : SecretPattern → Map StoredSecret → SecretId → Option (Envelope SecretId T)
  served pattern contents j =
      if matches_id pattern j && not (matches_id secrets_engine_realm j)
      then offered j (contents j)
      else none

  selected_id :
      (k : SecretId) (o : Option StoredSecret)
      → (selected zero_time k o ≡ none)
        ⊎ ((e : Envelope SecretId T) × (selected zero_time k o ≡ some e) × (e.id ≡ k))
  selected_id k none = inl refl
  selected_id k (some none) = inl (ground arith)
  selected_id k (some (some impl)) = elim (Bool-cases (matches_id secrets_engine_realm k)) [
    | inl t ↦ inl (rw t refl)
    | inr f ↦ inr (pass_envelope zero_time k impl, rw f refl, refl)
  ]

  envelopes_of-select_loop :
      (keys : List Bytes) (list : Map StoredSecret) (j : SecretId)
      → distinct keys ≡ true
      → envelopes_of j (select_loop zero_time keys list)
        ≡ at_most_one (if elem j keys then selected zero_time j (list j) else none)
  unfolding select_loop
  envelopes_of-select_loop [] list j d = refl
  envelopes_of-select_loop (k ∷ keys) list j d =
      let ih = envelopes_of-select_loop keys list j (distinct_tail k keys d) in
      elim (Bytes-cases j k) [
        | inl z ↦
            let rest = rw (z, distinct_head k keys d) at ih in
            elim (selected_id k (list k)) [
              | inl e ↦ rw (z, e, equal_refl k) rest
              | inr (x, e, i) ↦
                  let same : equal k x.id ≡ true = rw i (equal_refl k) in
                  rw (z, e, same, equal_refl k) (ap (◌∷◌ x) rest)
            ]
        | inr n ↦ elim (selected_id k (list k)) [
          | inl e ↦ rw (e, equal_ne j k n) ih
          | inr (x, e, i) ↦ rw (e, i, equal_ne j k n) ih
        ]
      ]

  found-Answers :
      {E : Type 0} (envelopes : List (Envelope SecretId T))
      → Answers {E = E} envelopes (found zero_time envelopes)
  found-Answers [] = inl (refl, refl)
  found-Answers (e ∷ envelopes) = inr (λ h. cc, refl)

  served_lem :
      (pattern : SecretPattern) (contents list : Map StoredSecret) (keys : List Bytes)
      (j : SecretId)
      → list j ≡ (if matches_id pattern j then contents j else none)
      → elem j keys ≡ is_some (list j)
      → (if elem j keys then selected zero_time j (list j) else none) ≡ served pattern contents j
  served_lem pattern contents list keys j e v = elim (Option-cases (contents j)) [
    | inl z ↦ rw (v, e, z) (ground arith)
    | inr (x, z) ↦ rw (v, e, z) (ground arith)
  ]

  -- Over a store that behaves as a map and fails no operation: `get_secrets` returns, for each
  -- identifier that the pattern matches and the realm `docker/secrets-engine/**` does not, one envelope
  -- with the secret stored there, if it is a pass value; it returns nothing else, and the error for a
  -- missing secret if that is nothing at all. It leaves the contents of the store alone. This holds
  -- whatever the orders of the two loops.
  pub get_secrets_lem :
      {E S : Type 0} (kc : StoreOps E S StoredSecret) (view : S → Map StoredSecret)
      (IsHealthy : S → Type 0) (missing : E)
      → Implements kc view IsHealthy missing
      → (stored_keys keys : List Bytes) (pattern : SecretPattern) (s : S) → IsHealthy s
      → IsKeys (view s) stored_keys
      → IsKeys (λ j. if matches_id pattern j then view s j else none) keys
      → (envelopes : List (Envelope SecretId T)) × Answers envelopes
          (get_secrets zero_time kc stored_keys keys pattern s).0
        × ((j : SecretId) → envelopes_of j envelopes ≡ at_most_one (served pattern (view s) j))
        × ((j : Bytes) → view (get_secrets zero_time kc stored_keys keys pattern s).1 j ≡ view s j)
  unfolding get_secrets
  get_secrets_lem kc view IsHealthy missing store stored_keys keys pattern s h v w =
      let (m, e, at_key) = store.filter_view stored_keys pattern s h v in
      (
        select_loop zero_time keys m,
        rw e (found-Answers (select_loop zero_time keys m)),
        λ j.
            envelopes_of-select_loop keys m j w.once
            ∙ ap at_most_one (
                served_lem pattern (view s) m keys j (at_key j)
                  (w.visits j ∙ rw (sym (at_key j)) refl)),
        store.filter_keeps stored_keys pattern s,
      )
