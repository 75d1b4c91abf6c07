-- ===== src/Keychain/Metadata/RoundTrip.antt =====
-- The caller's metadata comes back from the attributes.
use secrets_engine.Keychain.Metadata.{
  Attributes, x_prefix, value_of, secret_id_key, prefix_keys, safely_set_metadata, safely_set_id,
  safely_clean_metadata, drop_internal,
}
use secrets_engine.Keychain.Metadata.Prefixing.{
  x_inj, Separate, prefix_keys-x, prefix_keys_absent, prefix_keys_collected,
}
use secrets_engine.Keychain.Metadata.Stripping.{Prefixed, strip_keys-x, strip_keys_collected}
use secrets_engine.Maps.{put, elem, is_some, IsKeys, is_some-false}
use secrets_engine.Prelude.{
  ◌≡◌, refl, sym, ap, ◌∙◌, ◌≢◌, ◌⊎◌, inl, inr, true, false, List, [], ◌∷◌, ◌++◌, Option, none, some,
  arith, Bool-cases, Option-cases,
}
use secrets_engine.Secrets.Identifier.{SecretId}
use secrets_engine.Text.{Bytes, equal, equal_refl, cut_prefix, cut_prefix-append, cut_prefix_sound}

-- No key of the metadata is another key of it behind the prefix `x_`.
abbrev pub NoClash : Attributes → Type 0
NoClash m = (k : Bytes) → is_some (m k) ≡ true → is_some (m (x_prefix ++ k)) ≡ false

Separate-keys :
    (m : Attributes) (all_keys ks : List Bytes)
    → ((k : Bytes) → elem k all_keys ≡ is_some (m k))
    → ((k : Bytes) → elem k ks ≡ true → elem k all_keys ≡ true)
    → NoClash m
    → Separate all_keys ks
Separate-keys m all_keys [] v sub n = tt
Separate-keys m all_keys (k ∷ ks) v sub n = (
  v (x_prefix ++ k) ∙ n k (sym (v k) ∙ sub k (rw (equal_refl k))),
  Separate-keys m all_keys ks v (λ j t. sub j (ground arith)) n,
)

some-value_of : (o : Option Bytes) → is_some o ≡ true → some (value_of o) ≡ o
some-value_of none h = cc
some-value_of (some v) h = refl

-- A key has the prefix, or is no other key behind it.
x-cases : (k : Bytes) → ((a : Bytes) × (k ≡ x_prefix ++ a)) ⊎ ((a : Bytes) → k ≢ x_prefix ++ a)
x-cases k = elim (Option-cases (cut_prefix x_prefix k)) [
  | inl e ↦ inr (λ a z. cc (ap (cut_prefix x_prefix) z, cut_prefix-append x_prefix a))
  | inr (a, e) ↦ inl (a, cut_prefix_sound x_prefix k a e)
]

missing : (m : Attributes) (j : Bytes) → NoClash m → is_some (m (x_prefix ++ j)) ≡ true → m j ≡ none
missing m j clear t = elim (Option-cases (m j)) [ inl e ↦ e | inr (v, e) ↦ cc (clear j (rw e)) ]

module _ (metadata : Attributes) (keys : List Bytes) (visited : IsKeys metadata keys)
    (clear : NoClash metadata) where
  -- After the prefixing loop the prefixed keys hold the metadata.
  prefixed-x : (j : Bytes) → prefix_keys keys metadata (x_prefix ++ j) ≡ metadata j
  prefixed-x j = elim (Bool-cases (elem (x_prefix ++ j) keys)) [
    | inl t ↦
        let absent : metadata j ≡ none =
          missing metadata j clear (sym (visited.visits (x_prefix ++ j)) ∙ t) in
        prefix_keys_collected keys metadata (x_prefix ++ j) visited.once t
          (λ k z e. cc (visited.visits k, x_inj j k e, absent))
        ∙ sym absent
    | inr f ↦
        prefix_keys-x keys metadata j visited.once
          (Separate-keys metadata keys keys visited.visits (λ k t. t) clear) f
        ∙ elim (Option-cases (metadata j)) [
          | inl e ↦
              rw (visited.visits j, e) (is_some-false _ (sym (visited.visits (x_prefix ++ j)) ∙ f))
          | inr (v, e) ↦ rw (visited.visits j, e)
        ]
  ]

  -- No other key is left.
  prefixed_other :
      (j : Bytes) → ((k : Bytes) → j ≢ x_prefix ++ k) → prefix_keys keys metadata j ≡ none
  prefixed_other j n = elim (Bool-cases (elem j keys)) [
    | inl t ↦ prefix_keys_collected keys metadata j visited.once t (λ k z. n k)
    | inr f ↦
        prefix_keys_absent keys metadata j f (λ k z. n k)
        ∙ is_some-false (metadata j) (sym (visited.visits j) ∙ f)
  ]

module _ (metadata : Attributes) (keys : List Bytes) (visited : IsKeys metadata keys)
    (clear : NoClash metadata) (service_group service_name : Bytes) (i : SecretId) where
  abbrev pub tagged : Attributes
  tagged = safely_set_metadata service_group service_name keys metadata

  -- The attributes that are stored with the item.
  abbrev pub stored : Attributes
  stored = safely_set_id i tagged

  tagged_id : tagged secret_id_key ≡ none
  unfolding safely_set_metadata equal
  tagged_id = prefixed_other metadata keys visited clear secret_id_key (λ k e. ground arith)

  stored_lem : stored ≡ put secret_id_key i tagged
  unfolding safely_set_id
  stored_lem = rw tagged_id

  pub stored-x : (j : Bytes) → drop_internal stored (x_prefix ++ j) ≡ metadata j
  stored-x j =
      rw stored_lem
        (unfold drop_internal safely_set_metadata equal in prefixed-x metadata keys visited clear j)

  pub stored_other : (j : Bytes) → ((k : Bytes) → j ≢ x_prefix ++ k) → drop_internal stored j ≡ none
  unfolding drop_internal safely_set_metadata
  stored_other j n = rw stored_lem (ground (arith, prefixed_other metadata keys visited clear j n))

  stored-some :
      (k : Bytes)
      → is_some (drop_internal stored k) ≡ true
      → (a : Bytes) × (k ≡ x_prefix ++ a) × (is_some (metadata a) ≡ true)
  stored-some k t = elim (x-cases k) [
    | inl (a, e) ↦ (a, e, rw stored-x at (rw e at t))
    | inr n ↦ cc (stored_other k n)
  ]

  stored_plain : (a : Bytes) → is_some (metadata a) ≡ true → drop_internal stored a ≡ none
  stored_plain a t = elim (x-cases a) [
    | inl (b, e) ↦ rw (e, stored-x b) (missing metadata b clear (rw e at t))
    | inr n ↦ stored_other a n
  ]

  module _ (left : List Bytes) (visited_left : IsKeys (drop_internal stored) left) where
    left-Prefixed :
        (ks : List Bytes) → ((k : Bytes) → elem k ks ≡ true → elem k left ≡ true) → Prefixed left ks
    left-Prefixed [] sub = tt
    left-Prefixed (k ∷ ks) sub =
        let (a, e, t) = stored-some k (sym (visited_left.visits k) ∙ sub k (rw (equal_refl k))) in
        (
          (a, e, visited_left.visits a ∙ rw (stored_plain a t)),
          left-Prefixed ks (λ j t. sub j (ground arith)),
        )

    -- If no key of the metadata is another of its keys behind `x_`, then cleaning the stored
    -- attributes gives the metadata back, for every service group, service name and identifier,
    -- and whatever the order in which each of the two loops visits its keys.
    pub safely_clean_metadata-stored :
        (j : Bytes) → safely_clean_metadata left stored j ≡ metadata j
    unfolding safely_clean_metadata
    safely_clean_metadata-stored j = elim (Bool-cases (elem j left)) [
      | inl t ↦
          let (a, e, u) = stored-some j (sym (visited_left.visits j) ∙ t) in
          strip_keys_collected left _ j visited_left.once (left-Prefixed left (λ k z. z)) t
          ∙ sym (rw e (is_some-false _ (clear a u)))
      | inr f ↦
          strip_keys-x left (drop_internal stored) j visited_left.once
            (left-Prefixed left (λ k z. z)) f
          ∙ rw (visited_left.visits (x_prefix ++ j), stored-x j)
              (elim (Option-cases (metadata j)) [
                | inl e ↦ rw e (is_some-false _ (sym (visited_left.visits j) ∙ f))
                | inr (v, e) ↦ rw e
              ])
    ]
