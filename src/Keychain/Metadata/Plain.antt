-- ===== src/Keychain/Metadata/Plain.antt =====
-- The loop of `safelyCleanMetadata` drops a key without the prefix and does nothing else with it.
use mathlib.Core.Path.{fun_ext}
use secrets_engine.Keychain.Metadata.{Attributes, x_prefix, strip_key, strip_keys}
use secrets_engine.Maps.{remove, elem, distinct, distinct_head, distinct_tail}
use secrets_engine.Prelude.{
  ◌≡◌, refl, sym, ap, ◌∙◌, ◌≢◌, inl, inr, true, false, List, [], ◌∷◌, ◌++◌, none, arith,
  if◌then◌else◌, Option-cases,
}
use secrets_engine.Text.{
  Bytes, equal, equal_iff, equal_refl, equal_ne, Bytes-cases, cut_prefix, cut_prefix_sound,
}

-- The list without the first occurrence of a key.
abbrev pub without : Bytes → List Bytes → List Bytes
without p [] = []
without p (k ∷ ks) = if equal p k then ks else k ∷ without p ks

module _ (p : Bytes) where
  remove-strip_key :
      (key : Bytes) (m : Attributes)
      → key ≢ p
      → key ≢ x_prefix ++ p
      → remove p (strip_key key (cut_prefix x_prefix key) m)
        ≡ strip_key key (cut_prefix x_prefix key) (remove p m)
  remove-strip_key key m n nx = fun_ext (λ j. elim (Option-cases (cut_prefix x_prefix key)) [
    | inl z ↦ rw z (ground arith)
    | inr (a, z) ↦
        let ap_ne =
          equal_ne a p
            (λ e. nx (cut_prefix_sound x_prefix key a z ∙ ap (λ (t : Bytes). x_prefix ++ t) e)) in
        rw (z, equal_ne p key (λ e. n (sym e)))
          (elim (Bytes-cases j p) [
            | inl e ↦ rw (e, equal_refl p, ap_ne, equal_ne key p n)
            | inr ne ↦ rw (equal_ne p j (λ e. ne (sym e)))
          ])
  ])

  -- The loop with a plain key among its keys, as the loop without it.
  pub strip_keys_plain :
      (ks : List Bytes) (m : Attributes)
      → cut_prefix x_prefix p ≡ none
      → elem p ks ≡ true
      → elem (x_prefix ++ p) ks ≡ false
      → strip_keys ks m ≡ strip_keys (without p ks) (remove p m)
  unfolding strip_keys
  strip_keys_plain [] m c t f = cc
  strip_keys_plain (k ∷ ks) m c t f = elim (Bytes-cases k p) [
    | inl e ↦ rw (e, c, equal_refl p)
    | inr n ↦
        let nx : k ≢ x_prefix ++ p = λ e. ground (arith, equal_iff (x_prefix ++ p) k) in
        let pk = equal_ne p k (λ e. n (sym e)) in
        strip_keys_plain ks (strip_key k (cut_prefix x_prefix k) m) c (rw pk at t) (ground arith)
        ∙ rw (pk, remove-strip_key k m n nx)
  ]

  pub elem-without :
      (ks : List Bytes) (j : Bytes)
      → distinct ks ≡ true
      → elem j (without p ks) ≡ (if equal p j then false else elem j ks)
  elem-without [] j d = ground arith
  elem-without (k ∷ ks) j d = elim (Bytes-cases p k) [
    | inl e ↦
        rw (e, equal_refl k)
          (elim (Bytes-cases j k) [
            | inl z ↦ rw (z, equal_refl k) (distinct_head k ks d)
            | inr n ↦ rw (equal_ne j k n, equal_ne k j (λ z. n (sym z)))
          ])
    | inr n ↦
        rw (equal_ne p k n, elem-without ks j (distinct_tail k ks d))
          (elim (Bytes-cases j k) [
            | inl z ↦ rw (z, equal_refl k, equal_ne p k n)
            | inr w ↦ rw (equal_ne j k w)
          ])
  ]

  pub distinct-without : (ks : List Bytes) → distinct ks ≡ true → distinct (without p ks) ≡ true
  distinct-without [] d = refl
  distinct-without (k ∷ ks) d = elim (Bytes-cases p k) [
    | inl e ↦ rw (e, equal_refl k) (distinct_tail k ks d)
    | inr n ↦
        rw
          (
            equal_ne p k n,
            elem-without ks k (distinct_tail k ks d),
            distinct_head k ks d,
            distinct-without ks (distinct_tail k ks d),
          )
          (ground arith)
  ]
