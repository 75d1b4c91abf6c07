-- ===== src/Keychain/Metadata/Stripping.antt =====
-- What the loop of `safelyCleanMetadata` leaves at each key, whatever the order of the keys.
use secrets_engine.Keychain.Metadata.Prefixing.{x-ne_self, x_inj}
use secrets_engine.Keychain.Metadata.{Attributes, x_prefix, value_of, strip_keys}
use secrets_engine.Maps.{put, remove, elem, distinct, elem-head-ne, distinct_head}
use secrets_engine.Prelude.{
  ◌≡◌, refl, sym, ◌∙◌, ◌≢◌, ◌||◌, inl, inr, true, false, List, [], ◌∷◌, ◌++◌, none, some, arith,
  if◌then◌else◌, Bool-cases, All,
}
use secrets_engine.Text.{
  Bytes, equal, equal_iff, equal_refl, equal_ne, Bytes-cases, cut_prefix-append,
}

-- Each key has the prefix, and what follows the prefix is none of the keys.
abbrev pub Prefixed : List Bytes → List Bytes → Type 0
Prefixed all_keys = All (λ k. (a : Bytes) × (k ≡ x_prefix ++ a) × (elem a all_keys ≡ false))

Prefixed-tail :
    (k : Bytes) (all_keys ks : List Bytes) → Prefixed (k ∷ all_keys) ks → Prefixed all_keys ks
Prefixed-tail k all_keys [] h = tt
Prefixed-tail k all_keys (j ∷ ks) h =
    ((h.0.0, h.0.1, ground arith), Prefixed-tail k all_keys ks h.1)

-- the attributes after one round of the loop, at the key `x_` and `a`
abbrev stripped : Bytes → Attributes → Attributes
stripped a m = remove (x_prefix ++ a) (put a (value_of (m (x_prefix ++ a))) m)

strip_round :
    (a j : Bytes) (ks : List Bytes) (m : Attributes)
    → elem (x_prefix ++ a) ks ≡ false
    → elem a ks ≡ false
    → j ≢ x_prefix ++ a
    → (if elem (x_prefix ++ j) ks
        then some (value_of (stripped a m (x_prefix ++ j)))
        else stripped a m j)
      ≡ (if equal (x_prefix ++ j) (x_prefix ++ a) || elem (x_prefix ++ j) ks
          then some (value_of (m (x_prefix ++ j)))
          else m j)
strip_round a j ks m d u n = elim (Bytes-cases j a) [
  | inl e ↦
      rw (e, d, equal_refl (x_prefix ++ a), equal_refl a, equal_ne (x_prefix ++ a) a (x-ne_self a))
  | inr ne ↦
      let jx = equal_ne (x_prefix ++ j) (x_prefix ++ a) (λ z. ne (x_inj j a z)) in
      let xj = equal_ne (x_prefix ++ a) (x_prefix ++ j) (λ z. ne (sym (x_inj a j z))) in
      elim (Bool-cases (elem (x_prefix ++ j) ks)) [
        | inl t ↦ rw (t, jx, xj, equal_ne a (x_prefix ++ j) (elem-head-ne a (x_prefix ++ j) ks u t))
        | inr f ↦
            rw (f, jx, equal_ne (x_prefix ++ a) j (λ z. n (sym z)), equal_ne a j (λ z. ne (sym z)))
      ]
]

-- The loop of `safelyCleanMetadata` over prefixed keys, at a key that is not collected: it holds the
-- value of its prefixed key, if that was collected.
pub strip_keys-x :
    (ks : List Bytes) (m : Attributes) (j : Bytes)
    → distinct ks ≡ true
    → Prefixed ks ks
    → elem j ks ≡ false
    → strip_keys ks m j
      ≡ (if elem (x_prefix ++ j) ks then some (value_of (m (x_prefix ++ j))) else m j)
unfolding strip_keys
strip_keys-x [] m j d s n = refl
strip_keys-x (k ∷ ks) m j d ((a, e, u), s) n =
    let ih =
      strip_keys-x ks (stripped a m) j (ground arith) (Prefixed-tail k ks ks s) (ground arith) in
    let fresh : elem (x_prefix ++ a) ks ≡ false = rw e at (distinct_head k ks d) in
    rw (e, cut_prefix-append x_prefix a)
      (ih ∙ strip_round a j ks m fresh (ground arith) (λ z. ground (arith, equal_iff j k)))

Prefixed-elem :
    (all_keys ks : List Bytes) (j : Bytes)
    → Prefixed all_keys ks
    → elem (x_prefix ++ j) ks ≡ true
    → elem j all_keys ≡ false
Prefixed-elem all_keys [] j s t = cc
Prefixed-elem all_keys (k ∷ ks) j s t = elim (Bytes-cases (x_prefix ++ j) k) [
  | inl e ↦ rw (x_inj j s.0.0 (e ∙ s.0.1)) s.0.2
  | inr n ↦ Prefixed-elem all_keys ks j s.1 (rw (equal_ne (x_prefix ++ j) k n) at t)
]

-- A collected key is gone after the loop.
pub strip_keys_collected :
    (ks : List Bytes) (m : Attributes) (j : Bytes)
    → distinct ks ≡ true
    → Prefixed ks ks
    → elem j ks ≡ true
    → strip_keys ks m j ≡ none
unfolding strip_keys
strip_keys_collected [] m j d s t = cc
strip_keys_collected (k ∷ ks) m j d ((a, e, u), s) t =
    rw (e, cut_prefix-append x_prefix a)
      (elim (Bool-cases (elem j ks)) [
        | inl later ↦
            strip_keys_collected ks (stripped a m) j (ground arith) (Prefixed-tail k ks ks s) later
        | inr gone ↦
            let now : j ≡ x_prefix ++ a = ground (arith, equal_iff j k) in
            let none_left : elem (x_prefix ++ j) ks ≡ false =
              elim (Bool-cases (elem (x_prefix ++ j) ks)) [
                | inl z ↦ cc (Prefixed-elem (k ∷ ks) ks j s z)
                | inr z ↦ z
              ] in
            strip_keys-x ks (stripped a m) j (ground arith) (Prefixed-tail k ks ks s) gone
            ∙ rw none_left (rw (now, equal_refl (x_prefix ++ a)))
      ])
