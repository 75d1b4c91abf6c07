-- ===== src/Keychain/Metadata/Prefixing.antt =====
-- What the loop of `safelySetMetadata` leaves at each key, whatever the order of the keys.
use secrets_engine.Keychain.Metadata.{Attributes, x_prefix, value_of, prefix_keys}
use secrets_engine.Maps.{put, remove, elem, distinct, elem-head-ne, distinct_head}
use secrets_engine.Prelude.{
  ◌≡◌, refl, sym, ap, ◌∙◌, ◌≢◌, inl, inr, true, false, List, [], ◌∷◌, ◌++◌, none, some, arith,
  if◌then◌else◌, Bool-cases, length, All, All-map,
}
use secrets_engine.Text.{Bytes, equal, equal_iff, equal_refl, equal_ne, Bytes-cases}

pub x-ne_self : (k : Bytes) → x_prefix ++ k ≢ k
x-ne_self k e = omega (arith, ap length e)

pub x_inj : (j k : Bytes) → x_prefix ++ j ≡ x_prefix ++ k → j ≡ k
x_inj j k e = cc

pub equal-x : (j k : Bytes) → equal (x_prefix ++ j) (x_prefix ++ k) ≡ equal j k
unfolding equal
equal-x j k = refl

-- No key of `ks` is another key of `all_keys` behind the prefix.
abbrev pub Separate : List Bytes → List Bytes → Type 0
Separate all_keys = All (λ k. elem (x_prefix ++ k) all_keys ≡ false)

Separate-tail :
    (k : Bytes) (all_keys ks : List Bytes) → Separate (k ∷ all_keys) ks → Separate all_keys ks
Separate-tail k all_keys =
    All-map _ _ (λ j (h : elem (x_prefix ++ j) (k ∷ all_keys) ≡ false). ground arith)

-- The loop of `safelySetMetadata` at a prefixed key that is not one of the collected keys.
pub prefix_keys-x :
    (ks : List Bytes) (m : Attributes) (j : Bytes)
    → distinct ks ≡ true
    → Separate ks ks
    → elem (x_prefix ++ j) ks ≡ false
    → prefix_keys ks m (x_prefix ++ j)
      ≡ (if elem j ks then some (value_of (m j)) else m (x_prefix ++ j))
unfolding prefix_keys
prefix_keys-x [] m j d s n = refl
prefix_keys-x (k ∷ ks) m j d s n =
    let m' = remove k (put (x_prefix ++ k) (value_of (m k)) m) in
    let ih = prefix_keys-x ks m' j (ground arith) (Separate-tail k ks ks s.1) (ground arith) in
    let apart : elem (x_prefix ++ k) ks ≡ false = ground arith in
    elim (Bytes-cases j k) [
      | inl e ↦
          ih
          ∙ rw (
            e,
            equal_refl k,
            equal_refl (x_prefix ++ k),
            equal_ne k (x_prefix ++ k) (λ z. x-ne_self k (sym z)),
            distinct_head k ks d,
          )
      | inr ne ↦
          let kj = equal_ne k j (λ z. ne (sym z)) in
          let kx = equal_ne k (x_prefix ++ j) (λ z. ground (arith, equal_iff (x_prefix ++ j) k)) in
          let xx : equal (x_prefix ++ k) (x_prefix ++ j) ≡ false = equal-x k j ∙ kj in
          ih ∙ elim (Bool-cases (elem j ks)) [
            | inl t ↦ rw (
              t,
              kj,
              equal_ne (x_prefix ++ k) j (elem-head-ne (x_prefix ++ k) j ks apart t),
              equal_ne j k ne,
            )
            | inr f ↦ rw (f, kx, xx, equal_ne j k ne)
          ]
    ]

-- A key that the loop neither collected nor made is left as it was.
pub prefix_keys_absent :
    (ks : List Bytes) (m : Attributes) (j : Bytes)
    → elem j ks ≡ false
    → ((k : Bytes) → elem k ks ≡ true → j ≢ x_prefix ++ k)
    → prefix_keys ks m j ≡ m j
unfolding prefix_keys
prefix_keys_absent [] m j h n = refl
prefix_keys_absent (k ∷ ks) m j h n =
    prefix_keys_absent ks _ j (ground arith) (λ k' t. n k' (ground arith))
    ∙ rw (
      equal_ne k j (λ e. ground (arith, equal_iff j k)),
      equal_ne (x_prefix ++ k) j (λ e. n k (rw (equal_refl k)) (sym e)),
    )

Separate-elem :
    (all_keys ks : List Bytes) (k : Bytes)
    → Separate all_keys ks
    → elem k ks ≡ true
    → elem (x_prefix ++ k) all_keys ≡ false
Separate-elem all_keys [] k s t = cc
Separate-elem all_keys (j ∷ ks) k s t = elim (Bytes-cases k j) [
  | inl e ↦ rw e s.0
  | inr n ↦ Separate-elem all_keys ks k s.1 (rw (equal_ne k j n) at t)
]

-- A collected key is gone after the loop, unless the loop made it from another collected key.
pub prefix_keys_collected :
    (ks : List Bytes) (m : Attributes) (j : Bytes)
    → distinct ks ≡ true
    → elem j ks ≡ true
    → ((k : Bytes) → elem k ks ≡ true → j ≢ x_prefix ++ k)
    → prefix_keys ks m j ≡ none
unfolding prefix_keys
prefix_keys_collected [] m j d t n = cc
prefix_keys_collected (k ∷ ks) m j d t n = elim (Bool-cases (elem j ks)) [
  | inl later ↦ prefix_keys_collected ks _ j (ground arith) later (λ k' t'. n k' (ground arith))
  | inr gone ↦
      let now : j ≡ k = ground (arith, equal_iff j k) in
      prefix_keys_absent ks _ j gone (λ k' t'. n k' (ground arith)) ∙ rw (now, equal_refl k)
]
