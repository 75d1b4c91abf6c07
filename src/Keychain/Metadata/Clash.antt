-- ===== src/Keychain/Metadata/Clash.antt =====
-- A key of the metadata that is another key behind `x_`.
use secrets_engine.Keychain.Metadata.{Attributes, x_prefix, prefix_keys, safely_set_metadata}
use secrets_engine.Keychain.Metadata.Prefixing.{x-ne_self, equal-x}
use secrets_engine.Maps.{empty, put, elem, is_some, IsKeys}
use secrets_engine.Prelude.{
  ◌≡◌, refl, sym, ap, ◌∙◌, false, List, [], ◌∷◌, ◌++◌, some, arith, length,
}
use secrets_engine.Text.{Bytes, equal, equal_iff, equal_refl, equal_ne}

safely_set_metadata-x :
    (service_group service_name : Bytes) (keys : List Bytes) (m : Attributes) (j : Bytes)
    → safely_set_metadata service_group service_name keys m (x_prefix ++ j)
      ≡ prefix_keys keys m (x_prefix ++ j)
unfolding safely_set_metadata equal
safely_set_metadata-x service_group service_name keys m j = refl

-- Metadata with the keys `k` and `x_` followed by `k`.
abbrev pub two_keys : Bytes → Bytes → Bytes → Attributes
two_keys k a b = put k a (put (x_prefix ++ k) b empty)

module _ (k a b : Bytes) where
  k_x : equal k (x_prefix ++ k) ≡ false
  k_x = equal_ne _ _ (λ e. x-ne_self k (sym e))

  x_k : equal (x_prefix ++ k) k ≡ false
  x_k = equal_ne _ _ (x-ne_self k)

  x_xx : equal (x_prefix ++ k) (x_prefix ++ (x_prefix ++ k)) ≡ false
  x_xx = equal-x k (x_prefix ++ k) ∙ k_x

  k_xx : equal k (x_prefix ++ (x_prefix ++ k)) ≡ false
  k_xx = equal_ne _ _ (λ e. omega (arith, ap length e))

  visits_first : (j : Bytes) → elem j (k ∷ (x_prefix ++ k) ∷ []) ≡ is_some (two_keys k a b j)
  visits_first j = ground (
    arith,
    equal_iff j k,
    equal_iff k j,
    equal_iff j (x_prefix ++ k),
    equal_iff (x_prefix ++ k) j,
  )

  visits_last : (j : Bytes) → elem j ((x_prefix ++ k) ∷ k ∷ []) ≡ is_some (two_keys k a b j)
  visits_last j = ground (
    arith,
    equal_iff j k,
    equal_iff k j,
    equal_iff j (x_prefix ++ k),
    equal_iff (x_prefix ++ k) j,
  )

  -- For metadata with the two keys `k` and `x_k`, a map iteration may visit them in either order. If it
  -- visits `x_k` first, its value `b` is stored under `x_x_k`; if it visits `k` first, the value `a` of
  -- the other key is stored there instead.
  pub safely_set_metadata_clash :
      (service_group service_name : Bytes)
      → IsKeys (two_keys k a b) ((x_prefix ++ k) ∷ k ∷ [])
        × IsKeys (two_keys k a b) (k ∷ (x_prefix ++ k) ∷ [])
        × (safely_set_metadata service_group service_name
              ((x_prefix ++ k) ∷ k ∷ [])
              (two_keys k a b)
              (x_prefix ++ (x_prefix ++ k))
            ≡ some b)
        × (safely_set_metadata service_group service_name
              (k ∷ (x_prefix ++ k) ∷ [])
              (two_keys k a b)
              (x_prefix ++ (x_prefix ++ k))
            ≡ some a)
  unfolding prefix_keys
  safely_set_metadata_clash service_group service_name = (
    record { visits = visits_last; once = rw x_k },
    record { visits = visits_first; once = rw k_x },
    safely_set_metadata-x service_group service_name _ _ (x_prefix ++ k)
        ∙ ground (
          arith,
          k_x,
          x_k,
          x_xx,
          k_xx,
          equal_refl k,
          equal_refl (x_prefix ++ k),
          equal_refl (x_prefix ++ (x_prefix ++ k)),
        ),
    safely_set_metadata-x service_group service_name _ _ (x_prefix ++ k)
        ∙ ground (
          arith,
          k_x,
          x_k,
          x_xx,
          k_xx,
          equal_refl k,
          equal_refl (x_prefix ++ k),
          equal_refl (x_prefix ++ (x_prefix ++ k)),
        ),
  )
