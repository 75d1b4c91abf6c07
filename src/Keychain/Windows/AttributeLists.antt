-- ===== src/Keychain/Windows/AttributeLists.antt =====
-- store/keychain/keychain_windows.go: the attributes of a credential as a map and as a list.
use secrets_engine.Keychain.Metadata.{Attributes}
use secrets_engine.Keychain.Windows.{
  map_to_windows_attributes, map_from_windows_attributes, from_loop,
}
use secrets_engine.Maps.{empty, put, elem, is_some, IsKeys}
use secrets_engine.Prelude.{
  ◌≡◌, refl, sym, ◌∙◌, ◌&&◌, List, [], ◌∷◌, arith, if◌then◌else◌, inl, inr, Option-cases,
}
use secrets_engine.Text.{Bytes, equal_refl, equal_ne, Bytes-cases}

from_loop_at :
    (keys : List Bytes) (m acc : Attributes) (j : Bytes)
    → from_loop (map_to_windows_attributes keys m) acc j
      ≡ (if elem j keys && is_some (m j) then m j else acc j)
unfolding from_loop map_to_windows_attributes
from_loop_at [] m acc j = refl
from_loop_at (k ∷ keys) m acc j = elim (Option-cases (m k)) [
  | inl z ↦
      rw (map_to_windows_attributes, z)
        (from_loop_at keys m acc j ∙ elim (Bytes-cases j k) [
          | inl e ↦ rw (e, z) (ground arith)
          | inr n ↦ rw (equal_ne j k n)
        ])
  | inr (v, z) ↦
      rw (map_to_windows_attributes, z)
        (from_loop_at keys m (put k v acc) j ∙ elim (Bytes-cases j k) [
          | inl e ↦ rw (e, z, equal_refl k) (ground arith)
          | inr n ↦ rw (equal_ne j k n, equal_ne k j (λ w. n (sym w)))
        ])
]

-- The list made from a map, in whatever order, gives the map back.
pub map_from-map_to :
    (keys : List Bytes) (m : Attributes)
    → IsKeys m keys
    → (j : Bytes) → map_from_windows_attributes (map_to_windows_attributes keys m) j ≡ m j
unfolding map_from_windows_attributes
map_from-map_to keys m v j = from_loop_at keys m empty j ∙ elim (Option-cases (m j)) [
  | inl z ↦ rw (v.visits j, z) (ground arith)
  | inr (x, z) ↦ rw (v.visits j, z) (ground arith)
]
