-- ===== src/Tests/Keychain.antt =====
-- Runs and instances for store/keychain.
use secrets_engine.Keychain.Metadata.{
  Attributes, x_prefix, safely_set_metadata, safely_set_id, safely_clean_metadata, drop_internal,
}
use secrets_engine.Keychain.Metadata.Clash.{two_keys, safely_set_metadata_clash}
use secrets_engine.Keychain.Metadata.RoundTrip.{NoClash, safely_clean_metadata-stored}
use secrets_engine.Maps.{empty, put, remove, IsKeys}
use secrets_engine.Prelude.{◌≡◌, refl, [], ◌∷◌, ◌++◌, none, some, arith}
use secrets_engine.Text.{Bytes, codes, equal, equal_iff}

abbrev pub color : Bytes
color = codes "color"

abbrev pub metadata : Attributes
metadata = put color (codes "red") empty

abbrev pub group : Bytes
group = codes "com.docker"

abbrev pub service : Bytes
service = codes "pass"

abbrev pub item : Attributes
item = safely_set_id (codes "db/main") (safely_set_metadata group service (color ∷ []) metadata)

item_attributes :
    (item (codes "x_color") ≡ some (codes "red"))
    × (item color ≡ none)
    × (item (codes "service:group") ≡ some group)
    × (item (codes "id") ≡ some (codes "db/main"))
unfolding safely_set_id safely_set_metadata equal
item_attributes = (refl, refl, refl, refl)

pub metadata-IsKeys : IsKeys metadata (color ∷ [])
metadata-IsKeys = record {
  visits = λ j. ground (arith, equal_iff j color, equal_iff color j);
  once = refl;
}

pub metadata-NoClash : NoClash metadata
metadata-NoClash k h = ground (arith, equal_iff color k, equal_iff color (x_prefix ++ k))

pub item_lem :
    item
    ≡ put (codes "id") (codes "db/main") (
        put (codes "service:name") service (
          put
            (codes "service:group")
            group
            (remove color (put (codes "x_color") (codes "red") metadata))))
unfolding safely_set_id safely_set_metadata equal
item_lem = refl

pub item-IsKeys : IsKeys (drop_internal item) (codes "x_color" ∷ [])
item-IsKeys = rw item_lem (record {
  visits = λ j.
      unfold drop_internal in
      ground (
        arith,
        equal_iff j (codes "x_color"),
        equal_iff (codes "x_color") j,
        equal_iff (codes "id") j,
        equal_iff (codes "service:name") j,
        equal_iff (codes "service:group") j,
        equal_iff color j,
      );
  once = refl;
})

safely_clean_metadata-stored_example :
    safely_clean_metadata (codes "x_color" ∷ []) item color ≡ metadata color
safely_clean_metadata-stored_example =
    safely_clean_metadata-stored metadata (color ∷ []) metadata-IsKeys metadata-NoClash group
      service (codes "db/main") (codes "x_color" ∷ []) item-IsKeys color

safely_set_metadata_clash_example :
    IsKeys (two_keys color group service) ((x_prefix ++ color) ∷ color ∷ [])
    × IsKeys (two_keys color group service) (color ∷ (x_prefix ++ color) ∷ [])
    × (safely_set_metadata group service
          ((x_prefix ++ color) ∷ color ∷ [])
          (two_keys color group service)
          (x_prefix ++ (x_prefix ++ color))
        ≡ some service)
    × (safely_set_metadata group service
          (color ∷ (x_prefix ++ color) ∷ [])
          (two_keys color group service)
          (x_prefix ++ (x_prefix ++ color))
        ≡ some group)
safely_set_metadata_clash_example = safely_set_metadata_clash color group service group service
