-- ===== src/Keychain/Metadata.antt =====
-- store/keychain/keychain.go: the metadata of a secret among the attributes of a keychain item.
pub mod Prefixing
pub mod Stripping
pub mod RoundTrip
pub mod Clash
pub mod Plain
use secrets_engine.Maps.{Map, put, remove}
use secrets_engine.Prelude.{List, [], ◌∷◌, ◌++◌, Option, none, some}
use secrets_engine.Secrets.Identifier.{SecretId}
use secrets_engine.Text.{Bytes, codes, cut_prefix}

abbrev pub service_group_key : Bytes
service_group_key = codes "service:group"

abbrev pub service_name_key : Bytes
service_name_key = codes "service:name"

abbrev pub secret_id_key : Bytes
secret_id_key = codes "id"

-- the prefix of the caller's own keys
abbrev pub x_prefix : Bytes
x_prefix = codes "x_"

abbrev pub Attributes : Type 0
Attributes = Map Bytes

-- `attributes[k]` as an expression: the empty string for a missing key
abbrev pub value_of : Option Bytes → Bytes
value_of none = []
value_of (some v) = v

-- The loop of `safelySetMetadata` over the collected keys.
unfoldable pub prefix_keys : List Bytes → Attributes → Attributes
prefix_keys [] attributes = attributes
prefix_keys (k ∷ keys) attributes =
    prefix_keys keys (remove k (put (x_prefix ++ k) (value_of (attributes k)) attributes))

-- `safelySetMetadata`; `keys` is what `maps.Keys` yields.
unfoldable pub safely_set_metadata : Bytes → Bytes → List Bytes → Attributes → Attributes
unfolding prefix_keys
safely_set_metadata service_group service_name keys attributes =
    put service_name_key service_name
      (put service_group_key service_group (prefix_keys keys attributes))

-- The body of the loop of `safelyCleanMetadata` after `strings.CutPrefix`.
abbrev pub strip_key : Bytes → Option Bytes → Attributes → Attributes
strip_key key none attributes = remove key attributes
strip_key key (some after) attributes =
    remove key (put after (value_of (attributes key)) attributes)

-- The loop of `safelyCleanMetadata` over the collected keys.
unfoldable pub strip_keys : List Bytes → Attributes → Attributes
strip_keys [] attributes = attributes
strip_keys (key ∷ keys) attributes =
    strip_keys keys (strip_key key (cut_prefix x_prefix key) attributes)

-- The first three statements of `safelyCleanMetadata`.
unfoldable pub drop_internal : Attributes → Attributes
drop_internal attributes =
    remove secret_id_key (remove service_name_key (remove service_group_key attributes))

-- `safelyCleanMetadata`; `keys` is what `maps.Keys` yields after the three deletions.
unfoldable pub safely_clean_metadata : List Bytes → Attributes → Attributes
unfolding strip_keys drop_internal
safely_clean_metadata keys attributes = strip_keys keys (drop_internal attributes)

abbrev keep_caller_id : Option Bytes → Attributes → Attributes
keep_caller_id none attributes = attributes
keep_caller_id (some v) attributes = put (x_prefix ++ secret_id_key) v attributes

-- `safelySetID`
unfoldable pub safely_set_id : SecretId → Attributes → Attributes
safely_set_id i attributes =
    put secret_id_key i (keep_caller_id (attributes secret_id_key) attributes)
