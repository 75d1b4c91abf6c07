-- ===== src/Injector.antt =====
-- x/injector/parser.go: the secrets that the labels of a container ask for.
pub mod Labels
use secrets_engine.Maps.{Map, put}
use secrets_engine.Prelude.{
  ℕ, Bool, true, false, List, [], ◌∷◌, ◌++◌, Option, none, some, Result, ok, err, ◌==◌,
  if◌then◌else◌,
}
use secrets_engine.Text.{Bytes, codes, cut_prefix}

-- `xSecretPrefix+":"`
abbrev pub x_secret_prefix : Bytes
x_secret_prefix = codes "x-secret:"

pub data LabelError : Type 0 where
  no_x_secret : Bytes → LabelError
  not_absolute : Bytes → LabelError

-- `strings.HasPrefix(value, "/")`
abbrev pub is_absolute : Bytes → Bool
is_absolute [] = false
is_absolute (c ∷ value) = c == b'/'

-- `filepath.ToSlash` depends on the platform.
module _ (to_slash : Bytes → Bytes) where
  abbrev pub parse_value : Bytes → Bytes → Result LabelError (Bytes × Bytes)
  parse_value name value =
      if is_absolute value then ok (name, to_slash value) else err (not_absolute value)

  -- `parseXSecretLabel` after the test of the prefix.
  abbrev pub parse_named : Bytes → Option Bytes → Bytes → Result LabelError (Bytes × Bytes)
  parse_named key none value = err (no_x_secret key)
  parse_named key (some name) value = parse_value name value

  -- `parseXSecretLabel`
  unfoldable pub parse_x_secret_label : Bytes → Bytes → Result LabelError (Bytes × Bytes)
  parse_x_secret_label key value = parse_named key (cut_prefix x_secret_prefix key) value

  -- What one round of the loop does with what it parsed; an error is logged.
  abbrev pub add_label : Result LabelError (Bytes × Bytes) → Map Bytes → Map Bytes
  add_label (err e) result = result
  add_label (ok (name, path)) result = put name path result

  -- One round of the loop, with the label's value.
  abbrev pub label_round : Bytes → Option Bytes → Option Bytes → Map Bytes → Map Bytes
  label_round k name none result = result
  label_round k none (some v) result = result
  label_round k (some name) (some v) result = add_label (parse_x_secret_label k v) result

  -- The loop of `SecretMapFromLabels` over the labels, in the order of the keys.
  unfoldable pub label_loop : List Bytes → Map Bytes → Map Bytes → Map Bytes
  label_loop [] labels result = result
  label_loop (k ∷ keys) labels result =
      label_loop keys labels (label_round k (cut_prefix x_secret_prefix k) (labels k) result)

  -- `SecretMapFromLabels`
  unfoldable pub secret_map_from_labels : List Bytes → Map Bytes → Map Bytes
  unfolding label_loop
  secret_map_from_labels keys labels = label_loop keys labels (λ name. none)
