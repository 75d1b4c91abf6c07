-- ===== src/Tests/Injector.antt =====
-- Runs and instances for x/injector.
use secrets_engine.Injector.{x_secret_prefix, parse_x_secret_label, secret_map_from_labels}
use secrets_engine.Injector.Labels.{path_of, secret_map_from_labels_lem}
use secrets_engine.Maps.{Map, put, empty, IsKeys}
use secrets_engine.Prelude.{◌≡◌, refl, List, [], ◌∷◌, ◌++◌, some, none, arith}
use secrets_engine.Text.{Bytes, codes, equal, equal_iff, cut_prefix}

abbrev token_label : Bytes
token_label = codes "x-secret:token"

abbrev other_label : Bytes
other_label = codes "team"

abbrev labels : Map Bytes
labels = put token_label (codes "/run/token") (put other_label (codes "/a") empty)

abbrev label_keys : List Bytes
label_keys = other_label ∷ token_label ∷ []

labels-IsKeys : IsKeys labels label_keys
labels-IsKeys = record {
  visits = λ j. ground (
    arith,
    equal_iff j token_label,
    equal_iff token_label j,
    equal_iff j other_label,
    equal_iff other_label j,
  );
  once = unfold equal in refl;
}

labels_run :
    (secret_map_from_labels (λ p. p) label_keys labels (codes "token") ≡ some (codes "/run/token"))
    × (secret_map_from_labels (λ p. p) label_keys labels (codes "team") ≡ none)
unfolding secret_map_from_labels parse_x_secret_label cut_prefix equal
labels_run = (refl, refl)

secret_map_from_labels_lem_example :
    secret_map_from_labels (λ p. p) label_keys labels (codes "token")
    ≡ path_of (λ p. p) (labels (x_secret_prefix ++ codes "token"))
secret_map_from_labels_lem_example =
    secret_map_from_labels_lem (λ p. p) label_keys labels labels-IsKeys (codes "token")
