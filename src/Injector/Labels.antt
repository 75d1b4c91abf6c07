-- ===== src/Injector/Labels.antt =====
-- x/injector/parser.go: what `SecretMapFromLabels` collects.
use secrets_engine.Injector.{
  x_secret_prefix, is_absolute, parse_value, parse_x_secret_label, add_label, label_round,
  label_loop, secret_map_from_labels,
}
use secrets_engine.Maps.{Map, elem, IsKeys}
use secrets_engine.Prelude.{
  ◌≡◌, refl, sym, ap, ◌∙◌, ◌≢◌, inl, inr, Bool, true, false, List, [], ◌∷◌, ◌++◌, Option, none,
  some, arith, if◌then◌else◌, Bool-cases, Option-cases,
}
use secrets_engine.Text.{
  Bytes, equal_refl, equal_ne, Bytes-cases, cut_prefix, cut_prefix-append, cut_prefix_sound,
}

module _ (to_slash : Bytes → Bytes) where
  -- The path that a label's value gives, if it is absolute.
  abbrev pub path_of : Option Bytes → Option Bytes
  path_of none = none
  path_of (some v) = if is_absolute v then some (to_slash v) else none

  abbrev or_else : Option Bytes → Option Bytes → Option Bytes
  or_else none other = other
  or_else (some p) other = some p

  or_else_twice :
      (b : Bool) (o r : Option Bytes)
      → (if b then or_else o (or_else o r) else or_else o r) ≡ or_else o r
  or_else_twice false o r = refl
  or_else_twice true none r = refl
  or_else_twice true (some p) r = refl

  parse-cut :
      (k a v : Bytes)
      → cut_prefix x_secret_prefix k ≡ some a
      → parse_x_secret_label to_slash k v ≡ parse_value to_slash a v
  unfolding parse_x_secret_label
  parse-cut k a v z = rw z refl

  add_own :
      (n v : Bytes) (result : Map Bytes)
      → add_label to_slash (parse_value to_slash n v) result n
        ≡ or_else (path_of (some v)) (result n)
  add_own n v result = elim (Bool-cases (is_absolute v)) [
    | inl t ↦ rw (t, equal_refl n) refl
    | inr f ↦ rw f refl
  ]

  add_other :
      (a n v : Bytes) (result : Map Bytes)
      → a ≢ n
      → add_label to_slash (parse_value to_slash a v) result n ≡ result n
  add_other a n v result ne = elim (Bool-cases (is_absolute v)) [
    | inl t ↦ rw (t, equal_ne a n ne) refl
    | inr f ↦ rw f refl
  ]

  -- One round adds the path of the label to its name and changes nothing else.
  round_own :
      (n : Bytes) (o : Option Bytes) (result : Map Bytes)
      → label_round to_slash
          (x_secret_prefix ++ n)
          (cut_prefix x_secret_prefix (x_secret_prefix ++ n))
          o
          result
          n
        ≡ or_else (path_of o) (result n)
  round_own n none result = refl
  round_own n (some v) result =
      let z = cut_prefix-append x_secret_prefix n in
      rw z (
        ap (λ r. add_label to_slash r result n) (parse-cut (x_secret_prefix ++ n) n v z)
        ∙ add_own n v result)

  round_other :
      (k n : Bytes) (o : Option Bytes) (result : Map Bytes)
      → k ≢ x_secret_prefix ++ n
      → label_round to_slash k (cut_prefix x_secret_prefix k) o result n ≡ result n
  round_other k n none result ne = refl
  round_other k n (some v) result ne = elim (Option-cases (cut_prefix x_secret_prefix k)) [
    | inl z ↦ rw z
    | inr (a, z) ↦ rw z (
        ap (λ r. add_label to_slash r result n) (parse-cut k a v z)
        ∙ add_other a n v result (λ e.
          ne (cut_prefix_sound x_secret_prefix k a z ∙ ap (λ (t : Bytes). x_secret_prefix ++ t) e)))
  ]

  label_loop_at :
      (keys : List Bytes) (labels result : Map Bytes) (n : Bytes)
      → label_loop to_slash keys labels result n ≡ (
          if elem (x_secret_prefix ++ n) keys
          then or_else (path_of (labels (x_secret_prefix ++ n))) (result n)
          else result n)
  unfolding label_loop
  label_loop_at [] labels result n = refl
  label_loop_at (k ∷ keys) labels result n =
      label_loop_at keys labels _ n ∙ elim (Bytes-cases (x_secret_prefix ++ n) k) [
        | inl e ↦
            rw
              (
                sym e,
                round_own n (labels (x_secret_prefix ++ n)) result,
                equal_refl (x_secret_prefix ++ n),
              )
              (or_else_twice (elem (x_secret_prefix ++ n) keys)
                (path_of (labels (x_secret_prefix ++ n))) (result n))
        | inr ne ↦ rw (
          round_other k n (labels k) result (λ z. ne (sym z)),
          equal_ne (x_secret_prefix ++ n) k ne,
        )
      ]

  -- Whatever the order of the labels: a name has the path that the label `x-secret:` with the name
  -- gives, if there is such a label and its value is absolute, and no path otherwise.
  pub secret_map_from_labels_lem :
      (keys : List Bytes) (labels : Map Bytes)
      → IsKeys labels keys
      → (n : Bytes)
      → secret_map_from_labels to_slash keys labels n ≡ path_of (labels (x_secret_prefix ++ n))
  unfolding secret_map_from_labels
  secret_map_from_labels_lem keys labels v n =
      label_loop_at keys labels (λ name. none) n
      ∙ elim (Option-cases (labels (x_secret_prefix ++ n))) [
        | inl z ↦ rw (v.visits (x_secret_prefix ++ n), z) (ground arith)
        | inr (x, z) ↦ rw (v.visits (x_secret_prefix ++ n), z) (ground arith)
      ]
