-- ===== src/Client/Plugins/Listing.antt =====
-- client/client.go: what `ListPlugins` returns.
use secrets_engine.Client.Plugins.{
  new_name, new_version, empty_name, empty_version, missing_v_prefix, invalid_version, NameError,
  VersionError, CallError, call_failed, not_available, is_dial_error, PluginMetadata,
  secrets_provider, access_control_module, no_metadata, PluginInfo, read_metadata, plugins_loop,
  list_plugins,
}
use secrets_engine.Prelude.{
  ◌≡◌, ◌≢◌, refl, Bool, true, false, List, [], ◌∷◌, none, some, Result, ok, err, ◌>>=◌,
  if◌then◌else◌, All, map, ◌==◌, ◌⊎◌, inl, inr, Bool-cases,
}
use secrets_engine.Secrets.Pattern.{SecretPattern, parse_pattern, valid_pattern}
use secrets_engine.Text.{Bytes}

abbrev pub metadata_message : PluginMetadata SecretPattern → PluginMetadata Bytes
metadata_message (secrets_provider p) = secrets_provider p
metadata_message access_control_module = access_control_module
metadata_message no_metadata = no_metadata

-- The message for a plugin.
abbrev pub plugin_message : PluginInfo SecretPattern → PluginInfo Bytes
plugin_message info = record {
  name = info.name;
  version = info.version;
  disabled = info.disabled;
  external = info.external;
  configurable = info.configurable;
  run_status = info.run_status;
  status_message = info.status_message;
  metadata = metadata_message info.metadata;
}

abbrev pub IsParsed : PluginMetadata SecretPattern → Type 0
IsParsed (secrets_provider p) = parse_pattern p ≡ ok p
IsParsed access_control_module = Unit
IsParsed no_metadata = Unit

abbrev pub StartsWithV : Bytes → Type 0
StartsWithV [] = ⊥
StartsWithV (c ∷ s) = (c == b'v') ≡ true

-- A plugin whose name, version and pattern are of the types that the source gives them.
abbrev pub IsProper : (Bytes → Bool) → PluginInfo SecretPattern → Type 0
IsProper is_valid info =
    (info.name ≢ [])
    × StartsWithV info.version
    × (is_valid info.version ≡ true)
    × IsParsed info.metadata

new_name_proper : (s : Bytes) → s ≢ [] → new_name s ≡ ok s
unfolding new_name
new_name_proper [] h = absurd (h refl)
new_name_proper (c ∷ s) h = refl

new_version_proper :
    (is_valid : Bytes → Bool) (s : Bytes)
    → StartsWithV s
    → is_valid s ≡ true
    → new_version is_valid s ≡ ok s
unfolding new_version
new_version_proper is_valid [] h v = absurd h
new_version_proper is_valid (c ∷ s) h v = rw (h, v) refl

read_metadata_message :
    (m : PluginMetadata SecretPattern) → IsParsed m → read_metadata (metadata_message m) ≡ some m
read_metadata_message (secrets_provider p) h = rw h refl
read_metadata_message access_control_module h = refl
read_metadata_message no_metadata h = refl

plugins_loop-map :
    (is_valid : Bytes → Bool) (infos : List (PluginInfo SecretPattern))
    → All (IsProper is_valid) infos
    → plugins_loop is_valid (map plugin_message infos) ≡ infos
unfolding plugins_loop
plugins_loop-map is_valid [] h = refl
plugins_loop-map is_valid (info ∷ infos) ((n, v, w, m), h) =
    rw
      (
        new_name_proper info.name n,
        new_version_proper is_valid info.version v w,
        read_metadata_message info.metadata m,
        plugins_loop-map is_valid infos h,
      )
      refl

-- The plugins that the service knows, each with a name, a version and a pattern that are valid, are listed as
-- they are and in their order.
pub list_plugins-map :
    (is_valid : Bytes → Bool) (infos : List (PluginInfo SecretPattern))
    → All (IsProper is_valid) infos
    → list_plugins is_valid (ok (map plugin_message infos)) ≡ ok infos
unfolding list_plugins
list_plugins-map is_valid infos h = rw (plugins_loop-map is_valid infos h) refl

new_name-cases :
    (s : Bytes) → ((new_name s ≡ ok s) × (s ≢ [])) ⊎ ((e : NameError) × (new_name s ≡ err e))
unfolding new_name
new_name-cases [] = inr (empty_name, refl)
new_name-cases (c ∷ s) = inl (refl, λ h. cc)

new_version-cases :
    (is_valid : Bytes → Bool) (s : Bytes)
    → ((new_version is_valid s ≡ ok s) × StartsWithV s × (is_valid s ≡ true))
      ⊎ ((e : VersionError) × (new_version is_valid s ≡ err e))
unfolding new_version
new_version-cases is_valid [] = inr (empty_version, refl)
new_version-cases is_valid (c ∷ s) = elim (Bool-cases (c == b'v')) [
  | inr f ↦ inr (missing_v_prefix, rw f refl)
  | inl t ↦ elim (Bool-cases (is_valid (c ∷ s))) [
    | inr f ↦ inr (invalid_version (c ∷ s), rw (t, f) refl)
    | inl h ↦ inl (rw (t, h) refl, t, h)
  ]
]

read_metadata-cases :
    (m : PluginMetadata Bytes)
    → ((p : PluginMetadata SecretPattern) × (read_metadata m ≡ some p) × IsParsed p)
      ⊎ (read_metadata m ≡ none)
unfolding parse_pattern
read_metadata-cases access_control_module = inl (access_control_module, refl, tt)
read_metadata-cases no_metadata = inl (no_metadata, refl, tt)
read_metadata-cases (secrets_provider s) = elim (Bool-cases (valid_pattern s)) [
  | inl t ↦ inl (secrets_provider s, rw t refl, rw t refl)
  | inr f ↦ inr (rw f refl)
]

plugins_loop-IsProper :
    (is_valid : Bytes → Bool) (items : List (PluginInfo Bytes))
    → All (IsProper is_valid) (plugins_loop is_valid items)
unfolding plugins_loop
plugins_loop-IsProper is_valid [] = tt
plugins_loop-IsProper is_valid (item ∷ items) =
    let ih = plugins_loop-IsProper is_valid items in
    elim (new_name-cases item.name) [
      | inr (e, h) ↦ rw h ih
      | inl (h, n) ↦ elim (new_version-cases is_valid item.version) [
        | inr (e, k) ↦ rw (h, k) ih
        | inl (k, v, w) ↦ elim (read_metadata-cases item.metadata) [
          | inr l ↦ rw (h, k, l) ih
          | inl (p, l, m) ↦ rw (h, k, l) ((n, v, w, m), ih)
        ]
      ]
    ]

or_not_available-err :
    {E A B : Type 0} (b : Bool) (x y : E) (f : A → B) (z : B)
    → ((if b then err x else err y) >>= (λ (a : A). ok (f a))) ≡ ok z
    → ⊥
or_not_available-err true x y f z e = cc
or_not_available-err false x y f z e = cc

-- Whatever the service answers, each plugin that `list_plugins` returns has a name that is not empty, a
-- version that starts with `v` and is valid, and a pattern that is one, if it has a pattern.
pub list_plugins-IsProper :
    (is_valid : Bytes → Bool) (response : Result CallError (List (PluginInfo Bytes)))
    (infos : List (PluginInfo SecretPattern))
    → list_plugins is_valid response ≡ ok infos
    → All (IsProper is_valid) infos
unfolding list_plugins
list_plugins-IsProper is_valid (ok items) infos e =
    let eq : plugins_loop is_valid items ≡ infos = cc in
    rw (← eq) (plugins_loop-IsProper is_valid items)
list_plugins-IsProper is_valid (err x) infos e = absurd (
    or_not_available-err (is_dial_error x) (not_available x) (call_failed x) (plugins_loop is_valid)
      infos e)
