-- ===== src/Client/Plugins.antt =====
-- client/client.go, x/api/name.go and x/api/version.go: the calls of the client and the list of plugins.
pub mod Listing
use secrets_engine.Prelude.{
  ℕ, Bool, true, false, List, [], ◌∷◌, Option, none, some, Result, ok, err, ◌>>=◌, ◌==◌, ◌||◌,
  if◌then◌else◌, not,
}
use secrets_engine.Secrets.Pattern.{SecretPattern, PatternError, parse_pattern}
use secrets_engine.Text.{Bytes, codes, equal}

-- `ErrEmptyName`
pub data NameError : Type 0 where
  empty_name : NameError

-- `NewName`
unfoldable pub new_name : Bytes → Result NameError Bytes
new_name [] = err empty_name
new_name (c ∷ s) = ok (c ∷ s)

pub data VersionError : Type 0 where
  empty_version missing_v_prefix : VersionError
  invalid_version : Bytes → VersionError

-- `NewVersion`; the first argument is `semver.IsValid`.
unfoldable pub new_version : (Bytes → Bool) → Bytes → Result VersionError Bytes
new_version is_valid [] = err empty_version
new_version is_valid (c ∷ s) =
    if c == b'v'
    then if is_valid (c ∷ s) then ok (c ∷ s) else err (invalid_version (c ∷ s))
    else err missing_v_prefix

-- An error of a call: the operation, if there is a `net.OpError` in it, and the rest.
pub record CallError : Type 0 where
  pub op : Option Bytes
  pub detail : ℕ

abbrev is_dial_op : Option Bytes → Bool
is_dial_op none = false
is_dial_op (some op) = equal op (codes "dial") || equal op (codes "connect")

-- `isDialError`
abbrev pub is_dial_error : CallError → Bool
is_dial_error e = is_dial_op e.op

pub data PluginsError : Type 0 where
  not_available : CallError → PluginsError
  call_failed : CallError → PluginsError

-- What each call of the client makes of the error of the service.
abbrev pub or_not_available {ℓ} : {A : Type ℓ} → Result CallError A → Result PluginsError A
or_not_available (err e) = if is_dial_error e then err (not_available e) else err (call_failed e)
or_not_available (ok a) = ok a

-- The oneof of a plugin: with a text for the pattern in the message, with a pattern in `PluginInfo`.
pub data PluginMetadata (P : Type 0) : Type 0 where
  secrets_provider : P → PluginMetadata P
  access_control_module no_metadata : PluginMetadata P

-- `PluginInfo`, and the message of the service, which differ in the type of the pattern.
pub record PluginInfo (P : Type 0) : Type 0 where
  pub name : Bytes
  pub version : Bytes
  pub disabled : Bool
  pub external : Bool
  pub configurable : Bool
  pub run_status : ℕ
  pub status_message : Bytes
  pub metadata : PluginMetadata P

abbrev with_pattern : Result PatternError SecretPattern → Option (PluginMetadata SecretPattern)
with_pattern (err e) = none
with_pattern (ok p) = some (secrets_provider p)

abbrev pub read_metadata : PluginMetadata Bytes → Option (PluginMetadata SecretPattern)
read_metadata (secrets_provider s) = with_pattern (parse_pattern s)
read_metadata access_control_module = some access_control_module
read_metadata no_metadata = some no_metadata

abbrev pub plugin_info :
    PluginInfo Bytes → Bytes → Bytes → PluginMetadata SecretPattern → PluginInfo SecretPattern
plugin_info item name version metadata = record {
  name = name;
  version = version;
  disabled = item.disabled;
  external = item.external;
  configurable = item.configurable;
  run_status = item.run_status;
  status_message = item.status_message;
  metadata = metadata;
}

abbrev pub add_plugin :
    PluginInfo Bytes
    → Result NameError Bytes
    → Result VersionError Bytes
    → Option (PluginMetadata SecretPattern)
    → List (PluginInfo SecretPattern)
    → List (PluginInfo SecretPattern)
add_plugin item (err e) v m rest = rest
add_plugin item (ok n) (err e) m rest = rest
add_plugin item (ok n) (ok v) none rest = rest
add_plugin item (ok n) (ok v) (some m) rest = plugin_info item n v m ∷ rest

-- The loop of `ListPlugins`; an item that is not understood is left out.
unfoldable pub plugins_loop :
    (Bytes → Bool) → List (PluginInfo Bytes) → List (PluginInfo SecretPattern)
plugins_loop is_valid [] = []
plugins_loop is_valid (item ∷ items) =
    add_plugin item (new_name item.name) (new_version is_valid item.version)
      (read_metadata item.metadata) (plugins_loop is_valid items)

abbrev pub listed :
    (Bytes → Bool)
    → Result PluginsError (List (PluginInfo Bytes))
    → Result PluginsError (List (PluginInfo SecretPattern))
listed is_valid response = response >>= (λ items. ok (plugins_loop is_valid items))

-- `ListPlugins`, with the answer of the service.
unfoldable pub list_plugins :
    (Bytes → Bool)
    → Result CallError (List (PluginInfo Bytes))
    → Result PluginsError (List (PluginInfo SecretPattern))
list_plugins is_valid response = listed is_valid (or_not_available response)

-- `EnablePlugin` and `DisablePlugin`, with the answer of the service.
abbrev pub switch_plugin : Result {0, 0} CallError Unit → Result {0, 0} PluginsError Unit
switch_plugin response = or_not_available response
