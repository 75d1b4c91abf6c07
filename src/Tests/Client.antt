-- ===== src/Tests/Client.antt =====
-- Runs and instances for client/client.go.
use secrets_engine.Client.{
  ClientOption, with_socket_path, with_dial_context, with_timeout, with_response_timeout,
  new_client, apply_options, apply_option, path_and_dial,
}
use secrets_engine.Client.Options.{IsAccepted, ChoosesOnce, new_client_lem, new_client-ok}
use secrets_engine.Client.Plugins.{
  PluginInfo, secrets_provider, list_plugins, plugins_loop, new_name, new_version,
}
use secrets_engine.Client.Plugins.Listing.{
  plugin_message, IsProper, list_plugins-map, list_plugins-IsProper,
}
use secrets_engine.Secrets.Pattern.{SecretPattern, parse_pattern, valid_pattern}
use secrets_engine.Prelude.{
  ℕ, true, false, map, ◌≡◌, refl, List, [], ◌∷◌, none, ok, err, length, All,
}
use secrets_engine.Text.{Bytes, codes}
use secrets_engine.Text.Decimal.{pos}

abbrev dial_length : Bytes → ℕ
dial_length path = length path

abbrev options : List (ClientOption ℕ)
options =
    with_timeout (pos 5)
    ∷ with_dial_context none
    ∷ with_socket_path (codes "a.sock")
    ∷ with_timeout (pos 0)
    ∷ with_response_timeout (pos 3)
    ∷ []

two_dials :
    new_client dial_length (codes "d") (with_socket_path (codes "a") ∷ with_dial_context none ∷ [])
    ≡ err path_and_dial
unfolding new_client apply_options apply_option
two_dials = refl

new_client_lem_example :
    new_client dial_length (codes "d") options
    ≡ ok (record { dial = 6; timeout = pos 0; response_header_timeout = pos 3 })
new_client_lem_example =
    new_client_lem dial_length (codes "d") options (tt, (tt, (tt, (tt, (tt, tt))))) (tt, (tt, tt))

new_client-ok_example : All IsAccepted options × ChoosesOnce options
new_client-ok_example =
    new_client-ok dial_length (codes "d") options
      (record { dial = 6; timeout = pos 0; response_header_timeout = pos 3 }) new_client_lem_example

abbrev plugin : PluginInfo SecretPattern
plugin = record {
  name = codes "pass";
  version = codes "v1";
  disabled = false;
  external = true;
  configurable = false;
  run_status = 1;
  status_message = [];
  metadata = secrets_provider (codes "**");
}

left_out :
    list_plugins
      (λ s. true)
      (ok (record (plugin_message plugin) { version = codes "1" } ∷ plugin_message plugin ∷ []))
    ≡ ok (plugin ∷ [])
unfolding list_plugins plugins_loop new_name new_version parse_pattern valid_pattern
left_out = refl

plugin-IsProper : All (IsProper (λ s. true)) (plugin ∷ [])
unfolding parse_pattern valid_pattern
plugin-IsProper = (((λ h. cc), refl, refl, refl), tt)

list_plugins-map_example :
    list_plugins (λ s. true) (ok (map plugin_message (plugin ∷ []))) ≡ ok (plugin ∷ [])
list_plugins-map_example = list_plugins-map (λ s. true) (plugin ∷ []) plugin-IsProper

list_plugins-IsProper_example : All (IsProper (λ s. true)) (plugin ∷ [])
list_plugins-IsProper_example =
    list_plugins-IsProper (λ s. true) (ok (map plugin_message (plugin ∷ []))) (plugin ∷ [])
      list_plugins-map_example
