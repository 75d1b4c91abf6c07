-- ===== src/Client.antt =====
-- client/client.go: the options of the client.
pub mod Options
pub mod Plugins
use secrets_engine.Prelude.{List, [], ◌∷◌, Option, none, some, Result, ok, err, ◌>>=◌}
use secrets_engine.Text.{Bytes}
use secrets_engine.Text.Decimal.{ℤ, pos, negsuc}

pub data OptionError : Type 0 where
  no_path path_and_dial negative_timeout negative_response_timeout : OptionError

-- `Option`, by the function that makes it; a dial function may be nil. Durations are in nanoseconds.
pub data ClientOption (D : Type 0) : Type 0 where
  with_socket_path : Bytes → ClientOption D
  with_dial_context : Option D → ClientOption D
  with_timeout : ℤ → ClientOption D
  with_response_timeout : ℤ → ClientOption D

-- `config`
pub record Config (D : Type 0) : Type 0 where
  pub dial_context : Option D
  pub request_timeout : ℤ
  pub response_timeout : ℤ

-- What `New` passes to the package http besides constants.
pub record Settings (D : Type 0) : Type 0 where
  pub dial : D
  pub timeout : ℤ
  pub response_header_timeout : ℤ

abbrev pub default_request_timeout : ℤ
default_request_timeout = pos 0

abbrev pub default_response_timeout : ℤ
default_response_timeout = pos 1000000000

-- The dial function of a path is the package net's, and the path of the daemon depends on the platform.
module _ {D : Type 0} (dial_from_path : Bytes → D) (daemon_socket_path : Bytes) where
  abbrev pub config : Option D → ℤ → ℤ → Config D
  config o r s = record { dial_context = o; request_timeout = r; response_timeout = s }

  abbrev pub set_dial : Option D → Option D → Config D → Result OptionError (Config D)
  set_dial d (some e) c = err path_and_dial
  set_dial d none c = ok (config d c.request_timeout c.response_timeout)

  -- The call of an option.
  unfoldable pub apply_option : ClientOption D → Config D → Result OptionError (Config D)
  apply_option (with_socket_path []) c = err no_path
  apply_option (with_socket_path (b ∷ path)) c =
      set_dial (some (dial_from_path (b ∷ path))) c.dial_context c
  apply_option (with_dial_context d) c = set_dial d c.dial_context c
  apply_option (with_timeout (pos n)) c = ok (config c.dial_context (pos n) c.response_timeout)
  apply_option (with_timeout (negsuc n)) c = err negative_timeout
  apply_option (with_response_timeout (pos n)) c =
      ok (config c.dial_context c.request_timeout (pos n))
  apply_option (with_response_timeout (negsuc n)) c = err negative_response_timeout

  -- The loop of `New`.
  unfoldable pub apply_options : List (ClientOption D) → Config D → Result OptionError (Config D)
  apply_options [] c = ok c
  apply_options (o ∷ options) c = apply_option o c >>= apply_options options

  abbrev pub dial_or_default : Option D → D
  dial_or_default none = dial_from_path daemon_socket_path
  dial_or_default (some d) = d

  abbrev pub settings : Config D → Settings D
  settings c = record {
    dial = dial_or_default c.dial_context;
    timeout = c.request_timeout;
    response_header_timeout = c.response_timeout;
  }

  -- `New`
  unfoldable pub new_client : List (ClientOption D) → Result OptionError (Settings D)
  new_client options =
      apply_options options (config none default_request_timeout default_response_timeout)
      >>= (λ c. ok (settings c))
