-- ===== src/Commands.antt =====
-- plugins/pass/commands: the commands that work on the store of the plugin.
pub mod Set
pub mod Rm
pub mod Run
use secrets_engine.Prelude.{ℕ, List}
use secrets_engine.Secrets.Identifier.{ErrInvalidId}
use secrets_engine.Secrets.Pattern.{PatternError}
use secrets_engine.Text.{Bytes}

-- The errors of the commands; those of the store are of the type `E`, and the numbers stand for errors of
-- the standard input, of the reader of env files and of the resolver.
pub data CommandError (E : Type 0) : Type 0 where
  in_store : E → CommandError E
  joined : List E → CommandError E
  invalid_id : ErrInvalidId → CommandError E
  invalid_pair : Bytes → CommandError E
  no_pair : Bytes → CommandError E
  stdin_error : ℕ → CommandError E
  names_or_all : CommandError E
  env_file_error : Bytes → ℕ → CommandError E
  bad_id : Bytes → ErrInvalidId → CommandError E
  bad_pattern : Bytes → PatternError → CommandError E
  resolver_error : Bytes → ℕ → CommandError E
  no_secret : Bytes → CommandError E
  several_secrets : Bytes → ℕ → Bytes → CommandError E
