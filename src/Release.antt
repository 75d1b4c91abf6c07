-- ===== src/Release.antt =====
-- x/release: the tool that releases the modules of the repository.
pub mod Version
pub mod Repo
pub mod Bump
pub mod Project
use secrets_engine.Prelude.{ℕ}
use secrets_engine.Text.{Bytes}

-- The errors of the tool; the number is an error of git or of the file system.
pub data ReleaseError : Type 0 where
  module_not_found : Bytes → ReleaseError
  no_next_module : ReleaseError
  not_canonical : Bytes → ReleaseError
  unexpected_parts : Bytes → ReleaseError
  not_a_number : Bytes → ReleaseError
  fs_error : ℕ → ReleaseError
