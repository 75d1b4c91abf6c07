-- ===== src/Tests.antt =====
-- Runs of the definitions at concrete inputs, most of them taken from the repository's own tests, and
-- instances of the theorems.
mod Secrets
mod Keychain
mod Store
mod Windows
mod Posixage
mod Release
mod Commands
mod Flock
mod Client
mod CredentialHelper
mod Serving
mod Injector
