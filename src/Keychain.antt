-- ===== src/Keychain.antt =====
-- store/keychain: the keychain store.
pub mod Metadata
pub mod Windows
