-- ===== src/Keychain/Windows.antt =====
-- store/keychain/keychain_windows.go: the keychain store over the Windows Credential Manager. The package
-- wincred and the UTF-16 codec are parameters.
pub mod Chunks
pub mod Store
pub mod Manager
pub mod Deletion
pub mod AttributeLists
pub mod Writing
pub mod Saving
pub mod Cleaning
pub mod RoundTrip
use secrets_engine.Keychain.Metadata.{Attributes}
use secrets_engine.Maps.{Map, empty, put}
use secrets_engine.Prelude.{ℕ, List, [], ◌∷◌, ◌++◌, Option, none, some, Result, ok, err}
use secrets_engine.Secrets.Identifier.{SecretId}
use secrets_engine.Store.{SecretType}
use secrets_engine.Text.{Bytes, codes}
use secrets_engine.Text.Decimal.{itoa}

-- `wincred.CredentialAttribute`
pub record CredentialAttribute : Type 0 where
  pub keyword : Bytes
  pub value : Bytes

-- `wincred.Credential` and `wincred.GenericCredential`, in the fields that the program uses.
pub record Credential : Type 0 where
  pub target_name : Bytes
  pub user_name : Bytes
  pub credential_blob : Bytes
  pub attributes : List CredentialAttribute

-- The errors of wincred that the program tells apart, and all others.
pub data WinError : Type 0 where
  element_not_found : WinError
  bad_username : WinError
  invalid_parameter : WinError
  invalid_credential_flags : WinError
  no_such_logon_session : WinError
  other : ℕ → WinError

pub data KeychainError : Type 0 where
  credential_not_found : KeychainError
  credential_bad_username : KeychainError
  invalid_flags : KeychainError
  invalid_credential_parameter : KeychainError
  no_logon_session : KeychainError
  system_error : ℕ → KeychainError
  invalid_chunk_count : Bytes → KeychainError
  secret_error : ℕ → KeychainError
  codec_error : ℕ → KeychainError

-- The calls of the package wincred that the program makes, on a state of the credential manager.
pub record Wincred (S : Type 0) : Type 0 where
  pub get_generic_credential : Bytes → S → Result WinError Credential
  pub delete_credential : Bytes → S → Result WinError (Unit {0}) × S
  pub write_credential : Credential → S → Result WinError (Unit {0}) × S

-- The transformers of golang.org/x/text/encoding/unicode for UTF-16.
pub record Codec : Type 0 where
  pub encode : Bytes → Result ℕ Bytes
  pub decode : Bytes → Result ℕ Bytes

-- `keychainStore`, with the packages it is built on.
pub record KeychainStore (S : Type 0) : Type 1 where
  pub wincred : Wincred S
  pub codec : Codec
  pub secret : SecretType
  pub factory : SecretId → secret.Value
  pub service_group : Bytes
  pub service_name : Bytes

abbrev pub max_blob_size : ℕ
max_blob_size = 2560

abbrev pub chunk_count_key : Bytes
chunk_count_key = codes "chunk:count"

abbrev pub chunk_index_key : Bytes
chunk_index_key = codes "chunk:index"

-- `itemLabel`
abbrev pub item_label : {S : Type 0} → KeychainStore S → Bytes → Bytes
item_label k i = k.service_group ++ (codes ":" ++ (k.service_name ++ (codes ":" ++ i)))

-- `itemChunkLabel`
abbrev pub item_chunk_label : {S : Type 0} → KeychainStore S → SecretId → ℕ → Bytes
item_chunk_label k i index = item_label k i ++ (codes ":chunk:" ++ itoa index)

-- `mapWindowsCredentialError` on an error
abbrev pub map_windows_credential_error : WinError → KeychainError
map_windows_credential_error element_not_found = credential_not_found
map_windows_credential_error bad_username = credential_bad_username
map_windows_credential_error invalid_parameter = invalid_credential_parameter
map_windows_credential_error invalid_credential_flags = invalid_flags
map_windows_credential_error no_such_logon_session = no_logon_session
map_windows_credential_error (other e) = system_error e

-- One round of the loop of `mapToWindowsAttributes`.
abbrev pub add_attribute :
    Bytes → Option Bytes → List CredentialAttribute → List CredentialAttribute
add_attribute k none win_attrs = win_attrs
add_attribute k (some v) win_attrs = record { keyword = k; value = v } ∷ win_attrs

-- `mapToWindowsAttributes`; the list is the order in which the loop visits the keys.
unfoldable pub map_to_windows_attributes : List Bytes → Attributes → List CredentialAttribute
map_to_windows_attributes [] attributes = []
map_to_windows_attributes (k ∷ keys) attributes =
    add_attribute k (attributes k) (map_to_windows_attributes keys attributes)

-- The loop of `mapFromWindowsAttributes`.
unfoldable pub from_loop : List CredentialAttribute → Attributes → Attributes
from_loop [] attributes = attributes
from_loop (attr ∷ win_attrs) attributes =
    from_loop win_attrs (put attr.keyword attr.value attributes)

-- `mapFromWindowsAttributes`
unfoldable pub map_from_windows_attributes : List CredentialAttribute → Attributes
unfolding from_loop
map_from_windows_attributes win_attrs = from_loop win_attrs empty
