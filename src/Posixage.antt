-- ===== src/Posixage.antt =====
-- store/posixage: the store of encrypted files.
pub mod Files
pub mod SecretFile
pub mod Keys
pub mod Prompt
pub mod Store
use secrets_engine.Maps.{Map}
use secrets_engine.Prelude.{ℕ, List, Result}
use secrets_engine.Text.{Bytes, codes}

-- `KeyType`
abbrev pub KeyType : Type 0
KeyType = Bytes

abbrev pub password_key_type : KeyType
password_key_type = codes "pass"

abbrev pub age_key_type : KeyType
age_key_type = codes "age"

abbrev pub ssh_key_type : KeyType
ssh_key_type = codes "ssh"

-- `EncryptedSecret`
pub record EncryptedSecret : Type 0 where
  pub key_type : KeyType
  pub encrypted_data : Bytes

-- The errors of the package and of what it calls; the numbers stand for errors of the system, of the
-- codec for JSON, of the package age, of a callback and of a secret.
pub data StoreError : Type 0 where
  exists : StoreError
  not_exist : StoreError
  io_error : ℕ → StoreError
  json_error : ℕ → StoreError
  age_error : ℕ → StoreError
  prompt_error : ℕ → StoreError
  secret_error : ℕ → StoreError
  invalid_directory_name : StoreError
  unsupported_type : KeyType → StoreError
  work_factor_out_of_range : ℕ → StoreError
  empty_key : StoreError
  never_encrypted_with : KeyType → StoreError
  could_not_decrypt : StoreError
  credential_not_found : StoreError
  no_encryption_callback : StoreError
  no_decryption_callback : StoreError

-- The package encoding/json on maps of strings.
pub record Json : Type 0 where
  pub marshal : Map Bytes → Result ℕ Bytes
  pub unmarshal : Bytes → Result ℕ (Map Bytes)

-- The package age: the recipients and identities that the program makes, and encryption for some
-- recipients. Encryption may draw on randomness, which is the number.
pub record Age : Type 1 where
  pub Recipient : Type 0
  pub Identity : Type 0
  pub new_scrypt_recipient : Bytes → Result ℕ Recipient
  pub set_work_factor : ℕ → Recipient → Recipient
  pub parse_x25519_recipient : Bytes → Result ℕ Recipient
  pub parse_ssh_recipient : Bytes → Result ℕ Recipient
  pub new_scrypt_identity : Bytes → Result ℕ Identity
  pub parse_x25519_identity : Bytes → Result ℕ Identity
  pub parse_ssh_identity : Bytes → Result ℕ Identity
  pub encrypt : ℕ → List Recipient → Bytes → Result ℕ Bytes
  pub decrypt : Bytes → Identity → Result ℕ Bytes
