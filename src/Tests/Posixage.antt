-- ===== src/Tests/Posixage.antt =====
-- Runs and instances for store/posixage.
use secrets_engine.Maps.{empty, put, elem, is_some}
use secrets_engine.Posixage.{
  io_error, KeyType, password_key_type, ssh_key_type, EncryptedSecret, work_factor_out_of_range,
  Json, Age,
}
use secrets_engine.Posixage.Files.{
  Files, Root, stat, remove_all, mkdir, create, write, sync, rename,
}
use secrets_engine.Posixage.Keys.{get_recipient}
use secrets_engine.Posixage.Prompt.{encryption_password, decryption_password}
use secrets_engine.Posixage.SecretFile.{
  id_to_dir_name, dir_name_to_id, metadata_file_name, atomic_write, write_secrets, clear_old, fill,
  persist, restore_secret,
}
use secrets_engine.Posixage.SecretFile.Names.{dir_name_to_id-id_to_dir_name}
use secrets_engine.Posixage.SecretFile.Restoring.{
  IsKeyType, password, age, ssh, file_name, of_metadata, of_secret, last_with, settled,
  restore_secret-persist,
}
use secrets_engine.Posixage.SecretFile.Persisting.{persisted, Persisted, persist_lem}
use secrets_engine.Posixage.Store.{
  encrypted_with, Options, with_scrypt_work_factor, with_encryption_callback_func,
  with_decryption_callback_func, Config, apply_option, apply_options, new_config,
}
use secrets_engine.Posixage.Store.Configuration.{IsUsable, new_config-get_recipient}
use secrets_engine.Prelude.{◌≡◌, refl, true, ℕ, List, [], ◌∷◌, none, some, ok, err}
use secrets_engine.Secrets.Identifier.{valid_identifier, identifier_loop, is_valid_rune}
use secrets_engine.Text.{Bytes, codes, equal}
use secrets_engine.Text.Base64.{has_no_slash, encode_base64}

abbrev json : Json
json = record { marshal = λ m. ok (codes "{}"); unmarshal = λ b. ok empty }

abbrev secrets : List EncryptedSecret
secrets = record { key_type = ssh_key_type; encrypted_data = codes "locked" } ∷ []

-- The seventh operation fails.
abbrev root : Root
root = record {
  dirs = put (id_to_dir_name (codes "db")) empty empty;
  faults =
      none
      ∷ none
      ∷ none
      ∷ none
      ∷ none
      ∷ none
      ∷ some (record { code = 28; written = 1; remaining = λ name. true })
      ∷ [];
}

persist_lem_example :
    Persisted
      (id_to_dir_name (codes "db"))
      (persisted (codes "{}") secrets)
      root
      (persist json (codes "db") empty secrets root).0
      (persist json (codes "db") empty secrets root).1
persist_lem_example = persist_lem json (codes "db") empty (codes "{}") secrets root refl tt

-- `RemoveAll` of the old directory fails when one of its two files is gone.
abbrev half_removed : Root
half_removed = record {
  dirs =
      put (id_to_dir_name (codes "db"))
        (put (codes "a") (codes "1") (put (codes "b") (codes "2") empty)) empty;
  faults =
      none
      ∷ some (record { code = 5; written = 0; remaining = λ name. equal (codes "b") name })
      ∷ [];
}

persist_partial :
    ((persist json (codes "db") empty secrets half_removed).0 ≡ err (io_error 5))
    × ((left : Files) × ((persist json (codes "db") empty secrets half_removed).1.dirs
            (id_to_dir_name (codes "db"))
          ≡ some left)
        × (left (codes "a") ≡ none)
        × (left (codes "b") ≡ some (codes "2")))
unfolding persist clear_old stat remove_all encode_base64 equal
persist_partial = (refl, (_, refl, refl, refl))

db_valid : valid_identifier (codes "db") ≡ true
unfolding valid_identifier identifier_loop is_valid_rune
db_valid = refl

dir_name_to_id-id_to_dir_name_example :
    (dir_name_to_id (id_to_dir_name (codes "db")) ≡ ok (codes "db"))
    × (has_no_slash (id_to_dir_name (codes "db")) ≡ true)
dir_name_to_id-id_to_dir_name_example = dir_name_to_id-id_to_dir_name (codes "db") db_valid

-- Recipients and identities are the keys.
abbrev plain_age : Age
plain_age = record {
  Recipient = List ℕ;
  Identity = List ℕ;
  new_scrypt_recipient = ok;
  set_work_factor = ◌∷◌;
  parse_x25519_recipient = ok;
  parse_ssh_recipient = ok;
  new_scrypt_identity = ok;
  parse_x25519_identity = ok;
  parse_ssh_identity = ok;
  encrypt = λ seed recipients plaintext. ok plaintext;
  decrypt = λ ciphertext identity. ok ciphertext;
}

abbrev options : List Options
options =
    with_scrypt_work_factor 18
    ∷ with_encryption_callback_func (encryption_password (ok (codes "key")))
    ∷ with_decryption_callback_func (decryption_password (ok (codes "key")))
    ∷ []

abbrev configuration : Config
configuration = record {
  registered_decryption_func = decryption_password (ok (codes "key")) ∷ [];
  registered_encryption_funcs = encryption_password (ok (codes "key")) ∷ [];
  scrypt_work_factor = 18;
}

configured : new_config options ≡ ok configuration
unfolding new_config apply_options apply_option
configured = refl

new_config-get_recipient_example :
    IsUsable configuration
    × (get_recipient plain_age password_key_type (codes "key") 18 ≡ ok (18 ∷ codes "key"))
new_config-get_recipient_example =
    new_config-get_recipient plain_age options configuration (codes "key") configured

out_of_range : new_config (with_scrypt_work_factor 23 ∷ []) ≡ err (work_factor_out_of_range 23)
unfolding new_config apply_options apply_option
out_of_range = refl

-- The first operation fails, which does not matter: there is no directory to remove.
abbrev bare : Root
bare = record {
  dirs = empty;
  faults = some (record { code = 5; written = 0; remaining = λ name. true }) ∷ [];
}

persist-bare : (persist json (codes "db") empty secrets bare).0 ≡ ok tt
unfolding persist fill clear_old atomic_write write_secrets stat remove_all mkdir create write sync
    rename equal encode_base64
persist-bare = refl

abbrev listing : List Bytes
listing = file_name ssh_key_type ∷ metadata_file_name ∷ []

listed_types :
    (k : KeyType) → IsKeyType k → elem (file_name k) listing ≡ is_some (last_with k secrets none)
unfolding equal
listed_types k password = refl
listed_types k age = refl
listed_types k ssh = refl

restore_secret-persist_example :
    (restored : List EncryptedSecret) × ((restore_secret json listing
        (codes "db")
        (settled (persist json (codes "db") empty secrets bare).1.dirs)).0
      ≡ ok (restored, empty))
    × ((k : KeyType) → IsKeyType k → encrypted_with k restored ≡ last_with k secrets none)
restore_secret-persist_example =
    restore_secret-persist json (codes "db") empty (codes "{}") secrets bare listing refl refl
      (ssh, tt) tt persist-bare (of_secret ssh, (of_metadata, tt)) listed_types
