-- ===== src/Posixage/Store.antt =====
-- store/posixage/store.go: the methods of the store. Its state is the directory that it owns. Taking
-- the lock may fail as any other operation on files; releasing it returns nothing to the caller.
pub mod Configuration
use secrets_engine.Maps.{Map, empty, put}
use secrets_engine.Posixage.{
  KeyType, EncryptedSecret, StoreError, work_factor_out_of_range, secret_error,
  never_encrypted_with, could_not_decrypt, credential_not_found, no_encryption_callback,
  no_decryption_callback, Json, Age,
}
use secrets_engine.Posixage.Files.{Root, M, ◌>>=◌, ◌>>◌, done, attempt, stat, remove_all}
use secrets_engine.Posixage.Keys.{age_result, get_recipients, get_identity, max_scrypt_work_factor}
use secrets_engine.Posixage.Prompt.{
  PromptCaller, call, get_prompt_caller_key_type, prompt_for_encryption_keys, keys_of,
}
use secrets_engine.Posixage.SecretFile.{
  id_to_dir_name, dir_name_to_id, persist, restore_metadata, restore_secret,
}
use secrets_engine.Prelude.{
  ℕ, suc, ◌||◌, List, [], ◌∷◌, ◌++◌, Option, none, some, Result, ok, err, ltb, if◌then◌else◌,
  is_nil,
}
use secrets_engine.Prelude as P
use secrets_engine.Secrets.Identifier.{SecretId}
use secrets_engine.Secrets.Match.{matches_id}
use secrets_engine.Secrets.Pattern.{SecretPattern}
use secrets_engine.Store.{SecretType}
use secrets_engine.Text.{Bytes, equal}

-- `config`, but for its logger
pub record Config : Type 0 where
  pub registered_decryption_func : List PromptCaller
  pub registered_encryption_funcs : List PromptCaller
  pub scrypt_work_factor : ℕ

-- The options of `New`, but for the logger.
pub data Options : Type 0 where
  with_scrypt_work_factor : ℕ → Options
  with_encryption_callback_func with_decryption_callback_func : PromptCaller → Options

-- the function that the option is
unfoldable pub apply_option : Options → Config → Result StoreError Config
apply_option (with_scrypt_work_factor log_n) c =
    if ltb log_n 1 || ltb max_scrypt_work_factor log_n
    then err (work_factor_out_of_range log_n)
    else ok (record c { scrypt_work_factor = log_n })
apply_option (with_encryption_callback_func callback) c =
    ok (record c { registered_encryption_funcs = c.registered_encryption_funcs ++ (callback ∷ []) })
apply_option (with_decryption_callback_func callback) c =
    ok (record c { registered_decryption_func = c.registered_decryption_func ++ (callback ∷ []) })

unfoldable pub apply_options : List Options → Config → Result StoreError Config
apply_options [] c = ok c
apply_options (opt ∷ opts) c = P.◌>>=◌ (apply_option opt c) (apply_options opts)

abbrev check_config : Config → Result StoreError Config
check_config c =
    if is_nil c.registered_encryption_funcs
    then err no_encryption_callback
    else if is_nil c.registered_decryption_func
    then err no_decryption_callback
    else ok c

-- `New`, as far as the configuration goes
unfoldable pub new_config : List Options → Result StoreError Config
new_config opts =
    P.◌>>=◌
      (apply_options opts (record {
        registered_decryption_func = [];
        registered_encryption_funcs = [];
        scrypt_work_factor = 0;
      }))
      check_config

-- `fileStore`, with the packages it is built on
pub record FileStore : Type 1 where
  pub json : Json
  pub age : Age
  pub secret : SecretType
  pub factory : SecretId → secret.Value
  pub config : Config

-- The data encrypted with the key type, the first if there are several.
abbrev pub encrypted_with : KeyType → List EncryptedSecret → Option Bytes
encrypted_with key_type [] = none
encrypted_with key_type (v ∷ secrets) =
    if equal v.key_type key_type then some v.encrypted_data else encrypted_with key_type secrets

-- `tryLock` and `tryRLock`
abbrev pub try_lock : M (Unit {0})
try_lock = attempt (done (ok tt))

abbrev pub secret_result : {A : Type 0} → Result ℕ A → Result StoreError A
secret_result (err e) = err (secret_error e)
secret_result (ok a) = ok a

module _ (f : FileStore) where
  -- `tryDecrypt`
  unfoldable pub try_decrypt : KeyType → Bytes → Bytes → Result StoreError Bytes
  try_decrypt key_type decryption_key encrypted_data =
      P.◌>>=◌ (get_identity f.age key_type decryption_key)
        (λ identity. age_result f.age (f.age.decrypt encrypted_data identity))

  -- The loop of `decryptSecret` over the callbacks.
  unfoldable pub decrypt_loop : List PromptCaller → List EncryptedSecret → Result StoreError Bytes
  decrypt_loop [] secrets = err could_not_decrypt
  decrypt_loop (prompt ∷ prompts) secrets =
      elim (encrypted_with (get_prompt_caller_key_type prompt) secrets) [
        | none ↦ err (never_encrypted_with (get_prompt_caller_key_type prompt))
        | some encrypted ↦ elim (call prompt) [
          | err e ↦ err e
          | ok decryption_key ↦
              elim (try_decrypt (get_prompt_caller_key_type prompt) decryption_key encrypted) [
                | err e ↦ decrypt_loop prompts secrets
                | ok plaintext ↦ ok plaintext
              ]
        ]
      ]

  -- `decryptSecret`
  unfoldable pub decrypt_secret : List EncryptedSecret → Result StoreError Bytes
  unfolding decrypt_loop
  decrypt_secret secrets = decrypt_loop f.config.registered_decryption_func secrets

  -- `Delete`
  unfoldable pub delete : SecretId → M (Unit {0})
  delete i = try_lock >> remove_all (id_to_dir_name i)

  -- The secret that is made of what was restored.
  unfoldable pub load :
      SecretId → List EncryptedSecret × Map Bytes → Result StoreError f.secret.Value
  load i (secrets, metadata) = P.◌>>=◌ (decrypt_secret secrets) (λ decrypted.
      P.◌>>=◌ (secret_result (f.secret.set_metadata metadata (f.factory i)))
        (λ secret. secret_result (f.secret.unmarshal decrypted secret)))

  -- `Get`; `listing` is the order of the files in the secret's directory.
  unfoldable pub get : List Bytes → SecretId → M f.secret.Value
  get listing i = do try_lock; restored ← restore_secret f.json listing i; done (load i restored)

  -- One secret for each key type, in the order of the map; each encryption draws on randomness.
  unfoldable pub encrypt_groups :
      List KeyType → Map (List Bytes) → ℕ → Bytes → Result StoreError (List EncryptedSecret)
  encrypt_groups [] key_groups seed secret = ok []
  encrypt_groups (k ∷ types) key_groups seed secret =
      P.◌>>=◌ (get_recipients f.age k (keys_of (key_groups k)) f.config.scrypt_work_factor)
        (λ recipients.
          P.◌>>=◌ (age_result f.age (f.age.encrypt seed recipients secret)) (λ encrypted.
            P.◌>>=◌ (encrypt_groups types key_groups (suc seed) secret)
              (λ secrets. ok (record { key_type = k; encrypted_data = encrypted } ∷ secrets))))

  -- `Save`; `types` is the order of the loop over the groups of keys.
  unfoldable pub save : List KeyType → ℕ → SecretId → f.secret.Value → M (Unit {0})
  save types seed i s = do
    try_lock
    key_groups ← done (prompt_for_encryption_keys f.config.registered_encryption_funcs)
    secret ← done (secret_result (f.secret.marshal s))
    secrets ← done (encrypt_groups types key_groups seed secret)
    persist f.json i (f.secret.metadata s) secrets

  -- `Upsert`
  unfoldable pub upsert : List KeyType → ℕ → SecretId → f.secret.Value → M (Unit {0})
  upsert types seed i s = save types seed i s

  -- The secrets found so far, the latest first.
  abbrev pub Found : Type 0
  Found = List (SecretId × f.secret.Value)

  abbrev pub add_found :
      SecretId → Found → Result StoreError f.secret.Value → Result StoreError Found
  add_found i secrets (err e) = err e
  add_found i secrets (ok v) = ok ((i, v) ∷ secrets)

  -- What `Filter` does with what was restored: a secret that cannot be restored is passed over.
  abbrev pub collect :
      SecretId
      → Found
      → Result StoreError (List EncryptedSecret × Map Bytes)
      → Result StoreError Found
  collect i secrets (err e) = ok secrets
  collect i secrets (ok restored) = add_found i secrets (load i restored)

  abbrev pub visit :
      (Bytes → List Bytes) → SecretPattern → Result StoreError SecretId → Found → M Found
  visit listing pattern (err e) secrets root = (ok secrets, root)
  visit listing pattern (ok i) secrets root =
      if matches_id pattern i
      then (let o = restore_secret f.json (listing (id_to_dir_name i)) i root in
          (collect i secrets o.0, o.1))
      else (ok secrets, root)

  -- The walk of `Filter` over the names of the directories; `listing` is the order of the files in each.
  unfoldable pub filter_walk : (Bytes → List Bytes) → List Bytes → SecretPattern → Found → M Found
  filter_walk listing [] pattern secrets = done (ok secrets)
  filter_walk listing (name ∷ names) pattern secrets =
      visit listing pattern (dir_name_to_id name) secrets >>= filter_walk listing names pattern

  abbrev pub map_of : Found → Map f.secret.Value
  map_of [] = empty
  map_of ((i, v) ∷ secrets) = put i v (map_of secrets)

  abbrev pub found_map : Found → Result StoreError (Map f.secret.Value)
  found_map [] = err credential_not_found
  found_map (s ∷ secrets) = ok (map_of (s ∷ secrets))

  -- `Filter`
  unfoldable pub filter : (Bytes → List Bytes) → List Bytes → SecretPattern → M (Map f.secret.Value)
  filter listing names pattern = do
    try_lock
    secrets ← filter_walk listing names pattern []
    done (found_map secrets)

  abbrev pub visit_metadata : Bytes → Result StoreError SecretId → Found → M Found
  visit_metadata name (err e) secrets = done (ok secrets)
  visit_metadata name (ok i) secrets = do
    stat name
    metadata ← restore_metadata f.json name
    done (add_found i secrets (secret_result (f.secret.set_metadata metadata (f.factory i))))

  -- The walk of `GetAllMetadata`.
  unfoldable pub metadata_walk : List Bytes → Found → M Found
  metadata_walk [] secrets = done (ok secrets)
  metadata_walk (name ∷ names) secrets =
      visit_metadata name (dir_name_to_id name) secrets >>= metadata_walk names

  -- `GetAllMetadata`
  unfoldable pub get_all_metadata : List Bytes → M (Map f.secret.Value)
  get_all_metadata names = do try_lock; secrets ← metadata_walk names []; done (found_map secrets)
