-- ===== src/Posixage/SecretFile.antt =====
-- store/posixage/internal/secretfile/secret.go: the directory of a secret.
pub mod Persisting
pub mod Names
pub mod Restoring
use secrets_engine.Maps.{Map}
use secrets_engine.Posixage.{
  KeyType, EncryptedSecret, StoreError, json_error, invalid_directory_name, Json,
}
use secrets_engine.Posixage.Files.{
  Files, Root, M, ◌>>=◌, ◌>>◌, done, stat, remove_all, mkdir, create, write, sync, rename,
  read_file, read_dir,
}
use secrets_engine.Prelude.{
  ℕ, List, [], ◌∷◌, ◌++◌, Option, none, some, Result, ok, err, if◌then◌else◌,
}
use secrets_engine.Secrets.Identifier.{SecretId, ErrInvalidId, parse_id}
use secrets_engine.Text.{Bytes, codes}
use secrets_engine.Text.Base64.{encode_base64, decode_base64}
use secrets_engine.Text.Search.{replace_all, has_prefix}

-- `IDToDirName`
abbrev pub id_to_dir_name : SecretId → Bytes
id_to_dir_name i = encode_base64 i

abbrev pub parsed : Result ErrInvalidId SecretId → Result StoreError SecretId
parsed (err e) = err invalid_directory_name
parsed (ok i) = ok i

abbrev pub decoded : Option Bytes → Result StoreError SecretId
decoded none = err invalid_directory_name
decoded (some s) = parsed (parse_id s)

-- `DirNameToID`
unfoldable pub dir_name_to_id : Bytes → Result StoreError SecretId
dir_name_to_id dir_name = decoded (decode_base64 dir_name)

abbrev pub secret_file_name : Bytes
secret_file_name = codes "secret"

abbrev pub metadata_file_name : Bytes
metadata_file_name = codes "metadata.json"

abbrev pub tmp_file_name : Bytes → Bytes
tmp_file_name file_name = file_name ++ codes ".tmp"

-- `atomicWrite`
unfoldable pub atomic_write : Bytes → Bytes → Bytes → M (Unit {0})
atomic_write dir file_name bytes = do
  create dir (tmp_file_name file_name)
  write dir (tmp_file_name file_name) bytes
  sync
  rename dir (tmp_file_name file_name) file_name

-- The loop of `Persist`.
unfoldable pub write_secrets : Bytes → List EncryptedSecret → M (Unit {0})
write_secrets dir [] = done (ok tt)
write_secrets dir (s ∷ secrets) =
    atomic_write dir (secret_file_name ++ s.key_type) s.encrypted_data >> write_secrets dir secrets

abbrev pub clear_found : Bytes → Result StoreError (Unit {0}) → M (Unit {0})
clear_found dir (err e) root = (ok tt, root)
clear_found dir (ok u) root = remove_all dir root

-- The directory is removed if it is there.
unfoldable pub clear_old : Bytes → M (Unit {0})
clear_old dir root = clear_found dir (stat dir root).0 (stat dir root).1

abbrev pub cleaned :
    Bytes → Result StoreError (Unit {0}) → Root → Result StoreError (Unit {0}) × Root
cleaned dir (err e) root = (err e, (remove_all dir root).1)
cleaned dir (ok u) root = (ok u, root)

-- The deferred function of `Persist`: the directory is removed if an error occurs.
abbrev pub or_remove : Bytes → M (Unit {0}) → M (Unit {0})
or_remove dir m root = cleaned dir (m root).0 (m root).1

abbrev pub json_result : {A : Type 0} → Result ℕ A → Result StoreError A
json_result (err e) = err (json_error e)
json_result (ok a) = ok a

module _ (json : Json) where
  -- What `Persist` does in the new directory.
  unfoldable pub fill : Bytes → Map Bytes → List EncryptedSecret → M (Unit {0})
  fill dir metadata secrets = do
    stat dir
    meta ← done (json_result (json.marshal metadata))
    atomic_write dir metadata_file_name meta
    write_secrets dir secrets

  -- `Persist`
  unfoldable pub persist : SecretId → Map Bytes → List EncryptedSecret → M (Unit {0})
  persist i metadata secrets = do
    clear_old (id_to_dir_name i)
    mkdir (id_to_dir_name i)
    or_remove (id_to_dir_name i) (fill (id_to_dir_name i) metadata secrets)

  -- `RestoreMetadata`
  unfoldable pub restore_metadata : Bytes → M (Map Bytes)
  restore_metadata dir = do
    b ← read_file dir metadata_file_name
    done (json_result (json.unmarshal b))

  abbrev pub add_secret :
      Bytes → Result StoreError Bytes → List EncryptedSecret → List EncryptedSecret
  add_secret name (err e) secrets = secrets
  add_secret name (ok encrypted_data) secrets =
      record { key_type = replace_all secret_file_name [] name; encrypted_data = encrypted_data }
      ∷ secrets

  -- The loop of `RestoreSecret` over the names; a file that cannot be read is passed over.
  unfoldable pub read_secrets : Bytes → List Bytes → Root → List EncryptedSecret × Root
  read_secrets dir [] root = ([], root)
  read_secrets dir (name ∷ names) root =
      let skipped = read_secrets dir names root in
      let o = read_file dir name root in
      let rest = read_secrets dir names o.1 in
      if has_prefix secret_file_name name then (add_secret name o.0 rest.0, rest.1) else skipped

  -- `RestoreSecret`; `listing` is the order in which `fs.ReadDir` names the files.
  unfoldable pub restore_secret : List Bytes → SecretId → M (List EncryptedSecret × Map Bytes)
  restore_secret listing i = do
    stat (id_to_dir_name i)
    metadata ← restore_metadata (id_to_dir_name i)
    names ← read_dir (id_to_dir_name i) listing
    λ root. let o = read_secrets (id_to_dir_name i) names root in (ok (o.0, metadata), o.1)
