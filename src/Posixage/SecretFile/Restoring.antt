-- ===== src/Posixage/SecretFile/Restoring.antt =====
-- store/posixage/internal/secretfile/secret.go: `RestoreSecret` reads what `Persist` wrote.
use secrets_engine.Maps.{Map, empty, elem, is_some}
use secrets_engine.Posixage.{
  KeyType, password_key_type, age_key_type, ssh_key_type, EncryptedSecret, Json,
}
use secrets_engine.Posixage.Files.{Files, Root, file_of, stat, read_file, read_dir}
use secrets_engine.Posixage.Files.Runs.{AtMostOne}
use secrets_engine.Posixage.SecretFile.{
  id_to_dir_name, secret_file_name, metadata_file_name, add_secret, read_secrets, restore_metadata,
  restore_secret, persist,
}
use secrets_engine.Posixage.SecretFile.Persisting.{with_file, with_secrets, persisted, persist_lem}
use secrets_engine.Posixage.Store.{encrypted_with}
use secrets_engine.Prelude.{
  ◌≡◌, refl, sym, ap, ◌∙◌, inl, inr, true, false, List, [], ◌∷◌, ◌++◌, Option, none, some, ok, All,
  Bool-cases, if◌then◌else◌,
}
use secrets_engine.Secrets.Identifier.{SecretId}
use secrets_engine.Text.{Bytes, equal, equal_iff, cut_prefix}
use secrets_engine.Text.Search.{replace_all, has_prefix}

-- The types of keys that the store makes.
pub data IsKeyType : KeyType → Type 0 where
  password : IsKeyType password_key_type
  age : IsKeyType age_key_type
  ssh : IsKeyType ssh_key_type

abbrev pub file_name : KeyType → Bytes
file_name k = secret_file_name ++ k

-- The names of the files of a secret.
pub data IsFileName : Bytes → Type 0 where
  of_metadata : IsFileName metadata_file_name
  of_secret : {k : KeyType} → IsKeyType k → IsFileName (file_name k)

with_file-secret :
    (k j : KeyType) (bytes : Bytes) (files : Files)
    → IsKeyType k
    → IsKeyType j
    → with_file (file_name j) bytes files (file_name k)
      ≡ (if equal j k then some bytes else files (file_name k))
unfolding equal
with_file-secret k j bytes files password password = refl
with_file-secret k j bytes files password age = refl
with_file-secret k j bytes files password ssh = refl
with_file-secret k j bytes files age password = refl
with_file-secret k j bytes files age age = refl
with_file-secret k j bytes files age ssh = refl
with_file-secret k j bytes files ssh password = refl
with_file-secret k j bytes files ssh age = refl
with_file-secret k j bytes files ssh ssh = refl

with_file-metadata :
    (k : KeyType) (bytes : Bytes) (files : Files)
    → IsKeyType k
    → (with_file metadata_file_name bytes files (file_name k) ≡ files (file_name k))
      × (with_file (file_name k) bytes files metadata_file_name ≡ files metadata_file_name)
unfolding equal
with_file-metadata k bytes files password = (refl, refl)
with_file-metadata k bytes files age = (refl, refl)
with_file-metadata k bytes files ssh = (refl, refl)

-- The data of the last of the secrets of a type.
abbrev pub last_with : KeyType → List EncryptedSecret → Option Bytes → Option Bytes
last_with k [] o = o
last_with k (s ∷ secrets) o =
    last_with k secrets (if equal s.key_type k then some s.encrypted_data else o)

abbrev pub HaveKeyTypes : List EncryptedSecret → Type 0
HaveKeyTypes [] = Unit
HaveKeyTypes (s ∷ secrets) = IsKeyType s.key_type × HaveKeyTypes secrets

with_secrets-secret :
    (k : KeyType) (secrets : List EncryptedSecret) (files : Files)
    → IsKeyType k
    → HaveKeyTypes secrets
    → with_secrets secrets files (file_name k) ≡ last_with k secrets (files (file_name k))
with_secrets-secret k [] files h t = refl
with_secrets-secret k (s ∷ secrets) files h t =
    with_secrets-secret k secrets _ h t.1
    ∙ ap (last_with k secrets) (with_file-secret k s.key_type s.encrypted_data files h t.0)

with_secrets-metadata :
    (secrets : List EncryptedSecret) (files : Files)
    → HaveKeyTypes secrets
    → with_secrets secrets files metadata_file_name ≡ files metadata_file_name
with_secrets-metadata [] files t = refl
with_secrets-metadata (s ∷ secrets) files t =
    with_secrets-metadata secrets _ t.1
    ∙ (with_file-metadata s.key_type s.encrypted_data files t.0).1

-- A directory that holds these files, when no operation fails.
abbrev pub settled : Map Files → Root
settled dirs = record { dirs = dirs; faults = [] }

abbrev listed : KeyType → List Bytes → Option Bytes → Option Bytes
listed k names o = if elem (file_name k) names then o else none

file_name-prefix :
    (j : KeyType)
    → IsKeyType j
    → (has_prefix secret_file_name (file_name j) ≡ true)
      × (replace_all secret_file_name [] (file_name j) ≡ j)
unfolding replace_all cut_prefix
file_name-prefix j password = (refl, refl)
file_name-prefix j age = (refl, refl)
file_name-prefix j ssh = (refl, refl)

file_name-equal :
    (k j : KeyType) → IsKeyType k → IsKeyType j → equal (file_name k) (file_name j) ≡ equal j k
unfolding equal
file_name-equal k j password password = refl
file_name-equal k j password age = refl
file_name-equal k j password ssh = refl
file_name-equal k j age password = refl
file_name-equal k j age age = refl
file_name-equal k j age ssh = refl
file_name-equal k j ssh password = refl
file_name-equal k j ssh age = refl
file_name-equal k j ssh ssh = refl

file_name-metadata : (k : KeyType) → IsKeyType k → equal (file_name k) metadata_file_name ≡ false
unfolding equal
file_name-metadata k password = refl
file_name-metadata k age = refl
file_name-metadata k ssh = refl

metadata-prefix : has_prefix secret_file_name metadata_file_name ≡ false
unfolding cut_prefix
metadata-prefix = refl

module _ (json : Json) (d : Bytes) (dirs : Map Files) (files : Files) (k : KeyType)
    (h : IsKeyType k) (e : dirs d ≡ some files) where
  listed-none : (names : List Bytes) → listed k names none ≡ none
  listed-none names = elim (Bool-cases (elem (file_name k) names)) [
    | inl z ↦ rw z refl
    | inr z ↦ rw z refl
  ]

  -- What a file of a secret adds.
  add_listed :
      (j : KeyType) (names : List Bytes) (o : Option Bytes) (rest : List EncryptedSecret)
      → IsKeyType j
      → files (file_name j) ≡ o
      → encrypted_with k rest ≡ listed k names (files (file_name k))
      → encrypted_with k (add_secret json (file_name j) (file_of (some files) (file_name j)) rest)
        ≡ listed k (file_name j ∷ names) (files (file_name k))
  add_listed j names none rest t z ih = elim (Bool-cases (equal j k)) [
    | inl q ↦
        let absent = ap (λ i. files (file_name i)) (sym ((equal_iff j k).0 q)) ∙ z in
        rw (z, absent)
          (ih ∙ rw absent (listed-none names ∙ sym (listed-none (file_name j ∷ names))))
    | inr q ↦ rw (z, file_name-equal k j h t, q) ih
  ]
  add_listed j names (some bytes) rest t z ih = elim (Bool-cases (equal j k)) [
    | inl q ↦
        let present = ap (λ i. files (file_name i)) (sym ((equal_iff j k).0 q)) ∙ z in
        rw (z, (file_name-prefix j t).1, file_name-equal k j h t, q) (sym present)
    | inr q ↦ rw (z, (file_name-prefix j t).1, file_name-equal k j h t, q) ih
  ]

  read_step :
      {n : Bytes} (names : List Bytes) (rest : List EncryptedSecret × Root)
      → IsFileName n
      → (encrypted_with k rest.0 ≡ listed k names (files (file_name k))) × (rest.1 ≡ settled dirs)
      → (encrypted_with k
            (if has_prefix secret_file_name n
              then (add_secret json n (file_of (dirs d) n) rest.0, rest.1)
              else rest).0
          ≡ listed k (n ∷ names) (files (file_name k)))
        × ((if has_prefix secret_file_name n
              then (add_secret json n (file_of (dirs d) n) rest.0, rest.1)
              else rest).1
            ≡ settled dirs)
  read_step names rest of_metadata ih = rw (metadata-prefix, file_name-metadata k h) ih
  read_step names rest (of_secret {k = j} t) ih =
      rw ((file_name-prefix j t).0, e)
        (add_listed j names (files (file_name j)) rest.0 t refl ih.0, ih.1)

  read_secrets-settled :
      (names : List Bytes)
      → All IsFileName names
      → (encrypted_with k (read_secrets json d names (settled dirs)).0
          ≡ listed k names (files (file_name k)))
        × ((read_secrets json d names (settled dirs)).1 ≡ settled dirs)
  unfolding read_secrets read_file
  read_secrets-settled [] t = (refl, refl)
  read_secrets-settled (n ∷ names) t =
      read_step names (read_secrets json d names (settled dirs)) t.0
        (read_secrets-settled names t.1)

metadata_file :
    (meta : Bytes) → with_file metadata_file_name meta empty metadata_file_name ≡ some meta
unfolding equal
metadata_file meta = refl

if_some : (o : Option Bytes) → (if is_some o then o else none) ≡ o
if_some none = refl
if_some (some bytes) = refl

stat-settled :
    (d : Bytes) (dirs : Map Files) (files : Files)
    → dirs d ≡ some files
    → stat d (settled dirs) ≡ (ok tt, settled dirs)
unfolding stat
stat-settled d dirs files e = rw e refl

read_file-settled :
    (d name bytes : Bytes) (dirs : Map Files) (files : Files)
    → dirs d ≡ some files
    → files name ≡ some bytes
    → read_file d name (settled dirs) ≡ (ok bytes, settled dirs)
unfolding read_file
read_file-settled d name bytes dirs files e f = rw (e, f) refl

restore_metadata-settled :
    (json : Json) (d : Bytes) (dirs : Map Files) (files : Files) (meta : Bytes)
    (metadata : Map Bytes)
    → dirs d ≡ some files
    → files metadata_file_name ≡ some meta
    → json.unmarshal meta ≡ ok metadata
    → restore_metadata json d (settled dirs) ≡ (ok metadata, settled dirs)
unfolding restore_metadata
restore_metadata-settled json d dirs files meta metadata e f u =
    rw (read_file-settled d metadata_file_name meta dirs files e f, u) refl

restore_secret-settled :
    (json : Json) (i : SecretId) (dirs : Map Files) (files : Files) (meta : Bytes)
    (metadata : Map Bytes) (listing : List Bytes)
    → dirs (id_to_dir_name i) ≡ some files
    → files metadata_file_name ≡ some meta
    → json.unmarshal meta ≡ ok metadata
    → All IsFileName listing
    → restore_secret json listing i (settled dirs) ≡ (
      ok ((read_secrets json (id_to_dir_name i) listing (settled dirs)).0, metadata),
      settled dirs,
    )
unfolding restore_secret read_dir
restore_secret-settled json i dirs files meta metadata listing e f u t =
    rw
      (
        stat-settled (id_to_dir_name i) dirs files e,
        restore_metadata-settled json (id_to_dir_name i) dirs files meta metadata e f u,
        (read_secrets-settled json (id_to_dir_name i) dirs files password_key_type password e
            listing t).1,
      )
      refl

-- Let the codec read back what it wrote for the metadata, let the secrets have the types of keys that the
-- store makes, and let `persist` succeed, though one operation on files may have failed. Then
-- `restore_secret`, when no operation fails, returns that metadata and, for each type of key, the data of
-- the last secret of the type, or none if there is none. This holds for every order in which the directory
-- lists its files: those of the secrets and no other but that of the metadata.
pub restore_secret-persist :
    (json : Json) (i : SecretId) (metadata : Map Bytes) (meta : Bytes)
    (secrets : List EncryptedSecret) (s : Root) (listing : List Bytes)
    → json.marshal metadata ≡ ok meta
    → json.unmarshal meta ≡ ok metadata
    → HaveKeyTypes secrets
    → AtMostOne s.faults
    → (persist json i metadata secrets s).0 ≡ ok tt
    → All IsFileName listing
    → ((k : KeyType)
        → IsKeyType k
        → elem (file_name k) listing ≡ is_some (last_with k secrets none))
    → (restored : List EncryptedSecret) × ((restore_secret json listing i
          (settled (persist json i metadata secrets s).1.dirs)).0
        ≡ ok (restored, metadata))
      × ((k : KeyType) → IsKeyType k → encrypted_with k restored ≡ last_with k secrets none)
restore_secret-persist json i metadata meta secrets s listing m u types one done names all =
    let d = id_to_dir_name i in
    let t = (persist json i metadata secrets s).1 in
    let there = (rw done at (persist_lem json i metadata meta secrets s m one)).1 in
    let files = persisted meta secrets in
    let first = with_file metadata_file_name meta empty in
    let kept = with_secrets-metadata secrets first types ∙ metadata_file meta in
    (
      (read_secrets json d listing (settled t.dirs)).0,
      rw (restore_secret-settled json i t.dirs files meta metadata listing there kept u names) refl,
      λ k h.
          let at_name =
            with_secrets-secret k secrets first h types
            ∙ ap (last_with k secrets) (with_file-metadata k meta empty h).0 in
          (read_secrets-settled json d t.dirs files k h there listing names).0
          ∙ rw (at_name, all k h) (if_some (last_with k secrets none)),
    )
