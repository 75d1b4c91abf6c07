-- ===== src/Keychain/Windows/Store.antt =====
-- store/keychain/keychain_windows.go: the methods that read, write and delete one secret. `none` is a
-- run of `delete_chunks` that its fuel cuts short.
use secrets_engine.Keychain.Metadata.{
  Attributes, safely_set_metadata, safely_set_id, safely_clean_metadata,
}
use secrets_engine.Keychain.Windows.{
  Credential, WinError, element_not_found, KeychainError, invalid_chunk_count, secret_error,
  codec_error, KeychainStore, max_blob_size, chunk_count_key, chunk_index_key, item_label,
  item_chunk_label, map_windows_credential_error, map_to_windows_attributes,
  map_from_windows_attributes,
}
use secrets_engine.Keychain.Windows.Chunks.{chunk_blob}
use secrets_engine.Maps.{empty, put}
use secrets_engine.Prelude.{
  ℕ, zero, suc, List, [], ◌∷◌, ◌++◌, Option, none, some, Result, ok, err, ◌>>=◌, ltb, if◌then◌else◌,
  length,
}
use secrets_engine.Secrets.Identifier.{SecretId}
use secrets_engine.Text.{Bytes}
use secrets_engine.Text.Decimal.{itoa, atoi, ℤ, pos, negsuc}

abbrev pub Outcome : Type 0 → Type 0
Outcome S = Result KeychainError (Unit {0}) × S

abbrev map_error : {E F A : Type 0} → (E → F) → Result E A → Result F A
map_error f (err e) = err (f e)
map_error f (ok a) = ok a

-- What a failed deletion comes to: a missing credential is no error.
abbrev delete_failed : {S : Type 0} → WinError → S → Outcome S
delete_failed element_not_found s = (ok tt, s)
delete_failed e s = (err (map_windows_credential_error e), s)

-- What a deletion comes to.
abbrev pub deletion : {S : Type 0} → Result WinError (Unit {0}) → S → Outcome S
deletion (err e) s = delete_failed e s
deletion (ok u) s = (ok tt, s)

-- What a write returns.
abbrev pub written : {S : Type 0} → Result WinError (Unit {0}) → S → Outcome S
written r s = (map_error map_windows_credential_error r, s)

module _ {S : Type 0} (k : KeychainStore S) where
  -- `encodeSecret`
  unfoldable pub encode_secret : k.secret.Value → Result KeychainError Bytes
  encode_secret v =
      map_error secret_error (k.secret.marshal v)
      >>= (λ bytes. map_error codec_error (k.codec.encode bytes))

  -- `decodeSecret`; the secret that it fills is given and returned.
  unfoldable pub decode_secret : Bytes → k.secret.Value → Result KeychainError k.secret.Value
  decode_secret blob v =
      map_error codec_error (k.codec.decode blob)
      >>= (λ val. map_error secret_error (k.secret.unmarshal val v))

  -- The loop of `readChunks`: the number of rounds left, the index and what is read so far.
  unfoldable pub read_loop : SecretId → ℕ → ℕ → Bytes → S → Result KeychainError Bytes
  read_loop i zero index blob s = ok blob
  read_loop i (suc rounds) index blob s =
      elim (k.wincred.get_generic_credential (item_chunk_label k i index) s) [
        | err e ↦ err (map_windows_credential_error e)
        | ok gc ↦ read_loop i rounds (suc index) (blob ++ gc.credential_blob) s
      ]

  -- `readChunks`; a loop over a negsuc count has no round.
  unfoldable pub read_chunks : SecretId → ℤ → S → Result KeychainError Bytes
  read_chunks i (pos count) s = read_loop i count 0 [] s
  read_chunks i (negsuc count) s = ok []

  -- The loop of `deleteChunks` from an index on.
  unfoldable pub delete_loop : ℕ → SecretId → ℕ → S → Option (Outcome S)
  delete_loop zero i index s = none
  delete_loop (suc f) i index s =
      let (r, s') = k.wincred.delete_credential (item_chunk_label k i index) s in
      elim r [ err e ↦ some (delete_failed e s') | ok u ↦ delete_loop f i (suc index) s' ]

  -- `deleteChunks`
  unfoldable pub delete_chunks : ℕ → SecretId → S → Option (Outcome S)
  unfolding delete_loop
  delete_chunks fuel i s = delete_loop fuel i 0 s

  -- The call at the end of `Delete`.
  abbrev pub delete_primary : SecretId → S → Outcome S
  delete_primary i s =
      deletion (k.wincred.delete_credential (item_label k i) s).0
        (k.wincred.delete_credential (item_label k i) s).1

  -- `Delete`
  unfoldable pub delete : ℕ → SecretId → S → Option (Outcome S)
  delete fuel i s = elim (delete_chunks fuel i s) [
    | none ↦ none
    | some o ↦ elim o.0 [ err e ↦ some (err e, o.1) | ok u ↦ some (delete_primary i o.1) ]
  ]

  -- The blob of a credential, from its chunks if it has a count of them.
  unfoldable pub raw_blob : SecretId → Credential → S → Result KeychainError Bytes
  raw_blob i gc s = elim (map_from_windows_attributes gc.attributes chunk_count_key) [
    | none ↦ ok gc.credential_blob
    | some count_str ↦ elim (atoi count_str) [
      | none ↦ err (invalid_chunk_count count_str)
      | some count ↦ read_chunks i count s
    ]
  ]

  -- `loadSecret`, which `Get` spells out; `keys` is what `maps.Keys` yields.
  unfoldable pub load_secret :
      List Bytes → SecretId → Credential → S → Result KeychainError k.secret.Value
  load_secret keys i gc s = raw_blob i gc s >>= (λ blob.
      map_error secret_error (
        k.secret.set_metadata
          (safely_clean_metadata keys (map_from_windows_attributes gc.attributes)) (k.factory i))
      >>= (λ secret. decode_secret blob secret))

  -- `Get`
  unfoldable pub get : List Bytes → SecretId → S → Result KeychainError k.secret.Value
  get keys i s =
      map_error map_windows_credential_error (k.wincred.get_generic_credential (item_label k i) s)
      >>= (λ gc. load_secret keys i gc s)

  abbrev pub chunk_credential : SecretId → ℕ → Bytes → Credential
  chunk_credential i index chunk = record {
    target_name = item_chunk_label k i index;
    user_name = i;
    credential_blob = chunk;
    attributes =
        map_to_windows_attributes (chunk_index_key ∷ []) (put chunk_index_key (itoa index) empty);
  }

  -- The loop of `Save` over the chunks.
  unfoldable pub write_chunks : SecretId → ℕ → List Bytes → S → Outcome S
  write_chunks i index [] s = (ok tt, s)
  write_chunks i index (chunk ∷ chunks) s =
      let o = k.wincred.write_credential (chunk_credential i index chunk) s in
      elim o.0 [
        | err e ↦ (err (map_windows_credential_error e), o.1)
        | ok u ↦ write_chunks i (suc index) chunks o.1
      ]

  -- The call at the end of `Save`.
  abbrev pub write_primary : Credential → S → Outcome S
  write_primary g s = written (k.wincred.write_credential g s).0 (k.wincred.write_credential g s).1

  -- The credential that `Save` writes last.
  abbrev pub primary_credential : SecretId → Bytes → List Bytes → Attributes → Credential
  primary_credential i blob keys attributes = record {
    target_name = item_label k i;
    user_name = i;
    credential_blob = blob;
    attributes = map_to_windows_attributes keys attributes;
  }

  -- What follows the loop over the chunks.
  abbrev pub after_chunks : Credential → Result KeychainError (Unit {0}) → S → Outcome S
  after_chunks g (err e) s = (err e, s)
  after_chunks g (ok u) s = write_primary g s

  -- The second half of `Save`, after the stale chunks are gone; `keys` is the order of the attributes.
  unfoldable pub write_secret : SecretId → Bytes → List Bytes → Attributes → S → Outcome S
  write_secret i blob keys attributes s =
      let chunks = chunk_blob blob max_blob_size in
      if ltb max_blob_size (length blob)
      then after_chunks
          (primary_credential i [] keys (put chunk_count_key (itoa (length chunks)) attributes))
          (write_chunks i 0 chunks s).0 (write_chunks i 0 chunks s).1
      else write_primary (primary_credential i blob keys attributes) s

  -- The attributes of a secret's item.
  abbrev pub item_attributes : List Bytes → SecretId → k.secret.Value → Attributes
  item_attributes keys i v =
      safely_set_id i
        (safely_set_metadata k.service_group k.service_name keys (k.secret.metadata v))

  -- `Save`; `metadata_keys` is what `maps.Keys` yields on the secret's metadata.
  unfoldable pub save :
      ℕ → List Bytes → List Bytes → SecretId → k.secret.Value → S → Option (Outcome S)
  save fuel metadata_keys keys i v s = elim (encode_secret v) [
    | err e ↦ some (err e, s)
    | ok blob ↦ elim (delete_chunks fuel i s) [
      | none ↦ none
      | some o ↦ elim o.0 [
        | err e ↦ some (err e, o.1)
        | ok u ↦ some (write_secret i blob keys (item_attributes metadata_keys i v) o.1)
      ]
    ]
  ]

  -- `Upsert`
  unfoldable pub upsert :
      ℕ → List Bytes → List Bytes → SecretId → k.secret.Value → S → Option (Outcome S)
  upsert fuel metadata_keys keys i v s = save fuel metadata_keys keys i v s
