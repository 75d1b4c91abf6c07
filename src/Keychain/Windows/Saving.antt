-- ===== src/Keychain/Windows/Saving.antt =====
-- store/keychain/keychain_windows.go: `Save` as a whole, and `Get` after it.
use secrets_engine.Keychain.Metadata.{safely_set_id, drop_internal}
use secrets_engine.Keychain.Metadata.RoundTrip.{NoClash, stored_other}
use secrets_engine.Keychain.Windows.{item_label, KeychainStore, chunk_count_key, Credential}
use secrets_engine.Keychain.Windows.Deletion.{HasChunks, delete_loop_lem}
use secrets_engine.Keychain.Windows.Manager.{IsManager, IsLabel, IsWithinLimits}
use secrets_engine.Keychain.Windows.Store.{
  encode_secret, delete_chunks, save, item_attributes, primary_credential,
}
use secrets_engine.Keychain.Windows.Writing.{counted, Holds, write_secret_lem}
use secrets_engine.Maps.{Map, IsKeys}
use secrets_engine.Prelude.{ℕ, suc, ◌≤◌, ◌≡◌, refl, List, [], some, none, ok, length, arith}
use secrets_engine.Secrets.Identifier.{SecretId}
use secrets_engine.Text.{Bytes, equal}

module _ {S : Type 0} (k : KeychainStore S) (fold : Bytes → Bytes) (view : S → Map Credential)
    (IsHealthy : S → Type 0) (manager : IsManager k.wincred fold view IsHealthy) (i : SecretId)
    (v : k.secret.Value) (metadata_keys : List Bytes)
    (visited : IsKeys (k.secret.metadata v) metadata_keys)
    (clear : NoClash (k.secret.metadata v)) where
  uncounted : item_attributes k metadata_keys i v chunk_count_key ≡ none
  unfolding safely_set_id drop_internal equal
  uncounted =
      stored_other (k.secret.metadata v) metadata_keys visited clear k.service_group k.service_name
        i chunk_count_key (λ j e. ground arith)

  -- If the credential manager is healthy and holds exactly `n` stale chunks, and the credentials are within
  -- its limits, then `save` with fuel over `n` ends without an error, and leaves a credential with the secret's attributes from which the
  -- encoded secret is read, whether it had to be chunked or not.
  pub save_lem :
      (fuel n : ℕ) (s : S) (bytes blob : Bytes) (keys : List Bytes)
      → IsHealthy s
      → IsLabel (item_label k i)
      → IsWithinLimits
          (primary_credential k i [] keys (counted blob (item_attributes k metadata_keys i v)))
      → n ≤ 9223372036854775807
      → HasChunks k fold i (view s) 0 n
      → suc n ≤ fuel
      → k.secret.marshal v ≡ ok bytes
      → k.codec.encode bytes ≡ ok blob
      → length blob ≤ 9223372036854775807
      → IsKeys (counted blob (item_attributes k metadata_keys i v)) keys
      → (s' : S) × (save k fuel metadata_keys keys i v s ≡ some (ok tt, s'))
        × IsHealthy s'
        × Holds k fold i view s' blob keys (counted blob (item_attributes k metadata_keys i v))
  unfolding save encode_secret delete_chunks
  save_lem fuel n s bytes blob keys h label fits r c b m e l order =
      let chunks =
        delete_loop_lem k fold view IsHealthy manager i fuel n 0 s h label (omega arith) c b in
      let w =
        write_secret_lem k fold view IsHealthy manager i label blob keys
          (item_attributes k metadata_keys i v) chunks.0 chunks.2.0 fits order uncounted l in
      (w.0, rw (save, encode_secret, delete_chunks, m, e, chunks.1, w.1) refl, w.2, w.3)
