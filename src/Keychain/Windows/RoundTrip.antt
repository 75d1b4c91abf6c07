-- ===== src/Keychain/Windows/RoundTrip.antt =====
-- store/keychain/keychain_windows.go: `Get` after `Save`.
use mathlib.Core.Path.{fun_ext}
use secrets_engine.Keychain.Metadata.{safely_clean_metadata, drop_internal}
use secrets_engine.Keychain.Metadata.RoundTrip.{NoClash, safely_clean_metadata-stored}
use secrets_engine.Keychain.Windows.{
  KeychainStore, Credential, item_label, chunk_count_key, max_blob_size,
}
use secrets_engine.Keychain.Windows.AttributeLists.{map_from-map_to}
use secrets_engine.Keychain.Windows.Cleaning.{safely_clean_metadata-chunked}
use secrets_engine.Keychain.Windows.Deletion.{HasChunks}
use secrets_engine.Keychain.Windows.Manager.{
  IsManager, IsLabel, IsLabel-IsTargetName, IsWithinLimits,
}
use secrets_engine.Keychain.Windows.Saving.{save_lem}
use secrets_engine.Keychain.Windows.Store.{
  save, get, load_secret, item_attributes, primary_credential, decode_secret,
}
use secrets_engine.Keychain.Windows.Writing.{counted}
use secrets_engine.Maps.{Map, IsKeys}
use secrets_engine.Prelude.{
  ℕ, suc, ◌≤◌, ◌≡◌, refl, List, [], some, none, ok, length, inl, inr, Bool-cases, ltb,
}
use secrets_engine.Secrets.Identifier.{SecretId}
use secrets_engine.Text.{Bytes}

module _ {S : Type 0} (k : KeychainStore S) (fold : Bytes → Bytes) (view : S → Map Credential)
    (IsHealthy : S → Type 0) (manager : IsManager k.wincred fold view IsHealthy) (i : SecretId)
    (v : k.secret.Value) (metadata_keys : List Bytes)
    (visited : IsKeys (k.secret.metadata v) metadata_keys) (clear : NoClash (k.secret.metadata v))
    (uncounted : k.secret.metadata v chunk_count_key ≡ none) where
  cleaned :
      (blob : Bytes) (left : List Bytes)
      → IsKeys (drop_internal (counted blob (item_attributes k metadata_keys i v))) left
      → safely_clean_metadata left (counted blob (item_attributes k metadata_keys i v))
        ≡ k.secret.metadata v
  cleaned blob left u = fun_ext (λ j. elim (Bool-cases (ltb max_blob_size (length blob))) [
    | inl t ↦ rw t (
        safely_clean_metadata-chunked (k.secret.metadata v) metadata_keys visited clear
          k.service_group k.service_name i _ uncounted left (rw t at u) j)
    | inr t ↦ rw t (
        safely_clean_metadata-stored (k.secret.metadata v) metadata_keys visited clear
          k.service_group k.service_name i left (rw t at u) j)
  ])

  -- Suppose that the credential manager is healthy and holds exactly `n` stale chunks, at most 2^63 - 1; that
  -- the secret's label has at most 32,000 bytes, in UTF-8 and none of them zero; that the target name, the user name and
  -- the attributes that are to be stored are within the limits of the system; that no key of the secret's
  -- metadata is another one behind `x_` or is `chunk:count`; that marshalling and encoding give a blob of at
  -- most 2^63 - 1 bytes; and that decoding and unmarshalling undo them on a fresh secret with the same
  -- metadata.
  -- Then `save` with fuel over `n` ends without an error, and `get` returns that secret afterwards,
  -- whether it was chunked or not, and whatever the orders in which the loops visit the attributes.
  pub get-save :
      (fuel n : ℕ) (s : S) (bytes blob : Bytes) (keys left : List Bytes) (fresh v' : k.secret.Value)
      → IsHealthy s
      → IsLabel (item_label k i)
      → IsWithinLimits
          (primary_credential k i [] keys (counted blob (item_attributes k metadata_keys i v)))
      → n ≤ 9223372036854775807
      → HasChunks k fold i (view s) 0 n
      → suc n ≤ fuel
      → k.secret.marshal v ≡ ok bytes
      → k.codec.encode bytes ≡ ok blob
      → length blob ≤ 9223372036854775807
      → IsKeys (counted blob (item_attributes k metadata_keys i v)) keys
      → IsKeys (drop_internal (counted blob (item_attributes k metadata_keys i v))) left
      → k.secret.set_metadata (k.secret.metadata v) (k.factory i) ≡ ok fresh
      → k.codec.decode blob ≡ ok bytes
      → k.secret.unmarshal bytes fresh ≡ ok v'
      → (s' : S) × (save k fuel metadata_keys keys i v s ≡ some (ok tt, s'))
        × (get k left i s' ≡ ok v')
  unfolding get load_secret decode_secret
  get-save fuel n s bytes blob keys left fresh v' h label fits r c b m e l order order_left sm de
        un =
      let (s', saved, healthy, (gc, found, attrs, raw)) =
        save_lem k fold view IsHealthy manager i v metadata_keys visited clear fuel n s bytes blob
          keys h label fits r c b m e l order in
      let back =
        fun_ext (map_from-map_to keys (counted blob (item_attributes k metadata_keys i v)) order) in
      (
        s',
        saved,
        rw
            (
              manager.get_view (item_label k i) s' healthy (IsLabel-IsTargetName _ label),
              found,
              raw,
              attrs,
              back,
              cleaned blob left order_left,
              sm,
              de,
              un,
            )
            refl,
      )
