-- ===== src/Keychain/Windows/Cleaning.antt =====
-- store/keychain/keychain_windows.go: cleaning the attributes of a credential that counts its chunks.
use mathlib.Core.Path.{fun_ext}
use secrets_engine.Keychain.Metadata.{Attributes, x_prefix, safely_clean_metadata, drop_internal}
use secrets_engine.Keychain.Metadata.Plain.{
  without, strip_keys_plain, elem-without, distinct-without,
}
use secrets_engine.Keychain.Metadata.RoundTrip.{
  NoClash, stored, stored-x, stored_other, safely_clean_metadata-stored,
}
use secrets_engine.Keychain.Windows.{chunk_count_key}
use secrets_engine.Maps.{put, remove, elem, IsKeys}
use secrets_engine.Prelude.{◌≡◌, refl, sym, ap, ◌∙◌, inl, inr, true, false, List, ◌++◌, none, arith}
use secrets_engine.Secrets.Identifier.{SecretId}
use secrets_engine.Text.{Bytes, equal, equal_refl, equal_ne, Bytes-cases, cut_prefix}

drop_internal-put :
    (c : Bytes) (m : Attributes) (j : Bytes)
    → drop_internal (put chunk_count_key c m) j ≡ put chunk_count_key c (drop_internal m) j
unfolding drop_internal
drop_internal-put c m j = elim (Bytes-cases chunk_count_key j) [
  | inl e ↦ rw (sym e) (unfold equal in refl)
  | inr n ↦ rw (equal_ne chunk_count_key j n)
]

module _ (metadata : Attributes) (keys : List Bytes) (visited : IsKeys metadata keys)
    (clear : NoClash metadata) (service_group service_name : Bytes) (i : SecretId) (count : Bytes)
    (uncounted : metadata chunk_count_key ≡ none) where
  abbrev plain : Attributes
  plain = drop_internal (stored metadata keys visited clear service_group service_name i)

  abbrev pub chunked : Attributes
  chunked =
      put chunk_count_key count (stored metadata keys visited clear service_group service_name i)

  plain-count : plain chunk_count_key ≡ none
  plain-count =
      stored_other metadata keys visited clear service_group service_name i chunk_count_key
        (λ k e. ground arith)

  remove-chunked : remove chunk_count_key (drop_internal chunked) ≡ plain
  remove-chunked = fun_ext (λ j. elim (Bytes-cases chunk_count_key j) [
    | inl e ↦ rw (sym e, equal_refl chunk_count_key) (sym plain-count)
    | inr n ↦
        rw
          (
            equal_ne chunk_count_key j n,
            drop_internal-put count
                (stored metadata keys visited clear service_group service_name i) j,
          )
          (rw (equal_ne chunk_count_key j n))
  ])

  module _ (left : List Bytes) (visited_left : IsKeys (drop_internal chunked) left) where
    without-IsKeys : IsKeys plain (without chunk_count_key left)
    without-IsKeys = record {
      visits = λ j.
          elem-without chunk_count_key left j visited_left.once
          ∙ rw (visited_left.visits j)
              (rw (sym (ap (λ (m : Attributes). m j) remove-chunked)) (ground arith));
      once = distinct-without chunk_count_key left visited_left.once;
    }

    counted_left : elem chunk_count_key left ≡ true
    counted_left =
        visited_left.visits chunk_count_key
        ∙ rw (
          drop_internal-put count (stored metadata keys visited clear service_group service_name i)
              chunk_count_key,
          equal_refl chunk_count_key,
        )

    no_x_left : elem (x_prefix ++ chunk_count_key) left ≡ false
    no_x_left =
        visited_left.visits (x_prefix ++ chunk_count_key)
        ∙ rw
            (drop_internal-put count
              (stored metadata keys visited clear service_group service_name i)
              (x_prefix ++ chunk_count_key))
            (unfold equal in
              rw (
                stored-x metadata keys visited clear service_group service_name i chunk_count_key,
                uncounted,
              ))

    -- Cleaning gives the metadata back in the presence of a count of chunks too, if the metadata has no
    -- key of that name itself.
    pub safely_clean_metadata-chunked :
        (j : Bytes) → safely_clean_metadata left chunked j ≡ metadata j
    safely_clean_metadata-chunked j =
        unfold safely_clean_metadata in
        ap (λ (m : Attributes). m j)
          (strip_keys_plain chunk_count_key left (drop_internal chunked) (unfold cut_prefix in refl)
            counted_left no_x_left)
        ∙ rw remove-chunked (
            safely_clean_metadata-stored metadata keys visited clear service_group service_name i
              (without chunk_count_key left) without-IsKeys j)
