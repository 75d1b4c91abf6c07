-- ===== src/Keychain/Windows/Writing.antt =====
-- store/keychain/keychain_windows.go: what `Save` writes, and that the reading functions find it.
use secrets_engine.Keychain.Metadata.{Attributes}
use secrets_engine.Keychain.Windows.{
  Credential, KeychainStore, max_blob_size, item_label, item_chunk_label, chunk_count_key,
  chunk_index_key, map_from_windows_attributes, map_to_windows_attributes,
}
use secrets_engine.Keychain.Windows.AttributeLists.{map_from-map_to}
use secrets_engine.Keychain.Windows.Chunks.{
  chunk_blob, chunk_blob_lem, length-chunk_blob, concat, FullChunks,
}
use secrets_engine.Keychain.Windows.Manager.{
  IsManager, IsText, IsLabel, IsWithinLimits, chunk-IsTargetName, primary_name, chunk_name,
  chunk_name_inj, primary_name-ne-chunk_name,
}
use secrets_engine.Keychain.Windows.Store.{
  read_loop, read_chunks, raw_blob, chunk_credential, primary_credential, write_chunks,
  write_secret,
}
use secrets_engine.Maps.{Map, put, IsKeys}
use secrets_engine.Prelude.{
  ℕ, suc, ◌+◌, ◌≤◌, ◌≡◌, refl, sym, ap, ◌∙◌, ◌≢◌, true, false, List, [], ◌∷◌, ◌++◌, some, none, ok,
  arith, if◌then◌else◌, ltb, length, All, inl, inr, Bool-cases,
}
use mathlib.Core.List.{append-nil, append_assoc}
use secrets_engine.Secrets.Identifier.{SecretId}
use secrets_engine.Text.{Bytes, equal, equal_refl, equal_ne}
use secrets_engine.Text.Utf8.{ascii-IsUtf8}
use secrets_engine.Text.Decimal.{itoa, atoi-itoa, length-itoa}

abbrev Small : List Bytes → Type 0
Small = All (λ c. length c ≤ max_blob_size)

FullChunks-Small : (cs : List Bytes) → FullChunks max_blob_size cs → Small cs
FullChunks-Small [] h = tt
FullChunks-Small (c ∷ []) h = (h.1, tt)
FullChunks-Small (c ∷ d ∷ cs) h = (omega arith, FullChunks-Small (d ∷ cs) h.1)

-- The attributes of the primary credential: with the number of the chunks, if there are any.
abbrev pub counted : Bytes → Attributes → Attributes
counted blob attributes =
    if ltb max_blob_size (length blob)
    then put chunk_count_key (itoa (length (chunk_blob blob max_blob_size))) attributes
    else attributes

module _ {S : Type 0} (k : KeychainStore S) (fold : Bytes → Bytes) (i : SecretId) where
  -- The state has a primary credential with these attributes, and the blob is read from it.
  abbrev pub Holds : (S → Map Credential) → S → Bytes → List Bytes → Attributes → Type 0
  Holds view s blob keys attributes =
      (gc : Credential) × (view s (primary_name k fold i) ≡ some gc)
      × (gc.attributes ≡ map_to_windows_attributes keys attributes)
      × (raw_blob k i gc s ≡ ok blob)

  -- The chunks stand under their names, from an index on.
  abbrev pub StoresChunks : Map Credential → ℕ → List Bytes → Type 0
  StoresChunks m index [] = Unit
  StoresChunks m index (c ∷ cs) =
      (m (chunk_name k fold i index) ≡ some (chunk_credential k i index c))
      × StoresChunks m (suc index) cs

  StoresChunks-frame :
      (m m' : Map Credential) (index : ℕ) (cs : List Bytes)
      → ((n : ℕ) → m' (chunk_name k fold i n) ≡ m (chunk_name k fold i n))
      → StoresChunks m index cs
      → StoresChunks m' index cs
  StoresChunks-frame m m' index [] e h = tt
  StoresChunks-frame m m' index (c ∷ cs) e h =
      (e index ∙ h.0, StoresChunks-frame m m' (suc index) cs e h.1)

module _ {S : Type 0} (k : KeychainStore S) (i : SecretId) (label : IsLabel (item_label k i))
    (user : IsText 513 i) where
  -- The credential of a chunk is within the limits.
  chunk_credential-IsWithinLimits :
      (index : ℕ) (c : Bytes)
      → index ≤ 9223372036854775807
      → IsWithinLimits (chunk_credential k i index c)
  unfolding map_to_windows_attributes equal
  chunk_credential-IsWithinLimits index c b = (
    chunk-IsTargetName k i index label b,
    user,
    omega arith,
    (
      (
        omega arith,
        (omega arith, ascii-IsUtf8 chunk_index_key (ground arith)),
        omega (arith, length-itoa index b),
      ),
      tt,
    ),
  )

module _ {S : Type 0} (k : KeychainStore S) (fold : Bytes → Bytes) (view : S → Map Credential)
    (IsHealthy : S → Type 0) (manager : IsManager k.wincred fold view IsHealthy) (i : SecretId)
    (label : IsLabel (item_label k i)) where
  write_chunks_lem :
      (index : ℕ) (cs : List Bytes) (s : S)
      → IsText 513 i
      → index + length cs ≤ 9223372036854775807
      → IsHealthy s
      → Small cs
      → (s' : S) × (write_chunks k i index cs s ≡ (ok tt, s'))
        × IsHealthy s'
        × StoresChunks k fold i (view s') index cs
        × ((j : Bytes) → ((n : ℕ) → index ≤ n → j ≢ chunk_name k fold i n) → view s' j ≡ view s j)
  unfolding write_chunks
  write_chunks_lem index [] s u r h b = (s, refl, h, tt, λ j a. refl)
  write_chunks_lem index (c ∷ cs) s u r h b =
      let w =
        manager.write_view (chunk_credential k i index c) s h b.0
          (chunk_credential-IsWithinLimits k i label u index c (omega arith)) in
      let s1 = (k.wincred.write_credential (chunk_credential k i index c) s).1 in
      let ih = write_chunks_lem (suc index) cs s1 u (omega arith) w.1 b.1 in
      (
        ih.0,
        rw (write_chunks, w.0) ih.1,
        ih.2,
        (
          ih.4 (chunk_name k fold i index)
                (λ n l e. omega (arith, chunk_name_inj k fold manager.folds i index n e))
              ∙ w.2 (chunk_name k fold i index)
              ∙ rw (equal_refl (chunk_name k fold i index)),
          ih.3,
        ),
        λ j a.
            ih.4 j (λ n l. a n (omega arith))
            ∙ w.2 j
            ∙ rw (equal_ne (chunk_name k fold i index) j (λ e. a index (omega arith) (sym e))),
      )

  read_loop_lem :
      (index : ℕ) (cs : List Bytes) (blob : Bytes) (s : S)
      → index + length cs ≤ 9223372036854775807
      → IsHealthy s
      → StoresChunks k fold i (view s) index cs
      → read_loop k i (length cs) index blob s ≡ ok (blob ++ concat cs)
  unfolding read_loop
  read_loop_lem index [] blob s b h c = rw append-nil
  read_loop_lem index (x ∷ cs) blob s b h c =
      rw
        (
          read_loop,
          manager.get_view (item_chunk_label k i index) s h
              (chunk-IsTargetName k i index label (omega arith)),
          c.0,
        )
        (read_loop_lem (suc index) cs (blob ++ x) s (omega arith) h c.1 ∙ rw append_assoc)

  raw_blob_chunked :
      (gc : Credential) (cs : List Bytes) (s : S)
      → map_from_windows_attributes gc.attributes chunk_count_key ≡ some (itoa (length cs))
      → length cs ≤ 9223372036854775807
      → IsHealthy s
      → StoresChunks k fold i (view s) 0 cs
      → raw_blob k i gc s ≡ ok (concat cs)
  unfolding raw_blob read_chunks
  raw_blob_chunked gc cs s e b h c =
      rw (raw_blob, e, atoi-itoa (length cs) b, read_chunks)
        (read_loop_lem 0 cs [] s (omega arith) h c)

  raw_blob_single :
      (gc : Credential) (s : S)
      → map_from_windows_attributes gc.attributes chunk_count_key ≡ none
      → raw_blob k i gc s ≡ ok gc.credential_blob
  unfolding raw_blob
  raw_blob_single gc s e = rw (raw_blob, e) refl

  write_large :
      (blob : Bytes) (keys : List Bytes) (m : Attributes) (s : S)
      → IsHealthy s
      → IsWithinLimits (
          primary_credential k i [] keys
            (put chunk_count_key (itoa (length (chunk_blob blob max_blob_size))) m))
      → IsKeys (put chunk_count_key (itoa (length (chunk_blob blob max_blob_size))) m) keys
      → length blob ≤ 9223372036854775807
      → ltb max_blob_size (length blob) ≡ true
      → (s' : S) × (write_secret k i blob keys m s ≡ (ok tt, s'))
        × IsHealthy s'
        × Holds k fold i view s' blob keys
            (put chunk_count_key (itoa (length (chunk_blob blob max_blob_size))) m)
  unfolding write_secret
  write_large blob keys m s h fits v b t =
      let cs = chunk_blob blob max_blob_size in
      let m' = put chunk_count_key (itoa (length cs)) m in
      let cut = chunk_blob_lem blob max_blob_size (omega arith) in
      let w =
        write_chunks_lem 0 cs s fits.1 (omega (arith, length-chunk_blob blob max_blob_size)) h
          (FullChunks-Small cs cut.1) in
      let g = primary_credential k i [] keys m' in
      let p = manager.write_view g w.0 w.2 (omega arith) fits in
      let s' = (k.wincred.write_credential g w.0).1 in
      let kept =
        StoresChunks-frame k fold i (view w.0) (view s') 0 cs
          (λ n.
            p.2 (chunk_name k fold i n)
            ∙ rw (
                equal_ne (primary_name k fold i) (chunk_name k fold i n)
                  (primary_name-ne-chunk_name k fold manager.folds i n)))
          w.3 in
      let count = map_from-map_to keys m' v chunk_count_key ∙ rw (equal_refl chunk_count_key) in
      (
        s',
        rw (write_secret, t, w.1, p.0) refl,
        p.1,
        (
          g,
          p.2 (primary_name k fold i) ∙ rw (equal_refl (primary_name k fold i)),
          refl,
          raw_blob_chunked g cs s' count (omega (arith, length-chunk_blob blob max_blob_size)) p.1
                kept
              ∙ ap ok cut.0,
        ),
      )

  write_small :
      (blob : Bytes) (keys : List Bytes) (m : Attributes) (s : S)
      → IsHealthy s
      → IsWithinLimits (primary_credential k i [] keys (m))
      → IsKeys m keys
      → m chunk_count_key ≡ none
      → ltb max_blob_size (length blob) ≡ false
      → (s' : S) × (write_secret k i blob keys m s ≡ (ok tt, s'))
        × IsHealthy s'
        × Holds k fold i view s' blob keys m
  unfolding write_secret
  write_small blob keys m s h fits v z t =
      let g = primary_credential k i blob keys m in
      let p = manager.write_view g s h (ground arith) fits in
      let s' = (k.wincred.write_credential g s).1 in
      (
        s',
        rw (write_secret, t, p.0) refl,
        p.1,
        (
          g,
          p.2 (primary_name k fold i) ∙ rw (equal_refl (primary_name k fold i)),
          refl,
          raw_blob_single g s' (map_from-map_to keys m v chunk_count_key ∙ z),
        ),
      )

  -- The second half of `Save` writes a credential from which the blob is read, chunked or not.
  pub write_secret_lem :
      (blob : Bytes) (keys : List Bytes) (m : Attributes) (s : S)
      → IsHealthy s
      → IsWithinLimits (primary_credential k i [] keys (counted blob m))
      → IsKeys (counted blob m) keys
      → m chunk_count_key ≡ none
      → length blob ≤ 9223372036854775807
      → (s' : S) × (write_secret k i blob keys m s ≡ (ok tt, s'))
        × IsHealthy s'
        × Holds k fold i view s' blob keys (counted blob m)
  write_secret_lem blob keys m s h fits v z b =
      elim (Bool-cases (ltb max_blob_size (length blob))) [
        | inl t ↦ rw t (write_large blob keys m s h (rw t at fits) (rw t at v) b t)
        | inr t ↦ rw t (write_small blob keys m s h (rw t at fits) (rw t at v) z t)
      ]
