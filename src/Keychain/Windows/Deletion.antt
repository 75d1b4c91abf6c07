-- ===== src/Keychain/Windows/Deletion.antt =====
-- store/keychain/keychain_windows.go: what `deleteChunks` and `Delete` do to the credential manager.
use secrets_engine.Keychain.Windows.{
  Credential, credential_not_found, KeychainStore, item_label, item_chunk_label,
}
use secrets_engine.Keychain.Windows.Manager.{
  IsManager, FoldsCase, IsLabel, IsLabel-IsTargetName, chunk-IsTargetName, primary_name, chunk_name,
  chunk_name_inj, item_label_chunk,
}
use secrets_engine.Keychain.Windows.Store.{delete_loop, delete_chunks, delete, get}
use secrets_engine.Maps.{
  Map, remove, remove_absent, removed_also, removed_last, elem, is_some, is_some-false,
}
use secrets_engine.Prelude.{
  ℕ, zero, suc, ◌+◌, ◌≤◌, ◌≡◌, refl, ◌∙◌, true, false, List, [], ◌∷◌, ◌++◌, some, none, ok, err,
  arith, if◌then◌else◌, inl, inr, Bool-cases,
}
use secrets_engine.Secrets.Identifier.{SecretId}
use secrets_engine.Text.Decimal.{itoa}
use secrets_engine.Text.{Bytes, codes, equal_refl, equal_ne}

module _ {S : Type 0} (k : KeychainStore S) (fold : Bytes → Bytes) (i : SecretId) where
  -- The names of the chunks from an index on.
  abbrev pub chunk_names : ℕ → ℕ → List Bytes
  chunk_names index zero = []
  chunk_names index (suc n) = chunk_name k fold i index ∷ chunk_names (suc index) n

  -- From the index on there are `n` chunks, and then none at the next index.
  abbrev pub HasChunks : Map Credential → ℕ → ℕ → Type 0
  HasChunks m index zero = is_some (m (chunk_name k fold i index)) ≡ false
  HasChunks m index (suc n) =
      (is_some (m (chunk_name k fold i index)) ≡ true) × HasChunks m (suc index) n

  HasChunks-removed :
      FoldsCase fold
      → (m m' : Map Credential) (removed index n : ℕ) → suc removed ≤ index
      → ((j : Bytes) → m' j ≡ remove (chunk_name k fold i removed) m j)
      → HasChunks m index n
      → HasChunks m' index n
  HasChunks-removed folds m m' removed index zero b e h =
      rw
        (
          e (chunk_name k fold i index),
          equal_ne (chunk_name k fold i removed) (chunk_name k fold i index)
              (λ z. omega (arith, chunk_name_inj k fold folds i removed index z)),
        )
        h
  HasChunks-removed folds m m' removed index (suc n) b e h = (
    rw
        (
          e (chunk_name k fold i index),
          equal_ne (chunk_name k fold i removed) (chunk_name k fold i index)
              (λ z. omega (arith, chunk_name_inj k fold folds i removed index z)),
        )
        h.0,
    HasChunks-removed folds m m' removed (suc index) n (omega arith) e h.1,
  )

module _ {S : Type 0} (k : KeychainStore S) (fold : Bytes → Bytes) (view : S → Map Credential)
    (IsHealthy : S → Type 0) (manager : IsManager k.wincred fold view IsHealthy)
    (i : SecretId) where
  -- The states whose contents are `m` without the given names.
  abbrev pub Without : List Bytes → Map Credential → S → Type 0
  Without names m s = IsHealthy s × ((j : Bytes) → view s j ≡ (if elem j names then none else m j))

  pub delete_loop_lem :
      (fuel n index : ℕ) (s : S)
      → IsHealthy s
      → IsLabel (item_label k i)
      → index + n ≤ 9223372036854775807
      → HasChunks k fold i (view s) index n
      → suc n ≤ fuel
      → (s' : S) × (delete_loop k fuel i index s ≡ some (ok tt, s'))
        × Without (chunk_names k fold i index n) (view s) s'
  unfolding delete_loop
  delete_loop_lem zero n index s h l r c b = absurd (omega arith)
  delete_loop_lem (suc f) zero index s h l r c b =
      let d =
        manager.delete_view (item_chunk_label k i index) s h
          (chunk-IsTargetName k i index l (omega arith)) in
      (_, rw (delete_loop, d.0, c) refl, (d.1, λ j. d.2 j ∙ remove_absent _ (view s) j c))
  delete_loop_lem (suc f) (suc n) index s h l r c b =
      let d =
        manager.delete_view (item_chunk_label k i index) s h
          (chunk-IsTargetName k i index l (omega arith)) in
      let s1 = (k.wincred.delete_credential (item_chunk_label k i index) s).1 in
      let ih =
        delete_loop_lem f n (suc index) s1 d.1 l (omega arith)
          (HasChunks-removed k fold i manager.folds (view s) (view s1) index (suc index) n
            (omega arith) d.2 c.1)
          (omega arith) in
      (
        ih.0,
        rw (delete_loop, d.0, c.0) ih.1,
        (
          ih.2.0,
          λ j.
              ih.2.1 j
              ∙ removed_also (chunk_name k fold i index) (chunk_names k fold i (suc index) n)
                  (view s) _ j (d.2 j),
        ),
      )

  chunk_zero_gone :
      (n : ℕ) (m : Map Credential)
      → HasChunks k fold i m 0 n
      → (if elem (chunk_name k fold i 0) (primary_name k fold i ∷ chunk_names k fold i 0 n)
          then none
          else m (chunk_name k fold i 0))
        ≡ none
  chunk_zero_gone zero m c = rw (is_some-false _ c) (ground arith)
  chunk_zero_gone (suc n) m c = rw (equal_refl (chunk_name k fold i 0)) (ground arith)

  -- Suppose that the credential manager is healthy, that the secret's label has at most 32,000 bytes, none of
  -- them zero, in UTF-8, and that there are credentials under the names of exactly `n` chunks of the secret, at
  -- most 2^63 - 1, from index 0 on. Then `delete` with fuel over `n` ends without an error; what is left is
  -- all but the credentials whose target name is that of the secret or of one of those chunks. Names that
  -- differ in the case of letters are the same.
  pub delete_lem :
      (fuel n : ℕ) (s : S)
      → IsHealthy s
      → IsLabel (item_label k i)
      → n ≤ 9223372036854775807
      → HasChunks k fold i (view s) 0 n
      → suc n ≤ fuel
      → (s' : S) × (delete k fuel i s ≡ some (ok tt, s'))
        × Without (primary_name k fold i ∷ chunk_names k fold i 0 n) (view s) s'
  unfolding delete delete_chunks
  delete_lem fuel n s h l r c b =
      let chunks = delete_loop_lem fuel n 0 s h l (omega arith) c b in
      let d = manager.delete_view (item_label k i) chunks.0 chunks.2.0 (IsLabel-IsTargetName _ l) in
      (
        (k.wincred.delete_credential (item_label k i) chunks.0).1,
        rw (delete, delete_chunks, chunks.1)
            (elim (Bool-cases (is_some (view chunks.0 (primary_name k fold i)))) [
              | inl e ↦ rw (d.0, e)
              | inr e ↦ rw (d.0, e)
            ]),
        (
          d.1,
          λ j.
              d.2 j
              ∙ removed_last (primary_name k fold i) (chunk_names k fold i 0 n) (view s)
                  (view chunks.0) j (chunks.2.1 j),
        ),
      )

  -- Under the conditions of `delete_lem`: after `delete` of the identifier, the identifier `i:chunk:0` has no
  -- secret, whatever was stored for it before.
  pub delete_clobbers :
      (fuel n : ℕ) (s : S)
      → IsHealthy s
      → IsLabel (item_label k i)
      → n ≤ 9223372036854775807
      → HasChunks k fold i (view s) 0 n
      → suc n ≤ fuel
      → (s' : S) × (delete k fuel i s ≡ some (ok tt, s'))
        × ((keys : List Bytes)
            → get k keys (i ++ (codes ":chunk:" ++ itoa 0)) s' ≡ err credential_not_found)
  unfolding get
  delete_clobbers fuel n s h l r c b =
      let (s', e, (healthy, v)) = delete_lem fuel n s h l r c b in
      (
        s',
        e,
        λ keys.
            rw
              (
                item_label_chunk k i 0,
                manager.get_view (item_chunk_label k i 0) s' healthy
                    (chunk-IsTargetName k i 0 l (omega arith)),
                v (chunk_name k fold i 0),
                chunk_zero_gone n (view s) c,
              )
              refl,
      )
