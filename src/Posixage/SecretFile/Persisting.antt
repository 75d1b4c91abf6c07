-- ===== src/Posixage/SecretFile/Persisting.antt =====
-- store/posixage/internal/secretfile/secret.go: `Persist` leaves all of a secret's directory or nothing.
use secrets_engine.Maps.{Map, put, remove, empty}
use secrets_engine.Posixage.{EncryptedSecret, StoreError, Json}
use secrets_engine.Posixage.Files.{
  Fault, Files, Root, M, ◌>>◌, continue_with, stat, remove_all, mkdir, create, write, sync, present,
  make_dir, change, restrict,
}
use secrets_engine.Posixage.Files.Runs.{
  AllSucceed, AtMostOne, AllSucceed-AtMostOne, SameElse, Ends, Runs, bind-Runs, Holds, create-Runs,
  write-Runs, sync-Runs, rename-Runs, stat-Runs,
}
use secrets_engine.Posixage.SecretFile.{
  id_to_dir_name, secret_file_name, metadata_file_name, tmp_file_name, atomic_write, write_secrets,
  clear_found, clear_old, cleaned, or_remove, fill, persist,
}
use secrets_engine.Prelude.{
  ◌≡◌, refl, sym, ◌∙◌, Bool-cases, ◌⊎◌, inl, inr, List, [], ◌∷◌, ◌++◌, Option, none, some, Result,
  ok, err,
}
use secrets_engine.Secrets.Identifier.{SecretId}
use secrets_engine.Text.{Bytes, equal_refl}

-- The files after `atomicWrite`.
abbrev pub with_file : Bytes → Bytes → Files → Files
with_file name bytes files = put name bytes (
    remove (tmp_file_name name)
      (put (tmp_file_name name) bytes (put (tmp_file_name name) [] files)))

-- The files after the loop of `Persist`.
abbrev pub with_secrets : List EncryptedSecret → Files → Files
with_secrets [] files = files
with_secrets (s ∷ secrets) files =
    with_secrets secrets (with_file (secret_file_name ++ s.key_type) s.encrypted_data files)

-- The files of a persisted secret.
abbrev pub persisted : Bytes → List EncryptedSecret → Files
persisted meta secrets = with_secrets secrets (with_file metadata_file_name meta empty)

module _ (d : Bytes) where
  atomic_write-Runs :
      (name bytes : Bytes) (files : Files) (s : Root)
      → s.dirs d ≡ some files
      → Runs d (atomic_write d name bytes) (Holds d (with_file name bytes files)) s
  unfolding atomic_write
  atomic_write-Runs name bytes files s h =
      let tmp = tmp_file_name name in
      let begun = put tmp [] files in
      let full = put tmp bytes begun in
      bind-Runs d (Holds d begun) (Holds d (with_file name bytes files)) (create d tmp) _ s
        (create-Runs d tmp files s h)
        (λ u t ht.
          bind-Runs d (Holds d full) (Holds d (with_file name bytes files)) (write d tmp bytes) _ t
            (write-Runs d tmp bytes begun t ht)
            (λ u' t' ht'.
              bind-Runs d (Holds d full) (Holds d (with_file name bytes files)) sync _ t'
                (sync-Runs d full t' ht')
                (λ u'' t'' ht''.
                  rename-Runs d tmp name bytes full t'' ht'' (rw (equal_refl tmp) refl))))

  write_secrets-Runs :
      (secrets : List EncryptedSecret) (files : Files) (s : Root)
      → s.dirs d ≡ some files
      → Runs d (write_secrets d secrets) (Holds d (with_secrets secrets files)) s
  unfolding write_secrets
  write_secrets-Runs [] files s h one = (one, λ j n. refl, h)
  write_secrets-Runs (x ∷ secrets) files s h one =
      let next = with_file (secret_file_name ++ x.key_type) x.encrypted_data files in
      bind-Runs d (Holds d next) (Holds d (with_secrets secrets next))
        (atomic_write d (secret_file_name ++ x.key_type) x.encrypted_data) _ s
        (atomic_write-Runs (secret_file_name ++ x.key_type) x.encrypted_data files s h)
        (λ u t ht. write_secrets-Runs secrets next t ht) one

  fill-Runs :
      (json : Json) (metadata : Map Bytes) (meta : Bytes) (secrets : List EncryptedSecret)
      (s : Root)
      → json.marshal metadata ≡ ok meta
      → s.dirs d ≡ some empty
      → Runs d (fill json d metadata secrets) (Holds d (persisted meta secrets)) s
  unfolding fill
  fill-Runs json metadata meta secrets s e h = rw e (
      bind-Runs d (Holds d empty) (Holds d (persisted meta secrets)) (stat d) _ s
        (stat-Runs d empty s h)
        (λ u t ht.
          bind-Runs d (Holds d (with_file metadata_file_name meta empty))
            (Holds d (persisted meta secrets)) (atomic_write d metadata_file_name meta) _ t
            (atomic_write-Runs metadata_file_name meta empty t ht)
            (λ u' t' ht'. write_secrets-Runs secrets _ t' ht')))

  remove_all_clean :
      (s : Root)
      → AllSucceed s.faults
      → ((remove_all d s).1.dirs d ≡ none) × SameElse d s (remove_all d s).1
  unfolding remove_all
  remove_all_clean s h = removed s.faults refl h
    where
      removed :
          (faults : List (Option Fault))
          → s.faults ≡ faults
          → AllSucceed faults
          → ((remove_all d s).1.dirs d ≡ none) × SameElse d s (remove_all d s).1
      removed [] e o = rw e (rw (equal_refl d) refl, λ j n. rw n refl)
      removed (none ∷ faults) e o = rw e (rw (equal_refl d) refl, λ j n. rw n refl)
      removed (some f ∷ faults) e o = absurd o

  -- The directory is as before, or gone.
  abbrev Kept : Root → Root → Type 0
  Kept s t = (t.dirs d ≡ s.dirs d) ⊎ (t.dirs d ≡ none)

  -- The directory holds a part of the files that it held before, each with its bytes.
  abbrev pub IsPart : Root → Root → Type 0
  IsPart s t =
      (old : Files) × (left : Files) × (s.dirs d ≡ some old)
      × (t.dirs d ≡ some left)
      × ((name : Bytes) → (left name ≡ none) ⊎ (left name ≡ old name))

  -- What `clear_old` and `mkdir` leave.
  abbrev Leaves : (Root → Root → Type 0) → Root → Result StoreError (Unit {0}) → Root → Type 0
  Leaves Q s (err e) t = SameElse d s t × ((t.dirs d ≡ s.dirs d) ⊎ IsPart s t)
  Leaves Q s (ok u) t = SameElse d s t × AtMostOne t.faults × Q s t

  remove_all-Leaves :
      (s : Root) → AtMostOne s.faults → Leaves Kept s (remove_all d s).0 (remove_all d s).1
  unfolding remove_all
  remove_all-Leaves s h = removed s.faults refl h
    where
      removed :
          (faults : List (Option Fault))
          → s.faults ≡ faults
          → AtMostOne faults
          → Leaves Kept s (remove_all d s).0 (remove_all d s).1
      removed [] e o = rw e (λ j n. rw n refl, o, inr (rw (equal_refl d) refl))
      removed (none ∷ faults) e o = rw e (λ j n. rw n refl, o, inr (rw (equal_refl d) refl))
      removed (some f ∷ faults) e o = rw e (λ j n. rw n refl, part (s.dirs d) refl)
        where
          part :
              (o : Option Files)
              → s.dirs d ≡ o
              → ((change d (restrict f.remaining) s).dirs d ≡ s.dirs d)
                ⊎ IsPart s (change d (restrict f.remaining) s)
          part none z = inl (rw (equal_refl d, z) refl)
          part (some old) z = inr (
            old,
            restrict f.remaining old,
            z,
            rw (equal_refl d, z) refl,
            λ name. elim (Bool-cases (f.remaining name)) [
              | inl t ↦ inr (rw t refl)
              | inr t ↦ inl (rw t refl)
            ],
          )

  clear_old-Leaves :
      (s : Root) → AtMostOne s.faults → Leaves Kept s (clear_old d s).0 (clear_old d s).1
  unfolding clear_old stat
  clear_old-Leaves s h = cleared s.faults refl h
    where
      found :
          (faults : List (Option Fault))
          → AtMostOne faults
          → (o : Option Files) → s.dirs d ≡ o
          → Leaves Kept s
              (clear_found d (present (s.dirs d)) (record s { faults = faults })).0
              (clear_found d (present (s.dirs d)) (record s { faults = faults })).1
      found faults h none e = rw e (λ j n. refl, h, inl refl)
      found faults h (some files) e = rw e (remove_all-Leaves (record s { faults = faults }) h)

      cleared :
          (faults : List (Option Fault))
          → s.faults ≡ faults
          → AtMostOne faults
          → Leaves Kept s (clear_old d s).0 (clear_old d s).1
      cleared [] e o = rw e (found [] o (s.dirs d) refl)
      cleared (none ∷ faults) e o = rw e (found faults o (s.dirs d) refl)
      cleared (some f ∷ faults) e o = rw e (λ j n. refl, AllSucceed-AtMostOne faults o, inl refl)

  -- The directory is new and empty.
  abbrev IsNew : Root → Root → Type 0
  IsNew s t = t.dirs d ≡ some empty

  mkdir-Leaves : (s : Root) → AtMostOne s.faults → Leaves IsNew s (mkdir d s).0 (mkdir d s).1
  unfolding mkdir
  mkdir-Leaves s h = made s.faults refl h
    where
      made_on :
          (faults : List (Option Fault))
          → AtMostOne faults
          → (o : Option Files) → s.dirs d ≡ o
          → Leaves IsNew s
              (make_dir o d (record s { faults = faults })).0
              (make_dir o d (record s { faults = faults })).1
      made_on faults h none e = (λ j n. rw n refl, h, rw (equal_refl d) refl)
      made_on faults h (some files) e = (λ j n. refl, inl refl)

      made :
          (faults : List (Option Fault))
          → s.faults ≡ faults
          → AtMostOne faults
          → Leaves IsNew s (mkdir d s).0 (mkdir d s).1
      made [] e o = rw e (made_on [] o (s.dirs d) refl)
      made (none ∷ faults) e o = rw e (made_on faults o (s.dirs d) refl)
      made (some f ∷ faults) e o = rw e (λ j n. refl, inl refl)

  -- What `persist` leaves: other directories as they were, and this one complete, or as before, or gone,
  -- or with a part of its old files.
  abbrev pub Persisted : Files → Root → Result StoreError (Unit {0}) → Root → Type 0
  Persisted files s (err e) t =
      SameElse d s t × ((t.dirs d ≡ s.dirs d) ⊎ (t.dirs d ≡ none) ⊎ IsPart s t)
  Persisted files s (ok u) t = SameElse d s t × (t.dirs d ≡ some files)

  or_remove_leaves :
      (files : Files) (s t : Root) (r : Result StoreError (Unit {0})) (u : Root)
      → SameElse d s t
      → Ends d (Holds d files) t r u
      → Persisted files s (cleaned d r u).0 (cleaned d r u).1
  or_remove_leaves files s t (err e) u same h =
      let clean = remove_all_clean u h.0 in
      (λ j n. clean.1 j n ∙ h.1 j n ∙ same j n, inr (inl clean.0))
  or_remove_leaves files s t (ok v) u same h = (λ j n. h.1 j n ∙ same j n, h.2)

  -- A run that goes on from a directory that is as before or gone.
  after_step :
      (files : Files) (s t : Root) (r : Result StoreError (Unit {0})) (u : Root)
      → SameElse d s t
      → Kept s t
      → Persisted files t r u
      → Persisted files s r u
  after_step files s t (err e) u same kept h = (
    λ j n. h.0 j n ∙ same j n,
    elim h.1 [
      | inl k ↦ elim kept [ inl k' ↦ inl (k ∙ k') | inr k' ↦ inr (inl (k ∙ k')) ]
      | inr (inl k) ↦ inr (inl k)
      | inr (inr (old, left, a, b, c)) ↦ elim kept [
        | inl k' ↦ inr (inr (old, left, sym k' ∙ a, b, c))
        | inr k' ↦ cc (k', a)
      ]
    ],
  )
  after_step files s t (ok a) u same kept h = (λ j n. h.0 j n ∙ same j n, h.1)

  left_Persisted :
      (files : Files) (s : Root) (e : StoreError) (t : Root)
      → SameElse d s t × ((t.dirs d ≡ s.dirs d) ⊎ IsPart s t)
      → Persisted files s (err e) t
  left_Persisted files s e t h = (h.0, elim h.1 [ inl k ↦ inl k | inr k ↦ inr (inr k) ])

  after_mkdir :
      (files : Files) (m : M (Unit {0})) (s : Root) (r : Result StoreError (Unit {0})) (t : Root)
      → Leaves IsNew s r t
      → ((t : Root) → t.dirs d ≡ some empty → Runs d m (Holds d files) t)
      → Persisted files s
          (continue_with r (λ u. or_remove d m) t).0
          (continue_with r (λ u. or_remove d m) t).1
  after_mkdir files m s (err e) t h k = left_Persisted files s e t h
  after_mkdir files m s (ok u) t h k = or_remove_leaves files s t (m t).0 (m t).1 h.0 (k t h.2 h.1)

  after_clear :
      (files : Files) (m : M (Unit {0})) (s : Root) (r : Result StoreError (Unit {0})) (t : Root)
      → Leaves Kept s r t
      → ((t : Root) → t.dirs d ≡ some empty → Runs d m (Holds d files) t)
      → Persisted files s
          (continue_with r (λ u. mkdir d >> or_remove d m) t).0
          (continue_with r (λ u. mkdir d >> or_remove d m) t).1
  after_clear files m s (err e) t h k = left_Persisted files s e t h
  after_clear files m s (ok u) t h k =
      after_step files s t ((mkdir d >> or_remove d m) t).0 ((mkdir d >> or_remove d m) t).1 h.0 h.2
        (after_mkdir files m t (mkdir d t).0 (mkdir d t).1 (mkdir-Leaves t h.1) k)

-- Let the codec give `meta` for the metadata, and let at most one operation on files fail. Then
-- `persist` changes no other directory; if it succeeds, the directory of the secret holds the metadata
-- and one file for each secret, and nothing else; if it fails, the directory is as before, or gone, or
-- holds a part of the files that it held before.
pub persist_lem :
    (json : Json) (i : SecretId) (metadata : Map Bytes) (meta : Bytes)
    (secrets : List EncryptedSecret) (s : Root)
    → json.marshal metadata ≡ ok meta
    → AtMostOne s.faults
    → Persisted
        (id_to_dir_name i)
        (persisted meta secrets)
        s
        (persist json i metadata secrets s).0
        (persist json i metadata secrets s).1
unfolding persist
persist_lem json i metadata meta secrets s e one =
    let d = id_to_dir_name i in
    after_clear d (persisted meta secrets) (fill json d metadata secrets) s (clear_old d s).0
      (clear_old d s).1 (clear_old-Leaves d s one)
      (λ t new. fill-Runs d json metadata meta secrets t e new)
