-- ===== src/Posixage/Files/Runs.antt =====
-- Runs of the operations on files in which at most one of them fails.
use secrets_engine.Maps.{put, remove}
use secrets_engine.Posixage.{StoreError}
use secrets_engine.Posixage.Files.{
  Fault, Files, Root, M, ◌>>=◌, continue_with, done, attempt_or, in_dir, change, stat, create,
  write, sync, rename, move,
}
use secrets_engine.Prelude.{
  ◌≡◌, refl, ◌∙◌, false, List, [], ◌∷◌, Option, none, some, Result, ok, err, take,
}
use secrets_engine.Text.{Bytes, equal, equal_refl}

abbrev pub AllSucceed : List (Option Fault) → Type 0
AllSucceed [] = Unit
AllSucceed (none ∷ faults) = AllSucceed faults
AllSucceed (some f ∷ faults) = ⊥

abbrev pub AtMostOne : List (Option Fault) → Type 0
AtMostOne [] = Unit
AtMostOne (none ∷ faults) = AtMostOne faults
AtMostOne (some f ∷ faults) = AllSucceed faults

pub AllSucceed-AtMostOne : (faults : List (Option Fault)) → AllSucceed faults → AtMostOne faults
AllSucceed-AtMostOne [] h = tt
AllSucceed-AtMostOne (none ∷ faults) h = AllSucceed-AtMostOne faults h
AllSucceed-AtMostOne (some f ∷ faults) h = absurd h

module _ (d : Bytes) where
  -- The directories other than `d` are the same.
  abbrev pub SameElse : Root → Root → Type 0
  SameElse s s' = (j : Bytes) → equal d j ≡ false → s'.dirs j ≡ s.dirs j

  -- An end of a run from `s`: an error after which all operations succeed, or a value with `Q`.
  abbrev pub Ends : {A : Type 0} → (A → Root → Type 0) → Root → Result StoreError A → Root → Type 0
  Ends Q s (err e) s' = AllSucceed s'.faults × SameElse s s'
  Ends Q s (ok a) s' = AtMostOne s'.faults × SameElse s s' × Q a s'

  abbrev pub Runs : {A : Type 0} → M A → (A → Root → Type 0) → Root → Type 0
  Runs m Q s = AtMostOne s.faults → Ends Q s (m s).0 (m s).1

  SameElse-Ends :
      {A : Type 0} (Q : A → Root → Type 0) (s t : Root) (r : Result StoreError A) (u : Root)
      → SameElse s t
      → Ends Q t r u
      → Ends Q s r u
  SameElse-Ends Q s t (err e) u h k = (k.0, λ j n. k.1 j n ∙ h j n)
  SameElse-Ends Q s t (ok a) u h k = (k.0, λ j n. k.1 j n ∙ h j n, k.2)

  continue-Ends :
      {A B : Type 0} (Q : A → Root → Type 0) (R : B → Root → Type 0) (f : A → M B) (s : Root)
      (r : Result StoreError A) (t : Root)
      → Ends Q s r t
      → ((a : A) (u : Root) → Q a u → Runs (f a) R u)
      → Ends R s (continue_with r f t).0 (continue_with r f t).1
  continue-Ends Q R f s (err e) t h k = h
  continue-Ends Q R f s (ok a) t h k = SameElse-Ends R s t (f a t).0 (f a t).1 h.1 (k a t h.2 h.0)

  -- Runs compose.
  pub bind-Runs :
      {A B : Type 0} (Q : A → Root → Type 0) (R : B → Root → Type 0) (m : M A) (f : A → M B)
      (s : Root)
      → Runs m Q s
      → ((a : A) (u : Root) → Q a u → Runs (f a) R u)
      → Runs (m >>= f) R s
  bind-Runs Q R m f s h k one = continue-Ends Q R f s (m s).0 (m s).1 (h one) k

  attempt-Runs :
      {A : Type 0} (Q : A → Root → Type 0) (spoil : Fault → Root → Root) (op : M A) (s : Root)
      → ((f : Fault) (t : Root) → ((spoil f t).faults ≡ t.faults) × SameElse t (spoil f t))
      → ((faults : List (Option Fault)) → Runs op Q (record s { faults = faults }))
      → Runs (attempt_or spoil op) Q s
  attempt-Runs Q spoil op s hs h one = attempted s.faults refl one
    where
      attempted :
          (faults : List (Option Fault))
          → s.faults ≡ faults
          → AtMostOne faults
          → Ends Q s (attempt_or spoil op s).0 (attempt_or spoil op s).1
      attempted [] e o = rw e (h [] o)
      attempted (none ∷ faults) e o = rw e (
          SameElse-Ends Q (record s { faults = none ∷ faults }) (record s { faults = faults })
            (op (record s { faults = faults })).0 (op (record s { faults = faults })).1
            (λ j n. refl) (h faults o))
      attempted (some f ∷ faults) e o =
          rw e
            (rw (hs f (record s { faults = faults })).0 o, (hs f (record s { faults = faults })).1)

  -- The directory holds these files.
  abbrev pub Holds : Files → Unit {0} → Root → Type 0
  Holds files u s = s.dirs d ≡ some files

  change-SameElse : (g : Files → Files) (s : Root) → SameElse s (change d g s)
  change-SameElse g s j n = rw n refl

  in_dir-Runs :
      (g : Files → Files) (files : Files) (s : Root)
      → s.dirs d ≡ some files
      → Runs (in_dir d g) (Holds (g files)) s
  in_dir-Runs g files s h one = rw h (one, change-SameElse g s, rw (equal_refl d, h) refl)

  in_dir_attempt :
      (spoil : Fault → Root → Root) (g : Files → Files) (files : Files) (s : Root)
      → ((f : Fault) (t : Root) → ((spoil f t).faults ≡ t.faults) × SameElse t (spoil f t))
      → s.dirs d ≡ some files
      → Runs (attempt_or spoil (in_dir d g)) (Holds (g files)) s
  in_dir_attempt spoil g files s hs h =
      attempt-Runs (Holds (g files)) spoil (in_dir d g) s hs
        (λ faults. in_dir-Runs g files (record s { faults = faults }) h)

  pub create-Runs :
      (name : Bytes) (files : Files) (s : Root)
      → s.dirs d ≡ some files
      → Runs (create d name) (Holds (put name [] files)) s
  unfolding create
  create-Runs name files s h =
      in_dir_attempt (λ f root. root) (put name []) files s (λ f t. (refl, λ j n. refl)) h

  pub write-Runs :
      (name bytes : Bytes) (files : Files) (s : Root)
      → s.dirs d ≡ some files
      → Runs (write d name bytes) (Holds (put name bytes files)) s
  unfolding write
  write-Runs name bytes files s h =
      in_dir_attempt (λ f. change d (put name (take f.written bytes))) (put name bytes) files s
        (λ f t. (refl, change-SameElse (put name (take f.written bytes)) t)) h

  pub sync-Runs : (files : Files) (s : Root) → s.dirs d ≡ some files → Runs sync (Holds files) s
  unfolding sync
  sync-Runs files s h =
      attempt-Runs (Holds files) (λ f root. root) (done (ok tt)) s (λ f t. (refl, λ j n. refl))
        (λ faults one. (one, λ j n. refl, h))

  pub rename-Runs :
      (from to bytes : Bytes) (files : Files) (s : Root)
      → s.dirs d ≡ some files
      → files from ≡ some bytes
      → Runs (rename d from to) (Holds (put to bytes (remove from files))) s
  unfolding rename
  rename-Runs from to bytes files s h e = rw e at (
      in_dir_attempt (λ f root. root) (λ fs. move from to (fs from) fs) files s
        (λ f t. (refl, λ j n. refl)) h)

  pub stat-Runs : (files : Files) (s : Root) → s.dirs d ≡ some files → Runs (stat d) (Holds files) s
  unfolding stat
  stat-Runs files s h =
      attempt-Runs (Holds files) (λ f root. root) _ s (λ f t. (refl, λ j n. refl))
        (λ faults one. rw h (one, λ j n. refl, h))
