-- ===== src/Release/Project/DryRun.antt =====
-- x/release/command.go: what a dry run leaves.
use secrets_engine.Prelude.{
  ℕ, zero, suc, ◌≡◌, refl, ◌∙◌, Bool, true, false, List, [], ◌∷◌, Option, none, some, Result, ok,
  err, Bool-cases, inl, inr, length, if◌then◌else◌,
}
use secrets_engine.Release.{ReleaseError}
use secrets_engine.Release.Bump.{
  Env, Outcome, commit, add_need, next_dep, bump_files, after_files, after_tag, release_tag,
  bump_module, next_module, bump_found, bump_next, bump_loop, reduce, modules, release_found,
  bump_iterative,
}
use secrets_engine.Release.Bump as B
use secrets_engine.Release.Project.{
  Opts, System, ModFile, bump_requirements, get_mod_base, write_back, bump_file, bump_at,
  bump_parsed, bump_mod_in_file, git_tag, run_hook, commit_after, git_commit, project_fs,
  release_one, bump_command,
}
use secrets_engine.Release.Repo.{ModData, RepoData, find, discard, remove_module}
use secrets_engine.Release.Version.{Level}
use secrets_engine.Text.{Bytes}

module _ (env : Env) where
  -- Operations that leave the world as it is.
  abbrev IsIdle : Type 0
  IsIdle =
      ((tag : Bytes) (w : env.World) → (env.git_tag tag w).1 ≡ w)
      × ((message : Bytes) (w : env.World) → (env.git_commit message w).1 ≡ w)
      × ((file m v : Bytes) (w : env.World) → (env.bump_mod_in_file file m v w).1 ≡ w)

  next_dep-idle :
      (r : Result ReleaseError Bool) (v : env.World)
      (next : Bool → env.World → Result ReleaseError Bool × env.World)
      → ((b : Bool) (u : env.World) → (next b u).1 ≡ u)
      → (next_dep env r v next).1 ≡ v
  next_dep-idle (err e) v next h = refl
  next_dep-idle (ok b) v next h = h b v

  bump_files-idle :
      (m v : Bytes) (deps : List Bytes) (b : Bool) (w : env.World)
      → IsIdle
      → (bump_files env m v deps b w).1 ≡ w
  unfolding bump_files
  bump_files-idle m v [] b w idle = refl
  bump_files-idle m v (dep ∷ deps) b w idle =
      next_dep-idle _ _ _ (λ b u. bump_files-idle m v deps b u idle) ∙ idle.2 _ m v w

  after_files-idle :
      (tag : Bytes) (r : Result ReleaseError Bool) (w : env.World)
      → IsIdle
      → (after_files env tag r w).1 ≡ w
  after_files-idle tag (err e) w idle = refl
  after_files-idle tag (ok false) w idle = refl
  after_files-idle tag (ok true) w idle = idle.1 _ w

  after_tag-idle :
      (m v tag : Bytes) (deps : List Bytes) (r : Result ℕ (Unit {0})) (w : env.World)
      → IsIdle
      → (after_tag env m v tag deps r w).1 ≡ w
  after_tag-idle m v tag deps (err e) w idle = refl
  after_tag-idle m v tag deps (ok u) w idle =
      after_files-idle tag _ _ idle ∙ bump_files-idle m v deps false w idle

  release_tag-idle :
      (m : Bytes) (deps : List Bytes) (r : Result ReleaseError Bytes) (w : env.World)
      → IsIdle
      → (release_tag env m deps r w).1 ≡ w
  release_tag-idle m deps (err e) w idle = refl
  release_tag-idle m deps (ok v) w idle = after_tag-idle m v _ deps _ _ idle ∙ idle.0 _ w

  bump_module-idle :
      (m : Bytes) (level : Level) (d : ModData) (w : env.World)
      → IsIdle
      → (bump_module env m level d w).1 ≡ w
  unfolding bump_module
  bump_module-idle m level d w idle = release_tag-idle m d.downstreams _ w idle

  -- An outcome in this world, if there is an outcome.
  abbrev pub EndsIn : env.World → Option (Outcome env) → Type 0
  EndsIn w none = Unit
  EndsIn w (some o) = o.1 ≡ w

  continue_with-idle :
      (r : Result ReleaseError (Unit {0})) (v w : env.World)
      (next : env.World → Option (Outcome env))
      → v ≡ w
      → EndsIn w (next w)
      → EndsIn w (B.continue_with env r v next)
  continue_with-idle (err e) v w next h k = h
  continue_with-idle (ok u) v w next h k = rw h k

  bump_found-idle :
      (m n : Bytes) (d : Option ModData) (w : env.World) (next : env.World → Option (Outcome env))
      → IsIdle
      → EndsIn w (next w)
      → EndsIn w (bump_found env m n d w next)
  bump_found-idle m n none w next idle h = refl
  bump_found-idle m n (some d) w next idle h =
      continue_with-idle _ _ w next (bump_module-idle n _ d w idle) h

  bump_next-idle :
      (m : Bytes) (n : Option Bytes) (repo : RepoData) (w : env.World)
      (next : Bytes → env.World → Option (Outcome env))
      → IsIdle
      → ((k : Bytes) → EndsIn w (next k w))
      → EndsIn w (bump_next env m n repo w next)
  bump_next-idle m none repo w next idle h = refl
  bump_next-idle m (some []) repo w next idle h = refl
  bump_next-idle m (some (b ∷ n)) repo w next idle h =
      bump_found-idle m (b ∷ n) (find (b ∷ n) repo) w (next (b ∷ n)) idle (h (b ∷ n))

  bump_loop-idle :
      (f : ℕ) (m : Bytes) (queue : List Bytes) (repo : RepoData) (w : env.World)
      → IsIdle
      → EndsIn w (bump_loop env f m queue repo w)
  unfolding bump_loop
  bump_loop-idle zero m queue repo w idle = tt
  bump_loop-idle (suc f) m [] repo w idle = refl
  bump_loop-idle (suc f) m (item ∷ queue) repo w idle =
      bump_next-idle m (next_module (env.order f (item ∷ queue)) repo) repo w _ idle
        (λ k. bump_loop-idle f m (discard k (item ∷ queue)) (remove_module k repo) w idle)

  release_found-idle :
      (m : Bytes) (level : Level) (repo : RepoData) (d : Option ModData) (w : env.World)
      → IsIdle
      → EndsIn w (release_found env m level repo d w)
  release_found-idle m level repo none w idle = refl
  release_found-idle m level repo (some d) w idle =
      let queue = d.downstreams in
      let loop = bump_loop env (suc (length queue)) m queue (reduce (modules repo) queue repo) in
      continue_with-idle (bump_module env m level d w).0 (bump_module env m level d w).1 w loop
        (bump_module-idle m level d w idle)
        (bump_loop-idle (suc (length queue)) m queue (reduce (modules repo) queue repo) w idle)

  EndsIn-if :
      (b : Bool) (w : env.World) (x y : Option (Outcome env))
      → EndsIn w x
      → EndsIn w y
      → EndsIn w (if b then x else y)
  EndsIn-if true w x y h k = h
  EndsIn-if false w x y h k = k

module _ (o : Opts) (s : System) (dry : o.dry_run ≡ true) where
  write_back-dry :
      (file : Bytes) (r : Result ℕ Bytes) (w : s.World) → (write_back o s file r w).1 ≡ w
  write_back-dry file (err e) w = refl
  write_back-dry file (ok out) w = rw dry refl

  bump_file-dry :
      (file m v : Bytes) (f : ModFile) (w : s.World) → (bump_file o s file m v f w).1 ≡ w
  bump_file-dry file m v f w = elim (Bool-cases (bump_requirements m v f.requirements).0) [
    | inl e ↦ rw e (write_back-dry file _ w)
    | inr e ↦ rw e refl
  ]

  bump_parsed-dry :
      (file m v : Bytes) (r : Result ℕ ModFile) (w : s.World) → (bump_parsed o s file m v r w).1 ≡ w
  bump_parsed-dry file m v (err e) w = refl
  bump_parsed-dry file m v (ok f) w = at_base (get_mod_base f.module_path)
    where
      at_base : (base : Option Bytes) → (bump_at o s file m v f base w).1 ≡ w
      at_base none = refl
      at_base (some base) = bump_file-dry file _ v f w

  run_hook-dry :
      (hook : Option (s.World → Result ℕ (Unit {0}) × s.World)) (w : s.World)
      → (run_hook o s hook w).1 ≡ w
  run_hook-dry none w = refl
  run_hook-dry (some hook) w = rw dry refl

  commit_after-dry :
      (message : Bytes) (r : Result ℕ (Unit {0})) (w : s.World)
      → (commit_after o s message r w).1 ≡ w
  commit_after-dry message (err e) w = refl
  commit_after-dry message (ok u) w = rw dry refl

  project_fs-idle : IsIdle (project_fs o s)
  unfolding git_tag git_commit bump_mod_in_file
  project_fs-idle = (
    λ tag w. rw dry refl,
    λ message w. commit_after-dry message _ _ ∙ run_hook-dry s.before_commit_hook w,
    λ file m v w. bump_parsed-dry file m v _ w,
  )

-- In a dry run, the command leaves the files and the git repository as they are, whatever its outcome.
pub bump_command_dry :
    (o : Opts) (s : System) (m : Bytes) (repo : RepoData) (w : s.World)
    → o.dry_run ≡ true
    → EndsIn (project_fs o s) w (bump_command o s m repo w)
unfolding bump_command
bump_command_dry o s m repo w dry = released (find m repo)
  where
    released : (d : Option ModData) → EndsIn (project_fs o s) w (release_one o s m repo d w)
    released none = refl
    released (some d) =
        EndsIn-if (project_fs o s) o.no_propagate w _ _
          (bump_module-idle (project_fs o s) m o.level d w (project_fs-idle o s dry))
          (unfold bump_iterative in
            release_found-idle (project_fs o s) m o.level repo (find m repo) w
              (project_fs-idle o s dry))
