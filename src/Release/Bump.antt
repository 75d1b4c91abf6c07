-- ===== src/Release/Bump.antt =====
-- x/release/helper/release.go: a release, and the releases that follow from it.
pub mod Order
pub mod Iterative
use secrets_engine.Maps.{elem}
use secrets_engine.Prelude.{
  ℕ, zero, suc, Bool, true, false, ◌||◌, List, [], ◌∷◌, ◌++◌, Option, none, some, Result, ok, err,
  ◌==◌, if◌then◌else◌, length,
}
use secrets_engine.Release.{ReleaseError, module_not_found, no_next_module, fs_error}
use secrets_engine.Release.Repo.{
  ModData, RepoData, find, discard, get_dependency_count, remove_module,
}
use secrets_engine.Release.Version.{Level, patch, get_next_version}
use secrets_engine.Text.{Bytes, codes, equal}

-- `FS`, on a state of its own, with `filepath.Join` and `semver.Canonical`, and the order in which a loop
-- over a set visits it, one for each round.
pub record Env : Type 1 where
  pub World : Type 0
  pub git_tag : Bytes → World → Result ℕ (Unit {0}) × World
  pub git_commit : Bytes → World → Result ℕ (Unit {0}) × World
  pub bump_mod_in_file : Bytes → Bytes → Bytes → World → Result ℕ Bool × World
  pub join : Bytes → Bytes → Bytes
  pub canonical : Bytes → Bytes
  pub order : ℕ → List Bytes → List Bytes

-- The first module of the list that depends on nothing; the empty name stands for none.
unfoldable pub next_module : List Bytes → RepoData → Option Bytes
next_module [] repo = none
next_module (item ∷ queue) repo =
    if get_dependency_count repo item == 0 then some item else next_module queue repo

-- The modules outside the queue are removed.
unfoldable pub reduce : List Bytes → List Bytes → RepoData → RepoData
reduce [] queue repo = repo
reduce (k ∷ ks) queue repo = reduce ks queue (if elem k queue then repo else remove_module k repo)

abbrev pub modules : RepoData → List Bytes
modules [] = []
modules ((k, v) ∷ repo) = k ∷ modules repo

module _ (env : Env) where
  abbrev pub Outcome : Type 0
  Outcome = Result ReleaseError (Unit {0}) × env.World

  abbrev pub fs_result : Result ℕ (Unit {0}) → Result ReleaseError (Unit {0})
  fs_result (err e) = err (fs_error e)
  fs_result (ok u) = ok u

  abbrev pub commit : Bytes → Bool → env.World → Outcome
  commit tag false w = (ok tt, w)
  commit tag true w = let o = env.git_commit (codes "chore: bump " ++ tag) w in (fs_result o.0, o.1)

  abbrev pub add_need : Bool → Result ℕ Bool → Result ReleaseError Bool
  add_need needs_commit (err e) = err (fs_error e)
  add_need needs_commit (ok modified) = ok (modified || needs_commit)

  abbrev pub next_dep :
      Result ReleaseError Bool
      → env.World
      → (Bool → env.World → Result ReleaseError Bool × env.World)
      → Result ReleaseError Bool × env.World
  next_dep (err e) w continue = (err e, w)
  next_dep (ok needs_commit) w continue = continue needs_commit w

  -- The loop of `BumpModule` over the downstream modules.
  unfoldable pub bump_files :
      Bytes → Bytes → List Bytes → Bool → env.World → Result ReleaseError Bool × env.World
  bump_files name release [] needs_commit w = (ok needs_commit, w)
  bump_files name release (dep ∷ deps) needs_commit w =
      let o = env.bump_mod_in_file (env.join dep (codes "go.mod")) name release w in
      next_dep (add_need needs_commit o.0) o.1 (bump_files name release deps)

  abbrev pub after_files : Bytes → Result ReleaseError Bool → env.World → Outcome
  after_files tag (err e) w = (err e, w)
  after_files tag (ok needs_commit) w = commit tag needs_commit w

  abbrev pub after_tag :
      Bytes → Bytes → Bytes → List Bytes → Result ℕ (Unit {0}) → env.World → Outcome
  after_tag name release tag deps (err e) w = (err (fs_error e), w)
  after_tag name release tag deps (ok u) w =
      let o = bump_files name release deps false w in after_files tag o.0 o.1

  abbrev pub release_tag : Bytes → List Bytes → Result ReleaseError Bytes → env.World → Outcome
  release_tag name deps (err e) w = (err e, w)
  release_tag name deps (ok release) w =
      let tag = name ++ (b'/' ∷ release) in
      let o = env.git_tag tag w in after_tag name release tag deps o.0 o.1

  -- `BumpModule`
  unfoldable pub bump_module : Bytes → Level → ModData → env.World → Outcome
  bump_module name level d w =
      release_tag name d.downstreams (get_next_version env.canonical d.version level) w

  abbrev pub continue_with :
      Result ReleaseError (Unit {0}) → env.World → (env.World → Option Outcome) → Option Outcome
  continue_with (err e) w next = some (err e, w)
  continue_with (ok u) w next = next w

  abbrev pub bump_found :
      Bytes → Bytes → Option ModData → env.World → (env.World → Option Outcome) → Option Outcome
  bump_found name next_mod none w next = some (err (module_not_found name), w)
  bump_found name next_mod (some d) w next =
      let o = bump_module next_mod patch d w in continue_with o.0 o.1 next

  abbrev pub bump_next :
      Bytes
      → Option Bytes
      → RepoData
      → env.World
      → (Bytes → env.World → Option Outcome)
      → Option Outcome
  bump_next name none repo w next = some (err no_next_module, w)
  bump_next name (some []) repo w next = some (err no_next_module, w)
  bump_next name (some (b ∷ next_mod)) repo w next =
      bump_found name (b ∷ next_mod) (find (b ∷ next_mod) repo) w (next (b ∷ next_mod))

  -- The loop of `BumpIterative` over the queue, `none` if there is not enough fuel.
  unfoldable pub bump_loop : ℕ → Bytes → List Bytes → RepoData → env.World → Option Outcome
  bump_loop zero name queue repo w = none
  bump_loop (suc f) name [] repo w = some (ok tt, w)
  bump_loop (suc f) name (item ∷ queue) repo w =
      bump_next name (next_module (env.order f (item ∷ queue)) repo) repo w (λ next_mod.
        bump_loop f name (discard next_mod (item ∷ queue)) (remove_module next_mod repo))

  abbrev pub release_found : Bytes → Level → RepoData → Option ModData → env.World → Option Outcome
  release_found name level repo none w = some (err (module_not_found name), w)
  release_found name level repo (some d) w =
      let o = bump_module name level d w in
      continue_with o.0 o.1 (
        bump_loop (suc (length d.downstreams)) name d.downstreams
          (reduce (modules repo) d.downstreams repo))

  -- `BumpIterative`
  unfoldable pub bump_iterative : Bytes → Level → RepoData → env.World → Option Outcome
  bump_iterative name level repo w = release_found name level repo (find name repo) w
