-- ===== src/Release/Project.antt =====
-- x/release/command.go: the files and the git repository of the project, and the command.
pub mod DryRun
pub mod Requirements
use secrets_engine.Maps.{elem}
use secrets_engine.Prelude.{
  ℕ, Bool, true, false, not, ◌&&◌, ◌||◌, List, [], ◌∷◌, ◌++◌, Option, none, some, Result, ok, err,
  ◌>>=◌, if◌then◌else◌,
}
use secrets_engine.Release.{ReleaseError, module_not_found, fs_error}
use secrets_engine.Release.Bump.{Env, Outcome, bump_module, bump_iterative}
use secrets_engine.Release.Repo.{ModData, RepoData, find}
use secrets_engine.Release.Version.{Level, trim_prefix}
use secrets_engine.Text.{Bytes, codes}
use secrets_engine.Text.Search.{has_prefix}
use secrets_engine.Text.Split.{split_on, join}

-- `opts`
pub record Opts : Type 0 where
  pub dry_run : Bool
  pub skip_git : Bool
  pub level : Level
  pub no_propagate : Bool

-- `modfile.Require`
pub record Requirement : Type 0 where
  pub path : Bytes
  pub version : Bytes
  pub indirect : Bool

-- `modfile.File`, as far as the program reads it
pub record ModFile : Type 0 where
  pub module_path : Bytes
  pub requirements : List Requirement

-- The system, with the packages modfile, semver and filepath, and the number of the error of `getModBase`.
pub record System : Type 1 where
  pub World : Type 0
  pub read_file : Bytes → World → Result ℕ Bytes
  pub write_file : Bytes → Bytes → World → Result ℕ (Unit {0}) × World
  pub parse : Bytes → Result ℕ ModFile
  pub format : ModFile → Result ℕ Bytes
  pub git_tag : Bytes → World → Result ℕ (Unit {0}) × World
  pub git_push_tags : World → Result ℕ (Unit {0}) × World
  pub git_commit : Bytes → World → Result ℕ (Unit {0}) × World
  pub before_commit_hook : Option (World → Result ℕ (Unit {0}) × World)
  pub join_path : Bytes → Bytes → Bytes
  pub canonical : Bytes → Bytes
  pub order : ℕ → List Bytes → List Bytes
  pub unexpected_module_format : ℕ

abbrev three_of : List Bytes → Option Bytes
three_of (a ∷ b ∷ c ∷ d ∷ parts) = some (join b'/' (a ∷ b ∷ c ∷ []))
three_of _ = none

-- `getModBase`: the first three parts of four; `none` is the error.
unfoldable pub get_mod_base : Bytes → Option Bytes
get_mod_base mod_path = three_of (split_on b'/' mod_path)

-- The loop of `BumpModInFile`: whether it found the module, and the requirements then.
unfoldable pub bump_requirements : Bytes → Bytes → List Requirement → Bool × List Requirement
bump_requirements m v [] = (false, [])
bump_requirements m v (r ∷ rs) =
    let rest = bump_requirements m v rs in
    if r.indirect
    then (rest.0, r ∷ rest.1)
    else if has_prefix m r.path
    then (true, record r { version = v } ∷ rs)
    else (rest.0, r ∷ rest.1)

-- The loop of `getDirectProjectDependencies`.
unfoldable pub project_dependencies : Bytes → List Requirement → List Bytes
project_dependencies base [] = []
project_dependencies base (r ∷ rs) =
    let rest = project_dependencies base rs in
    if has_prefix base r.path then trim_prefix (base ++ (b'/' ∷ [])) r.path ∷ rest else rest

module _ (o : Opts) (s : System) where
  abbrev pub Done : Type 0
  Done = Result ℕ (Unit {0}) × s.World

  abbrev pub modified : Result ℕ (Unit {0}) → Result ℕ Bool
  modified (err e) = err e
  modified (ok u) = ok true

  abbrev pub write_back : Bytes → Result ℕ Bytes → s.World → Result ℕ Bool × s.World
  write_back filename (err e) w = (err e, w)
  write_back filename (ok out) w =
      let written = s.write_file filename out w in
      if o.dry_run then (ok true, w) else (modified written.0, written.1)

  abbrev pub bump_file : Bytes → Bytes → Bytes → ModFile → s.World → Result ℕ Bool × s.World
  bump_file filename m v f w =
      let found = bump_requirements m v f.requirements in
      if found.0
      then write_back filename (s.format (record f { requirements = found.1 })) w
      else (ok false, w)

  abbrev pub bump_at :
      Bytes → Bytes → Bytes → ModFile → Option Bytes → s.World → Result ℕ Bool × s.World
  bump_at filename m v f none w = (err s.unexpected_module_format, w)
  bump_at filename m v f (some base) w = bump_file filename (base ++ (b'/' ∷ m)) v f w

  abbrev pub bump_parsed :
      Bytes → Bytes → Bytes → Result ℕ ModFile → s.World → Result ℕ Bool × s.World
  bump_parsed filename m v (err e) w = (err e, w)
  bump_parsed filename m v (ok f) w = bump_at filename m v f (get_mod_base f.module_path) w

  -- `BumpModInFile`
  unfoldable pub bump_mod_in_file : Bytes → Bytes → Bytes → s.World → Result ℕ Bool × s.World
  bump_mod_in_file filename m v w = bump_parsed filename m v (s.read_file filename w >>= s.parse) w

  abbrev pub push_after : Result ℕ (Unit {0}) → s.World → Done
  push_after (err e) w = (err e, w)
  push_after (ok u) w =
      if not o.no_propagate && not o.dry_run then s.git_push_tags w else (ok tt, w)

  -- `GitTag`
  unfoldable pub git_tag : Bytes → s.World → Done
  git_tag tag w =
      let tagged = s.git_tag tag w in
      if o.dry_run || o.skip_git then (ok tt, w) else push_after tagged.0 tagged.1

  abbrev pub commit_after : Bytes → Result ℕ (Unit {0}) → s.World → Done
  commit_after message (err e) w = (err e, w)
  commit_after message (ok u) w =
      if o.dry_run || o.skip_git then (ok tt, w) else s.git_commit message w

  abbrev pub run_hook : Option (s.World → Done) → s.World → Done
  run_hook none w = (ok tt, w)
  run_hook (some hook) w = if o.dry_run then (ok tt, w) else hook w

  -- `GitCommit`
  unfoldable pub git_commit : Bytes → s.World → Done
  git_commit message w =
      let hooked = run_hook s.before_commit_hook w in commit_after message hooked.0 hooked.1

  -- `projectFS`, as the interface `FS`
  abbrev pub project_fs : Env
  project_fs = record {
    World = s.World;
    git_tag = git_tag;
    git_commit = git_commit;
    bump_mod_in_file = bump_mod_in_file;
    join = s.join_path;
    canonical = s.canonical;
    order = s.order;
  }

  abbrev pub release_one : Bytes → RepoData → Option ModData → s.World → Option (Outcome project_fs)
  release_one m repo none w = some (err (module_not_found m), w)
  release_one m repo (some d) w =
      if o.no_propagate
      then some (bump_module project_fs m o.level d w)
      else bump_iterative project_fs m o.level repo w

  -- The command `bump`, once the repository is read.
  unfoldable pub bump_command : Bytes → RepoData → s.World → Option (Outcome project_fs)
  bump_command m repo w = release_one m repo (find m repo) w
