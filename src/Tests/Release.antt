-- ===== src/Tests/Release.antt =====
-- Runs and instances for x/release.
use secrets_engine.Maps.{elem}
use secrets_engine.Prelude.{
  ℕ, ◌<◌, ◌≡◌, refl, ap, true, false, List, [], ◌∷◌, ◌++◌, none, some, ok, arith, inl, inr,
  if◌then◌else◌,
}
use secrets_engine.Release.Bump.{
  Env, bump_files, bump_module, next_module, continue_with, bump_loop, reduce, modules,
  bump_iterative,
}
use secrets_engine.Release.Bump.Iterative.{bump_iterative_lem}
use secrets_engine.Release.Bump.Order.{dependencies, IsOrder, releases}
use secrets_engine.Release.Project.{
  Opts, Requirement, System, get_mod_base, bump_requirements, project_dependencies, project_fs,
  bump_command,
}
use secrets_engine.Release.Project.DryRun.{EndsIn, bump_command_dry}
use secrets_engine.Release.Project.Requirements.{bump_requirements_first}
use secrets_engine.Release.Repo.{
  ModData, RepoData, find, store, get_or_init, add_version_data, add_downstream_dep, deps_loop,
  add_deps, add_mod, get_dependency_count, remove_module,
}
use secrets_engine.Release.Repo.Links.{IsLinked, add_mod-IsLinked}
use secrets_engine.Release.Version.{Version, patch, minor, cut_version_extra, get_next_version}
use secrets_engine.Release.Version.Increasing.{version_text, bumped, get_next_version_lem}
use secrets_engine.Text.{Bytes, codes, equal, equal_ne, cut_prefix, Bytes-cases}
use secrets_engine.Text.Decimal.{itoa, atoi}
use secrets_engine.Text.Search.{cut}
use secrets_engine.Text.Split.{split_on, join}

abbrev current : Version
current = record { current = codes "v0.1.9-beta"; keep_extra = true }

-- A version as it is.
abbrev plain : Bytes → Bytes
plain s = s

current_text : (cut_version_extra current.current) ≡ (version_text (0, 1, 9), codes "-beta")
unfolding cut_version_extra cut itoa
current_text = refl

get_next_version_lem_example :
    get_next_version plain current minor
    ≡ ok (version_text (bumped minor (0, 1, 9)) ++ (cut_version_extra current.current).1)
get_next_version_lem_example =
    get_next_version_lem plain current minor 0 1 9 (ap (λ p. p.0) current_text) (omega arith)
      (omega arith) (omega arith)

-- The extra is kept, and the patch starts again at 0.
next_minor : get_next_version plain current minor ≡ ok (codes "v0.2.0-beta")
unfolding get_next_version cut_version_extra cut cut_prefix atoi itoa equal
next_minor = refl

abbrev a : Bytes
a = codes "a"

abbrev b : Bytes
b = codes "b"

abbrev c : Bytes
c = codes "c"

-- Both `b` and `c` depend on `a`, and `c` depends on `b` too.
abbrev repo : RepoData
repo =
    (a, record { downstreams = c ∷ b ∷ []; dependencies = []; version = current })
    ∷ (c, record { downstreams = []; dependencies = b ∷ a ∷ []; version = current })
    ∷ (b, record { downstreams = c ∷ []; dependencies = a ∷ []; version = current })
    ∷ []

repo_built :
    add_mod c current (b ∷ a ∷ []) (add_mod b current (a ∷ []) (add_mod a current [] []))
    ≡ (a, record { downstreams = b ∷ c ∷ []; dependencies = []; version = current })
      ∷ (b, record { downstreams = c ∷ []; dependencies = a ∷ []; version = current })
      ∷ (c, record { downstreams = []; dependencies = b ∷ a ∷ []; version = current })
      ∷ []
unfolding add_mod add_deps deps_loop add_downstream_dep add_version_data find store equal
repo_built = refl

-- The tags, the files and the commits, the latest first.
abbrev env : Env
env = record {
  World = List Bytes;
  git_tag = λ tag w. (ok tt, tag ∷ w);
  git_commit = λ msg w. (ok tt, msg ∷ w);
  bump_mod_in_file = λ file m version w. (ok true, file ∷ w);
  join = λ dir file. dir ++ (b'/' ∷ file);
  canonical = plain;
  order = λ n q. q;
}

released :
    bump_iterative env a patch repo []
    ≡ some (
      ok tt,
      codes "c/v0.1.10-beta"
          ∷ codes "chore: bump b/v0.1.10-beta"
          ∷ codes "c/go.mod"
          ∷ codes "b/v0.1.10-beta"
          ∷ codes "chore: bump a/v0.1.10-beta"
          ∷ codes "b/go.mod"
          ∷ codes "c/go.mod"
          ∷ codes "a/v0.1.10-beta"
          ∷ [],
    )
unfolding bump_iterative bump_module bump_files bump_loop next_module reduce find remove_module
    get_dependency_count get_next_version cut_version_extra cut cut_prefix atoi itoa equal
released = refl

abbrev data_of_a : ModData
data_of_a = record { downstreams = c ∷ b ∷ []; dependencies = []; version = current }

repo-a : find a repo ≡ some data_of_a
unfolding find equal
repo-a = refl

abbrev rank : Bytes → ℕ
rank j = if equal j c then 1 else 0

falls :
    (m j : Bytes)
    → elem m (c ∷ b ∷ []) ≡ true
    → elem j (dependencies repo m) ≡ true
    → (elem j (modules repo) ≡ true) × (elem j (c ∷ b ∷ []) ≡ true → rank j < rank m)
unfolding find equal
falls m j h d = elim (Bytes-cases m c) [
  | inl e ↦ elim (Bytes-cases j b) [
    | inl k ↦ rw (e, k) (refl, λ z. omega arith)
    | inr n ↦ elim (Bytes-cases j a) [
      | inl k ↦ rw (e, k) (refl, λ z. omega arith)
      | inr n' ↦ absurd (ground (arith, rw e at d, equal_ne j b n, equal_ne j a n'))
    ]
  ]
  | inr e ↦ elim (Bytes-cases m b) [
    | inl k ↦ elim (Bytes-cases j a) [
      | inl z ↦ rw (k, z) (refl, λ z. cc)
      | inr n ↦ absurd (ground (arith, rw k at d, equal_ne j a n))
    ]
    | inr n ↦ absurd (ground (arith, h, equal_ne m c e, equal_ne m b n))
  ]
]

bump_iterative_lem_example :
    (seq : List Bytes) × IsOrder repo (c ∷ b ∷ []) seq
    × (bump_iterative env a patch repo []
        ≡ continue_with env
            (bump_module env a patch data_of_a []).0
            (bump_module env a patch data_of_a []).1
            (releases env a seq repo))
bump_iterative_lem_example =
    bump_iterative_lem env a patch repo data_of_a rank [] (λ r q j. refl) repo-a
      (unfold equal in refl) falls

nothing-IsLinked : IsLinked []
unfolding find
nothing-IsLinked m j = refl

add_mod-IsLinked_example :
    IsLinked (add_mod a current (b ∷ []) [])
    × ((j : Bytes)
        → elem j (get_or_init (add_mod a current (b ∷ []) []) a).dependencies ≡ elem j (b ∷ []))
add_mod-IsLinked_example =
    add_mod-IsLinked a current (b ∷ []) [] nothing-IsLinked (unfold find in refl)

abbrev other : Requirement
other = record { path = codes "h/o/r/plugins/pass"; version = codes "v0.1.0"; indirect = false }

abbrev itself : Requirement
itself = record { path = codes "h/o/r/plugin"; version = codes "v0.2.0"; indirect = false }

-- The module `plugin` is released, and the version of `plugins/pass` is changed.
bump_requirements_first_example :
    bump_requirements (codes "h/o/r/plugin") (codes "v0.2.1") (other ∷ itself ∷ [])
    ≡ (true, record other { version = codes "v0.2.1" } ∷ itself ∷ [])
bump_requirements_first_example =
    bump_requirements_first (codes "h/o/r/plugin") (codes "v0.2.1") (codes "s/pass") [] other
      (itself ∷ []) tt refl refl

base_of_module :
    get_mod_base (codes "github.com/docker/secrets-engine/x")
    ≡ some (codes "github.com/docker/secrets-engine")
unfolding get_mod_base split_on join
base_of_module = refl

dependencies_of_pass : project_dependencies (codes "h/o/r") (other ∷ []) ≡ codes "plugins/pass" ∷ []
unfolding project_dependencies cut_prefix
dependencies_of_pass = refl

abbrev dry : Opts
dry = record { dry_run = true; skip_git = false; level = patch; no_propagate = false }

-- The messages to git and the files written, the latest first; every file is the same text.
abbrev system : System
system = record {
  World = List Bytes;
  read_file = λ file w. ok file;
  write_file = λ file text w. (ok tt, text ∷ w);
  parse = λ text. ok (record { module_path = codes "h/o/r/m"; requirements = [] });
  format = λ f. ok [];
  git_tag = λ tag w. (ok tt, tag ∷ w);
  git_push_tags = λ w. (ok tt, w);
  git_commit = λ message w. (ok tt, message ∷ w);
  before_commit_hook = none;
  join_path = λ dir file. dir ++ (b'/' ∷ file);
  canonical = plain;
  order = λ n q. q;
  unexpected_module_format = 0;
}

bump_command_dry_example : EndsIn (project_fs dry system) [] (bump_command dry system a repo [])
bump_command_dry_example = bump_command_dry dry system a repo [] refl
