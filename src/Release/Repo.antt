-- ===== src/Release/Repo.antt =====
-- x/release/helper/release.go: the modules of the repository and what they depend on. A set of modules is
-- a list, in an order in which a loop may visit it.
pub mod Removal
pub mod Links
use secrets_engine.Maps.{elem}
use secrets_engine.Prelude.{
  ℕ, Bool, true, false, List, [], ◌∷◌, ◌++◌, Option, none, some, if◌then◌else◌, length,
}
use secrets_engine.Release.Version.{Version}
use secrets_engine.Text.{Bytes, equal}

-- `ModData`
pub record ModData : Type 0 where
  pub downstreams : List Bytes
  pub dependencies : List Bytes
  pub version : Version

-- `RepoData`: the modules, each with its data.
abbrev pub RepoData : Type 0
RepoData = List (Bytes × ModData)

unfoldable pub find : Bytes → RepoData → Option ModData
find name [] = none
find name ((k, v) ∷ repo) = if equal name k then some v else find name repo

-- `d[mod] = data`
unfoldable pub store : Bytes → ModData → RepoData → RepoData
store name v [] = (name, v) ∷ []
store name v ((k, w) ∷ repo) =
    let rest = store name v repo in if equal name k then (k, v) ∷ repo else (k, w) ∷ rest

-- `s[k] = struct{}{}`
abbrev pub insert : Bytes → List Bytes → List Bytes
insert k s = if elem k s then s else s ++ (k ∷ [])

-- `delete(s, k)`
abbrev pub discard : Bytes → List Bytes → List Bytes
discard k [] = []
discard k (j ∷ s) = let rest = discard k s in if equal k j then rest else j ∷ rest

abbrev no_version : Version
no_version = record { current = []; keep_extra = false }

abbrev pub data_or_new : Option ModData → ModData
data_or_new none = record { downstreams = []; dependencies = []; version = no_version }
data_or_new (some v) = v

-- `getOrInit`
abbrev pub get_or_init : RepoData → Bytes → ModData
get_or_init d name = data_or_new (find name d)

-- `addVersionData`
unfoldable pub add_version_data : Bytes → Version → RepoData → RepoData
add_version_data name v d = store name (record (get_or_init d name) { version = v }) d

-- `addDownstreamDep`
unfoldable pub add_downstream_dep : Bytes → Bytes → RepoData → RepoData
add_downstream_dep name dep d =
    store dep
      (record (get_or_init d dep) { downstreams = insert name (get_or_init d dep).downstreams }) d

-- The loop of `addDeps`, with the set of dependencies so far.
unfoldable pub deps_loop : Bytes → List Bytes → List Bytes → RepoData → List Bytes × RepoData
deps_loop name [] dependencies d = (dependencies, d)
deps_loop name (dep ∷ deps) dependencies d =
    deps_loop name deps (insert dep dependencies) (add_downstream_dep name dep d)

-- `addDeps`
unfoldable pub add_deps : Bytes → List Bytes → RepoData → RepoData
unfolding deps_loop
add_deps name deps d =
    let o = deps_loop name deps [] d in
    store name (record (get_or_init o.1 name) { dependencies = o.0 }) o.1

-- `AddMod`
unfoldable pub add_mod : Bytes → Version → List Bytes → RepoData → RepoData
add_mod name v deps d = add_deps name deps (add_version_data name v d)

abbrev pub dependencies_of : Option ModData → List Bytes
dependencies_of none = []
dependencies_of (some v) = v.dependencies

-- `GetDependencyCount`
unfoldable pub get_dependency_count : RepoData → Bytes → ℕ
get_dependency_count d name = length (dependencies_of (find name d))

-- `RemoveModule`
unfoldable pub remove_module : Bytes → RepoData → RepoData
remove_module name [] = []
remove_module name ((k, v) ∷ repo) =
    let rest = remove_module name repo in
    if equal name k
    then rest
    else (k, record v { dependencies = discard name v.dependencies }) ∷ rest
