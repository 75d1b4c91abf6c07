-- ===== src/Release/Repo/Links.antt =====
-- x/release/helper/release.go: the two directions in which the repository records dependencies.
use secrets_engine.Maps.{elem}
use secrets_engine.Prelude.{
  ◌≡◌, refl, sym, ap, ◌∙◌, ◌||◌, ◌&&◌, List, [], ◌∷◌, ◌++◌, arith, Bool-cases, inl, inr,
  if◌then◌else◌,
}
use secrets_engine.Release.Repo.{
  ModData, RepoData, find, store, insert, get_or_init, add_version_data, add_downstream_dep,
  deps_loop, add_deps, add_mod,
}
use secrets_engine.Release.Version.{Version}
use secrets_engine.Text.{Bytes, equal, equal_refl, equal_ne, equal_iff, Bytes-cases}

-- A module depends on another exactly if it is recorded downstream of the other.
abbrev pub IsLinked : RepoData → Type 0
IsLinked repo =
    (m j : Bytes)
    → elem j (get_or_init repo m).dependencies ≡ elem m (get_or_init repo j).downstreams

pub get_or_init-store :
    (k j : Bytes) (v : ModData) (repo : RepoData)
    → get_or_init (store k v repo) j ≡ (if equal k j then v else get_or_init repo j)
unfolding store find
get_or_init-store k j v [] = elim (Bytes-cases j k) [
  | inl e ↦ rw (e, equal_refl k) refl
  | inr n ↦ rw (equal_ne j k n, equal_ne k j (λ e. n (sym e))) refl
]
get_or_init-store k j v ((i, u) ∷ repo) = elim (Bool-cases (equal k i)) [
  | inl e ↦ elim (Bytes-cases j k) [
    | inl z ↦ rw (z, equal_refl k, e, e) refl
    | inr n ↦
        rw (e, equal_ne k j (λ z. n (sym z)), equal_ne j i (λ z. n (z ∙ sym ((equal_iff k i).0 e))))
          refl
  ]
  | inr ne ↦ elim (Bool-cases (equal j i)) [
    | inl z ↦ rw (ne, z, rw (sym ((equal_iff j i).0 z)) at ne) refl
    | inr z ↦ rw (ne, z) (get_or_init-store k j v repo)
  ]
]

elem-append : (k j : Bytes) (s : List Bytes) → elem j (s ++ (k ∷ [])) ≡ (equal j k || elem j s)
elem-append k j [] = refl
elem-append k j (i ∷ s) = rw (elem-append k j s) (ground arith)

elem-insert : (k j : Bytes) (s : List Bytes) → elem j (insert k s) ≡ (equal j k || elem j s)
elem-insert k j s = elim (Bool-cases (elem k s)) [
  | inl e ↦ elim (Bytes-cases j k) [
    | inl z ↦ rw (z, e, equal_refl k) e
    | inr n ↦ rw (e, equal_ne j k n) refl
  ]
  | inr e ↦ rw e (elem-append k j s)
]

-- The data of each module after a dependency is recorded on the other's side.
downstream_dependencies :
    (name dep m : Bytes) (d : RepoData)
    → (get_or_init (add_downstream_dep name dep d) m).dependencies ≡ (get_or_init d m).dependencies
unfolding add_downstream_dep
downstream_dependencies name dep m d =
    rw (get_or_init-store dep m _ d) (elim (Bool-cases (equal dep m)) [
      | inl e ↦ rw (e, (equal_iff dep m).0 e) refl
      | inr e ↦ rw e refl
    ])

downstream_downstreams :
    (name dep m j : Bytes) (d : RepoData)
    → elem m (get_or_init (add_downstream_dep name dep d) j).downstreams
      ≡ ((equal m name && equal j dep) || elem m (get_or_init d j).downstreams)
unfolding add_downstream_dep
downstream_downstreams name dep m j d = rw (get_or_init-store dep j _ d) (elim (Bytes-cases j dep) [
  | inl e ↦ rw (e, equal_refl dep) (elem-insert name m _ ∙ ground arith)
  | inr n ↦ rw (equal_ne j dep n, equal_ne dep j (λ e. n (sym e))) (ground arith)
])

deps_loop-dependencies :
    (name m : Bytes) (deps acc : List Bytes) (d : RepoData)
    → (get_or_init (deps_loop name deps acc d).1 m).dependencies ≡ (get_or_init d m).dependencies
unfolding deps_loop
deps_loop-dependencies name m [] acc d = refl
deps_loop-dependencies name m (dep ∷ deps) acc d =
    deps_loop-dependencies name m deps _ _ ∙ downstream_dependencies name dep m d

deps_loop-downstreams :
    (name m j : Bytes) (deps acc : List Bytes) (d : RepoData)
    → elem m (get_or_init (deps_loop name deps acc d).1 j).downstreams
      ≡ ((equal m name && elem j deps) || elem m (get_or_init d j).downstreams)
unfolding deps_loop
deps_loop-downstreams name m j [] acc d = ground arith
deps_loop-downstreams name m j (dep ∷ deps) acc d =
    deps_loop-downstreams name m j deps _ _
    ∙ rw (downstream_downstreams name dep m j d) (ground arith)

deps_loop-elem :
    (name j : Bytes) (deps acc : List Bytes) (d : RepoData)
    → elem j (deps_loop name deps acc d).0 ≡ (elem j deps || elem j acc)
unfolding deps_loop
deps_loop-elem name j [] acc d = refl
deps_loop-elem name j (dep ∷ deps) acc d =
    deps_loop-elem name j deps _ _ ∙ rw (elem-insert dep j acc) (ground arith)

add_version_data-links :
    (name m : Bytes) (v : Version) (d : RepoData)
    → ((get_or_init (add_version_data name v d) m).dependencies ≡ (get_or_init d m).dependencies)
      × ((get_or_init (add_version_data name v d) m).downstreams ≡ (get_or_init d m).downstreams)
unfolding add_version_data
add_version_data-links name m v d =
    rw (get_or_init-store name m _ d) (elim (Bool-cases (equal name m)) [
      | inl e ↦ rw (e, (equal_iff name m).0 e) (refl, refl)
      | inr e ↦ rw e (refl, refl)
    ])

add_deps-dependencies :
    (name m j : Bytes) (deps : List Bytes) (d : RepoData)
    → elem j (get_or_init (add_deps name deps d) m).dependencies
      ≡ (if equal name m then elem j deps else elem j (get_or_init d m).dependencies)
unfolding add_deps
add_deps-dependencies name m j deps d =
    rw (get_or_init-store name m _ (deps_loop name deps [] d).1) (elim (Bool-cases (equal name m)) [
      | inl e ↦ rw e (deps_loop-elem name j deps [] d ∙ ground arith)
      | inr e ↦ rw e (ap (elem j) (deps_loop-dependencies name m deps [] d))
    ])

add_deps-downstreams :
    (name m j : Bytes) (deps : List Bytes) (d : RepoData)
    → elem m (get_or_init (add_deps name deps d) j).downstreams
      ≡ ((equal m name && elem j deps) || elem m (get_or_init d j).downstreams)
unfolding add_deps
add_deps-downstreams name m j deps d =
    let o = deps_loop name deps [] d in
    rw (get_or_init-store name j _ o.1) (elim (Bool-cases (equal name j)) [
      | inl e ↦ rw e (
          ap (λ z. elem m (get_or_init o.1 z).downstreams) ((equal_iff name j).0 e)
          ∙ deps_loop-downstreams name m j deps [] d)
      | inr e ↦ rw e (deps_loop-downstreams name m j deps [] d)
    ])

add_mod-dependencies :
    (name m j : Bytes) (v : Version) (deps : List Bytes) (d : RepoData)
    → elem j (get_or_init (add_mod name v deps d) m).dependencies
      ≡ (if equal name m then elem j deps else elem j (get_or_init d m).dependencies)
unfolding add_mod
add_mod-dependencies name m j v deps d =
    rw ((add_version_data-links name m v d).0) at
      (add_deps-dependencies name m j deps (add_version_data name v d))

add_mod-downstreams :
    (name m j : Bytes) (v : Version) (deps : List Bytes) (d : RepoData)
    → elem m (get_or_init (add_mod name v deps d) j).downstreams
      ≡ ((equal m name && elem j deps) || elem m (get_or_init d j).downstreams)
unfolding add_mod
add_mod-downstreams name m j v deps d =
    rw ((add_version_data-links name j v d).1) at
      (add_deps-downstreams name m j deps (add_version_data name v d))

-- In a repository in which a module depends on another exactly if it is recorded downstream of the other,
-- this is so after `add_mod` of a module that has no dependencies yet. It then depends on those given.
pub add_mod-IsLinked :
    (name : Bytes) (v : Version) (deps : List Bytes) (d : RepoData)
    → IsLinked d
    → (get_or_init d name).dependencies ≡ []
    → IsLinked (add_mod name v deps d)
      × ((j : Bytes) → elem j (get_or_init (add_mod name v deps d) name).dependencies ≡ elem j deps)
add_mod-IsLinked name v deps d linked new = (
  λ m j.
      rw (add_mod-dependencies name m j v deps d, add_mod-downstreams name m j v deps d, linked m j)
        (elim (Bytes-cases m name) [
          | inl e ↦ rw (e, equal_refl name, rw new at (sym (linked name j))) (ground arith)
          | inr n ↦ rw (equal_ne m name n, equal_ne name m (λ e. n (sym e))) refl
        ]),
  λ j. rw (add_mod-dependencies name name j v deps d, equal_refl name) refl,
)
