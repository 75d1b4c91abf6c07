-- ===== src/Release/Bump/Iterative.antt =====
-- x/release/helper/release.go: `BumpIterative` releases a module and those that depend on it.
use mathlib.Core.Path.{fun_ext}
use secrets_engine.Maps.{elem}
use secrets_engine.Prelude.{
  ℕ, suc, ◌<◌, ◌≡◌, refl, sym, ap, ◌∙◌, true, false, List, [], ◌∷◌, some, length, arith, Bool-cases,
  inl, inr,
}
use secrets_engine.Release.Bump.{Env, bump_module, continue_with, reduce, modules, bump_iterative}
use secrets_engine.Release.Bump.Order.{
  dependencies, Ordered, IsOrder, remove-Ordered, releases, releases-remove, bump_loop_lem,
}
use secrets_engine.Release.Repo.{ModData, RepoData, find, remove_module}
use secrets_engine.Release.Repo.Removal.{discarded, dependencies_of-remove_module}
use secrets_engine.Release.Version.{Level}
use secrets_engine.Text.{Bytes, equal, equal_ne, equal_iff}

outside : (k j : Bytes) (s : List Bytes) → elem k s ≡ false → elem j s ≡ true → equal k j ≡ false
outside k j s h h' = equal_ne k j (λ e. ground (arith, rw e at h))

elem_step :
    (k j : Bytes) (ks queue : List Bytes)
    → elem k queue ≡ true
    → (elem j ks ≡ true → elem j queue ≡ true)
    → elem j (k ∷ ks) ≡ true
    → elem j queue ≡ true
elem_step k j ks queue h f e = elim (Bool-cases (equal j k)) [
  | inl z ↦ rw ((equal_iff j k).0 z) h
  | inr n ↦ f (rw n at e)
]

dependencies-reduce :
    (ks queue : List Bytes) (repo : RepoData) (m j : Bytes)
    → elem m queue ≡ true
    → elem j (dependencies (reduce ks queue repo) m) ≡ true
    → (elem j (dependencies repo m) ≡ true) × (elem j ks ≡ true → elem j queue ≡ true)
unfolding reduce
dependencies-reduce [] queue repo m j h d = (d, λ e. ground arith)
dependencies-reduce (k ∷ ks) queue repo m j h d = elim (Bool-cases (elem k queue)) [
  | inl e ↦
      let (a, f) = dependencies-reduce ks queue repo m j h (rw e at d) in
      (a, elem_step k j ks queue e f)
  | inr e ↦
      let (a, f) = dependencies-reduce ks queue (remove_module k repo) m j h (rw e at d) in
      let n = outside k m queue e h in
      let (n', a') =
        discarded k j (dependencies repo m)
          (sym (ap (elem j) (dependencies_of-remove_module k m repo n)) ∙ a) in
      (a', λ z. f (ground (arith, equal_iff k j, equal_iff j k)))
]

not_in :
    (k : Bytes) (seq queue : List Bytes)
    → ((j : Bytes) → elem j seq ≡ elem j queue)
    → elem k queue ≡ false
    → elem k seq ≡ false
not_in k seq queue same h = same k ∙ h

Ordered-reduce :
    (ks queue seq : List Bytes) (repo : RepoData)
    → ((j : Bytes) → elem j seq ≡ elem j queue)
    → Ordered (reduce ks queue repo) seq
    → Ordered repo seq
unfolding reduce
Ordered-reduce [] queue seq repo same o = o
Ordered-reduce (k ∷ ks) queue seq repo same o = elim (Bool-cases (elem k queue)) [
  | inl e ↦ Ordered-reduce ks queue seq repo same (rw e at o)
  | inr e ↦
      remove-Ordered repo k seq (same k ∙ e)
        (Ordered-reduce ks queue seq (remove_module k repo) same (rw e at o))
]

releases-reduce :
    (env : Env) (name : Bytes) (ks queue seq : List Bytes) (repo : RepoData) (w : env.World)
    → ((j : Bytes) → elem j seq ≡ elem j queue)
    → releases env name seq (reduce ks queue repo) w ≡ releases env name seq repo w
unfolding reduce
releases-reduce env name [] queue seq repo w same = refl
releases-reduce env name (k ∷ ks) queue seq repo w same = elim (Bool-cases (elem k queue)) [
  | inl e ↦ rw e (releases-reduce env name ks queue seq repo w same)
  | inr e ↦ rw e (
      releases-reduce env name ks queue seq (remove_module k repo) w same
      ∙ releases-remove env name repo k seq w (same k ∙ e))
]

-- Let a loop over a set visit its modules, in any order, and let the module be in the repository. Let the
-- modules that depend on it have names and have their dependencies in the repository, and let no circle
-- be among them.
-- Then there is an order of those modules, each once and after those of them that it depends on, such that
-- `bump_iterative` releases the module and then, up to an error, the others in that order as patches.
pub bump_iterative_lem :
    (env : Env) (name : Bytes) (level : Level) (repo : RepoData) (d : ModData) (rank : Bytes → ℕ)
    (w : env.World)
    → ((r : ℕ) (q : List Bytes) (j : Bytes) → elem j (env.order r q) ≡ elem j q)
    → find name repo ≡ some d
    → elem [] d.downstreams ≡ false
    → ((m j : Bytes)
        → elem m d.downstreams ≡ true
        → elem j (dependencies repo m) ≡ true
        → (elem j (modules repo) ≡ true) × (elem j d.downstreams ≡ true → rank j < rank m))
    → (seq : List Bytes) × IsOrder repo d.downstreams seq
      × (bump_iterative env name level repo w
          ≡ continue_with env
              (bump_module env name level d w).0
              (bump_module env name level d w).1
              (releases env name seq repo))
unfolding bump_iterative
bump_iterative_lem env name level repo d rank w law e named acyclic =
    let queue = d.downstreams in
    let reduced = reduce (modules repo) queue repo in
    let (seq, order, runs) =
      bump_loop_lem env name (suc (length queue)) queue reduced rank law
        (record {
          falls = λ m j a b.
              let (b', inside) = dependencies-reduce (modules repo) queue repo m j a b in
              let (known, lower) = acyclic m j a b' in (inside known, lower (inside known));
        })
        named (omega arith) in
    (
      seq,
      record {
        visits = order.visits;
        once = order.once;
        ordered = Ordered-reduce (modules repo) queue seq repo order.visits order.ordered;
      },
      rw e (
          ap
            (continue_with env (bump_module env name level d w).0
              (bump_module env name level d w).1)
            (fun_ext (λ w'.
              runs w' ∙ releases-reduce env name (modules repo) queue seq repo w' order.visits))),
    )
