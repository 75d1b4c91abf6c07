-- ===== src/Release/Bump/Order.antt =====
-- x/release/helper/release.go: the order of the releases in `BumpIterative`.
use mathlib.Core.Path.{fun_ext}
use secrets_engine.Maps.{elem, distinct}
use secrets_engine.Prelude.{
  ℕ, zero, suc, ◌<◌, ◌≡◌, refl, sym, ap, ◌∙◌, ◌≢◌, ◌==◌, true, false, List, [], ◌∷◌, Option, none,
  some, ok, length, arith, Bool-cases, Option-cases, inl, inr,
}
use secrets_engine.Release.Bump.{
  Env, Outcome, bump_module, next_module, bump_found, bump_next, bump_loop,
}
use secrets_engine.Release.Repo.{
  ModData, RepoData, find, discard, dependencies_of, get_dependency_count, remove_module,
}
use secrets_engine.Release.Repo.Removal.{
  elem-discard, elem-discard_same, discarded, length-discard_lt, without, find-remove_module,
  dependencies_of-remove_module,
}
use secrets_engine.Text.{Bytes, equal, equal_refl, equal_ne, equal_iff, Bytes-cases}

abbrev pub dependencies : RepoData → Bytes → List Bytes
dependencies repo m = dependencies_of (find m repo)

-- No module of the list depends on one that comes later.
abbrev pub Ordered : RepoData → List Bytes → Type 0
Ordered repo [] = Unit
Ordered repo (m ∷ seq) =
    ((j : Bytes) → elem j (dependencies repo m) ≡ true → elem j seq ≡ false) × Ordered repo seq

-- The list has the modules of the queue, each once, after those that it depends on.
pub record IsOrder (repo : RepoData) (queue seq : List Bytes) : Type 0 where
  pub visits : (j : Bytes) → elem j seq ≡ elem j queue
  pub once : distinct seq ≡ true
  pub ordered : Ordered repo seq

-- The modules of the queue depend on modules of the queue, and on none in a circle.
pub record IsAcyclic (repo : RepoData) (queue : List Bytes) (rank : Bytes → ℕ) : Type 0 where
  pub falls :
      (m j : Bytes)
      → elem m queue ≡ true
      → elem j (dependencies repo m) ≡ true
      → (elem j queue ≡ true) × (rank j < rank m)

length-zero : (s : List Bytes) → length s ≡ 0 → s ≡ []
length-zero [] h = refl
length-zero (x ∷ s) h = absurd (omega arith)

nothing : (s : List Bytes) (j : Bytes) → s ≡ [] → elem j s ≡ true → ⊥
nothing [] j h k = cc
nothing (x ∷ s) j h k = cc

member : (s : List Bytes) → s ≢ [] → (x : Bytes) × (elem x s ≡ true)
member [] h = absurd (h refl)
member (x ∷ s) h = (x, rw (equal_refl x) refl)

some_inj : (a b : Bytes) → some a ≡ some b → a ≡ b
some_inj a b e = cc

some_ne-none : (a : Bytes) → (Option.some a) ≢ none
some_ne-none a e = cc

next_module-some :
    (q : List Bytes) (repo : RepoData) (m : Bytes)
    → next_module q repo ≡ some m
    → (elem m q ≡ true) × (dependencies repo m ≡ [])
unfolding next_module get_dependency_count
next_module-some [] repo m h = cc
next_module-some (item ∷ q) repo m h = elim (Bool-cases (get_dependency_count repo item == 0)) [
  | inl e ↦
      let same = some_inj item m (rw e at h) in
      (
        rw same (rw (equal_refl m) refl),
        rw same at (length-zero (dependencies repo item) (ground arith)),
      )
  | inr e ↦ let (k, d) = next_module-some q repo m (rw e at h) in (rw k (ground arith), d)
]

next_module-none :
    (q : List Bytes) (repo : RepoData)
    → next_module q repo ≡ none
    → (m : Bytes) → elem m q ≡ true
    → dependencies repo m ≢ []
unfolding next_module get_dependency_count
next_module-none [] repo h m k d = ground arith
next_module-none (item ∷ q) repo h m k d = elim (Bool-cases (get_dependency_count repo item == 0)) [
  | inl e ↦ some_ne-none item (rw e at h)
  | inr e ↦ elim (Bytes-cases m item) [
    | inl z ↦ ground (arith, rw (rw z at d) at e)
    | inr n ↦ next_module-none q repo (rw e at h) m (rw (equal_ne m item n) at k) d
  ]
]

-- In a queue without circles there is a module to release next.
next_module_lem :
    (q queue : List Bytes) (repo : RepoData) (rank : Bytes → ℕ)
    → ((j : Bytes) → elem j q ≡ elem j queue)
    → IsAcyclic repo queue rank
    → (m : Bytes) (n : ℕ) → elem m queue ≡ true
    → rank m < n
    → next_module q repo ≢ none
next_module_lem q queue repo rank same acyclic m zero h r e = omega arith
next_module_lem q queue repo rank same acyclic m (suc n) h r e =
    let (j, k) = member (dependencies repo m) (next_module-none q repo e m (same m ∙ h)) in
    let (k', lower) = acyclic.falls m j h k in
    next_module_lem q queue repo rank same acyclic j n k' (omega arith) e

remove-IsAcyclic :
    (repo : RepoData) (queue : List Bytes) (rank : Bytes → ℕ) (k : Bytes)
    → IsAcyclic repo queue rank
    → IsAcyclic (remove_module k repo) (discard k queue) rank
remove-IsAcyclic repo queue rank k h = record {
  falls = λ m j a b.
      let (n, a') = discarded k m queue a in
      let (n', b') =
        discarded k j (dependencies repo m)
          (sym (ap (elem j) (dependencies_of-remove_module k m repo n)) ∙ b) in
      let (c, d) = h.falls m j a' b' in (elem-discard k j queue n' ∙ c, d);
}

tail_false :
    (k m : Bytes) (seq : List Bytes)
    → elem k (m ∷ seq) ≡ false
    → (equal k m ≡ false) × (elem k seq ≡ false)
tail_false k m seq h = (ground arith, ground arith)

pub remove-Ordered :
    (repo : RepoData) (k : Bytes) (seq : List Bytes)
    → elem k seq ≡ false
    → Ordered (remove_module k repo) seq
    → Ordered repo seq
remove-Ordered repo k [] h o = tt
remove-Ordered repo k (m ∷ seq) h o = (
  λ j d. elim (Bool-cases (equal k j)) [
    | inl e ↦ rw ((equal_iff k j).0 e) at (tail_false k m seq h).1
    | inr n ↦ o.0 j (
        ap (elem j) (dependencies_of-remove_module k m repo (tail_false k m seq h).0)
        ∙ elem-discard k j (dependencies repo m) n
        ∙ d)
  ],
  remove-Ordered repo k seq (tail_false k m seq h).1 o.1,
)

unnamed : (k : Bytes) (s : List Bytes) → elem [] s ≡ false → elem [] (discard k s) ≡ false
unnamed k s h = elim (Bool-cases (elem [] (discard k s))) [
  | inl e ↦ absurd (ground (arith, discarded k [] s e))
  | inr e ↦ e
]

first_IsOrder :
    (repo : RepoData) (queue : List Bytes) (m : Bytes) (seq : List Bytes)
    → elem m queue ≡ true
    → dependencies repo m ≡ []
    → IsOrder (remove_module m repo) (discard m queue) seq
    → IsOrder repo queue (m ∷ seq)
first_IsOrder repo queue m seq k d order = record {
  visits = λ j. elim (Bytes-cases j m) [
    | inl e ↦ rw (e, equal_refl m) (sym k)
    | inr n ↦
        rw (equal_ne j m n)
          (order.visits j ∙ elem-discard m j queue (equal_ne m j (λ e. n (sym e))))
  ];
  once = rw (order.visits m ∙ elem-discard_same m queue) order.once;
  ordered = (
    λ j k'. absurd (nothing (dependencies repo m) j d k'),
    remove-Ordered repo m seq (order.visits m ∙ elem-discard_same m queue) order.ordered,
  );
}

module _ (env : Env) (name : Bytes) where
  -- The releases of the modules of a list, one after the other, up to an error.
  abbrev pub releases : List Bytes → RepoData → env.World → Option (Outcome env)
  releases [] repo w = some (ok tt, w)
  releases (m ∷ seq) repo w = bump_found env name m (find m repo) w (releases seq repo)

  bump_found-without :
      (k m : Bytes) (o : Option ModData) (w : env.World) (next : env.World → Option (Outcome env))
      → bump_found env name m (without k o) w next ≡ bump_found env name m o w next
  unfolding bump_module
  bump_found-without k m none w next = refl
  bump_found-without k m (some v) w next = refl

  pub releases-remove :
      (repo : RepoData) (k : Bytes) (seq : List Bytes) (w : env.World)
      → elem k seq ≡ false
      → releases seq (remove_module k repo) w ≡ releases seq repo w
  releases-remove repo k [] w h = refl
  releases-remove repo k (m ∷ seq) w h =
      let (n, h') = tail_false k m seq h in
      ap (λ o. bump_found env name m o w (releases seq (remove_module k repo)))
        (find-remove_module k m repo n)
      ∙ bump_found-without k m (find m repo) w (releases seq (remove_module k repo))
      ∙ ap (bump_found env name m (find m repo) w)
          (fun_ext (λ w'. releases-remove repo k seq w' h'))

  bump_next-some :
      (m : Bytes) (repo : RepoData) (w : env.World)
      (next : Bytes → env.World → Option (Outcome env))
      → m ≢ []
      → bump_next env name (some m) repo w next ≡ bump_found env name m (find m repo) w (next m)
  bump_next-some [] repo w next h = absurd (h refl)
  bump_next-some (b ∷ m) repo w next h = refl

  pub bump_loop_lem :
      (n : ℕ) (queue : List Bytes) (repo : RepoData) (rank : Bytes → ℕ)
      → ((r : ℕ) (q : List Bytes) (j : Bytes) → elem j (env.order r q) ≡ elem j q)
      → IsAcyclic repo queue rank
      → elem [] queue ≡ false
      → length queue < n
      → (seq : List Bytes) × IsOrder repo queue seq
        × ((w : env.World) → bump_loop env n name queue repo w ≡ releases seq repo w)
  unfolding bump_loop
  bump_loop_lem zero queue repo rank law acyclic named h = absurd (omega arith)
  bump_loop_lem (suc n) [] repo rank law acyclic named h =
      ([], record { visits = λ j. refl; once = refl; ordered = tt }, λ w. refl)
  bump_loop_lem (suc n) (item ∷ queue) repo rank law acyclic named h =
      elim (Option-cases (next_module (env.order n (item ∷ queue)) repo)) [
        | inl e ↦ absurd (
            next_module_lem (env.order n (item ∷ queue)) (item ∷ queue) repo rank
              (law n (item ∷ queue)) acyclic item (suc (rank item)) (rw (equal_refl item) refl)
              (omega arith) e)
        | inr (m, e) ↦
            let (k, d) = next_module-some (env.order n (item ∷ queue)) repo m e in
            let k' = sym (law n (item ∷ queue) m) ∙ k in
            let (seq, order, runs) =
              bump_loop_lem n (discard m (item ∷ queue)) (remove_module m repo) rank law
                (remove-IsAcyclic repo (item ∷ queue) rank m acyclic)
                (unnamed m (item ∷ queue) named)
                (omega (arith, length-discard_lt m (item ∷ queue) k')) in
            let gone = order.visits m ∙ elem-discard_same m (item ∷ queue) in
            (
              m ∷ seq,
              first_IsOrder repo (item ∷ queue) m seq k' d order,
              λ w. rw e (
                  bump_next-some m repo w _ (λ z. ground (arith, rw z at k', named))
                  ∙ ap (bump_found env name m (find m repo) w)
                      (fun_ext (λ w'. runs w' ∙ releases-remove repo m seq w' gone))),
            )
      ]
