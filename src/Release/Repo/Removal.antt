-- ===== src/Release/Repo/Removal.antt =====
-- x/release/helper/release.go: what is left of the repository after `RemoveModule`.
use secrets_engine.Maps.{elem}
use secrets_engine.Prelude.{
  ◌≤◌, ◌<◌, ◌≡◌, refl, sym, ◌∙◌, true, false, List, [], ◌∷◌, Option, none, some, length, arith,
  Bool-cases, inl, inr,
}
use secrets_engine.Release.Repo.{ModData, RepoData, find, discard, dependencies_of, remove_module}
use secrets_engine.Text.{Bytes, equal, equal_refl, equal_ne, equal_iff, Bytes-cases}

pub elem-discard :
    (k j : Bytes) (s : List Bytes) → equal k j ≡ false → elem j (discard k s) ≡ elem j s
elem-discard k j [] n = refl
elem-discard k j (i ∷ s) n = elim (Bytes-cases k i) [
  | inl e ↦
      rw (e, equal_refl i) (ground (arith, elem-discard k j s n, equal_iff k j, equal_iff j i))
  | inr ne ↦ rw (equal_ne k i ne, elem-discard k j s n) refl
]

pub elem-discard_same : (k : Bytes) (s : List Bytes) → elem k (discard k s) ≡ false
elem-discard_same k [] = refl
elem-discard_same k (i ∷ s) = elim (Bool-cases (equal k i)) [
  | inl e ↦ rw e (elem-discard_same k s)
  | inr ne ↦ rw (ne, ne) (elem-discard_same k s)
]

-- What is left is not the module, and was there before.
pub discarded :
    (k j : Bytes) (s : List Bytes)
    → elem j (discard k s) ≡ true
    → (equal k j ≡ false) × (elem j s ≡ true)
discarded k j s h = elim (Bytes-cases k j) [
  | inl e ↦ absurd (ground (arith, rw e at h, elem-discard_same j s))
  | inr ne ↦ let n = equal_ne k j ne in (n, sym (elem-discard k j s n) ∙ h)
]

pub length-discard : (k : Bytes) (s : List Bytes) → length (discard k s) ≤ length s
length-discard k [] = omega arith
length-discard k (i ∷ s) = ground (arith, length-discard k s)

pub length-discard_lt :
    (k : Bytes) (s : List Bytes) → elem k s ≡ true → length (discard k s) < length s
length-discard_lt k [] h = absurd (ground arith)
length-discard_lt k (i ∷ s) h = elim (Bool-cases (equal k i)) [
  | inl e ↦ rw e (omega (arith, length-discard k s))
  | inr ne ↦ rw ne (omega (arith, length-discard_lt k s (rw ne at h)))
]

-- The data of another module, which no longer depends on the module.
abbrev pub without : Bytes → Option ModData → Option ModData
without k none = none
without k (some v) = some (record v { dependencies = discard k v.dependencies })

equal_other : (k i j : Bytes) → equal k i ≡ true → equal k j ≡ false → equal j i ≡ false
equal_other k i j e n = equal_ne j i (λ z. ground (arith, equal_iff k i, rw z at n))

pub find-remove_module :
    (k j : Bytes) (repo : RepoData)
    → equal k j ≡ false
    → find j (remove_module k repo) ≡ without k (find j repo)
unfolding find remove_module
find-remove_module k j [] n = refl
find-remove_module k j ((i, v) ∷ repo) n = elim (Bool-cases (equal k i)) [
  | inl e ↦ rw (e, equal_other k i j e n) (find-remove_module k j repo n)
  | inr ne ↦ elim (Bool-cases (equal j i)) [
    | inl e ↦ rw (ne, e) refl
    | inr e ↦ rw (ne, e) (find-remove_module k j repo n)
  ]
]

dependencies_of-without :
    (k : Bytes) (o : Option ModData) → dependencies_of (without k o) ≡ discard k (dependencies_of o)
dependencies_of-without k none = refl
dependencies_of-without k (some v) = refl

pub dependencies_of-remove_module :
    (k j : Bytes) (repo : RepoData)
    → equal k j ≡ false
    → dependencies_of (find j (remove_module k repo)) ≡ discard k (dependencies_of (find j repo))
dependencies_of-remove_module k j repo n =
    rw (find-remove_module k j repo n) (dependencies_of-without k (find j repo))
