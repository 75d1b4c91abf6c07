-- ===== src/Maps.antt =====
-- Go's maps from strings: a function for the contents, and a list of keys for the order in which a
-- `range` loop or `maps.Keys` visits them, which the language leaves open.
use secrets_engine.Prelude.{
  ◌≡◌, refl, sym, ap, inl, inr, ◌≢◌, Bool, true, false, ◌&&◌, ◌||◌, List, [], ◌∷◌, Option, none,
  some, arith, if◌then◌else◌,
}
use secrets_engine.Text.{Bytes, equal, equal_refl, equal_ne, Bytes-cases}

abbrev pub Map {ℓ} : Type ℓ → Type ℓ
Map V = Bytes → Option V

abbrev pub elem : Bytes → List Bytes → Bool
elem k [] = false
elem k (j ∷ ks) = equal k j || elem k ks

abbrev pub distinct : List Bytes → Bool
distinct [] = true
distinct (k ∷ ks) = (if elem k ks then false else true) && distinct ks

abbrev pub is_some {ℓ} : {A : Type ℓ} → Option A → Bool
is_some none = false
is_some (some a) = true

module _ {ℓ} {V : Type ℓ} where
  -- `make(map[string]V)`
  abbrev pub empty : Map V
  empty j = none

  -- `m[k] = v`
  abbrev pub put : Bytes → V → Map V → Map V
  put k v m j = if equal k j then some v else m j

  -- `delete(m, k)`
  abbrev pub remove : Bytes → Map V → Map V
  remove k m j = if equal k j then none else m j

  -- The list visits each key of the map once, and nothing else.
  pub record IsKeys (m : Map V) (ks : List Bytes) : Type 0 where
    pub visits : (k : Bytes) → elem k ks ≡ is_some (m k)
    pub once : distinct ks ≡ true

pub elem-head-ne : (k j : Bytes) (ks : List Bytes) → elem k ks ≡ false → elem j ks ≡ true → k ≢ j
elem-head-ne k j ks h t e = cc (ap (λ (z : Bytes). elem z ks) e)

pub distinct_head : (k : Bytes) (ks : List Bytes) → distinct (k ∷ ks) ≡ true → elem k ks ≡ false
distinct_head k ks h = ground arith

pub distinct_tail : (k : Bytes) (ks : List Bytes) → distinct (k ∷ ks) ≡ true → distinct ks ≡ true
distinct_tail k ks h = ground arith

pub is_some-false {ℓ} : {A : Type ℓ} (o : Option A) → is_some o ≡ false → o ≡ none
is_some-false none h = refl
is_some-false (some a) h = cc

-- Removing a key that is not there changes nothing.
pub remove_absent {ℓ} :
    {V : Type ℓ} (k : Bytes) (m : Map V) (j : Bytes) → is_some (m k) ≡ false → remove k m j ≡ m j
remove_absent k m j h = elim (Bytes-cases k j) [
  | inl e ↦ rw (e, equal_refl j) (sym (is_some-false (m j) (rw e at h)))
  | inr n ↦ rw (equal_ne k j n)
]

-- What is left after one key is removed, and then some.
pub removed_also {ℓ} :
    {V : Type ℓ} (k : Bytes) (ks : List Bytes) (m : Map V) (o : Option V) (j : Bytes)
    → o ≡ remove k m j
    → (if elem j ks then none else o) ≡ (if elem j (k ∷ ks) then none else m j)
removed_also k ks m o j e = elim (Bytes-cases j k) [
  | inl z ↦ rw (e, z, equal_refl k) (ground arith)
  | inr n ↦ rw (e, equal_ne j k n, equal_ne k j (λ w. n (sym w)))
]

-- What is left after some keys are removed, and then one.
pub removed_last {ℓ} :
    {V : Type ℓ} (k : Bytes) (ks : List Bytes) (m m' : Map V) (j : Bytes)
    → m' j ≡ (if elem j ks then none else m j)
    → remove k m' j ≡ (if elem j (k ∷ ks) then none else m j)
removed_last k ks m m' j e = elim (Bytes-cases j k) [
  | inl z ↦ rw (z, equal_refl k)
  | inr n ↦ rw (e, equal_ne j k n, equal_ne k j (λ w. n (sym w)))
]
