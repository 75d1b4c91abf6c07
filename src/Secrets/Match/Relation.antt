-- ===== src/Secrets/Match/Relation.antt =====
-- What it means for a pattern to match a path, with no search order in it, and the proof that `match`
-- decides it.
use secrets_engine.Prelude.{
  ◌≡◌, refl, ◌≢◌, ◌↔◌, ◌⊎◌, inl, inr, Bool, true, List, [], ◌∷◌, arith, all, Bool-cases,
}
use secrets_engine.Secrets.Pattern.{star, double_star}
use secrets_engine.Secrets.Match.{try_skips, match_parts}
use secrets_engine.Text.{Bytes, equal, equal_iff, equal_ne, Bytes-cases}

-- `**` takes any run of components and `*` takes one. Any other component takes itself, and takes the
-- component `*` of the other side.
pub data Matches : List Bytes → List Bytes → Type 0 where
  done : Matches [] []
  leave : {p : Bytes} {ps xs : List Bytes} → p ≡ double_star → Matches ps xs → Matches (p ∷ ps) xs
  take :
      {p x : Bytes} {ps xs : List Bytes}
      → p ≡ double_star
      → Matches (p ∷ ps) xs
      → Matches (p ∷ ps) (x ∷ xs)
  any_one :
      {p x : Bytes} {ps xs : List Bytes} → p ≡ star → Matches ps xs → Matches (p ∷ ps) (x ∷ xs)
  same :
      {p x : Bytes} {ps xs : List Bytes}
      → p ≢ double_star
      → p ≢ star
      → (p ≡ x) ⊎ (x ≡ star)
      → Matches ps xs
      → Matches (p ∷ ps) (x ∷ xs)

pub Matches-double_star : (xs : List Bytes) → Matches (double_star ∷ []) xs
Matches-double_star [] = leave refl done
Matches-double_star (x ∷ xs) = take refl (Matches-double_star xs)

all_double_star-sound : (ps : List Bytes) → all (λ q. equal q double_star) ps ≡ true → Matches ps []
all_double_star-sound [] h = done
all_double_star-sound (p ∷ ps) h =
    leave (ground (arith, equal_iff p double_star)) (all_double_star-sound ps (ground arith))

all-double_star_complete :
    {ps : List Bytes} → Matches ps [] → all (λ q. equal q double_star) ps ≡ true
all-double_star_complete done = refl
all-double_star_complete (leave {p} e d) =
    rw ((equal_iff p double_star).1 e, all-double_star_complete d) refl

try_skips-sound :
    (p : Bytes) (ps : List Bytes) (f : List Bytes → Bool) (xs : List Bytes)
    → p ≡ double_star
    → ((ys : List Bytes) → f ys ≡ true → Matches ps ys)
    → try_skips f xs ≡ true
    → Matches (p ∷ ps) xs
unfolding try_skips
try_skips-sound p ps f [] e ih h = leave e (ih [] h)
try_skips-sound p ps f (x ∷ xs) e ih h = elim (Bool-cases (f (x ∷ xs))) [
  | inl t ↦ leave e (ih (x ∷ xs) t)
  | inr n ↦ take e (try_skips-sound p ps f xs e ih (rw (n, try_skips) at h))
]

try_skips_complete :
    {p : Bytes} {ps : List Bytes} (f : List Bytes → Bool) (xs : List Bytes)
    → Matches (p ∷ ps) xs
    → p ≡ double_star
    → ((ys : List Bytes) → Matches ps ys → f ys ≡ true)
    → try_skips f xs ≡ true
unfolding try_skips
try_skips_complete f [] (leave e' d) e ih = ih [] d
try_skips_complete f (x ∷ xs) (leave e' d) e ih = ground (arith, ih (x ∷ xs) d)
try_skips_complete f (x ∷ xs) (take e' d) e ih = ground (arith, try_skips_complete f xs d e ih)
try_skips_complete f (x ∷ xs) (any_one e' d) e ih = cc
try_skips_complete f (x ∷ xs) (same n m s d) e ih = absurd (n e)

-- The three ways in which the loop's body passes the first components.
pub match_parts-cons-true :
    (p x : Bytes) (ps xs : List Bytes)
    → match_parts (p ∷ ps) (x ∷ xs) ≡ true
    → ((p ≡ double_star) × ((ps ≡ []) ⊎ (try_skips (match_parts ps) (x ∷ xs) ≡ true)))
      ⊎ ((p ≡ star) × (match_parts ps xs ≡ true))
      ⊎ ((p ≢ double_star) × (p ≢ star) × ((p ≡ x) ⊎ (x ≡ star)) × (match_parts ps xs ≡ true))
unfolding match_parts
match_parts-cons-true p x ps xs h = elim (Bytes-cases p double_star) [
  | inl e ↦ inl (e, ground (arith, equal_iff p double_star))
  | inr n ↦ elim (Bytes-cases p star) [
    | inl e ↦ inr (inl (e, ground (arith, equal_iff p star, equal_ne p double_star n)))
    | inr m ↦ inr (
        inr (
          n,
          m,
          ground
              (arith, equal_iff p x, equal_iff x star, equal_ne p double_star n, equal_ne p star m),
          ground (arith, equal_ne p double_star n, equal_ne p star m),
        ))
  ]
]

match_parts_sound : (ps xs : List Bytes) → match_parts ps xs ≡ true → Matches ps xs
match_parts_sound [] [] h = done
match_parts_sound [] (x ∷ xs) h = unfold match_parts in cc h
match_parts_sound (p ∷ ps) [] h = all_double_star-sound (p ∷ ps) (unfold match_parts in h)
match_parts_sound (p ∷ ps) (x ∷ xs) h = elim (match_parts-cons-true p x ps xs h) [
  | inl (e, inl last) ↦ rw (e, last) (Matches-double_star (x ∷ xs))
  | inl (e, inr skips) ↦
      try_skips-sound p ps (match_parts ps) (x ∷ xs) e (λ ys. match_parts_sound ps ys) skips
  | inr (inl (e, t)) ↦ any_one e (match_parts_sound ps xs t)
  | inr (inr (n, m, s, t)) ↦ same n m s (match_parts_sound ps xs t)
]

match_parts-skips :
    (p x : Bytes) (ps xs : List Bytes)
    → p ≡ double_star
    → try_skips (match_parts ps) (x ∷ xs) ≡ true
    → match_parts (p ∷ ps) (x ∷ xs) ≡ true
unfolding match_parts
match_parts-skips p x ps xs e t = ground (arith, equal_iff p double_star)

match_parts-double_star :
    (p : Bytes) (ps xs : List Bytes)
    → p ≡ double_star
    → try_skips (match_parts ps) xs ≡ true
    → match_parts (p ∷ ps) xs ≡ true
unfolding match_parts try_skips
match_parts-double_star p [] [] e t = ground (arith, equal_iff p double_star)
match_parts-double_star p (q ∷ ps) [] e t = ground (arith, equal_iff p double_star)
match_parts-double_star p ps (x ∷ xs) e t = match_parts-skips p x ps xs e t

match_parts-star :
    (p x : Bytes) (ps xs : List Bytes)
    → p ≡ star
    → match_parts ps xs ≡ true
    → match_parts (p ∷ ps) (x ∷ xs) ≡ true
unfolding match_parts
match_parts-star p x ps xs e t = ground (arith, equal_iff p star, equal_ne p double_star (λ k. cc))

match_parts_same :
    (p x : Bytes) (ps xs : List Bytes)
    → p ≢ double_star
    → p ≢ star
    → (p ≡ x) ⊎ (x ≡ star)
    → match_parts ps xs ≡ true
    → match_parts (p ∷ ps) (x ∷ xs) ≡ true
unfolding match_parts
match_parts_same p x ps xs n m s t =
    ground (arith, equal_iff p x, equal_iff x star, equal_ne p star m, equal_ne p double_star n)

match_parts_complete : (ps xs : List Bytes) → Matches ps xs → match_parts ps xs ≡ true
match_parts_complete [] xs done = unfold match_parts in refl
match_parts_complete (p ∷ ps) xs (leave e d) =
    match_parts-double_star p ps xs e
      (try_skips_complete (match_parts ps) xs (leave e d) e (match_parts_complete ps))
match_parts_complete (p ∷ ps) xs (take e d) =
    match_parts-double_star p ps xs e
      (try_skips_complete (match_parts ps) xs (take e d) e (match_parts_complete ps))
match_parts_complete (p ∷ ps) (x ∷ xs) (any_one e d) =
    match_parts-star p x ps xs e (match_parts_complete ps xs d)
match_parts_complete (p ∷ ps) (x ∷ xs) (same n m s d) =
    match_parts_same p x ps xs n m s (match_parts_complete ps xs d)

-- `match_parts` decides `Matches`.
pub match_parts_iff : (ps xs : List Bytes) → (match_parts ps xs ≡ true) ↔ Matches ps xs
match_parts_iff ps xs = (match_parts_sound ps xs, match_parts_complete ps xs)
