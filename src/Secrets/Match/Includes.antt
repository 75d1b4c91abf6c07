-- ===== src/Secrets/Match/Includes.antt =====
-- `Includes` and `Filter`: when an inclusion test implies that every path of one pattern is a path of
-- the other.
use secrets_engine.Prelude.{
  ℕ, ◌≡◌, refl, sym, ◌∙◌, ◌≢◌, ◌⊎◌, inl, inr, Bool, true, false, ◌&&◌, List, [], ◌∷◌, arith, All,
  Bool-cases, some,
}
use secrets_engine.Secrets.Identifier.{SecretId, is_valid_rune, split}
use secrets_engine.Secrets.Identifier.Grammar.{IsComponent, All-IsPart, split-join}
use secrets_engine.Secrets.Match.{matches_id, includes, filter_pattern}
use secrets_engine.Secrets.Match.Relation.{
  Matches, done, leave, take, any_one, same, match_parts_iff,
}
use secrets_engine.Secrets.Pattern.{SecretPattern, asterisk, star, double_star}
use secrets_engine.Text.{Bytes}
use secrets_engine.Text.Split.{join}

-- As `Matches` between two patterns, without the two steps that widen: a literal that takes `*`, and
-- a `*` that takes `**`.
pub data Covers : List Bytes → List Bytes → Type 0 where
  both_end : Covers [] []
  close : {p : Bytes} {ps qs : List Bytes} → p ≡ double_star → Covers ps qs → Covers (p ∷ ps) qs
  absorb :
      {p q : Bytes} {ps qs : List Bytes}
      → p ≡ double_star
      → Covers (p ∷ ps) qs
      → Covers (p ∷ ps) (q ∷ qs)
  widen :
      {p q : Bytes} {ps qs : List Bytes}
      → p ≡ star
      → q ≢ double_star
      → Covers ps qs
      → Covers (p ∷ ps) (q ∷ qs)
  keep :
      {p q : Bytes} {ps qs : List Bytes}
      → p ≢ double_star
      → p ≢ star
      → p ≡ q
      → Covers ps qs
      → Covers (p ∷ ps) (q ∷ qs)

-- `**` takes what one more component of the other pattern takes.
prepend_take :
    {p q : Bytes} {ps qs xs : List Bytes}
    → p ≡ double_star
    → ((ys : List Bytes) → Matches qs ys → Matches (p ∷ ps) ys)
    → Matches (q ∷ qs) xs
    → Matches (p ∷ ps) xs
prepend_take e ih (leave f d) = ih _ d
prepend_take e ih (take f d) = take e (prepend_take e ih d)
prepend_take e ih (any_one f d) = take e (ih _ d)
prepend_take e ih (same n m s d) = take e (ih _ d)

prepend_any_one :
    {p q : Bytes} {ps qs xs : List Bytes}
    → p ≡ star
    → q ≢ double_star
    → ((ys : List Bytes) → Matches qs ys → Matches ps ys)
    → Matches (q ∷ qs) xs
    → Matches (p ∷ ps) xs
prepend_any_one e k ih (leave f d) = absurd (k f)
prepend_any_one e k ih (take f d) = absurd (k f)
prepend_any_one e k ih (any_one f d) = any_one e (ih _ d)
prepend_any_one e k ih (same n m s d) = any_one e (ih _ d)

prepend_same :
    {p q : Bytes} {ps qs xs : List Bytes}
    → p ≢ double_star
    → p ≢ star
    → p ≡ q
    → ((ys : List Bytes) → Matches qs ys → Matches ps ys)
    → Matches (q ∷ qs) xs
    → Matches (p ∷ ps) xs
prepend_same n m e ih (leave f d) = absurd (n (e ∙ f))
prepend_same n m e ih (take f d) = absurd (n (e ∙ f))
prepend_same n m e ih (any_one f d) = absurd (m (e ∙ f))
prepend_same n m e ih (same n' m' (inl s) d) = same n m (inl (e ∙ s)) (ih _ d)
prepend_same n m e ih (same n' m' (inr s) d) = same n m (inr s) (ih _ d)

pub Covers_trans :
    {ps qs : List Bytes} → Covers ps qs → (xs : List Bytes) → Matches qs xs → Matches ps xs
Covers_trans both_end xs d = d
Covers_trans (close e c) xs d = leave e (Covers_trans c xs d)
Covers_trans (absorb e c) xs d = prepend_take e (Covers_trans c) d
Covers_trans (widen e k c) xs d = prepend_any_one e k (Covers_trans c) d
Covers_trans (keep n m e c) xs d = prepend_same n m e (Covers_trans c) d

-- No component of `ps` is `*`, or no component of `qs` is `**`.
abbrev pub Comparable : List Bytes → List Bytes → Type 0
Comparable ps qs = All (λ p. p ≢ star) ps ⊎ All (λ q. q ≢ double_star) qs

Matches-Covers :
    {ps qs : List Bytes}
    → Matches ps qs
    → All (λ q. q ≢ star) qs
    → All (λ p. p ≢ star) ps
    → Covers ps qs
Matches-Covers done plain c = both_end
Matches-Covers (leave e m) plain c = close e (Matches-Covers m plain c.1)
Matches-Covers (take e m) plain c = absorb e (Matches-Covers m plain.1 c)
Matches-Covers (any_one e m) plain c = absurd (c.0 e)
Matches-Covers (same n k (inl s) m) plain c = keep n k s (Matches-Covers m plain.1 c.1)
Matches-Covers (same n k (inr s) m) plain c = absurd (plain.0 s)

Matches-Covers_right :
    {ps qs : List Bytes}
    → Matches ps qs
    → All (λ q. q ≢ star) qs
    → All (λ q. q ≢ double_star) qs
    → Covers ps qs
Matches-Covers_right done plain c = both_end
Matches-Covers_right (leave e m) plain c = close e (Matches-Covers_right m plain c)
Matches-Covers_right (take e m) plain c = absorb e (Matches-Covers_right m plain.1 c.1)
Matches-Covers_right (any_one e m) plain c = widen e c.0 (Matches-Covers_right m plain.1 c.1)
Matches-Covers_right (same n k (inl s) m) plain c = keep n k s (Matches-Covers_right m plain.1 c.1)
Matches-Covers_right (same n k (inr s) m) plain c = absurd (plain.0 s)

-- If `p` includes `other`, no component of `other` is `*`, and either no component of `p` is `*` or
-- none of `other` is `**`, then `p` matches every identifier that `other` matches.
pub includes_sound :
    (p other : SecretPattern)
    → All (λ q. q ≢ star) (split other)
    → Comparable (split p) (split other)
    → includes p other ≡ true
    → (i : SecretId) → matches_id other i ≡ true
    → matches_id p i ≡ true
unfolding includes matches_id
includes_sound p other plain c h i d =
    let m = (match_parts_iff _ _).0 h in
    let covers : Covers (split p) (split other) = elim c [
      | inl a ↦ Matches-Covers m plain a
      | inr b ↦ Matches-Covers_right m plain b
    ] in
    (match_parts_iff _ _).1 (Covers_trans covers _ ((match_parts_iff _ _).0 d))

split_component : (p : Bytes) → IsComponent p → split p ≡ p ∷ []
unfolding join
split_component p h = split-join (p ∷ []) (λ e. cc) (All-IsPart (p ∷ []) (h, tt))

split-star : split star ≡ star ∷ []
unfolding split
split-star = refl

pub component-ne :
    (p : Bytes) (c : ℕ) (w : Bytes) → IsComponent p → is_valid_rune c ≡ false → p ≢ c ∷ w
component-ne [] c w h v e = cc
component-ne (x ∷ p) c w h v e = ground (arith, h.1.0)

literal_inv :
    {p x : Bytes} → Matches (p ∷ []) (x ∷ []) → p ≢ double_star → p ≢ star → (p ≡ x) ⊎ (x ≡ star)
literal_inv (leave e d) n m = absurd (n e)
literal_inv (take e d) n m = absurd (n e)
literal_inv (any_one e d) n m = absurd (m e)
literal_inv (same a b s d) n m = s

not_true : (b : Bool) → ¬ (b ≡ true) → b ≡ false
not_true true h = absurd (h refl)
not_true false h = refl

meet_right : (a b : Bool) → (b ≡ true → a ≡ true) → b ≡ (a && b)
meet_right true b h = refl
meet_right false true h = sym (h refl)
meet_right false false h = refl

meet_left : (a b : Bool) → (a ≡ true → b ≡ true) → a ≡ (a && b)
meet_left true b h = sym (h refl)
meet_left false b h = refl

pub asterisk_invalid : is_valid_rune asterisk ≡ false
unfolding is_valid_rune
asterisk_invalid = refl

-- A literal component includes `*`, which matches every other component too, and the literal does not:
-- `Includes` is then wider than inclusion of what is matched.
pub includes-star :
    (p i : Bytes)
    → IsComponent p
    → IsComponent i
    → p ≢ i
    → (includes p star ≡ true) × (matches_id star i ≡ true) × (matches_id p i ≡ false)
unfolding includes matches_id
includes-star p i hp hi ne =
    let many = component-ne p asterisk star hp asterisk_invalid in
    let one = component-ne p asterisk [] hp asterisk_invalid in
    let other = component-ne i asterisk [] hi asterisk_invalid in
    rw (split_component p hp, split_component i hi, split-star)
      (
        (match_parts_iff _ _).1 (same many one (inr refl) done),
        (match_parts_iff _ _).1 (any_one refl done),
        not_true _ (λ t. elim (literal_inv ((match_parts_iff _ _).0 t) many one) [
          | inl e ↦ ne e
          | inr e ↦ other e
        ]),
      )

-- If `filter_pattern` returns a pattern, and no component of its arguments is `*`, then the returned
-- pattern matches exactly the identifiers that both arguments match.
pub filter_pattern_meet :
    (p other r : SecretPattern)
    → All (λ q. q ≢ star) (split p)
    → All (λ q. q ≢ star) (split other)
    → filter_pattern p other ≡ some r
    → (i : SecretId) → matches_id r i ≡ (matches_id p i && matches_id other i)
unfolding filter_pattern
filter_pattern_meet p other r hp ho e i = elim (Bool-cases (includes p other)) [
  | inl t ↦
      let sub = includes_sound p other ho (inl hp) t i in
      let eq : other ≡ r = ground arith in rw (← eq) (meet_right _ _ sub)
  | inr f ↦ elim (Bool-cases (includes other p)) [
    | inl t ↦
        let sub = includes_sound other p hp (inl ho) t i in
        let eq : p ≡ r = ground arith in rw (← eq) (meet_left _ _ sub)
    | inr g ↦ ground arith
  ]
]
