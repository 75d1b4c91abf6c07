-- ===== src/Secrets/Expand/Selects.antt =====
-- An expanded pattern stays within the pattern, and when an expansion succeeds or fails.
use native.Mathlib.Decide.{ℕ_discrete}
use secrets_engine.Prelude.{
  ℕ, ◌+◌, ◌≡◌, refl, sym, ap, ◌∙◌, ◌≢◌, ◌↔◌, ◌⊎◌, inl, inr, true, List, [], ◌∷◌, ◌++◌, arith,
  if◌then◌else◌, length, All, All-append, All-map, ok, err, append-ne-nil, append-ne-nil_right,
}
use secrets_engine.Secrets.Expand.{
  candidates, replace_candidate, replace_one, expand_id, expand_pattern,
}
use secrets_engine.Secrets.Expand.Pieces.{
  Expanded, OneGlob, replace_one-Expanded, replace_one-ok, All-left, All-right,
}
use secrets_engine.Secrets.Identifier.{SecretId, slash, split}
use secrets_engine.Secrets.Identifier.Grammar.{IsComponent, IsIdentifier, split-components}
use secrets_engine.Secrets.Match.{matches_id}
use secrets_engine.Secrets.Match.Includes.{
  Covers, both_end, close, absorb, widen, keep, Covers_trans, component-ne, asterisk_invalid,
}
use secrets_engine.Secrets.Match.Relation.{
  Matches, done, leave, take, any_one, same, match_parts_iff,
}
use secrets_engine.Secrets.Pattern.{SecretPattern, star, double_star, asterisk}
use secrets_engine.Secrets.Pattern.Grammar.{IsMatcher, IsPattern, IsIdentifier→IsPattern}
use secrets_engine.Text.{Bytes, Bytes-cases, equal}
use secrets_engine.Text.Split.{join}

-- Components without `**` cover themselves, whatever follows.
Covers-append_self :
    (cs ps qs : List Bytes)
    → All (λ c. c ≢ double_star) cs
    → Covers ps qs
    → Covers (cs ++ ps) (cs ++ qs)
Covers-append_self [] ps qs h c = c
Covers-append_self (x ∷ cs) ps qs h c = elim (Bytes-cases x star) [
  | inl e ↦ widen e h.0 (Covers-append_self cs ps qs h.1 c)
  | inr n ↦ keep h.0 n refl (Covers-append_self cs ps qs h.1 c)
]

Covers-double_star : (is ps qs : List Bytes) → Covers ps qs → Covers (double_star ∷ ps) (is ++ qs)
Covers-double_star [] ps qs c = close refl c
Covers-double_star (i ∷ is) ps qs c = absorb refl (Covers-double_star is ps qs c)

append-nil_sym : (cs : List Bytes) → cs ++ [] ≡ cs
append-nil_sym [] = refl
append-nil_sym (c ∷ cs) = ap (◌∷◌ c) (append-nil_sym cs)

Expanded-Covers : {p other r : Bytes} → Expanded p other r → Covers (split p) (split r)
Expanded-Covers {p} {other} {r} x =
    let tail : Covers x.after x.after =
      rw append-nil_sym at (Covers-append_self x.after [] [] x.after_plain both_end) in
    rw (x.pattern_is, x.result_is)
      (Covers-append_self x.before _ _ x.before_plain
        (Covers-double_star (split other) x.after x.after tail))

-- For a pattern and another pattern in its place of `**`: whatever the expanded pattern matches is
-- matched by the pattern.
pub expand_pattern_narrows :
    (p other r : SecretPattern)
    → IsPattern p
    → IsPattern other
    → expand_pattern p other ≡ ok r
    → (i : SecretId) → matches_id r i ≡ true
    → matches_id p i ≡ true
unfolding expand_pattern matches_id
expand_pattern_narrows p other r hp ho h i m = (match_parts_iff _ _).1 (
    Covers_trans (Expanded-Covers (replace_one-Expanded p other hp ho h)) _
      ((match_parts_iff _ _).0 m))

Covers-Matches : {ps qs : List Bytes} → Covers ps qs → Matches ps qs
Covers-Matches both_end = done
Covers-Matches (close e c) = leave e (Covers-Matches c)
Covers-Matches (absorb e c) = take e (Covers-Matches c)
Covers-Matches (widen e n c) = any_one e (Covers-Matches c)
Covers-Matches (keep n m e c) = same n m (inl e) (Covers-Matches c)

literal-IsComponent : (c : Bytes) → IsMatcher c → c ≢ double_star → c ≢ star → IsComponent c
literal-IsComponent c (inl e) n m = absurd (m e)
literal-IsComponent c (inr (inl e)) n m = absurd (n e)
literal-IsComponent c (inr (inr h)) n m = h

literal_components :
    (cs : List Bytes)
    → All IsMatcher cs
    → All (λ c. c ≢ double_star) cs
    → All (λ c. c ≢ star) cs
    → All IsComponent cs
literal_components [] h n m = tt
literal_components (c ∷ cs) h n m =
    (literal-IsComponent c h.0 n.0 m.0, literal_components cs h.1 n.1 m.1)

component-ne_star : (c : Bytes) → IsComponent c → c ≢ star
component-ne_star c h = component-ne c asterisk [] h asterisk_invalid

-- For a pattern and an identifier: an identifier text that the expansion returns is matched by the
-- pattern. It has the form of an identifier exactly when the pattern has no component `*`.
pub expand_id-ok :
    (p : SecretPattern) (i r : SecretId)
    → IsPattern p
    → IsIdentifier i
    → expand_id p i ≡ ok r
    → (matches_id p r ≡ true) × (IsIdentifier r ↔ All (λ c. c ≢ star) (split p))
unfolding expand_id matches_id
expand_id-ok p i r hp hi h =
    let x = replace_one-Expanded p i hp (IsIdentifier→IsPattern i hi) h in
    let inner : All IsComponent (split i) = rw (split-components hi) hi.well_formed in
    let inner_ne : split i ≢ [] = rw (split-components hi) hi.components_ne_nil in
    let pieces_ne = append-ne-nil_right x.before _ (append-ne-nil (split i) x.after inner_ne) in
    (
      (match_parts_iff _ _).1 (Covers-Matches (Expanded-Covers x)),
      (
        λ v.
            let all : All IsComponent (x.before ++ (split i ++ x.after)) =
              rw (sym (split-components v) ∙ x.result_is) at v.well_formed in
            rw x.pattern_is (
              All-append (λ c. c ≢ star) x.before (double_star ∷ x.after)
                (All-map _ _ component-ne_star x.before (All-left IsComponent x.before _ all))
                (
                  (λ e. cc),
                  All-map _ _ component-ne_star x.after
                      (All-right IsComponent (split i) _ (All-right IsComponent x.before _ all)),
                )),
        λ plain.
            let around : All (λ c. c ≢ star) (x.before ++ (double_star ∷ x.after)) =
              rw x.pattern_is at plain in
            record {
              components = x.before ++ (split i ++ x.after);
              components_ne_nil = pieces_ne;
              well_formed =
                  All-append IsComponent x.before _
                    (literal_components x.before x.before_matchers x.before_plain
                      (All-left (λ c. c ≢ star) x.before _ around))
                    (All-append IsComponent (split i) x.after inner (
                      literal_components x.after x.after_matchers x.after_plain
                        (All-right (λ c. c ≢ star) x.before _ around).1));
              joined = x.joined;
            },
      ),
    )

-- the number of components `**`
abbrev pub globs_of : List Bytes → ℕ
globs_of [] = 0
globs_of (c ∷ cs) = (if equal c double_star then 1 else 0) + globs_of cs

length-candidates : (idx : ℕ) (cs : List Bytes) → length (candidates idx cs) ≡ globs_of cs
unfolding candidates
length-candidates idx [] = refl
length-candidates idx (c ∷ cs) = ground (arith, length-candidates (idx + 1) cs)

replace_candidate-err :
    (original other : Bytes) (cs : List Bytes) (found : List ℕ)
    → length found ≢ 1
    → replace_candidate original other cs found
      ≡ err (record { original = original; globs = length found })
unfolding replace_candidate
replace_candidate-err original other cs [] h = refl
replace_candidate-err original other cs (k ∷ []) h = absurd (h refl)
replace_candidate-err original other cs (k ∷ j ∷ found) h = refl

replace_candidate-one :
    (original other : Bytes) (cs : List Bytes) (found : List ℕ)
    → length found ≡ 1
    → (r : Bytes) × (replace_candidate original other cs found ≡ ok r)
unfolding replace_candidate
replace_candidate-one original other cs [] h = absurd (omega arith)
replace_candidate-one original other cs (k ∷ []) h = (_, refl)
replace_candidate-one original other cs (k ∷ j ∷ found) h = absurd (omega arith)

-- The expansion returns a text, the pattern's components with the identifier in the place of `**`, if
-- the pattern has exactly one component `**`; otherwise its error names the pattern and the number of
-- its components `**`.
pub expand_id_lem :
    (p : SecretPattern) (i : SecretId)
    → ((globs_of (split p) ≡ 1)
        × ((g : OneGlob (split p)) × (expand_id p i ≡ ok (join slash (g.before ++ (i ∷ g.after))))))
      ⊎ ((globs_of (split p) ≢ 1)
          × (expand_id p i ≡ err (record { original = p; globs = globs_of (split p) })))
unfolding expand_id replace_one
expand_id_lem p i = elim (ℕ_discrete (globs_of (split p)) 1) [
  | yes one ↦
      let (r, e) =
        replace_candidate-one p i (split p) (candidates 0 (split p))
          (length-candidates 0 (split p) ∙ one) in
      let (g, at) = replace_one-ok p i e in inl (one, (g, e ∙ ap ok at))
  | no other ↦ inr (
    other,
    replace_candidate-err p i (split p) _ (λ e. other (sym (length-candidates 0 (split p)) ∙ e))
        ∙ ap (λ (n : ℕ). err (record { original = p; globs = n })) (length-candidates 0 (split p)),
  )
]
