-- ===== src/Secrets/Expand/Pieces.antt =====
-- What an expanded pattern is, and that the pattern matches it.
use secrets_engine.Prelude.{
  ℕ, ◌+◌, ◌≡◌, refl, sym, ap, ◌∙◌, ◌≢◌, inl, inr, List, [], ◌∷◌, ◌++◌, arith, length, set,
  set-append, All, All-append, ok, append-ne-nil, append-ne-nil_right,
}
use secrets_engine.Secrets.Expand.{candidates, replace_candidate, replace_one}
use secrets_engine.Secrets.Identifier.{slash, split}
use secrets_engine.Secrets.Identifier.Grammar.{split-join}
use secrets_engine.Secrets.Pattern.{double_star}
use secrets_engine.Secrets.Pattern.Grammar.{IsMatcher, IsPattern, All-IsPart, split-matchers}
use secrets_engine.Text.{Bytes, equal_iff, equal_ne, Bytes-cases}
use secrets_engine.Text.Split.{join, join_inner}

-- The components around the only `**`.
pub record OneGlob (components : List Bytes) : Type 0 where
  pub before : List Bytes
  pub after : List Bytes
  pub splits : components ≡ before ++ (double_star ∷ after)
  pub before_plain : All (λ c. c ≢ double_star) before
  pub after_plain : All (λ c. c ≢ double_star) after

candidates_plain :
    (idx : ℕ) (cs : List Bytes) → All (λ c. c ≢ double_star) cs → candidates idx cs ≡ []
unfolding candidates
candidates_plain idx [] h = refl
candidates_plain idx (c ∷ cs) h =
    rw (equal_ne c double_star h.0) (candidates_plain (idx + 1) cs h.1)

plain-candidates :
    (idx : ℕ) (cs : List Bytes) → candidates idx cs ≡ [] → All (λ c. c ≢ double_star) cs
unfolding candidates
plain-candidates idx [] h = tt
plain-candidates idx (c ∷ cs) h = elim (Bytes-cases c double_star) [
  | inl e ↦ ground (arith, equal_iff c double_star)
  | inr n ↦ (n, plain-candidates (idx + 1) cs (rw (equal_ne c double_star n) at h))
]

candidates_one :
    (idx k : ℕ) (cs : List Bytes)
    → candidates idx cs ≡ k ∷ []
    → (g : OneGlob cs) × (k ≡ idx + length g.before)
unfolding candidates
candidates_one idx k [] h = cc
candidates_one idx k (c ∷ cs) h = elim (Bytes-cases c double_star) [
  | inl e ↦
      let t = (equal_iff c double_star).1 e in
      let h' = rw t at h in
      (
        record {
          before = [];
          after = cs;
          splits = ap (λ (z : Bytes). z ∷ cs) e;
          before_plain = tt;
          after_plain = plain-candidates (idx + 1) cs (ground arith);
        },
        ground arith,
      )
  | inr n ↦
      let (g, e) = candidates_one (idx + 1) k cs (rw (equal_ne c double_star n) at h) in
      (
        record {
          before = c ∷ g.before;
          after = g.after;
          splits = ap (◌∷◌ c) g.splits;
          before_plain = (n, g.before_plain);
          after_plain = g.after_plain;
        },
        omega arith,
      )
]

replace_candidate-ok :
    (original other : Bytes) (cs : List Bytes) (found : List ℕ) {r : Bytes}
    → replace_candidate original other cs found ≡ ok r
    → (k : ℕ) × (found ≡ k ∷ []) × (join slash (set cs k other) ≡ r)
unfolding replace_candidate
replace_candidate-ok original other cs [] h = cc
replace_candidate-ok original other cs (k ∷ []) h = (k, refl, cc)
replace_candidate-ok original other cs (k ∷ j ∷ found) h = cc

-- A successful expansion splits the pattern around its only `**`, and joins the pieces again with
-- the other text between them.
pub replace_one-ok :
    (p other : Bytes) {r : Bytes}
    → replace_one p other ≡ ok r
    → (g : OneGlob (split p)) × (r ≡ join slash (g.before ++ (other ∷ g.after)))
unfolding replace_one
replace_one-ok p other {r} h =
    let (k, found, e) = replace_candidate-ok p other (split p) _ h in
    let (g, at) = candidates_one 0 k (split p) found in
    let here : k ≡ length g.before = omega (arith, at) in
    let placed : set (split p) k other ≡ g.before ++ (other ∷ g.after) =
      ap (λ (n : ℕ). set (split p) n other) here
      ∙ ap (λ (cs : List Bytes). set cs (length g.before) other) g.splits
      ∙ set-append g.before double_star other g.after in
    (g, sym e ∙ ap (join slash) placed)

pub All-left {ℓ κ} : {A : Type ℓ} (P : A → Type κ) (xs ys : List A) → All P (xs ++ ys) → All P xs
All-left P [] ys h = tt
All-left P (x ∷ xs) ys h = (h.0, All-left P xs ys h.1)

pub All-right {ℓ κ} : {A : Type ℓ} (P : A → Type κ) (xs ys : List A) → All P (xs ++ ys) → All P ys
All-right P [] ys h = h
All-right P (x ∷ xs) ys h = All-right P xs ys h.1

-- The pieces of an expansion, and the pattern that it is.
pub record Expanded (p other r : Bytes) : Type 0 where
  pub before : List Bytes
  pub after : List Bytes
  pub pattern_is : split p ≡ before ++ (double_star ∷ after)
  pub result_is : split r ≡ before ++ (split other ++ after)
  pub before_plain : All (λ c. c ≢ double_star) before
  pub after_plain : All (λ c. c ≢ double_star) after
  pub before_matchers : All IsMatcher before
  pub after_matchers : All IsMatcher after
  pub joined : r ≡ join slash (before ++ (split other ++ after))

pub replace_one-Expanded :
    (p other : Bytes) {r : Bytes}
    → IsPattern p
    → IsPattern other
    → replace_one p other ≡ ok r
    → Expanded p other r
replace_one-Expanded p other {r} hp ho h =
    let (g, e) = replace_one-ok p other h in
    let matchers : All IsMatcher (split p) = rw (split-matchers hp) hp.well_formed in
    let around : All IsMatcher (g.before ++ (double_star ∷ g.after)) = rw g.splits at matchers in
    let before_ok = All-left IsMatcher g.before _ around in
    let after_ok = (All-right IsMatcher g.before _ around).1 in
    let inner : All IsMatcher (split other) = rw (split-matchers ho) ho.well_formed in
    let inner_ne : split other ≢ [] = rw (split-matchers ho) ho.components_ne_nil in
    let other_is : other ≡ join slash (split other) = rw (split-matchers ho) ho.joined in
    let j : r ≡ join slash (g.before ++ (split other ++ g.after)) =
      e
      ∙ ap (λ (t : Bytes). join slash (g.before ++ (t ∷ g.after))) other_is
      ∙ join_inner slash g.before (split other) g.after inner_ne in
    record {
      before = g.before;
      after = g.after;
      pattern_is = g.splits;
      result_is =
          ap split j
          ∙ split-join _
              (append-ne-nil_right g.before _ (append-ne-nil (split other) g.after inner_ne))
              (All-IsPart _
                (All-append IsMatcher _ _ before_ok (All-append IsMatcher _ _ inner after_ok)));
      before_plain = g.before_plain;
      after_plain = g.after_plain;
      before_matchers = before_ok;
      after_matchers = after_ok;
      joined = j;
    }
