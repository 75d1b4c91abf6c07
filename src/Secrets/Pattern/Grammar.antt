-- ===== src/Secrets/Pattern/Grammar.antt =====
-- The accepted patterns are those of the grammar M("/"M)*, where a component M is `*`, `**`, or a
-- component of an identifier.
use secrets_engine.Prelude.{
  ℕ, suc, ◌+◌, ◌≤◌, ◌<◌, ◌≡◌, refl, sym, ap, ap₂, ◌∙◌, ◌≢◌, ◌↔◌, ◌⊎◌, Bool, true, false, List, [],
  ◌∷◌, arith, ltb, ◌==◌, if◌then◌else◌, length, All, All-map, Bool-cases, inl, inr, ok, err,
}
use secrets_engine.Secrets.Identifier.{slash, is_valid_rune, split}
use secrets_engine.Secrets.Identifier.Grammar.{
  IsComponent, IsIdentifier, ValidRunes, is_valid_rune-ne-slash, split-join,
}
use secrets_engine.Secrets.Pattern.{
  invalid_pattern, parse_pattern, asterisk, star, double_star, is_valid_component_matcher,
  is_valid_pattern_rune, pattern_loop, valid_pattern,
}
use secrets_engine.Text.{Bytes}
use secrets_engine.Text.Runes.{runes, runes_ascii, runes_high}
use secrets_engine.Text.Split.{
  cons_head, split_on, join, split_on-join, join-split_on, split_on-ne-nil, IsPart,
}

abbrev pub IsMatcher : Bytes → Type 0
IsMatcher p = (p ≡ star) ⊎ (p ≡ double_star) ⊎ IsComponent p

-- A text of the pattern grammar, with its components.
pub record IsPattern (s : Bytes) : Type 0 where
  pub components : List Bytes
  pub components_ne_nil : components ≢ []
  pub well_formed : All IsMatcher components
  pub joined : s ≡ join slash components

pattern_loop_high : (n w r : ℕ) (rs : List ℕ) → 0x80 ≤ r → pattern_loop n w (r ∷ rs) ≡ false
unfolding pattern_loop is_valid_pattern_rune
pattern_loop_high n w r rs h = ground arith

pattern_loop-runes_ascii :
    (n w c : ℕ) (s : Bytes)
    → suc c ≤ 0x80
    → ((m v : ℕ) → pattern_loop m v (runes s) ≡ pattern_loop m v s)
    → pattern_loop n w (runes (c ∷ s)) ≡ pattern_loop n w (c ∷ s)
pattern_loop-runes_ascii n w c s h ih =
    rw (runes_ascii c s h) (unfold pattern_loop in rw (ih 0 0, ih (n + 1) _) refl)

pattern_loop-runes : (s : Bytes) (n w : ℕ) → pattern_loop n w (runes s) ≡ pattern_loop n w s
pattern_loop-runes [] n w = unfold runes in refl
pattern_loop-runes (c ∷ s) n w = elim (Bool-cases (ltb c 0x80)) [
  | inl low ↦ pattern_loop-runes_ascii n w c s (ground arith) (pattern_loop-runes s)
  | inr high ↦
      let (r, rs, e, big) = runes_high c s (ground arith) in
      rw e (rw (pattern_loop_high n w r rs big, pattern_loop_high n w c s (ground arith)) refl)
]

-- the wildcards of a component
abbrev wildcards : Bytes → ℕ
wildcards [] = 0
wildcards (c ∷ p) = (if c == asterisk then 1 else 0) + wildcards p

abbrev PatternRunes : Bytes → Type 0
PatternRunes = All (λ c. is_valid_pattern_rune c ≡ true)

-- A component as the loop sees it: its runes, and the test at its end.
abbrev Passes : ℕ → ℕ → Bytes → Type 0
Passes n w p = (is_valid_component_matcher (n + length p) (w + wildcards p) ≡ true) × PatternRunes p

abbrev PassesFrom : ℕ → ℕ → List Bytes → Type 0
PassesFrom n w [] = ⊥
PassesFrom n w (p ∷ ps) = Passes n w p × All (Passes 0 0) ps

-- One more rune, counted before or after the rest of the component.
matcher_shift :
    (b : Bool) (n w k v : ℕ)
    → is_valid_component_matcher (n + suc k) (w + ((if b then 1 else 0) + v))
      ≡ is_valid_component_matcher (n + 1 + k) ((if b then w + 1 else w) + v)
matcher_shift true n w k v = ap₂ is_valid_component_matcher (omega arith) (omega arith)
matcher_shift false n w k v = ap₂ is_valid_component_matcher (omega arith) (omega arith)

PassesFrom-cons_head :
    (n w c : ℕ) (ps : List Bytes)
    → is_valid_pattern_rune c ≡ true
    → PassesFrom (n + 1) (if c == asterisk then w + 1 else w) ps
    → PassesFrom n w (cons_head c ps)
PassesFrom-cons_head n w c [] v h = absurd h
PassesFrom-cons_head n w c (p ∷ ps) v h =
    ((matcher_shift (c == asterisk) n w (length p) (wildcards p) ∙ h.0.0, (v, h.0.1)), h.1)

PassesFrom-inv :
    (n w c : ℕ) (ps : List Bytes)
    → ps ≢ []
    → PassesFrom n w (cons_head c ps)
    → (is_valid_pattern_rune c ≡ true) × PassesFrom (n + 1) (if c == asterisk then w + 1 else w) ps
PassesFrom-inv n w c [] ne h = absurd (ne refl)
PassesFrom-inv n w c (p ∷ ps) ne h = (
  h.0.1.0,
  ((sym (matcher_shift (c == asterisk) n w (length p) (wildcards p)) ∙ h.0.0, h.0.1.1), h.1),
)

PassesFrom-close : (ps : List Bytes) → PassesFrom 0 0 ps → All (Passes 0 0) ps
PassesFrom-close [] h = absurd h
PassesFrom-close (p ∷ ps) h = h

PassesFrom-open : (ps : List Bytes) → ps ≢ [] → All (Passes 0 0) ps → PassesFrom 0 0 ps
PassesFrom-open [] ne h = absurd (ne refl)
PassesFrom-open (p ∷ ps) ne h = h

-- An empty remainder adds nothing.
matcher_nil :
    (n w : ℕ) → is_valid_component_matcher (n + 0) (w + 0) ≡ is_valid_component_matcher n w
matcher_nil n w = ap₂ is_valid_component_matcher (omega arith) (omega arith)

loop_sound : (s : Bytes) (n w : ℕ) → pattern_loop n w s ≡ true → PassesFrom n w (split_on slash s)
unfolding pattern_loop split_on
loop_sound [] n w h = ((matcher_nil n w ∙ h, tt), tt)
loop_sound (c ∷ s) n w h = elim (Bool-cases (c == slash)) [
  | inl sep ↦
      let m : is_valid_component_matcher n w ≡ true = ground arith in
      rw sep (
        (matcher_nil n w ∙ m, tt),
        PassesFrom-close (split_on slash s) (loop_sound s 0 0 (ground arith)),
      )
  | inr other ↦ rw other (
      PassesFrom-cons_head n w c (split_on slash s) (ground arith)
        (loop_sound s (n + 1) _ (ground arith)))
]

loop_complete :
    (s : Bytes) (n w : ℕ) → PassesFrom n w (split_on slash s) → pattern_loop n w s ≡ true
unfolding pattern_loop split_on
loop_complete [] n w h = sym (matcher_nil n w) ∙ h.0.0
loop_complete (c ∷ s) n w h = elim (Bool-cases (c == slash)) [
  | inl sep ↦
      let h' = rw sep at h in
      let m : is_valid_component_matcher n w ≡ true = sym (matcher_nil n w) ∙ h'.0.0 in
      rw (sep, m, loop_complete s 0 0 (PassesFrom-open _ (split_on-ne-nil slash s) h'.1)) refl
  | inr other ↦
      let (v, later) = PassesFrom-inv n w c _ (split_on-ne-nil slash s) (rw other at h) in
      rw (other, v) (loop_complete s (n + 1) _ later)
]

wildcards_zero : (p : Bytes) → PatternRunes p → wildcards p ≡ 0 → ValidRunes p
unfolding is_valid_pattern_rune
wildcards_zero [] h e = tt
wildcards_zero (c ∷ p) h e = ground (arith, wildcards_zero p h.1)

wildcards-valid : (p : Bytes) → ValidRunes p → wildcards p ≡ 0
unfolding is_valid_rune
wildcards-valid [] h = refl
wildcards-valid (c ∷ p) h = ground (arith, wildcards-valid p h.1)

PatternRunes-valid : (p : Bytes) → ValidRunes p → PatternRunes p
unfolding is_valid_pattern_rune
PatternRunes-valid [] h = tt
PatternRunes-valid (c ∷ p) h = (rw h.0, PatternRunes-valid p h.1)

wildcards-le : (p : Bytes) → wildcards p ≤ length p
wildcards-le [] = omega arith
wildcards-le (c ∷ p) = ground (arith, wildcards-le p)

-- What the test at the end of a component says of it.
matcher-cases :
    (n w : ℕ) → is_valid_component_matcher n w ≡ true → (0 < n) × ((w ≡ 0) ⊎ ((w ≡ n) × (w ≤ 2)))
unfolding is_valid_component_matcher
matcher-cases n w h = ground arith

all_wildcards : (p : Bytes) → p ≢ [] → length p ≤ 2 → wildcards p ≡ length p → IsMatcher p
all_wildcards [] ne h e = absurd (ne refl)
all_wildcards (c ∷ []) ne h e = inl (ground arith)
all_wildcards (c ∷ d ∷ []) ne h e = inr (inl (ground arith))
all_wildcards (c ∷ d ∷ x ∷ p) ne h e = absurd (omega arith)

Passes→IsMatcher : (p : Bytes) → Passes 0 0 p → IsMatcher p
Passes→IsMatcher p h =
    let (some_runes, counts) = matcher-cases _ _ h.0 in
    let ne : p ≢ [] = λ e. ground (arith) in
    elim counts [
      | inl none_wild ↦ inr (inr (ne, wildcards_zero p h.1 (omega arith)))
      | inr (wild, few) ↦ all_wildcards p ne (omega arith) (omega arith)
    ]

IsMatcher-IsPart : (p : Bytes) → IsMatcher p → IsPart slash p
IsMatcher-IsPart p (inl e) = rw e ((λ z. cc), (refl, tt))
IsMatcher-IsPart p (inr (inl e)) = rw e ((λ z. cc), (refl, (refl, tt)))
IsMatcher-IsPart p (inr (inr h)) = (h.0, All-map _ _ is_valid_rune-ne-slash p h.1)

pub All-IsPart : (ps : List Bytes) → All IsMatcher ps → All (IsPart slash) ps
All-IsPart = All-map _ _ IsMatcher-IsPart

matcher-plain : (n : ℕ) → 0 < n → is_valid_component_matcher n 0 ≡ true
unfolding is_valid_component_matcher
matcher-plain n h = ground arith

IsMatcher→Passes : (p : Bytes) → IsMatcher p → Passes 0 0 p
IsMatcher→Passes p (inl e) =
    rw e (unfold is_valid_component_matcher is_valid_pattern_rune in (refl, (refl, tt)))
IsMatcher→Passes p (inr (inl e)) =
    rw e (unfold is_valid_component_matcher is_valid_pattern_rune in (refl, (refl, (refl, tt))))
IsMatcher→Passes [] (inr (inr h)) = absurd (h.0 refl)
IsMatcher→Passes (c ∷ p) (inr (inr h)) = (
  rw (wildcards-valid (c ∷ p) h.1) (matcher-plain _ (omega arith)),
  PatternRunes-valid (c ∷ p) h.1,
)

split_on-matchers :
    (ps : List Bytes) → ps ≢ [] → All IsMatcher ps → split_on slash (join slash ps) ≡ ps
split_on-matchers ps ne h =
    split_on-join slash ps ne (All-map _ _ (λ p (k : IsPart slash p). k.1) ps (All-IsPart ps h))

valid_pattern_sound : (s : Bytes) → valid_pattern s ≡ true → IsPattern s
unfolding valid_pattern
valid_pattern_sound [] h = cc
valid_pattern_sound (c ∷ s) h = record {
  components = split_on slash (c ∷ s);
  components_ne_nil = split_on-ne-nil slash (c ∷ s);
  well_formed =
      All-map _ _ Passes→IsMatcher _
        (PassesFrom-close _ (loop_sound (c ∷ s) 0 0 (sym (pattern_loop-runes (c ∷ s) 0 0) ∙ h)));
  joined = sym (join-split_on slash (c ∷ s));
}

pattern_loop_complete : (s : Bytes) → IsPattern s → pattern_loop 0 0 s ≡ true
pattern_loop_complete s h = rw h.joined (
    loop_complete _ 0 0 (
      rw (split_on-matchers h.components h.components_ne_nil h.well_formed) (
        PassesFrom-open h.components h.components_ne_nil
          (All-map _ _ IsMatcher→Passes _ h.well_formed))))

valid_pattern_complete : (s : Bytes) → IsPattern s → valid_pattern s ≡ true
unfolding valid_pattern
valid_pattern_complete [] h =
    unfold pattern_loop is_valid_component_matcher in cc (pattern_loop_complete [] h)
valid_pattern_complete (c ∷ s) h = pattern_loop-runes (c ∷ s) 0 0 ∙ pattern_loop_complete (c ∷ s) h

-- `valid_pattern` accepts a text exactly when the text is a `/`-separated list of one or more
-- components, each of which is `*`, `**`, or one or more valid runes.
pub valid_pattern_iff : (s : Bytes) → (valid_pattern s ≡ true) ↔ IsPattern s
valid_pattern_iff s = (valid_pattern_sound s, valid_pattern_complete s)

pub split-matchers : {s : Bytes} (h : IsPattern s) → split s ≡ h.components
split-matchers h =
    ap split h.joined ∙ split-join h.components h.components_ne_nil (All-IsPart _ h.well_formed)

-- Every identifier is a pattern.
pub IsIdentifier→IsPattern : (s : Bytes) → IsIdentifier s → IsPattern s
IsIdentifier→IsPattern s h = record {
  components = h.components;
  components_ne_nil = h.components_ne_nil;
  well_formed = All-map _ _ (λ p (c : IsComponent p). inr (inr c)) _ h.well_formed;
  joined = h.joined;
}

-- `parse_pattern` returns the text itself when it is a `/`-separated list of one or more components,
-- each of which is `*`, `**` or a component of an identifier, and otherwise the error. Splitting an
-- accepted pattern gives components whose `/`-joined text is the pattern.
pub parse_pattern_lem :
    (s : Bytes)
    → ((parse_pattern s ≡ ok s) × IsPattern s × (join slash (split s) ≡ s))
      ⊎ ((parse_pattern s ≡ err invalid_pattern) × ¬ IsPattern s)
unfolding parse_pattern
parse_pattern_lem s = elim (Bool-cases (valid_pattern s)) [
  | inl v ↦
      let h = (valid_pattern_iff s).0 v in
      inl (rw v, h, ap (join slash) (split-matchers h) ∙ sym h.joined)
  | inr v ↦ inr (rw v, λ h. cc ((valid_pattern_iff s).1 h))
]
