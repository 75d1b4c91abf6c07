-- ===== src/Secrets/Identifier/Grammar.antt =====
-- The accepted identifiers are those of the grammar C("/"C)*, where a component C is a run of one or
-- more valid runes.
use secrets_engine.Prelude.{
  ℕ, suc, ◌+◌, ◌≤◌, ◌<◌, ◌≡◌, refl, sym, ap, ◌∙◌, ◌≢◌, ◌↔◌, ◌⊎◌, true, false, List, [], ◌∷◌, arith,
  ltb, ◌==◌, is_nil, length, All, All-map, Bool-cases, ok, err, inl, inr,
}
use secrets_engine.Secrets.Identifier.{
  slash, is_valid_rune, identifier_loop, valid_identifier, split, parse_id,
}
use secrets_engine.Text.{Bytes}
use secrets_engine.Text.Runes.{runes, runes_ascii, runes_high}
use secrets_engine.Text.Split.{
  cons_head, split_on, join, split_on-join, join-split_on, split_on-ne-nil, trim-join, join-ne-nil,
  IsPart,
}

abbrev pub ValidRunes : Bytes → Type 0
ValidRunes = All (λ c. is_valid_rune c ≡ true)

abbrev pub IsComponent : Bytes → Type 0
IsComponent p = (p ≢ []) × ValidRunes p

-- A text of the grammar, with its components.
pub record IsIdentifier (s : Bytes) : Type 0 where
  pub components : List Bytes
  pub components_ne_nil : components ≢ []
  pub well_formed : All IsComponent components
  pub joined : s ≡ join slash components

pub is_valid_rune-ne-slash : (c : ℕ) → is_valid_rune c ≡ true → (c == slash) ≡ false
unfolding is_valid_rune
is_valid_rune-ne-slash c h = ground arith

is_valid_rune_ascii : (c : ℕ) → is_valid_rune c ≡ true → suc c ≤ 0x80
unfolding is_valid_rune
is_valid_rune_ascii c h = ground arith

-- The loop gives the same answer on the runes of a text as on its bytes.
identifier_loop_high : (n r : ℕ) (rs : List ℕ) → 0x80 ≤ r → identifier_loop n (r ∷ rs) ≡ false
unfolding identifier_loop is_valid_rune
identifier_loop_high n r rs h = ground arith

identifier_loop-runes_ascii :
    (n c : ℕ) (s : Bytes)
    → suc c ≤ 0x80
    → ((m : ℕ) → identifier_loop m (runes s) ≡ identifier_loop m s)
    → identifier_loop n (runes (c ∷ s)) ≡ identifier_loop n (c ∷ s)
identifier_loop-runes_ascii n c s h ih =
    rw (runes_ascii c s h) (unfold identifier_loop in rw (ih 0, ih (n + 1)) refl)

pub identifier_loop-runes : (s : Bytes) (n : ℕ) → identifier_loop n (runes s) ≡ identifier_loop n s
identifier_loop-runes [] n = unfold runes in refl
identifier_loop-runes (c ∷ s) n = elim (Bool-cases (ltb c 0x80)) [
  | inl low ↦ identifier_loop-runes_ascii n c s (ground arith) (identifier_loop-runes s)
  | inr high ↦
      let (r, rs, e, big) = runes_high c s (ground arith) in
      rw e (rw (identifier_loop_high n r rs big, identifier_loop_high n c s (ground arith)) refl)
]

-- What the loop still asks of the parts of the remaining text, `n` runes into a component.
abbrev WellFormedFrom : ℕ → List Bytes → Type 0
WellFormedFrom n [] = ⊥
WellFormedFrom n (p ∷ ps) = (0 < n + length p) × ValidRunes p × All IsComponent ps

WellFormedFrom-zero : (ps : List Bytes) → WellFormedFrom 0 ps → All IsComponent ps
WellFormedFrom-zero [] h = absurd h
WellFormedFrom-zero ([] ∷ ps) h = absurd (omega arith)
WellFormedFrom-zero ((x ∷ p) ∷ ps) h = ((λ e. cc, h.1), h.2)

WellFormedFrom-cons_head :
    (n c : ℕ) (ps : List Bytes)
    → is_valid_rune c ≡ true
    → WellFormedFrom (n + 1) ps
    → WellFormedFrom n (cons_head c ps)
WellFormedFrom-cons_head n c [] v h = absurd h
WellFormedFrom-cons_head n c (p ∷ ps) v h = (omega arith, (v, h.1), h.2)

WellFormedFrom-inv :
    (n c : ℕ) (ps : List Bytes)
    → ps ≢ []
    → WellFormedFrom n (cons_head c ps)
    → (is_valid_rune c ≡ true) × WellFormedFrom (n + 1) ps
WellFormedFrom-inv n c [] ne h = absurd (ne refl)
WellFormedFrom-inv n c (p ∷ ps) ne h = (h.1.0, (omega arith, h.1.1, h.2))

WellFormedFrom-close : (ps : List Bytes) → ps ≢ [] → All IsComponent ps → WellFormedFrom 0 ps
WellFormedFrom-close [] ne h = absurd (ne refl)
WellFormedFrom-close ([] ∷ ps) ne h = absurd (h.0.0 refl)
WellFormedFrom-close ((x ∷ p) ∷ ps) ne h = (omega arith, h.0.1, h.1)

loop_sound : (s : Bytes) (n : ℕ) → identifier_loop n s ≡ true → WellFormedFrom n (split_on slash s)
unfolding identifier_loop split_on
loop_sound [] n h = (ground arith, tt, tt)
loop_sound (c ∷ s) n h = elim (Bool-cases (c == slash)) [
  | inl sep ↦ rw sep (ground (arith, WellFormedFrom-zero (split_on slash s), loop_sound s 0))
  | inr other ↦ rw other (
      WellFormedFrom-cons_head n c (split_on slash s) (ground arith)
        (loop_sound s (n + 1) (ground arith)))
]

loop_complete :
    (s : Bytes) (n : ℕ) → WellFormedFrom n (split_on slash s) → identifier_loop n s ≡ true
unfolding identifier_loop split_on
loop_complete [] n h = ground arith
loop_complete (c ∷ s) n h = elim (Bool-cases (c == slash)) [
  | inl sep ↦
      let h' = rw sep at h in
      rw (sep, loop_complete s 0 (WellFormedFrom-close _ (split_on-ne-nil slash s) h'.2))
        (ground arith)
  | inr other ↦
      let (v, later) = WellFormedFrom-inv n c _ (split_on-ne-nil slash s) (rw other at h) in
      rw (other, v) (loop_complete s (n + 1) later)
]

IsComponent-IsPart : (p : Bytes) → IsComponent p → IsPart slash p
IsComponent-IsPart p h = (h.0, All-map _ _ is_valid_rune-ne-slash p h.1)

pub All-IsPart : (ps : List Bytes) → All IsComponent ps → All (IsPart slash) ps
All-IsPart = All-map _ _ IsComponent-IsPart

pub split_on-components :
    (ps : List Bytes) → ps ≢ [] → All IsComponent ps → split_on slash (join slash ps) ≡ ps
split_on-components ps ne h =
    split_on-join slash ps ne (All-map _ _ (λ p (k : IsPart slash p). k.1) ps (All-IsPart ps h))

valid_identifier_sound : (s : Bytes) → valid_identifier s ≡ true → IsIdentifier s
unfolding valid_identifier
valid_identifier_sound [] h = cc
valid_identifier_sound (c ∷ s) h = record {
  components = split_on slash (c ∷ s);
  components_ne_nil = split_on-ne-nil slash (c ∷ s);
  well_formed =
      WellFormedFrom-zero _ (loop_sound (c ∷ s) 0 (sym (identifier_loop-runes (c ∷ s) 0) ∙ h));
  joined = sym (join-split_on slash (c ∷ s));
}

identifier_loop_complete : (s : Bytes) → IsIdentifier s → identifier_loop 0 s ≡ true
identifier_loop_complete s h = rw h.joined (
    loop_complete _ 0 (
      rw (split_on-components h.components h.components_ne_nil h.well_formed)
        (WellFormedFrom-close h.components h.components_ne_nil h.well_formed)))

valid_identifier_complete : (s : Bytes) → IsIdentifier s → valid_identifier s ≡ true
unfolding valid_identifier
valid_identifier_complete [] h = unfold identifier_loop in cc (identifier_loop_complete [] h)
valid_identifier_complete (c ∷ s) h =
    identifier_loop-runes (c ∷ s) 0 ∙ identifier_loop_complete (c ∷ s) h

-- `valid_identifier` accepts a text exactly when the text is a `/`-separated list of one or more
-- components, each of one or more valid runes.
pub valid_identifier_iff : (s : Bytes) → (valid_identifier s ≡ true) ↔ IsIdentifier s
valid_identifier_iff s = (valid_identifier_sound s, valid_identifier_complete s)

is_nil-false : (s : Bytes) → s ≢ [] → is_nil s ≡ false
is_nil-false [] h = absurd (h refl)
is_nil-false (x ∷ s) h = refl

-- `split` undoes joining, for parts that are not empty and hold no `/`.
pub split-join : (ps : List Bytes) → ps ≢ [] → All (IsPart slash) ps → split (join slash ps) ≡ ps
unfolding split
split-join ps ne h =
    rw (trim-join slash ps ne h, is_nil-false _ (join-ne-nil slash ps ne h))
      (split_on-join slash ps ne (All-map _ _ (λ p (k : IsPart slash p). k.1) ps h))

pub split-components : {s : Bytes} (h : IsIdentifier s) → split s ≡ h.components
split-components h =
    ap split h.joined ∙ split-join h.components h.components_ne_nil (All-IsPart _ h.well_formed)

-- `parse_id` returns the text itself when it is an identifier, and otherwise an error that holds
-- the text. Splitting an accepted identifier gives components whose `/`-joined text is the
-- identifier.
pub parse_id_lem :
    (s : Bytes)
    → ((parse_id s ≡ ok s) × IsIdentifier s × (join slash (split s) ≡ s))
      ⊎ ((parse_id s ≡ err (record { rejected = s })) × ¬ IsIdentifier s)
unfolding parse_id
parse_id_lem s = elim (Bool-cases (valid_identifier s)) [
  | inl v ↦
      let h = (valid_identifier_iff s).0 v in
      inl (rw v, h, ap (join slash) (split-components h) ∙ sym h.joined)
  | inr v ↦ inr (rw v, λ h. cc ((valid_identifier_iff s).1 h))
]
