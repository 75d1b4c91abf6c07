-- ===== src/Text/Split.antt =====
-- `strings.Split`, `strings.Join` and `strings.Trim` at a one-byte separator.
use mathlib.Core.List.{append-nil, append_assoc}
use secrets_engine.Prelude.{
  append-ne-nil, append-ne-nil_right, sym, ℕ, ◌≡◌, refl, ◌≢◌, ap, ◌∙◌, false, ◌&&◌, List, [], ◌∷◌,
  ◌++◌, arith, ◌==◌, if◌then◌else◌, All, is_nil,
}
use secrets_engine.Text.Equal.{Bytes}

abbrev pub cons_head : ℕ → List Bytes → List Bytes
cons_head x [] = (x ∷ []) ∷ []
cons_head x (p ∷ ps) = (x ∷ p) ∷ ps

-- `strings.Split(s, sep)`: one part more than there are separators
unfoldable pub split_on : ℕ → Bytes → List Bytes
split_on sep [] = [] ∷ []
split_on sep (x ∷ s) = let rest = split_on sep s in if x == sep then [] ∷ rest else cons_head x rest

-- `strings.Join(parts, sep)`
unfoldable pub join : ℕ → List Bytes → Bytes
join sep [] = []
join sep (p ∷ []) = p
join sep (p ∷ q ∷ ps) = p ++ (sep ∷ join sep (q ∷ ps))

-- `strings.TrimLeft` and `strings.TrimRight` with a cutset of one byte
unfoldable pub trim_left : ℕ → Bytes → Bytes
trim_left c [] = []
trim_left c (x ∷ s) = if x == c then trim_left c s else x ∷ s

unfoldable pub trim_right : ℕ → Bytes → Bytes
trim_right c [] = []
trim_right c (x ∷ s) = let r = trim_right c s in if x == c && is_nil r then [] else x ∷ r

-- `strings.Trim`
unfoldable pub trim : ℕ → Bytes → Bytes
unfolding trim_left trim_right
trim c s = trim_right c (trim_left c s)

-- No byte of the text is `c`.
abbrev pub Lacks : ℕ → Bytes → Type 0
Lacks c = All (λ x. (x == c) ≡ false)

module _ (sep : ℕ) where
  pub split_on-ne-nil : (s : Bytes) → split_on sep s ≢ []
  unfolding split_on
  split_on-ne-nil [] = ground arith
  split_on-ne-nil (x ∷ s) = ground (arith, split_on-ne-nil s)

  join-cons_head : (x : ℕ) (ps : List Bytes) → ps ≢ [] → join sep (cons_head x ps) ≡ x ∷ join sep ps
  unfolding join
  join-cons_head x [] h = absurd (h refl)
  join-cons_head x (p ∷ []) h = refl
  join-cons_head x (p ∷ q ∷ ps) h = refl

  join-cons_nil : (ps : List Bytes) → ps ≢ [] → join sep ([] ∷ ps) ≡ sep ∷ join sep ps
  unfolding join
  join-cons_nil [] h = absurd (h refl)
  join-cons_nil (q ∷ ps) h = refl

  -- Splitting loses nothing.
  pub join-split_on : (s : Bytes) → join sep (split_on sep s) ≡ s
  unfolding split_on
  join-split_on [] = unfold join in refl
  join-split_on (x ∷ s) = ground (
    arith,
    join-cons_nil (split_on sep s) (split_on-ne-nil s),
    join-cons_head x (split_on sep s) (split_on-ne-nil s),
    join-split_on s,
  )

  split_on-Lacks : (p : Bytes) → Lacks sep p → split_on sep p ≡ p ∷ []
  unfolding split_on
  split_on-Lacks [] h = refl
  split_on-Lacks (x ∷ p) h = rw (h.0, split_on-Lacks p h.1)

  split_on-append : (p s : Bytes) → Lacks sep p → split_on sep (p ++ (sep ∷ s)) ≡ p ∷ split_on sep s
  unfolding split_on
  split_on-append [] s h = ground arith
  split_on-append (x ∷ p) s h = rw (h.0, split_on-append p s h.1)

  -- Parts without the separator come back from their joined text.
  pub split_on-join :
      (ps : List Bytes) → ps ≢ [] → All (Lacks sep) ps → split_on sep (join sep ps) ≡ ps
  unfolding join
  split_on-join [] ne h = absurd (ne refl)
  split_on-join (p ∷ []) ne h = split_on-Lacks p h.0
  split_on-join (p ∷ q ∷ ps) ne h =
      rw (split_on-append p _ h.0, split_on-join (q ∷ ps) (λ e. cc) h.1)

  pub split_on-All-Lacks : (s : Bytes) → All (Lacks sep) (split_on sep s)
  unfolding split_on
  split_on-All-Lacks [] = (tt, tt)
  split_on-All-Lacks (x ∷ s) = ground (arith, split_on-All-Lacks s)

  is_nil-append_right : (u v : Bytes) → v ≢ [] → is_nil (u ++ v) ≡ false
  is_nil-append_right [] [] h = absurd (h refl)
  is_nil-append_right [] (x ∷ v) h = refl
  is_nil-append_right (x ∷ u) v h = refl

  trim_right-append :
      (u v : Bytes) → trim_right sep v ≢ [] → trim_right sep (u ++ v) ≡ u ++ trim_right sep v
  unfolding trim_right
  trim_right-append [] v h = refl
  trim_right-append (x ∷ u) v h =
      ground (arith, trim_right-append u v h, is_nil-append_right u (trim_right sep v) h)

  -- A part that is not empty and lacks the separator.
  abbrev pub IsPart : Bytes → Type 0
  IsPart p = (p ≢ []) × Lacks sep p

  trim_right-Lacks : (p : Bytes) → Lacks sep p → trim_right sep p ≡ p
  unfolding trim_right
  trim_right-Lacks [] h = refl
  trim_right-Lacks (x ∷ p) h = rw (h.0, trim_right-Lacks p h.1)

  trim_right-sep : (v : Bytes) → trim_right sep v ≡ v → v ≢ [] → trim_right sep (sep ∷ v) ≡ sep ∷ v
  unfolding trim_right
  trim_right-sep [] e h = absurd (h refl)
  trim_right-sep (x ∷ v) e h = ground arith

  pub join-ne-nil : (ps : List Bytes) → ps ≢ [] → All IsPart ps → join sep ps ≢ []
  unfolding join
  join-ne-nil [] ne h = absurd (ne refl)
  join-ne-nil (p ∷ []) ne h = h.0.0
  join-ne-nil ([] ∷ q ∷ ps) ne h = absurd (h.0.0 refl)
  join-ne-nil ((x ∷ p) ∷ q ∷ ps) ne h = λ e. cc

  trim_right-join :
      (ps : List Bytes) → ps ≢ [] → All IsPart ps → trim_right sep (join sep ps) ≡ join sep ps
  unfolding join
  trim_right-join [] ne h = absurd (ne refl)
  trim_right-join (p ∷ []) ne h = trim_right-Lacks p h.0.1
  trim_right-join (p ∷ q ∷ ps) ne h =
      let rest = trim_right-join (q ∷ ps) (λ e. cc) h.1 in
      let tail = trim_right-sep (join sep (q ∷ ps)) rest (join-ne-nil (q ∷ ps) (λ e. cc) h.1) in
      trim_right-append p (sep ∷ join sep (q ∷ ps)) (λ e. ground (arith, tail))
      ∙ ap (λ (t : Bytes). p ++ t) tail

  trim_left-join :
      (ps : List Bytes) → ps ≢ [] → All IsPart ps → trim_left sep (join sep ps) ≡ join sep ps
  unfolding join trim_left
  trim_left-join [] ne h = absurd (ne refl)
  trim_left-join ([] ∷ ps) ne h = absurd (h.0.0 refl)
  trim_left-join ((x ∷ p) ∷ []) ne h = rw (h.0.1.0)
  trim_left-join ((x ∷ p) ∷ q ∷ ps) ne h = rw (h.0.1.0)

  -- A text of proper parts has nothing to trim.
  pub trim-join : (ps : List Bytes) → ps ≢ [] → All IsPart ps → trim sep (join sep ps) ≡ join sep ps
  unfolding trim
  trim-join ps ne h = rw (trim_left-join ps ne h) (trim_right-join ps ne h)

  join-cons : (p : Bytes) (ps : List Bytes) → ps ≢ [] → join sep (p ∷ ps) ≡ p ++ (sep ∷ join sep ps)
  unfolding join
  join-cons p [] ne = absurd (ne refl)
  join-cons p (q ∷ ps) ne = refl

  join_head :
      (is after : List Bytes) → is ≢ [] → join sep (join sep is ∷ after) ≡ join sep (is ++ after)
  join_head [] after ne = absurd (ne refl)
  join_head (i ∷ []) after ne = unfold join in refl
  join_head (i ∷ j ∷ is) [] ne = rw append-nil (unfold join in refl)
  join_head (i ∷ j ∷ is) (a ∷ after) ne =
      join-cons _ (a ∷ after) (λ e. cc)
      ∙ ap (λ (t : Bytes). t ++ (sep ∷ join sep (a ∷ after))) (join-cons i (j ∷ is) (λ e. cc))
      ∙ append_assoc i _ _
      ∙ ap (λ (t : Bytes). i ++ (sep ∷ t))
          (sym (join-cons _ (a ∷ after) (λ e. cc)) ∙ join_head (j ∷ is) (a ∷ after) (λ e. cc))
      ∙ sym (join-cons i (j ∷ (is ++ (a ∷ after))) (λ e. cc))

  -- A part that is itself a joined text may be joined with its own parts in its place.
  pub join_inner :
      (before is after : List Bytes)
      → is ≢ []
      → join sep (before ++ (join sep is ∷ after)) ≡ join sep (before ++ (is ++ after))
  join_inner [] is after ne = join_head is after ne
  join_inner (b ∷ before) is after ne =
      join-cons b _ (append-ne-nil_right before _ (λ e. cc))
      ∙ ap (λ (t : Bytes). b ++ (sep ∷ t)) (join_inner before is after ne)
      ∙ sym (join-cons b _ (append-ne-nil_right before _ (append-ne-nil is after ne)))
