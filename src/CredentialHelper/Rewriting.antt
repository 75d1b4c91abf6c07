-- ===== src/CredentialHelper/Rewriting.antt =====
-- plugins/credentialhelper/store.go: what `DefaultKeyRewriter` makes of a URL.
use secrets_engine.CredentialHelper.{
  https_scheme, http_scheme, replace_schemes_fuel, replace_schemes, trim_slash, first_part,
  default_key_rewriter,
}
use secrets_engine.Prelude.{
  ℕ, zero, suc, ◌≡◌, refl, ap, Bool, true, false, [], ◌∷◌, ◌++◌, none, arith, All, All-append,
  Option-cases, inl, inr, ◌==◌, if◌then◌else◌, length,
}
use secrets_engine.Text.{Bytes, codes, cut_prefix, cut_prefix_sound}
use secrets_engine.Text.Search.{replace_all_absent}
use secrets_engine.Text.Split.{split_on}

-- A text without `:`.
abbrev pub HasNoColon : Bytes → Type 0
HasNoColon = All (λ c. (c == b':') ≡ false)

https_has_colon : (r : Bytes) → HasNoColon (https_scheme ++ r) → ⊥
https_has_colon r h = ground (arith, h.1.1.1.1.1.0)

http_has_colon : (r : Bytes) → HasNoColon (http_scheme ++ r) → ⊥
http_has_colon r h = ground (arith, h.1.1.1.1.0)

no_https : (s : Bytes) → HasNoColon s → cut_prefix https_scheme s ≡ none
no_https s h = elim (Option-cases (cut_prefix https_scheme s)) [
  | inl e ↦ e
  | inr (r, e) ↦ absurd (https_has_colon r (rw (cut_prefix_sound https_scheme s r e) at h))
]

no_http : (s : Bytes) → HasNoColon s → cut_prefix http_scheme s ≡ none
no_http s h = elim (Option-cases (cut_prefix http_scheme s)) [
  | inl e ↦ e
  | inr (r, e) ↦ absurd (http_has_colon r (rw (cut_prefix_sound http_scheme s r e) at h))
]

replace_schemes_fuel_absent : (f : ℕ) (s : Bytes) → HasNoColon s → replace_schemes_fuel f s ≡ s
unfolding replace_schemes_fuel
replace_schemes_fuel_absent zero s h = refl
replace_schemes_fuel_absent (suc f) [] h = refl
replace_schemes_fuel_absent (suc f) (x ∷ s) h =
    rw (no_https (x ∷ s) h, no_http (x ∷ s) h, replace_schemes_fuel_absent f s h.1) refl

trim_slash-append : (s : Bytes) → trim_slash (s ++ (b'/' ∷ [])) ≡ s
unfolding trim_slash
trim_slash-append [] = refl
trim_slash-append (c ∷ []) = refl
trim_slash-append (c ∷ d ∷ s) = ap (◌∷◌ c) (trim_slash-append (d ∷ s))

replace_schemes-https : (s : Bytes) → HasNoColon s → replace_schemes (https_scheme ++ s) ≡ s
unfolding replace_schemes replace_schemes_fuel cut_prefix
replace_schemes-https s h = replace_schemes_fuel_absent (length (codes "ttps://" ++ s)) s h

replace_schemes-http : (s : Bytes) → HasNoColon s → replace_schemes (http_scheme ++ s) ≡ s
unfolding replace_schemes replace_schemes_fuel cut_prefix
replace_schemes-http s h = replace_schemes_fuel_absent (length (codes "ttp://" ++ s)) s h

if_same : {A : Type 0} (b : Bool) (x y : A) → x ≡ y → (if b then x else y) ≡ y
if_same true x y e = e
if_same false x y e = refl

-- A URL that is a scheme, `https` or `http`, then a text without `:`, then `/`, is rewritten to that text.
pub default_key_rewriter_lem :
    (has_port : Bytes → Bool) (s : Bytes)
    → HasNoColon s
    → (default_key_rewriter has_port (https_scheme ++ (s ++ (b'/' ∷ []))) ≡ s)
      × (default_key_rewriter has_port (http_scheme ++ (s ++ (b'/' ∷ []))) ≡ s)
unfolding default_key_rewriter
default_key_rewriter_lem has_port s h =
    let h' = All-append _ s (b'/' ∷ []) h (refl, tt) in
    (
      rw (replace_schemes-https (s ++ (b'/' ∷ [])) h', trim_slash-append s)
          (if_same (has_port (first_part (split_on b'/' s))) _ s
            (replace_all_absent b':' (codes "-port-") s h)),
      rw (replace_schemes-http (s ++ (b'/' ∷ [])) h', trim_slash-append s)
          (if_same (has_port (first_part (split_on b'/' s))) _ s
            (replace_all_absent b':' (codes "-port-") s h)),
    )
