-- ===== src/Posixage/SecretFile/Names.antt =====
-- store/posixage/internal/secretfile/secret.go: names of directories.
use secrets_engine.Posixage.SecretFile.{id_to_dir_name, dir_name_to_id}
use secrets_engine.Prelude.{
  ℕ, ◌+◌, ◌≡◌, refl, sym, ◌∙◌, ◌==◌, true, [], ◌∷◌, ok, arith, All, All-map, Bool-cases, inl, inr,
}
use secrets_engine.Secrets.Identifier.{
  slash, SecretId, parse_id, valid_identifier, identifier_loop, is_valid_rune,
}
use secrets_engine.Secrets.Identifier.Grammar.{identifier_loop-runes}
use secrets_engine.Text.{Bytes}
use secrets_engine.Text.Base64.{IsPlain, has_no_slash, decode-encode, has_no_slash-encode_base64}

rune-IsPlain : (c : ℕ) → is_valid_rune c ≡ true → IsPlain c
unfolding is_valid_rune
rune-IsPlain c h = (ground arith, ground arith)

identifier_loop-IsPlain : (s : Bytes) (n : ℕ) → identifier_loop n s ≡ true → All IsPlain s
unfolding identifier_loop
identifier_loop-IsPlain [] n h = tt
identifier_loop-IsPlain (c ∷ s) n h = elim (Bool-cases (c == slash)) [
  | inl e ↦ ((ground arith, ground arith), identifier_loop-IsPlain s 0 (ground arith))
  | inr e ↦ elim (Bool-cases (is_valid_rune c)) [
    | inl v ↦ (rune-IsPlain c v, identifier_loop-IsPlain s (n + 1) (ground arith))
    | inr v ↦ absurd (ground arith)
  ]
]

valid-IsPlain : (i : SecretId) → valid_identifier i ≡ true → All IsPlain i
unfolding valid_identifier
valid-IsPlain [] h = tt
valid-IsPlain (c ∷ s) h =
    identifier_loop-IsPlain (c ∷ s) 0 (sym (identifier_loop-runes (c ∷ s) 0) ∙ h)

-- The directory of an identifier that `valid_identifier` accepts: its name gives the identifier back,
-- and has no `/` in it, though the encoding has that character among its digits.
pub dir_name_to_id-id_to_dir_name :
    (i : SecretId)
    → valid_identifier i ≡ true
    → (dir_name_to_id (id_to_dir_name i) ≡ ok i) × (has_no_slash (id_to_dir_name i) ≡ true)
unfolding dir_name_to_id parse_id
dir_name_to_id-id_to_dir_name i h =
    let plain = valid-IsPlain i h in
    (
      rw (decode-encode i (All-map IsPlain _ (λ b k. omega arith) i plain), h) refl,
      has_no_slash-encode_base64 i plain,
    )
