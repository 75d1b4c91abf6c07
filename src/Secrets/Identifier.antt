-- ===== src/Secrets/Identifier.antt =====
-- x/secrets/identifiers.go: validation and parsing of identifiers.
pub mod Grammar
use secrets_engine.Prelude.{
  ℕ, zero, suc, ◌+◌, Bool, true, false, ◌&&◌, ◌||◌, List, [], ◌∷◌, ltb, leb, ◌==◌, if◌then◌else◌,
  is_nil, Result, ok, err,
}
use secrets_engine.Text.{Bytes, codes}
use secrets_engine.Text.Runes.{runes}
use secrets_engine.Text.Split.{split_on, join, trim}

-- the byte `/`
abbrev pub slash : ℕ
slash = 47

-- `isValidRune`
unfoldable pub is_valid_rune : ℕ → Bool
is_valid_rune c =
    (leb b'A' c && leb c b'Z')
    || (leb b'a' c && leb c b'z')
    || (leb b'0' c && leb c b'9')
    || c == b'.'
    || c == b'-'
    || c == b'_'
    || c == b':'

-- The loop of `validIdentifier` and its final test; the number is `componentLen`.
unfoldable pub identifier_loop : ℕ → List ℕ → Bool
identifier_loop component_len [] = ltb 0 component_len
identifier_loop component_len (r ∷ rs) =
    let closed = identifier_loop 0 rs in
    let grown = identifier_loop (component_len + 1) rs in
    if r == slash
    then (if component_len == 0 then false else closed)
    else if is_valid_rune r
    then grown
    else false

-- `validIdentifier`
unfoldable pub valid_identifier : Bytes → Bool
unfolding identifier_loop is_valid_rune runes
valid_identifier s = if is_nil s then false else identifier_loop 0 (runes s)

-- `split`
unfoldable pub split : Bytes → List Bytes
unfolding split_on trim
split s = let t = trim slash s in if is_nil t then [] else split_on slash t

-- The interface `ID` has the one implementation `id`, a string; equal strings are equal keys.
abbrev pub SecretId : Type 0
SecretId = Bytes

-- `ErrInvalidID`
pub record ErrInvalidId : Type 0 where
  pub rejected : Bytes

-- `valid`, then the conversion to `id`
unfoldable pub parse_id : Bytes → Result ErrInvalidId SecretId
unfolding valid_identifier
parse_id s = if valid_identifier s then ok s else err (record { rejected = s })
