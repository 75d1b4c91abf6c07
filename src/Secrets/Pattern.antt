-- ===== src/Secrets/Pattern.antt =====
-- x/secrets/pattern.go: validation and parsing of patterns.
pub mod Grammar
use secrets_engine.Prelude.{
  ℕ, ◌+◌, ◌<◌, Bool, true, false, not, ◌&&◌, ◌||◌, List, [], ◌∷◌, ltb, ◌==◌, if◌then◌else◌, is_nil,
  Result, ok, err,
}
use secrets_engine.Secrets.Identifier.{slash, is_valid_rune}
use secrets_engine.Text.{Bytes}
use secrets_engine.Text.Runes.{runes}

-- the byte `*`
abbrev pub asterisk : ℕ
asterisk = 42

-- the components `*` and `**`
abbrev pub star : Bytes
star = asterisk ∷ []

abbrev pub double_star : Bytes
double_star = asterisk ∷ asterisk ∷ []

-- `isValidComponentMatcher`
unfoldable pub is_valid_component_matcher : ℕ → ℕ → Bool
is_valid_component_matcher component_len wildcard_len =
    if ltb 2 wildcard_len
    then false
    else if ltb 0 wildcard_len && not (wildcard_len == component_len)
    then false
    else ltb 0 component_len

-- `isValidPatternRune`
unfoldable pub is_valid_pattern_rune : ℕ → Bool
unfolding is_valid_rune
is_valid_pattern_rune c = is_valid_rune c || c == asterisk

-- The loop of `validPattern` and its final test; the numbers are `componentLen` and `wildcardLen`.
unfoldable pub pattern_loop : ℕ → ℕ → List ℕ → Bool
unfolding is_valid_component_matcher
pattern_loop component_len wildcard_len [] = is_valid_component_matcher component_len wildcard_len
pattern_loop component_len wildcard_len (r ∷ rs) =
    let closed = pattern_loop 0 0 rs in
    let wildcards = if r == asterisk then wildcard_len + 1 else wildcard_len in
    let grown = pattern_loop (component_len + 1) wildcards rs in
    if r == slash
    then (if not (is_valid_component_matcher component_len wildcard_len) then false else closed)
    else if is_valid_pattern_rune r
    then grown
    else false

-- `validPattern`
unfoldable pub valid_pattern : Bytes → Bool
unfolding pattern_loop is_valid_pattern_rune runes
valid_pattern s = if is_nil s then false else pattern_loop 0 0 (runes s)

-- The interface `Pattern` has the one implementation `pattern`, a string.
abbrev pub SecretPattern : Type 0
SecretPattern = Bytes

-- `ErrInvalidPattern`
pub data PatternError : Type 0 where
  invalid_pattern : PatternError

-- `ParsePattern`
unfoldable pub parse_pattern : Bytes → Result PatternError SecretPattern
unfolding valid_pattern
parse_pattern s = if valid_pattern s then ok s else err invalid_pattern
