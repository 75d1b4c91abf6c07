-- ===== src/Text/Base64.antt =====
-- The package encoding/base64: `StdEncoding.EncodeToString` and `StdEncoding.DecodeString`.
use secrets_engine.Prelude.{
  ℕ, ◌+◌, ◌-◌, ◌*◌, ◌/◌, ◌%◌, ◌<◌, ◌≡◌, refl, ◌∙◌, ◌&&◌, ◌||◌, [], ◌∷◌, Option, none, some, arith,
  ltb, leb, ◌==◌, if◌then◌else◌, All, Bool, true, false,
}
use secrets_engine.Text.Equal.{Bytes}

-- the character of a six-bit number
digit : ℕ → ℕ
digit v =
    if ltb v 26
    then 65 + v
    else if ltb v 52
    then 71 + v
    else if ltb v 62
    then v - 4
    else if v == 62
    then b'+'
    else b'/'

undigit : ℕ → Option ℕ
undigit c =
    if leb b'A' c && leb c b'Z'
    then some (c - 65)
    else if leb b'a' c && leb c b'z'
    then some (c - 71)
    else if leb b'0' c && leb c b'9'
    then some (c + 4)
    else if c == b'+'
    then some 62
    else if c == b'/'
    then some 63
    else none

-- `EncodeToString`
unfoldable pub encode_base64 : Bytes → Bytes
unfolding digit
encode_base64 [] = []
encode_base64 (a ∷ []) = digit (a / 4) ∷ digit (a % 4 * 16) ∷ b'=' ∷ b'=' ∷ []
encode_base64 (a ∷ b ∷ []) =
    digit (a / 4) ∷ digit (a % 4 * 16 + b / 16) ∷ digit (b % 16 * 4) ∷ b'=' ∷ []
encode_base64 (a ∷ b ∷ c ∷ s) =
    digit (a / 4)
    ∷ digit (a % 4 * 16 + b / 16)
    ∷ digit (b % 16 * 4 + c / 64)
    ∷ digit (c % 64)
    ∷ encode_base64 s

abbrev with_one : Option ℕ → Option ℕ → Option Bytes
with_one (some v) (some w) = some ((v * 4 + w / 16) ∷ [])
with_one _ _ = none

abbrev with_two : Option ℕ → Option ℕ → Option ℕ → Option Bytes
with_two (some v) (some w) (some x) = some ((v * 4 + w / 16) ∷ (w % 16 * 16 + x / 4) ∷ [])
with_two _ _ _ = none

abbrev with_three : Option ℕ → Option ℕ → Option ℕ → Option ℕ → Option Bytes → Option Bytes
with_three (some v) (some w) (some x) (some y) (some s) =
    some ((v * 4 + w / 16) ∷ (w % 16 * 16 + x / 4) ∷ (x % 4 * 64 + y) ∷ s)
with_three _ _ _ _ _ = none

-- The quanta of four characters; the decoder ignores the bits that padding leaves over.
decode_quanta : Bytes → Option Bytes
decode_quanta [] = some []
decode_quanta (c ∷ d ∷ e ∷ f ∷ []) =
    if f == b'='
    then (if e == b'='
        then with_one (undigit c) (undigit d)
        else with_two (undigit c) (undigit d) (undigit e))
    else with_three (undigit c) (undigit d) (undigit e) (undigit f) (some [])
decode_quanta (c ∷ d ∷ e ∷ f ∷ g ∷ s) =
    with_three (undigit c) (undigit d) (undigit e) (undigit f) (decode_quanta (g ∷ s))
decode_quanta _ = none

-- The decoder skips line breaks.
skip_breaks : Bytes → Bytes
skip_breaks [] = []
skip_breaks (c ∷ s) = let rest = skip_breaks s in if c == 10 || c == 13 then rest else c ∷ rest

-- `DecodeString`; `none` is an error.
unfoldable pub decode_base64 : Bytes → Option Bytes
unfolding decode_quanta skip_breaks undigit
decode_base64 s = decode_quanta (skip_breaks s)

undigit-digit : (v : ℕ) → v < 64 → undigit (digit v) ≡ some v
unfolding undigit digit
undigit-digit v h = ground arith

-- No digit is a line break or padding.
digit_plain :
    (v : ℕ) → ((digit v == 10) ≡ false) × ((digit v == 13) ≡ false) × ((digit v == b'=') ≡ false)
unfolding digit
digit_plain v = ground arith

skip_digit : (v : ℕ) (s : Bytes) → skip_breaks (digit v ∷ s) ≡ digit v ∷ skip_breaks s
unfolding skip_breaks
skip_digit v s = let (n, r, p) = digit_plain v in rw (n, r)

skip_breaks-encode : (s : Bytes) → skip_breaks (encode_base64 s) ≡ encode_base64 s
unfolding encode_base64
skip_breaks-encode [] = unfold skip_breaks in refl
skip_breaks-encode (a ∷ []) = rw (skip_digit, skip_digit) (unfold skip_breaks in refl)
skip_breaks-encode (a ∷ b ∷ []) =
    rw (skip_digit, skip_digit, skip_digit) (unfold skip_breaks in refl)
skip_breaks-encode (a ∷ b ∷ c ∷ s) =
    rw (skip_digit, skip_digit, skip_digit, skip_digit, skip_breaks-encode s)

decode_quantum :
    (c d e f : ℕ) (s : Bytes)
    → (f == b'=') ≡ false
    → decode_quanta (c ∷ d ∷ e ∷ f ∷ s)
      ≡ with_three (undigit c) (undigit d) (undigit e) (undigit f) (decode_quanta s)
unfolding decode_quanta
decode_quantum c d e f [] n = rw n
decode_quantum c d e f (g ∷ s) n = refl

-- A byte is a number below 256.
abbrev pub AreBytes : Bytes → Type 0
AreBytes = All (λ b. b < 256)

three_bytes :
    (a b c : ℕ) (s : Bytes)
    → a < 256
    → b < 256
    → c < 256
    → with_three
        (some (a / 4))
        (some (a % 4 * 16 + b / 16))
        (some (b % 16 * 4 + c / 64))
        (some (c % 64))
        (some s)
      ≡ some (a ∷ b ∷ c ∷ s)
three_bytes a b c s ha hb hc =
    let first : a / 4 * 4 + (a % 4 * 16 + b / 16) / 16 ≡ a = omega arith in
    let second : (a % 4 * 16 + b / 16) % 16 * 16 + (b % 16 * 4 + c / 64) / 4 ≡ b = omega arith in
    let third : (b % 16 * 4 + c / 64) % 4 * 64 + c % 64 ≡ c = omega arith in cc

decode_quanta-encode : (s : Bytes) → AreBytes s → decode_quanta (encode_base64 s) ≡ some s
unfolding encode_base64
decode_quanta-encode [] h = unfold decode_quanta in refl
decode_quanta-encode (a ∷ []) h =
    unfold decode_quanta in
    rw (undigit-digit (a / 4) (omega arith), undigit-digit (a % 4 * 16) (omega arith))
      (let e : a / 4 * 4 + a % 4 * 16 / 16 ≡ a = omega arith in rw e refl)
decode_quanta-encode (a ∷ b ∷ []) h =
    unfold decode_quanta in
    rw
      (
        (digit_plain (b % 16 * 4)).2,
        undigit-digit (a / 4) (omega arith),
        undigit-digit (a % 4 * 16 + b / 16) (omega arith),
        undigit-digit (b % 16 * 4) (omega arith),
      )
      (let first : a / 4 * 4 + (a % 4 * 16 + b / 16) / 16 ≡ a = omega arith in
        let second : (a % 4 * 16 + b / 16) % 16 * 16 + b % 16 * 4 / 4 ≡ b = omega arith in
        rw (first, second) refl)
decode_quanta-encode (a ∷ b ∷ c ∷ s) h =
    decode_quantum _ _ _ _ (encode_base64 s) (digit_plain (c % 64)).2
    ∙ rw
        (
          undigit-digit (a / 4) (omega arith),
          undigit-digit (a % 4 * 16 + b / 16) (omega arith),
          undigit-digit (b % 16 * 4 + c / 64) (omega arith),
          undigit-digit (c % 64) (omega arith),
          decode_quanta-encode s h.1.1.1,
        )
        (three_bytes a b c s h.0 h.1.0 h.1.1.0)

-- Decoding an encoded text gives it back.
pub decode-encode : (s : Bytes) → AreBytes s → decode_base64 (encode_base64 s) ≡ some s
unfolding decode_base64
decode-encode s h = rw (skip_breaks-encode s) (decode_quanta-encode s h)

-- A byte whose six low bits are not all set, and whose highest bit is not set.
abbrev pub IsPlain : ℕ → Type 0
IsPlain b = (b < 128) × ((b % 64 == 63) ≡ false)

-- A text without `/`.
abbrev pub has_no_slash : Bytes → Bool
has_no_slash [] = true
has_no_slash (c ∷ s) = (if c == b'/' then false else true) && has_no_slash s

digit-slash : (v : ℕ) → v < 63 → (digit v == b'/') ≡ false
unfolding digit
digit-slash v h = ground arith

-- Only the digit 63 is the character `/`.
pub has_no_slash-encode_base64 : (s : Bytes) → All IsPlain s → has_no_slash (encode_base64 s) ≡ true
unfolding encode_base64
has_no_slash-encode_base64 [] h = refl
has_no_slash-encode_base64 (a ∷ []) h =
    rw (digit-slash (a / 4) (omega arith), digit-slash (a % 4 * 16) (omega arith)) refl
has_no_slash-encode_base64 (a ∷ b ∷ []) h =
    rw
      (
        digit-slash (a / 4) (omega arith),
        digit-slash (a % 4 * 16 + b / 16) (omega arith),
        digit-slash (b % 16 * 4) (omega arith),
      )
      refl
has_no_slash-encode_base64 (a ∷ b ∷ c ∷ s) h =
    rw
      (
        digit-slash (a / 4) (omega arith),
        digit-slash (a % 4 * 16 + b / 16) (omega arith),
        digit-slash (b % 16 * 4 + c / 64) (omega arith),
        digit-slash (c % 64) (ground arith),
        has_no_slash-encode_base64 s h.1.1.1,
      )
      refl
