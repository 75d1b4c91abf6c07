-- ===== src/Text/Decimal.antt =====
-- `strconv.Itoa` on numbers that are not negative, and `strconv.Atoi` with 64-bit integers.
use secrets_engine.Prelude.{
  ℕ, zero, suc, ◌+◌, ◌-◌, ◌*◌, ◌/◌, ◌%◌, ◌≤◌, ◌≡◌, refl, ap, ◌∙◌, ◌&&◌, [], ◌∷◌, Option, none, some,
  arith, leb, ◌==◌, if◌then◌else◌, inl, inr, Bool-cases, All, length,
}
use secrets_engine.Text.Equal.{Bytes}

itoa_fuel : ℕ → ℕ → Bytes → Bytes
itoa_fuel zero n digits = digits
itoa_fuel (suc f) n digits =
    let more = itoa_fuel f (n / 10) ((48 + n % 10) ∷ digits) in
    if n / 10 == 0 then (48 + n % 10) ∷ digits else more

-- `strconv.Itoa`; a number has at most as many digits as its successor.
unfoldable pub itoa : ℕ → Bytes
unfolding itoa_fuel
itoa n = itoa_fuel (suc n) n []

-- the value of the digits after `n`
unfoldable pub parse_digits : ℕ → Bytes → Option ℕ
parse_digits n [] = some n
parse_digits n (c ∷ s) =
    let rest = parse_digits (n * 10 + (c - 48)) s in if leb 48 c && leb c 57 then rest else none

-- `negsuc n` is the negative number of size `suc n`.
pub data ℤ : Type 0 where
  pos negsuc : ℕ → ℤ

abbrev minus : ℕ → ℤ
minus zero = pos 0
minus (suc n) = negsuc n

unfoldable pub parse_magnitude : Bytes → Option ℕ
unfolding parse_digits
parse_magnitude [] = none
parse_magnitude (c ∷ s) = parse_digits 0 (c ∷ s)

abbrev bounded : (ℕ → ℤ) → ℕ → Option ℕ → Option ℤ
bounded sign bound none = none
bounded sign bound (some n) = if leb n bound then some (sign n) else none

-- `strconv.Atoi`; `none` is an error.
unfoldable pub atoi : Bytes → Option ℤ
unfolding parse_magnitude
atoi [] = none
atoi (c ∷ s) =
    if c == b'-'
    then bounded minus 9223372036854775808 (parse_magnitude s)
    else if c == b'+'
    then bounded pos 9223372036854775807 (parse_magnitude s)
    else bounded pos 9223372036854775807 (parse_magnitude (c ∷ s))

last_digit : (n : ℕ) → n / 10 * 10 + (48 + n % 10 - 48) ≡ n
last_digit n = omega arith

parse_digits-last :
    (n : ℕ) (digits : Bytes)
    → parse_digits (n / 10) ((48 + n % 10) ∷ digits) ≡ parse_digits n digits
unfolding parse_digits
parse_digits-last n digits = ground (arith, ap (λ z. parse_digits z digits) (last_digit n))

parse_digits-itoa_fuel :
    (f n : ℕ) (digits : Bytes)
    → suc n ≤ f
    → parse_digits 0 (itoa_fuel f n digits) ≡ parse_digits n digits
unfolding itoa_fuel
parse_digits-itoa_fuel zero n digits h = absurd (omega arith)
parse_digits-itoa_fuel (suc f) n digits h = elim (Bool-cases (n / 10 == 0)) [
  | inl e ↦ rw e (unfold parse_digits in ground arith)
  | inr e ↦ rw e (parse_digits-itoa_fuel f (n / 10) _ (ground arith) ∙ parse_digits-last n digits)
]

pub parse_digits-itoa : (n : ℕ) → parse_digits 0 (itoa n) ≡ some n
unfolding itoa
parse_digits-itoa n =
    parse_digits-itoa_fuel (suc n) n [] (omega arith) ∙ unfold parse_digits in refl

-- A text that begins with a digit.
abbrev pub DigitFirst : Bytes → Type 0
DigitFirst [] = ⊥
DigitFirst (c ∷ s) = (48 ≤ c) × (c ≤ 57)

itoa_fuel-DigitFirst :
    (f n : ℕ) (digits : Bytes) → DigitFirst digits → DigitFirst (itoa_fuel f n digits)
unfolding itoa_fuel
itoa_fuel-DigitFirst zero n digits h = h
itoa_fuel-DigitFirst (suc f) n digits h = elim (Bool-cases (n / 10 == 0)) [
  | inl e ↦ rw e (omega arith, omega arith)
  | inr e ↦ rw e (itoa_fuel-DigitFirst f (n / 10) _ (omega arith, omega arith))
]

itoa-DigitFirst : (n : ℕ) → DigitFirst (itoa n)
unfolding itoa itoa_fuel
itoa-DigitFirst n = elim (Bool-cases (n / 10 == 0)) [
  | inl e ↦ rw e (omega arith, omega arith)
  | inr e ↦ rw e (itoa_fuel-DigitFirst n (n / 10) _ (omega arith, omega arith))
]

atoi-digits :
    (s : Bytes) (n : ℕ)
    → DigitFirst s
    → parse_digits 0 s ≡ some n
    → n ≤ 9223372036854775807
    → atoi s ≡ some (pos n)
unfolding atoi parse_magnitude
atoi-digits [] n h e b = absurd h
atoi-digits (c ∷ s) n h e b = rw e (ground arith)

-- Reading a printed number gives it back.
pub atoi-itoa : (n : ℕ) → n ≤ 9223372036854775807 → atoi (itoa n) ≡ some (pos n)
atoi-itoa n b = atoi-digits (itoa n) n (itoa-DigitFirst n) (parse_digits-itoa n) b

pub itoa_inj : (m n : ℕ) → itoa m ≡ itoa n → m ≡ n
itoa_inj m n e = cc (ap (parse_digits 0) e, parse_digits-itoa m, parse_digits-itoa n)

-- A digit of a number.
abbrev pub IsDigit : ℕ → Type 0
IsDigit c = (48 ≤ c) × (c ≤ 57)

itoa_fuel-IsDigit :
    (f n : ℕ) (digits : Bytes) → All IsDigit digits → All IsDigit (itoa_fuel f n digits)
unfolding itoa_fuel
itoa_fuel-IsDigit zero n digits h = h
itoa_fuel-IsDigit (suc f) n digits h = elim (Bool-cases (n / 10 == 0)) [
  | inl e ↦ rw e ((omega arith, omega arith), h)
  | inr e ↦ rw e (itoa_fuel-IsDigit f (n / 10) _ ((omega arith, omega arith), h))
]

pub itoa-IsDigit : (n : ℕ) → All IsDigit (itoa n)
unfolding itoa
itoa-IsDigit n = itoa_fuel-IsDigit (suc n) n [] tt

power_of_ten : ℕ → ℕ
power_of_ten zero = 1
power_of_ten (suc e) = 10 * power_of_ten e

length-itoa_fuel :
    (f e n : ℕ) (digits : Bytes)
    → suc n ≤ power_of_ten (suc e)
    → length (itoa_fuel f n digits) ≤ suc e + length digits
unfolding itoa_fuel power_of_ten
length-itoa_fuel zero e n digits h = omega arith
length-itoa_fuel (suc f) zero n digits h = elim (Bool-cases (n / 10 == 0)) [
  | inl z ↦ rw z (omega arith)
  | inr z ↦ absurd (ground arith)
]
length-itoa_fuel (suc f) (suc e) n digits h = elim (Bool-cases (n / 10 == 0)) [
  | inl z ↦ rw z (omega arith)
  | inr z ↦
      rw z (omega (arith, length-itoa_fuel f e (n / 10) ((48 + n % 10) ∷ digits) (omega arith)))
]

-- A number of 63 bits has at most 19 digits.
pub length-itoa : (n : ℕ) → n ≤ 9223372036854775807 → length (itoa n) ≤ 19
unfolding itoa power_of_ten
length-itoa n h = omega (arith, length-itoa_fuel (suc n) 18 n [] (omega arith))
