-- ===== src/Json/Stringify/Digits.antt =====
-- Decimal notation is read back: numbers in Json/Stringify and Json/Parse.
use mathlib.Core.Path.{subst}
use elydora_open_source.Prelude.{
  All, ℕ, zero, suc, ◌+◌, ◌-◌, ◌*◌, ◌/◌, ◌%◌, ◌≤◌, ◌<◌, ◌≡◌, refl, ap, ◌∙◌, true, false, some, [],
  ◌∷◌, ◌++◌, arith, ltb, ltb→lt, ◌==◌, Bool-cases, inl, inr,
}
use elydora_open_source.Prelude.Texts.{Text}
use elydora_open_source.Json.Stringify.{digits_from, decimal}
use elydora_open_source.Json.Parse.{is_digit, more_digits, parse_natural}

-- The rest of a text where a number has ended
abbrev pub EndsNumber : Text → Type 0
EndsNumber [] = Unit
EndsNumber (c ∷ s) = is_digit c ≡ false

more_digits-stops : (n : ℕ) (s : Text) → EndsNumber s → more_digits n s ≡ (n, s)
unfolding more_digits
more_digits-stops n [] h = refl
more_digits-stops n (c ∷ s) h = rw (h, more_digits) refl

is_digit-digit : (d : ℕ) → d < 10 → is_digit (d + 48) ≡ true
is_digit-digit d h = ground arith

more_digits-digit :
    (n d : ℕ) (s : Text) → d < 10 → more_digits n ((d + 48) ∷ s) ≡ more_digits (n * 10 + d) s
unfolding more_digits
more_digits-digit n d s h =
    let back : d + 48 - 48 ≡ d = omega arith in rw (is_digit-digit d h, more_digits, back) refl

parse_natural-digit :
    (d : ℕ) (s : Text) → 0 < d → d < 10 → parse_natural ((d + 48) ∷ s) ≡ some (more_digits d s)
unfolding parse_natural
parse_natural-digit d s low h =
    let back : d + 48 - 48 ≡ d = omega arith in
    let nonzero : (d + 48 == 48) ≡ false = ground arith in
    rw (is_digit-digit d h, parse_natural, nonzero, back) refl

digits_from-append :
    (fuel n : ℕ) (s rest : Text) → digits_from fuel n s ++ rest ≡ digits_from fuel n (s ++ rest)
unfolding digits_from
digits_from-append zero n s rest = refl
digits_from-append (suc fuel) n s rest = elim (Bool-cases (ltb n 10)) [
  | inl one ↦ rw one refl
  | inr more ↦ rw more (digits_from-append fuel (n / 10) ((n % 10 + 48) ∷ s) rest)
]

parse-digits_from :
    (fuel n : ℕ) (s : Text)
    → 0 < n
    → n < fuel
    → parse_natural (digits_from fuel n s) ≡ some (more_digits n s)
unfolding digits_from
parse-digits_from zero n s low high = absurd (omega arith)
parse-digits_from (suc fuel) n s low high = elim (Bool-cases (ltb n 10)) [
  | inl one ↦ rw one (parse_natural-digit n s low (ltb→lt n 10 one))
  | inr more ↦
      let big : 10 ≤ n = ground arith in
      let value : n / 10 * 10 + n % 10 ≡ n = omega arith in
      rw more (
        parse-digits_from fuel (n / 10) ((n % 10 + 48) ∷ s) (omega (arith, big))
          (omega (arith, big))
        ∙ ap (λ (x : ℕ × Text). some x) (more_digits-digit (n / 10) (n % 10) s (omega arith))
        ∙ ap (λ (m : ℕ). some (more_digits m s)) value)
]

parse_natural-zero : (rest : Text) → parse_natural (48 ∷ rest) ≡ some (0, rest)
unfolding parse_natural
parse_natural-zero rest = refl

-- A number is read up to the end of its digits.
pub parse-decimal :
    (n : ℕ) (rest : Text) → EndsNumber rest → parse_natural (decimal n ++ rest) ≡ some (n, rest)
unfolding decimal
parse-decimal n rest h = elim (Bool-cases (n == 0)) [
  | inl none ↦
      let same : 0 ≡ n = ground arith in
      subst (λ (m : ℕ). parse_natural (decimal m ++ rest) ≡ some (m, rest)) same
        (parse_natural-zero rest)
  | inr some_n ↦
      let low : 0 < n = ground arith in
      ap parse_natural (digits_from-append (suc n) n [] rest)
      ∙ parse-digits_from (suc n) n rest low (omega arith)
      ∙ ap (λ (x : ℕ × Text). some x) (more_digits-stops n rest h)
]

-- The first character is a digit.
digits_from-head :
    (fuel n : ℕ) (s : Text)
    → n < fuel
    → (c : ℕ) × (r : Text) × (digits_from fuel n s ≡ c ∷ r) × (is_digit c ≡ true)
unfolding digits_from
digits_from-head zero n s high = absurd (omega arith)
digits_from-head (suc fuel) n s high = elim (Bool-cases (ltb n 10)) [
  | inl one ↦ (n + 48, s, rw one refl, is_digit-digit n (ltb→lt n 10 one))
  | inr more ↦
      let big : 10 ≤ n = ground arith in
      let (c, r, same, digit) =
        digits_from-head fuel (n / 10) ((n % 10 + 48) ∷ s) (omega (arith, big)) in
      (c, r, rw more same, digit)
]

pub decimal-head : (n : ℕ) → (c : ℕ) × (r : Text) × (decimal n ≡ c ∷ r) × (is_digit c ≡ true)
unfolding decimal
decimal-head n = digits_from-head (suc n) n [] (omega arith)

-- All its characters are digits.
digits_from-digits :
    (fuel n : ℕ) (s : Text)
    → All (λ (c : ℕ). is_digit c ≡ true) s
    → All (λ (c : ℕ). is_digit c ≡ true) (digits_from fuel n s)
unfolding digits_from
digits_from-digits zero n s h = h
digits_from-digits (suc fuel) n s h = elim (Bool-cases (ltb n 10)) [
  | inl one ↦ rw one (is_digit-digit n (ltb→lt n 10 one), h)
  | inr more ↦ rw more (
      digits_from-digits fuel (n / 10) ((n % 10 + 48) ∷ s)
        (is_digit-digit (n % 10) (omega arith), h))
]

pub decimal-digits : (n : ℕ) → All (λ (c : ℕ). is_digit c ≡ true) (decimal n)
unfolding decimal
decimal-digits n = digits_from-digits (suc n) n [] tt
