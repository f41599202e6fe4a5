-- ===== src/Json/Stringify/Quoted.antt =====
-- A quoted text is read back: strings in Json/Stringify and Json/Parse.
use mathlib.Core.Path.{subst}
use elydora_open_source.Prelude.{
  append_assoc, Bool, false, ℕ, ◌+◌, ◌*◌, ◌/◌, ◌%◌, ◌<◌, ◌≡◌, refl, sym, ap, ◌∙◌, ◌||◌, ◌&&◌, true,
  false, some, [], ◌∷◌, ◌++◌, arith, ltb, ◌==◌, ==_iff, Bool-cases, inl, inr, All,
}
use elydora_open_source.Prelude.Texts.{Text}
use elydora_open_source.Crypto.Utf8.Bytes.{IsUnit}
use elydora_open_source.Json.Stringify.{
  hex_digit, unicode_escape, is_high_surrogate, is_low_surrogate, escape_unit, escaped, quoted,
}
use elydora_open_source.Json.Parse.{hex_value, with_unit, plain, parse_string}

hex_value-digit : (d : ℕ) → d < 16 → hex_value (hex_digit d) ≡ some d
unfolding hex_digit
hex_value-digit d h = ground arith

parse-unicode :
    (c : ℕ) (s : Text)
    → IsUnit c
    → parse_string plain (unicode_escape c ++ s) ≡ with_unit c (parse_string plain s)
unfolding unicode_escape parse_string
parse-unicode c s h =
    let value : (((0 * 16 + c / 4096 % 16) * 16 + c / 256 % 16) * 16 + c / 16 % 16) * 16 + c % 16
        ≡ c =
      omega arith in
    rw
      (
        hex_value-digit (c / 4096 % 16) (omega arith),
        parse_string,
        hex_value-digit (c / 256 % 16) (omega arith),
        hex_value-digit (c / 16 % 16) (omega arith),
        hex_value-digit (c % 16) (omega arith),
        value,
      )
      refl

parse-plain :
    (c : ℕ) (s : Text)
    → (c == 34) ≡ false
    → (c == 92) ≡ false
    → ltb c 32 ≡ false
    → parse_string plain (c ∷ s) ≡ with_unit c (parse_string plain s)
unfolding parse_string
parse-plain c s a b d = ground arith

parse-quote : (rest : Text) → parse_string plain (34 ∷ rest) ≡ some ([], rest)
unfolding parse_string
parse-quote rest = refl

or-left : (a b c : Bool) → a || b || c ≡ false → a ≡ false
or-left a b c h = ground arith

parse-escape :
    (c k : ℕ) (s : Text)
    → parse_string plain (92 ∷ k ∷ s) ≡ with_unit c (parse_string plain s)
    → (d : ℕ) → (d == c) ≡ true
    → parse_string plain (92 ∷ k ∷ s) ≡ with_unit d (parse_string plain s)
parse-escape c k s h d same =
    subst (λ (x : ℕ). parse_string plain (92 ∷ k ∷ s) ≡ with_unit x (parse_string plain s))
      (sym ((==_iff d c).0 same)) h

-- A character inside quotes
parse-unit :
    (c : ℕ) (s : Text)
    → IsUnit c
    → parse_string plain (escape_unit c ++ s) ≡ with_unit c (parse_string plain s)
unfolding escape_unit parse_string
parse-unit c s h = elim (Bool-cases (c == 34)) [
  | inl q ↦ rw q (parse-escape 34 34 s refl c q)
  | inr n34 ↦ elim (Bool-cases (c == 92)) [
    | inl q ↦ rw (n34, q) (parse-escape 92 92 s refl c q)
    | inr n92 ↦ elim (Bool-cases (c == 8)) [
      | inl q ↦ rw (n34, n92, q) (parse-escape 8 98 s refl c q)
      | inr n8 ↦ elim (Bool-cases (c == 9)) [
        | inl q ↦ rw (n34, n92, n8, q) (parse-escape 9 116 s refl c q)
        | inr n9 ↦ elim (Bool-cases (c == 10)) [
          | inl q ↦ rw (n34, n92, n8, n9, q) (parse-escape 10 110 s refl c q)
          | inr n10 ↦ elim (Bool-cases (c == 12)) [
            | inl q ↦ rw (n34, n92, n8, n9, n10, q) (parse-escape 12 102 s refl c q)
            | inr n12 ↦ elim (Bool-cases (c == 13)) [
              | inl q ↦ rw (n34, n92, n8, n9, n10, n12, q) (parse-escape 13 114 s refl c q)
              | inr n13 ↦
                  elim (Bool-cases (ltb c 32 || is_high_surrogate c || is_low_surrogate c)) [
                    | inl q ↦ rw (n34, n92, n8, n9, n10, n12, n13, q) (parse-unicode c s h)
                    | inr kept ↦
                        rw (n34, n92, n8, n9, n10, n12, n13, kept)
                          (parse-plain c s n34 n92
                            (or-left (ltb c 32) (is_high_surrogate c) (is_low_surrogate c) kept))
                  ]
            ]
          ]
        ]
      ]
    ]
  ]
]

high-plain :
    (c : ℕ) (s : Text)
    → is_high_surrogate c ≡ true
    → parse_string plain (c ∷ s) ≡ with_unit c (parse_string plain s)
unfolding is_high_surrogate
high-plain c s h = parse-plain c s (ground arith) (ground arith) (ground arith)

low-plain :
    (c : ℕ) (s : Text)
    → is_low_surrogate c ≡ true
    → parse_string plain (c ∷ s) ≡ with_unit c (parse_string plain s)
unfolding is_low_surrogate
low-plain c s h = parse-plain c s (ground arith) (ground arith) (ground arith)

and-left : (a b : Bool) → a && b ≡ true → a ≡ true
and-left a b h = ground arith

and-right : (a b : Bool) → a && b ≡ true → b ≡ true
and-right a b h = ground arith

-- The characters of a text up to the quote behind them
parse-escaped :
    (s rest : Text) → All IsUnit s → parse_string plain (escaped s ++ (34 ∷ rest)) ≡ some (s, rest)
unfolding escaped
parse-escaped [] rest h = parse-quote rest
parse-escaped (c ∷ []) rest (k, h) =
    parse-unit c (34 ∷ rest) k ∙ ap (with_unit c) (parse-quote rest)
parse-escaped (c ∷ d ∷ s) rest (k, (l, h)) =
    let after_one = parse-escaped (d ∷ s) rest (l, h) in
    let after_pair = parse-escaped s rest h in
    elim (Bool-cases (is_high_surrogate c && is_low_surrogate d)) [
      | inl pair ↦ rw pair (
          high-plain c (d ∷ (escaped s ++ (34 ∷ rest)))
            (and-left (is_high_surrogate c) (is_low_surrogate d) pair)
          ∙ ap (with_unit c) (
              low-plain d (escaped s ++ (34 ∷ rest))
                (and-right (is_high_surrogate c) (is_low_surrogate d) pair)
              ∙ ap (with_unit d) after_pair))
      | inr one ↦ rw one (
          ap (parse_string plain) (append_assoc (escape_unit c) (escaped (d ∷ s)) (34 ∷ rest))
          ∙ parse-unit c (escaped (d ∷ s) ++ (34 ∷ rest)) k
          ∙ ap (with_unit c) after_one)
    ]

-- A quoted text, after its opening quote
pub quoted-inv :
    (s rest : Text)
    → All IsUnit s
    → (t : Text) × (quoted s ++ rest ≡ 34 ∷ t) × (parse_string plain t ≡ some (s, rest))
unfolding quoted
quoted-inv s rest h = (
  escaped s ++ (34 ∷ rest),
  ap (λ (r : Text). 34 ∷ r) (append_assoc (escaped s) (34 ∷ []) rest),
  parse-escaped s rest h,
)
