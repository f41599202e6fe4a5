-- ===== src/Json/Stringify/Paired.antt =====
-- What JSON.stringify writes has no half of a surrogate pair: Json/Stringify.
use mathlib.Core.Path.{subst}
use elydora_open_source.Prelude.{
  ℕ, ◌+◌, ◌-◌, ◌/◌, ◌%◌, ◌<◌, ◌≡◌, sym, ◌||◌, ◌&&◌, Bool, true, false, [], ◌∷◌, ◌++◌, arith, ltb,
  ◌==◌, if◌then◌else◌, Bool-cases, inl, inr, All, append_assoc,
}
use elydora_open_source.Prelude.Texts.{Text}
use elydora_open_source.Crypto.Utf8.{is_high, is_low}
use elydora_open_source.Crypto.Utf8.Bytes.{IsUnit}
use elydora_open_source.Crypto.Utf8.Decode.RoundTrip.{IsPaired}
use elydora_open_source.Json.Stringify.{
  hex_digit, unicode_escape, is_high_surrogate, is_low_surrogate, escape_unit, escaped, quoted,
}

abbrev pub IsSingle : ℕ → Type 0
IsSingle c = (is_high c || is_low c ≡ false) × IsUnit c

pub ascii-IsSingle : (c : ℕ) → c < 0x80 → IsSingle c
unfolding is_high is_low
ascii-IsSingle c h = (ground arith, omega arith)

-- Behind a character that is no half, any text may stand.
single-IsPaired : (c : ℕ) (s : Text) → IsSingle c → IsPaired s → IsPaired (c ∷ s)
unfolding IsPaired
single-IsPaired c [] h k = h
single-IsPaired c (d ∷ s) (h, u) k =
    let other : is_high c && is_low d ≡ false = ground arith in rw other (h, u, k)

pub singles-IsPaired : (s t : Text) → All IsSingle s → IsPaired t → IsPaired (s ++ t)
singles-IsPaired [] t h k = k
singles-IsPaired (c ∷ s) t (p, h) k = single-IsPaired c (s ++ t) p (singles-IsPaired s t h k)

hex-IsSingle : (d : ℕ) → d < 16 → IsSingle (hex_digit d)
unfolding hex_digit
hex-IsSingle d h = ascii-IsSingle (if ltb d 10 then d + 48 else d - 10 + 97) (ground arith)

unicode-IsSingle : (c : ℕ) → All IsSingle (unicode_escape c)
unfolding unicode_escape
unicode-IsSingle c = (
  ascii-IsSingle 92 (omega arith),
  (
    ascii-IsSingle 117 (omega arith),
    (
      hex-IsSingle (c / 4096 % 16) (omega arith),
      (
        hex-IsSingle (c / 256 % 16) (omega arith),
        (hex-IsSingle (c / 16 % 16) (omega arith), (hex-IsSingle (c % 16) (omega arith), tt)),
      ),
    ),
  ),
)

two-IsSingle : (k : ℕ) → k < 0x80 → All IsSingle (92 ∷ k ∷ [])
two-IsSingle k h = (ascii-IsSingle 92 (omega arith), (ascii-IsSingle k h, tt))

or-right : (a b c : Bool) → a || b || c ≡ false → b || c ≡ false
or-right a b c h = ground arith

escape-IsSingle : (c : ℕ) → IsUnit c → All IsSingle (escape_unit c)
unfolding escape_unit is_high is_low is_high_surrogate is_low_surrogate
escape-IsSingle c h = elim (Bool-cases (c == 34)) [
  | inl q ↦ rw q (two-IsSingle 34 (omega arith))
  | inr n34 ↦ elim (Bool-cases (c == 92)) [
    | inl q ↦ rw (n34, q) (two-IsSingle 92 (omega arith))
    | inr n92 ↦ elim (Bool-cases (c == 8)) [
      | inl q ↦ rw (n34, n92, q) (two-IsSingle 98 (omega arith))
      | inr n8 ↦ elim (Bool-cases (c == 9)) [
        | inl q ↦ rw (n34, n92, n8, q) (two-IsSingle 116 (omega arith))
        | inr n9 ↦ elim (Bool-cases (c == 10)) [
          | inl q ↦ rw (n34, n92, n8, n9, q) (two-IsSingle 110 (omega arith))
          | inr n10 ↦ elim (Bool-cases (c == 12)) [
            | inl q ↦ rw (n34, n92, n8, n9, n10, q) (two-IsSingle 102 (omega arith))
            | inr n12 ↦ elim (Bool-cases (c == 13)) [
              | inl q ↦ rw (n34, n92, n8, n9, n10, n12, q) (two-IsSingle 114 (omega arith))
              | inr n13 ↦
                  elim (Bool-cases (ltb c 32 || is_high_surrogate c || is_low_surrogate c)) [
                    | inl q ↦ rw (n34, n92, n8, n9, n10, n12, n13, q) (unicode-IsSingle c)
                    | inr kept ↦
                        rw (n34, n92, n8, n9, n10, n12, n13, kept)
                          (
                            (
                              or-right (ltb c 32) (is_high_surrogate c) (is_low_surrogate c) kept,
                              h,
                            ),
                            tt,
                          )
                  ]
            ]
          ]
        ]
      ]
    ]
  ]
]

pair-IsPaired :
    (c d : ℕ) (s : Text)
    → is_high_surrogate c && is_low_surrogate d ≡ true
    → IsPaired s
    → IsPaired (c ∷ d ∷ s)
unfolding IsPaired is_high is_low is_high_surrogate is_low_surrogate
pair-IsPaired c d s pair h = rw pair h

escaped-IsPaired : (s t : Text) → All IsUnit s → IsPaired t → IsPaired (escaped s ++ t)
unfolding escaped
escaped-IsPaired [] t h k = k
escaped-IsPaired (c ∷ []) t (u, h) k = singles-IsPaired (escape_unit c) t (escape-IsSingle c u) k
escaped-IsPaired (c ∷ d ∷ s) t (u, (v, h)) k =
    let after_one = escaped-IsPaired (d ∷ s) t (v, h) k in
    let after_pair = escaped-IsPaired s t h k in
    elim (Bool-cases (is_high_surrogate c && is_low_surrogate d)) [
      | inl pair ↦ rw pair (pair-IsPaired c d (escaped s ++ t) pair after_pair)
      | inr one ↦ rw one (
          subst IsPaired (sym (append_assoc (escape_unit c) (escaped (d ∷ s)) t)) (
            singles-IsPaired (escape_unit c) (escaped (d ∷ s) ++ t) (escape-IsSingle c u)
              after_one))
    ]

-- A quoted text in front of a text
pub quoted-IsPaired : (s t : Text) → All IsUnit s → IsPaired t → IsPaired (quoted s ++ t)
unfolding quoted
quoted-IsPaired s t h k =
    single-IsPaired 34 ((escaped s ++ (34 ∷ [])) ++ t) (ascii-IsSingle 34 (omega arith)) (
      subst IsPaired (sym (append_assoc (escaped s) (34 ∷ []) t))
        (escaped-IsPaired s (34 ∷ t) h (single-IsPaired 34 t (ascii-IsSingle 34 (omega arith)) k)))
