-- ===== src/Prelude/Texts.antt =====
-- Texts as JavaScript has them: sequences of UTF-16 code units, with `===` and `<`.
use Prim.Native.Char.{code}
use Prim.Native.String.{String}
use Prim.Native.Nat.{ℕ}
use mathlib.Core.Path.{◌≡◌, refl}
use mathlib.Core.Logic.{◌↔◌}
use mathlib.Core.Bool.{Bool, true, false, ◌&&◌, ◌||◌}
use mathlib.Core.List.{List, [], ◌∷◌}
use native.Mathlib.Omega.{arith}
use elydora_open_source.Prelude.Tests.{◌==◌, ltb, leb, if◌then◌else◌}

abbrev pub Text : Type 0
Text = List ℕ

-- A literal of the source; the literals that the program uses are ASCII.
abbrev pub codes : String → Text
codes String.[] = []
codes (String.◌∷◌ c s) = code c ∷ codes s

-- The white space that `trim` removes.
unfoldable pub is_white : ℕ → Bool
is_white c =
    (leb 9 c && leb c 13)
    || c == 32
    || c == 160
    || c == 0x1680
    || (leb 0x2000 c && leb c 0x200a)
    || c == 0x2028
    || c == 0x2029
    || c == 0x202f
    || c == 0x205f
    || c == 0x3000
    || c == 0xfeff

-- s.trim()
unfoldable pub trim_start : Text → Text
unfolding is_white
trim_start [] = []
trim_start (c ∷ s) = let rest = trim_start s in if is_white c then rest else c ∷ s

unfoldable pub trim_end : Text → Text
unfolding is_white
trim_end [] = []
trim_end (c ∷ s) = elim (trim_end s) [
  | [] ↦ if is_white c then [] else c ∷ []
  | d ∷ rest ↦ c ∷ d ∷ rest
]

abbrev pub trim : Text → Text
trim s = trim_end (trim_start s)

-- s === t
unfoldable pub text_eq : Text → Text → Bool
text_eq [] [] = true
text_eq (a ∷ s) (b ∷ t) = a == b && text_eq s t
text_eq _ _ = false

-- s < t: by code units, a proper prefix first
unfoldable pub text_lt : Text → Text → Bool
text_lt [] [] = false
text_lt [] (b ∷ t) = true
text_lt (a ∷ s) [] = false
text_lt (a ∷ s) (b ∷ t) = ltb a b || (a == b && text_lt s t)

pub eq_refl : (s : Text) → text_eq s s ≡ true
unfolding text_eq
eq_refl [] = refl
eq_refl (a ∷ s) = ground (arith, eq_refl s)

eq_sound : (s t : Text) → text_eq s t ≡ true → s ≡ t
unfolding text_eq
eq_sound [] [] h = refl
eq_sound [] (b ∷ t) h = cc
eq_sound (a ∷ s) [] h = cc
eq_sound (a ∷ s) (b ∷ t) h = ground (arith, eq_sound s t)

pub eq_complete : (s t : Text) → s ≡ t → text_eq s t ≡ true
eq_complete s t e = rw e (eq_refl t)

pub eq_iff : (s t : Text) → (text_eq s t ≡ true) ↔ (s ≡ t)
eq_iff s t = (eq_sound s t, eq_complete s t)

pub lt_irrefl : (s : Text) → text_lt s s ≡ false
unfolding text_lt
lt_irrefl [] = refl
lt_irrefl (a ∷ s) = ground (arith, lt_irrefl s)

pub lt_trans : (s t u : Text) → text_lt s t ≡ true → text_lt t u ≡ true → text_lt s u ≡ true
unfolding text_lt
lt_trans [] [] u h k = cc
lt_trans [] (b ∷ t) [] h k = cc
lt_trans [] (b ∷ t) (c ∷ u) h k = refl
lt_trans (a ∷ s) [] u h k = cc
lt_trans (a ∷ s) (b ∷ t) [] h k = cc
lt_trans (a ∷ s) (b ∷ t) (c ∷ u) h k = ground (arith, lt_trans s t u)

-- Two texts neither of which is below the other are equal.
pub lt_total : (s t : Text) → text_lt s t ≡ false → text_lt t s ≡ false → s ≡ t
unfolding text_lt
lt_total [] [] h k = refl
lt_total [] (b ∷ t) h k = cc
lt_total (a ∷ s) [] h k = cc
lt_total (a ∷ s) (b ∷ t) h k = ground (arith, lt_total s t)

pub lt_asymm : (s t : Text) → text_lt s t ≡ true → text_lt t s ≡ false
unfolding text_lt
lt_asymm [] [] h = cc
lt_asymm [] (b ∷ t) h = refl
lt_asymm (a ∷ s) [] h = cc
lt_asymm (a ∷ s) (b ∷ t) h = ground (arith, lt_asymm s t)

-- `≤` is transitive, where `s ≤ t` says that `t` is not below `s`.
pub lt_le_trans : (s t u : Text) → text_lt t s ≡ false → text_lt u t ≡ false → text_lt u s ≡ false
unfolding text_lt
lt_le_trans [] [] [] h k = refl
lt_le_trans [] [] (c ∷ u) h k = refl
lt_le_trans [] (b ∷ t) [] h k = refl
lt_le_trans [] (b ∷ t) (c ∷ u) h k = refl
lt_le_trans (a ∷ s) [] u h k = cc
lt_le_trans (a ∷ s) (b ∷ t) [] h k = cc
lt_le_trans (a ∷ s) (b ∷ t) (c ∷ u) h k = ground (arith, lt_le_trans s t u)
