-- ===== src/Json.antt =====
-- The values that the server's code handles as `unknown`: JSON values and `undefined`.
-- Numbers are integers. The fields of an object are in the order of `Object.keys`; a key stands once.
pub mod Stringify
pub mod Canonical
pub mod Parse
use elydora_open_source.Prelude.{ℕ, Bool, List, if◌then◌else◌}
use elydora_open_source.Prelude.Texts.{Text, text_eq}

-- `negsuc n` is -(n + 1).
pub data ℤ : Type 0 where
  pos : ℕ → ℤ
  negsuc : ℕ → ℤ

mutual
  pub data Json : Type 0 where
    undefined : Json
    null : Json
    boolean : Bool → Json
    number : ℤ → Json
    string : Text → Json
    array : Elements → Json
    object : Fields → Json

  pub data Elements : Type 0 where
    nil : Elements
    cons : Json → Elements → Elements

  pub data Fields : Type 0 where
    end : Fields
    field : Text → Json → Fields → Fields

-- The value of a field, or undefined
abbrev pub lookup : Text → Fields → Json
lookup k end = undefined
lookup k (field name v fs) = let rest = lookup k fs in if text_eq name k then v else rest

-- v.k, where v is not null
abbrev pub member : Text → Json → Json
member k (object fs) = lookup k fs
member k _ = undefined
