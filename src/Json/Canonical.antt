-- ===== src/Json/Canonical.antt =====
-- JSON Canonicalization Scheme: `jcsCanonicalise` of packages/server/src/utils/crypto.ts.
use elydora_open_source.Prelude.{Option, none, some, List, [], ◌∷◌, ◌++◌}
use elydora_open_source.Prelude.Texts.{Text, codes}
use elydora_open_source.Prelude.Sorting.{sort_by}
use elydora_open_source.Json.{
  Json, undefined, null, boolean, number, string, array, object, Elements, nil, cons, Fields, end,
  field,
}
use elydora_open_source.Json.Stringify.{decimal_ℤ, quoted, join, boolean_text}

-- A field with its canonical value; a field that is `undefined` has none.
pub record Entry : Type 0 where
  pub name : Text
  pub text : Option Text

abbrev pub entry_name : Entry → Text
entry_name e = e.name

-- The loop over the sorted keys: a field that is `undefined` is skipped.
unfoldable pub pairs : List Entry → List Text
pairs [] = []
pairs (e ∷ es) = elim e.text [ none ↦ pairs es | some t ↦ (quoted e.name ++ b':' ∷ t) ∷ pairs es ]

unfoldable mutual
  pub jcs_canonicalise : Json → Text
  jcs_canonicalise undefined = codes "null"
  jcs_canonicalise null = codes "null"
  jcs_canonicalise (boolean b) = boolean_text b
  jcs_canonicalise (number n) = decimal_ℤ n
  jcs_canonicalise (string s) = quoted s
  jcs_canonicalise (array xs) = b'[' ∷ join (canonical_elements xs) ++ b']' ∷ []
  jcs_canonicalise (object fs) =
      b'{' ∷ join (pairs (sort_by entry_name (canonical_fields fs))) ++ b'}' ∷ []

  pub canonical_elements : Elements → List Text
  canonical_elements nil = []
  canonical_elements (cons x xs) = jcs_canonicalise x ∷ canonical_elements xs

  pub canonical_fields : Fields → List Entry
  canonical_fields end = []
  canonical_fields (field k undefined fs) = record { name = k; text = none } ∷ canonical_fields fs
  canonical_fields (field k v fs) =
      record { name = k; text = some (jcs_canonicalise v) } ∷ canonical_fields fs
