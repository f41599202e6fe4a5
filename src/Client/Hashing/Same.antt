-- ===== src/Client/Hashing/Same.antt =====
-- The client's hashes and texts are those of the server: Client/Hashing against Crypto/Platform,
-- Json/Canonical and Operations/Eor.
use elydora_open_source.Prelude.{
  ℕ, ◌≡◌, refl, ap, ◌∙◌, none, some, List, [], ◌∷◌, ◌++◌, map, Bool-cases, Option-cases, inl, inr,
}
use elydora_open_source.Prelude.Texts.{Text, text_lt}
use elydora_open_source.Prelude.Sorting.{sort_by, insert_by}
use elydora_open_source.Json.{
  Json, undefined, null, boolean, number, string, array, object, Elements, nil, cons, Fields, end,
  field,
}
use elydora_open_source.Json.Stringify.{join, quoted}
use elydora_open_source.Json.Canonical.{
  Entry, entry_name, pairs, jcs_canonicalise, canonical_elements, canonical_fields,
}
use elydora_open_source.Crypto.Platform.{
  Platform, sha256_base64url, compute_chain_hash, wrap_seed_as_pkcs8,
}
use elydora_open_source.Model.Entities.{Eor}
use elydora_open_source.Operations.Eor.{build_signable_eor}
use elydora_open_source.Client.Hashing.{
  Member, member_key, member_texts, canonical_json, element_texts, members, pkcs8_key, signable,
  hash_text, chain_hash_after,
}

abbrev entry_of : Member → Entry
entry_of m = record { name = m.key; text = m.text }

insert-entries :
    (m : Member) (ms : List Member)
    → map entry_of (insert_by member_key m ms) ≡ insert_by entry_name (entry_of m) (map entry_of ms)
unfolding insert_by
insert-entries m [] = refl
insert-entries m (n ∷ ms) = elim (Bool-cases (text_lt n.key m.key)) [
  | inl lt ↦ rw lt (ap (λ (es : List Entry). entry_of n ∷ es) (insert-entries m ms))
  | inr ge ↦ rw ge refl
]

sort-entries :
    (ms : List Member) → map entry_of (sort_by member_key ms) ≡ sort_by entry_name (map entry_of ms)
unfolding sort_by
sort-entries [] = refl
sort-entries (m ∷ ms) =
    insert-entries m (sort_by member_key ms)
    ∙ ap (insert_by entry_name (entry_of m)) (sort-entries ms)

texts-pairs : (ms : List Member) → member_texts ms ≡ pairs (map entry_of ms)
unfolding member_texts pairs
texts-pairs [] = refl
texts-pairs (m ∷ ms) = elim (Option-cases m.text) [
  | inl absent ↦ rw absent (texts-pairs ms)
  | inr (t, there) ↦
      rw there (ap (λ (ts : List Text). (quoted m.key ++ b':' ∷ t) ∷ ts) (texts-pairs ms))
]

abbrev entry : Text → Text → Entry
entry k t = record { name = k; text = some t }

joined :
    (k t t' : Text) (es es' : List Entry)
    → t ≡ t'
    → es ≡ es'
    → ◌≡◌ {A = List Entry} (entry k t ∷ es) (entry k t' ∷ es')
joined k t t' es es' h g =
    ap (λ (x : Text). entry k x ∷ es) h ∙ ap (λ (xs : List Entry). entry k t' ∷ xs) g

mutual
  unfolding canonical_json element_texts members jcs_canonicalise canonical_elements
      canonical_fields

  pub canonical-same : (v : Json) → canonical_json v ≡ jcs_canonicalise v
  canonical-same undefined = refl
  canonical-same null = refl
  canonical-same (boolean b) = refl
  canonical-same (number n) = refl
  canonical-same (string s) = refl
  canonical-same (array xs) =
      ap (λ (ts : List Text). b'[' ∷ join ts ++ b']' ∷ []) (elements-same xs)
  canonical-same (object fs) =
      ap (λ (ts : List Text). b'{' ∷ join ts ++ b'}' ∷ [])
        (texts-pairs (sort_by member_key (members fs))
          ∙ ap pairs (sort-entries (members fs) ∙ ap (sort_by entry_name) (fields-same fs)))

  elements-same : (xs : Elements) → element_texts xs ≡ canonical_elements xs
  elements-same nil = refl
  elements-same (cons x xs) =
      ap (λ (t : Text). t ∷ element_texts xs) (canonical-same x)
      ∙ ap (λ (ts : List Text). jcs_canonicalise x ∷ ts) (elements-same xs)

  fields-same : (fs : Fields) → map entry_of (members fs) ≡ canonical_fields fs
  fields-same end = refl
  fields-same (field k undefined fs) =
      ap (λ (es : List Entry). record { name = k; text = none } ∷ es) (fields-same fs)
  fields-same (field k null fs) =
      joined k (canonical_json null) (jcs_canonicalise null) (map entry_of (members fs))
        (canonical_fields fs) (canonical-same null) (fields-same fs)
  fields-same (field k (boolean b) fs) =
      joined k (canonical_json (boolean b)) (jcs_canonicalise (boolean b))
        (map entry_of (members fs)) (canonical_fields fs) (canonical-same (boolean b))
        (fields-same fs)
  fields-same (field k (number n) fs) =
      joined k (canonical_json (number n)) (jcs_canonicalise (number n)) (map entry_of (members fs))
        (canonical_fields fs) (canonical-same (number n)) (fields-same fs)
  fields-same (field k (string s) fs) =
      joined k (canonical_json (string s)) (jcs_canonicalise (string s)) (map entry_of (members fs))
        (canonical_fields fs) (canonical-same (string s)) (fields-same fs)
  fields-same (field k (array xs) fs) =
      joined k (canonical_json (array xs)) (jcs_canonicalise (array xs)) (map entry_of (members fs))
        (canonical_fields fs) (canonical-same (array xs)) (fields-same fs)
  fields-same (field k (object gs) fs) =
      joined k (canonical_json (object gs)) (jcs_canonicalise (object gs))
        (map entry_of (members fs)) (canonical_fields fs) (canonical-same (object gs))
        (fields-same fs)

pub signable-same : (e : Eor) → signable e ≡ build_signable_eor e
unfolding signable build_signable_eor
signable-same e = refl

pub key-same : (seed : List ℕ) → pkcs8_key seed ≡ wrap_seed_as_pkcs8 seed
unfolding pkcs8_key wrap_seed_as_pkcs8
key-same seed = refl

pub chain-same :
    (p : Platform) (prev payload id : Text) (t : ℕ)
    → chain_hash_after p prev payload id t ≡ compute_chain_hash p prev payload id t
unfolding chain_hash_after hash_text compute_chain_hash sha256_base64url
chain-same p prev payload id t = refl
