-- ===== src/Worker/Anchored.antt =====
-- A time-stamp of an epoch is found with it: processTSA of Worker and getEpoch of Epochs.
use mathlib.Core.Path.{subst}
use elydora_open_source.Prelude.{
  ℕ, ◌≡◌, refl, ap, ◌∙◌, true, false, Option, none, some, List, [], ◌∷◌, ◌++◌, arith, find?, length,
  length-append, get_elem?, ◌==◌, ==_iff, Bool-cases, inl, inr,
}
use elydora_open_source.Prelude.Texts.{Text}
use elydora_open_source.Crypto.Base64.{base64url_encode, base64url_decode}
use elydora_open_source.Model.Errors.{Result, ok}
use elydora_open_source.Model.Entities.{Epoch}
use elydora_open_source.Model.World.{
  World, Anchor, Document, anchor_document, evidence_get, evidence_put,
}
use elydora_open_source.Epochs.{is_epoch, anchor_key, anchor_of, get_epoch}
use elydora_open_source.Worker.{
  Attempt, is_empty, store, url_or_default, anchor_path, stamp, process_tsa,
}
use elydora_open_source.Worker.Stamps.{
  Authority, request_prefix, request_suffix, build_time_stamp_req, request_timestamp,
}
use elydora_open_source.Worker.Exported.{get-put}

abbrev pub anchor : Attempt → Option Text → List ℕ → Anchor
anchor a tsa_url token = record {
  tsa_token = some (base64url_encode token);
  tsa_url = some (url_or_default tsa_url);
  anchored_at = some a.built_at;
}

anchor_of-text :
    (t : Text) (url : Option Text) (at : Option ℕ)
    → is_empty t ≡ false
    → anchor_of (anchor_document (record { tsa_token = some t; tsa_url = url; anchored_at = at }))
      ≡ some (record { tsa_token = some t; tsa_url = url; anchored_at = at })
unfolding anchor_of
anchor_of-text [] url at h = cc
anchor_of-text (c ∷ t) url at h = refl

anchor_of-token :
    (a : Attempt) (url : Option Text) (token : List ℕ)
    → is_empty (base64url_encode token) ≡ false
    → anchor_of (anchor_document (anchor a url token)) ≡ some (anchor a url token)
anchor_of-token a url token h =
    anchor_of-text (base64url_encode token) (some (url_or_default url)) (some a.built_at) h

module _ (fetch : Authority) (url : Option Text) where
  stamp-some :
      (root : Text) (bytes token : List ℕ)
      → base64url_decode root ≡ some bytes
      → request_timestamp fetch (url_or_default url) bytes ≡ some token
      → stamp fetch url root ≡ some token
  unfolding stamp
  stamp-some root bytes token h k = rw (h, stamp, k) refl

  tsa-stored :
      (a : Attempt) (root key : Text) (token : List ℕ) (w : World)
      → is_empty root ≡ false
      → is_empty key ≡ false
      → a.store_accepts ≡ true
      → stamp fetch url root ≡ some token
      → process_tsa fetch url a (some root) key w ≡ (
        ok tt,
        record w {
          evidence =
              evidence_put (anchor_path key) (anchor_document (anchor a url token)) w.evidence;
        },
      )
  unfolding process_tsa store
  tsa-stored a [] key token w r k h s = cc
  tsa-stored a (c ∷ root) [] token w r k h s = cc
  tsa-stored a (c ∷ root) (d ∷ key) token w r k h s = rw (s, process_tsa, h) refl

get_epoch-found :
    (id org : Text) (e : Epoch) (d : Document) (w : World)
    → find? (is_epoch id org) w.db.epochs ≡ some e
    → evidence_get (anchor_key e) w.evidence ≡ some d
    → get_epoch id org w ≡ ok (e, anchor_of d)
unfolding get_epoch
get_epoch-found id org e d w h k = rw (h, get_epoch, k) refl

abbrev answered : Epoch → Option Anchor → Result (Epoch × Option Anchor)
answered e o = ok (e, o)

-- After the job that stamps an epoch, the epoch is answered with the anchor.
pub stamped_answered :
    (fetch : Authority) (url : Option Text) (a : Attempt) (id org root : Text) (e : Epoch)
    → (bytes token : List ℕ) (w : World) → find? (is_epoch id org) w.db.epochs ≡ some e
    → e.root_hash ≡ some root
    → is_empty root ≡ false
    → is_empty e.r2_epoch_key ≡ false
    → base64url_decode root ≡ some bytes
    → request_timestamp fetch (url_or_default url) bytes ≡ some token
    → is_empty (base64url_encode token) ≡ false
    → a.store_accepts ≡ true
    → get_epoch id org (process_tsa fetch url a e.root_hash e.r2_epoch_key w).1
      ≡ ok (e, some (anchor a url token))
unfolding anchor_key anchor_path
stamped_answered fetch url a id org root e bytes token w found hash given path decoded stamped full
      accepts =
    let document = anchor_document (anchor a url token) in
    let stored =
      ap (λ (o : Option Text). process_tsa fetch url a o e.r2_epoch_key w) hash
      ∙ tsa-stored fetch url a root e.r2_epoch_key token w given path accepts
          (stamp-some fetch url root bytes token decoded stamped) in
    let after = record w {
      evidence = evidence_put (anchor_path e.r2_epoch_key) document w.evidence;
    } in
    ap (λ (z : Result (Unit {0}) × World). get_epoch id org z.1) stored
    ∙ get_epoch-found id org e document after found
        (get-put (anchor_path e.r2_epoch_key) document w.evidence)
    ∙ ap (answered e) (anchor_of-token a url token full)

some-injective : (s t : List ℕ) → some s ≡ some t → s ≡ t
some-injective s t h = ground arith

none-some : (t : List ℕ) → none ≡ some t → ⊥
none-some t h = cc

-- A request to the authority has 59 bytes, and says so: a sequence of as many bytes as follow.
pub build_time_stamp_req-length :
    (hash req : List ℕ)
    → build_time_stamp_req hash ≡ some req
    → (length req ≡ 59) × (get_elem? req 1 ≡ some 57)
unfolding build_time_stamp_req
build_time_stamp_req-length hash req h = elim (Bool-cases (length hash == 32)) [
  | inl full ↦
      let whole : request_prefix ++ (hash ++ request_suffix) ≡ req =
        some-injective (request_prefix ++ (hash ++ request_suffix)) req (rw full at h) in
      let counted = length-append hash request_suffix in
      let size : length hash ≡ 32 = (==_iff (length hash) 32).0 full in
      subst (λ (r : List ℕ). (length r ≡ 59) × (get_elem? r 1 ≡ some 57)) whole
        (omega (arith, counted, size), refl)
  | inr other ↦ absurd (none-some req (rw other at h))
]
