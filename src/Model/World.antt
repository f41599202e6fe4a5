-- ===== src/Model/World.antt =====
-- What the services keep outside the process: the database, the object store, the cache and the
-- queue, with the adapters of packages/server/src/adapters. A service is an action on this world:
-- what it wrote before an error stays written.
use elydora_open_source.Prelude.{
  ◌≡◌, refl, ℕ, ◌+◌, ◌*◌, Bool, true, Option, none, some, List, [], ◌∷◌, ltb, if◌then◌else◌,
}
use elydora_open_source.Prelude.Texts.{Text, text_eq}
use elydora_open_source.Model.Errors.{AppError, Result, ok, error, fault}
use elydora_open_source.Model.Entities.{Eor, Ear, Eer}
use elydora_open_source.Model.Tables.{Database, done, failed}
use elydora_open_source.Model.Statements.{Statement, run_all}

-- A TSA anchor; its fields may be missing.
pub record Anchor : Type 0 where
  pub tsa_token : Option Text
  pub tsa_url : Option Text
  pub anchored_at : Option ℕ

-- What an object of the evidence store parses to. The services write the JSON text of such a
-- document and parse it on reading; `blob` is any object that is no such text.
pub data Document : Type 0 where
  eor_document : Eor → Document
  ear_document : Ear → Document
  epoch_document : Eer → List (Option Text) → List (List Text) → Document
  anchor_document : Anchor → Document
  blob : Text → Document

pub record Stored : Type 0 where
  pub key : Text
  pub document : Document

pub record CacheEntry : Type 0 where
  pub key : Text
  pub value : Text
  pub expires_at : Option ℕ

pub data Message : Type 0 where
  operation_message : (operation_id org_id agent_id : Text) → Message
  export_message : (export_id org_id query_params : Text) → Message
  tsa_message : (epoch_id org_id : Text) (root_hash : Option Text) (r2_epoch_key : Text) → Message

pub record Job : Type 0 where
  pub message_id : Text
  pub body : Message

pub record World : Type 0 where
  pub db : Database
  pub evidence : List Stored
  pub cache : List CacheEntry
  pub queue : List Job

-- r2.get(key)
unfoldable pub evidence_get : Text → List Stored → Option Document
evidence_get key [] = none
evidence_get key (s ∷ ss) =
    let rest = evidence_get key ss in if text_eq s.key key then some s.document else rest

-- r2.put(key, …) hides what was there.
unfoldable pub evidence_put : Text → Document → List Stored → List Stored
evidence_put key document ss = record { key = key; document = document } ∷ ss

abbrev is_live : ℕ → Option ℕ → Bool
is_live now none = true
is_live now (some t) = ltb now t

-- kv.get(key) at a time: an entry is gone from the time at which it expires.
unfoldable pub cache_get : ℕ → Text → List CacheEntry → Option Text
cache_get now key [] = none
cache_get now key (c ∷ cs) =
    let rest = cache_get now key cs in
    if text_eq c.key key then if is_live now c.expires_at then some c.value else none else rest

-- The expiry of an entry that is put at a time; a lifetime of 0 seconds is none.
abbrev expiry : ℕ → ℕ → Option ℕ
expiry now seconds = if ltb 0 seconds then some (now + seconds * 1000) else none

-- kv.put(key, value, { expirationTtl }) hides what was there.
unfoldable pub cache_put : ℕ → Text → Text → ℕ → List CacheEntry → List CacheEntry
cache_put now key value seconds cs =
    record { key = key; value = value; expires_at = expiry now seconds } ∷ cs

abbrev pub Exec {ℓ} : Type ℓ → Type ℓ
Exec A = World → Result A × World

module _ {ℓ} {A : Type ℓ} where
  abbrev pub pure : A → Exec A
  pure a w = (ok a, w)

  abbrev pub raise : AppError → Exec A
  raise e w = (error e, w)

  abbrev pub lift : Result A → Exec A
  lift r w = (r, w)

module _ {ℓ κ} {A : Type ℓ} {B : Type κ} where
  abbrev continue : Result A → (A → World → Result B × World) → World → Result B × World
  continue (ok a) f w = f a w
  continue (error e) f w = (error e, w)
  continue fault f w = (fault, w)

  infixl 5 ◌>>=◌
  abbrev pub ◌>>=◌ : Exec A → (A → World → Result B × World) → World → Result B × World
  ◌>>=◌ m f w = continue (m w).0 f (m w).1

-- db.batch(statements), whose failure is passed on as it is: all statements or none.
unfoldable pub batch : List Statement → Exec (Unit {0})
unfolding run_all
batch ss w = elim (run_all ss w.db) [
  | done db ↦ (ok tt, record w { db = db })
  | failed e ↦ (fault, w)
]

-- statement.run(), whose failure is passed on as it is
unfoldable pub execute : Statement → Exec (Unit {0})
execute s w = elim (s w.db) [ done db ↦ (ok tt, record w { db = db }) | failed e ↦ (fault, w) ]

-- Inversion of a chain of actions that returns a value.
bind-inv {ℓ κ} :
    {A : Type ℓ} {B : Type κ} (r : Result A) (f : A → World → Result B × World) (w : World) (b : B)
    → (continue r f w).0 ≡ ok b
    → (a : A) × (r ≡ ok a) × ((f a w).0 ≡ ok b)
bind-inv (ok a) f w b h = (a, refl, h)
bind-inv (error e) f w b h = cc
bind-inv fault f w b h = cc

pub >>=-eq-ok {ℓ κ} :
    {A : Type ℓ} {B : Type κ} (m : Exec A) (f : A → World → Result B × World) (w : World) (b : B)
    → ((m >>= f) w).0 ≡ ok b
    → (a : A) × ((m w).0 ≡ ok a) × ((f a (m w).1).0 ≡ ok b)
>>=-eq-ok m f w b h = bind-inv (m w).0 f (m w).1 b h
