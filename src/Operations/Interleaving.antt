-- ===== src/Operations/Interleaving.antt =====
-- Concurrent submissions: requests whose parts run in any order, among other changes of the world.
use mathlib.Core.Path.{subst}
use elydora_open_source.Prelude.{
  ◌≡◌, sym, ap, inl, inr, List, ◌∷◌, ◌++◌, arith, All, All-append, All-left, All-right, All-imp,
}
use elydora_open_source.Crypto.Platform.{Platform}
use elydora_open_source.Model.Errors.{ok}
use elydora_open_source.Model.Entities.{Operation}
use elydora_open_source.Model.World.{World}
use elydora_open_source.Operations.Eor.{RawEor}
use elydora_open_source.Operations.Submit.{
  Request, Pending, check_nonce, store_evidence, prepare, commit,
}
use elydora_open_source.Operations.Committed.{commit-cases}
use elydora_open_source.Operations.Ready.{IsReady, prepare-IsReady, Extends-IsReady, ready-Extends}
use elydora_open_source.Operations.Chain.{IsChained}

module _ (p : Platform) where
  -- The tables and the submissions under way.
  pub record System : Type 0 where
    pub world : World
    pub pending : List Pending

  -- One submission is prepared or refused, one that is under way is committed, or something else
  -- changes the world without touching the table of operations. A committed submission may stand
  -- anywhere in the list.
  pub data Step : System → System → Type 0 where
    begin :
        (r : Request) (raw : RawEor) (s : Pending) (y : System)
        → (prepare p r raw y.world).0 ≡ ok s
        → Step y (record { world = (prepare p r raw y.world).1; pending = s ∷ y.pending })
    refuse :
        (r : Request) (raw : RawEor) (y : System)
        → Step y (record y { world = (prepare p r raw y.world).1 })
    finish :
        (r : Request) (s : Pending) (before after : List Pending) (w : World)
        → Step
            (record { world = w; pending = before ++ (s ∷ after) })
            (record { world = (commit r s w).1; pending = before ++ after })
    other :
        (y : System) (w : World)
        → w.db.operations ≡ y.world.db.operations
        → Step y (record y { world = w })

  pub data Reach (y : System) : System → Type 0 where
    here : Reach y y
    next : {z z' : System} → Reach y z → Step z z' → Reach y z'

  abbrev AllReady : List Pending → List Operation → Type 0
  AllReady ss os = All (λ (s : Pending). IsReady p s.operation os) ss

  -- The table is chained, and every submission under way is ready for it.
  pub record IsConsistent (y : System) : Type 0 where
    pub chained : IsChained p y.world.db.operations
    pub ready : AllReady y.pending y.world.db.operations

  prepare-operations :
      (r : Request) (raw : RawEor) (w : World)
      → w.db.operations ≡ (prepare p r raw w).1.db.operations
  unfolding prepare check_nonce store_evidence
  prepare-operations r raw w = ground arith

  IsConsistent-same :
      (w w' : World) (ss : List Pending)
      → w.db.operations ≡ w'.db.operations
      → IsChained p w.db.operations
      → AllReady ss w.db.operations
      → IsConsistent (record { world = w'; pending = ss })
  IsConsistent-same w w' ss e c h = record {
    chained = subst (IsChained p) e c;
    ready = subst (AllReady ss) e h;
  }

  drop-ready :
      (s : Pending) (before after : List Pending) (os : List Operation)
      → AllReady (before ++ (s ∷ after)) os
      → AllReady (before ++ after) os
  drop-ready s before after os h =
      let P = λ (s : Pending). IsReady p s.operation os in
      All-append P before after (All-left P before (s ∷ after) h)
        (All-right P before (s ∷ after) h).1

  finish-IsConsistent :
      (r : Request) (s : Pending) (before after : List Pending) (w : World)
      → IsConsistent (record { world = w; pending = before ++ (s ∷ after) })
      → IsConsistent (record { world = (commit r s w).1; pending = before ++ after })
  finish-IsConsistent r s before after w c =
      let P = λ (s : Pending). IsReady p s.operation w.db.operations in
      let rest = drop-ready s before after w.db.operations c.ready in
      elim (commit-cases r s w) [
        | inl same ↦
            IsConsistent-same w (commit r s w).1 (before ++ after)
              (ap (λ (v : World). v.db.operations) (sym same)) c.chained rest
        | inr (answer, i, evidence) ↦
            let mine = (All-right P before (s ∷ after) c.ready).0 in
            let x = ready-Extends p s w.db (commit r s w).1.db c.chained mine i in
            record {
              chained = subst (IsChained p) (sym i.added) (x, c.chained);
              ready = subst (AllReady (before ++ after)) (sym i.added) (
                  All-imp P (λ (t : Pending). IsReady p t.operation (s.operation ∷ w.db.operations))
                    (before ++ after)
                    (λ t h. Extends-IsReady p t.operation s.operation w.db.operations x h) rest);
            }
      ]

  Step-IsConsistent : {y z : System} → Step y z → IsConsistent y → IsConsistent z
  Step-IsConsistent (begin r raw s y h) c =
      IsConsistent-same y.world (prepare p r raw y.world).1 (s ∷ y.pending)
        (prepare-operations r raw y.world) c.chained (prepare-IsReady p r raw y.world s h, c.ready)
  Step-IsConsistent (refuse r raw y) c =
      IsConsistent-same y.world (prepare p r raw y.world).1 y.pending
        (prepare-operations r raw y.world) c.chained c.ready
  Step-IsConsistent (finish r s before after w) c = finish-IsConsistent r s before after w c
  Step-IsConsistent (other y w same) c =
      IsConsistent-same y.world w y.pending (sym same) c.chained c.ready

  -- However the parts of concurrent submissions interleave, with each other and with requests that
  -- leave the table of operations alone, a chained table stays chained.
  pub Reach-IsConsistent : {y z : System} → IsConsistent y → Reach y z → IsConsistent z
  Reach-IsConsistent c here = c
  Reach-IsConsistent c (next reach step) = Step-IsConsistent step (Reach-IsConsistent c reach)
