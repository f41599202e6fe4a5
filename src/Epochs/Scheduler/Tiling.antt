-- ===== src/Epochs/Scheduler/Tiling.antt =====
-- The windows of the epochs that the scheduler creates: runEpochCreation of Epochs/Scheduler.
use mathlib.Core.Path.{subst}
use mathlib.Core.Bool.{false≢true}
use elydora_open_source.Prelude.{
  ℕ, zero, suc, ◌+◌, ◌%◌, ◌≤◌, ◌<◌, ◌≡◌, refl, sym, ap, ◌∙◌, ◌⊎◌, inl, inr, Bool, true, false,
  Option, none, some, List, [], ◌∷◌, arith, any, get_elem?, Bool-cases,
}
use elydora_open_source.Prelude.Texts.{Text, eq_iff}
use elydora_open_source.Crypto.Platform.{Platform}
use elydora_open_source.Model.Errors.{Result, ok, error, fault, Result-cases}
use elydora_open_source.Model.Entities.{Operation, Epoch}
use elydora_open_source.Model.Tables.{DbResult-cases}
use elydora_open_source.Model.Statements.{insert_epoch}
use elydora_open_source.Model.World.{World, execute}
use elydora_open_source.Operations.Verify.{is_epoch_of}
use elydora_open_source.Epochs.{
  Roll, is_window, operations_in, unsigned_eer, epoch_row, sign_eer, build_tree, store_epoch,
  roll_up, roll_up_some, create_epoch,
}
use elydora_open_source.Epochs.Created.{create_epoch-IsRolled, create_epoch-idle, create_epoch-runs}
use elydora_open_source.Epochs.Scheduler.{
  epoch_interval_ms, epoch_end, epoch_start, Supply, announce, after_creation, schedule_org,
  schedule_orgs, run_epoch_creation,
}

-- The window of a run is the last whole interval before it.
pub window_bounds :
    (now : ℕ)
    → epoch_interval_ms ≤ now
    → (epoch_start now + epoch_interval_ms ≡ epoch_end now)
      × (epoch_start now % epoch_interval_ms ≡ 0)
      × (epoch_end now ≤ now)
      × (now < epoch_end now + epoch_interval_ms)
unfolding epoch_start epoch_end
window_bounds now h = omega arith

-- The epochs are of whole intervals, and no two of one organization have one window.
pub record IsInterval (e : Epoch) : Type 0 where
  pub starts : e.start_time % epoch_interval_ms ≡ 0
  pub ends : e.end_time ≡ e.start_time + epoch_interval_ms

abbrev pub IsTiled : List Epoch → Type 0
IsTiled [] = Unit
IsTiled (e ∷ es) =
    IsInterval e × (any (is_window e.org_id e.start_time e.end_time) es ≡ false) × IsTiled es

Tiled-cons :
    (e : Epoch) (es : List Epoch) (org_id : Text) (s t : ℕ)
    → e.org_id ≡ org_id
    → e.start_time ≡ s
    → e.end_time ≡ t
    → any (is_window org_id s t) es ≡ false
    → s % epoch_interval_ms ≡ 0
    → t ≡ s + epoch_interval_ms
    → IsTiled es
    → IsTiled (e ∷ es)
Tiled-cons e es org_id s t org start end absent starts ends tiled = (
  record {
    starts = ap (λ (n : ℕ). n % epoch_interval_ms) start ∙ starts;
    ends = omega (arith, start, end, ends);
  },
  ap (λ (x : Text × ℕ × ℕ). any (is_window x.0 x.1 x.2) es)
        (ap (λ (o : Text). (o, e.start_time, e.end_time)) org
          ∙ ap (λ (n : ℕ). (org_id, n, e.end_time)) start
          ∙ ap (λ (n : ℕ). (org_id, s, n)) end)
      ∙ absent,
  tiled,
)

-- Windows of whole intervals that share a time are one window.
windows_agree :
    (org_id : Text) (t : ℕ) (d e : Epoch)
    → IsInterval d
    → IsInterval e
    → is_epoch_of org_id t d ≡ true
    → is_epoch_of org_id t e ≡ true
    → is_window d.org_id d.start_time d.end_time e ≡ true
windows_agree org_id t d e a b h k =
    let orgs : e.org_id ≡ d.org_id =
      (eq_iff e.org_id org_id).0 (ground arith) ∙ sym ((eq_iff d.org_id org_id).0 (ground arith)) in
    let h1 : (d.start_time ≤ t) × (t < d.end_time) = ground arith in
    let k1 : (e.start_time ≤ t) × (t < e.end_time) = ground arith in
    let starts : e.start_time ≡ d.start_time =
      omega (arith, h1.0, h1.1, k1.0, k1.1, a.starts, a.ends, b.starts, b.ends) in
    let ends : e.end_time ≡ d.end_time = omega (arith, starts, a.ends, b.ends) in
    let same = (eq_iff e.org_id d.org_id).1 orgs in ground arith

any-get_elem? :
    (test : Epoch → Bool) (es : List Epoch) (i : ℕ) (e : Epoch)
    → any test es ≡ false
    → get_elem? es i ≡ some e
    → test e ≡ false
any-get_elem? test [] i e h there = absurd (ground arith)
any-get_elem? test (d ∷ es) zero e h there = ground arith
any-get_elem? test (d ∷ es) (suc i) e h there = any-get_elem? test es i e (ground arith) there

IsTiled-get_elem? :
    (es : List Epoch) (i : ℕ) (e : Epoch) → IsTiled es → get_elem? es i ≡ some e → IsInterval e
IsTiled-get_elem? [] i e h there = absurd (ground arith)
IsTiled-get_elem? (d ∷ es) zero e (a, b, c) there = subst IsInterval (ground arith) a
IsTiled-get_elem? (d ∷ es) (suc i) e (a, b, c) there = IsTiled-get_elem? es i e c there

-- The first epoch of a tiled list covers no time that another of its organization covers.
head_apart :
    (org_id : Text) (t : ℕ) (d e : Epoch) (es : List Epoch) (j : ℕ)
    → IsTiled (d ∷ es)
    → get_elem? es j ≡ some e
    → is_epoch_of org_id t d ≡ true
    → is_epoch_of org_id t e ≡ true
    → false ≡ true
head_apart org_id t d e es j (a, b, c) there h k =
    sym (any-get_elem? (is_window d.org_id d.start_time d.end_time) es j e b there)
    ∙ windows_agree org_id t d e a (IsTiled-get_elem? es j e c there) h k

-- Among tiled epochs, at most one of an organization covers a time.
pub one_epoch_covers :
    (es : List Epoch) (org_id : Text) (t i j : ℕ) (d e : Epoch)
    → IsTiled es
    → get_elem? es i ≡ some d
    → get_elem? es j ≡ some e
    → is_epoch_of org_id t d ≡ true
    → is_epoch_of org_id t e ≡ true
    → i ≡ j
one_epoch_covers [] org_id t i j d e tiled there here h k = absurd (ground arith)
one_epoch_covers (x ∷ es) org_id t zero zero d e tiled there here h k = refl
one_epoch_covers (x ∷ es) org_id t zero (suc j) d e tiled there here h k =
    let same : x ≡ d = ground arith in
    absurd (false≢true (head_apart org_id t x e es j tiled here (rw same h) k))
one_epoch_covers (x ∷ es) org_id t (suc i) zero d e tiled there here h k =
    let same : x ≡ e = ground arith in
    absurd (false≢true (head_apart org_id t x d es i tiled there (rw same k) h))
one_epoch_covers (x ∷ es) org_id t (suc i) (suc j) d e (a, b, c) there here h k =
    ap suc (one_epoch_covers es org_id t i j d e c there here h k)

after_creation-epochs :
    (s : Supply) (r : Result (Option Epoch)) (w : World)
    → (after_creation s r w).db.epochs ≡ w.db.epochs
unfolding announce
after_creation-epochs s (ok none) w = refl
after_creation-epochs s (ok (some e)) w = ground arith
after_creation-epochs s (error x) w = refl
after_creation-epochs s fault w = refl

module _ (p : Platform) where
  -- A creation leaves the rows alone, or returns.
  roll_up-cases :
      (c : Roll) (org_id : Text) (s t : ℕ) (ops : List Operation) (w : World)
      → ((roll_up p c org_id s t ops w).1.db.epochs ≡ w.db.epochs)
        ⊎ ((e : Epoch) × ((roll_up p c org_id s t ops w).0 ≡ ok e))
  unfolding roll_up store_epoch execute
  roll_up-cases c org_id s t ops w = elim (Result-cases (build_tree p ops)) [
    | inr (inl (x, e)) ↦ inl (rw e refl)
    | inr (inr e) ↦ inl (rw e refl)
    | inl (tree, e) ↦ elim (Result-cases (sign_eer p c (unsigned_eer c org_id s t tree))) [
      | inr (inl (x, f)) ↦ inl (rw (e, f) refl)
      | inr (inr f) ↦ inl (rw (e, f) refl)
      | inl (eer, f) ↦ elim (DbResult-cases (insert_epoch (epoch_row c org_id s t tree) w.db)) [
        | inl (db, g) ↦ inr (epoch_row c org_id s t tree, rw (e, f, execute, g) refl)
        | inr (x, g) ↦ inl (rw (e, f, execute, g) refl)
      ]
    ]
  ]

  roll_up_some-cases :
      (c : Roll) (org_id : Text) (s t : ℕ) (ops : List Operation) (w : World)
      → ((roll_up_some p c org_id s t ops w).1.db.epochs ≡ w.db.epochs)
        ⊎ ((e : Epoch) × ((roll_up_some p c org_id s t ops w).0 ≡ ok (some e)))
  unfolding roll_up_some
  roll_up_some-cases c org_id s t [] w = inl refl
  roll_up_some-cases c org_id s t (o ∷ os) w =
      elim (Result-cases (roll_up p c org_id s t (o ∷ os) w).0) [
        | inl (e, returned) ↦ inr (e, rw returned refl)
        | inr (inl (x, failed')) ↦ inl (elim (roll_up-cases c org_id s t (o ∷ os) w) [
          | inl same ↦ rw failed' same
          | inr (e, returned) ↦ absurd (ground arith)
        ])
        | inr (inr failed') ↦ inl (elim (roll_up-cases c org_id s t (o ∷ os) w) [
          | inl same ↦ rw failed' same
          | inr (e, returned) ↦ absurd (ground arith)
        ])
      ]

  -- A creation leaves the rows alone, or adds one for a window that had none.
  create_epoch-cases :
      (c : Roll) (org_id : Text) (s t : ℕ) (w : World)
      → ((create_epoch p c org_id s t w).1.db.epochs ≡ w.db.epochs)
        ⊎ ((e : Epoch) × ((create_epoch p c org_id s t w).1.db.epochs ≡ e ∷ w.db.epochs)
            × (any (is_window org_id s t) w.db.epochs ≡ false)
            × (e.org_id ≡ org_id)
            × (e.start_time ≡ s)
            × (e.end_time ≡ t))
  unfolding epoch_row
  create_epoch-cases c org_id s t w = elim (Bool-cases (any (is_window org_id s t) w.db.epochs)) [
    | inl there ↦ inl (
        ap (λ (z : Result (Option Epoch) × World). z.1.db.epochs)
          (create_epoch-idle p c org_id s t w there))
    | inr absent ↦
        let ops = operations_in org_id s t w.db in
        let runs = create_epoch-runs p c org_id s t w absent in
        elim (roll_up_some-cases c org_id s t ops w) [
          | inl same ↦ inl (ap (λ (z : Result (Option Epoch) × World). z.1.db.epochs) runs ∙ same)
          | inr (e, returned) ↦
              let (absent', r) =
                create_epoch-IsRolled p c org_id s t w e
                  (ap (λ (z : Result (Option Epoch) × World). z.0) runs ∙ returned) in
              inr (
                e,
                r.added,
                absent,
                ap (λ (x : Epoch). x.org_id) r.row,
                ap (λ (x : Epoch). x.start_time) r.row,
                ap (λ (x : Epoch). x.end_time) r.row,
              )
        ]
  ]

  create_epoch-IsTiled :
      (c : Roll) (org_id : Text) (s t : ℕ) (w : World)
      → s % epoch_interval_ms ≡ 0
      → t ≡ s + epoch_interval_ms
      → IsTiled w.db.epochs
      → IsTiled (create_epoch p c org_id s t w).1.db.epochs
  create_epoch-IsTiled c org_id s t w starts ends tiled = elim (create_epoch-cases c org_id s t w) [
    | inl same ↦ subst IsTiled (sym same) tiled
    | inr (e, added, absent, org, start, end) ↦
        subst IsTiled (sym added)
          (Tiled-cons e w.db.epochs org_id s t org start end absent starts ends tiled)
  ]

  module _ (supply : Text → Supply) where
    schedule_org-epochs :
        (s t : ℕ) (org_id : Text) (w : World)
        → (schedule_org p supply s t org_id w).db.epochs
          ≡ (create_epoch p (supply org_id).roll org_id s t w).1.db.epochs
    unfolding schedule_org
    schedule_org-epochs s t org_id w =
        let made = create_epoch p (supply org_id).roll org_id s t w in
        after_creation-epochs (supply org_id) made.0 made.1

    schedule_orgs-IsTiled :
        (s t : ℕ) (orgs : List Text) (w : World)
        → s % epoch_interval_ms ≡ 0
        → t ≡ s + epoch_interval_ms
        → IsTiled w.db.epochs
        → IsTiled (schedule_orgs p supply s t orgs w).db.epochs
    unfolding schedule_orgs
    schedule_orgs-IsTiled s t [] w starts ends tiled = tiled
    schedule_orgs-IsTiled s t (org ∷ orgs) w starts ends tiled =
        schedule_orgs-IsTiled s t orgs (schedule_org p supply s t org w) starts ends (
          subst IsTiled (sym (schedule_org-epochs s t org w))
            (create_epoch-IsTiled (supply org).roll org s t w starts ends tiled))

    -- A run of the scheduler keeps the epochs tiled.
    pub run_epoch_creation-IsTiled :
        (now : ℕ) (w : World)
        → epoch_interval_ms ≤ now
        → IsTiled w.db.epochs
        → IsTiled (run_epoch_creation p supply now w).db.epochs
    unfolding run_epoch_creation
    run_epoch_creation-IsTiled now w h tiled =
        let (span, starts, past, near) = window_bounds now h in
        schedule_orgs-IsTiled (epoch_start now) (epoch_end now) _ w starts (sym span) tiled
