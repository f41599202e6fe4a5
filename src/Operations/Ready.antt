-- ===== src/Operations/Ready.antt =====
-- Prepared operations against a table that grows: `prepare` and `commit` of Operations/Submit.
use mathlib.Core.Path.{subst}
use mathlib.Core.Bool.{false≢true}
use elydora_open_source.Prelude.{
  ℕ, ◌≤◌, ◌≡◌, refl, sym, ◌∙◌, inl, inr, some, List, ◌∷◌, arith, ltb, Bool-cases,
}
use elydora_open_source.Prelude.Texts.{text_eq, eq_iff}
use elydora_open_source.Crypto.Platform.{Platform, compute_chain_hash}
use elydora_open_source.Model.Errors.{Result, ok, error, fault}
use elydora_open_source.Model.Errors
use elydora_open_source.Model.Entities.{Operation, Eor}
use elydora_open_source.Model.Tables.{latest, Database}
use elydora_open_source.Model.World.{World}
use elydora_open_source.Operations.Eor.{RawEor}
use elydora_open_source.Operations.Checks.{
  expected_prev_hash, next_seq_no, check_prev_hash, check_eor, check_agent, check_key,
  check_signature,
}
use elydora_open_source.Operations.Submit.{Request, Pending, build_operation, prepare}
use elydora_open_source.Operations.Prepared.{prepare-Prepared}
use elydora_open_source.Operations.Committed.{Inserted}
use elydora_open_source.Operations.Chain.{Extends, IsChained, latest-Extends, latest_other, taken}

module _ (p : Platform) where
  -- A prepared operation against a table that may have grown since: its number is not above the
  -- next one, and if it is the next one, it is linked to the last hash.
  pub record IsReady (o : Operation) (os : List Operation) : Type 0 where
    pub positive : 1 ≤ o.seq_no
    pub bounded : o.seq_no ≤ next_seq_no (latest o.agent_id os)
    pub linked :
        o.seq_no ≡ next_seq_no (latest o.agent_id os)
        → o.prev_chain_hash ≡ expected_prev_hash (latest o.agent_id os)
    pub hashed :
        o.chain_hash
        ≡ compute_chain_hash p o.prev_chain_hash o.payload_hash o.operation_id o.issued_at

  check_eor-prev :
      (e : Eor) (db : Database) (n : ℕ) → check_eor p e db ≡ ok n → check_prev_hash e db ≡ ok n
  unfolding check_eor
  check_eor-prev e db n h =
      let (u, a, h1) =
        Errors.>>=-eq-ok (check_agent e db)
          (λ _.
            Errors.◌>>=◌ (check_key e db)
              (λ k. Errors.◌>>=◌ (check_signature p e k) (λ _. check_prev_hash e db)))
          n h in
      let (k, b, h2) =
        Errors.>>=-eq-ok (check_key e db)
          (λ k. Errors.◌>>=◌ (check_signature p e k) (λ _. check_prev_hash e db)) n h1 in
      let (v, c, h3) = Errors.>>=-eq-ok (check_signature p e k) (λ _. check_prev_hash e db) n h2 in
      h3

  build-IsReady :
      (t : ℕ) (e : Eor) (db : Database) (n : ℕ)
      → check_prev_hash e db ≡ ok n
      → IsReady (build_operation p t e n) db.operations
  unfolding check_prev_hash build_operation
  build-IsReady t e db n h =
      let next : n ≡ next_seq_no (latest e.agent_id db.operations) = ground arith in
      let link : e.prev_chain_hash ≡ expected_prev_hash (latest e.agent_id db.operations) =
        ground (
          arith,
          eq_iff e.prev_chain_hash (expected_prev_hash (latest e.agent_id db.operations)),
        ) in
      record { positive = ground arith; bounded = omega arith; linked = λ _. link; hashed = refl }

  -- A successful preparation read a table to which its operation belongs.
  pub prepare-IsReady :
      (r : Request) (raw : RawEor) (w : World) (s : Pending)
      → (prepare p r raw w).0 ≡ ok s
      → IsReady s.operation w.db.operations
  prepare-IsReady r raw w s h =
      let q = prepare-Prepared p r raw w s h in
      rw q.result (
        build-IsReady r.received_at q.eor w.db q.seq_no
          (check_eor-prev q.eor w.db q.seq_no q.checked))

  -- The next operation of any agent leaves it ready.
  pub Extends-IsReady :
      (o : Operation) (x : Operation) (os : List Operation)
      → Extends p x os
      → IsReady o os
      → IsReady o (x ∷ os)
  Extends-IsReady o x os e h = elim (Bool-cases (text_eq x.agent_id o.agent_id)) [
    | inr other ↦ record {
      positive = h.positive;
      bounded = rw (latest_other p o.agent_id x os other) h.bounded;
      linked = rw (latest_other p o.agent_id x os other) h.linked;
      hashed = h.hashed;
    }
    | inl same ↦
        let agent : x.agent_id ≡ o.agent_id = (eq_iff x.agent_id o.agent_id).0 same in
        let last : latest o.agent_id (x ∷ os) ≡ some x =
          subst (λ b. latest b (x ∷ os) ≡ some x) agent (latest-Extends p x os e) in
        let number : x.seq_no ≡ next_seq_no (latest o.agent_id os) =
          subst (λ b. x.seq_no ≡ next_seq_no (latest b os)) agent e.numbered in
        record {
          positive = h.positive;
          bounded = rw last (omega (arith, h.bounded, number));
          linked = rw last (λ n. absurd (omega (arith, h.bounded, number, n)));
          hashed = h.hashed;
        }
  ]

module _ (p : Platform) where
  -- A ready operation whose id and number are free continues the chain.
  pub ready-Extends :
      (s : Pending) (db db' : Database)
      → IsChained p db.operations
      → IsReady p s.operation db.operations
      → Inserted s db db'
      → Extends p s.operation db.operations
  ready-Extends s db db' c h i =
      let last = latest s.operation.agent_id db.operations in
      let next : s.operation.seq_no ≡ next_seq_no last =
        elim (Bool-cases (ltb s.operation.seq_no (next_seq_no last))) [
          | inl below ↦
              let gone =
                taken p s.operation.agent_id s.operation.seq_no db.operations c h.positive
                  (ground arith) in
              absurd (false≢true (sym i.number_free ∙ gone))
          | inr not_below ↦ ground (arith, h.bounded)
        ] in
      record { numbered = next; linked = h.linked next; hashed = h.hashed; new_id = i.id_free }
