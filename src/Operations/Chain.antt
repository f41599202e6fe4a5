-- ===== src/Operations/Chain.antt =====
-- The chain that the operations of an agent form: what the table satisfies, and what follows.
use mathlib.Core.Path.{subst}
use elydora_open_source.Prelude.{
  ℕ, ◌+◌, ◌≤◌, ◌<◌, ◌≡◌, ap, ◌∙◌, inl, inr, true, false, some, List, [], ◌∷◌, arith, ltb, ◌==◌, any,
  Bool-cases, Option-cases,
}
use elydora_open_source.Prelude.Texts.{Text, text_eq, eq_iff, eq_refl}
use elydora_open_source.Crypto.Platform.{Platform, compute_chain_hash}
use elydora_open_source.Model.Entities.{Operation}
use elydora_open_source.Model.Tables.{latest, is_step, has_operation_id}
use elydora_open_source.Operations.Checks.{expected_prev_hash, next_seq_no}

module _ (p : Platform) where
  -- An operation continues the chain of its agent: the next number, the last hash, a hash of its
  -- own over its fields, and a new id.
  pub record Extends (o : Operation) (os : List Operation) : Type 0 where
    pub numbered : o.seq_no ≡ next_seq_no (latest o.agent_id os)
    pub linked : o.prev_chain_hash ≡ expected_prev_hash (latest o.agent_id os)
    pub hashed :
        o.chain_hash
        ≡ compute_chain_hash p o.prev_chain_hash o.payload_hash o.operation_id o.issued_at
    pub new_id : any (has_operation_id o.operation_id) os ≡ false

  -- A table that grew by such operations alone; the newest row stands first.
  abbrev pub IsChained : List Operation → Type 0
  IsChained [] = Unit
  IsChained (o ∷ os) = Extends o os × IsChained os

  -- An operation that continues the chain becomes the latest of its agent.
  pub latest-Extends :
      (o : Operation) (os : List Operation) → Extends o os → latest o.agent_id (o ∷ os) ≡ some o
  unfolding latest
  latest-Extends o os x = elim (Option-cases (latest o.agent_id os)) [
    | inl first ↦ rw (eq_refl o.agent_id, first)
    | inr (q, found) ↦
        let n : o.seq_no ≡ q.seq_no + 1 = x.numbered ∙ ap next_seq_no found in
        let newer : ltb q.seq_no o.seq_no ≡ true = ground arith in
        rw (eq_refl o.agent_id, found, newer)
  ]

  pub latest_other :
      (a : Text) (o : Operation) (os : List Operation)
      → text_eq o.agent_id a ≡ false
      → latest a (o ∷ os) ≡ latest a os
  unfolding latest
  latest_other a o os h = rw h

  -- The numbers below the next one are all taken.
  pub taken :
      (a : Text) (n : ℕ) (os : List Operation)
      → IsChained os
      → 1 ≤ n
      → n < next_seq_no (latest a os)
      → any (is_step a n) os ≡ true
  taken a n [] c h k = unfold latest in absurd (omega arith)
  taken a n (o ∷ os) (x, c) h k = elim (Bool-cases (text_eq o.agent_id a)) [
    | inr other ↦ rw other (taken a n os c h (rw (latest_other a o os other) at k))
    | inl mine ↦
        let same : o.agent_id ≡ a = (eq_iff o.agent_id a).0 mine in
        let last : latest a (o ∷ os) ≡ some o =
          subst (λ b. latest b (o ∷ os) ≡ some o) same (latest-Extends o os x) in
        let below : n < o.seq_no + 1 = rw last at k in
        elim (Bool-cases (o.seq_no == n)) [
          | inl here ↦ rw (mine, here)
          | inr there ↦
              let next : o.seq_no ≡ next_seq_no (latest a os) =
                subst (λ b. o.seq_no ≡ next_seq_no (latest b os)) same x.numbered in
              let rest : any (is_step a n) os ≡ true = taken a n os c h (ground arith) in
              rw rest (ground arith)
        ]
  ]
