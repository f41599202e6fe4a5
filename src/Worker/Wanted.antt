-- ===== src/Worker/Wanted.antt =====
-- What the query of an export selects is what its request asks for: Worker.
use elydora_open_source.Prelude.{
  ℕ, ◌≤◌, ◌↔◌, ◌≡◌, refl, Bool, true, Option, none, some, [], ◌∷◌, arith, filter,
}
use elydora_open_source.Prelude.Texts.{Text, eq_iff}
use elydora_open_source.Model.Entities.{Operation}
use elydora_open_source.Json.{pos}
use elydora_open_source.Model.Tables.{Database}
use elydora_open_source.Exports.Requests.{or_null, Format}
use elydora_open_source.Worker.{Coercion, passes, bound_filter, selects, by_time, operations_for}
use elydora_open_source.Worker.Queries.{filter_json, query}

-- A filter of a request that is left out or empty lets every text pass.
abbrev pub Fits : Option Text → Text → Type 0
Fits none t = Unit
Fits (some []) t = Unit
Fits (some (c ∷ s)) t = t ≡ c ∷ s

-- What a request for an export asks for
abbrev pub IsWanted : Text → ℕ → ℕ → Option Text → Option Text → Operation → Type 0
IsWanted org start end agent type o =
    (o.org_id ≡ org)
    × (start ≤ o.created_at)
    × (o.created_at ≤ end)
    × Fits agent o.agent_id
    × Fits type o.operation_type

abbrev given : Option Text → Option Text
given none = none
given (some []) = none
given (some (c ∷ s)) = some (c ∷ s)

passes_iff : (f : Option Text) (t : Text) → (passes (given f) t ≡ true) ↔ Fits f t
passes_iff none t = (λ h. tt, λ h. refl)
passes_iff (some []) t = (λ h. tt, λ h. refl)
passes_iff (some (c ∷ s)) t = eq_iff t (c ∷ s)

bound_filter-given :
    (k : Coercion) (f : Option Text) → bound_filter k (or_null (filter_json f)) ≡ some (given f)
bound_filter-given k none = refl
bound_filter-given k (some []) = refl
bound_filter-given k (some (c ∷ s)) = refl

abbrev pub wanted : Text → ℕ → ℕ → Option Text → Option Text → Operation → Bool
wanted org start end agent type = selects org (pos start) (pos end) (given agent) (given type)

pub wanted_iff :
    (org : Text) (start end : ℕ) (agent type : Option Text) (o : Operation)
    → (wanted org start end agent type o ≡ true) ↔ IsWanted org start end agent type o
wanted_iff org start end agent type o =
    let (org_then, org_if) = eq_iff o.org_id org in
    let (agent_then, agent_if) = passes_iff agent o.agent_id in
    let (type_then, type_if) = passes_iff type o.operation_type in
    (
      λ h. (
        org_then (ground arith),
        ground arith,
        ground arith,
        agent_then (ground arith),
        type_then (ground arith),
      ),
      λ h.
          let (same, low, high, fits, fits') = h in
          let a = org_if same in let b = agent_if fits in let c = type_if fits' in ground arith,
    )

pub operations_for-query :
    (k : Coercion) (org : Text) (start end : ℕ) (agent type : Option Text) (f : Format)
    (db : Database)
    → operations_for k org (query start end agent type f) db
      ≡ some (by_time (filter (wanted org start end agent type) db.operations))
unfolding operations_for
operations_for-query k org start end agent type f db =
    rw (bound_filter-given k agent, bound_filter-given k type) refl
