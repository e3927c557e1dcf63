-- ===== src/Fleet/Threshold.antt =====
-- When a maintenance ticket of backend/src/services/fleetService.js needs the MD, by its estimated
-- cost and the configured threshold, in numbers.
use renuzi_ops_platform.Prelude.{
  ℤ, pos, ltb_ℤ, eq_ℤ, ◌≤ℤ◌, eq_of_parts, ◌≡◌, ◌≢◌, ◌⊎◌, ap, Bool, true, false, Option, none, some,
  inl, inr, arith, Bool-cases,
}
use renuzi_ops_platform.Fleet.Maintenance.{above, ticket_needs_md}

-- A cost, other than 0, that is greater than the threshold.
abbrev pub IsAbove : Option ℤ → ℤ → Type 0
IsAbove none threshold = ⊥
IsAbove (some cost) threshold = (cost ≢ pos 0) × (¬ (cost ≤ℤ threshold))

-- No cost, a cost of 0, or one up to the threshold.
abbrev pub IsWithin : Option ℤ → ℤ → Type 0
IsWithin none threshold = Unit {0}
IsWithin (some cost) threshold = (cost ≡ pos 0) ⊎ (cost ≤ℤ threshold)

abbrev pub Needs : Bool → Option ℤ → ℤ → Type 0
Needs true = IsAbove
Needs false = IsWithin

pub above-Needs : (cost threshold : ℤ) → Needs (above cost threshold) (some cost) threshold
above-Needs cost threshold = elim (Bool-cases (eq_ℤ cost (pos 0))) [
  | inl zero_cost ↦ rw zero_cost (inl (eq_of_parts cost (pos 0) (ground arith)))
  | inr other ↦ rw other (elim (Bool-cases (ltb_ℤ threshold cost)) [
    | inl more ↦ rw more (
      (λ same. let e : eq_ℤ cost (pos 0) ≡ true = ap (λ c. eq_ℤ c (pos 0)) same in cc),
      (λ less. ground arith),
    )
    | inr less ↦ rw less (inr (ground arith))
  ])
]

pub ticket_needs_md-Needs :
    (cost : Option ℤ) (threshold : ℤ) → Needs (ticket_needs_md cost threshold) cost threshold
ticket_needs_md-Needs none threshold = tt
ticket_needs_md-Needs (some cost) threshold = above-Needs cost threshold
