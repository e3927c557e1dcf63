-- ===== src/Fleet/Decisions.antt =====
-- The approvals of backend/src/services/fleetService.js: a fuel request is decided once, and a
-- maintenance ticket goes from PENDING over OPS_APPROVED to MD_APPROVED.
use renuzi_ops_platform.Prelude.{
  ℕ, ◌≡◌, refl, ap, ◌∙◌, true, false, none, some, first_row, update_rows, first_row-update_rows,
  Bool-cases, Option-cases, inl, inr,
}
use renuzi_ops_platform.Schema.{FuelRequest}
use renuzi_ops_platform.Payload.{Actor, http}
use renuzi_ops_platform.Database.{Db}
use renuzi_ops_platform.Exec.{ok, err, is_ok, ◌>>=◌}
use renuzi_ops_platform.Fleet.Fuel
use renuzi_ops_platform.Fleet.Fuel.{Decision, owned_request, decided, decide_fuel_request}

-- The table after a decision.
abbrev after_decision : Actor → ℕ → Decision → Db → Db
after_decision a k d db = record db {
  fuel_requests = update_rows (owned_request a.business_key k) (decided a d) db.fuel_requests;
}

module _ (a : Actor) (k : ℕ) (d : Decision) (db : Db) where
  decide-missing :
      first_row (owned_request a.business_key k) db.fuel_requests ≡ none
      → is_ok (decide_fuel_request a k d db).0 ≡ false
  unfolding decide_fuel_request ◌>>=◌
  decide-missing h = rw h refl

  decide-settled :
      (r : FuelRequest)
      → first_row (owned_request a.business_key k) db.fuel_requests ≡ some r
      → Fuel.is_pending r.approval_status ≡ false
      → decide_fuel_request a k d db ≡ (err (http 409 "Fuel request already decided"), db)
  unfolding decide_fuel_request ◌>>=◌
  decide-settled r h s = rw (h, s) refl

  decide-open :
      (r : FuelRequest)
      → first_row (owned_request a.business_key k) db.fuel_requests ≡ some r
      → Fuel.is_pending r.approval_status ≡ true
      → decide_fuel_request a k d db ≡ (ok tt, after_decision a k d db)
  unfolding decide_fuel_request ◌>>=◌
  decide-open r h s = rw (h, s) refl

-- A fuel request that has been decided, to anything but PENDING, is not decided again by anyone
-- of the business: the second decision is a 409 and writes nothing.
pub decide_fuel_request_once :
    (a b : Actor) (k : ℕ) (d e : Decision) (db : Db)
    → b.business_key ≡ a.business_key
    → Fuel.is_pending d.approval_status ≡ false
    → (decide_fuel_request a k d db).0 ≡ ok tt
    → decide_fuel_request b k e (decide_fuel_request a k d db).1
      ≡ (err (http 409 "Fuel request already decided"), (decide_fuel_request a k d db).1)
decide_fuel_request_once a b k d e db same settled h =
    elim (Option-cases (first_row (owned_request a.business_key k) db.fuel_requests)) [
      | inl missing ↦ let refused = decide-missing a k d db missing in let told = ap is_ok h in cc
      | inr (r, found) ↦ elim (Bool-cases (Fuel.is_pending r.approval_status)) [
        | inr old ↦
            let refused = decide-settled a k d db r found old in
            let told = ap is_ok h in let told' = ap (λ x. is_ok x.0) refused in cc
        | inl waiting ↦
            let done = ap (λ x. x.1) (decide-open a k d db r found waiting) in
            let there =
              first_row-update_rows (owned_request a.business_key k) (decided a d) db.fuel_requests
                (λ y. refl) found in
            let seen : first_row (owned_request b.business_key k)
                  (decide_fuel_request a k d db).1.fuel_requests
                ≡ some (decided a d r) =
              ap (λ n. first_row (owned_request n k) (decide_fuel_request a k d db).1.fuel_requests)
                same
              ∙ ap (λ x. first_row (owned_request a.business_key k) x.fuel_requests) done
              ∙ there in
            decide-settled b k e _ (decided a d r) seen settled
      ]
    ]
