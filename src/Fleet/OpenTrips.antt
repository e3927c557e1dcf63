-- ===== src/Fleet/OpenTrips.antt =====
-- The active-trip guard of startTrip (backend/src/services/fleetService.js).
use renuzi_ops_platform.Prelude.{
  ℕ, ℤ, ◌≤◌, ◌≤ℤ◌, ◌≡◌, refl, ap, Bool, true, false, ◌&&◌, Option, none, some, List, [], ◌∷◌, ◌++◌,
  arith, ◌==◌, first_row, count_rows, count_rows-append, count_rows-none, Bool-cases, inl, inr,
  Option-cases,
}
use mathlib.Core.Path.{subst}
use renuzi_ops_platform.Constants.{VehicleStatus, Dataset, upsert}
use renuzi_ops_platform.Schema.{Trip}
use renuzi_ops_platform.Payload.{Actor, Opts, TripStart}
use renuzi_ops_platform.Database.{Db}
use renuzi_ops_platform.Exec.{is_ok, ok, ◌>>=◌}
use renuzi_ops_platform.Exec.Preserves.{
  Relation, Preserves, holds-bind_read, holds-with_transaction, preserves_rules,
}
use renuzi_ops_platform.Schema.{Snapshot}
use renuzi_ops_platform.Database.{table, put_table}
use renuzi_ops_platform.Exec.{execute, identity, pure, ◌>>◌}
use renuzi_ops_platform.ChangeLog.{bump_table, log_row, record_change, record_upsert}
use renuzi_ops_platform.Guards.ReadOnly.{
  guard_rules, IsReadOnly-or_throw, IsReadOnly-get_owned_vehicle, IsReadOnly-resolve_date_key,
}
use renuzi_ops_platform.Fleet.Vehicles.{update_vehicles}
use renuzi_ops_platform.Fleet.Atomicity.{IsReadOnly-check_start}
use renuzi_ops_platform.Guards.{odometer_regressed, is_active_trip, find_active_trip}
use renuzi_ops_platform.Fleet.Vehicles.{check_odometer}
use renuzi_ops_platform.Fleet.Trips.{check_start, started_trip, start_trip}

module _ (a : Actor) (p : TripStart) (o : Opts) (current start : ℤ) (db : Db) where
  check_start-regressed :
      o.conflict_override ≡ false
      → odometer_regressed current start ≡ true
      → is_ok (check_start a p o current start db).0 ≡ false
  unfolding check_start check_odometer ◌>>=◌
  check_start-regressed off back = rw (off, back) refl

  check_start-open :
      (t : Trip)
      → o.conflict_override ≡ false
      → odometer_regressed current start ≡ false
      → first_row (is_active_trip a.business_key p.vehicle_key p.trip_key) db.trips ≡ some t
      → is_ok (check_start a p o current start db).0 ≡ false
  unfolding check_start check_odometer find_active_trip ◌>>=◌
  check_start-open t off fine found = rw (off, fine, found) refl

  check_start-ok :
      o.conflict_override ≡ false
      → (check_start a p o current start db).0 ≡ ok tt
      → (first_row (is_active_trip a.business_key p.vehicle_key p.trip_key) db.trips ≡ none)
        × (current ≤ℤ start)
  check_start-ok off h = elim (Bool-cases (odometer_regressed current start)) [
    | inl back ↦ let refused = check_start-regressed off back in let told = ap is_ok h in cc
    | inr fine ↦
        elim (Option-cases
          (first_row (is_active_trip a.business_key p.vehicle_key p.trip_key) db.trips)) [
            | inl empty ↦ (empty, ground arith)
            | inr (t, found) ↦
                let refused = check_start-open t off fine found in let told = ap is_ok h in cc
          ]
  ]

-- The vehicle of a business, and its open trips.
abbrev pub open_trips : ℕ → ℕ → Db → ℕ
open_trips b v db = count_rows (is_active_trip b v 0) db.trips

-- At most one trip of each vehicle is open, if it was so before.
abbrev keeps_one : ℕ → ℕ → Relation
keeps_one b v = record {
  holds = λ x y. open_trips b v x ≤ 1 → open_trips b v y ≤ 1;
  stays = λ db h. h;
  follows = λ f g h. g (f h);
  counts = λ db h. h;
}

count_single : (q : Trip → Bool) (t : Trip) → count_rows q (t ∷ []) ≤ 1
unfolding count_rows
count_single q t = ground arith

count_not : (q : Trip → Bool) (t : Trip) → q t ≡ false → count_rows q (t ∷ []) ≡ 0
unfolding count_rows
count_not q t e = rw e refl

-- The count after a trip of vehicle v' of business b' that has none open.
new_trip_count :
    (b v b' v' : ℕ) (t : Trip) (trips : List Trip)
    → t.business_key ≡ b'
    → t.vehicle_key ≡ v'
    → first_row (is_active_trip b' v' 0) trips ≡ none
    → count_rows (is_active_trip b v 0) trips ≤ 1
    → count_rows (is_active_trip b v 0) (trips ++ t ∷ []) ≤ 1
new_trip_count b v b' v' t trips tb tv empty h =
    let both = count_rows-append (is_active_trip b v 0) trips (t ∷ []) in
    elim (Bool-cases ((v' == v) && (b' == b))) [
      | inl same ↦
          let sb : b' ≡ b = ground arith in
          let sv : v' ≡ v = ground arith in
          let before =
            subst (λ n. first_row (is_active_trip n v 0) trips ≡ none) sb
              (subst (λ n. first_row (is_active_trip b' n 0) trips ≡ none) sv empty) in
          let zero_before = count_rows-none (is_active_trip b v 0) trips before in
          let one = count_single (is_active_trip b v 0) t in omega arith
      | inr other ↦
          let unseen : is_active_trip b v 0 t ≡ false = ground arith in
          let none_more = count_not (is_active_trip b v 0) t unseen in omega arith
    ]

module _ (b v : ℕ) where
  bump_keeps : (b' k : ℕ) (db : Db) → (keeps_one b v).holds db (bump_table Dataset.vehicles b' k db)
  unfolding bump_table table put_table
  bump_keeps b' k db = λ h. h

  log_keeps :
      (b' k n : ℕ) (x : Option (Snapshot Dataset.vehicles)) (key : ℕ) (db : Db)
      → (keeps_one b v).holds db (log_row Dataset.vehicles b' k upsert n x key db)
  log_keeps b' k n x key db = λ h. h

  record_change_keeps :
      (b' k : ℕ) → Preserves (keeps_one b v) (record_change Dataset.vehicles b' k upsert)
  unfolding record_change record_upsert
  record_change_keeps b' k = search (bump_keeps, log_keeps, preserves_rules, guard_rules) depth 12

  change_keeps :
      (b' k key : ℕ)
      → Preserves (keeps_one b v) (do record_change Dataset.vehicles b' k upsert; pure key)
  change_keeps b' k key = search (record_change_keeps, preserves_rules)

  insert_keeps :
      (a : Actor) (p : TripStart) (x : ℤ) (d : ℕ) (db : Db)
      → first_row (is_active_trip a.business_key p.vehicle_key 0) db.trips ≡ none
      → (keeps_one b v).holds db
          ((do
            trip_key ← identity
            execute (λ db. record db { trips = db.trips ++ started_trip a p x d trip_key db ∷ [] })
            execute (λ db.
                update_vehicles
                  (λ r. r.key == p.vehicle_key)
                  (λ v. record v { status = VehicleStatus.on_route; updated_at = db.now })
                  db)
            record_change Dataset.vehicles a.business_key p.vehicle_key upsert
            pure trip_key)
            db).1
  unfolding ◌>>=◌
  insert_keeps a p x d db empty h =
      (change_keeps a.business_key p.vehicle_key db.next_identity).at _
        (new_trip_count b v _ _ _ db.trips refl refl empty h)

-- A trip that starts without an override, and that no key of the payload exempts, leaves at most
-- one open trip for every vehicle of every business, if there was at most one before.
pub start_trip-one_open :
    (a : Actor) (p : TripStart) (o : Opts) (b v : ℕ) (db : Db)
    → o.conflict_override ≡ false
    → p.trip_key ≡ 0
    → open_trips b v db ≤ 1
    → open_trips b v (start_trip a p o db).1 ≤ 1
unfolding start_trip
start_trip-one_open a p o b v db off fresh one =
    holds-bind_read (keeps_one b v) _ _ db (IsReadOnly-or_throw p.start_odometer _)
      (λ x _. holds-bind_read (keeps_one b v) _ _ db (IsReadOnly-get_owned_vehicle _ _) (λ r _.
        holds-bind_read (keeps_one b v) _ _ db (IsReadOnly-check_start a p o _ x) (λ _ passed.
          holds-bind_read (keeps_one b v) _ _ db IsReadOnly-resolve_date_key (λ d _.
            holds-with_transaction (keeps_one b v) _ db (
              insert_keeps b v a p x d db (
                subst
                  (λ k. first_row (is_active_trip a.business_key p.vehicle_key k) db.trips ≡ none)
                  fresh (check_start-ok a p o r.body.current_odometer x db off passed).0))))))
      one
