-- ===== src/Processors/Clock.antt =====
-- No processor sets the clock or the configuration.
use renuzi_ops_platform.Prelude.{ℕ, ◌≡◌, refl, ◌∙◌}
use renuzi_ops_platform.Constants.{Dataset, vehicles, routes, customers, products, dispatches, grns}
use renuzi_ops_platform.Payload.{Payload, Actor}
use renuzi_ops_platform.Database.{Db, put_table}
use renuzi_ops_platform.Exec.Preserves.{Relation}
use renuzi_ops_platform.ChangeLog.{bump_table}
use renuzi_ops_platform.Processors.{process}
use renuzi_ops_platform.Processors.Laws.{SameTables, ServiceLaws}
use renuzi_ops_platform.Processors.Keeps.{Preserves-process}

abbrev pub SameClock : Db → Db → Type 0
SameClock a b = (b.now ≡ a.now) × (b.config ≡ a.config)

abbrev pub keeps_clock : Relation
keeps_clock = record {
  holds = SameClock;
  stays = λ db. (refl, refl);
  follows = λ h k. (k.0 ∙ h.0, k.1 ∙ h.1);
  counts = λ db. (refl, refl);
}

SameTables-SameClock : (a b : Db) → SameTables a b → SameClock a b
SameTables-SameClock a b (v, d, g, l, q, c, n, t, f, r, u, p) = (t, f)

bump-SameClock : (ds : Dataset) (b k : ℕ) (db : Db) → SameClock db (bump_table ds b k db)
unfolding bump_table put_table
bump-SameClock vehicles b k db = (refl, refl)
bump-SameClock routes b k db = (refl, refl)
bump-SameClock customers b k db = (refl, refl)
bump-SameClock products b k db = (refl, refl)
bump-SameClock dispatches b k db = (refl, refl)
bump-SameClock grns b k db = (refl, refl)

clock_laws : ServiceLaws keeps_clock
clock_laws = record {
  facts = SameTables-SameClock;
  raise_vehicles = λ p f db up. (refl, refl);
  insert_grn = λ g db. (refl, refl);
  stamp = λ s a k p n db. (refl, refl);
  bump = bump-SameClock;
  log = λ ds b k op v x db. (refl, refl);
}

pub process-SameClock : (a : Actor) (p : Payload) (db : Db) → SameClock db (process a p db).1
process-SameClock a p db = (Preserves-process clock_laws a p).at db
