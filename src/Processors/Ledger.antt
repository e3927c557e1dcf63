-- ===== src/Processors/Ledger.antt =====
-- The keys of the change log: every processor keeps them rising and below the next identity.
use renuzi_ops_platform.Prelude.{ℕ, ◌+◌, ◌<◌, ◌≤◌, sym, List, [], ◌∷◌, ◌++◌, All, All-append, arith}
use mathlib.Core.Path.{subst}
use renuzi_ops_platform.Constants.{Dataset, vehicles, routes, customers, products, dispatches, grns}
use renuzi_ops_platform.Schema.{Change}
use renuzi_ops_platform.Payload.{Payload, Actor}
use renuzi_ops_platform.Database.{Db, table, put_table}
use renuzi_ops_platform.Exec.Preserves.{Relation}
use renuzi_ops_platform.ChangeLog.{bump_table}
use renuzi_ops_platform.Pull.Resume.{RisesFrom}
use renuzi_ops_platform.Processors.{process}
use renuzi_ops_platform.Processors.Laws.{SameTables, ServiceLaws}
use renuzi_ops_platform.Processors.Keeps.{Preserves-process}

-- The keys of a log rise and stay below a number.
abbrev pub IsLedgerBelow : ℕ → List Change → Type 0
IsLedgerBelow n log = (0 < n) × RisesFrom 0 log × All (λ (c : Change). c.change_key < n) log

abbrev pub IsLedger : Db → Type 0
IsLedger db = IsLedgerBelow db.next_identity db.change_log

All-below :
    (m n : ℕ) (log : List Change)
    → m ≤ n
    → All (λ (c : Change). c.change_key < m) log
    → All (λ (c : Change). c.change_key < n) log
All-below m n [] h a = tt
All-below m n (c ∷ log) h a = (omega arith, All-below m n log h a.1)

RisesFrom-append :
    (k : ℕ) (log : List Change) (c : Change)
    → k < c.change_key
    → RisesFrom k log
    → All (λ (x : Change). x.change_key < c.change_key) log
    → RisesFrom k (log ++ c ∷ [])
RisesFrom-append k [] c h r a = (h, tt)
RisesFrom-append k (x ∷ log) c h r a = (r.0, RisesFrom-append x.change_key log c a.0 r.1 a.1)

IsLedgerBelow-suc : (n : ℕ) (log : List Change) → IsLedgerBelow n log → IsLedgerBelow (n + 1) log
IsLedgerBelow-suc n log (h, r, a) = (omega arith, r, All-below n (n + 1) log (omega arith) a)

IsLedgerBelow-append :
    (log : List Change) (c : Change)
    → IsLedgerBelow c.change_key log
    → IsLedgerBelow (c.change_key + 1) (log ++ c ∷ [])
IsLedgerBelow-append log c (h, r, a) = (
  omega arith,
  RisesFrom-append 0 log c h r a,
  All-append (λ (x : Change). x.change_key < c.change_key + 1) log (c ∷ [])
      (All-below c.change_key (c.change_key + 1) log (omega arith) a) (omega arith, tt),
)

abbrev keeps_ledger : Relation
keeps_ledger = record {
  holds = λ a b. IsLedger a → IsLedger b;
  stays = λ db h. h;
  follows = λ f g h. g (f h);
  counts = λ db. IsLedgerBelow-suc db.next_identity db.change_log;
}

SameTables-IsLedger : (a b : Db) → SameTables a b → IsLedger a → IsLedger b
SameTables-IsLedger a b (v, d, g, l, q, c, n, t, f, r, u, p) h =
    subst (λ log. IsLedgerBelow b.next_identity log) (sym l)
      (subst (λ next. IsLedgerBelow next a.change_log) (sym n) h)

bump-IsLedger : (ds : Dataset) (b k : ℕ) (db : Db) → IsLedger db → IsLedger (bump_table ds b k db)
unfolding bump_table table put_table
bump-IsLedger vehicles b k db h = h
bump-IsLedger routes b k db h = h
bump-IsLedger customers b k db h = h
bump-IsLedger products b k db h = h
bump-IsLedger dispatches b k db h = h
bump-IsLedger grns b k db h = h

ledger_laws : ServiceLaws keeps_ledger
ledger_laws = record {
  facts = SameTables-IsLedger;
  raise_vehicles = λ p f db up h. h;
  insert_grn = λ g db h. h;
  stamp = λ s a k p n db h. h;
  bump = bump-IsLedger;
  log = λ ds b k op v x db h. IsLedgerBelow-append db.change_log _ h;
}

-- Every processor, whether it throws or not, keeps the change keys of the log rising from above 0
-- and below the next identity.
pub process-IsLedger :
    (a : Actor) (p : Payload) (db : Db) → IsLedger db → IsLedger (process a p db).1
process-IsLedger a p db = (Preserves-process ledger_laws a p).at db
