-- ===== src/Jobs/AutoClose.antt =====
-- backend/src/jobs/grnAutoCloseJob.js: receipts that finance has not signed off in time.
use renuzi_ops_platform.Prelude.{
  ℕ, ◌-◌, ◌/◌, ℤ, pos, pos_part, ltb_ℤ, Bool, not, ◌&&◌, none, List, [], ◌∷◌, ◌==◌, leb,
  if◌then◌else◌, or_else, length, where_rows, update_rows,
}
use renuzi_ops_platform.Constants.{upsert, grns}
use renuzi_ops_platform.Schema.{Row, Grn}
use renuzi_ops_platform.Database.{Db}
use renuzi_ops_platform.Exec.{Exec, pure, query, with_transaction, execute, for_each, ◌>>=◌, ◌>>◌}
use renuzi_ops_platform.Guards.{config_value}
use renuzi_ops_platform.ChangeLog.{record_change}

pub record Escalation : Type 0 where
  pub escalated : ℕ
  pub grn_keys : List ℕ

-- DATEDIFF(HOUR, a, b): the hour boundaries between two times.
abbrev pub hours_between : ℕ → ℕ → ℕ
hours_between a b = b / 3600000 - a / 3600000

-- The WHERE of the UPDATE.
unfoldable pub is_overdue : ℕ → ℕ → ℕ → Row Grn → Bool
is_overdue business_key hours now r =
    (r.business_key == business_key)
    && not r.body.finance_signoff
    && leb hours (hours_between r.body.created_at now)

abbrev pub touched : ℕ → Row Grn → Row Grn
touched now r = record r { body = record r.body { updated_at = now } }

abbrev pub row_keys : {B : Type 0} → List (Row B) → List ℕ
row_keys [] = []
row_keys (r ∷ rows) = r.key ∷ row_keys rows

unfoldable pub escalate : ℕ → ℕ → Exec Escalation
escalate business_key hours = with_transaction do
  keys ← query (λ db. row_keys (where_rows (is_overdue business_key hours db.now) db.grn_table))
  execute (λ db. record db {
    grn_table = update_rows (is_overdue business_key hours db.now) (touched db.now) db.grn_table;
  })
  for_each keys (λ k. record_change grns business_key k upsert >>= λ e. pure tt)
  pure (record { escalated = length keys; grn_keys = keys })

-- `cfg.recordset[0]?.hours ?? 24`
abbrev pub close_hours : Db → ℤ
close_hours db = or_else (or_else (config_value "GRN_AUTO_CLOSE_HOURS" db.config) none) (pos 24)

unfoldable pub run_grn_auto_close : ℕ → Exec Escalation
run_grn_auto_close business_key = do
  hours ← query close_hours
  if ltb_ℤ (pos 0) hours
      then escalate business_key (pos_part hours)
      else pure (record { escalated = 0; grn_keys = [] })
