-- ===== src/Conflicts/Outcome.antt =====
-- How a resolution ends (backend/src/services/conflictService.js).
use renuzi_ops_platform.Prelude.{ℕ, refl, Option}
use renuzi_ops_platform.Constants.{ConflictResolution}
use renuzi_ops_platform.Payload.{Payload, Actor}
use renuzi_ops_platform.Database.{QueueRow}
use renuzi_ops_platform.Exec.{Exec, ◌>>=◌}
use renuzi_ops_platform.Exec.Atomic.{IsAtomic, atomic_rules, read_only_rules}
use renuzi_ops_platform.Exec.Refused.{
  IsRefused, IsBroken, IsRefused-if, IsRefused-bind, IsRefused-then,
}
use renuzi_ops_platform.Guards.ReadOnly.{guard_rules}
use renuzi_ops_platform.Processors.Atomicity.{process-IsAtomic}
use renuzi_ops_platform.Conflicts.{
  finalize_resolution, apply_winner, keep_server, re_apply, resolve_conflict,
}

module _ {A : Type 0} where
  finalize-IsBroken : (f : Unit {0} → Exec A) → IsBroken (finalize_resolution >>= f)
  unfolding finalize_resolution ◌>>=◌
  finalize-IsBroken f = record { throws = λ db. refl; breaks = λ db. refl }

  finalize-IsRefused : (f : Unit {0} → Exec A) → IsRefused (finalize_resolution >>= f)
  unfolding finalize_resolution ◌>>=◌
  finalize-IsRefused f = record { throws = λ db. refl; clean = λ db e. refl }

apply_winner-IsAtomic :
    (a : Actor) (c : ConflictResolution) (m : Option (Payload → Payload)) (r : QueueRow)
    → IsAtomic (apply_winner a c m r)
unfolding apply_winner
apply_winner-IsAtomic a c m r = search (atomic_rules, read_only_rules, process-IsAtomic) depth 8

keep_server-IsRefused : (k : ℕ) (c : ConflictResolution) → IsRefused (keep_server k c)
unfolding keep_server
keep_server-IsRefused k c = finalize-IsRefused _

re_apply-IsRefused :
    (a : Actor) (k : ℕ) (c : ConflictResolution) (m : Option (Payload → Payload)) (r : QueueRow)
    → IsRefused (re_apply a k c m r)
unfolding re_apply
re_apply-IsRefused a k c m r =
    IsRefused-then _ _ (apply_winner-IsAtomic a c m r) (λ key. finalize-IsBroken _)

-- No resolution of a conflict succeeds: it ends in an error, and unless that is the
-- ReferenceError of finalizeResolution nothing is written.
pub resolve_conflict-IsRefused :
    (a : Actor) (k : ℕ) (c : ConflictResolution) (m : Option (Payload → Payload))
    → IsRefused (resolve_conflict a k c m)
unfolding resolve_conflict
resolve_conflict-IsRefused a k c m =
    search
      (
        IsRefused-if, IsRefused-bind, keep_server-IsRefused, re_apply-IsRefused, read_only_rules,
        guard_rules,
      )
      depth 12
