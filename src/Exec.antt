-- ===== src/Exec.antt =====
-- The effects of the services: a database that is read and written, and exceptions. What was
-- written before a throw stays written, unless a transaction rolls it back
-- (backend/src/config/db.js, withTransaction).
pub mod Atomic
pub mod Preserves
pub mod Refused
pub mod Total
use renuzi_ops_platform.Prelude.{ℕ, ◌+◌, Bool, true, false, List, [], ◌∷◌, if◌then◌else◌}
use renuzi_ops_platform.Payload.{Error}
use renuzi_ops_platform.Database.{Db}

pub data Result (A : Type 0) : Type 0 where
  ok : A → Result A
  err : Error → Result A

abbrev pub is_ok : {A : Type 0} → Result A → Bool
is_ok (ok a) = true
is_ok (err e) = false

abbrev pub Exec : Type 0 → Type 0
Exec A = Db → Result A × Db

module _ {A : Type 0} where
  unfoldable pub pure : A → Exec A
  pure a db = (ok a, db)

  unfoldable pub throw : Error → Exec A
  throw e db = (err e, db)

  -- SELECT: reads the database.
  unfoldable pub query : (Db → A) → Exec A
  query f db = (ok (f db), db)

  -- The transaction commits if the callback resolves and rolls back if it throws. A rollback takes
  -- the identities back too, which SQL Server does not: there an identity that was drawn is lost.
  abbrev roll_back : Result A → Db → Db → Result A × Db
  roll_back (ok a) before after = (ok a, after)
  roll_back (err e) before after = (err e, before)

  unfoldable pub with_transaction : Exec A → Exec A
  with_transaction work db = let (r, db') = work db in roll_back r db db'

  -- try { … } catch (err) { handle(err) }
  abbrev pub recover : Result A → (Error → Exec A) → Exec A
  recover (ok a) handle db = (ok a, db)
  recover (err e) handle db = handle e db

  unfoldable pub try_catch : Exec A → (Error → Exec A) → Exec A
  try_catch work handle db = let (r, db') = work db in recover r handle db'

-- `if (b) throw e;`
unfoldable pub throw_if : Bool → Error → Exec (Unit {0})
unfolding pure throw
throw_if b e = if b then throw e else pure tt

-- UPDATE and INSERT: change the database.
unfoldable pub execute : (Db → Db) → Exec (Unit {0})
execute f db = (ok tt, f db)

-- OUTPUT INSERTED.key: the next value of an IDENTITY column.
unfoldable pub identity : Exec ℕ
identity db = (ok db.next_identity, record db { next_identity = db.next_identity + 1 })

module _ {A B : Type 0} where
  abbrev pub continue : Result A → (A → Exec B) → Exec B
  continue (ok a) f db = f a db
  continue (err e) f db = (err e, db)

  infixl 10 ◌>>=◌ ◌>>◌
  -- Opening this opens the other effects too.
  unfoldable pub ◌>>=◌ : Exec A → (A → Exec B) → Exec B
  unfolding pure throw query throw_if with_transaction try_catch execute identity
  ◌>>=◌ m f db = let (r, db') = m db in continue r f db'

  abbrev pub ◌>>◌ : Exec A → Exec B → Exec B
  m >> n = m >>= λ _. n

-- `if (test) { … }` for its effect.
unfoldable pub when : Bool → Exec (Unit {0}) → Exec (Unit {0})
unfolding pure
when b m = if b then m else pure tt

-- for (const x of xs) { … }
module _ {A : Type 0} where
  unfoldable pub for_each : List A → (A → Exec (Unit {0})) → Exec (Unit {0})
  unfolding pure
  for_each [] body = pure tt
  for_each (x ∷ xs) body = body x >>= λ _. for_each xs body
