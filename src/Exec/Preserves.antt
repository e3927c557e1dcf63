-- ===== src/Exec/Preserves.antt =====
-- What every run of an action does to the database, as a preorder between the database before and
-- after: a quantity that only grows, or an invariant P as the relation P db → P db'. One rule for
-- each way to build an action; what an action throws after its writes is covered too.
use renuzi_ops_platform.Prelude.{
  ◌+◌, ◌≡◌, refl, Bool, true, false, List, [], ◌∷◌, if◌then◌else◌, sym,
}
use mathlib.Core.Path.{subst}
use renuzi_ops_platform.Payload.{Error}
use renuzi_ops_platform.Database.{Db}
use renuzi_ops_platform.Exec.{
  Result, ok, err, Exec, pure, throw, query, throw_if, with_transaction, roll_back, try_catch,
  recover, execute, identity, continue, ◌>>=◌, when, for_each,
}
use renuzi_ops_platform.Exec.Atomic.{IsReadOnly}

-- A preorder on databases that the counter of the identities does not matter to.
pub record Relation : Type 1 where
  pub holds : Db → Db → Type 0
  pub stays : (db : Db) → holds db db
  pub follows : {a b c : Db} → holds a b → holds b c → holds a c
  pub counts : (db : Db) → holds db (record db { next_identity = db.next_identity + 1 })

pub record Preserves (R : Relation) {A : Type 0} (m : Exec A) : Type 0 where
  pub at : (db : Db) → R.holds db (m db).1

module _ (R : Relation) {A : Type 0} where
  roll_back-holds :
      (r : Result A) (db db' : Db) → R.holds db db' → R.holds db (roll_back r db db').1
  roll_back-holds (ok a) db db' h = h
  roll_back-holds (err e) db db' h = R.stays db

  recover-holds :
      (r : Result A) (handle : Error → Exec A) (db db' : Db)
      → R.holds db db'
      → ((e : Error) → Preserves R (handle e))
      → R.holds db (recover r handle db').1
  recover-holds (ok a) handle db db' h hh = h
  recover-holds (err e) handle db db' h hh = R.follows h ((hh e).at db')

  -- Either branch of an if, with what its test says.
  pub holds-if :
      (b : Bool) (m n : Exec A) (db : Db)
      → R.holds db (m db).1
      → (b ≡ false → R.holds db (n db).1)
      → R.holds db ((if b then m else n) db).1
  holds-if true m n db hm hn = hm
  holds-if false m n db hm hn = hn refl

  pub holds-with_transaction :
      (work : Exec A) (db : Db) → R.holds db (work db).1 → R.holds db (with_transaction work db).1
  unfolding with_transaction
  holds-with_transaction work db h = roll_back-holds (work db).0 db (work db).1 h

module _ (R : Relation) {A B : Type 0} where
  continue-holds :
      (r : Result A) (f : A → Exec B) (db db' : Db)
      → R.holds db db'
      → ((a : A) → r ≡ ok a → R.holds db' (f a db').1)
      → R.holds db (continue r f db').1
  continue-holds (ok a) f db db' h hf = R.follows h (hf a refl)
  continue-holds (err e) f db db' h hf = h

  -- After a read, the rest of the block may use what was read.
  pub holds-bind_read :
      (m : Exec A) (f : A → Exec B) (db : Db)
      → IsReadOnly m
      → ((a : A) → (m db).0 ≡ ok a → R.holds db (f a db).1)
      → R.holds db ((m >>= f) db).1
  unfolding ◌>>=◌
  holds-bind_read m f db hm hf =
      subst (λ d. R.holds db (continue (m db).0 f d).1) (sym (hm.at db))
        (continue-holds (m db).0 f db db (R.stays db) hf)

  pub holds-bind :
      (m : Exec A) (f : A → Exec B) (db : Db)
      → R.holds db (m db).1
      → ((a : A) → Preserves R (f a))
      → R.holds db ((m >>= f) db).1
  unfolding ◌>>=◌
  holds-bind m f db hm hf = continue-holds (m db).0 f db (m db).1 hm (λ a _. (hf a).at (m db).1)

module _ {R : Relation} {A : Type 0} where
  pub Preserves-read_only : (m : Exec A) → IsReadOnly m → Preserves R m
  Preserves-read_only m h = record { at = λ db. subst (R.holds db) (sym (h.at db)) (R.stays db) }

  pub Preserves-pure : (a : A) → Preserves R (pure a)
  unfolding pure
  Preserves-pure a = record { at = λ db. R.stays db }

  pub Preserves-throw : (e : Error) → Preserves R (throw {A = A} e)
  unfolding throw
  Preserves-throw e = record { at = λ db. R.stays db }

  pub Preserves-query : (f : Db → A) → Preserves R (query f)
  unfolding query
  Preserves-query f = record { at = λ db. R.stays db }

  pub Preserves-if :
      (b : Bool) (m n : Exec A) → Preserves R m → Preserves R n → Preserves R (if b then m else n)
  Preserves-if true m n hm hn = hm
  Preserves-if false m n hm hn = hn

  pub Preserves-with_transaction :
      (work : Exec A) → Preserves R work → Preserves R (with_transaction work)
  unfolding with_transaction
  Preserves-with_transaction work h = record {
    at = λ db. roll_back-holds R (work db).0 db (work db).1 (h.at db);
  }

  pub Preserves-try_catch :
      (work : Exec A) (handle : Error → Exec A)
      → Preserves R work
      → ((e : Error) → Preserves R (handle e))
      → Preserves R (try_catch work handle)
  unfolding try_catch
  Preserves-try_catch work handle h hh = record {
    at = λ db. recover-holds R (work db).0 handle db (work db).1 (h.at db) hh;
  }

module _ {R : Relation} where
  pub Preserves-throw_if : (b : Bool) (e : Error) → Preserves R (throw_if b e)
  unfolding throw_if
  Preserves-throw_if b e = Preserves-if b _ _ (Preserves-throw e) (Preserves-pure tt)

  pub Preserves-execute : (f : Db → Db) → ((db : Db) → R.holds db (f db)) → Preserves R (execute f)
  unfolding execute
  Preserves-execute f h = record { at = h }

  pub Preserves-identity : Preserves R identity
  unfolding identity
  Preserves-identity = record { at = λ db. R.counts db }

  pub Preserves-when : (b : Bool) (m : Exec (Unit {0})) → Preserves R m → Preserves R (when b m)
  unfolding when
  Preserves-when b m h = Preserves-if b _ _ h (Preserves-pure tt)

module _ {R : Relation} {A B : Type 0} where
  pub Preserves-bind :
      (m : Exec A) (f : A → Exec B)
      → Preserves R m
      → ((a : A) → Preserves R (f a))
      → Preserves R (m >>= f)
  unfolding ◌>>=◌
  Preserves-bind m f hm hf = record {
    at = λ db. continue-holds R (m db).0 f db (m db).1 (hm.at db) (λ a _. (hf a).at (m db).1);
  }

module _ {R : Relation} {A : Type 0} where
  pub Preserves-for_each :
      (xs : List A) (body : A → Exec (Unit {0}))
      → ((x : A) → Preserves R (body x))
      → Preserves R (for_each xs body)
  unfolding for_each
  Preserves-for_each [] body h = Preserves-pure tt
  Preserves-for_each (x ∷ xs) body h =
      Preserves-bind (body x) _ (h x) (λ _. Preserves-for_each xs body h)

pub ruleset preserves_rules = (
  Preserves-pure, Preserves-throw, Preserves-query, Preserves-throw_if, Preserves-if,
  Preserves-when, Preserves-with_transaction, Preserves-try_catch, Preserves-identity,
  Preserves-for_each, Preserves-bind, Preserves-execute, Preserves-read_only,
)

-- What holds after a first action and is kept by every second one.
module _ {A B : Type 0} (P : Db → Type 0) where
  continue-after :
      (r : Result A) (f : A → Exec B) (db : Db)
      → P db
      → ((a : A) → P (f a db).1)
      → P (continue r f db).1
  continue-after (ok a) f db h hf = hf a
  continue-after (err e) f db h hf = h

  pub holds-after :
      (m : Exec A) (f : A → Exec B) (db : Db)
      → P (m db).1
      → ((a : A) → P (f a (m db).1).1)
      → P ((m >>= f) db).1
  unfolding ◌>>=◌
  holds-after m f db hm hf = continue-after (m db).0 f (m db).1 hm hf

  pub holds-after_read :
      (m : Exec A) (f : A → Exec B) (db : Db)
      → IsReadOnly m
      → P db
      → ((a : A) → P (f a db).1)
      → P ((m >>= f) db).1
  unfolding ◌>>=◌
  holds-after_read m f db still h hf =
      subst (λ d. P (continue (m db).0 f d).1) (sym (still.at db))
        (continue-after (m db).0 f db h hf)
