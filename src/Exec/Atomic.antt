-- ===== src/Exec/Atomic.antt =====
-- An action is atomic if it leaves the database as it found it whenever it throws. One rule for
-- each way in which the services build an action.
use renuzi_ops_platform.Prelude.{◌≡◌, refl, ◌∙◌, Bool, true, false, List, [], ◌∷◌, if◌then◌else◌}
use renuzi_ops_platform.Payload.{Error}
use renuzi_ops_platform.Database.{Db}
use renuzi_ops_platform.Exec.{
  Result, ok, err, Exec, pure, throw, query, throw_if, with_transaction, roll_back, try_catch,
  recover, execute, identity, continue, ◌>>=◌, for_each,
}

-- It writes nothing.
pub record IsReadOnly {A : Type 0} (m : Exec A) : Type 0 where
  pub at : (db : Db) → (m db).1 ≡ db

-- It does not throw.
pub record IsTotal {A : Type 0} (m : Exec A) : Type 0 where
  pub at : (db : Db) (e : Error) → ¬ ((m db).0 ≡ err e)

pub record IsAtomic {A : Type 0} (m : Exec A) : Type 0 where
  pub at : (db : Db) (e : Error) → (m db).0 ≡ err e → (m db).1 ≡ db

module _ {A : Type 0} where
  pub IsReadOnly-pure : (a : A) → IsReadOnly (pure a)
  unfolding pure
  IsReadOnly-pure a = record { at = λ db. refl }

  pub IsReadOnly-throw : (e : Error) → IsReadOnly (throw {A = A} e)
  unfolding throw
  IsReadOnly-throw e = record { at = λ db. refl }

  pub IsReadOnly-query : (f : Db → A) → IsReadOnly (query f)
  unfolding query
  IsReadOnly-query f = record { at = λ db. refl }

  pub IsReadOnly-if :
      (b : Bool) (m n : Exec A) → IsReadOnly m → IsReadOnly n → IsReadOnly (if b then m else n)
  IsReadOnly-if true m n hm hn = hm
  IsReadOnly-if false m n hm hn = hn

  pub IsAtomic-if :
      (b : Bool) (m n : Exec A) → IsAtomic m → IsAtomic n → IsAtomic (if b then m else n)
  IsAtomic-if true m n hm hn = hm
  IsAtomic-if false m n hm hn = hn

  pub IsAtomic-read_only : (m : Exec A) → IsReadOnly m → IsAtomic m
  IsAtomic-read_only m h = record { at = λ db e _. h.at db }

  pub IsAtomic-total : (m : Exec A) → IsTotal m → IsAtomic m
  IsAtomic-total m h = record { at = λ db e t. absurd (h.at db e t) }

  roll_back-err :
      (r : Result A) (db db' : Db) (e : Error)
      → (roll_back r db db').0 ≡ err e
      → (roll_back r db db').1 ≡ db
  roll_back-err (ok a) db db' e h = cc
  roll_back-err (err e') db db' e h = refl

  -- Whatever the callback does, a transaction that throws has written nothing.
  pub IsAtomic-with_transaction : (work : Exec A) → IsAtomic (with_transaction work)
  unfolding with_transaction
  IsAtomic-with_transaction work = record {
    at = λ db e h. let (r, db') = work db in roll_back-err r db db' e h;
  }

module _ {A : Type 0} where
  recover-IsAtomic :
      (r : Result A) (handle : Error → Exec A) (db db' : Db) (e : Error)
      → ((e' : Error) → r ≡ err e' → db' ≡ db)
      → ((e' : Error) → IsReadOnly (handle e'))
      → (recover r handle db').0 ≡ err e
      → (recover r handle db').1 ≡ db
  recover-IsAtomic (ok a) handle db db' e hr hh h = cc
  recover-IsAtomic (err e') handle db db' e hr hh h = (hh e').at db' ∙ hr e' refl

  -- An exception that is caught and thrown on.
  pub IsAtomic-try_catch :
      (work : Exec A) (handle : Error → Exec A)
      → IsAtomic work
      → ((e : Error) → IsReadOnly (handle e))
      → IsAtomic (try_catch work handle)
  unfolding try_catch
  IsAtomic-try_catch work handle hw hh = record {
    at = λ db e h. recover-IsAtomic (work db).0 handle db (work db).1 e (hw.at db) hh h;
  }

pub IsReadOnly-throw_if : (b : Bool) (e : Error) → IsReadOnly (throw_if b e)
unfolding throw_if
IsReadOnly-throw_if b e = IsReadOnly-if b _ _ (IsReadOnly-throw e) (IsReadOnly-pure tt)

pub IsTotal-execute : (f : Db → Db) → IsTotal (execute f)
unfolding execute
IsTotal-execute f = record { at = λ db e h. cc }

pub IsTotal-identity : IsTotal identity
unfolding identity
IsTotal-identity = record { at = λ db e h. cc }

pub IsTotal-pure : {A : Type 0} (a : A) → IsTotal (pure a)
unfolding pure
IsTotal-pure a = record { at = λ db e h. cc }

module _ {A B : Type 0} where
  continue-IsReadOnly :
      (r : Result A) (f : A → Exec B) (db : Db)
      → ((a : A) → IsReadOnly (f a))
      → (continue r f db).1 ≡ db
  continue-IsReadOnly (ok a) f db h = (h a).at db
  continue-IsReadOnly (err e) f db h = refl

  pub IsReadOnly-bind :
      (m : Exec A) (f : A → Exec B)
      → IsReadOnly m
      → ((a : A) → IsReadOnly (f a))
      → IsReadOnly (m >>= f)
  unfolding ◌>>=◌
  IsReadOnly-bind m f hm hf = record {
    at = λ db. continue-IsReadOnly (m db).0 f (m db).1 hf ∙ hm.at db;
  }

  continue-IsTotal :
      (r : Result A) (f : A → Exec B) (db : Db) (e : Error)
      → ((e' : Error) → ¬ (r ≡ err e'))
      → ((a : A) → IsTotal (f a))
      → ¬ ((continue r f db).0 ≡ err e)
  continue-IsTotal (ok a) f db e hr hf h = (hf a).at db e h
  continue-IsTotal (err e') f db e hr hf h = hr e' refl

  pub IsTotal-bind :
      (m : Exec A) (f : A → Exec B) → IsTotal m → ((a : A) → IsTotal (f a)) → IsTotal (m >>= f)
  unfolding ◌>>=◌
  IsTotal-bind m f hm hf = record {
    at = λ db e h. continue-IsTotal (m db).0 f (m db).1 e (hm.at db) hf h;
  }

  continue-IsAtomic :
      (r : Result A) (f : A → Exec B) (db : Db) (e : Error)
      → ((a : A) → IsAtomic (f a))
      → (continue r f db).0 ≡ err e
      → (continue r f db).1 ≡ db
  continue-IsAtomic (ok a) f db e hf h = (hf a).at db e h
  continue-IsAtomic (err e') f db e hf h = refl

  -- Reads before an atomic action.
  pub IsAtomic-bind :
      (m : Exec A) (f : A → Exec B) → IsReadOnly m → ((a : A) → IsAtomic (f a)) → IsAtomic (m >>= f)
  unfolding ◌>>=◌
  IsAtomic-bind m f hm hf = record {
    at = λ db e h. continue-IsAtomic (m db).0 f (m db).1 e hf h ∙ hm.at db;
  }

  continue-total-atomic :
      (r : Result A) (f : A → Exec B) (db db' : Db) (e : Error)
      → ((e' : Error) → r ≡ err e' → db' ≡ db)
      → ((a : A) → IsTotal (f a))
      → (continue r f db').0 ≡ err e
      → (continue r f db').1 ≡ db
  continue-total-atomic (ok a) f db db' e hr hf h = absurd ((hf a).at db' e h)
  continue-total-atomic (err e') f db db' e hr hf h = hr e' refl

  -- What does not throw after an atomic action.
  pub IsAtomic-then :
      (m : Exec A) (f : A → Exec B) → IsAtomic m → ((a : A) → IsTotal (f a)) → IsAtomic (m >>= f)
  unfolding ◌>>=◌
  IsAtomic-then m f hm hf = record {
    at = λ db e h. continue-total-atomic (m db).0 f db (m db).1 e (hm.at db) hf h;
  }

pub IsReadOnly-for_each :
    {A : Type 0} (xs : List A) (body : A → Exec (Unit {0}))
    → ((x : A) → IsReadOnly (body x))
    → IsReadOnly (for_each xs body)
unfolding for_each
IsReadOnly-for_each [] body h = IsReadOnly-pure tt
IsReadOnly-for_each (x ∷ xs) body h =
    IsReadOnly-bind (body x) _ (h x) (λ _. IsReadOnly-for_each xs body h)

pub ruleset read_only_rules = (
  IsReadOnly-pure, IsReadOnly-throw, IsReadOnly-query, IsReadOnly-throw_if, IsReadOnly-if,
  IsReadOnly-bind, IsReadOnly-for_each,
)

pub ruleset total_rules = (IsTotal-pure, IsTotal-execute, IsTotal-identity, IsTotal-bind)

pub ruleset atomic_rules = (
  read_only_rules, total_rules, IsAtomic-if, IsAtomic-with_transaction, IsAtomic-bind,
  IsAtomic-then, IsAtomic-try_catch, IsAtomic-read_only, IsAtomic-total,
)
