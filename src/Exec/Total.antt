-- ===== src/Exec/Total.antt =====
-- Actions that never throw, one rule for each way to build one, as a rule set for `search`.
use renuzi_ops_platform.Prelude.{◌≡◌, refl, true}
use renuzi_ops_platform.Payload.{Error}
use renuzi_ops_platform.Database.{Db}
use renuzi_ops_platform.Exec.{
  Result, ok, err, Exec, is_ok, pure, query, try_catch, recover, continue, ◌>>=◌,
}

-- An action that does not throw.
pub record IsTotal {A : Type 0} (m : Exec A) : Type 0 where
  pub returns : (db : Db) → is_ok (m db).0 ≡ true

module _ {A : Type 0} where
  pub IsTotal-pure : (a : A) → IsTotal (pure a)
  unfolding pure
  IsTotal-pure a = record { returns = λ db. refl }

  pub IsTotal-query : (f : Db → A) → IsTotal (query f)
  unfolding query
  IsTotal-query f = record { returns = λ db. refl }

  recover-ok :
      (r : Result A) (handle : Error → Exec A) (db : Db)
      → ((e : Error) → IsTotal (handle e))
      → is_ok (recover r handle db).0 ≡ true
  recover-ok (ok a) handle db h = refl
  recover-ok (err e) handle db h = (h e).returns db

  pub IsTotal-try_catch :
      (work : Exec A) (handle : Error → Exec A)
      → ((e : Error) → IsTotal (handle e))
      → IsTotal (try_catch work handle)
  unfolding try_catch
  IsTotal-try_catch work handle h = record {
    returns = λ db. recover-ok (work db).0 handle (work db).1 h;
  }

module _ {A B : Type 0} where
  continue-ok :
      (r : Result A) (f : A → Exec B) (db : Db)
      → is_ok r ≡ true
      → ((a : A) → IsTotal (f a))
      → is_ok (continue r f db).0 ≡ true
  continue-ok (ok a) f db h hf = (hf a).returns db
  continue-ok (err e) f db h hf = cc

  pub IsTotal-bind :
      (m : Exec A) (f : A → Exec B) → IsTotal m → ((a : A) → IsTotal (f a)) → IsTotal (m >>= f)
  unfolding ◌>>=◌
  IsTotal-bind m f hm hf = record {
    returns = λ db. continue-ok (m db).0 f (m db).1 (hm.returns db) hf;
  }

  continue-total :
      (P : Db → Type 0) (r : Result A) (f : A → Exec B) (db : Db)
      → is_ok r ≡ true
      → ((a : A) → P (f a db).1)
      → P (continue r f db).1
  continue-total P (ok a) f db h hf = hf a
  continue-total P (err e) f db h hf = cc

  -- What every second action reaches, after a first one that does not throw.
  pub holds-after_total :
      (P : Db → Type 0) (m : Exec A) (f : A → Exec B) (db : Db)
      → IsTotal m
      → ((a : A) → P (f a (m db).1).1)
      → P ((m >>= f) db).1
  unfolding ◌>>=◌
  holds-after_total P m f db total hf = continue-total P (m db).0 f (m db).1 (total.returns db) hf

pub ruleset total_rules = (IsTotal-pure, IsTotal-query, IsTotal-try_catch, IsTotal-bind)
