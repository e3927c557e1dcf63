-- ===== src/Exec/Refused.antt =====
-- Actions that never succeed, and write nothing unless it is a name that is not bound that stops
-- them.
use renuzi_ops_platform.Prelude.{◌≡◌, refl, ◌∙◌, Bool, true, false, if◌then◌else◌}
use renuzi_ops_platform.Payload
use renuzi_ops_platform.Payload.{Error}
use renuzi_ops_platform.Database.{Db}
use renuzi_ops_platform.Exec.{is_ok, Result, ok, err, Exec, continue, ◌>>=◌}
use renuzi_ops_platform.Exec.Atomic.{IsReadOnly, IsAtomic}

abbrev pub is_reference : Error → Bool
is_reference (Payload.reference_error n) = true
is_reference _ = false

abbrev pub is_refusal : {A : Type 0} → Result A → Bool
is_refusal (ok a) = false
is_refusal (err e) = if is_reference e then false else true

pub record IsRefused {A : Type 0} (m : Exec A) : Type 0 where
  pub throws : (db : Db) → is_ok (m db).0 ≡ false
  pub clean : (db : Db) → is_refusal (m db).0 ≡ true → (m db).1 ≡ db

-- It stops at a name that is not bound.
pub record IsBroken {A : Type 0} (m : Exec A) : Type 0 where
  pub throws : (db : Db) → is_ok (m db).0 ≡ false
  pub breaks : (db : Db) → is_refusal (m db).0 ≡ false

pub IsRefused-if :
    {A : Type 0} (b : Bool) (m n : Exec A)
    → IsRefused m
    → IsRefused n
    → IsRefused (if b then m else n)
IsRefused-if true m n hm hn = hm
IsRefused-if false m n hm hn = hn

module _ {A B : Type 0} where
  continue-throws :
      (r : Result A) (f : A → Exec B) (db : Db)
      → ((a : A) → is_ok (f a db).0 ≡ false)
      → is_ok (continue r f db).0 ≡ false
  continue-throws (ok a) f db h = h a
  continue-throws (err e) f db h = refl

  continue-clean :
      (r : Result A) (f : A → Exec B) (db : Db)
      → ((a : A) → IsRefused (f a))
      → is_refusal (continue r f db).0 ≡ true
      → (continue r f db).1 ≡ db
  continue-clean (ok a) f db h e = (h a).clean db e
  continue-clean (err x) f db h e = refl

  continue-atomic :
      (r : Result A) (f : A → Exec B) (db db' : Db)
      → ((e : Error) → r ≡ err e → db' ≡ db)
      → ((a : A) → IsBroken (f a))
      → is_refusal (continue r f db').0 ≡ true
      → (continue r f db').1 ≡ db
  continue-atomic (ok a) f db db' hr h e = let broken = (h a).breaks db' in cc
  continue-atomic (err x) f db db' hr h e = hr x refl

  pub IsRefused-bind :
      (m : Exec A) (f : A → Exec B)
      → IsReadOnly m
      → ((a : A) → IsRefused (f a))
      → IsRefused (m >>= f)
  unfolding ◌>>=◌
  IsRefused-bind m f hm hf = record {
    throws = λ db. continue-throws (m db).0 f (m db).1 (λ a. (hf a).throws (m db).1);
    clean = λ db e. continue-clean (m db).0 f (m db).1 hf e ∙ hm.at db;
  }

  -- What is atomic, and then breaks.
  pub IsRefused-then :
      (m : Exec A) (f : A → Exec B) → IsAtomic m → ((a : A) → IsBroken (f a)) → IsRefused (m >>= f)
  unfolding ◌>>=◌
  IsRefused-then m f hm hf = record {
    throws = λ db. continue-throws (m db).0 f (m db).1 (λ a. (hf a).throws (m db).1);
    clean = λ db e. continue-atomic (m db).0 f db (m db).1 (hm.at db) hf e;
  }
