-- ===== src/Http/NewPassword.antt =====
-- A password that backend/src/routes/auth.js takes, at a change or at the registration of a user,
-- is one that its login accepts.
use renuzi_ops_platform.Prelude.{
  ℕ, ◌≡◌, refl, sym, String, true, false, not, ◌&&◌, ◌||◌, Option, none, some, List, [], ◌∷◌,
  length, is_some, first_row, update_rows, ltb, str_eq, arith, or-none, if-holds, or-none,
  first_row-update_if, ==_iff,
}
use mathlib.Core.Path.{subst}
use renuzi_ops_platform.Schema.{User}
use renuzi_ops_platform.Database.{Db}
use renuzi_ops_platform.Exec.{Result, ok, err, Exec, pure, query, execute, ◌>>=◌}
use renuzi_ops_platform.Http.Message.{Response}
use renuzi_ops_platform.Http.Account.{
  Bcrypt, is_user, with_password, rotate, change_password, login_user, is_empty, business_of,
}
use renuzi_ops_platform.Http.Login.{MayLogIn}

-- The documented round trip of bcrypt.
abbrev pub Matches : Bcrypt → Type 0
Matches bcrypt = (p : List ℕ) → bcrypt.compare p (bcrypt.hash p) ≡ true

abbrev pub status_of : Result Response → ℕ
status_of (ok r) = r.status
status_of (err e) = 0

module _ (bcrypt : Bcrypt) (current new : List ℕ) where
  -- The database after the UPDATE of the change.
  abbrev changed : ℕ → Db → Db
  changed key db = record db {
    users = update_rows (is_user key) (with_password (bcrypt.hash new)) db.users;
  }

  -- Where the answer is a 200, the state after is the one that P holds of.
  abbrev IsAnswer : (Db → Type 0) → Db → Exec Response → Type 0
  IsAnswer P db m = status_of (m db).0 ≡ 200 → P (m db).1

  rotate-changed :
      (key : ℕ) (o : Option User) (db : Db)
      → IsAnswer (λ d. d ≡ changed key db) db (rotate bcrypt current new key o)
  unfolding pure execute query ◌>>=◌
  rotate-changed key none db = λ h. absurd (omega (arith, h))
  rotate-changed key (some row) db =
      if-holds (IsAnswer (λ d. d ≡ changed key db) db)
        (not (bcrypt.compare current row.password_hash)) _ _ (λ b h. absurd (omega (arith, h)))
        (λ b h. refl)

  change_password-changed :
      (u : User) (db : Db)
      → IsAnswer
          (λ d. (d ≡ changed u.user_key db) × (ltb (length new) 6 ≡ false))
          db
          (change_password bcrypt current new u)
  unfolding change_password query ◌>>=◌ pure
  change_password-changed u db =
      if-holds (IsAnswer (λ d. (d ≡ changed u.user_key db) × (ltb (length new) 6 ≡ false)) db)
        (is_empty current || ltb (length new) 6) _ _ (λ b h. absurd (omega (arith, h)))
        (λ b h. (
          rotate-changed u.user_key (first_row (is_user u.user_key) db.users) db h,
          (or-none (is_empty current) (ltb (length new) 6) b).1,
        ))

  changed-row :
      (key : ℕ) (user_id : String) (db : Db) (u : User)
      → login_user user_id db ≡ some u
      → u.user_key ≡ key
      → login_user user_id (changed key db) ≡ some (with_password (bcrypt.hash new) u)
  unfolding login_user
  changed-row key user_id db u hr hk =
      first_row-update_if (λ (v : User). str_eq v.user_id user_id && is_some (business_of v db))
        (is_user key) (with_password (bcrypt.hash new)) db.users (λ y. refl) hr
        ((==_iff u.user_key key).1 hk)

  given-long : (p : List ℕ) → ltb (length p) 6 ≡ false → is_empty p ≡ false
  given-long [] h = cc
  given-long (c ∷ p) h = refl

  -- Where bcrypt accepts what it hashed: a user who could log in with the current password and
  -- whose change of it is answered with a 200 may afterwards log in with the new password.
  pub change_password-MayLogIn :
      (user_id : String) (u v : User) (db : Db)
      → Matches bcrypt
      → MayLogIn bcrypt user_id current db v
      → v.user_key ≡ u.user_key
      → status_of (change_password bcrypt current new u db).0 ≡ 200
      → MayLogIn bcrypt user_id new
          (change_password bcrypt current new u db).1
          (with_password (bcrypt.hash new) v)
  change_password-MayLogIn user_id u v db matches may hk h =
      let (e, long) = change_password-changed u db h in
      subst (λ d. MayLogIn bcrypt user_id new d (with_password (bcrypt.hash new) v)) (sym e)
        (record {
          named = may.named;
          given = given-long new long;
          row = changed-row u.user_key user_id db v may.row hk;
          secret = matches new;
          active = may.active;
          business = may.business;
          license = may.license;
        })
