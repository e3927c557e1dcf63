-- ===== src/Http/Login.antt =====
-- Whom the login of backend/src/routes/auth.js gives a token.
use renuzi_ops_platform.Prelude.{
  ℕ, ◌≡◌, refl, sym, ◌∙◌, String, Bool, true, false, not, Option, none, some, List, [], ◌∷◌, ◌↔◌,
  if◌then◌else◌, is_some, str_eq, and-parts, and-both, ◌&&◌,
}
use mathlib.Core.Path.{subst}
use renuzi_ops_platform.Schema.{User}
use renuzi_ops_platform.Database.{Db}
use renuzi_ops_platform.Exec.{Result, ok, pure, query}
use renuzi_ops_platform.Http.Account.{
  Bcrypt, License, expired, valid, warning, license_of, LoginAnswer, no_login, with_license,
  business_of, business_is_active, checked_login, login_user, login, is_empty,
}

abbrev is_expired : License → Bool
is_expired expired = true
is_expired _ = false

-- What a user must satisfy to be let in.
pub record MayLogIn (bcrypt : Bcrypt) (user_id : String) (password : List ℕ) (db : Db) (u : User)
    : Type 0 where
  pub named : str_eq user_id "" ≡ false
  pub given : is_empty password ≡ false
  pub row : login_user user_id db ≡ some u
  pub secret : bcrypt.compare password u.password_hash ≡ true
  pub active : u.is_active ≡ true
  pub business : business_is_active (business_of u db) ≡ true
  pub license : is_expired (license_of db.now u.role u.license_expiry) ≡ false

abbrev pub has_token : LoginAnswer → Bool
has_token a = is_some a.token

not-flip : (b : Bool) → (not b ≡ true) ↔ (b ≡ false)
not-flip true = (λ h. sym h, λ h. sym h)
not-flip false = (λ h. refl, λ h. refl)

-- The four tests in a row, as one conjunction.
tests-token :
    (secret active business : Bool) (l : License) (token : List ℕ) (u : User)
    → has_token (
        if not secret
        then no_login 401 "Invalid credentials"
        else if not active
        then no_login 403 "Account deactivated. Contact admin."
        else if not business
        then no_login 403 "Business account is inactive."
        else with_license token u l)
      ≡ secret && (active && (business && not (is_expired l)))
tests-token false active business l token u = refl
tests-token true false business l token u = refl
tests-token true true false l token u = refl
tests-token true true true expired token u = refl
tests-token true true true valid token u = refl
tests-token true true true (warning d) token u = refl

module _ (bcrypt : Bcrypt) (sign : User → List ℕ) (user_id : String) (db : Db) where
  abbrev Admitted : List ℕ → Type 0
  Admitted password = (u : User) × MayLogIn bcrypt user_id password db u

  token-given :
      (password : List ℕ) (u : User)
      → MayLogIn bcrypt user_id password db u
      → has_token (checked_login bcrypt sign password db (some u)) ≡ true
  token-given password u may =
      tests-token _ _ _ (license_of db.now u.role u.license_expiry) (sign u) u
      ∙ and-both _ _ may.secret (
          and-both _ _ may.active (
            and-both _ _ may.business
              ((not-flip (is_expired (license_of db.now u.role u.license_expiry))).1 may.license)))

  given-token :
      (password : List ℕ) (u : User)
      → str_eq user_id "" ≡ false
      → is_empty password ≡ false
      → login_user user_id db ≡ some u
      → has_token (checked_login bcrypt sign password db (some u)) ≡ true
      → MayLogIn bcrypt user_id password db u
  given-token password u hn hp hr h =
      let all =
        sym (tests-token _ _ _ (license_of db.now u.role u.license_expiry) (sign u) u) ∙ h in
      let (secret, rest) = and-parts (bcrypt.compare password u.password_hash) _ all in
      let (active, more) = and-parts u.is_active _ rest in
      let (business, license) = and-parts (business_is_active (business_of u db)) _ more in
      record {
        named = hn;
        given = hp;
        row = hr;
        secret = secret;
        active = active;
        business = business;
        license = (not-flip (is_expired (license_of db.now u.role u.license_expiry))).0 license;
      }

  checked-token :
      (password : List ℕ) (o : Option User)
      → str_eq user_id "" ≡ false
      → is_empty password ≡ false
      → login_user user_id db ≡ o
      → (has_token (checked_login bcrypt sign password db o) ≡ true) ↔ Admitted password
  checked-token password none hn hp hr = (λ h. cc, λ (u, may). let r = may.row in cc)
  checked-token password (some u) hn hp hr = (
    λ h. (u, given-token password u hn hp hr h),
    λ (v, may).
        subst (λ o. has_token (checked_login bcrypt sign password db o) ≡ true) (sym may.row ∙ hr)
          (token-given password v may),
  )

  -- What the login answers, with no write.
  abbrev pub IsLogin : List ℕ → Result LoginAnswer × Db → Type 0
  IsLogin password end =
      (a : LoginAnswer) × (end ≡ (ok a, db)) × ((has_token a ≡ true) ↔ Admitted password)

  login-cases :
      (c : ℕ) (password : List ℕ) (b : Bool)
      → str_eq user_id "" ≡ b
      → IsLogin (c ∷ password) (login bcrypt sign user_id (c ∷ password) db)
  unfolding login query pure
  login-cases c password true hb = rw hb (
    no_login 400 "User ID and password are required",
    refl,
    (λ h. cc, λ (u, may). let n = may.named in cc),
  )
  login-cases c password false hb = rw hb (
    checked_login bcrypt sign (c ∷ password) db (login_user user_id db),
    refl,
    checked-token (c ∷ password) (login_user user_id db) hb refl refl,
  )

  -- The login never writes, and gives a token just when the user id and the password are not empty,
  -- the password matches the hash of the user of that id, the user and their business are active,
  -- and no license of a driver has expired.
  pub login-IsLogin : (password : List ℕ) → IsLogin password (login bcrypt sign user_id password db)
  unfolding login pure
  login-IsLogin [] = (
    no_login 400 "User ID and password are required",
    refl,
    (λ h. cc, λ (u, may). let g = may.given in cc),
  )
  login-IsLogin (c ∷ password) = login-cases c password (str_eq user_id "") refl
