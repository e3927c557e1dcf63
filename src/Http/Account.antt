-- ===== src/Http/Account.antt =====
-- The routes of backend/src/routes/auth.js but for the profile, which is a report. A password is a
-- list of UTF-16 code units, `bcrypt` and `sign` stand for bcryptjs and jwt.sign.
use renuzi_ops_platform.Prelude.{
  ℕ, ◌+◌, ◌-◌, ◌/◌, ℤ, pos, ◌-ℤ◌, ltb_ℤ, leb_ℤ, String, Bool, true, false, not, ◌&&◌, ◌||◌, Option,
  none, some, List, [], ◌∷◌, ◌++◌, length, ◌==◌, ltb, str_eq, if◌then◌else◌, is_some, first_row,
  update_rows, count_rows,
}
use renuzi_ops_platform.Constants.{Role, driver, finance, unknown}
use renuzi_ops_platform.Schema.{Business, User}
use renuzi_ops_platform.Payload.{http}
use renuzi_ops_platform.Database.{Db}
use renuzi_ops_platform.Exec.{Exec, pure, query, throw_if, execute, identity, ◌>>=◌, ◌>>◌}
use renuzi_ops_platform.Http.Message.{Response, reply, respond}

pub record Bcrypt : Type 0 where
  pub hash : List ℕ → String
  pub compare : List ℕ → String → Bool

abbrev pub day_ms : ℕ
day_ms = 86400000

-- Math.ceil((expiry - now) / (1000 * 60 * 60 * 24))
unfoldable pub days_until : ℕ → ℕ → ℤ
days_until now expiry =
    if ltb expiry now
    then pos 0 -ℤ pos ((now - expiry) / day_ms)
    else pos ((expiry - now + (day_ms - 1)) / day_ms)

pub data License : Type 0 where
  expired valid : License
  warning : ℤ → License

abbrev pub graded : ℤ → License
graded days =
    if ltb_ℤ days (pos 0) then expired else if leb_ℤ days (pos 30) then warning days else valid

-- Only a driver's license counts.
unfoldable pub license_of : ℕ → Role → Option ℕ → License
license_of now driver (some expiry) = graded (days_until now expiry)
license_of now _ _ = valid

pub record LoginAnswer : Type 0 where
  pub response : Response
  pub token : Option (List ℕ)
  pub license_warning : Option ℤ
  pub must_change_password : Bool

abbrev pub no_login : ℕ → String → LoginAnswer
no_login status message = record {
  response = reply status message;
  token = none;
  license_warning = none;
  must_change_password = false;
}

abbrev pub logged_in : List ℕ → User → Option ℤ → LoginAnswer
logged_in token u days = record {
  response = reply 200 "Login successful";
  token = some token;
  license_warning = days;
  must_change_password = u.must_change_password;
}

abbrev pub with_license : List ℕ → User → License → LoginAnswer
with_license token u expired =
    no_login 403 "Your driver license has expired. Contact Fleet Manager immediately."
with_license token u valid = logged_in token u none
with_license token u (warning days) = logged_in token u (some days)

-- The row of the business that the query joins.
abbrev pub business_of : User → Db → Option Business
business_of u db = first_row (λ (b : Business). b.business_key == u.business_key) db.businesses

abbrev pub business_is_active : Option Business → Bool
business_is_active none = false
business_is_active (some b) = b.is_active

-- The user with that id, whose business exists (the JOIN).
unfoldable pub login_user : String → Db → Option User
login_user user_id db =
    first_row (λ (u : User). str_eq u.user_id user_id && is_some (business_of u db)) db.users

module _ (bcrypt : Bcrypt) (sign : User → List ℕ) where
  abbrev pub checked_login : List ℕ → Db → Option User → LoginAnswer
  checked_login password db none = no_login 401 "Invalid credentials"
  checked_login password db (some u) =
      if not (bcrypt.compare password u.password_hash)
      then no_login 401 "Invalid credentials"
      else if not u.is_active
      then no_login 403 "Account deactivated. Contact admin."
      else if not (business_is_active (business_of u db))
      then no_login 403 "Business account is inactive."
      else with_license (sign u) u (license_of db.now u.role u.license_expiry)

  -- "" stands for a missing user id or password.
  unfoldable pub login : String → List ℕ → Exec LoginAnswer
  login user_id [] = pure (no_login 400 "User ID and password are required")
  login user_id (c ∷ password) =
      if str_eq user_id ""
      then pure (no_login 400 "User ID and password are required")
      else query (λ db. checked_login (c ∷ password) db (login_user user_id db))

-- `none` is no role, `unknown` and `finance` are strings outside USER_ROLES.
pub record RegisterForm : Type 0 where
  pub user_id : String
  pub full_name : String
  pub role : Option Role
  pub department : String
  pub business_key : ℕ
  pub password : List ℕ
  pub license_expiry : Option ℕ

abbrev pub is_user_role : Role → Bool
is_user_role finance = false
is_user_role unknown = false
is_user_role _ = true

abbrev pub is_empty : List ℕ → Bool
is_empty [] = true
is_empty (c ∷ cs) = false

abbrev pub lacks_field : RegisterForm → Bool
lacks_field p =
    str_eq p.user_id ""
    || str_eq p.full_name ""
    || not (is_some p.role)
    || str_eq p.department ""
    || (p.business_key == 0)
    || is_empty p.password

abbrev pub live_business : ℕ → Db → Bool
live_business key db =
    is_some (first_row (λ (b : Business). (b.business_key == key) && b.is_active) db.businesses)

abbrev pub has_user_id : String → User → Bool
has_user_id user_id u = str_eq u.user_id user_id

abbrev pub role_or_unknown : Option Role → Role
role_or_unknown none = unknown
role_or_unknown (some r) = r

-- Names, mail, phone, department and license number are only written.
abbrev pub new_user : Bcrypt → RegisterForm → ℕ → User
new_user bcrypt p key = record {
  user_key = key;
  business_key = p.business_key;
  user_id = p.user_id;
  role = role_or_unknown p.role;
  is_active = true;
  must_change_password = false;
  password_hash = bcrypt.hash p.password;
  license_expiry = p.license_expiry;
}

-- No other request inserts between the probe and the INSERT, so that UNIQUE(user_id) holds.
unfoldable pub register_user : Bcrypt → RegisterForm → Exec (Unit {0})
register_user bcrypt p = do
  throw_if (lacks_field p)
      (http 400 "Required fields: userId, fullName, role, department, businessKey, password")
  throw_if (not (is_user_role (role_or_unknown p.role))) (http 400 "Invalid role. Valid roles: …")
  live ← query (live_business p.business_key)
  throw_if (not live) (http 400 "businessKey does not reference an active business")
  taken ← query (λ db. is_some (first_row (has_user_id p.user_id) db.users))
  throw_if taken (http 409 "User ID already exists")
  key ← identity
  execute (λ db. record db { users = db.users ++ new_user bcrypt p key ∷ [] })

unfoldable pub post_register : Bcrypt → RegisterForm → User → Exec Response
post_register bcrypt p u =
    respond (register_user bcrypt p) (λ x. reply 201 "User ${userId} created successfully")
      "Registration failed"

abbrev pub is_user : ℕ → User → Bool
is_user key u = u.user_key == key

abbrev pub with_password : String → User → User
with_password hash u = record u { password_hash = hash; must_change_password = false }

abbrev pub rotated : ℕ → Response
rotated affected =
    if affected == 0 then reply 404 "User not found" else reply 200 "Password changed successfully"

abbrev pub rotate : Bcrypt → List ℕ → List ℕ → ℕ → Option User → Exec Response
rotate bcrypt current new key none = pure (reply 404 "User not found")
rotate bcrypt current new key (some row) =
    if not (bcrypt.compare current row.password_hash)
    then pure (reply 401 "Current password is incorrect")
    else (do
      execute (λ db. record db {
        users = update_rows (is_user key) (with_password (bcrypt.hash new)) db.users;
      })
      affected ← query (λ db. count_rows (is_user key) db.users)
      pure (rotated affected))

unfoldable pub change_password : Bcrypt → List ℕ → List ℕ → User → Exec Response
change_password bcrypt current new u =
    if is_empty current || ltb (length new) 6
    then pure (reply 400 "Current password and new password (min 6 chars) required")
    else (do
      row ← query (λ db. first_row (is_user u.user_key) db.users)
      rotate bcrypt current new u.user_key row)
