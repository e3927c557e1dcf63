-- ===== src/Http/Authenticate.antt =====
-- backend/src/middleware/auth.js and the chain of middleware that a route runs first. `verify` is
-- jwt.verify with the secret: the userKey of a token that it accepts.
use renuzi_ops_platform.Prelude.{
  ℕ, Bool, true, false, not, ◌&&◌, ◌||◌, Option, none, some, List, [], ◌∷◌, ◌++◌, ◌==◌, str_eq,
  if◌then◌else◌, is_some, first_row,
}
use renuzi_ops_platform.Constants.{Role}
use renuzi_ops_platform.Schema.{User, Business}
use renuzi_ops_platform.Database.{Db}
use renuzi_ops_platform.Exec.{Exec, pure, query, ◌>>=◌}
use renuzi_ops_platform.DocNumbers.{codes}
use renuzi_ops_platform.Http.Message.{Request, Response, reply}
use renuzi_ops_platform.Http.Roles.{includes_role}

pub data Gate : Type 0 where
  deny : Response → Gate
  pass : User → Gate

-- The part up to the next space.
unfoldable pub word : List ℕ → List ℕ
word [] = []
word (c ∷ cs) = let rest = word cs in if c == b' ' then [] else c ∷ rest

-- header.split(' ')[1]; "" and undefined are the same to its reader.
unfoldable pub second_word : List ℕ → List ℕ
unfolding word
second_word [] = []
second_word (c ∷ cs) = let rest = second_word cs in if c == b' ' then word cs else rest

abbrev pub bearer : Option (List ℕ) → List ℕ
bearer none = []
bearer (some header) = second_word header

unfoldable pub same_codes : List ℕ → List ℕ → Bool
same_codes [] [] = true
same_codes (a ∷ as') (b ∷ bs) = (a == b) && same_codes as' bs
same_codes _ _ = false

-- The regular expression /suffix$/.
unfoldable pub ends_with : List ℕ → List ℕ → Bool
unfolding same_codes
ends_with suffix [] = same_codes suffix []
ends_with suffix (c ∷ cs) = same_codes suffix (c ∷ cs) || ends_with suffix cs

abbrev pub change_password_path : List ℕ
change_password_path = codes "/api/auth/change-password"

-- /\/api\/auth\/change-password\/?$/ on a POST.
unfoldable pub is_password_change : Request → Bool
is_password_change req =
    str_eq req.method "POST"
    && (ends_with change_password_path req.original_url
        || ends_with (change_password_path ++ b'/' ∷ []) req.original_url)

-- The user with that key, whose business exists (the JOIN).
unfoldable pub session_user : ℕ → Db → Option User
session_user user_key db =
    first_row
      (λ (u : User).
        (u.user_key == user_key)
        && is_some (first_row (λ (b : Business). b.business_key == u.business_key) db.businesses))
      db.users

abbrev pub checked_user : Request → Option User → Gate
checked_user req none = deny (reply 401 "Invalid or expired token")
checked_user req (some u) =
    if not u.is_active
    then deny (reply 403 "Account deactivated")
    else if u.must_change_password && not (is_password_change req)
    then deny (reply 403 "Password rotation required. Change your password before using the API.")
    else pass u

abbrev pub verified : (List ℕ → Option ℕ) → Request → List ℕ → Exec Gate
verified verify req [] = pure (deny (reply 401 "Access denied. No token provided."))
verified verify req (c ∷ token) = by_key (verify (c ∷ token))
  where
    by_key : Option ℕ → Exec Gate
    by_key none = pure (deny (reply 403 "Invalid or expired token"))
    by_key (some user_key) = query (λ db. checked_user req (session_user user_key db))

unfoldable pub authenticate_token : (List ℕ → Option ℕ) → Request → Exec Gate
authenticate_token verify req = verified verify req (bearer req.authorization)

-- requireRole(allowedRoles); a route without it admits every user.
abbrev pub check_role : Option (List Role) → Gate → Gate
check_role roles (deny r) = deny r
check_role none (pass u) = pass u
check_role (some allowed) (pass u) =
    if includes_role allowed u.role
    then pass u
    else deny (reply 403 "Access denied. Required role: ${allowedRoles}")

abbrev pub run_handler : (User → Exec Response) → Gate → Exec Response
run_handler handler (deny r) = pure r
run_handler handler (pass u) = handler u

-- router.put(path, authenticateToken, requireX, handler)
unfoldable pub guarded :
    (List ℕ → Option ℕ) → Option (List Role) → (User → Exec Response) → Request → Exec Response
guarded verify roles handler req = do
  gate ← authenticate_token verify req
  run_handler handler (check_role roles gate)
