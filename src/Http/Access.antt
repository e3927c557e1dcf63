-- ===== src/Http/Access.antt =====
-- Who reaches a handler: backend/src/middleware/auth.js with roleCheck.js in front of each route.
use renuzi_ops_platform.Prelude.{
  ℕ, ◌≡◌, refl, sym, ◌∙◌, ap, Bool, true, false, not, ◌&&◌, Option, none, some, List, [], ◌∷◌, ◌⊎◌,
  inl, inr, if◌then◌else◌,
}
use renuzi_ops_platform.Constants.{Role}
use renuzi_ops_platform.Schema.{User}
use renuzi_ops_platform.Database.{Db}
use renuzi_ops_platform.Exec.{Result, ok, Exec, pure, query, ◌>>=◌}
use renuzi_ops_platform.Queue.{Worker}
use renuzi_ops_platform.Http.Message.{Request, Response, reply}
use renuzi_ops_platform.Http.Roles.{includes_role}
use renuzi_ops_platform.Http.Authenticate.{
  Gate, deny, pass, bearer, is_password_change, session_user, checked_user, verified,
  authenticate_token, check_role, run_handler, guarded,
}
use renuzi_ops_platform.Http.Account.{Bcrypt}
use renuzi_ops_platform.Http.Endpoint.{Endpoint, roles_of, handler, serve}

abbrev pub admits : Option (List Role) → Role → Bool
admits none r = true
admits (some allowed) r = includes_role allowed r

-- Everything that a user must show before a handler runs for them.
pub record MayAct (verify : List ℕ → Option ℕ) (roles : Option (List Role)) (req : Request)
    (db : Db) (u : User) : Type 0 where
  pub key : ℕ
  pub token : verify (bearer req.authorization) ≡ some key
  pub row : session_user key db ≡ some u
  pub active : u.is_active ≡ true
  pub rotated : u.must_change_password ≡ true → is_password_change req ≡ true
  pub role : admits roles u.role ≡ true

-- The gate is shut with a 401 or a 403, or lets a user through of whom P holds.
abbrev Decided : (User → Type 0) → Gate → Type 0
Decided P (deny r) = (r.status ≡ 401) ⊎ (r.status ≡ 403)
Decided P (pass u) = P u

Decided-if :
    (P : User → Type 0) (b : Bool) (g h : Gate)
    → (b ≡ true → Decided P g)
    → (b ≡ false → Decided P h)
    → Decided P (if b then g else h)
Decided-if P true g h hg hh = hg refl
Decided-if P false g h hg hh = hh refl

module _ (verify : List ℕ → Option ℕ) (req : Request) (db : Db) where
  not-false : (b : Bool) → not b ≡ false → b ≡ true
  not-false true e = refl
  not-false false e = sym e

  not_blocked : (b c : Bool) → b && not c ≡ false → b ≡ true → c ≡ true
  not_blocked true true e h = refl
  not_blocked true false e h = sym e
  not_blocked false c e h = cc

  checked_user-Decided :
      (key : ℕ) (o : Option User)
      → verify (bearer req.authorization) ≡ some key
      → session_user key db ≡ o
      → Decided (MayAct verify none req db) (checked_user req o)
  checked_user-Decided key none hv hs = inl refl
  checked_user-Decided key (some u) hv hs =
      Decided-if (MayAct verify none req db) (not u.is_active) _ _ (λ _. inr refl)
        (λ live.
          Decided-if (MayAct verify none req db)
            (u.must_change_password && not (is_password_change req)) _ _ (λ _. inr refl)
            (λ open_gate. record {
              key = key;
              token = hv;
              row = hs;
              active = not-false u.is_active live;
              rotated = not_blocked u.must_change_password (is_password_change req) open_gate;
              role = refl;
            }))

  -- What the gate says without a write, and that it is decided.
  abbrev Says : (User → Type 0) → Result Gate × Db → Type 0
  Says P end = (g : Gate) × (end ≡ (ok g, db)) × Decided P g

  -- A token that is there is looked up by the key that the verification gives.
  by_key-Says :
      (c : ℕ) (t : List ℕ) (o : Option ℕ)
      → bearer req.authorization ≡ c ∷ t
      → verify (c ∷ t) ≡ o
      → Says (MayAct verify none req db) (verified verify req (c ∷ t) db)
  unfolding query pure
  by_key-Says c t none hb hv = rw hv (deny (reply 403 "Invalid or expired token"), refl, inr refl)
  by_key-Says c t (some key) hb hv = rw hv (
    checked_user req (session_user key db),
    refl,
    checked_user-Decided key (session_user key db) (ap verify hb ∙ hv) refl,
  )

  verified-Says :
      (t : List ℕ)
      → bearer req.authorization ≡ t
      → Says (MayAct verify none req db) (verified verify req t db)
  unfolding pure
  verified-Says [] hb = (deny (reply 401 "Access denied. No token provided."), refl, inl refl)
  verified-Says (c ∷ t) hb = by_key-Says c t (verify (c ∷ t)) hb refl

  with_role :
      (roles : Option (List Role)) (u : User)
      → admits roles u.role ≡ true
      → MayAct verify none req db u
      → MayAct verify roles req db u
  with_role roles u h may = record {
    key = may.key;
    token = may.token;
    row = may.row;
    active = may.active;
    rotated = may.rotated;
    role = h;
  }

  check_role-Decided :
      (roles : Option (List Role)) (g : Gate)
      → Decided (MayAct verify none req db) g
      → Decided (MayAct verify roles req db) (check_role roles g)
  check_role-Decided roles (deny r) h = h
  check_role-Decided none (pass u) may = may
  check_role-Decided (some allowed) (pass u) may =
      Decided-if (MayAct verify (some allowed) req db) (includes_role allowed u.role) _ _
        (λ admitted. with_role (some allowed) u admitted may) (λ _. inr refl)

  -- An answer that the gate gives, or the handler's run for a user who may act.
  abbrev pub IsGuarded : Option (List Role) → (User → Exec Response) → Result Response × Db → Type 0
  IsGuarded roles act end =
      ((r : Response) × ((r.status ≡ 401) ⊎ (r.status ≡ 403)) × (end ≡ (ok r, db)))
      ⊎ ((u : User) × MayAct verify roles req db u × (end ≡ act u db))

  run_handler-IsGuarded :
      (roles : Option (List Role)) (act : User → Exec Response) (g : Gate)
      → Decided (MayAct verify roles req db) g
      → IsGuarded roles act (run_handler act g db)
  unfolding pure
  run_handler-IsGuarded roles act (deny r) h = inl (r, h, refl)
  run_handler-IsGuarded roles act (pass u) may = inr (u, may, refl)

  guarded-IsGuarded :
      (roles : Option (List Role)) (act : User → Exec Response)
      → IsGuarded roles act (guarded verify roles act req db)
  unfolding guarded authenticate_token ◌>>=◌
  guarded-IsGuarded roles act =
      let (g, e, h) = verified-Says (bearer req.authorization) refl in
      rw e (run_handler-IsGuarded roles act (check_role roles g) (check_role-Decided roles g h))

  -- Whatever endpoint a request is for, it is either refused with a 401 or a 403 that writes
  -- nothing, or the endpoint's handler runs for a user whom the verified token names, who is
  -- active, whose role the route admits, and whose request, where the password has to be rotated,
  -- is one that the test for a password change accepts.
  pub serve-IsGuarded :
      (w : Worker) (bcrypt : Bcrypt) (e : Endpoint)
      → IsGuarded (roles_of e) (handler w bcrypt e) (serve w bcrypt verify e req db)
  unfolding serve
  serve-IsGuarded w bcrypt e = guarded-IsGuarded (roles_of e) (handler w bcrypt e)
