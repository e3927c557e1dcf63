-- ===== src/Http/UserIds.antt =====
-- The registration of backend/src/routes/auth.js keeps the user ids unique.
use renuzi_ops_platform.Prelude.{
  ◌≤◌, ◌≡◌, refl, sym, String, Bool, true, false, List, [], ◌∷◌, ◌++◌, is_some, first_row,
  count_rows, count_rows-append, count_rows-none, eq_iff, Bool-cases, Option-cases, inl, inr, arith,
}
use renuzi_ops_platform.Schema.{User}
use renuzi_ops_platform.Payload.{Error}
use renuzi_ops_platform.Database.{Db}
use renuzi_ops_platform.Exec.{ok, throw, query, throw_if, execute, identity, ◌>>=◌}
use renuzi_ops_platform.Exec.Atomic.{IsReadOnly-query, IsReadOnly-throw_if}
use renuzi_ops_platform.Exec.Preserves.{
  Relation, Preserves, Preserves-bind, Preserves-try_catch, Preserves-pure, holds-bind_read,
}
use renuzi_ops_platform.Http.Message.{respond}
use renuzi_ops_platform.Http.Account.{
  Bcrypt, RegisterForm, has_user_id, new_user, register_user, post_register,
}

-- Every user id stands once at most.
abbrev pub HasUniqueIds : Db → Type 0
HasUniqueIds db = (user_id : String) → count_rows (has_user_id user_id) db.users ≤ 1

abbrev keeps_ids : Relation
keeps_ids = record {
  holds = λ a b. HasUniqueIds a → HasUniqueIds b;
  stays = λ db h. h;
  follows = λ h k u. k (h u);
  counts = λ db h. h;
}

none-count :
    (i : String) (users : List User)
    → is_some (first_row (has_user_id i) users) ≡ false
    → count_rows (has_user_id i) users ≡ 0
none-count i users h = elim (Option-cases (first_row (has_user_id i) users)) [
  | inl e ↦ count_rows-none (has_user_id i) users e
  | inr (u, e) ↦ cc
]

add_unique :
    (users : List User) (u : User)
    → is_some (first_row (has_user_id u.user_id) users) ≡ false
    → ((i : String) → count_rows (has_user_id i) users ≤ 1)
    → (i : String) → count_rows (has_user_id i) (users ++ u ∷ []) ≤ 1
unfolding count_rows
add_unique users u free once i = elim (Bool-cases (has_user_id i u)) [
  | inl same ↦
      let eq = (eq_iff u.user_id i).0 same in
      let none_yet = none-count i users (rw (sym eq) free) in
      rw (count_rows-append (has_user_id i) users (u ∷ []), same, none_yet) (omega arith)
  | inr other ↦ rw (count_rows-append (has_user_id i) users (u ∷ []), other) (omega (arith, once i))
]

passed_test : (b : Bool) (e : Error) (db : Db) → (throw_if b e db).0 ≡ ok tt → b ≡ false
unfolding throw_if throw
passed_test true e db h = cc
passed_test false e db h = refl

add_user-IsUnique :
    (u : User) (db : Db)
    → is_some (first_row (has_user_id u.user_id) db.users) ≡ false
    → HasUniqueIds db
    → HasUniqueIds (record db { users = db.users ++ u ∷ [] })
add_user-IsUnique u db free once = add_unique db.users u free once

read_test : (f : Db → Bool) (b : Bool) (db : Db) → (query f db).0 ≡ ok b → b ≡ false → f db ≡ false
unfolding query
read_test f b db read e = cc

-- The INSERT under the key that the identity gives.
insert-keeps :
    (bcrypt : Bcrypt) (p : RegisterForm) (db : Db)
    → is_some (first_row (has_user_id p.user_id) db.users) ≡ false
    → keeps_ids.holds db
        ((identity >>= λ key.
            execute (λ d. record d { users = d.users ++ new_user bcrypt p key ∷ [] }))
          db).1
unfolding ◌>>=◌ identity execute
insert-keeps bcrypt p db free once =
    add_user-IsUnique (new_user bcrypt p db.next_identity) db free once

register_user-Preserves :
    (bcrypt : Bcrypt) (p : RegisterForm) → Preserves keeps_ids (register_user bcrypt p)
unfolding register_user
register_user-Preserves bcrypt p = record {
  at = λ db. holds-bind_read keeps_ids _ _ db (IsReadOnly-throw_if _ _) (λ _ _.
      holds-bind_read keeps_ids _ _ db (IsReadOnly-throw_if _ _) (λ _ _.
        holds-bind_read keeps_ids _ _ db (IsReadOnly-query _) (λ live _.
          holds-bind_read keeps_ids _ _ db (IsReadOnly-throw_if _ _) (λ _ _.
            holds-bind_read keeps_ids _ _ db (IsReadOnly-query _) (λ taken read.
              holds-bind_read keeps_ids _ _ db (IsReadOnly-throw_if _ _) (λ _ passed.
                let e = passed_test taken _ db passed in
                insert-keeps bcrypt p db (read_test _ taken db read e)))))));
}

-- A registration, whatever it answers, leaves every user id in at most one row, if it was so
-- before.
pub post_register-IsUnique :
    (bcrypt : Bcrypt) (p : RegisterForm) (u : User) (db : Db)
    → HasUniqueIds db
    → HasUniqueIds (post_register bcrypt p u db).1
unfolding post_register respond
post_register-IsUnique bcrypt p u db =
    (Preserves-try_catch _ _
        (Preserves-bind _ _ (register_user-Preserves bcrypt p) (λ _. Preserves-pure _))
        (λ e. Preserves-pure _)).at
      db
