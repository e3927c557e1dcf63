-- ===== src/Http/Acknowledge.antt =====
-- Who may acknowledge a dispatch by the routes driver-ack and customer-ack of
-- backend/src/routes/warehouse.js, which have no role check in front.
use renuzi_ops_platform.Prelude.{
  ℕ, ◌≡◌, refl, String, true, Option, none, some, List, ◌⊎◌, inl, inr, ◌==◌, ==_iff, or-parts,
  first_row, if-holds,
}
use renuzi_ops_platform.Constants.{Role}
use renuzi_ops_platform.Schema.{Row, Dispatch, User}
use renuzi_ops_platform.Payload.{DispatchAck}
use renuzi_ops_platform.Database.{Db}
use renuzi_ops_platform.Exec.{Result, ok, Exec, pure, query, ◌>>=◌}
use renuzi_ops_platform.Guards.{owned}
use renuzi_ops_platform.Warehouse.Outbound.{get_dispatch}
use renuzi_ops_platform.Http.Message.{Response, reply}
use renuzi_ops_platform.Http.Roles.{includes_role}
use renuzi_ops_platform.Http.WarehouseRoutes.{
  may_stamp, stamp_if_allowed, ack_managers, delivery_managers, put_driver_ack, put_customer_ack,
}

-- A dispatch of the user's business whose driver the user is, or which the user's role manages.
pub record MayAcknowledge (managers : List Role) (u : User) (key : ℕ) (db : Db) : Type 0 where
  pub dispatch : Row Dispatch
  pub found : first_row (owned u.business_key key) db.dispatch_table ≡ some dispatch
  pub entitled : (dispatch.body.driver_key ≡ u.user_key) ⊎ (includes_role managers u.role ≡ true)

-- A 404 or a 403 that writes nothing, or the request of one who may.
abbrev pub IsEntitled : List Role → User → ℕ → Db → Result Response × Db → Type 0
IsEntitled managers u key db end =
    ((r : Response) × ((r.status ≡ 404) ⊎ (r.status ≡ 403)) × (end ≡ (ok r, db)))
    ⊎ MayAcknowledge managers u key db

module _ (managers : List Role) (refusal : String) (u : User) (key : ℕ) (stamp : Exec Response)
    (db : Db) where
  stamp_if_allowed-IsEntitled :
      (d : Option (Row Dispatch))
      → first_row (owned u.business_key key) db.dispatch_table ≡ d
      → IsEntitled managers u key db (stamp_if_allowed managers refusal u stamp d db)
  unfolding pure
  stamp_if_allowed-IsEntitled none h = inl (reply 404 "Dispatch not found", inl refl, refl)
  stamp_if_allowed-IsEntitled (some d) h =
      if-holds (λ (m : Exec Response). IsEntitled managers u key db (m db)) (may_stamp managers u d)
        _ _
        (λ may. inr (record {
          dispatch = d;
          found = h;
          entitled = elim (or-parts (d.body.driver_key == u.user_key) _ may) [
            | inl e ↦ inl ((==_iff d.body.driver_key u.user_key).0 e)
            | inr e ↦ inr e
          ];
        }))
        (λ _. inl (reply 403 refusal, inr refl, refl))

put_driver_ack-IsEntitled :
    (key : ℕ) (signature : String) (u : User) (db : Db)
    → IsEntitled ack_managers u key db (put_driver_ack key signature u db)
unfolding put_driver_ack get_dispatch query ◌>>=◌
put_driver_ack-IsEntitled key signature u db =
    stamp_if_allowed-IsEntitled ack_managers _ u key _ db
      (first_row (owned u.business_key key) db.dispatch_table) refl

put_customer_ack-IsEntitled :
    (device : Option String) (key : ℕ) (p : DispatchAck) (u : User) (db : Db)
    → IsEntitled delivery_managers u key db (put_customer_ack device key p u db)
unfolding put_customer_ack get_dispatch query ◌>>=◌
put_customer_ack-IsEntitled device key p u db =
    stamp_if_allowed-IsEntitled delivery_managers _ u key _ db
      (first_row (owned u.business_key key) db.dispatch_table) refl

-- The routes for the acknowledgement of a driver and of a customer answer with a 404 or a 403 and
-- write nothing, unless the dispatch is of the business of the user and the user is its driver or
-- has one of the roles that manage it.
pub acknowledgements-IsEntitled :
    (device : Option String) (key : ℕ) (signature : String) (p : DispatchAck) (u : User) (db : Db)
    → IsEntitled ack_managers u key db (put_driver_ack key signature u db)
      × IsEntitled delivery_managers u key db (put_customer_ack device key p u db)
acknowledgements-IsEntitled device key signature p u db =
    (put_driver_ack-IsEntitled key signature u db, put_customer_ack-IsEntitled device key p u db)
