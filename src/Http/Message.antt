-- ===== src/Http/Message.antt =====
-- Requests and responses, and how the routes of backend/src/routes answer for a service.
use renuzi_ops_platform.Prelude.{ℕ, String, false, Option, List}
use renuzi_ops_platform.Schema.{User}
use renuzi_ops_platform.Payload.{Error, http, conflict, plain, sql_error, reference_error, Actor}
use renuzi_ops_platform.Exec.{Exec, pure, try_catch, ◌>>=◌}

-- What the middleware reads of a request; texts as their code points.
pub record Request : Type 0 where
  pub method : String
  pub original_url : List ℕ
  pub authorization : Option (List ℕ)

-- The status and the message; the data of an answer is what the service returned.
pub record Response : Type 0 where
  pub status : ℕ
  pub message : String

abbrev pub reply : ℕ → String → Response
reply status message = record { status = status; message = message }

-- serviceErrorResponse with fail: only an HttpError is told to the client.
abbrev pub service_error : String → Error → Response
service_error fallback (http status message) = reply status message
service_error fallback (conflict m v p) = reply 500 fallback
service_error fallback (plain m) = reply 500 fallback
service_error fallback (sql_error m) = reply 500 fallback
service_error fallback (reference_error m) = reply 500 fallback

-- try { … return res.json(…) } catch (err) { return serviceErrorResponse(…) }
unfoldable pub respond : {A : Type 0} → Exec A → (A → Response) → String → Exec Response
respond work answer fallback =
    try_catch (work >>= λ a. pure (answer a)) (λ e. pure (service_error fallback e))

-- { userKey: req.user.userKey, businessKey: req.user.businessKey, deviceId }
abbrev pub actor_of : User → Option String → Actor
actor_of u device_id = record {
  user_key = u.user_key;
  business_key = u.business_key;
  device_id = device_id;
  conflict_override = false;
}
