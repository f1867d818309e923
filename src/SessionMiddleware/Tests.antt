-- ===== src/SessionMiddleware/Tests.antt =====
-- middleware/session.rs: sessions that are numbers, with their text as the token.
use miwidothttp.Prelude.{ℕ, ◌≡◌, refl, Bool, true, none, some, [], ◌∷◌, String, ◌=?◌, string_eq}
use miwidothttp.Prelude.Assoc.{lookup}
use miwidothttp.Proxy.{HeaderMap}
use miwidothttp.SessionMiddleware.{
  SessionModule, Response, status_response, require_auth, Request, RequireAuth, Loaded, loaded,
  failed, session_middleware, csrf_middleware,
}
use miwidothttp.SessionMiddleware.Chain.{chain, guarded, chain-guarded, csrf-failed}

abbrev module_of : Loaded String → SessionModule String ℕ
module_of l = record {
  extract_session_id = λ headers. some "s";
  load_session = λ id headers st. (st, l);
  create_session = λ headers st. (st, none);
  create_cookie = λ id. id;
  extract_csrf_token = λ headers. lookup "x-csrf-token" headers;
  validate_csrf_token = λ s token. s =? token;
  id = λ s. s;
  user_id = λ s. some "user";
}

abbrev any_value : String → Bool
any_value v = true

abbrev counts : RequireAuth String → Request String → ℕ → ℕ × Response
counts auth req st = (7, status_response 200)

abbrev posts : HeaderMap → Request String
posts headers = record { method = "POST"; headers = headers; extension = none }

with_token :
    chain (module_of (loaded "t")) any_value counts (posts (("x-csrf-token", "t") ∷ [])) 0
    ≡ (7, status_response 200)
unfolding chain lookup require_auth
with_token = refl

without_token :
    chain (module_of (loaded "t")) any_value counts (posts []) 0 ≡ (0, status_response 403)
unfolding chain lookup require_auth
without_token = refl

chain-guarded_example :
    chain (module_of (loaded "t")) any_value counts (posts []) 0
    ≡ chain
        (module_of (loaded "t"))
        any_value
        (guarded (module_of (loaded "t")) any_value counts)
        (posts [])
        0
chain-guarded_example = chain-guarded (module_of (loaded "t")) any_value counts (posts []) 0 refl

abbrev runs : Request String → ℕ → ℕ × Response
runs req st = (9, status_response 200)

csrf-failed_run :
    session_middleware
      (module_of failed)
      any_value
      (csrf_middleware (module_of failed) runs)
      (posts [])
      0
    ≡ (9, status_response 200)
csrf-failed_run = csrf-failed (module_of failed) any_value runs (posts []) 0 0 "s" refl refl
