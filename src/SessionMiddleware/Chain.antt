-- ===== src/SessionMiddleware/Chain.antt =====
-- middleware/session.rs: the session middleware around the CSRF middleware around a handler.
use miwidothttp.Prelude.{
  ◌≡◌, ap, Bool, true, false, none, some, String, Option-cases, inl, inr, if◌then◌else◌, arith,
}
use miwidothttp.SessionMiddleware.{
  SessionModule, SessionData, Response, status_response, Request, RequireAuth, failed,
  changes_state, session_for, with_cookie, session_middleware, csrf_passes, csrf_middleware,
  has_token, require_session, require_auth,
}

module _ {Session St : Type 0} (m : SessionModule Session St) (is_value : String → Bool) where
  -- A handler behind the extractor `RequireAuth`: without it the handler does not run.
  unfoldable pub authenticated :
      (handler : RequireAuth Session → Request Session → St → St × Response)
      → Request Session
      → St
      → St × Response
  authenticated handler req st = elim (require_auth m req) [
    | none ↦ (st, status_response 401)
    | some auth ↦ handler auth req st
  ]

  -- The whole chain.
  unfoldable pub chain :
      (handler : RequireAuth Session → Request Session → St → St × Response)
      → Request Session
      → St
      → St × Response
  unfolding session_middleware csrf_middleware authenticated
  chain handler = session_middleware m is_value (csrf_middleware m (authenticated handler))

  -- The same handler, which runs only on a session whose token the request carries.
  abbrev pub guarded :
      (handler : RequireAuth Session → Request Session → St → St × Response)
      → RequireAuth Session
      → Request Session
      → St
      → St × Response
  guarded handler auth req st =
      if has_token m auth.session req.headers
      then handler auth req st
      else (st, status_response 403)

  auth_session :
      (req : Request Session) (d : SessionData Session) (auth : RequireAuth Session)
      → require_auth m (record req { extension = some d }) ≡ some auth
      → d.session ≡ some auth.session
  unfolding require_auth require_session
  auth_session req d auth h = elim (Option-cases d.session) [
    | inl missing ↦ absurd (ground (arith, missing, h))
    | inr (s, found) ↦ elim (Option-cases (m.user_id s)) [
      | inl nobody ↦ absurd (ground (arith, found, nobody, h))
      | inr (user, named) ↦ ground (arith, found, named, h)
    ]
  ]

  csrf-guarded :
      (handler : RequireAuth Session → Request Session → St → St × Response) (req : Request Session)
      (d : SessionData Session) (st : St)
      → changes_state req.method ≡ true
      → csrf_middleware m (authenticated handler) (record req { extension = some d }) st
        ≡ csrf_middleware m (authenticated (guarded handler)) (record req { extension = some d }) st
  unfolding csrf_middleware csrf_passes authenticated
  csrf-guarded handler req d st changing =
      elim (Option-cases (require_auth m (record req { extension = some d }))) [
        | inl none_there ↦ ground (arith, none_there)
        | inr (auth, there) ↦ ground (arith, changing, there, auth_session req d auth there)
      ]

  -- Behind the two middlewares, a handler that asks for an authenticated user does on a request of a
  -- method that changes state exactly what it does where it is called only if the request carries a
  -- token that is valid for the user's session: without such a token it never runs.
  pub chain-guarded :
      (handler : RequireAuth Session → Request Session → St → St × Response) (req : Request Session)
      (st : St)
      → changes_state req.method ≡ true
      → chain handler req st ≡ chain (guarded handler) req st
  unfolding chain session_middleware
  chain-guarded handler req st changing =
      let d = (session_for m req.headers st).1 in
      ap (λ r. (r.0, record (r.1) { headers = with_cookie m is_value d r.1.headers }))
        (csrf-guarded handler req d (session_for m req.headers st).0 changing)

  -- Where a session cannot be loaded, the CSRF middleware lets every request pass, whatever token it
  -- carries or lacks: what is behind it runs, with no session.
  pub csrf-failed :
      (next : Request Session → St → St × Response) (req : Request Session) (st st' : St)
      (id : String)
      → m.extract_session_id req.headers ≡ some id
      → m.load_session id req.headers st ≡ (st', failed)
      → session_middleware m is_value (csrf_middleware m next) req st
        ≡ next (record req { extension = some record { session = none; is_new = false } }) st'
  unfolding session_middleware csrf_middleware csrf_passes session_for with_cookie
  csrf-failed next req st st' id named broken = ground (arith, named, broken)
