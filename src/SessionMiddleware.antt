-- ===== src/SessionMiddleware.antt =====
-- middleware/session.rs (src/middleware/session.rs): the session and CSRF middlewares and the
-- extractors. The module `session` that the file uses is not in the repository: what is called of it
-- is the record `SessionModule`. The rest of the program is `next`, which may change the state too.
use miwidothttp.Prelude.{
  ℕ, Bool, List, [], true, false, ◌||◌, Option, none, some, String, if◌then◌else◌, ◌=?◌, string_eq,
}
use miwidothttp.Proxy.{HeaderMap, set_header}
pub mod Chain
mod Tests

pub data Loaded (Session : Type 0) : Type 0 where
  loaded : Session → Loaded Session
  absent failed : Loaded Session

pub record SessionModule (Session St : Type 0) : Type 0 where
  pub extract_session_id : HeaderMap → Option String
  pub load_session : String → HeaderMap → St → St × Loaded Session
  pub create_session : HeaderMap → St → St × Option Session
  pub create_cookie : String → String
  pub extract_csrf_token : HeaderMap → Option String
  pub validate_csrf_token : Session → String → Bool
  pub id : Session → String
  pub user_id : Session → Option String

pub record SessionData (Session : Type 0) : Type 0 where
  pub session : Option Session
  pub is_new : Bool

-- The data that the middleware adds stands among the extensions of a request.
pub record Request (Session : Type 0) : Type 0 where
  pub method : String
  pub headers : HeaderMap
  pub extension : Option (SessionData Session)

pub record RequireAuth (Session : Type 0) : Type 0 where
  pub session : Session
  pub user_id : String

pub record Response : Type 0 where
  pub status : ℕ
  pub headers : HeaderMap
  pub body : String

-- What axum makes of a status that a middleware or an extractor gives.
abbrev pub status_response : ℕ → Response
status_response status = record { status = status; headers = []; body = "" }

-- The methods that change something.
abbrev pub changes_state : String → Bool
changes_state method =
    method =? "POST" || method =? "PUT" || method =? "DELETE" || method =? "PATCH"

module _ {Session St : Type 0} (m : SessionModule Session St) where
  -- A new session, or none where it cannot be made.
  unfoldable pub create : HeaderMap → St → St × SessionData Session
  create headers st = elim ((m.create_session headers st).1) [
    | some s ↦ ((m.create_session headers st).0, record { session = some s; is_new = true })
    | none ↦ ((m.create_session headers st).0, record { session = none; is_new = false })
  ]

  -- The session of a request: loaded, or new where it names none or one that is not valid.
  unfoldable pub session_for : HeaderMap → St → St × SessionData Session
  unfolding create
  session_for headers st = elim (m.extract_session_id headers) [
    | none ↦ create headers st
    | some id ↦ elim ((m.load_session id headers st).1) [
      | loaded s ↦ ((m.load_session id headers st).0, record { session = some s; is_new = false })
      | absent ↦ create headers (m.load_session id headers st).0
      | failed ↦ ((m.load_session id headers st).0, record { session = none; is_new = false })
    ]
  ]

  -- The cookie of a new session among the headers of a response; one that is no value of a header is
  -- sent empty.
  unfoldable pub with_cookie :
      (is_value : String → Bool) → SessionData Session → HeaderMap → HeaderMap
  unfolding set_header
  with_cookie is_value d headers = elim d.session [
    | none ↦ headers
    | some s ↦
        let cookie = m.create_cookie (m.id s) in
        if d.is_new
        then set_header "set-cookie" (if is_value cookie then cookie else "") headers
        else headers
  ]

  unfoldable pub session_middleware :
      (is_value : String → Bool)
      → (next : Request Session → St → St × Response) → Request Session
      → St
      → St × Response
  unfolding session_for with_cookie
  session_middleware is_value next req st =
      let (st', d) = session_for req.headers st in
      let (st'', answer) = next (record req { extension = some d }) st' in
      (st'', record answer { headers = with_cookie is_value d answer.headers })

  -- Whether the middleware lets a request pass.
  unfoldable pub has_token : Session → HeaderMap → Bool
  has_token s headers = elim (m.extract_csrf_token headers) [
    | none ↦ false
    | some token ↦ m.validate_csrf_token s token
  ]

  unfoldable pub csrf_passes : Request Session → Bool
  unfolding has_token
  csrf_passes req =
      if changes_state req.method
      then elim req.extension [
        | none ↦ true
        | some d ↦ elim d.session [ none ↦ true | some s ↦ has_token s req.headers ]
      ]
      else true

  unfoldable pub csrf_middleware :
      (next : Request Session → St → St × Response) → Request Session → St → St × Response
  unfolding csrf_passes
  csrf_middleware next req st = if csrf_passes req then next req st else (st, status_response 403)

  -- The extractors; `none` is the status 401, where an extractor can fail.
  unfoldable pub session_extractor : Request Session → Option Session
  session_extractor req = elim req.extension [ none ↦ none | some d ↦ d.session ]

  unfoldable pub require_session : Request Session → Option Session
  require_session req = elim req.extension [ none ↦ none | some d ↦ d.session ]

  unfoldable pub require_auth : Request Session → Option (RequireAuth Session)
  unfolding require_session
  require_auth req = elim (require_session req) [
    | none ↦ none
    | some s ↦ elim (m.user_id s) [
      | none ↦ none
      | some user_id ↦ some record { session = s; user_id = user_id }
    ]
  ]
