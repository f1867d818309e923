-- ===== src/Server/Backends.antt =====
-- main.rs: what is sent to the backends, and what comes back.
use miwidothttp.Prelude.{
  ◌≡◌, refl, not, Option, none, some, List, [], ◌∷◌, String, append_text, retain, Eq, ◌=?◌,
  string_eq, if◌then◌else◌, arith, Option-cases, inl, inr, unwrap_or,
}
use text.Mathlib.TextEquality.{eq_iff}
use miwidothttp.Prelude.Assoc.{lookup}
use miwidothttp.StaticCache.{Bytes, Response}
use miwidothttp.Server.{
  AppState, BackendConfig, Environment, FileSystem, Request, Sent, proxy_handler, ask_backend,
  target_of, proxied, relay, plain, Reply, answered, failed,
}

-- All values of a header, in their order.
abbrev pub values_of : String → List (String × String) → List (String × String)
values_of name headers = retain (λ h. h.0 =? name) headers

values_of-retain_host :
    (name : String) (headers : List (String × String))
    → values_of name (retain (λ h. not (h.0 =? "host")) headers)
      ≡ (if name =? "host" then [] else values_of name headers)
values_of-retain_host name [] = ground arith
values_of-retain_host name ((found, value) ∷ rest) = ground (
  arith,
  eq_iff found "host",
  eq_iff found name,
  eq_iff name "host",
  values_of-retain_host name rest,
)

-- A request as a backend gets it: by its method, the target and the path, of each header all
-- the values that the request has, in their order, but none of Host, and its body; nothing is left of
-- its query.
pub record IsPassedOn (target : String) (body : Bytes) (req : Request) (sent : Sent) : Type 0 where
  pub same_method : sent.method ≡ req.method
  pub url_of_path : sent.url ≡ append_text target req.path
  pub same_headers :
      (name : String)
      → values_of name sent.headers ≡ (if name =? "host" then [] else values_of name req.headers)
  pub same_body : sent.body ≡ body

-- The answer for a reply: that of the backend, with a text in place of a body that cannot be read, or
-- the status 502 with the text of the error.
abbrev pub IsReply : (String → Bytes) → Reply → Response → Type 0
IsReply bytes (answered status headers body) answer =
    (answer.status ≡ status)
    × (answer.headers ≡ headers)
    × (answer.body ≡ unwrap_or body (bytes "Failed to read response from backend"))
IsReply bytes (failed text) answer =
    (answer.status ≡ 502) × (answer.body ≡ bytes (append_text "Backend unavailable: " text))

relay-IsReply : (bytes : String → Bytes) (reply : Reply) → IsReply bytes reply (relay bytes reply)
unfolding relay plain
relay-IsReply bytes (answered status headers body) = (refl, refl, refl)
relay-IsReply bytes (failed text) = (refl, refl)

-- What comes of a request for a host with a backend: what is sent, and the answer.
pub data IsAnswered (env : String → Bytes) (client : Sent → Reply) (backend : BackendConfig)
    (req : Request) (sent : List Sent) (answer : Response) : Type 0 where
  no_target :
      target_of backend ≡ none
      → sent ≡ []
      → answer.status ≡ 502
      → IsAnswered env client backend req sent answer
  unreadable :
      req.body ≡ none
      → sent ≡ []
      → answer.status ≡ 400
      → IsAnswered env client backend req sent answer
  asked :
      (target : String) (body : Bytes) (request : Sent)
      → target_of backend ≡ some target
      → req.body ≡ some body
      → IsPassedOn target body req request
      → sent ≡ request ∷ []
      → IsReply env (client request) answer
      → IsAnswered env client backend req sent answer

module _ {FilePath Child : Type 0} ⦃e : Eq FilePath⦄ (env : Environment FilePath)
    (now later : FileSystem FilePath) where
  -- A request for a host with a backend changes nothing of the state, and what is sent and answered is
  -- the same with any other query. Without a target nothing is sent and the status is 502; where the
  -- body cannot be read nothing is sent and it is 400; else the client is asked once for the request,
  -- which has all values of every header but Host, and no query, and the answer is the reply that the
  -- client ends with, any redirects that it follows included, or 502 where it fails.
  pub proxy_handler-backend :
      (req : Request) (s : AppState FilePath Child) (backend : BackendConfig)
      → lookup req.host s.config.backends ≡ some backend
      → (sent : List Sent) × (answer : Response) × IsAnswered env.bytes env.client backend req sent
          answer
        × ((query : Option String)
            → proxy_handler env now later (record req { query = query }) s ≡ (s, sent, answer))
  unfolding proxy_handler ask_backend proxied plain
  proxy_handler-backend req s backend host = elim (Option-cases (target_of backend)) [
    | inl missing ↦ (
      [],
      plain 502 (env.bytes "No backend target configured"),
      no_target missing refl refl,
      λ query. ground (arith, host, missing),
    )
    | inr (target, has_target) ↦ elim (Option-cases req.body) [
      | inl bad ↦ (
        [],
        plain 400 (env.bytes "Failed to read request body"),
        unreadable bad refl refl,
        λ query. ground (arith, host, has_target, bad),
      )
      | inr (body, readable) ↦
          let request = proxied target body req in
          (
            request ∷ [],
            relay env.bytes (env.client request),
            asked target body request has_target readable
                record {
                  same_method = refl;
                  url_of_path = refl;
                  same_headers = λ name. values_of-retain_host name req.headers;
                  same_body = refl;
                }
                refl (relay-IsReply env.bytes (env.client request)),
            λ query. ground (arith, host, has_target, readable),
          )
    ]
  ]
