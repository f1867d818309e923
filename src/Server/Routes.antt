-- ===== src/Server/Routes.antt =====
-- main.rs: the router of `create_app`, behind the CORS layer, which answers OPTIONS requests itself and
-- adds headers to the answers. What axum matches is a parameter, as the index of the route. `ServeDir` is the parameter
-- `serve_dir`, with the prefix that a nested service does not see.
use miwidothttp.Prelude.{
  ℕ, zero, suc, ◌≡◌, ◌⊎◌, inl, inr, refl, ap, ◌∙◌, Bool, true, false, ◌||◌, Option, none, some,
  List, [], ◌∷◌, String, map, get_elem?, Eq, ◌=?◌, string_eq, if◌then◌else◌, Option-cases,
}
use miwidothttp.Metrics.{Scaling}
use miwidothttp.StaticCache.{Response}
use miwidothttp.Server.{
  AppState, Environment, FileSystem, Request, Sent, Report, healthy, proxy_handler, api_status,
  list_backends, list_processes, restart_process, metrics,
}

pub data Pattern : Type 0 where
  path : String → Pattern
  nest : String → Pattern

pub data Methods : Type 0 where
  get post any : Methods

pub data Endpoint : Type 0 where
  health status backend_list process_list restart metrics_page static_files proxy : Endpoint

pub record Route : Type 0 where
  pub pattern : Pattern
  pub methods : Methods
  pub endpoint : Endpoint

abbrev pub to : Pattern → Methods → Endpoint → Route
to pattern methods endpoint = record { pattern = pattern; methods = methods; endpoint = endpoint }

abbrev pub routes : List Route
routes =
    to (path "/health") get health
    ∷ to (path "/api/status") get status
    ∷ to (path "/api/backends") get backend_list
    ∷ to (path "/api/processes") get process_list
    ∷ to (path "/api/processes/:name/restart") post restart
    ∷ to (path "/metrics") get metrics_page
    ∷ to (nest "/static") any static_files
    ∷ to (path "/*path") any proxy
    ∷ []

-- axum's `get` takes HEAD requests too.
abbrev pub allows : Methods → String → Bool
allows get method = method =? "GET" || method =? "HEAD"
allows post method = method =? "POST"
allows any method = true

pub data Answer : Type 0 where
  response : Response → Answer
  report : ℕ → Report → Answer
  method_not_allowed : Answer

-- What is around a request: the file system when it is read first and when it is read later, what a
-- start of a process would give, and the times.
pub record Moment (FilePath Child : Type 0) : Type 0 where
  pub now : FileSystem FilePath
  pub later : FileSystem FilePath
  pub spawned : Option Child
  pub clock : ℕ
  pub uptime : ℕ

-- What the server uses and does not implement.
pub record Outside (FilePath : Type 0) : Type 0 where
  pub env : Environment FilePath
  pub scale : Scaling
  pub route_for : List Pattern → String → Option ℕ
  pub serve_dir : (prefix : String) → FilePath → Request → Response
  pub name_of : Request → String

module _ {FilePath Child : Type 0} ⦃e : Eq FilePath⦄ (o : Outside FilePath) where
  unfoldable pub serve_endpoint :
      Endpoint
      → Moment FilePath Child
      → Request
      → AppState FilePath Child
      → AppState FilePath Child × List Sent × Answer
  unfolding restart_process proxy_handler
  serve_endpoint health m req s = (s, [], report 200 healthy)
  serve_endpoint status m req s = (s, [], report 200 (api_status s))
  serve_endpoint backend_list m req s = (s, [], report 200 (list_backends s))
  serve_endpoint process_list m req s = (s, [], report 200 (list_processes s))
  serve_endpoint restart m req s =
      let (s', code, said) = restart_process m.spawned m.clock (o.name_of req) s in
      (s', [], report code said)
  serve_endpoint metrics_page m req s = (s, [], report 200 (metrics o.scale m.uptime s))
  serve_endpoint static_files m req s = (s, [], response (o.serve_dir "/static" s.static_dir req))
  serve_endpoint proxy m req s =
      let (s', sent, r) = proxy_handler o.env m.now m.later req s in (s', sent, response r)

  unfoldable pub fallback :
      Request → AppState FilePath Child → AppState FilePath Child × List Sent × Answer
  fallback req s = (s, [], response (o.serve_dir "" s.static_dir req))

  unfoldable pub dispatch :
      (route : Option ℕ)
      → Moment FilePath Child
      → Request
      → AppState FilePath Child
      → AppState FilePath Child × List Sent × Answer
  unfolding serve_endpoint fallback
  dispatch none m req s = fallback req s
  dispatch (some i) m req s = elim (get_elem? routes i) [
    | none ↦ fallback req s
    | some r ↦
        if allows r.methods req.method
        then serve_endpoint r.endpoint m req s
        else (s, [], method_not_allowed)
  ]

  unfoldable pub handle :
      Moment FilePath Child
      → Request
      → AppState FilePath Child
      → AppState FilePath Child × List Sent × Answer
  unfolding dispatch
  handle m req s = dispatch (o.route_for (map (λ r. r.pattern) routes) req.path) m req s

-- What axum says of its wildcards and of nested prefixes: the path "/" fits no route but one of "/".
pub record IsRouter (route_for : List Pattern → String → Option ℕ) : Type 0 where
  pub root :
      (ps : List Pattern) (i : ℕ)
      → route_for ps "/" ≡ some i
      → (get_elem? ps i ≡ some (path "/")) ⊎ (get_elem? ps i ≡ some (nest "/"))

abbrev path_text : Option Pattern → String
path_text none = ""
path_text (some (path s)) = s
path_text (some (nest s)) = s

not_root : (i : ℕ) → (path_text (get_elem? (map (λ r. r.pattern) routes) i) =? "/") ≡ false
not_root zero = refl
not_root (suc zero) = refl
not_root (suc (suc zero)) = refl
not_root (suc (suc (suc zero))) = refl
not_root (suc (suc (suc (suc zero)))) = refl
not_root (suc (suc (suc (suc (suc zero))))) = refl
not_root (suc (suc (suc (suc (suc (suc zero)))))) = refl
not_root (suc (suc (suc (suc (suc (suc (suc zero))))))) = refl
not_root (suc (suc (suc (suc (suc (suc (suc (suc i)))))))) = refl

no_route :
    (route_for : List Pattern → String → Option ℕ)
    → IsRouter route_for
    → route_for (map (λ r. r.pattern) routes) "/" ≡ none
no_route route_for law = elim (Option-cases (route_for (map (λ r. r.pattern) routes) "/")) [
  | inl e ↦ e
  | inr (i, e) ↦ absurd (elim (law.root (map (λ r. r.pattern) routes) i e) [
    | inl found ↦ cc (rw found at (not_root i))
    | inr found ↦ cc (rw found at (not_root i))
  ])
]

-- Where axum's routes keep its rules, every request for the path "/" that the CORS layer lets through is
-- answered by the files of the static directory, whatever its method and its host: nothing is sent to
-- the backend that the host may have, and the state stays as it is.
pub handle-root :
    {FilePath Child : Type 0} ⦃e : Eq FilePath⦄ (o : Outside FilePath)
    → IsRouter o.route_for
    → (m : Moment FilePath Child) (req : Request) (s : AppState FilePath Child) → req.path ≡ "/"
    → handle o m req s ≡ (s, [], response (o.serve_dir "" s.static_dir req))
unfolding handle dispatch fallback
handle-root o law m req s h =
    ap (λ route. dispatch o route m req s)
      (ap (o.route_for (map (λ r. r.pattern) routes)) h ∙ no_route o.route_for law)
