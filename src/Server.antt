-- ===== src/Server.antt =====
-- main.rs (src/main.rs): the configuration, what `main` starts with, the routes of `create_app` and
-- their handlers. The file system is the record `FileSystem`, the client that asks the backends
-- `Client`; reading TOML is `parse`, which gives what stands in the file, and the matching of paths
-- with routes is that of axum, the parameter `route_for`. A `PathBuf` is a type with equality. What
-- a JSON reply says is given as a value; the tasks of the servers, TLS and logging are left out.
use miwidothttp.Prelude.{
  ℕ, Bool, true, false, not, ◌&&◌, Option, none, some, List, [], ◌∷◌, ◌++◌, String, append_text,
  unwrap_or, length, retain, starts_with, map, Eq, ◌=?◌, string_eq, if◌then◌else◌, ◌>>=◌,
}
use Prim.Native.String as Text
use miwidothttp.Prelude.Assoc.{lookup}
use miwidothttp.Rewrite.{decimal_text}
use miwidothttp.ProcessManager.{
  ProcessConfig, Processes, ProcessStatus, Error, ok, err, start_process, get_status,
}
use miwidothttp.ProcessManager as ProcessManager
use miwidothttp.StaticCache as StaticCache
use miwidothttp.StaticCache.{StaticCache, Disk, Response, Bytes, serve_file}
use miwidothttp.Metrics as Metrics
use miwidothttp.Metrics.{MetricsCollector, Prometheus, Scaling, get_prometheus_metrics}
mod Settings
unfoldable pub use Settings.*
pub mod Idle
pub mod Backends
pub mod Files
pub mod Routes
mod Tests

-- What `main` puts together; the rate limiter is never asked, and there is no session manager.
pub record AppState (FilePath Child : Type 0) : Type 0 where
  pub config : Config
  pub static_dir : FilePath
  pub process_manager : Processes Child
  pub metrics : MetricsCollector
  pub static_cache : StaticCache FilePath

-- The loop over the configured processes; a start that fails is logged.
unfoldable pub start_all :
    {Child : Type 0} (spawn : String → ProcessConfig → Option Child) (now : ℕ)
    → List (String × ProcessConfig)
    → Processes Child
    → Processes Child
start_all spawn now [] ps = ps
start_all spawn now ((name, config) ∷ rest) ps =
    start_all spawn now rest (start_process name config (spawn name config) now ps).0

unfoldable pub start :
    {FilePath Child : Type 0} (to_path : String → FilePath)
    (spawn : String → ProcessConfig → Option Child) (now : ℕ)
    → Config
    → AppState FilePath Child
unfolding start_all
start to_path spawn now config = record {
  config = config;
  static_dir = to_path config.server.static_dir;
  process_manager = start_all spawn now config.processes [];
  metrics = Metrics.new;
  static_cache = StaticCache.new true;
}

-- A request: the host of axum's extractor `Host`, the parts of the URI, and the body, `none` where it
-- cannot be read.
pub record Request : Type 0 where
  pub host : String
  pub method : String
  pub path : String
  pub query : Option String
  pub headers : List (String × String)
  pub body : Option Bytes

-- What goes to a backend.
pub record Sent : Type 0 where
  pub method : String
  pub url : String
  pub headers : List (String × String)
  pub body : Bytes

-- What comes of a request to a backend: an answer, with the body where it can be read, or the text of
-- an error.
pub data Reply : Type 0 where
  answered : (status : ℕ) → List (String × String) → Option Bytes → Reply
  failed : (text : String) → Reply

pub record FileSystem (FilePath : Type 0) : Type 0 where
  pub join : FilePath → String → FilePath
  pub exists : FilePath → Bool
  pub is_file : FilePath → Bool
  pub is_dir : FilePath → Bool
  pub disk : Disk FilePath

-- What the handlers rely on: the backends, the bytes of a text, and the guess of a MIME type.
pub record Environment (FilePath : Type 0) : Type 0 where
  pub client : Sent → Reply
  pub bytes : String → Bytes
  pub mime : FilePath → String

unfoldable pub plain : ℕ → Bytes → Response
plain status body = record { status = status; headers = []; body = body }

-- The URL's part before the path.
unfoldable pub target_of : BackendConfig → Option String
unfolding decimal_text
target_of backend = elim backend.target [
  | some target ↦ some target
  | none ↦ elim backend.process [
    | some process ↦ some (append_text "http://localhost:" (decimal_text process.port))
    | none ↦ none
  ]
]

-- The request to the backend: the method, the URL, all headers but Host, and the body.
unfoldable pub proxied : (target : String) → Bytes → Request → Sent
proxied target body req = record {
  method = req.method;
  url = append_text target req.path;
  headers = retain (λ h. not (h.0 =? "host")) req.headers;
  body = body;
}

unfoldable pub relay : (bytes : String → Bytes) → Reply → Response
unfolding plain
relay bytes (answered status headers body) = record {
  status = status;
  headers = headers;
  body = unwrap_or body (bytes "Failed to read response from backend");
}
relay bytes (failed text) = plain 502 (bytes (append_text "Backend unavailable: " text))

-- The branch of a host that has a backend. The list is what was sent.
unfoldable pub ask_backend :
    (client : Sent → Reply) (bytes : String → Bytes)
    → BackendConfig
    → Request
    → List Sent × Response
unfolding target_of proxied relay
ask_backend client bytes backend req = elim (target_of backend) [
  | none ↦ ([], plain 502 (bytes "No backend target configured"))
  | some target ↦ elim req.body [
    | none ↦ ([], plain 400 (bytes "Failed to read request body"))
    | some body ↦ let sent = proxied target body req in (sent ∷ [], relay bytes (client sent))
  ]
]

-- `path.trim_start_matches('/')`.
unfoldable pub trim_slashes : String → String
trim_slashes Text.[] = ""
trim_slashes (Text.◌∷◌ c s) =
    let rest = trim_slashes s in if starts_with (Text.◌∷◌ c s) "/" then rest else Text.◌∷◌ c s

module _ {FilePath : Type 0} ⦃e : Eq FilePath⦄ where
  -- The branch of any other host. The tests read the files at one time, and the loading, where the
  -- file is not cached, at a later one.
  unfoldable pub serve_static :
      Environment FilePath
      → (static_dir : FilePath) (now later : FileSystem FilePath) → Request
      → StaticCache FilePath
      → StaticCache FilePath × Response
  unfolding trim_slashes serve_file
  serve_static env static_dir now later req c =
      let serve = λ (path : FilePath). serve_file env.mime env.bytes later.disk path c in
      let file_path = now.join static_dir (trim_slashes req.path) in
      if now.exists file_path && now.is_file file_path
      then serve file_path
      else (let index_path =
            if now.is_dir file_path
            then now.join file_path "index.html"
            else now.join static_dir "index.html" in
          if now.exists index_path
          then serve index_path
          else (c, plain 404 (env.bytes "404 Not Found")))

  unfoldable pub proxy_handler :
      {Child : Type 0}
      → Environment FilePath
      → (now later : FileSystem FilePath) → Request
      → AppState FilePath Child
      → AppState FilePath Child × List Sent × Response
  unfolding ask_backend serve_static lookup
  proxy_handler env now later req s = elim (lookup req.host s.config.backends) [
    | some backend ↦
        let (sent, answer) = ask_backend env.client env.bytes backend req in (s, sent, answer)
    | none ↦
        let served = serve_static env s.static_dir now later req s.static_cache in
        (record s { static_cache = served.0 }, [], served.1)
  ]

-- What the other handlers answer.
pub data Report : Type 0 where
  healthy : Report
  status_of : (http_port https_port : ℕ) (ssl_enabled : Bool) (backends_configured : ℕ) → Report
  backends : List (String × Option String × Option String) → Report
  processes : List (String × ProcessStatus) → Report
  restarted : String → Report
  restart_failed : Error → Report
  metrics_text : Prometheus → Report

module _ {FilePath Child : Type 0} where
  unfoldable pub api_status : AppState FilePath Child → Report
  api_status s =
      status_of s.config.server.http_port s.config.server.https_port s.config.ssl.enabled
        (length s.config.backends)

  unfoldable pub list_backends : AppState FilePath Child → Report
  list_backends s =
      backends (map (λ named. (named.0, named.1.target, named.1.health_check)) s.config.backends)

  unfoldable pub list_processes : AppState FilePath Child → Report
  list_processes s = processes (get_status s.process_manager)

  unfoldable pub metrics : Scaling → (uptime : ℕ) → AppState FilePath Child → Report
  metrics scale uptime s = metrics_text (get_prometheus_metrics scale uptime s.metrics)

  -- The status with which a restart is answered is 200 or 500.
  unfoldable pub restart_process :
      (spawned : Option Child) (now : ℕ)
      → String
      → AppState FilePath Child
      → AppState FilePath Child × ℕ × Report
  restart_process spawned now name s =
      let done = ProcessManager.restart_process name spawned now s.process_manager in
      let after = record s { process_manager = done.0 } in
      elim done.1 [ ok _ ↦ (after, 200, restarted name) | err e ↦ (after, 500, restart_failed e) ]
