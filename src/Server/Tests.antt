-- ===== src/Server/Tests.antt =====
-- main.rs: a server with one backend and two files.
use miwidothttp.Prelude.{
  ℕ, ◌≡◌, refl, Bool, ◌||◌, true, false, Option, none, some, List, [], ◌∷◌, String, append_text,
  ◌=?◌, string_eq, if◌then◌else◌, pos,
}
use miwidothttp.Prelude.Assoc.{lookup}
use miwidothttp.StaticCache.{Disk, CachedFile, Bytes, Response, load_file, build_response}
use miwidothttp.StaticCache as StaticCache
use miwidothttp.ProcessManager.{ProcessConfig}
use miwidothttp.Metrics.{Scaling}
use miwidothttp.Metrics as Metrics
use miwidothttp.Server.{
  AppState, BackendConfig, Environment, FileSystem, FileTable, Request, Sent, answered,
  proxy_handler, load_config, start, default_server, default_ssl, trim_slashes,
}
use miwidothttp.Server.Idle.{Event, request, monitors, run, IsIdle, AnswersIdle, run-start-IsIdle}
use miwidothttp.Server.Routes.{Outside, Moment, Pattern, IsRouter, handle, handle-root, response}
use miwidothttp.Server.Backends.{IsAnswered, proxy_handler-backend}

abbrev two_files : Disk String
two_files = record {
  open_file = λ path.
      some record { metadata = some record { len = 1; modified = some (pos 5) }; mapped = none };
  read = λ path. some (if path =? "static/../secret" then 7 ∷ [] else 8 ∷ []);
}

abbrev files : FileSystem String
files = record {
  join = λ dir name. append_text dir (append_text "/" name);
  exists = λ path. path =? "static/../secret" || path =? "static/index.html";
  is_file = λ path. path =? "static/../secret" || path =? "static/index.html";
  is_dir = λ path. false;
  disk = two_files;
}

abbrev env : Environment String
env = record {
  client = λ sent. answered 200 [] (some (1 ∷ []));
  bytes = λ text. [];
  mime = λ path. "text/html";
}

abbrev backend : BackendConfig
backend = record { process = none; target = some "http://localhost:3000"; health_check = none }

abbrev state : AppState String ℕ
state = record {
  config = record {
    server = default_server;
    ssl = default_ssl;
    backends = ("app", backend) ∷ [];
    processes = [];
  };
  static_dir = "static";
  process_manager = [];
  metrics = Metrics.new;
  static_cache = StaticCache.new true;
}

abbrev asks : String → String → Request
asks host path = record {
  host = host;
  method = "GET";
  path = path;
  query = some "page=2";
  headers = ("host", host) ∷ ("accept", "*/*") ∷ [];
  body = some [];
}

trim_run : trim_slashes "//a/b" ≡ "a/b"
unfolding trim_slashes
trim_run = refl

proxy_handler-backend_example :
    (sent : List Sent) × (answer : Response) × IsAnswered env.bytes env.client backend
      (asks "app" "/list")
      sent
      answer
    × ((query : Option String)
        → proxy_handler env files files (record (asks "app" "/list") { query = query }) state
          ≡ (state, sent, answer))
unfolding lookup
proxy_handler-backend_example =
    proxy_handler-backend env files files (asks "app" "/list") state backend refl

abbrev secret : CachedFile
secret = record { content = 7 ∷ []; mime_type = "text/html"; etag = "\"1-5\""; last_modified = 5 }

abbrev index_page : CachedFile
index_page = record {
  content = 8 ∷ [];
  mime_type = "text/html";
  etag = "\"1-5\"";
  last_modified = 5;
}

abbrev halves : Scaling
halves = record { half = λ n. n; most = λ n. n; nearly_all = λ n. n }

abbrev find_route : List Pattern → String → Option ℕ
find_route ps path = if path =? "/" then none else some 4

abbrev outside : Outside String
outside = record {
  env = env;
  scale = halves;
  route_for = find_route;
  serve_dir = λ prefix dir req. record { status = 200; headers = []; body = [] };
  name_of = λ req. "worker";
}

find_route-IsRouter : IsRouter find_route
find_route-IsRouter = record { root = λ ps i h. cc }

abbrev moment : Moment String ℕ
moment = record { now = files; later = files; spawned = some 1; clock = 3; uptime = 9 }

handle-root_example :
    handle outside moment (asks "app" "/") state
    ≡ (state, [], response record { status = 200; headers = []; body = [] })
handle-root_example = handle-root outside find_route-IsRouter moment (asks "app" "/") state refl

abbrev no_file : String → Bool
no_file path = false

abbrev no_text : String → Option String
no_text path = none

abbrev no_table : String → Option FileTable
no_table text = none

abbrev no_spawn : String → ProcessConfig → Option ℕ
no_spawn name config = some 1

abbrev itself : String → String
itself path = path

abbrev events : List (Event String ℕ)
events = request moment (asks "app" "/restart") ∷ monitors (some 2 ∷ []) 4 ∷ []

run-start-IsIdle_example :
    IsIdle
      (load_config no_file no_text no_table)
      (run outside events (start itself no_spawn 0 (load_config no_file no_text no_table)))
    × AnswersIdle outside moment
        (asks "app" "/x")
        (run outside events (start itself no_spawn 0 (load_config no_file no_text no_table)))
run-start-IsIdle_example =
    run-start-IsIdle outside itself no_spawn 0 no_file no_text no_table events moment
      (asks "app" "/x")
