-- ===== src/Server/Idle.antt =====
-- main.rs: what a server never does, whatever it is asked.
use miwidothttp.Prelude.{
  ℕ, ◌≡◌, refl, Bool, Option, none, some, List, [], ◌∷◌, String, Eq, string_eq, arith, ap, sym,
  subst, Option-cases, inl, inr, Bool-cases, get_elem?, map,
}
use miwidothttp.Prelude.Assoc.{lookup}
use miwidothttp.ProcessManager as ProcessManager
use miwidothttp.ProcessManager.{Processes, ProcessConfig, not_found, err, get_status, monitor_round}
use miwidothttp.Metrics as Metrics
use miwidothttp.Metrics.{MetricsCollector, get_prometheus_metrics, Prometheus}
use miwidothttp.Server.{
  AppState, Config, FileTable, Request, start, start_all, config_of, load_config, load_from,
  config_paths, proxy_handler, restart_process, restart_failed, list_processes, processes, metrics,
  metrics_text,
}
use miwidothttp.Server.Routes.{
  Outside, Moment, Endpoint, health, status, backend_list, process_list, restart, metrics_page,
  static_files, proxy, serve_endpoint, fallback, dispatch, handle, routes, allows, report,
}

load_from-processes :
    (exists : String → Bool) (read : String → Option String) (parse : String → Option FileTable)
    (paths : List String)
    → (load_from exists read parse paths).processes ≡ []
unfolding load_from config_of
load_from-processes exists read parse [] = refl
load_from-processes exists read parse (path ∷ paths) =
    ground (arith, load_from-processes exists read parse paths)

module _ {FilePath Child : Type 0} where
  -- No process is in the table, no request is counted, and the configuration is the one of the start.
  pub record IsIdle (config : Config) (s : AppState FilePath Child) : Type 0 where
    pub no_process : s.process_manager ≡ []
    pub uncounted : s.metrics ≡ Metrics.new
    pub same_config : s.config ≡ config

  start-IsIdle :
      (to_path : String → FilePath) (spawn : String → ProcessConfig → Option Child) (now : ℕ)
      (exists : String → Bool) (read : String → Option String) (parse : String → Option FileTable)
      → IsIdle
          (load_config exists read parse)
          (start to_path spawn now (load_config exists read parse))
  unfolding start load_config
  start-IsIdle to_path spawn now exists read parse = record {
    no_process = rw (load_from-processes exists read parse config_paths, start_all) refl;
    uncounted = refl;
    same_config = refl;
  }

-- A restart finds no process.
restart_nothing :
    {Child : Type 0} (spawned : Option Child) (now : ℕ) (name : String)
    → ProcessManager.restart_process name spawned now [] ≡ ([], err not_found)
unfolding ProcessManager.restart_process lookup
restart_nothing spawned now name = refl

-- What happens to a server: a request, or a round of the monitoring task.
pub data Event (FilePath Child : Type 0) : Type 0 where
  request : Moment FilePath Child → Request → Event FilePath Child
  monitors : List (Option Child) → ℕ → Event FilePath Child

module _ {FilePath Child : Type 0} ⦃e : Eq FilePath⦄ (o : Outside FilePath) where
  -- What the three handlers answer that tell of the processes and of the requests.
  pub record AnswersIdle (m : Moment FilePath Child) (req : Request) (s : AppState FilePath Child)
      : Type 0 where
    pub restarts : (serve_endpoint o restart m req s).2 ≡ report 500 (restart_failed not_found)
    pub lists : (serve_endpoint o process_list m req s).2 ≡ report 200 (processes [])
    pub reports :
        (serve_endpoint o metrics_page m req s).2
        ≡ report 200 (
            metrics_text record {
              requests = [];
              latency = none;
              active = 0;
              received = 0;
              sent = 0;
              errors = 0;
              uptime = m.uptime;
            })

  module _ (m : Moment FilePath Child) (req : Request) (config : Config)
      (s : AppState FilePath Child) (i : IsIdle config s) where
    restart-idle : serve_endpoint o restart m req s ≡ (s, [], report 500 (restart_failed not_found))
    unfolding serve_endpoint restart_process ProcessManager.restart_process lookup
    restart-idle = ground (arith, i.no_process, restart_nothing m.spawned m.clock (o.name_of req))

    answers-idle : AnswersIdle m req s
    unfolding serve_endpoint list_processes get_status metrics get_prometheus_metrics Metrics.new
        Metrics.cells
    answers-idle = record {
      restarts = ap (λ r. r.2) restart-idle;
      lists = ap (λ ps. report 200 (processes (get_status ps))) i.no_process;
      reports =
          ap (λ c. report 200 (metrics_text (get_prometheus_metrics o.scale m.uptime c)))
            i.uncounted;
    }

    proxy_handler-IsIdle : IsIdle config (proxy_handler o.env m.now m.later req s).0
    unfolding proxy_handler
    proxy_handler-IsIdle = elim (Option-cases (lookup req.host s.config.backends)) [
      | inl other ↦
          rw (proxy_handler, other)
            record {
              no_process = i.no_process;
              uncounted = i.uncounted;
              same_config = i.same_config;
            }
      | inr (backend, found) ↦ rw (proxy_handler, found) i
    ]

    serve_endpoint-IsIdle : (p : Endpoint) → IsIdle config (serve_endpoint o p m req s).0
    unfolding serve_endpoint
    serve_endpoint-IsIdle health = i
    serve_endpoint-IsIdle status = i
    serve_endpoint-IsIdle backend_list = i
    serve_endpoint-IsIdle process_list = i
    serve_endpoint-IsIdle restart = subst (λ r. IsIdle config r.0) (sym restart-idle) i
    serve_endpoint-IsIdle metrics_page = i
    serve_endpoint-IsIdle static_files = i
    serve_endpoint-IsIdle proxy = proxy_handler-IsIdle

    dispatch-IsIdle : (route : Option ℕ) → IsIdle config (dispatch o route m req s).0
    unfolding dispatch fallback
    dispatch-IsIdle none = i
    dispatch-IsIdle (some n) = elim (Option-cases (get_elem? routes n)) [
      | inl missing ↦ rw (dispatch, missing) i
      | inr (r, found) ↦ elim (Bool-cases (allows r.methods req.method)) [
        | inl taken ↦ rw (dispatch, found, taken) (serve_endpoint-IsIdle r.endpoint)
        | inr refused ↦ rw (dispatch, found, refused) i
      ]
    ]

  unfoldable pub after : Event FilePath Child → AppState FilePath Child → AppState FilePath Child
  after (request m req) s = (handle o m req s).0
  after (monitors spawns now) s = record s {
    process_manager = monitor_round spawns now s.process_manager;
  }

  unfoldable pub run :
      List (Event FilePath Child) → AppState FilePath Child → AppState FilePath Child
  unfolding after
  run [] s = s
  run (ev ∷ evs) s = run evs (after ev s)

  after-IsIdle :
      (config : Config) (ev : Event FilePath Child) (s : AppState FilePath Child)
      → IsIdle config s
      → IsIdle config (after ev s)
  unfolding after handle monitor_round
  after-IsIdle config (request m req) s i =
      dispatch-IsIdle m req config s i (o.route_for (map (λ r. r.pattern) routes) req.path)
  after-IsIdle config (monitors spawns now) s i = record {
    no_process = ap (monitor_round spawns now) i.no_process;
    uncounted = i.uncounted;
    same_config = i.same_config;
  }

  run-IsIdle :
      (config : Config) (evs : List (Event FilePath Child)) (s : AppState FilePath Child)
      → IsIdle config s
      → IsIdle config (run evs s)
  unfolding run
  run-IsIdle config [] s i = i
  run-IsIdle config (ev ∷ evs) s i = run-IsIdle config evs (after ev s) (after-IsIdle config ev s i)

  -- Whatever the configuration file says, and whatever requests and rounds of monitoring follow, the
  -- server has no process in its table and has counted no request, and its configuration is the one it
  -- started with: every restart of a process is answered with 500 for want of the process, the list of
  -- processes is empty, and the metrics show no request, no latency and no bytes.
  pub run-start-IsIdle :
      (to_path : String → FilePath) (spawn : String → ProcessConfig → Option Child) (now : ℕ)
      (exists : String → Bool) (read : String → Option String) (parse : String → Option FileTable)
      (evs : List (Event FilePath Child)) (m : Moment FilePath Child) (req : Request)
      → IsIdle
          (load_config exists read parse)
          (run evs (start to_path spawn now (load_config exists read parse)))
        × AnswersIdle m req (run evs (start to_path spawn now (load_config exists read parse)))
  run-start-IsIdle to_path spawn now exists read parse evs m req =
      let config = load_config exists read parse in
      let i =
        run-IsIdle config evs (start to_path spawn now config)
          (start-IsIdle to_path spawn now exists read parse) in
      (i, answers-idle m req config (run evs (start to_path spawn now config)) i)
