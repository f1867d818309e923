-- ===== src/Supervisor/Tests.antt =====
-- process.rs: the theorems' witnesses, and a process that no stop takes off the table.
use miwidothttp.Prelude.{◌≡◌, refl, true, none, some, [], ◌∷◌, string_eq, length}
use miwidothttp.Prelude.Assoc.{lookup, insert}
use miwidothttp.Supervisor.{
  ProcessManager, ProcessConfig, BackendConfig, node_js, Command, Spawned, child, graceful, new,
  start_backend, start_app, stop_all, command_of, start_with, nodejs_command, after_spawn, keep,
  stop_each, stop_process,
}

abbrev node_config : ProcessConfig
node_config = record {
  command = "node";
  args = "app.js" ∷ [];
  env = [];
  working_dir = none;
  auto_restart = true;
}

abbrev backend : BackendConfig
backend = record {
  url = "http://localhost:3000";
  app_type = node_js;
  health_check = none;
  process = some node_config;
}

-- A system that gives every child the id 42.
abbrev spawn : Command → Spawned
spawn c = child 42

abbrev started : ProcessManager
started = (start_backend spawn "app" backend new).0

abbrev tomcat_config : ProcessConfig
tomcat_config = record node_config { env = ("CATALINA_OPTS", "-server") ∷ ("LANG", "C") ∷ [] }

-- A process whose child has ended, and which is not restarted, stays listed when all are stopped.
stays_listed : length (stop_all (λ name. graceful) (record started { children = [] })).processes ≡ 1
unfolding lookup insert start_backend start_app command_of start_with nodejs_command after_spawn
    keep new stop_all stop_each stop_process
stays_listed = refl
