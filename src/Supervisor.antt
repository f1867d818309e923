-- ===== src/Supervisor.antt =====
-- process.rs (src/process.rs): `ProcessManager`, which starts the processes of the backends, restarts
-- and stops them. The operating system is the function `spawn`, which takes the command that a start
-- builds; a child is known by its process id. What ends of a task, and a monitoring task, which
-- `monitors` counts by name, sees of a child, are arguments, as is the clock. A method that takes the
-- two locks one after the other is one transition. The lock of the table of processes is seen where
-- a task that holds it asks for it again, in `monitor_round`.
use miwidothttp.Prelude.{
  ℕ, zero, suc, ◌+◌, ◌%◌, Bool, true, false, not, ◌&&◌, Option, none, some, List, [], ◌∷◌, ◌++◌,
  String, append_text, starts_with, unwrap_or, ltb, ◌==◌, ◌=?◌, string_eq, if◌then◌else◌, map,
}
use miwidothttp.Prelude.Assoc.{lookup, insert, remove}
pub mod Environment
pub mod Restart
mod Tests

-- `AppType` and `ProcessConfig` of config.rs (src/config.rs).
pub data AppType : Type 0 where
  static_files node_js python proxy tomcat php_fpm : AppType

pub record ProcessConfig : Type 0 where
  pub command : String
  pub args : List String
  pub env : List (String × String)
  pub working_dir : Option String
  pub auto_restart : Bool

pub record BackendConfig : Type 0 where
  pub url : String
  pub app_type : AppType
  pub health_check : Option String
  pub process : Option ProcessConfig

pub record ProcessInfo : Type 0 where
  pub pid : ℕ
  pub app_type : AppType
  pub config : ProcessConfig
  pub restart_count : ℕ
  pub last_restart : Option ℕ

pub record ProcessManager : Type 0 where
  pub processes : List (String × ProcessInfo)
  pub children : List (String × ℕ)
  pub monitors : List String

-- What is given to the operating system: `Command` with the variables that it sets.
pub record Command : Type 0 where
  pub program : String
  pub args : List String
  pub current_dir : Option String
  pub env : List (String × String)

-- What `spawn` gives: an error, a child that has no id any more, or a child with its id.
pub data Spawned : Type 0 where
  not_spawned : Spawned
  no_id : Spawned
  child : ℕ → Spawned

pub data Error : Type 0 where
  spawn_error no_process_id : Error
  no_catalina_home no_java_home : Error
  too_frequently : Error
  kill_error : Error

pub data Result (A : Type 0) : Type 0 where
  ok : A → Result A
  err : Error → Result A

-- The loop that sets the variables of a configuration which a test lets through.
unfoldable pub set_env :
    (String → Bool) → List (String × String) → List (String × String) → List (String × String)
set_env wanted [] env = env
set_env wanted ((key, value) ∷ rest) env =
    set_env wanted rest (if wanted key then insert key value env else env)

abbrev pub every : String → Bool
every key = true

unfoldable pub nodejs_command : ProcessConfig → Result Command
unfolding set_env
nodejs_command config = ok record {
  program = config.command;
  args = config.args;
  current_dir = config.working_dir;
  env = set_env every config.env [];
}

unfoldable pub python_command : ProcessConfig → Result Command
unfolding set_env
python_command config = ok record {
  program = config.command;
  args = config.args;
  current_dir = config.working_dir;
  env = insert "PYTHONUNBUFFERED" "1" (set_env every config.env []);
}

unfoldable pub phpfpm_command : ProcessConfig → Result Command
unfolding set_env
phpfpm_command config =
    let config_file =
      unwrap_or (lookup "PHP_FPM_CONFIG" config.env) "/etc/php/8.3/fpm/php-fpm.conf" in
    let error_log =
      unwrap_or (lookup "PHP_FPM_ERROR_LOG" config.env) "/var/log/php-fpm/error.log" in
    let access_log =
      unwrap_or (lookup "PHP_FPM_ACCESS_LOG" config.env) "/var/log/php-fpm/access.log" in
    ok record {
      program = config.command;
      args = "-F" ∷ "-y" ∷ config_file ∷ [];
      current_dir = config.working_dir;
      env =
          insert "PHP_FPM_ACCESS_LOG" access_log
            (insert "PHP_FPM_ERROR_LOG" error_log (set_env every config.env []));
    }

-- The variables of a configuration that Tomcat's loop sets.
abbrev pub is_custom : String → Bool
is_custom key =
    not (starts_with key "CATALINA_") && not (key =? "JAVA_HOME") && not (key =? "JAVA_OPTS")

abbrev pub default_java_opts : String
default_java_opts = "-Xms512m -Xmx1024m -XX:MaxMetaspaceSize=256m"

unfoldable pub tomcat_env : String → String → ProcessConfig → List (String × String)
unfolding set_env
tomcat_env home java_home config = set_env is_custom config.env (
    insert "JAVA_OPTS" (unwrap_or (lookup "JAVA_OPTS" config.env) default_java_opts) (
      insert "JAVA_HOME" java_home (
        insert "CATALINA_BASE" (unwrap_or (lookup "CATALINA_BASE" config.env) home)
          (insert "CATALINA_HOME" home []))))

unfoldable pub tomcat_command : ProcessConfig → Result Command
unfolding tomcat_env
tomcat_command config = elim (lookup "CATALINA_HOME" config.env) [
  | none ↦ err no_catalina_home
  | some home ↦ elim (lookup "JAVA_HOME" config.env) [
    | none ↦ err no_java_home
    | some java_home ↦ ok record {
      program = append_text home "/bin/catalina.sh";
      args = "run" ∷ [];
      current_dir = none;
      env = tomcat_env home java_home config;
    }
  ]
]

unfoldable pub new : ProcessManager
new = record { processes = []; children = []; monitors = [] }

-- The end of each start: the child and what is kept of it, and its monitoring task.
unfoldable pub keep : String → AppType → ProcessConfig → ℕ → ProcessManager → ProcessManager
keep name app_type config pid m = record {
  processes =
      insert name
        record {
          pid = pid;
          app_type = app_type;
          config = config;
          restart_count = 0;
          last_restart = none;
        }
        m.processes;
  children = insert name pid m.children;
  monitors = if config.auto_restart then name ∷ m.monitors else m.monitors;
}

unfoldable pub after_spawn :
    Spawned → String → AppType → ProcessConfig → ProcessManager → ProcessManager × Option Error
after_spawn not_spawned name app_type config m = (m, some spawn_error)
after_spawn no_id name app_type config m = (m, some no_process_id)
after_spawn (child pid) name app_type config m = (keep name app_type config pid m, none)

-- The command that a type of application is started with; other types start nothing.
unfoldable pub command_of : AppType → ProcessConfig → Option (Result Command)
command_of node_js config = some (nodejs_command config)
command_of python config = some (python_command config)
command_of tomcat config = some (tomcat_command config)
command_of php_fpm config = some (phpfpm_command config)
command_of static_files config = none
command_of proxy config = none

module _ (spawn : Command → Spawned) where
  unfoldable pub start_with :
      String
      → AppType
      → ProcessConfig
      → Result Command
      → ProcessManager
      → ProcessManager × Option Error
  start_with name app_type config (err e) m = (m, some e)
  start_with name app_type config (ok c) m = after_spawn (spawn c) name app_type config m

  -- `start_nodejs_app`, `start_python_app`, `start_tomcat_app` and `start_phpfpm_app`.
  unfoldable pub start_app :
      String → AppType → ProcessConfig → ProcessManager → ProcessManager × Option Error
  start_app name app_type config m = elim (command_of app_type config) [
    | none ↦ (m, none)
    | some c ↦ start_with name app_type config c m
  ]

  unfoldable pub start_backend :
      String → BackendConfig → ProcessManager → ProcessManager × Option Error
  start_backend name backend m = elim backend.process [
    | none ↦ (m, none)
    | some config ↦ start_app name backend.app_type config m
  ]

  -- The count is a u32. The last argument is the time that the throttle's test measures, which is
  -- that since the line above it.
  unfoldable pub restart_process :
      String → ℕ → (elapsed_secs : ℕ) → ProcessManager → ProcessManager × Option Error
  restart_process name now elapsed_secs m = elim (lookup name m.processes) [
    | none ↦ (m, none)
    | some info ↦
        let count = (info.restart_count + 1) % 4294967296 in
        let counted = record m {
          processes =
              insert name (record info { restart_count = count; last_restart = some now })
                m.processes;
        } in
        if ltb 5 count && ltb elapsed_secs 60
        then (counted, some too_frequently)
        else start_app name info.app_type info.config counted
  ]

-- What `try_wait` says of a child.
pub data Waited : Type 0 where
  exited still_running wait_error : Waited

-- The first half of a monitoring round, under the lock of the children.
unfoldable pub check_child : String → Waited → ProcessManager → ProcessManager × Bool
check_child name waited m = elim (lookup name m.children) [
  | none ↦ (m, false)
  | some pid ↦ elim waited [
    | exited ↦ (record m { children = remove name m.children }, true)
    | still_running ↦ (m, false)
    | wait_error ↦ (m, false)
  ]
]

-- The write lock is given once nobody holds a read guard.
abbrev pub may_write : (readers : ℕ) → Bool
may_write zero = true
may_write (suc n) = false

-- How a monitoring round ends: its sleep begins again, or it waits for the write lock of the
-- processes in the state given.
pub data Round : Type 0 where
  over : ProcessManager → Round
  waits : ProcessManager → Round

-- The round holds a read guard of the processes over its call of `restart_process`, which asks for
-- the write lock. The number is that of the read guards of other tasks; where one waits to write, a
-- round is given no guard, since tokio's lock is fair.
unfoldable pub monitor_round :
    (Command → Spawned)
    → String
    → Waited
    → (now elapsed_secs other_readers : ℕ) (writer_waits : Bool) → ProcessManager
    → Round
monitor_round spawn name waited now elapsed_secs other_readers writer_waits m =
    let checked = check_child name waited m in
    let read_on : Round = elim (lookup name checked.0.processes) [
      | none ↦ over checked.0
      | some info ↦
          if info.config.auto_restart
          then (if may_write (suc other_readers)
              then over (restart_process spawn name now elapsed_secs checked.0).0
              else waits checked.0)
          else over checked.0
    ] in
    if checked.1 then (if writer_waits then waits checked.0 else read_on) else over checked.0

-- What happens to a child that is stopped: it has no id any more, ends in time, is killed, or cannot
-- be killed.
pub data Stopping : Type 0 where
  without_id graceful killed kill_fails : Stopping

abbrev pub kill_failed : Stopping → Bool
kill_failed kill_fails = true
kill_failed without_id = false
kill_failed graceful = false
kill_failed killed = false

unfoldable pub stop_process : String → Stopping → ProcessManager → ProcessManager × Option Error
stop_process name stopping m = elim (lookup name m.children) [
  | none ↦ (m, none)
  | some pid ↦
      let without = record m { children = remove name m.children } in
      if kill_failed stopping
      then (without, some kill_error)
      else (record without { processes = remove name m.processes }, none)
]

unfoldable pub stop_each : List String → (String → Stopping) → ProcessManager → ProcessManager
stop_each [] stopping m = m
stop_each (name ∷ names) stopping m =
    stop_each names stopping (stop_process name (stopping name) m).0

-- Errors of single processes are logged.
unfoldable pub stop_all : (String → Stopping) → ProcessManager → ProcessManager
stop_all stopping m = stop_each (map (λ e. e.0) m.processes) stopping m

pub get_status : ProcessManager → List (String × ProcessInfo)
get_status m = m.processes
