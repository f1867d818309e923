-- ===== src/ProcessManager.antt =====
-- process_manager.rs (src/process_manager.rs): the table of child processes. Starting a child and
-- what runs in it are outside: `Child` is any type, and a start's result is the argument `spawned`,
-- `none` where `spawn` fails. The map's lock is held for each use of it, and `restart_process` is
-- taken as one transition. Signals, waiting and logging are left out, and so are the arguments and
-- the environment of a command.
use miwidothttp.Prelude.{
  ℕ, Bool, true, false, ◌&&◌, Option, none, some, is_some, List, [], ◌∷◌, String, string_eq, Eq,
  if◌then◌else◌,
}
use miwidothttp.Prelude.Assoc.{lookup, insert, remove}
pub mod Table
mod Tests

pub data AppType : Type 0 where
  node_js python tomcat php_fpm static : AppType

pub data ProcessStatus : Type 0 where
  starting running stopped failed restarting : ProcessStatus

pub record ProcessConfig : Type 0 where
  pub app_type : AppType
  pub command : String
  pub args : List String
  pub working_dir : String
  pub env : List (String × String)
  pub port : ℕ
  pub health_check : Option String
  pub auto_restart : Bool

pub record ProcessInfo (Child : Type 0) : Type 0 where
  pub config : ProcessConfig
  pub child : Option Child
  pub status : ProcessStatus
  pub restarts : ℕ
  pub last_health_check : ℕ

abbrev pub Processes : Type 0 → Type 0
Processes Child = List (String × ProcessInfo Child)

pub data Error : Type 0 where
  spawn_failed not_found : Error

pub data Result (A : Type 0) : Type 0 where
  ok : A → Result A
  err : Error → Result A

abbrev pub is_static : AppType → Bool
is_static static = true
is_static _ = false

abbrev pub is_running : ProcessStatus → Bool
is_running running = true
is_running _ = false

abbrev pub is_failed : ProcessStatus → Bool
is_failed failed = true
is_failed _ = false

module _ {Child : Type 0} where
  -- An entry as `start_process` puts it there.
  started : ProcessConfig → Option Child → ℕ → ProcessInfo Child
  started config child now = record {
    config = config;
    child = child;
    status = running;
    restarts = 0;
    last_health_check = now;
  }

  unfoldable pub start_process :
      String
      → ProcessConfig
      → Option Child
      → ℕ
      → Processes Child
      → Processes Child × Result (Unit {0})
  unfolding started
  start_process name config spawned now ps =
      if is_static config.app_type
      then (insert name (started config none now) ps, ok tt)
      else elim spawned [
        | none ↦ (ps, err spawn_failed)
        | some child ↦ (insert name (started config (some child) now) ps, ok tt)
      ]

  unfoldable pub stop_process : String → Processes Child → Processes Child × Result (Unit {0})
  stop_process name ps = elim (lookup name ps) [
    | none ↦ (ps, err not_found)
    | some info ↦ (remove name ps, ok tt)
  ]

  unfoldable pub restart_process :
      String → Option Child → ℕ → Processes Child → Processes Child × Result (Unit {0})
  restart_process name spawned now ps = elim (lookup name ps) [
    | none ↦ (ps, err not_found)
    | some info ↦ elim ((stop_process name ps).1) [
      | err e ↦ ((stop_process name ps).0, err e)
      | ok _ ↦ start_process name info.config spawned now (stop_process name ps).0
    ]
  ]

  pub health_check : String → Processes Child → Bool
  health_check name ps = elim (lookup name ps) [
    | none ↦ false
    | some info ↦
        if is_running info.status
        then (if is_some info.child then true else is_static info.config.app_type)
        else false
  ]

  unfoldable pub get_status : Processes Child → List (String × ProcessStatus)
  get_status [] = []
  get_status ((name, info) ∷ ps) = (name, info.status) ∷ get_status ps

  -- The names that a round of `monitor_processes` restarts.
  unfoldable pub names_to_restart : Processes Child → List String
  names_to_restart [] = []
  names_to_restart ((name, info) ∷ ps) =
      let rest = names_to_restart ps in
      if info.config.auto_restart && is_failed info.status then name ∷ rest else rest

  -- The loop of a round: each restart takes the next result of `spawn`.
  unfoldable pub restart_all :
      List String → List (Option Child) → ℕ → Processes Child → Processes Child
  unfolding restart_process
  restart_all [] spawns now ps = ps
  restart_all (name ∷ names) [] now ps =
      restart_all names [] now (restart_process name none now ps).0
  restart_all (name ∷ names) (spawned ∷ spawns) now ps =
      restart_all names spawns now (restart_process name spawned now ps).0

  unfoldable pub monitor_round : List (Option Child) → ℕ → Processes Child → Processes Child
  unfolding names_to_restart restart_all
  monitor_round spawns now ps = restart_all (names_to_restart ps) spawns now ps
