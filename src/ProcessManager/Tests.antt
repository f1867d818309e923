-- ===== src/ProcessManager/Tests.antt =====
-- process_manager.rs: the table at concrete inputs.
use miwidothttp.Prelude.{ℕ, ◌≡◌, refl, true, none, some, List, [], ◌∷◌, string_eq}
use miwidothttp.Prelude.Assoc.{lookup, insert, remove}
use miwidothttp.ProcessManager.{
  ProcessConfig, Processes, node_js, start_process, stop_process, running,
}
use miwidothttp.ProcessManager.Table.{Op, starts, stops, run}

abbrev config : ProcessConfig
config = record {
  app_type = node_js;
  command = "node";
  args = [];
  working_dir = ".";
  env = [];
  port = 3000;
  health_check = none;
  auto_restart = true;
}

-- A child is a process id.
abbrev history : List (Op ℕ)
history = starts "web" config (some 41) 1 ∷ starts "api" config (some 42) 2 ∷ stops "api" ∷ []

abbrev table : Processes ℕ
table =
    (
      "web",
      record {
        config = config;
        child = some 41;
        status = running;
        restarts = 0;
        last_health_check = 1;
      },
    )
    ∷ []

web_only : run [] history ≡ table
unfolding run start_process stop_process insert remove lookup
web_only = refl
