-- ===== src/Supervisor/Restart.antt =====
-- process.rs: the rounds of the monitoring tasks, and the throttle of restarts.
use miwidothttp.Prelude.{
  ℕ, ◌+◌, ◌%◌, ◌≡◌, refl, Bool, true, false, ◌&&◌, ◌||◌, Bool-cases, Option-cases, inl, inr, none,
  some, String, is_some, ltb, ◌==◌, string_eq, if◌then◌else◌, arith,
}
use miwidothttp.Prelude.Assoc.{lookup, insert, remove, lookup-insert, lookup-remove}
use miwidothttp.Supervisor.{
  ProcessManager, ProcessInfo, ProcessConfig, BackendConfig, AppType, Command, Spawned, Result, ok,
  err, child, no_id, not_spawned, Waited, exited, still_running, wait_error, over, waits, Stopping,
  new, keep, command_of, after_spawn, start_with, start_app, start_backend, restart_process,
  check_child, monitor_round, stop_process,
}

-- Whether a round finds that the child of a process has ended.
abbrev pub has_ended : String → Waited → ProcessManager → Bool
has_ended name exited m = is_some (lookup name m.children)
has_ended name still_running m = false
has_ended name wait_error m = false

abbrev pub restarts_itself : String → ProcessManager → Bool
restarts_itself name m = elim (lookup name m.processes) [
  | none ↦ false
  | some info ↦ info.config.auto_restart
]

-- A round of monitoring starts nothing, whatever a command would give and however many other tasks
-- read: while the child runs, it ends without a change; where the child has ended, the child is taken
-- off the table and, if the process is to be restarted or a task waits to write the processes, the
-- round waits for the lock, and otherwise it ends.
pub monitor_round_lem :
    (spawn : Command → Spawned) (name : String) (waited : Waited)
    (now elapsed_secs other_readers : ℕ) (writer_waits : Bool) (m : ProcessManager)
    → monitor_round spawn name waited now elapsed_secs other_readers writer_waits m ≡ (
        let dropped = record m { children = remove name m.children } in
        if has_ended name waited m
        then (if writer_waits || restarts_itself name m then waits dropped else over dropped)
        else over m)
unfolding monitor_round check_child
monitor_round_lem spawn name exited now elapsed readers writer_waits m =
    elim (Option-cases (lookup name m.children)) [
      | inl missing ↦ ground (arith, missing)
      | inr (pid, found) ↦ elim (Option-cases (lookup name m.processes)) [
        | inl unknown ↦ ground (arith, found, unknown)
        | inr (info, known) ↦ ground (arith, found, known)
      ]
    ]
monitor_round_lem spawn name still_running now elapsed readers writer_waits m = ground arith
monitor_round_lem spawn name wait_error now elapsed readers writer_waits m = ground arith

-- A process with a child has been restarted no time since it was started.
unfoldable pub count_is_zero : String → ProcessManager → Bool
count_is_zero name m = elim (lookup name m.children) [
  | none ↦ true
  | some pid ↦ elim (lookup name m.processes) [ none ↦ false | some info ↦ info.restart_count == 0 ]
]

unfoldable pub Inv : ProcessManager → Type 0
Inv m = (name : String) → count_is_zero name m ≡ true

keep-Inv :
    (name : String) (app_type : AppType) (config : ProcessConfig) (pid : ℕ) (m : ProcessManager)
    → Inv m
    → Inv (keep name app_type config pid m)
unfolding Inv keep count_is_zero
keep-Inv name app_type config pid m v other = ground (
  arith,
  v other,
  lookup-insert name other pid m.children,
  lookup-insert name other
      record {
        pid = pid;
        app_type = app_type;
        config = config;
        restart_count = 0;
        last_restart = none;
      }
      m.processes,
)

after_spawn-Inv :
    (s : Spawned) (name : String) (app_type : AppType) (config : ProcessConfig) (m : ProcessManager)
    → Inv m
    → Inv (after_spawn s name app_type config m).0
unfolding after_spawn
after_spawn-Inv not_spawned name app_type config m v = v
after_spawn-Inv no_id name app_type config m v = v
after_spawn-Inv (child pid) name app_type config m v = keep-Inv name app_type config pid m v

module _ (spawn : Command → Spawned) where
  start_with-Inv :
      (name : String) (app_type : AppType) (config : ProcessConfig) (c : Result Command)
      (m : ProcessManager)
      → Inv m
      → Inv (start_with spawn name app_type config c m).0
  unfolding start_with
  start_with-Inv name app_type config (err e) m v = v
  start_with-Inv name app_type config (ok c) m v =
      after_spawn-Inv (spawn c) name app_type config m v

  start_app-Inv :
      (name : String) (app_type : AppType) (config : ProcessConfig) (m : ProcessManager)
      → Inv m
      → Inv (start_app spawn name app_type config m).0
  unfolding start_app
  start_app-Inv name app_type config m v = elim (Option-cases (command_of app_type config)) [
    | inl nothing ↦ rw (start_app, nothing) v
    | inr (c, found) ↦ rw (start_app, found) (start_with-Inv name app_type config c m v)
  ]

  start_backend-Inv :
      (name : String) (backend : BackendConfig) (m : ProcessManager)
      → Inv m
      → Inv (start_backend spawn name backend m).0
  unfolding start_backend
  start_backend-Inv name backend m v = elim (Option-cases backend.process) [
    | inl nothing ↦ rw (start_backend, nothing) v
    | inr (config, found) ↦
        rw (start_backend, found) (start_app-Inv name backend.app_type config m v)
  ]

  stop_process-Inv :
      (name : String) (stopping : Stopping) (m : ProcessManager)
      → Inv m
      → Inv (stop_process name stopping m).0
  unfolding Inv count_is_zero stop_process
  stop_process-Inv name stopping m v other =
      ground
        (arith, v other, lookup-remove name other m.children, lookup-remove name other m.processes)

  -- Taking the child off the table leaves room for any count.
  counted-Inv :
      (name : String) (info : ProcessInfo) (m : ProcessManager)
      → Inv m
      → Inv
          (record m { children = remove name m.children; processes = insert name info m.processes })
  unfolding Inv count_is_zero
  counted-Inv name info m v other = ground (
    arith,
    v other,
    lookup-remove name other m.children,
    lookup-insert name other info m.processes,
  )

  dropped-Inv :
      (name : String) (m : ProcessManager)
      → Inv m
      → Inv (record m { children = remove name m.children })
  unfolding Inv count_is_zero
  dropped-Inv name m v other = ground (arith, v other, lookup-remove name other m.children)

  restart_process-Inv :
      (name : String) (now elapsed : ℕ) (m : ProcessManager)
      → Inv m
      → Inv
          (restart_process spawn name now elapsed
            (record m { children = remove name m.children })).0
  unfolding restart_process
  restart_process-Inv name now elapsed m v = elim (Option-cases (lookup name m.processes)) [
    | inl missing ↦ rw (restart_process, missing) (dropped-Inv name m v)
    | inr (info, found) ↦
        let counted = record info {
          restart_count = (info.restart_count + 1) % 4294967296;
          last_restart = some now;
        } in
        elim (Bool-cases (ltb 5 counted.restart_count && ltb elapsed 60)) [
          | inl throttled ↦ rw (restart_process, found, throttled) (counted-Inv name counted m v)
          | inr passed ↦
              rw (restart_process, found, passed)
                (start_app-Inv name info.app_type info.config _ (counted-Inv name counted m v))
        ]
  ]

  -- What the methods and the monitoring tasks do if a restart is given its lock.
  pub data Step (m : ProcessManager) : ProcessManager → Type 0 where
    starts :
        (name : String) (backend : BackendConfig) → Step m (start_backend spawn name backend m).0
    stops : (name : String) (stopping : Stopping) → Step m (stop_process name stopping m).0
    restarts :
        (name : String) (now elapsed_secs : ℕ)
        → Step m
            (restart_process spawn name now elapsed_secs
              (record m { children = remove name m.children })).0

  pub data Reach (m : ProcessManager) : ProcessManager → Type 0 where
    here : Reach m m
    next : {n p : ProcessManager} → Reach m n → Step n p → Reach m p

  Reach-Inv : {m : ProcessManager} → Reach new m → Inv m
  unfolding Inv new count_is_zero lookup
  Reach-Inv here = λ name. refl
  Reach-Inv (next {n} r (starts name backend)) = start_backend-Inv name backend n (Reach-Inv r)
  Reach-Inv (next {n} r (stops name stopping)) = stop_process-Inv name stopping n (Reach-Inv r)
  Reach-Inv (next {n} r (restarts name now elapsed)) =
      restart_process-Inv name now elapsed n (Reach-Inv r)

  -- Were a restart given its lock: whatever starts, stops and such restarts have led to a state, a
  -- process with a child is in the table, and when its child has ended, its restart is never
  -- throttled, however soon it comes: it is the start of the application, the count being 1.
  pub restart_process-never_throttled :
      {m : ProcessManager} (r : Reach new m) (name : String) (pid : ℕ)
      → lookup name m.children ≡ some pid
      → (info : ProcessInfo) × (lookup name m.processes ≡ some info)
        × ((now elapsed_secs : ℕ)
            → restart_process spawn name now elapsed_secs
                (record m { children = remove name m.children })
              ≡ start_app spawn name info.app_type info.config record {
                processes =
                    insert name
                      (record info { restart_count = 1; last_restart = some now })
                      m.processes;
                children = remove name m.children;
                monitors = m.monitors;
              })
  unfolding restart_process count_is_zero Inv
  restart_process-never_throttled {m} r name pid held =
      elim (Option-cases (lookup name m.processes)) [
        | inl missing ↦ absurd (ground (arith, Reach-Inv r name, held, missing))
        | inr (info, found) ↦
            let zero_count : info.restart_count ≡ 0 =
              ground (arith, Reach-Inv r name, held, found) in
            (info, found, λ now elapsed. rw (restart_process, found, zero_count) refl)
      ]
