-- ===== src/ProcessManager/Table.antt =====
-- process_manager.rs: what the table of processes can hold, and what monitoring makes of it.
use miwidothttp.Prelude.{
  ℕ, ◌≡◌, refl, ◌≢◌, ◌⊎◌, inl, inr, true, false, ◌||◌, Option, none, some, is_some, List, [], ◌∷◌,
  String, string_eq, ◌=?◌, arith, Bool-cases, Option-cases,
}
use miwidothttp.Prelude.Assoc.{lookup, insert, remove, lookup-insert, lookup-remove, =?-refl}
use text.Mathlib.TextEquality.{eq_iff}
use miwidothttp.ProcessManager.{
  ProcessConfig, ProcessInfo, Processes, ok, err, spawn_failed, not_found, running, is_static,
  start_process, stop_process, restart_process, health_check, names_to_restart, monitor_round,
  started,
}

module _ {Child : Type 0} where
  -- An entry that the manager makes: it is marked as running, and has a child unless it is static.
  abbrev pub IsStarted : ProcessInfo Child → Type 0
  IsStarted i = (i.status ≡ running) × ((is_some i.child || is_static i.config.app_type) ≡ true)

  abbrev pub AllStarted : Processes Child → Type 0
  AllStarted [] = Unit {0}
  AllStarted ((name, i) ∷ ps) = IsStarted i × AllStarted ps

  insert-AllStarted :
      (name : String) (i : ProcessInfo Child) (ps : Processes Child)
      → IsStarted i
      → AllStarted ps
      → AllStarted (insert name i ps)
  unfolding insert
  insert-AllStarted name i [] h hs = (h, hs)
  insert-AllStarted name i ((n, j) ∷ ps) h hs = elim (Bool-cases (n =? name)) [
    | inl same ↦ rw same (h, hs.1)
    | inr other ↦ rw other (hs.0, insert-AllStarted name i ps h hs.1)
  ]

  remove-AllStarted :
      (name : String) (ps : Processes Child) → AllStarted ps → AllStarted (remove name ps)
  unfolding remove
  remove-AllStarted name [] hs = hs
  remove-AllStarted name ((n, j) ∷ ps) hs = elim (Bool-cases (n =? name)) [
    | inl same ↦ rw same (remove-AllStarted name ps hs.1)
    | inr other ↦ rw other (hs.0, remove-AllStarted name ps hs.1)
  ]

  lookup-AllStarted :
      (name : String) (ps : Processes Child) (i : ProcessInfo Child)
      → AllStarted ps
      → lookup name ps ≡ some i
      → IsStarted i
  unfolding lookup
  lookup-AllStarted name [] i hs h = cc
  lookup-AllStarted name ((n, j) ∷ ps) i hs h = elim (Bool-cases (n =? name)) [
    | inl same ↦ ground arith
    | inr other ↦ lookup-AllStarted name ps i hs.1 (ground arith)
  ]

  -- `start_process` fails with an unchanged table, or puts a started entry in.
  start_cases :
      (name : String) (c : ProcessConfig) (spawned : Option Child) (now : ℕ) (ps : Processes Child)
      → ((is_static c.app_type ≡ false)
          × (spawned ≡ none)
          × (start_process name c spawned now ps ≡ (ps, err spawn_failed)))
        ⊎ ((i : ProcessInfo Child) × IsStarted i
            × (i.config ≡ c)
            × (start_process name c spawned now ps ≡ (insert name i ps, ok tt)))
  unfolding start_process
  start_cases name c spawned now ps = elim (Bool-cases (is_static c.app_type)) [
    | inl st ↦ inr (started c none now, (refl, st), refl, rw (st, start_process))
    | inr dyn ↦ elim (Option-cases spawned) [
      | inl gone ↦ inl (dyn, gone, rw (dyn, gone, start_process))
      | inr (child, e) ↦
          inr (started c (some child) now, (refl, refl), refl, rw (dyn, e, start_process))
    ]
  ]

  start-AllStarted :
      (name : String) (c : ProcessConfig) (spawned : Option Child) (now : ℕ) (ps : Processes Child)
      → AllStarted ps
      → AllStarted (start_process name c spawned now ps).0
  start-AllStarted name c spawned now ps hs = elim (start_cases name c spawned now ps) [
    | inl (dyn, gone, e) ↦ rw e hs
    | inr (i, h, same, e) ↦ rw e (insert-AllStarted name i ps h hs)
  ]

  stop-AllStarted :
      (name : String) (ps : Processes Child) → AllStarted ps → AllStarted (stop_process name ps).0
  unfolding stop_process
  stop-AllStarted name ps hs = elim (Option-cases (lookup name ps)) [
    | inl gone ↦ rw (gone, stop_process) hs
    | inr (i, e) ↦ rw (e, stop_process) (remove-AllStarted name ps hs)
  ]

  stop_lem :
      (name : String) (ps : Processes Child) (i : ProcessInfo Child)
      → lookup name ps ≡ some i
      → stop_process name ps ≡ (remove name ps, ok tt)
  unfolding stop_process
  stop_lem name ps i e = rw (e, stop_process)

  -- `restart_process` is a stop and a start with the configuration that stood in the table.
  restart_lem :
      (name : String) (spawned : Option Child) (now : ℕ) (ps : Processes Child)
      → ((lookup name ps ≡ none) × (restart_process name spawned now ps ≡ (ps, err not_found)))
        ⊎ ((i : ProcessInfo Child) × (lookup name ps ≡ some i)
            × (restart_process name spawned now ps
                ≡ start_process name i.config spawned now (remove name ps)))
  unfolding restart_process
  restart_lem name spawned now ps = elim (Option-cases (lookup name ps)) [
    | inl gone ↦ inl (gone, rw (gone, restart_process))
    | inr (i, e) ↦ inr (i, e, ground (arith, stop_lem name ps i e))
  ]

  restart-AllStarted :
      (name : String) (spawned : Option Child) (now : ℕ) (ps : Processes Child)
      → AllStarted ps
      → AllStarted (restart_process name spawned now ps).0
  restart-AllStarted name spawned now ps hs = elim (restart_lem name spawned now ps) [
    | inl (gone, e) ↦ rw e hs
    | inr (i, found, e) ↦
        rw e (
          start-AllStarted name i.config spawned now (remove name ps)
            (remove-AllStarted name ps hs))
  ]

  names_to_restart-AllStarted : (ps : Processes Child) → AllStarted ps → names_to_restart ps ≡ []
  unfolding names_to_restart
  names_to_restart-AllStarted [] hs = refl
  names_to_restart-AllStarted ((n, i) ∷ ps) hs = ground (arith, names_to_restart-AllStarted ps hs.1)

-- What is done to the table.
pub data Op (Child : Type 0) : Type 0 where
  starts : String → ProcessConfig → Option Child → ℕ → Op Child
  stops : String → Op Child
  restarts : String → Option Child → ℕ → Op Child
  monitors : List (Option Child) → ℕ → Op Child

module _ {Child : Type 0} where
  pub step : Processes Child → Op Child → Processes Child
  step ps (starts name c spawned now) = (start_process name c spawned now ps).0
  step ps (stops name) = (stop_process name ps).0
  step ps (restarts name spawned now) = (restart_process name spawned now ps).0
  step ps (monitors spawns now) = monitor_round spawns now ps

  unfoldable pub run : Processes Child → List (Op Child) → Processes Child
  unfolding step
  run ps [] = ps
  run ps (op ∷ ops) = run (step ps op) ops

  monitor_round-AllStarted :
      (spawns : List (Option Child)) (now : ℕ) (ps : Processes Child)
      → AllStarted ps
      → monitor_round spawns now ps ≡ ps
  unfolding monitor_round
  monitor_round-AllStarted spawns now ps hs = rw (names_to_restart-AllStarted ps hs)

  step-AllStarted : (ps : Processes Child) (op : Op Child) → AllStarted ps → AllStarted (step ps op)
  unfolding step
  step-AllStarted ps (starts name c spawned now) hs = start-AllStarted name c spawned now ps hs
  step-AllStarted ps (stops name) hs = stop-AllStarted name ps hs
  step-AllStarted ps (restarts name spawned now) hs = restart-AllStarted name spawned now ps hs
  step-AllStarted ps (monitors spawns now) hs = rw (monitor_round-AllStarted spawns now ps hs) hs

  run-AllStarted :
      (ps : Processes Child) (ops : List (Op Child)) → AllStarted ps → AllStarted (run ps ops)
  unfolding run
  run-AllStarted ps [] hs = hs
  run-AllStarted ps (op ∷ ops) hs = run-AllStarted (step ps op) ops (step-AllStarted ps op hs)

  -- No operation of the manager marks a process as failed, whatever becomes of its child: after any
  -- history a round of monitoring restarts nothing, whatever `auto_restart` says.
  pub monitor_never_restarts :
      (ops : List (Op Child)) (spawns : List (Option Child)) (now : ℕ)
      → (names_to_restart (run [] ops) ≡ []) × (monitor_round spawns now (run [] ops) ≡ run [] ops)
  monitor_never_restarts ops spawns now =
      let hs = run-AllStarted [] ops tt in
      (
        names_to_restart-AllStarted (run [] ops) hs,
        monitor_round-AllStarted spawns now (run [] ops) hs,
      )

  -- For the same reason a health check says only whether the process is in the table.
  pub health_check_is_presence :
      (ops : List (Op Child)) (name : String)
      → health_check name (run [] ops) ≡ is_some (lookup name (run [] ops))
  unfolding health_check
  health_check_is_presence ops name = elim (Option-cases (lookup name (run [] ops))) [
    | inl gone ↦ rw (gone, health_check)
    | inr (i, e) ↦
        let h = lookup-AllStarted name (run [] ops) i (run-AllStarted [] ops tt) e in
        ground (arith, h)
  ]

  -- A restart of a process that is in the table keeps its configuration if the new child is there
  -- or none is needed, and takes the process out of the table if `spawn` fails. Every other name is
  -- as before; a name that is not in the table is an error that changes nothing.
  pub restart_branches :
      (name other : String) (spawned : Option Child) (now : ℕ) (ps : Processes Child)
      → name ≢ other
      → let (ps', r) = restart_process name spawned now ps in
        (lookup other ps' ≡ lookup other ps)
        × (((lookup name ps ≡ none) × (ps' ≡ ps) × (r ≡ err not_found))
            ⊎ ((i : ProcessInfo Child) × (lookup name ps ≡ some i)
                × (((is_static i.config.app_type ≡ false)
                      × (spawned ≡ none)
                      × (r ≡ err spawn_failed)
                      × (lookup name ps' ≡ none))
                    ⊎ ((j : ProcessInfo Child) × (r ≡ ok tt)
                        × (lookup name ps' ≡ some j)
                        × (j.config ≡ i.config)
                        × IsStarted j))))
  restart_branches name other spawned now ps ne = elim (restart_lem name spawned now ps) [
    | inl (gone, e) ↦ rw e (refl, inl (gone, refl, refl))
    | inr (i, found, e) ↦ elim (start_cases name i.config spawned now (remove name ps)) [
      | inl (dyn, no_child, e') ↦
          rw (e, e')
            (
              ground (arith, eq_iff name other, lookup-remove name other ps),
              inr (
                i,
                found,
                inl (dyn, no_child, refl, rw (lookup-remove name name ps, =?-refl name)),
              ),
            )
      | inr (j, h, same, e') ↦
          rw (e, e')
            (
              ground (
                arith,
                eq_iff name other,
                lookup-remove name other ps,
                lookup-insert name other j (remove name ps),
              ),
              inr (
                i,
                found,
                inr (
                  j,
                  refl,
                  rw (lookup-insert name name j (remove name ps), =?-refl name),
                  same,
                  h,
                ),
              ),
            )
    ]
  ]
