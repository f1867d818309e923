-- ===== src/Distribution/Migration.antt =====
-- cluster/distribution.rs: `rebalance` and `execute_migration_plan`. A task that asks for the write
-- lock of key_mappings while a read guard is held waits; where it holds that guard itself, for ever,
-- and from then on no other task is given a read guard, as tokio's lock is fair. The call is run from
-- the state that it finds; it takes the locks of key_mappings and migration_state where they are free.
use miwidothttp.Prelude.{
  ℕ, zero, suc, ◌+◌, ◌-◌, ◌/◌, ◌≡◌, refl, ap, ◌∙◌, ◌⊎◌, inl, inr, Bool, true, false, Option, none,
  some, List, [], ◌∷◌, ◌++◌, String, min, length, is_empty, ltb, string_eq, ◌==◌, if◌then◌else◌,
  arith, unwrap_or, Bool-cases,
}
use miwidothttp.Prelude.Assoc.{lookup, insert}
use miwidothttp.Distribution.{DistributionManager, MigrationState, Mappings}

-- How a call ends. A division by zero panics before any state is changed; a call that waits has
-- changed the state it is given with.
pub data Run : Type 0 where
  returned : DistributionManager → Run
  waiting : DistributionManager → Run
  panicked : Run

pub record Move : Type 0 where
  pub node : String
  pub amount : ℕ
  pub is_source : Bool

abbrev pub Keys : Type 0
Keys = List (String × List String)

-- `entry(node).or_insert_with(Vec::new).push(key)`, and its loop over the mappings.
abbrev pub push_key : String → String → Keys → Keys
push_key node key d = insert node (unwrap_or (lookup node d) [] ++ key ∷ []) d

unfoldable pub key_distribution : Mappings → Keys → Keys
key_distribution [] d = d
key_distribution ((key, node) ∷ rest) d = key_distribution rest (push_key node key d)

-- The plan for the nodes, by their ids.
unfoldable pub plan_moves : ℕ → Keys → List String → List Move
plan_moves ideal d [] = []
plan_moves ideal d (node ∷ nodes) =
    let current = length (unwrap_or (lookup node d) []) in
    let rest = plan_moves ideal d nodes in
    if ltb (ideal + ideal / 10) current
    then record { node = node; amount = current - ideal; is_source = true } ∷ rest
    else (if ltb current (ideal - ideal / 10)
        then record { node = node; amount = ideal - current; is_source = false } ∷ rest
        else rest)

-- `Vec::pop`: what is left, and the last element.
abbrev pub pop : List String → Option (List String × String)
pop [] = none
pop (x ∷ xs) = elim (pop xs) [ none ↦ some ([], x) | some (rest, y) ↦ some (x ∷ rest, y) ]

-- What the loops of `execute_migration_plan` change.
pub record Migration : Type 0 where
  pub source_keys : List String
  pub mappings : Mappings
  pub state : MigrationState
  pub total_migrated : ℕ

-- `for _ in 0..keys_to_move`.
unfoldable pub move_keys : ℕ → String → String → Migration → Migration
move_keys zero source target g = g
move_keys (suc n) source target g = move_keys n source target (elim (pop g.source_keys) [
  | none ↦ g
  | some (rest, key) ↦ record {
    source_keys = rest;
    mappings = insert key target g.mappings;
    state = record (g.state) {
      source_node = some source;
      target_node = some target;
      keys_migrated = g.total_migrated + 1;
    };
    total_migrated = g.total_migrated + 1;
  }
])

unfoldable pub move_to_targets : Move → List Move → Migration → Migration
unfolding move_keys
move_to_targets source [] g = g
move_to_targets source (t ∷ ts) g =
    let g' = move_keys (min source.amount t.amount) source.node t.node g in
    move_to_targets source ts (if t.is_source then g else g')

-- The loop over the sources; `distribution` keeps what is left of a source's keys.
unfoldable pub move_all : List Move → List Move → Keys → Migration → Migration
unfolding move_to_targets
move_all plan [] d g = g
move_all plan (s ∷ ss) d g =
    let source : Option (List String) = if s.is_source then lookup s.node d else none in
    let g' : Migration = elim source [
      | none ↦ g
      | some keys ↦ move_to_targets s plan (record g { source_keys = keys })
    ] in
    let d' : Keys = elim source [ none ↦ d | some keys ↦ insert s.node g'.source_keys d ] in
    move_all plan ss d' g'

unfoldable pub execute_migration_plan : List Move → Keys → ℕ → DistributionManager → Run
unfolding move_all
execute_migration_plan plan d now m =
    let begun = record (m.migration_state) { active = true; started_at = some now } in
    let g =
      move_all plan plan d (record {
        source_keys = [];
        mappings = m.key_mappings;
        state = begun;
        total_migrated = 0;
      }) in
    if m.migrating
    then waiting m
    else (if m.readers == 0
        then returned (record m {
          key_mappings = g.mappings;
          migration_state = record (g.state) { active = false };
        })
        else waiting (record m { writer_waits = true; migrating = true; migration_state = begun }))

-- The read guard `mappings` is released where a call returns.
abbrev pub release : Run → Run
release (returned m) = returned (record m { readers = m.readers - 1 })
release (waiting m) = waiting m
release panicked = panicked

unfoldable pub rebalance : List String → ℕ → DistributionManager → Run
rebalance nodes now m =
    let held = record m { readers = m.readers + 1 } in
    let d = key_distribution held.key_mappings [] in
    let plan = plan_moves (length held.key_mappings / length nodes) d nodes in
    if m.writer_waits
    then waiting m
    else if is_empty nodes
    then panicked
    else if is_empty plan
    then release (returned held)
    else release (execute_migration_plan plan d now held)

-- What a plan leaves where a read guard is held: the call waits for migration_state, where that is
-- held, and else for the lock of which it has a guard itself.
abbrev pub stuck : ℕ → DistributionManager → DistributionManager
stuck now m = if m.migrating then m else record m {
  writer_waits = true;
  migrating = true;
  migration_state = record (m.migration_state) { active = true; started_at = some now };
}

execute_migration_plan-held :
    (plan : List Move) (d : Keys) (now : ℕ) (m : DistributionManager)
    → ltb 0 m.readers ≡ true
    → execute_migration_plan plan d now m ≡ waiting (stuck now m)
unfolding execute_migration_plan
execute_migration_plan-held plan d now m h = ground arith

is_empty-nil {ℓ} : {A : Type ℓ} (xs : List A) → is_empty xs ≡ true → xs ≡ []
is_empty-nil [] h = refl
is_empty-nil (x ∷ xs) h = cc

idles :
    (waits alone idle : Bool) (x y z w : Run)
    → waits ≡ false
    → alone ≡ false
    → idle ≡ true
    → (if waits then x else (if alone then y else (if idle then z else w))) ≡ z
idles waits alone idle x y z w h h' h'' = rw (h, h', h'') refl

goes_on :
    (waits alone idle : Bool) (x y z w : Run)
    → waits ≡ false
    → alone ≡ false
    → idle ≡ false
    → (if waits then x else (if alone then y else (if idle then z else w))) ≡ w
goes_on waits alone idle x y z w h h' h'' = rw (h, h', h'') refl

-- What the moves of a rebalance would be.
abbrev pub plan_of : List String → DistributionManager → List Move
plan_of nodes m =
    plan_moves (length m.key_mappings / length nodes) (key_distribution m.key_mappings []) nodes

-- Where a task waits to write key_mappings, a rebalance waits to read it, with nothing changed. Where
-- none does, it panics without nodes, and otherwise it returns exactly if there is nothing to move,
-- with the state as it was. If there is anything to move, it keeps its read guard and every key stays
-- where it was: it waits for migration_state, where that is held, and else for a lock of which it has
-- a guard itself, with the migration marked active and every later rebalance waiting in turn.
pub rebalance_never_moves :
    (nodes : List String) (now : ℕ) (m : DistributionManager)
    → ((m.writer_waits ≡ true) × (rebalance nodes now m ≡ waiting m))
      ⊎ (((m.writer_waits ≡ false) × (nodes ≡ []) × (rebalance nodes now m ≡ panicked))
          ⊎ (((m.writer_waits ≡ false)
                × (plan_of nodes m ≡ [])
                × (rebalance nodes now m ≡ returned m))
              ⊎ ((w : DistributionManager) × (rebalance nodes now m ≡ waiting w)
                  × (w.key_mappings ≡ m.key_mappings)
                  × (w.readers ≡ m.readers + 1)
                  × ((m.migrating ≡ true)
                      ⊎ ((w.migration_state.active ≡ true)
                          × ((others : List String) (later : ℕ)
                              → rebalance others later w ≡ waiting w))))))
unfolding rebalance
rebalance_never_moves nodes now m = elim (Bool-cases m.writer_waits) [
  | inl queued ↦ inl (queued, rw queued refl)
  | inr free ↦ inr (elim (Bool-cases (is_empty nodes)) [
    | inl alone ↦ inl (free, is_empty-nil nodes alone, rw (free, alone) refl)
    | inr some_nodes ↦
        let d = key_distribution m.key_mappings [] in
        let held = record m { readers = m.readers + 1 } in
        inr (elim (Bool-cases (is_empty (plan_of nodes m))) [
          | inl idle ↦ inl (
            free,
            is_empty-nil (plan_of nodes m) idle,
            idles m.writer_waits (is_empty nodes) (is_empty (plan_of nodes m)) _ _ _ _ free
                  some_nodes idle
                ∙ ap (λ r. returned (record m { readers = r })) (omega arith),
          )
          | inr busy ↦
              let waits : rebalance nodes now m ≡ waiting (stuck now held) =
                goes_on m.writer_waits (is_empty nodes) (is_empty (plan_of nodes m)) _ _ _ _ free
                  some_nodes busy
                ∙ (ap release
                    (execute_migration_plan-held (plan_of nodes m) d now held (ground arith))) in
              inr (elim (Bool-cases m.migrating) [
                | inl other ↦ (held, waits ∙ ap waiting (rw other refl), refl, refl, inl other)
                | inr first ↦ (
                  record held {
                    writer_waits = true;
                    migrating = true;
                    migration_state = record (m.migration_state) {
                      active = true;
                      started_at = some now;
                    };
                  },
                  waits ∙ ap waiting (rw first refl),
                  refl,
                  refl,
                  inr (refl, λ others later. refl),
                )
              ])
        ])
  ])
]
