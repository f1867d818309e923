-- ===== src/Cluster.antt =====
-- cluster/mod.rs (src/cluster/mod.rs): `ClusterManager`, which holds the consensus, health,
-- distribution and replication managers, and the service of cluster/grpc.rs (src/cluster/grpc.rs),
-- which shares its table of nodes. Floating-point numbers are a type `F`; `average` of it and the
-- ring of the crate hashring, as `ring_get` over the virtual nodes in the order of their insertion,
-- are parameters. The gossip library is the source of the events, and what sysinfo reads is an
-- argument. The events that are sent are a list, newest first; those of the consensus manager, which
-- go to the same channel, stand in its own list. etcd and the connections to seed nodes keep nothing.
use miwidothttp.Prelude.{
  ℕ, zero, suc, ◌+◌, ◌-◌, ◌%◌, Bool, true, false, not, ◌&&◌, ◌||◌, Option, none, some, List, [],
  ◌∷◌, ◌++◌, String, length, take, map, retain, is_empty, append_text, ◌=?◌, string_eq,
  if◌then◌else◌,
}
use miwidothttp.Prelude.Assoc.{lookup, insert, remove}
use miwidothttp.Consensus.{
  Draw, NodeRole, follower, ConsensusManager, ClusterEvent, node_left, node_failed, node_joined,
  failover_triggered, rebalance_started, rebalance_completed,
}
use miwidothttp.Consensus
use miwidothttp.Health.{HealthChecks, Probe, check_all_nodes}
use miwidothttp.Distribution
use miwidothttp.Distribution.{DistributionManager, redistribute_load}
use miwidothttp.Distribution.Migration.{Run, returned, waiting, panicked, rebalance}
use miwidothttp.Replication.{Entries}
mod Node
unfoldable pub use Node.*
pub mod Rpc
pub mod Empty
pub mod Ring
mod Tests

pub record ClusterManager (F : Type 0) : Type 0 where
  pub config : ClusterConfig
  pub node_info : NodeInfo F
  pub nodes : List (String × NodeInfo F)
  pub hash_ring : List String
  pub consensus_manager : ConsensusManager
  pub health_checks : HealthChecks
  pub distribution_manager : DistributionManager
  pub replication_manager : Entries
  pub events : List ClusterEvent
  pub shutdown : Bool

-- How `rebalance_cluster` ends.
pub data Ending : Type 0 where
  done no_active_nodes waits panics : Ending

module _ {F : Type 0} where
  unfoldable pub new : ClusterConfig → Machine F → ClusterManager F
  new config machine = record {
    config = config;
    node_info = record {
      id = config.node_id;
      name = machine.hostname;
      addr = config.bind_addr;
      grpc_addr = machine.grpc_addr;
      state = joining;
      role = follower;
      capacity = machine.capacity;
      load = machine.load;
      version = machine.version;
      started_at = machine.now;
      last_seen = machine.now;
      metadata = [];
    };
    nodes = [];
    hash_ring = [];
    consensus_manager = Consensus.new config.node_id config.quorum_size machine.now;
    health_checks = [];
    distribution_manager = Distribution.new;
    replication_manager = [];
    events = [];
    shutdown = false;
  }

  -- The end of `start`, after the tasks are spawned.
  pub activate : ClusterManager F → ClusterManager F
  activate m = record m { node_info = record (m.node_info) { state = active } }

  -- `start`, which ends early where the start of the gossip or a call after that of the consensus
  -- manager's `start` fails; what it spawns are tasks of their own.
  pub start : (gossip_fails later_fails : Bool) → Draw → ClusterManager F → ClusterManager F
  unfolding activate
  start gossip_fails later_fails d m =
      let armed = record m {
        consensus_manager = Consensus.reset_election_timer d m.consensus_manager;
      } in
      if gossip_fails then m else (if later_fails then armed else activate armed)

  -- `get_mut` and a change of the entry, where there is one.
  abbrev pub modify : String → (NodeInfo F → NodeInfo F) → Nodes F → Nodes F
  modify id change nodes = elim (lookup id nodes) [
    | none ↦ nodes
    | some n ↦ insert id (change n) nodes
  ]

  -- One event in the loop of `process_gossip_events`.
  pub process_gossip_event : GossipEvent → ClusterManager F → ClusterManager F
  process_gossip_event (joined id) m = record m { events = node_joined id ∷ m.events }
  process_gossip_event (left id) m = record m {
    nodes = remove id m.nodes;
    events = node_left id ∷ m.events;
  }
  process_gossip_event (gossip_failed id) m = record m {
    nodes = modify id (λ n. record n { state = failed }) m.nodes;
    events = node_failed id ∷ m.events;
  }
  process_gossip_event other m = m

  -- A tick of the heartbeat task.
  pub heartbeat_tick : ℕ → NodeLoad F → ClusterManager F → ClusterManager F
  heartbeat_tick now load m = record m {
    node_info = record (m.node_info) { last_seen = now; load = load };
  }

  -- A tick of the ring's task: the virtual nodes of the active nodes.
  unfoldable pub ring_of : Nodes F → List String
  ring_of [] = []
  ring_of ((id, n) ∷ rest) =
      (if is_active n.state then virtual_nodes id 0 150 else []) ++ ring_of rest

  pub update_hash_ring : ClusterManager F → ClusterManager F
  unfolding ring_of
  update_hash_ring m = record m { hash_ring = ring_of m.nodes }

  -- A round of the health monitor, which probes every node of the table.
  pub health_round : (NodeInfo F → Probe) → ClusterManager F → ClusterManager F
  health_round probe m = record m {
    health_checks = check_all_nodes (map (λ e. probe (e.1)) m.nodes) m.health_checks;
  }

  -- The ids of the active nodes but one, in the map's order.
  abbrev pub active_ids : Nodes F → List String
  active_ids [] = []
  active_ids ((key, n) ∷ rest) =
      if is_active n.state then n.id ∷ active_ids rest else active_ids rest

  pub is_leader : ClusterManager F → Bool
  is_leader m = is_leader_role m.node_info.role

  abbrev find_leader : Nodes F → Option (NodeInfo F)
  find_leader [] = none
  find_leader ((id, n) ∷ rest) = if is_leader_role n.role then some n else find_leader rest

  pub get_leader : ClusterManager F → Option (NodeInfo F)
  get_leader m = find_leader m.nodes

  pub rebalance_cluster : ℕ → ClusterManager F → ClusterManager F × Ending
  rebalance_cluster now m =
      let begun = record m { events = rebalance_started ∷ m.events } in
      let ids = active_ids m.nodes in
      let run = rebalance ids now m.distribution_manager in
      if is_empty ids then (begun, no_active_nodes) else elim run [
        | returned d ↦ (
          record begun { distribution_manager = d; events = rebalance_completed ∷ begun.events },
          done,
        )
        | waiting d ↦ (record begun { distribution_manager = d }, waits)
        | panicked ↦ (begun, panics)
      ]

  -- `shutdown`. Where the gossip library fails to shut down, the rest is left as it is.
  pub stop : (gossip_fails : Bool) → ClusterManager F → ClusterManager F
  stop gossip_fails m =
      let leaving_node = record m {
        shutdown = true;
        node_info = record (m.node_info) { state = leaving };
      } in
      if gossip_fails
      then leaving_node
      else record leaving_node { consensus_manager = Consensus.stop m.consensus_manager }

  abbrev sum_of : (NodeInfo F → ℕ) → Nodes F → ℕ
  sum_of f [] = 0
  sum_of f ((id, n) ∷ rest) = f n + sum_of f rest

  -- The u32 sums of the fold wrap.
  unfoldable pub get_cluster_stats : (List F → F) → ClusterManager F → ClusterStats F
  get_cluster_stats average m = record {
    total_nodes = length m.nodes;
    active_nodes = length (retain (λ e. is_active (e.1).state) m.nodes);
    failed_nodes = length (retain (λ e. is_failed (e.1).state) m.nodes);
    total_capacity = sum_of (λ n. n.capacity.max_connections) m.nodes % 4294967296;
    total_load = sum_of (λ n. n.load.active_connections) m.nodes % 4294967296;
    avg_cpu_percent = average (map (λ e. (e.1).load.cpu_percent) m.nodes);
    avg_memory_percent = average (map (λ e. (e.1).load.memory_percent) m.nodes);
    replication_factor = m.config.replication_factor;
    quorum_size = m.config.quorum_size;
  }

  -- `ring.remove` takes an entry of exactly this text off the ring. The distribution manager has a
  -- ring of its own.
  pub trigger_failover : (String → Option String) → String → ClusterManager F → ClusterManager F
  trigger_failover distribution_ring failed_node m =
      if not m.config.enable_auto_failover then m else record m {
        events = failover_triggered failed_node ∷ m.events;
        distribution_manager =
            redistribute_load distribution_ring failed_node m.distribution_manager;
        hash_ring = retain (λ v. not (v =? failed_node)) m.hash_ring;
      }

module _ {F : Type 0} (ring_get : List String → String → Option String) where
  -- The virtual node itself is given, its number included.
  pub get_node_for_key : String → ClusterManager F → Option String
  get_node_for_key key m = ring_get m.hash_ring key

  pub get_replicas_for_key : String → ClusterManager F → List String
  get_replicas_for_key key m = elim (ring_get m.hash_ring key) [
    | none ↦ []
    | some primary ↦
        primary
        ∷ take (m.config.replication_factor - 1)
            (retain (λ id. not (id =? primary)) (active_ids m.nodes))
  ]
