-- ===== src/Cluster/Node.antt =====
-- cluster/mod.rs (src/cluster/mod.rs): a node of the cluster, its states and roles, and the
-- configuration and statistics of a cluster. Floating-point numbers are a type `F`.
use miwidothttp.Prelude.{ℕ, zero, suc, ◌+◌, Bool, true, false, List, [], ◌∷◌, String, append_text}
use miwidothttp.Rewrite.{decimal_text}
use miwidothttp.Consensus.{NodeRole, leader, follower, candidate, observer}

pub data NodeState : Type 0 where
  joining active leaving failed suspended : NodeState

pub record NodeCapacity : Type 0 where
  pub cpu_cores : ℕ
  pub memory_mb : ℕ
  pub disk_gb : ℕ
  pub network_mbps : ℕ
  pub max_connections : ℕ

pub record NodeLoad (F : Type 0) : Type 0 where
  pub cpu_percent : F
  pub memory_percent : F
  pub disk_percent : F
  pub active_connections : ℕ
  pub requests_per_second : F
  pub response_time_ms : F

pub record NodeInfo (F : Type 0) : Type 0 where
  pub id : String
  pub name : String
  pub addr : String
  pub grpc_addr : String
  pub state : NodeState
  pub role : NodeRole
  pub capacity : NodeCapacity
  pub load : NodeLoad F
  pub version : String
  pub started_at : ℕ
  pub last_seen : ℕ
  pub metadata : List (String × String)

-- The intervals and ports, which only the tasks and libraries read, are left out.
pub record ClusterConfig : Type 0 where
  pub enabled : Bool
  pub node_id : String
  pub cluster_name : String
  pub bind_addr : String
  pub seed_nodes : List String
  pub replication_factor : ℕ
  pub quorum_size : ℕ
  pub enable_auto_join : Bool
  pub enable_auto_failover : Bool

-- What `new` and `measure_load` read of the machine.
pub record Machine (F : Type 0) : Type 0 where
  pub hostname : String
  pub grpc_addr : String
  pub version : String
  pub capacity : NodeCapacity
  pub load : NodeLoad F
  pub now : ℕ

pub data GossipEvent : Type 0 where
  joined left gossip_failed : String → GossipEvent
  other : GossipEvent

abbrev pub is_active : NodeState → Bool
is_active active = true
is_active joining = false
is_active leaving = false
is_active failed = false
is_active suspended = false

abbrev pub is_failed : NodeState → Bool
is_failed failed = true
is_failed joining = false
is_failed active = false
is_failed leaving = false
is_failed suspended = false

abbrev pub is_leader_role : NodeRole → Bool
is_leader_role leader = true
is_leader_role follower = false
is_leader_role candidate = false
is_leader_role observer = false

-- `ring.add(format!("{}:{}", id, i))` for i from the given number on, as often as given.
unfoldable pub virtual_nodes : String → ℕ → ℕ → List String
virtual_nodes id i zero = []
virtual_nodes id i (suc n) =
    append_text id (append_text ":" (decimal_text i)) ∷ virtual_nodes id (i + 1) n

pub record ClusterStats (F : Type 0) : Type 0 where
  pub total_nodes : ℕ
  pub active_nodes : ℕ
  pub failed_nodes : ℕ
  pub total_capacity : ℕ
  pub total_load : ℕ
  pub avg_cpu_percent : F
  pub avg_memory_percent : F
  pub replication_factor : ℕ
  pub quorum_size : ℕ

-- `Arc<RwLock<HashMap<String, NodeInfo>>>`.
abbrev pub Nodes : Type 0 → Type 0
Nodes F = List (String × NodeInfo F)
