-- ===== src/Cluster/Rpc.antt =====
-- cluster/grpc.rs (src/cluster/grpc.rs): the handlers of the service `ClusterRpc`, over the table of
-- nodes that it shares with the manager. The messages are those of `CLUSTER_PROTO`; a clock is read
-- as an argument, and the texts of an address, a state and a role are written by the functions given.
use miwidothttp.Prelude.{ℕ, Bool, true, false, List, [], map, String}
use miwidothttp.Consensus.{NodeRole}
use miwidothttp.Cluster.{NodeState, ClusterManager, modify}

pub record HeartbeatRequest (F : Type 0) : Type 0 where
  pub node_id : String
  pub cpu_load : F
  pub memory_load : F
  pub connections : ℕ
  pub timestamp : ℕ

pub record HeartbeatResponse : Type 0 where
  pub success : Bool
  pub leader_id : String
  pub cluster_time : ℕ

pub record NodeStatus (F : Type 0) : Type 0 where
  pub node_id : String
  pub address : String
  pub state : String
  pub role : String
  pub cpu_load : F
  pub memory_load : F
  pub connections : ℕ
  pub last_seen : ℕ

pub record ElectionRequest : Type 0 where
  pub term : ℕ
  pub candidate_id : String
  pub last_log_index : ℕ
  pub last_log_term : ℕ

pub record ElectionResponse : Type 0 where
  pub term : ℕ
  pub vote_granted : Bool
  pub voter_id : String

pub record SyncResponse : Type 0 where
  pub success : Bool
  pub data_version : ℕ
  pub items_synced : ℕ

pub record ReplicationResponse : Type 0 where
  pub success : Bool
  pub replicas_confirmed : ℕ
  pub replication_time_ms : ℕ

pub record DataResponse : Type 0 where
  pub found : Bool
  pub value : List ℕ
  pub version : ℕ
  pub owner_node : String

module _ {F : Type 0} where
  unfoldable pub heartbeat :
      HeartbeatRequest F → ℕ → ClusterManager F → ClusterManager F × HeartbeatResponse
  heartbeat req now m = (
    record m {
      nodes =
          modify req.node_id
            (λ n. record n {
              last_seen = now;
              load = record (n.load) {
                cpu_percent = req.cpu_load;
                memory_percent = req.memory_load;
                active_connections = req.connections;
              };
            })
            m.nodes;
    },
    record { success = true; leader_id = ""; cluster_time = now },
  )

  pub get_nodes :
      (NodeState → String) → (NodeRole → String) → ClusterManager F → List (NodeStatus F)
  get_nodes show_state show_role m =
      map
        (λ e.
          let n = e.1 in
          record {
            node_id = n.id;
            address = n.addr;
            state = show_state n.state;
            role = show_role n.role;
            cpu_load = n.load.cpu_percent;
            memory_load = n.load.memory_percent;
            connections = n.load.active_connections;
            last_seen = n.last_seen;
          })
        m.nodes

-- The handlers that are not implemented answer without reading or changing any state.
pub sync_data : SyncResponse
sync_data = record { success = true; data_version = 1; items_synced = 0 }

unfoldable pub request_vote : ElectionRequest → ElectionResponse
request_vote req = record { term = req.term; vote_granted = true; voter_id = "node-1" }

pub replicate_data : ℕ → ReplicationResponse
replicate_data replica_count = record {
  success = true;
  replicas_confirmed = replica_count;
  replication_time_ms = 10;
}

pub get_data : DataResponse
get_data = record { found = false; value = []; version = 0; owner_node = "" }
