-- ===== src/Cluster/Tests.antt =====
-- cluster/mod.rs: the theorems' witnesses.
use miwidothttp.Prelude.{ℕ, ◌≡◌, refl, true, false, Option, none, some, List, [], ◌∷◌, String}
use miwidothttp.Consensus
use miwidothttp.Consensus.{Draw, follower, candidate, rebalance_started}
use miwidothttp.Consensus.Steps.{
  perform, check_shutdown, read_role, follower_duties, set_role, set_leader, raise_term, ticks,
}
use miwidothttp.Tasks.{spawns, runs}
use miwidothttp.Cluster.{
  get_cluster_stats, ClusterManager, ClusterConfig, Machine, NodeInfo, NodeCapacity, NodeLoad,
  joined, active, failed, new, start, process_gossip_event, update_hash_ring, get_node_for_key,
  get_replicas_for_key, get_leader, is_leader, rebalance_cluster, no_active_nodes,
}
use miwidothttp.Cluster.Empty.{
  Running, RunsAlone, here, next, acts, agrees, starts, gossips, rings, stays-IsAlone,
}

abbrev capacity : NodeCapacity
capacity = record {
  cpu_cores = 8;
  memory_mb = 1024;
  disk_gb = 1;
  network_mbps = 1;
  max_connections = 4294967295;
}

abbrev load : NodeLoad ℕ
load = record {
  cpu_percent = 1;
  memory_percent = 2;
  disk_percent = 3;
  active_connections = 4;
  requests_per_second = 5;
  response_time_ms = 6;
}

abbrev config : ClusterConfig
config = record {
  enabled = true;
  node_id = "a";
  cluster_name = "web";
  bind_addr = "10.0.0.1:7946";
  seed_nodes = [];
  replication_factor = 3;
  quorum_size = 1;
  enable_auto_join = true;
  enable_auto_failover = true;
}

abbrev machine : Machine ℕ
machine = record {
  hostname = "host";
  grpc_addr = "10.0.0.1:8000";
  version = "1";
  capacity = capacity;
  load = load;
  now = 7;
}

-- A ring that gives its first entry to every key.
abbrev first_entry : List String → String → Option String
first_entry [] key = none
first_entry (v ∷ vs) key = some v

abbrev draw : Draw
draw = record { now = 1000; random = 160 }

-- Two nodes have joined by gossip and the ring has been built.
abbrev grown : ClusterManager ℕ
grown = update_hash_ring (
    process_gossip_event (joined "c")
      (process_gossip_event (joined "b") (start false false draw (new config machine))))

abbrev after : Running ℕ
after = record {
  manager = record grown {
    consensus_manager = record (grown.consensus_manager) { role = candidate };
  };
  tasks = (set_leader none ∷ raise_term draw draw ∷ []) ∷ [];
}

-- The election timer that `start` has set runs out, and the node becomes a candidate.
stays-IsAlone_example :
    RunsAlone after
    × (get_node_for_key first_entry "key" after.manager ≡ none)
    × (get_replicas_for_key first_entry "key" after.manager ≡ [])
    × (get_leader after.manager ≡ none)
    × (is_leader after.manager ≡ false)
    × (rebalance_cluster 9 after.manager ≡ (
      record (after.manager) { events = rebalance_started ∷ (after.manager).events },
      no_active_nodes,
    ))
unfolding perform new start Consensus.new Consensus.reset_election_timer
    Consensus.is_election_timeout update_hash_ring process_gossip_event
stays-IsAlone_example =
    stays-IsAlone first_entry (λ key. refl) config machine {r = after}
      (next
        (next
          (next
            (next
              (next
                (next
                  (next
                    (next (next here (acts (starts false false draw)))
                      (acts (gossips (joined "b"))))
                    (acts (gossips (joined "c"))))
                  (acts rings))
                (agrees (spawns (check_shutdown 2000 draw draw ∷ []) (ticks 2000 draw draw))))
              (agrees (runs [] (check_shutdown 2000 draw draw) [] [] refl)))
            (agrees (runs [] (read_role 2000 draw draw) [] [] refl)))
          (agrees (runs [] (follower_duties 2000 draw draw) [] [] refl)))
        (agrees
          (runs [] (set_role candidate) (set_leader none ∷ raise_term draw draw ∷ []) [] refl)))
      "key" 9

abbrev node : String → NodeInfo ℕ
node id = record {
  id = id;
  name = id;
  addr = id;
  grpc_addr = id;
  state = active;
  role = follower;
  capacity = capacity;
  load = load;
  version = "1";
  started_at = 0;
  last_seen = 0;
  metadata = [];
}

abbrev two_nodes : ClusterManager ℕ
two_nodes = record (new config machine) {
  nodes = ("b", node "b") ∷ ("c", record (node "c") { state = failed }) ∷ [];
}

abbrev average : List ℕ → ℕ
average [] = 0
average (x ∷ xs) = x

-- The sum of two capacities does not fit in 32 bits.
capacity_wraps : (get_cluster_stats average two_nodes).total_capacity ≡ 4294967294
unfolding get_cluster_stats
capacity_wraps = refl
