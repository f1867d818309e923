-- ===== src/Cluster/Empty.antt =====
-- cluster/mod.rs: what a cluster's node knows of the others, whatever happens.
use miwidothttp.Prelude.{
  Bool, true, ℕ, ◌≡◌, refl, ap, false, Option, none, List, [], ◌∷◌, String, retain, not, ◌=?◌,
  string_eq, arith,
}
use miwidothttp.Prelude.Assoc.{lookup, remove}
use miwidothttp.Consensus.{Draw, follower, rebalance_started}
use miwidothttp.Consensus
use miwidothttp.Consensus.Steps.{Action, perform, IsTask}
use miwidothttp.Tasks
use miwidothttp.Tasks.{every}
use miwidothttp.Consensus.Election as Election
use miwidothttp.Health.{Probe, check_all_nodes}
use miwidothttp.Distribution
use miwidothttp.Distribution.{DistributionManager, reassign, redistribute_load}
use miwidothttp.Cluster.{
  ClusterManager, ClusterConfig, Machine, NodeInfo, NodeLoad, GossipEvent, joined, left,
  gossip_failed, other, new, start, activate, process_gossip_event, heartbeat_tick,
  update_hash_ring, ring_of, health_round, is_leader, get_leader, rebalance_cluster,
  no_active_nodes, stop, get_node_for_key, get_replicas_for_key, trigger_failover,
}
use miwidothttp.Cluster.Rpc.{HeartbeatRequest, heartbeat}

redistribute_load-no_keys :
    (ring : String → Option String) (id : String) (d : DistributionManager)
    → d.key_mappings ≡ []
    → (redistribute_load ring id d).key_mappings ≡ []
unfolding redistribute_load reassign
redistribute_load-no_keys ring id d none_kept = rw none_kept refl

-- The manager, and the tasks of its consensus manager.
pub record Running (F : Type 0) : Type 0 where
  pub manager : ClusterManager F
  pub tasks : List (List Action)

module _ {F : Type 0} where
  -- A step of a node's cluster manager: one of its own tasks and methods, or a call of its service. The
  -- last stretch of `start` is a step of its own, since others may lie before it.
  pub data Step (m : ClusterManager F) : ClusterManager F → Type 0 where
    starts :
        (gossip_fails later_fails : Bool) (d : Draw) → Step m (start gossip_fails later_fails d m)
    activates : Step m (activate m)
    gossips : (e : GossipEvent) → Step m (process_gossip_event e m)
    beats : (now : ℕ) (load : NodeLoad F) → Step m (heartbeat_tick now load m)
    rings : Step m (update_hash_ring m)
    checks : (probe : NodeInfo F → Probe) → Step m (health_round probe m)
    hears : (req : HeartbeatRequest F) (now : ℕ) → Step m (heartbeat req now m).0
    fails_over : (ring : String → Option String) (id : String) → Step m (trigger_failover ring id m)
    rebalances : (now : ℕ) → Step m (rebalance_cluster now m).0
    stops : (gossip_fails : Bool) → Step m (stop gossip_fails m)

  -- A step of the cluster manager, or one of a task of its consensus manager.
  pub data Moves (r : Running F) : Running F → Type 0 where
    acts : {n : ClusterManager F} → Step r.manager n → Moves r (record r { manager = n })
    agrees :
        {k : Election.Node}
        → Tasks.Step perform IsTask
            (record { shared = (r.manager).consensus_manager; tasks = r.tasks })
            k
        → Moves r (record {
          manager = record (r.manager) { consensus_manager = k.shared };
          tasks = k.tasks;
        })

  pub data Reach (r : Running F) : Running F → Type 0 where
    here : Reach r r
    next : {n p : Running F} → Reach r n → Moves n p → Reach r p

  -- The node knows no other, keeps no key and is a follower.
  pub record IsAlone (m : ClusterManager F) : Type 0 where
    pub no_nodes : m.nodes ≡ []
    pub no_ring : m.hash_ring ≡ []
    pub no_checks : m.health_checks ≡ []
    pub no_keys : m.distribution_manager.key_mappings ≡ []
    pub is_follower : m.node_info.role ≡ follower
    pub not_elected : Election.Inv m.consensus_manager

  rebalance_cluster-alone :
      (now : ℕ) (m : ClusterManager F)
      → m.nodes ≡ []
      → rebalance_cluster now m
        ≡ (record m { events = rebalance_started ∷ m.events }, no_active_nodes)
  unfolding rebalance_cluster
  rebalance_cluster-alone now m h = ground arith

  gossip-IsAlone :
      (e : GossipEvent) (m : ClusterManager F) → IsAlone m → IsAlone (process_gossip_event e m)
  unfolding process_gossip_event lookup remove
  gossip-IsAlone (joined id) m v = ground arith
  gossip-IsAlone (left id) m v = record {
    no_nodes = ap (remove id) v.no_nodes;
    no_ring = v.no_ring;
    no_checks = v.no_checks;
    no_keys = v.no_keys;
    is_follower = v.is_follower;
    not_elected = v.not_elected;
  }
  gossip-IsAlone (gossip_failed id) m v = record {
    no_nodes = rw v.no_nodes refl;
    no_ring = v.no_ring;
    no_checks = v.no_checks;
    no_keys = v.no_keys;
    is_follower = v.is_follower;
    not_elected = v.not_elected;
  }
  gossip-IsAlone other m v = v

  trigger_failover-IsAlone :
      (ring : String → Option String) (id : String) (m : ClusterManager F)
      → IsAlone m
      → IsAlone (trigger_failover ring id m)
  unfolding trigger_failover
  trigger_failover-IsAlone ring id m v = ground (
    arith,
    redistribute_load-no_keys ring id m.distribution_manager v.no_keys,
    ap (retain (λ x. not (x =? id))) v.no_ring,
  )

  Step-IsAlone : {m n : ClusterManager F} → Step m n → IsAlone m → IsAlone n
  unfolding start activate Consensus.reset_election_timer Consensus.stop heartbeat_tick
      update_hash_ring ring_of stop health_round check_all_nodes heartbeat lookup
  Step-IsAlone {m} (starts gossip_fails later_fails d) v = ground arith
  Step-IsAlone {m} activates v = ground arith
  Step-IsAlone {m} (gossips e) v = gossip-IsAlone e m v
  Step-IsAlone {m} (beats now load) v = ground arith
  Step-IsAlone {m} rings v = record {
    no_nodes = v.no_nodes;
    no_ring = ap ring_of v.no_nodes;
    no_checks = v.no_checks;
    no_keys = v.no_keys;
    is_follower = v.is_follower;
    not_elected = v.not_elected;
  }
  Step-IsAlone {m} (checks probe) v = record {
    no_nodes = v.no_nodes;
    no_ring = v.no_ring;
    no_checks = rw v.no_nodes v.no_checks;
    no_keys = v.no_keys;
    is_follower = v.is_follower;
    not_elected = v.not_elected;
  }
  Step-IsAlone {m} (hears req now) v = record {
    no_nodes = rw v.no_nodes refl;
    no_ring = v.no_ring;
    no_checks = v.no_checks;
    no_keys = v.no_keys;
    is_follower = v.is_follower;
    not_elected = v.not_elected;
  }
  Step-IsAlone {m} (fails_over ring id) v = trigger_failover-IsAlone ring id m v
  Step-IsAlone {m} (rebalances now) v = rw (rebalance_cluster-alone now m v.no_nodes) record {
    no_nodes = v.no_nodes;
    no_ring = v.no_ring;
    no_checks = v.no_checks;
    no_keys = v.no_keys;
    is_follower = v.is_follower;
    not_elected = v.not_elected;
  }
  Step-IsAlone {m} (stops true) v = ground arith
  Step-IsAlone {m} (stops false) v = record {
    no_nodes = v.no_nodes;
    no_ring = v.no_ring;
    no_checks = v.no_checks;
    no_keys = v.no_keys;
    is_follower = v.is_follower;
    not_elected = ground arith;
  }

  -- The same of a manager whose consensus manager has tasks between two of their steps.
  pub record RunsAlone (r : Running F) : Type 0 where
    pub is_alone : IsAlone r.manager
    pub calm : every Election.only_calm r.tasks ≡ true

  Moves-RunsAlone : {r n : Running F} → Moves r n → RunsAlone r → RunsAlone n
  Moves-RunsAlone (acts s) v = record { is_alone = Step-IsAlone s v.is_alone; calm = v.calm }
  Moves-RunsAlone {r} (agrees s) v =
      let alone = v.is_alone in
      let inv = Election.Step-Inv s (record { calm = v.calm; node = alone.not_elected }) in
      record {
        is_alone = record {
          no_nodes = alone.no_nodes;
          no_ring = alone.no_ring;
          no_checks = alone.no_checks;
          no_keys = alone.no_keys;
          is_follower = alone.is_follower;
          not_elected = inv.node;
        };
        calm = inv.calm;
      }

  Reach-RunsAlone : {r n : Running F} → RunsAlone r → Reach r n → RunsAlone n
  Reach-RunsAlone v here = v
  Reach-RunsAlone v (next r s) = Moves-RunsAlone s (Reach-RunsAlone v r)

  new-IsAlone : (config : ClusterConfig) (machine : Machine F) → IsAlone (new config machine)
  unfolding new Distribution.new
  new-IsAlone config machine = record {
    no_nodes = refl;
    no_ring = refl;
    no_checks = refl;
    no_keys = refl;
    is_follower = refl;
    not_elected = (Election.new-Inv config.node_id config.quorum_size machine.now).node;
  }

  -- Let the ring give no node for any key while it is empty. Whatever gossip events, heartbeats, ticks
  -- and calls, starts included, and whatever steps of the tasks of its consensus manager, in any
  -- interleaving, lead from a new manager to a state, in that state the table of nodes, the ring, the
  -- health checks and the table of keys are empty, the node's own role is follower and its consensus
  -- manager keeps the invariant of one that is never leader, so no key has a node or a replica, there
  -- is no leader, and a rebalancing only announces its start and fails for want of active nodes.
  pub stays-IsAlone :
      (ring_get : List String → String → Option String)
      → ((key : String) → ring_get [] key ≡ none)
      → (config : ClusterConfig) (machine : Machine F) {r : Running F}
      → Reach (record { manager = new config machine; tasks = [] }) r
      → (key : String) (now : ℕ)
      → RunsAlone r
        × (get_node_for_key ring_get key r.manager ≡ none)
        × (get_replicas_for_key ring_get key r.manager ≡ [])
        × (get_leader r.manager ≡ none)
        × (is_leader r.manager ≡ false)
        × (rebalance_cluster now r.manager ≡ (
          record (r.manager) { events = rebalance_started ∷ (r.manager).events },
          no_active_nodes,
        ))
  unfolding get_node_for_key get_replicas_for_key get_leader is_leader
  stays-IsAlone ring_get no_nodes_no_answer config machine {r} reached key now =
      let w =
        Reach-RunsAlone (record { is_alone = new-IsAlone config machine; calm = refl }) reached in
      let v = w.is_alone in
      (
        w,
        rw v.no_ring (no_nodes_no_answer key),
        rw (get_replicas_for_key, v.no_ring, no_nodes_no_answer key) refl,
        rw v.no_nodes refl,
        rw v.is_follower refl,
        rebalance_cluster-alone now r.manager v.no_nodes,
      )
