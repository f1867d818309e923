-- ===== src/Consensus/Election.antt =====
-- cluster/consensus.rs: elections, and what a node can become.
use miwidothttp.Prelude.{
  ℕ, suc, ◌+◌, ◌≤◌, ◌<◌, ◌≡◌, ◌↔◌, ◌⊎◌, refl, subst, sym, ◌∙◌, Bool, true, false, ◌&&◌, none, List,
  [], ◌∷◌, ◌++◌, String, arith, ltb, if◌then◌else◌, length-append,
}
use miwidothttp.Consensus.{
  ConsensusManager, Command, VoteResponse, leader, follower, candidate, observer, won, tally, new,
  propose_command,
}
use miwidothttp.Consensus.Steps.{
  Action, set_role, set_leader, announce, stops, resets, check_shutdown, read_role, follower_duties,
  candidate_duties, raise_term, count_votes, take_term, receives, accepts, votes, check_leader,
  push, perform, IsTask, starts, ticks, handles_append, handles_vote, proposes, shuts_down,
}
use miwidothttp.Consensus.Log.{IsCommitted}
use miwidothttp.Tasks.{Pool, Step, Reach, spawns, runs, here, next, every, every-append}

-- The votes granted before the first refusal of a later term.
pub grants : ℕ → List VoteResponse → ℕ
grants term [] = 0
grants term (r ∷ rs) =
    let rest = grants term rs in
    if r.vote_granted then suc rest else (if ltb term r.term then 0 else rest)

-- The loop over the responses wins exactly if, up to the first refusal of a later term, some vote
-- is granted and the votes granted make up the number needed.
pub tally-won_iff :
    (term needed received : ℕ) (rs : List VoteResponse)
    → (tally term needed received rs ≡ won)
      ↔ ((0 < grants term rs) × (needed ≤ received + grants term rs))
unfolding tally grants
tally-won_iff term needed received [] = ground arith
tally-won_iff term needed received (r ∷ rs) =
    ground
      (arith, tally-won_iff term needed (received + 1) rs, tally-won_iff term needed received rs)

-- What no step of a task puts in front of it while the node is no leader.
abbrev pub is_calm : Action → Bool
is_calm (set_role leader) = false
is_calm (set_role observer) = false
is_calm announce = false
is_calm (push c now) = false
is_calm a = true

abbrev pub only_calm : List Action → Bool
only_calm [] = true
only_calm (a ∷ more) = is_calm a && only_calm more

-- A node that is no leader and has announced none, replicates to nobody, and has its commit index
-- within its log.
pub record Inv (m : ConsensusManager) : Type 0 where
  pub no_leader : (m.role ≡ follower) ⊎ (m.role ≡ candidate)
  pub committed : IsCommitted m.state
  pub no_targets : m.state.next_index ≡ []
  pub no_events : m.events ≡ []

perform-Inv :
    (a : Action) (rest : List Action) (m : ConsensusManager)
    → only_calm (a ∷ rest) ≡ true
    → Inv m
    → (only_calm ((perform a m).1 ++ rest) ≡ true) × Inv (perform a m).0
unfolding perform
perform-Inv (set_role leader) rest m k v = ground (arith, k)
perform-Inv (set_role follower) rest m k v = ground arith
perform-Inv (set_role candidate) rest m k v = ground arith
perform-Inv (set_role observer) rest m k v = ground (arith, k)
perform-Inv (set_leader id) rest m k v = ground arith
perform-Inv announce rest m k v = ground (arith, k)
perform-Inv stops rest m k v = ground arith
perform-Inv (resets d) rest m k v = ground arith
perform-Inv (check_shutdown now d d') rest m k v = ground arith
perform-Inv (read_role now d d') rest m k v = ground arith
perform-Inv (follower_duties now d d') rest m k v = ground arith
perform-Inv (candidate_duties now d d') rest m k v = ground arith
perform-Inv (raise_term d d') rest m k v = ground arith
perform-Inv (count_votes term d) rest m k v = ground arith
perform-Inv (take_term term) rest m k v = ground arith
perform-Inv (receives r d d') rest m k v = ground (arith, length-append m.state.log r.entries)
perform-Inv (accepts r d d') rest m k v = ground (arith, length-append m.state.log r.entries)
perform-Inv (votes r d) rest m k v = ground arith
perform-Inv (check_leader c now) rest m k v = ground arith
perform-Inv (push c now) rest m k v = ground (arith, k)

abbrev pub Node : Type 0
Node = Pool ConsensusManager Action

-- What holds of a node whose tasks may be between any two of their steps.
pub record RunningInv (n : Node) : Type 0 where
  pub calm : every only_calm n.tasks ≡ true
  pub node : Inv n.shared

runs-Inv :
    (m : ConsensusManager) (before : List (List Action)) (a : Action) (rest : List Action)
    (after : List (List Action))
    → every only_calm (before ++ (a ∷ rest) ∷ after) ≡ true
    → Inv m
    → RunningInv
        (record { shared = (perform a m).0; tasks = before ++ ((perform a m).1 ++ rest) ∷ after })
runs-Inv m before a rest after k v =
    let all = sym (every-append only_calm before (a ∷ rest) after) ∙ k in
    let (calm, inv) = perform-Inv a rest m (ground (arith, all)) v in
    record {
      calm =
          every-append only_calm before ((perform a m).1 ++ rest) after ∙ ground (arith, calm, all);
      node = inv;
    }

pub Step-Inv : {n k : Node} → Step perform IsTask n k → RunningInv n → RunningInv k
Step-Inv (spawns task (starts d)) v = record { calm = v.calm; node = v.node }
Step-Inv (spawns task (ticks now d d')) v = record { calm = v.calm; node = v.node }
Step-Inv (spawns task (handles_append r d d')) v = record { calm = v.calm; node = v.node }
Step-Inv (spawns task (handles_vote r d)) v = record { calm = v.calm; node = v.node }
Step-Inv (spawns task (proposes c now)) v = record { calm = v.calm; node = v.node }
Step-Inv (spawns task shuts_down) v = record { calm = v.calm; node = v.node }
Step-Inv {n} (runs before a rest after e) v =
    runs-Inv n.shared before a rest after (subst (λ ts. every only_calm ts ≡ true) e v.calm) v.node

-- A new node with no task.
abbrev pub fresh : String → ℕ → ℕ → Node
fresh id quorum now = record { shared = new id quorum now; tasks = [] }

pub new-Inv : (id : String) (quorum now : ℕ) → RunningInv (fresh id quorum now)
unfolding new
new-Inv id quorum now = record { calm = refl; node = ground arith }

Reach-Inv : {n k : Node} → RunningInv n → Reach perform IsTask n k → RunningInv k
Reach-Inv v here = v
Reach-Inv v (next r s) = Step-Inv s (Reach-Inv v r)

not_leading-refused :
    (c : Command) (later : ℕ) (m : ConsensusManager) → Inv m → propose_command c later m ≡ (m, none)
unfolding propose_command
not_leading-refused c later m v = ground arith

-- Whatever the interleaving of the starts, rounds of the loop, handlers, proposals and shutdowns by
-- which a state is reached from a new node, the node is a follower or a candidate, with no node to
-- replicate to and no leader announced, its commit index is within its log, no task is about to make
-- it a leader or to append a proposal, and a proposal made then is refused.
pub never_leader :
    (id : String) (quorum now : ℕ) (n : Node) (c : Command) (later : ℕ)
    → Reach perform IsTask (fresh id quorum now) n
    → RunningInv n × (propose_command c later n.shared ≡ (n.shared, none))
never_leader id quorum now n c later r =
    let v = Reach-Inv (new-Inv id quorum now) r in (v, not_leading-refused c later n.shared v.node)
