-- ===== src/Consensus.antt =====
-- cluster/consensus.rs (src/cluster/consensus.rs): one node's Raft state and its handlers, and
-- `NodeRole` of src/cluster/mod.rs. Each method here is one call with no other in between;
-- Steps has what they do under one lock after another, between which other tasks may run. `Instant::now()` and the random number that `reset_election_timer` draws are the
-- argument `Draw`; event_tx is the list of the events sent, newest first. `request_votes` returns
-- no response, as in the source. Terms are u64 and wrap; logging is left out.
use miwidothttp.Prelude.{
  ℕ, ◌+◌, ◌-◌, ◌/◌, ◌%◌, Bool, true, false, not, ◌&&◌, ◌||◌, Option, none, some, List, [], ◌∷◌,
  ◌++◌, String, min, length, last, drop, get_elem?, is_none, is_empty, leb, ltb, ◌==◌, ◌=?◌,
  string_eq, if◌then◌else◌,
}
use mathlib.Core.Option
pub mod Steps
pub mod Alone
pub mod Log
pub mod Vote
pub mod Election
mod Tests

pub data NodeRole : Type 0 where
  leader follower candidate observer : NodeRole

pub data Command : Type 0 where
  no_op : Command
  config_change : String → String → Command
  state_update : String → List ℕ → Command
  custom : List ℕ → Command

pub record LogEntry : Type 0 where
  pub term : ℕ
  pub index : ℕ
  pub command : Command
  pub timestamp : ℕ

pub record RaftState : Type 0 where
  pub current_term : ℕ
  pub voted_for : Option String
  pub log : List LogEntry
  pub commit_index : ℕ
  pub last_applied : ℕ
  pub next_index : List (String × ℕ)
  pub match_index : List (String × ℕ)

pub data ClusterEvent : Type 0 where
  node_joined node_left node_failed leader_elected config_changed failover_triggered :
      String → ClusterEvent
  rebalance_started rebalance_completed : ClusterEvent

pub record ConsensusManager : Type 0 where
  pub node_id : String
  pub quorum_size : ℕ
  pub role : NodeRole
  pub state : RaftState
  pub leader_id : Option String
  pub election_timeout : Option ℕ
  pub events : List ClusterEvent
  pub shutdown : Bool

-- What a call of `reset_election_timer` reads: the clock, in ms, and a random u64.
pub record Draw : Type 0 where
  pub now : ℕ
  pub random : ℕ

pub record AppendEntriesRequest : Type 0 where
  pub term : ℕ
  pub leader_id : String
  pub prev_log_index : ℕ
  pub prev_log_term : ℕ
  pub entries : List LogEntry
  pub leader_commit : ℕ

pub record AppendEntriesResponse : Type 0 where
  pub term : ℕ
  pub success : Bool

pub record VoteRequest : Type 0 where
  pub term : ℕ
  pub candidate_id : String
  pub last_log_index : ℕ
  pub last_log_term : ℕ

pub record VoteResponse : Type 0 where
  pub term : ℕ
  pub vote_granted : Bool

-- `ConsensusManager::new` at time `now`.
unfoldable pub new : String → ℕ → ℕ → ConsensusManager
new node_id quorum_size now = record {
  node_id = node_id;
  quorum_size = quorum_size;
  role = follower;
  state = record {
    current_term = 0;
    voted_for = none;
    log = record { term = 0; index = 0; command = no_op; timestamp = now } ∷ [];
    commit_index = 0;
    last_applied = 0;
    next_index = [];
    match_index = [];
  };
  leader_id = none;
  election_timeout = none;
  events = [];
  shutdown = false;
}

unfoldable pub reset_election_timer : Draw → ConsensusManager → ConsensusManager
reset_election_timer d m = record m { election_timeout = some (d.now + (d.random % 150 + 150)) }

unfoldable pub is_election_timeout : ℕ → ConsensusManager → Bool
is_election_timeout now m = elim m.election_timeout [ none ↦ false | some t ↦ leb t now ]

-- `log.last().map(|e| e.index).unwrap_or(0)`, and the same of the term.
abbrev pub last_index : Option LogEntry → ℕ
last_index none = 0
last_index (some e) = e.index

abbrev pub last_term : Option LogEntry → ℕ
last_term none = 0
last_term (some e) = e.term

-- `send_heartbeats`: the request that is broadcast.
pub heartbeat : ConsensusManager → AppendEntriesRequest
heartbeat m = record {
  term = m.state.current_term;
  leader_id = m.node_id;
  prev_log_index = last_index (last m.state.log);
  prev_log_term = last_term (last m.state.log);
  entries = [];
  leader_commit = m.state.commit_index;
}

-- The node list in the source is an empty placeholder, so no index is set.
pub become_leader : ConsensusManager → ConsensusManager
become_leader m = record m {
  role = leader;
  leader_id = some m.node_id;
  events = leader_elected m.node_id ∷ m.events;
}

pub become_follower : ℕ → Draw → ConsensusManager → ConsensusManager
unfolding reset_election_timer
become_follower term d m = reset_election_timer d (record m {
  role = follower;
  state = record (m.state) { current_term = term; voted_for = none };
})

pub request_votes : ℕ → List VoteResponse
request_votes term = []

pub data Verdict : Type 0 where
  won lost : Verdict
  outdated : ℕ → Verdict

-- The loop of `start_election` over the responses.
pub tally : ℕ → ℕ → ℕ → List VoteResponse → Verdict
tally current_term votes_needed votes_received [] = lost
tally current_term votes_needed votes_received (r ∷ rs) =
    let more = tally current_term votes_needed (votes_received + 1) rs in
    let same = tally current_term votes_needed votes_received rs in
    if r.vote_granted
    then (if leb votes_needed (votes_received + 1) then won else more)
    else (if ltb current_term r.term then outdated r.term else same)

conclude : Verdict → Draw → ConsensusManager → ConsensusManager
unfolding become_leader become_follower
conclude won d m = become_leader m
conclude (outdated term) d m = become_follower term d m
conclude lost d m = become_follower m.state.current_term d m

pub start_election : Draw → Draw → ConsensusManager → ConsensusManager
unfolding conclude request_votes reset_election_timer tally
start_election d d' m =
    let term = (m.state.current_term + 1) % 18446744073709551616 in
    let m' =
      reset_election_timer d (record m {
        state = record (m.state) { current_term = term; voted_for = some m.node_id };
      }) in
    conclude (tally term ((m.quorum_size + 1) / 2) 1 (request_votes term)) d' m'

pub become_candidate : Draw → Draw → ConsensusManager → ConsensusManager
unfolding start_election
become_candidate d d' m = start_election d d' (record m { role = candidate; leader_id = none })

-- One round of `consensus_loop`. A leader's duties send and change no state; an observer has none.
duties : NodeRole → ℕ → Draw → Draw → ConsensusManager → ConsensusManager
unfolding is_election_timeout start_election become_candidate
duties leader now d d' m = m
duties candidate now d d' m = if is_election_timeout now m then start_election d d' m else m
duties follower now d d' m = if is_election_timeout now m then become_candidate d d' m else m
duties observer now d d' m = m

pub tick : ℕ → Draw → Draw → ConsensusManager → ConsensusManager
unfolding duties
tick now d d' m = if m.shutdown then m else duties m.role now d d' m

-- `replicate_log_entries`: the entries for each follower. `skip(next - 1)` of the source faults at
-- an index of 0, where `drop` here skips nothing.
pub replicate_log_entries : List LogEntry → List (String × ℕ) → List (String × List LogEntry)
replicate_log_entries log [] = []
replicate_log_entries log ((node_id, next) ∷ rest) =
    let entries = drop (next - 1) log in
    let more = replicate_log_entries log rest in
    if leb next (length log) && not (is_empty entries) then (node_id, entries) ∷ more else more

-- The index of the new entry, or none where the node is not the leader.
propose_in : NodeRole → Command → ℕ → ConsensusManager → ConsensusManager × Option ℕ
propose_in leader c now m =
    let index = length m.state.log in
    let entry : LogEntry = record {
      term = m.state.current_term;
      index = index;
      command = c;
      timestamp = now;
    } in
    (record m { state = record (m.state) { log = m.state.log ++ entry ∷ [] } }, some index)
propose_in follower c now m = (m, none)
propose_in candidate c now m = (m, none)
propose_in observer c now m = (m, none)

pub propose_command : Command → ℕ → ConsensusManager → ConsensusManager × Option ℕ
unfolding propose_in
propose_command c now m = propose_in m.role c now m

-- `prev_entry.term == prev_log_term`. The caller has tested that the entry is there.
abbrev pub has_term : Option LogEntry → ℕ → Bool
has_term none t = false
has_term (some e) t = e.term == t

-- The test at prevLogIndex: the source reads the entry at `prev_log_index - 1`.
pub prev_matches : List LogEntry → ℕ → ℕ → Bool
prev_matches log prev_log_index prev_log_term =
    if ltb 0 prev_log_index
    then (if ltb (length log) prev_log_index
        then false
        else has_term (get_elem? log (prev_log_index - 1)) prev_log_term)
    else true

append_new : AppendEntriesRequest → RaftState → RaftState
append_new r s =
    let log = s.log ++ r.entries in
    record s {
      log = log;
      commit_index =
          if ltb s.commit_index r.leader_commit
          then min r.leader_commit (length log - 1)
          else s.commit_index;
    }

reply : ConsensusManager → Bool → ConsensusManager × AppendEntriesResponse
reply m success = (m, record { term = m.state.current_term; success = success })

pub handle_append_entries :
    AppendEntriesRequest → Draw → Draw → ConsensusManager → ConsensusManager × AppendEntriesResponse
unfolding reply append_new prev_matches become_follower reset_election_timer
handle_append_entries r d d' m =
    let m' = if ltb m.state.current_term r.term then become_follower r.term d m else m in
    let m'' = record (reset_election_timer d' m') { leader_id = some r.leader_id } in
    if ltb r.term m.state.current_term
    then reply m false
    else (if prev_matches m''.state.log r.prev_log_index r.prev_log_term
        then reply (record m'' { state = append_new r m''.state }) true
        else reply m'' false)

abbrev pub votes_for : Option String → String → Bool
votes_for none c = false
votes_for (some v) c = v =? c

pub handle_request_vote : VoteRequest → Draw → ConsensusManager → ConsensusManager × VoteResponse
unfolding reset_election_timer
handle_request_vote r d m =
    let s =
      if ltb m.state.current_term r.term
      then record (m.state) { current_term = r.term; voted_for = none }
      else m.state in
    let can_vote = is_none s.voted_for || votes_for s.voted_for r.candidate_id in
    let last_log_index = last_index (last s.log) in
    let last_log_term = last_term (last s.log) in
    let log_ok =
      ltb last_log_term r.last_log_term
      || (r.last_log_term == last_log_term && leb last_log_index r.last_log_index) in
    let granted = can_vote && log_ok in
    let voted =
      reset_election_timer d (record m { state = record s { voted_for = some r.candidate_id } }) in
    if ltb r.term m.state.current_term
    then (m, record { term = m.state.current_term; vote_granted = false })
    else (
      if granted then voted else record m { state = s },
      record { term = s.current_term; vote_granted = granted },
    )

unfoldable pub stop : ConsensusManager → ConsensusManager
stop m = record m { shutdown = true }
