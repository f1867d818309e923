-- ===== src/Consensus/Steps.antt =====
-- cluster/consensus.rs: the methods as tasks whose steps are the stretches over which a lock is held.
-- Where a method holds the lock of the state while it takes another one, its steps may be finer than
-- that. The clock and the random numbers are given with the call.
use miwidothttp.Prelude.{
  ℕ, ◌+◌, ◌/◌, ◌%◌, Option, none, some, String, List, [], ◌∷◌, ◌++◌, length, ltb, if◌then◌else◌,
}
use miwidothttp.Consensus.{
  ConsensusManager, NodeRole, leader, follower, candidate, observer, Command, LogEntry, Draw,
  AppendEntriesRequest, VoteRequest, Verdict, won, lost, outdated, leader_elected,
  reset_election_timer, is_election_timeout, request_votes, tally, prev_matches, append_new,
  handle_request_vote, stop,
}

pub data Action : Type 0 where
  set_role : NodeRole → Action
  set_leader : Option String → Action
  announce stops : Action
  resets : Draw → Action
  check_shutdown read_role : (now : ℕ) (d d' : Draw) → Action
  follower_duties candidate_duties : (now : ℕ) (d d' : Draw) → Action
  raise_term : (d d' : Draw) → Action
  count_votes : (term : ℕ) → Draw → Action
  take_term : (term : ℕ) → Action
  receives accepts : AppendEntriesRequest → (d d' : Draw) → Action
  votes : VoteRequest → Draw → Action
  check_leader push : Command → (now : ℕ) → Action

-- `become_follower`.
abbrev pub following : ℕ → Draw → List Action
following term d = set_role follower ∷ take_term term ∷ resets d ∷ []

-- `become_leader`; the list of nodes whose indices it sets is empty.
abbrev pub leading : String → List Action
leading id = set_role leader ∷ set_leader (some id) ∷ announce ∷ []

abbrev pub duties_of : NodeRole → ℕ → Draw → Draw → List Action
duties_of leader now d d' = []
duties_of candidate now d d' = candidate_duties now d d' ∷ []
duties_of follower now d d' = follower_duties now d d' ∷ []
duties_of observer now d d' = []

abbrev pub concluding : Verdict → String → ℕ → Draw → List Action
concluding won id term d = leading id
concluding (outdated later) id term d = following later d
concluding lost id term d = following term d

abbrev pub pushes : NodeRole → Command → ℕ → List Action
pushes leader c now = push c now ∷ []
pushes follower c now = []
pushes candidate c now = []
pushes observer c now = []

-- From the reset of the timer on, where the lock of the state is held to the end.
unfoldable pub accept : AppendEntriesRequest → Draw → ConsensusManager → ConsensusManager
unfolding reset_election_timer prev_matches append_new
accept r d m =
    let m' = record (reset_election_timer d m) { leader_id = some r.leader_id } in
    if prev_matches m'.state.log r.prev_log_index r.prev_log_term
    then record m' { state = append_new r m'.state }
    else m'

-- What a step does, and what its task has to do next.
unfoldable pub perform : Action → ConsensusManager → ConsensusManager × List Action
unfolding accept reset_election_timer is_election_timeout request_votes tally handle_request_vote
    stop
perform (set_role role) m = (record m { role = role }, [])
perform (set_leader id) m = (record m { leader_id = id }, [])
perform announce m = (record m { events = leader_elected m.node_id ∷ m.events }, [])
perform stops m = (stop m, [])
perform (resets d) m = (reset_election_timer d m, [])
perform (check_shutdown now d d') m = (m, if m.shutdown then [] else read_role now d d' ∷ [])
perform (read_role now d d') m = (m, duties_of m.role now d d')
perform (follower_duties now d d') m = (
  m,
  if is_election_timeout now m
      then set_role candidate ∷ set_leader none ∷ raise_term d d' ∷ []
      else [],
)
perform (candidate_duties now d d') m =
    (m, if is_election_timeout now m then raise_term d d' ∷ [] else [])
perform (raise_term d d') m =
    let term = (m.state.current_term + 1) % 18446744073709551616 in
    (
      record m { state = record (m.state) { current_term = term; voted_for = some m.node_id } },
      resets d ∷ count_votes term d' ∷ [],
    )
perform (count_votes term d) m =
    (m, concluding (tally term ((m.quorum_size + 1) / 2) 1 (request_votes term)) m.node_id term d)
perform (take_term term) m =
    (record m { state = record (m.state) { current_term = term; voted_for = none } }, [])
perform (receives r d d') m =
    if ltb r.term m.state.current_term
    then (m, [])
    else if ltb m.state.current_term r.term
    then (
      record m { state = record (m.state) { current_term = r.term; voted_for = none } },
      following r.term d ++ accepts r d d' ∷ [],
    )
    else (accept r d' m, [])
perform (accepts r d d') m = (accept r d' m, [])
perform (votes r d) m = ((handle_request_vote r d m).0, [])
perform (check_leader c now) m = (m, pushes m.role c now)
perform (push c now) m =
    let entry : LogEntry = record {
      term = m.state.current_term;
      index = length m.state.log;
      command = c;
      timestamp = now;
    } in
    (record m { state = record (m.state) { log = m.state.log ++ entry ∷ [] } }, [])

-- The tasks: `start` up to the loop, a round of the loop, the handlers, a proposal and the shutdown.
pub data IsTask : List Action → Type 0 where
  starts : (d : Draw) → IsTask (resets d ∷ [])
  ticks : (now : ℕ) (d d' : Draw) → IsTask (check_shutdown now d d' ∷ [])
  handles_append : (r : AppendEntriesRequest) (d d' : Draw) → IsTask (receives r d d' ∷ [])
  handles_vote : (r : VoteRequest) (d : Draw) → IsTask (votes r d ∷ [])
  proposes : (c : Command) (now : ℕ) → IsTask (check_leader c now ∷ [])
  shuts_down : IsTask (stops ∷ [])
