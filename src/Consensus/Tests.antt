-- ===== src/Consensus/Tests.antt =====
-- cluster/consensus.rs: runs at concrete inputs.
use miwidothttp.Prelude.{
  ℕ, ◌≤◌, ◌<◌, ◌≡◌, refl, ◌⊎◌, ◌↔◌, true, false, none, some, [], ◌∷◌, ◌++◌, String, arith,
}
use miwidothttp.Consensus.{
  ConsensusManager, LogEntry, no_op, AppendEntriesRequest, VoteRequest, VoteResponse, Draw,
  follower, candidate, new, propose_command, reset_election_timer, is_election_timeout,
  handle_append_entries, handle_request_vote, prev_matches,
}
use miwidothttp.Consensus.Log.{IsCommitted, append_entries_branches}
use miwidothttp.Consensus.Vote.{UpToDate, IsFree, vote_granted_iff, vote_all, one_vote_per_term}
use miwidothttp.Consensus.Election.{Node, RunningInv, fresh, never_leader}
use miwidothttp.Consensus.Steps.{
  perform, IsTask, starts, ticks, resets, check_shutdown, read_role, follower_duties, set_role,
  set_leader, raise_term, count_votes, take_term,
}
use miwidothttp.Tasks.{Reach, here, next, spawns, runs}

abbrev draw : Draw
draw = record { now = 1000; random = 160 }

abbrev entry : ℕ → ℕ → LogEntry
entry term index = record { term = term; index = index; command = no_op; timestamp = 7 }

abbrev node : ConsensusManager
node = record {
  node_id = "a";
  quorum_size = 2;
  role = follower;
  state = record {
    current_term = 2;
    voted_for = none;
    log = entry 0 0 ∷ entry 1 1 ∷ [];
    commit_index = 0;
    last_applied = 0;
    next_index = [];
    match_index = [];
  };
  leader_id = none;
  election_timeout = none;
  events = [];
  shutdown = false;
}

abbrev append : AppendEntriesRequest
append = record {
  term = 3;
  leader_id = "b";
  prev_log_index = 2;
  prev_log_term = 1;
  entries = entry 3 2 ∷ [];
  leader_commit = 5;
}

abbrev request : String → VoteRequest
request c = record { term = 3; candidate_id = c; last_log_index = 1; last_log_term = 1 }

abbrev granted : VoteResponse
granted = record { term = 3; vote_granted = true }

-- The timer is set to 1000 + 160 ms (160 % 150 + 150), and the commit index to the last one.
appended :
    let m = (handle_append_entries append draw draw node).0 in
    (m.state.commit_index ≡ 2) × (m.election_timeout ≡ some 1160)
unfolding handle_append_entries
appended = (refl, refl)

append_entries_branches_example :
    let (m', reply) = handle_append_entries append draw draw node in
    ((3 < 2) × (m' ≡ node) × (reply.success ≡ false) × (reply.term ≡ 2))
    ⊎ ((2 ≤ 3)
        × (reply.term ≡ 3)
        × (m'.state.current_term ≡ 3)
        × (m'.leader_id ≡ some "b")
        × (prev_matches node.state.log 2 1 ≡ true)
        × (reply.success ≡ true)
        × (m'.state.log ≡ node.state.log ++ append.entries)
        × (0 ≤ m'.state.commit_index)
        × IsCommitted m'.state
        × ((m'.state.commit_index ≡ 0) ⊎ (m'.state.commit_index ≤ 5)))
    ⊎ ((2 ≤ 3)
        × (reply.term ≡ 3)
        × (m'.state.current_term ≡ 3)
        × (m'.leader_id ≡ some "b")
        × (prev_matches node.state.log 2 1 ≡ false)
        × (reply.success ≡ false)
        × (m'.state.log ≡ node.state.log)
        × (m'.state.commit_index ≡ 0))
append_entries_branches_example = append_entries_branches append draw draw node (omega arith)

vote_granted_iff_example :
    ((handle_request_vote (request "b") draw node).1.vote_granted ≡ true)
    ↔ ((2 ≤ 3) × IsFree (request "b") node.state × UpToDate (request "b") node.state.log)
vote_granted_iff_example = vote_granted_iff (request "b") draw node

one_vote_per_term_example : (request "b").candidate_id ≡ (request "b").candidate_id
unfolding handle_request_vote vote_all
one_vote_per_term_example =
    one_vote_per_term (request "b") (request "b") draw draw ((request "c", draw) ∷ []) node refl
      refl refl

-- The timer that `start` has set has run out, and the node has become a candidate of term 1.
abbrev electing : Node
electing = record {
  shared =
      let m = new "a" 2 0 in
      record m {
        role = candidate;
        election_timeout = some 1160;
        state = record (m.state) { current_term = 1; voted_for = some "a" };
      };
  tasks = (resets draw ∷ count_votes 1 draw ∷ []) ∷ [] ∷ [];
}

reached_electing : Reach perform IsTask (fresh "a" 2 0) electing
unfolding perform new reset_election_timer is_election_timeout
reached_electing =
    next
      (next
        (next
          (next
            (next
              (next
                (next
                  (next (next here (spawns (resets draw ∷ []) (starts draw)))
                    (runs [] (resets draw) [] [] refl))
                  (spawns (check_shutdown 2000 draw draw ∷ []) (ticks 2000 draw draw)))
                (runs [] (check_shutdown 2000 draw draw) [] ([] ∷ []) refl))
              (runs [] (read_role 2000 draw draw) [] ([] ∷ []) refl))
            (runs [] (follower_duties 2000 draw draw) [] ([] ∷ []) refl))
          (runs [] (set_role candidate) (set_leader none ∷ raise_term draw draw ∷ []) ([] ∷ [])
            refl))
        (runs [] (set_leader none) (raise_term draw draw ∷ []) ([] ∷ []) refl))
      (runs [] (raise_term draw draw) [] ([] ∷ []) refl)

never_leader_example :
    RunningInv electing × (propose_command no_op 9 electing.shared ≡ (electing.shared, none))
never_leader_example = never_leader "a" 2 0 electing no_op 9 reached_electing

-- A task that makes the node a follower of term 1 takes it back from a term 5 that another handler
-- has given it in between.
term_lowered :
    (perform (take_term 1) (perform (take_term 5) electing.shared).0).0.state.current_term ≡ 1
unfolding perform
term_lowered = refl
