-- ===== src/Consensus/Log.antt =====
-- cluster/consensus.rs: the replicated log under its handlers.
use miwidothttp.Prelude.{
  ℕ, suc, ◌≤◌, ◌<◌, ◌≡◌, refl, ◌⊎◌, ◌↔◌, true, false, some, List, [], ◌∷◌, ◌++◌, length, last,
  get_elem?, length-append, arith, ◌==◌, ap, ◌∙◌,
}
use miwidothttp.Consensus.{
  ConsensusManager, RaftState, LogEntry, AppendEntriesRequest, Command, Draw, handle_append_entries,
  propose_command, heartbeat, prev_matches,
}

-- The log is not empty, and the commit index points into it.
abbrev pub IsCommitted : RaftState → Type 0
IsCommitted s = s.commit_index < length s.log

pub propose-IsCommitted :
    (c : Command) (now : ℕ) (m : ConsensusManager)
    → IsCommitted m.state
    → IsCommitted (propose_command c now m).0.state
unfolding propose_command
propose-IsCommitted c now m h = ground (
  arith,
  length-append m.state.log (
      record {
        term = m.state.current_term;
        index = length m.state.log;
        command = c;
        timestamp = now;
      }
      ∷ []),
)

pub append-IsCommitted :
    (r : AppendEntriesRequest) (d d' : Draw) (m : ConsensusManager)
    → IsCommitted m.state
    → IsCommitted (handle_append_entries r d d' m).0.state
unfolding handle_append_entries
append-IsCommitted r d d' m h = ground (arith, length-append m.state.log r.entries)

-- `handle_append_entries` on every branch. A request of an older term changes nothing and is
-- refused. Any other moves the node to the request's term and takes its sender for the leader. It
-- succeeds exactly if the entry test passes, and then the request's entries stand behind the old
-- log, and the commit index, which pointed into the log before, does so again and does not fall,
-- nor grow beyond the leader's. If the test fails, the request changes neither log nor index.
pub append_entries_branches :
    (r : AppendEntriesRequest) (d d' : Draw) (m : ConsensusManager)
    → IsCommitted m.state
    → let (m', reply) = handle_append_entries r d d' m in
      ((r.term < m.state.current_term)
        × (m' ≡ m)
        × (reply.success ≡ false)
        × (reply.term ≡ m.state.current_term))
      ⊎ ((m.state.current_term ≤ r.term)
          × (reply.term ≡ r.term)
          × (m'.state.current_term ≡ r.term)
          × (m'.leader_id ≡ some r.leader_id)
          × (prev_matches m.state.log r.prev_log_index r.prev_log_term ≡ true)
          × (reply.success ≡ true)
          × (m'.state.log ≡ m.state.log ++ r.entries)
          × (m.state.commit_index ≤ m'.state.commit_index)
          × IsCommitted m'.state
          × ((m'.state.commit_index ≡ m.state.commit_index)
              ⊎ (m'.state.commit_index ≤ r.leader_commit)))
      ⊎ ((m.state.current_term ≤ r.term)
          × (reply.term ≡ r.term)
          × (m'.state.current_term ≡ r.term)
          × (m'.leader_id ≡ some r.leader_id)
          × (prev_matches m.state.log r.prev_log_index r.prev_log_term ≡ false)
          × (reply.success ≡ false)
          × (m'.state.log ≡ m.state.log)
          × (m'.state.commit_index ≡ m.state.commit_index))
unfolding handle_append_entries
append_entries_branches r d d' m h = ground (arith, length-append m.state.log r.entries)

success_lem :
    (r : AppendEntriesRequest) (d d' : Draw) (m : ConsensusManager)
    → m.state.current_term ≤ r.term
    → (handle_append_entries r d d' m).1.success
      ≡ prev_matches m.state.log r.prev_log_index r.prev_log_term
unfolding handle_append_entries
success_lem r d d' m h = ground arith

last-append_two : (pre : List LogEntry) (e1 e2 : LogEntry) → last (pre ++ e1 ∷ e2 ∷ []) ≡ some e2
last-append_two [] e1 e2 = refl
last-append_two (x ∷ []) e1 e2 = refl
last-append_two (x ∷ (y ∷ pre)) e1 e2 = last-append_two (y ∷ pre) e1 e2

get_elem?-append_two :
    (pre : List LogEntry) (e1 e2 : LogEntry)
    → get_elem? (pre ++ e1 ∷ e2 ∷ []) (length pre) ≡ some e1
get_elem?-append_two [] e1 e2 = refl
get_elem?-append_two (x ∷ pre) e1 e2 = get_elem?-append_two pre e1 e2

prev_matches-two :
    (pre : List LogEntry) (e1 e2 : LogEntry) (t : ℕ)
    → prev_matches (pre ++ e1 ∷ e2 ∷ []) (suc (length pre)) t ≡ (e1.term == t)
unfolding prev_matches
prev_matches-two pre e1 e2 t =
    ground (arith, get_elem?-append_two pre e1 e2, length-append pre (e1 ∷ e2 ∷ []))

heartbeat_prev :
    (pre : List LogEntry) (e1 e2 : LogEntry) (l : ConsensusManager)
    → l.state.log ≡ pre ++ e1 ∷ e2 ∷ []
    → ((heartbeat l).prev_log_index ≡ e2.index) × ((heartbeat l).prev_log_term ≡ e2.term)
unfolding heartbeat
heartbeat_prev pre e1 e2 l hl = ground (arith, ap last hl, last-append_two pre e1 e2)

-- A follower whose log ends in `e1`, `e2`, numbered by their positions, and which is not ahead of
-- the leader, answers the heartbeat of a leader with the same log. It accepts exactly if the
-- last two entries have one term: the test reads the entry before the one that is meant.
pub heartbeat_same_log :
    (pre : List LogEntry) (e1 e2 : LogEntry) (d d' : Draw) (l m : ConsensusManager)
    → l.state.log ≡ pre ++ e1 ∷ e2 ∷ []
    → m.state.log ≡ l.state.log
    → e2.index ≡ suc (length pre)
    → m.state.current_term ≤ l.state.current_term
    → ((handle_append_entries (heartbeat l) d d' m).1.success ≡ true) ↔ (e1.term ≡ e2.term)
unfolding heartbeat
heartbeat_same_log pre e1 e2 d d' l m hl hm hi ht = rw answer (ground arith)
  where
    answer : (handle_append_entries (heartbeat l) d d' m).1.success ≡ (e1.term == e2.term)
    answer =
        success_lem (heartbeat l) d d' m ht
        ∙ ground (arith, heartbeat_prev pre e1 e2 l hl, prev_matches-two pre e1 e2 e2.term)
