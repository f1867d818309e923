-- ===== src/Consensus/Vote.antt =====
-- cluster/consensus.rs: `handle_request_vote`, and what an election of one's own does to a vote.
use miwidothttp.Prelude.{
  ℕ, ◌+◌, ◌≤◌, ◌<◌, ◌≡◌, ◌⊎◌, inr, ◌↔◌, true, Option, none, some, List, [], ◌∷◌, String, last,
  arith, string_eq,
}
use text.Mathlib.TextEquality.{eq_iff}
use miwidothttp.Consensus.{
  ConsensusManager, RaftState, LogEntry, VoteRequest, Draw, handle_request_vote, last_index,
  last_term, start_election, votes_for,
}

-- The candidate's log is at least as up to date as `log`: a later last term, or the same last term
-- and an index as great.
abbrev pub UpToDate : VoteRequest → List LogEntry → Type 0
UpToDate r log =
    (last_term (last log) < r.last_log_term)
    ⊎ ((r.last_log_term ≡ last_term (last log)) × (last_index (last log) ≤ r.last_log_index))

-- The voter has no other vote in the request's term.
abbrev pub IsFree : VoteRequest → RaftState → Type 0
IsFree r s = (s.current_term < r.term) ⊎ (s.voted_for ≡ none) ⊎ (s.voted_for ≡ some r.candidate_id)

votes_for_iff : (v : Option String) (c : String) → (votes_for v c ≡ true) ↔ (v ≡ some c)
votes_for_iff none c = ground arith
votes_for_iff (some v) c = ground (arith, eq_iff v c)

-- A vote is granted exactly if the request's term is not an older one, the node has no other vote
-- in that term, and the candidate's log is as up to date as its own.
pub vote_granted_iff :
    (r : VoteRequest) (d : Draw) (m : ConsensusManager)
    → ((handle_request_vote r d m).1.vote_granted ≡ true)
      ↔ ((m.state.current_term ≤ r.term) × IsFree r m.state × UpToDate r m.state.log)
unfolding handle_request_vote
vote_granted_iff r d m = ground (arith, votes_for_iff m.state.voted_for r.candidate_id)

vote-granted :
    (r : VoteRequest) (d : Draw) (m : ConsensusManager)
    → (handle_request_vote r d m).1.vote_granted ≡ true
    → let (m', reply) = handle_request_vote r d m in
      (m'.state.voted_for ≡ some r.candidate_id) × (m'.state.current_term ≡ reply.term)
unfolding handle_request_vote
vote-granted r d m h = ground arith

-- The node votes for `c` in term `t`, or has gone on to a later term.
abbrev Pledged : ℕ → String → ConsensusManager → Type 0
Pledged t c m =
    (t < m.state.current_term) ⊎ ((m.state.current_term ≡ t) × (m.state.voted_for ≡ some c))

vote-Pledged :
    (t : ℕ) (c : String) (r : VoteRequest) (d : Draw) (m : ConsensusManager)
    → Pledged t c m
    → Pledged t c (handle_request_vote r d m).0
unfolding handle_request_vote
vote-Pledged t c r d m h = ground (arith, eq_iff c r.candidate_id)

unfoldable pub vote_all : List (VoteRequest × Draw) → ConsensusManager → ConsensusManager
vote_all [] m = m
vote_all ((r, d) ∷ rs) m = vote_all rs (handle_request_vote r d m).0

vote_all-Pledged :
    (t : ℕ) (c : String) (rs : List (VoteRequest × Draw)) (m : ConsensusManager)
    → Pledged t c m
    → Pledged t c (vote_all rs m)
unfolding vote_all
vote_all-Pledged t c [] m h = h
vote_all-Pledged t c ((r, d) ∷ rs) m h =
    vote_all-Pledged t c rs (handle_request_vote r d m).0 (vote-Pledged t c r d m h)

-- Among vote requests alone, however many lie between, two votes granted in one term are for one
-- candidate.
pub one_vote_per_term :
    (r r' : VoteRequest) (d d' : Draw) (rs : List (VoteRequest × Draw)) (m : ConsensusManager)
    → (handle_request_vote r d m).1.vote_granted ≡ true
    → (handle_request_vote r' d' (vote_all rs (handle_request_vote r d m).0)).1.vote_granted ≡ true
    → (handle_request_vote r' d' (vote_all rs (handle_request_vote r d m).0)).1.term
      ≡ (handle_request_vote r d m).1.term
    → r'.candidate_id ≡ r.candidate_id
one_vote_per_term r r' d d' rs m g g' e =
    let first = handle_request_vote r d m in
    let (v, t) = vote-granted r d m g in
    let (v', t') = vote-granted r' d' (vote_all rs first.0) g' in
    let kept =
      vote-Pledged first.1.term r.candidate_id r' d' (vote_all rs first.0)
        (vote_all-Pledged first.1.term r.candidate_id rs first.0 (inr (t, v))) in
    ground (arith, kept)

-- An election of the node's own undoes that. It raises the term and votes for itself there; it ends
-- with no response, and `become_follower` drops the vote, so that any candidate of the same term
-- whose log is up to date is then granted a second one.
pub second_vote_after_election :
    (r : VoteRequest) (d d' d'' : Draw) (m : ConsensusManager)
    → m.state.current_term + 1 < 18446744073709551616
    → r.term ≡ m.state.current_term + 1
    → UpToDate r m.state.log
    → (handle_request_vote r d'' (start_election d d' m)).1.vote_granted ≡ true
unfolding handle_request_vote start_election
second_vote_after_election r d d' d'' m w e u = ground arith
