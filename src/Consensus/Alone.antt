-- ===== src/Consensus/Alone.antt =====
-- cluster/consensus.rs: the steps of a handler that runs with no other, against the handler as one
-- transition.
use miwidothttp.Prelude.{ℕ, ◌≡◌, [], ◌∷◌, arith}
use miwidothttp.Consensus.{
  ConsensusManager, AppendEntriesRequest, Draw, handle_append_entries, tick,
}
use miwidothttp.Consensus.Steps.{receives, check_shutdown, perform}
use miwidothttp.Tasks.{alone}

-- With no other task in between, the steps of `handle_append_entries` make its transition.
pub handle_append_entries-alone :
    (r : AppendEntriesRequest) (d d' : Draw) (m : ConsensusManager)
    → alone perform 5 (receives r d d' ∷ []) m ≡ (handle_append_entries r d d' m).0
unfolding alone perform handle_append_entries
handle_append_entries-alone r d d' m = ground arith

-- The same of a round of the loop, with the election that it may hold.
pub tick-alone :
    (now : ℕ) (d d' : Draw) (m : ConsensusManager)
    → alone perform 12 (check_shutdown now d d' ∷ []) m ≡ tick now d d' m
unfolding alone perform tick
tick-alone now d d' m = ground arith
