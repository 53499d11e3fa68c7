-- ===== src/Topology/Errors.antt =====
-- src/topology/errors.rs, and how a computation under the graph lock can end: with a value, with a
-- `TemporalError`, or by a panic. `E` stands for the graph library's `HypergraphError`.
use Prim.Native.String.{String}
use koalisi.Common.{ℕ, ◌≡◌, ◌⊎◌, inl, inr, refl}
use koalisi.Topology.Timestamp.{Timestamp}
use koalisi.Topology.Events.{SnapshotId}

pub data TemporalError (E : Type 0) : Type 0 where
  hypergraph : E → TemporalError E
  -- the requested and the current time
  timestamp_in_future : Timestamp → Timestamp → TemporalError E
  no_snapshot_before : Timestamp → TemporalError E
  snapshot_not_found : SnapshotId → TemporalError E
  replay_error : ℕ → String → TemporalError E
  invalid_time_range : Timestamp → Timestamp → TemporalError E
  event_log_corrupted : String → TemporalError E
  concurrent_modification : TemporalError E
  empty_coalition : TemporalError E
  lock_poisoned : TemporalError E
  task_cancelled : TemporalError E

-- `TemporalResult`, with the panic that `mutate` resumes on the awaiting task.
pub data Outcome (E A : Type 0) : Type 0 where
  ok : A → Outcome E A
  err : TemporalError E → Outcome E A
  panicked : Outcome E A

-- The library's own `Result<A, HypergraphError>`.
pub data Attempt (E A : Type 0) : Type 0 where
  done : A → Attempt E A
  failed : E → Attempt E A

-- To split on a computed result and keep the equation.
pub Attempt-cases :
    {E A : Type 0} (r : Attempt E A) → ((a : A) × (r ≡ done a)) ⊎ ((e : E) × (r ≡ failed e))
Attempt-cases (done a) = inl (a, refl)
Attempt-cases (failed e) = inr (e, refl)

pub Outcome-cases :
    {E A : Type 0} (o : Outcome E A)
    → ((a : A) × (o ≡ ok a)) ⊎ ((e : TemporalError E) × (o ≡ err e)) ⊎ (o ≡ panicked)
Outcome-cases (ok a) = inl (a, refl)
Outcome-cases (err e) = inr (inl (e, refl))
Outcome-cases panicked = inr (inr refl)
