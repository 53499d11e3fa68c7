-- ===== src/Topology/Temporal/Clones.antt =====
-- Two values that share a graph and a log, and each have a clock (`Clone` in
-- src/topology/temporal.rs).
use koalisi.Common.{◌≡◌, ◌∙◌, ap, sym, arith}
use koalisi.Topology.Timestamp.{current}
use koalisi.Topology.Events.{TemporalEvent, timestamp}
use koalisi.Topology.EventLog.{append}
use koalisi.Topology.Errors.{Outcome, ok, err, panicked}
use koalisi.Topology.Hypergraph.{Library}
use koalisi.Topology.Temporal.{clone, see}
use koalisi.Topology.Temporal.Runs.{Mutation, State, run}
use koalisi.Topology.Temporal.Recording.{IsRecorded, run-IsRecorded}

module _ {V HE : Type 0} (lib : Library V HE) where
  recorded :
      (th : State lib) (out : State lib × Outcome lib.HypergraphError (Unit {0}))
      → IsRecorded lib th out
      → out.1 ≡ ok tt
      → (e : TemporalEvent V HE) × (timestamp e ≡ current th.clock) × (out.0.log ≡ append e th.log)
  recorded th (th', ok x) (e, stamp, logged, ticked, tapped, kept, locked) p = (e, stamp, logged)
  recorded th (th', err x) r p = absurd (ground arith)
  recorded th (th', panicked) r p = absurd (ground arith)

  -- A value and its clone share the log but not the clock: when each makes a mutation that succeeds
  -- after the cloning, whatever the two mutations are, the shared log gets two events with one and
  -- the same timestamp.
  pub clone_repeats_timestamp :
      (th : State lib) (mine theirs : Mutation lib)
      → (run lib mine th).1 ≡ ok tt
      → (run lib theirs (see lib (run lib mine th).0 (clone lib th))).1 ≡ ok tt
      → (e f : TemporalEvent V HE) × ((timestamp e ≡ timestamp f)
          × ((run lib theirs (see lib (run lib mine th).0 (clone lib th))).0.log
              ≡ append f (append e th.log)))
  unfolding clone see current
  clone_repeats_timestamp th mine theirs p q =
      let after = see lib (run lib mine th).0 (clone lib th) in
      let (e, mine_stamp, mine_logged) =
        recorded th (run lib mine th) (run-IsRecorded lib mine th) p in
      let (f, stamp, logged) =
        recorded after (run lib theirs after) (run-IsRecorded lib theirs after) q in
      (e, f, (mine_stamp ∙ sym stamp, logged ∙ ap (append f) mine_logged))
