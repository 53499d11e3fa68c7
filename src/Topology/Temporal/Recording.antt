-- ===== src/Topology/Temporal/Recording.antt =====
-- What every mutation records, and what a run of mutations leaves in the log
-- (src/topology/temporal.rs).
use koalisi.Common.{
  ◌+◌, ◌≤◌, ◌<◌, ◌≡◌, refl, ap, ◌∙◌, Bool, true, false, List, [], ◌∷◌, ◌++◌, arith, length, All,
  All-append, All-map, if◌then◌else◌,
}
use koalisi.Topology.Timestamp.{Timestamp, tick, current, u64_mod}
use koalisi.Topology.Timestamp.Ticks.{tick_advances}
use koalisi.Topology.Events.{TemporalEvent, timestamp}
use koalisi.Topology.EventLog.{append}
use koalisi.Topology.EventLog.Valid.{IsValid, new-IsValid, append-IsValid, events-append}
use koalisi.Topology.EventLog.Chronology.{IsChronological}
use koalisi.Topology.Errors.{Outcome, ok, err, panicked, lock_poisoned}
use koalisi.Topology.Jobs.{Job}
use koalisi.Topology.Hypergraph.{Library}
use koalisi.Topology.Temporal.{fresh, mutate, settle, tap_event}
use koalisi.Topology.Temporal.Runs.{Mutation, State, forget, run, run_all, run-mutate}

module _ {V HE : Type 0} (lib : Library V HE) where
  -- A success appends one event, stamped with the time before it, moves the clock one tick and
  -- offers the event to the tap; an error or a panic leaves the log, the clock and the tap alone.
  -- The snapshots are left alone in any case.
  abbrev pub IsRecorded : State lib → State lib × Outcome lib.HypergraphError (Unit {0}) → Type 0
  IsRecorded th (th', ok value) =
      (e : TemporalEvent V HE) × (timestamp e ≡ current th.clock)
      × (th'.log ≡ append e th.log)
      × (th'.clock ≡ (tick th.clock).1)
      × (th'.event_tap ≡ tap_event lib th.event_tap e)
      × (th'.snapshots ≡ th.snapshots)
      × (th'.poisoned ≡ th.poisoned)
  IsRecorded th (th', err e) =
      (th'.log ≡ th.log)
      × (th'.clock ≡ th.clock)
      × (th'.event_tap ≡ th.event_tap)
      × (th'.snapshots ≡ th.snapshots)
      × (th'.poisoned ≡ th.poisoned)
  IsRecorded th (th', panicked) =
      (th'.log ≡ th.log)
      × (th'.clock ≡ th.clock)
      × (th'.event_tap ≡ th.event_tap)
      × (th'.snapshots ≡ th.snapshots)
      × (th'.poisoned ≡ true)

  settle-IsRecorded :
      (T R : Type 0) (finish : Timestamp → T → TemporalEvent V HE × R)
      → ((t : Timestamp) (x : T) → timestamp (finish t x).0 ≡ t)
      → (th : State lib) (out : lib.Graph × Outcome lib.HypergraphError T)
      → IsRecorded th (forget lib (settle lib finish th out))
  unfolding settle current tick
  settle-IsRecorded T R finish stamped th (g, ok x) =
      ((finish th.clock.counter x).0, stamped _ x, refl, refl, refl, refl, refl)
  settle-IsRecorded T R finish stamped th (g, err e) = (refl, refl, refl, refl, refl)
  settle-IsRecorded T R finish stamped th (g, panicked) = (refl, refl, refl, refl, refl)

  mutate-IsRecorded :
      (T R : Type 0) (job : Job lib.Graph lib.HypergraphError T)
      (finish : Timestamp → T → TemporalEvent V HE × R)
      → ((t : Timestamp) (x : T) → timestamp (finish t x).0 ≡ t)
      → (th : State lib) → IsRecorded th (forget lib (mutate lib job finish th))
  unfolding mutate
  mutate-IsRecorded T R job finish stamped th = go th.poisoned
    where
      go :
          (b : Bool)
          → IsRecorded th (
              forget lib
                (if b then (th, err lock_poisoned) else settle lib finish th (job th.graph)))
      go true = (refl, refl, refl, refl, refl)
      go false = settle-IsRecorded T R finish stamped th (job th.graph)

  -- Every mutation, in any state: a success appends exactly one event to the log, stamped with the
  -- clock's time before it, moves the clock by one tick and offers that event to the tap; an error
  -- or a panic leaves the log, the clock and the tap as they were, and a panic poisons the graph lock.
  -- The snapshots never change.
  pub run-IsRecorded : (m : Mutation lib) (th : State lib) → IsRecorded th (run lib m th)
  run-IsRecorded = run-mutate lib IsRecorded mutate-IsRecorded

  -- The log is valid, in time order, and behind the clock.
  pub record IsSound (th : State lib) : Type 0 where
    pub valid : IsValid th.log
    pub order : IsChronological th.log.events
    pub past : All (λ e. timestamp e < current th.clock) th.log.events

  pub fresh-IsSound : IsSound (fresh lib)
  unfolding fresh
  fresh-IsSound = record { valid = new-IsValid; order = tt; past = tt }

  IsChronological-append :
      (es : List (TemporalEvent V HE)) (e : TemporalEvent V HE)
      → IsChronological es
      → All (λ x. timestamp x ≤ timestamp e) es
      → IsChronological (es ++ e ∷ [])
  IsChronological-append [] e h past = (tt, tt)
  IsChronological-append (x ∷ es) e h past =
      (All-append _ es (e ∷ []) h.0 (past.0, tt), IsChronological-append es e h.1 past.1)

  -- One event at the current time, and a tick that does not wrap.
  pub record_event-IsSound :
      (th th' : State lib) (e : TemporalEvent V HE)
      → current th.clock + 1 < u64_mod
      → IsSound th
      → timestamp e ≡ current th.clock
      → th'.log ≡ append e th.log
      → th'.clock ≡ (tick th.clock).1
      → IsSound th'
  record_event-IsSound th th' e room h stamp logged ticked = record {
    valid = rw logged (append-IsValid e th.log h.valid);
    order =
        rw (logged, events-append)
          (IsChronological-append th.log.events e h.order
            (All-map _ _ (λ x p. omega arith) th.log.events h.past));
    past =
        let now : current th'.clock ≡ current th.clock + 1 =
          ap current ticked ∙ (tick_advances th.clock room).1 in
        rw (logged, events-append, now)
          (All-append _ th.log.events (e ∷ [])
            (All-map _ _ (λ x p. omega arith) th.log.events h.past) (omega arith, tt));
  }

  unrecorded-IsSound :
      (th th' : State lib) → IsSound th → th'.log ≡ th.log → th'.clock ≡ th.clock → IsSound th'
  unrecorded-IsSound th th' h logged ticked = record {
    valid = rw logged h.valid;
    order = rw logged h.order;
    past = rw (logged, ticked) h.past;
  }

  recorded-IsSound :
      (th : State lib) (out : State lib × Outcome lib.HypergraphError (Unit {0}))
      → current th.clock + 1 < u64_mod
      → IsSound th
      → IsRecorded th out
      → IsSound out.0 × (current out.0.clock ≤ current th.clock + 1)
  recorded-IsSound th (th', ok value) room h (e, stamp, logged, ticked, tapped, kept, locked) = (
    record_event-IsSound th th' e room h stamp logged ticked,
    omega (arith, ap current ticked ∙ (tick_advances th.clock room).1),
  )
  recorded-IsSound th (th', err x) room h (logged, ticked, tapped, kept, locked) =
      (unrecorded-IsSound th th' h logged ticked, omega (arith, ap current ticked))
  recorded-IsSound th (th', panicked) room h (logged, ticked, tapped, kept, locked) =
      (unrecorded-IsSound th th' h logged ticked, omega (arith, ap current ticked))

  -- After any sequence of mutations for which the 64-bit clock has room, started from a state whose
  -- log is valid, in time order and before the clock's time, the log is again valid, in time order
  -- and before the clock's time.
  pub run_all-IsSound :
      (ms : List (Mutation lib)) (th : State lib)
      → current th.clock + length ms < u64_mod
      → IsSound th
      → IsSound (run_all lib ms th)
  unfolding run_all
  run_all-IsSound [] th room h = h
  run_all-IsSound (m ∷ ms) th room h =
      let step = recorded-IsSound th (run lib m th) (omega arith) h (run-IsRecorded m th) in
      run_all-IsSound ms (run lib m th).0 (omega (arith, step.1)) step.0
