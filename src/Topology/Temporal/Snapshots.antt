-- ===== src/Topology/Temporal/Snapshots.antt =====
-- `create_snapshot` of src/topology/temporal.rs: what it stores and what it records.
use koalisi.Common.{ℕ, ◌+◌, ◌<◌, ◌≡◌, refl, some, [], ◌∷◌, arith, get_elem?-append_length}
use koalisi.Common.SortedMap
use koalisi.Common.SortedMap.{SortedMap}
use koalisi.Topology.Timestamp.{current, tick, u64_mod}
use koalisi.Topology.Events.{snapshot_marker, timestamp}
use koalisi.Topology.EventLog.{len, get_event}
use koalisi.Topology.EventLog.Valid.{events-append}
use koalisi.Topology.Hypergraph.{Library}
use koalisi.Topology.Temporal.{TemporalHypergraph, create_snapshot}
use koalisi.Topology.Temporal.Recording.{IsSound, record_event-IsSound}

get-insert :
    {A : Type 0} (k : ℕ) (v : A) (m : SortedMap A)
    → SortedMap.get k (SortedMap.insert k v m) ≡ some v
unfolding SortedMap.update
get-insert k v [] = ground arith
get-insert k v ((j, w) ∷ m) = ground (arith, get-insert k v m)

module _ {V HE : Type 0} (lib : Library V HE) where
  -- A snapshot of a sound state, for which the clock has room, keeps it sound, returns the counter's
  -- number, stores it at the current time, and stores with it the position at which its marker
  -- stands in the log.
  pub create_snapshot-IsSound :
      (th : TemporalHypergraph lib)
      → current th.clock + 1 < u64_mod
      → IsSound lib th
      → IsSound lib (create_snapshot lib th).0
        × ((create_snapshot lib th).1 ≡ th.snapshot_counter)
        × (SortedMap.get (current th.clock) (create_snapshot lib th).0.snapshots
            ≡ some (record {
              id = th.snapshot_counter;
              timestamp = current th.clock;
              event_index = len th.log;
            }))
        × (get_event (create_snapshot lib th).0.log (len th.log)
            ≡ some (snapshot_marker (current th.clock) th.snapshot_counter))
  unfolding create_snapshot tick current timestamp get_event len
  create_snapshot-IsSound th room h = (
    record_event-IsSound lib th _ (snapshot_marker th.clock.counter th.snapshot_counter) room h refl
        refl refl,
    refl,
    get-insert th.clock.counter _ th.snapshots,
    rw events-append (
        get_elem?-append_length th.log.events (snapshot_marker th.clock.counter th.snapshot_counter)
          []),
  )
