-- ===== src/Tests/Logs.antt =====
-- The event log on the sample log.
use koalisi.Common.{
  ℕ, ◌+◌, ◌≤◌, ◌<◌, ◌≡◌, refl, Bool, true, false, Option, none, some, List, [], ◌∷◌, arith, filter,
  All, ltb, leb, ◌==◌, if◌then◌else◌,
}
use koalisi.Topology.Timestamp.{between, contains, epoch, max_timestamp, unwrap_or}
use koalisi.Topology.Events.{timestamp, graph_cleared}
use koalisi.Topology.EventLog.{
  append, append_all, new, clear, mark_snapshot, events_in_range, snapshot_before,
}
use koalisi.Topology.EventLog.Chronology.{sort_by_time}
use koalisi.Topology.EventLog.Ranges.{events_in_range-filter}
use koalisi.Topology.EventLog.Valid.{IsValid, append_all-IsValid}
use koalisi.Tests.Samples.{sample_events, sample_log}

sample-IsValid : IsValid sample_log
unfolding clear
sample-IsValid = (append_all-IsValid sample_events new).0

append_all-IsValid_example :
    IsValid (append_all sample_events (clear (append (graph_cleared 9 1 1) new)))
    × ((append_all sample_events (clear (append (graph_cleared 9 1 1) new))).events ≡ sample_events)
append_all-IsValid_example = append_all-IsValid sample_events (append (graph_cleared 9 1 1) new)

sample_before_max : All (λ e. timestamp e < max_timestamp) sample_log.events
unfolding append_all append timestamp
sample_before_max = omega arith

events_in_range-filter_example : events_in_range sample_log (between 2 5) ≡ (
    if ltb (unwrap_or (between 2 5).end max_timestamp) (unwrap_or (between 2 5).start epoch)
    then none
    else some (filter (λ e. contains (between 2 5) (timestamp e)) (sort_by_time sample_log.events)))
events_in_range-filter_example =
    events_in_range-filter sample_log (between 2 5) sample-IsValid.timed sample_before_max

sample_snapshot : snapshot_before sample_log 7 ≡ some (0, 5)
unfolding snapshot_before append_all append mark_snapshot timestamp koalisi.Common.SortedMap.update
sample_snapshot = refl

backwards_range_panics : events_in_range sample_log (between 5 2) ≡ none
unfolding events_in_range
backwards_range_panics = refl
