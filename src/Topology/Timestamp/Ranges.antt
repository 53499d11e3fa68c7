-- ===== src/Topology/Timestamp/Ranges.antt =====
-- Time ranges as sets of timestamps (src/topology/timestamp.rs).
use koalisi.Common.{◌≤◌, ◌<◌, ◌≡◌, ◌↔◌, true, false, arith, leb, if◌then◌else◌}
use koalisi.Topology.Timestamp.{
  Timestamp, TimeRange, epoch, max_timestamp, unwrap_or, contains, overlaps, between,
}

-- A range that has room for a timestamp below the last one.
abbrev IsInhabited : TimeRange → Type 0
IsInhabited r = unwrap_or r.start epoch < unwrap_or r.end max_timestamp

-- The end that an open range is given is the last timestamp.
abbrev IsBounded : TimeRange → Type 0
IsBounded r = unwrap_or r.end max_timestamp ≤ max_timestamp

later_start : TimeRange → TimeRange → Timestamp
later_start r o =
    if leb (unwrap_or r.start epoch) (unwrap_or o.start epoch)
    then unwrap_or o.start epoch
    else unwrap_or r.start epoch

-- `contains` without the options, for a timestamp below the last one.
contains_iff :
    (r : TimeRange) (t : Timestamp)
    → t < max_timestamp
    → (contains r t ≡ true) ↔ ((unwrap_or r.start epoch ≤ t) × (t < unwrap_or r.end max_timestamp))
unfolding contains
contains_iff r t h = (λ p. ground arith, λ p. ground arith)

overlaps_shared :
    (r o : TimeRange)
    → IsInhabited r
    → IsInhabited o
    → IsBounded r
    → overlaps r o ≡ true
    → (t : Timestamp) × (t < max_timestamp) × (contains r t ≡ true) × (contains o t ≡ true)
unfolding overlaps contains later_start
overlaps_shared r o hr ho b p = (later_start r o, ground arith, ground arith, ground arith)

shared_overlaps :
    (r o : TimeRange) (t : Timestamp)
    → t < max_timestamp
    → contains r t ≡ true
    → contains o t ≡ true
    → overlaps r o ≡ true
unfolding overlaps contains
shared_overlaps r o t h p q = ground arith

-- Two ranges of 64-bit timestamps that each have room for a timestamp overlap exactly when some timestamp below the last
-- one is contained in both.
pub overlaps_iff_shared :
    (r o : TimeRange)
    → IsInhabited r
    → IsInhabited o
    → IsBounded r
    → (overlaps r o ≡ true)
      ↔ ((t : Timestamp) × (t < max_timestamp) × (contains r t ≡ true) × (contains o t ≡ true))
overlaps_iff_shared r o hr ho b =
    (overlaps_shared r o hr ho b, λ s. shared_overlaps r o s.0 s.1 s.2 s.3)

-- An empty range that lies strictly inside another one contains no timestamp, and is said to
-- overlap the other all the same.
pub overlaps-empty :
    (s : Timestamp) (o : TimeRange)
    → unwrap_or o.start epoch < s
    → s < unwrap_or o.end max_timestamp
    → (overlaps (between s s) o ≡ true) × ((t : Timestamp) → contains (between s s) t ≡ false)
unfolding overlaps contains
overlaps-empty s o h k = (ground arith, λ t. ground arith)
