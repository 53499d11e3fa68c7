-- ===== src/Topology/Timestamp.antt =====
-- src/topology/timestamp.rs: logical timestamps, half-open time ranges and the logical clock.
-- A `Timestamp` is a `u64` in a tuple struct; here it is its number, below `u64_mod`. The clock's
-- atomic counter is a number that the operations return anew: `fetch_add` wraps around.
pub mod Ranges
pub mod Ticks
use koalisi.Common.{
  ℕ, ◌+◌, ◌%◌, Bool, true, ◌&&◌, Option, none, some, List, [], ◌∷◌, ltb, leb, ◌==◌, if◌then◌else◌,
}

abbrev pub u64_mod : ℕ
u64_mod = 18_446_744_073_709_551_616

abbrev pub Timestamp : Type 0
Timestamp = ℕ

abbrev pub epoch : Timestamp
epoch = 0

-- `u64::MAX`
abbrev pub max_timestamp : Timestamp
max_timestamp = 18_446_744_073_709_551_615

pub record TimeRange : Type 0 where
  pub start : Option Timestamp
  pub end : Option Timestamp

-- `TimeRange::all`, `from`, `until` and `between`
abbrev pub all_time : TimeRange
all_time = record { start = none; end = none }

abbrev pub from : Timestamp → TimeRange
from s = record { start = some s; end = none }

abbrev pub until : Timestamp → TimeRange
until e = record { start = none; end = some e }

abbrev pub between : Timestamp → Timestamp → TimeRange
between s e = record { start = some s; end = some e }

abbrev pub unwrap_or : Option Timestamp → Timestamp → Timestamp
unwrap_or none d = d
unwrap_or (some t) d = t

abbrev after_start : Option Timestamp → Timestamp → Bool
after_start (some s) t = leb s t
after_start none t = true

abbrev before_end : Option Timestamp → Timestamp → Bool
before_end (some e) t = ltb t e
before_end none t = true

-- `TimeRange::contains`
unfoldable pub contains : TimeRange → Timestamp → Bool
contains r t = after_start r.start t && before_end r.end t

-- `TimeRange::overlaps`
unfoldable pub overlaps : TimeRange → TimeRange → Bool
overlaps r o =
    ltb (unwrap_or r.start epoch) (unwrap_or o.end max_timestamp)
    && ltb (unwrap_or o.start epoch) (unwrap_or r.end max_timestamp)

pub record Clock : Type 0 where
  pub counter : ℕ

abbrev pub new : Clock
new = record { counter = 0 }

abbrev pub starting_at : ℕ → Clock
starting_at v = record { counter = v }

-- `tick`: the counter's value, and the counter one further, modulo 2^64.
unfoldable pub tick : Clock → Timestamp × Clock
tick c = (c.counter, record { counter = (c.counter + 1) % u64_mod })

unfoldable pub current : Clock → Timestamp
current c = c.counter

-- `advance_to`: each round loads the counter and then tries to exchange it for the target. The list
-- says, for each round, how far other threads move the counter, which wraps around, between the load
-- and the exchange; the exchange fails if the counter is then another number. After the last entry
-- nobody interferes.
unfoldable pub advance_to : List ℕ → Clock → Timestamp → Timestamp × Clock
advance_to [] c t = if leb t c.counter then (c.counter, c) else (t, record { counter = t })
advance_to (d ∷ others) c t =
    let moved = (c.counter + d) % u64_mod in
    let again = advance_to others (record { counter = moved }) t in
    if leb t c.counter
    then (c.counter, c)
    else (if moved == c.counter then (t, record { counter = t }) else again)
