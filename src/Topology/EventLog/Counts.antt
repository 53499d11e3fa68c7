-- ===== src/Topology/EventLog/Counts.antt =====
-- The running counts of the log (src/topology/event_log.rs).
use koalisi.Common.{
  ◌+◌, ◌≡◌, refl, List, [], ◌∷◌, ◌++◌, arith, length, length-append, filter, filter-append, ap, sym,
  ◌∙◌,
}
use koalisi.Topology.Events.{
  TemporalEvent, EventStats, vertex_added, no_stats, count_event, total, is_mutation,
}
use koalisi.Topology.Events.Totals.{total-count_event}
use koalisi.Topology.EventLog.{EventLog, new, append, len, stats, count_events, mutation_count}

total-no_stats : total no_stats ≡ 0
unfolding total
total-no_stats = refl

module _ {V HE : Type 0} where
  -- The running counts are those of a recount.
  pub record IsCounted (log : EventLog V HE) : Type 0 where
    pub recount : log.stats ≡ count_events no_stats log.events

  count_events-append :
      (s : EventStats) (es : List (TemporalEvent V HE)) (e : TemporalEvent V HE)
      → count_events s (es ++ e ∷ []) ≡ count_event (count_events s es) e
  unfolding count_events
  count_events-append s [] e = refl
  count_events-append s (x ∷ es) e = count_events-append (count_event s x) es e

  pub new-IsCounted : IsCounted new
  unfolding count_events
  new-IsCounted = record { recount = refl }

  pub append-IsCounted :
      (e : TemporalEvent V HE) (log : EventLog V HE) → IsCounted log → IsCounted (append e log)
  unfolding append
  append-IsCounted e log h = record {
    recount = ap (λ s. count_event s e) h.recount ∙ sym (count_events-append no_stats log.events e);
  }

  total-count_events :
      (s : EventStats) (es : List (TemporalEvent V HE))
      → total (count_events s es) ≡ total s + length es
  unfolding count_events
  total-count_events s [] = omega arith
  total-count_events s (e ∷ es) =
      omega (arith, total-count_events (count_event s e) es, total-count_event s e)

  snapshots-count_event :
      (s : EventStats) (e : TemporalEvent V HE)
      → (count_event s e).snapshots + length (filter is_mutation (e ∷ [])) ≡ s.snapshots + 1
  unfolding count_event is_mutation
  snapshots-count_event s (vertex_added t i w) = omega arith
  snapshots-count_event s _ = omega arith

  snapshots-count_events :
      (s : EventStats) (es : List (TemporalEvent V HE))
      → (count_events s es).snapshots + length (filter is_mutation es) ≡ s.snapshots + length es
  unfolding count_events
  snapshots-count_events s [] = omega arith
  snapshots-count_events s (e ∷ es) = omega (
    arith,
    snapshots-count_events (count_event s e) es,
    snapshots-count_event s e,
    ap length (filter-append is_mutation (e ∷ []) es),
    length-append (filter is_mutation (e ∷ [])) (filter is_mutation es),
  )

  -- In a log whose statistics are the counts of its events, the counts add up to the length,
  -- and so do the mutations and the snapshot markers.
  pub stats-len :
      (log : EventLog V HE)
      → IsCounted log
      → (total (stats log) ≡ len log) × (mutation_count log + (stats log).snapshots ≡ len log)
  unfolding stats len mutation_count
  stats-len log h = (
    rw h.recount (omega (arith, total-count_events no_stats log.events, total-no_stats)),
    rw h.recount (omega (arith, snapshots-count_events no_stats log.events)),
  )
