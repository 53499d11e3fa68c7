-- ===== src/Topology/EventLog/Valid.antt =====
-- The well-formedness of an event log: everything that its indexes promise
-- (src/topology/event_log.rs).
use koalisi.Common.{List, [], ◌∷◌, ◌≡◌, refl, ◌++◌, ◌∙◌, append-nil, append_assoc, sym}
use koalisi.Topology.Events.{TemporalEvent}
use koalisi.Topology.EventLog.{EventLog, new, append, append_all, clear}
use koalisi.Topology.EventLog.Indexed.{IsIndexed, new-IsIndexed, append-IsIndexed}
use koalisi.Topology.EventLog.Timeline.{IsTimed, new-IsTimed, append-IsTimed}
use koalisi.Topology.EventLog.Snapshots.{IsMarkedLog, new-IsMarkedLog, append-IsMarkedLog}
use koalisi.Topology.EventLog.Counts.{IsCounted, new-IsCounted, append-IsCounted}

module _ {V HE : Type 0} where
  pub record IsValid (log : EventLog V HE) : Type 0 where
    pub indexed : IsIndexed log
    pub timed : IsTimed log
    pub marked : IsMarkedLog log
    pub counted : IsCounted log

  pub new-IsValid : IsValid new
  new-IsValid = record {
    indexed = new-IsIndexed;
    timed = new-IsTimed;
    marked = new-IsMarkedLog;
    counted = new-IsCounted;
  }

  -- From a valid log, an append gives a valid log.
  pub append-IsValid :
      (e : TemporalEvent V HE) (log : EventLog V HE) → IsValid log → IsValid (append e log)
  append-IsValid e log h = record {
    indexed = append-IsIndexed e log h.indexed;
    timed = append-IsTimed e log h.timed;
    marked = append-IsMarkedLog e log h.marked;
    counted = append-IsCounted e log h.counted;
  }

  clear-IsValid : (log : EventLog V HE) → IsValid (clear log)
  unfolding clear
  clear-IsValid log = new-IsValid

  append_all-IsValid_from :
      (es : List (TemporalEvent V HE)) (log : EventLog V HE)
      → IsValid log
      → IsValid (append_all es log)
  unfolding append_all
  append_all-IsValid_from [] log h = h
  append_all-IsValid_from (e ∷ es) log h =
      append_all-IsValid_from es (append e log) (append-IsValid e log h)

  pub events-append :
      (e : TemporalEvent V HE) (log : EventLog V HE) → (append e log).events ≡ log.events ++ e ∷ []
  unfolding append
  events-append e log = refl

  events-append_all :
      (es : List (TemporalEvent V HE)) (log : EventLog V HE)
      → (append_all es log).events ≡ log.events ++ es
  unfolding append_all append
  events-append_all [] log = sym (append-nil log.events)
  events-append_all (e ∷ es) log =
      events-append_all es (append e log) ∙ append_assoc log.events (e ∷ []) es

  -- The log of any sequence of events, appended one by one to an empty log or to one that was
  -- cleared, is valid and holds exactly these events in this order.
  pub append_all-IsValid :
      (es : List (TemporalEvent V HE)) (log : EventLog V HE)
      → IsValid (append_all es (clear log)) × ((append_all es (clear log)).events ≡ es)
  unfolding clear
  append_all-IsValid es log = (append_all-IsValid_from es new new-IsValid, events-append_all es new)
