-- ===== src/Tests/Channels.antt =====
-- A drain, and sinks behind a forwarder.
use koalisi.Common.{ℕ, Bool, ◌+◌, ◌≡◌, refl, true, false, List, [], ◌∷◌, ◌++◌}
use koalisi.Common.HashMap
use koalisi.Core.Drain.{yielded, ended, next_each, next, next_by, new, recv, drain, try_recv}
use koalisi.Core.Drain.Bounds.{
  all_cancelled, drained, next_each-cancelled, items, all_sent, next_each-items,
}
use koalisi.Algorithms.Feedback.{record_outcome, bump_each, bumped, history}
use koalisi.Subsystems.Fanout.{Arrival, received, cancelled}
use koalisi.Subsystems.Outcome.{
  TaskOutcome, Stores, OutcomeSink, store, hook, on_outcome, deliver, deliver_each,
  forward_outcomes,
}
use koalisi.Tests.Numbers.{thousandths}

next_each-cancelled_example :
    (next_each {A = ℕ} (([], true) ∷ all_cancelled ((3 ∷ []) ∷ [] ∷ [])) (new (1 ∷ 2 ∷ []) false)).1
    ≡ drained 3 (1 ∷ 2 ∷ [])
next_each-cancelled_example = next_each-cancelled (1 ∷ 2 ∷ []) false ((3 ∷ []) ∷ [] ∷ [])

-- The item that is sent after the cancel stays in the channel.
drain_of_2 :
    (next_each {A = ℕ} (([], true) ∷ all_cancelled ((3 ∷ []) ∷ [] ∷ [])) (new (1 ∷ 2 ∷ []) false)).1
    ≡ yielded 1 ∷ yielded 2 ∷ ended ∷ []
unfolding next_each next next_by recv drain try_recv new
drain_of_2 = refl

abbrev run_of_3 : List (List ℕ × Bool)
run_of_3 = (1 ∷ [], false) ∷ (2 ∷ 3 ∷ [], true) ∷ (4 ∷ [], true) ∷ []

next_each-items_example :
    items (next_each run_of_3 (new [] false)).1 ++ (next_each run_of_3 (new [] false)).0.queue
    ≡ (new [] false).queue ++ all_sent run_of_3
next_each-items_example = next_each-items run_of_3 (new [] false)

-- A hook that counts, and panics each time.
abbrev count_and_panic : ℕ → TaskOutcome → Stores thousandths → ℕ × Stores thousandths × Bool
count_and_panic n outcome stores = (n + 1, stores, true)

abbrev new_stores : Stores thousandths
new_stores n = record { failure_threshold = 500; records = [] }

-- Two clones of one store, and a clone of another one.
abbrev four_sinks : List (OutcomeSink thousandths count_and_panic)
four_sinks = hook 0 ∷ store 3 ∷ store 5 ∷ store 3 ∷ []

abbrev three_arrivals : List (Arrival TaskOutcome)
three_arrivals =
    received (record { required = 1; members = 7 ∷ 9 ∷ []; success = false })
    ∷ received (record { required = 3; members = 9 ∷ []; success = true })
    ∷ cancelled
    ∷ []

-- The agent 9 was in two tasks, which each of the two clones counts.
counted_twice :
    history thousandths 9
      ((forward_outcomes thousandths count_and_panic three_arrivals four_sinks new_stores).1 3)
    ≡ 4
unfolding forward_outcomes deliver_each deliver on_outcome record_outcome bump_each bumped history
    HashMap.update
counted_twice = refl
