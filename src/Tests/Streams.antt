-- ===== src/Tests/Streams.antt =====
-- A monitor of numbers, whose key is their parity.
use koalisi.Common.{ℕ, ◌≡◌, refl, ◌%◌, ◌==◌, List, [], ◌∷◌, length, drop}
use koalisi.Ingest.Monitor.{
  Sampling, Round, received, token_cancelled, told, fed, monitor_loop, obey, ingest, kept,
  new_monitor,
}
use koalisi.Ingest.Monitor.History.{dropped, taken, monitor_loop-history}

abbrev numbers : Sampling
numbers = record {
  Sample = ℕ;
  Key = ℕ;
  View = ℕ;
  key_of = λ n. n % 2;
  view_of = λ n. n;
  same_key = λ a b. a == b;
}

abbrev five_rounds : List (Round numbers)
five_rounds =
    received (told 2)
    ∷ received (fed 3 0)
    ∷ received (fed 4 1)
    ∷ received (told 6)
    ∷ token_cancelled
    ∷ received (told 8)
    ∷ []

monitor_loop-history_example :
    (monitor_loop numbers five_rounds (new_monitor numbers 0 2)).0.history
    ≡ drop (dropped 2 (length (taken numbers 0 five_rounds))) (taken numbers 0 five_rounds)
monitor_loop-history_example = monitor_loop-history numbers 0 2 five_rounds

-- With the capacity 0 nothing is dropped.
held_at_0 : (monitor_loop numbers five_rounds (new_monitor numbers 0 0)).0.history ≡ 2 ∷ 4 ∷ 6 ∷ []
unfolding monitor_loop obey ingest kept new_monitor
held_at_0 = refl
