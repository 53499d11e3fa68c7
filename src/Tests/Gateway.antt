-- ===== src/Tests/Gateway.antt =====
-- The gateway's buffer with room for two events.
use koalisi.Common.{drop, ℕ, ◌-◌, ◌≡◌, true, List, [], ◌∷◌, arith, length}
use koalisi.Remote.Buffer.{DecisionRecord, join, leave, with_capacity, push_each, head_seq}
use koalisi.Remote.Buffer.Stamps.{max, stamped}
use koalisi.Remote.Buffer.Window.{push_each-window}

abbrev decision : ℕ → DecisionRecord ℕ
decision i = record { coalition = "coalition-0"; agent_id = i; kind = join; act = true; score = 3 }

abbrev three : List (DecisionRecord ℕ)
three = decision 0 ∷ decision 1 ∷ record (decision 2) { kind = leave } ∷ []

abbrev two : List (DecisionRecord ℕ)
two = decision 3 ∷ decision 4 ∷ []

push_each-window_example :
    ((push_each three (with_capacity 2)).events ≡ drop (length three - max 1 2) (stamped 1 three))
    × (head_seq (push_each three (with_capacity 2)) ≡ length three)
push_each-window_example = push_each-window 2 three (omega arith)
