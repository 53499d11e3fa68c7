-- ===== src/Tests/Restarts.antt =====
-- A task that panics four times, with two restarts allowed in a window of ten.
use koalisi.Common.{◌≡◌, refl, false, List, [], ◌∷◌, arith}
use koalisi.Supervision.{Life, completed, panicked, gave_up, prune, restarted, supervise}
use koalisi.Supervision.Budget.{IsRationed, supervise-IsRationed}

abbrev lives : List Life
lives = panicked 1 false ∷ panicked 8 false ∷ panicked 15 false ∷ panicked 16 false ∷ completed ∷ []

gives_up : supervise 2 10 [] lives ≡ (1 ∷ 8 ∷ 15 ∷ [], gave_up)
unfolding supervise restarted prune
gives_up = refl

supervise-IsRationed_example : IsRationed 2 10 [] (supervise 2 10 [] lives).0
supervise-IsRationed_example = supervise-IsRationed 2 10 lives (omega arith)
