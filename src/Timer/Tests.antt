-- ===== src/Timer/Tests.antt =====
-- Runs of the timers, and their theorems at inputs that meet their hypotheses.
use ampi.Base.{ℕ, ◌+◌, ◌≡◌, refl, arith, List, [], ◌∷◌, some}
use ampi.Timer.{Timer, Timers, msecs_to_jiffies, add_timer, periodic_handler}
use ampi.Timer.Firing.{outside, periodic_handler_lem, front_due, behind_due, run_all}
use ampi.Timer.Order.{second_timer_late}

abbrev at : ℕ → Timer
at n = record { address = 1000 + n; expires = n; function = n; argument = 0 }

-- The world is the list of the functions that were called, the last one first.
abbrev log : ℕ → ℕ → List ℕ → List ℕ
log f d w = f ∷ w

abbrev started : List Timer → Timers (List ℕ)
started ts = record { jiffies = 4; pending = ts; world = [] }

one_second : msecs_to_jiffies 1000 ≡ 100
unfolding msecs_to_jiffies
one_second = refl

second_timer_late_example :
    let s' = add_timer (at 8) (add_timer (at 5) (add_timer (at 2) (started []))) in
    (s'.pending ≡ at 2 ∷ at 8 ∷ at 5 ∷ [])
    × (periodic_handler (outside log) 4 s'
        ≡ some (record { jiffies = 5; pending = at 8 ∷ at 5 ∷ []; world = 2 ∷ [] }))
second_timer_late_example =
    second_timer_late log (at 2) (at 5) (at 8) (started []) refl (omega arith) (omega arith)

periodic_handler_lem_example :
    periodic_handler (outside log) 4 (started (at 5 ∷ at 2 ∷ at 6 ∷ []))
    ≡ some (record { jiffies = 5; pending = at 6 ∷ []; world = 2 ∷ 5 ∷ [] })
unfolding front_due behind_due run_all
periodic_handler_lem_example =
    periodic_handler_lem log 4 (started (at 5 ∷ at 2 ∷ at 6 ∷ [])) (omega arith)
