-- ===== src/Event/Tests.antt =====
-- A remote event at an input that meets the hypotheses of the theorem.
use ampi.Base.{arith, ◌≡◌, refl, true, false, some, none, [], ◌∷◌}
use ampi.Event.{Event, remote_event_signal, remote_event_wait, take_fired}
use ampi.Event.Wake.{Idle, no_yields, yield_next, nothing, wakes, spent, remote_event_wait_lem}

abbrev quiet : Event
quiet = record { armed = false; fired = false; event = 0; doorbells = 4 }

-- A signal whose interrupt is not handled does not post the semaphore.
signal-Idle : Idle (remote_event_signal ∷ [])
unfolding remote_event_signal
signal-Idle = yield_next remote_event_signal [] (λ s h. ground (arith, h)) no_yields

remote_event_wait_lem_example :
    (quiet.fired ≡ true → remote_event_wait nothing quiet [] ≡ some (tt, take_fired quiet, []))
    × (quiet.fired ≡ false
        → (remote_event_wait remote_event_signal quiet []
            ≡ some (tt, record (spent quiet) { doorbells = 5 }, []))
          × (remote_event_wait nothing quiet (wakes ∷ [])
              ≡ some (tt, record (spent quiet) { doorbells = 5 }, []))
          × (remote_event_wait nothing quiet (remote_event_signal ∷ []) ≡ none))
remote_event_wait_lem_example =
    remote_event_wait_lem quiet [] (remote_event_signal ∷ []) refl signal-Idle
