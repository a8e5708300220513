-- ===== src/Timer/Firing.antt =====
-- `periodic_handler` of ampi/linux/timer.c.
use ampi.Base.{
  ℕ, zero, suc, ◌<◌, ◌≡◌, refl, if◌then◌else◌, some, List, [], ◌∷◌, length, arith, Bool-cases, inl,
  inr,
}
use ampi.Base.Words.{add32}
use ampi.Timer.{Timer, Timers, is_due, fire, periodic_handler}

-- The timers at the front of the list that are due, and the list without them.
unfoldable pub front_due : ℕ → List Timer → List Timer
front_due now [] = []
front_due now (t ∷ ts) =
    let rest = front_due now ts in if is_due t.expires now then t ∷ rest else []

unfoldable pub behind_due : ℕ → List Timer → List Timer
behind_due now [] = []
behind_due now (t ∷ ts) =
    let rest = behind_due now ts in if is_due t.expires now then rest else t ∷ ts

module _ {W : Type 0} (effect : ℕ → ℕ → W → W) where
  -- The effects of the functions of some timers, one after the other.
  unfoldable pub run_all : List Timer → W → W
  run_all [] w = w
  run_all (t ∷ ts) w = run_all ts (effect t.function t.argument w)

  -- The functions leave the timers alone.
  abbrev pub outside : ℕ → ℕ → Timers W → Timers W
  outside f d s = record s { world = effect f d s.world }

  fire_lem :
      (now fuel j : ℕ) (ts : List Timer) (w : W)
      → length ts < fuel
      → fire outside fuel now (record { jiffies = j; pending = ts; world = w })
        ≡ some (record {
          jiffies = j;
          pending = behind_due now ts;
          world = run_all (front_due now ts) w;
        })
  unfolding fire behind_due front_due run_all
  fire_lem now zero j ts w h = absurd (omega arith)
  fire_lem now (suc fuel) j [] w h = refl
  fire_lem now (suc fuel) j (t ∷ ts) w h = elim (Bool-cases (is_due t.expires now)) [
    | inl y ↦ rw (y, fire_lem now fuel j ts (effect t.function t.argument w) (omega arith)) refl
    | inr n ↦ rw n refl
  ]

  -- If the functions of the timers leave the timers alone, a tick ends, with the clock one further:
  -- it has called those timers that are due and stand before the first one that is not, each once
  -- and in order, and has taken them off the list. As many rounds as there are timers, and one more,
  -- are enough.
  pub periodic_handler_lem :
      (fuel : ℕ) (s : Timers W)
      → length s.pending < fuel
      → let now = add32 s.jiffies 1 in
        periodic_handler outside fuel s
        ≡ some (record {
          jiffies = now;
          pending = behind_due now s.pending;
          world = run_all (front_due now s.pending) s.world;
        })
  unfolding periodic_handler
  periodic_handler_lem fuel s h = fire_lem _ fuel _ s.pending s.world h
