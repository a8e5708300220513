-- ===== src/Coroutine/Tests.antt =====
-- Runs of the scheduler, and its theorems at inputs that meet their hypotheses.
use ampi.Base.{
  ℕ, zero, suc, ◌-◌, ◌≡◌, refl, true, false, ltb, arith, List, [], ◌∷◌, ◌++◌, get_or, replicate,
  none,
}
use ampi.Coroutine.{
  Scheduler, Slices, initial, max_co, create, switch_to, yield_thread, next, next_from, poke,
}
use ampi.Coroutine.Poke.{Calm, active, poke_switches}
use ampi.Coroutine.Thread.{
  Threads, kthread_create, task_switch_handler, Count, kthread_create_eighth,
}

-- The world is the list of the slices that have run, the latest first.
abbrev recorder : Slices (List ℕ)
recorder = record {
  begin = λ fn arg id s. record s { world = fn ∷ s.world };
  resume = λ id s. record s { world = id ∷ s.world };
}

recorder-Calm : Calm recorder
recorder-Calm = record {
  begin_used = λ fn arg id s. refl;
  begin_handler = λ fn arg id s. refl;
  begin_switches = λ fn arg id s. refl;
  resume_used = λ id s. refl;
  resume_handler = λ id s. refl;
  resume_switches = λ id s. refl;
}

-- Threads 1 and 3 of 100 and 300, with a callback.
abbrev pair : Scheduler (List ℕ)
pair = record (initial []) {
  used = true ∷ false ∷ true ∷ false ∷ false ∷ false ∷ false ∷ false ∷ [];
  fn_ptr = 100 ∷ 0 ∷ 300 ∷ 0 ∷ 0 ∷ 0 ∷ 0 ∷ 0 ∷ [];
  handler = 9;
}

-- The first round begins both functions, the second one goes on with the threads.
rounds : (poke recorder (poke recorder pair)).world ≡ 3 ∷ 1 ∷ 300 ∷ 100 ∷ []
unfolding poke next_from next yield_thread switch_to
rounds = refl

poke_switches_example : (poke recorder pair).switches ≡ 0 ∷ 3 ∷ 0 ∷ 1 ∷ []
unfolding active
poke_switches_example = poke_switches recorder recorder-Calm pair (omega arith)

get_or-fill : (n m j : ℕ) → get_or (replicate n true ++ replicate m false) j false ≡ ltb j n
get_or-fill zero zero j = ground arith
get_or-fill zero (suc m) zero = refl
get_or-fill zero (suc m) (suc j) = ground (arith, get_or-fill zero m j)
get_or-fill (suc n) m zero = ground arith
get_or-fill (suc n) m (suc j) = ground (arith, get_or-fill n m j)

-- A scheduler with the first `n` threads.
abbrev filled : ℕ → Scheduler (List ℕ)
filled n = record (initial []) { used = replicate n true ++ replicate (max_co - n) false }

filled-Count : (n : ℕ) → Count n (filled n)
filled-Count n = record {
  below = λ j h. ground (arith, get_or-fill n (max_co - n) j);
  above = λ j h. ground (arith, get_or-fill n (max_co - n) j);
}

abbrev threads : ℕ → Threads (List ℕ)
threads n = record { scheduler = filled n; tasks = replicate max_co 0; current_task = 0 }

kthread_create_eighth_example :
    ((create 5 6 (filled 7)).0 ≡ 8)
    × (kthread_create 5 6 (threads 7) ≡ none)
    × (task_switch_handler 8 (threads 7) ≡ none)
kthread_create_eighth_example = kthread_create_eighth 5 6 (threads 7) (filled-Count 7)
