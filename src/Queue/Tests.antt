-- ===== src/Queue/Tests.antt =====
-- The theorems on the queue at inputs that meet their hypotheses.
use ampi.Base.{ℕ, ◌≡◌, refl, arith, true, some, [], ◌∷◌, ◌++◌}
use ampi.Sync.Semaphore.{up}
use ampi.Queue.{Queue, is_empty, is_full, slot, wait_while, push, pop}
use ampi.Queue.Refine.{IsValid, contents}
use ampi.Queue.Ring.{window}
use ampi.Queue.Fifo.{push_lem, pop_lem}

-- Four slots; the positions are about to wrap round. The headers are 11, 12, 13.
abbrev three : Queue
three = record {
  size = 4;
  read = 0xfffffffe;
  write = 1;
  initialized = true;
  pop_sem = 0;
  push_sem = 0;
  storage = 13 ∷ 0 ∷ 11 ∷ 12 ∷ [];
}

abbrev four : Queue
four = record three { write = 2; storage = 13 ∷ 14 ∷ 11 ∷ 12 ∷ [] }

abbrev nothing : Queue
nothing = record three { write = 0xfffffffe }

three-IsValid : IsValid 2 three
three-IsValid = record {
  small = omega arith;
  power = refl;
  slots = refl;
  reads = omega arith;
  writes = omega arith;
  bounded = omega arith;
  ready = refl;
}

four-IsValid : IsValid 2 four
four-IsValid = record {
  small = omega arith;
  power = refl;
  slots = refl;
  reads = omega arith;
  writes = omega arith;
  bounded = omega arith;
  ready = refl;
}

three_headers : contents three ≡ 11 ∷ 12 ∷ 13 ∷ []
unfolding window
three_headers = refl

push_runs : push 1 14 three [] ≡ some (tt, record four { push_sem = 1 }, [])
unfolding push wait_while is_full slot up
push_runs = refl

push_lem_example :
    (t : Queue) × (push 1 14 three [] ≡ some (tt, t, []))
    × IsValid 2 t
    × (contents t ≡ contents three ++ 14 ∷ [])
unfolding is_full
push_lem_example = push_lem 2 three 14 0 [] three-IsValid refl

pop_lem_example :
    (header : ℕ) × (t : Queue) × (pop 1 three [] ≡ some (header, t, []))
    × IsValid 2 t
    × (contents three ≡ header ∷ contents t)
unfolding is_empty
pop_lem_example = pop_lem 2 three 0 [] three-IsValid refl
