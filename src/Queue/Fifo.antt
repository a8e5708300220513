-- ===== src/Queue/Fifo.antt =====
-- The operations of ampi/vc4/vchiq/vchiq_util.c as those of a bounded first-in first-out queue.
use ampi.Base.{
  ℕ, suc, ◌≡◌, ◌≢◌, ◌<◌, refl, ◌∙◌, List, [], ◌∷◌, ◌++◌, arith, Bool, true, false, ◌==◌, some, none,
  length-replicate, ◌^◌, not, zero, ==-eq-false,
}
use native.Mathlib.Nat.{mod_self}
use ampi.Base.Words.{bit_and_mask, pow_pos}
use ampi.Wait.{◌>>◌, poll_blocked, poll_yield, poll_ready}
use ampi.Sync.{Cell}
use ampi.Sync.Semaphore.{up, down}
use ampi.Queue.{
  Queue, pop_cell, push_cell, is_pow2, init, is_empty, is_full, slot, wait_while, store, push,
  front, peek, pop,
}
use ampi.Queue.Ring.{window}
use ampi.Queue.Refine.{
  IsValid, contents, wait_while_done, store_lem, advance, advance_lem, not_full, sems-IsValid,
  small_size, pos_size,
}

-- On a valid queue that is not full, `push` returns without waiting, and appends the header.
pub push_lem :
    (k : ℕ) (q : Queue) (header fuel : ℕ) (env : List (Queue → Queue))
    → IsValid k q
    → is_full q ≡ false
    → (t : Queue) × (push (suc fuel) header q env ≡ some (tt, t, env))
      × IsValid k t
      × (contents t ≡ contents q ++ header ∷ [])
unfolding push
push_lem k q header fuel env v h =
    let (valid, same) = store_lem v header (not_full v h) in
    (
      store header q,
      ground (arith, v.ready, wait_while_done is_full fuel q env pop_cell h),
      valid,
      same,
    )

-- On a valid queue that is not empty, `pop` returns the oldest header without waiting, and leaves
-- the others.
pub pop_lem :
    (k : ℕ) (q : Queue) (fuel : ℕ) (env : List (Queue → Queue))
    → IsValid k q
    → is_empty q ≡ false
    → (header : ℕ) × (t : Queue) × (pop (suc fuel) q env ≡ some (header, t, env))
      × IsValid k t
      × (contents q ≡ header ∷ contents t)
unfolding pop up is_empty
pop_lem k q fuel env v h =
    let (valid, same) = advance_lem v (ground arith) in
    (
      front q,
      up pop_cell (advance q),
      ground (arith, wait_while_done (λ q. q.write == q.read) fuel q env push_cell),
      sems-IsValid _ _ valid,
      same,
    )

-- On a valid queue that is not empty, `peek` returns the oldest header without waiting, and the
-- queue keeps all of them.
pub peek_lem :
    (k : ℕ) (q : Queue) (fuel : ℕ) (env : List (Queue → Queue))
    → IsValid k q
    → is_empty q ≡ false
    → (header : ℕ) × (rest : List ℕ) × (t : Queue) × (peek (suc fuel) q env ≡ some (header, t, env))
      × IsValid k t
      × (contents q ≡ header ∷ rest)
      × (contents t ≡ contents q)
      × (is_empty t ≡ false)
unfolding peek up is_empty slot
peek_lem k q fuel env v h =
    let (valid, same) = advance_lem v (ground arith) in
    (
      front q,
      contents (advance q),
      up push_cell q,
      ground (arith, wait_while_done (λ q. q.write == q.read) fuel q env push_cell),
      sems-IsValid _ _ v,
      same,
      refl,
      h,
    )

down_blocked : (sem : Cell Queue) (q : Queue) → sem.get q ≡ 0 → down sem q [] ≡ none
unfolding down
down_blocked sem q h = ground (arith, poll_blocked (λ (q : Queue). not (sem.get q == 0)) q)

-- A wait whose condition holds goes on as long as the semaphore is at 0 and nobody else runs.
wait_while_blocked :
    (condition : Queue → Bool) (sem : Cell Queue) (fuel : ℕ) (q : Queue)
    → condition q ≡ true
    → sem.get q ≡ 0
    → wait_while condition sem fuel q [] ≡ none
unfolding wait_while
wait_while_blocked condition sem zero q h z = refl
wait_while_blocked condition sem (suc fuel) q h z = rw h (ground (arith, down_blocked sem q z))

-- A full queue blocks `push`, and an empty one `pop`, for as long as no other task runs, whatever
-- the fuel.
full_blocks :
    (q : Queue) (header fuel : ℕ)
    → q.initialized ≡ true
    → is_full q ≡ true
    → q.pop_sem ≡ 0
    → push fuel header q [] ≡ none
unfolding push
full_blocks q header fuel r h z = ground (arith, wait_while_blocked is_full pop_cell fuel q h z)

empty_blocks : (q : Queue) (fuel : ℕ) → is_empty q ≡ true → q.push_sem ≡ 0 → pop fuel q [] ≡ none
unfolding pop is_empty
empty_blocks q fuel h z =
    ground (arith, wait_while_blocked (λ q. q.write == q.read) push_cell fuel q (ground arith) z)

pow-IsPow2 : (k : ℕ) → is_pow2 (2 ^ k) ≡ true
unfolding is_pow2
pow-IsPow2 k =
    rw (bit_and_mask k (2 ^ k), mod_self (2 ^ k), ==-eq-false (2 ^ k) 0 (omega (arith, pow_pos k)))

-- A new queue of `2^k` slots is valid and empty, and no warning is logged.
init_lem :
    (k : ℕ)
    → k < 31
    → let (warned, status, q) = init true (2 ^ k) in
      (warned ≡ false) × (status ≡ 1) × IsValid k q × (contents q ≡ [])
unfolding init window
init_lem k h = (
  rw (pow-IsPow2 k),
  refl,
  record {
    small = h;
    power = refl;
    slots = length-replicate (2 ^ k) 0;
    reads = omega arith;
    writes = omega arith;
    bounded = omega arith;
    ready = refl;
  },
  refl,
)

wait_while_again :
    (condition : Queue → Bool) (sem : Cell Queue) (fuel : ℕ) (q : Queue)
    (env : List (Queue → Queue))
    → condition q ≡ true
    → wait_while condition sem (suc fuel) q env ≡ (down sem >> wait_while condition sem fuel) q env
unfolding wait_while
wait_while_again condition sem fuel q env h = rw h

-- What one `pop` of another task does to a queue that is not empty.
abbrev pub drain : Queue → Queue
drain q = up pop_cell (advance q)

-- The queue on which a `push` that has waited for one `pop` goes on.
abbrev woken : Queue → Queue
woken q = record (advance q) { pop_sem = 0 }

module _ (k : ℕ) (q : Queue) (v : IsValid k q) (h : is_full q ≡ true) (z : q.pop_sem ≡ 0) where
  full_ne : q.write ≢ q.read
  unfolding is_full
  full_ne e = ground (arith, v.reads, v.writes, small_size v, pos_size v)

  woken-is_full : is_full (woken q) ≡ false
  unfolding is_full
  woken-is_full = ground (arith, v.reads, v.writes, small_size v, pos_size v)

  down-woken :
      (env : List (Queue → Queue)) → down pop_cell q (drain ∷ env) ≡ some (tt, woken q, env)
  unfolding down up
  down-woken env =
      let test = λ (q : Queue). not (q.pop_sem == 0) in
      ground (arith, poll_yield test q drain env, poll_ready test (drain q) env)

  wait_wakes :
      (fuel : ℕ) (env : List (Queue → Queue))
      → wait_while is_full pop_cell (suc (suc fuel)) q (drain ∷ env) ≡ some (tt, woken q, env)
  wait_wakes fuel env =
      wait_while_again is_full pop_cell (suc fuel) q (drain ∷ env) h
      ∙ ground
          (arith, down-woken env, wait_while_done is_full fuel (woken q) env pop_cell woken-is_full)

  -- A `push` that waits on a full queue ends as soon as another task pops one header, and the queue
  -- then holds the others and the new one.
  push_wakes :
      (header fuel : ℕ) (env : List (Queue → Queue))
      → (t : Queue) × (rest : List ℕ) × (push (suc (suc fuel)) header q (drain ∷ env)
          ≡ some (tt, t, env))
        × IsValid k t
        × (contents q ≡ front q ∷ rest)
        × (contents t ≡ rest ++ header ∷ [])
  unfolding push
  push_wakes header fuel env =
      let (valid, same) = advance_lem v full_ne in
      let w : IsValid k (woken q) = sems-IsValid 0 q.push_sem valid in
      let (valid', same') = store_lem w header (not_full w woken-is_full) in
      (
        store header (woken q),
        contents (advance q),
        ground (arith, v.ready, wait_wakes fuel env),
        valid',
        same,
        same',
      )
