-- ===== src/Queue/Refine.antt =====
-- The queue of ampi/vc4/vchiq/vchiq_util.c as a list of headers, oldest first.
use ampi.Base.{
  ℕ, suc, ◌+◌, ◌%◌, ◌^◌, ◌≤◌, ◌<◌, ◌≡◌, ◌≢◌, ap, sym, ◌∙◌, List, [], ◌∷◌, ◌++◌, length, get_or,
  arith, Bool, true, false, length-set, some,
}
use ampi.Base.Words.{add32, sub32, word, bit_and_mask, pow_pos}
use ampi.Sync.{Cell}
use ampi.Sync.Semaphore.{up}
use ampi.Queue.{Queue, is_full, slot, wait_while, store, front}
use ampi.Queue.Ring.{window, window-set, window-mod, wrap-mod, pow-lt-word}

-- How many headers are in the queue, over the wrap of the positions.
abbrev pub count : Queue → ℕ
count q = sub32 q.write q.read

abbrev pub contents : Queue → List ℕ
contents q = window q.storage q.size q.read (count q)

-- A queue of `2^k` slots.
pub record IsValid (k : ℕ) (q : Queue) : Type 0 where
  pub small : k < 31
  pub power : q.size ≡ 2 ^ k
  pub slots : length q.storage ≡ q.size
  pub reads : q.read < word
  pub writes : q.write < word
  pub bounded : count q ≤ q.size
  pub ready : q.initialized ≡ true

abbrev pub advance : Queue → Queue
advance q = record q { read = add32 q.read 1 }

module _ {k : ℕ} {q : Queue} (v : IsValid k q) where
  slot_lem : (p : ℕ) → slot q p ≡ p % q.size
  unfolding slot
  slot_lem p = rw v.power (bit_and_mask k p)

  -- The slot that is written is the first one behind the window.
  write_slot : slot q q.write ≡ (q.read + count q) % q.size
  write_slot = slot_lem q.write ∙ ap (λ p. p % q.size) wrapped ∙ folded
    where
      wrapped : q.write ≡ (q.read + count q) % word
      wrapped = omega (arith, v.reads, v.writes)

      folded : (q.read + count q) % word % q.size ≡ (q.read + count q) % q.size
      folded = rw v.power (wrap-mod k (q.read + count q) (omega (arith, v.small)))

  pub small_size : q.size < word
  small_size = rw v.power (pow-lt-word k (omega (arith, v.small)))

  pub pos_size : 0 < q.size
  pos_size = rw v.power (pow_pos k)

  -- The next position has the slot of the next number, also where it wraps round.
  next_slot : add32 q.read 1 % q.size ≡ (q.read + 1) % q.size
  next_slot = rw v.power (wrap-mod k (q.read + 1) (omega (arith, v.small)))

  pub not_full : is_full q ≡ false → count q < q.size
  unfolding is_full
  not_full h = ground (arith, v.reads, v.writes, v.bounded, small_size)

  count-store : count q < q.size → sub32 (add32 q.write 1) q.read ≡ suc (count q)
  count-store h = omega (arith, v.reads, v.writes, small_size)

  pub store_lem :
      (header : ℕ)
      → count q < q.size
      → IsValid k (store header q) × (contents (store header q) ≡ contents q ++ header ∷ [])
  unfolding up
  store_lem header h = (
    record {
      small = v.small;
      power = v.power;
      slots = length-set q.storage (slot q q.write) header ∙ v.slots;
      reads = v.reads;
      writes = omega arith;
      bounded = rw (count-store h) h;
      ready = v.ready;
    },
    rw (count-store h, write_slot) (window-set q.storage q.size q.read (count q) header v.slots h),
  )

  count-advance : q.write ≢ q.read → count q ≡ suc (count (advance q))
  count-advance h = omega (arith, v.reads, v.writes)

  -- The front and what is left, of a queue that is not empty.
  pub advance_lem :
      q.write ≢ q.read → IsValid k (advance q) × (contents q ≡ front q ∷ contents (advance q))
  unfolding window
  advance_lem h = (
    record {
      small = v.small;
      power = v.power;
      slots = v.slots;
      reads = omega arith;
      writes = v.writes;
      bounded = omega (arith, count-advance h, v.bounded);
      ready = v.ready;
    },
    rw (count-advance h, slot_lem q.read)
        (ap (◌∷◌ (get_or q.storage (q.read % q.size) 0)) (
          window-mod q.storage q.size (q.read + 1) (add32 q.read 1) (count (advance q))
            (sym next_slot))),
  )

-- A wait ends at once if its condition does not hold.
pub wait_while_done :
    (condition : Queue → Bool) (fuel : ℕ) (q : Queue) (env : List (Queue → Queue))
    (sem : Cell Queue)
    → condition q ≡ false
    → wait_while condition sem (suc fuel) q env ≡ some (tt, q, env)
unfolding wait_while
wait_while_done condition fuel q env sem h = rw h

-- The semaphores are not part of the ring.
pub sems-IsValid :
    {k : ℕ} {q : Queue} (a b : ℕ) → IsValid k q → IsValid k (record q { pop_sem = a; push_sem = b })
sems-IsValid a b v = record {
  small = v.small;
  power = v.power;
  slots = v.slots;
  reads = v.reads;
  writes = v.writes;
  bounded = v.bounded;
  ready = v.ready;
}
