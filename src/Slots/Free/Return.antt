-- ===== src/Slots/Free/Return.antt =====
-- `process_free_queue` of ampi/vc4/vchiq/vchiq_core.c gives back what each message has used.
use ampi.Base.{
  ℕ, suc, ◌+◌, ◌-◌, ◌*◌, ◌%◌, ◌≤◌, ◌<◌, ◌≡◌, ◌≢◌, ◌∙◌, refl, ap, subst, Bool, true, false, ◌==◌,
  Option, none, some, List, [], ◌∷◌, length, arith, ==-eq-false,
}
use Prim.Native.Nat.{bit_and}
use ampi.Base.Words.{word, add32, bit_and_mask}
use ampi.Sync.Semaphore.{up}
use ampi.Slots.{Sender, Slotted, calc_stride, slot_address, available_cell}
use ampi.Slots.Stream.{Walk}
use ampi.Slots.Free.{scan_slot, free_slot, slot_rounds, process_free_queue}
use ampi.Slots.Free.Counts.{Lowered, same, choose-Lowered, sent_from}
use ampi.Slots.Free.Scan.{scan_slot_lem}

length-Walk :
    (memory : ℕ → Slotted) (queue : ℕ → ℕ) (ms : List Slotted) (p e : ℕ)
    → Walk memory queue ms p e
    → p + length ms * 8 ≤ e
unfolding Walk
length-Walk memory queue [] p e w = omega (arith, w)
length-Walk memory queue (m ∷ ms) p e w =
    omega (arith, length-Walk memory queue ms (p + calc_stride m.size) e w.3, w.1)

free_slot-Lowered : (any : Bool) (s : Sender) → Lowered (λ i. false) s (free_slot any s)
unfolding free_slot up
free_slot-Lowered false s = same s
free_slot-Lowered true s =
    choose-Lowered (s.data_use_count == s.data_quota) s _ _ (λ i. false)
      (record {
        kept = record { memory_lem = refl; queue_lem = refl; available = refl; event = refl };
        count = λ i. omega arith;
      })
      (record {
        kept = record { memory_lem = refl; queue_lem = refl; available = refl; event = refl };
        count = λ i. omega arith;
      })

-- The slots from the index `a` of the queue on are full of messages, those of one slot each.
unfoldable pub Full : (ℕ → Slotted) → (ℕ → ℕ) → List (List Slotted) → ℕ → Type 0
Full memory queue [] a = Unit {0}
Full memory queue (ms ∷ slots) a =
    Walk memory queue ms (a * 4096) (a * 4096 + 4096) × Full memory queue slots (a + 1)

unfoldable pub sent_in : ℕ → List (List Slotted) → ℕ
sent_in port [] = 0
sent_in port (ms ∷ slots) = sent_from port ms + sent_in port slots

-- What the loop leaves of the slots that have come back.
pub record Freed (slots : List (List Slotted)) (recycle : ℕ) (s t : Sender) : Type 0 where
  pub all_back : t.slot_queue_available ≡ recycle
  pub event : t.slot_available_event ≡ s.slot_available_event + length slots
  pub count :
      (i : ℕ) → (t.quotas i).message_use_count ≡ (s.quotas i).message_use_count - sent_in i slots

process_over :
    (fuel recycle : ℕ) (s : Sender)
    → s.slot_queue_available ≡ recycle
    → process_free_queue (suc fuel) recycle s ≡ some s
unfolding process_free_queue
process_over fuel recycle s h =
    let over : (s.slot_queue_available == recycle) ≡ true = ground (arith, h) in rw over refl

-- The state after one slot
abbrev slot_back : Bool → ℕ → Sender → Sender
slot_back any next t = up available_cell (record (free_slot any t) { slot_queue_available = next })

process_step :
    (fuel recycle : ℕ) (s : Sender) (r : Bool × Sender)
    → s.slot_queue_available ≢ recycle
    → s.slot_queue_available + 1 < word
    → scan_slot slot_rounds
        (slot_address (s.slot_queue (s.slot_queue_available % 64)))
        0
        (λ i. false)
        false
        s
      ≡ some r
    → process_free_queue (suc fuel) recycle s
      ≡ process_free_queue fuel recycle (slot_back r.0 (s.slot_queue_available + 1) r.1)
unfolding process_free_queue
process_step fuel recycle s r ne small run =
    let a = s.slot_queue_available in
    let going : (a == recycle) ≡ false = ==-eq-false _ _ ne in
    let next : add32 a 1 ≡ a + 1 = omega (arith, small) in
    let back : ℕ → Option (Bool × Sender) → Option Sender = λ n o. elim o [
      | none ↦ none
      | some (any, t) ↦ process_free_queue fuel recycle (slot_back any n t)
    ] in
    let scan : ℕ → Option (Bool × Sender) =
      λ n. scan_slot slot_rounds (slot_address (s.slot_queue n)) 0 (λ i. false) false s in
    let first : process_free_queue (suc fuel) recycle s ≡ back (add32 a 1) (scan (bit_and a 63)) =
      rw going refl in
    first
    ∙ ap (λ n. back n (scan (bit_and a 63))) next
    ∙ ap (λ n. back (a + 1) (scan n)) (bit_and_mask 6 a)
    ∙ ap (back (a + 1)) run

slot_back_lem :
    (any : Bool) (next : ℕ) (t : Sender)
    → t.slot_available_event + 1 < word
    → let u = slot_back any next t in
      (u.slot_queue_available ≡ next)
      × (u.memory ≡ t.memory)
      × (u.slot_queue ≡ t.slot_queue)
      × (u.slot_available_event ≡ t.slot_available_event + 1)
      × ((i : ℕ) → (u.quotas i).message_use_count ≡ (t.quotas i).message_use_count)
unfolding up
slot_back_lem any next t few =
    let f = free_slot-Lowered any t in
    (
      refl,
      f.kept.memory_lem,
      f.kept.queue_lem,
      omega (arith, f.kept.event, few),
      λ i. omega (arith, f.count i),
    )

-- One round: the messages of a slot do not count any more, and the slot is free.
record Returned (ms : List Slotted) (s u : Sender) : Type 0 where
  next : u.slot_queue_available ≡ s.slot_queue_available + 1
  memory_lem : u.memory ≡ s.memory
  queue_lem : u.slot_queue ≡ s.slot_queue
  event : u.slot_available_event ≡ s.slot_available_event + 1
  count : (i : ℕ) → (u.quotas i).message_use_count ≡ (s.quotas i).message_use_count - sent_from i ms

process_slot :
    (ms : List Slotted) (fuel recycle : ℕ) (s : Sender)
    → Walk s.memory s.slot_queue ms
        (s.slot_queue_available * 4096)
        (s.slot_queue_available * 4096 + 4096)
    → s.slot_queue_available ≢ recycle
    → s.slot_queue_available + 1 < word
    → s.slot_available_event + 1 < word
    → (u : Sender) × (process_free_queue (suc fuel) recycle s ≡ process_free_queue fuel recycle u)
      × Returned ms s u
process_slot ms fuel recycle s walk ne small few =
    let a = s.slot_queue_available in
    let start : Walk s.memory s.slot_queue ms (a * 4096 + 0) (a * 4096 + 4096) =
      subst (λ p. Walk s.memory s.slot_queue ms p (a * 4096 + 4096)) (omega arith) walk in
    let (r, run, emptied) =
      scan_slot_lem ms 512 a 0 (λ i. false) false s
        (omega (arith, length-Walk s.memory s.slot_queue ms (a * 4096) (a * 4096 + 4096) walk))
        start in
    let k = emptied.kept in
    let (next, memory, queue, event, count) =
      slot_back_lem r.0 (a + 1) r.1 (omega (arith, k.event, few)) in
    (
      slot_back r.0 (a + 1) r.1,
      process_step fuel recycle s r ne small run,
      record {
        next = next;
        memory_lem = memory ∙ k.memory_lem;
        queue_lem = queue ∙ k.queue_lem;
        event = omega (arith, event, k.event);
        count = λ i. omega (arith, count i, emptied.count i);
      },
    )

-- When the slots up to the index `recycle` have come back, full of messages, all of them are free
-- again, the event has been signalled once for each, and each service has as many messages less on
-- its count as it had sent in these slots (or none, if the count was lower). One round for each slot,
-- and one more, are enough. (No index and no count wraps.)
pub process_free_queue_lem :
    (slots : List (List Slotted)) (recycle : ℕ) (s : Sender)
    → Full s.memory s.slot_queue slots s.slot_queue_available
    → s.slot_queue_available + length slots ≡ recycle
    → recycle < word
    → s.slot_available_event + length slots < word
    → (t : Sender) × (process_free_queue (suc (length slots)) recycle s ≡ some t)
      × Freed slots recycle s t
unfolding Full sent_in
process_free_queue_lem [] recycle s full h small few = (
  s,
  process_over 0 recycle s (omega (arith, h)),
  record { all_back = omega (arith, h); event = omega arith; count = λ i. omega arith },
)
process_free_queue_lem (ms ∷ slots) recycle s (walk, full) h small few =
    let (u, run, b) =
      process_slot ms (suc (length slots)) recycle s walk (λ z. omega (arith, z, h))
        (omega (arith, h, small)) (omega (arith, few)) in
    let (t, more, done) =
      process_free_queue_lem slots recycle u (rw (b.memory_lem, b.queue_lem, b.next) full)
        (omega (arith, h, b.next)) small (omega (arith, few, b.event)) in
    (
      t,
      run ∙ more,
      record {
        all_back = done.all_back;
        event = omega (arith, done.event, b.event);
        count = λ i. omega (arith, done.count i, b.count i);
      },
    )
