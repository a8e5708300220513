-- ===== src/Slots/Free/Scan.antt =====
-- The loop over one slot in `process_free_queue` of ampi/vc4/vchiq/vchiq_core.c.
use ampi.Base.{
  ℕ, zero, suc, ◌+◌, ◌-◌, ◌*◌, ◌/◌, ◌%◌, ◌≤◌, ◌<◌, ◌≡◌, ◌∙◌, refl, sym, ap, subst, Bool, true,
  false, ◌==◌, ltb, ◌&&◌, ◌||◌, if◌then◌else◌, some, List, [], ◌∷◌, length, arith,
}
use ampi.Base.Words.{add32}
use ampi.Slots.{Sender, Slotted, msg_data, msg_type, msg_srcport, calc_stride, offset, slot_address}
use ampi.Slots.Layout.{offset_lem, slot_at_lem}
use ampi.Slots.Stream.{place, Walk, Walk-le}
use ampi.Slots.Free.{scan_slot}
use ampi.Slots.Free.Counts.{Kept, same, sent_from, freed, freed-Lowered}

-- The messages `ms` do not count any more.
pub record Emptied (ms : List Slotted) (s t : Sender) : Type 0 where
  pub kept : Kept s t
  pub count :
      (i : ℕ) → (t.quotas i).message_use_count ≡ (s.quotas i).message_use_count - sent_from i ms

-- The place of a position in the slot of index `a` of the queue
place_in :
    (queue : ℕ → ℕ) (a pos : ℕ)
    → pos < 4096
    → place queue (a * 4096 + pos) ≡ slot_address (queue (a % 64)) + pos
unfolding place
place_in queue a pos h =
    let index : (a * 4096 + pos) / 4096 % 64 ≡ a % 64 = ap (λ n. n % 64) (omega (arith, h)) in
    let slot = slot_at_lem queue (a * 4096 + pos) ∙ ap queue index in
    let off : offset (a * 4096 + pos) ≡ pos = offset_lem (a * 4096 + pos) ∙ omega (arith, h) in
    rw (slot, off) refl

found_in : Slotted → (ℕ → Bool) → ℕ → Bool
found_in m found i =
    if msg_type m.msgid == msg_data && i == msg_srcport m.msgid then true else found i

scan_slot_step :
    (fuel address pos : ℕ) (found : ℕ → Bool) (any : Bool) (m : Slotted) (s : Sender)
    → s.memory (address + pos) ≡ m
    → pos < 4096
    → pos + calc_stride m.size ≤ 4096
    → scan_slot (suc fuel) address pos found any s
      ≡ scan_slot fuel address
          (pos + calc_stride m.size)
          (found_in m found)
          (any || msg_type m.msgid == msg_data)
          (freed m found s)
unfolding scan_slot freed found_in
scan_slot_step fuel address pos found any m s at h far =
    let inside : ltb pos 4096 ≡ true = ground (arith, h) in
    let next : add32 pos (calc_stride m.size) ≡ pos + calc_stride m.size = omega (arith, far) in
    let good : ltb 4096 (pos + calc_stride m.size) ≡ false = ground (arith, far) in
    rw (inside, at, next, good) refl

scan_slot_over :
    (fuel address pos : ℕ) (found : ℕ → Bool) (any : Bool) (s : Sender)
    → pos ≡ 4096
    → scan_slot (suc fuel) address pos found any s ≡ some (any, s)
unfolding scan_slot
scan_slot_over fuel address pos found any s h = rw h refl

pub scan_slot_lem :
    (ms : List Slotted) (fuel a pos : ℕ) (found : ℕ → Bool) (any : Bool) (s : Sender)
    → length ms ≤ fuel
    → Walk s.memory s.slot_queue ms (a * 4096 + pos) (a * 4096 + 4096)
    → (r : Bool × Sender) × (scan_slot
          (suc fuel)
          (slot_address (s.slot_queue (a % 64)))
          pos
          found
          any
          s
        ≡ some r)
      × Emptied ms s r.1
unfolding Walk sent_from
scan_slot_lem [] fuel a pos found any s h w =
    let over : pos ≡ 4096 = omega (arith, w) in
    (
      (any, s),
      scan_slot_over fuel (slot_address (s.slot_queue (a % 64))) pos found any s over,
      record { kept = (same s).kept; count = λ i. omega arith },
    )
scan_slot_lem (m ∷ ms) zero a pos found any s h w = absurd (omega (arith, h))
scan_slot_lem (m ∷ ms) (suc fuel) a pos found any s h (at, low, fits, w) =
    let far = Walk-le s.memory s.slot_queue ms _ _ w in
    let here : s.memory (slot_address (s.slot_queue (a % 64)) + pos) ≡ m =
      ap s.memory (sym (place_in s.slot_queue a pos (omega (arith, far, low)))) ∙ at in
    let u : Sender = freed m found s in
    let l = freed-Lowered m found s in
    let behind : Walk u.memory u.slot_queue ms (a * 4096 + (pos + calc_stride m.size))
        (a * 4096 + 4096) =
      rw (l.kept.memory_lem, l.kept.queue_lem)
        (subst (λ p. Walk s.memory s.slot_queue ms p (a * 4096 + 4096)) (omega arith) w) in
    let (r, run, emptied) =
      scan_slot_lem ms fuel a (pos + calc_stride m.size) (found_in m found)
        (any || msg_type m.msgid == msg_data) u (omega (arith, h)) behind in
    let address : slot_address (u.slot_queue (a % 64)) ≡ slot_address (s.slot_queue (a % 64)) =
      ap (λ q. slot_address (q (a % 64))) l.kept.queue_lem in
    (
      r,
      scan_slot_step (suc fuel) (slot_address (s.slot_queue (a % 64))) pos found any m s here
            (omega (arith, far, low)) (omega (arith, far))
          ∙ ap
              (λ x.
                scan_slot (suc fuel) x (pos + calc_stride m.size) (found_in m found)
                  (any || msg_type m.msgid == msg_data) u)
              (sym address)
          ∙ run,
      record {
        kept = record {
          memory_lem = emptied.kept.memory_lem ∙ l.kept.memory_lem;
          queue_lem = emptied.kept.queue_lem ∙ l.kept.queue_lem;
          available = emptied.kept.available ∙ l.kept.available;
          event = emptied.kept.event ∙ l.kept.event;
        };
        count = λ i. omega (arith, emptied.count i, l.count i);
      },
    )
