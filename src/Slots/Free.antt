-- ===== src/Slots/Free.antt =====
-- ampi/vc4/vchiq/vchiq_core.c: `process_free_queue`, which takes back the slots that the other side has
-- read, and what the messages in them have used of the quotas.
pub mod Counts
pub mod Scan
pub mod Return
use ampi.Base.{
  ℕ, zero, suc, ◌+◌, ◌-◌, ◌*◌, ◌/◌, ◌%◌, ◌^◌, Bool, true, false, not, ◌==◌, ltb, ◌&&◌, ◌||◌,
  if◌then◌else◌, Option, none, some,
}
use Prim.Native.Nat.{bit_and}
use ampi.Base.Words.{add32}
use ampi.Sync.Semaphore.{up}
use ampi.Services.{Quota}
use ampi.Slots.{
  Sender, Slotted, slot_size, header_size, max_slots_per_side, msg_data, msg_type, msg_srcport,
  calc_stride, slot_address, available_cell, data_quota_cell,
}
use ampi.Slots.Send.{quota_cell}

abbrev set_quota : ℕ → Quota → Sender → Sender
set_quota port q s = record s { quotas = λ i. if i == port then q else s.quotas i }

abbrev warn : Sender → Sender
warn s = record s { bugs = suc s.bugs }

-- A data message of the service at `port` does not count any more.
unfoldable pub free_message : ℕ → Sender → Sender
free_message port s =
    let q = s.quotas port in
    let count = q.message_use_count in
    let freed = set_quota port (record q { message_use_count = count - 1 }) s in
    if count == q.message_quota
    then up (quota_cell port) freed
    else if count == 0
    then warn freed
    else freed

-- Nor does the slot, for the first of the messages of that service in it.
unfoldable pub free_use : ℕ → Sender → Sender
free_use port s =
    let q = s.quotas port in
    let count = q.slot_use_count in
    let freed = set_quota port (record q { slot_use_count = count - 1 }) s in
    if ltb 0 count then up (quota_cell port) freed else warn freed

-- One data message; `found` is the set of services that have used the slot.
unfoldable pub free_data : ℕ → (ℕ → Bool) → Sender → Sender
free_data port found s =
    let freed = free_message port s in if found port then freed else free_use port freed

-- The loop over the messages in the slot at `address`. The result says if there were data messages;
-- `none` says that the fuel is spent.
unfoldable pub scan_slot : ℕ → ℕ → ℕ → (ℕ → Bool) → Bool → Sender → Option (Bool × Sender)
scan_slot zero address pos found any s = none
scan_slot (suc fuel) address pos found any s =
    let m = s.memory (address + pos) in
    let port = msg_srcport m.msgid in
    let is_data = msg_type m.msgid == msg_data in
    let freed = if is_data then free_data port found s else s in
    let found' : ℕ → Bool = λ i. if is_data && i == port then true else found i in
    let next = add32 pos (calc_stride m.size) in
    let checked = if ltb slot_size next then warn freed else freed in
    let rest = scan_slot fuel address next found' (any || is_data) checked in
    if ltb pos slot_size then rest else some (any, s)

-- A slot with data messages does not count for all of them.
unfoldable pub free_slot : Bool → Sender → Sender
free_slot any s =
    let freed = record s { data_use_count = s.data_use_count - 1 } in
    if any then if s.data_use_count == s.data_quota then up data_quota_cell freed else freed else s

-- The rounds for one slot: each message takes a header at least.
abbrev pub slot_rounds : ℕ
slot_rounds = slot_size / header_size + 1

-- `process_free_queue`, up to the index `recycle`. The other side writes that, and does not change it
-- in between.
unfoldable pub process_free_queue : ℕ → ℕ → Sender → Option Sender
process_free_queue zero recycle s = none
process_free_queue (suc fuel) recycle s =
    let index = s.slot_queue (bit_and s.slot_queue_available (max_slots_per_side - 1)) in
    let next = add32 s.slot_queue_available 1 in
    let rest : Option Sender =
      elim (scan_slot slot_rounds (slot_address index) 0 (λ i. false) false s) [
        | none ↦ none
        | some (any, t) ↦
            process_free_queue fuel recycle
              (up available_cell (record (free_slot any t) { slot_queue_available = next }))
      ] in
    if s.slot_queue_available == recycle then some s else rest
