-- ===== src/Slots/Send.antt =====
-- ampi/vc4/vchiq/vchiq_core.c: `reserve_space` and `queue_message`.
pub mod Reserve
pub mod Message
use ampi.Base.{
  ℕ, zero, suc, ◌+◌, ◌-◌, ◌*◌, ◌/◌, ◌%◌, ◌^◌, Bool, true, false, not, ◌==◌, ltb, ◌&&◌, ◌||◌,
  if◌then◌else◌, Option, none, some, List, [], ◌∷◌, ◌++◌,
}
use ampi.Base.Words.{add32, sub32}
use ampi.Wait.{Task, pure, ◌>>=◌, ◌>>◌, lift, modify}
use ampi.Sync.{Cell}
use ampi.Sync.Semaphore.{down, up, down_trylock}
use ampi.Sync.Mutex.{mutex_lock, mutex_unlock}
use ampi.Services.{Quota, is_opened, close_sent}
use ampi.Services.Add.{set_service_state}
use ampi.Slots.{
  Sender, Slotted, slot_size, header_size, msgid_padding, msg_data, msg_close, msg_type,
  calc_stride, offset, index_of, slot_address, slot_at, write_at, available_cell, mutex_cell,
  data_quota_cell,
}

-- `remote_event_signal(&state->remote->trigger)`
abbrev pub signal : Sender → Sender
signal s = record s { signals = suc s.signals }

-- The start of `reserve_space`: the rest of the slot is filled with padding if the message does not
-- fit. The result is the position behind the padding.
unfoldable pub pad : ℕ → Sender → ℕ × Sender
pad space s =
    let pos = s.local_tx_pos in
    let slot_space = slot_size - offset pos in
    let address = s.tx_data + offset pos in
    let filler = record (s.memory address) {
      msgid = msgid_padding;
      size = sub32 slot_space header_size;
    } in
    if ltb slot_space space then (add32 pos slot_space, write_at address filler s) else (pos, s)

-- The position is made known to the other side before the wait for a slot.
abbrev pub flush : ℕ → Sender → Sender
flush pos s = signal (record s { local_tx_pos = pos; tx_pos = pos })

abbrev pub wait_slot : Bool → Task Sender Bool
wait_slot true = down available_cell >> pure true
wait_slot false = pure false

abbrev pub stall : Bool → ℕ → ℕ → Task Sender Bool
stall blocking pos zero = pure true
stall blocking pos (suc r) = modify (flush pos) >> wait_slot blocking

-- A slot is taken, if need be after a wait; false says that there is none.
unfoldable pub take_slot : Bool → ℕ → Task Sender Bool
take_slot blocking pos = lift (down_trylock available_cell) >>= stall blocking pos

-- The new slot, with the `BUG_ON` in front.
unfoldable pub open_slot : ℕ → Sender → Sender
open_slot pos s = record s {
  bugs = if pos == s.slot_queue_available * slot_size then suc s.bugs else s.bugs;
  tx_data = slot_address (slot_at s.slot_queue pos);
}

-- The end of `reserve_space`: the address of the header.
abbrev pub reserved : ℕ → ℕ → Sender → Option ℕ × Sender
reserved pos space s = (some (s.tx_data + offset pos), record s { local_tx_pos = add32 pos space })

abbrev pub in_new_slot : ℕ → ℕ → Bool → Task Sender (Option ℕ)
in_new_slot pos space true = lift (λ s. reserved pos space (open_slot pos s))
in_new_slot pos space false = pure none

abbrev pub at_position : Bool → ℕ → ℕ → Bool → Task Sender (Option ℕ)
at_position blocking pos space true = take_slot blocking pos >>= in_new_slot pos space
at_position blocking pos space false = lift (reserved pos space)

-- `reserve_space`: the address of the header, or `none` if there is no space.
unfoldable pub reserve_space : ℕ → Bool → Task Sender (Option ℕ)
reserve_space space blocking =
    lift (pad space) >>= λ pos. at_position blocking pos space (offset pos == 0)

-- `VCHIQ_STATUS_T`
pub data Status : Type 0 where
  success error retry : Status

-- `QMFLAGS_NO_MUTEX_LOCK`, `QMFLAGS_NO_MUTEX_UNLOCK` and `QMFLAGS_IS_BLOCKING`
pub record Flags : Type 0 where
  pub no_mutex_lock : Bool
  pub no_mutex_unlock : Bool
  pub is_blocking : Bool

abbrev pub quota_cell : ℕ → Cell Sender
quota_cell port = record {
  get = λ s. (s.quotas port).quota_event;
  put = λ n s. record s {
    quotas = λ i. if i == port then record (s.quotas port) { quota_event = n } else s.quotas i;
  };
}

-- The slot in which a message of `stride` bytes would end.
abbrev pub end_index : ℕ → Sender → ℕ
end_index stride s = index_of (sub32 (add32 s.local_tx_pos stride) 1)

-- The conditions of the two loops that wait for quota.
unfoldable pub data_stalls : ℕ → Sender → Bool
data_stalls stride s =
    not (end_index stride s == s.previous_data_index) && s.data_use_count == s.data_quota

unfoldable pub service_stalls : ℕ → ℕ → Sender → Bool
service_stalls port stride s =
    let q = s.quotas port in
    q.message_use_count == q.message_quota
    || not (end_index stride s == q.previous_tx_index) && q.slot_use_count == q.slot_quota

-- What ends the first loop after a wait.
abbrev pub data_passes : ℕ → Sender → Bool
data_passes stride s =
    end_index stride s == s.previous_data_index || ltb s.data_use_count s.data_quota

-- The loop that keeps data messages within their quota of slots. `none` says that the task still
-- waits, or that the fuel is spent.
unfoldable pub wait_data : ℕ → ℕ → Task Sender (Unit {0})
wait_data zero stride s env = none
wait_data (suc fuel) stride s env =
    let again =
      (modify (mutex_unlock mutex_cell)
          >> down data_quota_cell
          >> mutex_lock mutex_cell
          >> λ t rest.
              let next = wait_data fuel stride t rest in
              if data_passes stride t then some (tt, up data_quota_cell t, rest) else next)
        s env in
    if data_stalls stride s then again else some (tt, s, env)

-- The loop that keeps a service within its quotas of messages and slots.
unfoldable pub wait_service : ℕ → ℕ → ℕ → Task Sender Status
wait_service zero port stride s env = none
wait_service (suc fuel) port stride s env =
    let again =
      (modify (mutex_unlock mutex_cell) >> down (quota_cell port) >> λ t rest.
      let locked =
        (mutex_lock mutex_cell >> λ u rest'.
        let next = wait_service fuel port stride u rest' in
        if is_opened (u.services port).srvstate
        then next
        else some (error, mutex_unlock mutex_cell u, rest'))
          t rest in
      if t.closing port then some (error, t, rest) else locked)
        s env in
    if service_stalls port stride s then again else some (success, s, env)

-- The elements of a data message, one behind the other; `none` is an element that cannot be copied.
unfoldable pub copy_elements : List (Option (List ℕ)) → Option (List ℕ)
copy_elements [] = some []
copy_elements (none ∷ es) = none
copy_elements (some e ∷ es) = elim (copy_elements es) [ none ↦ none | some rest ↦ some (e ++ rest) ]

-- The first element, which is all that other messages have.
unfoldable pub first_element : ℕ → List (Option (List ℕ)) → List ℕ → List ℕ
first_element size [] old = old
first_element size (none ∷ es) old = old
first_element size (some e ∷ es) old = if size == 0 then old else e

-- The counts behind the copy of a data message. They are `unsigned short`.
unfoldable pub count_data : ℕ → Sender → Sender
count_data port s =
    let q = s.quotas port in
    let index = index_of (sub32 s.local_tx_pos 1) in
    let same = index == s.previous_data_index in
    let same_slot = index == q.previous_tx_index in
    let counted = record q {
      message_use_count = (q.message_use_count + 1) % 2 ^ 16;
      previous_tx_index = index;
      slot_use_count = if same_slot then q.slot_use_count else (q.slot_use_count + 1) % 2 ^ 16;
    } in
    record s {
      previous_data_index = index;
      data_use_count = if same then s.data_use_count else (s.data_use_count + 1) % 2 ^ 16;
      quotas = λ i. if i == port then counted else s.quotas i;
    }

abbrev pub unlock_unless : Bool → Sender → Sender
unlock_unless flag s = if flag then s else mutex_unlock mutex_cell s

abbrev pub lock_unless : Bool → Task Sender (Unit {0})
lock_unless true = pure tt
lock_unless false = mutex_lock mutex_cell

-- A service that has sent CLOSE changes its state.
abbrev pub mark_sent : Option ℕ → ℕ → Sender → Sender
mark_sent none type s = s
mark_sent (some port) type s =
    if type == msg_close
    then record s {
      services =
          λ i. if i == port then set_service_state close_sent (s.services port) else s.services i;
    }
    else s

-- The end of `queue_message`: the header is written, and the position is made known.
unfoldable pub publish : Option ℕ → ℕ → ℕ → Flags → ℕ → List ℕ → Sender → Sender
publish service msgid size flags address body s =
    let written = write_at address (record { msgid = msgid; size = size; body = body }) s in
    signal (
      unlock_unless flags.no_mutex_unlock
        (mark_sent service (msg_type msgid) (record written { tx_pos = s.local_tx_pos })))

-- `queue_message` for other messages than data, once there is space.
unfoldable pub fill :
    Option ℕ → ℕ → List (Option (List ℕ)) → ℕ → Flags → Option ℕ → Sender → Status × Sender
fill service msgid elements size flags none s = (retry, unlock_unless flags.no_mutex_lock s)
fill service msgid elements size flags (some address) s =
    let body = first_element size elements (s.memory address).body in
    (success, publish service msgid size flags address body s)

-- The same for a data message.
unfoldable pub fill_data :
    ℕ → ℕ → List (Option (List ℕ)) → ℕ → Flags → Option ℕ → Sender → Status × Sender
fill_data port msgid elements size flags none s = (retry, unlock_unless flags.no_mutex_lock s)
fill_data port msgid elements size flags (some address) s = elim (copy_elements elements) [
  | none ↦ (error, mutex_unlock mutex_cell s)
  | some body ↦ (success, publish (some port) msgid size flags address body (count_data port s))
]

abbrev pub after_quota : ℕ → ℕ → List (Option (List ℕ)) → ℕ → Flags → Status → Task Sender Status
after_quota port msgid elements size flags success =
    reserve_space (calc_stride size) flags.is_blocking >>= λ r.
    lift (fill_data port msgid elements size flags r)
after_quota port msgid elements size flags _ = pure error

-- The part of `queue_message` for data messages, with the mutex held.
unfoldable pub queue_data : ℕ → ℕ → ℕ → List (Option (List ℕ)) → ℕ → Flags → Task Sender Status
queue_data fuel port msgid elements size flags s env =
    let stride = calc_stride size in
    let sent =
      (wait_data fuel stride
          >> wait_service fuel port stride
          >>= after_quota port msgid elements size flags)
        s env in
    if s.closing port then some (error, mutex_unlock mutex_cell s, env) else sent

abbrev pub queue_kind :
    ℕ → Option ℕ → ℕ → List (Option (List ℕ)) → ℕ → Flags → Bool → Task Sender Status
queue_kind fuel (some port) msgid elements size flags true =
    queue_data fuel port msgid elements size flags
queue_kind fuel service msgid elements size flags _ =
    reserve_space (calc_stride size) flags.is_blocking >>= λ r.
    lift (fill service msgid elements size flags r)

-- `queue_message`. A data message always has a service, and takes the mutex.
unfoldable pub queue_message :
    ℕ → Option ℕ → ℕ → List (Option (List ℕ)) → ℕ → Flags → Task Sender Status
queue_message fuel service msgid elements size flags =
    lock_unless flags.no_mutex_lock
    >> queue_kind fuel service msgid elements size flags (msg_type msgid == msg_data)
