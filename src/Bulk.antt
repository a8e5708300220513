-- ===== src/Bulk.antt =====
-- ampi/vc4/vchiq/vchiq_core.c and vchiq_core.h: the queues of bulk transfers of a service.
pub mod Notify
pub mod Process
pub mod Abort
pub mod Done
mod Tests
use ampi.Base.{
  ℕ, zero, suc, ◌+◌, ◌-◌, ◌*◌, ◌/◌, ◌%◌, ◌^◌, Bool, true, false, not, ◌==◌, ltb, ◌&&◌, ◌||◌,
  if◌then◌else◌, Option, none, some, List,
}
use Prim.Native.Nat.{bit_and, bit_or}
use ampi.Base.Words.{word, add32, sub32}
use ampi.Wait.{Task, pure, lift, modify, ◌>>=◌, ◌>>◌}
use ampi.Sync.{Cell}
use ampi.Sync.Mutex.{mutex_lock, mutex_unlock}
use ampi.Slots.{make_msg}
use ampi.Slots.Send.{Status, success, error, retry}

-- `VCHIQ_NUM_SERVICE_BULKS`
abbrev pub num_service_bulks : ℕ
num_service_bulks = 4

-- `VCHIQ_BULK_ACTUAL_ABORTED`, which is -1
abbrev pub actual_aborted : ℕ
actual_aborted = word - 1

-- `VCHIQ_BULK_MODE_T`
pub data Mode : Type 0 where
  callback blocking no_callback waiting : Mode

-- `VCHIQ_BULK_DIR_T`
pub data Direction : Type 0 where
  transmit receive : Direction

-- The reasons of a callback for a bulk transfer, of `VCHIQ_REASON_T`
pub data BulkReason : Type 0 where
  transmit_done receive_done transmit_aborted receive_aborted : BulkReason

-- `VCHIQ_BULK_T`; the address 0 is `NULL`.
pub record Bulk : Type 0 where
  pub mode : Mode
  pub dir : Direction
  pub userdata : ℕ
  pub local_data : ℕ
  pub size : ℕ
  pub remote_data : ℕ
  pub remote_size : ℕ
  pub actual : ℕ

-- `VCHIQ_BULK_QUEUE_T`
pub record BulkQueue : Type 0 where
  pub local_insert : ℕ
  pub remote_insert : ℕ
  pub process : ℕ
  pub remote_notify : ℕ
  pub remove : ℕ
  pub bulks : ℕ → Bulk

-- `BULK_INDEX`
unfoldable pub bulk_index : ℕ → ℕ
bulk_index x = bit_and x (num_service_bulks - 1)

abbrev pub bulk_at : BulkQueue → ℕ → Bulk
bulk_at q x = q.bulks (bulk_index x)

unfoldable pub set_bulk : ℕ → Bulk → BulkQueue → BulkQueue
set_bulk x b q = record q { bulks = λ i. if i == bulk_index x then b else q.bulks i }

-- `init_bulk_queue`
unfoldable pub init_bulk_queue : BulkQueue → BulkQueue
init_bulk_queue q = record q {
  local_insert = 0;
  remote_insert = 0;
  process = 0;
  remote_notify = 0;
  remove = 0;
}

-- What `request_poll` changes: the flags of the service and of its group, and `poll_needed`.
-- `triggers` counts the signals to the slot handler.
pub record Poll : Type 0 where
  pub poll_flags : ℕ
  pub poll_services : ℕ
  pub poll_needed : Bool
  pub triggers : ℕ

-- `request_poll`, for the service at a port or for none. Nothing comes between a read and its
-- `atomic_cmpxchg`, so these succeed at once.
unfoldable pub request_poll : Option ℕ → ℕ → Poll → Poll
request_poll none poll_type p = record p { poll_needed = true; triggers = suc p.triggers }
request_poll (some localport) poll_type p = record {
  poll_flags = bit_or p.poll_flags (2 ^ poll_type);
  poll_services = bit_or p.poll_services (2 ^ bit_and localport 0x1f);
  poll_needed = true;
  triggers = suc p.triggers;
}

-- `VCHIQ_POLL_TXNOTIFY` and `VCHIQ_POLL_RXNOTIFY`
abbrev pub poll_notify : Direction → ℕ
poll_notify transmit = 2
poll_notify receive = 3

-- One bulk queue of a service, that for `side`, with what the code uses of the service. `client` is the
-- rest of the state; `warnings` counts the assertions that failed.
pub record Bulks (C : Type 0) : Type 0 where
  pub queue : BulkQueue
  pub bulk_remove_event : ℕ
  pub bulk_mutex : ℕ
  pub poll : Poll
  pub deferred_bulks : ℕ
  pub warnings : ℕ
  pub client : C

-- The service and what is called: `call` is the callback of the service, `send` is `queue_message` for
-- a reply with its message identifier and its one number, `wake` sets `actual` of a waiter and wakes
-- it, `transfer` is `vchiq_transfer_bulk` and `complete` is `vchiq_complete_bulk`.
pub record Calls (C : Type 0) : Type 0 where
  pub is_master : Bool
  pub has_instance : Bool
  pub side : Direction
  pub localport : ℕ
  pub remoteport : ℕ
  pub call : BulkReason → ℕ → C → Status × C
  pub send : ℕ → ℕ → C → Status × C
  pub wake : ℕ → ℕ → C → C
  pub transfer : Bulk → C → Bulk × C
  pub complete : Bulk → C → C

unfoldable pub reason_of : Bulk → BulkReason
reason_of b = elim b.dir [
  | transmit ↦ if b.actual == actual_aborted then transmit_aborted else transmit_done
  | receive ↦ if b.actual == actual_aborted then receive_aborted else receive_done
]

-- The type of the reply for a bulk, `VCHIQ_MSG_BULK_RX_DONE` or `VCHIQ_MSG_BULK_TX_DONE`
abbrev pub done_type : Direction → ℕ
done_type transmit = 8
done_type receive = 9

-- An error of the callback is ignored.
unfoldable pub ignore_error : Status → Status
ignore_error success = success
ignore_error error = success
ignore_error retry = retry

module _ {C : Type 0} where
  abbrev pub mutex_cell : Cell (Bulks C)
  mutex_cell = record { get = λ s. s.bulk_mutex; put = λ n s. record s { bulk_mutex = n } }

  -- `make_service_callback`
  unfoldable pub make_service_callback : Calls C → BulkReason → ℕ → C → Status × C
  make_service_callback k reason userdata c =
      let (status, d) = k.call reason userdata c in (ignore_error status, d)

  -- What the client is told of a bulk that has data depends on its mode.
  unfoldable pub tell : Calls C → Bulk → C → Mode → Status × C
  tell k b c callback = make_service_callback k (reason_of b) b.userdata c
  tell k b c blocking = (success, if b.userdata == 0 then c else k.wake b.userdata b.actual c)
  tell k b c no_callback = (success, c)
  tell k b c waiting = (success, c)

  -- A dummy bulk, and any bulk of a service without an instance, is passed over.
  unfoldable pub report : Calls C → Bulk → C → Status × C
  report k b c =
      if not (b.local_data == 0) && k.has_instance then tell k b c b.mode else (success, c)

  -- The second loop of `notify_bulks`
  unfoldable pub report_bulks : Calls C → ℕ → Bulks C → Option (Status × Bulks C)
  report_bulks k zero s = none
  report_bulks k (suc fuel) s =
      let q = s.queue in
      let (status, c) = report k (bulk_at q q.remove) s.client in
      let next = report_bulks k fuel (record s {
        queue = record q { remove = add32 q.remove 1 };
        bulk_remove_event = s.bulk_remove_event + 1;
        client = c;
      }) in
      let reported : Option (Status × Bulks C) = elim status [
        | success ↦ next
        | error ↦ next
        | retry ↦ some (retry, record s { client = c })
      ] in
      if q.remove == q.remote_notify then some (success, s) else reported

  -- The first loop of `notify_bulks`, of the master: the other side is told of the bulks it asked for.
  unfoldable pub reply_bulks : Calls C → ℕ → Bulks C → Option (Status × Bulks C)
  reply_bulks k zero s = none
  reply_bulks k (suc fuel) s =
      let q = s.queue in
      let b = bulk_at q q.remote_notify in
      let msgid = make_msg (done_type b.dir) k.localport k.remoteport in
      let (status, c) =
        if b.remote_data == 0 then (success, s.client) else k.send msgid b.actual s.client in
      let next =
        reply_bulks k fuel
          (record s { queue = record q { remote_notify = add32 q.remote_notify 1 }; client = c }) in
      let sent : Option (Status × Bulks C) = elim status [
        | success ↦ next
        | error ↦ some (error, record s { client = c })
        | retry ↦ some (retry, record s { client = c })
      ] in
      if q.remote_notify == q.process then some (success, s) else sent

  -- The end of `notify_bulks`
  abbrev pub poll_on_retry : Calls C → Status × Bulks C → Status × Bulks C
  poll_on_retry k (retry, s) =
      (retry, record s { poll = request_poll (some k.localport) (poll_notify k.side) s.poll })
  poll_on_retry k (status, s) = (status, s)

  -- The status of the second loop counts only if `retry_poll` is set.
  abbrev pub kept_status : Bool → Status × Bulks C → Status × Bulks C
  kept_status true r = r
  kept_status false r = (success, r.1)

  abbrev pub report_replied :
      Calls C → ℕ → Bool → Option (Status × Bulks C) → Option (Status × Bulks C)
  report_replied k fuel retry_poll none = none
  report_replied k fuel retry_poll (some (success, s)) = elim (report_bulks k fuel s) [
    | none ↦ none
    | some r ↦ some (poll_on_retry k (kept_status retry_poll r))
  ]
  report_replied k fuel retry_poll (some r) = some (poll_on_retry k r)

  -- `notify_bulks`. `none` says that the fuel is spent.
  unfoldable pub notify_bulks : Calls C → ℕ → Bool → Bulks C → Option (Status × Bulks C)
  notify_bulks k fuel retry_poll s =
      let q = s.queue in
      let noted = record s { queue = record q { remote_notify = q.process } } in
      report_replied k fuel retry_poll
        (if k.is_master then reply_bulks k fuel s else some (success, noted))
