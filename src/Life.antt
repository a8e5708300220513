-- ===== src/Life.antt =====
-- ampi/vc4/vchiq/vchiq_core.c: how a service is closed, by either side, and given up.
pub mod Close
pub mod Diagram
pub mod Complete
pub mod Follow
pub mod Handler
pub mod Open
pub mod User
mod Tests
use ampi.Base.{
  ℕ, zero, suc, Bool, true, false, not, ◌==◌, ◌&&◌, ◌||◌, if◌then◌else◌, Option, none, some,
}
use mathlib.Core.Option
use ampi.Sync.{Cell}
use ampi.Sync.Semaphore.{up}
use ampi.Sync.Mutex.{mutex_unlock}
use ampi.Slots.{make_msg, msg_dstport, msg_close}
use ampi.Slots.Send.{Status, success, error, retry}
use ampi.Bulk.{Direction, transmit, receive, ignore_error}
use ampi.Services.{
  Service, ServiceState, Services, Quota, put, port_free, unlock_service, free, hidden, listening,
  opening, opened, open_sync, close_sent, close_received, close_wait, closed,
}
use ampi.Services.Add.{set_service_state}

-- What `request_poll` changes: the flags of each service, a bit for each service in the groups of 32,
-- `poll_needed`, and the number of signals to the slot handler.
pub record Polls : Type 0 where
  pub poll_flags : ℕ → ℕ
  pub poll_services : ℕ → ℕ
  pub poll_needed : Bool
  pub triggers : ℕ

-- The state as far as the life of its services changes it: their table, the mutexes that are taken
-- when a service changes its state, the requests to the slot handler, the errors that the closing and an OPENACK log, and in `client` what the other
-- parts and the users of the services keep.
pub record Life (C : Type 0) : Type 0 where
  pub table : Services
  pub slot_mutex : ℕ
  pub sync_mutex : ℕ
  pub recycle_mutex : ℕ
  pub polls : Polls
  pub errors : ℕ
  pub client : C

-- The other parts and the users, for the service at a port. `callback` is its callback for
-- `VCHIQ_SERVICE_CLOSED`, `send` is what `queue_message` does to send a CLOSE, but for the state of the
-- service and the mutex, `lock_bulks` says whether the mutex of the bulk queues is taken, `abort` and
-- `notify` are `abort_outstanding_bulks` and `notify_bulks`, `release_messages` is
-- `release_service_messages`, `use_count` is `service_use_count`, and `release_use` is
-- `vchiq_release_service_internal`. None of them changes the table.
pub record Calls (C : Type 0) : Type 0 where
  pub is_master : Bool
  pub callback : ℕ → C → Status × C
  pub send : ℕ → ℕ → C → Status × C
  pub lock_bulks : ℕ → C → Bool × C
  pub abort : Direction → ℕ → C → C
  pub unlock_bulks : ℕ → C → C
  pub notify : Direction → ℕ → C → Status × C
  pub release_messages : ℕ → C → C
  pub use_count : ℕ → C → ℕ
  pub release_use : ℕ → C → C

abbrev pub remove_cell : Cell Service
remove_cell = record { get = λ v. v.remove_event; put = λ n v. record v { remove_event = n } }

-- `public_fourcc != VCHIQ_FOURCC_INVALID`
abbrev pub is_server : Service → Bool
is_server v = not (v.public_fourcc == 0)

-- The service has no client any more.
unfoldable pub forget_client : Service → Service
forget_client v = record v { client_id = 0; remoteport = port_free }

-- The state after the close, in `close_service_complete`.
unfoldable pub target : Service → ServiceState
target v = if is_server v then (if v.auto_close then listening else close_wait) else closed

unfoldable pub to_target : Service → Service
to_target v =
    let w = set_service_state (target v) v in
    if is_server v && v.auto_close then forget_client w else w

-- The switch of `close_service_complete`; `none` is an unexpected state.
unfoldable pub complete_state : ServiceState → Service → Option Service
complete_state opened v = some (to_target v)
complete_state close_sent v = some (to_target v)
complete_state close_received v = some (to_target v)
complete_state listening v = some v
complete_state _ v = none

-- The states in which `vchiq_free_service_internal` frees a service.
abbrev pub is_freeable : ServiceState → Bool
is_freeable opening = true
is_freeable closed = true
is_freeable hidden = true
is_freeable listening = true
is_freeable close_wait = true
is_freeable _ = false

-- `vchiq_free_service_internal` on the table. `none` stands for a failed check.
unfoldable pub free_service : ℕ → Service → Services → Option Services
free_service port v s =
    let released =
      unlock_service port (put port (some (up remove_cell (set_service_state free v))) s) in
    if is_freeable v.srvstate then released else some s

-- A CLOSE that `queue_message` has sent gives the service another state.
unfoldable pub sent_close : Status → Service → Service
sent_close success v = set_service_state close_sent v
sent_close _ v = v

module _ {C : Type 0} where
  abbrev pub slot_cell : Cell (Life C)
  slot_cell = record { get = λ m. m.slot_mutex; put = λ n m. record m { slot_mutex = n } }

  abbrev pub sync_cell : Cell (Life C)
  sync_cell = record { get = λ m. m.sync_mutex; put = λ n m. record m { sync_mutex = n } }

  abbrev pub put_service : ℕ → Service → Life C → Life C
  put_service port v m = record m { table = put port (some v) m.table }

  abbrev pub freed : ℕ → Service → Life C → Option (Life C)
  freed port v m = Option.map (λ t. record m { table = t }) (free_service port v m.table)

  -- `do_abort_bulks`
  unfoldable pub do_abort_bulks : Calls C → ℕ → C → Bool × C
  do_abort_bulks k port c =
      let (locked, c1) = k.lock_bulks port c in
      let c2 = k.unlock_bulks port (k.abort receive port (k.abort transmit port c1)) in
      let (sent, c3) = k.notify transmit port c2 in
      let (received, c4) = k.notify receive port c3 in
      let both : Bool × C = elim sent [
        | success ↦ (elim received [ success ↦ true | error ↦ false | retry ↦ false ], c4)
        | error ↦ (false, c3)
        | retry ↦ (false, c3)
      ] in
      if locked then both else (false, c1)

  -- `for (i = 0; i < uc; i++) vchiq_release_service_internal(service)`
  unfoldable pub release_uses : Calls C → ℕ → ℕ → C → C
  release_uses k zero port c = c
  release_uses k (suc uc) port c = release_uses k uc port (k.release_use port c)

  -- The end of `close_service_complete` for each state of the service behind the callback
  unfoldable pub settle : ServiceState → ℕ → Service → Life C → Option (Life C)
  settle closed port v m = freed port v m
  settle close_wait port v m = some (put_service port v m)
  settle _ port v m =
      let w = if is_server v then record v { closing = false } else v in
      some (put_service port (up remove_cell w) m)

  -- Behind the callback, with the status that `make_service_callback` returned.
  unfoldable pub complete_with :
      Calls C → Status → ℕ → ServiceState → Service → Life C → Option (Status × Life C)
  complete_with k retry port failstate v m =
      some (retry, put_service port (set_service_state failstate v) m)
  complete_with k status port failstate v m =
      let c = release_uses k (k.use_count port m.client) port m.client in
      Option.map (λ m'. (status, m'))
        (settle v.srvstate port (forget_client v) (record m { client = c }))

  -- `close_service_complete`
  unfoldable pub close_service_complete :
      Calls C → ℕ → ServiceState → Service → Life C → Option (Status × Life C)
  close_service_complete k port failstate v m = elim (complete_state v.srvstate v) [
    | none ↦ some (error, record m { errors = suc m.errors })
    | some w ↦
        let (status, c) = k.callback port m.client in
        complete_with k (ignore_error status) port failstate w (record m { client = c })
  ]

  -- `queue_message` for the CLOSE of a service
  unfoldable pub send_close : Calls C → ℕ → Service → C → Status × Service × C
  send_close k port v c =
      let msgid = make_msg msg_close v.localport (msg_dstport v.remoteport) in
      let (status, d) = k.send port msgid c in (status, sent_close status v, d)
