-- ===== src/Life/Close.antt =====
-- ampi/vc4/vchiq/vchiq_core.c: `vchiq_close_service_internal`.
use ampi.Base.{ℕ, suc, Bool, true, false, not, ◌&&◌, ◌||◌, if◌then◌else◌, Option, none, some}
use mathlib.Core.Option
use ampi.Sync.Semaphore.{up}
use ampi.Sync.Mutex.{mutex_unlock}
use ampi.Slots.Send.{Status, success, error, retry}
use ampi.Services.{
  Service, ServiceState, free, hidden, listening, opening, opened, open_sync, close_sent,
  close_received, close_wait, closed,
}
use ampi.Services.Add.{set_service_state}
use ampi.Life.{
  Life, Calls, remove_cell, is_server, forget_client, slot_cell, sync_cell, put_service, freed,
  do_abort_bulks, close_service_complete, send_close,
}

abbrev pub is_open_sync : ServiceState → Bool
is_open_sync open_sync = true
is_open_sync _ = false

module _ {C : Type 0} where
  abbrev pub logged : Life C → Life C
  logged m = record m { errors = suc m.errors }

  -- A server that has no client: what comes of it, by its state
  unfoldable pub rest_server : ServiceState → ℕ → Service → Life C → Status × Life C
  rest_server listening port v m = (error, put_service port (up remove_cell v) m)
  rest_server close_wait port v m =
      (success, put_service port (up remove_cell (set_service_state listening (forget_client v))) m)
  rest_server _ port v m = (success, put_service port (up remove_cell (forget_client v)) m)

  -- In the states CLOSED, HIDDEN, LISTENING and CLOSEWAIT
  unfoldable pub close_idle : Bool → ℕ → Service → Life C → Option (Status × Life C)
  close_idle true port v m = some (success, logged m)
  close_idle false port v m =
      if is_server v
      then some (rest_server v.srvstate port v m)
      else Option.map (λ m'. (success, m')) (freed port v m)

  -- In the state OPENING
  unfoldable pub close_opening : Calls C → Bool → ℕ → Service → Life C → Status × Life C
  close_opening k true port v m =
      (success, put_service port (up remove_cell (set_service_state close_wait v)) m)
  close_opening k false port v m =
      let (status, w, c) = send_close k port v m.client in
      (status, put_service port w (record m { client = c }))

  -- The mutexes are given back; `sync_mutex` if the service is synchronous.
  abbrev pub unlock_both : Bool → Life C → Life C
  unlock_both sync m =
      let n = mutex_unlock slot_cell m in if sync then mutex_unlock sync_cell n else n

  -- Without a CLOSE the mutex that OPENSYNC has taken is given back.
  abbrev pub unlock_sync : Bool → Life C → Life C
  unlock_sync sync m = if sync then mutex_unlock sync_cell m else m

  -- In the states OPEN and OPENSYNC, once the CLOSE is sent or not. If it is, the mutex is still held.
  unfoldable pub after_send :
      Calls C → Status → Bool → ℕ → Service → Life C → Option (Status × Life C)
  after_send k success true port v m =
      let w = set_service_state close_received v in
      close_service_complete k port close_received w
        (unlock_both v.sync (put_service port w (record m { slot_mutex = 1 })))
  after_send k success false port v m =
      let w = set_service_state close_sent v in
      some (success, unlock_both v.sync (put_service port w (record m { slot_mutex = 1 })))
  after_send k status close_recvd port v m = some (status, unlock_sync (is_open_sync v.srvstate) m)

  -- The CLOSE is sent if the bulk transfers are aborted.
  unfoldable pub close_message : Calls C → Bool → ℕ → Service → C → Status × Service × C
  close_message k true port v c = send_close k port v c
  close_message k false port v c = (retry, v, c)

  -- In the states OPEN and OPENSYNC, with `sync_mutex` held in the second
  unfoldable pub close_open : Calls C → Bool → ℕ → Service → Life C → Option (Status × Life C)
  close_open k close_recvd port v m =
      let (aborted, c1) : Bool × C =
        if k.is_master || close_recvd then do_abort_bulks k port m.client else (true, m.client) in
      let (status, w, c2) = close_message k aborted port v (k.release_messages port c1) in
      after_send k status close_recvd port w (record m { client = c2 })

  -- In the state CLOSESENT, when the other side has closed too
  unfoldable pub confirm : Calls C → Bool → ℕ → Service → Life C → Option (Status × Life C)
  confirm k true port v m = close_service_complete k port close_received v m
  confirm k false port v m = some (retry, m)

  -- In the state CLOSESENT
  unfoldable pub close_closing : Calls C → Bool → ℕ → Service → Life C → Option (Status × Life C)
  close_closing k false port v m = some (success, m)
  close_closing k true port v m =
      let (aborted, c) : Bool × C =
        if k.is_master then (true, m.client) else do_abort_bulks k port m.client in
      confirm k aborted port v (record m { client = c })

  -- In the state CLOSERECVD; a server that is closed on this side is forced to listen.
  unfoldable pub close_answered : Calls C → Bool → ℕ → Service → Life C → Option (Status × Life C)
  close_answered k close_recvd port v m =
      let w = if not close_recvd && is_server v then set_service_state listening v else v in
      close_service_complete k port close_received w (put_service port w m)

  unfoldable pub close_in :
      ServiceState → Calls C → Bool → ℕ → Service → Life C → Option (Status × Life C)
  close_in free k close_recvd port v m = some (success, logged m)
  close_in closed k close_recvd port v m = close_idle close_recvd port v m
  close_in hidden k close_recvd port v m = close_idle close_recvd port v m
  close_in listening k close_recvd port v m = close_idle close_recvd port v m
  close_in close_wait k close_recvd port v m = close_idle close_recvd port v m
  close_in opening k close_recvd port v m = some (close_opening k close_recvd port v m)
  close_in open_sync k close_recvd port v m =
      close_open k close_recvd port v (record m { sync_mutex = 1 })
  close_in opened k close_recvd port v m = close_open k close_recvd port v m
  close_in close_sent k close_recvd port v m = close_closing k close_recvd port v m
  close_in close_received k close_recvd port v m = close_answered k close_recvd port v m

  -- `vchiq_close_service_internal`, for the service at a port. `none` stands for a failed check, or for
  -- a service that is not there.
  unfoldable pub close_service_internal : Calls C → Bool → ℕ → Life C → Option (Status × Life C)
  close_service_internal k close_recvd port m = elim (m.table.services port) [
    | none ↦ none
    | some v ↦ close_in v.srvstate k close_recvd port v m
  ]
