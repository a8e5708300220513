-- ===== src/Life/User.antt =====
-- ampi/vc4/vchiq/vchiq_core.c: how threads open, close and remove services, and how the slot handler
-- takes the answers of the other side.
pub mod Waiting
use ampi.Base.{
  ℕ, zero, suc, ◌/◌, ◌^◌, Bool, true, false, not, ◌==◌, ◌&&◌, ◌||◌, if◌then◌else◌, Option, none,
  some, List,
}
use mathlib.Core.Option
use Prim.Native.Nat.{bit_and, bit_or}
use ampi.Wait.{Task, pure, lift, modify, ◌>>=◌, ◌>>◌}
use ampi.Sync.{Cell}
use ampi.Sync.Semaphore.{down, up}
use ampi.Sync.Mutex.{mutex_lock, mutex_unlock}
use ampi.Slots.Send.{Status, success, error, retry}
use ampi.Services.{
  Service, ServiceState, Services, Quota, put, is_free, is_listening, is_opened, is_opening,
  unlock_service, find_service_by_handle, free, hidden, listening, opening, opened, open_sync,
  close_sent, close_received, close_wait, closed,
}
use ampi.Services.Add.{set_service_state}
use ampi.Life.{Life, Calls, Polls, slot_cell, sync_cell, remove_cell}
use ampi.Life.Close.{close_service_internal}
use ampi.Life.Open.{is_retry}

-- `VCHIQ_POLL_TERMINATE` and `VCHIQ_POLL_REMOVE`
abbrev pub poll_terminate : ℕ
poll_terminate = 0

abbrev pub poll_remove : ℕ
poll_remove = 1

-- `request_poll` for a service. Nothing comes between a read and its `atomic_cmpxchg`.
unfoldable pub request_poll_at : ℕ → ℕ → Polls → Polls
request_poll_at port poll_type p = record {
  poll_flags = λ i. if i == port then bit_or (p.poll_flags i) (2 ^ poll_type) else p.poll_flags i;
  poll_services = λ g.
      if g == port / 32
      then bit_or (p.poll_services g) (2 ^ bit_and port 0x1f)
      else p.poll_services g;
  poll_needed = true;
  triggers = suc p.triggers;
}

-- A service at a port, if there is one, is changed.
unfoldable pub change : ℕ → (Service → Service) → Services → Services
change port f s = put port (Option.map f (s.services port)) s

abbrev pub remove_count : Option Service → ℕ
remove_count none = 0
remove_count (some v) = v.remove_event

abbrev pub is_in : (ServiceState → Bool) → Option Service → Bool
is_in test none = false
is_in test (some v) = test v.srvstate

abbrev pub is_closed_state : ServiceState → Bool
is_closed_state free = true
is_closed_state listening = true
is_closed_state _ = false

abbrev pub is_hidden : ServiceState → Bool
is_hidden hidden = true
is_hidden _ = false

abbrev pub is_unusable : ServiceState → Bool
is_unusable a = is_closed_state a || is_hidden a

abbrev pub is_usable : ServiceState → Bool
is_usable opened = true
is_usable open_sync = true
is_usable _ = false

abbrev pub is_close_done : ServiceState → Bool
is_close_done a = is_closed_state a || is_opened a

abbrev pub is_remove_done : ServiceState → Bool
is_remove_done a = is_free a || is_opened a

module _ {C : Type 0} where
  abbrev pub recycle_cell : Cell (Life C)
  recycle_cell = record { get = λ m. m.recycle_mutex; put = λ n m. record m { recycle_mutex = n } }

  -- `remove_event` of the service at a port
  abbrev pub removed_cell : ℕ → Cell (Life C)
  removed_cell port = record {
    get = λ m. remove_count (m.table.services port);
    put = λ n m. record m { table = change port (λ v. record v { remove_event = n }) m.table };
  }

  abbrev pub quota_cell : ℕ → Cell (Life C)
  quota_cell port = record {
    get = λ m. (m.table.quotas port).quota_event;
    put = λ n m. record m {
      table = record (m.table) {
        quotas = λ i.
            if i == port then record (m.table.quotas i) { quota_event = n } else m.table.quotas i;
      };
    };
  }

  abbrev pub changed : ℕ → (Service → Service) → Life C → Life C
  changed port f m = record m { table = change port f m.table }

  -- The mutex is taken and given back, unless the slot handler holds it until it resumes.
  abbrev pub pass_slot_mutex : Bool → Task (Life C) (Unit {0})
  pass_slot_mutex true = pure tt
  pass_slot_mutex false = mutex_lock slot_cell >> modify (mutex_unlock slot_cell)

  -- `mark_service_closing_internal`; `held` says that the slot handler calls it with
  -- `VCHIQ_CONNSTATE_PAUSE_SENT`.
  unfoldable pub mark_service_closing : Bool → ℕ → Task (Life C) (Unit {0})
  mark_service_closing held port =
      modify (changed port (λ v. record v { closing = true }))
      >> mutex_lock recycle_cell
      >> modify (mutex_unlock recycle_cell)
      >> pass_slot_mutex held
      >> modify (up (quota_cell port))

  abbrev pub polled : ℕ → ℕ → Life C → Life C
  polled port poll_type m = record m { polls = request_poll_at port poll_type m.polls }

  -- `vchiq_terminate_service_internal`
  unfoldable pub terminate_service_internal : ℕ → Task (Life C) (Unit {0})
  terminate_service_internal port =
      mark_service_closing false port >> modify (polled port poll_remove)

  -- The loop that waits until the service is in one of the states. `none` says that the task still
  -- waits, or that the fuel is spent.
  unfoldable pub await_state : ℕ → (ServiceState → Bool) → ℕ → Task (Life C) (Unit {0})
  await_state zero test port m env = none
  await_state (suc fuel) test port m env =
      (down (removed_cell port) >> λ n rest.
      let again = await_state fuel test port n rest in
      if is_in test (n.table.services port) then some (tt, n, rest) else again)
        m env

  -- The status behind the wait, and the reference is given back. `none` stands for a failed check.
  unfoldable pub finish : (ServiceState → Bool) → ℕ → Status → Task (Life C) Status
  finish test port status m env =
      let status' : Status = elim status [
        | success ↦ if is_in test (m.table.services port) then success else error
        | error ↦ error
        | retry ↦ retry
      ] in
      elim (unlock_service port m.table) [
        | none ↦ none
        | some t ↦ some (status', record m { table = t }, env)
      ]

  -- The close: the slot handler does it itself, other threads ask it to. `none` stands for a failed check.
  unfoldable pub start_close : Calls C → Bool → ℕ → ℕ → Task (Life C) Status
  start_close k on_handler poll_type port m env =
      let run : Option (Status × Life C × List (Life C → Life C)) =
        elim (close_service_internal k false port m) [
          | none ↦ none
          | some (status, n) ↦ if is_retry status then none else some (status, n, env)
        ] in
      if on_handler then run else some (success, polled port poll_type m, env)

  -- A service that is found by its handle, with a reference taken; an unusable one is given back.
  unfoldable pub with_service :
      ℕ → (ServiceState → Bool) → (ℕ → Task (Life C) Status) → Task (Life C) Status
  with_service handle refuses f m env = elim (find_service_by_handle handle m.table) [
    | none ↦ none
    | some (r, t) ↦ elim r [
      | none ↦ some (error, record m { table = t }, env)
      | some port ↦
          let n = record m { table = t } in
          let refused : Option (Status × Life C × List (Life C → Life C)) =
            elim (unlock_service port t) [
              | none ↦ none
              | some u ↦ some (error, record m { table = u }, env)
            ] in
          let rest = f port n env in if is_in refuses (t.services port) then refused else rest
    ]
  ]

  -- `vchiq_close_service`; `on_handler` says that the slot handler calls it.
  unfoldable pub close_service : Calls C → ℕ → Bool → ℕ → Task (Life C) Status
  close_service k fuel on_handler handle = with_service handle is_unusable (λ port.
      mark_service_closing false port >> start_close k on_handler poll_terminate port >>= λ status.
      await_state fuel is_close_done port >> finish is_closed_state port status)

  -- A service that is removed at once is made to look like a client.
  unfoldable pub start_remove : Calls C → Bool → ℕ → Task (Life C) Status
  start_remove k on_handler port m env =
      let at_once = on_handler || is_in is_hidden (m.table.services port) in
      let client = changed port (λ v. record v { public_fourcc = 0 }) m in
      let now = start_close k true poll_remove port client env in
      if at_once then now else start_close k false poll_remove port m env

  -- `vchiq_remove_service`
  unfoldable pub remove_service : Calls C → ℕ → Bool → ℕ → Task (Life C) Status
  remove_service k fuel on_handler handle = with_service handle is_free (λ port.
      mark_service_closing false port >> start_remove k on_handler port >>= λ status.
      await_state fuel is_remove_done port >> finish is_free port status)

  -- `parse_rx_slots` for an OPENACK, the number `remoteport` of the other side
  unfoldable pub on_openack : ℕ → ℕ → Life C → Life C
  on_openack port remoteport m = elim (m.table.services port) [
    | none ↦ m
    | some v ↦
        let w = set_service_state opened (record v { remoteport = remoteport }) in
        if is_opening v.srvstate
        then record m { table = put port (some (up remove_cell w)) m.table }
        else record m { errors = suc m.errors }
  ]

  -- `parse_rx_slots` for a CLOSE; false says that the message is kept. `none` stands for a failed check,
  -- or a task that still waits.
  unfoldable pub on_close : Calls C → Bool → ℕ → Task (Life C) Bool
  on_close k held port = mark_service_closing held port >> λ m env.
      elim (close_service_internal k true port m) [
        | none ↦ none
        | some (status, n) ↦ some (not (is_retry status), n, env)
      ]

  -- Behind the OPEN: the wait for the answer
  unfoldable pub await_answer : Calls C → ℕ → Status → Task (Life C) Status
  await_answer k port success =
      down (removed_cell port)
      >> lift (λ m.
        let given_up = record m { client = k.release_use port m.client } in
        if is_in is_usable (m.table.services port) then (success, m) else (error, given_up))
  await_answer k port status = pure status

  -- `vchiq_open_service_internal`: `use_service` is `vchiq_use_service_internal`, and `send_open` is
  -- `queue_message` for the OPEN.
  unfoldable pub open_service_internal :
      Calls C → (ℕ → C → C) → (ℕ → C → Status × C) → ℕ → ℕ → Task (Life C) Status
  open_service_internal k use_service send_open client_id port =
      modify (λ m.
        changed port (λ v. record v { client_id = client_id })
          (record m { client = use_service port m.client }))
      >> lift (λ m. let (status, c) = send_open port m.client in (status, record m { client = c }))
      >>= await_answer k port
