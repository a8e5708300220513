-- ===== src/Connection.antt =====
-- ampi/vc4/vchiq/vchiq_core.c: the state of the connection, and how one side pauses and resumes it.
mod Diagram
mod Locks
mod Sending
mod Held
mod Tests
use ampi.Base.{
  ℕ, zero, suc, ◌+◌, Bool, true, false, not, ◌==◌, if◌then◌else◌, Option, none, some, List,
}
use ampi.Wait.{Task, pure, lift, modify, ◌>>=◌, ◌>>◌}
use ampi.Sync.{Cell}
use ampi.Sync.Mutex.{mutex_lock, mutex_unlock}
use ampi.Slots.Send.{Status, success, error, retry}
use ampi.Bulk.{Direction, transmit, receive, Poll, request_poll}

-- `VCHIQ_CONNSTATE_T`
pub data ConnState : Type 0 where
  disconnected connecting connected pausing pause_sent paused resuming pause_timeout
        resume_timeout :
      ConnState

-- The messages that pause and resume, which have no port and no data
pub data Control : Type 0 where
  pause_message resume_message : Control

-- A round of the slot handler, its two messages, and the two calls of a thread
pub data Occurrence : Type 0 where
  polled pause_received resume_received pause_asked resume_asked : Occurrence

-- What the code uses of `VCHIQ_STATE_T`, with the global `pause_bulks_count` and with `first_connect` of
-- the state for ARM. `client` is the rest of the state; `warnings` counts the assertions that failed.
pub record CoreState (C : Type 0) : Type 0 where
  pub conn_state : ConnState
  pub slot_mutex : ℕ
  pub bulk_transfer_mutex : ℕ
  pub bulk_mutex : ℕ → ℕ
  pub pause_bulks_count : ℕ
  pub deferred_bulks : ℕ
  pub unused_service : ℕ
  pub poll : Poll
  pub first_connect : Bool
  pub error_count : ℕ
  pub warnings : ℕ
  pub client : C

-- What is called: `queue` is what `queue_message` does between its lock and its unlock, `resolve` is
-- `resolve_bulks` for the service at a port and says whether it resolved any,
-- `notify` is `notify_bulks`, `is_open` says that there is an open service at a port, `check_suspend`
-- is `vchiq_platform_check_suspend`, whose platform never suspends, and `start_thread` starts the
-- thread of the keep-alive. `poll_services` may wait
-- for locks of services; here it is one step that returns.
pub record Calls (C : Type 0) : Type 0 where
  pub is_master : Bool
  pub queue : Control → C → Status × C
  pub is_open : ℕ → C → Bool
  pub resolve : Direction → ℕ → C → Bool × C
  pub notify : Direction → ℕ → C → C
  pub check_suspend : C → C
  pub poll_services : C → C
  pub start_thread : C → C

abbrev pub is_retry : Status → Bool
is_retry retry = true
is_retry _ = false

module _ {C : Type 0} where
  abbrev pub slot_cell : Cell (CoreState C)
  slot_cell = record { get = λ s. s.slot_mutex; put = λ n s. record s { slot_mutex = n } }

  abbrev pub bulk_cell : Cell (CoreState C)
  bulk_cell = record {
    get = λ s. s.bulk_transfer_mutex;
    put = λ n s. record s { bulk_transfer_mutex = n };
  }

  -- The `bulk_mutex` of the service at a port
  abbrev pub service_cell : ℕ → Cell (CoreState C)
  service_cell i = record {
    get = λ s. s.bulk_mutex i;
    put = λ n s. record s { bulk_mutex = λ j. if j == i then n else s.bulk_mutex j };
  }

  abbrev pub on_client : (C → C) → CoreState C → CoreState C
  on_client f s = record s { client = f s.client }

  -- `vchiq_platform_conn_state_changed`. Nothing else sets `first_connect`, so its lock is left out.
  unfoldable pub conn_state_changed : Calls C → ConnState → CoreState C → CoreState C
  conn_state_changed k connected s =
      if s.first_connect
      then s
      else record s { first_connect = true; client = k.start_thread s.client }
  conn_state_changed k _ s = s

  -- `vchiq_set_conn_state`
  unfoldable pub set_conn_state : Calls C → ConnState → CoreState C → CoreState C
  set_conn_state k new s = conn_state_changed k new (record s { conn_state = new })

  -- `queue_message` with the flag `QMFLAGS_NO_MUTEX_UNLOCK`: the mutex stays locked when the message is
  -- sent. The result says that it is not sent.
  unfoldable pub queue_and_hold : Calls C → Control → Task (CoreState C) Bool
  queue_and_hold k m =
      mutex_lock slot_cell
      >> (lift (λ s. let r = k.queue m s.client in (is_retry r.0, record s { client = r.1 }))
          >>= λ failed. lift (λ s. (failed, if failed then mutex_unlock slot_cell s else s)))

  -- `queue_message` with the flag `QMFLAGS_NO_MUTEX_LOCK`: the caller has locked the mutex, and it is
  -- unlocked when the message is sent.
  unfoldable pub queue_held : Calls C → Control → CoreState C → Bool × CoreState C
  queue_held k m s =
      let r = k.queue m s.client in
      let failed = is_retry r.0 in
      let t = record s { client = r.1 } in (failed, if failed then t else mutex_unlock slot_cell t)

  -- `pause_bulks`
  unfoldable pub pause_bulks : Task (CoreState C) (Unit {0})
  pause_bulks =
      lift (λ s.
        let first = s.pause_bulks_count == 0 in
        (
          first,
          if first
              then record s { pause_bulks_count = 1 }
              else record s { pause_bulks_count = 1; warnings = suc s.warnings },
        ))
      >>= λ first. if first then mutex_lock bulk_cell else pure tt

  -- The client of a service is told of the bulks that were resolved, receiving ones before the others.
  unfoldable pub notify_resolved : Calls C → ℕ → Bool × Bool → C → C
  notify_resolved k i r c =
      let d = if r.0 then k.notify receive i c else c in if r.1 then k.notify transmit i d else d

  unfoldable pub resolve_both : Calls C → ℕ → CoreState C → (Bool × Bool) × CoreState C
  resolve_both k i s =
      let rx = k.resolve receive i s.client in
      let tx = k.resolve transmit i rx.1 in ((rx.0, tx.0), record s { client = tx.1 })

  unfoldable pub resolve_service : Calls C → ℕ → Task (CoreState C) (Unit {0})
  resolve_service k i =
      mutex_lock (service_cell i)
      >> (lift (resolve_both k i) >>= λ r.
          modify (λ s. on_client (notify_resolved k i r) (mutex_unlock (service_cell i) s)))

  -- `resume_bulks`: one service, if it is open
  unfoldable pub resume_service : Calls C → ℕ → Task (CoreState C) (Unit {0})
  resume_service k i s env =
      let resolved = resolve_service k i s env in
      if k.is_open i s.client then resolved else some (tt, s, env)

  -- The loop over `n` services from port `i` on
  unfoldable pub resume_services : Calls C → ℕ → ℕ → Task (CoreState C) (Unit {0})
  resume_services k i zero = pure tt
  resume_services k i (suc n) = resume_service k i >> resume_services k (i + 1) n

  unfoldable pub resume_deferred : Calls C → Task (CoreState C) (Unit {0})
  resume_deferred k s env =
      let resumed =
        (resume_services k 0 s.unused_service >> modify (λ t. record t { deferred_bulks = 0 })) s
          env in
      if s.deferred_bulks == 0 then some (tt, s, env) else resumed

  -- `resume_bulks`. A count other than 1 does not become 0 when it is decremented.
  unfoldable pub resume_bulks : Calls C → Task (CoreState C) (Unit {0})
  resume_bulks k s env =
      let freed = mutex_unlock bulk_cell (record s { pause_bulks_count = 0 }) in
      let warned : CoreState C = record s { pause_bulks_count = 0; warnings = suc s.warnings } in
      if s.pause_bulks_count == 1 then resume_deferred k freed env else some (tt, warned, env)

  abbrev pub master_pauses : Calls C → Task (CoreState C) (Unit {0})
  master_pauses k = if k.is_master then pause_bulks else pure tt

  abbrev pub master_resumes : Calls C → Task (CoreState C) (Unit {0})
  master_resumes k = if k.is_master then resume_bulks k else pure tt

  -- A PAUSE is answered by a PAUSE. The result says that the message is handled, and not kept.
  unfoldable pub answer_pause : Calls C → Task (CoreState C) Bool
  answer_pause k = queue_and_hold k pause_message >>= λ failed.
      if failed
      then pure false
      else master_pauses k >> (modify (set_conn_state k paused) >> pure true)

  -- `parse_rx_slots` for `VCHIQ_MSG_PAUSE`. The result says that the message is handled, and not kept.
  unfoldable pub pause_from : Calls C → ConnState → Task (CoreState C) Bool
  pause_from k paused = pure true
  pause_from k pause_sent = modify (set_conn_state k paused) >> pure true
  pause_from k _ = answer_pause k

  unfoldable pub on_pause : Calls C → Task (CoreState C) Bool
  on_pause k s env = pause_from k s.conn_state s env

  -- `parse_rx_slots` for `VCHIQ_MSG_RESUME`, which does not look at the state
  unfoldable pub on_resume : Calls C → Task (CoreState C) (Unit {0})
  on_resume k =
      modify (mutex_unlock slot_cell) >> (master_resumes k >> modify (set_conn_state k connected))

  -- `BUG()` stops the program.
  abbrev pub bug : {A : Type 0} → Task (CoreState C) A
  bug s env = none

  abbrev pub retry_later : CoreState C → CoreState C
  retry_later s = record s { poll = record s.poll { poll_needed = true } }

  unfoldable pub after_pause : Calls C → Bool → Task (CoreState C) (Unit {0})
  after_pause k true = master_resumes k >> modify retry_later
  after_pause k false = modify (set_conn_state k pause_sent)

  -- `slot_handler_func`: a PAUSE that is not sent is tried again later.
  unfoldable pub send_pause : Calls C → Task (CoreState C) (Unit {0})
  send_pause k =
      master_pauses k >> (queue_and_hold k pause_message >>= λ failed. after_pause k failed)

  -- `slot_handler_func`: a RESUME has to be sent.
  unfoldable pub send_resume : Calls C → Task (CoreState C) (Unit {0})
  send_resume k = lift (queue_held k resume_message) >>= λ failed.
      if failed then bug else (master_resumes k >> modify (set_conn_state k connected))

  unfoldable pub poll_in : Calls C → ConnState → Task (CoreState C) (Unit {0})
  poll_in k connected = modify (on_client k.poll_services)
  poll_in k pausing = send_pause k
  poll_in k resuming = send_resume k
  poll_in k _ = pure tt

  unfoldable pub poll_now : Calls C → Task (CoreState C) (Unit {0})
  poll_now k =
      modify (on_client k.check_suspend)
      >> (lift (λ s. (s.conn_state, record s { poll = record s.poll { poll_needed = false } }))
          >>= λ state. poll_in k state)

  -- `slot_handler_func`: what one round does before it reads the messages
  unfoldable pub poll_round : Calls C → Task (CoreState C) (Unit {0})
  poll_round k =
      lift (λ s. (s.poll.poll_needed, s)) >>= λ needed. if needed then poll_now k else pure tt

  abbrev pub refuse : CoreState C → Status × CoreState C
  refuse s = (error, record s { error_count = suc s.error_count })

  abbrev pub ask : Calls C → ConnState → CoreState C → Status × CoreState C
  ask k new s =
      let t = set_conn_state k new s in (success, record t { poll = request_poll none 0 t.poll })

  -- `vchiq_pause_internal`
  unfoldable pub pause_in : Calls C → ConnState → CoreState C → Status × CoreState C
  pause_in k connected s = ask k pausing s
  pause_in k _ s = refuse s

  -- `vchiq_resume_internal`
  unfoldable pub resume_in : Calls C → ConnState → CoreState C → Status × CoreState C
  resume_in k paused s = ask k resuming s
  resume_in k _ s = refuse s

  -- What can happen to the connection, but for the messages of services
  unfoldable pub handle : Calls C → Occurrence → Task (CoreState C) (Unit {0})
  handle k polled = poll_round k
  handle k pause_received = on_pause k >>= λ handled. pure tt
  handle k resume_received = on_resume k
  handle k pause_asked = modify (λ s. (pause_in k s.conn_state s).1)
  handle k resume_asked = modify (λ s. (resume_in k s.conn_state s).1)
