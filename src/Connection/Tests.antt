-- ===== src/Connection/Tests.antt =====
-- Runs of the connection, of ampi/vc4/vchiq/vchiq_core.c.
use ampi.Base.{ℕ, ◌+◌, ◌*◌, ◌≡◌, refl, true, false, ◌==◌, some, none, Option, List, []}
use ampi.Slots.Send.{success}
use ampi.Connection.{
  resolve_service, resolve_both, notify_resolved, Calls, CoreState, ConnState, after_pause,
  answer_pause, conn_state_changed, connected, handle, on_pause, on_resume, pause_bulks, pause_from,
  pause_received, pause_sent, paused, pausing, poll_in, poll_now, poll_round, polled,
  queue_and_hold, resume_bulks, resume_deferred, resume_received, resume_service, resume_services,
  resuming, send_pause, set_conn_state,
}
use ampi.Sync.Mutex.{mutex_lock, mutex_unlock}
use ampi.Wait.{poll}

-- The client's number is a list of digits: 1 for a message, 2 for a service that is resumed.
abbrev calls : Calls ℕ
calls = record {
  is_master = true;
  queue = λ m c. (success, 10 * c + 1);
  is_open = λ i c. i == 1;
  resolve = λ d i c. (true, c);
  notify = λ d i c. 10 * c + 2;
  check_suspend = λ c. c;
  poll_services = λ c. c;
  start_thread = λ c. c;
}

abbrev at : ConnState → ℕ → ℕ → ℕ → CoreState ℕ
at a l n c = record {
  conn_state = a;
  slot_mutex = l;
  bulk_transfer_mutex = l;
  bulk_mutex = λ i. 0;
  pause_bulks_count = l;
  deferred_bulks = n;
  unused_service = 3;
  poll = record { poll_flags = 0; poll_services = 0; poll_needed = false; triggers = 0 };
  first_connect = true;
  error_count = 0;
  warnings = 0;
  client = c;
}

-- A RESUME lets the deferred bulks of the one open service go on.
abbrev client_of : Option (Unit {0} × CoreState ℕ × List (CoreState ℕ → CoreState ℕ)) → ℕ
client_of none = 0
client_of (some (x, t, rest)) = t.client

resumed_run : client_of (handle calls resume_received (at paused 1 2 0) []) ≡ 22
unfolding handle on_resume mutex_unlock mutex_lock poll resume_bulks resume_deferred resume_services
    resume_service resolve_service resolve_both notify_resolved set_conn_state conn_state_changed
resumed_run = refl

-- The master pauses: it takes both mutexes, and sends a PAUSE.
pause_run :
    let asked = record (at pausing 0 0 0) {
      poll = record { poll_flags = 0; poll_services = 0; poll_needed = true; triggers = 1 };
    } in
    handle calls polled asked []
    ≡ some (
      tt,
      record (at pause_sent 1 0 1) {
        poll = record { poll_flags = 0; poll_services = 0; poll_needed = false; triggers = 1 };
      },
      [],
    )
unfolding handle poll_round poll_now poll_in send_pause pause_bulks mutex_lock poll queue_and_hold
    after_pause set_conn_state conn_state_changed
pause_run = refl

-- When both sides resume, the RESUME of the other side comes in the state CONNECTED: it frees a mutex
-- that a thread may hold, and an assertion fails.
resumes_cross :
    handle calls resume_received (record (at connected 0 0 0) { slot_mutex = 1 }) []
    ≡ some (tt, record (at connected 0 0 0) { warnings = 1 }, [])
unfolding handle on_resume mutex_unlock resume_bulks set_conn_state conn_state_changed
resumes_cross = refl

-- A PAUSE that comes while a RESUME waits to be sent stops the slot handler at its own mutex.
pause_while_resuming : handle calls pause_received (at resuming 1 0 0) [] ≡ none
unfolding handle on_pause pause_from answer_pause queue_and_hold mutex_lock poll
pause_while_resuming = refl
