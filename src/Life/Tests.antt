-- ===== src/Life/Tests.antt =====
-- The life of one service, and the theorems at inputs that meet their hypotheses.
use ampi.Base.{
  ℕ, suc, ◌-◌, ◌≡◌, refl, ap, true, false, ◌==◌, if◌then◌else◌, Option, none, some, [], ◌∷◌, arith,
}
use ampi.Sync.Semaphore.{up}
use ampi.Sync.Mutex.{mutex_unlock}
use ampi.Slots.{msg_srcport}
use ampi.Slots.Send.{Status, success, retry}
use ampi.Bulk.{ignore_error}
use ampi.Services.{
  Service, Services, Quota, put, claim, hold, opened, open_sync, listening, find_service_by_handle,
  unlock_service, get_listening_service, lock_service, scan,
}
use ampi.Services.Add.{set_service_state}
use ampi.Life.{
  Life, Calls, complete_state, to_target, target, free_service, settle, complete_with, release_uses,
  close_service_complete, forget_client, sent_close, send_close, do_abort_bulks,
}
use ampi.Life.Close.{
  after_send, close_message, close_open, close_closing, confirm, close_in, close_service_internal,
  is_open_sync,
}
use ampi.Life.Diagram.{Closes, Ends}
use ampi.Life.Handler.{IsHeld, close-Closes}
use ampi.Life.Open.{
  OpenMessage, OpenCalls, parse_open, open_with, accept, settle_sync, with_peer, after_ack,
  now_open, tell_opened, with_client, after_opened, fail_open,
}
use ampi.Life.User.{removed_cell, close_service, change, request_poll_at}
use ampi.Life.User.Waiting.{asked, close_service_lem}

-- A client that is open
abbrev audio : Service
audio = record {
  fourcc = 0x41554453;
  callback = 11;
  userdata = 12;
  handle = 4096;
  ref_count = 1;
  srvstate = opened;
  userdata_term = 0;
  localport = 0;
  remoteport = 9;
  public_fourcc = 0;
  client_id = 33;
  auto_close = true;
  sync = false;
  closing = false;
  version = 2;
  version_min = 1;
  peer_version = 0;
  owner = 7;
  remove_event = 0;
}

-- A server that listens
abbrev server : Service
server = record audio {
  srvstate = listening;
  remoteport = 4096;
  public_fourcc = 0x41554453;
  client_id = 0;
}

abbrev quota : Quota
quota = record {
  slot_quota = 30;
  slot_use_count = 0;
  message_quota = 60;
  message_use_count = 0;
  quota_event = 0;
  previous_tx_index = 0;
}

abbrev table : Service → Services
table v = record {
  services = λ i. if i == 0 then some v else none;
  unused_service = 1;
  handle_seq = 8192;
  quotas = λ i. quota;
  default_slot_quota = 30;
  default_message_quota = 60;
  local_tx_pos = 0;
  terminated = [];
}

-- The client counts the messages that are sent and the callbacks.
abbrev calls : Calls ℕ
calls = record {
  is_master = false;
  callback = λ port c. (success, suc c);
  send = λ port msgid c. (success, suc c);
  lock_bulks = λ port c. (true, c);
  abort = λ dir port c. c;
  unlock_bulks = λ port c. c;
  notify = λ dir port c. (success, c);
  release_messages = λ port c. c;
  use_count = λ port c. 0;
  release_use = λ port c. c;
}

abbrev life : Life ℕ
life = record {
  table = table audio;
  slot_mutex = 0;
  sync_mutex = 0;
  recycle_mutex = 0;
  polls = record { poll_flags = λ i. 0; poll_services = λ g. 0; poll_needed = false; triggers = 0 };
  errors = 0;
  client = 0;
}

audio-IsHeld : IsHeld 0 audio life
audio-IsHeld = record {
  there = refl;
  held = omega arith;
  at = refl;
  slot = refl;
  sync = refl;
  marked = λ e. grind (arith, ap is_open_sync e);
}

close-Closes_example :
    Ends 0 (Closes audio true opened) life (close_service_internal calls true 0 life)
close-Closes_example = close-Closes calls true 0 audio life audio-IsHeld

-- The slot handler closes the service on this side, and then gets the CLOSE of the other side.
abbrev after : Option (Status × Life ℕ) → Life ℕ
after none = life
after (some (status, m)) = m

abbrev handler : Life ℕ → Life ℕ
handler m =
    after (close_service_internal calls true 0 (after (close_service_internal calls false 0 m)))

abbrev found : Services
found = put 0 (some (record audio { ref_count = 2 })) (table audio)

-- What the thread sees: the service is closed when it waits.
abbrev waiting : Life ℕ
waiting = asked 0 found life

abbrev signalled : Life ℕ
signalled = (removed_cell 0).put ((removed_cell 0).get (handler waiting) - 1) (handler waiting)

abbrev gone : Services
gone = put 0 none signalled.table

close_service_lem_example :
    close_service calls 1 false 4096 life (handler ∷ [])
    ≡ some (success, record signalled { table = gone }, [])
unfolding find_service_by_handle claim hold put up change mutex_unlock request_poll_at
    close_service_internal close_in close_open close_message send_close sent_close set_service_state
    after_send close_closing do_abort_bulks confirm close_service_complete complete_state to_target
    target complete_with ignore_error release_uses settle forget_client free_service unlock_service
close_service_lem_example =
    close_service_lem calls 0 4096 0 life found gone handler [] (refl, refl) refl refl refl
      (omega arith) refl refl

-- Both sides have closed the client: one CLOSE was sent, and one callback made.
closed_twice : (handler waiting).client ≡ 2
unfolding find_service_by_handle claim hold put up change mutex_unlock request_poll_at
    close_service_internal close_in close_open close_message send_close sent_close set_service_state
    after_send close_closing do_abort_bulks confirm close_service_complete complete_state to_target
    target complete_with ignore_error release_uses settle forget_client free_service unlock_service
closed_twice = refl

abbrev refs : Option Service → ℕ
refs none = 0
refs (some v) = v.ref_count

abbrev port_of : Option Service → ℕ
port_of none = 1
port_of (some v) = v.localport

abbrev there : Option Service → ℕ
there none = 0
there (some v) = 1

-- An OPEN from the port 9
abbrev message : OpenMessage
message = record {
  msgid = 0x2009000;
  size = 12;
  payload = record { fourcc = 0x41554453; client_id = 33; version = 3; version_min = 2 };
}

abbrev open_calls : OpenCalls ℕ
open_calls = record {
  version_common = 8;
  send = λ msgid body c. (success, suc c);
  send_sync = λ msgid body c. (success, suc c);
  opened = λ port c. (success, suc c);
}

-- A synchronous server whose user is not ready for the client
abbrev sync_server : Service
sync_server = record server { sync = true }

abbrev not_ready : OpenCalls ℕ
not_ready = record open_calls { opened = λ port c. (retry, suc c) }

abbrev left_open : Service
left_open = record sync_server { srvstate = open_sync; client_id = 33; peer_version = 3 }

-- The OPEN is kept, but the next try does not find the service: it sends a CLOSE, and the service stays
-- open with no client.
sync_client_lost :
    let first = parse_open not_ready message (table sync_server) 0 in
    let t = put 0 (some left_open) (
      put 0
        (some (record left_open { ref_count = 2 }))
        (put 0 (some (record sync_server { ref_count = 2 })) (table sync_server))) in
    (first ≡ some (false, t, 2)) × (parse_open open_calls message t 2 ≡ some (true, t, 3))
unfolding parse_open get_listening_service scan lock_service hold put open_with accept settle_sync
    after_ack now_open set_service_state tell_opened with_client with_peer after_opened
    unlock_service fail_open msg_srcport
sync_client_lost = (refl, refl)
