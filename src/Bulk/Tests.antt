-- ===== src/Bulk/Tests.antt =====
-- Runs of a bulk queue, and the theorems at inputs that meet their hypotheses.
use ampi.Base.{
  ℕ, ◌+◌, ◌≡◌, refl, Bool, true, false, ◌==◌, if◌then◌else◌, Option, none, some, List, [], ◌∷◌,
  arith,
}
use ampi.Slots.Send.{Status, success, retry}
use ampi.Bulk.{
  Bulk, BulkQueue, Bulks, Calls, BulkReason, callback, receive, bulk_at, bulk_index,
  init_bulk_queue, notify_bulks,
}
use ampi.Bulk.Process.{abort_outstanding_bulks}
use ampi.Bulk.Notify.{Notified, notify_bulks_lem}
use ampi.Bulk.Abort.{Aborted, IsOrdered, abort_outstanding_bulks_lem}

-- A service that remembers what it is told of.
abbrev calls : Calls (List ℕ)
calls = record {
  is_master = false;
  has_instance = true;
  side = receive;
  localport = 3;
  remoteport = 65;
  call = λ reason userdata c. (if userdata == 9 then retry else success, userdata ∷ c);
  send = λ msgid actual c. (success, c);
  wake = λ waiter actual c. waiter ∷ c;
  transfer = λ b c. (b, c);
  complete = λ b c. c;
}

abbrev bulk : ℕ → Bulk
bulk i = record {
  mode = callback;
  dir = receive;
  userdata = i + 7;
  local_data = 1000;
  size = 64;
  remote_data = 0;
  remote_size = 0;
  actual = 64;
}

-- Bulks 0 and 1 are processed and not yet removed, 2 and 3 are outstanding.
abbrev queue : BulkQueue
queue = record {
  local_insert = 4;
  remote_insert = 2;
  process = 2;
  remote_notify = 0;
  remove = 0;
  bulks = bulk;
}

abbrev state : Bulks (List ℕ)
state = record {
  queue = queue;
  bulk_remove_event = 0;
  bulk_mutex = 0;
  poll = record { poll_flags = 0; poll_services = 0; poll_needed = false; triggers = 0 };
  deferred_bulks = 0;
  warnings = 0;
  client = [];
}

queue-IsOrdered : IsOrdered queue
queue-IsOrdered = record {
  removed = omega arith;
  local_near = (omega arith, omega arith);
  remote_near = (omega arith, omega arith);
  small = omega arith;
}

-- The third bulk asks for a retry: the client hears of three, two are removed.
abbrev processed : Bulks (List ℕ)
processed = record state { queue = record queue { process = 4 } }

abbrev outcome : Option (Status × Bulks (List ℕ)) → Status × ℕ × ℕ × Bool × List ℕ
outcome none = (success, 0, 0, false, [])
outcome (some (status, s)) =
    (status, s.queue.remove, s.bulk_remove_event, s.poll.poll_needed, s.client)

retries : outcome (notify_bulks calls 5 true processed) ≡ (retry, 2, 2, true, 9 ∷ 8 ∷ 7 ∷ [])
unfolding notify_bulks ampi.Bulk.report_bulks ampi.Bulk.report ampi.Bulk.tell
    ampi.Bulk.make_service_callback ampi.Bulk.ignore_error ampi.Bulk.request_poll
    ampi.Bulk.bulk_index
retries = refl

notify_bulks_lem_example :
    (r : Status × Bulks (List ℕ)) × (notify_bulks calls 3 true state ≡ some r)
    × Notified calls 2 true state r
notify_bulks_lem_example = notify_bulks_lem calls 2 true state refl refl (omega arith)

abort_outstanding_bulks_lem_example :
    (t : Bulks (List ℕ)) × (abort_outstanding_bulks calls 3 state ≡ some t) × Aborted calls state t
abort_outstanding_bulks_lem_example = abort_outstanding_bulks_lem calls 2 state queue-IsOrdered refl
