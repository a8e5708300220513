-- ===== src/Slots/Tests.antt =====
-- Runs of a sender and a reader of the slots, and the theorems at inputs that meet their hypotheses.
use ampi.Base.{
  suc, length, ◌++◌, ℕ, ◌+◌, ◌%◌, ◌≤◌, ◌<◌, ◌≡◌, ◌∙◌, refl, sym, true, false, none, some, List, [],
  ◌∷◌, arith, inl,
}
use ampi.Services.{Service, Quota, opened}
use ampi.Slots.{Slotted, Sender, make_msg, msg_type, calc_stride, slot_at}
use ampi.Slots.Layout.{calc_stride_bounds, slot_at_lem}
use ampi.Slots.Stream.{Walk, Distinct, messages}
use ampi.Slots.Send.{success, data_stalls, service_stalls, copy_elements, queue_message}
use ampi.Slots.Send.Reserve.{Stream}
use ampi.Slots.Send.Message.{with_mutex, Clear, Sent, queue_message_lem}
use ampi.Slots.Free.{process_free_queue}
use ampi.Slots.Free.Return.{Full, Freed, process_free_queue_lem}
use ampi.Slots.Receive.{Receiver, Handlers, parse_rx_slots}
use ampi.Slots.Receive.Steps.{handle, handle_all}
use ampi.Slots.Arrive.{on_memory, queue-parse}

calc_stride_bounds_example :
    (calc_stride 20 % 8 ≡ 0) × (20 + 8 ≤ calc_stride 20) × (calc_stride 20 < 20 + 16)
calc_stride_bounds_example = calc_stride_bounds 20 (omega arith)

-- A message that fills its slot but for 24 bytes.
abbrev large : Slotted
large = record { msgid = make_msg 5 3 65; size = 4064; body = [] }

abbrev audio : Service
audio = record {
  fourcc = 0x41554453;
  callback = 11;
  userdata = 12;
  handle = 4096;
  ref_count = 1;
  srvstate = opened;
  userdata_term = 0;
  localport = 3;
  remoteport = 65;
  public_fourcc = 0;
  client_id = 33;
  auto_close = true;
  sync = false;
  closing = false;
  version = 2;
  version_min = 1;
  peer_version = 0;
  owner = 7;
  remove_event = 0;
}

abbrev quota : Quota
quota = record {
  slot_quota = 30;
  slot_use_count = 1;
  message_quota = 7680;
  message_use_count = 1;
  quota_event = 0;
  previous_tx_index = 0;
}

abbrev sender : Sender
sender = record {
  local_tx_pos = 4072;
  tx_pos = 4072;
  tx_data = 0;
  slot_queue = λ i. i;
  slot_queue_available = 8;
  slot_available_event = 7;
  slot_mutex = 0;
  memory = λ a. large;
  data_use_count = 1;
  data_quota = 30;
  data_quota_event = 0;
  previous_data_index = 0;
  quotas = λ i. quota;
  services = λ i. audio;
  closing = λ i. false;
  signals = 1;
  bugs = 0;
}

queue_IsDistinct : Distinct (λ i. i) 0 16384
queue_IsDistinct a b l h k i e =
    omega (arith, sym (slot_at_lem (λ i. i) a) ∙ e ∙ slot_at_lem (λ i. i) b, h, i)

sender-Stream : Stream 0 16384 (large ∷ []) sender
unfolding Walk calc_stride slot_at
sender-Stream = record {
  ready = record { aligned = refl; current = λ off. refl };
  walk = (refl, omega arith, omega arith, refl);
  distinct = queue_IsDistinct;
  small = omega arith;
}

sender-Clear : Clear 3 20 sender
unfolding calc_stride data_stalls service_stalls
sender-Clear = record {
  mutex = refl;
  alive = refl;
  data_quota = refl;
  service_quota = refl;
  slot = omega arith;
}

queue_message_lem_example :
    (t : Sender) × (queue_message 1
        (some 3)
        (make_msg 5 3 65)
        (some (1 ∷ 2 ∷ []) ∷ some (3 ∷ []) ∷ [])
        20
        (with_mutex true)
        sender
        []
      ≡ some (success, t, []))
    × Sent 0 16384
        (λ i. i)
        (large ∷ [])
        (record { msgid = make_msg 5 3 65; size = 20; body = 1 ∷ 2 ∷ 3 ∷ [] })
        t
unfolding calc_stride msg_type make_msg copy_elements
queue_message_lem_example =
    queue_message_lem 0 16384 (large ∷ []) 0 3 (make_msg 5 3 65) 20 true
      (some (1 ∷ 2 ∷ []) ∷ some (3 ∷ []) ∷ []) (1 ∷ 2 ∷ 3 ∷ []) sender [] sender-Stream sender-Clear
      (omega arith) (omega arith) refl refl

-- A reader that collects the data it is given.
abbrev collector : Handlers (List (List ℕ))
collector = record {
  takes = λ m c. true;
  known = λ m c. true;
  available = λ m c. (true, m.body ∷ c);
  other = λ m c. (true, c);
}

abbrev reader : Receiver (List (List ℕ))
reader = record {
  rx_pos = 0;
  rx_data = none;
  rx_info = 0;
  memory = λ a. large;
  remote_queue = λ i. i;
  slot_queue_recycle = 8;
  infos = λ i. record { use_count = 0; release_count = 0 };
  signals = 0;
  warnings = 0;
  client = [];
}

queue-parse_example :
    (t : Sender) × (u : Receiver (List (List ℕ))) × (stream : List Slotted) × (queue_message 1
        (some 3)
        (make_msg 5 3 65)
        (some (1 ∷ 2 ∷ []) ∷ some (3 ∷ []) ∷ [])
        20
        (with_mutex true)
        sender
        []
      ≡ some (success, t, []))
    × Walk t.memory t.slot_queue stream 0 t.tx_pos
    × (messages stream
        ≡ messages (large ∷ [])
          ++ record { msgid = make_msg 5 3 65; size = 20; body = 1 ∷ 2 ∷ 3 ∷ [] } ∷ [])
    × (parse_rx_slots collector (suc (length stream)) t.tx_pos (on_memory t reader) ≡ some u)
    × (u.client
        ≡ handle collector
            (record { msgid = make_msg 5 3 65; size = 20; body = 1 ∷ 2 ∷ 3 ∷ [] })
            (handle_all collector (messages (large ∷ [])) []))
    × (u.rx_pos ≡ t.tx_pos)
    × (u.warnings ≡ 0)
unfolding calc_stride msg_type make_msg copy_elements
queue-parse_example =
    queue-parse collector reader 16384 (large ∷ []) 0 3 (make_msg 5 3 65) 20 true
      (some (1 ∷ 2 ∷ []) ∷ some (3 ∷ []) ∷ []) (1 ∷ 2 ∷ 3 ∷ []) sender []
      (record { data_done = λ m c. refl; other_done = λ m c. refl }) (λ m c h. refl)
      (record { given = omega arith; window = omega arith; opened = inl (refl, refl) })
      sender-Stream sender-Clear (omega arith) (omega arith) refl refl

-- A slot that one message fills has come back.
abbrev whole : Slotted
whole = record { msgid = make_msg 5 3 65; size = 4088; body = [] }

abbrev behind : Sender
behind = record sender { memory = λ a. whole; slot_queue_available = 0; slot_available_event = 0 }

process_free_queue_lem_example :
    (t : Sender) × (process_free_queue 2 1 behind ≡ some t) × Freed ((whole ∷ []) ∷ []) 1 behind t
unfolding Full Walk calc_stride
process_free_queue_lem_example =
    process_free_queue_lem ((whole ∷ []) ∷ []) 1 behind ((refl, omega arith, omega arith, refl), tt)
      refl (omega arith) (omega arith)
