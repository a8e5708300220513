-- ===== src/Sound/Tests.antt =====
-- Runs of the sound device over a small world, and the theorems at inputs that meet their
-- hypotheses.
use ampi.Base.{
  ℕ, suc, ◌+◌, ◌-◌, ◌≡◌, refl, arith, true, false, if◌then◌else◌, List, [], ◌∷◌, some, All, ◌==◌,
}
use ampi.Base.Words.{add32, word}
use ampi.Base.Int.{pos, negsuc}
use ampi.Wait.{poll}
use ampi.Sound.{
  Device, Calls, State, created, idle, running, cancelled, terminating, config, control, open_audio,
  start_audio, Payload, message, samples, Received, result, complete, other, automatic,
  write_cookie1, write_cookie2,
}
use ampi.Sound.Send.{
  queue_message, await_result, call_message, send_packets, write_buffer, write_chunk, packet_limit,
  msg_queue,
}
use ampi.Sound.Send.Packets.{packets, queue_all, total_size, Fits}
use ampi.Sound.Send.Chunk.{write_buffer_lem, header}
use ampi.Sound.Receive.{msg_available, on_message, callback}
use ampi.Sound.Receive.Transitions.{may_change, callback-change}
use ampi.Sound.Receive.Flow.{InFlight, IsPolite, callback-InFlight}
use ampi.Sound.Control.{
  volume_to_chip, first_chunks, check_peer, play, attempt, set_control_message, set_up, start,
  stop_service, cancel,
}
use ampi.Sound.Control.Outcome.{Started}
use ampi.Sound.Control.Drain.{cancel_drains}
use ampi.Sound.Control.Ready.{Answers, Willing, start_returns}
use ampi.Sound.Control.Uses.{counted, callback-uses, stop_service-uses}

record World : Type 0 where
  uses : ℕ
  sent : List Payload
  inbox : List Received
  faults : ℕ

abbrev receive : List Received → ℕ × Received × List Received
receive [] = (1, other, [])
receive (m ∷ ms) = (0, m, ms)

-- VCHI takes everything, and the program always has a full chunk at address 100.
abbrev demo : Calls World
demo = record {
  initialise = λ w. (0, 1, w);
  connect = λ i w. (0, w);
  service_open = λ i w. (0, 7, record w { uses = w.uses + 1 });
  service_use = λ s w. record w { uses = suc w.uses };
  service_release = λ s w. record w { uses = w.uses - 1 };
  peer_version = λ s w. (0, 2, w);
  msg_queue = λ s p w. (0, record w { sent = p ∷ w.sent });
  msg_dequeue = λ s w. let (r, m, ms) = receive w.inbox in (r, m, record w { inbox = ms });
  chunk = λ f n w. (n, 100, w);
  assertion_failed = λ w. record w { faults = w.faults + 1 };
}

abbrev world_with : List Received → World
world_with ms = record { uses = 0; sent = []; inbox = ms; faults = 0 }

-- A device in the state `s` with chunks of 3000 samples (6000 bytes), of which two are written.
abbrev device : State → List Received → Device World
device s ms = record {
  chunk_callback = 5;
  sample_rate = 44100;
  chunk_size = 3000;
  destination = automatic;
  state = s;
  vchi_instance = 1;
  service = 7;
  event = false;
  last_result = 0;
  write_pos = 12000;
  complete_pos = 0;
  world = world_with ms;
}

abbrev done_bytes : ℕ → Received
done_bytes n = complete n write_cookie1 write_cookie2

-- Both answers come at the first yield; the device then plays two chunks, each as a header and
-- packets of 4000 and 2000 bytes.
abbrev answers : List (Device World → Device World)
answers = callback demo msg_available ∷ callback demo msg_available ∷ []

abbrev chunk_payloads : List Payload → List Payload
chunk_payloads before = samples 4100 2000 ∷ samples 100 4000 ∷ message (header 6000) ∷ before

start_plays :
    start demo (device created (result 0 ∷ result 0 ∷ [])) answers
    ≡ some (
      true,
      record (device running []) {
        event = true;
        world = record {
          uses = 0;
          sent = chunk_payloads (
              chunk_payloads (
                message start_audio
                ∷ message open_audio
                ∷ message (control 0 automatic)
                ∷ message (config 2 44100 16)
                ∷ []));
          inbox = [];
          faults = 0;
        };
      },
      [],
    )
unfolding start set_up set_control_message attempt play check_peer first_chunks write_chunk
    write_buffer send_packets queue_message await_result call_message poll volume_to_chip callback
    on_message
start_plays = refl

volumes : (volume_to_chip (negsuc 9999) ≡ 25600) × (volume_to_chip (pos 400) ≡ word - 1024)
unfolding volume_to_chip
volumes = (refl, refl)

demo-IsPolite : IsPolite demo
demo-IsPolite callback size w = omega arith

two-InFlight : InFlight 2 (device running (done_bytes 6000 ∷ []))
two-InFlight = omega arith

write_buffer_lem_example :
    let (r, d') = msg_queue demo (message (header 6000)) (device running []) in
    let ps = packets packet_limit 100 6000 in
    (write_buffer demo 100 6000 (device running []) ≡ (
      if r == 0 then queue_all demo ps (record d' { write_pos = add32 12000 6000 }) else (r, d')))
    × (total_size ps ≡ 6000)
    × All (Fits packet_limit) ps
write_buffer_lem_example = write_buffer_lem demo 100 6000 (device running [])

callback-change_example :
    may_change cancelled
      (callback demo msg_available (device cancelled (done_bytes 6000 ∷ []))).state
    ≡ true
callback-change_example =
    callback-change demo msg_available (device cancelled (done_bytes 6000 ∷ []))

callback-InFlight_example :
    InFlight 2 (callback demo msg_available (device running (done_bytes 6000 ∷ [])))
callback-InFlight_example =
    callback-InFlight demo msg_available (device running (done_bytes 6000 ∷ [])) demo-IsPolite
      (omega arith) two-InFlight

cancel_drains_example :
    (t : Device World) × (cancel demo
        (device running (done_bytes 6000 ∷ []))
        ((λ d. d) ∷ callback demo msg_available ∷ [])
      ≡ some (true, t, []))
    × (t.state ≡ idle)
cancel_drains_example =
    cancel_drains demo 6000 (device running (done_bytes 6000 ∷ []))
      (record { uses = 1; sent = []; inbox = []; faults = 0 }) ((λ d. d) ∷ []) [] refl (refl, refl)
      refl refl (λ handle w. refl)

-- The device with a number of open uses beside its world
abbrev using : ℕ → Device World → Device (World × ℕ)
using n d = record {
  chunk_callback = d.chunk_callback;
  sample_rate = d.sample_rate;
  chunk_size = d.chunk_size;
  destination = d.destination;
  state = d.state;
  vchi_instance = d.vchi_instance;
  service = d.service;
  event = d.event;
  last_result = d.last_result;
  write_pos = d.write_pos;
  complete_pos = d.complete_pos;
  world = (d.world, n);
}

callback-uses_example :
    (callback
      (counted demo)
      msg_available
      (using 3 (device running (done_bytes 6000 ∷ [])))).world.1
    ≡ 3
callback-uses_example =
    callback-uses demo msg_available (using 3 (device running (done_bytes 6000 ∷ [])))

stop_service-uses_example :
    let (ok, d') = stop_service (counted demo) (using 3 (device terminating [])) in
    d'.world.1 ≡ (if ok then 3 else 4)
stop_service-uses_example = stop_service-uses demo (using 3 (device terminating []))

-- What the callback does with the message RESULT, on the fields of the device.
abbrev succeed : Device World → Device World
succeed d = record d { last_result = 0; event = true }

succeed-Answers : Answers succeed
succeed-Answers = record { event = λ d. refl; success = λ d. refl }

demo-Willing : Willing demo
demo-Willing = record {
  initialises = λ w. refl;
  connects = λ i w. refl;
  opens = λ i w. refl;
  takes_config = λ n r b h w. refl;
  takes_control = λ v t h w. refl;
  takes_open = λ h w. refl;
}

start_returns_example :
    (t : Device World) × (t.state ≡ idle)
    × (start demo (device created []) (succeed ∷ succeed ∷ [])
        ≡ some ((play demo t).0, (play demo t).1, []))
    × Started (play demo t).0 (play demo t).1
start_returns_example =
    start_returns demo demo-Willing (device created []) succeed succeed [] refl succeed-Answers
      succeed-Answers
