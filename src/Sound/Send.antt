-- ===== src/Sound/Send.antt =====
-- ampi/vc4/sound/vchiqsoundbasedevice.c: queueing messages and chunks of samples.
pub mod Packets
pub mod Chunk
use ampi.Base.{ℕ, zero, suc, ◌+◌, ◌-◌, ◌*◌, ◌%◌, Bool, true, false, ◌==◌, leb, if◌then◌else◌, ◌||◌}
use ampi.Base.Words.{add32, word}
use ampi.Wait.{Task, ◌>>=◌, ◌>>◌, lift, modify, poll}
use ampi.Sound.{
  Device, Calls, idle, Message, write, Payload, message, samples, write_cookie1, write_cookie2,
}

-- `max_packet` of the messages WRITE
abbrev pub packet_limit : ℕ
packet_limit = 4000

module _ {W : Type 0} (c : Calls W) where
  abbrev pub service_use : Device W → Device W
  service_use d = record d { world = c.service_use d.service d.world }

  abbrev pub service_release : Device W → Device W
  service_release d = record d { world = c.service_release d.service d.world }

  abbrev pub assertion_failed : Device W → Device W
  assertion_failed d = record d { world = c.assertion_failed d.world }

  abbrev pub assert : Bool → Device W → Device W
  assert true d = d
  assert false d = assertion_failed d

  -- `vchi_msg_queue` on the device's service
  abbrev pub msg_queue : Payload → Device W → ℕ × Device W
  msg_queue p d = let (r, w) = c.msg_queue d.service p d.world in (r, record d { world = w })

  -- `CVCHIQSoundBaseDevice_QueueMessage`
  unfoldable pub queue_message : Message → Device W → ℕ × Device W
  queue_message m d = let (r, d') = msg_queue (message m) (service_use d) in (r, service_release d')

  -- The wait of `CVCHIQSoundBaseDevice_CallMessage` for the answer, if the message went out.
  unfoldable pub await_result : ℕ → Task (Device W) (Unit {0})
  await_result r =
      if r == 0 then poll (λ d. d.event) else modify (λ d. record d { last_result = r })

  -- `CVCHIQSoundBaseDevice_CallMessage`: the answer comes while other tasks run.
  unfoldable pub call_message : Message → Task (Device W) ℕ
  call_message m = do
    modify (λ d. record d { event = false })
    r ← lift (queue_message m)
    await_result r
    lift (λ d. (d.last_result, d))

  -- The loop of `CVCHIQSoundBaseDevice_WriteChunk` over `bytes` bytes from `address`. Each round
  -- takes at least one byte, so `bytes` rounds are enough.
  unfoldable pub send_packets : ℕ → ℕ → ℕ → ℕ → Device W → ℕ × Device W
  send_packets zero max_packet address bytes d = (0, d)
  send_packets (suc fuel) max_packet address bytes d =
      let size = if leb bytes max_packet then bytes else max_packet in
      let sent = msg_queue (samples address size) d in
      let rest = send_packets fuel max_packet (address + size) (bytes - size) sent.1 in
      if bytes == 0 then (0, d) else if sent.0 == 0 then rest else sent

  -- What `CVCHIQSoundBaseDevice_WriteChunk` does with a buffer of `bytes` bytes.
  unfoldable pub write_buffer : ℕ → ℕ → Device W → ℕ × Device W
  write_buffer buffer bytes d =
      let header = message (write bytes packet_limit write_cookie1 write_cookie2 0) in
      let (r, d') = msg_queue header d in
      if r == 0
      then send_packets bytes packet_limit buffer bytes
          (record d' { write_pos = add32 d'.write_pos bytes })
      else (r, d')

  -- `CVCHIQSoundBaseDevice_WriteChunk`: `nWords * sizeof (s16)` is an `unsigned` product.
  unfoldable pub write_chunk : Device W → ℕ × Device W
  write_chunk d =
      if d.chunk_callback == 0
      then (0, d)
      else let (words, buffer, w) = c.chunk d.chunk_callback d.chunk_size d.world in
        let d' = record d { world = w } in
        if words == 0 || buffer == 0
        then (0, record d' { state = idle })
        else write_buffer buffer (words * 2 % word) d'
