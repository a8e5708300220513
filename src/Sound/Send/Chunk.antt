-- ===== src/Sound/Send/Chunk.antt =====
-- `CVCHIQSoundBaseDevice_WriteChunk` and the fields that sending leaves alone.
use ampi.Base.{ℕ, ◌*◌, ◌%◌, ◌≡◌, refl, List, [], ◌∷◌, ◌==◌, if◌then◌else◌, arith, All, ◌⊎◌}
use ampi.Base.Words.{add32, word}
use ampi.Sound.{Device, Calls, Message, message, write, write_cookie1, write_cookie2, idle}
use ampi.Sound.Send.{msg_queue, packet_limit, write_buffer, write_chunk, queue_message}
use ampi.Sound.Send.Packets.{
  packets, queue_all, send_packets_lem, total_size, total_size-packets, Fits, packets-Fits,
}

-- The device that differs from `d` in its world only.
abbrev pub InWorld : {W : Type 0} → Device W → Device W → Type 0
InWorld d d' = d' ≡ record d { world = d'.world }

-- The header of a chunk of `bytes` bytes.
abbrev pub header : ℕ → Message
header bytes = write bytes packet_limit write_cookie1 write_cookie2 0

module _ {W : Type 0} (c : Calls W) where
  pub queue_all-InWorld : (ps : List _) (d : Device W) → InWorld d (queue_all c ps d).1
  unfolding queue_all
  queue_all-InWorld [] d = refl
  queue_all-InWorld (p ∷ ps) d = ground (arith, queue_all-InWorld ps (msg_queue c p d).1)

  pub queue_message-InWorld : (m : Message) (d : Device W) → InWorld d (queue_message c m d).1
  unfolding queue_message
  queue_message-InWorld m d = refl

  -- A buffer is announced by one header and then sent whole: as packets of at most 4000 bytes, none
  -- empty, that hold its bytes in order. The write position grows, once the header is taken, by the
  -- bytes of the buffer, and no other field changes.
  pub write_buffer_lem :
      (buffer bytes : ℕ) (d : Device W)
      → let (r, d') = msg_queue c (message (header bytes)) d in
        let ps = packets packet_limit buffer bytes in
        (write_buffer c buffer bytes d ≡ (
          if r == 0
          then queue_all c ps (record d' { write_pos = add32 d.write_pos bytes })
          else (r, d')))
        × (total_size ps ≡ bytes)
        × All (Fits packet_limit) ps
  unfolding write_buffer
  write_buffer_lem buffer bytes d = (
    rw (send_packets_lem c bytes packet_limit buffer bytes _ (omega arith) (omega arith)),
    total_size-packets packet_limit buffer bytes,
    packets-Fits packet_limit buffer bytes (omega arith),
  )

  abbrev InSend : Device W → Device W → Type 0
  InSend d d' = d' ≡ record d { world = d'.world; write_pos = d'.write_pos }

  write_buffer-InSend :
      (buffer bytes : ℕ) (d : Device W) → InSend d (write_buffer c buffer bytes d).1
  write_buffer-InSend buffer bytes d = ground (
    arith,
    write_buffer_lem buffer bytes d,
    queue_all-InWorld (packets packet_limit buffer bytes) (
        let (r, d') = msg_queue c (message (header bytes)) d in
        record d' { write_pos = add32 d.write_pos bytes }),
  )

  -- Sending a chunk changes the world, the write position and the state at most. The state stays,
  -- but for a callback that has nothing to play: then the device turns idle, with success and
  -- nothing written.
  pub write_chunk-fields :
      (d : Device W)
      → let (r, d') = write_chunk c d in
        (d' ≡ record d { world = d'.world; write_pos = d'.write_pos; state = d'.state })
        × ((d'.state ≡ d.state) ⊎ ((d'.state ≡ idle) × (r ≡ 0) × (d'.write_pos ≡ d.write_pos)))
  unfolding write_chunk
  write_chunk-fields d =
      let (words, buffer, w) = c.chunk d.chunk_callback d.chunk_size d.world in
      ground (arith, write_buffer-InSend buffer (words * 2 % word) (record d { world = w }))
