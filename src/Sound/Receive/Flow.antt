-- ===== src/Sound/Receive/Flow.antt =====
-- Flow control: how many bytes are written and not yet reported complete.
use ampi.Base.{ℕ, ◌*◌, ◌%◌, ◌^◌, ◌≡◌, arith, true, ◌⊎◌, ◌≤◌, ◌<◌, leb}
use ampi.Base.Words.{add32, sub32, word}
use ampi.Sound.{Device, Calls, rank, Received, result, complete, other, message}
use ampi.Sound.Send.{write_chunk, write_buffer, service_use, assert, msg_queue, packet_limit}
use ampi.Sound.Send.Packets.{packets}
use ampi.Sound.Send.Chunk.{write_chunk-fields, write_buffer_lem, header, queue_all-InWorld}
use ampi.Sound.Receive.{
  Reason, msg_available, other_reason, refill, on_complete, on_message, callback, nearly_drained,
  credit,
}

-- The program's callback gives no more samples than it is asked for.
abbrev pub IsPolite : {W : Type 0} → Calls W → Type 0
IsPolite {W} c = (callback size : ℕ) (w : W) → (c.chunk callback size w).0 ≤ size

abbrev pub outstanding : {W : Type 0} → Device W → ℕ
outstanding d = sub32 d.write_pos d.complete_pos

-- The positions are words, and at most `n` chunks are outstanding.
pub record InFlight {W : Type 0} (n : ℕ) (d : Device W) : Type 0 where
  pub small : d.chunk_size * 4 < word
  pub written : d.write_pos < word
  pub completed : d.complete_pos < word
  pub bounded : outstanding d ≤ n * (d.chunk_size * 2)

-- The bytes that a message reports complete.
abbrev pub reported : Received → ℕ
reported (result success) = 0
reported (complete count cookie1 cookie2) = count % 2 ^ 30
reported other = 0

module _ {W : Type 0} (c : Calls W) where
  write_buffer-write_pos :
      (buffer bytes : ℕ) (d : Device W)
      → let p = (write_buffer c buffer bytes d).1.write_pos in
        (p ≡ d.write_pos) ⊎ (p ≡ add32 d.write_pos bytes)
  write_buffer-write_pos buffer bytes d = ground (
    arith,
    write_buffer_lem c buffer bytes d,
    queue_all-InWorld c (packets packet_limit buffer bytes) (
        let (r, d') = msg_queue c (message (header bytes)) d in
        record d' { write_pos = add32 d.write_pos bytes }),
  )

  write_chunk-write_pos :
      (d : Device W)
      → let p = (write_chunk c d).1.write_pos in
        let words = (c.chunk d.chunk_callback d.chunk_size d.world).0 in
        (p ≡ d.write_pos) ⊎ (p ≡ add32 d.write_pos (words * 2 % word))
  unfolding write_chunk
  write_chunk-write_pos d =
      let (words, buffer, w) = c.chunk d.chunk_callback d.chunk_size d.world in
      ground (arith, write_buffer-write_pos buffer (words * 2 % word) (record d { world = w }))

  -- One chunk more, at most.
  pub write_chunk-InFlight :
      (d : Device W) → IsPolite c → InFlight 1 d → InFlight 2 (write_chunk c d).1
  write_chunk-InFlight d polite f = ground (
    arith,
    polite d.chunk_callback d.chunk_size d.world,
    write_chunk-fields c d,
    write_chunk-write_pos d,
  )

  pub write_chunk-InFlight_first :
      (d : Device W) → IsPolite c → InFlight 0 d → InFlight 1 (write_chunk c d).1
  write_chunk-InFlight_first d polite f = ground (
    arith,
    polite d.chunk_callback d.chunk_size d.world,
    write_chunk-fields c d,
    write_chunk-write_pos d,
  )

  credit-InFlight :
      (count : ℕ) (d : Device W)
      → count % 2 ^ 30 ≤ outstanding d
      → InFlight 2 d
      → InFlight 2 (credit count d)
  credit-InFlight count d h f = omega arith

  nearly_drained-InFlight : (d : Device W) → nearly_drained d ≡ true → InFlight 2 d → InFlight 1 d
  nearly_drained-InFlight d h f = ground arith

  InFlight-weaken : (d : Device W) → InFlight 1 d → InFlight 2 d
  InFlight-weaken d f = omega arith

  refill-InFlight : (d : Device W) → IsPolite c → InFlight 1 d → InFlight 2 (refill c d)
  unfolding refill
  refill-InFlight d polite f = ground (arith, write_chunk-InFlight d polite f, InFlight-weaken d f)

  on_complete-InFlight :
      (count cookie1 cookie2 : ℕ) (d : Device W)
      → IsPolite c
      → count % 2 ^ 30 ≤ outstanding d
      → InFlight 2 d
      → InFlight 2 (on_complete c count cookie1 cookie2 d)
  unfolding on_complete
  on_complete-InFlight count cookie1 cookie2 d polite h f =
      let e = credit count (assert c (leb 2 (rank d.state)) d) in
      ground
        (arith, credit-InFlight count d h f, nearly_drained-InFlight e, refill-InFlight e polite)

  on_message-InFlight :
      (m : Received) (d : Device W)
      → IsPolite c
      → reported m ≤ outstanding d
      → InFlight 2 d
      → InFlight 2 (on_message c m d)
  unfolding on_message
  on_message-InFlight (result success) d polite h f = omega arith
  on_message-InFlight (complete count cookie1 cookie2) d polite h f =
      on_complete-InFlight count cookie1 cookie2 d polite h f
  on_message-InFlight other d polite h f = omega arith

  -- If the program's callback gives at most the samples it is asked for, and the firmware reports
  -- complete no more than is outstanding, then at most two chunks are outstanding after every
  -- callback if they were before.
  pub callback-InFlight :
      (reason : Reason) (d : Device W)
      → IsPolite c
      → reported (c.msg_dequeue d.service (c.service_use d.service d.world)).1 ≤ outstanding d
      → InFlight 2 d
      → InFlight 2 (callback c reason d)
  unfolding callback
  callback-InFlight msg_available d polite h f =
      let u = service_use c d in
      let (r, m, w) = c.msg_dequeue u.service u.world in
      ground (arith, on_message-InFlight m (record u { world = w }) polite h (omega arith))
  callback-InFlight other_reason d polite h f = omega arith
