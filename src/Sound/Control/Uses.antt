-- ===== src/Sound/Control/Uses.antt =====
-- The uses of the audio service that the device takes and gives back: `vchi_service_use` and
-- `vchi_service_release`.
use ampi.Base.{
  ℕ, suc, ◌-◌, ◌*◌, ◌%◌, ◌≡◌, refl, ◌==◌, if◌then◌else◌, arith, Bool, true, false, leb, List, [],
  ◌∷◌,
}
use ampi.Base.Words.{add32, word}
use ampi.Sound.{
  Device, Calls, Message, Payload, message, Received, result, complete, other, rank, running,
  start_audio, stop,
}
use ampi.Sound.Send.{
  write_chunk, write_buffer, msg_queue, packet_limit, service_use, assert, queue_message,
}
use ampi.Sound.Send.Packets.{packets, queue_all}
use ampi.Sound.Send.Chunk.{write_buffer_lem, header}
use ampi.Sound.Receive.{
  Reason, msg_available, other_reason, refill, on_complete, on_message, callback, credit,
}
use ampi.Sound.Control.{first_chunks, check_peer, play, stop_service}

-- The calls, with a number beside the rest of the state: that of the calls of `vchi_service_use` less that
-- of the calls of `vchi_service_release`, which the device makes. What these calls do is open.
abbrev pub counted : {W : Type 0} → Calls W → Calls (W × ℕ)
counted c = record {
  initialise = λ w. let (r, i, v) = c.initialise w.0 in (r, i, (v, w.1));
  connect = λ i w. let (r, v) = c.connect i w.0 in (r, (v, w.1));
  service_open = λ i w. let (r, s, v) = c.service_open i w.0 in (r, s, (v, w.1));
  service_use = λ s w. (c.service_use s w.0, suc w.1);
  service_release = λ s w. (c.service_release s w.0, w.1 - 1);
  peer_version = λ s w. let (r, n, v) = c.peer_version s w.0 in (r, n, (v, w.1));
  msg_queue = λ s p w. let (r, v) = c.msg_queue s p w.0 in (r, (v, w.1));
  msg_dequeue = λ s w. let (r, m, v) = c.msg_dequeue s w.0 in (r, m, (v, w.1));
  chunk = λ n size w. let (words, buffer, v) = c.chunk n size w.0 in (words, buffer, (v, w.1));
  assertion_failed = λ w. (c.assertion_failed w.0, w.1);
}

-- Only the calls of `vchi_service_use` and `vchi_service_release` change such a number.
record Counts {W : Type 0} (c : Calls W) (uses : W → ℕ) : Type 0 where
  pub use_lem : (s : ℕ) (w : W) → uses (c.service_use s w) ≡ suc (uses w)
  pub release_lem : (s : ℕ) (w : W) → uses (c.service_release s w) ≡ uses w - 1
  pub peer_version_lem : (s : ℕ) (w : W) → uses (c.peer_version s w).2 ≡ uses w
  pub msg_queue_lem : (s : ℕ) (p : Payload) (w : W) → uses (c.msg_queue s p w).1 ≡ uses w
  pub msg_dequeue_lem : (s : ℕ) (w : W) → uses (c.msg_dequeue s w).2 ≡ uses w
  pub chunk_lem : (s n : ℕ) (w : W) → uses (c.chunk s n w).2 ≡ uses w
  pub assertion_lem : (w : W) → uses (c.assertion_failed w) ≡ uses w

module _ {W : Type 0} (c : Calls W) (uses : W → ℕ) (k : Counts c uses) where
  queue_message-uses :
      (m : Message) (d : Device W) → uses (queue_message c m d).1.world ≡ uses d.world
  unfolding queue_message
  queue_message-uses m d =
      let w = c.service_use d.service d.world in
      omega (
        arith,
        k.use_lem d.service d.world,
        k.msg_queue_lem d.service (message m) w,
        k.release_lem d.service (c.msg_queue d.service (message m) w).1,
      )

  queue_all-uses :
      (ps : List Payload) (d : Device W) → uses (queue_all c ps d).1.world ≡ uses d.world
  unfolding queue_all
  queue_all-uses [] d = refl
  queue_all-uses (p ∷ ps) d =
      ground (arith, k.msg_queue_lem d.service p d.world, queue_all-uses ps (msg_queue c p d).1)

  write_buffer-uses :
      (buffer bytes : ℕ) (d : Device W)
      → uses (write_buffer c buffer bytes d).1.world ≡ uses d.world
  write_buffer-uses buffer bytes d =
      let (r, d') = msg_queue c (message (header bytes)) d in
      ground (
        arith,
        write_buffer_lem c buffer bytes d,
        k.msg_queue_lem d.service (message (header bytes)) d.world,
        queue_all-uses (packets packet_limit buffer bytes)
            (record d' { write_pos = add32 d.write_pos bytes }),
      )

  write_chunk-uses : (d : Device W) → uses (write_chunk c d).1.world ≡ uses d.world
  unfolding write_chunk
  write_chunk-uses d =
      let (words, buffer, w) = c.chunk d.chunk_callback d.chunk_size d.world in
      ground (
        arith,
        k.chunk_lem d.chunk_callback d.chunk_size d.world,
        write_buffer-uses buffer (words * 2 % word) (record d { world = w }),
      )

  assert-uses : (b : Bool) (d : Device W) → uses (assert c b d).world ≡ uses d.world
  assert-uses true d = refl
  assert-uses false d = k.assertion_lem d.world

  refill-uses : (d : Device W) → uses (refill c d).world ≡ uses d.world
  unfolding refill
  refill-uses d = ground (arith, write_chunk-uses d, k.assertion_lem (write_chunk c d).1.world)

  on_complete-uses :
      (count cookie1 cookie2 : ℕ) (d : Device W)
      → uses (on_complete c count cookie1 cookie2 d).world ≡ uses d.world
  unfolding on_complete
  on_complete-uses count cookie1 cookie2 d =
      let d' = assert c (leb 2 (rank d.state)) d in
      ground (
        arith,
        assert-uses (leb 2 (rank d.state)) d,
        k.assertion_lem d'.world,
        refill-uses (credit count d'),
      )

  on_message-uses : (m : Received) (d : Device W) → uses (on_message c m d).world ≡ uses d.world
  unfolding on_message
  on_message-uses (result success) d = refl
  on_message-uses (complete count cookie1 cookie2) d = on_complete-uses count cookie1 cookie2 d
  on_message-uses other d = k.assertion_lem d.world

  callback_lem : (reason : Reason) (d : Device W) → uses (callback c reason d).world ≡ uses d.world
  unfolding callback
  callback_lem msg_available d =
      let u = service_use c d in
      let (r, m, w) = c.msg_dequeue u.service u.world in
      let d' = record u { world = w } in
      ground (
        arith,
        k.use_lem d.service d.world,
        k.msg_dequeue_lem u.service u.world,
        on_message-uses m d',
        k.release_lem (on_message c m d').service (on_message c m d').world,
        k.release_lem d'.service d'.world,
        k.assertion_lem (c.service_release d'.service d'.world),
      )
  callback_lem other_reason d = k.assertion_lem d.world

  first_chunks-uses : (d : Device W) → uses (first_chunks c d).1.world ≡ uses d.world - 1
  unfolding first_chunks
  first_chunks-uses d =
      let d1 = (write_chunk c d).1 in
      let d2 = (write_chunk c d1).1 in
      ground (
        arith,
        write_chunk-uses d,
        write_chunk-uses d1,
        k.release_lem d1.service d1.world,
        k.release_lem d2.service d2.world,
      )

  check_peer-uses : (d : Device W) → uses (check_peer c d).1.world ≡ uses d.world - 1
  unfolding check_peer
  check_peer-uses d =
      let (r, version, w) = c.peer_version d.service d.world in
      ground (
        arith,
        k.peer_version_lem d.service d.world,
        k.release_lem d.service w,
        first_chunks-uses (record d { world = w; write_pos = 0; complete_pos = 0 }),
      )

  -- Starting the playback gives back every use that it takes, whether it succeeds or not.
  play-uses : (d : Device W) → uses (play c d).1.world ≡ uses d.world
  unfolding play
  play-uses d =
      let e = assert c (rank d.state == 1) d in
      let (r, d') = queue_message c start_audio e in
      ground (
        arith,
        assert-uses (rank d.state == 1) d,
        queue_message-uses start_audio e,
        k.use_lem d'.service d'.world,
        check_peer-uses (service_use c (record d' { state = running })),
      )

  stop_service_lem :
      (d : Device W)
      → let (ok, d') = stop_service c d in
        uses d'.world ≡ (if ok then uses d.world else suc (uses d.world))
  unfolding stop_service
  stop_service_lem d =
      let e = assert c (rank d.state == 4) d in
      let (r, d') = queue_message c (stop 0) (service_use c e) in
      ground (
        arith,
        assert-uses (rank d.state == 4) d,
        k.use_lem e.service e.world,
        queue_message-uses (stop 0) (service_use c e),
        k.release_lem d'.service d'.world,
      )

counted-Counts : {W : Type 0} (c : Calls W) → Counts (counted c) (λ w. w.1)
counted-Counts c = record {
  use_lem = λ s w. refl;
  release_lem = λ s w. refl;
  peer_version_lem = λ s w. refl;
  msg_queue_lem = λ s p w. refl;
  msg_dequeue_lem = λ s w. refl;
  chunk_lem = λ s n w. refl;
  assertion_lem = λ w. refl;
}

module _ {W : Type 0} (c : Calls W) where
  -- A callback calls `vchi_service_release` as often as `vchi_service_use`, on every branch, whatever the
  -- calls do.
  pub callback-uses :
      (reason : Reason) (d : Device (W × ℕ)) → (callback (counted c) reason d).world.1 ≡ d.world.1
  callback-uses reason d = callback_lem (counted c) (λ w. w.1) (counted-Counts c) reason d

  -- The end of `Cancel` calls `vchi_service_release` as often as `vchi_service_use` if VCHI takes the
  -- message STOP, and only then: when it reports failure, there is one call of `vchi_service_use` more;
  -- whatever the calls do.
  pub stop_service-uses :
      (d : Device (W × ℕ))
      → let (ok, d') = stop_service (counted c) d in
        d'.world.1 ≡ (if ok then d.world.1 else suc d.world.1)
  stop_service-uses d = stop_service_lem (counted c) (λ w. w.1) (counted-Counts c) d
