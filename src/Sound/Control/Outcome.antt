-- ===== src/Sound/Control/Outcome.antt =====
-- What `Start` and `Cancel` report, and the state in which they leave the device.
use ampi.Base.{
  ◌*◌, ◌≡◌, ◌≢◌, ◌==◌, arith, Bool, true, false, ◌⊎◌, inl, inr, ◌<◌, some, List, not, Option-cases,
}
use ampi.Base.Words.{word}
use ampi.Wait.{Task, lift, poll, poll_done}
use ampi.Sound.{Device, Calls, idle, running, cancelled, error, rank, start_audio, stop}
use ampi.Sound.Send.{write_chunk, service_use, assert, queue_message}
use ampi.Sound.Send.Chunk.{write_chunk-fields, queue_message-InWorld}
use ampi.Sound.Receive.{is_cancelled}
use ampi.Sound.Receive.Flow.{InFlight, IsPolite, write_chunk-InFlight, write_chunk-InFlight_first}
use ampi.Sound.Control.{fail, first_chunks, check_peer, play, start, stop_service, cancel}

-- What a start says of the device that it leaves: success means that it plays, or that the program
-- had nothing to play, and failure that it is out of order.
pub record Started {W : Type 0} (ok : Bool) (d : Device W) : Type 0 where
  pub success : ok ≡ true → (d.state ≡ running) ⊎ (d.state ≡ idle)
  pub failure : ok ≡ false → d.state ≡ error

module _ {W : Type 0} (c : Calls W) where
  first_chunks-Started :
      (d : Device W) → d.state ≡ running → let (ok, d') = first_chunks c d in Started ok d'
  unfolding first_chunks
  first_chunks-Started d e =
      ground (arith, write_chunk-fields c d, write_chunk-fields c (write_chunk c d).1)

  check_peer-Started :
      (d : Device W) → d.state ≡ running → let (ok, d') = check_peer c d in Started ok d'
  unfolding check_peer
  check_peer-Started d e =
      let (r, version, w) = c.peer_version d.service d.world in
      ground (arith, first_chunks-Started (record d { world = w; write_pos = 0; complete_pos = 0 }))

  pub play-Started : (d : Device W) → let (ok, d') = play c d in Started ok d'
  unfolding play
  play-Started d =
      let (r, d') = queue_message c start_audio (assert c (rank d.state == 1) d) in
      ground (arith, check_peer-Started (service_use c (record d' { state = running })))

-- A property of the result and the state, whatever the other tasks do meanwhile.
abbrev Ensures : {W : Type 0} → (Bool → Device W → Type 0) → Task (Device W) Bool → Type 0
Ensures {W} P m =
    (d : Device W) (env : List (Device W → Device W))
    (r : Bool × Device W × List (Device W → Device W))
    → m d env ≡ some r
    → P r.0 r.1

fail-Started : {W : Type 0} → Ensures {W = W} Started (lift fail)
fail-Started d env r e = ground arith

module _ {W : Type 0} (c : Calls W) where
  -- From `idle`, a start waits for nobody, and reports just what `play` does.
  start_idle :
      (d : Device W) (env : List (Device W → Device W))
      → d.state ≡ idle
      → start c d env ≡ some ((play c d).0, (play c d).1, env)
  unfolding start
  start_idle d env e = ground arith

  first_chunks-InFlight :
      (d : Device W)
      → IsPolite c
      → InFlight 0 d
      → (first_chunks c d).0 ≡ true
      → InFlight 2 (first_chunks c d).1
  unfolding first_chunks
  first_chunks-InFlight d polite f h =
      let d' = (write_chunk c d).1 in
      ground (arith, write_chunk-InFlight c d' polite (write_chunk-InFlight_first c d polite f))

  check_peer-InFlight :
      (d : Device W)
      → IsPolite c
      → d.chunk_size * 4 < word
      → (check_peer c d).0 ≡ true
      → InFlight 2 (check_peer c d).1
  unfolding check_peer
  check_peer-InFlight d polite small h =
      let (r, version, w) = c.peer_version d.service d.world in
      ground (
        arith,
        first_chunks-InFlight (record d { world = w; write_pos = 0; complete_pos = 0 }) polite
            (omega arith),
      )

  -- A successful start from `idle` leaves at most two chunks outstanding, if the program's callback
  -- gives at most the samples that it is asked for and two chunks' bytes fit a word.
  play-InFlight :
      (d : Device W)
      → IsPolite c
      → d.chunk_size * 4 < word
      → (play c d).0 ≡ true
      → InFlight 2 (play c d).1
  unfolding play
  play-InFlight d polite small h =
      let e = assert c (rank d.state == 1) d in
      let (r, d') = queue_message c start_audio e in
      ground (
        arith,
        queue_message-InWorld c start_audio e,
        check_peer-InFlight (service_use c (record d' { state = running })) polite,
      )

  -- `Cancel`, once another task has taken the device out of the state `cancelled`.
  stop_service-state :
      (d : Device W)
      → let (ok, d') = stop_service c d in
        (ok ≡ true → d'.state ≡ idle) × (ok ≡ false → d'.state ≡ d.state)
  unfolding stop_service
  stop_service-state d =
      ground
        (arith, queue_message-InWorld c (stop 0) (service_use c (assert c (rank d.state == 4) d)))

  abbrev waiting : Device W → Device W
  waiting d = record d { state = cancelled }

  abbrev ready : Device W → Bool
  ready d = not (is_cancelled d.state)

  -- A cancel of a device that plays waits until another task takes the device out of `cancelled`.
  -- If it returns, it reports success for a device that is idle, and failure for one that is not
  -- `cancelled` any more.
  cancel_running :
      (d : Device W) (env : List (Device W → Device W))
      (r : Bool × Device W × List (Device W → Device W))
      → d.state ≡ running
      → cancel c d env ≡ some r
      → (r.0 ≡ true → r.1.state ≡ idle) × (r.0 ≡ false → is_cancelled r.1.state ≡ false)
  unfolding cancel
  cancel_running d env r e h = elim (Option-cases (poll ready (waiting d) env)) [
    | inl n ↦ ground arith
    | inr ((_, t, rest), y) ↦
        ground (arith, stop_service-state t, poll_done ready (waiting d) env y)
  ]

  -- In any other state, a cancel changes nothing and reports failure.
  cancel_inactive :
      (d : Device W) (env : List (Device W → Device W))
      → d.state ≢ running
      → cancel c d env ≡ some (false, d, env)
  unfolding cancel
  cancel_inactive d env h = ground arith
