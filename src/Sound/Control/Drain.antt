-- ===== src/Sound/Control/Drain.antt =====
-- `Cancel` together with the callback that ends its wait.
use ampi.Base.{ℕ, ◌≡◌, refl, arith, Bool, true, false, some, List, [], ◌∷◌, ◌++◌, ◌∙◌, not, ◌==◌}
use ampi.Wait.{poll, poll_ready, poll_yield}
use ampi.Sound.{
  Device, Calls, Message, message, stop, rank, running, cancelled, terminating, idle, complete,
  write_cookie1, write_cookie2,
}
use ampi.Sound.Receive.{msg_available, on_message, callback, nearly_drained, credit, is_cancelled}
use ampi.Sound.Receive.Transitions.{on_complete_cancelled}
use ampi.Sound.Send.{queue_message, assert, service_use}
use ampi.Sound.Control.{cancel, stop_service}

module _ {W : Type 0} (c : Calls W) where
  abbrev waiting : Device W → Device W
  waiting d = record d { state = cancelled }

  abbrev ready : Device W → Bool
  ready d = not (is_cancelled d.state)

  -- The callback with a COMPLETE that leaves at most one chunk outstanding.
  callback_drains :
      (count : ℕ) (d : Device W) (w : W)
      → d.state ≡ cancelled
      → c.msg_dequeue d.service (c.service_use d.service d.world)
        ≡ (0, complete count write_cookie1 write_cookie2, w)
      → nearly_drained (credit count d) ≡ true
      → (callback c msg_available d).state ≡ terminating
  unfolding callback on_message
  callback_drains count d w e m n =
      rw m (ground (arith, on_complete_cancelled c count (record d { world = w }) e))

  -- VCHI takes a message.
  abbrev pub Takes : Message → Type 0
  Takes m = (handle : ℕ) (w : W) → (c.msg_queue handle (message m) w).0 ≡ 0

  pub queue_message_accepted : (m : Message) (d : Device W) → Takes m → (queue_message c m d).0 ≡ 0
  unfolding queue_message
  queue_message_accepted m d q = q d.service (c.service_use d.service d.world)

  stop_service_accepted :
      (d : Device W)
      → Takes (stop 0)
      → ((stop_service c d).0 ≡ true) × ((stop_service c d).1.state ≡ idle)
  unfolding stop_service
  stop_service_accepted d q =
      ground
        (arith, queue_message_accepted (stop 0) (service_use c (assert c (rank d.state == 4) d)) q)

  -- What other tasks do at some yields, and that the device goes on to wait during them.
  abbrev pub behind : List (Device W → Device W) → Device W → Device W
  behind [] d = d
  behind (e ∷ es) d = behind es (e d)

  abbrev pub StillWaits : List (Device W → Device W) → Device W → Type 0
  StillWaits [] d = d.state ≡ cancelled
  StillWaits (e ∷ es) d = (d.state ≡ cancelled) × StillWaits es (e d)

  StillWaits-behind :
      (es : List (Device W → Device W)) (d : Device W)
      → StillWaits es d
      → (behind es d).state ≡ cancelled
  StillWaits-behind [] d h = h
  StillWaits-behind (e ∷ es) d (now, later) = StillWaits-behind es (e d) later

  still_waiting : (d : Device W) → d.state ≡ cancelled → ready d ≡ false
  still_waiting d h = rw h refl

  poll_behind :
      (es : List (Device W → Device W)) (d : Device W) (env : List (Device W → Device W))
      → StillWaits es d
      → poll ready d (es ++ env) ≡ poll ready (behind es d) env
  poll_behind [] d env h = refl
  poll_behind (e ∷ es) d env (now, later) =
      poll_yield ready d e (es ++ env) (still_waiting d now) ∙ poll_behind es (e d) env later

  -- A cancel of a device that plays ends with success, in the state `idle`, as soon as a COMPLETE
  -- comes that leaves at most one chunk outstanding, after any yields at which the device goes on to
  -- wait, if VCHI takes the message STOP.
  pub cancel_drains :
      (count : ℕ) (d : Device W) (w : W) (es env : List (Device W → Device W))
      → d.state ≡ running
      → StillWaits es (waiting d)
      → let e = behind es (waiting d) in
        c.msg_dequeue e.service (c.service_use e.service e.world)
          ≡ (0, complete count write_cookie1 write_cookie2, w)
        → nearly_drained (credit count (behind es (waiting d))) ≡ true
        → Takes (stop 0)
        → (t : Device W) × (cancel c d (es ++ callback c msg_available ∷ env) ≡ some (true, t, env))
          × (t.state ≡ idle)
  unfolding cancel
  cancel_drains count d w es env e h m n q =
      let f = behind es (waiting d) in
      let cancelled_still = StillWaits-behind es (waiting d) h in
      let d' = callback c msg_available f in
      (
        (stop_service c d').1,
        rw e (
            ground (
              arith,
              poll_behind es (waiting d) (callback c msg_available ∷ env) h,
              poll_yield ready f (callback c msg_available) env (still_waiting f cancelled_still),
              poll_ready ready d' env,
              callback_drains count f w cancelled_still m n,
              stop_service_accepted d' q,
            )),
        (stop_service_accepted d' q).1,
      )
