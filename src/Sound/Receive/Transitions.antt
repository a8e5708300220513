-- ===== src/Sound/Receive/Transitions.antt =====
-- How `CVCHIQSoundBaseDevice_Callback` moves the state of the device.
use ampi.Base.{ℕ, ◌≡◌, ◌≢◌, refl, if◌then◌else◌, arith, Bool, true, false, ◌⊎◌, leb}
use ampi.Sound.{
  Device, Calls, State, created, idle, running, cancelled, terminating, error, unknown, rank,
  Received, result, complete, other, write_cookie1, write_cookie2,
}
use ampi.Sound.Send.{service_use, assert, assertion_failed}
use ampi.Sound.Send.Chunk.{write_chunk-fields}
use ampi.Sound.Receive.{
  Reason, msg_available, other_reason, refill, on_complete, on_message, callback, nearly_drained,
  credit,
}

-- The moves of the state that one callback can make: any state to `error`; `cancelled` to
-- `terminating`; and a state in which samples are sent to `idle`.
abbrev pub may_change : State → State → Bool
may_change s error = true
may_change created created = true
may_change created idle = true
may_change idle idle = true
may_change running running = true
may_change running idle = true
may_change cancelled cancelled = true
may_change cancelled terminating = true
may_change terminating terminating = true
may_change terminating idle = true
may_change unknown unknown = true
may_change unknown idle = true
may_change _ _ = false

may_change_refl : (s : State) → may_change s s ≡ true
may_change_refl created = refl
may_change_refl idle = refl
may_change_refl running = refl
may_change_refl cancelled = refl
may_change_refl terminating = refl
may_change_refl error = refl
may_change_refl unknown = refl

-- The states in which a completion is looked at.
abbrev pub Active : State → Type 0
Active s = (s ≢ idle) × (s ≢ error)

module _ {W : Type 0} (c : Calls W) where
  refill-change : (d : Device W) → Active d.state → may_change d.state (refill c d).state ≡ true
  unfolding refill
  refill-change d a = ground (arith, write_chunk-fields c d, may_change_refl d.state)

  on_complete-change :
      (count cookie1 cookie2 : ℕ) (d : Device W)
      → may_change d.state (on_complete c count cookie1 cookie2 d).state ≡ true
  unfolding on_complete
  on_complete-change count cookie1 cookie2 d = ground (
    arith,
    may_change_refl d.state,
    refill-change (credit count (assert c (leb 2 (rank d.state)) d)),
  )

  on_message-change :
      (m : Received) (d : Device W) → may_change d.state (on_message c m d).state ≡ true
  unfolding on_message
  on_message-change (result success) d = may_change_refl d.state
  on_message-change (complete count cookie1 cookie2) d = on_complete-change count cookie1 cookie2 d
  on_message-change other d = may_change_refl d.state

  -- Whatever VCHI reports and whatever message is dequeued, one callback changes the state along
  -- `may_change` or not at all.
  pub callback-change :
      (reason : Reason) (d : Device W) → may_change d.state (callback c reason d).state ≡ true
  unfolding callback
  callback-change msg_available d =
      let u = service_use c d in
      let (r, m, w) = c.msg_dequeue u.service u.world in
      ground (arith, on_message-change m (record u { world = w }))
  callback-change other_reason d = may_change_refl d.state

  -- A cancelled device sends nothing more on a well-formed COMPLETE: it takes note of the bytes,
  -- and goes to `terminating` exactly when at most one chunk is outstanding.
  pub on_complete_cancelled :
      (count : ℕ) (d : Device W)
      → d.state ≡ cancelled
      → let d' = credit count d in
        on_complete c count write_cookie1 write_cookie2 d
        ≡ (if nearly_drained d' then record d' { state = terminating } else d')
  unfolding on_complete refill
  on_complete_cancelled count d e = ground arith

  -- In the states `idle` and `error` a COMPLETE is dropped, whatever it says.
  on_complete_dropped :
      (count cookie1 cookie2 : ℕ) (d : Device W)
      → (d.state ≡ idle) ⊎ (d.state ≡ error)
      → on_complete c count cookie1 cookie2 d ≡ d
  unfolding on_complete
  on_complete_dropped count cookie1 cookie2 d h = ground arith

  -- Wrong cookies put a device that is playing into the state `error`, and nothing is sent.
  on_complete_forged :
      (count cookie1 cookie2 : ℕ) (d : Device W)
      → d.state ≡ running
      → (cookie1 ≢ write_cookie1) ⊎ (cookie2 ≢ write_cookie2)
      → on_complete c count cookie1 cookie2 d ≡ assertion_failed c (record d { state = error })
  unfolding on_complete
  on_complete_forged count cookie1 cookie2 d e h = ground arith
