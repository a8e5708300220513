-- ===== src/Sound/Receive.antt =====
-- `CVCHIQSoundBaseDevice_Callback` of ampi/vc4/sound/vchiqsoundbasedevice.c.
pub mod Transitions
pub mod Flow
use ampi.Base.{
  ℕ, ◌+◌, ◌*◌, ◌%◌, ◌^◌, ◌≡◌, Bool, true, false, ◌==◌, leb, if◌then◌else◌, ◌||◌, ◌&&◌, not,
}
use ampi.Base.Words.{add32, sub32, word}
use ampi.Sound.{
  Device, Calls, State, created, idle, running, cancelled, terminating, error, unknown, rank,
  Received, result, complete, other, write_cookie1, write_cookie2,
}
use ampi.Sound.Send.{service_use, service_release, assertion_failed, assert, write_chunk}

-- `VCHI_CALLBACK_REASON_T`, as far as the device tells the reasons apart
pub data Reason : Type 0 where
  msg_available other_reason : Reason

abbrev pub is_cancelled : State → Bool
is_cancelled cancelled = true
is_cancelled _ = false

-- "if there is no more than one chunk left queued"
abbrev pub nearly_drained : {W : Type 0} → Device W → Bool
nearly_drained d = leb (sub32 d.write_pos d.complete_pos) (d.chunk_size * 2 % word)

-- The bytes of a COMPLETE message are added to the position. The count is an `int32_t`, of which
-- the code keeps 30 bits.
abbrev pub credit : {W : Type 0} → ℕ → Device W → Device W
credit count d = record d { complete_pos = add32 d.complete_pos (count % 2 ^ 30) }

module _ {W : Type 0} (c : Calls W) where
  -- The tail of the case `VC_AUDIO_MSG_TYPE_COMPLETE`, once a chunk is wanted.
  unfoldable pub refill : Device W → Device W
  refill d =
      if is_cancelled d.state
      then record d { state = terminating }
      else let (r, d') = write_chunk c d in
        if r == 0 then d' else record (assertion_failed c d') { state = error }

  -- The case `VC_AUDIO_MSG_TYPE_COMPLETE`.
  unfoldable pub on_complete : ℕ → ℕ → ℕ → Device W → Device W
  on_complete count cookie1 cookie2 d =
      if rank d.state == 1 || rank d.state == 5
      then d
      else let d' = assert c (leb 2 (rank d.state)) d in
        if not (cookie1 == write_cookie1) || not (cookie2 == write_cookie2)
        then assertion_failed c (record d' { state = error })
        else let d'' = credit count d' in if nearly_drained d'' then refill d'' else d''

  unfoldable pub on_message : Received → Device W → Device W
  on_message (result success) d = record d { last_result = success; event = true }
  on_message (complete count cookie1 cookie2) d = on_complete count cookie1 cookie2 d
  on_message other d = assertion_failed c d

  -- `CVCHIQSoundBaseDevice_Callback`
  unfoldable pub callback : Reason → Device W → Device W
  callback msg_available d =
      let u = service_use c d in
      let (r, m, w) = c.msg_dequeue u.service u.world in
      let d' = record u { world = w } in
      if r == 0
      then service_release c (on_message m d')
      else assertion_failed c (record (service_release c d') { state = error })
  callback other_reason d = assertion_failed c d
