-- ===== src/Sound/Control.antt =====
-- ampi/vc4/sound/vchiqsoundbasedevice.c: `Start`, `Cancel` and `SetControl`.
pub mod Outcome
pub mod Uses
pub mod Drain
pub mod Ready
use ampi.Base.{
  ℕ, suc, ◌-◌, ◌*◌, ◌/◌, ◌%◌, Bool, true, false, ◌==◌, leb, ltb, if◌then◌else◌, ◌||◌, ◌&&◌, not,
}
use ampi.Base.Words.{word}
use ampi.Base.Int.{ℤ, pos, negsuc, leb_ℤ}
use ampi.Wait.{Task, ◌>>=◌, ◌>>◌, pure, lift, modify, poll}
use ampi.Sound.{
  Device, Calls, idle, running, cancelled, error, rank, Destination, automatic, headphones, hdmi,
  unknown_destination, config, control, open_audio, start_audio, stop,
}
use ampi.Sound.Send.{service_use, service_release, assert, queue_message, call_message, write_chunk}
use ampi.Sound.Receive.{is_cancelled}

-- `VCHIQ_SOUND_VOLUME_DEFAULT`
abbrev pub volume_default : ℤ
volume_default = pos 0

-- `VOLUME_TO_CHIP`: minus `(volume << 8) / 100`, which rounds towards 0, as an `unsigned`.
unfoldable pub volume_to_chip : ℤ → ℕ
volume_to_chip (pos n) = (word - n * 256 / 100 % word) % word
volume_to_chip (negsuc n) = suc n * 256 / 100 % word

-- The volume that `CVCHIQSoundBaseDevice_SetControl` takes: one in -10000..400, or the default.
unfoldable pub checked_volume : ℤ → ℤ
checked_volume v = if leb_ℤ (negsuc 9999) v && leb_ℤ v (pos 400) then v else volume_default

abbrev pub checked_destination : Destination → Destination → Destination
checked_destination old unknown_destination = old
checked_destination old automatic = automatic
checked_destination old headphones = headphones
checked_destination old hdmi = hdmi

-- A negative `short` is below 2 too.
abbrev pub short_below_two : ℕ → Bool
short_below_two v = ltb v 2 || leb 0x8000 v

abbrev pub fail : {W : Type 0} → Device W → Bool × Device W
fail d = (false, record d { state = error })

-- A step of `Start` with the error return behind it: any status but 0 ends it.
unfoldable pub attempt :
    {W : Type 0} → Task (Device W) ℕ → Task (Device W) Bool → Task (Device W) Bool
attempt step next = step >>= λ r. if r == 0 then next else lift fail

module _ {W : Type 0} (c : Calls W) where
  -- `CVCHIQSoundBaseDevice_Start` from the two calls of `WriteChunk` on.
  unfoldable pub first_chunks : Device W → Bool × Device W
  first_chunks d =
      let (r, d1) = write_chunk c d in
      let (r', d2) = if r == 0 then write_chunk c d1 else (r, d1) in
      if r' == 0 then (true, service_release c d2) else fail (service_release c d2)

  -- `CVCHIQSoundBaseDevice_Start` from the check of the peer's version on.
  unfoldable pub check_peer : Device W → Bool × Device W
  check_peer d =
      let (r, version, w) = c.peer_version d.service d.world in
      let d' = record d { world = w } in
      if not (r == 0) || short_below_two version
      then fail (service_release c d')
      else first_chunks (record d' { write_pos = 0; complete_pos = 0 })

  -- `CVCHIQSoundBaseDevice_Start` once the service is open and set up.
  unfoldable pub play : Device W → Bool × Device W
  play d =
      let (r, d') = queue_message c start_audio (assert c (rank d.state == 1) d) in
      if r == 0 then check_peer (service_use c (record d' { state = running })) else fail d'

  abbrev initialise : Device W → ℕ × Device W
  initialise d =
      let (r, instance_, w) = c.initialise d.world in
      (r, record d { vchi_instance = instance_; world = w })

  abbrev connect : Device W → ℕ × Device W
  connect d = let (r, w) = c.connect d.vchi_instance d.world in (r, record d { world = w })

  abbrev service_open : Device W → ℕ × Device W
  service_open d =
      let (r, handle, w) = c.service_open d.vchi_instance d.world in
      (r, record d { service = handle; world = w })

  unfoldable pub set_control_message : Task (Device W) ℕ
  set_control_message d = call_message c (control (volume_to_chip volume_default) d.destination) d

  -- `CVCHIQSoundBaseDevice_Start` for a device in state `created`, up to the message OPEN.
  unfoldable pub set_up : Task (Device W) Bool
  set_up = attempt (lift initialise) (
      attempt (lift connect) (
        attempt (lift service_open) (
          modify (service_release c)
          >> attempt (λ d. call_message c (config 2 d.sample_rate 16) d)
              (attempt set_control_message (
                attempt (lift (queue_message c open_audio))
                  (lift (λ d. (true, record d { state = idle }))))))))

  -- `CVCHIQSoundBaseDevice_Start`
  unfoldable pub start : Task (Device W) Bool
  start d env =
      if leb 2 (rank d.state)
      then pure false d env
      else if rank d.state == 0
      then (set_up >>= λ ready. if ready then lift play else pure false) d env
      else lift play d env

  -- The end of `CVCHIQSoundBaseDevice_Cancel`, once the device has left the state `cancelled`. The
  -- error return gives back no use of the service.
  unfoldable pub stop_service : Device W → Bool × Device W
  stop_service d =
      let (r, d') = queue_message c (stop 0) (service_use c (assert c (rank d.state == 4) d)) in
      if r == 0 then (true, record (service_release c d') { state = idle }) else (false, d')

  -- `CVCHIQSoundBaseDevice_Cancel`
  unfoldable pub cancel : Task (Device W) Bool
  cancel d env =
      if rank d.state == 2
      then (do
        modify (λ d. record d { state = cancelled })
        poll (λ d. not (is_cancelled d.state))
        lift stop_service)
          d env
      else pure false d env

  -- `CVCHIQSoundBaseDevice_SetControl`. The result of the call is only logged.
  unfoldable pub set_control : ℤ → Destination → Task (Device W) (Unit {0})
  set_control volume dest = do
    modify (λ d. record d { destination = checked_destination d.destination dest })
    r ← λ d. call_message c (control (volume_to_chip (checked_volume volume)) d.destination) d
    pure tt
