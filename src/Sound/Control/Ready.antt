-- ===== src/Sound/Control/Ready.antt =====
-- `Start` on a new device, together with the answers of the firmware that it waits for.
use ampi.Base.{
  ℕ, ◌≡◌, refl, ◌∙◌, ap, arith, Bool, true, false, leb, some, List, ◌∷◌, ◌==◌, if◌then◌else◌,
}
use ampi.Wait.{bind_lem, Task, ◌>>=◌, poll_ready, poll_yield, lift, pure}
use ampi.Sound.{
  Destination, Device, Calls, Message, rank, created, idle, config, control, open_audio,
}
use ampi.Sound.Send.{queue_message, service_release, await_result, call_message}
use ampi.Sound.Control.{
  start, set_up, initialise, connect, service_open, set_control_message, attempt, play,
  volume_to_chip, volume_default,
}
use ampi.Sound.Control.Drain.{Takes, queue_message_accepted}
use ampi.Sound.Control.Outcome.{Started, play-Started}

-- What another task does when it hands over the message RESULT with success.
pub record Answers {W : Type 0} (e : Device W → Device W) : Type 0 where
  pub event : (d : Device W) → (e d).event ≡ true
  pub success : (d : Device W) → (e d).last_result ≡ 0

-- The calls with which a device is set up succeed, and VCHI takes the messages of the set-up.
pub record Willing {W : Type 0} (c : Calls W) : Type 0 where
  pub initialises : (w : W) → (c.initialise w).0 ≡ 0
  pub connects : (i : ℕ) (w : W) → (c.connect i w).0 ≡ 0
  pub opens : (i : ℕ) (w : W) → (c.service_open i w).0 ≡ 0
  pub takes_config : (channels rate bits : ℕ) → Takes c (config channels rate bits)
  pub takes_control : (volume : ℕ) (dest : Destination) → Takes c (control volume dest)
  pub takes_open : Takes c open_audio

attempt_lem :
    {W : Type 0} (step : Task (Device W) ℕ) (next : Task (Device W) Bool) (d t : Device W)
    (env rest : List (Device W → Device W))
    → step d env ≡ some (0, t, rest)
    → attempt step next d env ≡ next t rest
unfolding attempt
attempt_lem step next d t env rest h = ground (arith, h)

lift_lem :
    {W : Type 0} (f : Device W → ℕ × Device W) (d : Device W) (env : List (Device W → Device W))
    → (f d).0 ≡ 0
    → lift f d env ≡ some (0, (f d).1, env)
lift_lem f d env h = ap (λ r. some (r, (f d).1, env)) h

module _ {W : Type 0} (c : Calls W) (w : Willing c) where
  -- The device when the message is out and the wait begins.
  abbrev asked : Message → Device W → Device W
  asked m d = (queue_message c m (record d { event = false })).1

  asked-event : (m : Message) (d : Device W) → (asked m d).event ≡ false
  unfolding queue_message
  asked-event m d = refl

  await_result_lem :
      (r : ℕ) (d : Device W) (e : Device W → Device W) (env : List (Device W → Device W))
      → r ≡ 0
      → d.event ≡ false
      → Answers e
      → await_result c r d (e ∷ env) ≡ some (tt, e d, env)
  unfolding await_result
  await_result_lem r d e env z f a = rw z (
      poll_yield (λ (d : Device W). d.event) d e env f
      ∙ poll_ready (λ (d : Device W). d.event) (e d) env (a.event d))

  call_message_lem :
      (m : Message) (d : Device W) (e : Device W → Device W) (env : List (Device W → Device W))
      → Takes c m
      → Answers e
      → call_message c m d (e ∷ env) ≡ some (0, e (asked m d), env)
  unfolding call_message
  call_message_lem m d e env takes a =
      let sent = queue_message_accepted c m (record d { event = false }) takes in
      let waited = await_result_lem _ (asked m d) e env sent (asked-event m d) a in
      bind_lem (await_result c (queue_message c m (record d { event = false })).0)
        (λ _. lift (λ d. (d.last_result, d))) (asked m d) (e (asked m d)) waited
      ∙ ap (λ n. some (n, e (asked m d), env)) (a.success (asked m d))

  -- The device when its service is open, and not used yet.
  abbrev opened : Device W → Device W
  opened d = service_release c (service_open c (connect c (initialise c d).1).1).1

  -- The device behind the two answers.
  abbrev configured : (e f : Device W → Device W) → Device W → Device W
  configured e f d =
      let d' = e (asked (config 2 d.sample_rate 16) d) in
      f (asked (control (volume_to_chip volume_default) d'.destination) d')

  set_up_lem :
      (d : Device W) (e f : Device W → Device W) (env : List (Device W → Device W))
      → Answers e
      → Answers f
      → (t : Device W) × (set_up c d (e ∷ f ∷ env) ≡ some (true, t, env)) × (t.state ≡ idle)
  unfolding set_up set_control_message
  set_up_lem d e f env a b =
      let d1 = (initialise c d).1 in
      let d2 = (connect c d1).1 in
      let d3 = opened d in
      let d4 = e (asked (config 2 d3.sample_rate 16) d3) in
      let d5 = configured e f d3 in
      let d6 = (queue_message c open_audio d5).1 in
      (
        record d6 { state = idle },
        attempt_lem _ _ d d1 _ _ (lift_lem (initialise c) d _ (w.initialises d.world))
            ∙ attempt_lem _ _ d1 d2 _ _ (lift_lem (connect c) d1 _ (w.connects _ _))
            ∙ attempt_lem _ _ d2 _ _ _ (lift_lem (service_open c) d2 _ (w.opens _ _))
            ∙ attempt_lem _ _ d3 d4 _ _
                (call_message_lem (config 2 d3.sample_rate 16) d3 e _ (w.takes_config _ _ _) a)
            ∙ attempt_lem _ _ d4 d5 _ _ (call_message_lem _ d4 f env (w.takes_control _ _) b)
            ∙ attempt_lem _ _ d5 d6 _ _ (
                lift_lem (queue_message c open_audio) d5 env
                  (queue_message_accepted c open_audio d5 w.takes_open)),
        refl,
      )

  -- A start of a new device returns as soon as two answers RESULT with success have come, if VCHI
  -- takes the calls of the set-up: the device is idle then, and what follows is the start of the
  -- playback, whose result is reported.
  pub start_returns :
      (d : Device W) (e f : Device W → Device W) (env : List (Device W → Device W))
      → d.state ≡ created
      → Answers e
      → Answers f
      → (t : Device W) × (t.state ≡ idle)
        × (start c d (e ∷ f ∷ env) ≡ some ((play c t).0, (play c t).1, env))
        × Started (play c t).0 (play c t).1
  unfolding start
  start_returns d e f env z a b =
      let (t, h, i) = set_up_lem d e f env a b in
      let after : Bool → Task (Device W) Bool =
        λ ready. if ready then lift (play c) else pure false in
      (
        t,
        i,
        ap
              (λ s.
                if leb 2 (rank s)
                then pure false d (e ∷ f ∷ env)
                else if rank s == 0
                then (set_up c >>= after) d (e ∷ f ∷ env)
                else lift (play c) d (e ∷ f ∷ env))
              z
            ∙ bind_lem (set_up c) after d t h,
        play-Started c t,
      )
