-- ===== src/Event/Wake.antt =====
-- A remote event of ampi/vc4/vchiq/vchiq_core.c is not lost, whether it is signalled before the wait or
-- during it.
use ampi.Base.{
  suc, ◌-◌, ◌≡◌, ◌∙◌, refl, ap, Bool, true, false, not, ◌==◌, if◌then◌else◌, none, some, List, [],
  ◌∷◌,
}
use ampi.Wait.{Task, modify, ◌>>=◌, ◌>>◌, poll, poll_ready, poll_yield, poll_blocked, bind_lem}
use ampi.Sync.Semaphore.{down, up}
use ampi.Event.{
  Event, event_cell, arm, await_armed, disarm, take_fired, remote_event_wait,
  remote_event_signal_local, remote_event_poll, remote_event_signal,
}

-- The other processor signals, and the interrupt that this causes polls the event.
abbrev pub wakes : Event → Event
wakes s = remote_event_poll (remote_event_signal s)

-- An event that has been waited for
abbrev pub spent : Event → Event
spent s = record s { armed = false; fired = false; event = 0 }

down_waits :
    (s : Event) (env : List (Event → Event))
    → s.event ≡ 0
    → s.fired ≡ false
    → down event_cell (arm s) (wakes ∷ env)
      ≡ some (
        tt,
        record s { fired = true; armed = false; event = 0; doorbells = suc s.doorbells },
        env,
      )
unfolding down up remote_event_poll remote_event_signal remote_event_signal_local
down_waits s env empty quiet =
    let ready : Event → Bool = λ t. not (t.event == 0) in
    let woken : Event = wakes (arm s) in
    let closed : ready (arm s) ≡ false = rw empty refl in
    let open_now : ready woken ≡ true = rw empty refl in
    let first : poll ready (arm s) (wakes ∷ env) ≡ some (tt, woken, env) =
      poll_yield ready (arm s) wakes env closed ∙ poll_ready ready woken env open_now in
    bind_lem (poll ready) (λ _. modify (λ t. record t { event = t.event - 1 })) (arm s) woken first
    ∙ rw empty refl

bind_none :
    {A B : Type 0} (m : Task Event A) (f : A → Task Event B) (s : Event)
    (env : List (Event → Event))
    → m s env ≡ none
    → (m >>= f) s env ≡ none
bind_none m f s env h = ap (λ o. elim o [ none ↦ none | some (a, t, rest) ↦ f a t rest ]) h

-- What the other tasks do does not post the semaphore.
pub data Idle : List (Event → Event) → Type 0 where
  no_yields : Idle []
  yield_next :
      (e : Event → Event) (env : List (Event → Event))
      → ((s : Event) → s.event ≡ 0 → (e s).event ≡ 0)
      → Idle env
      → Idle (e ∷ env)

poll-Idle :
    (s : Event) (env : List (Event → Event))
    → s.event ≡ 0
    → Idle env
    → poll (λ (t : Event). not (t.event == 0)) s env ≡ none
poll-Idle s [] h no_yields = poll_blocked (λ (t : Event). not (t.event == 0)) s (rw h refl)
poll-Idle s (e ∷ env) h (yield_next _ _ keeps idle) =
    poll_yield (λ (t : Event). not (t.event == 0)) s e env (rw h refl)
    ∙ poll-Idle (e s) env (keeps s h) idle

module _ (between : Event → Event) where
  -- The wait for an event that has not fired
  abbrev await : Task Event (Unit {0})
  await = modify (λ t. between (arm t)) >> await_armed

  abbrev unarmed : Task Event (Unit {0})
  unarmed = await >> modify disarm

  remote_event_wait_quiet :
      (s : Event) (env : List (Event → Event))
      → s.fired ≡ false
      → remote_event_wait between s env ≡ (unarmed >> modify take_fired) s env
  unfolding remote_event_wait
  remote_event_wait_quiet s env h =
      ap (λ b. if b then some (tt, take_fired s, env) else (unarmed >> modify take_fired) s env) h

  -- The wait ends in the state `t` in which the inner wait ends.
  wait_ends :
      (s t : Event) (env rest : List (Event → Event))
      → s.fired ≡ false
      → await_armed (between (arm s)) env ≡ some (tt, t, rest)
      → remote_event_wait between s env ≡ some (tt, take_fired (disarm t), rest)
  wait_ends s t env rest f h =
      remote_event_wait_quiet s env f
      ∙ bind_lem unarmed (λ _. modify take_fired) s (disarm t)
          (bind_lem await (λ _. modify disarm) s t h)

  wait_blocks :
      (s : Event) (env : List (Event → Event))
      → s.fired ≡ false
      → await_armed (between (arm s)) env ≡ none
      → remote_event_wait between s env ≡ none
  wait_blocks s env f h =
      remote_event_wait_quiet s env f
      ∙ bind_none unarmed (λ _. modify take_fired) s env
          (bind_none await (λ _. modify disarm) s env h)

  fired_at_once :
      (s : Event) (env : List (Event → Event))
      → s.fired ≡ true
      → remote_event_wait between s env ≡ some (tt, take_fired s, env)
  unfolding remote_event_wait
  fired_at_once s env h =
      ap (λ b. if b then some (tt, take_fired s, env) else (unarmed >> modify take_fired) s env) h

abbrev pub nothing : Event → Event
nothing s = s

await_quiet :
    (s : Event) (env : List (Event → Event))
    → s.fired ≡ false
    → await_armed s env ≡ down event_cell s env
unfolding await_armed
await_quiet s env h = ap (λ b. if b then some (tt, s, env) else down event_cell s env) h

down-Idle :
    (s : Event) (env : List (Event → Event)) → s.event ≡ 0 → Idle env → down event_cell s env ≡ none
unfolding down
down-Idle s env h idle =
    bind_none (poll (λ (t : Event). not (t.event == 0)))
      (λ _. modify (λ t. record t { event = t.event - 1 })) s env (poll-Idle s env h idle)

-- A wait for an event that has fired returns at once. If it has not, but the other processor signals
-- between the two tests, the wait returns without a wait for the semaphore; if not, it ends as soon
-- as the other processor signals and its interrupt is handled, and it does not end as long as
-- nothing posts the semaphore. The event has not fired afterwards, and is not armed if the wait has
-- armed it. (Its semaphore is at 0 before.)
pub remote_event_wait_lem :
    (s : Event) (env idle : List (Event → Event))
    → s.event ≡ 0
    → Idle idle
    → (s.fired ≡ true → remote_event_wait nothing s env ≡ some (tt, take_fired s, env))
      × (s.fired ≡ false
          → (remote_event_wait remote_event_signal s env
              ≡ some (tt, record (spent s) { doorbells = suc s.doorbells }, env))
            × (remote_event_wait nothing s (wakes ∷ env)
                ≡ some (tt, record (spent s) { doorbells = suc s.doorbells }, env))
            × (remote_event_wait nothing s idle ≡ none))
unfolding remote_event_signal await_armed
remote_event_wait_lem s env idle empty still =
    let woken : Event = record s {
      fired = true;
      armed = false;
      event = 0;
      doorbells = suc s.doorbells;
    } in
    (
      fired_at_once nothing s env,
      λ f. (
        wait_ends remote_event_signal s (remote_event_signal (arm s)) env env f refl
            ∙ ap
                (λ n. some (
                  tt,
                  record s { armed = false; fired = false; event = n; doorbells = suc s.doorbells },
                  env,
                ))
                empty,
        wait_ends nothing s woken (wakes ∷ env) env f
            (await_quiet (arm s) (wakes ∷ env) f ∙ down_waits s env empty f),
        wait_blocks nothing s idle f
            (await_quiet (arm s) idle f ∙ down-Idle (arm s) idle empty still),
      ),
    )
