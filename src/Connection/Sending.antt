-- ===== src/Connection/Sending.antt =====
-- The PAUSE and the RESUME that ampi/vc4/vchiq/vchiq_core.c sends.
use ampi.Base.{◌≡◌, ◌∙◌, refl, sym, subst, Bool, true, false, if◌then◌else◌, none, some, List}
use ampi.Wait.{bind_lem, modify, ◌>>=◌, ◌>>◌, pure}
use ampi.Sync.Mutex.{mutex_unlock}
use ampi.Connection.{
  master_resumes, Calls, retry_later, after_pause, answer_pause, ConnState, CoreState, is_retry,
  master_pauses, pause_message, pause_sent, paused, pausing, queue_and_hold, queue_held,
  resume_message, resuming, send_pause, send_resume, set_conn_state,
}
use ampi.Connection.Diagram.{
  held, held_bulks, may_pause, sends_pause, pauses, Ends, placed, set-Goes, idle, idle-Goes,
}
use ampi.Connection.Locks.{
  NoneInside, queue_and_hold_lem, with_bulks, master_pauses_lem, master_resumes-Freed, resumed-Ends,
}

module _ {C : Type 0} where
  -- The answer to a PAUSE, when it is known whether it was sent
  answered-Ends :
      (k : Calls C) (a : ConnState) (s : CoreState C) (env : List (CoreState C → CoreState C))
      (c : C) (failed : Bool)
      → may_pause a ≡ true
      → held a ≡ 0
      → held_bulks a k.is_master ≡ 0
      → let next =
          if failed
          then pure false
          else master_pauses k >> (modify (set_conn_state k paused) >> pure true) in
        Ends k a s env (
          (next >>= λ handled. pure tt)
            (record (idle a s) { slot_mutex = if failed then 0 else 1; client = c })
            env)
  unfolding Ends held held_bulks
  answered-Ends k a s env c true run f g =
      (idle-Goes k a s (record (idle a s) { client = c }) f g refl refl refl refl refl, refl)
  answered-Ends k a s env c false run f g =
      let u = record (idle a s) { slot_mutex = 1; client = c } in
      let t = with_bulks k.is_master u in
      let rest = modify (set_conn_state k paused) >> pure true in
      subst (Ends k a s env)
        (sym (
          bind_lem (master_pauses k >> rest) (λ handled. pure tt) u (set_conn_state k paused t)
            (bind_lem (master_pauses k) (λ x. rest) u t (master_pauses_lem k.is_master u env))))
        (set-Goes k a paused s t (pauses run) refl refl refl refl, refl)

  pub answer_pause-Ends :
      (k : Calls C) (a : ConnState) (s : CoreState C) (env : List (CoreState C → CoreState C))
      → may_pause a ≡ true
      → held a ≡ 0
      → held_bulks a k.is_master ≡ 0
      → Ends k a s env ((answer_pause k >>= λ handled. pure tt) (idle a s) env)
  unfolding answer_pause
  answer_pause-Ends k a s env run f g =
      let r = k.queue pause_message s.client in
      let failed = is_retry r.0 in
      let u = record (idle a s) { slot_mutex = if failed then 0 else 1; client = r.1 } in
      let next = λ (b : Bool).
        if b
        then pure false
        else master_pauses k >> (modify (set_conn_state k paused) >> pure true) in
      subst (λ o. Ends k a s env (elim o [ none ↦ none | some (b, t, rest) ↦ pure tt t rest ]))
        (sym (
          bind_lem (queue_and_hold k pause_message) next (idle a s) u
            (queue_and_hold_lem k (idle a s) env)))
        (answered-Ends k a s env r.1 failed run f g)

  -- The end of a PAUSE of this side, when it is known whether it was sent
  sent_pause-Ends :
      (k : Calls C) (s : CoreState C) (c : C) (failed : Bool)
      (env : List (CoreState C → CoreState C))
      → NoneInside s
      → Ends k pausing s env (
          after_pause k failed
            (record (with_bulks k.is_master (idle pausing s)) {
              slot_mutex = if failed then 0 else 1;
              client = c;
            })
            env)
  unfolding after_pause held held_bulks Ends
  sent_pause-Ends k s c true env h =
      let start : CoreState C = record (idle pausing s) { client = c } in
      let (u, run, f) = master_resumes-Freed k k.is_master start env h in
      subst (Ends k pausing s env)
        (sym (
          bind_lem (master_resumes k) (λ x. modify retry_later) (with_bulks k.is_master start) u
            run))
        (
          idle-Goes k pausing s (retry_later u) refl refl f.same f.slot f.bulks f.count f.quiet,
          refl,
        )
  sent_pause-Ends k s c false env h = (
    set-Goes k pausing pause_sent s
        (record (with_bulks k.is_master (idle pausing s)) { slot_mutex = 1; client = c })
        sends_pause refl refl refl refl,
    refl,
  )

  pub send_pause-Ends :
      (k : Calls C) (s : CoreState C) (env : List (CoreState C → CoreState C))
      → NoneInside s
      → Ends k pausing s env (send_pause k (idle pausing s) env)
  unfolding send_pause Ends
  send_pause-Ends k s env h =
      let r = k.queue pause_message s.client in
      let failed = is_retry r.0 in
      let t = with_bulks k.is_master (idle pausing s) in
      let u = record t { slot_mutex = if failed then 0 else 1; client = r.1 } in
      let rest = queue_and_hold k pause_message >>= λ b. after_pause k b in
      subst (Ends k pausing s env)
        (sym (
          bind_lem (master_pauses k) (λ x. rest) (idle pausing s) t
            (master_pauses_lem k.is_master (idle pausing s) env)
          ∙ bind_lem (queue_and_hold k pause_message) (λ b. after_pause k b) t u
              (queue_and_hold_lem k t env)))
        (sent_pause-Ends k s r.1 failed env h)

  -- A RESUME that is sent
  pub send_resume-Ends :
      (k : Calls C) (s : CoreState C) (env : List (CoreState C → CoreState C))
      → is_retry (k.queue resume_message s.client).0 ≡ false
      → NoneInside s
      → Ends k resuming s env (send_resume k (placed k resuming s) env)
  unfolding send_resume queue_held mutex_unlock Ends held held_bulks
  send_resume-Ends k s env h free = rw h (
      resumed-Ends k resuming
        (record s {
          conn_state = resuming;
          slot_mutex = 0;
          client = (k.queue resume_message s.client).1;
        })
        s env refl refl refl free)
