-- ===== src/Connection/Locks.antt =====
-- How ampi/vc4/vchiq/vchiq_core.c locks and frees the mutexes when it pauses and resumes.
use ampi.Base.{
  ℕ, zero, suc, ◌+◌, Option, subst, sym, ap, ◌≡◌, ◌∙◌, refl, Bool, true, false, ◌==◌, if◌then◌else◌,
  some, List, [], ◌∷◌, inl, inr, Bool-cases,
}
use ampi.Wait.{Task, bind_lem, lift, modify, poll, poll_ready, pure, ◌>>=◌, ◌>>◌}
use ampi.Sync.{Cell}
use ampi.Sync.Mutex.{mutex_lock, mutex_unlock}
use ampi.Connection.{
  Calls, ConnState, CoreState, connected, is_retry, master_resumes, pause_bulks, pause_message,
  notify_resolved, on_client, queue_and_hold, resolve_both, resolve_service, resume_bulks,
  resume_deferred, resume_service, resume_services, service_cell, set_conn_state,
}
use ampi.Connection.Diagram.{Ends, held, held_bulks, resumes, set-Goes}

module _ {C : Type 0} where
  pub queue_and_hold_lem :
      (k : Calls C) (s : CoreState C) (env : List (CoreState C → CoreState C))
      → let r = k.queue pause_message s.client in
        queue_and_hold k pause_message (record s { slot_mutex = 0 }) env
        ≡ some (
          is_retry r.0,
          record s { slot_mutex = if is_retry r.0 then 0 else 1; client = r.1 },
          env,
        )
  unfolding queue_and_hold mutex_lock mutex_unlock poll
  queue_and_hold_lem k s [] = elim (Bool-cases (is_retry (k.queue pause_message s.client).0)) [
    | inl h ↦ rw h
    | inr h ↦ rw h
  ]
  queue_and_hold_lem k s (e ∷ env) =
      elim (Bool-cases (is_retry (k.queue pause_message s.client).0)) [
        | inl h ↦ rw h
        | inr h ↦ rw h
      ]

  pause_bulks_lem :
      (s : CoreState C) (env : List (CoreState C → CoreState C))
      → pause_bulks (record s { bulk_transfer_mutex = 0; pause_bulks_count = 0 }) env
        ≡ some (tt, record s { bulk_transfer_mutex = 1; pause_bulks_count = 1 }, env)
  unfolding pause_bulks mutex_lock poll
  pause_bulks_lem s [] = refl
  pause_bulks_lem s (e ∷ env) = refl

  -- The bulks are free again, and the rest is as before.
  pub record Freed (s t : CoreState C) : Type 0 where
    pub slot : t.slot_mutex ≡ s.slot_mutex
    pub bulks : t.bulk_transfer_mutex ≡ 0
    pub count : t.pause_bulks_count ≡ 0
    pub quiet : t.warnings ≡ s.warnings
    pub same : t.conn_state ≡ s.conn_state

  -- No thread is in the bulk queues of a service.
  abbrev pub NoneInside : CoreState C → Type 0
  NoneInside s = (i : ℕ) → s.bulk_mutex i ≡ 0

  -- What the loop over the services leaves
  record Resumed (s t : CoreState C) : Type 0 where
    slot : t.slot_mutex ≡ s.slot_mutex
    bulks : t.bulk_transfer_mutex ≡ s.bulk_transfer_mutex
    count : t.pause_bulks_count ≡ s.pause_bulks_count
    quiet : t.warnings ≡ s.warnings
    same : t.conn_state ≡ s.conn_state
    none_inside : NoneInside t

  mutex_lock_free :
      (cell : Cell (CoreState C)) (s : CoreState C) (env : List (CoreState C → CoreState C))
      → cell.get s ≡ 0
      → mutex_lock cell s env ≡ some (tt, cell.put 1 s, env)
  unfolding mutex_lock
  mutex_lock_free cell s env h =
      bind_lem (poll (λ t. cell.get t == 0)) (λ x. modify (λ t. cell.put 1 t)) s s
        (poll_ready (λ t. cell.get t == 0) s env (rw h refl))

  unlocked_at :
      (s : CoreState C) (i j : ℕ)
      → NoneInside s
      → (if j == i then 0 else if j == i then 1 else s.bulk_mutex j) ≡ 0
  unlocked_at s i j h = elim (Bool-cases (j == i)) [ inl y ↦ rw y refl | inr n ↦ rw n (h j) ]

  resolve_service-Resumed :
      (k : Calls C) (i : ℕ) (s : CoreState C) (env : List (CoreState C → CoreState C))
      → NoneInside s
      → (t : CoreState C) × (resolve_service k i s env ≡ some (tt, t, env)) × Resumed s t
  unfolding resolve_service resolve_both mutex_unlock
  resolve_service-Resumed k i s env h =
      let cell = service_cell i in
      let rest : Task (CoreState C) Unit = lift (resolve_both k i) >>= λ r.
      modify (λ t. on_client (notify_resolved k i r) (mutex_unlock cell t)) in
      (
        _,
        bind_lem (mutex_lock cell) (λ x. rest) s (cell.put 1 s) (mutex_lock_free cell s env (h i)),
        record {
          slot = refl;
          bulks = refl;
          count = refl;
          quiet = refl;
          same = refl;
          none_inside = λ j. unlocked_at s i j h;
        },
      )

  resume_service-Resumed :
      (k : Calls C) (i : ℕ) (s : CoreState C) (env : List (CoreState C → CoreState C))
      → NoneInside s
      → (t : CoreState C) × (resume_service k i s env ≡ some (tt, t, env)) × Resumed s t
  unfolding resume_service
  resume_service-Resumed k i s env h =
      let resolved = resolve_service k i s env in
      let choice : Bool → Option (Unit × CoreState C × List (CoreState C → CoreState C)) =
        λ b. if b then resolved else some (tt, s, env) in
      elim (Bool-cases (k.is_open i s.client)) [
        | inl y ↦ let (t, run, f) = resolve_service-Resumed k i s env h in (t, ap choice y ∙ run, f)
        | inr n ↦ (
          s,
          ap choice n,
          record {
            slot = refl;
            bulks = refl;
            count = refl;
            quiet = refl;
            same = refl;
            none_inside = h;
          },
        )
      ]

  resume_services-Resumed :
      (k : Calls C) (i n : ℕ) (s : CoreState C) (env : List (CoreState C → CoreState C))
      → NoneInside s
      → (t : CoreState C) × (resume_services k i n s env ≡ some (tt, t, env)) × Resumed s t
  unfolding resume_services
  resume_services-Resumed k i zero s env h = (
    s,
    refl,
    record { slot = refl; bulks = refl; count = refl; quiet = refl; same = refl; none_inside = h },
  )
  resume_services-Resumed k i (suc n) s env h =
      let (t, run, f) = resume_service-Resumed k i s env h in
      let (u, more, g) = resume_services-Resumed k (i + 1) n t env f.none_inside in
      (
        u,
        bind_lem (resume_service k i) (λ x. resume_services k (i + 1) n) s t run ∙ more,
        record {
          slot = g.slot ∙ f.slot;
          bulks = g.bulks ∙ f.bulks;
          count = g.count ∙ f.count;
          quiet = g.quiet ∙ f.quiet;
          same = g.same ∙ f.same;
          none_inside = g.none_inside;
        },
      )

  resume_bulks-Freed :
      (k : Calls C) (s : CoreState C) (env : List (CoreState C → CoreState C))
      → NoneInside s
      → (t : CoreState C) × (resume_bulks k
            (record s { bulk_transfer_mutex = 1; pause_bulks_count = 1 })
            env
          ≡ some (tt, t, env))
        × Freed s t
  unfolding resume_bulks resume_deferred mutex_unlock
  resume_bulks-Freed k s env h =
      let u : CoreState C = record s { bulk_transfer_mutex = 0; pause_bulks_count = 0 } in
      let clear : CoreState C → CoreState C = λ t. record t { deferred_bulks = 0 } in
      let resumed = (resume_services k 0 u.unused_service >> modify clear) u env in
      let choice : Bool → Option (Unit × CoreState C × List (CoreState C → CoreState C)) =
        λ b. if b then some (tt, u, env) else resumed in
      elim (Bool-cases (s.deferred_bulks == 0)) [
        | inl y ↦ (
          u,
          ap choice y,
          record { slot = refl; bulks = refl; count = refl; quiet = refl; same = refl },
        )
        | inr n ↦
            let (t, run, f) = resume_services-Resumed k 0 u.unused_service u env h in
            (
              clear t,
              ap choice n
                  ∙ bind_lem (resume_services k 0 u.unused_service) (λ x. modify clear) u t run,
              record {
                slot = f.slot;
                bulks = f.bulks;
                count = f.count;
                quiet = f.quiet;
                same = f.same;
              },
            )
      ]

  -- The bulks of a master are held, those of the other side are free.
  abbrev pub with_bulks : Bool → CoreState C → CoreState C
  with_bulks held_now s = record s {
    bulk_transfer_mutex = if held_now then 1 else 0;
    pause_bulks_count = if held_now then 1 else 0;
  }

  pub master_pauses_lem :
      (master : Bool) (s : CoreState C) (env : List (CoreState C → CoreState C))
      → (if master then pause_bulks else pure tt) (with_bulks false s) env
        ≡ some (tt, with_bulks master s, env)
  master_pauses_lem true s env = pause_bulks_lem s env
  master_pauses_lem false s env = refl

  pub master_resumes-Freed :
      (k : Calls C) (master : Bool) (s : CoreState C) (env : List (CoreState C → CoreState C))
      → NoneInside s
      → (t : CoreState C) × ((if master then resume_bulks k else pure tt) (with_bulks master s) env
          ≡ some (tt, t, env))
        × Freed s t
  master_resumes-Freed k true s env h = resume_bulks-Freed k s env h
  master_resumes-Freed k false s env h = (
    with_bulks false s,
    refl,
    record { slot = refl; bulks = refl; count = refl; quiet = refl; same = refl },
  )

  -- The connection is left by a RESUME, with both mutexes free.
  pub resumed-Ends :
      (k : Calls C) (a : ConnState) (s t : CoreState C) (env : List (CoreState C → CoreState C))
      → held a ≡ 1
      → s.slot_mutex ≡ 0
      → s.warnings ≡ t.warnings
      → NoneInside s
      → Ends k a t env
          ((master_resumes k >> modify (set_conn_state k connected)) (with_bulks k.is_master s) env)
  unfolding held held_bulks Ends
  resumed-Ends k a s t env e z w h =
      let (u, run, f) = master_resumes-Freed k k.is_master s env h in
      subst (Ends k a t env)
        (sym (
          bind_lem (master_resumes k) (λ x. modify (set_conn_state k connected))
            (with_bulks k.is_master s) u run))
        (set-Goes k a connected t u (resumes e) (f.slot ∙ z) f.bulks f.count (f.quiet ∙ w), refl)
