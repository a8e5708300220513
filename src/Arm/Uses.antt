-- ===== src/Arm/Uses.antt =====
-- Uses and releases of ampi/vc4/vchiq/vchiq_arm.c.
use ampi.Base.{
  ℕ, suc, ◌+◌, ◌-◌, ◌^◌, ◌<◌, ◌≡◌, ◌≢◌, ◌∙◌, refl, sym, ap, true, false, ◌==◌, if◌then◌else◌,
  Option, none, some, List, ◌⊎◌, inl, inr, arith, Bool-cases, ==-eq-false, ℕ_discrete,
}
use ampi.Base.Words.{add32}
use ampi.Wait.{Task, pure, modify, ◌>>◌, bind_lem, poll_ready}
use ampi.Sync.Rwlock.{write_lock_bh, set_write, clear_write, may_write}
use ampi.Sync.Completion.{try_wait_for_completion}
use ampi.Slots.Send.{Status, success, error}
use ampi.Arm.{ArmState, UseType, videocore_wanted, lock_cell}
use ampi.Arm.Use.{
  Entity, peer, service, entity_uc, use_entity, await_unblocked, count_use, await_resume, send_acks,
  send_all_acks, use_internal, use_by, release,
}
use ampi.Arm.Count.{Used, entity_unlock, count_use_lem}

-- `release` gives nothing back: with a use on either count left, it succeeds without a change, and
-- otherwise it fails and only warns.
pub release_lem :
    (e : Entity) (s : ArmState)
    → (s.videocore_use_count ≢ 0 → entity_uc e s ≢ 0 → release e s ≡ (success, s))
      × ((s.videocore_use_count ≡ 0) ⊎ (entity_uc e s ≡ 0)
          → (w : ℕ) × (0 < w) × (release e s ≡ (error, record s { warnings = s.warnings + w })))
unfolding release videocore_wanted
release_lem e s = (
  λ a b.
      let some_use : (s.videocore_use_count == 0) ≡ false = ==-eq-false _ 0 a in
      let own_use : (entity_uc e s == 0) ≡ false = ==-eq-false _ 0 b in
      elim (Bool-cases (s.blocked_count == 0)) [
        | inl y ↦ rw (some_use, own_use, y) refl
        | inr n ↦ rw (some_use, own_use, n) refl
      ],
  λ either. elim (ℕ_discrete s.videocore_use_count 0) [
    | yes z ↦
        let none_left : (s.videocore_use_count == 0) ≡ true = rw z refl in
        let w : ℕ = 1 + (if entity_uc e s == 0 then 1 else 0) in
        (w, omega arith, rw none_left (ap (λ n. (error, record s { warnings = n })) (omega arith)))
    | no ne ↦
        let some_use : (s.videocore_use_count == 0) ≡ false = ==-eq-false _ 0 ne in
        let own : (entity_uc e s == 0) ≡ true = elim either [
          | inl z ↦ absurd (ne z)
          | inr z ↦ rw z refl
        ] in
        (
          1,
          omega arith,
          rw (some_use, own) (ap (λ n. (error, record s { warnings = n })) (omega arith)),
        )
  ],
)

-- A use while VideoCore is awake: nobody blocks the resume, the lock is free, the resume is complete,
-- and no use of the peer waits for its acknowledgement.
pub record IsAwake (s : ArmState) : Type 0 where
  pub free : s.resume_blocked ≡ false
  pub unlocked : s.susp_res_lock ≡ 0
  pub awake : s.vc_resume_complete ≢ 0
  pub no_acks : s.ka_use_ack_count ≡ 0

abbrev held : ArmState → ArmState
held s = record s { susp_res_lock = 2 ^ 31 }

lock_free :
    (s : ArmState) (env : List (ArmState → ArmState))
    → s.susp_res_lock ≡ 0
    → write_lock_bh lock_cell s env ≡ some (tt, held s, env)
unfolding write_lock_bh set_write clear_write
lock_free s env h =
    let taken : record s { susp_res_lock = set_write s.susp_res_lock } ≡ held s = rw h refl in
    poll_ready (λ (t : ArmState). may_write t.susp_res_lock)
      (record s { susp_res_lock = set_write s.susp_res_lock }) env (rw h refl)
    ∙ ap (λ t. some (tt, t, env)) taken

seq :
    {B : Type 0} (m : Task ArmState (Unit {0})) (k : Task ArmState B) (s t u : ArmState) (b : B)
    (env : List (ArmState → ArmState))
    → m s env ≡ some (tt, t, env)
    → k t env ≡ some (b, u, env)
    → (m >> k) s env ≡ some (b, u, env)
seq m k s t u b env h l = bind_lem m (λ _. k) s t h ∙ l

await_unblocked_free :
    (fuel : ℕ) (s : ArmState) (env : List (ArmState → ArmState))
    → s.resume_blocked ≡ false
    → await_unblocked (suc fuel) s env ≡ some (tt, s, env)
unfolding await_unblocked
await_unblocked_free fuel s env h = rw (await_unblocked, h) refl

abbrev resumed_once : ArmState → ArmState
resumed_once s = record s { vc_resume_complete = s.vc_resume_complete - 1 }

await_resume_done :
    (s : ArmState) (env : List (ArmState → ArmState))
    → s.vc_resume_complete ≢ 0
    → await_resume s env ≡ some (tt, resumed_once s, env)
unfolding await_resume try_wait_for_completion
await_resume_done s env h = rw (await_resume, ==-eq-false s.vc_resume_complete 0 h) refl

no_acks_sent :
    (send : ArmState → Status × ArmState) (s : ArmState)
    → s.ka_use_ack_count ≡ 0
    → send_all_acks send s ≡ s
unfolding send_acks
no_acks_sent send s h =
    ap (λ n. send_acks send n (record s { ka_use_ack_count = 0 })) h
    ∙ ap (λ n. record s { ka_use_ack_count = n }) (sym h)

entity_resumed : (f : Entity) (s : ArmState) → entity_uc f (resumed_once s) ≡ entity_uc f s
unfolding entity_uc
entity_resumed peer s = refl
entity_resumed (service port) s = refl

Used-held : (e : Entity) (s c : ArmState) → Used e (held s) c → Used e s (resumed_once c)
Used-held e s c u =
    let before : (f : Entity) → entity_uc f (held s) ≡ entity_uc f s =
      λ f. entity_unlock f s (2 ^ 31) in
    record {
      all = u.all;
      own = entity_resumed e c ∙ u.own ∙ ap (λ n. add32 n 1) (before e);
      others = λ f ne. entity_resumed f c ∙ u.others f ne ∙ before f;
    }

abbrev locked_part : UseType → Entity → ℕ → Task ArmState (Unit {0})
locked_part use_type e fuel =
    write_lock_bh lock_cell >> await_unblocked fuel >> modify (count_use use_type e)

use_by_awake :
    (send : ArmState → Status × ArmState) (fuel : ℕ) (use_type : UseType) (e : Entity)
    (s : ArmState) (env : List (ArmState → ArmState))
    → IsAwake s
    → use_by send (suc fuel) use_type (some e) s env
      ≡ some (success, resumed_once (count_use use_type e (held s)), env)
use_by_awake send fuel use_type e s env v =
    let c : ArmState = count_use use_type e (held s) in
    let l = count_use_lem use_type e (held s) in
    let t : ArmState = resumed_once c in
    let lock = write_lock_bh lock_cell in
    let acks : Task ArmState (Unit {0}) = modify (send_all_acks send) in
    let counted : locked_part use_type e (suc fuel) s env ≡ some (tt, c, env) =
      seq (lock >> await_unblocked (suc fuel)) (modify (count_use use_type e)) s (held s) c tt env
        (seq lock (await_unblocked (suc fuel)) s (held s) (held s) tt env
          (lock_free s env v.unlocked) (await_unblocked_free fuel (held s) env v.free))
        refl in
    let awake : (locked_part use_type e (suc fuel) >> await_resume) s env ≡ some (tt, t, env) =
      seq (locked_part use_type e (suc fuel)) await_resume s c t tt env counted
        (await_resume_done c env (λ z. v.awake (sym l.1 ∙ z))) in
    seq (locked_part use_type e (suc fuel) >> await_resume >> acks) (pure success) s t t success env
      (seq (locked_part use_type e (suc fuel) >> await_resume) acks s t t tt env awake
        (ap (λ x. some (tt, x, env)) (no_acks_sent send t (l.2 ∙ v.no_acks))))
      refl

cleared : clear_write (2 ^ 31) ≡ 0
unfolding clear_write
cleared = refl

-- While VideoCore is awake, a use returns with success and without a wait, whatever the states of
-- suspend and resume are; it is counted once, for its entity and for all of them, and the lock is free
-- again. A use by no service fails and changes nothing.
pub use_internal_lem :
    (send : ArmState → Status × ArmState) (fuel : ℕ) (use_type : UseType) (port : Option ℕ)
    (s : ArmState) (env : List (ArmState → ArmState))
    → IsAwake s
    → (use_entity use_type port ≡ none
        → use_internal send (suc fuel) use_type port s env ≡ some (error, s, env))
      × ((e : Entity)
          → use_entity use_type port ≡ some e
          → (t : ArmState) × (use_internal send (suc fuel) use_type port s env
              ≡ some (success, t, env))
            × Used e s t
            × (t.susp_res_lock ≡ 0))
unfolding use_internal
use_internal_lem send fuel use_type port s env v = (
  λ h. ap (λ o. use_by send (suc fuel) use_type o s env) h,
  λ e h.
      let l = count_use_lem use_type e (held s) in
      let t : ArmState = resumed_once (count_use use_type e (held s)) in
      (
        t,
        ap (λ o. use_by send (suc fuel) use_type o s env) h
            ∙ use_by_awake send fuel use_type e s env v,
        Used-held e s (count_use use_type e (held s)) l.0,
        l.3 ∙ cleared,
      ),
)
