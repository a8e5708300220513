-- ===== src/Arm/Count.antt =====
-- A use of ampi/vc4/vchiq/vchiq_arm.c is counted once.
use ampi.Base.{
  ℕ, ◌≡◌, ◌≢◌, ◌∙◌, refl, ap, Bool, true, false, leb, if◌then◌else◌, inl, inr, Bool-cases, ==-refl,
  ==-eq-false,
}
use ampi.Base.Words.{add32}
use ampi.Sync.Rwlock.{write_unlock_bh, clear_write}
use ampi.Sync.Completion.{init_completion}
use ampi.Arm.{
  ArmState, UseType, use_service, use_service_no_resume, use_vchiq, suspend_rank, suspend_requested,
  set_suspend_state, set_resume_state, stop_suspend_timer, need_resume, check_resume,
}
use ampi.Arm.Use.{
  take_back, ask_resume, increment, Entity, peer, service, entity_uc, set_entity_uc, count_use,
}

-- What counting a use leaves alone.
record Kept (s t : ArmState) : Type 0 where
  uses :
      (t.videocore_use_count ≡ s.videocore_use_count)
      × (t.peer_use_count ≡ s.peer_use_count)
      × (t.service_use_count ≡ s.service_use_count)
  resume_lem : t.vc_resume_complete ≡ s.vc_resume_complete
  acks : t.ka_use_ack_count ≡ s.ka_use_ack_count
  lock : t.susp_res_lock ≡ s.susp_res_lock

same : (s : ArmState) → Kept s s
same s = record { uses = (refl, refl, refl); resume_lem = refl; acks = refl; lock = refl }

chosen : (b : Bool) (s t : ArmState) → Kept s t → Kept s (if b then t else s)
chosen true s t h = h
chosen false s t h = same s

stop_suspend_timer-Kept : (s : ArmState) → Kept s (stop_suspend_timer s)
unfolding stop_suspend_timer
stop_suspend_timer-Kept s =
    chosen s.suspend_timer_running s _
      (record { uses = (refl, refl, refl); resume_lem = refl; acks = refl; lock = refl })

take_back-Kept : (s : ArmState) → Kept s (take_back s)
unfolding take_back set_suspend_state init_completion
take_back-Kept s =
    chosen (leb (suspend_rank s.vc_suspend_state) (suspend_rank suspend_requested)) s _
      (record { uses = (refl, refl, refl); resume_lem = refl; acks = refl; lock = refl })

check_resume-Kept : (s : ArmState) → Kept s (check_resume s).1
unfolding check_resume set_resume_state
check_resume-Kept s = elim (Bool-cases (need_resume s)) [
  | inl y ↦ rw y (record { uses = (refl, refl, refl); resume_lem = refl; acks = refl; lock = refl })
  | inr n ↦ rw n (same s)
]

ask_resume-Kept : (use_type : UseType) (s : ArmState) → Kept s (ask_resume use_type s)
unfolding ask_resume
ask_resume-Kept use_service s = check_resume-Kept s
ask_resume-Kept use_service_no_resume s = same s
ask_resume-Kept use_vchiq s = check_resume-Kept s

trans : (s t u : ArmState) → Kept s t → Kept t u → Kept s u
trans s t u a b = record {
  uses = (b.uses.0 ∙ a.uses.0, b.uses.1 ∙ a.uses.1, b.uses.2 ∙ a.uses.2);
  resume_lem = b.resume_lem ∙ a.resume_lem;
  acks = b.acks ∙ a.acks;
  lock = b.lock ∙ a.lock;
}

entity-Kept : (e : Entity) (s t : ArmState) → Kept s t → entity_uc e t ≡ entity_uc e s
unfolding entity_uc
entity-Kept peer s t k = k.uses.1
entity-Kept (service port) s t k = ap (λ f. f port) k.uses.2

-- One more use of an entity
pub record Used (e : Entity) (s t : ArmState) : Type 0 where
  pub all : t.videocore_use_count ≡ add32 s.videocore_use_count 1
  pub own : entity_uc e t ≡ add32 (entity_uc e s) 1
  pub others : (f : Entity) → f ≢ e → entity_uc f t ≡ entity_uc f s

increment_others :
    (e f : Entity) (s : ArmState) → f ≢ e → entity_uc f (increment e s) ≡ entity_uc f s
unfolding increment set_entity_uc entity_uc
increment_others peer peer s ne = absurd (ne refl)
increment_others peer (service q) s ne = refl
increment_others (service p) peer s ne = refl
increment_others (service p) (service q) s ne = rw (==-eq-false q p (λ z. ne (ap service z))) refl

increment-Used : (e : Entity) (s : ArmState) → Used e s (increment e s)
unfolding increment set_entity_uc entity_uc
increment-Used peer s = record {
  all = refl;
  own = refl;
  others = λ f ne. increment_others peer f s ne;
}
increment-Used (service port) s = record {
  all = refl;
  own = rw (==-refl port) refl;
  others = λ f ne. increment_others (service port) f s ne;
}

increment_rest :
    (e : Entity) (s : ArmState)
    → let t = increment e s in
      (t.vc_resume_complete ≡ s.vc_resume_complete)
      × (t.ka_use_ack_count ≡ s.ka_use_ack_count)
      × (t.susp_res_lock ≡ s.susp_res_lock)
unfolding increment set_entity_uc
increment_rest peer s = (refl, refl, refl)
increment_rest (service port) s = (refl, refl, refl)

pub entity_unlock :
    (f : Entity) (s : ArmState) (n : ℕ)
    → entity_uc f (record s { susp_res_lock = n }) ≡ entity_uc f s
unfolding entity_uc
entity_unlock peer s n = refl
entity_unlock (service port) s n = refl

-- A use is counted once, whatever state the suspend and the resume are in.
pub count_use_lem :
    (use_type : UseType) (e : Entity) (s : ArmState)
    → let t = count_use use_type e s in
      Used e s t
      × (t.vc_resume_complete ≡ s.vc_resume_complete)
      × (t.ka_use_ack_count ≡ s.ka_use_ack_count)
      × (t.susp_res_lock ≡ clear_write s.susp_res_lock)
unfolding count_use write_unlock_bh entity_uc
count_use_lem use_type e s =
    let s1 = stop_suspend_timer s in
    let s2 = increment e s1 in
    let s3 = take_back s2 in
    let s4 = ask_resume use_type s3 in
    let t = count_use use_type e s in
    let k1 = stop_suspend_timer-Kept s in
    let u = increment-Used e s1 in
    let r = increment_rest e s1 in
    let k : Kept s2 s4 = trans s2 s3 s4 (take_back-Kept s2) (ask_resume-Kept use_type s3) in
    let unlock : (f : Entity) → entity_uc f t ≡ entity_uc f s4 =
      λ f. entity_unlock f s4 (clear_write s4.susp_res_lock) in
    (
      record {
        all = k.uses.0 ∙ u.all ∙ ap (λ n. add32 n 1) k1.uses.0;
        own =
            unlock e ∙ entity-Kept e s2 s4 k ∙ u.own ∙ ap (λ n. add32 n 1) (entity-Kept e s s1 k1);
        others = λ f ne. unlock f ∙ entity-Kept f s2 s4 k ∙ u.others f ne ∙ entity-Kept f s s1 k1;
      },
      k.resume_lem ∙ r.0 ∙ k1.resume_lem,
      k.acks ∙ r.1 ∙ k1.acks,
      ap clear_write (k.lock ∙ r.2 ∙ k1.lock),
    )
