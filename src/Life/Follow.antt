-- ===== src/Life/Follow.antt =====
-- `vchiq_close_service_internal` of ampi/vc4/vchiq/vchiq_core.c returns, and follows the diagram.
use ampi.Base.{
  ℕ, ◌<◌, ◌≡◌, ◌∙◌, inl, inr, refl, sym, ap, subst, Bool, true, false, ==-eq-false, some, arith,
  Bool-cases,
}
use ampi.Sync.Mutex.{mutex_unlock}
use ampi.Slots.Send.{Status, success, error, retry}
use ampi.Services.{Service, ServiceState, put, close_sent, close_received}
use ampi.Services.Add.{set_service_state}
use ampi.Services.References.{put-at}
use ampi.Life.{Life, Calls, put_service, complete_state, sent_close}
use ampi.Life.Close.{is_open_sync, unlock_both, unlock_sync, after_send}
use ampi.Life.Diagram.{
  is_connected, Completes, Closes, state_of, Frame, Ends, Ends-map, listens, waits, ends, repeats,
  announced, answered, postponed,
}
use ampi.Life.Complete.{Ends-after, complete-Ends}

-- How a service ends does not depend on its state before.
pub Completes-state :
    (a : ServiceState) (v : Service) {status : Status} {b : ServiceState}
    → Completes (set_service_state a v) status b
    → Completes v status b
unfolding set_service_state
Completes-state a v (listens y h) = listens y h
Completes-state a v (waits y h) = waits y h
Completes-state a v (ends n) = ends n
Completes-state a v repeats = repeats

module _ {C : Type 0} where
  -- The call returns, and leaves the service as it was.
  pub same-Ends :
      (port : ℕ) (P : Status → ServiceState → Type 0) (v : Service) (m n : Life C) (status : Status)
      → m.table.services port ≡ some v
      → Frame port m n
      → n.table.services port ≡ m.table.services port
      → P status v.srvstate
      → Ends port P m (some (status, n))
  same-Ends port P v m n status at f e h = record {
    status = status;
    after = n;
    returns = refl;
    fits = subst (λ o. P status (state_of o)) (sym (e ∙ at)) h;
    frame = f;
  }

  -- What is locked when a service is closed from the state `a`.
  pub record Locked (port : ℕ) (a : ServiceState) (v : Service) (l m : Life C) : Type 0 where
    pub table : m.table.services ≡ l.table.services
    pub slot : (l.slot_mutex ≡ 0) × (m.slot_mutex ≡ 0)
    pub sync : (l.sync_mutex ≡ 0) × (is_open_sync a ≡ false → m.sync_mutex ≡ 0)
    pub marked : is_open_sync a ≡ true → v.sync ≡ true

  Locked-marked :
      (port : ℕ) (a : ServiceState) (v : Service) (l m : Life C)
      → Locked port a v l m
      → v.sync ≡ false
      → m.sync_mutex ≡ 0
  Locked-marked port a v l m h n = elim (Bool-cases (is_open_sync a)) [
    | inl y ↦ grind (arith, h.marked y, n)
    | inr f ↦ h.sync.1 f
  ]

  unlock_both-Frame :
      (port : ℕ) (sync : Bool) (w : Service) (l m : Life C)
      → m.table.services ≡ l.table.services
      → l.slot_mutex ≡ 0
      → l.sync_mutex ≡ 0
      → (sync ≡ false → m.sync_mutex ≡ 0)
      → Frame port l (unlock_both sync (put_service port w (record m { slot_mutex = 1 })))
  unfolding mutex_unlock put
  unlock_both-Frame port true w l m t a b h = record {
    others = λ i ne. rw (==-eq-false i port ne) (ap (λ f. f i) t);
    slot = sym a;
    sync = sym b;
  }
  unlock_both-Frame port false w l m t a b h = record {
    others = λ i ne. rw (==-eq-false i port ne) (ap (λ f. f i) t);
    slot = sym a;
    sync = h refl ∙ sym b;
  }

  unlock_sync-Frame :
      (port : ℕ) (sync : Bool) (l m : Life C)
      → m.table.services ≡ l.table.services
      → (l.slot_mutex ≡ 0) × (m.slot_mutex ≡ 0)
      → l.sync_mutex ≡ 0
      → (sync ≡ false → m.sync_mutex ≡ 0)
      → Frame port l (unlock_sync sync m)
  unfolding mutex_unlock
  unlock_sync-Frame port true l m t a b h = record {
    others = λ i ne. ap (λ f. f i) t;
    slot = a.1 ∙ sym a.0;
    sync = sym b;
  }
  unlock_sync-Frame port false l m t a b h = record {
    others = λ i ne. ap (λ f. f i) t;
    slot = a.1 ∙ sym a.0;
    sync = h refl ∙ sym b;
  }

  unlock_both-at :
      (port : ℕ) (sync : Bool) (w : Service) (m : Life C)
      → (unlock_both sync (put_service port w m)).table.services port ≡ some w
  unfolding mutex_unlock
  unlock_both-at port true w m = put-at port (some w) m.table
  unlock_both-at port false w m = put-at port (some w) m.table

  unlock_sync-at :
      (port : ℕ) (sync : Bool) (m : Life C)
      → (unlock_sync sync m).table.services port ≡ m.table.services port
  unfolding mutex_unlock
  unlock_sync-at port true m = refl
  unlock_sync-at port false m = refl

  -- Behind the CLOSE: `l` is the state in which the function was called.
  pub after_send-Ends :
      (k : Calls C) (status : Status) (r : Bool) (port : ℕ) (a : ServiceState) (v : Service)
      (l m : Life C)
      → is_connected a ≡ true
      → v.srvstate ≡ a
      → 0 < v.ref_count
      → v.localport ≡ port
      → l.table.services port ≡ some v
      → Locked port a v l m
      → Ends port (Closes v r a) l (after_send k status r port (sent_close status v) m)
  unfolding after_send sent_close set_service_state complete_state
  after_send-Ends k success true port a v l m con e held at there h =
      let w = set_service_state close_received (set_service_state close_sent v) in
      let n = unlock_both v.sync (put_service port w (record m { slot_mutex = 1 })) in
      let marked : v.sync ≡ false → m.sync_mutex ≡ 0 = Locked-marked port a v l m h in
      Ends-after port (Closes v true a) l n _
        (unlock_both-Frame port v.sync w l m h.table h.slot.0 h.sync.0 marked)
        (Ends-map port (Completes w) (Closes v true a) n _
          (λ s b c.
            answered a b s con (Completes-state close_sent v (Completes-state close_received _ c)))
          (complete-Ends k port w n held at refl))
  after_send-Ends k success false port a v l m con e held at there h =
      let w = set_service_state close_sent v in
      let n = record m { slot_mutex = 1 } in
      let marked : v.sync ≡ false → m.sync_mutex ≡ 0 = Locked-marked port a v l m h in
      record {
        status = success;
        after = unlock_both v.sync (put_service port w n);
        returns = refl;
        fits =
            subst (λ o. Closes v false a success (state_of o))
              (sym (unlock_both-at port v.sync w n)) (announced a con);
        frame = unlock_both-Frame port v.sync w l m h.table h.slot.0 h.sync.0 marked;
      }
  after_send-Ends k error r port a v l m con e held at there h =
      same-Ends port (Closes v r a) v l (unlock_sync (is_open_sync v.srvstate) m) error there
        (unlock_sync-Frame port _ l m h.table h.slot h.sync.0
          (λ f. h.sync.1 (sym (ap is_open_sync e) ∙ f)))
        (unlock_sync-at port _ m ∙ ap (λ f. f port) h.table)
        (subst (λ b. Closes v r a error b) (sym e) (postponed r a error con refl))
  after_send-Ends k retry r port a v l m con e held at there h =
      same-Ends port (Closes v r a) v l (unlock_sync (is_open_sync v.srvstate) m) retry there
        (unlock_sync-Frame port _ l m h.table h.slot h.sync.0
          (λ f. h.sync.1 (sym (ap is_open_sync e) ∙ f)))
        (unlock_sync-at port _ m ∙ ap (λ f. f port) h.table)
        (subst (λ b. Closes v r a retry b) (sym e) (postponed r a retry con refl))
