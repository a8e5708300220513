-- ===== src/Life/Handler.antt =====
-- `vchiq_close_service_internal` of ampi/vc4/vchiq/vchiq_core.c, in every state of the service.
use ampi.Base.{
  ℕ, ◌<◌, ◌≡◌, ◌∙◌, inl, inr, refl, sym, ap, subst, Bool, true, false, ◌||◌, if◌then◌else◌, some,
  arith, Bool-cases,
}
use ampi.Sync.Semaphore.{up}
use ampi.Slots.Send.{Status, success, error, retry}
use ampi.Services.{
  Service, ServiceState, free, hidden, listening, opening, opened, open_sync, close_sent,
  close_received, close_wait, closed,
}
use ampi.Services.Add.{set_service_state}
use ampi.Slots.{make_msg, msg_dstport, msg_close}
use ampi.Life.{
  Life, Calls, is_server, is_freeable, put_service, complete_state, forget_client, remove_cell,
  send_close, sent_close, do_abort_bulks,
}
use ampi.Life.Close.{
  logged, rest_server, close_idle, close_opening, after_send, close_message, close_open, confirm,
  close_closing, close_answered, close_in, close_service_internal,
}
use ampi.Life.Diagram.{
  is_idle, is_connected, Completes, Closes, Frame, Ends, put_service-Frame, put_service-Ends,
  Ends-map, repeats, unused, ignored, removed, refused, reopened, hides, rests, rejected, withdrawn,
  unsent, again, delayed, confirmed, finished, forced,
}
use ampi.Life.Complete.{freed-Ends, client-Frame, Ends-after, complete-Ends, complete-listening}
use ampi.Life.Follow.{Locked, same-Ends, after_send-Ends}

module _ {C : Type 0} where
  logged-Frame : (port : ℕ) (m : Life C) → Frame port m (logged m)
  logged-Frame port m = record { others = λ i ne. refl; slot = refl; sync = refl }

  close_message-Ends :
      (k : Calls C) (aborted r : Bool) (port : ℕ) (a : ServiceState) (v : Service) (l m : Life C)
      (c : C)
      → is_connected a ≡ true
      → v.srvstate ≡ a
      → 0 < v.ref_count
      → v.localport ≡ port
      → l.table.services port ≡ some v
      → Locked port a v l m
      → let sent = close_message k aborted port v c in
        Ends port
          (Closes v r a)
          l
          (after_send k sent.0 r port sent.1 (record m { client = sent.2 }))
  unfolding close_message send_close sent_close
  close_message-Ends k true r port a v l m c con e held at there h =
      let sent = k.send port (make_msg msg_close v.localport (msg_dstport v.remoteport)) c in
      after_send-Ends k sent.0 r port a v l (record m { client = sent.1 }) con e held at there
        (record { table = h.table; slot = h.slot; sync = h.sync; marked = h.marked })
  close_message-Ends k false r port a v l m c con e held at there h =
      after_send-Ends k retry r port a v l (record m { client = c }) con e held at there
        (record { table = h.table; slot = h.slot; sync = h.sync; marked = h.marked })

  close_open-Ends :
      (k : Calls C) (r : Bool) (port : ℕ) (a : ServiceState) (v : Service) (l m : Life C)
      → is_connected a ≡ true
      → v.srvstate ≡ a
      → 0 < v.ref_count
      → v.localport ≡ port
      → l.table.services port ≡ some v
      → Locked port a v l m
      → Ends port (Closes v r a) l (close_open k r port v m)
  unfolding close_open
  close_open-Ends k r port a v l m con e held at there h =
      let abort : Bool × C =
        if k.is_master || r then do_abort_bulks k port m.client else (true, m.client) in
      close_message-Ends k abort.0 r port a v l m (k.release_messages port abort.1) con e held at
        there h

  -- A service that is not open
  close_idle-Ends :
      (r : Bool) (port : ℕ) (a : ServiceState) (v : Service) (m : Life C)
      → is_idle a ≡ true
      → is_freeable a ≡ true
      → v.srvstate ≡ a
      → (is_server v ≡ true → Ends port (Closes v false a) m (some (rest_server a port v m)))
      → 0 < v.ref_count
      → v.localport ≡ port
      → m.table.services port ≡ some v
      → Ends port (Closes v r a) m (close_idle r port v m)
  unfolding close_idle
  close_idle-Ends true port a v m idle f e server held at there =
      same-Ends port (Closes v true a) v m (logged m) success there (logged-Frame port m) refl
        (subst (λ b. Closes v true a success b) (sym e) (ignored a idle))
  close_idle-Ends false port a v m idle f e server held at there = elim (Bool-cases (is_server v)) [
    | inl y ↦ rw (y) (
        subst (λ b. Ends port (Closes v false a) m (some (rest_server b port v m))) (sym e)
          (server y))
    | inr n ↦ rw (n) (
        freed-Ends port (Closes v false a) v m success held at (ap is_freeable e ∙ f)
          (removed a idle n))
  ]

  withdraw-Ends :
      (status : Status) (port : ℕ) (v : Service) (m : Life C) (c : C)
      → v.srvstate ≡ opening
      → Ends port
          (Closes v false opening)
          m
          (some (status, put_service port (sent_close status v) (record m { client = c })))
  unfolding sent_close set_service_state
  withdraw-Ends success port v m c e =
      Ends-after port _ m (record m { client = c }) _ (client-Frame port c m)
        (put_service-Ends port _ (set_service_state close_sent v) (record m { client = c }) success
          withdrawn)
  withdraw-Ends error port v m c e =
      Ends-after port _ m (record m { client = c }) _ (client-Frame port c m)
        (put_service-Ends port (Closes v false opening) v (record m { client = c }) error
          (subst (λ b. Closes v false opening error b) (sym e) (unsent error refl)))
  withdraw-Ends retry port v m c e =
      Ends-after port _ m (record m { client = c }) _ (client-Frame port c m)
        (put_service-Ends port (Closes v false opening) v (record m { client = c }) retry
          (subst (λ b. Closes v false opening retry b) (sym e) (unsent retry refl)))

  close_opening-Ends :
      (k : Calls C) (r : Bool) (port : ℕ) (v : Service) (m : Life C)
      → v.srvstate ≡ opening
      → Ends port (Closes v r opening) m (some (close_opening k r port v m))
  unfolding close_opening send_close set_service_state up
  close_opening-Ends k true port v m e =
      put_service-Ends port (Closes v true opening)
        (up remove_cell (set_service_state close_wait v)) m success rejected
  close_opening-Ends k false port v m e =
      let sent = k.send port (make_msg msg_close v.localport (msg_dstport v.remoteport)) m.client in
      withdraw-Ends sent.0 port v m sent.1 e

  confirm-Ends :
      (k : Calls C) (aborted : Bool) (port : ℕ) (v : Service) (l m : Life C)
      → v.srvstate ≡ close_sent
      → 0 < v.ref_count
      → v.localport ≡ port
      → l.table.services port ≡ some v
      → m.table.services ≡ l.table.services
      → Frame port l m
      → Ends port (Closes v true close_sent) l (confirm k aborted port v m)
  unfolding confirm complete_state
  confirm-Ends k true port v l m e held at there t f = Ends-after port _ l m _ f (
      Ends-map port (Completes v) (Closes v true close_sent) m _ (λ s b c. confirmed b s c)
        (complete-Ends k port v m held at (rw e refl)))
  confirm-Ends k false port v l m e held at there t f =
      same-Ends port (Closes v true close_sent) v l m retry there f (ap (λ f. f port) t)
        (subst (λ b. Closes v true close_sent retry b) (sym e) delayed)

  close_closing-Ends :
      (k : Calls C) (r : Bool) (port : ℕ) (v : Service) (m : Life C)
      → v.srvstate ≡ close_sent
      → 0 < v.ref_count
      → v.localport ≡ port
      → m.table.services port ≡ some v
      → Ends port (Closes v r close_sent) m (close_closing k r port v m)
  unfolding close_closing
  close_closing-Ends k false port v m e held at there =
      same-Ends port (Closes v false close_sent) v m m success there
        (record { others = λ i ne. refl; slot = refl; sync = refl }) refl
        (subst (λ b. Closes v false close_sent success b) (sym e) again)
  close_closing-Ends k true port v m e held at there =
      let abort : Bool × C =
        if k.is_master then (true, m.client) else do_abort_bulks k port m.client in
      confirm-Ends k abort.0 port v m (record m { client = abort.1 }) e held at there refl
        (client-Frame port abort.1 m)

  close_answered-Ends :
      (k : Calls C) (r : Bool) (port : ℕ) (v : Service) (m : Life C)
      → v.srvstate ≡ close_received
      → 0 < v.ref_count
      → v.localport ≡ port
      → Ends port (Closes v r close_received) m (close_answered k r port v m)
  unfolding close_answered complete_state
  close_answered-Ends k true port v m e held at =
      Ends-after port _ m (put_service port v m) _ (put_service-Frame port v m) (
        Ends-map port (Completes v) _ (put_service port v m) _ (λ s b c. finished true b s c)
          (complete-Ends k port v (put_service port v m) held at (rw e refl)))
  close_answered-Ends k false port v m e held at = elim (Bool-cases (is_server v)) [
    | inl y ↦
        let w = set_service_state listening v in
        rw (y) (
          Ends-after port _ m (put_service port w m) _ (put_service-Frame port w m) (
            complete-listening k port (Closes v false close_received) v (put_service port w m)
              (forced y) (finished false close_received retry repeats)))
    | inr n ↦ rw (n) (
        Ends-after port _ m (put_service port v m) _ (put_service-Frame port v m) (
          Ends-map port (Completes v) _ (put_service port v m) _ (λ s b c. finished false b s c)
            (complete-Ends k port v (put_service port v m) held at (rw e refl))))
  ]

  -- What the function relies on: the service is held at its port, nothing is locked, and a service that
  -- is open synchronously is a synchronous one.
  pub record IsHeld (port : ℕ) (v : Service) (m : Life C) : Type 0 where
    pub there : m.table.services port ≡ some v
    pub held : 0 < v.ref_count
    pub at : v.localport ≡ port
    pub slot : m.slot_mutex ≡ 0
    pub sync : m.sync_mutex ≡ 0
    pub marked : v.srvstate ≡ open_sync → v.sync ≡ true

  close_in-Ends :
      (a : ServiceState) (k : Calls C) (r : Bool) (port : ℕ) (v : Service) (m : Life C)
      → v.srvstate ≡ a
      → IsHeld port v m
      → Ends port (Closes v r a) m (close_in a k r port v m)
  unfolding close_in rest_server set_service_state forget_client up
  close_in-Ends free k r port v m e h =
      same-Ends port (Closes v r free) v m (logged m) success h.there (logged-Frame port m) refl
        (subst (λ b. Closes v r free success b) (sym e) (unused r))
  close_in-Ends hidden k r port v m e h =
      close_idle-Ends r port hidden v m refl refl e
        (λ y.
          (put_service-Ends port _ (up remove_cell (forget_client v)) m success
            (subst (λ b. Closes v false hidden success b) (sym e) (hides y))))
        h.held h.at h.there
  close_in-Ends listening k r port v m e h =
      close_idle-Ends r port listening v m refl refl e
        (λ y.
          (put_service-Ends port _ (up remove_cell v) m error
            (subst (λ b. Closes v false listening error b) (sym e) (refused y))))
        h.held h.at h.there
  close_in-Ends closed k r port v m e h =
      close_idle-Ends r port closed v m refl refl e
        (λ y.
          (put_service-Ends port _ (up remove_cell (forget_client v)) m success
            (subst (λ b. Closes v false closed success b) (sym e) (rests y))))
        h.held h.at h.there
  close_in-Ends close_wait k r port v m e h =
      close_idle-Ends r port close_wait v m refl refl e
        (λ y.
          (put_service-Ends port _ (up remove_cell (set_service_state listening (forget_client v)))
            m success (reopened y)))
        h.held h.at h.there
  close_in-Ends opening k r port v m e h = close_opening-Ends k r port v m e
  close_in-Ends open_sync k r port v m e h =
      close_open-Ends k r port open_sync v m (record m { sync_mutex = 1 }) refl e h.held h.at
        h.there
        (record {
          table = refl;
          slot = (h.slot, h.slot);
          sync = (h.sync, λ f. grind (arith, f));
          marked = λ _. h.marked e;
        })
  close_in-Ends opened k r port v m e h =
      close_open-Ends k r port opened v m m refl e h.held h.at h.there (record {
        table = refl;
        slot = (h.slot, h.slot);
        sync = (h.sync, λ _. h.sync);
        marked = λ f. grind (arith, f);
      })
  close_in-Ends close_sent k r port v m e h = close_closing-Ends k r port v m e h.held h.at h.there
  close_in-Ends close_received k r port v m e h = close_answered-Ends k r port v m e h.held h.at

  -- `vchiq_close_service_internal` returns, for a service that is held at its port with nothing locked.
  -- The status and the new state of the service are those of the diagram, no other service changes,
  -- and no mutex stays locked.
  pub close-Closes :
      (k : Calls C) (r : Bool) (port : ℕ) (v : Service) (m : Life C)
      → IsHeld port v m
      → Ends port (Closes v r v.srvstate) m (close_service_internal k r port m)
  unfolding close_service_internal
  close-Closes k r port v m h =
      rw (close_service_internal, h.there) (close_in-Ends v.srvstate k r port v m refl h)
