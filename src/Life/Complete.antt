-- ===== src/Life/Complete.antt =====
-- `vchiq_free_service_internal` and `close_service_complete` of ampi/vc4/vchiq/vchiq_core.c: the service
-- ends in one of the states of the diagram.
use ampi.Base.{
  ℕ, ◌-◌, ◌<◌, ◌≡◌, ◌≢◌, inl, inr, refl, sym, subst, true, false, ◌==◌, ==-eq-false, ==-refl,
  Option, none, some, arith, Bool-cases, ℕ_discrete,
}
use mathlib.Core.Option
use ampi.Slots.Send.{Status, success, error, retry}
use ampi.Services.{
  Service, ServiceState, Services, put, terminate, unlock_service, free, listening, close_received,
  close_wait,
}
use ampi.Services.Add.{set_service_state}
use ampi.Services.References.{put-at}
use ampi.Sync.Semaphore.{up}
use ampi.Life.{
  remove_cell, Life, Calls, is_server, is_freeable, free_service, freed, target, to_target,
  complete_state, settle, complete_with, close_service_complete, release_uses, forget_client,
}
use ampi.Bulk.{ignore_error}
use ampi.Life.Diagram.{
  Completes, state_of, Frame, Ends, Frame-trans, put_service-Ends, listens, waits, ends, repeats,
}

-- What `unlock_service` leaves of a table in which the service is free.
record Unlocked (port : ℕ) (s : Services) (r : Option Services) : Type 0 where
  table : Services
  returns : r ≡ some table
  state : state_of (table.services port) ≡ free
  others : (i : ℕ) → i ≢ port → table.services i ≡ s.services i

terminate-services : (v : Service) (s : Services) → (terminate v s).services ≡ s.services
terminate-services v s = elim (Bool-cases (v.userdata_term == 0)) [
  | inl y ↦ rw (y) refl
  | inr n ↦ rw (n) refl
]

unlock-Unlocked :
    (port : ℕ) (v : Service) (s : Services)
    → 0 < v.ref_count
    → v.localport ≡ port
    → v.srvstate ≡ free
    → Unlocked port s (unlock_service port (put port (some v) s))
unfolding put unlock_service
unlock-Unlocked port v s held at f =
    let t = put port (some v) s in
    let some_left : (v.ref_count == 0) ≡ false = ==-eq-false _ 0 (omega (arith, held)) in
    elim (ℕ_discrete v.ref_count 1) [
      | yes one ↦
          let gone = put v.localport none t in
          record {
            table = terminate v gone;
            returns = rw (unlock_service, put-at port (some v) s, some_left, one, f) refl;
            state = rw (terminate-services v gone, at, ==-refl port) refl;
            others = λ i ne. rw (terminate-services v gone, at, ==-eq-false i port ne) refl;
          }
      | no more ↦ record {
        table = put port (some (record v { ref_count = v.ref_count - 1 })) t;
        returns = rw (unlock_service, put-at port (some v) s, some_left, ==-eq-false _ 1 more) refl;
        state = rw (==-refl port) f;
        others = λ i ne. rw (==-eq-false i port ne) refl;
      }
    ]

-- A service that can be freed is free or gone then.
pub freed-Ends :
    {C : Type 0} (port : ℕ) (P : Status → ServiceState → Type 0) (v : Service) (m : Life C)
    (status : Status)
    → 0 < v.ref_count
    → v.localport ≡ port
    → is_freeable v.srvstate ≡ true
    → P status free
    → Ends port P m (Option.map (λ n. (status, n)) (freed port v m))
unfolding free_service set_service_state up
freed-Ends port P v m status held at y h =
    let w = up remove_cell (set_service_state free v) in
    let done = unlock-Unlocked port w m.table held at refl in
    record {
      status = status;
      after = record m { table = done.table };
      returns = rw (y, done.returns) refl;
      fits = subst (P status) (sym done.state) h;
      frame = record { others = done.others; slot = refl; sync = refl };
    }

module _ {C : Type 0} where
  pub client-Frame : (port : ℕ) (c : C) (m : Life C) → Frame port m (record m { client = c })
  client-Frame port c m = record { others = λ i ne. refl; slot = refl; sync = refl }

  pub Ends-after :
      (port : ℕ) (P : Status → ServiceState → Type 0) (m n : Life C) (r : Option (Status × Life C))
      → Frame port m n
      → Ends port P n r
      → Ends port P m r
  Ends-after port P m n r f e = record {
    status = e.status;
    after = e.after;
    returns = e.returns;
    fits = e.fits;
    frame = Frame-trans port m n e.after f e.frame;
  }

  -- A service that listens again
  settle-listening :
      (port : ℕ) (P : Status → ServiceState → Type 0) (v : Service) (m : Life C)
      → v.srvstate ≡ listening
      → P success listening
      → Ends port P m (Option.map (λ n. (success, n)) (settle listening port v m))
  unfolding settle up
  settle-listening port P v m e h = elim (Bool-cases (is_server v)) [
    | inl y ↦
        rw (y) (
          put_service-Ends port P (up remove_cell (record v { closing = false })) m success
            (rw e h))
    | inr n ↦ rw (n) (put_service-Ends port P (up remove_cell v) m success (rw e h))
  ]

  -- Behind the callback: the end of the close, or another try
  answer-Ends :
      (k : Calls C) (status : Status) (port : ℕ) (P : Status → ServiceState → Type 0) (v : Service)
      (m : Life C)
      → P retry close_received
      → ((n : Life C)
          → Ends port P n
              (Option.map (λ n'. (success, n')) (settle v.srvstate port (forget_client v) n)))
      → Ends port P m (complete_with k (ignore_error status) port close_received v m)
  unfolding ignore_error complete_with set_service_state
  answer-Ends k success port P v m r h =
      let c = release_uses k (k.use_count port m.client) port m.client in
      Ends-after port P m (record m { client = c }) _ (client-Frame port c m)
        (h (record m { client = c }))
  answer-Ends k error port P v m r h =
      let c = release_uses k (k.use_count port m.client) port m.client in
      Ends-after port P m (record m { client = c }) _ (client-Frame port c m)
        (h (record m { client = c }))
  answer-Ends k retry port P v m r h =
      put_service-Ends port P (set_service_state close_received v) m retry r

  to_target-Ends :
      (port : ℕ) (P : Status → ServiceState → Type 0) (v : Service) (n : Life C)
      → 0 < v.ref_count
      → v.localport ≡ port
      → (is_server v ≡ true → v.auto_close ≡ true → P success listening)
      → (is_server v ≡ true → v.auto_close ≡ false → P success close_wait)
      → (is_server v ≡ false → P success free)
      → let w = to_target v in
        Ends port P n
          (Option.map (λ n'. (success, n')) (settle w.srvstate port (forget_client w) n))
  unfolding to_target target forget_client set_service_state settle
  to_target-Ends port P v n held at listens_h waits_h ends_h = elim (Bool-cases (is_server v)) [
    | inl server ↦ elim (Bool-cases v.auto_close) [
      | inl auto ↦
          rw (server, auto)
            (settle-listening port P
              (forget_client (set_service_state listening (record v { auto_close = true }))) n refl
              (listens_h server auto))
      | inr manual ↦
          rw (server, manual) (put_service-Ends port P _ n success (waits_h server manual))
    ]
    | inr user ↦ rw (user) (freed-Ends port P _ n success held at refl (ends_h user))
  ]

  -- `close_service_complete` for a service that was open, and is not closed yet
  pub complete-Ends :
      (k : Calls C) (port : ℕ) (v : Service) (m : Life C)
      → 0 < v.ref_count
      → v.localport ≡ port
      → (complete_state v.srvstate v ≡ some (to_target v))
      → Ends port (Completes v) m (close_service_complete k port close_received v m)
  unfolding close_service_complete
  complete-Ends k port v m held at e =
      let called = k.callback port m.client in
      let n = record m { client = called.1 } in
      rw (close_service_complete, e)
        (Ends-after port (Completes v) m n _ (client-Frame port called.1 m) (
          answer-Ends k called.0 port (Completes v) (to_target v) n repeats
            (λ n'. to_target-Ends port (Completes v) v n' held at listens waits ends)))

  -- The same for a service that is forced to listen
  pub complete-listening :
      (k : Calls C) (port : ℕ) (P : Status → ServiceState → Type 0) (v : Service) (m : Life C)
      → P success listening
      → P retry close_received
      → let w = set_service_state listening v in
        Ends port P m (close_service_complete k port close_received w m)
  unfolding close_service_complete complete_state forget_client set_service_state
  complete-listening k port P v m h r =
      let called = k.callback port m.client in
      let n = record m { client = called.1 } in
      let w = set_service_state listening v in
      Ends-after port P m n _ (client-Frame port called.1 m) (
        answer-Ends k called.0 port P w n r
          (λ n'. settle-listening port P (forget_client w) n' refl h))
