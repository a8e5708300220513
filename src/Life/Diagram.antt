-- ===== src/Life/Diagram.antt =====
-- The states that a service goes through when it is closed, and that
-- `vchiq_close_service_internal` of ampi/vc4/vchiq/vchiq_core.c follows them.
use ampi.Base.{
  ℕ, ◌≡◌, ◌≢◌, ◌∙◌, refl, sym, subst, Bool, true, false, ==-eq-false, Option, none, some,
}
use ampi.Slots.Send.{Status, success, error, retry}
use ampi.Services.{
  Service, ServiceState, put, free, hidden, listening, opening, opened, open_sync, close_sent,
  close_received, close_wait, closed,
}
use ampi.Services.References.{put-at}
use ampi.Life.{Life, is_server, put_service}

-- The states without a client
abbrev pub is_idle : ServiceState → Bool
is_idle closed = true
is_idle hidden = true
is_idle listening = true
is_idle close_wait = true
is_idle _ = false

abbrev pub is_connected : ServiceState → Bool
is_connected opened = true
is_connected open_sync = true
is_connected _ = false

abbrev pub failed : Status → Bool
failed success = false
failed _ = true

-- How the close of a service ends: with the next client, with the wait for its user, with no service,
-- or, when its user is not ready, with another try.
pub data Completes (v : Service) : Status → ServiceState → Type 0 where
  listens : is_server v ≡ true → v.auto_close ≡ true → Completes v success listening
  waits : is_server v ≡ true → v.auto_close ≡ false → Completes v success close_wait
  ends : is_server v ≡ false → Completes v success free
  repeats : Completes v retry close_received

-- The diagram: for a close that the other side asks for (`true`) or this one (`false`), the state
-- before it, the status, and the state behind it.
pub data Closes (v : Service) : Bool → ServiceState → Status → ServiceState → Type 0 where
  unused : (r : Bool) → Closes v r free success free
  ignored : (a : ServiceState) → is_idle a ≡ true → Closes v true a success a
  removed :
      (a : ServiceState) → is_idle a ≡ true → is_server v ≡ false → Closes v false a success free
  refused : is_server v ≡ true → Closes v false listening error listening
  reopened : is_server v ≡ true → Closes v false close_wait success listening
  hides : is_server v ≡ true → Closes v false hidden success hidden
  rests : is_server v ≡ true → Closes v false closed success closed
  rejected : Closes v true opening success close_wait
  withdrawn : Closes v false opening success close_sent
  unsent : (status : Status) → failed status ≡ true → Closes v false opening status opening
  announced : (a : ServiceState) → is_connected a ≡ true → Closes v false a success close_sent
  answered :
      (a b : ServiceState) (status : Status)
      → is_connected a ≡ true
      → Completes v status b
      → Closes v true a status b
  postponed :
      (r : Bool) (a : ServiceState) (status : Status)
      → is_connected a ≡ true
      → failed status ≡ true
      → Closes v r a status a
  again : Closes v false close_sent success close_sent
  delayed : Closes v true close_sent retry close_sent
  confirmed :
      (b : ServiceState) (status : Status)
      → Completes v status b
      → Closes v true close_sent status b
  finished :
      (r : Bool) (b : ServiceState) (status : Status)
      → Completes v status b
      → Closes v r close_received status b
  forced : is_server v ≡ true → Closes v false close_received success listening

-- The state of what is at a port: a service that is gone is free.
abbrev pub state_of : Option Service → ServiceState
state_of none = free
state_of (some v) = v.srvstate

module _ {C : Type 0} where
  -- Only the service at the port has changed, and the mutexes are as they were.
  pub record Frame (port : ℕ) (m n : Life C) : Type 0 where
    pub others : (i : ℕ) → i ≢ port → n.table.services i ≡ m.table.services i
    pub slot : n.slot_mutex ≡ m.slot_mutex
    pub sync : n.sync_mutex ≡ m.sync_mutex

  -- The call returns, with a status and a state of the service that fit.
  pub record Ends (port : ℕ) (P : Status → ServiceState → Type 0) (m : Life C)
      (r : Option (Status × Life C)) : Type 0 where
    pub status : Status
    pub after : Life C
    pub returns : r ≡ some (status, after)
    pub fits : P status (state_of (after.table.services port))
    pub frame : Frame port m after

  pub put_service-Frame :
      (port : ℕ) (v : Service) (m : Life C) → Frame port m (put_service port v m)
  unfolding put
  put_service-Frame port v m = record {
    others = λ i ne. rw (==-eq-false i port ne) refl;
    slot = refl;
    sync = refl;
  }

  pub Frame-trans : (port : ℕ) (l m n : Life C) → Frame port l m → Frame port m n → Frame port l n
  Frame-trans port l m n f g = record {
    others = λ i ne. g.others i ne ∙ f.others i ne;
    slot = g.slot ∙ f.slot;
    sync = g.sync ∙ f.sync;
  }

  pub put_service-Ends :
      (port : ℕ) (P : Status → ServiceState → Type 0) (v : Service) (m : Life C) (status : Status)
      → P status v.srvstate
      → Ends port P m (some (status, put_service port v m))
  put_service-Ends port P v m status h = record {
    status = status;
    after = put_service port v m;
    returns = refl;
    fits = subst (λ o. P status (state_of o)) (sym (put-at port (some v) m.table)) h;
    frame = put_service-Frame port v m;
  }

  pub Ends-map :
      (port : ℕ) (P Q : Status → ServiceState → Type 0) (m : Life C) (r : Option (Status × Life C))
      → ((status : Status) (b : ServiceState) → P status b → Q status b)
      → Ends port P m r
      → Ends port Q m r
  Ends-map port P Q m r f e = record {
    status = e.status;
    after = e.after;
    returns = e.returns;
    fits = f e.status (state_of (e.after.table.services port)) e.fits;
    frame = e.frame;
  }
