-- ===== src/Life/Open/Outcome.antt =====
-- What becomes of an OPEN, in `parse_open` of ampi/vc4/vchiq/vchiq_core.c.
use ampi.Base.{ℕ, ◌-◌, ◌<◌, ◌≡◌, ◌⊎◌, Bool, true, false, not, Option, some, []}
use mathlib.Core.Option
use ampi.Slots.{make_msg, msg_close, msg_srcport}
use ampi.Slots.Send.{Status}
use ampi.Services.{Service, Services, passes, put, fits_open, open_sync}
use ampi.Life.Diagram.{is_connected}
use ampi.Life.Open.Kept.{Kept}
use ampi.Life.Open.{OpenMessage, OpenCalls, open_payload_size, is_retry, mismatches}

abbrev released : Service → Service
released w = record w { ref_count = w.ref_count - 1 }

-- A service that has its client: it is open, to the port and for the client of the message, and there
-- are as many references to it as before.
pub record HasClient (x : OpenMessage) (v w : Service) : Type 0 where
  pub state : is_connected w.srvstate ≡ true
  pub port : w.remoteport ≡ msg_srcport x.msgid
  pub client : w.client_id ≡ x.payload.client_id
  pub peer : w.peer_version ≡ x.payload.version
  pub same : (w.ref_count ≡ v.ref_count) × (w.handle ≡ v.handle) × (w.localport ≡ v.localport)

-- Why no service gets the client: the OPEN is too short, no service of the name listens or takes one more
-- client, or the one that is found has a version that does not fit.
pub data Unfit (x : OpenMessage) (s : Services) : Type 0 where
  too_short : x.size < open_payload_size → Unfit x s
  nobody :
      ((p : ℕ) → p < s.unused_service → passes (fits_open x.payload.fourcc) (s.services p) ≡ false)
      → Unfit x s
  other_version :
      (port : ℕ) (v : Service)
      → s.services port ≡ some v
      → fits_open x.payload.fourcc v ≡ true
      → mismatches x.payload v ≡ true
      → Unfit x s

-- A service that is not ready for its client: the next try finds it again, unless it is open
-- synchronously.
pub record Waits (x : OpenMessage) (v w : Service) : Type 0 where
  pub again : (fits_open x.payload.fourcc w ≡ true) ⊎ (w.srvstate ≡ open_sync)
  pub same : (w.ref_count ≡ v.ref_count) × (w.handle ≡ v.handle) × (w.localport ≡ v.localport)

module _ {C : Type 0} where
  -- The CLOSE that goes back
  abbrev pub close_back : OpenCalls C → OpenMessage → C → Status × C
  close_back k x c = k.send (make_msg msg_close 0 (msg_srcport x.msgid)) [] c

  -- The three ends of an OPEN, with the rest of the state: a CLOSE goes back, and if there is no room for it the OPEN is kept; a
  -- service gets the client; or one that fits is not ready, and the OPEN is kept.
  pub data Outcome (k : OpenCalls C) (x : OpenMessage) (s : Services) (c : C)
      : Bool → Services → C → Type 0 where
    rejected :
        Unfit x s → Outcome k x s c (not (is_retry (close_back k x c).0)) s (close_back k x c).1
    taken :
        (port : ℕ) (v w : Service) (d : C)
        → s.services port ≡ some v
        → fits_open x.payload.fourcc v ≡ true
        → mismatches x.payload v ≡ false
        → HasClient x v w
        → Outcome k x s c true (put port (some w) s) d
    postponed :
        (port : ℕ) (v w : Service) (d : C)
        → s.services port ≡ some v
        → fits_open x.payload.fourcc v ≡ true
        → mismatches x.payload v ≡ false
        → Waits x v w
        → Outcome k x s c false (put port (some w) s) d

  pub record Returns (k : OpenCalls C) (x : OpenMessage) (s : Services) (c : C)
      (r : Option (Bool × Services × C)) : Type 0 where
    pub dealt : Bool
    pub table : Services
    pub client : C
    pub returns : r ≡ some (dealt, table, client)
    pub fits : Outcome k x s c dealt table client
