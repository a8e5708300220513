-- ===== src/Life/Open/Kept.antt =====
-- ampi/vc4/vchiq/vchiq_core.c: what `parse_open` keeps of a service that it changes.
use ampi.Base.{
  ℕ, ◌+◌, ◌<◌, ◌≡◌, ◌⊎◌, inl, inr, refl, ap, Bool, true, false, ◌&&◌, ◌||◌, some, arith, Bool-cases,
}
use ampi.Services.{
  Service, ServiceState, Services, is_listening, is_opened, fits_open, opened, open_sync, free,
  hidden, listening, opening, close_sent, close_received, close_wait, closed,
}
use ampi.Services.Add.{set_service_state}
use ampi.Services.References.{held}
use ampi.Life.Diagram.{is_connected}
use ampi.Life.Open.{OpenMessage, mismatches, settle_sync, with_peer, now_open}

pub first-true : (a b : Bool) → (a && b) ≡ true → a ≡ true
first-true true b h = refl
first-true false b h = h

-- What is the same in a service that `parse_open` has changed, but for its reference; it knows the version
-- of its client
pub record Kept (version : ℕ) (v w : Service) : Type 0 where
  pub refs : w.ref_count ≡ v.ref_count + 1
  pub names : (w.handle ≡ v.handle) × (w.localport ≡ v.localport)
  pub fourcc : w.public_fourcc ≡ v.public_fourcc
  pub peer : w.peer_version ≡ version

-- What is known of the service that was found
pub record Fits (x : OpenMessage) (port : ℕ) (v : Service) (s : Services) : Type 0 where
  pub there : s.services port ≡ some v
  pub accepted : fits_open x.payload.fourcc v ≡ true
  pub versions : mismatches x.payload v ≡ false
  pub counted : 0 < v.ref_count

pub open-connected : (a : ServiceState) → (a ≡ opened) ⊎ (a ≡ open_sync) → is_connected a ≡ true
open-connected a (inl e) = ap is_connected e
open-connected a (inr e) = ap is_connected e

pub now_open-state :
    (w : Service) → ((now_open w).srvstate ≡ opened) ⊎ ((now_open w).srvstate ≡ open_sync)
unfolding now_open set_service_state
now_open-state w = elim (Bool-cases w.sync) [ inl y ↦ inr (rw y refl) | inr n ↦ inl (rw n refl) ]

pub now_open-Kept : (version : ℕ) (v w : Service) → Kept version v w → Kept version v (now_open w)
unfolding now_open set_service_state
now_open-Kept version v w n = record {
  refs = n.refs;
  names = n.names;
  fourcc = n.fourcc;
  peer = n.peer;
}

pub second-true : (a b : Bool) → (a && b) ≡ true → b ≡ true
second-true true b h = h
second-true false b h = ground (arith, h)

pub opened-state :
    (a : ServiceState) (b : Bool)
    → (is_listening a || is_opened a && b) ≡ true
    → is_listening a ≡ false
    → a ≡ opened
opened-state opened b h n = refl
opened-state listening b h n = ground (arith, n)
opened-state free b h n = ground (arith, h)
opened-state hidden b h n = ground (arith, h)
opened-state opening b h n = ground (arith, h)
opened-state open_sync b h n = ground (arith, h)
opened-state close_sent b h n = ground (arith, h)
opened-state close_received b h n = ground (arith, h)
opened-state close_wait b h n = ground (arith, h)
opened-state closed b h n = ground (arith, h)

pub settle_sync-Kept :
    (version_common version : ℕ) (v : Service)
    → Kept version v (settle_sync version_common (with_peer version (held v)))
unfolding settle_sync with_peer
settle_sync-Kept version_common version v = record {
  refs = refl;
  names = (refl, refl);
  fourcc = refl;
  peer = refl;
}

pub settle_sync-state :
    (version_common : ℕ) (v : Service)
    → is_listening v.srvstate ≡ true
    → is_listening (settle_sync version_common v).srvstate ≡ true
unfolding settle_sync
settle_sync-state version_common v h = h
