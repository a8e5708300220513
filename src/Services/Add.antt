-- ===== src/Services/Add.antt =====
-- ampi/vc4/vchiq/vchiq_core.c: `vchiq_add_service_internal`.
pub mod Port
pub mod Place
pub mod Find
use ampi.Base.{
  ℕ, zero, suc, ◌+◌, ◌/◌, Bool, true, false, not, ◌==◌, ltb, ◌&&◌, ◌||◌, if◌then◌else◌, Option,
  none, some,
}
use mathlib.Core.Option
use Prim.Native.Nat.{bit_or}
use ampi.Base.Words.{add32, sub32}
use ampi.Services.{
  Service, ServiceState, free, is_opening, Services, Quota, put, max_services, port_free,
}

-- `VCHIQ_SERVICE_PARAMS_T`, as far as the table of services uses it
pub record Params : Type 0 where
  pub fourcc : ℕ
  pub callback : ℕ
  pub userdata : ℕ
  pub version : ℕ
  pub version_min : ℕ

-- The fields of a new service before it has a port; `peer_version` is not set yet, and 0 here. `VCHIQ_FOURCC_INVALID` and
-- `VCHIQ_SERVICE_HANDLE_INVALID` are 0.
unfoldable pub new_service : Params → ServiceState → ℕ → ℕ → Service
new_service params srvstate owner userdata_term = record {
  fourcc = params.fourcc;
  callback = params.callback;
  userdata = params.userdata;
  handle = 0;
  ref_count = 1;
  srvstate = free;
  userdata_term = userdata_term;
  localport = port_free;
  remoteport = port_free;
  public_fourcc = if is_opening srvstate then 0 else params.fourcc;
  client_id = 0;
  auto_close = true;
  sync = false;
  closing = false;
  version = params.version;
  version_min = params.version_min;
  peer_version = 0;
  owner = owner;
  remove_event = 0;
}

abbrev pub is_missing : Option Service → Bool
is_missing none = true
is_missing (some v) = false

-- The search for a client: the first of `n` indices from `i` on that has no service.
unfoldable pub first_missing : ℕ → ℕ → Services → Option ℕ
first_missing zero i s = none
first_missing (suc n) i s =
    let rest = first_missing n (suc i) s in if is_missing (s.services i) then some i else rest

-- Another server of the same name that does not match
abbrev pub conflicts : Params → ℕ → Service → Bool
conflicts params owner v =
    v.public_fourcc == params.fourcc
    && (not (v.owner == owner) || not (v.callback == params.callback))

-- The search for a server, downwards from below `n`; `best` is `pservice`.
unfoldable pub search_down : Params → ℕ → ℕ → Option ℕ → Services → Option ℕ
search_down params owner zero best s = best
search_down params owner (suc i) best s =
    let lower = search_down params owner i best s in
    let lower_here = search_down params owner i (some i) s in
    elim (s.services i) [
      | none ↦ lower_here
      | some v ↦ if conflicts params owner v then none else lower
    ]

-- The port for a new service, if there is one.
unfoldable pub choose_port : Params → ServiceState → ℕ → Services → Option ℕ
choose_port params srvstate owner s =
    let fresh = if ltb s.unused_service max_services then some s.unused_service else none in
    if is_opening srvstate
    then elim (first_missing s.unused_service 0 s) [ none ↦ fresh | some i ↦ some i ]
    else search_down params owner s.unused_service fresh s

-- The service gets its port and its handle, and comes into the table. The one state has the id 0.
unfoldable pub install : ℕ → Service → Services → Services
install port v s =
    let seq = if s.handle_seq == 0 then max_services else s.handle_seq in
    put port (some (record v { localport = port; handle = bit_or seq port })) (record s {
      handle_seq = add32 seq max_services;
      unused_service = if port == s.unused_service then suc s.unused_service else s.unused_service;
    })

-- The quotas of a new service; a slot has 4096 bytes.
unfoldable pub set_quota : ℕ → Services → Services
set_quota port s =
    let old = s.quotas port in
    let new = record old {
      slot_quota = s.default_slot_quota;
      message_quota = s.default_message_quota;
      previous_tx_index =
          if old.slot_use_count == 0
          then sub32 (s.local_tx_pos / 4096) 1
          else old.previous_tx_index;
    } in
    record s { quotas = λ i. if i == port then new else s.quotas i }

-- `vchiq_set_service_state`
unfoldable pub set_service_state : ServiceState → Service → Service
set_service_state newstate v = record v { srvstate = newstate }

-- The last step: the new service gets its state.
unfoldable pub bring_online : ServiceState → ℕ → Services → Services
bring_online srvstate port s =
    put port (Option.map (set_service_state srvstate) (s.services port)) s

-- `vchiq_add_service_internal`: the new service, or a null pointer if there is no memory
-- (`allocated` is false) or no port.
unfoldable pub add_service : Bool → Params → ServiceState → ℕ → ℕ → Services → Option ℕ × Services
add_service allocated params srvstate owner userdata_term s =
    let v = new_service params srvstate owner userdata_term in
    if allocated
    then elim (choose_port params srvstate owner s) [
      | none ↦ (none, s)
      | some port ↦ (some port, bring_online srvstate port (set_quota port (install port v s)))
    ]
    else (none, s)
