-- ===== src/Services.antt =====
-- ampi/vc4/vchiq/vchiq_core.c: the table of services, the references to them and the lookups.
pub mod Add
pub mod References
pub mod Visit
mod Tests
use ampi.Base.{
  ℕ, zero, suc, ◌+◌, ◌-◌, Bool, true, false, not, ◌==◌, ltb, leb, ◌&&◌, ◌||◌, if◌then◌else◌, Option,
  none, some, List, [], ◌∷◌,
}
use mathlib.Core.Option
use Prim.Native.Nat.{bit_and}
use ampi.Base.Words.{add32, sub32}

-- The states of a service, `VCHIQ_SRVSTATE_...`
pub data ServiceState : Type 0 where
  free hidden listening opening opened open_sync close_sent close_received close_wait closed :
      ServiceState

abbrev pub is_free : ServiceState → Bool
is_free free = true
is_free _ = false

abbrev pub is_closed : ServiceState → Bool
is_closed closed = true
is_closed _ = false

abbrev pub is_listening : ServiceState → Bool
is_listening listening = true
is_listening _ = false

abbrev pub is_opened : ServiceState → Bool
is_opened opened = true
is_opened _ = false

abbrev pub is_opening : ServiceState → Bool
is_opening opening = true
is_opening _ = false

-- `struct vchiq_service_struct`, without the queues of bulk transfers and the statistics. A null pointer
-- is 0, `remove_event` is the count of the semaphore.
pub record Service : Type 0 where
  pub fourcc : ℕ
  pub callback : ℕ
  pub userdata : ℕ
  pub handle : ℕ
  pub ref_count : ℕ
  pub srvstate : ServiceState
  pub userdata_term : ℕ
  pub localport : ℕ
  pub remoteport : ℕ
  pub public_fourcc : ℕ
  pub client_id : ℕ
  pub auto_close : Bool
  pub sync : Bool
  pub closing : Bool
  pub version : ℕ
  pub version_min : ℕ
  pub peer_version : ℕ
  pub owner : ℕ
  pub remove_event : ℕ

-- `VCHIQ_MAX_SERVICES`
abbrev pub max_services : ℕ
max_services = 4096

-- `VCHIQ_PORT_FREE`
abbrev pub port_free : ℕ
port_free = 0x1000

-- `VCHIQ_SERVICE_QUOTA_T`; `quota_event` is the count of the semaphore.
pub record Quota : Type 0 where
  pub slot_quota : ℕ
  pub slot_use_count : ℕ
  pub message_quota : ℕ
  pub message_use_count : ℕ
  pub quota_event : ℕ
  pub previous_tx_index : ℕ

-- The array `services` of the one state, where a missing service is a null pointer, with
-- `unused_service`, the quotas and what else a new service reads; `terminated` lists the calls of
-- `userdata_term`, the last one first. A pointer to a service is its index in the array.
pub record Services : Type 0 where
  pub services : ℕ → Option Service
  pub unused_service : ℕ
  pub handle_seq : ℕ
  pub quotas : ℕ → Quota
  pub default_slot_quota : ℕ
  pub default_message_quota : ℕ
  pub local_tx_pos : ℕ
  pub terminated : List (ℕ × ℕ)

unfoldable pub put : ℕ → Option Service → Services → Services
put port v s = record s { services = λ i. if i == port then v else s.services i }

-- `BUG_ON(service->ref_count == 0); service->ref_count++;`: `none` stands for the failed check.
unfoldable pub hold : ℕ → Service → Services → Option Services
hold port v s =
    if v.ref_count == 0
    then none
    else some (put port (some (record v { ref_count = add32 v.ref_count 1 })) s)

-- The body of the lookups: the service at an index if it is there and passes the test.
unfoldable pub claim : (Service → Bool) → ℕ → Services → Option (Option ℕ × Services)
claim test port s = elim (s.services port) [
  | none ↦ some (none, s)
  | some v ↦
      let held = Option.map (λ s'. (some port, s')) (hold port v s) in
      if test v then held else some (none, s)
]

-- The index in `handle_to_service`; there is one state (`VCHIQ_MAX_STATES`).
abbrev pub handle_port : ℕ → ℕ
handle_port handle = bit_and handle (max_services - 1)

abbrev pub has_handle : ℕ → Service → Bool
has_handle handle v = not (is_free v.srvstate) && v.handle == handle

unfoldable pub find_service_by_handle : ℕ → Services → Option (Option ℕ × Services)
find_service_by_handle handle s = claim (has_handle handle) (handle_port handle) s

unfoldable pub find_service_by_port : ℕ → Services → Option (Option ℕ × Services)
find_service_by_port port s =
    if ltb port max_services then claim (λ v. not (is_free v.srvstate)) port s else some (none, s)

unfoldable pub find_service_for_instance : ℕ → ℕ → Services → Option (Option ℕ × Services)
find_service_for_instance owner handle s =
    claim (λ v. has_handle handle v && v.owner == owner) (handle_port handle) s

unfoldable pub find_closed_service_for_instance : ℕ → ℕ → Services → Option (Option ℕ × Services)
find_closed_service_for_instance owner handle s =
    claim
      (λ v. (is_free v.srvstate || is_closed v.srvstate) && v.handle == handle && v.owner == owner)
      (handle_port handle) s

abbrev pub passes : (Service → Bool) → Option Service → Bool
passes test none = false
passes test (some v) = test v

-- The first index of `n` from `i` on with a service that passes the test.
unfoldable pub scan : (Service → Bool) → ℕ → ℕ → Services → Option ℕ
scan test zero i s = none
scan test (suc n) i s =
    let rest = scan test n (suc i) s in if passes test (s.services i) then some i else rest

abbrev pub belongs : ℕ → Service → Bool
belongs owner v = not (is_free v.srvstate) && v.owner == owner

unfoldable pub lock_service : ℕ → Services → Option Services
lock_service port s = elim (s.services port) [ none ↦ none | some v ↦ hold port v s ]

-- `next_service_by_instance`: the service, the new value of `*pidx`, the table
unfoldable pub next_service_by_instance : ℕ → ℕ → Services → Option (Option ℕ × ℕ × Services)
next_service_by_instance owner idx s = elim (scan (belongs owner) (s.unused_service - idx) idx s) [
  | none ↦ some (none, if ltb idx s.unused_service then s.unused_service else idx, s)
  | some i ↦ Option.map (λ s'. (some i, suc i, s')) (lock_service i s)
]

abbrev pub terminate : Service → Services → Services
terminate v s =
    if v.userdata_term == 0
    then s
    else record s { terminated = (v.userdata_term, v.userdata) ∷ s.terminated }

-- `unlock_service`: `none` stands for a failed check, or for a service that is not there any more.
unfoldable pub unlock_service : ℕ → Services → Option Services
unlock_service port s = elim (s.services port) [
  | none ↦ none
  | some v ↦
      let freed =
        if is_free v.srvstate then some (terminate v (put v.localport none s)) else none in
      let kept = some (put port (some (record v { ref_count = v.ref_count - 1 })) s) in
      if v.ref_count == 0 then none else if v.ref_count == 1 then freed else kept
]

-- `vchiq_get_client_id`
unfoldable pub get_client_id : ℕ → Services → Option (ℕ × Services)
get_client_id handle s = elim (find_service_by_handle handle s) [
  | none ↦ none
  | some (r, s') ↦ elim r [
    | none ↦ some (0, s')
    | some port ↦ elim (s'.services port) [
      | none ↦ none
      | some v ↦ Option.map (λ s''. (v.client_id, s'')) (unlock_service port s')
    ]
  ]
]

-- The services that an OPEN can be for: those of the name that listen, or are open with no client.
abbrev pub fits_open : ℕ → Service → Bool
fits_open fourcc v =
    v.public_fourcc == fourcc
    && (is_listening v.srvstate || is_opened v.srvstate && v.remoteport == port_free)

unfoldable pub get_listening_service : ℕ → Services → Option (Option ℕ × Services)
get_listening_service fourcc s = elim (scan (fits_open fourcc) s.unused_service 0 s) [
  | none ↦ some (none, s)
  | some i ↦ Option.map (λ s'. (some i, s')) (lock_service i s)
]

unfoldable pub get_connected_service : ℕ → Services → Option (Option ℕ × Services)
get_connected_service port s =
    elim (scan (λ v. is_opened v.srvstate && v.remoteport == port) s.unused_service 0 s) [
      | none ↦ some (none, s)
      | some i ↦ Option.map (λ s'. (some i, s')) (lock_service i s)
    ]
