-- ===== src/Instance.antt =====
-- ampi/vc4/vchiq/vchiq_kern_lib.c: the instances by which kernel threads use VCHIQ, their services, and
-- their blocking bulk transfers; with the services of ampi/vc4/vchiq/vchiq_shim.c.
pub mod Waiters
mod Tests
use ampi.Base.{
  ℕ, zero, suc, ◌+◌, ◌-◌, Bool, true, false, not, ◌==◌, ◌&&◌, ◌||◌, if◌then◌else◌, Option, none,
  some, List, [], ◌∷◌,
}
use ampi.Slots.Send.{Status, success, error, retry}
use ampi.Bulk.{Mode, Direction, callback, blocking, no_callback, waiting}
use ampi.Services.{Service, ServiceState, Services, listening, hidden, opening}
use ampi.Services.Add.{Params, add_service}
use ampi.Queue.{Queue, init}

-- The bulk transfer of a waiter that is under way: `bulk->data` and `bulk->size`, with its address
pub record Pending : Type 0 where
  pub bulk : ℕ
  pub data_address : ℕ
  pub size : ℕ

-- `struct bulk_waiter_node`
pub record Waiter : Type 0 where
  pub pid : ℕ
  pub pending : Option Pending

-- `struct vchiq_instance_struct`: `live` counts the waiters that are allocated, `cancelled` lists the bulk
-- transfers whose signal is cancelled, the last one first, and `client` is the rest of the state.
pub record Instance (C : Type 0) : Type 0 where
  pub connected : Bool
  pub waiters : List Waiter
  pub live : ℕ
  pub cancelled : List ℕ
  pub client : C

-- `list_for_each` up to the waiter of a thread, which `list_del` takes out
unfoldable pub take_waiter : ℕ → List Waiter → Option Waiter × List Waiter
take_waiter pid [] = (none, [])
take_waiter pid (w ∷ waiters) =
    let (found, others) = take_waiter pid waiters in
    if w.pid == pid then (some w, waiters) else (found, w ∷ others)

-- The bulk transfer is not the one that was under way.
abbrev pub differs : ℕ → ℕ → Pending → Bool
differs address size p = not (p.data_address == address) || not (p.size == size)

module _ {C : Type 0} where
  unfoldable pub cancel_signal : Option Pending → Instance C → Instance C
  cancel_signal none i = i
  cancel_signal (some p) i = record i { cancelled = p.bulk ∷ i.cancelled }

  -- The waiter of the thread: an old one, or a new one if there is memory
  unfoldable pub obtain : Bool → ℕ → ℕ → Option Waiter → Instance C → Option (Waiter × Instance C)
  obtain allocated address size none i =
      if allocated
      then some (record { pid = 0; pending = none }, record i { live = suc i.live })
      else none
  obtain allocated address size (some w) i = elim w.pending [
    | none ↦ some (w, i)
    | some p ↦ some (w, (if differs address size p then cancel_signal (some p) i else i))
  ]

  -- Behind the transfer: a waiter whose transfer is under way is kept for the next try.
  unfoldable pub keep_waiter : ℕ → Waiter → Instance C → Instance C
  keep_waiter pid w i = record i { waiters = record w { pid = pid } ∷ i.waiters }

  unfoldable pub drop_waiter : Waiter → Instance C → Instance C
  drop_waiter w i = let j = cancel_signal w.pending i in record j { live = j.live - 1 }

  unfoldable pub after_transfer : Status → Bool → ℕ → Waiter → Instance C → Instance C
  after_transfer retry false pid w i = elim w.pending [
    | none ↦ drop_waiter w i
    | some p ↦ keep_waiter pid w i
  ]
  after_transfer status fatal pid w i = drop_waiter w i

  -- `vchiq_blocking_bulk_transfer`: `found` says that there is the service, `transfer` is
  -- `vchiq_bulk_transfer`, which sets the transfer of the waiter, with what other threads do to the
  -- instance while it waits, and `fatal` is `fatal_signal_pending`.
  unfoldable pub blocking_bulk_transfer :
      Bool
      → Bool
      → Bool
      → (Waiter → Instance C → Status × Waiter × Instance C)
      → ℕ
      → ℕ
      → ℕ
      → Instance C
      → Status × Instance C
  blocking_bulk_transfer found allocated fatal transfer pid address size i =
      let (old, others) = take_waiter pid i.waiters in
      let run : Status × Instance C =
        elim (obtain allocated address size old (record i { waiters = others })) [
          | none ↦ (error, record i { waiters = others })
          | some (w, j) ↦
              let (status, w', k) = transfer w j in (status, after_transfer status fatal pid w' k)
        ] in
      if found then run else (error, i)

  -- `vchiq_bulk_transmit` and `vchiq_bulk_receive`: `plain` is `vchiq_bulk_transfer` with a mode.
  unfoldable pub bulk_by_mode :
      (Mode → Instance C → Status × Instance C)
      → (Instance C → Status × Instance C)
      → Mode
      → Instance C
      → Status × Instance C
  bulk_by_mode plain blocked no_callback i = plain no_callback i
  bulk_by_mode plain blocked callback i = plain callback i
  bulk_by_mode plain blocked blocking i = blocked i
  bulk_by_mode plain blocked waiting i = (error, i)

  -- `vchiq_shutdown`, where `remove_all` is `vchiq_shutdown_internal`: the waiters are freed with the
  -- instance.
  unfoldable pub free_waiters : List Waiter → Instance C → Instance C
  free_waiters [] i = record i { waiters = [] }
  free_waiters (w ∷ waiters) i = free_waiters waiters (record i { live = i.live - 1 })

  unfoldable pub vchiq_shutdown : (C → Status × C) → Instance C → Status × Instance C
  vchiq_shutdown remove_all i =
      let (status, c) = remove_all i.client in
      let j = record i { client = c } in
      elim status [
        | success ↦ (success, free_waiters j.waiters j)
        | error ↦ (error, j)
        | retry ↦ (retry, j)
      ]

  -- `vchiq_connect`, where `connect_all` is `vchiq_connect_internal`
  unfoldable pub vchiq_connect : (C → Status × C) → Instance C → Status × Instance C
  vchiq_connect connect_all i =
      let (status, c) = connect_all i.client in
      let j = record i { client = c } in
      elim status [
        | success ↦ (success, record j { connected = true })
        | error ↦ (error, j)
        | retry ↦ (retry, j)
      ]

-- The loop of `vchiq_initialise`: the state is looked for up to ten times. The result is the number of tries
-- that failed, and the state, if it is there; `wait` is `udelay (500)`.
unfoldable pub find_state : {S : Type 0} → (S → Option ℕ) → (S → S) → ℕ → S → Option ℕ × ℕ × S
find_state get_state wait zero s = (none, 0, s)
find_state get_state wait (suc tries) s =
    let (r, n, t) = find_state get_state wait tries (wait s) in
    elim (get_state s) [ none ↦ (r, suc n, t) | some state ↦ (some state, 0, s) ]

-- `VCHIQ_INIT_RETRIES`
abbrev pub init_retries : ℕ
init_retries = 10

-- The handle of a service that was added, or `VCHIQ_SERVICE_HANDLE_INVALID`
abbrev pub handle_at : Option ℕ → Services → ℕ
handle_at none s = 0
handle_at (some port) s = elim (s.services port) [ none ↦ 0 | some v ↦ v.handle ]

abbrev pub is_added : Option ℕ → Status
is_added none = error
is_added (some port) = success

-- `vchiq_add_service`: the status and the handle
unfoldable pub vchiq_add_service : Bool → Bool → Params → ℕ → Services → Status × ℕ × Services
vchiq_add_service allocated connected params owner s =
    let (port, t) =
      add_service allocated params (if connected then listening else hidden) owner 0 s in
    (is_added port, handle_at port t, t)

-- Behind `vchiq_open_service_internal`: a service that is not opened is removed.
unfoldable pub after_open :
    {C : Type 0}
    → (ℕ → Services × C → Services × C)
    → ℕ
    → Status
    → Services × C
    → Status × ℕ × Services × C
after_open remove handle success x = (success, handle, x.0, x.1)
after_open remove handle status x = let (t, d) = remove handle x in (status, 0, t, d)

-- `vchiq_open_service`: `open_internal` is `vchiq_open_service_internal` for the service at a port, and
-- `remove` is `vchiq_remove_service`.
unfoldable pub vchiq_open_service :
    {C : Type 0}
    → (ℕ → Services × C → Status × (Services × C))
    → (ℕ → Services × C → Services × C)
    → Bool
    → Bool
    → Params
    → ℕ
    → Services
    → C
    → Status × ℕ × Services × C
vchiq_open_service {C = C} open_internal remove allocated connected params owner s c =
    let (port, t) = add_service allocated params opening owner 0 s in
    let added : Status × ℕ × Services × C = elim port [
      | none ↦ (error, 0, t, c)
      | some p ↦
          let (status, x) = open_internal p (t, c) in
          after_open remove (handle_at (some p) t) status x
    ] in
    if connected then added else (error, 0, s, c)
