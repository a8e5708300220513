-- ===== src/Life/User/Waiting.antt =====
-- `vchiq_close_service` of ampi/vc4/vchiq/vchiq_core.c, called by a thread that waits for the slot handler.
use ampi.Base.{
  ℕ, suc, ◌-◌, ◌<◌, ◌≡◌, ◌∙◌, refl, ap, Bool, true, false, not, ◌==◌, if◌then◌else◌, Option, none,
  some, List, ◌∷◌, arith, ==-eq-false,
}
use mathlib.Core.Option
use ampi.Wait.{Task, modify, ◌>>=◌, ◌>>◌, bind_lem, poll_ready, poll_yield, poll}
use ampi.Sync.Semaphore.{down, up}
use ampi.Sync.Mutex.{mutex_lock, mutex_unlock}
use ampi.Slots.Send.{Status, success}
use ampi.Sync.{Cell}
use ampi.Services.{Service, ServiceState, Services, unlock_service, find_service_by_handle}
use ampi.Life.{Life, Calls, slot_cell}
use ampi.Services.References.{put-at}
use ampi.Life.User.{
  change, mark_service_closing, start_close, await_state, finish, with_service, close_service,
  polled, changed, quota_cell, recycle_cell, removed_cell, pass_slot_mutex, is_in, is_closed_state,
  is_close_done, is_unusable, poll_terminate, remove_count,
}

abbrev signalled : ℕ → Service → Service
signalled n v = record v { remove_event = n }

map-is_in :
    (test : ServiceState → Bool) (n : ℕ) (o : Option Service)
    → is_in test (Option.map (signalled n) o) ≡ is_in test o
map-is_in test n none = refl
map-is_in test n (some v) = refl

done-is_in : (o : Option Service) → is_in is_closed_state o ≡ true → is_in is_close_done o ≡ true
done-is_in none h = h
done-is_in (some v) h = rw h refl

module _ {C : Type 0} where
  -- What `mark_service_closing` leaves when its mutexes are free.
  abbrev pub marked : ℕ → Life C → Life C
  marked port m =
      let n = changed port (λ v. record v { closing = true }) m in
      up (quota_cell port) (record n { recycle_mutex = 0; slot_mutex = 0 })

  lock_free :
      (cell : Cell (Life C)) (m : Life C) (env : List (Life C → Life C))
      → cell.get m ≡ 0
      → mutex_lock cell m env ≡ some (tt, cell.put 1 m, env)
  unfolding mutex_lock
  lock_free cell m env e =
      bind_lem (poll (λ s. cell.get s == 0)) (λ _. modify (λ s. cell.put 1 s)) m m
        (poll_ready (λ (s : Life C). cell.get s == 0) m env (rw e refl))

  pass_lem :
      (cell : Cell (Life C)) (m : Life C) (env : List (Life C → Life C))
      → cell.get m ≡ 0
      → (mutex_lock cell >> modify (mutex_unlock cell)) m env
        ≡ some (tt, mutex_unlock cell (cell.put 1 m), env)
  pass_lem cell m env e =
      bind_lem (mutex_lock cell) (λ _. modify (mutex_unlock cell)) m _ (lock_free cell m env e)

  mark_lem :
      (port : ℕ) (m : Life C) (env : List (Life C → Life C))
      → m.recycle_mutex ≡ 0
      → m.slot_mutex ≡ 0
      → mark_service_closing false port m env ≡ some (tt, marked port m, env)
  unfolding mark_service_closing mutex_unlock
  mark_lem port m env r s =
      let first : Task (Life C) (Unit {0}) =
        modify (changed port (λ v. record v { closing = true })) in
      let n : Life C = changed port (λ v. record v { closing = true }) m in
      let through = record n { recycle_mutex = 0 } in
      let locked =
        bind_lem (first >> mutex_lock recycle_cell) (λ _. modify (mutex_unlock recycle_cell)) m _
          (lock_free recycle_cell n env r) in
      let passed =
        bind_lem (first >> mutex_lock recycle_cell >> modify (mutex_unlock recycle_cell))
          (λ _. pass_slot_mutex false) m through locked
        ∙ pass_lem slot_cell through env s in
      bind_lem
        (first
          >> mutex_lock recycle_cell
          >> modify (mutex_unlock recycle_cell)
          >> pass_slot_mutex false)
        (λ _. modify (up (quota_cell port))) m _ passed

  -- The wait ends with the first yield that signals the service and leaves it in one of the states.
  await_lem :
      (fuel : ℕ) (test : ServiceState → Bool) (port : ℕ) (m : Life C) (e : Life C → Life C)
      (env : List (Life C → Life C))
      → remove_count (m.table.services port) ≡ 0
      → 0 < remove_count ((e m).table.services port)
      → let cell = removed_cell port in
        let n = cell.put (cell.get (e m) - 1) (e m) in
        is_in test (n.table.services port) ≡ true
        → await_state (suc fuel) test port m (e ∷ env) ≡ some (tt, n, env)
  unfolding await_state down
  await_lem fuel test port m e env z p h =
      let cell : Cell (Life C) = removed_cell port in
      let ready : Life C → Bool = λ s. not (cell.get s == 0) in
      let n : Life C = cell.put (cell.get (e m) - 1) (e m) in
      let unsignalled : ready m ≡ false = rw z refl in
      let signalled : ready (e m) ≡ true =
        rw (==-eq-false (cell.get (e m)) 0 (omega (arith, p))) refl in
      let waited : down cell m (e ∷ env) ≡ some (tt, n, env) =
        bind_lem (poll ready) (λ _. modify (λ s. cell.put (cell.get s - 1) s)) m (e m)
          (poll_yield ready m e env unsignalled ∙ poll_ready ready (e m) env signalled) in
      bind_lem (down cell)
        (λ _ u rest.
          let again = await_state fuel test port u rest in
          if is_in test (u.table.services port) then some (tt, u, rest) else again)
        m n waited
      ∙ rw h refl

  signal-is_in :
      (test : ServiceState → Bool) (port n : ℕ) (m : Life C)
      → is_in test (((removed_cell port).put n m).table.services port)
        ≡ is_in test (m.table.services port)
  unfolding change
  signal-is_in test port n m =
      ap (is_in test) (put-at port (Option.map (signalled n) (m.table.services port)) m.table)
      ∙ map-is_in test n (m.table.services port)

  finish_lem :
      (test : ServiceState → Bool) (port : ℕ) (n : Life C) (u : Services)
      (env : List (Life C → Life C))
      → is_in test (n.table.services port) ≡ true
      → unlock_service port n.table ≡ some u
      → finish test port success n env ≡ some (success, record n { table = u }, env)
  unfolding finish
  finish_lem test port n u env h last = rw (finish, last, h) refl

  -- The state in which the thread waits: the service is marked, and the slot handler is asked to close it.
  abbrev pub asked : ℕ → Services → Life C → Life C
  asked port t m = polled port poll_terminate (marked port (record m { table = t }))

  -- `vchiq_close_service` of a thread that is not the slot handler: for a service that is found and is
  -- neither free nor hidden nor listening, it returns success as soon as the others have signalled
  -- the service, one yield here, and left it free or listening; the signal is used up, and the
  -- reference given back. Before, the service is marked as closing, the request for the slot handler
  -- is made, and the mutexes, which are free at the start, are given back.
  pub close_service_lem :
      (k : Calls C) (fuel handle port : ℕ) (m : Life C) (t u : Services) (e : Life C → Life C)
      (env : List (Life C → Life C))
      → (m.recycle_mutex ≡ 0) × (m.slot_mutex ≡ 0)
      → find_service_by_handle handle m.table ≡ some (some port, t)
      → is_in is_unusable (t.services port) ≡ false
      → remove_count ((asked port t m).table.services port) ≡ 0
      → 0 < remove_count ((e (asked port t m)).table.services port)
      → is_in is_closed_state ((e (asked port t m)).table.services port) ≡ true
      → let cell = removed_cell port in
        let n = cell.put (cell.get (e (asked port t m)) - 1) (e (asked port t m)) in
        unlock_service port n.table ≡ some u
        → close_service k (suc fuel) false handle m (e ∷ env)
          ≡ some (success, record n { table = u }, env)
  unfolding close_service with_service start_close
  close_service_lem k fuel handle port m t u e env free found usable z p h last =
      let cell : Cell (Life C) = removed_cell port in
      let a : Life C = asked port t m in
      let l : Life C = record m { table = t } in
      let n : Life C = cell.put (cell.get (e a) - 1) (e a) in
      let there : is_in is_closed_state (n.table.services port) ≡ true =
        signal-is_in is_closed_state port (cell.get (e a) - 1) (e a) ∙ h in
      let marks = mark_lem port l (e ∷ env) free.0 free.1 in
      let starts =
        bind_lem (mark_service_closing false port) (λ _. start_close k false poll_terminate port) l
          (marked port l) marks in
      let waits : Task (Life C) Status =
        mark_service_closing false port >> start_close k false poll_terminate port >>= λ status.
        await_state (suc fuel) is_close_done port >> finish is_closed_state port status in
      let awaits = await_lem fuel is_close_done port a e env z p (done-is_in _ there) in
      let ends : waits l (e ∷ env) ≡ some (success, record n { table = u }, env) =
        bind_lem (mark_service_closing false port >> start_close k false poll_terminate port)
          (λ status.
            await_state (suc fuel) is_close_done port >> finish is_closed_state port status)
          l a starts
        ∙ bind_lem (await_state (suc fuel) is_close_done port)
            (λ _. finish is_closed_state port success) a n awaits
        ∙ finish_lem is_closed_state port n u env there last in
      rw (with_service, found, usable) ends
