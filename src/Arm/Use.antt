-- ===== src/Arm/Use.antt =====
-- ampi/vc4/vchiq/vchiq_arm.c: `vchiq_use_internal` and `vchiq_release_internal`.
use ampi.Base.{ℕ, zero, suc, ◌+◌, not, ◌==◌, leb, ◌&&◌, ◌||◌, if◌then◌else◌, Option, none, some}
use ampi.Base.Words.{add32, sub32}
use ampi.Wait.{Task, pure, modify, ◌>>◌}
use ampi.Sync.Completion.{complete, complete_all, wait_for_completion, try_wait_for_completion}
use ampi.Sync.Rwlock.{write_lock_bh, write_unlock_bh}
use ampi.Slots.Send.{Status, success, error, retry}
use ampi.Arm.{
  suspend_rank, UseType, ArmState, ka_evt_cell, resume_cell, lock_cell, resume_blocker_cell,
  blocked_blocker_cell, set_suspend_state, platform_use_suspend_timer, videocore_wanted,
  start_suspend_timer, stop_suspend_timer, vcsuspend, check_resume, with_lock, force_canceled,
  suspend_idle, suspend_requested, use_service, use_service_no_resume, use_vchiq,
}

-- Who uses VideoCore: the peer, or a service by its port.
pub data Entity : Type 0 where
  peer : Entity
  service : ℕ → Entity

-- `*entity_uc`
unfoldable pub entity_uc : Entity → ArmState → ℕ
entity_uc peer s = s.peer_use_count
entity_uc (service port) s = s.service_use_count port

unfoldable pub set_entity_uc : Entity → ℕ → ArmState → ArmState
set_entity_uc peer n s = record s { peer_use_count = n }
set_entity_uc (service port) n s = record s {
  service_use_count = λ i. if i == port then n else s.service_use_count i;
}

-- The one that a call of `vchiq_use_internal` is for; there is none without a service.
unfoldable pub use_entity : UseType → Option ℕ → Option Entity
use_entity use_vchiq port = some peer
use_entity _ none = none
use_entity _ (some port) = some (service port)

-- The thread that waited for the resume blocker takes itself off the count.
unfoldable pub unblocked : ArmState → ArmState
unblocked s =
    let t = record s { blocked_count = sub32 s.blocked_count 1 } in
    if t.blocked_count == 0 then complete_all blocked_blocker_cell t else t

-- The loop of `vchiq_use_internal`, with the write lock held. `none` says that the task still waits, or
-- that the fuel is spent.
unfoldable pub await_unblocked : ℕ → Task ArmState (Unit {0})
await_unblocked zero s env = none
await_unblocked (suc fuel) s env =
    let (done, t) = try_wait_for_completion resume_blocker_cell s in
    let passed = await_unblocked fuel t env in
    let waited =
      (modify
            (λ u. write_unlock_bh lock_cell (record u { blocked_count = add32 u.blocked_count 1 }))
          >> wait_for_completion resume_blocker_cell
          >> write_lock_bh lock_cell
          >> modify unblocked
          >> await_unblocked fuel)
        t env in
    if not s.resume_blocked
    then some (tt, s, env)
    else if suspend_rank s.vc_suspend_state == suspend_rank suspend_idle
    then some (tt, set_suspend_state force_canceled s, env)
    else if done == 0
    then waited
    else passed

-- A suspend that is only requested is taken back.
unfoldable pub take_back : ArmState → ArmState
take_back s =
    if leb (suspend_rank s.vc_suspend_state) (suspend_rank suspend_requested)
    then set_suspend_state suspend_idle s
    else s

-- If need be a resume is requested, as in `vchiq_check_resume`.
unfoldable pub ask_resume : UseType → ArmState → ArmState
ask_resume use_service_no_resume s = s
ask_resume use_service s = (check_resume s).1
ask_resume use_vchiq s = (check_resume s).1

unfoldable pub increment : Entity → ArmState → ArmState
increment e s =
    set_entity_uc e (add32 (entity_uc e s) 1)
      (record s { videocore_use_count = add32 s.videocore_use_count 1 })

-- The use is counted, and the write lock given back.
unfoldable pub count_use : UseType → Entity → ArmState → ArmState
count_use use_type e s =
    write_unlock_bh lock_cell (ask_resume use_type (take_back (increment e (stop_suspend_timer s))))

-- The wait for the resume, which ends at once when VideoCore is not suspended.
unfoldable pub await_resume : Task ArmState (Unit {0})
await_resume s env =
    let (done, t) = try_wait_for_completion resume_cell s in
    let waited = wait_for_completion resume_cell t env in
    if done == 0 then waited else some (tt, t, env)

-- The acknowledgements for the uses of the peer; `send` is `vchiq_send_remote_use_active`.
unfoldable pub send_acks : (ArmState → Status × ArmState) → ℕ → ArmState → ArmState
send_acks send zero s = s
send_acks send (suc n) s =
    let (status, t) = send s in
    let rest = send_acks send n t in
    elim status [
      | success ↦ rest
      | error ↦ record t { ka_use_ack_count = add32 t.ka_use_ack_count (suc n) }
      | retry ↦ record t { ka_use_ack_count = add32 t.ka_use_ack_count (suc n) }
    ]

abbrev pub send_all_acks : (ArmState → Status × ArmState) → ArmState → ArmState
send_all_acks send s = send_acks send s.ka_use_ack_count (record s { ka_use_ack_count = 0 })

abbrev pub use_by :
    (ArmState → Status × ArmState) → ℕ → UseType → Option Entity → Task ArmState Status
use_by send fuel use_type none = pure error
use_by send fuel use_type (some e) =
    write_lock_bh lock_cell
    >> await_unblocked fuel
    >> modify (count_use use_type e)
    >> await_resume
    >> modify (send_all_acks send)
    >> pure success

-- `vchiq_use_internal`
unfoldable pub use_internal :
    (ArmState → Status × ArmState) → ℕ → UseType → Option ℕ → Task ArmState Status
use_internal send fuel use_type port = use_by send fuel use_type (use_entity use_type port)

-- `vchiq_release_internal` between taking and giving back the write lock
unfoldable pub release : Entity → ArmState → Status × ArmState
release e s =
    let warned = record s {
      warnings =
          s.warnings
          + (if s.videocore_use_count == 0 then 1 else 0)
          + (if entity_uc e s == 0 then 1 else 0);
    } in
    if s.videocore_use_count == 0 || entity_uc e s == 0 then (error, warned) else (
      success,
      if videocore_wanted s
          then s
          else if platform_use_suspend_timer && not s.resume_blocked
          then start_suspend_timer s
          else vcsuspend s,
    )

abbrev pub release_entity : Option ℕ → Entity
release_entity none = peer
release_entity (some port) = service port

-- `vchiq_release_internal`
unfoldable pub release_internal : Option ℕ → Task ArmState Status
release_internal port = with_lock (release (release_entity port))

-- `vchiq_on_remote_use` and `vchiq_on_remote_release`
unfoldable pub on_remote_use : ArmState → ArmState
on_remote_use s = complete ka_evt_cell (record s { ka_use_count = add32 s.ka_use_count 1 })

unfoldable pub on_remote_release : ArmState → ArmState
on_remote_release s =
    complete ka_evt_cell (record s { ka_release_count = add32 s.ka_release_count 1 })
