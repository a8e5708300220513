-- ===== src/Arm.antt =====
-- ampi/vc4/vchiq/vchiq_arm.c and vchiq_arm.h: the uses of VideoCore, and the states of its suspend and
-- resume; with the functions of the platform, of ampi/vc4/vchiq/vchiq_2835_arm.c.

pub mod Use
pub mod Count
pub mod Uses
pub mod Balance
mod Tests
use ampi.Base.{
  ℕ, zero, suc, ◌+◌, ◌-◌, ◌*◌, ◌≡◌, Bool, true, false, not, ◌==◌, ltb, leb, ◌&&◌, ◌||◌,
  if◌then◌else◌, Option, none, some, List,
}
use ampi.Base.Words.{add32, sub32}
use ampi.Wait.{Task, pure, lift, modify, ◌>>=◌, ◌>>◌}
use ampi.Sync.{Cell}
use ampi.Sync.Completion.{
  init_completion, complete, complete_all, wait_for_completion, try_wait_for_completion,
}
use ampi.Sync.Rwlock.{write_lock_bh, write_unlock_bh}
use ampi.Slots.Send.{Status, success, error, retry}
use ampi.Bulk.{Poll, request_poll}

-- `enum vc_suspend_status`
pub data Suspend : Type 0 where
  force_canceled rejected suspend_failed suspend_idle suspend_requested suspend_in_progress
        suspended :
      Suspend

-- `enum vc_resume_status`
pub data Resume : Type 0 where
  resume_failed resume_idle resume_requested resume_in_progress resumed : Resume

-- Their numbers, from 0 on.
unfoldable pub suspend_rank : Suspend → ℕ
suspend_rank force_canceled = 0
suspend_rank rejected = 1
suspend_rank suspend_failed = 2
suspend_rank suspend_idle = 3
suspend_rank suspend_requested = 4
suspend_rank suspend_in_progress = 5
suspend_rank suspended = 6

unfoldable pub resume_rank : Resume → ℕ
resume_rank resume_failed = 0
resume_rank resume_idle = 1
resume_rank resume_requested = 2
resume_rank resume_in_progress = 3
resume_rank resumed = 4

-- `enum USE_TYPE_E`
pub data UseType : Type 0 where
  use_service use_service_no_resume use_vchiq : UseType

-- `VCHIQ_ARM_STATE_T`, with the use count of each service by its port, and what `request_poll`
-- changes. `suspend_timer_pending` says that the timer is on the list of timers.
pub record ArmState : Type 0 where
  pub ka_evt : ℕ
  pub ka_use_count : ℕ
  pub ka_use_ack_count : ℕ
  pub ka_release_count : ℕ
  pub vc_suspend_complete : ℕ
  pub vc_resume_complete : ℕ
  pub susp_res_lock : ℕ
  pub vc_suspend_state : Suspend
  pub vc_resume_state : Resume
  pub suspend_timer_pending : Bool
  pub suspend_timer_running : Bool
  pub videocore_use_count : ℕ
  pub peer_use_count : ℕ
  pub service_use_count : ℕ → ℕ
  pub resume_blocker : ℕ
  pub resume_blocked : Bool
  pub blocked_blocker : ℕ
  pub blocked_count : ℕ
  pub first_connect : Bool
  pub warnings : ℕ
  pub poll : Poll

abbrev pub ka_evt_cell : Cell ArmState
ka_evt_cell = record { get = λ s. s.ka_evt; put = λ n s. record s { ka_evt = n } }

abbrev pub suspend_cell : Cell ArmState
suspend_cell = record {
  get = λ s. s.vc_suspend_complete;
  put = λ n s. record s { vc_suspend_complete = n };
}

abbrev pub resume_cell : Cell ArmState
resume_cell = record {
  get = λ s. s.vc_resume_complete;
  put = λ n s. record s { vc_resume_complete = n };
}

abbrev pub lock_cell : Cell ArmState
lock_cell = record { get = λ s. s.susp_res_lock; put = λ n s. record s { susp_res_lock = n } }

abbrev pub resume_blocker_cell : Cell ArmState
resume_blocker_cell = record {
  get = λ s. s.resume_blocker;
  put = λ n s. record s { resume_blocker = n };
}

abbrev pub blocked_blocker_cell : Cell ArmState
blocked_blocker_cell = record {
  get = λ s. s.blocked_blocker;
  put = λ n s. record s { blocked_blocker = n };
}

-- `set_suspend_state`; `set_resume_state(VC_RESUME_IDLE)` is written out.
unfoldable pub set_suspend_state : Suspend → ArmState → ArmState
set_suspend_state force_canceled s =
    complete_all suspend_cell (record s { vc_suspend_state = force_canceled })
set_suspend_state rejected s = complete_all suspend_cell (record s { vc_suspend_state = rejected })
set_suspend_state suspend_failed s =
    let t = complete_all suspend_cell (record s { vc_suspend_state = suspend_failed }) in
    complete_all resume_cell (record t { vc_resume_state = resumed })
set_suspend_state suspend_idle s =
    init_completion suspend_cell (record s { vc_suspend_state = suspend_idle })
set_suspend_state suspend_requested s = record s { vc_suspend_state = suspend_requested }
set_suspend_state suspend_in_progress s =
    init_completion resume_cell
      (record s { vc_suspend_state = suspend_in_progress; vc_resume_state = resume_idle })
set_suspend_state suspended s =
    complete_all suspend_cell (record s { vc_suspend_state = suspended })

-- `set_resume_state`
unfoldable pub set_resume_state : Resume → ArmState → ArmState
set_resume_state resume_failed s = record s { vc_resume_state = resume_failed }
set_resume_state resume_idle s =
    init_completion resume_cell (record s { vc_resume_state = resume_idle })
set_resume_state resume_requested s = record s { vc_resume_state = resume_requested }
set_resume_state resume_in_progress s = record s { vc_resume_state = resume_in_progress }
set_resume_state resumed s =
    set_suspend_state suspend_idle
      (complete_all resume_cell (record s { vc_resume_state = resumed }))

-- `vchiq_platform_videocore_wanted` and `vchiq_platform_use_suspend_timer` of the BCM2835
abbrev pub platform_videocore_wanted : Bool
platform_videocore_wanted = true

abbrev pub platform_use_suspend_timer : Bool
platform_use_suspend_timer = false

-- `vchiq_videocore_wanted`
unfoldable pub videocore_wanted : ArmState → Bool
videocore_wanted s =
    if not (s.blocked_count == 0)
    then true
    else if s.videocore_use_count == 0
    then if s.resume_blocked then false else platform_videocore_wanted
    else true

-- `start_suspend_timer` and `stop_suspend_timer`
unfoldable pub start_suspend_timer : ArmState → ArmState
start_suspend_timer s = record s { suspend_timer_pending = true; suspend_timer_running = true }

unfoldable pub stop_suspend_timer : ArmState → ArmState
stop_suspend_timer s =
    if s.suspend_timer_running
    then record s { suspend_timer_pending = false; suspend_timer_running = false }
    else s

-- `need_resume`
unfoldable pub need_resume : ArmState → Bool
need_resume s =
    ltb (suspend_rank suspend_idle) (suspend_rank s.vc_suspend_state)
    && ltb (resume_rank s.vc_resume_state) (resume_rank resume_requested)
    && videocore_wanted s

-- `unblock_resume`
unfoldable pub unblock_resume : ArmState → ArmState
unblock_resume s = record (complete_all resume_blocker_cell s) { resume_blocked = false }

-- `request_poll(state, NULL, 0)`
abbrev pub poll_slots : ArmState → ArmState
poll_slots s = record s { poll = request_poll none 0 s.poll }

abbrev pub request_suspend : ArmState → ArmState
request_suspend s = poll_slots (set_suspend_state suspend_requested s)

-- `vchiq_arm_vcsuspend`
unfoldable pub vcsuspend : ArmState → ArmState
vcsuspend s = elim s.vc_suspend_state [
  | suspend_requested ↦ s
  | suspend_in_progress ↦ s
  | suspend_idle ↦ request_suspend s
  | force_canceled ↦ request_suspend (set_suspend_state suspend_idle s)
  | rejected ↦ request_suspend (set_suspend_state suspend_idle s)
  | suspend_failed ↦ request_suspend (set_suspend_state suspend_idle s)
  | suspended ↦ request_suspend (set_suspend_state suspend_idle s)
]

-- `vchiq_check_resume`, with the write lock held
unfoldable pub check_resume : ArmState → Bool × ArmState
check_resume s =
    if need_resume s then (true, poll_slots (set_resume_state resume_requested s)) else (false, s)

-- What a function does between taking and giving back the write lock.
abbrev pub with_lock : {A : Type 0} → (ArmState → A × ArmState) → Task ArmState A
with_lock f =
    write_lock_bh lock_cell >> lift (λ s. let (a, t) = f s in (a, write_unlock_bh lock_cell t))

-- `vchiq_check_suspend`
unfoldable pub check_suspend : ArmState → ArmState
check_suspend s =
    if not (suspend_rank s.vc_suspend_state == suspend_rank suspended)
      && s.first_connect
      && not (videocore_wanted s)
    then vcsuspend s
    else s

abbrev pub vchiq_check_suspend : Task ArmState (Unit {0})
vchiq_check_suspend = with_lock (λ s. (tt, check_suspend s))

-- `vchiq_platform_check_suspend`; the platform's own suspend does nothing.
unfoldable pub start_suspend : ArmState → Bool × ArmState
start_suspend s =
    if suspend_rank s.vc_suspend_state == suspend_rank suspend_requested
      && resume_rank s.vc_resume_state == resume_rank resumed
    then (true, set_suspend_state suspend_in_progress s)
    else (false, s)

abbrev pub vchiq_platform_check_suspend : Task ArmState Bool
vchiq_platform_check_suspend = with_lock start_suspend
