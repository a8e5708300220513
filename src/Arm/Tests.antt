-- ===== src/Arm/Tests.antt =====
-- Runs of the uses of VideoCore, and the theorems at inputs that meet their hypotheses.
use ampi.Base.{
  ℕ, ◌+◌, ◌≡◌, ◌≢◌, ◌<◌, ◌⊎◌, refl, ap, true, false, ◌==◌, if◌then◌else◌, some, [], arith,
}
use ampi.Slots.Send.{Status, success, error}
use ampi.Arm.{ArmState, suspend_idle, resumed, use_service}
use ampi.Arm.Use.{service, use_entity, entity_uc, use_internal, release}
use ampi.Arm.Uses.{IsAwake, release_lem}
use ampi.Arm.Balance.{number, IsBalanced, total, use_internal-sum}

-- One use of the service at port 1
abbrev state : ArmState
state = record {
  ka_evt = 0;
  ka_use_count = 0;
  ka_use_ack_count = 0;
  ka_release_count = 0;
  vc_suspend_complete = 0;
  vc_resume_complete = 2147483647;
  susp_res_lock = 0;
  vc_suspend_state = suspend_idle;
  vc_resume_state = resumed;
  suspend_timer_pending = false;
  suspend_timer_running = false;
  videocore_use_count = 1;
  peer_use_count = 0;
  service_use_count = λ i. if i == 1 then 1 else 0;
  resume_blocker = 2147483647;
  resume_blocked = false;
  blocked_blocker = 2147483647;
  blocked_count = 0;
  first_connect = true;
  warnings = 0;
  poll = record { poll_flags = 0; poll_services = 0; poll_needed = false; triggers = 0 };
}

abbrev no_send : ArmState → Status × ArmState
no_send s = (success, s)

state-IsAwake : IsAwake state
state-IsAwake = record {
  free = refl;
  unlocked = refl;
  awake = λ z. omega (arith, z);
  no_acks = refl;
}

state-IsBalanced : IsBalanced 4 state
unfolding total
state-IsBalanced = record { sum = refl; small = omega arith }

release_lem_example :
    (state.videocore_use_count ≢ 0
      → entity_uc (service 2) state ≢ 0
      → release (service 2) state ≡ (success, state))
    × ((state.videocore_use_count ≡ 0) ⊎ (entity_uc (service 2) state ≡ 0)
        → (w : ℕ) × (0 < w)
          × (release (service 2) state ≡ (error, record state { warnings = state.warnings + w })))
release_lem_example = release_lem (service 2) state

use_internal-sum_example :
    (t : ArmState) × (use_internal no_send 1 use_service (some 2) state [] ≡ some (success, t, []))
    × (t.videocore_use_count ≡ 2)
    × (t.videocore_use_count ≡ t.peer_use_count + total t.service_use_count 4)
unfolding use_entity
use_internal-sum_example =
    use_internal-sum no_send 0 use_service (some 2) 4 (service 2) state [] state-IsAwake
      state-IsBalanced refl (λ port e. omega (arith, ap number e))
