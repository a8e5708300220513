-- ===== src/Event.antt =====
-- The remote events of ampi/vc4/vchiq/vchiq_core.c and vchiq_2835_arm.c, by which the two processors wake
-- each other.
pub mod Wake
mod Tests
use ampi.Base.{ℕ, suc, ◌+◌, Bool, true, false, not, ◌&&◌, if◌then◌else◌, Option, none, some, List}
use ampi.Wait.{Task, pure, modify, ◌>>=◌, ◌>>◌}
use ampi.Sync.{Cell}
use ampi.Sync.Semaphore.{sema_init, down, up}

-- `REMOTE_EVENT_T` with the semaphore that it points to. `doorbells` counts the interrupts that the
-- other processor has been sent.
pub record Event : Type 0 where
  pub armed : Bool
  pub fired : Bool
  pub event : ℕ
  pub doorbells : ℕ

abbrev pub event_cell : Cell Event
event_cell = record { get = λ s. s.event; put = λ n s. record s { event = n } }

-- `remote_event_create`
unfoldable pub remote_event_create : Event → Event
remote_event_create s = sema_init event_cell 0 (record s { armed = false })

abbrev pub disarm : Event → Event
disarm s = record s { armed = false }

abbrev pub take_fired : Event → Event
take_fired s = record s { fired = false }

abbrev pub arm : Event → Event
arm s = record s { armed = true }

-- `remote_event_wait` behind the first test of `fired`, which found it unset, when `armed` is set: the
-- second test sees a signal that came between.
unfoldable pub await_armed : Task Event (Unit {0})
await_armed s env =
    let waited = down event_cell s env in if s.fired then some (tt, s, env) else waited

-- `remote_event_wait`. The other processor runs at the same time: `between` is what it does between the
-- first test and the second one.
unfoldable pub remote_event_wait : (Event → Event) → Task Event (Unit {0})
remote_event_wait between s env =
    let waited =
      (modify (λ t. between (arm t)) >> await_armed >> modify disarm >> modify take_fired) s env in
    if s.fired then some (tt, take_fired s, env) else waited

-- `remote_event_signal_local`
unfoldable pub remote_event_signal_local : Event → Event
remote_event_signal_local s = up event_cell (record s { armed = false })

-- `remote_event_poll`
unfoldable pub remote_event_poll : Event → Event
remote_event_poll s = if s.fired && s.armed then remote_event_signal_local s else s

-- `remote_event_signal`
unfoldable pub remote_event_signal : Event → Event
remote_event_signal s =
    let t = record s { fired = true } in
    if t.armed then record t { doorbells = suc t.doorbells } else t
