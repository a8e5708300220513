-- ===== src/Instance/Tests.antt =====
-- Blocking bulk transfers of an instance, and the theorem at an input that meets its hypotheses.
use ampi.Base.{ℕ, ◌-◌, ◌≡◌, ◌⊎◌, refl, arith, true, false, some, [], ◌∷◌}
use ampi.Slots.Send.{Status, retry}
use ampi.Instance.{
  Waiter, Pending, Instance, take_waiter, obtain, cancel_signal, keep_waiter, after_transfer,
  blocking_bulk_transfer,
}
use ampi.Instance.Waiters.{IsValid, Shares, blocking_bulk_transfer-IsValid}

abbrev under_way : Pending
under_way = record { bulk = 70; data_address = 4096; size = 16 }

-- The threads 5 and 9 have a transfer under way.
abbrev state : Instance ℕ
state = record {
  connected = true;
  waiters =
      record { pid = 5; pending = some under_way }
      ∷ record { pid = 9; pending = some under_way }
      ∷ [];
  live = 3;
  cancelled = [];
  client = 0;
}

-- Another thread's transfer ends during this one, and its waiter is freed.
abbrev interrupted : Waiter → Instance ℕ → Status × Waiter × Instance ℕ
interrupted w i = (retry, record w { pending = some under_way }, record i { live = i.live - 1 })

state-IsValid : IsValid 1 state
state-IsValid = record { unique = (((λ e. omega (arith, e)), tt), (tt, tt)); counted = refl }

-- The thread 9 tries another transfer: the signal of the old one is cancelled, and its waiter is kept.
other_transfer : blocking_bulk_transfer true true false interrupted 9 8192 16 state ≡ (
  retry,
  record state {
    waiters =
        record { pid = 9; pending = some under_way }
        ∷ record { pid = 5; pending = some under_way }
        ∷ [];
    live = 2;
    cancelled = 70 ∷ [];
  },
)
unfolding blocking_bulk_transfer take_waiter obtain cancel_signal after_transfer keep_waiter
other_transfer = refl

interrupted-Shares : Shares 9 1 0 interrupted
interrupted-Shares w j h = record {
  absent = h.absent;
  unique = h.unique;
  counted = omega (arith, h.counted);
}

blocking_bulk_transfer-IsValid_example :
    let r = (blocking_bulk_transfer true true false interrupted 9 8192 16 state).1 in
    IsValid 1 r ⊎ IsValid 0 r
blocking_bulk_transfer-IsValid_example =
    blocking_bulk_transfer-IsValid true true false interrupted 9 8192 16 1 0 state state-IsValid
      interrupted-Shares
