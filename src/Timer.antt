-- ===== src/Timer.antt =====
-- ampi/linux/timer.c and ampi/linux/timer.h: kernel timers on the clock `jiffies`.
pub mod Order
pub mod Firing
mod Tests
use ampi.Base.{
  ℕ, zero, suc, ◌+◌, ◌*◌, ◌/◌, ◌%◌, ◌^◌, Bool, true, false, ◌==◌, leb, ◌||◌, if◌then◌else◌, Option,
  none, some, List, [], ◌∷◌,
}
use mathlib.Core.Option
use ampi.Base.Words.{word, add32, sub32}

-- `struct timer_list`. The address of the structure is `address`; the list entry in it is the
-- place of the timer in the list of pending timers.
pub record Timer : Type 0 where
  pub address : ℕ
  pub expires : ℕ
  pub function : ℕ
  -- the field `data`
  pub argument : ℕ

-- The variables `jiffies` and `timer_list`, with the rest of the system in `world`. `unsigned long`
-- has 32 bits.
pub record Timers (W : Type 0) : Type 0 where
  pub jiffies : ℕ
  pub pending : List Timer
  pub world : W

-- `msecs_to_jiffies` at 100 ticks a second; the product is an `unsigned`.
unfoldable pub msecs_to_jiffies : ℕ → ℕ
msecs_to_jiffies msecs = msecs * 100 % word / 1000

-- `init_timer`
unfoldable pub init_timer : Timer → Timer
init_timer t = record t { expires = 0; function = 0; argument = 0 }

-- `(long) (a - b) < 0`
abbrev pub is_before : ℕ → ℕ → Bool
is_before a b = leb (2 ^ 31) (sub32 a b)

-- `(long) (a - b) <= 0`
abbrev pub is_due : ℕ → ℕ → Bool
is_due a b = sub32 a b == 0 || is_before a b

-- The loop of `add_timer` with its break, and the `list_add` behind the timer at which it breaks;
-- `none` says that it does not break.
unfoldable pub insert_behind : Timer → List Timer → Option (List Timer)
insert_behind timer [] = none
insert_behind timer (t ∷ ts) =
    let rest = insert_behind timer ts in
    if is_before t.expires timer.expires
    then some (t ∷ timer ∷ ts)
    else Option.map (λ l. t ∷ l) rest

-- The list after `add_timer`: without a break, `pos` is the head of the list.
unfoldable pub insert : Timer → List Timer → List Timer
insert timer ts = elim (insert_behind timer ts) [ none ↦ timer ∷ ts | some l ↦ l ]

-- `add_timer`, of a timer that is not pending
unfoldable pub add_timer : {W : Type 0} → Timer → Timers W → Timers W
add_timer timer s = record s { pending = insert timer s.pending }

-- The entry of a timer points to itself exactly when the timer is not pending.
unfoldable pub is_pending : ℕ → List Timer → Bool
is_pending address [] = false
is_pending address (t ∷ ts) = t.address == address || is_pending address ts

unfoldable pub remove : ℕ → List Timer → List Timer
remove address [] = []
remove address (t ∷ ts) =
    let rest = remove address ts in if t.address == address then ts else t ∷ rest

-- `del_timer`
unfoldable pub del_timer : {W : Type 0} → ℕ → Timers W → ℕ × Timers W
del_timer address s =
    if is_pending address s.pending
    then (1, record s { pending = remove address s.pending })
    else (0, s)

-- What the function of a timer does with its data, the list of timers included.
module _ {W : Type 0} (call : ℕ → ℕ → Timers W → Timers W) where
  -- The loop of `periodic_handler`. A function may add a timer that is due, so the loop need not
  -- end; `none` says that the fuel is spent.
  unfoldable pub fire : ℕ → ℕ → Timers W → Option (Timers W)
  fire zero now s = none
  fire (suc fuel) now s = elim s.pending [
    | [] ↦ some s
    | t ∷ ts ↦
        let rest = fire fuel now (call t.function t.argument (record s { pending = ts })) in
        if is_due t.expires now then rest else some s
  ]

  -- `periodic_handler`
  unfoldable pub periodic_handler : ℕ → Timers W → Option (Timers W)
  periodic_handler fuel s =
      let now = add32 s.jiffies 1 in fire fuel now (record s { jiffies = now })
