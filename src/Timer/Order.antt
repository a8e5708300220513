-- ===== src/Timer/Order.antt =====
-- `add_timer` and `del_timer` of ampi/linux/timer.c, and the order of the pending timers.
use ampi.Base.{
  ℕ, ◌+◌, ◌^◌, ◌≤◌, ◌<◌, ◌≡◌, ◌≢◌, ◌⊎◌, inl, inr, refl, ap, ◌∙◌, true, false, if◌then◌else◌, Option,
  none, some, List, [], ◌∷◌, ◌++◌, All, arith, Bool-cases,
}
use mathlib.Core.Option
use ampi.Base.Words.{add32}
use ampi.Timer.{
  Timer, Timers, is_before, is_due, insert_behind, insert, add_timer, is_pending, remove, del_timer,
  periodic_handler,
}
use ampi.Timer.Firing.{outside, periodic_handler_lem, front_due, behind_due, run_all}

abbrev pub NotBefore : Timer → Timer → Type 0
NotBefore timer t = is_before t.expires timer.expires ≡ false

-- The new list is the old one with the timer directly behind the first `t` that expires before it.
pub record Behind (timer : Timer) (old new : List Timer) : Type 0 where
  pub xs : List Timer
  pub t : Timer
  pub ys : List Timer
  pub split : old ≡ xs ++ t ∷ ys
  pub first : All (NotBefore timer) xs
  pub before : is_before t.expires timer.expires ≡ true
  pub placed : new ≡ xs ++ t ∷ timer ∷ ys

abbrev Outcome : Timer → List Timer → Option (List Timer) → Type 0
Outcome timer old none = All (NotBefore timer) old
Outcome timer old (some new) = Behind timer old new

Outcome-cons :
    (timer t : Timer) (ts : List Timer) (o : Option (List Timer))
    → NotBefore timer t
    → Outcome timer ts o
    → Outcome timer (t ∷ ts) (Option.map (λ l. t ∷ l) o)
Outcome-cons timer t ts none n h = (n, h)
Outcome-cons timer t ts (some new) n h = record {
  xs = t ∷ h.xs;
  t = h.t;
  ys = h.ys;
  split = ap (λ l. t ∷ l) h.split;
  first = (n, h.first);
  before = h.before;
  placed = ap (λ l. t ∷ l) h.placed;
}

insert_behind-Outcome :
    (timer : Timer) (ts : List Timer) → Outcome timer ts (insert_behind timer ts)
unfolding insert_behind
insert_behind-Outcome timer [] = tt
insert_behind-Outcome timer (t ∷ ts) = elim (Bool-cases (is_before t.expires timer.expires)) [
  | inl y ↦
      rw y record { xs = []; t = t; ys = ts; split = refl; first = tt; before = y; placed = refl }
  | inr n ↦ rw n (Outcome-cons timer t ts _ n (insert_behind-Outcome timer ts))
]

-- Where `add_timer` puts a timer.
abbrev pub Placed : Timer → List Timer → List Timer → Type 0
Placed timer old new = Behind timer old new ⊎ (All (NotBefore timer) old × (new ≡ timer ∷ old))

Outcome-Placed :
    (timer : Timer) (ts : List Timer) (o : Option (List Timer))
    → Outcome timer ts o
    → Placed timer ts (elim o [ none ↦ timer ∷ ts | some l ↦ l ])
Outcome-Placed timer ts none h = inr (h, refl)
Outcome-Placed timer ts (some l) h = inl h

-- `add_timer` puts the new timer directly behind the first pending timer that expires before it,
-- or to the front if there is none; the others keep their order.
add_timer_lem :
    {W : Type 0} (timer : Timer) (s : Timers W) → Placed timer s.pending (add_timer timer s).pending
unfolding add_timer insert
add_timer_lem timer s = Outcome-Placed timer s.pending _ (insert_behind-Outcome timer s.pending)

-- Below half of the range of the words, the signed difference compares as the numbers do.
before-lt : (a b : ℕ) → a < b → b < 2 ^ 31 → is_before a b ≡ true
before-lt a b h k = ground arith

due-le : (a b : ℕ) → a ≤ b → b < 2 ^ 31 → is_due a b ≡ true
due-le a b h k = ground arith

not_due-lt : (a b : ℕ) → b < a → a < 2 ^ 31 → is_due a b ≡ false
not_due-lt a b h k = ground arith

insert_only : (timer : Timer) → insert timer [] ≡ timer ∷ []
unfolding insert insert_behind
insert_only timer = refl

insert_first :
    (timer t : Timer) (ts : List Timer)
    → is_before t.expires timer.expires ≡ true
    → insert timer (t ∷ ts) ≡ t ∷ timer ∷ ts
unfolding insert insert_behind
insert_first timer t ts h = rw (insert, insert_behind, h) refl

-- Three timers that are added in the order in which they expire end up in another order: the third
-- one stands before the second one. At a tick when the second one is due and the third one is not,
-- the second one is not called, but stays on the list. (The functions leave the timers alone, and
-- the clock and the times are below `2^31`.)
pub second_timer_late :
    {W : Type 0} (effect : ℕ → ℕ → W → W) (a b c : Timer) (s : Timers W)
    → s.pending ≡ []
    → (a.expires < b.expires) × (b.expires < c.expires) × (c.expires < 2 ^ 31)
    → (b.expires ≤ s.jiffies + 1) × (s.jiffies + 1 < c.expires)
    → let s' = add_timer c (add_timer b (add_timer a s)) in
      (s'.pending ≡ a ∷ c ∷ b ∷ [])
      × (periodic_handler (outside effect) 4 s'
          ≡ some (record {
            jiffies = s.jiffies + 1;
            pending = c ∷ b ∷ [];
            world = effect a.function a.argument s.world;
          }))
unfolding add_timer front_due behind_due run_all
second_timer_late {W = W} effect a b c s e h k =
    let ab : is_before a.expires b.expires ≡ true =
      before-lt a.expires b.expires (omega arith) (omega arith) in
    let ac : is_before a.expires c.expires ≡ true =
      before-lt a.expires c.expires (omega arith) (omega arith) in
    let da : is_due a.expires (s.jiffies + 1) ≡ true =
      due-le a.expires (s.jiffies + 1) (omega arith) (omega arith) in
    let dc : is_due c.expires (s.jiffies + 1) ≡ false =
      not_due-lt c.expires (s.jiffies + 1) (omega arith) (omega arith) in
    let now : add32 s.jiffies 1 ≡ s.jiffies + 1 = omega arith in
    let order : insert c (insert b (insert a s.pending)) ≡ a ∷ c ∷ b ∷ [] =
      rw (e, insert_only a, insert_first b a [] ab, insert_first c a (b ∷ []) ac) refl in
    let due : Timers W = record s { pending = a ∷ c ∷ b ∷ [] } in
    (order, rw order (periodic_handler_lem effect 4 due (omega arith) ∙ rw (now, da, dc) refl))

-- No two pending timers have one address.
unfoldable pub Distinct : List Timer → Type 0
Distinct [] = Unit {0}
Distinct (t ∷ ts) = (is_pending t.address ts ≡ false) × Distinct ts

remove-pending :
    (address : ℕ) (ts : List Timer) → Distinct ts → is_pending address (remove address ts) ≡ false
unfolding is_pending remove Distinct
remove-pending address [] h = refl
remove-pending address (t ∷ ts) h = ground (arith, remove-pending address ts h.1)

remove-other :
    (address other : ℕ) (ts : List Timer)
    → other ≢ address
    → is_pending other (remove address ts) ≡ is_pending other ts
unfolding is_pending remove
remove-other address other [] h = refl
remove-other address other (t ∷ ts) h = ground (arith, remove-other address other ts h)

-- `del_timer` takes a timer off the list if it is on it, and says whether it was: afterwards it is
-- not pending, and any other timer is pending exactly if it was before.
del_timer_lem :
    {W : Type 0} (address : ℕ) (s : Timers W)
    → Distinct s.pending
    → let (r, s') = del_timer address s in
      (r ≡ (if is_pending address s.pending then 1 else 0))
      × (is_pending address s'.pending ≡ false)
      × ((other : ℕ) → other ≢ address → is_pending other s'.pending ≡ is_pending other s.pending)
unfolding del_timer
del_timer_lem address s h = elim (Bool-cases (is_pending address s.pending)) [
  | inl y ↦ rw y (
    refl,
    remove-pending address s.pending h,
    λ other ne. remove-other address other s.pending ne,
  )
  | inr n ↦ rw n (refl, n, λ other ne. refl)
]
