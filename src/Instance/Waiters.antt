-- ===== src/Instance/Waiters.antt =====
-- The waiters of an instance in ampi/vc4/vchiq/vchiq_kern_lib.c: one for each thread, and none is lost.
use ampi.Base.{
  ℕ, suc, ◌+◌, ◌-◌, ◌≡◌, ◌≢◌, ◌⊎◌, ◌∙◌, refl, ap, subst, Bool, true, false, ◌==◌, if◌then◌else◌,
  Option, none, some, List, [], ◌∷◌, length, arith, Bool-cases, inl, inr, ==-eq-false, ==-refl,
  Option-cases, ℕ_discrete,
}
use ampi.Slots.Send.{Status, success, error, retry}
use ampi.Instance.{
  Waiter, Pending, Instance, take_waiter, differs, cancel_signal, obtain, keep_waiter, drop_waiter,
  after_transfer, blocking_bulk_transfer, free_waiters,
}

-- No waiter is that of the thread.
abbrev pub Absent : ℕ → List Waiter → Type 0
Absent pid [] = Unit {0}
Absent pid (w ∷ waiters) = (w.pid ≢ pid) × Absent pid waiters

abbrev pub Unique : List Waiter → Type 0
Unique [] = Unit {0}
Unique (w ∷ waiters) = Absent w.pid waiters × Unique waiters

-- Each thread has one waiter at most in the list, and as many are allocated as are in the list and in the
-- hands of the `n` threads whose transfer is going on.
pub record IsValid {C : Type 0} (n : ℕ) (i : Instance C) : Type 0 where
  pub unique : Unique i.waiters
  pub counted : i.live ≡ length i.waiters + n

take-other :
    (pid other : ℕ) (waiters : List Waiter)
    → Absent other waiters
    → Absent other (take_waiter pid waiters).1
unfolding take_waiter
take-other pid other [] h = tt
take-other pid other (w ∷ waiters) (ne, h) = elim (Bool-cases (w.pid == pid)) [
  | inl y ↦ rw (y) h
  | inr n ↦ rw (n) (ne, take-other pid other waiters h)
]

take-Absent :
    (pid : ℕ) (waiters : List Waiter)
    → Unique waiters
    → let others = (take_waiter pid waiters).1 in Absent pid others × Unique others
unfolding take_waiter
take-Absent pid [] h = (tt, tt)
take-Absent pid (w ∷ waiters) (new, h) = elim (ℕ_discrete w.pid pid) [
  | yes e ↦
      let same : (w.pid == pid) ≡ true = ap (λ x. x == pid) e ∙ ==-refl pid in
      rw same (subst (λ x. Absent x waiters) e new, h)
  | no ne ↦
      let rest = take-Absent pid waiters h in
      rw (==-eq-false w.pid pid ne) ((ne, rest.0), (take-other pid w.pid waiters new, rest.1))
]

abbrev found_length : Option Waiter → ℕ
found_length none = 0
found_length (some w) = 1

take-length :
    (pid : ℕ) (waiters : List Waiter)
    → let (found, others) = take_waiter pid waiters in
      length waiters ≡ found_length found + length others
unfolding take_waiter
take-length pid [] = omega arith
take-length pid (w ∷ waiters) = elim (Bool-cases (w.pid == pid)) [
  | inl y ↦ rw (y) (omega arith)
  | inr n ↦ rw (n) (omega (arith, take-length pid waiters))
]

module _ {C : Type 0} where
  -- What holds of an instance while a thread has its waiter in hand, and `n` other threads have theirs.
  pub record InHand (pid n : ℕ) (i : Instance C) : Type 0 where
    pub absent : Absent pid i.waiters
    pub unique : Unique i.waiters
    pub counted : i.live ≡ suc (length i.waiters + n)

  -- While the transfer of a thread waits, other threads put their waiters into the list and take them out,
  -- so that `m` of them have theirs in hand at the end. None touches the waiter of this thread.
  abbrev pub Shares : ℕ → ℕ → ℕ → (Waiter → Instance C → Status × Waiter × Instance C) → Type 0
  Shares pid n m transfer =
      (w : Waiter) (j : Instance C) → InHand pid n j → InHand pid m (transfer w j).2

  cancel_signal-InHand :
      (o : Option Pending) (pid n : ℕ) (i : Instance C)
      → InHand pid n i
      → InHand pid n (cancel_signal o i)
  unfolding cancel_signal
  cancel_signal-InHand none pid n i h = h
  cancel_signal-InHand (some p) pid n i h = record {
    absent = h.absent;
    unique = h.unique;
    counted = h.counted;
  }

  cancel_signal-same :
      (o : Option Pending) (i : Instance C)
      → ((cancel_signal o i).waiters ≡ i.waiters) × ((cancel_signal o i).live ≡ i.live)
  unfolding cancel_signal
  cancel_signal-same none i = (refl, refl)
  cancel_signal-same (some p) i = (refl, refl)

  drop-IsValid :
      (pid n : ℕ) (w : Waiter) (i : Instance C) → InHand pid n i → IsValid n (drop_waiter w i)
  unfolding drop_waiter
  drop-IsValid pid n w i h =
      let k = cancel_signal-InHand w.pending pid n i h in
      record { unique = k.unique; counted = omega (arith, k.counted) }

  keep-IsValid :
      (pid n : ℕ) (w : Waiter) (i : Instance C) → InHand pid n i → IsValid n (keep_waiter pid w i)
  unfolding keep_waiter
  keep-IsValid pid n w i h = record {
    unique = (h.absent, h.unique);
    counted = omega (arith, h.counted);
  }

  after_transfer-IsValid :
      (status : Status) (fatal : Bool) (pid n : ℕ) (w : Waiter) (i : Instance C)
      → InHand pid n i
      → IsValid n (after_transfer status fatal pid w i)
  unfolding after_transfer
  after_transfer-IsValid success fatal pid n w i h = drop-IsValid pid n w i h
  after_transfer-IsValid error fatal pid n w i h = drop-IsValid pid n w i h
  after_transfer-IsValid retry true pid n w i h = drop-IsValid pid n w i h
  after_transfer-IsValid retry false pid n w i h = elim (Option-cases w.pending) [
    | inl e ↦ rw e (drop-IsValid pid n _ i h)
    | inr (p, e) ↦ rw e (keep-IsValid pid n _ i h)
  ]

  -- The waiter that is obtained is the one more.
  abbrev Obtained : ℕ → ℕ → Instance C → Option (Waiter × Instance C) → Type 0
  Obtained pid n i none = IsValid n i
  Obtained pid n i (some (w, j)) = InHand pid n j

  cancel_if-InHand :
      (b : Bool) (p : Pending) (pid n : ℕ) (i : Instance C)
      → InHand pid n i
      → InHand pid n (if b then cancel_signal (some p) i else i)
  cancel_if-InHand true p pid n i h = cancel_signal-InHand (some p) pid n i h
  cancel_if-InHand false p pid n i h = h

  obtain-Obtained :
      (allocated : Bool) (pid n address size : ℕ) (old : Option Waiter) (i : Instance C)
      → Absent pid i.waiters
      → Unique i.waiters
      → i.live ≡ found_length old + (length i.waiters + n)
      → Obtained pid n i (obtain allocated address size old i)
  unfolding obtain
  obtain-Obtained true pid n address size none i a u c = record {
    absent = a;
    unique = u;
    counted = omega (arith, c);
  }
  obtain-Obtained false pid n address size none i a u c = record {
    unique = u;
    counted = omega (arith, c);
  }
  obtain-Obtained allocated pid n address size (some w) i a u c =
      let held : InHand pid n i = record { absent = a; unique = u; counted = omega (arith, c) } in
      elim (Option-cases w.pending) [
        | inl e ↦ rw e held
        | inr (p, e) ↦ rw e (cancel_if-InHand (differs address size p) p pid n i held)
      ]

  run-IsValid :
      (fatal : Bool) (transfer : Waiter → Instance C → Status × Waiter × Instance C) (pid n m : ℕ)
      (i : Instance C) (o : Option (Waiter × Instance C))
      → Shares pid n m transfer
      → Obtained pid n i o
      → let run : Status × Instance C = elim o [
        | none ↦ (error, i)
        | some (w, j) ↦
            let (status, w', k) = transfer w j in (status, after_transfer status fatal pid w' k)
      ] in
        IsValid n run.1 ⊎ IsValid m run.1
  run-IsValid fatal transfer pid n m i none shares h = inl h
  run-IsValid fatal transfer pid n m i (some (w, j)) shares h =
      let sent = transfer w j in
      inr (after_transfer-IsValid sent.0 fatal pid m sent.1 sent.2 (shares w j h))

  -- `vchiq_blocking_bulk_transfer` keeps the list of waiters valid, whether there is memory or not: each
  -- thread has one waiter at most in it, and each waiter that is allocated is in the list or in the
  -- hands of one of the `n` other threads whose transfer is going on, so none is lost or freed twice.
  -- While its own transfer waits, other threads may put waiters into the list and take them out, if
  -- they leave this thread's alone and account for theirs; there are `m` of them with a transfer
  -- going on afterwards, or still `n` if this transfer is not tried.
  pub blocking_bulk_transfer-IsValid :
      (found allocated fatal : Bool) (transfer : Waiter → Instance C → Status × Waiter × Instance C)
      (pid address size n m : ℕ) (i : Instance C)
      → IsValid n i
      → Shares pid n m transfer
      → let r = (blocking_bulk_transfer found allocated fatal transfer pid address size i).1 in
        IsValid n r ⊎ IsValid m r
  unfolding blocking_bulk_transfer
  blocking_bulk_transfer-IsValid false allocated fatal transfer pid address size n m i v shares =
      inl v
  blocking_bulk_transfer-IsValid true allocated fatal transfer pid address size n m i v shares =
      let (old, others) = take_waiter pid i.waiters in
      let (absent, unique) = take-Absent pid i.waiters v.unique in
      let taken : Instance C = record i { waiters = others } in
      run-IsValid fatal transfer pid n m taken (obtain allocated address size old taken) shares (
        obtain-Obtained allocated pid n address size old taken absent unique
          (omega (arith, v.counted, take-length pid i.waiters)))

  free_waiters-live :
      (waiters : List Waiter) (i : Instance C)
      → ((free_waiters waiters i).live ≡ i.live - length waiters)
        × ((free_waiters waiters i).waiters ≡ [])
  unfolding free_waiters
  free_waiters-live [] i = (omega arith, refl)
  free_waiters-live (w ∷ waiters) i =
      let rest = free_waiters-live waiters (record i { live = i.live - 1 }) in
      (omega (arith, rest.0), rest.1)
