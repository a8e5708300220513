-- ===== src/Critical/Nesting.antt =====
-- Nested critical sections.
use ampi.Base.{ℕ, suc, ◌+◌, ◌≡◌, ◌<◌, refl, ap, sym, subst, ◌∙◌, false, arith}
use Prim.Native.Nat.{max}
use ampi.Base.Words.{word}
use ampi.Critical.{Core, enter_critical, leave_critical, spin_lock, spin_unlock}

-- A program that enters and leaves sections, each leave after its enter.
pub data Program : Type 0 where
  done : Program
  section : Program → Program → Program

-- `section p q`: lock, run `p`, unlock, run `q`.
unfoldable pub run : Program → Core → Core
run done s = s
run (section p q) s = run q (spin_unlock (run p (spin_lock s)))

-- How deep the sections nest.
abbrev pub depth : Program → ℕ
depth done = 0
depth (section p q) = max (suc (depth p)) (depth q)

lock-level : (s : Core) → suc s.level < word → (spin_lock s).level ≡ suc s.level
unfolding spin_lock enter_critical
lock-level s h = omega arith

-- Within a section, interrupts are disabled.
pub record Inside (s : Core) : Type 0 where
  pub positive : 0 < s.level
  pub small : s.level < word
  pub disabled : s.interrupts ≡ false

lock-Inside : (s : Core) → suc s.level < word → Inside (spin_lock s)
unfolding spin_lock enter_critical
lock-Inside s h = ground arith

-- An unlock undoes its lock: within another section altogether, and outside up to the flag that
-- says whether interrupts were enabled.
unlock-lock-Inside : (s : Core) → Inside s → suc s.level < word → spin_unlock (spin_lock s) ≡ s
unfolding spin_lock spin_unlock enter_critical leave_critical
unlock-lock-Inside s h k = ground arith

unlock-lock_outside :
    (s : Core) → s.level ≡ 0 → spin_unlock (spin_lock s) ≡ record s { were_enabled = s.interrupts }
unfolding spin_lock spin_unlock enter_critical leave_critical
unlock-lock_outside s h = ground arith

-- Sections within a section leave everything as it was, and interrupts disabled.
run-Inside : (p : Program) (s : Core) → Inside s → depth p + s.level < word → run p s ≡ s
unfolding run
run-Inside done s h k = refl
run-Inside (section p q) s h k =
    ap (λ t. run q (spin_unlock t))
      (run-Inside p (spin_lock s) (lock-Inside s (omega arith))
        (omega (arith, lock-level s (omega arith))))
    ∙ ap (run q) (unlock-lock-Inside s h (omega arith))
    ∙ run-Inside q s h (omega arith)

-- Outside all sections, a program of locks and unlocks, each with its partner and nested less than
-- 2^32 deep, ends outside all sections and leaves interrupts enabled exactly if they were.
run-outside :
    (p : Program) (s : Core)
    → s.level ≡ 0
    → depth p < word
    → ((run p s).level ≡ 0) × ((run p s).interrupts ≡ s.interrupts)
unfolding run
run-outside done s h k = (h, refl)
run-outside (section p q) s h k =
    let t = spin_lock s in
    let same : run p t ≡ t =
      run-Inside p t (lock-Inside s (omega arith)) (omega (arith, lock-level s (omega arith))) in
    let back : spin_unlock (run p t) ≡ record s { were_enabled = s.interrupts } =
      ap spin_unlock same ∙ unlock-lock_outside s h in
    rw (back, run) (run-outside q (record s { were_enabled = s.interrupts }) h (omega arith))

-- Between a lock and its unlock interrupts are disabled, whatever sections are in between.
section-Inside :
    (p : Program) (s : Core) → s.level + suc (depth p) < word → Inside (run p (spin_lock s))
section-Inside p s k =
    let i = lock-Inside s (omega arith) in
    subst Inside (sym (run-Inside p (spin_lock s) i (omega (arith, lock-level s (omega arith))))) i
