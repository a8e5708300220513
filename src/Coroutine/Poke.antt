-- ===== src/Coroutine/Poke.antt =====
-- The round of `AMPiPoke` and of `ampi_co_yield` on the main thread.
use ampi.Base.{
  ℕ, zero, suc, ◌+◌, ◌-◌, ◌≡◌, ◌≢◌, ◌∙◌, sym, set, refl, Bool, true, false, ◌==◌, if◌then◌else◌,
  arith, List, [], ◌∷◌, get_or,
}
use ampi.Coroutine.{
  Scheduler, Slices, max_co, slice, switch_to, yield_thread, next, next_from, poke,
}

-- Threads that create no threads and leave the callback alone.
pub record Calm {W : Type 0} (run : Slices W) : Type 0 where
  pub begin_used : (fn arg id : ℕ) (s : Scheduler W) → (run.begin fn arg id s).used ≡ s.used
  pub begin_handler :
      (fn arg id : ℕ) (s : Scheduler W) → (run.begin fn arg id s).handler ≡ s.handler
  pub begin_switches :
      (fn arg id : ℕ) (s : Scheduler W) → (run.begin fn arg id s).switches ≡ s.switches
  pub resume_used : (id : ℕ) (s : Scheduler W) → (run.resume id s).used ≡ s.used
  pub resume_handler : (id : ℕ) (s : Scheduler W) → (run.resume id s).handler ≡ s.handler
  pub resume_switches : (id : ℕ) (s : Scheduler W) → (run.resume id s).switches ≡ s.switches

-- The numbers of the threads that exist, of `n` numbers from `id` on.
unfoldable pub active : ℕ → ℕ → List Bool → List ℕ
active zero id used = []
active (suc n) id used =
    let rest = active n (id + 1) used in if get_or used (id - 1) false then id ∷ rest else rest

-- The calls of the callback for those threads: each number, then 0. The latest comes first.
abbrev pub calls : List ℕ → List ℕ → List ℕ
calls [] before = before
calls (id ∷ ids) before = calls ids (0 ∷ id ∷ before)

module _ {W : Type 0} (run : Slices W) where
  -- Between two threads, and after the round, the main thread is the current one.
  next-current : (id : ℕ) (s : Scheduler W) → s.current ≡ 0 → (next run id s).current ≡ 0
  unfolding next yield_thread switch_to
  next-current id s h = ground arith

  next_from-current :
      (n id : ℕ) (s : Scheduler W) → s.current ≡ 0 → (next_from run n id s).current ≡ 0
  unfolding next_from
  next_from-current zero id s h = h
  next_from-current (suc n) id s h =
      next_from-current n (id + 1) (next run id s) (next-current id s h)

  module _ (calm : Calm run) where
    slice-fields :
        (i : ℕ) (s : Scheduler W)
        → ((slice run i s).used ≡ s.used)
          × ((slice run i s).handler ≡ s.handler)
          × ((slice run i s).switches ≡ s.switches)
    slice-fields i s =
        let t = record s { started = set s.started i true } in
        let fn = get_or s.fn_ptr i 0 in
        let arg = get_or s.args i 0 in
        ground (
          arith,
          calm.begin_used fn arg (i + 1) t,
          calm.begin_handler fn arg (i + 1) t,
          calm.begin_switches fn arg (i + 1) t,
          calm.resume_used (i + 1) s,
          calm.resume_handler (i + 1) s,
          calm.resume_switches (i + 1) s,
        )

    next-fields :
        (id : ℕ) (s : Scheduler W)
        → s.handler ≢ 0
        → ((next run id s).used ≡ s.used)
          × ((next run id s).handler ≡ s.handler)
          × ((next run id s).switches
              ≡ (if get_or s.used (id - 1) false then 0 ∷ id ∷ s.switches else s.switches))
    unfolding next yield_thread switch_to
    next-fields id s h = ground (
      arith,
      slice-fields (id - 1) (record s {
        current = id;
        switches = if s.handler == 0 then s.switches else id ∷ s.switches;
      }),
    )

    next_from-switches :
        (n id : ℕ) (s : Scheduler W)
        → s.handler ≢ 0
        → (next_from run n id s).switches ≡ calls (active n id s.used) s.switches
    unfolding next_from active
    next_from-switches zero id s h = refl
    next_from-switches (suc n) id s h =
        let (used, handler, switches) = next-fields id s h in
        next_from-switches n (id + 1) (next run id s) (λ e. h (sym handler ∙ e))
        ∙ rw (used, switches)
            (split (get_or s.used (id - 1) false) id s.switches (active n (id + 1) s.used))
      where
        split :
            (b : Bool) (id : ℕ) (before rest : List ℕ)
            → calls rest (if b then 0 ∷ id ∷ before else before)
              ≡ calls (if b then id ∷ rest else rest) before
        split true id before rest = refl
        split false id before rest = refl

    -- One round of `AMPiPoke` switches to every thread that exists, once and in the order of their
    -- numbers, and back to the main thread after each; as the callback sees it, if the threads
    -- create no threads and leave the callback alone.
    pub poke_switches :
        (s : Scheduler W)
        → s.handler ≢ 0
        → (poke run s).switches ≡ calls (active max_co 1 s.used) s.switches
    unfolding poke
    poke_switches s h = next_from-switches max_co 1 s h

  -- Whatever the threads do, the main thread is the current one again after the round.
  poke-current : (s : Scheduler W) → s.current ≡ 0 → (poke run s).current ≡ 0
  unfolding poke
  poke-current s h = next_from-current max_co 1 s h
