-- ===== src/Coroutine/Create.antt =====
-- `ampi_co_create` of ampi/linux/coroutine.c.
use ampi.Base.{
  ℕ, zero, suc, ◌+◌, ◌-◌, ◌≡◌, ◌≢◌, ◌∙◌, ◌≤◌, ◌<◌, refl, Bool, true, false, arith, get_or, set,
  get_or-set_self, length, length-set, Bool-cases, inl, inr, ℕ_discrete,
}
use ampi.Coroutine.{Scheduler, max_co, create_from, create}

-- Whether the thread with the index `i` exists.
abbrev pub is_used : {W : Type 0} → Scheduler W → ℕ → Bool
is_used s i = get_or s.used i false

-- The arrays have `MAX_CO` elements.
pub record IsValid {W : Type 0} (s : Scheduler W) : Type 0 where
  pub used_length : length s.used ≡ max_co
  pub fn_length : length s.fn_ptr ≡ max_co
  pub args_length : length s.args ≡ max_co
  pub started_length : length s.started ≡ max_co

-- What `ampi_co_create` has done when it returns `id`, having looked at the indices from `i` to
-- below `end`.
pub record Created {W : Type 0} (i end fn arg : ℕ) (s : Scheduler W) (id : ℕ) (t : Scheduler W)
    : Type 0 where
  pub full : id ≡ 0 → (t ≡ s) × ((j : ℕ) → i ≤ j → j < end → is_used s j ≡ true)
  pub range : id ≢ 0 → (suc i ≤ id) × (id ≤ end)
  pub least :
      id ≢ 0 → (is_used s (id - 1) ≡ false) × ((j : ℕ) → i ≤ j → j < id - 1 → is_used s j ≡ true)
  pub taken :
      id ≢ 0
      → t ≡ record s {
        used = set s.used (id - 1) true;
        fn_ptr = set s.fn_ptr (id - 1) fn;
        args = set s.args (id - 1) arg;
      }

-- One more index that is used, in front.
Created-widen :
    {W : Type 0} (i end fn arg : ℕ) (s : Scheduler W) (id : ℕ) (t : Scheduler W)
    → is_used s i ≡ true
    → Created (i + 1) end fn arg s id t
    → Created i end fn arg s id t
Created-widen i end fn arg s id t used c = record {
  full = λ z. ((c.full z).0, λ j l h. one_more j (λ k. (c.full z).1 j k h) l);
  range = λ nz. let (a, b) = c.range nz in (omega arith, b);
  least = λ nz. ((c.least nz).0, λ j l h. one_more j (λ k. (c.least nz).1 j k h) l);
  taken = c.taken;
}
  where
    one_more : (j : ℕ) → (i + 1 ≤ j → is_used s j ≡ true) → i ≤ j → is_used s j ≡ true
    one_more j later l = elim (ℕ_discrete i j) [
      | yes e ↦ rw (← e) used
      | no ne ↦ later (omega arith)
    ]

create_from-Created :
    {W : Type 0} (n i end fn arg : ℕ) (s : Scheduler W)
    → i + n ≡ end
    → let (id, t) = create_from n i fn arg s in Created i end fn arg s id t
unfolding create_from
create_from-Created zero i end fn arg s e = record {
  full = λ _. (refl, λ j l h. absurd (omega arith));
  range = λ h. absurd (h refl);
  least = λ h. absurd (h refl);
  taken = λ h. absurd (h refl);
}
create_from-Created (suc n) i end fn arg s e = elim (Bool-cases (is_used s i)) [
  | inl used ↦
      let (id, t) = create_from n (i + 1) fn arg s in
      rw used (
        Created-widen i end fn arg s id t used
          (create_from-Created n (i + 1) end fn arg s (omega arith)))
  | inr free ↦
      let back : i + 1 - 1 ≡ i = omega arith in
      rw free (record {
        full = λ z. absurd (omega arith);
        range = λ _. (omega arith, omega arith);
        least = λ _. (rw back free, λ j l h. absurd (omega arith));
        taken = λ _. rw back;
      })
]

-- `ampi_co_create` takes the least free index and returns the number behind it: the thread gets the
-- function and the argument, and nothing else changes. It returns 0, and changes nothing, exactly
-- when all `MAX_CO` threads exist.
pub create-Created :
    {W : Type 0} (fn arg : ℕ) (s : Scheduler W)
    → let (id, t) = create fn arg s in Created 0 max_co fn arg s id t
unfolding create
create-Created fn arg s = create_from-Created max_co 0 max_co fn arg s refl

-- Two threads never have one number: that of a new thread was free, and is not free any more.
create_fresh :
    {W : Type 0} (fn arg : ℕ) (s : Scheduler W)
    → IsValid s
    → let (id, t) = create fn arg s in
      id ≢ 0 → (is_used s (id - 1) ≡ false) × (is_used t (id - 1) ≡ true) × IsValid t
create_fresh fn arg s v nz =
    let (id, t) = create fn arg s in
    let c = create-Created fn arg s in
    let (low, high) = c.range nz in
    (
      (c.least nz).0,
      rw (c.taken nz) (get_or-set_self s.used (id - 1) true false (omega (arith, v.used_length))),
      rw (c.taken nz) (record {
        used_length = length-set s.used _ true ∙ v.used_length;
        fn_length = length-set s.fn_ptr _ fn ∙ v.fn_length;
        args_length = length-set s.args _ arg ∙ v.args_length;
        started_length = v.started_length;
      }),
    )
