-- ===== src/Wait.antt =====
-- The polling loops `while (!condition) ampi_co_yield();` of ampi/linux and of
-- ampi/vc4/sound/vchiqsoundbasedevice.c. What the other tasks do to the shared state during one
-- `ampi_co_yield` is a function on that state; a run is given a list of them, one for each yield.
-- `none` says that the task still waits when the listed yields are over.
use ampi.Base.{
  ◌≡◌, inl, inr, Bool, true, false, Option, none, some, List, [], ◌∷◌, if◌then◌else◌, Bool-cases,
  ap, arith,
}

-- A task: from the shared state and the yields to come to a result, the state and the yields left.
abbrev pub Task : Type 0 → Type 0 → Type 0
Task S A = S → List (S → S) → Option (A × S × List (S → S))

abbrev pub pure : {S A : Type 0} → A → Task S A
pure a s env = some (a, s, env)

infixl 5 ◌>>=◌ ◌>>◌
abbrev pub ◌>>=◌ : {S A B : Type 0} → Task S A → (A → Task S B) → Task S B
◌>>=◌ m f s env = elim (m s env) [ none ↦ none | some (a, t, rest) ↦ f a t rest ]

abbrev pub ◌>>◌ : {S B : Type 0} → Task S (Unit {0}) → Task S B → Task S B
m >> k = m >>= λ _. k

-- A call that does not yield.
abbrev pub lift : {S A : Type 0} → (S → A × S) → Task S A
lift f s env = let r = f s in some (r.0, r.1, env)

abbrev pub modify : {S : Type 0} → (S → S) → Task S (Unit {0})
modify f s env = some (tt, f s, env)

unfoldable pub poll : {S : Type 0} → (S → Bool) → Task S (Unit {0})
poll ready s [] = if ready s then some (tt, s, []) else none
poll ready s (e ∷ env) =
    let rest = poll ready (e s) env in if ready s then some (tt, s, e ∷ env) else rest

-- A condition that holds at once costs no yield.
pub poll_ready :
    {S : Type 0} (ready : S → Bool) (s : S) (env : List (S → S))
    → ready s ≡ true
    → poll ready s env ≡ some (tt, s, env)
unfolding poll
poll_ready ready s [] h = rw h
poll_ready ready s (e ∷ env) h = rw h

-- One yield, while the condition does not hold.
pub poll_yield :
    {S : Type 0} (ready : S → Bool) (s : S) (e : S → S) (env : List (S → S))
    → ready s ≡ false
    → poll ready s (e ∷ env) ≡ poll ready (e s) env
unfolding poll
poll_yield ready s e env h = rw h

pub poll_blocked :
    {S : Type 0} (ready : S → Bool) (s : S) → ready s ≡ false → poll ready s [] ≡ none
unfolding poll
poll_blocked ready s h = rw h

-- The loop is left only in a state where its condition holds.
pub poll_done :
    {S : Type 0} (ready : S → Bool) (s : S) (env : List (S → S)) {t : S} {rest : List (S → S)}
    → poll ready s env ≡ some (tt, t, rest)
    → ready t ≡ true
unfolding poll
poll_done ready s [] h = ground arith
poll_done ready s (e ∷ env) h = elim (Bool-cases (ready s)) [
  | inl y ↦ ground arith
  | inr n ↦ poll_done ready (e s) env (rw (n, if◌then◌else◌) at h)
]

-- A task whose first part ends goes on with the second one.
pub bind_lem :
    {S A B : Type 0} (m : Task S A) (f : A → Task S B) (s t : S) {a : A} {env rest : List (S → S)}
    → m s env ≡ some (a, t, rest)
    → (m >>= f) s env ≡ f a t rest
bind_lem m f s t h = ap (λ o. elim o [ none ↦ none | some (a, t, rest) ↦ f a t rest ]) h
