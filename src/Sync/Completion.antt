-- ===== src/Sync/Completion.antt =====
-- ampi/linux/completion.c
use ampi.Base.{
  ℕ, ◌+◌, ◌-◌, ◌/◌, ◌≡◌, ◌≤◌, ◌<◌, refl, not, ◌==◌, leb, if◌then◌else◌, Option, some, none, List,
  [], ◌∷◌, arith, inl, inr, All, length, ◌⊎◌, ◌≢◌, ℕ_discrete, dec_le,
}
use ampi.Base.Words.{add32, sub32, word}
use ampi.Wait.{Task, ◌>>◌, modify, poll, poll_ready, poll_blocked}
use ampi.Sync.{Cell}

module _ {S : Type 0} (x : Cell S) where
  unfoldable pub init_completion : S → S
  init_completion s = x.put 0 s

  unfoldable pub complete : S → S
  complete s = x.put (add32 (x.get s) 1) s

  -- `(unsigned) -1 / 2`
  unfoldable pub complete_all : S → S
  complete_all s = x.put ((word - 1) / 2) s

  abbrev pub take : S → S
  take s = x.put (x.get s - 1) s

  unfoldable pub wait_for_completion : Task S (Unit {0})
  wait_for_completion = poll (λ s. not (x.get s == 0)) >> modify take

  unfoldable pub try_wait_for_completion : S → ℕ × S
  try_wait_for_completion s = if x.get s == 0 then (0, s) else (1, take s)

  module _ (jiffies : S → ℕ) (timeout : ℕ) where
    abbrev pub elapsed : ℕ → S → ℕ
    elapsed start s = sub32 (jiffies s) start

    -- The loop of `wait_for_completion_interruptible_timeout`, entered at the time `start`.
    unfoldable pub wait_until : ℕ → Task S ℕ
    wait_until start s [] =
        if not (x.get s == 0)
        then some (1, take s, [])
        else if leb timeout (elapsed start s)
        then some (0, s, [])
        else none
    wait_until start s (e ∷ env) =
        let rest = wait_until start (e s) env in
        if not (x.get s == 0)
        then some (1, take s, e ∷ env)
        else if leb timeout (elapsed start s)
        then some (0, s, e ∷ env)
        else rest

    unfoldable pub wait_for_completion_interruptible_timeout : Task S ℕ
    wait_for_completion_interruptible_timeout s env = wait_until (jiffies s) s env

    abbrev pub Ticks : (S → S) → Type 0
    Ticks e = (s : S) → jiffies (e s) ≡ add32 (jiffies s) 1

    -- How a wait that has begun at `start` may end: with 1, or with 0 once the time is over, the
    -- completion being at 0.
    abbrev pub Ends : ℕ → Option (ℕ × S × List (S → S)) → Type 0
    Ends start o =
        (r : ℕ × S × List (S → S)) × (o ≡ some r)
        × ((r.0 ≡ 1) ⊎ ((r.0 ≡ 0) × (timeout ≤ elapsed start r.1) × (x.get r.1 ≡ 0)))

    ended :
        (start : ℕ) (s : S) (env : List (S → S)) (rest : Option (ℕ × S × List (S → S)))
        → (x.get s ≢ 0) ⊎ (timeout ≤ elapsed start s)
        → Ends start (
            if not (x.get s == 0)
            then some (1, take s, env)
            else if leb timeout (elapsed start s)
            then some (0, s, env)
            else rest)
    ended start s env rest h = elim (ℕ_discrete (x.get s) 0) [
      | yes z ↦ ((0, s, env), ground arith, ground arith)
      | no nz ↦ ((1, take s, env), ground arith, inl refl)
    ]

    going :
        (start : ℕ) (s : S) (env : List (S → S)) (rest : Option (ℕ × S × List (S → S)))
        → Ends start rest
        → Ends start (
            if not (x.get s == 0)
            then some (1, take s, env)
            else if leb timeout (elapsed start s)
            then some (0, s, env)
            else rest)
    going start s env rest h = elim (ℕ_discrete (x.get s) 0) [
      | yes z ↦ elim (dec_le timeout (elapsed start s)) [
        | yes over ↦ ended start s env rest (inr over)
        | no early ↦ (h.0, ground arith, h.2)
      ]
      | no nz ↦ ended start s env rest (inl nz)
    ]

    wait_until-Ends :
        (start : ℕ) (s : S) (env : List (S → S))
        → start < word
        → jiffies s < word
        → timeout < word
        → All Ticks env
        → timeout ≤ length env + elapsed start s
        → Ends start (wait_until start s env)
    unfolding wait_until
    wait_until-Ends start s [] h k l t n = ended start s [] none (inr (omega arith))
    wait_until-Ends start s (e ∷ env) h k l t n = elim (dec_le timeout (elapsed start s)) [
      | yes over ↦ ended start s (e ∷ env) (wait_until start (e s) env) (inr over)
      | no early ↦
          going start s (e ∷ env) (wait_until start (e s) env)
            (wait_until-Ends start (e s) env h (omega (arith, t.0 s)) l t.1 (omega (arith, t.0 s)))
    ]

    -- If every yield takes one tick of the clock, then the wait ends after at most `timeout` yields:
    -- with 1, or with 0 when the time is over and the completion is still at 0. The clock may wrap
    -- round meanwhile.
    wait_timeout-Ends :
        (s : S) (env : List (S → S))
        → jiffies s < word
        → timeout < word
        → All Ticks env
        → timeout ≤ length env
        → Ends (jiffies s) (wait_for_completion_interruptible_timeout s env)
    unfolding wait_for_completion_interruptible_timeout
    wait_timeout-Ends s env k l t n = wait_until-Ends (jiffies s) s env k k l t (omega arith)

  -- `try_wait_for_completion` does what `wait_for_completion` does when that need not wait, and
  -- leaves the completion alone when it would.
  try_wait-wait :
      (s : S)
      → let (r, t) = try_wait_for_completion s in
        (r ≡ 1 → wait_for_completion s [] ≡ some (tt, t, []))
        × (r ≡ 0 → (wait_for_completion s [] ≡ none) × (t ≡ s))
  unfolding try_wait_for_completion wait_for_completion
  try_wait-wait s = ground (
    arith,
    poll_ready (λ (s : S). not (x.get s == 0)) s [],
    poll_blocked (λ (s : S). not (x.get s == 0)) s,
  )
