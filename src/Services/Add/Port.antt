-- ===== src/Services/Add/Port.antt =====
-- The port that `vchiq_add_service_internal` finds for a new service, or why it finds none.
use ampi.Base.{
  ℕ, zero, suc, ◌+◌, ◌≤◌, ◌<◌, ◌≡◌, ◌≢◌, ◌∙◌, refl, sym, ap, subst, Bool, true, false, ltb,
  if◌then◌else◌, Option, none, some, arith, Bool-cases, Option-cases, ℕ_discrete, inl, inr, ◌⊎◌,
}
use ampi.Services.{Service, ServiceState, Services, max_services, is_opening}
use ampi.Services.References.{IsValid}
use ampi.Services.Add.{Params, is_missing, first_missing, conflicts, search_down, choose_port}

-- All ports are taken.
pub record Full (s : Services) : Type 0 where
  pub over : max_services ≤ s.unused_service
  pub taken : (p : ℕ) → p < s.unused_service → s.services p ≢ none

-- There is a server of the name that does not match.
pub record Clash (params : Params) (owner : ℕ) (s : Services) : Type 0 where
  pub port : ℕ
  pub service : Service
  pub there : s.services port ≡ some service
  pub clashes : conflicts params owner service ≡ true

-- Why there is no port: all are taken, or a server clashes.
abbrev pub NoPort : Params → ServiceState → ℕ → Services → Type 0
NoPort params srvstate owner s = Full s ⊎ ((is_opening srvstate ≡ false) × Clash params owner s)

-- A port for a new service: nothing is there, and it is below or next to those in use. Without one, `W`
-- is why.
abbrev pub Good : Type 0 → Services → Option ℕ → Type 0
Good W s none = W
Good W s (some p) = (s.services p ≡ none) × (p ≤ s.unused_service) × (p < max_services)

some-none : {A : Type 0} (a : A) → some a ≡ none → ⊥
some-none {A = A} a e = subst (λ (o : Option A). elim o [ none ↦ ⊥ | some x ↦ Unit {0} ]) e tt

is_missing-none : (o : Option Service) → is_missing o ≡ true → o ≡ none
is_missing-none none h = refl
is_missing-none (some v) h = ground arith

is_missing-some : (o : Option Service) → is_missing o ≡ false → o ≢ none
is_missing-some none h = ground arith
is_missing-some (some v) h = λ e. ground arith

-- No port from `i` on, `n` of them, is free.
abbrev Taken : ℕ → ℕ → Services → Type 0
Taken n i s = (p : ℕ) → i ≤ p → p < i + n → s.services p ≢ none

Taken-suc :
    (i : ℕ) (s : Services) (v : Service) → s.services i ≡ some v → Taken i 0 s → Taken (suc i) 0 s
Taken-suc i s v e t p l u = elim (ℕ_discrete p i) [
  | yes same ↦ λ none_here. some-none v (sym e ∙ ap s.services (sym same) ∙ none_here)
  | no ne ↦ t p (omega arith) (omega (arith, u, ne))
]

Good-map : {W V : Type 0} (s : Services) (o : Option ℕ) → (W → V) → Good W s o → Good V s o
Good-map s none f w = f w
Good-map s (some p) f g = g

module _ (s : Services) (few : s.unused_service ≤ max_services) where
  first_missing-Good :
      (n i : ℕ) → i + n ≤ s.unused_service → Good (Taken n i s) s (first_missing n i s)
  unfolding first_missing
  first_missing-Good zero i h = λ p l u. absurd (omega (arith, l, u))
  first_missing-Good (suc n) i h = elim (Bool-cases (is_missing (s.services i))) [
    | inl y ↦ rw (first_missing, y) (is_missing-none _ y, omega (arith, h), omega (arith, h, few))
    | inr f ↦
        rw (first_missing, f)
          (behind (first_missing n (suc i) s) (first_missing-Good n (suc i) (omega (arith, h)))
            (is_missing-some _ f))
  ]
    where
      behind :
          (o : Option ℕ)
          → Good (Taken n (suc i) s) s o
          → s.services i ≢ none
          → Good (Taken (suc n) i s) s o
      behind none rest here = λ p l u. elim (ℕ_discrete p i) [
        | yes same ↦ subst (λ q. s.services q ≢ none) (sym same) here
        | no ne ↦ rest p (omega (arith, l, ne)) (omega (arith, u))
      ]
      behind (some p) g here = g

  module _ (params : Params) (owner : ℕ) where
    -- What the search downwards finds no port for: a clash, or no best port and no free one below `n`
    abbrev Blocked : ℕ → Option ℕ → Type 0
    Blocked n best = Clash params owner s ⊎ ((best ≡ none) × Taken n 0 s)

    Blocked-some : (i : ℕ) (best : Option ℕ) → Blocked i (some i) → Blocked (suc i) best
    Blocked-some i best (inl clash) = inl clash
    Blocked-some i best (inr (e0, t)) = absurd (some-none i e0)

    Blocked-suc :
        (i : ℕ) (best : Option ℕ) (v : Service)
        → s.services i ≡ some v
        → Blocked i best
        → Blocked (suc i) best
    Blocked-suc i best v e (inl clash) = inl clash
    Blocked-suc i best v e (inr (e0, t)) = inr (e0, Taken-suc i s v e t)

    search_down-Good :
        (n : ℕ) (best : Option ℕ)
        → n ≤ s.unused_service
        → Good ((best ≡ none) × Taken 0 0 s) s best
        → Good (Blocked n best) s (search_down params owner n best s)
    unfolding search_down
    search_down-Good zero none h g = inr g
    search_down-Good zero (some p) h g = g
    search_down-Good (suc i) best h g = elim (Option-cases (s.services i)) [
      | inl e ↦
          rw (search_down, e)
            (Good-map s _ (Blocked-some i best) (
              search_down-Good i (some i) (omega (arith, h))
                (e, omega (arith, h), omega (arith, h, few))))
      | inr (v, e) ↦ elim (Bool-cases (conflicts params owner v)) [
        | inl y ↦
            rw (search_down, e, y) (inl (record { port = i; service = v; there = e; clashes = y }))
        | inr f ↦
            rw (search_down, e, f)
              (Good-map s _ (Blocked-suc i best v e) (search_down-Good i best (omega (arith, h)) g))
      ]
    ]

  module _ (valid : IsValid s) where
    fresh : Option ℕ
    fresh = if ltb s.unused_service max_services then some s.unused_service else none

    fresh-Good : Good (max_services ≤ s.unused_service) s fresh
    unfolding fresh
    fresh-Good = elim (Bool-cases (ltb s.unused_service max_services)) [
      | inl y ↦ rw y (valid.beyond s.unused_service (omega arith), omega arith, ground (arith, y))
      | inr f ↦ rw f (ground (arith, f))
    ]

    fresh-over : fresh ≡ none → max_services ≤ s.unused_service
    unfolding fresh
    fresh-over e = elim (Bool-cases (ltb s.unused_service max_services)) [
      | inl y ↦ absurd (
          some-none s.unused_service
            (subst (λ b. (if b then some s.unused_service else none) ≡ none) y e))
      | inr f ↦ ground (arith, f)
    ]

    full : max_services ≤ s.unused_service → Taken s.unused_service 0 s → Full s
    full over t = record { over = over; taken = λ p l. t p (omega arith) (omega (arith, l)) }

    pub choose_port-Good :
        (params : Params) (srvstate : ServiceState) (owner : ℕ)
        → Good (NoPort params srvstate owner s) s (choose_port params srvstate owner s)
    unfolding choose_port fresh
    choose_port-Good params srvstate owner =
        let client = first_missing s.unused_service 0 s in
        let as_client : Option ℕ = elim client [ none ↦ fresh | some i ↦ some i ] in
        let as_server = search_down params owner s.unused_service fresh s in
        let choice : Bool → Option ℕ = λ b. if b then as_client else as_server in
        elim (Bool-cases (is_opening srvstate)) [
          | inl y ↦
              subst (Good (NoPort params srvstate owner s) s) (sym (ap choice y))
                (or_fresh client (first_missing-Good s.unused_service 0 (omega arith)))
          | inr f ↦ subst (Good (NoPort params srvstate owner s) s) (sym (ap choice f)) (
              Good-map s as_server (reason f) (
                search_down-Good params owner s.unused_service fresh (omega arith)
                  (fresh-start fresh fresh-Good)))
        ]
      where
        reason :
            is_opening srvstate ≡ false
            → Blocked params owner s.unused_service fresh
            → NoPort params srvstate owner s
        reason f (inl clash) = inr (f, clash)
        reason f (inr (e0, t)) = inl (full (fresh-over e0) t)

        or_fresh :
            (o : Option ℕ)
            → Good (Taken s.unused_service 0 s) s o
            → Good (NoPort params srvstate owner s) s (elim o [ none ↦ fresh | some i ↦ some i ])
        or_fresh none t = Good-map s fresh (λ over. inl (full over t)) fresh-Good
        or_fresh (some i) g = g

        fresh-start :
            (o : Option ℕ)
            → Good (max_services ≤ s.unused_service) s o
            → Good ((o ≡ none) × Taken 0 0 s) s o
        fresh-start none g = (refl, λ p l u. absurd (omega (arith, l, u)))
        fresh-start (some p) g = g
