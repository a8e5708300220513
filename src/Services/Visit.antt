-- ===== src/Services/Visit.antt =====
-- ampi/vc4/vchiq/vchiq_core.c: the loops over the services of an instance, as
-- `vchiq_shutdown_internal` has one.
use ampi.Base.{
  ℕ_discrete, ℕ, zero, suc, ◌+◌, ◌-◌, ◌≤◌, ◌<◌, ◌≡◌, ◌∙◌, inl, inr, refl, sym, ap, subst, Bool,
  true, false, if◌then◌else◌, Option, none, some, List, [], ◌∷◌, arith, Bool-cases, Option-cases,
  ltb,
}
use mathlib.Core.Option
use ampi.Services.{
  Service, Services, put, passes, scan, belongs, lock_service, next_service_by_instance,
  unlock_service,
}
use ampi.Services.References.{IsValid, held, hold_lem, unlock-held}

-- `while ((service = next_service_by_instance(state, instance, &i)) != NULL) unlock_service(service);`
-- from the index `idx` on: the services that it comes by. `none` says that a check has failed, or
-- that the fuel is spent.
unfoldable pub visit : ℕ → ℕ → ℕ → Services → Option (List ℕ × Services)
visit zero owner idx s = none
visit (suc fuel) owner idx s = elim (next_service_by_instance owner idx s) [
  | none ↦ none
  | some (r, idx', s') ↦ elim r [
    | none ↦ some ([], s')
    | some i ↦ elim (unlock_service i s') [
      | none ↦ none
      | some s'' ↦ Option.map (λ rest. (i ∷ rest.0, rest.1)) (visit fuel owner idx' s'')
    ]
  ]
]

-- The indices of the services that pass the test, of `n` from `i` on.
unfoldable pub members : (Service → Bool) → ℕ → ℕ → Services → List ℕ
members test zero i s = []
members test (suc n) i s =
    let rest = members test n (suc i) s in if passes test (s.services i) then i ∷ rest else rest

abbrev Scanned : (Service → Bool) → ℕ → ℕ → Services → Option ℕ → Type 0
Scanned test n i s none = members test n i s ≡ []
Scanned test n i s (some j) =
    (i ≤ j)
    × (j < i + n)
    × (passes test (s.services j) ≡ true)
    × (members test n i s ≡ j ∷ members test (i + n - suc j) (suc j) s)

Scanned-later :
    (test : Service → Bool) (n i : ℕ) (s : Services) (o : Option ℕ)
    → passes test (s.services i) ≡ false
    → Scanned test n (suc i) s o
    → Scanned test (suc n) i s o
unfolding members
Scanned-later test n i s none e h = rw (members, e) h
Scanned-later test n i s (some j) e (l, b, y, m) =
    let left : suc i + n - suc j ≡ i + suc n - suc j = omega arith in
    (
      omega (arith, l),
      omega (arith, b),
      y,
      rw (members, e) (m ∙ ap (λ k. j ∷ members test k (suc j) s) left),
    )

scan-Scanned :
    (test : Service → Bool) (n i : ℕ) (s : Services) → Scanned test n i s (scan test n i s)
unfolding scan members
scan-Scanned test zero i s = refl
scan-Scanned test (suc n) i s =
    let left : n ≡ i + suc n - suc i = omega arith in
    elim (Bool-cases (passes test (s.services i))) [
      | inl y ↦
          rw (scan, y)
            (
              omega arith,
              omega arith,
              y,
              rw (members, y) (ap (λ k. i ∷ members test k (suc i) s) left),
            )
      | inr f ↦ rw (scan, f) (Scanned-later test n i s _ f (scan-Scanned test n (suc i) s))
    ]

some_not_none : {A : Type 0} (a : A) → some a ≡ none → ⊥
some_not_none {A = A} a e = subst (λ (o : Option A). elim o [ none ↦ ⊥ | some x ↦ Unit {0} ]) e tt

-- The search finds nothing only if no service passes the test.
pub scan-fails :
    (test : Service → Bool) (n i p : ℕ) (s : Services)
    → scan test n i s ≡ none
    → i ≤ p
    → p < i + n
    → passes test (s.services p) ≡ false
unfolding scan
scan-fails test zero i p s e l u = absurd (omega (arith, l, u))
scan-fails test (suc n) i p s e l u = elim (ℕ_discrete p i) [
  | yes same ↦ elim (Bool-cases (passes test (s.services i))) [
    | inl y ↦ absurd (some_not_none i (rw (scan, y) at e))
    | inr f ↦ rw same f
  ]
  | no ne ↦ elim (Bool-cases (passes test (s.services i))) [
    | inl y ↦ absurd (some_not_none i (rw (scan, y) at e))
    | inr f ↦
        scan-fails test n (suc i) p s (rw (scan, f) at e) (omega (arith, l, ne)) (omega (arith, u))
  ]
]

passes-some :
    (test : Service → Bool) (o : Option Service)
    → passes test o ≡ true
    → (v : Service) × (o ≡ some v)
passes-some test none h = ground arith
passes-some test (some v) h = (v, refl)

-- What the search finds passes the test.
pub scan-passes :
    (test : Service → Bool) (n i j : ℕ) (s : Services)
    → scan test n i s ≡ some j
    → (v : Service) × (s.services j ≡ some v) × (test v ≡ true)
scan-passes test n i j s e =
    let found : Scanned test n i s (some j) =
      subst (Scanned test n i s) e (scan-Scanned test n i s) in
    let (v, f) = passes-some test (s.services j) found.2 in
    (v, f, sym (ap (passes test) f) ∙ found.2)

next_found :
    (owner idx j : ℕ) (v : Service) (s : Services)
    → IsValid s
    → scan (belongs owner) (s.unused_service - idx) idx s ≡ some j
    → s.services j ≡ some v
    → next_service_by_instance owner idx s ≡ some (some j, suc j, put j (some (held v)) s)
unfolding next_service_by_instance lock_service
next_found owner idx j v s valid e f =
    rw (next_service_by_instance, e, lock_service, f, hold_lem j v s (valid.counted j v f)) refl

next_nothing :
    (owner idx : ℕ) (s : Services)
    → scan (belongs owner) (s.unused_service - idx) idx s ≡ none
    → idx ≤ s.unused_service
    → next_service_by_instance owner idx s ≡ some (none, s.unused_service, s)
unfolding next_service_by_instance
next_nothing owner idx s e l =
    let last : (if ltb idx s.unused_service then s.unused_service else idx) ≡ s.unused_service =
      ground (arith, l) in
    rw (next_service_by_instance, e, last) refl

-- The loop from index `idx` on comes by each live service of the instance that is there, once and
-- in the order of the indices, and leaves the table as it was; one round for each index below
-- `unused_service`, and one more, are enough.
visit_lem :
    (fuel owner idx : ℕ) (s : Services)
    → IsValid s
    → idx ≤ s.unused_service
    → s.unused_service < idx + fuel
    → visit fuel owner idx s ≡ some (members (belongs owner) (s.unused_service - idx) idx s, s)
unfolding visit
visit_lem zero owner idx s valid l h = absurd (omega (arith, l, h))
visit_lem (suc fuel) owner idx s valid l h =
    let test = belongs owner in
    let n = s.unused_service - idx in
    elim (Option-cases (scan test n idx s)) [
      | inl e ↦
          let nobody : Scanned test n idx s none =
            subst (Scanned test n idx s) e (scan-Scanned test n idx s) in
          rw (visit, next_nothing owner idx s e l, nobody) refl
      | inr (j, e) ↦
          let found : Scanned test n idx s (some j) =
            subst (Scanned test n idx s) e (scan-Scanned test n idx s) in
          let (v, at) = passes-some test (s.services j) found.2 in
          let next = next_found owner idx j v s valid e at in
          let given = unlock-held j v s (valid.counted j v at).0 at in
          let rest = visit_lem fuel owner (suc j) s valid (omega arith) (omega arith) in
          let left : idx + (s.unused_service - idx) - suc j ≡ s.unused_service - suc j =
            omega arith in
          rw (visit, next, given, rest, found.3, left) refl
    ]
