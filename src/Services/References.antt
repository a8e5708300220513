-- ===== src/Services/References.antt =====
-- ampi/vc4/vchiq/vchiq_core.c: references to services are taken by the lookups and given back by
-- `unlock_service`.
use ampi.Base.{
  ℕ, ◌+◌, ◌-◌, ◌≤◌, ◌<◌, ◌≡◌, ◌⊎◌, ◌∙◌, inl, inr, refl, sym, ap, Bool, true, false, ◌==◌, ==-refl,
  ==-eq-false, Option, none, some, arith, Bool-cases, Option-cases, ℕ_discrete,
}
use mathlib.Core.Path.{fun_ext}
use ampi.Base.Words.{word}
use ampi.Services.{
  Service, Services, put, hold, claim, handle_port, has_handle, find_service_by_handle, passes,
  unlock_service,
}

-- Each service is at its own port, and has at least one reference and less than `2^32 - 1`; there
-- are none from the first unused index on.
pub record IsValid (s : Services) : Type 0 where
  pub counted :
      (p : ℕ) (v : Service) → s.services p ≡ some v → (0 < v.ref_count) × (v.ref_count + 1 < word)
  pub ports : (p : ℕ) (v : Service) → s.services p ≡ some v → v.localport ≡ p
  pub beyond : (p : ℕ) → s.unused_service ≤ p → s.services p ≡ none

abbrev pub held : Service → Service
held v = record v { ref_count = v.ref_count + 1 }

pub put-at : (p : ℕ) (o : Option Service) (s : Services) → (put p o s).services p ≡ o
unfolding put
put-at p o s = rw (==-refl p) refl

-- The last write counts, and writing back what was there changes nothing.
put_back : (p : ℕ) (o : Option Service) (s : Services) → put p (s.services p) (put p o s) ≡ s
unfolding put
put_back p o s =
    ap (λ f. record s { services = f })
      (fun_ext (λ i. elim (ℕ_discrete i p) [
        | yes e ↦ rw (e, ==-refl p) refl
        | no ne ↦ rw (==-eq-false i p ne) refl
      ]))

pub put-put : (p : ℕ) (o o' : Option Service) (s : Services) → put p o (put p o' s) ≡ put p o s
unfolding put
put-put p o o' s =
    ap (λ f. record s { services = f })
      (fun_ext (λ i. elim (ℕ_discrete i p) [
        | yes e ↦ rw (e, ==-refl p) refl
        | no ne ↦ rw (==-eq-false i p ne) refl
      ]))

pub hold_lem :
    (p : ℕ) (v : Service) (s : Services)
    → (0 < v.ref_count) × (v.ref_count + 1 < word)
    → hold p v s ≡ some (put p (some (held v)) s)
unfolding hold
hold_lem p v s h = ground (arith, h.0, h.1)

pub unlock_more :
    (p : ℕ) (v : Service) (s : Services)
    → s.services p ≡ some v
    → 1 < v.ref_count
    → unlock_service p s ≡ some (put p (some (record v { ref_count = v.ref_count - 1 })) s)
unfolding unlock_service
unlock_more p v s e h =
    let many : (v.ref_count == 1) ≡ false = ==-eq-false _ 1 (omega (arith, h)) in
    let some_left : (v.ref_count == 0) ≡ false = ==-eq-false _ 0 (omega (arith, h)) in
    rw (unlock_service, e, some_left, many) refl

-- A service that is held is given back by `unlock_service`, which leaves the table as it was.
pub unlock-held :
    (p : ℕ) (v : Service) (s : Services)
    → 0 < v.ref_count
    → s.services p ≡ some v
    → unlock_service p (put p (some (held v)) s) ≡ some s
unlock-held p v s h e =
    let t = put p (some (held v)) s in
    let same : v.ref_count + 1 - 1 ≡ v.ref_count = omega arith in
    unlock_more p (held v) t (put-at p (some (held v)) s) (omega (arith, h))
    ∙ ap (λ o. some (put p o t)) (ap (λ n. some (record v { ref_count = n })) same ∙ sym e)
    ∙ ap (λ u. some u) (put_back p (some (held v)) s)

pub claim_lem :
    (test : Service → Bool) (p : ℕ) (s : Services)
    → IsValid s
    → ((passes test (s.services p) ≡ false) × (claim test p s ≡ some (none, s)))
      ⊎ ((v : Service) × (s.services p ≡ some v)
          × (test v ≡ true)
          × (claim test p s ≡ some (some p, put p (some (held v)) s)))
unfolding claim
claim_lem test p s valid = elim (Option-cases (s.services p)) [
  | inl e ↦ inl ((rw e refl, rw (claim, e) refl))
  | inr found ↦
      let (v, e) = found in
      elim (Bool-cases (test v)) [
        | inl y ↦ inr (v, e, y, rw (claim, e, y, hold_lem p v s (valid.counted p v e)) refl)
        | inr n ↦ inl (rw (e, n) refl, rw (claim, e, n) refl)
      ]
]

-- `find_service_by_handle` finds nothing, and changes nothing, if there is no live service with the
-- handle at its index. Otherwise it takes one reference of that service, and `unlock_service` then
-- restores the table. No `BUG_ON` fails.
find-unlock :
    (handle : ℕ) (s : Services)
    → IsValid s
    → let p = handle_port handle in
      ((passes (has_handle handle) (s.services p) ≡ false)
        × (find_service_by_handle handle s ≡ some (none, s)))
      ⊎ ((v : Service) × (t : Services) × (s.services p ≡ some v)
          × (has_handle handle v ≡ true)
          × (find_service_by_handle handle s ≡ some (some p, t))
          × (t.services p ≡ some (held v))
          × (unlock_service p t ≡ some s))
unfolding find_service_by_handle
find-unlock handle s valid = elim (claim_lem (has_handle handle) (handle_port handle) s valid) [
  | inl h ↦ inl h
  | inr (v, e, y, c) ↦ inr (
    v,
    put (handle_port handle) (some (held v)) s,
    e,
    y,
    c,
    put-at (handle_port handle) (some (held v)) s,
    unlock-held (handle_port handle) v s (valid.counted _ v e).0 e,
  )
]
