-- ===== src/Services/Add/Place.antt =====
-- The table behind a new service of `vchiq_add_service_internal`.
use ampi.Base.{
  ℕ, suc, ◌≤◌, ◌<◌, ◌≡◌, ◌≢◌, ◌∙◌, refl, sym, ap, subst, Bool, true, false, ◌==◌, ==-refl,
  ==-eq-false, if◌then◌else◌, Option, none, some, arith, Bool-cases, ℕ_discrete, inl, inr, ◌⊎◌,
}
use Prim.Native.Nat.{bit_or}
use ampi.Services.{Service, ServiceState, Services, put, max_services}
use ampi.Services.References.{IsValid}
use ampi.Services.Add.Port.{Good, NoPort, choose_port-Good}
use ampi.Services.Add.{
  Params, new_service, install, set_quota, set_service_state, bring_online, add_service,
}

-- The number that a handle is made of
abbrev pub next_seq : Services → ℕ
next_seq s = if s.handle_seq == 0 then max_services else s.handle_seq

-- The table with a new service at the port `p`.
abbrev online : ServiceState → ℕ → Service → Services → Services
online srvstate p v s = bring_online srvstate p (set_quota p (install p v s))

module _ (srvstate : ServiceState) (p : ℕ) (v : Service) (s : Services) where
  online-at :
      (h : ℕ) × (h ≡ bit_or (next_seq s) p)
      × ((online srvstate p v s).services p
          ≡ some (record v { localport = p; handle = h; srvstate = srvstate }))
  unfolding bring_online set_quota install put set_service_state
  online-at = (bit_or (next_seq s) p, refl, rw (==-refl p) refl)

  online-other : (q : ℕ) → q ≢ p → (online srvstate p v s).services q ≡ s.services q
  unfolding bring_online set_quota install put
  online-other q ne = rw (==-eq-false q p ne) refl

  online-unused :
      (online srvstate p v s).unused_service
      ≡ (if p == s.unused_service then suc s.unused_service else s.unused_service)
  unfolding bring_online set_quota install put
  online-unused = refl

-- What a new service at the port `p` has changed.
pub record Added (srvstate : ServiceState) (owner p : ℕ) (s t : Services) : Type 0 where
  pub vacant : s.services p ≡ none
  pub small : p < max_services
  pub others : (q : ℕ) → q ≢ p → t.services q ≡ s.services q
  pub there :
      (v : Service) × (t.services p ≡ some v)
      × (v.ref_count ≡ 1)
      × (v.owner ≡ owner)
      × (v.srvstate ≡ srvstate)
      × (v.handle ≡ bit_or (next_seq s) p)
  pub valid : IsValid t
  pub few : t.unused_service ≤ max_services

abbrev refs : Option Service → ℕ
refs none = 1
refs (some v) = v.ref_count

abbrev port_of : ℕ → Option Service → ℕ
port_of p none = p
port_of p (some v) = v.localport

-- `unused_service` after the service has come to its port.
abbrev grown : ℕ → ℕ → ℕ
grown p unused = if p == unused then suc unused else unused

above-grown : (p unused q : ℕ) → p ≤ unused → grown p unused ≤ q → (p < q) × (unused ≤ q)
above-grown p unused q h l = ground (arith, h, l)

grown_few :
    (p unused : ℕ) → p < max_services → unused ≤ max_services → grown p unused ≤ max_services
grown_few p unused h l = ground (arith, h, l)

online-Added :
    (srvstate : ServiceState) (owner p : ℕ) (v : Service) (s : Services)
    → IsValid s
    → s.unused_service ≤ max_services
    → Good (Unit {0}) s (some p)
    → v.ref_count ≡ 1
    → v.owner ≡ owner
    → Added srvstate owner p s (online srvstate p v s)
online-Added srvstate owner p v s valid few (vacant, near, small) one mine =
    let t = online srvstate p v s in
    let (h, numbered, at) = online-at srvstate p v s in
    let new = record v { localport = p; handle = h; srvstate = srvstate } in
    let key : (q : ℕ) (w : Service) → q ≡ p → t.services q ≡ some w → some new ≡ some w =
      λ q w same e. sym at ∙ ap t.services (sym same) ∙ e in
    let unused = online-unused srvstate p v s in
    record {
      vacant = vacant;
      small = small;
      others = online-other srvstate p v s;
      there = (_, at, one, mine, refl, numbered);
      valid = record {
        counted = λ q w e. elim (ℕ_discrete q p) [
          | yes same ↦
              (let n : v.ref_count ≡ w.ref_count = ap refs (key q w same e) in
                (omega (arith, n, one), omega (arith, n, one)))
          | no ne ↦ valid.counted q w (sym (online-other srvstate p v s q ne) ∙ e)
        ];
        ports = λ q w e. elim (ℕ_discrete q p) [
          | yes same ↦ sym (ap (port_of q) (key q w same e)) ∙ sym same
          | no ne ↦ valid.ports q w (sym (online-other srvstate p v s q ne) ∙ e)
        ];
        beyond = λ q l.
            let (far, old) = above-grown p s.unused_service q near (subst (λ k. k ≤ q) unused l) in
            online-other srvstate p v s q (λ same. omega (arith, far, same)) ∙ valid.beyond q old;
      };
      few = subst (λ k. k ≤ max_services) (sym unused) (grown_few p s.unused_service small few);
    }

-- With memory and a free port, a new service comes to a port below `VCHIQ_MAX_SERVICES` where there was
-- none, with one reference and in its state; every other service stays, and the table is valid
-- again. Otherwise the result is a null pointer and nothing changes: then there is no memory, all
-- ports are taken, or it is a server and another server of its name does not match. (The table is
-- valid before, with at most `VCHIQ_MAX_SERVICES` services.)
pub add_service_lem :
    (allocated : Bool) (params : Params) (srvstate : ServiceState) (owner userdata_term : ℕ)
    → (s : Services) → IsValid s
    → s.unused_service ≤ max_services
    → let (r, t) = add_service allocated params srvstate owner userdata_term s in
      ((r ≡ none) × (t ≡ s) × ((allocated ≡ false) ⊎ NoPort params srvstate owner s))
      ⊎ ((p : ℕ) × (r ≡ some p) × (allocated ≡ true) × Added srvstate owner p s t)
unfolding add_service new_service
add_service_lem allocated params srvstate owner userdata_term s valid few =
    elim (Bool-cases allocated) [
      | inl y ↦ rw (add_service, y) (chosen _ (choose_port-Good s few valid params srvstate owner))
      | inr f ↦ rw (add_service, f) (inl (refl, refl, inl refl))
    ]
  where
    v : Service
    v = new_service params srvstate owner userdata_term

    result : Option ℕ → Option ℕ × Services
    result none = (none, s)
    result (some p) = (some p, online srvstate p v s)

    chosen :
        (o : Option ℕ)
        → Good (NoPort params srvstate owner s) s o
        → let (r, t) = result o in
          ((r ≡ none) × (t ≡ s) × ((true ≡ false) ⊎ NoPort params srvstate owner s))
          ⊎ ((p : ℕ) × (r ≡ some p) × (true ≡ true) × Added srvstate owner p s t)
    chosen none g = inl (refl, refl, inr g)
    chosen (some p) g = inr (p, refl, refl, online-Added srvstate owner p v s valid few g refl refl)
