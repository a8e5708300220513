-- ===== src/Services/Add/Find.antt =====
-- A service of ampi/vc4/vchiq/vchiq_core.c is found again by its handle.
use ampi.Base.{
  ℕ, ◌*◌, ◌/◌, ◌%◌, ◌≤◌, ◌<◌, ◌≡◌, ◌∙◌, refl, ap, Bool, true, false, ◌==◌, ==-refl, none, some,
  arith, Bool-cases, inl, inr, ◌⊎◌,
}
use Prim.Native.Nat.{bit_or}
use ampi.Base.Words.{bit_and_mask}
use ampi.Base.Bits.{bit_or_join}
use ampi.Services.{
  Service, ServiceState, Services, put, max_services, is_free, handle_port, has_handle, claim,
  find_service_by_handle,
}
use ampi.Services.References.{IsValid, held, hold_lem}
use ampi.Services.Add.{Params, add_service}
use ampi.Services.Add.Place.{Added, next_seq, add_service_lem}

-- The index of a handle is the port that it was made for.
handle_port_lem : (seq p : ℕ) → seq % 4096 ≡ 0 → p < 4096 → handle_port (bit_or seq p) ≡ p
handle_port_lem seq p h l =
    let whole : seq ≡ seq / 4096 * 4096 = omega (arith, h) in
    bit_and_mask 12 (bit_or seq p)
    ∙ ap (λ n. bit_or n p % 4096) whole
    ∙ ap (λ n. n % 4096) (bit_or_join 12 (seq / 4096) p l)
    ∙ omega (arith, l)

next_seq_whole : (s : Services) → s.handle_seq % 4096 ≡ 0 → next_seq s % 4096 ≡ 0
next_seq_whole s h = elim (Bool-cases (s.handle_seq == 0)) [ inl y ↦ rw y refl | inr n ↦ rw n h ]

claim_found :
    (test : Service → Bool) (p : ℕ) (v : Service) (t : Services)
    → IsValid t
    → t.services p ≡ some v
    → test v ≡ true
    → claim test p t ≡ some (some p, put p (some (held v)) t)
unfolding claim
claim_found test p v t valid at h = rw (claim, at, h, hold_lem p v t (valid.counted p v at)) refl

Added-find :
    (srvstate : ServiceState) (owner p : ℕ) (s t : Services)
    → s.handle_seq % 4096 ≡ 0
    → is_free srvstate ≡ false
    → Added srvstate owner p s t
    → (v : Service) × (t.services p ≡ some v)
      × (find_service_by_handle v.handle t ≡ some (some p, put p (some (held v)) t))
unfolding find_service_by_handle
Added-find srvstate owner p s t whole live a =
    let (v, at, one, mine, state, numbered) = a.there in
    let port : handle_port v.handle ≡ p =
      ap handle_port numbered ∙ handle_port_lem (next_seq s) p (next_seq_whole s whole) a.small in
    let test : has_handle v.handle v ≡ true = rw (state, live) (==-refl v.handle) in
    (
      v,
      at,
      ap (λ q. claim (has_handle v.handle) q t) port
          ∙ claim_found (has_handle v.handle) p v t a.valid at test,
    )

-- A service that `vchiq_add_service_internal` has made, in a state other than `free`, is found by its
-- handle: `find_service_by_handle` gives its port and takes one reference. (The table is valid before,
-- with at most `VCHIQ_MAX_SERVICES` services, and the number for the next handle is a multiple of that.)
pub add-find :
    (allocated : Bool) (params : Params) (srvstate : ServiceState) (owner userdata_term : ℕ)
    (s : Services)
    → IsValid s
    → s.unused_service ≤ max_services
    → s.handle_seq % 4096 ≡ 0
    → is_free srvstate ≡ false
    → let (r, t) = add_service allocated params srvstate owner userdata_term s in
      (r ≡ none)
      ⊎ ((p : ℕ) × (v : Service) × (r ≡ some p)
          × (t.services p ≡ some v)
          × (find_service_by_handle v.handle t ≡ some (some p, put p (some (held v)) t)))
add-find allocated params srvstate owner userdata_term s valid few whole live =
    elim (add_service_lem allocated params srvstate owner userdata_term s valid few) [
      | inl (nothing, unchanged, why) ↦ inl nothing
      | inr (p, there, allocated_now, added) ↦
          let t = (add_service allocated params srvstate owner userdata_term s).1 in
          let (v, at, found) = Added-find srvstate owner p s t whole live added in
          inr (p, v, there, at, found)
    ]
