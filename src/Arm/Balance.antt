-- ===== src/Arm/Balance.antt =====
-- The count of all uses in ampi/vc4/vchiq/vchiq_arm.c is the sum of the counts of the entities.
use ampi.Base.{
  ℕ, zero, suc, ◌+◌, ◌≤◌, ◌<◌, ◌≡◌, ◌≢◌, ◌∙◌, refl, sym, ap, Option, some, List, arith, ℕ_discrete,
}
use ampi.Base.Words.{word}
use ampi.Slots.Send.{Status, success}
use ampi.Arm.{ArmState, UseType}
use ampi.Arm.Use.{Entity, peer, service, entity_uc, use_entity, use_internal}
use ampi.Arm.Count.{Used}
use ampi.Arm.Uses.{IsAwake, use_internal_lem}

-- The uses of the services at the first `n` ports
unfoldable pub total : (ℕ → ℕ) → ℕ → ℕ
total count zero = 0
total count (suc n) = total count n + count n

-- The uses are those of the peer and of the services at the first `n` ports.
pub record IsBalanced (n : ℕ) (s : ArmState) : Type 0 where
  pub sum : s.videocore_use_count ≡ s.peer_use_count + total s.service_use_count n
  pub small : s.videocore_use_count + 1 < word

-- Entities that are counted
abbrev pub IsCounted : ℕ → Entity → Type 0
IsCounted n e = (port : ℕ) → e ≡ service port → port < n

total-same : (n : ℕ) (f g : ℕ → ℕ) → ((i : ℕ) → i < n → g i ≡ f i) → total g n ≡ total f n
unfolding total
total-same zero f g h = refl
total-same (suc n) f g h =
    omega (arith, total-same n f g (λ i l. h i (omega (arith, l))), h n (omega arith))

total-update :
    (n p : ℕ) (f g : ℕ → ℕ)
    → p < n
    → g p ≡ f p + 1
    → ((i : ℕ) → i ≢ p → g i ≡ f i)
    → total g n ≡ total f n + 1
unfolding total
total-update zero p f g l own others = elim l [ ]
total-update (suc n) p f g l own others = elim (ℕ_discrete n p) [
  | yes e ↦
      let here : g n ≡ f n + 1 = ap g e ∙ own ∙ ap (λ i. f i + 1) (sym e) in
      omega (arith, total-same n f g (λ i k. others i (λ z. omega (arith, z, k, e))), here)
  | no ne ↦ omega (arith, total-update n p f g (omega (arith, l, ne)) own others, others n ne)
]

le-total : (n p : ℕ) (f : ℕ → ℕ) → p < n → f p ≤ total f n
unfolding total
le-total zero p f l = elim l [ ]
le-total (suc n) p f l = elim (ℕ_discrete n p) [
  | yes e ↦ let here : f n ≡ f p = ap f e in omega (arith, here)
  | no ne ↦ omega (arith, le-total n p f (omega (arith, l, ne)))
]

-- Different entities have different numbers.
abbrev pub number : Entity → ℕ
number peer = 0
number (service port) = suc port

Used-sum :
    (n : ℕ) (e : Entity) (s t : ArmState)
    → IsBalanced n s
    → IsCounted n e
    → Used e s t
    → t.videocore_use_count ≡ t.peer_use_count + total t.service_use_count n
unfolding entity_uc
Used-sum n peer s t v c u =
    let services =
      total-same n s.service_use_count t.service_use_count
        (λ i l. u.others (service i) (λ z. omega (arith, ap number z))) in
    omega (arith, u.all, u.own, services, v.sum, v.small)
Used-sum n (service p) s t v c u =
    let l = c p refl in
    let near = le-total n p s.service_use_count l in
    let own : t.service_use_count p ≡ s.service_use_count p + 1 =
      omega (arith, u.own, near, v.sum, v.small) in
    let services =
      total-update n p s.service_use_count t.service_use_count l own
        (λ i ne. u.others (service i) (λ z. ne (omega (arith, ap number z)))) in
    let others = u.others peer (λ z. omega (arith, ap number z)) in
    omega (arith, u.all, services, others, v.sum, v.small)

-- A use while VideoCore is awake keeps the count of all uses in step with those of the peer and of the
-- services at the first `n` ports, one of which it is for. (The count of all uses does not wrap.)
pub use_internal-sum :
    (send : ArmState → Status × ArmState) (fuel : ℕ) (use_type : UseType) (port : Option ℕ) (n : ℕ)
    (e : Entity) (s : ArmState) (env : List (ArmState → ArmState))
    → IsAwake s
    → IsBalanced n s
    → use_entity use_type port ≡ some e
    → IsCounted n e
    → (t : ArmState) × (use_internal send (suc fuel) use_type port s env ≡ some (success, t, env))
      × (t.videocore_use_count ≡ s.videocore_use_count + 1)
      × (t.videocore_use_count ≡ t.peer_use_count + total t.service_use_count n)
use_internal-sum send fuel use_type port n e s env awake v h c =
    let (t, run, used, lock) = (use_internal_lem send fuel use_type port s env awake).1 e h in
    (t, run, omega (arith, used.all, v.small), Used-sum n e s t v c used)
