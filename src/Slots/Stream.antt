-- ===== src/Slots/Stream.antt =====
-- The messages that lie in the slots one behind the other, from one position of the stream to
-- another.
use ampi.Base.{
  ℕ, ◌+◌, ◌*◌, ◌/◌, ◌%◌, ◌≤◌, ◌<◌, ◌≡◌, ◌≢◌, ◌∙◌, refl, sym, ap, List, [], ◌∷◌, ◌++◌, ◌==◌,
  if◌then◌else◌, arith, Bool-cases, inl, inr, ==-eq-false,
}
use ampi.Slots.{Slotted, calc_stride, offset, slot_address, slot_at, msgid_padding}
use ampi.Slots.Layout.{offset_lem}

-- The address of the header at a position.
unfoldable pub place : (ℕ → ℕ) → ℕ → ℕ
place queue pos = slot_address (slot_at queue pos) + offset pos

module _ (memory : ℕ → Slotted) (queue : ℕ → ℕ) where
  -- The messages from position `p` to position `e`, each within a slot.
  unfoldable pub Walk : List Slotted → ℕ → ℕ → Type 0
  Walk [] p e = p ≡ e
  Walk (m ∷ ms) p e =
      (memory (place queue p) ≡ m)
      × (8 ≤ calc_stride m.size)
      × (p % 4096 + calc_stride m.size ≤ 4096)
      × Walk ms (p + calc_stride m.size) e

  pub Walk-le : (ms : List Slotted) (p e : ℕ) → Walk ms p e → p ≤ e
  unfolding Walk
  Walk-le [] p e h = omega (arith, h)
  Walk-le (m ∷ ms) p e h = omega (arith, Walk-le ms (p + calc_stride m.size) e h.3)

  pub Walk-snoc :
      (ms : List Slotted) (m : Slotted) (p e : ℕ)
      → Walk ms p e
      → memory (place queue e) ≡ m
      → 8 ≤ calc_stride m.size
      → e % 4096 + calc_stride m.size ≤ 4096
      → Walk (ms ++ m ∷ []) p (e + calc_stride m.size)
  unfolding Walk
  Walk-snoc [] m p e h at low high =
      (ap (λ q. memory (place queue q)) h ∙ at, low, rw h high, ap (λ q. q + calc_stride m.size) h)
  Walk-snoc (n ∷ ms) m p e (a, b, c, h) at low high =
      (a, b, c, Walk-snoc ms m (p + calc_stride n.size) e h at low high)

-- A walk sees only the memory at its positions.
pub Walk-frame :
    (memory memory' : ℕ → Slotted) (queue queue' : ℕ → ℕ) (ms : List Slotted) (p e : ℕ)
    → ((q : ℕ) → p ≤ q → q < e → memory' (place queue' q) ≡ memory (place queue q))
    → Walk memory queue ms p e
    → Walk memory' queue' ms p e
unfolding Walk
Walk-frame memory memory' queue queue' [] p e same h = h
Walk-frame memory memory' queue queue' (m ∷ ms) p e same (a, b, c, h) =
    let far = Walk-le memory queue ms (p + calc_stride m.size) e h in
    (
      same p (omega arith) (omega (arith, far, b)) ∙ a,
      b,
      c,
      Walk-frame memory memory' queue queue' ms (p + calc_stride m.size) e
          (λ q l k. same q (omega (arith, l)) k) h,
    )

-- No slot comes twice between two positions.
abbrev pub Distinct : (ℕ → ℕ) → ℕ → ℕ → Type 0
Distinct queue p e =
    (a b : ℕ)
    → p ≤ a
    → a ≤ e
    → p ≤ b
    → b ≤ e
    → slot_at queue a ≡ slot_at queue b
    → a / 4096 ≡ b / 4096

-- Then two positions have two addresses.
pub place-ne :
    (queue : ℕ → ℕ) (p e a b : ℕ)
    → Distinct queue p e
    → p ≤ a
    → a < b
    → b ≤ e
    → place queue a ≢ place queue b
unfolding place
place-ne queue p e a b d l h k eq =
    let sums : slot_at queue a * 4096 + a % 4096 ≡ slot_at queue b * 4096 + b % 4096 =
      ap (λ n. slot_at queue a * 4096 + n) (sym (offset_lem a))
      ∙ eq
      ∙ ap (λ n. slot_at queue b * 4096 + n) (offset_lem b) in
    let same : slot_at queue a ≡ slot_at queue b = omega (arith, sums) in
    let index = d a b l (omega (arith, h, k)) (omega (arith, l, h)) k same in
    omega (arith, sums, index, h)

-- Another message may be written at the end without a change to those before.
pub Walk-write :
    (memory : ℕ → Slotted) (queue : ℕ → ℕ) (ms : List Slotted) (m : Slotted) (p e far : ℕ)
    → Distinct queue p far
    → e ≤ far
    → Walk memory queue ms p e
    → Walk (λ a. if a == place queue e then m else memory a) queue ms p e
Walk-write memory queue ms m p e far d h w =
    Walk-frame memory _ queue queue ms p e
      (λ q l k.
        rw (==-eq-false (place queue q) (place queue e) (place-ne queue p far q e d l k h)) refl)
      w

-- The messages that are not padding.
unfoldable pub messages : List Slotted → List Slotted
messages [] = []
messages (m ∷ ms) = if m.msgid == msgid_padding then messages ms else m ∷ messages ms

pub messages-append : (ms ns : List Slotted) → messages (ms ++ ns) ≡ messages ms ++ messages ns
unfolding messages
messages-append [] ns = refl
messages-append (m ∷ ms) ns = elim (Bool-cases (m.msgid == msgid_padding)) [
  | inl y ↦ rw (messages, y) (messages-append ms ns)
  | inr n ↦ rw (messages, n) (ap (λ l. m ∷ l) (messages-append ms ns))
]
