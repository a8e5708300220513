-- ===== src/Queue/Ring.antt =====
-- The part of a ring of `2^k` slots that holds the headers between two positions.
use ampi.Base.{
  ℕ, zero, suc, ◌+◌, ◌-◌, ◌*◌, ◌%◌, ◌^◌, ◌≤◌, ◌<◌, ◌≡◌, ◌≢◌, refl, ap, sym, ◌∙◌, List, [], ◌∷◌,
  ◌++◌, length, get_or, set, get_or-set_self, get_or-set_ne, arith,
}
use Prim.Native.Nat.{◌∣◌}
use native.Mathlib.Nat.{mod-mod_of_dvd, mod-add-mod, mod-lt, pow-suc, dvd-mul_left}
use mathlib.Core.Path.{subst}
use ampi.Base.Words.{word, pow_pos}

-- The `n` headers from position `h` on.
unfoldable pub window : List ℕ → ℕ → ℕ → ℕ → List ℕ
window storage size h zero = []
window storage size h (suc n) = get_or storage (h % size) 0 ∷ window storage size (h + 1) n

pub length-window : (storage : List ℕ) (size h n : ℕ) → length (window storage size h n) ≡ n
unfolding window
length-window storage size h zero = refl
length-window storage size h (suc n) = ap suc (length-window storage size (h + 1) n)

-- Two positions less than a round apart have different slots.
mod-ne : (m x d : ℕ) → 0 < d → d < m → (x + d) % m ≢ x % m
mod-ne m x d h k = λ e. grind arith

-- Only the slot of the first position counts.
pub window-mod :
    (storage : List ℕ) (size h h' n : ℕ)
    → h % size ≡ h' % size
    → window storage size h n ≡ window storage size h' n
unfolding window
window-mod storage size h h' zero e = refl
window-mod storage size h h' (suc n) e = rw (
  e,
  window-mod storage size (h + 1) (h' + 1) n
      (sym (mod-add-mod h size 1) ∙ (rw e (mod-add-mod h' size 1))),
)

-- A write behind the window leaves it alone.
window-set_out :
    (storage : List ℕ) (size h m n i v : ℕ)
    → n ≤ m
    → m < size
    → i ≡ (h + m) % size
    → window (set storage i v) size h n ≡ window storage size h n
unfolding window
window-set_out storage size h m zero i v l k e = refl
window-set_out storage size h zero (suc n) i v l k e = elim l [ ]
window-set_out storage size h (suc m) (suc n) i v l k e = rw (
  get_or-set_ne storage i (h % size) v 0
      (λ same. mod-ne size h (suc m) (omega arith) k (sym e ∙ same)),
  window-set_out storage size (h + 1) m n i v (omega arith) (omega arith)
      (e ∙ ap (λ t. t % size) (omega arith)),
)

window-snoc :
    (storage : List ℕ) (size h n : ℕ)
    → window storage size h (suc n)
      ≡ window storage size h n ++ get_or storage ((h + n) % size) 0 ∷ []
unfolding window
window-snoc storage size h zero = ap (λ t. get_or storage (t % size) 0 ∷ []) (omega arith)
window-snoc storage size h (suc n) = ap (◌∷◌ (get_or storage (h % size) 0)) (
    window-snoc storage size (h + 1) n
    ∙ ap (λ t. window storage size (h + 1) n ++ get_or storage (t % size) 0 ∷ []) (omega arith))

-- A write just behind the window makes it longer by what is written.
pub window-set :
    (storage : List ℕ) (size h n v : ℕ)
    → length storage ≡ size
    → n < size
    → window (set storage ((h + n) % size) v) size h (suc n) ≡ window storage size h n ++ v ∷ []
window-set storage size h n v l k =
    let i = (h + n) % size in
    window-snoc (set storage i v) size h n
    ∙ rw (
      window-set_out storage size h n n i v (omega arith) k refl,
      get_or-set_self storage i v 0 (rw l (mod-lt (h + n) (omega arith))),
    )

pow-+ : (d k : ℕ) → 2 ^ (d + k) ≡ 2 ^ d * 2 ^ k
pow-+ zero k = grind arith
pow-+ (suc d) k =
    let step : suc d + k ≡ suc (d + k) = omega arith in
    ap (λ n. 2 ^ n) step ∙ pow-suc 2 (d + k) ∙ grind (arith, pow-+ d k)

word-split : (k : ℕ) → k < 32 → word ≡ 2 ^ (32 - k) * 2 ^ k
word-split k h = let sum : 32 ≡ 32 - k + k = omega arith in ap (λ n. 2 ^ n) sum ∙ pow-+ (32 - k) k

-- A ring of `2^k` slots fits the wrap of the positions.
pub pow-dvd-word : (k : ℕ) → k < 32 → 2 ^ k ∣ word
pow-dvd-word k h =
    subst (λ n. 2 ^ k ∣ n) (sym (word-split k h)) (dvd-mul_left (2 ^ k) (2 ^ (32 - k)))

-- So a position may wrap round within a window.
pub wrap-mod : (k a : ℕ) → k < 32 → a % word % 2 ^ k ≡ a % 2 ^ k
wrap-mod k a h = mod-mod_of_dvd (2 ^ k) a (pow-dvd-word k h)

-- Twice the power is a power that still divides a word.
pub pow-lt-word : (k : ℕ) → k < 32 → 2 ^ k < word
pow-lt-word k h =
    let e = word-split k h in
    let index : 32 - k ≡ suc (31 - k) = omega arith in
    let two : 2 ^ (32 - k) ≡ 2 ^ (31 - k) * 2 = ap (λ n. 2 ^ n) index ∙ pow-suc 2 (31 - k) in
    grind (arith, pow_pos k, pow_pos (31 - k))
