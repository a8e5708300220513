-- ===== src/Critical/Cache.antt =====
-- `linuxemu_CleanAndInvalidateDataCacheRange` of ampi/linux/synchronize.c. The three versions
-- differ in the length of a cache line, 32 bytes on the first model and 64 on the others, and in
-- the width of the addresses (32 bits here).
use ampi.Base.{
  ℕ, zero, suc, ◌+◌, ◌-◌, ◌*◌, ◌/◌, ◌≡◌, ◌≤◌, ◌<◌, ◌⊎◌, inl, inr, ap, ◌∙◌, Option, none, some, List,
  [], ◌∷◌, ltb, if◌then◌else◌, get_elem?, arith, true, false,
}
use mathlib.Core.Option
use ampi.Base.Words.{add32, word}

-- The loop: the addresses whose lines are cleaned and invalidated. `none` says that the fuel is
-- spent.
unfoldable pub clean_loop : ℕ → ℕ → ℕ → ℕ → Option (List ℕ)
clean_loop zero line address length = none
clean_loop (suc fuel) line address length =
    let rest = clean_loop fuel line (add32 address line) (length - line) in
    if ltb length line then some (address ∷ []) else Option.map (λ l. address ∷ l) rest

unfoldable pub clean_range : ℕ → ℕ → ℕ → ℕ → Option (List ℕ)
clean_range fuel line address length = clean_loop fuel line address (add32 length line)

-- The addresses of `n` lines from `address` on.
unfoldable pub lines : ℕ → ℕ → ℕ → List ℕ
lines zero line address = []
lines (suc n) line address = address ∷ lines n line (address + line)

abbrev pub IsLine : ℕ → Type 0
IsLine line = (line ≡ 32) ⊎ (line ≡ 64)

clean_loop_lem :
    (n fuel line address length : ℕ)
    → n * line ≤ length
    → length < suc n * line
    → n < fuel
    → address + n * line < word
    → clean_loop fuel line address length ≡ some (lines (suc n) line address)
unfolding clean_loop lines
clean_loop_lem n zero line address length a b c d = elim c [ ]
clean_loop_lem zero (suc fuel) line address length a b c d =
    let e : ltb length line ≡ true = ground arith in rw e
clean_loop_lem (suc n) (suc fuel) line address length a b c d =
    let e : ltb length line ≡ false = grind arith in
    let next : add32 address line ≡ address + line = grind arith in
    rw (
      e,
      next,
      clean_loop_lem n fuel line (address + line) (length - line) (omega arith) (omega arith)
          (omega arith) (omega arith),
    )

get_elem?-lines :
    (n line address k : ℕ) → k < n → get_elem? (lines n line address) k ≡ some (address + k * line)
unfolding lines
get_elem?-lines zero line address k h = elim h [ ]
get_elem?-lines (suc n) line address zero h = ap some (omega arith)
get_elem?-lines (suc n) line address (suc k) h =
    get_elem?-lines n line (address + line) k (omega arith) ∙ ap some (omega arith)

-- The lines of some addresses hold every byte of a range.
abbrev pub Covers : ℕ → List ℕ → ℕ → ℕ → Type 0
Covers line xs address length =
    (i : ℕ)
    → i < length
    → (k : ℕ) × (x : ℕ) × (get_elem? xs k ≡ some x) × (x / line ≡ (address + i) / line)

-- The loop ends within `length / 32 + 3` rounds, and the lines that it has cleaned hold every
-- byte of the range, also of one that begins or ends within a line; for a range that does not reach
-- the end of the address space, and its length plus a line fits a word.
pub clean_range-Covers :
    (fuel line address length : ℕ)
    → IsLine line
    → length / 32 + 2 < fuel
    → address + length + 2 * line < word
    → (xs : List ℕ) × (clean_range fuel line address length ≡ some xs)
      × Covers line xs address length
unfolding clean_range
clean_range-Covers fuel line address length (inl e) f h =
    let wrap : add32 length 32 ≡ length + 32 = omega arith in
    rw (e, wrap)
      (
        lines (suc (length / 32 + 1)) 32 address,
        clean_loop_lem (length / 32 + 1) fuel 32 address (length + 32) (omega arith) (omega arith)
            (omega arith) (omega arith),
        λ i l. (
          (address + i) / 32 - address / 32,
          _,
          get_elem?-lines _ 32 address _ (omega arith),
          omega arith,
        ),
      )
clean_range-Covers fuel line address length (inr e) f h =
    let wrap : add32 length 64 ≡ length + 64 = omega arith in
    rw (e, wrap)
      (
        lines (suc (length / 64 + 1)) 64 address,
        clean_loop_lem (length / 64 + 1) fuel 64 address (length + 64) (omega arith) (omega arith)
            (omega arith) (omega arith),
        λ i l. (
          (address + i) / 64 - address / 64,
          _,
          get_elem?-lines _ 64 address _ (omega arith),
          omega arith,
        ),
      )
