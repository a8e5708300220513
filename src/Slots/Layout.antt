-- ===== src/Slots/Layout.antt =====
-- Message identifiers, and where messages lie in the slots.
use ampi.Base.{ℕ, ◌+◌, ◌*◌, ◌/◌, ◌%◌, ◌^◌, ◌≤◌, ◌<◌, ◌≡◌, ◌∙◌, ap, arith}
use Prim.Native.Nat.{bit_or}
use ampi.Base.Words.{word, bit_and_mask}
use ampi.Base.Bits.{bit_or_join, bit_and_range}
use ampi.Slots.{
  make_msg, msg_type, msg_srcport, msg_dstport, calc_stride, offset, slot_at, index_of,
}

make_msg_sum :
    (type srcport dstport : ℕ)
    → srcport < 4096
    → dstport < 4096
    → make_msg type srcport dstport ≡ type * 2 ^ 24 + srcport * 2 ^ 12 + dstport
unfolding make_msg
make_msg_sum type srcport dstport h k =
    let high : type * 2 ^ 24 + srcport * 2 ^ 12 ≡ (type * 2 ^ 12 + srcport) * 2 ^ 12 =
      omega arith in
    ap (λ m. bit_or m dstport) (bit_or_join 24 type (srcport * 2 ^ 12) (omega (arith, h)) ∙ high)
    ∙ bit_or_join 12 (type * 2 ^ 12 + srcport) dstport (omega (arith, k))
    ∙ omega arith

-- The type and the two ports of a message come back out of its identifier, for ports below 4096.
make_msg_fields :
    (type srcport dstport : ℕ)
    → srcport < 4096
    → dstport < 4096
    → let msgid = make_msg type srcport dstport in
      (msg_type msgid ≡ type) × (msg_srcport msgid ≡ srcport) × (msg_dstport msgid ≡ dstport)
unfolding msg_type msg_srcport msg_dstport
make_msg_fields type srcport dstport h k =
    let sum = make_msg_sum type srcport dstport h k in
    (
      rw sum (omega (arith, h, k)),
      bit_and_mask 12 _ ∙ rw sum (omega (arith, h, k)),
      bit_and_mask 12 _ ∙ rw sum (omega (arith, h, k)),
    )

pub calc_stride_sum : (size : ℕ) → size + 16 < word → calc_stride size ≡ (size + 15) / 8 * 8
unfolding calc_stride
calc_stride_sum size h = bit_and_range 3 29 _ ∙ omega (arith, h)

-- The space for a message is a multiple of the header, holds the header and the data, and is less
-- than a header longer; for sizes that do not wrap.
pub calc_stride_bounds :
    (size : ℕ)
    → size + 16 < word
    → (calc_stride size % 8 ≡ 0) × (size + 8 ≤ calc_stride size) × (calc_stride size < size + 16)
calc_stride_bounds size h = rw (calc_stride_sum size h) (omega arith, omega arith, omega arith)

pub offset_lem : (pos : ℕ) → offset pos ≡ pos % 4096
unfolding offset
offset_lem pos = bit_and_mask 12 pos

pub slot_at_lem : (queue : ℕ → ℕ) (pos : ℕ) → slot_at queue pos ≡ queue (pos / 4096 % 64)
unfolding slot_at
slot_at_lem queue pos = ap queue (bit_and_mask 6 (index_of pos))
