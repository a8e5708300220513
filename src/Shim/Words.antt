-- ===== src/Shim/Words.antt =====
-- The numbers that ampi/vc4/vchiq/vchiq_shim.c writes into a buffer, and reads from it.
use ampi.Base.{ℕ, ◌+◌, ◌*◌, ◌/◌, ◌%◌, ◌^◌, ◌<◌, ◌≡◌, ◌∙◌, ap, arith}
use Prim.Native.Nat.{bit_or}
use ampi.Base.Words.{word, bit_and_mask}
use ampi.Base.Bits.{bit_or_below}
use ampi.Shim.{byte, readbuf_uint32, writebuf_uint32}

byte_lem : (shift value : ℕ) → byte shift value ≡ value / 2 ^ shift % 256
byte_lem shift value = bit_and_mask 8 (value / 2 ^ shift)

join2 : (a b : ℕ) → a < 256 → bit_or a (b * 2 ^ 8) ≡ a + b * 256
join2 a b h = bit_or_below 8 b a (omega (arith, h))

join4 :
    (a b c d : ℕ)
    → a < 256
    → b < 256
    → c < 256
    → readbuf_uint32 (a, b, c, d) ≡ a + b * 256 + c * 65536 + d * 16777216
unfolding readbuf_uint32
join4 a b c d h i j =
    ap (λ x. bit_or (bit_or x (c * 2 ^ 16)) (d * 2 ^ 24)) (join2 a b h)
    ∙ ap (λ x. bit_or x (d * 2 ^ 24)) (bit_or_below 16 c (a + b * 256) (omega (arith, h, i)))
    ∙ bit_or_below 24 d (a + b * 256 + c * 65536) (omega (arith, h, i, j))

-- A 32-bit number that is written into a buffer is read from it.
pub readbuf-writebuf : (value : ℕ) → value < word → readbuf_uint32 (writebuf_uint32 value) ≡ value
unfolding writebuf_uint32
readbuf-writebuf value h =
    let a = byte_lem 0 value in
    let b = byte_lem 8 value in
    let c = byte_lem 16 value in
    let d = byte_lem 24 value in
    join4 (byte 0 value) (byte 8 value) (byte 16 value) (byte 24 value) (omega (arith, a))
      (omega (arith, b)) (omega (arith, c))
    ∙ omega (arith, a, b, c, d, h)
