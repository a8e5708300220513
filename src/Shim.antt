-- ===== src/Shim.antt =====
-- ampi/vc4/vchiq/vchiq_shim.c: the messages of a service as the users of VCHI read them, and the numbers
-- in a buffer.
pub mod Words
pub mod Ownership
pub mod Transfers
mod Tests
use ampi.Base.{
  ℕ, zero, suc, ◌+◌, ◌*◌, ◌/◌, ◌%◌, ◌^◌, Bool, true, false, not, ◌==◌, ltb, ◌&&◌, ◌||◌,
  if◌then◌else◌, Option, none, some, List, [], ◌∷◌,
}
use Prim.Native.Nat.{bit_and, bit_or}
use ampi.Queue.{Queue, is_empty, push, pop, peek}

-- `VCHI_FLAGS_NONE`
abbrev pub flags_none : ℕ
flags_none = 0

-- `SHIM_SERVICE_T`, with the headers that it has given back to `vchiq_release_message`, the last one first,
-- and what it has called back for, the last one first. The sizes of the messages are in `size_of`.
pub record Shim : Type 0 where
  pub handle : ℕ
  pub queue : Queue
  pub has_callback : Bool
  pub released : List ℕ
  pub callbacks : List (ℕ × ℕ)
  pub size_of : ℕ → ℕ

-- `vchiq_release_message`
abbrev pub give_back : ℕ → Shim → Shim
give_back header m = record m { released = header ∷ m.released }

-- `vchiu_queue_pop` and `vchiu_queue_peek`, when nobody else runs: `none` says that the task waits, or that
-- the fuel is spent.
unfoldable pub pop_message : ℕ → Shim → Option (ℕ × Shim)
pop_message fuel m = elim (pop fuel m.queue []) [
  | none ↦ none
  | some (header, q, rest) ↦ some (header, record m { queue = q })
]

unfoldable pub peek_message : ℕ → Shim → Option (ℕ × Shim)
peek_message fuel m = elim (peek fuel m.queue []) [
  | none ↦ none
  | some (header, q, rest) ↦ some (header, record m { queue = q })
]

-- Without a message, and with no flags, the result is -1, here `none`; otherwise the header is used.
unfoldable pub with_message :
    {A : Type 0} → ℕ → Shim → Option (ℕ × Shim) → (ℕ → Shim → A × Shim) → Option (Option A × Shim)
with_message {A = A} flags m taken f =
    let used : Option (Option A × Shim) = elim taken [
      | none ↦ none
      | some (header, n) ↦ let (a, n') = f header n in some (some a, n')
    ] in
    if flags == flags_none && is_empty m.queue then some (none, m) else used

-- `vchi_msg_peek`: the header, whose data is used in place, and the size
unfoldable pub msg_peek : ℕ → ℕ → Shim → Option (Option (ℕ × ℕ) × Shim)
msg_peek fuel flags m =
    with_message flags m (peek_message fuel m) (λ header n. ((header, n.size_of header), n))

-- `vchi_msg_remove`
unfoldable pub msg_remove : ℕ → Shim → Option Shim
msg_remove fuel m = elim (pop_message fuel m) [
  | none ↦ none
  | some (header, n) ↦ some (give_back header n)
]

-- `vchi_msg_dequeue`: the header from which the data is copied, the number of bytes, and the actual size
unfoldable pub msg_dequeue : ℕ → ℕ → ℕ → Shim → Option (Option (ℕ × ℕ × ℕ) × Shim)
msg_dequeue fuel flags max_size m = with_message flags m (pop_message fuel m) (λ header n.
    let size = n.size_of header in
    ((header, (if ltb size max_size then size else max_size), size), give_back header n))

-- `vchi_msg_hold`: the header, which is held, and the size
unfoldable pub msg_hold : ℕ → ℕ → Shim → Option (Option (ℕ × ℕ) × Shim)
msg_hold fuel flags m =
    with_message flags m (pop_message fuel m) (λ header n. ((header, n.size_of header), n))

-- `vchi_held_msg_release`
unfoldable pub held_msg_release : ℕ → Shim → Shim
held_msg_release header m = give_back header m

-- `VCHIQ_REASON_T`
pub data VchiqReason : Type 0 where
  service_opened service_closed message_available bulk_transmit_done bulk_receive_done
        bulk_transmit_aborted bulk_receive_aborted :
      VchiqReason

-- The reason, of `VCHI_CALLBACK_REASON_T` with `USE_VCHIQ_ARM`, and the data for the callback of the user;
-- `none` says that there is no callback.
unfoldable pub told : VchiqReason → ℕ → Option (ℕ × ℕ)
told service_opened bulk_user = none
told message_available bulk_user = some (1, 0)
told bulk_receive_done bulk_user = some (4, bulk_user)
told bulk_transmit_done bulk_user = some (5, bulk_user)
told service_closed bulk_user = some (8, 0)
told bulk_receive_aborted bulk_user = some (18, bulk_user)
told bulk_transmit_aborted bulk_user = some (19, bulk_user)

abbrev pub call_back : Option (ℕ × ℕ) → Shim → Shim
call_back none m = m
call_back (some c) m = record m { callbacks = c ∷ m.callbacks }

-- A message that has come is kept in the queue. `none` says that the task waits for a place.
unfoldable pub keep_message : ℕ → ℕ → Shim → Option Shim
keep_message fuel header m = elim (push fuel header m.queue []) [
  | none ↦ none
  | some (u, q, rest) ↦ some (call_back (told message_available 0) (record m { queue = q }))
]

-- `shim_callback`. For the reasons without a message the header is the null pointer, which is released too.
unfoldable pub shim_callback : ℕ → VchiqReason → ℕ → ℕ → Shim → Option Shim
shim_callback fuel reason header bulk_user m =
    let kept = keep_message fuel header m in
    let other = some (give_back header (call_back (told reason bulk_user) m)) in
    let called : Option Shim = elim reason [
      | service_opened ↦ other
      | service_closed ↦ other
      | message_available ↦ kept
      | bulk_transmit_done ↦ other
      | bulk_receive_done ↦ other
      | bulk_transmit_aborted ↦ other
      | bulk_receive_aborted ↦ other
    ] in
    if m.has_callback then called else some (give_back header m)

-- `vchi_readbuf_uint32` and `vchi_writebuf_uint32`
unfoldable pub readbuf_uint32 : ℕ × ℕ × ℕ × ℕ → ℕ
readbuf_uint32 (a, b, c, d) = bit_or (bit_or (bit_or a (b * 2 ^ 8)) (c * 2 ^ 16)) (d * 2 ^ 24)

abbrev pub byte : ℕ → ℕ → ℕ
byte shift value = bit_and (value / 2 ^ shift) 0xff

unfoldable pub writebuf_uint32 : ℕ → ℕ × ℕ × ℕ × ℕ
writebuf_uint32 value = (byte 0 value, byte 8 value, byte 16 value, byte 24 value)

-- `vchi_readbuf_uint16` and `vchi_writebuf_uint16`
unfoldable pub readbuf_uint16 : ℕ × ℕ → ℕ
readbuf_uint16 (a, b) = bit_or a (b * 2 ^ 8)

unfoldable pub writebuf_uint16 : ℕ → ℕ × ℕ
writebuf_uint16 value = (byte 0 value, byte 8 value)
