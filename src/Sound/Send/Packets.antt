-- ===== src/Sound/Send/Packets.antt =====
-- The packets of a buffer (the loop of `CVCHIQSoundBaseDevice_WriteChunk`), against a description
-- that counts them.
use ampi.Base.{
  ℕ, zero, suc, ◌+◌, ◌-◌, ◌*◌, ◌/◌, ◌%◌, ◌≤◌, ◌<◌, ◌≡◌, refl, ap, List, [], ◌∷◌, ◌++◌, true, false,
  ◌==◌, leb, if◌then◌else◌, ==-eq-false, dec_lt, arith, All, All-append,
}
use native.Mathlib.Nat.{div-add-mod, mod-lt}
use ampi.Sound.{Device, Calls, Payload, samples, message}
use ampi.Sound.Send.{msg_queue, send_packets}

-- `count` packets of `size` bytes each, from `address` on.
unfoldable pub full_packets : ℕ → ℕ → ℕ → List Payload
full_packets zero size address = []
full_packets (suc count) size address =
    samples address size ∷ full_packets count size (address + size)

-- The packet with what is left over, if anything is.
abbrev pub last_packet : ℕ → ℕ → List Payload
last_packet address zero = []
last_packet address (suc n) = samples address (suc n) ∷ []

-- `count` full packets and one of `left` bytes.
abbrev pieces : ℕ → ℕ → ℕ → ℕ → List Payload
pieces count left size address =
    full_packets count size address ++ last_packet (address + count * size) left

-- As many full packets as fit into `bytes`, then the rest.
unfoldable pub packets : ℕ → ℕ → ℕ → List Payload
packets size address bytes = pieces (bytes / size) (bytes % size) size address

module _ {W : Type 0} (c : Calls W) where
  -- Queue the payloads in their order, up to the first that is refused.
  unfoldable pub queue_all : List Payload → Device W → ℕ × Device W
  queue_all [] d = (0, d)
  queue_all (p ∷ ps) d =
      let sent = msg_queue c p d in
      let rest = queue_all ps sent.1 in if sent.0 == 0 then rest else sent

div_small : (m n : ℕ) → n < m → n / m ≡ 0
div_small m n h = grind arith

mod_small : (m n : ℕ) → n < m → n % m ≡ n
mod_small m n h = grind arith

div_step : (m n : ℕ) → 0 < m → m ≤ n → n / m ≡ suc ((n - m) / m)
div_step m n h k = grind arith

mod_step : (m n : ℕ) → 0 < m → m ≤ n → n % m ≡ (n - m) % m
mod_step m n h k = grind arith

packets_small :
    (size address bytes : ℕ) → bytes < size → packets size address bytes ≡ last_packet address bytes
unfolding packets full_packets
packets_small size address bytes h =
    rw (div_small size bytes h, mod_small size bytes h)
      (ap (λ a. last_packet a bytes) (omega arith))

packets_step :
    (size address bytes : ℕ)
    → 0 < size
    → size ≤ bytes
    → packets size address bytes
      ≡ samples address size ∷ packets size (address + size) (bytes - size)
unfolding packets full_packets
packets_step size address bytes h k =
    rw (div_step size bytes h k, mod_step size bytes h k)
      (ap
        (λ a.
          samples address size
          ∷ (full_packets ((bytes - size) / size) size (address + size)
              ++ last_packet a ((bytes - size) % size)))
        (omega arith))

leb-true : {m n : ℕ} → m < n → leb m n ≡ true
leb-true h = ground arith

leb-false : {m n : ℕ} → m < n → leb n m ≡ false
leb-false h = ground arith

leb_refl : (n : ℕ) → leb n n ≡ true
leb_refl n = ground arith

sub_self : (n : ℕ) → n - n ≡ 0
sub_self n = omega arith

module _ {W : Type 0} (c : Calls W) where
  -- One round of the loop, by whether the bytes left fill a packet.
  send_packets_full :
      (fuel size address bytes : ℕ) (d : Device W)
      → 0 < size
      → size ≤ bytes
      → let sent = msg_queue c (samples address size) d in
        send_packets c (suc fuel) size address bytes d ≡ (
          if sent.0 == 0
          then send_packets c fuel size (address + size) (bytes - size) sent.1
          else sent)
  unfolding send_packets
  send_packets_full fuel size address bytes d h k = elim (dec_lt size bytes) [
    | yes more ↦ rw (leb-false more, ==-eq-false bytes 0 (omega arith))
    | no only ↦
        let e : bytes ≡ size = omega arith in
        rw (e, leb_refl size, ==-eq-false size 0 (omega arith))
  ]

  send_packets_last :
      (fuel size address bytes : ℕ) (d : Device W)
      → 0 < bytes
      → bytes < size
      → let sent = msg_queue c (samples address bytes) d in
        send_packets c (suc fuel) size address bytes d
        ≡ (if sent.0 == 0 then send_packets c fuel size (address + bytes) 0 sent.1 else sent)
  unfolding send_packets
  send_packets_last fuel size address bytes d h k =
      rw (leb-true k, ==-eq-false bytes 0 (omega arith), sub_self bytes)

  send_packets_none :
      (fuel size address : ℕ) (d : Device W) → send_packets c fuel size address 0 d ≡ (0, d)
  unfolding send_packets
  send_packets_none zero size address d = refl
  send_packets_none (suc fuel) size address d = refl

  -- The loop queues exactly the counted packets, in order, up to the first that is refused,
  -- whenever the fuel is at least the number of bytes.
  pub send_packets_lem :
      (fuel size address bytes : ℕ) (d : Device W)
      → 0 < size
      → bytes ≤ fuel
      → send_packets c fuel size address bytes d ≡ queue_all c (packets size address bytes) d
  unfolding queue_all
  send_packets_lem fuel size address zero d h k =
      rw (send_packets_none fuel size address d, packets_small size address 0 h)
  send_packets_lem zero size address (suc n) d h k = elim k [ ]
  send_packets_lem (suc fuel) size address (suc n) d h k = elim (dec_lt (suc n) size) [
    | yes small ↦ rw (
      send_packets_last fuel size address (suc n) d (omega arith) small,
      packets_small size address (suc n) small,
      send_packets_none fuel size (address + suc n),
    )
    | no big ↦ rw (
      send_packets_full fuel size address (suc n) d h (omega arith),
      packets_step size address (suc n) h (omega arith),
      send_packets_lem fuel size (address + size) (suc n - size)
          (msg_queue c (samples address size) d).1 h (omega arith),
    )
  ]

abbrev pub payload_size : Payload → ℕ
payload_size (message m) = 0
payload_size (samples address n) = n

abbrev pub total_size : List Payload → ℕ
total_size [] = 0
total_size (p ∷ ps) = payload_size p + total_size ps

total_size-append : (ps qs : List Payload) → total_size (ps ++ qs) ≡ total_size ps + total_size qs
total_size-append [] qs = omega arith
total_size-append (p ∷ ps) qs = omega (arith, total_size-append ps qs)

total_size-full_packets :
    (count size address : ℕ) → total_size (full_packets count size address) ≡ count * size
unfolding full_packets
total_size-full_packets zero size address = omega arith
total_size-full_packets (suc count) size address =
    omega (arith, total_size-full_packets count size (address + size))

total_size-last_packet : (address n : ℕ) → total_size (last_packet address n) ≡ n
total_size-last_packet address zero = refl
total_size-last_packet address (suc n) = omega arith

-- No byte is left out and none is sent twice.
pub total_size-packets : (size address bytes : ℕ) → total_size (packets size address bytes) ≡ bytes
unfolding packets
total_size-packets size address bytes = omega (
  arith,
  total_size-append (full_packets (bytes / size) size address)
      (last_packet (address + bytes / size * size) (bytes % size)),
  total_size-full_packets (bytes / size) size address,
  total_size-last_packet (address + bytes / size * size) (bytes % size),
  div-add-mod bytes size,
)

abbrev pub Fits : ℕ → Payload → Type 0
Fits size p = (payload_size p ≤ size) × (0 < payload_size p)

full_packets-Fits :
    (count size address : ℕ) → 0 < size → All (Fits size) (full_packets count size address)
unfolding full_packets
full_packets-Fits zero size address h = tt
full_packets-Fits (suc count) size address h =
    ((omega arith, h), full_packets-Fits count size (address + size) h)

last_packet-Fits : (address n size : ℕ) → n < size → All (Fits size) (last_packet address n)
last_packet-Fits address zero size h = tt
last_packet-Fits address (suc n) size h = ((omega arith, omega arith), tt)

pub packets-Fits :
    (size address bytes : ℕ) → 0 < size → All (Fits size) (packets size address bytes)
unfolding packets
packets-Fits size address bytes h =
    All-append (Fits size) _ _ (full_packets-Fits _ size address h)
      (last_packet-Fits _ _ size (mod-lt bytes h))
