-- ===== src/Slots/Send/Reserve.antt =====
-- `reserve_space` of ampi/vc4/vchiq/vchiq_core.c keeps the stream of messages whole.
use ampi.Base.{
  ℕ, suc, ◌+◌, ◌-◌, ◌*◌, ◌%◌, ◌≤◌, ◌<◌, ◌≡◌, ◌≢◌, ◌∙◌, refl, sym, ap, subst, Bool, true, false, ltb,
  ◌==◌, if◌then◌else◌, some, List, [], ◌∷◌, ◌++◌, dec_le, arith, Bool-cases, inl, inr, ==-refl,
  ==-eq-false, append-nil,
}
use ampi.Base.Words.{word, add32, sub32}
use ampi.Wait.{bind_lem}
use ampi.Sync.Semaphore.{down_trylock}
use ampi.Slots.{
  Sender, Slotted, calc_stride, offset, slot_address, slot_at, write_at, available_cell,
}
use ampi.Slots.Layout.{offset_lem, calc_stride_sum}
use ampi.Slots.Stream.{place, Walk, Walk-snoc, Walk-write, Distinct, messages, messages-append}
use ampi.Slots.Send.{pad, take_slot, stall, open_slot, in_new_slot, at_position, reserve_space}

-- Positions are multiples of the header, and `tx_data` is the slot of a position within a slot.
pub record IsReady (s : Sender) : Type 0 where
  pub aligned : s.local_tx_pos % 8 ≡ 0
  pub current :
      s.local_tx_pos % 4096 ≢ 0 → s.tx_data ≡ slot_address (slot_at s.slot_queue s.local_tx_pos)

-- The state of the stream from `p0` on: its messages, and room up to `far` for more.
pub record Stream (p0 far : ℕ) (ms : List Slotted) (s : Sender) : Type 0 where
  pub ready : IsReady s
  pub walk : Walk s.memory s.slot_queue ms p0 s.local_tx_pos
  pub distinct : Distinct s.slot_queue p0 far
  pub small : far < word

-- What `pad` leaves: a position `p` at which the message fits.
pub record Padded (p0 space : ℕ) (ms : List Slotted) (s : Sender) (p : ℕ) (t : Sender)
    : Type 0 where
  pub kept : t ≡ record s { memory = t.memory }
  pub near : (s.local_tx_pos ≤ p) × (p ≤ s.local_tx_pos + 4096)
  pub aligned : p % 8 ≡ 0
  pub fits : p % 4096 + space ≤ 4096
  pub current : p % 4096 ≢ 0 → s.tx_data ≡ slot_address (slot_at s.slot_queue p)
  pub padded : List Slotted
  pub walk : Walk t.memory s.slot_queue padded p0 p
  pub same : messages padded ≡ messages ms

-- What `reserve_space` leaves: `space` bytes at a position `p`, within one slot, whose header has the
-- address `address`.
pub record Reserved (p0 space : ℕ) (ms : List Slotted) (s : Sender) (p address : ℕ) (t : Sender)
    : Type 0 where
  pub kept : t ≡ record s {
    local_tx_pos = t.local_tx_pos;
    tx_data = t.tx_data;
    slot_available_event = t.slot_available_event;
    memory = t.memory;
    bugs = t.bugs;
  }
  pub near : (s.local_tx_pos ≤ p) × (p ≤ s.local_tx_pos + 4096)
  pub aligned : p % 8 ≡ 0
  pub fits : p % 4096 + space ≤ 4096
  pub place_lem : address ≡ place s.slot_queue p
  pub position : t.local_tx_pos ≡ p + space
  pub slot_lem : t.tx_data ≡ slot_address (slot_at s.slot_queue p)
  pub padded : List Slotted
  pub walk : Walk t.memory s.slot_queue padded p0 p
  pub same : messages padded ≡ messages ms

module _ (p0 far space : ℕ) (ms : List Slotted) (s : Sender) (v : Stream p0 far ms s)
    (even : space % 8 ≡ 0) (fits : space ≤ 4096) (room : s.local_tx_pos + 4096 + space ≤ far) where
  no_padding : s.local_tx_pos % 4096 + space ≤ 4096 → Padded p0 space ms s s.local_tx_pos s
  no_padding h = record {
    kept = refl;
    near = (omega arith, omega arith);
    aligned = v.ready.aligned;
    fits = h;
    current = v.ready.current;
    padded = ms;
    walk = v.walk;
    same = refl;
  }

  rest : ℕ
  rest = 4096 - s.local_tx_pos % 4096

  filler : Slotted
  filler = record (s.memory (place s.slot_queue s.local_tx_pos)) { msgid = 0; size = rest - 8 }

  filled : Sender
  filled = write_at (place s.slot_queue s.local_tx_pos) filler s

  padding :
      4096 < s.local_tx_pos % 4096 + space → Padded p0 space ms s (s.local_tx_pos + rest) filled
  unfolding rest filler filled write_at messages
  padding h =
      let low : 8 ≤ rest = omega (arith, v.ready.aligned) in
      let stride : calc_stride (rest - 8) ≡ rest =
        calc_stride_sum (rest - 8) (omega arith) ∙ omega (arith, v.ready.aligned) in
      let own : filled.memory (place s.slot_queue s.local_tx_pos) ≡ filler =
        rw (==-refl (place s.slot_queue s.local_tx_pos)) refl in
      record {
        kept = refl;
        near = (omega arith, omega arith);
        aligned = omega (arith, v.ready.aligned);
        fits = omega (arith, fits);
        current = λ ne. absurd (ne (omega arith));
        padded = ms ++ filler ∷ [];
        walk =
            subst (λ n. Walk filled.memory s.slot_queue (ms ++ filler ∷ []) p0 (s.local_tx_pos + n))
              stride
              (Walk-snoc filled.memory s.slot_queue ms filler p0 s.local_tx_pos
                (Walk-write s.memory s.slot_queue ms filler p0 s.local_tx_pos far v.distinct
                  (omega (arith, room)) v.walk)
                own (omega (arith, stride, low)) (omega (arith, stride)));
        same = messages-append ms (filler ∷ []) ∙ append-nil (messages ms);
      }

  pad_full : 4096 < s.local_tx_pos % 4096 + space → pad space s ≡ (s.local_tx_pos + rest, filled)
  unfolding pad rest filler filled place
  pad_full h =
      let off = offset_lem s.local_tx_pos in
      let test : ltb (4096 - s.local_tx_pos % 4096) space ≡ true = ground (arith, h) in
      let cur = v.ready.current (omega (arith, h, fits)) in
      let sum : add32 s.local_tx_pos rest ≡ s.local_tx_pos + rest = omega (arith, room, v.small) in
      let size : sub32 rest 8 ≡ rest - 8 = omega (arith, v.ready.aligned) in
      rw (pad, off, test, cur, sum, size) refl

  pad_none : s.local_tx_pos % 4096 + space ≤ 4096 → pad space s ≡ (s.local_tx_pos, s)
  unfolding pad
  pad_none h =
      let off = offset_lem s.local_tx_pos in
      let test : ltb (4096 - s.local_tx_pos % 4096) space ≡ false = ground (arith, h) in
      rw (pad, off, test) refl

  pad_lem : let (p, t) = pad space s in Padded p0 space ms s p t
  pad_lem = elim (dec_le (s.local_tx_pos % 4096 + space) 4096) [
    | yes h ↦ subst (λ r. Padded p0 space ms s r.0 r.1) (sym (pad_none h)) (no_padding h)
    | no h ↦
        subst (λ r. Padded p0 space ms s r.0 r.1) (sym (pad_full (omega (arith, h))))
          (padding (omega (arith, h)))
  ]

  -- `p` lies in the slot that is open already.
  within :
      (p : ℕ) (t : Sender)
      → Padded p0 space ms s p t
      → p % 4096 ≢ 0
      → Reserved p0 space ms s p
          (s.tx_data + offset p)
          (record s { memory = t.memory; local_tx_pos = add32 p space })
  unfolding place
  within p t h ne = record {
    kept = refl;
    near = h.near;
    aligned = h.aligned;
    fits = h.fits;
    place_lem = ap (λ d. d + offset p) (h.current ne);
    position = omega (arith, h.near, room, v.small);
    slot_lem = h.current ne;
    padded = h.padded;
    walk = h.walk;
    same = h.same;
  }

  -- `p` is the start of a new slot.
  opening :
      (p n b : ℕ) (t : Sender)
      → Padded p0 space ms s p t
      → Reserved p0 space ms s p (slot_address (slot_at s.slot_queue p) + offset p) (record s {
        memory = t.memory;
        local_tx_pos = add32 p space;
        tx_data = slot_address (slot_at s.slot_queue p);
        slot_available_event = n;
        bugs = b;
      })
  unfolding place
  opening p n b t h = record {
    kept = refl;
    near = h.near;
    aligned = h.aligned;
    fits = h.fits;
    place_lem = refl;
    position = omega (arith, h.near, room, v.small);
    slot_lem = refl;
    padded = h.padded;
    walk = h.walk;
    same = h.same;
  }

  take_slot_free :
      (t : Sender) (blocking : Bool) (p : ℕ) (env : List (Sender → Sender))
      → 0 < t.slot_available_event
      → take_slot blocking p t env
        ≡ some (true, record t { slot_available_event = t.slot_available_event - 1 }, env)
  unfolding take_slot down_trylock
  take_slot_free t blocking p env free =
      let taken : (t.slot_available_event == 0) ≡ false = ==-eq-false _ 0 (omega (arith, free)) in
      let r : down_trylock available_cell t
          ≡ (0, record t { slot_available_event = t.slot_available_event - 1 }) =
        rw (down_trylock, taken) refl in
      ap (λ r. stall blocking p r.0 r.1 env) r

  at_position_lem :
      (p : ℕ) (t : Sender) (blocking : Bool) (env : List (Sender → Sender))
      → Padded p0 space ms s p t
      → 0 < s.slot_available_event
      → (address : ℕ) × (u : Sender) × (at_position blocking p space (offset p == 0) t env
          ≡ some (some address, u, env))
        × Reserved p0 space ms s p address u
  unfolding take_slot open_slot down_trylock
  at_position_lem p t blocking env h free =
      let off = offset_lem p in
      let b = if p == s.slot_queue_available * 4096 then suc s.bugs else s.bugs in
      elim (Bool-cases (offset p == 0)) [
        | inl y ↦ (
          slot_address (slot_at s.slot_queue p) + offset p,
          record s {
            memory = t.memory;
            local_tx_pos = add32 p space;
            tx_data = slot_address (slot_at s.slot_queue p);
            slot_available_event = s.slot_available_event - 1;
            bugs = b;
          },
          rw (h.kept, y)
              (bind_lem (take_slot blocking p) (in_new_slot p space)
                (record s { memory = t.memory }) _
                (take_slot_free (record s { memory = t.memory }) blocking p env free)),
          opening p (s.slot_available_event - 1) b t h,
        )
        | inr n ↦ (
          s.tx_data + offset p,
          record s { memory = t.memory; local_tx_pos = add32 p space },
          rw (h.kept, n) refl,
          within p t h (ground (arith, n, off)),
        )
      ]

  -- With a free slot, `reserve_space` does not wait.
  pub reserve_space_lem :
      (blocking : Bool) (env : List (Sender → Sender))
      → 0 < s.slot_available_event
      → (p address : ℕ) × (t : Sender) × (reserve_space space blocking s env
          ≡ some (some address, t, env))
        × Reserved p0 space ms s p address t
  unfolding reserve_space
  reserve_space_lem blocking env free =
      let (p, t) = pad space s in
      let (address, u, e, r) = at_position_lem p t blocking env pad_lem free in
      (p, address, u, e, r)
