-- ===== src/Slots/Receive/Steps.antt =====
-- What the steps of a round of `parse_rx_slots` of ampi/vc4/vchiq/vchiq_core.c leave alone.
use ampi.Base.{
  ℕ, ◌+◌, ◌*◌, ◌/◌, ◌%◌, ◌^◌, ◌≤◌, ◌<◌, ◌≡◌, ◌≢◌, ◌∙◌, refl, sym, true, ◌==◌, if◌then◌else◌, none,
  some, List, [], ◌∷◌, ◌⊎◌, inl, inr, arith, Bool-cases, ==-eq-false,
}
use Prim.Native.Nat.{bit_or}
use ampi.Base.Words.{word, bit_and_mask}
use ampi.Slots.{Slotted, msg_type, msg_data, offset, slot_address, slot_at}
use ampi.Slots.Layout.{offset_lem, slot_at_lem}
use ampi.Slots.Stream.{place, Walk}
use ampi.Slots.Receive.{
  Receiver, Handlers, msgid_claimed, claim_slot, recycle, count_release, open_rx, on_data, dispatch,
}

-- Two positions have two addresses.
abbrev pub Apart : (ℕ → ℕ) → ℕ → ℕ → Type 0
Apart queue p e = (a b : ℕ) → p ≤ a → a < b → b < e → place queue a ≢ place queue b

module _ {C : Type 0} where
  -- Between two slots none is open; within a slot, it is the one for the position.
  abbrev pub Opened : Receiver C → Type 0
  Opened r =
      (r.rx_data ≡ none) × (r.rx_pos % 4096 ≡ 0)
      ⊎ (r.rx_data ≡ some (slot_address (slot_at r.remote_queue r.rx_pos)))

  -- The messages `ms` lie before the reader, up to the position `e`: in slots that the other side has
  -- been given, and less than the queue of slots ahead.
  pub record Readable (ms : List Slotted) (e : ℕ) (r : Receiver C) : Type 0 where
    pub walk : Walk r.memory r.remote_queue ms r.rx_pos e
    pub apart : Apart r.remote_queue r.rx_pos e
    pub small : e < word
    pub given : e ≤ r.slot_queue_recycle * 4096
    pub window : r.slot_queue_recycle < r.rx_pos / 4096 + 64
    pub opened : Opened r

  -- What one message does to the rest of the state.
  unfoldable pub handle : Handlers C → Slotted → C → C
  handle h m c =
      if msg_type m.msgid == msg_data
      then if h.takes m c
        then (h.available (record m { msgid = bit_or m.msgid msgid_claimed }) c).1
        else c
      else (h.other m c).1

  -- All messages, one after the other
  unfoldable pub handle_all : Handlers C → List Slotted → C → C
  handle_all h [] c = c
  handle_all h (m ∷ ms) c = handle_all h ms (handle h m c)

  -- No handler asks for a retry.
  pub record Accepts (h : Handlers C) : Type 0 where
    pub data_done : (m : Slotted) (c : C) → (h.available m c).0 ≡ true
    pub other_done : (m : Slotted) (c : C) → (h.other m c).0 ≡ true

  -- What stays the same when a message is handled.
  pub record Handled (address : ℕ) (c : C) (r u : Receiver C) : Type 0 where
    pub kept : u ≡ record r { memory = u.memory; infos = u.infos; client = c }
    pub others : (a : ℕ) → a ≢ address → u.memory a ≡ r.memory a

  pub dispatch-Handled :
      (h : Handlers C) (address : ℕ) (m : Slotted) (r : Receiver C)
      → Accepts h
      → let (done, u) = dispatch h address m r in
        (done ≡ true) × Handled address (handle h m r.client) r u
  unfolding dispatch on_data claim_slot handle
  dispatch-Handled h address m r ok = elim (Bool-cases (msg_type m.msgid == msg_data)) [
    | inl y ↦ elim (Bool-cases (h.takes m r.client)) [
      | inl t ↦
          rw (y, t)
            (
              ok.data_done _ r.client,
              record { kept = refl; others = λ a ne. rw (==-eq-false a address ne) refl },
            )
      | inr f ↦ rw (y, f) (refl, record { kept = refl; others = λ a ne. refl })
    ]
    | inr n ↦ rw n (ok.other_done m r.client, record { kept = refl; others = λ a ne. refl })
  ]

  -- What stays the same when a slot is released: its place in the queue is one that the positions
  -- before it do not have.
  pub record Released (r u : Receiver C) : Type 0 where
    pub kept : u ≡ record r {
      infos = u.infos;
      remote_queue = u.remote_queue;
      slot_queue_recycle = u.slot_queue_recycle;
      signals = u.signals;
    }
    pub queue :
        (q : ℕ)
        → q < r.slot_queue_recycle * 4096
        → r.slot_queue_recycle < q / 4096 + 64
        → slot_at u.remote_queue q ≡ slot_at r.remote_queue q
    pub later :
        (r.slot_queue_recycle ≤ u.slot_queue_recycle)
        × (u.slot_queue_recycle ≤ r.slot_queue_recycle + 1)

  pub count_release-Released :
      (index : ℕ) (r : Receiver C)
      → r.slot_queue_recycle + 1 < word
      → Released r (count_release index r)
  unfolding count_release recycle
  count_release-Released index r small =
      elim (Bool-cases
        (((r.infos index).release_count + 1) % 2 ^ 16 == (r.infos index).use_count)) [
          | inl y ↦ rw y (record {
            kept = refl;
            queue = λ q l k.
                let other : q / 4096 % 64 ≢ r.slot_queue_recycle % 64 =
                  λ e. omega (arith, e, l, k) in
                slot_at_lem _ q
                ∙ rw (bit_and_mask 6 r.slot_queue_recycle, ==-eq-false _ _ other) refl
                ∙ sym (slot_at_lem r.remote_queue q);
            later = (omega (arith, small), omega (arith, small));
          })
          | inr n ↦
              rw n
                (record { kept = refl; queue = λ q l k. refl; later = (omega arith, omega arith) })
        ]

  pub open_rx_lem :
      (ms : List Slotted) (e : ℕ) (r : Receiver C)
      → Readable ms e r
      → let o = open_rx r in
        (o ≡ record r { rx_data = o.rx_data; rx_info = o.rx_info; infos = o.infos })
        × (o.rx_data ≡ some (slot_address (slot_at r.remote_queue r.rx_pos)))
  unfolding open_rx
  open_rx_lem ms e r v = elim v.opened [
    | inl (closed, start) ↦
        let aligned : offset r.rx_pos ≡ 0 = offset_lem r.rx_pos ∙ start in
        rw (open_rx, closed, aligned) (refl, refl)
    | inr opened ↦ rw (open_rx, opened) (refl, opened)
  ]
