-- ===== src/Slots/Receive.antt =====
-- ampi/vc4/vchiq/vchiq_core.c: `claim_slot`, `release_slot` and the loop of `parse_rx_slots`, which
-- reads the messages of the other side.
pub mod Steps
pub mod Parse
use ampi.Base.{
  ℕ, zero, suc, ◌+◌, ◌-◌, ◌*◌, ◌/◌, ◌%◌, ◌^◌, Bool, true, false, not, ◌==◌, ltb, ◌&&◌, ◌||◌,
  if◌then◌else◌, Option, none, some,
}
use Prim.Native.Nat.{bit_and, bit_or}
use ampi.Base.Words.{add32}
use ampi.Slots.{
  Slotted, msg_type, msg_data, calc_stride, offset, slot_address, slot_at, slot_size,
  max_slots_per_side,
}

-- `VCHIQ_MSGID_CLAIMED`
abbrev pub msgid_claimed : ℕ
msgid_claimed = 0x40000000

-- `VCHIQ_SLOT_INFO_T`, two numbers of type `short`
pub record SlotInfo : Type 0 where
  pub use_count : ℕ
  pub release_count : ℕ

-- What the slot handler uses of `struct vchiq_state_struct` and of the shared state of the other
-- side. `rx_info` is the index of the slot that is being read; `client` is the rest of the state, which
-- the handling of a message changes.
pub record Receiver (C : Type 0) : Type 0 where
  pub rx_pos : ℕ
  pub rx_data : Option ℕ
  pub rx_info : ℕ
  pub memory : ℕ → Slotted
  pub remote_queue : ℕ → ℕ
  pub slot_queue_recycle : ℕ
  pub infos : ℕ → SlotInfo
  pub signals : ℕ
  pub warnings : ℕ
  pub client : C

-- What the loop calls. `takes` says if the service of a data message is open and connected to the
-- port that sent it, `known` if a message of another type is for no service or there is the service that
-- it is for. `available` is `make_service_callback` with `VCHIQ_MESSAGE_AVAILABLE`, and `other`
-- the handling of all other messages; they return false for `VCHIQ_RETRY`.
pub record Handlers (C : Type 0) : Type 0 where
  pub takes : Slotted → C → Bool
  pub known : Slotted → C → Bool
  pub available : Slotted → C → Bool × C
  pub other : Slotted → C → Bool × C

module _ {C : Type 0} where
  abbrev set_info : ℕ → SlotInfo → Receiver C → Receiver C
  set_info index info r = record r { infos = λ i. if i == index then info else r.infos i }

  abbrev set_msgid : ℕ → ℕ → Receiver C → Receiver C
  set_msgid address msgid r = record r {
    memory = λ a. if a == address then record (r.memory address) { msgid = msgid } else r.memory a;
  }

  -- `claim_slot`
  unfoldable pub claim_slot : ℕ → Receiver C → Receiver C
  claim_slot index r =
      let info = r.infos index in
      set_info index (record info { use_count = (info.use_count + 1) % 2 ^ 16 }) r

  -- A slot goes back to the queue of the other side.
  unfoldable pub recycle : ℕ → Receiver C → Receiver C
  recycle index r = record r {
    remote_queue = λ i.
        if i == bit_and r.slot_queue_recycle (max_slots_per_side - 1)
        then index
        else r.remote_queue i;
    slot_queue_recycle = add32 r.slot_queue_recycle 1;
    signals = suc r.signals;
  }

  -- The end of `release_slot`: one more release, and the slot goes back with the last one.
  unfoldable pub count_release : ℕ → Receiver C → Receiver C
  count_release index r =
      let info = r.infos index in
      let count = (info.release_count + 1) % 2 ^ 16 in
      let counted = set_info index (record info { release_count = count }) r in
      if count == info.use_count then recycle index counted else counted

  -- `release_slot`; `closing` is that of the service, false without one. Its mutex is not held at any
  -- yield.
  unfoldable pub release_slot : ℕ → Option ℕ → Bool → Receiver C → Receiver C
  release_slot index none closing r = count_release index r
  release_slot index (some address) closing r =
      let msgid = (r.memory address).msgid in
      if bit_and msgid msgid_claimed == 0 || closing
      then r
      else count_release index (set_msgid address (bit_and msgid (0xffffffff - msgid_claimed)) r)

  -- The start of a round: a new slot is opened.
  unfoldable pub open_rx : Receiver C → Receiver C
  open_rx r =
      let index = slot_at r.remote_queue r.rx_pos in
      let opened = record r {
        rx_data = some (slot_address index);
        rx_info = index;
        warnings = if offset r.rx_pos == 0 then r.warnings else suc r.warnings;
      } in
      elim r.rx_data [
        | none ↦ set_info index (record { use_count = 1; release_count = 0 }) opened
        | some base ↦ r
      ]

  -- The address of the header.
  abbrev pub header_at : Receiver C → ℕ
  header_at r = elim r.rx_data [ none ↦ offset r.rx_pos | some base ↦ base + offset r.rx_pos ]

  -- The branch for data messages: the message is marked as claimed, and the slot is claimed for it.
  unfoldable pub on_data : Handlers C → ℕ → Slotted → Receiver C → Bool × Receiver C
  on_data h address m r =
      let mark = bit_or m.msgid msgid_claimed in
      let (done, client) = h.available (record m { msgid = mark }) r.client in
      if h.takes m r.client
      then (done, record (claim_slot r.rx_info (set_msgid address mark r)) { client = client })
      else (true, r)

  -- The `switch` on the type of the message
  unfoldable pub dispatch : Handlers C → ℕ → Slotted → Receiver C → Bool × Receiver C
  dispatch h address m r =
      let (done, client) = h.other m r.client in
      if msg_type m.msgid == msg_data
      then on_data h address m r
      else (done, record r { client = client })

  -- `skip_message`: on to the next message, and at the end of a slot the slot is given up.
  unfoldable pub skip_message : ℕ → Receiver C → Receiver C
  skip_message size r =
      let moved = record r { rx_pos = add32 r.rx_pos (calc_stride size) } in
      if offset moved.rx_pos == 0
      then record (release_slot moved.rx_info none false moved) { rx_data = none }
      else moved

  -- The check of the size of a message that is not passed over: one that reaches beyond its slot is
  -- handled with a warning.
  unfoldable pub check_size : Handlers C → ℕ → Slotted → Receiver C → Receiver C
  check_size h address m r =
      let reached =
        if msg_type m.msgid == msg_data then h.takes m r.client else h.known m r.client in
      if reached && ltb slot_size (offset address + calc_stride m.size)
      then record r { warnings = suc r.warnings }
      else r

  -- `parse_rx_slots`, up to the position `tx_pos` of the other side, which is read before the loop. The
  -- loop stops early at `bail_not_ready`. `none`
  -- says that the fuel is spent.
  unfoldable pub parse_rx_slots : Handlers C → ℕ → ℕ → Receiver C → Option (Receiver C)
  parse_rx_slots h zero tx_pos r = none
  parse_rx_slots h (suc fuel) tx_pos r =
      let opened = open_rx r in
      let m = opened.memory (header_at opened) in
      let (done, handled) =
        dispatch h (header_at opened) m (check_size h (header_at opened) m opened) in
      let rest = parse_rx_slots h fuel tx_pos (skip_message m.size handled) in
      if r.rx_pos == tx_pos then some r else if done then rest else some handled
