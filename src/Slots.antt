-- ===== src/Slots.antt =====
-- ampi/vc4/vchiq/vchiq_core.c and vchiq_core.h: message identifiers, the sizes and places of
-- messages in the slots, and the side of the connection that sends.
pub mod Layout
pub mod Stream
pub mod Send
pub mod Free
pub mod Receive
pub mod Arrive
mod Tests
use ampi.Base.{
  ℕ, suc, ◌+◌, ◌-◌, ◌*◌, ◌/◌, ◌%◌, ◌^◌, Bool, true, false, ◌==◌, ltb, ◌&&◌, if◌then◌else◌, List,
}
use Prim.Native.Nat.{bit_and, bit_or}
use ampi.Base.Words.{word, add32, sub32}
use ampi.Sync.{Cell}
use ampi.Services.{Quota, Service, ServiceState}

-- `VCHIQ_SLOT_SIZE`
abbrev pub slot_size : ℕ
slot_size = 4096

-- `VCHIQ_SLOT_MASK`
abbrev pub slot_mask : ℕ
slot_mask = slot_size - 1

-- `VCHIQ_MAX_SLOTS_PER_SIDE`
abbrev pub max_slots_per_side : ℕ
max_slots_per_side = 64

-- `sizeof(VCHIQ_HEADER_T)`
abbrev pub header_size : ℕ
header_size = 8

-- `VCHIQ_MSG_DATA` and `VCHIQ_MSG_CLOSE`
abbrev pub msg_data : ℕ
msg_data = 5

abbrev pub msg_close : ℕ
msg_close = 4

-- `VCHIQ_MAKE_MSG`
unfoldable pub make_msg : ℕ → ℕ → ℕ → ℕ
make_msg type srcport dstport = bit_or (bit_or (type * 2 ^ 24) (srcport * 2 ^ 12)) dstport

-- `VCHIQ_MSG_TYPE`, `VCHIQ_MSG_SRCPORT` and `VCHIQ_MSG_DSTPORT`
unfoldable pub msg_type : ℕ → ℕ
msg_type msgid = msgid / 2 ^ 24

unfoldable pub msg_srcport : ℕ → ℕ
msg_srcport msgid = bit_and (msgid / 2 ^ 12) 0xfff

unfoldable pub msg_dstport : ℕ → ℕ
msg_dstport msgid = bit_and (msgid % 2 ^ 16) 0xfff

-- `VCHIQ_MSGID_PADDING`
abbrev pub msgid_padding : ℕ
msgid_padding = 0

-- `calc_stride`, in `unsigned int`; `~7` is 0xfffffff8.
unfoldable pub calc_stride : ℕ → ℕ
calc_stride size =
    let size' = add32 size header_size in
    bit_and (sub32 (add32 size' header_size) 1) (0xffffffff - (header_size - 1))

-- `pos & VCHIQ_SLOT_MASK` and `SLOT_QUEUE_INDEX_FROM_POS(pos)`
unfoldable pub offset : ℕ → ℕ
offset pos = bit_and pos slot_mask

abbrev pub index_of : ℕ → ℕ
index_of pos = pos / slot_size

-- A message in a slot: its `VCHIQ_HEADER_T`, and its data.
pub record Slotted : Type 0 where
  pub msgid : ℕ
  pub size : ℕ
  pub body : List ℕ

-- What the sending side of `struct vchiq_state_struct` and of its shared state keeps. `memory` gives
-- the message at the byte address of a header; `signals` counts the signals to the other side.
-- `bugs` counts the assertions that failed.
pub record Sender : Type 0 where
  pub local_tx_pos : ℕ
  pub tx_pos : ℕ
  pub tx_data : ℕ
  pub slot_queue : ℕ → ℕ
  pub slot_queue_available : ℕ
  pub slot_available_event : ℕ
  pub slot_mutex : ℕ
  pub memory : ℕ → Slotted
  pub data_use_count : ℕ
  pub data_quota : ℕ
  pub data_quota_event : ℕ
  pub previous_data_index : ℕ
  pub quotas : ℕ → Quota
  pub services : ℕ → Service
  pub closing : ℕ → Bool
  pub signals : ℕ
  pub bugs : ℕ

-- `SLOT_DATA_FROM_INDEX`, as an address from the first slot on
abbrev pub slot_address : ℕ → ℕ
slot_address slot_index = slot_index * slot_size

-- The slot for a position, `slot_queue[SLOT_QUEUE_INDEX_FROM_POS(pos) & VCHIQ_SLOT_QUEUE_MASK]`
unfoldable pub slot_at : (ℕ → ℕ) → ℕ → ℕ
slot_at queue pos = queue (bit_and (index_of pos) (max_slots_per_side - 1))

unfoldable pub write_at : ℕ → Slotted → Sender → Sender
write_at address m s = record s { memory = λ a. if a == address then m else s.memory a }

abbrev pub available_cell : Cell Sender
available_cell = record {
  get = λ s. s.slot_available_event;
  put = λ n s. record s { slot_available_event = n };
}

abbrev pub mutex_cell : Cell Sender
mutex_cell = record { get = λ s. s.slot_mutex; put = λ n s. record s { slot_mutex = n } }

abbrev pub data_quota_cell : Cell Sender
data_quota_cell = record {
  get = λ s. s.data_quota_event;
  put = λ n s. record s { data_quota_event = n };
}
