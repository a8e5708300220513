-- ===== src/Sound.antt =====
-- ampi/vc4/sound/vchiqsoundbasedevice.c: the data of the sound device and of its messages
-- (vchiqsoundbasedevice.h, vc_vchi_audioserv_defs.h), and the calls that it makes to the VCHI
-- layer, to the program's chunk callback and to the assertion hook.
pub mod Send
pub mod Receive
pub mod Control
mod Tests
use ampi.Base.{ℕ, ◌+◌, ◌-◌, ◌*◌, ◌^◌, ◌≡◌, Bool, true, false, ltb, leb, ◌&&◌, ◌||◌, not}

-- `enum TVCHIQSoundDestination`
pub data Destination : Type 0 where
  automatic headphones hdmi unknown_destination : Destination

-- `enum TVCHIQSoundState`
pub data State : Type 0 where
  created idle running cancelled terminating error unknown : State

-- The numbers of the enumerators, by which the code compares states.
abbrev pub rank : State → ℕ
rank created = 0
rank idle = 1
rank running = 2
rank cancelled = 3
rank terminating = 4
rank error = 5
rank unknown = 6

-- The messages of `VC_AUDIO_MSG_T` that the device sends.
pub data Message : Type 0 where
  config : (channels sample_rate bps : ℕ) → Message
  control : (volume : ℕ) → Destination → Message
  open_audio : Message
  start_audio : Message
  stop : (draining : ℕ) → Message
  write : (count max_packet cookie1 cookie2 silence : ℕ) → Message

-- What goes into the message queue of the service: a message, or `length` bytes from `address`.
pub data Payload : Type 0 where
  message : Message → Payload
  samples : (address length : ℕ) → Payload

-- The messages that the device receives; `other` is any other type.
pub data Received : Type 0 where
  result : (success : ℕ) → Received
  complete : (count cookie1 cookie2 : ℕ) → Received
  other : Received

-- `VC_AUDIO_WRITE_COOKIE1` and `2`: "BCMA" and "DATA", the first letter in the highest byte.
abbrev pub write_cookie1 : ℕ
write_cookie1 = 0x42434d41

abbrev pub write_cookie2 : ℕ
write_cookie2 = 0x44415441

-- `struct CVCHIQSoundBaseDevice_s`, with the rest of the system in `world`. A null pointer is 0,
-- and an `int` is its 32-bit pattern.
pub record Device (W : Type 0) : Type 0 where
  pub chunk_callback : ℕ
  pub sample_rate : ℕ
  pub chunk_size : ℕ
  pub destination : Destination
  pub state : State
  pub vchi_instance : ℕ
  pub service : ℕ
  pub event : Bool
  pub last_result : ℕ
  pub write_pos : ℕ
  pub complete_pos : ℕ
  pub world : W

-- The calls of the device. A status is 0 for success. A call that fills a result through a pointer
-- returns it beside its status. They are taken as calls that return without a yield: a call that waits
-- inside VCHI, as `vchi_msg_queue` does when the quota is used up, is one step here.
pub record Calls (W : Type 0) : Type 0 where
  pub initialise : W → ℕ × ℕ × W
  pub connect : ℕ → W → ℕ × W
  pub service_open : ℕ → W → ℕ × ℕ × W
  pub service_use : ℕ → W → W
  pub service_release : ℕ → W → W
  pub peer_version : ℕ → W → ℕ × ℕ × W
  pub msg_queue : ℕ → Payload → W → ℕ × W
  pub msg_dequeue : ℕ → W → ℕ × Received × W
  -- the program's callback: the number of samples, the address of the buffer
  pub chunk : ℕ → ℕ → W → ℕ × ℕ × W
  pub assertion_failed : W → W

-- `CVCHIQSoundBaseDevice_Ctor`. The fields that it does not set keep their values.
unfoldable pub ctor : {W : Type 0} → ℕ → ℕ → Destination → Device W → Device W
ctor rate size dest d = record d {
  chunk_callback = 0;
  sample_rate = rate;
  chunk_size = size;
  destination = dest;
  state = created;
  vchi_instance = 0;
  service = 0;
}

-- `CVCHIQSoundBaseDevice_IsActive`
unfoldable pub is_active : {W : Type 0} → Device W → Bool
is_active d = leb 2 (rank d.state)
