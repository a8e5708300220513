-- ===== src/Life/Open.antt =====
-- ampi/vc4/vchiq/vchiq_core.c: `parse_open`, by which a service gets its client.
pub mod Kept
pub mod Outcome
use ampi.Base.{
  ℕ, Bool, true, false, not, ◌==◌, ltb, ◌&&◌, ◌||◌, if◌then◌else◌, Option, none, some, List, [],
  ◌∷◌,
}
use mathlib.Core.Option
use ampi.Slots.{make_msg, msg_close, msg_srcport}
use ampi.Slots.Send.{Status, success, error, retry}
use ampi.Services.{
  Service, ServiceState, Services, put, port_free, is_listening, get_listening_service,
  unlock_service, opened, open_sync,
}
use ampi.Services.Add.{set_service_state}

-- `struct vchiq_open_payload`; the versions, which are `short`, are not negative.
pub record OpenPayload : Type 0 where
  pub fourcc : ℕ
  pub client_id : ℕ
  pub version : ℕ
  pub version_min : ℕ

-- The header of an OPEN, with its data
pub record OpenMessage : Type 0 where
  pub msgid : ℕ
  pub size : ℕ
  pub payload : OpenPayload

-- What is called: `send` and `send_sync` are `queue_message` and `queue_message_sync`, with the message
-- identifier and the one number that is sent, if any; `opened` is the callback of the service at a
-- port for `VCHIQ_SERVICE_OPENED`.
pub record OpenCalls (C : Type 0) : Type 0 where
  pub version_common : ℕ
  pub send : ℕ → List ℕ → C → Status × C
  pub send_sync : ℕ → List ℕ → C → Status × C
  pub opened : ℕ → C → Status × C

-- `sizeof(struct vchiq_open_payload)`
abbrev pub open_payload_size : ℕ
open_payload_size = 12

-- `VCHIQ_VERSION_SYNCHRONOUS_MODE`
abbrev pub version_synchronous_mode : ℕ
version_synchronous_mode = 8

-- `VCHIQ_MSG_OPENACK`
abbrev pub msg_openack : ℕ
msg_openack = 3

abbrev pub is_retry : Status → Bool
is_retry retry = true
is_retry _ = false

abbrev pub mismatches : OpenPayload → Service → Bool
mismatches p v = ltb v.version p.version_min || ltb p.version v.version_min

-- The service has its client.
unfoldable pub with_client : ℕ → ℕ → Service → Service
with_client remoteport client_id v = record v { remoteport = remoteport; client_id = client_id }

-- The service learns the version of its client.
unfoldable pub with_peer : ℕ → Service → Service
with_peer version v = record v { peer_version = version }

-- Whether a service is synchronous depends on the version of the other side.
unfoldable pub settle_sync : ℕ → Service → Service
settle_sync version_common v = record v {
  sync = if ltb version_common version_synchronous_mode then false else v.sync;
}

unfoldable pub now_open : Service → Service
now_open v = set_service_state (if v.sync then open_sync else opened) v

module _ {C : Type 0} where
  -- The reference is given back; the result says whether the message has been dealt with.
  abbrev pub leave_service : Bool → ℕ → Services → C → Option (Bool × Services × C)
  leave_service dealt port s c = Option.map (λ t. (dealt, t, c)) (unlock_service port s)

  -- Without a service that fits, a CLOSE goes back.
  unfoldable pub fail_open : OpenCalls C → ℕ → Services → C → Option (Bool × Services × C)
  fail_open k msgid s c =
      let (status, d) = k.send (make_msg msg_close 0 (msg_srcport msgid)) [] c in
      some (not (is_retry status), s, d)

  -- Behind the callback: a client that is not ready gives the service up again.
  unfoldable pub after_opened : Status → ℕ → Service → Services → C → Option (Bool × Services × C)
  after_opened retry port v s c =
      leave_service false port (put port (some (record v { remoteport = port_free })) s) c
  after_opened _ port v s c = leave_service true port (put port (some v) s) c

  unfoldable pub tell_opened :
      OpenCalls C → OpenMessage → ℕ → Service → Services → C → Option (Bool × Services × C)
  tell_opened k x port v s c =
      let (status, d) = k.opened port c in
      after_opened status port (with_client (msg_srcport x.msgid) x.payload.client_id v) s d

  -- Behind the OPENACK: the service is open, unless there was no room for the message.
  unfoldable pub after_ack :
      OpenCalls C → Status → OpenMessage → ℕ → Service → Services → C → Option (Bool × Services × C)
  after_ack k retry x port v s c = leave_service false port (put port (some v) s) c
  after_ack k _ x port v s c = tell_opened k x port (now_open v) s c

  -- A service that listens answers first.
  unfoldable pub accept :
      OpenCalls C → OpenMessage → ℕ → Service → Services → C → Option (Bool × Services × C)
  accept k x port v s c =
      let w = settle_sync k.version_common v in
      let msgid = make_msg msg_openack v.localport (msg_srcport x.msgid) in
      let (status, d) : Status × C =
        if w.sync then k.send_sync msgid (v.version ∷ []) c else k.send msgid (v.version ∷ []) c in
      if is_listening v.srvstate
      then after_ack k status x port w s d
      else tell_opened k x port v s c

  -- The service that was found for the OPEN, with a reference taken
  unfoldable pub open_with :
      OpenCalls C → OpenMessage → ℕ → Services → C → Option (Bool × Services × C)
  open_with k x port s c = elim (s.services port) [
    | none ↦ none
    | some v ↦
        let refused : Option (Bool × Services × C) = elim (unlock_service port s) [
          | none ↦ none
          | some t ↦ fail_open k x.msgid t c
        ] in
        if mismatches x.payload v
        then refused
        else accept k x port (with_peer x.payload.version v) s c
  ]

  -- `parse_open`; `none` stands for a failed check.
  unfoldable pub parse_open :
      OpenCalls C → OpenMessage → Services → C → Option (Bool × Services × C)
  parse_open k x s c =
      let found = get_listening_service x.payload.fourcc s in
      let looked : Option (Bool × Services × C) = elim found [
        | none ↦ none
        | some (r, t) ↦ elim r [
          | none ↦ fail_open k x.msgid t c
          | some port ↦ open_with k x port t c
        ]
      ] in
      if ltb x.size open_payload_size then fail_open k x.msgid s c else looked
