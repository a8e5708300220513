-- ===== src/Slots/Send/Message.antt =====
-- `queue_message` of ampi/vc4/vchiq/vchiq_core.c appends one message to the stream.
use ampi.Base.{
  ℕ, suc, ◌+◌, ◌/◌, ◌%◌, ◌≤◌, ◌<◌, ◌≡◌, ◌≢◌, ◌∙◌, refl, sym, ap, subst, Bool, true, false, ◌==◌,
  if◌then◌else◌, Option, some, List, [], ◌∷◌, ◌++◌, arith, ==_iff, ==-refl, ==-eq-false, Bool-cases,
  inl, inr,
}
use ampi.Base.Words.{word}
use ampi.Wait.{bind_lem, lift, modify, ◌>>◌, poll, poll_ready}
use ampi.Sync.Mutex.{mutex_lock, mutex_unlock}
use ampi.Services.{Service, close_sent}
use ampi.Services.Add.{set_service_state}
use ampi.Slots.{
  Sender, Slotted, calc_stride, write_at, msg_type, msg_data, msg_close, mutex_cell, slot_address,
}
use ampi.Slots.Layout.{calc_stride_bounds, slot_at_lem}
use ampi.Slots.Stream.{place, Walk, Walk-snoc, Walk-write, messages, messages-append}
use ampi.Slots.Send.{
  reserve_space, success, Flags, data_stalls, service_stalls, wait_data, wait_service,
  copy_elements, count_data, publish, fill_data, after_quota, queue_data, queue_kind, queue_message,
}
use ampi.Slots.Send.Reserve.{Stream, Reserved, reserve_space_lem}

-- The flags of a data message: the mutex is taken and given back.
abbrev pub with_mutex : Bool → Flags
with_mutex blocking = record {
  no_mutex_lock = false;
  no_mutex_unlock = false;
  is_blocking = blocking;
}

publish_fields :
    (port msgid size address : ℕ) (blocking : Bool) (body : List ℕ) (s : Sender)
    → (services : ℕ → Service) × (publish
          (some port)
          msgid
          size
          (with_mutex blocking)
          address
          body
          s
        ≡ record s {
          memory = λ a.
              if a == address
              then record { msgid = msgid; size = size; body = body }
              else s.memory a;
          tx_pos = s.local_tx_pos;
          services = services;
          slot_mutex = 0;
          signals = suc s.signals;
        })
unfolding publish write_at mutex_unlock
publish_fields port msgid size address blocking body s =
    elim (Bool-cases (msg_type msgid == msg_close)) [
      | inl y ↦ (
        λ i. if i == port then set_service_state close_sent (s.services port) else s.services i,
        rw (publish, y) refl,
      )
      | inr n ↦ (s.services, rw (publish, n) refl)
    ]

-- What a message that is published at the reserved place makes of the stream.
pub record Sent (p0 far : ℕ) (queue0 : ℕ → ℕ) (ms : List Slotted) (m : Slotted) (u : Sender)
    : Type 0 where
  pub stream : List Slotted
  pub whole : Stream p0 far stream u
  pub appended : messages stream ≡ messages ms ++ m ∷ []
  pub known : u.tx_pos ≡ u.local_tx_pos
  pub unlocked : u.slot_mutex ≡ 0
  pub near : u.local_tx_pos ≤ far
  pub queue : u.slot_queue ≡ queue0

publish-Sent :
    (p0 far : ℕ) (ms : List Slotted) (s t : Sender) (p address port msgid size : ℕ)
    (blocking : Bool) (body : List ℕ)
    → Stream p0 far ms s
    → size + 16 < word
    → s.local_tx_pos + 4096 + calc_stride size ≤ far
    → msgid ≢ 0
    → Reserved p0 (calc_stride size) ms s p address t
    → Sent p0 far s.slot_queue ms
        (record { msgid = msgid; size = size; body = body })
        (publish (some port) msgid size (with_mutex blocking) address body (count_data port t))
unfolding count_data messages
publish-Sent p0 far ms s t p address port msgid size blocking body v small room ne r =
    let m : Slotted = record { msgid = msgid; size = size; body = body } in
    let (services, e) = publish_fields port msgid size address blocking body (count_data port t) in
    let stride = calc_stride_bounds size small in
    let own : (if address == place s.slot_queue p then m else t.memory address) ≡ m =
      rw (r.place_lem, ==-refl (place s.slot_queue p)) refl in
    let queue : t.slot_queue ≡ s.slot_queue = ap (λ x. x.slot_queue) r.kept in
    let memory : ℕ → Slotted = λ a. if a == place s.slot_queue p then m else t.memory a in
    let walk : Walk memory s.slot_queue (r.padded ++ m ∷ []) p0 (p + calc_stride size) =
      Walk-snoc memory s.slot_queue r.padded m p0 p
        (Walk-write t.memory s.slot_queue r.padded m p0 p far v.distinct
          (omega (arith, r.near, room)) r.walk)
        (rw (==-refl (place s.slot_queue p)) refl) (omega (arith, stride)) r.fits in
    let only : messages (m ∷ []) ≡ m ∷ [] = rw (messages, ==-eq-false msgid 0 ne) refl in
    subst (Sent p0 far s.slot_queue ms m) (sym e) (record {
      stream = r.padded ++ m ∷ [];
      whole = record {
        ready = record {
          aligned = omega (arith, r.position, r.aligned, stride);
          current = λ off.
              let index : p / 4096 ≡ t.local_tx_pos / 4096 =
                omega (arith, r.position, r.fits, off, stride) in
              rw queue (
                r.slot_lem
                ∙ ap slot_address (
                    slot_at_lem s.slot_queue p
                    ∙ ap (λ i. s.slot_queue (i % 64)) index
                    ∙ sym (slot_at_lem s.slot_queue t.local_tx_pos)));
        };
        walk = rw (queue, r.position, r.place_lem) walk;
        distinct = rw queue v.distinct;
        small = v.small;
      };
      appended =
          messages-append r.padded (m ∷ [])
          ∙ ap (λ l. messages r.padded ++ l) only
          ∙ ap (λ l. l ++ m ∷ []) r.same;
      known = refl;
      unlocked = refl;
      near = omega (arith, r.position, r.near, room);
      queue = queue;
    })

-- Nothing holds up a data message of the service at `port`.
pub record Clear (port size : ℕ) (s : Sender) : Type 0 where
  pub mutex : s.slot_mutex ≡ 0
  pub alive : s.closing port ≡ false
  pub data_quota : data_stalls (calc_stride size) s ≡ false
  pub service_quota : service_stalls port (calc_stride size) s ≡ false
  pub slot : 0 < s.slot_available_event

abbrev locked : Sender → Sender
locked s = record s { slot_mutex = 1 }

lock_free :
    (s : Sender) (env : List (Sender → Sender))
    → s.slot_mutex ≡ 0
    → mutex_lock mutex_cell s env ≡ some (tt, locked s, env)
unfolding mutex_lock
lock_free s env h =
    let free : (s.slot_mutex == 0) ≡ true = rw h refl in
    bind_lem (poll (λ (t : Sender). t.slot_mutex == 0)) (λ _. modify locked) s s
      (poll_ready (λ (t : Sender). t.slot_mutex == 0) s env free)

wait_data_clear :
    (fuel stride : ℕ) (s : Sender) (env : List (Sender → Sender))
    → data_stalls stride s ≡ false
    → wait_data (suc fuel) stride s env ≡ some (tt, s, env)
unfolding wait_data
wait_data_clear fuel stride s env h = rw (wait_data, h) refl

wait_service_clear :
    (fuel port stride : ℕ) (s : Sender) (env : List (Sender → Sender))
    → service_stalls port stride s ≡ false
    → wait_service (suc fuel) port stride s env ≡ some (success, s, env)
unfolding wait_service
wait_service_clear fuel port stride s env h = rw (wait_service, h) refl

locked-Stream :
    (p0 far : ℕ) (ms : List Slotted) (s : Sender) → Stream p0 far ms s → Stream p0 far ms (locked s)
locked-Stream p0 far ms s v = record {
  ready = record { aligned = v.ready.aligned; current = v.ready.current };
  walk = v.walk;
  distinct = v.distinct;
  small = v.small;
}

module _ (fuel port msgid size address : ℕ) (blocking : Bool) (elements : List (Option (List ℕ)))
    (body : List ℕ) (s t : Sender) (env : List (Sender → Sender)) (clear : Clear port size s)
    (copied : copy_elements elements ≡ some body)
    (space : reserve_space (calc_stride size) blocking (locked s) env
      ≡ some (some address, t, env)) where
  sent : Sender
  sent = publish (some port) msgid size (with_mutex blocking) address body (count_data port t)

  waited :
      (wait_data (suc fuel) (calc_stride size) >> wait_service (suc fuel) port (calc_stride size))
        (locked s)
        env
      ≡ some (success, locked s, env)
  unfolding data_stalls service_stalls
  waited =
      bind_lem (wait_data (suc fuel) (calc_stride size))
        (λ _. wait_service (suc fuel) port (calc_stride size)) (locked s) (locked s)
        (wait_data_clear fuel (calc_stride size) (locked s) env clear.data_quota)
      ∙ wait_service_clear fuel port (calc_stride size) (locked s) env clear.service_quota

  filled :
      after_quota port msgid elements size (with_mutex blocking) success (locked s) env
      ≡ some (success, sent, env)
  unfolding fill_data sent
  filled =
      bind_lem (reserve_space (calc_stride size) blocking)
        (λ r. lift (fill_data port msgid elements size (with_mutex blocking) r)) (locked s) t space
      ∙ rw (fill_data, copied) refl

  queue_data_run :
      queue_data (suc fuel) port msgid elements size (with_mutex blocking) (locked s) env
      ≡ some (success, sent, env)
  unfolding queue_data
  queue_data_run =
      rw (queue_data, clear.alive)
        (bind_lem
            (wait_data (suc fuel) (calc_stride size)
              >> wait_service (suc fuel) port (calc_stride size))
            (after_quota port msgid elements size (with_mutex blocking)) (locked s) (locked s)
            waited
          ∙ filled)

  queue_message_run :
      msg_type msgid ≡ msg_data
      → queue_message (suc fuel) (some port) msgid elements size (with_mutex blocking) s env
        ≡ some (success, sent, env)
  unfolding queue_message
  queue_message_run is_data =
      let test : (msg_type msgid == msg_data) ≡ true =
        (==_iff (msg_type msgid) msg_data).1 is_data in
      bind_lem (mutex_lock mutex_cell)
        (λ _.
          queue_kind (suc fuel) (some port) msgid elements size (with_mutex blocking)
            (msg_type msgid == msg_data))
        s (locked s) (lock_free s env clear.mutex)
      ∙ ap
          (λ b.
            queue_kind (suc fuel) (some port) msgid elements size (with_mutex blocking) b (locked s)
              env)
          test
      ∙ queue_data_run

-- A data message for which there are quota and a slot is sent without a wait: `queue_message` reports
-- success, and the stream of the messages in the slots, padding aside, has become longer by just that
-- message. The stream lies in slots that are all different, with room for one more slot and the
-- message, and no position wraps.
pub queue_message_lem :
    (p0 far : ℕ) (ms : List Slotted) (fuel port msgid size : ℕ) (blocking : Bool)
    (elements : List (Option (List ℕ))) (body : List ℕ) (s : Sender) (env : List (Sender → Sender))
    → Stream p0 far ms s
    → Clear port size s
    → size ≤ 4088
    → s.local_tx_pos + 4096 + calc_stride size ≤ far
    → msg_type msgid ≡ msg_data
    → copy_elements elements ≡ some body
    → (t : Sender) × (queue_message
          (suc fuel)
          (some port)
          msgid
          elements
          size
          (with_mutex blocking)
          s
          env
        ≡ some (success, t, env))
      × Sent p0 far s.slot_queue ms (record { msgid = msgid; size = size; body = body }) t
unfolding sent msg_type
queue_message_lem p0 far ms fuel port msgid size blocking elements body s env v clear small room
      is_data copied =
    let bounds = calc_stride_bounds size (omega (arith, small)) in
    let v' = locked-Stream p0 far ms s v in
    let (p, address, t, e, r) =
      reserve_space_lem p0 far (calc_stride size) ms (locked s) v' bounds.0
        (omega (arith, small, bounds)) room blocking env clear.slot in
    (
      sent fuel port msgid size address blocking elements body s t env clear copied e,
      queue_message_run fuel port msgid size address blocking elements body s t env clear copied e
          is_data,
      publish-Sent p0 far ms (locked s) t p address port msgid size blocking body v'
          (omega (arith, small)) room (λ z. omega (arith, z, is_data)) r,
    )
