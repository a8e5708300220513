-- ===== src/Slots/Arrive.antt =====
-- The two sides of a connection of ampi/vc4/vchiq/vchiq_core.c together: what `queue_message` sends,
-- `parse_rx_slots` of the other side handles.
use ampi.Base.{
  ℕ, suc, ◌+◌, ◌*◌, ◌/◌, ◌≤◌, ◌<◌, ◌≡◌, ◌∙◌, refl, sym, ap, Bool, false, ◌==◌, Option, some, List,
  [], ◌∷◌, ◌++◌, length, arith, Bool-cases, inl, inr,
}
use ampi.Slots.{Slotted, Sender, calc_stride, msg_type, msg_data, msgid_padding}
use ampi.Slots.Stream.{Walk, place-ne, messages}
use ampi.Slots.Send.{success, copy_elements, queue_message}
use ampi.Slots.Send.Reserve.{Stream}
use ampi.Slots.Send.Message.{with_mutex, Clear, queue_message_lem}
use ampi.Slots.Receive.{Receiver, Handlers, parse_rx_slots}
use ampi.Slots.Receive.Steps.{Opened, Readable, handle, handle_all, Accepts}
use ampi.Slots.Receive.Parse.{parse_rx_slots-Walk}

module _ {C : Type 0} where
  -- Padding is passed over.
  abbrev pub SkipsPadding : Handlers C → Type 0
  SkipsPadding h = (m : Slotted) (c : C) → m.msgid ≡ msgid_padding → (h.other m c).1 ≡ c

  handle_all-messages :
      (h : Handlers C) (ms : List Slotted) (c : C)
      → SkipsPadding h
      → handle_all h ms c ≡ handle_all h (messages ms) c
  unfolding handle_all messages handle msg_type
  handle_all-messages h [] c skips = refl
  handle_all-messages h (m ∷ ms) c skips = elim (Bool-cases (m.msgid == msgid_padding)) [
    | inl y ↦
        let padding : m.msgid ≡ 0 = ground (arith, y) in
        let control : (msg_type m.msgid == msg_data) ≡ false = rw padding refl in
        let passed : handle h m c ≡ c = rw (handle, control) (skips m c padding) in
        rw (messages, y) (ap (handle_all h ms) passed ∙ handle_all-messages h ms c skips)
    | inr n ↦ rw (messages, n) (handle_all-messages h ms (handle h m c) skips)
  ]

  handle_all-append :
      (h : Handlers C) (ms : List Slotted) (m : Slotted) (c : C)
      → handle_all h (ms ++ m ∷ []) c ≡ handle h m (handle_all h ms c)
  unfolding handle_all
  handle_all-append h [] m c = refl
  handle_all-append h (n ∷ ms) m c = handle_all-append h ms m (handle h n c)

  -- The reader on the shared memory of a sender.
  abbrev pub on_memory : Sender → Receiver C → Receiver C
  on_memory s r = record r { memory = s.memory; remote_queue = s.slot_queue }

  -- A reader at the start of the stream of a sender, in the slots that the sender may use.
  pub record Follows (far : ℕ) (s : Sender) (r : Receiver C) : Type 0 where
    pub given : far ≤ r.slot_queue_recycle * 4096
    pub window : r.slot_queue_recycle < r.rx_pos / 4096 + 64
    pub opened : Opened (on_memory s r)

  Stream-Readable :
      (far : ℕ) (ms : List Slotted) (s : Sender) (r : Receiver C)
      → Stream r.rx_pos far ms s
      → s.local_tx_pos ≤ far
      → Follows far s r
      → Readable ms s.local_tx_pos (on_memory s r)
  Stream-Readable far ms s r v near f = record {
    walk = v.walk;
    apart = λ a b l less k.
        place-ne s.slot_queue r.rx_pos far a b v.distinct l less (omega (arith, k, near));
    small = omega (arith, near, v.small);
    given = omega (arith, near, f.given);
    window = f.window;
    opened = f.opened;
  }

  -- A data message for which there are quota and a slot is sent without a wait, and it arrives: the
  -- other side, which reads from the start of the stream, handles the messages of the stream in their
  -- order and this one last, and comes to the position behind it without a warning. The stream that it then
  -- reads is in the memory and has this message behind those of before, and one round for each
  -- message or padding of it, and one more, are enough. (The message has 4088 bytes at most. The stream lies in slots that are all different,
  -- with room for one more slot and the message, and no position wraps; no handler asks for a retry,
  -- and padding is passed over; the reader is less than 64 slots behind.)
  pub queue-parse :
      (h : Handlers C) (r : Receiver C) (far : ℕ) (ms : List Slotted) (fuel port msgid size : ℕ)
      (blocking : Bool) (elements : List (Option (List ℕ))) (body : List ℕ) (s : Sender)
      (env : List (Sender → Sender))
      → Accepts h
      → SkipsPadding h
      → Follows far s r
      → Stream r.rx_pos far ms s
      → Clear port size s
      → size ≤ 4088
      → s.local_tx_pos + 4096 + calc_stride size ≤ far
      → msg_type msgid ≡ msg_data
      → copy_elements elements ≡ some body
      → (t : Sender) × (u : Receiver C) × (stream : List Slotted) × (queue_message
            (suc fuel)
            (some port)
            msgid
            elements
            size
            (with_mutex blocking)
            s
            env
          ≡ some (success, t, env))
        × Walk t.memory t.slot_queue stream r.rx_pos t.tx_pos
        × (messages stream ≡ messages ms ++ record { msgid = msgid; size = size; body = body } ∷ [])
        × (parse_rx_slots h (suc (length stream)) t.tx_pos (on_memory t r) ≡ some u)
        × (u.client
            ≡ handle h
                (record { msgid = msgid; size = size; body = body })
                (handle_all h (messages ms) r.client))
        × (u.rx_pos ≡ t.tx_pos)
        × (u.warnings ≡ r.warnings)
  unfolding Walk
  queue-parse h r far ms fuel port msgid size blocking elements body s env ok skips f v clear small
        room is_data copied =
      let m : Slotted = record { msgid = msgid; size = size; body = body } in
      let (t, run, sent) =
        queue_message_lem r.rx_pos far ms fuel port msgid size blocking elements body s env v clear
          small room is_data copied in
      let f' : Follows far t r = record {
        given = f.given;
        window = f.window;
        opened = rw sent.queue f.opened;
      } in
      let (u, parse, stop, client, calm) =
        parse_rx_slots-Walk h sent.stream t.local_tx_pos (on_memory t r) ok
          (Stream-Readable far sent.stream t r sent.whole sent.near f') in
      (
        t,
        u,
        sent.stream,
        run,
        rw sent.known sent.whole.walk,
        sent.appended,
        rw sent.known parse,
        client
            ∙ handle_all-messages h sent.stream r.client skips
            ∙ ap (λ l. handle_all h l r.client) sent.appended
            ∙ handle_all-append h (messages ms) m r.client,
        stop.walk ∙ sym sent.known,
        calm,
      )
