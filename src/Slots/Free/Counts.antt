-- ===== src/Slots/Free/Counts.antt =====
-- The counts of messages while `process_free_queue` of ampi/vc4/vchiq/vchiq_core.c goes over a slot.
use ampi.Base.{
  ℕ, ◌+◌, ◌-◌, ◌≡◌, ◌∙◌, refl, sym, ap, Bool, true, false, ◌==◌, ◌&&◌, if◌then◌else◌, List, [], ◌∷◌,
  inl, inr, arith, Bool-cases,
}
use ampi.Sync.Semaphore.{up}
use ampi.Slots.{Sender, Slotted, msg_data, msg_type, msg_srcport}
use ampi.Slots.Send.{quota_cell}
use ampi.Slots.Free.{warn, free_message, free_use, free_data}

-- What freeing leaves alone.
pub record Kept (s t : Sender) : Type 0 where
  pub memory_lem : t.memory ≡ s.memory
  pub queue_lem : t.slot_queue ≡ s.slot_queue
  pub available : t.slot_queue_available ≡ s.slot_queue_available
  pub event : t.slot_available_event ≡ s.slot_available_event

-- One message less for the services of which `whose` is true.
pub record Lowered (whose : ℕ → Bool) (s t : Sender) : Type 0 where
  pub kept : Kept s t
  pub count :
      (i : ℕ)
      → (t.quotas i).message_use_count ≡ (s.quotas i).message_use_count - (if whose i then 1 else 0)

pub same : (s : Sender) → Lowered (λ i. false) s s
same s = record {
  kept = record { memory_lem = refl; queue_lem = refl; available = refl; event = refl };
  count = λ i. omega arith;
}

pub choose-Lowered :
    (b : Bool) (s t u : Sender) (whose : ℕ → Bool)
    → Lowered whose s t
    → Lowered whose s u
    → Lowered whose s (if b then t else u)
choose-Lowered true s t u whose h k = h
choose-Lowered false s t u whose h k = k

after-Lowered :
    (whose : ℕ → Bool) (s t u : Sender)
    → Lowered whose s t
    → Lowered (λ i. false) t u
    → Lowered whose s u
after-Lowered whose s t u h k = record {
  kept = record {
    memory_lem = k.kept.memory_lem ∙ h.kept.memory_lem;
    queue_lem = k.kept.queue_lem ∙ h.kept.queue_lem;
    available = k.kept.available ∙ h.kept.available;
    event = k.kept.event ∙ h.kept.event;
  };
  count = λ i. omega (arith, h.count i, k.count i);
}

-- A change of a quota that leaves the messages alone.
up-Lowered : (port : ℕ) (s : Sender) → Lowered (λ i. false) s (up (quota_cell port) s)
unfolding up
up-Lowered port s = record {
  kept = record { memory_lem = refl; queue_lem = refl; available = refl; event = refl };
  count = λ i. elim (Bool-cases (i == port)) [
    | inl y ↦
        let here : i ≡ port = ground (arith, y) in
        rw y (ap (λ j. (s.quotas j).message_use_count) (sym here) ∙ omega arith)
    | inr n ↦ rw n (omega arith)
  ];
}

warn-Lowered : (s : Sender) → Lowered (λ i. false) s (warn s)
warn-Lowered s = record {
  kept = record { memory_lem = refl; queue_lem = refl; available = refl; event = refl };
  count = λ i. omega arith;
}

lower_one :
    (port : ℕ) (s : Sender)
    → Lowered
        (λ i. i == port)
        s
        (record s {
          quotas = λ i.
              if i == port
              then record (s.quotas port) {
                message_use_count = (s.quotas port).message_use_count - 1;
              }
              else s.quotas i;
        })
lower_one port s = record {
  kept = record { memory_lem = refl; queue_lem = refl; available = refl; event = refl };
  count = λ i. elim (Bool-cases (i == port)) [
    | inl y ↦
        let here : i ≡ port = ground (arith, y) in
        rw y (ap (λ j. (s.quotas j).message_use_count - 1) (sym here))
    | inr n ↦ rw n (omega arith)
  ];
}

free_message-Lowered : (port : ℕ) (s : Sender) → Lowered (λ i. i == port) s (free_message port s)
unfolding free_message
free_message-Lowered port s =
    let freed : Sender = record s {
      quotas = λ i.
          if i == port
          then record (s.quotas port) { message_use_count = (s.quotas port).message_use_count - 1 }
          else s.quotas i;
    } in
    let whose : ℕ → Bool = λ i. i == port in
    let low = lower_one port s in
    choose-Lowered _ s (up (quota_cell port) freed) _ whose
      (after-Lowered whose s freed _ low (up-Lowered port freed))
      (choose-Lowered _ s (warn freed) freed whose
        (after-Lowered whose s freed _ low (warn-Lowered freed)) low)

free_use-Lowered : (port : ℕ) (s : Sender) → Lowered (λ i. false) s (free_use port s)
unfolding free_use
free_use-Lowered port s =
    let freed : Sender = record s {
      quotas = λ i.
          if i == port
          then record (s.quotas port) { slot_use_count = (s.quotas port).slot_use_count - 1 }
          else s.quotas i;
    } in
    let whose : ℕ → Bool = λ i. false in
    let level : Lowered whose s freed = record {
      kept = record { memory_lem = refl; queue_lem = refl; available = refl; event = refl };
      count = λ i. elim (Bool-cases (i == port)) [
        | inl y ↦
            let here : i ≡ port = ground (arith, y) in
            rw y (ap (λ j. (s.quotas j).message_use_count) (sym here) ∙ omega arith)
        | inr n ↦ rw n (omega arith)
      ];
    } in
    choose-Lowered _ s (up (quota_cell port) freed) (warn freed) whose
      (after-Lowered whose s freed _ level (up-Lowered port freed))
      (after-Lowered whose s freed _ level (warn-Lowered freed))

free_data-Lowered :
    (port : ℕ) (found : ℕ → Bool) (s : Sender) → Lowered (λ i. i == port) s (free_data port found s)
unfolding free_data
free_data-Lowered port found s =
    let whose : ℕ → Bool = λ i. i == port in
    let low = free_message-Lowered port s in
    choose-Lowered (found port) s (free_message port s) _ whose low (
      after-Lowered whose s (free_message port s) _ low
        (free_use-Lowered port (free_message port s)))

-- The number of data messages of the service at a port.
abbrev pub is_from : ℕ → Slotted → Bool
is_from port m = msg_type m.msgid == msg_data && port == msg_srcport m.msgid

unfoldable pub sent_from : ℕ → List Slotted → ℕ
sent_from port [] = 0
sent_from port (m ∷ ms) = (if is_from port m then 1 else 0) + sent_from port ms

unfoldable pub freed : Slotted → (ℕ → Bool) → Sender → Sender
freed m found s =
    if msg_type m.msgid == msg_data then free_data (msg_srcport m.msgid) found s else s

pub freed-Lowered :
    (m : Slotted) (found : ℕ → Bool) (s : Sender) → Lowered (λ i. is_from i m) s (freed m found s)
unfolding freed
freed-Lowered m found s = elim (Bool-cases (msg_type m.msgid == msg_data)) [
  | inl y ↦ rw y (free_data-Lowered (msg_srcport m.msgid) found s)
  | inr n ↦ rw n (same s)
]
