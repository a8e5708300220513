-- ===== src/Shim/Ownership.antt =====
-- The messages of a service in ampi/vc4/vchiq/vchiq_shim.c: how they come, are read and are given back.
use ampi.Base.{
  ℕ, suc, ◌≡◌, ◌∙◌, refl, sym, ap, Bool, true, false, ◌==◌, ltb, if◌then◌else◌, Option, some, [],
  ◌∷◌, ◌++◌, get_or, arith, Bool-cases, inl, inr,
}
use ampi.Queue.{Queue, is_empty, is_full, push}
use ampi.Queue.Refine.{IsValid, contents}
use ampi.Queue.Fifo.{push_lem, pop_lem, peek_lem}
use ampi.Shim.{
  Shim, message_available, told, give_back, pop_message, peek_message, with_message, msg_peek,
  msg_remove, msg_dequeue, msg_hold, held_msg_release, keep_message, shim_callback, flags_none,
}

no_callback : true ≡ false → ⊥
no_callback e = grind (arith, e)

-- The oldest message is taken out of the queue.
record Takes (k : ℕ) (m : Shim) (r : Option (ℕ × Shim)) : Type 0 where
  header : ℕ
  queue : Queue
  returns : r ≡ some (header, record m { queue = queue })
  valid : IsValid k queue
  rest : contents m.queue ≡ header ∷ contents queue

pop-Takes :
    (k fuel : ℕ) (m : Shim)
    → IsValid k m.queue
    → is_empty m.queue ≡ false
    → Takes k m (pop_message (suc fuel) m)
unfolding pop_message
pop-Takes k fuel m v e =
    let (h, q, runs, valid, rest) = pop_lem k m.queue fuel [] v e in
    record {
      header = h;
      queue = q;
      returns = rw (pop_message, runs) refl;
      valid = valid;
      rest = rest;
    }

with_message_lem :
    {A : Type 0} (flags : ℕ) (m n : Shim) (header : ℕ) (taken : Option (ℕ × Shim))
    (f : ℕ → Shim → A × Shim)
    → is_empty m.queue ≡ false
    → taken ≡ some (header, n)
    → with_message flags m taken f ≡ some (some (f header n).0, (f header n).1)
unfolding with_message
with_message_lem flags m n header taken f e t = elim (Bool-cases (flags == flags_none)) [
  | inl y ↦ rw (with_message, t, y, e) refl
  | inr z ↦ rw (with_message, t, z) refl
]

-- `vchi_msg_dequeue` on a service with a message: the oldest message is read, at most `max_size` bytes of
-- it, it leaves the queue, and is given back once.
pub msg_dequeue_lem :
    (k fuel flags max_size : ℕ) (m : Shim)
    → IsValid k m.queue
    → is_empty m.queue ≡ false
    → (header : ℕ) × (n : Shim) × (contents m.queue ≡ header ∷ contents n.queue)
      × (n.released ≡ header ∷ m.released)
      × IsValid k n.queue
      × (let size = m.size_of header in
          msg_dequeue (suc fuel) flags max_size m
          ≡ some (some (header, (if ltb size max_size then size else max_size), size), n))
unfolding msg_dequeue
msg_dequeue_lem k fuel flags max_size m v e =
    let t = pop-Takes k fuel m v e in
    let n = record m { queue = t.queue } in
    (
      t.header,
      give_back t.header n,
      t.rest,
      refl,
      t.valid,
      with_message_lem flags m n t.header (pop_message (suc fuel) m) _ e t.returns,
    )

-- What is left of the messages once one has been read in place and given back
abbrev pub Left : Shim → ℕ → Shim → Type 0
Left m header n =
    (contents m.queue ≡ header ∷ contents n.queue) × (n.released ≡ header ∷ m.released)

-- A message can be used in place in two ways: `vchi_msg_peek` and then `vchi_msg_remove`, or
-- `vchi_msg_hold` and then `vchi_held_msg_release`. On a service with a message both give the same
-- header and size, and leave the same messages in the queue, with that one given back.
pub hold-peek :
    (k fuel flags : ℕ) (m : Shim)
    → IsValid k m.queue
    → is_empty m.queue ≡ false
    → (header : ℕ) × (peeked removed held : Shim) × (msg_peek (suc fuel) flags m
        ≡ some (some (header, m.size_of header), peeked))
      × (msg_remove (suc fuel) peeked ≡ some removed)
      × (msg_hold (suc fuel) flags m ≡ some (some (header, m.size_of header), held))
      × Left m header removed
      × Left m header (held_msg_release header held)
unfolding msg_peek msg_remove msg_hold held_msg_release peek_message
hold-peek k fuel flags m v e =
    let (h, others, q, runs, valid, front, same, filled) = peek_lem k m.queue fuel [] v e in
    let p = record m { queue = q } in
    let t = pop-Takes k fuel m v e in
    let u = pop-Takes k fuel p valid filled in
    let header : t.header ≡ h = ap (λ l. get_or l 0 0) (sym t.rest ∙ front) in
    let header' : u.header ≡ h = ap (λ l. get_or l 0 0) (sym u.rest ∙ same ∙ front) in
    (
      h,
      p,
      give_back u.header (record p { queue = u.queue }),
      record m { queue = t.queue },
      with_message_lem flags m p h (peek_message (suc fuel) m) _ e (rw (peek_message, runs) refl),
      rw (msg_remove, u.returns) refl,
      with_message_lem flags m (record m { queue = t.queue }) t.header (pop_message (suc fuel) m) _
            e t.returns
          ∙ ap (λ x. some (some (x, m.size_of x), record m { queue = t.queue })) header,
      (
        sym same ∙ u.rest ∙ ap (λ x. x ∷ contents u.queue) header',
        ap (λ x. x ∷ m.released) header',
      ),
      (t.rest ∙ ap (λ x. x ∷ contents t.queue) header, refl),
    )

keep_message_lem :
    (fuel header : ℕ) (m : Shim) (q : Queue)
    → push fuel header m.queue [] ≡ some (tt, q, [])
    → keep_message fuel header m ≡ some (record m { queue = q; callbacks = (1, 0) ∷ m.callbacks })
unfolding keep_message told
keep_message_lem fuel header m q runs = rw (keep_message, runs) refl

-- A message that comes to a service with a callback, while there is a place in the queue, is kept behind
-- the others, the user is told of it, and it is not given back; a service without a callback gives
-- it back at once.
pub shim_callback_lem :
    (k fuel header : ℕ) (m : Shim)
    → IsValid k m.queue
    → is_full m.queue ≡ false
    → (n : Shim) × (shim_callback (suc fuel) message_available header 0 m ≡ some n)
      × IsValid k n.queue
      × (m.has_callback ≡ true
          → (contents n.queue ≡ contents m.queue ++ header ∷ [])
            × (n.released ≡ m.released)
            × (n.callbacks ≡ (1, 0) ∷ m.callbacks))
      × (m.has_callback ≡ false
          → (contents n.queue ≡ contents m.queue) × (n.released ≡ header ∷ m.released))
unfolding shim_callback
shim_callback_lem k fuel header m v f =
    let (q, runs, valid, same) = push_lem k m.queue header fuel [] v f in
    let kept = keep_message_lem (suc fuel) header m q runs in
    let choose : Bool → Option Shim =
      λ b. if b then keep_message (suc fuel) header m else some (give_back header m) in
    elim (Bool-cases m.has_callback) [
      | inl y ↦ (
        record m { queue = q; callbacks = (1, 0) ∷ m.callbacks },
        ap choose y ∙ kept,
        valid,
        (λ _. (same, refl, refl)),
        (λ z. absurd (no_callback (sym y ∙ z))),
      )
      | inr z ↦ (
        give_back header m,
        ap choose z,
        v,
        (λ y. absurd (no_callback (sym y ∙ z))),
        (λ _. (refl, refl)),
      )
    ]
