-- ===== src/Slots/Receive/Parse.antt =====
-- `parse_rx_slots` of ampi/vc4/vchiq/vchiq_core.c handles the messages of the stream in their order.
use ampi.Base.{
  ℕ, suc, ◌+◌, ◌/◌, ◌%◌, ◌≤◌, ◌<◌, ◌≡◌, ◌≢◌, ◌∙◌, refl, sym, ap, true, false, ◌==◌, ltb,
  if◌then◌else◌, some, List, [], ◌∷◌, length, inl, inr, arith, Bool-cases, ==-refl, ==-eq-false,
}
use ampi.Base.Words.{add32}
use ampi.Slots.{Slotted, calc_stride, msg_type, msg_data, offset, slot_address, slot_at, slot_size}
use ampi.Slots.Layout.{offset_lem, slot_at_lem}
use ampi.Slots.Stream.{place, Walk, Walk-le, Walk-frame}
use ampi.Slots.Receive.{
  Receiver, Handlers, count_release, release_slot, open_rx, header_at, dispatch, check_size,
  skip_message, parse_rx_slots,
}
use ampi.Slots.Receive.Steps.{
  Apart, Readable, handle, handle_all, Accepts, dispatch-Handled, count_release-Released,
  open_rx_lem,
}

module _ {C : Type 0} where
  -- A message has been handled, and the reader still stands before it.
  record Read (h : Handlers C) (m : Slotted) (r u : Receiver C) : Type 0 where
    position : u.rx_pos ≡ r.rx_pos
    data_lem : u.rx_data ≡ some (slot_address (slot_at r.remote_queue r.rx_pos))
    queue : u.remote_queue ≡ r.remote_queue
    recycled : u.slot_queue_recycle ≡ r.slot_queue_recycle
    memory_lem : (a : ℕ) → a ≢ place r.remote_queue r.rx_pos → u.memory a ≡ r.memory a
    client_lem : u.client ≡ handle h m r.client
    calm : u.warnings ≡ r.warnings

  dispatch-Read :
      (h : Handlers C) (m : Slotted) (ms : List Slotted) (e : ℕ) (r : Receiver C)
      → Accepts h
      → Readable (m ∷ ms) e r
      → let o = open_rx r in
        (o.memory (header_at o) ≡ m)
        × (let (done, u) = dispatch h (header_at o) m o in (done ≡ true) × Read h m r u)
  unfolding Walk place
  dispatch-Read h m ms e r ok v =
      let o = open_rx r in
      let (kept, open_data) = open_rx_lem (m ∷ ms) e r v in
      let pos : o.rx_pos ≡ r.rx_pos = ap (λ x. x.rx_pos) kept in
      let at : header_at o ≡ place r.remote_queue r.rx_pos = rw (open_data, pos) refl in
      let mem : o.memory ≡ r.memory = ap (λ x. x.memory) kept in
      let client : o.client ≡ r.client = ap (λ x. x.client) kept in
      let (done, d) = dispatch-Handled h (header_at o) m o ok in
      (
        rw (mem, at) v.walk.0,
        (
          done,
          record {
            position = ap (λ x. x.rx_pos) d.kept ∙ pos;
            data_lem = ap (λ x. x.rx_data) d.kept ∙ open_data;
            queue = ap (λ x. x.remote_queue) d.kept ∙ ap (λ x. x.remote_queue) kept;
            recycled = ap (λ x. x.slot_queue_recycle) d.kept ∙ ap (λ x. x.slot_queue_recycle) kept;
            memory_lem = λ a ne. d.others a (λ e'. ne (e' ∙ at)) ∙ ap (λ f. f a) mem;
            client_lem = ap (λ x. x.client) d.kept ∙ ap (handle h m) client;
            calm = ap (λ x. x.warnings) d.kept ∙ ap (λ x. x.warnings) kept;
          },
        ),
      )

  check_size_fits :
      (h : Handlers C) (address : ℕ) (m : Slotted) (r : Receiver C)
      → offset address + calc_stride m.size ≤ 4096
      → check_size h address m r ≡ r
  unfolding check_size
  check_size_fits h address m r fits =
      let small : ltb slot_size (offset address + calc_stride m.size) ≡ false =
        ground (arith, fits) in
      let reached =
        if msg_type m.msgid == msg_data then h.takes m r.client else h.known m r.client in
      elim (Bool-cases reached) [ inl y ↦ rw (y, small) refl | inr n ↦ rw n refl ]

  -- A message of the stream lies within its slot.
  check_size-Readable :
      (h : Handlers C) (m : Slotted) (ms : List Slotted) (e : ℕ) (r : Receiver C)
      → Readable (m ∷ ms) e r
      → let o = open_rx r in check_size h (header_at o) m o ≡ o
  unfolding Walk
  check_size-Readable h m ms e r v =
      let o = open_rx r in
      let (kept, open_data) = open_rx_lem (m ∷ ms) e r v in
      let pos : o.rx_pos ≡ r.rx_pos = ap (λ x. x.rx_pos) kept in
      let slot = slot_at r.remote_queue r.rx_pos in
      let at : header_at o ≡ slot_address slot + offset r.rx_pos = rw (open_data, pos) refl in
      check_size_fits h (header_at o) m o
        (omega (arith, v.walk.2, offset_lem (header_at o), at, offset_lem r.rx_pos))

  -- The reader after a step, behind the message.
  record Stepped (h : Handlers C) (m : Slotted) (ms : List Slotted) (e : ℕ) (r t : Receiver C)
      : Type 0 where
    rest : Readable ms e t
    client_lem : t.client ≡ handle h m r.client
    calm : t.warnings ≡ r.warnings

  -- The messages behind the one that is read are still there.
  Walk-behind :
      (h : Handlers C) (m : Slotted) (ms : List Slotted) (e : ℕ) (r u : Receiver C) (queue : ℕ → ℕ)
      → Readable (m ∷ ms) e r
      → Read h m r u
      → ((q : ℕ)
          → r.rx_pos ≤ q
          → q < e
          → r.slot_queue_recycle < q / 4096 + 64
          → slot_at queue q ≡ slot_at r.remote_queue q)
      → Walk u.memory queue ms (r.rx_pos + calc_stride m.size) e
        × Apart queue (r.rx_pos + calc_stride m.size) e
  unfolding Walk place
  Walk-behind h m ms e r u queue v d same =
      let (at, low, fits, walk) = v.walk in
      let here : (q : ℕ) → r.rx_pos ≤ q → q < e → place queue q ≡ place r.remote_queue q =
        λ q l k. ap (λ i. slot_address i + offset q) (same q l k (omega (arith, v.window, l))) in
      (
        Walk-frame r.memory u.memory r.remote_queue queue ms (r.rx_pos + calc_stride m.size) e
            (λ q l k.
              ap u.memory (here q (omega (arith, l)) k)
              ∙ d.memory_lem (place r.remote_queue q)
                  (λ eq. v.apart r.rx_pos q (omega arith) (omega (arith, l, low)) k (sym eq)))
            walk,
        λ a b l less k eq. v.apart a b (omega (arith, l)) less k (
            sym (here a (omega (arith, l)) (omega (arith, less, k)))
            ∙ eq
            ∙ here b (omega (arith, l, less)) k),
      )

  skip_message-Stepped :
      (h : Handlers C) (m : Slotted) (ms : List Slotted) (e : ℕ) (r u : Receiver C)
      → Readable (m ∷ ms) e r
      → Read h m r u
      → Stepped h m ms e r (skip_message m.size u)
  unfolding skip_message release_slot Walk
  skip_message-Stepped h m ms e r u v d =
      let p = r.rx_pos + calc_stride m.size in
      let (at, low, fits, walk) = v.walk in
      let end = Walk-le r.memory r.remote_queue ms p e walk in
      let sum : add32 u.rx_pos (calc_stride m.size) ≡ p =
        rw d.position (omega (arith, end, v.small)) in
      let off = offset_lem p in
      elim (Bool-cases (offset p == 0)) [
        | inl y ↦
            let moved : Receiver C = record u { rx_pos = p } in
            let start : p % 4096 ≡ 0 = ground (arith, y, off) in
            let c =
              count_release-Released moved.rx_info moved
                (rw d.recycled (omega (arith, v.window, v.small, end))) in
            let t = count_release moved.rx_info moved in
            let pos : t.rx_pos ≡ p = ap (λ x. x.rx_pos) c.kept in
            let mem : t.memory ≡ u.memory = ap (λ x. x.memory) c.kept in
            let behind = Walk-behind h m ms e r u t.remote_queue v d (λ q l k near.
              c.queue q (rw d.recycled (omega (arith, k, v.given))) (rw d.recycled near)
              ∙ ap (λ f. slot_at f q) d.queue) in
            rw (sum, y)
              (record {
                rest = record {
                  walk = rw (pos, mem) behind.0;
                  apart = rw pos behind.1;
                  small = v.small;
                  given = omega (arith, v.given, c.later, d.recycled);
                  window = omega (arith, pos, v.window, c.later, d.recycled, start, low);
                  opened = inl (refl, ap (λ n. n % 4096) pos ∙ start);
                };
                client_lem = ap (λ x. x.client) c.kept ∙ d.client_lem;
                calm = ap (λ x. x.warnings) c.kept ∙ d.calm;
              })
        | inr n ↦
            let inside : p % 4096 ≢ 0 = ground (arith, n, off) in
            let index : r.rx_pos / 4096 ≡ p / 4096 = omega (arith, fits, inside, low) in
            let behind =
              Walk-behind h m ms e r u u.remote_queue v d
                (λ q l k near. ap (λ f. slot_at f q) d.queue) in
            rw (sum, n)
              (record {
                rest = record {
                  walk = behind.0;
                  apart = behind.1;
                  small = v.small;
                  given = omega (arith, v.given, d.recycled);
                  window = omega (arith, v.window, d.recycled, index);
                  opened = inr (
                      d.data_lem
                      ∙ ap (λ i. some (slot_address i))
                          (slot_at_lem r.remote_queue r.rx_pos
                            ∙ ap (λ i. r.remote_queue (i % 64)) index
                            ∙ sym (slot_at_lem r.remote_queue p)
                            ∙ ap (λ f. slot_at f p) (sym d.queue)));
                };
                client_lem = d.client_lem;
                calm = d.calm;
              })
      ]

  -- The loop ends, with a round for each message and one more.
  pub parse_rx_slots-Walk :
      (h : Handlers C) (ms : List Slotted) (e : ℕ) (r : Receiver C)
      → Accepts h
      → Readable ms e r
      → (t : Receiver C) × (parse_rx_slots h (suc (length ms)) e r ≡ some t)
        × Readable [] e t
        × (t.client ≡ handle_all h ms r.client)
        × (t.warnings ≡ r.warnings)
  unfolding parse_rx_slots handle_all Walk
  parse_rx_slots-Walk h [] e r ok v =
      let over : (r.rx_pos == e) ≡ true = rw v.walk (==-refl e) in
      (r, rw (parse_rx_slots, over) refl, v, refl, refl)
  parse_rx_slots-Walk h (m ∷ ms) e r ok v =
      let o = open_rx r in
      let end = Walk-le r.memory r.remote_queue ms (r.rx_pos + calc_stride m.size) e v.walk.3 in
      let going : (r.rx_pos == e) ≡ false =
        ==-eq-false _ _ (λ z. omega (arith, z, end, v.walk.1)) in
      let (found, (done, read)) = dispatch-Read h m ms e r ok v in
      let u : Receiver C = (dispatch h (header_at o) m o).1 in
      let next = skip_message-Stepped h m ms e r u v read in
      let (t, run, stop, client, calm) =
        parse_rx_slots-Walk h ms e (skip_message m.size u) ok next.rest in
      (
        t,
        rw (parse_rx_slots, going, found, check_size-Readable h m ms e r v, done) run,
        stop,
        client ∙ ap (handle_all h ms) next.client_lem,
        calm ∙ next.calm,
      )
