-- ===== src/Bulk/Done.antt =====
-- The messages BULK_RX_DONE and BULK_TX_DONE in `parse_rx_slots` of ampi/vc4/vchiq/vchiq_core.c.
use ampi.Base.{
  ℕ, ◌+◌, ◌^◌, ◌<◌, ◌≡◌, ◌≢◌, refl, true, false, ◌==◌, ltb, arith, ==-refl, ==-eq-false,
}
use ampi.Base.Words.{add32, sub32}
use ampi.Bulk.{BulkQueue, Bulks, Calls, bulk_at, bulk_index, set_bulk}
use ampi.Bulk.Process.{on_done}
use ampi.Bulk.Abort.{IsOrdered}

-- A queue of the side that is not the master: what the other side has done is processed at once.
pub record IsSlave (q : BulkQueue) : Type 0 where
  pub ordered : IsOrdered q
  pub level : q.remote_insert ≡ q.process

module _ {C : Type 0} where
  -- The oldest bulk that is not processed is processed with `actual` bytes.
  pub record Finished (k : Calls C) (actual : ℕ) (s t : Bulks C) : Type 0 where
    pub valid : IsSlave t.queue
    pub next : t.queue.process ≡ s.queue.process + 1
    pub fixed : (t.queue.local_insert ≡ s.queue.local_insert) × (t.queue.remove ≡ s.queue.remove)
    pub bulk_lem :
        bulk_at t.queue s.queue.process
        ≡ record (bulk_at s.queue s.queue.process) { actual = actual }
    pub others : (i : ℕ) → i ≢ bulk_index s.queue.process → t.queue.bulks i ≡ s.queue.bulks i
    pub calm : t.warnings ≡ s.warnings
    pub completed :
        t.client
        ≡ k.complete (record (bulk_at s.queue s.queue.process) { actual = actual }) s.client

  -- A message that a transfer is over, on the side that is not the master: the oldest outstanding bulk
  -- is processed with the number of bytes that came, no other bulk changes, no assertion fails, and the
  -- queue is valid again. If no bulk is outstanding, the message is refused and nothing changes. (The
  -- indices fit an `int`.)
  on_done_lem :
      (k : Calls C) (actual : ℕ) (s : Bulks C)
      → IsSlave s.queue
      → s.queue.local_insert < 2 ^ 31
      → (s.queue.process ≡ s.queue.local_insert → on_done k actual s ≡ (false, s))
        × (s.queue.process < s.queue.local_insert
            → ((on_done k actual s).0 ≡ true) × Finished k actual s (on_done k actual s).1)
  unfolding on_done set_bulk
  on_done_lem k actual s v small = (
    λ e.
        let refused : ltb (sub32 s.queue.remote_insert s.queue.local_insert) (2 ^ 31) ≡ true =
          ground (arith, e, v.level, small) in
        rw refused refl,
    λ l.
        let taken : ltb (sub32 s.queue.process s.queue.local_insert) (2 ^ 31) ≡ false =
          ground (arith, l, small) in
        let level : (s.queue.process == s.queue.process) ≡ true = ==-refl s.queue.process in
        let open_bulk : (s.queue.process == s.queue.local_insert) ≡ false = ground (arith, l) in
        let next : add32 s.queue.process 1 ≡ s.queue.process + 1 = omega (arith, l, small) in
        let o = v.ordered in
        rw (v.level, taken, level, open_bulk, next)
          (
            refl,
            record {
              valid = record {
                ordered = record {
                  removed = omega (arith, o.removed);
                  local_near = (omega (arith, l), o.local_near.1);
                  remote_near = (omega arith, omega (arith, l, o.local_near));
                  small = o.small;
                };
                level = refl;
              };
              next = refl;
              fixed = (refl, refl);
              bulk_lem = rw (==-refl (bulk_index s.queue.process)) refl;
              others = λ i ne. rw (==-eq-false i (bulk_index s.queue.process) ne) refl;
              calm = omega arith;
              completed = refl;
            },
          ),
  )
