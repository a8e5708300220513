-- ===== src/Bulk/Process.antt =====
-- ampi/vc4/vchiq/vchiq_core.c: bulk transfers are resolved, ended, or come to their end.
use ampi.Base.{
  ℕ, zero, suc, ◌+◌, ◌^◌, Bool, true, false, ◌==◌, ltb, ◌&&◌, ◌||◌, if◌then◌else◌, Option, none,
  some, List,
}
use ampi.Base.Words.{add32, sub32}
use ampi.Wait.{Task, lift, modify, ◌>>=◌, ◌>>◌}
use ampi.Sync.Mutex.{mutex_lock, mutex_unlock}
use ampi.Slots.Send.{Status}
use ampi.Bulk.{actual_aborted, bulk_at, set_bulk, Bulks, Calls, notify_bulks, mutex_cell}

module _ {C : Type 0} where
  -- `resolve_bulks`, with the number of the bulks that it resolved
  unfoldable pub resolve_bulks : Calls C → ℕ → Bulks C → Option (ℕ × Bulks C)
  resolve_bulks k zero s = none
  resolve_bulks k (suc fuel) s =
      let q = s.queue in
      let (b, c) = k.transfer (bulk_at q q.process) s.client in
      let moved = set_bulk q.process b q in
      let rest = resolve_bulks k fuel (record s {
        queue = record moved { process = add32 q.process 1 };
        client = k.complete b c;
      }) in
      let resolved : Option (ℕ × Bulks C) = elim rest [
        | none ↦ none
        | some (n, t) ↦ some (suc n, t)
      ] in
      if q.process == q.local_insert || q.process == q.remote_insert then some (0, s) else resolved

  -- One round of `abort_outstanding_bulks`: what is missing of the bulk on either side is made up.
  unfoldable pub abort_bulk : Calls C → Bulks C → Bulks C
  abort_bulk k s =
      let q = s.queue in
      let b = bulk_at q q.process in
      let far = q.process == q.remote_insert in
      let b' = if far then record b { remote_data = 0; remote_size = 0 } else b in
      let dummy = record b' { local_data = 0; size = 0; actual = actual_aborted; dir = k.side } in
      let near = q.process == q.local_insert in
      record s {
        queue = record (set_bulk q.process (if near then dummy else b') q) {
          remote_insert = if far then add32 q.remote_insert 1 else q.remote_insert;
          local_insert = if near then add32 q.local_insert 1 else q.local_insert;
          process = add32 q.process 1;
        };
        client = if near then s.client else k.complete b' s.client;
      }

  -- `abort_outstanding_bulks`, without its warnings
  unfoldable pub abort_outstanding_bulks : Calls C → ℕ → Bulks C → Option (Bulks C)
  abort_outstanding_bulks k zero s = none
  abort_outstanding_bulks k (suc fuel) s =
      let q = s.queue in
      let rest = abort_outstanding_bulks k fuel (abort_bulk k s) in
      if q.process == q.local_insert && q.process == q.remote_insert then some s else rest

  -- `parse_rx_slots` for BULK_RX_DONE and BULK_TX_DONE, with the mutex held: the transfer is over, and
  -- `actual` bytes have come. False says that none was outstanding.
  unfoldable pub on_done : Calls C → ℕ → Bulks C → Bool × Bulks C
  on_done k actual s =
      let q = s.queue in
      let b = record (bulk_at q q.remote_insert) { actual = actual } in
      let none_left = if q.process == q.local_insert then 2 else 0 in
      let ahead = if q.process == q.remote_insert then 0 else 1 in
      let counted = record (set_bulk q.remote_insert b q) {
        remote_insert = add32 q.remote_insert 1;
        process = add32 q.process 1;
      } in
      let done = record s {
        queue = counted;
        warnings = s.warnings + none_left + ahead;
        client = k.complete b s.client;
      } in
      if ltb (sub32 q.remote_insert q.local_insert) (2 ^ 31) then (false, s) else (true, done)

  -- The same with the mutex and the notification behind it
  unfoldable pub on_bulk_done : Calls C → ℕ → ℕ → Task (Bulks C) (Option Status)
  on_bulk_done k fuel actual = mutex_lock mutex_cell >> lift (on_done k actual) >>= λ done.
      modify (mutex_unlock mutex_cell) >> λ s env.
      let notified : Option (Option Status × Bulks C × List (Bulks C → Bulks C)) =
        elim (notify_bulks k fuel true s) [
          | none ↦ none
          | some (status, t) ↦ some (some status, t, env)
        ] in
      if done then notified else some (none, s, env)
