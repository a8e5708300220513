-- ===== src/Bulk/Abort.antt =====
-- `abort_outstanding_bulks` of ampi/vc4/vchiq/vchiq_core.c ends, with every bulk processed.
use ampi.Base.{
  ℕ, zero, suc, ◌+◌, ◌%◌, ◌≤◌, ◌<◌, ◌≡◌, ◌≢◌, ◌∙◌, refl, sym, ap, subst, Bool, true, false, ◌==◌,
  ◌&&◌, if◌then◌else◌, some, arith, dec_le, ℕ_discrete, ==-refl, ==-eq-false,
}
use Prim.Native.Nat.{max}
use ampi.Base.Words.{word, bit_and_mask}
use ampi.Bulk.{
  Bulk, BulkQueue, Bulks, Calls, actual_aborted, bulk_at, bulk_index, set_bulk, num_service_bulks,
}
use ampi.Bulk.Process.{abort_bulk, abort_outstanding_bulks}

-- The indices of a queue are in order, and its bulks fit it.
pub record IsOrdered (q : BulkQueue) : Type 0 where
  pub removed : q.remove ≤ q.process
  pub local_near : (q.process ≤ q.local_insert) × (q.local_insert ≤ q.remove + num_service_bulks)
  pub remote_near : (q.process ≤ q.remote_insert) × (q.remote_insert ≤ q.remove + num_service_bulks)
  pub small : q.remove + num_service_bulks < word

-- Two bulks of which the client is told the same, but for the direction and the mode.
abbrev pub Alike : Bulk → Bulk → Type 0
Alike a b = (a.userdata ≡ b.userdata) × (a.local_data ≡ b.local_data) × (a.actual ≡ b.actual)

abbrev pub IsDummy : Bulk → Type 0
IsDummy a = (a.local_data ≡ 0) × (a.actual ≡ actual_aborted)

-- Two of the last four indices have different places.
bulk_index-ne : (a b : ℕ) → a < b → b < a + 4 → bulk_index a ≢ bulk_index b
unfolding bulk_index
bulk_index-ne a b l h e =
    let same : a % 4 ≡ b % 4 = sym (bit_and_mask 2 a) ∙ e ∙ bit_and_mask 2 b in
    omega (arith, same, l, h)

-- A made-up remote side leaves what the client is told.
far_side :
    (far : Bool) (b : Bulk)
    → let b' = if far then record b { remote_data = 0; remote_size = 0 } else b in Alike b' b
far_side true b = (refl, refl, refl)
far_side false b = (refl, refl, refl)

module _ {C : Type 0} where
  -- What the loop leaves of a queue: each bulk is processed, on both sides, those that come from this
  -- side keep what the client is told of them, and the others are dummies without data.
  pub record Aborted (k : Calls C) (s t : Bulks C) : Type 0 where
    pub level :
        (t.queue.process ≡ max s.queue.local_insert s.queue.remote_insert)
        × (t.queue.local_insert ≡ t.queue.process)
        × (t.queue.remote_insert ≡ t.queue.process)
    pub kept : (t.queue.remove ≡ s.queue.remove) × (t.queue.remote_notify ≡ s.queue.remote_notify)
    pub before :
        (x : ℕ) → s.queue.remove ≤ x → x < s.queue.process → bulk_at t.queue x ≡ bulk_at s.queue x
    pub own :
        (x : ℕ)
        → s.queue.process ≤ x
        → x < s.queue.local_insert
        → let b = bulk_at s.queue x in let a = bulk_at t.queue x in Alike a b
    pub dummies :
        (x : ℕ) → s.queue.local_insert ≤ x → x < t.queue.process → IsDummy (bulk_at t.queue x)

  -- One round: its bulk is processed, and the others stay.
  record Stepped (s t : Bulks C) : Type 0 where
    next : t.queue.process ≡ s.queue.process + 1
    local_next : t.queue.local_insert ≡ max s.queue.local_insert (s.queue.process + 1)
    remote_next : t.queue.remote_insert ≡ max s.queue.remote_insert (s.queue.process + 1)
    fixed : (t.queue.remove ≡ s.queue.remove) × (t.queue.remote_notify ≡ s.queue.remote_notify)
    others : (i : ℕ) → i ≢ bulk_index s.queue.process → t.queue.bulks i ≡ s.queue.bulks i
    own :
        s.queue.process < s.queue.local_insert
        → let b = bulk_at s.queue s.queue.process in
          let a = bulk_at t.queue s.queue.process in Alike a b
    dummy : s.queue.local_insert ≡ s.queue.process → IsDummy (bulk_at t.queue s.queue.process)

  abort_bulk-Stepped :
      (k : Calls C) (s : Bulks C)
      → IsOrdered s.queue
      → s.queue.process + 1 < word
      → Stepped s (abort_bulk k s)
  unfolding abort_bulk set_bulk
  abort_bulk-Stepped k s v small = record {
    next = omega (arith, small);
    local_next = ground (arith, v.local_near, small);
    remote_next = ground (arith, v.remote_near, small);
    fixed = (refl, refl);
    others = λ i ne. rw (==-eq-false i (bulk_index s.queue.process) ne) refl;
    own = λ l.
        let near : (s.queue.process == s.queue.local_insert) ≡ false = ground (arith, l) in
        rw (==-refl (bulk_index s.queue.process), near)
          (far_side (s.queue.process == s.queue.remote_insert) (bulk_at s.queue s.queue.process));
    dummy = λ e.
        let near : (s.queue.process == s.queue.local_insert) ≡ true = ground (arith, e) in
        rw (==-refl (bulk_index s.queue.process), near) (refl, refl);
  }

  Stepped-IsOrdered :
      (s t : Bulks C)
      → IsOrdered s.queue
      → s.queue.process < max s.queue.local_insert s.queue.remote_insert
      → Stepped s t
      → IsOrdered t.queue
  Stepped-IsOrdered s t v l d = record {
    removed = omega (arith, v.removed, d.next, d.fixed);
    local_near = (
      omega (arith, d.next, d.local_next),
      omega (arith, d.local_next, d.fixed, v.local_near, v.remote_near, l),
    );
    remote_near = (
      omega (arith, d.next, d.remote_next),
      omega (arith, d.remote_next, d.fixed, v.local_near, v.remote_near, l),
    );
    small = omega (arith, d.fixed, v.small);
  }

  Stepped-Aborted :
      (k : Calls C) (s t u : Bulks C)
      → IsOrdered s.queue
      → s.queue.process < max s.queue.local_insert s.queue.remote_insert
      → Stepped s t
      → Aborted k t u
      → Aborted k s u
  Stepped-Aborted k s t u v l d a = record {
    level = (omega (arith, a.level, d.local_next, d.remote_next, l), a.level.1, a.level.2);
    kept = (a.kept.0 ∙ d.fixed.0, a.kept.1 ∙ d.fixed.1);
    before = λ x h h'.
        a.before x (omega (arith, h, d.fixed)) (omega (arith, h', d.next))
        ∙ d.others (bulk_index x)
            (bulk_index-ne x s.queue.process h' (omega (arith, h, v.local_near, v.remote_near, l)));
    own = λ x h h'. elim (ℕ_discrete x s.queue.process) [
      | yes e ↦
          let now = a.before x (omega (arith, e, d.fixed, v.removed)) (omega (arith, e, d.next)) in
          subst (λ y. Alike (bulk_at u.queue y) (bulk_at s.queue y)) (sym e)
            (rw (ap (bulk_at u.queue) (sym e) ∙ now ∙ ap (bulk_at t.queue) e)
              (d.own (omega (arith, e, h'))))
      | no ne ↦
          let later : s.queue.process < x = omega (arith, h, ne) in
          let same = d.others (bulk_index x) (λ e.
            bulk_index-ne s.queue.process x later (omega (arith, h', v.removed, v.local_near))
              (sym e)) in
          subst (Alike (bulk_at u.queue x)) same
            (a.own x (omega (arith, later, d.next)) (omega (arith, h', d.local_next)))
    ];
    dummies = λ x h h'. elim (dec_le t.queue.local_insert x) [
      | yes e ↦ a.dummies x e h'
      | no ne ↦
          let here : x ≡ s.queue.process = omega (arith, h, ne, d.local_next, v.local_near) in
          let now =
            a.before x (omega (arith, here, d.fixed, v.removed)) (omega (arith, here, d.next)) in
          rw now (
            subst (λ y. IsDummy (bulk_at t.queue y)) (sym here)
              (d.dummy (omega (arith, here, h, v.local_near))))
    ];
  }

  -- If the indices of a queue are in order, aborting its bulks ends, in a round for each bulk that is
  -- outstanding on either side, and one more. All bulks are processed then, and no other index has
  -- changed; the bulks of this side still have their data and what they are marked with, and
  -- those that the other side had more of are dummies, of which the client is not told.
  pub abort_outstanding_bulks_lem :
      (k : Calls C) (n : ℕ) (s : Bulks C)
      → IsOrdered s.queue
      → s.queue.process + n ≡ max s.queue.local_insert s.queue.remote_insert
      → (t : Bulks C) × (abort_outstanding_bulks k (suc n) s ≡ some t) × Aborted k s t
  unfolding abort_outstanding_bulks
  abort_outstanding_bulks_lem k zero s v h =
      let near : (s.queue.process == s.queue.local_insert) ≡ true =
        ground (arith, h, v.local_near, v.remote_near) in
      let far : (s.queue.process == s.queue.remote_insert) ≡ true =
        ground (arith, h, v.local_near, v.remote_near) in
      (
        s,
        rw (near, far) refl,
        record {
          level =
              (omega (arith, h), omega (arith, h, v.local_near), omega (arith, h, v.remote_near));
          kept = (refl, refl);
          before = λ x l l'. refl;
          own = λ x l l'. (refl, refl, refl);
          dummies = λ x l l'. absurd (omega (arith, h, l, l', v.local_near));
        },
      )
  abort_outstanding_bulks_lem k (suc n) s v h =
      let going : (s.queue.process == s.queue.local_insert
            && s.queue.process == s.queue.remote_insert)
          ≡ false =
        ground (arith, h) in
      let d = abort_bulk-Stepped k s v (omega (arith, v.local_near, v.remote_near, v.small, h)) in
      let l : s.queue.process < max s.queue.local_insert s.queue.remote_insert = omega (arith, h) in
      let (t, run, a) =
        abort_outstanding_bulks_lem k n (abort_bulk k s)
          (Stepped-IsOrdered s (abort_bulk k s) v l d)
          (omega (arith, h, d.next, d.local_next, d.remote_next)) in
      (t, rw going run, Stepped-Aborted k s (abort_bulk k s) t v l d a)
