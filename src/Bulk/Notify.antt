-- ===== src/Bulk/Notify.antt =====
-- `notify_bulks` of ampi/vc4/vchiq/vchiq_core.c tells the client of its bulk transfers in order.
use ampi.Base.{
  ℕ, zero, suc, ◌+◌, ◌<◌, ◌≡◌, ◌∙◌, refl, sym, ap, subst, Bool, true, false, not, ◌==◌, ◌&&◌,
  if◌then◌else◌, Option, none, some, List, [], ◌∷◌, ◌⊎◌, inl, inr, arith, Bool-cases,
}
use ampi.Base.Words.{word, add32}
use ampi.Slots.Send.{Status, success, error, retry}
use ampi.Bulk.{
  ignore_error, tell, reason_of, Bulk, Bulks, Calls, Mode, bulk_at, bulk_index, callback, blocking,
  no_callback, waiting, report, make_service_callback, report_bulks, reply_bulks, report_replied,
  poll_on_retry, kept_status, notify_bulks, request_poll, poll_notify,
}

-- The `n` bulks from position `p` on.
unfoldable pub bulks_from : (ℕ → Bulk) → ℕ → ℕ → List Bulk
bulks_from bulks p zero = []
bulks_from bulks p (suc n) = bulks (bulk_index p) ∷ bulks_from bulks (p + 1) n

ignore_error-cases : (s : Status) → (ignore_error s ≡ success) ⊎ (ignore_error s ≡ retry)
unfolding ignore_error
ignore_error-cases success = inl refl
ignore_error-cases error = inl refl
ignore_error-cases retry = inr refl

module _ {C : Type 0} where
  -- The client is told of each of some bulks, in their order.
  unfoldable pub report_all : Calls C → List Bulk → C → C
  report_all k [] c = c
  report_all k (b ∷ bs) c = report_all k bs (report k b c).1

  -- The reports of some bulks, in their order, all succeed: no callback asks for a retry.
  unfoldable pub Quiet : Calls C → List Bulk → C → Type 0
  Quiet k [] c = Unit {0}
  Quiet k (b ∷ bs) c = ((report k b c).0 ≡ success) × Quiet k bs (report k b c).1

  tell-cases :
      (k : Calls C) (b : Bulk) (c : C) (m : Mode)
      → ((tell k b c m).0 ≡ success) ⊎ ((tell k b c m).0 ≡ retry)
  unfolding tell make_service_callback
  tell-cases k b c callback = ignore_error-cases (k.call (reason_of b) b.userdata c).0
  tell-cases k b c blocking = inl refl
  tell-cases k b c no_callback = inl refl
  tell-cases k b c waiting = inl refl

  -- A report succeeds or has to be made again.
  report-cases :
      (k : Calls C) (b : Bulk) (c : C) → ((report k b c).0 ≡ success) ⊎ ((report k b c).0 ≡ retry)
  unfolding report
  report-cases k b c = elim (Bool-cases (not (b.local_data == 0) && k.has_instance)) [
    | inl y ↦ rw y (tell-cases k b c b.mode)
    | inr n ↦ rw n (inl refl)
  ]

  -- What is left after `m` reports.
  unfoldable pub reported : ℕ → C → Bulks C → Bulks C
  reported m c s = record s {
    queue = record s.queue { remove = s.queue.remove + m };
    bulk_remove_event = s.bulk_remove_event + m;
    client = c;
  }

  -- How the second loop ends, for `n` bulks: all of them are reported, or the first `m` are, and the
  -- one behind them has asked for a retry.
  unfoldable pub Ends : Calls C → ℕ → Bulks C → Status × Bulks C → Type 0
  Ends k n s r =
      (Quiet k (bulks_from s.queue.bulks s.queue.remove n) s.client
        × (r ≡ (
          success,
          reported n (report_all k (bulks_from s.queue.bulks s.queue.remove n) s.client) s,
        )))
      ⊎ ((m : ℕ) × (m < n)
          × Quiet k (bulks_from s.queue.bulks s.queue.remove m) s.client
          × (let c = report_all k (bulks_from s.queue.bulks s.queue.remove m) s.client in
              let last = report k (bulk_at s.queue (s.queue.remove + m)) c in
              (last.0 ≡ retry) × (r ≡ (retry, reported m last.1 s))))

  reported-reported :
      (m : ℕ) (c d : C) (s : Bulks C) → reported m d (reported 1 c s) ≡ reported (suc m) d s
  unfolding reported
  reported-reported m c d s =
      let place : s.queue.remove + 1 + m ≡ s.queue.remove + suc m = omega arith in
      let event : s.bulk_remove_event + 1 + m ≡ s.bulk_remove_event + suc m = omega arith in
      rw (place, event) refl

  -- One report before the others
  Ends-suc :
      (k : Calls C) (n : ℕ) (s : Bulks C) (r : Status × Bulks C)
      → (report k (bulk_at s.queue s.queue.remove) s.client).0 ≡ success
      → Ends k n (reported 1 (report k (bulk_at s.queue s.queue.remove) s.client).1 s) r
      → Ends k (suc n) s r
  unfolding Ends Quiet reported bulks_from report_all
  Ends-suc k n s r done (inl (quiet, e)) =
      let first : C = (report k (bulk_at s.queue s.queue.remove) s.client).1 in
      inl ((done, quiet), e ∙ ap (λ t. (success, t)) (reported-reported n first _ s))
  Ends-suc k n s r done (inr (m, l, quiet, (again, e))) =
      let place : s.queue.remove + 1 + m ≡ s.queue.remove + suc m = omega arith in
      let first : C = (report k (bulk_at s.queue s.queue.remove) s.client).1 in
      let before : C = report_all k (bulks_from s.queue.bulks (s.queue.remove + 1) m) first in
      inr (
        suc m,
        omega (arith, l),
        (done, quiet),
        subst
            (λ p.
              ((report k (bulk_at s.queue p) before).0 ≡ retry)
              × (r ≡ (retry, reported (suc m) (report k (bulk_at s.queue p) before).1 s)))
            place (again, e ∙ ap (λ t. (retry, t)) (reported-reported m first _ s)),
      )

  reported-zero : (c : C) (s : Bulks C) → reported 0 c s ≡ record s { client = c }
  unfolding reported
  reported-zero c s =
      let place : s.queue.remove + 0 ≡ s.queue.remove = omega arith in
      let event : s.bulk_remove_event + 0 ≡ s.bulk_remove_event = omega arith in
      rw (place, event) refl

  report_bulks_over :
      (k : Calls C) (fuel : ℕ) (s : Bulks C)
      → (s.queue.remove == s.queue.remote_notify) ≡ true
      → report_bulks k (suc fuel) s ≡ some (success, s)
  unfolding report_bulks
  report_bulks_over k fuel s over = rw over refl

  report_bulks_step :
      (k : Calls C) (fuel : ℕ) (s : Bulks C)
      → (s.queue.remove == s.queue.remote_notify) ≡ false
      → s.queue.remove + 1 < word
      → (report k (bulk_at s.queue s.queue.remove) s.client).0 ≡ success
      → report_bulks k (suc fuel) s
        ≡ report_bulks k fuel (reported 1 (report k (bulk_at s.queue s.queue.remove) s.client).1 s)
  unfolding report_bulks reported
  report_bulks_step k fuel s going small done =
      let sum : add32 s.queue.remove 1 ≡ s.queue.remove + 1 = omega (arith, small) in
      rw (going, done, sum) refl

  report_bulks_retry :
      (k : Calls C) (fuel : ℕ) (s : Bulks C)
      → (s.queue.remove == s.queue.remote_notify) ≡ false
      → (report k (bulk_at s.queue s.queue.remove) s.client).0 ≡ retry
      → report_bulks k (suc fuel) s
        ≡ some (retry, record s { client = (report k (bulk_at s.queue s.queue.remove) s.client).1 })
  unfolding report_bulks
  report_bulks_retry k fuel s going again = rw (going, again) refl

  report_bulks-Ends :
      (k : Calls C) (n : ℕ) (s : Bulks C)
      → s.queue.remove + n ≡ s.queue.remote_notify
      → s.queue.remote_notify < word
      → (r : Status × Bulks C) × (report_bulks k (suc n) s ≡ some r) × Ends k n s r
  unfolding Ends Quiet reported bulks_from report_all
  report_bulks-Ends k zero s h small =
      let over : (s.queue.remove == s.queue.remote_notify) ≡ true = ground (arith, h) in
      (
        (success, s),
        report_bulks_over k 0 s over,
        inl (tt, ap (λ t. (success, t)) (sym (reported-zero s.client s))),
      )
  report_bulks-Ends k (suc n) s h small =
      let going : (s.queue.remove == s.queue.remote_notify) ≡ false = ground (arith, h) in
      let c : C = (report k (bulk_at s.queue s.queue.remove) s.client).1 in
      elim (report-cases k (bulk_at s.queue s.queue.remove) s.client) [
        | inl done ↦
            let (r, run, ends) = report_bulks-Ends k n (reported 1 c s) (omega (arith, h)) small in
            (
              r,
              report_bulks_step k (suc n) s going (omega (arith, h, small)) done ∙ run,
              Ends-suc k n s r done ends,
            )
        | inr again ↦
            let place : s.queue.remove + 0 ≡ s.queue.remove = omega arith in
            let stuck : Bulks C → Status × Bulks C = λ t. (retry, t) in
            (
              (retry, record s { client = c }),
              report_bulks_retry k (suc n) s going again,
              inr (
                0,
                omega arith,
                tt,
                subst
                    (λ p.
                      ((report k (bulk_at s.queue p) s.client).0 ≡ retry)
                      × (stuck (record s { client = c })
                          ≡ stuck (reported 0 (report k (bulk_at s.queue p) s.client).1 s)))
                    (sym place) (again, ap stuck (sym (reported-zero c s))),
              ),
            )
      ]

  -- On this side, all bulks up to `process` may be reported.
  abbrev pub noted : Bulks C → Bulks C
  noted s = record s { queue = record s.queue { remote_notify = s.queue.process } }

  abbrev pub polled : Calls C → Bulks C → Bulks C
  polled k s = record s { poll = request_poll (some k.localport) (poll_notify k.side) s.poll }

  -- What `notify_bulks` does with `n` bulks that are processed: it tells the client of all of them, or of
  -- those before the first one whose callback asks for a retry, and then asks to be polled if
  -- `retry_poll` is set.
  unfoldable pub Notified : Calls C → ℕ → Bool → Bulks C → Status × Bulks C → Type 0
  Notified k n retry_poll s r =
      (Quiet k (bulks_from s.queue.bulks s.queue.remove n) s.client
        × (r ≡ (
          success,
          reported n (report_all k (bulks_from s.queue.bulks s.queue.remove n) s.client) (noted s),
        )))
      ⊎ ((m : ℕ) × (m < n)
          × Quiet k (bulks_from s.queue.bulks s.queue.remove m) s.client
          × (let c = report_all k (bulks_from s.queue.bulks s.queue.remove m) s.client in
              let last = report k (bulk_at s.queue (s.queue.remove + m)) c in
              let left = reported m last.1 (noted s) in
              (last.0 ≡ retry)
              × (r ≡ (if retry_poll then (retry, polled k left) else (success, left)))))

  notify_bulks_run :
      (k : Calls C) (fuel : ℕ) (retry_poll : Bool) (s : Bulks C) (r : Status × Bulks C)
      → k.is_master ≡ false
      → report_bulks k fuel (noted s) ≡ some r
      → notify_bulks k fuel retry_poll s ≡ some (poll_on_retry k (kept_status retry_poll r))
  unfolding notify_bulks
  notify_bulks_run k fuel retry_poll s r slave run =
      ap
        (λ b.
          report_replied k fuel retry_poll
            (if b then reply_bulks k fuel s else some (success, noted s)))
        slave
      ∙ ap
          (λ (o : Option (Status × Bulks C)). elim o [
            | none ↦ none
            | some x ↦ some (poll_on_retry k (kept_status retry_poll x))
          ])
          run

  kept_success :
      (k : Calls C) (retry_poll : Bool) (s t : Bulks C)
      → poll_on_retry k (kept_status retry_poll (success, t)) ≡ (success, t)
  kept_success k true s t = refl
  kept_success k false s t = refl

  kept_retry :
      (k : Calls C) (retry_poll : Bool) (t : Bulks C)
      → poll_on_retry k (kept_status retry_poll (retry, t))
        ≡ (if retry_poll then (retry, polled k t) else (success, t))
  kept_retry k true t = refl
  kept_retry k false t = refl

  -- The side that is not the master tells its client of the bulks that are processed and not yet
  -- removed, each once and in their order, and removes them, when no callback asks for a retry; or
  -- those before the first one whose callback asks for a retry, which stays with those behind it
  -- for the next time. As many rounds as there are
  -- such bulks, and one more, are enough. (No index wraps.)
  pub notify_bulks_lem :
      (k : Calls C) (n : ℕ) (retry_poll : Bool) (s : Bulks C)
      → k.is_master ≡ false
      → s.queue.remove + n ≡ s.queue.process
      → s.queue.process < word
      → (r : Status × Bulks C) × (notify_bulks k (suc n) retry_poll s ≡ some r)
        × Notified k n retry_poll s r
  unfolding Notified Ends
  notify_bulks_lem k n retry_poll s slave h small =
      let (r, run, ends) = report_bulks-Ends k n (noted s) h small in
      let whole = notify_bulks_run k (suc n) retry_poll s r slave run in
      let result : Status × Bulks C → Status × Bulks C =
        λ x. poll_on_retry k (kept_status retry_poll x) in
      (
        result r,
        whole,
        elim ends [
          | inl (quiet, e) ↦ inl (quiet, ap result e ∙ kept_success k retry_poll s _)
          | inr (m, l, quiet, (again, e)) ↦
              inr (m, l, quiet, (again, ap result e ∙ kept_retry k retry_poll _))
        ],
      )
