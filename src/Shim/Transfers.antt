-- ===== src/Shim/Transfers.antt =====
-- ampi/vc4/vchiq/vchiq_shim.c: the functions that send messages and start bulk transfers, which try again
-- until the core has taken them.
use ampi.Base.{
  ℕ, zero, suc, ◌≡◌, ◌≢◌, ◌≤◌, refl, ap, Bool, true, false, ◌==◌, ◌||◌, if◌then◌else◌, Option, none,
  some, arith,
}
use ampi.Slots.Send.{Status, success, error, retry}
use ampi.Bulk.{Mode, Direction, transmit, receive, callback, blocking, no_callback}

-- `while (status == VCHIQ_RETRY) { msleep (1); ... }` from the status on; `sleep` is `msleep (1)`. `none` says
-- that the fuel is spent.
unfoldable pub retry_while :
    {S : Type 0} → (S → S) → (S → Status × S) → Status → ℕ → S → Option (Status × S)
retry_while sleep call success fuel s = some (success, s)
retry_while sleep call error fuel s = some (error, s)
retry_while sleep call retry zero s = none
retry_while sleep call retry (suc fuel) s =
    let (status, t) = call (sleep s) in retry_while sleep call status fuel t

-- The first call, and the loop behind it, as in `vchi_msg_queue`
unfoldable pub until_taken : {S : Type 0} → ℕ → (S → S) → (S → Status × S) → S → Option (Status × S)
until_taken fuel sleep call s = let (status, t) = call s in retry_while sleep call status fuel t

-- The modes for the flags of `vchi_bulk_queue_receive` and `vchi_bulk_queue_transmit`
unfoldable pub bulk_mode : Direction → ℕ → Option Mode
bulk_mode dir flags =
    let waits : Bool = elim dir [ transmit ↦ flags == 0x10 | receive ↦ false ] in
    if flags == 0x6
    then some callback
    else if flags == 0x1 || waits
    then some blocking
    else if flags == 0x4 || flags == 0x0
    then some no_callback
    else none

-- `vchi_bulk_queue_receive` and `vchi_bulk_queue_transmit`: `transfer` is `vchiq_bulk_receive` or
-- `vchiq_bulk_transmit`.
unfoldable pub bulk_queue :
    {S : Type 0} → ℕ → (S → S) → (Mode → S → Status × S) → Direction → ℕ → S → Option (Status × S)
bulk_queue fuel sleep transfer dir flags s = elim (bulk_mode dir flags) [
  | none ↦ some (error, s)
  | some mode ↦ until_taken fuel sleep (transfer mode) s
]

abbrev is_settled : Status → Bool
is_settled retry = false
is_settled _ = true

settled-retry : (status : Status) → is_settled status ≡ true → status ≡ retry → ⊥
settled-retry status y e = grind (arith, ap is_settled e, y)

-- The calls ask to be repeated `n` times, and the next one does not.
pub data Settles {S : Type 0} (sleep : S → S) (call : S → Status × S)
    : ℕ → Status → S → Status → S → Type 0 where
  done : (s : S) → Settles sleep call 0 success s success s
  refused : (s : S) → Settles sleep call 0 error s error s
  again :
      (n : ℕ) (s : S) (status : Status) (t : S)
      → Settles sleep call n (call (sleep s)).0 (call (sleep s)).1 status t
      → Settles sleep call (suc n) retry s status t

retry_while_lem :
    {S : Type 0} (sleep : S → S) (call : S → Status × S) {n : ℕ} {first : Status} {s : S}
    {status : Status} {t : S} (fuel : ℕ)
    → n ≤ fuel
    → Settles sleep call n first s status t
    → (retry_while sleep call first fuel s ≡ some (status, t)) × (status ≢ retry)
unfolding retry_while
retry_while_lem sleep call fuel h (done s) = (refl, (λ e. settled-retry success refl e))
retry_while_lem sleep call fuel h (refused s) = (refl, (λ e. settled-retry error refl e))
retry_while_lem sleep call zero h (again n s status t c) = absurd (omega (arith, h))
retry_while_lem sleep call (suc fuel) h (again n s status t c) =
    retry_while_lem sleep call fuel (omega (arith, h)) c

-- `vchi_msg_queue`, `vchi_bulk_queue_receive` and `vchi_bulk_queue_transmit` end with the first status that is
-- not a retry, as soon as the core gives one, and with the state it leaves; fuel for each retry is
-- enough.
until_taken_lem :
    {S : Type 0} (sleep : S → S) (call : S → Status × S) {n : ℕ} {s : S} {status : Status} {t : S}
    (fuel : ℕ)
    → n ≤ fuel
    → Settles sleep call n (call s).0 (call s).1 status t
    → (until_taken fuel sleep call s ≡ some (status, t)) × (status ≢ retry)
unfolding until_taken
until_taken_lem sleep call fuel h c = retry_while_lem sleep call fuel h c
