-- ===== src/Connection/Diagram.antt =====
-- The state diagram of the connection of ampi/vc4/vchiq/vchiq_core.c, and the locks in each state.
use ampi.Base.{
  ℕ, ◌≡◌, ◌≢◌, ◌∙◌, refl, sym, ap, subst, Bool, true, false, if◌then◌else◌, Option, none, some,
  List, inl, inr, Bool-cases,
}
use ampi.Connection.{
  Calls, ConnState, CoreState, Occurrence, conn_state_changed, connected, is_retry, pause_asked,
  pause_received, pause_sent, paused, pausing, polled, resume_asked, resume_message,
  resume_received, resuming, set_conn_state,
}

-- The slot mutex is held from the PAUSE that is sent to the RESUME.
unfoldable pub held : ConnState → ℕ
held pause_sent = 1
held paused = 1
held resuming = 1
held _ = 0

-- The master also holds the mutex of the bulks, and counts this.
unfoldable pub held_bulks : ConnState → Bool → ℕ
held_bulks pause_sent master = if master then 1 else 0
held_bulks paused master = if master then 1 else 0
held_bulks resuming master = if master then 1 else 0
held_bulks _ master = 0

-- The states in which a PAUSE pauses the connection
unfoldable pub may_pause : ConnState → Bool
may_pause paused = false
may_pause resuming = false
may_pause _ = true

-- The state diagram of the connection
pub data Moves : ConnState → ConnState → Type 0 where
  stays : {a : ConnState} → Moves a a
  asks_pause : Moves connected pausing
  sends_pause : Moves pausing pause_sent
  pauses : {a : ConnState} → may_pause a ≡ true → Moves a paused
  asks_resume : Moves paused resuming
  resumes : {a : ConnState} → held a ≡ 1 → Moves a connected

module _ {C : Type 0} where
  -- The locks are held as the state says.
  pub record IsValid (k : Calls C) (s : CoreState C) : Type 0 where
    pub slot : s.slot_mutex ≡ held s.conn_state
    pub bulks : s.bulk_transfer_mutex ≡ held_bulks s.conn_state k.is_master
    pub count : s.pause_bulks_count ≡ held_bulks s.conn_state k.is_master

  -- A PAUSE does not come while this side sends a RESUME, a RESUME answers a PAUSE, and a RESUME can be
  -- sent.
  unfoldable pub Allowed : Calls C → Occurrence → ConnState → C → Type 0
  Allowed k polled a c =
      a ≡ resuming → is_retry (k.queue resume_message (k.check_suspend c)).0 ≡ false
  Allowed k pause_received a c = a ≢ resuming
  Allowed k resume_received a c = held a ≡ 1
  Allowed k pause_asked a c = Unit {0}
  Allowed k resume_asked a c = Unit {0}

  -- How a step from a state `a` ends
  pub record Goes (k : Calls C) (a : ConnState) (s t : CoreState C) : Type 0 where
    pub moved : Moves a t.conn_state
    pub locks : IsValid k t
    pub quiet : t.warnings ≡ s.warnings

  unfoldable pub Ends :
      Calls C
      → ConnState
      → CoreState C
      → List (CoreState C → CoreState C)
      → Option (Unit {0} × CoreState C × List (CoreState C → CoreState C))
      → Type 0
  Ends k a s env none = ⊥
  Ends k a s env (some (_, t, rest)) = Goes k a s t × (rest ≡ env)

  abbrev pub placed : Calls C → ConnState → CoreState C → CoreState C
  placed k a s = record s {
    conn_state = a;
    slot_mutex = held a;
    bulk_transfer_mutex = held_bulks a k.is_master;
    pause_bulks_count = held_bulks a k.is_master;
  }

  pub placed-stays : (k : Calls C) (a : ConnState) (s : CoreState C) → Goes k a s (placed k a s)
  placed-stays k a s = record {
    moved = stays;
    locks = record { slot = refl; bulks = refl; count = refl };
    quiet = refl;
  }

  pub set-Goes :
      (k : Calls C) (a b : ConnState) (s t : CoreState C)
      → Moves a b
      → t.slot_mutex ≡ held b
      → t.bulk_transfer_mutex ≡ held_bulks b k.is_master
      → t.pause_bulks_count ≡ held_bulks b k.is_master
      → t.warnings ≡ s.warnings
      → Goes k a s (set_conn_state k b t)
  unfolding set_conn_state conn_state_changed
  set-Goes k a connected s t m x y z w = elim (Bool-cases t.first_connect) [
    | inl h ↦
        rw h (record { moved = m; locks = record { slot = x; bulks = y; count = z }; quiet = w })
    | inr h ↦
        rw h (record { moved = m; locks = record { slot = x; bulks = y; count = z }; quiet = w })
  ]
  set-Goes k a b s t m x y z w = record {
    moved = m;
    locks = record { slot = x; bulks = y; count = z };
    quiet = w;
  }

  abbrev pub idle : ConnState → CoreState C → CoreState C
  idle a s = record s {
    conn_state = a;
    slot_mutex = 0;
    bulk_transfer_mutex = 0;
    pause_bulks_count = 0;
  }

  pub idle-Goes :
      (k : Calls C) (a : ConnState) (s t : CoreState C)
      → held a ≡ 0
      → held_bulks a k.is_master ≡ 0
      → t.conn_state ≡ a
      → t.slot_mutex ≡ 0
      → t.bulk_transfer_mutex ≡ 0
      → t.pause_bulks_count ≡ 0
      → t.warnings ≡ s.warnings
      → Goes k a s t
  idle-Goes k a s t f g e x y z w = record {
    moved = subst (λ b. Moves a b) (sym e) stays;
    locks = record {
      slot = x ∙ sym (ap held e ∙ f);
      bulks = y ∙ sym (ap (λ b. held_bulks b k.is_master) e ∙ g);
      count = z ∙ sym (ap (λ b. held_bulks b k.is_master) e ∙ g);
    };
    quiet = w;
  }
