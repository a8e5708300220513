-- ===== src/Connected/Once.antt =====
-- Every callback is called once, in the order of the registrations.
use ampi.Base.{
  ℕ, ◌+◌, ◌≡◌, ◌≤◌, ◌<◌, ◌∙◌, sym, ap, refl, true, false, List, [], ◌∷◌, ◌++◌, length, set, get_or,
  zero, suc, arith, append_assoc, append-nil, length-set, get_or-set_self, get_or-set_ne,
}
use native.Mathlib.Nat.{zero-add}
use native.Mathlib.Numerals.{add-one}
use ampi.Connected.{
  Connection, max_callbacks, initial, connected_init, call, defer, add_callback, call_from,
  call_callbacks, add_all,
}

-- The first `n` elements from index `i` on.
abbrev pub slots : ℕ → ℕ → List ℕ → List ℕ
slots zero i fs = []
slots (suc n) i fs = get_or fs i 0 ∷ slots n (i + 1) fs

-- The callbacks that wait.
abbrev pub waiting : Connection → List ℕ
waiting c = slots c.num_deferred 0 c.deferred

pub record IsValid (c : Connection) : Type 0 where
  pub room : length c.deferred ≡ max_callbacks
  pub bounded : c.num_deferred ≤ max_callbacks
  pub done : c.connected ≡ true → c.num_deferred ≡ 0

slots-set : (n i j f : ℕ) (fs : List ℕ) → i + n ≤ j → slots n i (set fs j f) ≡ slots n i fs
slots-set zero i j f fs h = refl
slots-set (suc n) i j f fs h =
    rw (get_or-set_ne fs j i f 0 (λ e. omega arith), slots-set n (i + 1) j f fs (omega arith))

slots-snoc : (n i : ℕ) (fs : List ℕ) → slots (suc n) i fs ≡ slots n i fs ++ get_or fs (i + n) 0 ∷ []
slots-snoc zero i fs = ap (λ k. get_or fs k 0 ∷ []) (omega arith)
slots-snoc (suc n) i fs =
    ap (◌∷◌ (get_or fs i 0))
      (slots-snoc n (i + 1) fs ∙ ap (λ k. slots n (i + 1) fs ++ get_or fs k 0 ∷ []) (omega arith))

call_from_lem :
    (n i : ℕ) (c : Connection)
    → call_from n i c ≡ record c { called = c.called ++ slots n i c.deferred }
unfolding call_from
call_from_lem zero i c = ap (λ l. record c { called = l }) (sym (append-nil c.called))
call_from_lem (suc n) i c =
    call_from_lem n (i + 1) (call (get_or c.deferred i 0) c)
    ∙ ap (λ l. record c { called = l }) (append_assoc c.called _ _)

-- Before the connection a callback joins those that wait, if there is room, and nothing is called.
add_callback_waits :
    (f : ℕ) (c : Connection)
    → IsValid c
    → c.connected ≡ false
    → c.num_deferred < max_callbacks
    → let c' = add_callback f c in
      (waiting c' ≡ waiting c ++ f ∷ [])
      × (c'.called ≡ c.called)
      × (c'.connected ≡ false)
      × (c'.num_deferred ≡ c.num_deferred + 1)
      × IsValid c'
unfolding add_callback defer
add_callback_waits f c v e h = ground (arith, joined, length-set c.deferred c.num_deferred f)
  where
    joined :
        slots (c.num_deferred + 1) 0 (set c.deferred c.num_deferred f)
        ≡ slots c.num_deferred 0 c.deferred ++ f ∷ []
    joined =
        ap (λ n. slots n 0 (set c.deferred c.num_deferred f)) (add-one c.num_deferred)
        ∙ slots-snoc c.num_deferred 0 (set c.deferred c.num_deferred f)
        ∙ rw (
          slots-set c.num_deferred 0 c.num_deferred f c.deferred (omega arith),
          zero-add c.num_deferred,
          get_or-set_self c.deferred c.num_deferred f 0 (omega (arith, v.room)),
        )

-- The connection calls those that wait, in order, and nobody waits any more.
call_callbacks_lem :
    (c : Connection)
    → let c' = call_callbacks c in
      (c'.called ≡ c.called ++ waiting c) × (c'.num_deferred ≡ 0) × (c'.connected ≡ true)
unfolding call_callbacks
call_callbacks_lem c = ground (arith, call_from_lem c.num_deferred 0 (connected_init c))

add_all_waits :
    (fs : List ℕ) (c : Connection)
    → IsValid c
    → c.connected ≡ false
    → c.num_deferred + length fs ≤ max_callbacks
    → let c' = add_all fs c in (waiting c' ≡ waiting c ++ fs) × (c'.called ≡ c.called)
unfolding add_all
add_all_waits [] c v e h = (sym (append-nil (waiting c)), refl)
add_all_waits (f ∷ fs) c v e h =
    let (w, same, e', n, v') = add_callback_waits f c v e (omega arith) in
    let (ws, sames) = add_all_waits fs (add_callback f c) v' e' (omega (arith, n)) in
    (ws ∙ rw w (append_assoc (waiting c) (f ∷ []) fs), sames ∙ same)

add_callback_now :
    (f : ℕ) (c : Connection) → c.connected ≡ true → add_callback f c ≡ call f (connected_init c)
unfolding add_callback
add_callback_now f c e = ground arith

add_all_called :
    (fs : List ℕ) (c : Connection)
    → c.connected ≡ true
    → let c' = add_all fs c in
      (c'.called ≡ c.called ++ fs) × (c'.connected ≡ true) × (c'.num_deferred ≡ c.num_deferred)
unfolding add_all
add_all_called [] c e = (sym (append-nil c.called), e, refl)
add_all_called (f ∷ fs) c e =
    let (a, b, n) = add_all_called fs (call f (connected_init c)) e in
    rw (add_callback_now f c e, add_all) (a ∙ append_assoc c.called (f ∷ []) fs, b, n)

initial-IsValid : IsValid initial
initial-IsValid = record { room = refl; bounded = omega arith; done = λ e. refl }

-- Ten callbacks at most that are registered before the connection, and any number after it, are
-- each called once, in the order of their registrations; connecting again calls nothing again.
pub all_called_once :
    (fs gs : List ℕ)
    → length fs ≤ max_callbacks
    → (call_callbacks (add_all gs (call_callbacks (add_all fs initial)))).called ≡ fs ++ gs
all_called_once fs gs h =
    let before = add_all fs initial in
    let now = call_callbacks before in
    let (w, quiet) = add_all_waits fs initial initial-IsValid refl (omega arith) in
    let (a, n, e) = call_callbacks_lem before in
    let (b, e', n') = add_all_called gs now e in
    let (again, _, _) = call_callbacks_lem (add_all gs now) in ground (arith, append-nil (fs ++ gs))

-- An eleventh callback before the connection is dropped with an error.
add_callback_full :
    (f : ℕ) (c : Connection)
    → c.connected ≡ false
    → max_callbacks ≤ c.num_deferred
    → add_callback f c ≡ record c { once_init = true; errors = c.errors + 1 }
unfolding add_callback defer
add_callback_full f c e h = ground arith
