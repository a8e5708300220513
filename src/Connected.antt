-- ===== src/Connected.antt =====
-- ampi/vc4/vchiq/vchiq_connected.c: callbacks that wait for the connection to VideoCore.
mod Tests
pub mod Once
use ampi.Base.{
  ℕ, ◌+◌, Bool, true, false, leb, if◌then◌else◌, List, [], ◌∷◌, ◌++◌, length, set, get_or, zero,
  suc, replicate,
}

-- `MAX_CALLBACKS`
abbrev pub max_callbacks : ℕ
max_callbacks = 10

-- The variables of vchiq_connected.c. The log holds the callbacks that have been called, the
-- latest last. The functions hold their mutex throughout, so a call of one is a step.
pub record Connection : Type 0 where
  pub connected : Bool
  pub num_deferred : ℕ
  pub deferred : List ℕ
  pub once_init : Bool
  pub called : List ℕ
  pub errors : ℕ

abbrev pub initial : Connection
initial = record {
  connected = false;
  num_deferred = 0;
  deferred = replicate max_callbacks 0;
  once_init = false;
  called = [];
  errors = 0;
}

abbrev pub connected_init : Connection → Connection
connected_init c = record c { once_init = true }

abbrev pub call : ℕ → Connection → Connection
call callback c = record c { called = c.called ++ callback ∷ [] }

-- The branch of `vchiq_add_connected_callback` before the connection.
unfoldable pub defer : ℕ → Connection → Connection
defer callback c =
    if leb max_callbacks c.num_deferred then record c { errors = c.errors + 1 } else record c {
      deferred = set c.deferred c.num_deferred callback;
      num_deferred = c.num_deferred + 1;
    }

-- `vchiq_add_connected_callback`
unfoldable pub add_callback : ℕ → Connection → Connection
add_callback callback c =
    let c' = connected_init c in if c'.connected then call callback c' else defer callback c'

-- The loop of `vchiq_call_connected_callbacks` from the index `i` on, with `n` callbacks to go.
unfoldable pub call_from : ℕ → ℕ → Connection → Connection
call_from zero i c = c
call_from (suc n) i c = call_from n (i + 1) (call (get_or c.deferred i 0) c)

-- `vchiq_call_connected_callbacks`
unfoldable pub call_callbacks : Connection → Connection
call_callbacks c =
    let c' = connected_init c in
    record (call_from c'.num_deferred 0 c') { num_deferred = 0; connected = true }

unfoldable pub add_all : List ℕ → Connection → Connection
add_all [] c = c
add_all (f ∷ fs) c = add_all fs (add_callback f c)
