-- ===== src/Connected/Tests.antt =====
-- The theorems on the deferred callbacks at inputs that meet their hypotheses.
use ampi.Base.{◌≡◌, arith, [], ◌∷◌, set, replicate}
use ampi.Connected.{Connection, max_callbacks, initial, call_callbacks, add_all}
use ampi.Connected.Once.{all_called_once}

abbrev one_waits : Connection
one_waits = record initial { num_deferred = 1; deferred = set (replicate max_callbacks 0) 0 5 }

all_called_once_example :
    (call_callbacks (add_all (3 ∷ []) (call_callbacks (add_all (1 ∷ 2 ∷ []) initial)))).called
    ≡ 1 ∷ 2 ∷ 3 ∷ []
all_called_once_example = all_called_once (1 ∷ 2 ∷ []) (3 ∷ []) (omega arith)

abbrev crowded : Connection
crowded = record initial { num_deferred = 10; deferred = replicate max_callbacks 5 }
