-- ===== src/Shim/Tests.antt =====
-- Messages and transfers of a service, and the theorems at inputs that meet their hypotheses.
use ampi.Base.{ℕ, zero, suc, ◌+◌, ◌≡◌, refl, arith, true, some, [], ◌∷◌}
use ampi.Slots.Send.{Status, success, retry}
use ampi.Queue.{Queue, is_empty}
use ampi.Queue.Refine.{IsValid}
use ampi.Shim.{Shim, msg_peek, msg_remove, msg_hold, held_msg_release, writebuf_uint32}
use ampi.Shim.Ownership.{Left, hold-peek}

-- Four slots with the headers 11, 12 and 13; the positions are about to wrap round.
abbrev three : Queue
three = record {
  size = 4;
  read = 0xfffffffe;
  write = 1;
  initialized = true;
  pop_sem = 0;
  push_sem = 0;
  storage = 13 ∷ 0 ∷ 11 ∷ 12 ∷ [];
}

three-IsValid : IsValid 2 three
three-IsValid = record {
  small = omega arith;
  power = refl;
  slots = refl;
  reads = omega arith;
  writes = omega arith;
  bounded = omega arith;
  ready = refl;
}

abbrev service : Shim
service = record {
  handle = 4096;
  queue = three;
  has_callback = true;
  released = [];
  callbacks = [];
  size_of = λ h. h + 100;
}

little_endian : writebuf_uint32 0x12345678 ≡ (0x78, 0x56, 0x34, 0x12)
unfolding writebuf_uint32
little_endian = refl

hold-peek_example :
    (header : ℕ) × (peeked removed held : Shim) × (msg_peek 1 0 service
      ≡ some (some (header, header + 100), peeked))
    × (msg_remove 1 peeked ≡ some removed)
    × (msg_hold 1 0 service ≡ some (some (header, header + 100), held))
    × Left service header removed
    × Left service header (held_msg_release header held)
unfolding is_empty
hold-peek_example = hold-peek 2 0 0 service three-IsValid refl

-- The core takes the message when nothing is in front of it any more.
abbrev call : ℕ → Status × ℕ
call zero = (success, 10)
call (suc n) = (retry, suc n)

abbrev sleep : ℕ → ℕ
sleep zero = zero
sleep (suc n) = n
