-- ===== src/Services/Tests.antt =====
-- Runs on a table with one service, and the theorems at inputs that meet their hypotheses.
use ampi.Base.{
  ℕ, ◌≡◌, ◌⊎◌, ◌∙◌, refl, sym, ap, true, false, ◌==◌, ==-eq-false, if◌then◌else◌, Option, none,
  some, [], arith, ℕ_discrete,
}
use ampi.Services.{
  Service, Services, Quota, opened, listening, find_service_by_handle, unlock_service,
  get_client_id, put, claim, hold,
}
use ampi.Services.References.{IsValid, held}
use ampi.Services.Add.{Params, add_service}
use ampi.Services.Add.Find.{add-find}
use ampi.Services.Add.Port.{NoPort}
use ampi.Services.Add.Place.{Added, add_service_lem}

abbrev audio : Service
audio = record {
  fourcc = 0x41554453;
  callback = 11;
  userdata = 12;
  handle = 4096;
  ref_count = 1;
  srvstate = opened;
  userdata_term = 0;
  localport = 0;
  remoteport = 9;
  public_fourcc = 0;
  client_id = 33;
  auto_close = true;
  sync = false;
  closing = false;
  version = 2;
  version_min = 1;
  peer_version = 0;
  owner = 7;
  remove_event = 0;
}

abbrev quota : Quota
quota = record {
  slot_quota = 0;
  slot_use_count = 0;
  message_quota = 0;
  message_use_count = 0;
  quota_event = 0;
  previous_tx_index = 0;
}

abbrev table : Services
table = record {
  services = λ i. if i == 0 then some audio else none;
  unused_service = 1;
  handle_seq = 8192;
  quotas = λ i. quota;
  default_slot_quota = 30;
  default_message_quota = 7680;
  local_tx_pos = 0;
  terminated = [];
}

client_of_audio :
    get_client_id 4096 table ≡ some (33, put 0 (some audio) (put 0 (some (held audio)) table))
unfolding get_client_id find_service_by_handle claim hold unlock_service put
client_of_audio = refl

abbrev refs : Option Service → ℕ
refs none = 0
refs (some v) = v.ref_count

abbrev port_of : Option Service → ℕ
port_of none = 1
port_of (some v) = v.localport

abbrev there : Option Service → ℕ
there none = 0
there (some v) = 1

only_first : (p : ℕ) (v : Service) → table.services p ≡ some v → p ≡ 0
only_first p v e = elim (ℕ_discrete p 0) [
  | yes z ↦ z
  | no ne ↦
      let missing : table.services p ≡ none = rw (==-eq-false p 0 ne) refl in
      let n : 0 ≡ 1 = sym (ap there missing) ∙ ap there e in absurd (omega (arith, n))
]

table-IsValid : IsValid table
table-IsValid = record {
  counted = λ p v e.
      let n : 1 ≡ v.ref_count = sym (ap refs (ap table.services (only_first p v e))) ∙ ap refs e in
      (omega (arith, n), omega (arith, n));
  ports = λ p v e.
      let n : 0 ≡ v.localport =
        sym (ap port_of (ap table.services (only_first p v e))) ∙ ap port_of e in
      sym n ∙ sym (only_first p v e);
  beyond = λ p l. rw (==-eq-false p 0 (omega (arith, l))) refl;
}

abbrev params : Params
params = record { fourcc = 5; callback = 6; userdata = 0; version = 2; version_min = 1 }

add_service_lem_example :
    let (r, t) = add_service true params listening 7 0 table in
    ((r ≡ none) × (t ≡ table) × ((true ≡ false) ⊎ NoPort params listening 7 table))
    ⊎ ((p : ℕ) × (r ≡ some p) × (true ≡ true) × Added listening 7 p table t)
add_service_lem_example =
    add_service_lem true params listening 7 0 table table-IsValid (omega arith)

add-find_example :
    let (r, t) = add_service true params listening 7 0 table in
    (r ≡ none)
    ⊎ ((p : ℕ) × (v : Service) × (r ≡ some p)
        × (t.services p ≡ some v)
        × (find_service_by_handle v.handle t ≡ some (some p, put p (some (held v)) t)))
add-find_example = add-find true params listening 7 0 table table-IsValid (omega arith) refl refl
