-- ===== src/Examples/Bridges.antt =====
-- The theorems on the serial transport, the bridge and its client (src/lms200) at concrete inputs.
use gepruft_lidar.Prelude.{
  ℕ, ◌⊎◌, ◌++◌, sym, ap, take, length, ◌≡◌, refl, true, false, none, some, List, [], ◌∷◌,
}
use gepruft_lidar.Prelude.Result.{ok, err, timeout_error}
use gepruft_lidar.Bridge.{Bridge, create, lease_op, baud_op}
use gepruft_lidar.Bridge.Lease.{
  Step, first, request, connects, hangs_up, run, IsExclusive, bridge-IsExclusive,
}
use gepruft_lidar.Tcp
use gepruft_lidar.Tcp.{Net, Tcp, set_baud}
use gepruft_lidar.Tcp.Baud.{set_baud-Followed, Followed}
use gepruft_lidar.Examples.Devices.{quiet_line}
use gepruft_lidar.Serial
use gepruft_lidar.Serial.{SerialDevice, SerialTransport, write}
use gepruft_lidar.Serial.Written.{IsWire, write-IsComplete}
use gepruft_lidar.Prelude.Result.{Error}
use gepruft_lidar.Device.Exec.{done, raised}

abbrev local : Bridge ℕ
local = record {
  serial = 0;
  control_port = some 7001;
  token = [];
  high_speed = false;
  lease = false;
  owners = [];
  peer = none;
  data_server = false;
  data_client = none;
}

local-create : create 0 true (some 7001) [] false ≡ ok local
unfolding create
local-create = refl

-- Two connections ask for the lease; the first sets a rate and its peer connects.
abbrev steps : List Step
steps =
    first 1 5 (lease_op [])
    ∷ first 2 6 (lease_op [])
    ∷ request 1 (baud_op 9600)
    ∷ connects 5
    ∷ hangs_up 2
    ∷ []

bridge-IsExclusive_example : IsExclusive (run quiet_line steps local)
bridge-IsExclusive_example =
    bridge-IsExclusive quiet_line 0 true (some 7001) [] false local steps local-create

-- A bridge that grants each request, at 9600 baud.
abbrev granting : Net
granting = record {
  State = ℕ;
  dial = λ port s. (ok tt, s);
  exchange = λ r s. (ok (record { is_ok = true; data_port = 7000; baud = 9600 }), s);
  receive = λ size s. (err timeout_error, s);
  send = λ bytes s. (ok tt, s);
}

abbrev client : Tcp ℕ
client = record (Tcp.init granting 0 7000 19200 (some 7001) []) {
  has_control = true;
  has_data = true;
}

set_baud-Followed_example : Followed granting 9600 client (set_baud granting 9600 client)
set_baud-Followed_example = set_baud-Followed granting 9600 client

-- A device that takes every byte.
abbrev taking : SerialDevice
taking = record {
  State = List ℕ;
  is_open = λ s. true;
  open_url = λ baud s. (ok tt, s);
  in_waiting = λ s. (ok 0, s);
  read_bytes = λ n s. (ok [], s);
  write_bytes = λ bytes s. (ok (length bytes), s ++ bytes);
  flush = λ s. (ok tt, s);
  rest = λ s. s;
  set_rate = λ baud s. (ok tt, s);
  close_device = λ s. (ok tt, s);
}

taken : (bytes : List ℕ) → take (length bytes) bytes ≡ bytes
taken [] = refl
taken (b ∷ bs) = ap (λ (l : List ℕ). b ∷ l) (taken bs)

length_of : (bytes : List ℕ) (n : ℕ) → ok (length bytes) ≡ ok n → length bytes ≡ n
length_of bytes n e = cc

taking-IsWire : IsWire taking (λ s. s)
taking-IsWire = record {
  part = λ bytes s. length bytes;
  write_sends = λ bytes s. ap (λ (l : List ℕ). s ++ l) (sym (taken bytes));
  write_counts = λ bytes s n e. length_of bytes n e;
  flush_sends = λ s. refl;
  rest_sends = λ s. refl;
}

abbrev fast : SerialTransport (List ℕ)
fast = record (Serial.init 500000 []) { present = true }

write-IsComplete_example :
    (((write taking (2 ∷ 0 ∷ 1 ∷ []) fast).0 ≡ done tt)
      × ((write taking (2 ∷ 0 ∷ 1 ∷ []) fast).1.device ≡ 2 ∷ 0 ∷ 1 ∷ []))
    ⊎ ((e : Error) × ((write taking (2 ∷ 0 ∷ 1 ∷ []) fast).0 ≡ raised e)
        × (k : ℕ) × ((write taking (2 ∷ 0 ∷ 1 ∷ []) fast).1.device ≡ take k (2 ∷ 0 ∷ 1 ∷ [])))
write-IsComplete_example = write-IsComplete taking (λ s. s) (2 ∷ 0 ∷ 1 ∷ []) fast taking-IsWire
