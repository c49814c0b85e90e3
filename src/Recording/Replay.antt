-- ===== src/Recording/Replay.antt =====
-- src/lms200/transports/replay.py: a recording as a transport. What it sleeps is added to `clock`;
-- `speed` is in hundredths, and a sidecar is what the device and the transport read of it.
pub mod RoundTrip
use gepruft_lidar.Prelude.{
  ℕ, zero, suc, ◌+◌, ◌-◌, ◌*◌, ◌/◌, Bool, true, false, not, ◌&&◌, ◌||◌, Option, none, some, List,
  [], ◌∷◌, ◌++◌, length, take, drop, leb, ltb, ◌==◌, if◌then◌else◌,
}
use gepruft_lidar.Prelude.Result.{Result, ok, err, value_error, eof_error}
use gepruft_lidar.Recording.{Entry}

-- The metadata beside the recording: whether its format is "lms200-raw-v1", and its baud rate.
pub record Sidecar : Type 0 where
  pub is_raw_v1 : Bool
  pub baud : ℕ

pub record Files : Type 0 where
  pub sidecar : Option Sidecar
  pub raw : List ℕ
  pub index : Option (List Entry)

pub record Replay : Type 0 where
  pub files : Files
  pub speed : ℕ
  pub baud : ℕ
  pub file : Option (List ℕ)
  pub position : ℕ
  pub lines : Option (List Entry)
  pub remaining : ℕ
  pub previous_time : Option ℕ
  pub timestamp : Option ℕ
  pub clock : ℕ

-- ReplayTransport.__init__
abbrev pub init : Files → ℕ → Replay
init files speed = record {
  files = files;
  speed = speed;
  baud = 9600;
  file = none;
  position = 0;
  lines = none;
  remaining = 0;
  previous_time = none;
  timestamp = none;
  clock = 0;
}

abbrev opened : Option Sidecar → Replay → Result (Unit {0}) × Replay
opened none s = (err value_error, s)
opened (some sidecar) s = if not sidecar.is_raw_v1 then (err value_error, s) else (
  ok tt,
  record s {
    baud = sidecar.baud;
    file = some s.files.raw;
    position = 0;
    lines = s.files.index;
    remaining = 0;
    previous_time = none;
  },
)

-- ReplayTransport.open
unfoldable pub open_replay : Replay → Result (Unit {0}) × Replay
open_replay s = opened s.files.sidecar s

-- await asyncio.sleep(max(0, current_time - self._previous_time) / self.speed)
abbrev pub wait_until : ℕ → Replay → Replay
wait_until current s = record s {
  timestamp = some current;
  previous_time = some current;
  clock =
      s.clock
      + elim s.previous_time [ none ↦ 0 | some previous ↦ (current - previous) * 100 / s.speed ];
}

-- The start of `read` at the end of a telegram: the next line of the index.
unfoldable pub next_line : List ℕ → List Entry → Replay → Result (Unit {0}) × Replay
next_line file [] s =
    if ltb s.position (length file)
    then (err value_error, record s { position = s.position + 1 })
    else (err eof_error, s)
next_line file (entry ∷ entries) s =
    let s' : Replay = record s { lines = some entries; remaining = entry.size } in
    if not (leb 1 entry.size && leb entry.size 814) || not (entry.offset == s.position)
    then (err value_error, s')
    else (ok tt, wait_until entry.timestamp s')

abbrev pub is_some {ℓ} : {A : Type ℓ} → Option A → Bool
is_some none = false
is_some (some a) = true

abbrev pub smaller : ℕ → ℕ → ℕ
smaller a b = if leb a b then a else b

-- The end of `read`, with the bytes that the file gives.
unfoldable pub took : List ℕ → Replay → Result (List ℕ) × Replay
took [] s =
    if is_some s.lines && not (s.remaining == 0) then (err value_error, s) else (err eof_error, s)
took (b ∷ bs) s =
    let s' : Replay = record s { position = s.position + length (b ∷ bs) } in
    (
      ok (b ∷ bs),
      if is_some s.lines then record s' { remaining = s.remaining - length (b ∷ bs) } else s',
    )

unfoldable pub read_bytes : ℕ → List ℕ → Result (Unit {0}) × Replay → Result (List ℕ) × Replay
unfolding took
read_bytes size file (err e, s) = (err e, s)
read_bytes size file (ok _, s) =
    let amount : ℕ =
      if is_some s.lines then smaller (smaller size 137) s.remaining else smaller size 137 in
    took (take amount (drop s.position file)) s

-- Whether a new telegram begins, and its line.
unfoldable pub begun : List ℕ → Option (List Entry) → Replay → Result (Unit {0}) × Replay
unfolding next_line
begun file none s = (ok tt, s)
begun file (some lines) s = if s.remaining == 0 then next_line file lines s else (ok tt, s)

read_file : ℕ → Option (List ℕ) → Replay → Result (List ℕ) × Replay
unfolding begun read_bytes
read_file size none s = (err eof_error, s)
read_file size (some file) s = read_bytes size file (begun file s.lines s)

-- ReplayTransport.read
unfoldable pub read : ℕ → Replay → Result (List ℕ) × Replay
unfolding read_file
read size s = read_file size s.file s

-- ReplayTransport.write
abbrev pub write_replay : List ℕ → Replay → Result (Unit {0}) × Replay
write_replay bytes s = (err value_error, s)

-- ReplayTransport.set_baud
abbrev pub set_baud : ℕ → Replay → Result (Unit {0}) × Replay
set_baud baud s = if not (baud == s.baud) then (err value_error, s) else (ok tt, s)

-- ReplayTransport.close
abbrev pub close_replay : Replay → Replay
close_replay s = record s { file = none; lines = none }
