-- ===== src/Simulator.antt =====
-- src/lms200/transports/simulator.py: the synthetic scanner. Its delays and the blocking of its full
-- queue are left out, and the contour of the room, which the source computes by sines, is a
-- parameter. Where no baud rate fits, `next` fails; the model has a ValueError there.
pub mod Wire
use gepruft_lidar.Prelude.{
  ℕ, zero, suc, ◌+◌, ◌-◌, ◌*◌, ◌/◌, ◌%◌, Bool, true, false, not, ◌&&◌, ◌||◌, Option, none, some,
  List, [], ◌∷◌, ◌++◌, length, take, drop, get_or, replicate, set, same, leb, ltb, ◌==◌,
  if◌then◌else◌, bit_and, bit_or,
}
use gepruft_lidar.Prelude.Result.{Result, ok, err, value_error, eof_error}
use gepruft_lidar.Protocol.Framing
use gepruft_lidar.Protocol.Framing.{
  Framer, Frame, Event, feed, encode, to_bytes, word_at, ack_byte, nak_byte,
}
use gepruft_lidar.Protocol.Commands.{validate_geometry, is_password_char}
use gepruft_lidar.Protocol.Responses.{
  Configuration, Distance, is_mm, config_unit, config_mode, config_indices, configuration,
}
use gepruft_lidar.Device.Exec.{Exec, pure, raise, lift, modify, gets, ◌>>=◌, ◌>>◌, continue}

-- Slice assignment of as many bytes.
abbrev pub put : List ℕ → ℕ → List ℕ → List ℕ
put bytes i [] = bytes
put bytes i (v ∷ vs) = put (set bytes i v) (suc i) vs

abbrev pub default_configuration : Configuration
default_configuration = record {
  raw =
      put
        (put
          (put
            (put (put (put (set (replicate 34 0) 2 0x46) 5 (2 ∷ 1 ∷ [])) 9 (2 ∷ 2 ∷ 2 ∷ [])) 14
              (10 ∷ 10 ∷ 80 ∷ 100 ∷ []))
            19 (10 ∷ 10 ∷ 80 ∷ 100 ∷ []))
          24 (10 ∷ 10 ∷ 80 ∷ 100 ∷ []))
        32 (2 ∷ []);
}

pub record Simulator : Type 0 where
  pub baud : ℕ
  pub device_baud : ℕ
  pub angle : ℕ
  pub resolution : ℕ
  pub config : Configuration
  pub mode : ℕ
  pub status : ℕ
  pub commands : List (List ℕ)
  pub nak_next : ℕ
  pub silence_next : ℕ
  pub omit_ack : Bool
  pub incoming : Framer
  pub queue : List (List ℕ)
  pub pending : List ℕ
  pub producing : Bool
  pub scan_index : ℕ
  pub telegram_index : ℕ

-- SimulatorTransport.__init__
abbrev pub init : ℕ → ℕ → Simulator
init baud device_baud = record {
  baud = baud;
  device_baud = device_baud;
  angle = 180;
  resolution = 50;
  config = default_configuration;
  mode = 0x25;
  status = 0x10;
  commands = [];
  nak_next = 0;
  silence_next = 0;
  omit_ack = false;
  incoming = Framing.init;
  queue = [];
  pending = [];
  producing = false;
  scan_index = 0;
  telegram_index = 0;
}

-- SimulatorTransport.open
abbrev pub open_simulator : Simulator → Simulator
open_simulator s = record s { queue = []; pending = []; producing = true }

abbrev pending_of : Simulator → List (List ℕ) → Simulator
pending_of s [] = s
pending_of s (piece ∷ pieces) = record s { pending = piece; queue = pieces }

abbrev fill : Simulator → List ℕ → Simulator
fill s [] = pending_of s s.queue
fill s (b ∷ bs) = s

-- SimulatorTransport.read
unfoldable pub read : ℕ → Simulator → Result (List ℕ) × Simulator
read size s =
    if not s.producing
    then (err eof_error, s)
    else let s' : Simulator = fill s s.pending in
      (ok (take size s'.pending), record s' { pending = drop size s'.pending })

-- The pieces in which `_emit` puts what is left of the data.
unfoldable pub pieces : List ℕ → List ℕ → List (List ℕ)
pieces sizes [] = []
pieces [] (b ∷ bs) = (b ∷ bs) ∷ []
pieces (size ∷ sizes) (b ∷ bs) = take size (b ∷ bs) ∷ pieces sizes (drop size (b ∷ bs))

abbrev pub piece_sizes : List ℕ
piece_sizes = 1 ∷ 2 ∷ 7 ∷ 31 ∷ 128 ∷ []

-- SimulatorTransport._emit
abbrev pub emit : List ℕ → Simulator → Simulator
emit bytes s = record s { queue = s.queue ++ pieces piece_sizes bytes }

-- next(k for k, v in STATUS_BAUD_CODES.items() if v == self.device_baud)
abbrev pub status_code : ℕ → Result ℕ
status_code baud =
    if baud == 9600
    then ok 0x8067
    else if baud == 19200
    then ok 0x8033
    else if baud == 38400
    then ok 0x8019
    else if baud == 500000
    then ok 0x8001
    else err value_error

abbrev version : List ℕ
version = b'V' ∷ b'0' ∷ b'2' ∷ b'.' ∷ b'1' ∷ b'0' ∷ b' ' ∷ []

abbrev pub as_byte : Bool → ℕ
as_byte true = 1
as_byte false = 0

-- The bytes of `status_data`, with the code of the baud rate and the unit.
abbrev pub status_layout : Simulator → ℕ → Distance → List ℕ
status_layout s code unit =
    let data1 : List ℕ = put (replicate 152 0) 0 version in
    let data2 : List ℕ = put data1 7 (s.mode ∷ as_byte (leb 3 (bit_and s.status 7)) ∷ []) in
    let data3 : List ℕ = set data2 101 (config_mode s.config) in
    let data4 : List ℕ = put data3 106 (to_bytes s.angle ++ to_bytes s.resolution) in
    let data5 : List ℕ = put data4 115 (to_bytes code) in
    put (set data5 121 (as_byte (is_mm unit))) 123 version

-- SimulatorTransport.status_data
unfoldable pub status_data : Exec Simulator (List ℕ)
status_data = do
  s ← gets λ s. s
  code ← lift (status_code s.device_baud)
  unit ← lift (config_unit s.config)
  pure (status_layout s code unit)

-- What a command is answered with, and the baud rate that it sets.
pub record Answer : Type 0 where
  pub result : List ℕ
  pub new_baud : Option ℕ

abbrev plain : List ℕ → Answer
plain result = record { result = result; new_baud = none }

-- BAUD_CODES, from a code to the rate.
abbrev pub baud_of : ℕ → Option ℕ
baud_of code =
    if code == 0x42
    then some 9600
    else if code == 0x41
    then some 19200
    else if code == 0x40
    then some 38400
    else if code == 0x48
    then some 500000
    else none

abbrev sick_lms : List ℕ
sick_lms = b'S' ∷ b'I' ∷ b'C' ∷ b'K' ∷ b'_' ∷ b'L' ∷ b'M' ∷ b'S' ∷ []

abbrev answer_baud : Option ℕ → Bool → Exec Simulator Answer
answer_baud (some baud) true = pure (record { result = 0xA0 ∷ 0 ∷ []; new_baud = some baud })
answer_baud _ _ = pure (plain (0xA0 ∷ 1 ∷ []))

-- The branch of the commands 0x20.
answer_mode : List ℕ → Exec Simulator Answer
answer_mode payload =
    let code : ℕ = get_or payload 1 0 in
    if (code == 0) && same (drop 2 payload) sick_lms
    then (do modify λ s. record s { mode = 0 }; pure (plain (0xA0 ∷ 0 ∷ [])))
    else if ((code == 0x24) || (code == 0x25)) && (length payload == 2)
    then (do modify λ s. record s { mode = code }; pure (plain (0xA0 ∷ 0 ∷ [])))
    else answer_baud (baud_of code) (length payload == 2)

abbrev answer_geometry : List ℕ → Result (Unit {0}) → Exec Simulator Answer
answer_geometry payload (ok _) = do
  modify λ s. record s { angle = word_at payload 1; resolution = word_at payload 3 }
  pure (plain (0xBB ∷ 1 ∷ drop 1 payload))
answer_geometry payload (err e) = pure (plain (0xBB ∷ 0 ∷ drop 1 payload))

-- The branches of `write` on a payload.
unfoldable pub answer : List ℕ → Exec Simulator Answer
unfolding answer_mode
answer payload = do
  mode ← gets λ s. s.mode
  if same payload (0x31 ∷ [])
      then (do body ← status_data; pure (plain (0xB1 ∷ body)))
      else if same payload (0x3A ∷ [])
      then pure (
          plain (
            0xBA ∷ b'L' ∷ b'M' ∷ b'S' ∷ b'2' ∷ b'0' ∷ b'0' ∷ b';' ∷ b'3' ∷ b'0' ∷ b'1' ∷ b'0' ∷ b'6'
            ∷ b'3' ∷ b';' ∷ version))
      else if same payload (0x74 ∷ [])
      then (do config ← gets (λ s. s.config); pure (plain (0xF4 ∷ config.raw)))
      else if same (take 1 payload) (0x20 ∷ []) && leb 2 (length payload)
      then answer_mode payload
      else if same (take 1 payload) (0x3B ∷ [])
          && (length payload == 5)
          && ((mode == 0) || (mode == 0x25))
      then answer_geometry payload (validate_geometry (word_at payload 1) (word_at payload 3))
      else if same (take 1 payload) (0x77 ∷ [])
          && ((length payload == 33) || (length payload == 35))
          && (mode == 0)
      then (do
        config ← lift (configuration (drop 1 payload))
        modify λ s. record s { config = config }
        pure (plain (0xF7 ∷ 1 ∷ config.raw)))
      else pure (plain (0x92 ∷ []))

abbrev rebaud : Option ℕ → Simulator → Simulator
rebaud none s = s
rebaud (some baud) s = record s { device_baud = baud }

-- A round of the loop of `write`, from the command on.
unfoldable pub obey : List ℕ → Exec Simulator (Unit {0})
unfolding answer
obey payload = do
  reply ← answer payload
  modify λ s. if not s.omit_ack then emit (ack_byte ∷ []) s else s
  status ← gets λ s. s.status
  bytes ← lift (encode (reply.result ++ status ∷ []) 0x81)
  modify λ s. rebaud reply.new_baud (emit bytes s)

unfoldable pub on_frame : Frame → Exec Simulator (Unit {0})
unfolding obey
on_frame f s =
    let s' : Simulator = record s { commands = s.commands ++ f.payload ∷ [] } in
    if not ((f.address == 0) || (f.address == 1))
    then (pure tt) s
    else if not (s.silence_next == 0)
    then (pure tt) (record s' { silence_next = s.silence_next - 1 })
    else if not (s.nak_next == 0)
    then (pure tt) (emit (nak_byte ∷ []) (record s' { nak_next = s.nak_next - 1 }))
    else obey f.payload s'

unfoldable pub on_events : List Event → Exec Simulator (Unit {0})
unfolding on_frame
on_events [] = pure tt
on_events (Event.frame f ∷ events) = do on_frame f; on_events events
on_events (Event.control c ∷ events) = on_events events

-- SimulatorTransport.write
unfoldable pub write : List ℕ → Exec Simulator (Unit {0})
unfolding on_events
write bytes s =
    if not (s.baud == s.device_baud)
    then (pure tt) s
    else on_events (feed s.incoming bytes).events
        (record s { incoming = (feed s.incoming bytes).framer })

module _ (contour : Simulator → Bool → ℕ → ℕ) where
  abbrev pub words : Simulator → Bool → ℕ → ℕ → List ℕ
  words s metric index zero = []
  words s metric index (suc count) =
      to_bytes (contour s metric index) ++ words s metric (suc index) count

  -- SimulatorTransport.scan_bytes
  unfoldable pub scan_bytes : Exec Simulator (List ℕ)
  scan_bytes = do
    s ← gets λ s. s
    unit ← lift (config_unit s.config)
    let count = s.angle * 100 / s.resolution + 1
    let header = bit_or count (if is_mm unit then 0x4000 else 0)
    let indices = if config_indices s.config then s.scan_index ∷ s.telegram_index ∷ [] else []
    modify λ s. record s {
      scan_index = (s.scan_index + 100 / s.resolution) % 256;
      telegram_index = (s.telegram_index + 1) % 256;
    }
    lift (
        encode
          ((0xB0 ∷ to_bytes header) ++ words s (is_mm unit) 0 count ++ indices ++ s.status ∷ [])
          0x81)

  -- A round of SimulatorTransport._produce
  unfoldable pub produce : Exec Simulator (Unit {0})
  unfolding scan_bytes
  produce s =
      if (s.mode == 0x24) && (s.baud == s.device_baud)
      then (do bytes ← scan_bytes; modify (emit bytes)) s
      else (pure tt) s

-- SimulatorTransport.set_baud
abbrev pub set_baud : ℕ → Simulator → Simulator
set_baud baud s = record s { baud = baud }

-- SimulatorTransport.close
abbrev pub close_simulator : Simulator → Simulator
close_simulator s = record s { producing = false }
