-- ===== src/Examples.antt =====
-- The theorems on src/lms200 at concrete inputs: a bench with a quiet transport and a scanner's telegrams.
pub mod Devices
pub mod Scans
pub mod Bridges
pub mod Diagnostics
pub mod Configured
use gepruft_lidar.Prelude.{
  ℕ, zero, suc, ◌+◌, ◌-◌, ◌*◌, ◌%◌, ◌≤◌, ◌<◌, ◌≡◌, ◌≢◌, ◌⊎◌, ◌↔◌, inl, inr, refl, Bool, true, false,
  Option, none, some, List, [], ◌∷◌, ◌++◌, length, All, arith, get_elem?, set, replicate,
  if◌then◌else◌, ◌||◌, ◌==◌, map,
}
use gepruft_lidar.Prelude.Result.{
  Result, Error, ok, err, value_error, timeout_error, eof_error, os_error,
}
use gepruft_lidar.Protocol.Crc.{IsByte, crc16}
use gepruft_lidar.Protocol.Crc.SingleByte.{crc16_detects_single_byte}
use gepruft_lidar.Protocol.Framing
use gepruft_lidar.Protocol.Framing.{Framer, Fed, Frame, Event, encode, feed, join, turn, word_at}
use gepruft_lidar.Protocol.Framing.Chunks.{feed-append}
use gepruft_lidar.Protocol.Framing.Turns.{seen}
use gepruft_lidar.Protocol.Framing.Kept.{IsTail}
use gepruft_lidar.Protocol.Framing.Stream.{feed-IsSound, IsSound, feed_lem}
use gepruft_lidar.Protocol.Framing.RoundTrip.{feed-encode, delivered, after_error}
use gepruft_lidar.Protocol.Framing.Corruption.{turn-corrupt}
use gepruft_lidar.Config.{
  Settings, TransportKind, Standard, HardwareConsent, require_write, validate_settings, is_tcp,
  is_none, equals,
}
use gepruft_lidar.Config.Consent.{IsConfirmed, require_write_iff, validate_settings_sound}
use gepruft_lidar.Protocol.Commands.{Command, status_request}
use gepruft_lidar.Protocol.Responses.{Distance, mm, cm, Response, StatusByte, Configuration}
use gepruft_lidar.Device
use gepruft_lidar.Device.{Transport, Phase}

-- A telegram: the status request to the scanner 0.
abbrev pub status_telegram : List ℕ
status_telegram = 0x02 ∷ 0x00 ∷ 0x01 ∷ 0x00 ∷ 0x31 ∷ 0x15 ∷ 0x12 ∷ []

status_telegram-encode : encode (0x31 ∷ []) 0 ≡ ok status_telegram
unfolding encode crc16 Framing.to_bytes
status_telegram-encode = refl

feed-IsSound_example :
    All IsSound (feed Framing.init status_telegram).events
    × All IsByte (feed Framing.init status_telegram).framer.buffer
    × IsTail
        (Framing.init.buffer ++ status_telegram)
        (feed Framing.init status_telegram).framer.buffer
feed-IsSound_example = feed-IsSound Framing.init status_telegram tt (ground arith)

feed_lem_example :
    (turn (feed Framing.init status_telegram).framer ≡ none)
    × (seen (feed Framing.init status_telegram).framer ≡ seen Framing.init + length status_telegram)
    × (length (feed Framing.init status_telegram).framer.buffer < 814)
feed_lem_example = feed_lem Framing.init status_telegram

feed-append_example :
    feed Framing.init (status_telegram ++ status_telegram)
    ≡ join
        (feed Framing.init status_telegram)
        (feed (feed Framing.init status_telegram).framer status_telegram)
feed-append_example = feed-append Framing.init status_telegram status_telegram

feed-encode_example :
    feed Framing.init (status_telegram ++ 0x06 ∷ [])
    ≡ join
        (delivered Framing.init 0 (0x31 ∷ []) status_telegram)
        (feed (delivered Framing.init 0 (0x31 ∷ []) status_telegram).framer (0x06 ∷ []))
feed-encode_example =
    feed-encode Framing.init (0x31 ∷ []) 0 status_telegram (0x06 ∷ []) refl status_telegram-encode

turn-corrupt_example :
    (t : Fed) × (turn (record Framing.init { buffer = set status_telegram 4 0x30 }) ≡ some t)
    × (t.framer ≡ after_error Framing.init (set status_telegram 4 0x30))
    × (t.events ≡ [])
turn-corrupt_example =
    turn-corrupt Framing.init [] [] 0x31 0x30 0 status_telegram tt (omega arith) (omega arith) tt
      (ground arith) status_telegram-encode

crc16_detects_single_byte_example : crc16 (0x02 ∷ 0x31 ∷ []) ≢ crc16 (0x02 ∷ 0x30 ∷ [])
crc16_detects_single_byte_example =
    crc16_detects_single_byte (0x02 ∷ []) [] 0x31 0x30 (ground arith) (omega arith) (omega arith) tt
      (ground arith)

-- A checklist of which nothing is confirmed, and one of which all is.
abbrev pub unchecked : HardwareConsent
unchecked = record {
  power_connector_identified = false;
  data_connector_identified = false;
  serial_standard_selected = false;
  adapter_voltage_verified = false;
  rs422_pins_7_8_bridged = false;
}

-- Settings for a scanner at a serial port, read-only.
abbrev pub hardware : Settings
hardware = record {
  transport = TransportKind.serial;
  control_port = none;
  baud = 9600;
  detect_baud = false;
  target_baud = none;
  serial_standard = Standard.rs232;
  high_speed = false;
  address = 0;
  angle = 180;
  resolution = 50;
  unit = mm;
  indices = true;
  read_only = true;
  consent = unchecked;
  password = [];
  startup_wait = 0;
  ack_timeout = 60;
  timeout_scale = 100;
  stream_timeout = 3000;
}

abbrev pub bench : Settings
bench = record hardware { transport = TransportKind.simulator; read_only = false }

pub hardware_unconfirmed : ¬ IsConfirmed hardware
hardware_unconfirmed c = cc (c.writes_enabled)

require_write_iff_example :
    ((require_write hardware ≡ ok tt) ↔ IsConfirmed hardware)
    × ((require_write hardware ≡ ok tt) ⊎ (require_write hardware ≡ err value_error))
require_write_iff_example = require_write_iff hardware refl

validate_settings_ok : validate_settings bench ≡ ok tt
unfolding validate_settings
validate_settings_ok = refl

validate_settings_sound_example :
    ((bench.angle ≡ 100)
        × ((bench.resolution ≡ 25) ⊎ (bench.resolution ≡ 50) ⊎ (bench.resolution ≡ 100))
      ⊎ (bench.angle ≡ 180) × ((bench.resolution ≡ 50) ⊎ (bench.resolution ≡ 100)))
    × ((((bench.baud == 500000) || equals bench.target_baud 500000) ≡ false)
        ⊎ (bench.serial_standard ≡ Standard.rs422) × (bench.high_speed ≡ true))
    × ((is_tcp bench.transport ≡ false)
        ⊎ (is_none bench.control_port ≡ false)
        ⊎ (bench.target_baud ≡ none)
        ⊎ (bench.target_baud ≡ some bench.baud))
validate_settings_sound_example = validate_settings_sound bench validate_settings_ok
