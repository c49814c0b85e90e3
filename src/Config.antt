-- ===== src/Config.antt =====
-- src/lms200/config.py: the settings that the device and its transports read, and the consent to
-- writing. Times are milliseconds, `timeout_scale` is in hundredths, texts are code points. The
-- bounds that the fields declare are enforced by pydantic and are no part of the model.
pub mod Consent
use gepruft_lidar.Prelude.{
  ℕ, Bool, true, false, not, ◌&&◌, ◌||◌, Option, none, some, List, ◌==◌, if◌then◌else◌, ◌≡◌, refl,
}
use gepruft_lidar.Prelude.Result.{Result, ok, err, value_error, ◌>>=◌, ◌>>◌, require}
use gepruft_lidar.Protocol.Commands.{validate_geometry}
use gepruft_lidar.Protocol.Responses.{Distance}

pub data TransportKind : Type 0 where
  serial tcp simulator replay : TransportKind

pub data Standard : Type 0 where
  rs232 rs422 : Standard

pub record HardwareConsent : Type 0 where
  pub power_connector_identified : Bool
  pub data_connector_identified : Bool
  pub serial_standard_selected : Bool
  pub adapter_voltage_verified : Bool
  pub rs422_pins_7_8_bridged : Bool

abbrev pub is_rs422 : Standard → Bool
is_rs422 rs422 = true
is_rs422 rs232 = false

-- HardwareConsent.require
unfoldable pub require_consent : HardwareConsent → Standard → Result (Unit {0})
require_consent c standard = do
  require
      (c.power_connector_identified && c.data_connector_identified && c.serial_standard_selected
        && c.adapter_voltage_verified)
      value_error
  require (not (is_rs422 standard && not c.rs422_pins_7_8_bridged)) value_error

pub record Settings : Type 0 where
  pub transport : TransportKind
  pub control_port : Option ℕ
  pub baud : ℕ
  pub detect_baud : Bool
  pub target_baud : Option ℕ
  pub serial_standard : Standard
  pub high_speed : Bool
  pub address : ℕ
  pub angle : ℕ
  pub resolution : ℕ
  pub unit : Distance
  pub indices : Bool
  pub read_only : Bool
  pub consent : HardwareConsent
  pub password : List ℕ
  pub startup_wait : ℕ
  pub ack_timeout : ℕ
  pub timeout_scale : ℕ
  pub stream_timeout : ℕ

-- Settings.physical
abbrev pub is_physical : TransportKind → Bool
is_physical serial = true
is_physical tcp = true
is_physical _ = false

abbrev pub is_tcp : TransportKind → Bool
is_tcp tcp = true
is_tcp _ = false

abbrev pub is_none : Option ℕ → Bool
is_none none = true
is_none (some n) = false

-- target == baud, where `target` may be None
abbrev pub equals : Option ℕ → ℕ → Bool
equals none baud = false
equals (some target) baud = target == baud

-- Settings.validate_settings
unfoldable pub validate_settings : Settings → Result (Unit {0})
unfolding validate_geometry
validate_settings s = do
  validate_geometry s.angle s.resolution
  require (not (s.high_speed && not (is_rs422 s.serial_standard))) value_error
  require
      (not (
        ((s.baud == 500000) || equals s.target_baud 500000)
        && not (s.high_speed && is_rs422 s.serial_standard)))
      value_error
  require
      (not (
        is_tcp s.transport
        && is_none s.control_port
        && not (is_none s.target_baud || equals s.target_baud s.baud)))
      value_error

-- Settings.require_write
unfoldable pub require_write : Settings → Result (Unit {0})
unfolding require_consent
require_write s =
    if is_physical s.transport
    then (do require (not s.read_only) value_error; require_consent s.consent s.serial_standard)
    else ok tt
