-- ===== src/Config/Consent.antt =====
-- What src/lms200/config.py demands before anything is written to hardware.
use gepruft_lidar.Prelude.{◌≡◌, ◌⊎◌, ◌↔◌, true, false, ◌||◌, none, some, arith, ◌==◌}
use gepruft_lidar.Prelude.Result.{ok, err, value_error}
use gepruft_lidar.Config.{
  Settings, rs232, rs422, is_tcp, is_none, is_physical, require_write, validate_settings, equals,
}

-- All that the operator has to have confirmed.
pub record IsConfirmed (s : Settings) : Type 0 where
  pub writes_enabled : s.read_only ≡ false
  pub power : s.consent.power_connector_identified ≡ true
  pub connector : s.consent.data_connector_identified ≡ true
  pub standard : s.consent.serial_standard_selected ≡ true
  pub voltage : s.consent.adapter_voltage_verified ≡ true
  pub bridged : (s.serial_standard ≡ rs232) ⊎ (s.consent.rs422_pins_7_8_bridged ≡ true)

module _ (s : Settings) (physical : is_physical s.transport ≡ true) where
  permitted : require_write s ≡ ok tt → IsConfirmed s
  unfolding require_write
  permitted e = ground arith

  confirmed : IsConfirmed s → require_write s ≡ ok tt
  unfolding require_write
  confirmed c = ground arith

  outcomes : (require_write s ≡ ok tt) ⊎ (require_write s ≡ err value_error)
  unfolding require_write
  outcomes = ground arith

-- Writing is permitted on physical transports exactly when writes are enabled and every item of the
-- checklist is confirmed, the bridged pins among them if the standard is RS-422; any other outcome
-- is a ValueError.
pub require_write_iff :
    (s : Settings)
    → is_physical s.transport ≡ true
    → ((require_write s ≡ ok tt) ↔ IsConfirmed s)
      × ((require_write s ≡ ok tt) ⊎ (require_write s ≡ err value_error))
require_write_iff s physical = ((permitted s physical, confirmed s physical), outcomes s physical)

-- Validated settings use 500000 baud on RS-422 with the high-speed switch only, have one of the five
-- scan geometries, and plan no baud change over a TCP bridge that has no control channel.
pub validate_settings_sound :
    (s : Settings)
    → validate_settings s ≡ ok tt
    → ((s.angle ≡ 100) × ((s.resolution ≡ 25) ⊎ (s.resolution ≡ 50) ⊎ (s.resolution ≡ 100))
        ⊎ (s.angle ≡ 180) × ((s.resolution ≡ 50) ⊎ (s.resolution ≡ 100)))
      × ((((s.baud == 500000) || equals s.target_baud 500000) ≡ false)
          ⊎ (s.serial_standard ≡ rs422) × (s.high_speed ≡ true))
      × ((is_tcp s.transport ≡ false)
          ⊎ (is_none s.control_port ≡ false)
          ⊎ (s.target_baud ≡ none)
          ⊎ (s.target_baud ≡ some s.baud))
unfolding validate_settings
validate_settings_sound s e = (ground arith, ground arith, ground arith)
