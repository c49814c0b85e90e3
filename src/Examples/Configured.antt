-- ===== src/Examples/Configured.antt =====
-- The theorem on the configuration of the device of src/lms200 at a concrete input: a scanner that
-- answers the request of its configuration, and the others with its status.
use gepruft_lidar.Prelude.{
  ℕ, suc, ◌==◌, ◌≡◌, refl, true, false, none, List, [], ◌∷◌, ◌++◌, get_or, if◌then◌else◌, arith,
}
use gepruft_lidar.Prelude.Result.{ok}
use gepruft_lidar.Protocol.Crc.{crc16}
use gepruft_lidar.Protocol.Framing
use gepruft_lidar.Protocol.Responses.{
  mm, DeviceStatus, response, confirm, configuration, decode_status, config_unit,
}
use gepruft_lidar.Protocol.Commands.{telegram}
use gepruft_lidar.Simulator
use gepruft_lidar.Simulator.{default_configuration, status_layout}
use gepruft_lidar.Device
use gepruft_lidar.Device.{Device, Transport}
use gepruft_lidar.Device.Reader.{idle}
use gepruft_lidar.Device.Command.{command, io}
use gepruft_lidar.Device.Exec.{done, ◌>>=◌}
use gepruft_lidar.Device.Lifecycle.{configure}
use gepruft_lidar.Device.Lifecycle.ReadBack.{IsReadBack}
use gepruft_lidar.Device.Lifecycle.Verified.{IsVerified, configure-IsVerified}
use gepruft_lidar.Examples.{bench}

abbrev configuration_reply : List ℕ
configuration_reply =
    0x06 ∷ 0x02 ∷ 0x80 ∷ 36 ∷ 0 ∷ 0xF4 ∷ default_configuration.raw ++ 0x10 ∷ 143 ∷ 45 ∷ []

abbrev status_reply : List ℕ
status_reply =
    0x06 ∷ 0x02 ∷ 0x80 ∷ 154 ∷ 0 ∷ 0xB1 ∷ status_layout (Simulator.init 9600 9600) 0x8067 mm
    ++ 0x10 ∷ 57 ∷ 14 ∷ []

abbrev scanner_line : Transport
scanner_line = record {
  State = ℕ × List ℕ;
  can_set_baud = false;
  baud = λ s. 9600;
  now = λ s. s.0;
  wall_clock = λ s. s.0;
  open_port = λ s. (ok tt, s);
  read = λ s. (ok s.1, (suc s.0, []));
  write = λ bytes s.
      (ok tt, (s.0, if get_or bytes 4 0 == 0x74 then configuration_reply else status_reply));
  set_baud = λ baud s. (ok tt, s);
  close_port = λ s. (ok tt, s);
  rest = λ s. (suc s.0, s.1);
  recorded = λ s. none;
  timestamp = λ s. none;
}

abbrev connected : Device (ℕ × List ℕ)
connected = record (Device.init bench (0, [])) { reading = true }

abbrev known : DeviceStatus
known = record {
  firmware = [];
  operating_mode = 0x25;
  device_error = 0;
  angle = 180;
  resolution = 50;
  baud = 9600;
  unit = mm;
  measuring_mode = 2;
  permanent_baud = false;
  address = 0;
  raw = [];
}

configured :
    (configure scanner_line 12 bench known default_configuration default_configuration connected).0
    ≡ done tt
unfolding configure ◌>>=◌ io telegram Framing.encode idle Framing.feed Framing.turn Framing.round
    Framing.accept crc16 response confirm configuration decode_status command Framing.to_bytes
    config_unit
configured = refl

configure-IsVerified_example :
    (verified : IsVerified bench default_configuration
      (configure scanner_line 12 bench known default_configuration default_configuration
        connected).1)
    × IsReadBack scanner_line 12 verified.config verified.info
        (configure scanner_line 12 bench known default_configuration default_configuration
          connected).1
configure-IsVerified_example =
    configure-IsVerified scanner_line 12 known default_configuration default_configuration connected
      (record { events = omega arith; times = omega arith }) configured
