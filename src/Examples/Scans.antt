-- ===== src/Examples/Scans.antt =====
-- The theorems on the scans, recordings and the simulated scanner of src/lms200 at concrete inputs.
use gepruft_lidar.Prelude.{
  ℕ, ◌+◌, ◌-◌, ◌*◌, ◌%◌, ◌≤◌, ◌<◌, ◌≡◌, ◌≢◌, ◌⊎◌, refl, true, false, none, some, List, [], ◌∷◌,
  ◌++◌, length, arith, get_elem?, set, replicate, if◌then◌else◌,
}
use gepruft_lidar.Prelude.Result.{ok, eof_error}
use gepruft_lidar.Protocol.Framing.{word_at}
use gepruft_lidar.Protocol.Commands.{validate_geometry}
use gepruft_lidar.Protocol.Responses.{
  Response, StatusByte, Severity, Source, Configuration, mm, cm, is_mm, config_mode, config_unit,
  DeviceStatus, decode_status,
}
use gepruft_lidar.Protocol.Measurements.{Scan, Point, decode_scan, point, points}
use gepruft_lidar.Protocol.Measurements.Layout.{
  decode_scan-points, decode_scan_span, point_distance,
}
use gepruft_lidar.Recording.{create}
use gepruft_lidar.Recording.Replay.{init, open_replay}
use gepruft_lidar.Recording.Replay.RoundTrip.{
  replay_recording, read_all, recorded_files, write_all, bytes,
}
use gepruft_lidar.Device
use gepruft_lidar.Device.{Device, Phase}
use gepruft_lidar.Device.Exec.{done, ◌>>=◌}
use gepruft_lidar.Device.Reader.{receive_scan}
use gepruft_lidar.Device.Reader.Scans.{dropped_scans_exact}
use gepruft_lidar.Recording
use gepruft_lidar.Service.Fanout
use gepruft_lidar.Service.Fanout.{Fanout, start_recording, stop_recording}
use gepruft_lidar.Service.Accounts.{publish_all, subscribers_hold_newest, delivered}
use gepruft_lidar.Service.Accounts.Session.{
  Step, publishes, records, run, published, accepts, file_of, IsPartOf, recording_accounts,
}
use gepruft_lidar.Simulator
use gepruft_lidar.Simulator.{
  Simulator, status_code, status_data, status_layout, pieces, piece_sizes,
}
use gepruft_lidar.Simulator.Wire.{concat, concat-pieces, simulated_status, Reports}
use gepruft_lidar.Examples.{bench}
use gepruft_lidar.Examples.Devices.{quiet_line}

abbrev healthy : StatusByte
healthy = record {
  raw = 0x10;
  severity = Severity.fine;
  source = Source.lms_type_6;
  restart_high = false;
  implausible = false;
  pollution = false;
}

-- A measurement of 101 points in millimetres, all at distance 0.
abbrev measurement : Response
measurement = record {
  command = 0xB0;
  body = 0x65 ∷ 0x40 ∷ replicate 202 0;
  status = healthy;
  frame = record { address = 0x80; payload = []; raw = 0x02 ∷ 0x80 ∷ [] };
}

abbrev millimetres : Configuration
millimetres = record { raw = set (set (replicate 34 0) 5 2) 6 1 }

abbrev measured : Scan
measured = record {
  timestamp = 7;
  sequence = 1;
  status = healthy;
  field_of_view = 100;
  resolution = 100;
  count = 101;
  starting_angle = 4000;
  angle_increment = 100;
  unit = mm;
  measuring_mode = 2;
  scan_index = none;
  telegram_index = none;
  points = points mm 2 4000 100 (0x65 ∷ 0x40 ∷ replicate 202 0) 0 101;
  raw_telegram = 0x02 ∷ 0x80 ∷ [];
}

measured-decode_scan : decode_scan measurement 100 100 millimetres 1 none 7 ≡ ok measured
unfolding decode_scan validate_geometry config_unit
measured-decode_scan = refl

decode_scan-points_example :
    (length measured.points ≡ measured.count)
    × (2 + 3 * 2 + 1 < length measurement.body)
    × (get_elem? measured.points 3
        ≡ some (
            point measured.unit
              (config_mode millimetres)
              ((180 - 100) * 50 + 3 * 100)
              (word_at measurement.body (2 + 3 * 2))))
decode_scan-points_example =
    decode_scan-points measurement 100 100 millimetres 1 none 7 measured 3 measured-decode_scan
      (omega arith)

decode_scan_span_example :
    (first : Point) × (last : Point) × (get_elem? measured.points 0 ≡ some first)
    × (get_elem? measured.points (measured.count - 1) ≡ some last)
    × (first.angle + last.angle ≡ 18000)
    × (first.angle + 100 * 100 ≡ last.angle)
    × (measured.count ≤ 401)
decode_scan_span_example =
    decode_scan_span measurement 100 100 millimetres 1 none 7 measured measured-decode_scan

abbrev field_mode : ℕ
field_mode = 2

abbrev near : ℕ
near = 0x2123

point_distance_example :
    ((point cm field_mode 9000 near).distance_mm ≡ none)
      × ((0x1FF7 ≤ near % 8192) ⊎ (field_mode ≡ 0) × (32768 ≤ near))
    ⊎ ((point cm field_mode 9000 near).distance_mm
        ≡ some (near % 8192 * (if is_mm cm then 1 else 10)))
      × (near % 8192 < 0x1FF7)
      × ((field_mode ≢ 0) ⊎ (near < 32768))
point_distance_example = point_distance cm field_mode 9000 near (omega arith)

-- The scanner's index wraps round from 254 to 1, and two telegrams are lost.
abbrev wrapped : Scan
wrapped = record measured { telegram_index = some 1 }

abbrev streaming_device : Device ℕ
streaming_device = record (Device.init bench 0) { last_telegram_index = some 254 }

dropped_scans_exact_example :
    ((receive_scan quiet_line streaming_device wrapped).counters.dropped_scans
      ≡ streaming_device.counters.dropped_scans + 2)
    × ((receive_scan quiet_line streaming_device wrapped).last_telegram_index
        ≡ some ((254 + 1 + 2) % 256))
dropped_scans_exact_example =
    dropped_scans_exact quiet_line streaming_device wrapped 254 2 (omega arith) (omega arith) refl
      refl

replay_recording_example :
    read_all 9
      (open_replay
        (init (recorded_files (write_all (measured ∷ wrapped ∷ []) (create true)) 9600) 100)).1
    ≡ (bytes (measured ∷ wrapped ∷ []), some eof_error)
replay_recording_example =
    replay_recording (measured ∷ wrapped ∷ []) true 9600 100 9 (ground arith) (omega arith)

abbrev one_subscriber : Fanout
one_subscriber = Fanout.subscribe Fanout.init

subscribers_hold_newest_example :
    (publish_all (measured ∷ wrapped ∷ measured ∷ []) one_subscriber).subscribers
    ≡ delivered (measured ∷ wrapped ∷ measured ∷ []) one_subscriber.subscribers
subscribers_hold_newest_example =
    subscribers_hold_newest (measured ∷ wrapped ∷ measured ∷ []) one_subscriber (omega arith, tt)

abbrev session : List Step
session = publishes measured ∷ records ∷ publishes wrapped ∷ []

recording_accounts_example :
    (scans : List Scan) × IsPartOf scans (published session)
    × (length scans + (run session (start_recording Phase.streaming one_subscriber).1).record_drops
        ≡ one_subscriber.record_drops + length (published session))
    × ((stop_recording accepts
          (run session (start_recording Phase.streaming one_subscriber).1)).finished
        ≡ one_subscriber.finished ++ Recording.close (file_of scans) ∷ [])
recording_accounts_example = recording_accounts session one_subscriber refl

abbrev fresh : Simulator
fresh = Simulator.init 9600 9600

abbrev status_reply : Response
status_reply = record measurement { command = 0xB1; body = status_layout fresh 0x8067 mm }

half_degree : validate_geometry 180 50 ≡ ok tt
unfolding validate_geometry
half_degree = refl

fresh-status_data : (status_data fresh).0 ≡ done status_reply.body
unfolding status_data ◌>>=◌ config_unit
fresh-status_data = refl

simulated_status_example :
    (d : DeviceStatus) × (decode_status status_reply ≡ ok d) × Reports fresh d
simulated_status_example = simulated_status fresh status_reply refl fresh-status_data half_degree

concat-pieces_example : concat (pieces piece_sizes (1 ∷ 2 ∷ 3 ∷ 4 ∷ [])) ≡ 1 ∷ 2 ∷ 3 ∷ 4 ∷ []
concat-pieces_example = concat-pieces piece_sizes (1 ∷ 2 ∷ 3 ∷ 4 ∷ [])
