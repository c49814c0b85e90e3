-- ===== src/Examples/Devices.antt =====
-- The theorems on the device and the service of src/lms200 at concrete inputs.
use gepruft_lidar.Prelude.{ℕ, suc, ◌≡◌, ◌⊎◌, refl, true, false, none, List, [], ◌∷◌}
use gepruft_lidar.Prelude.Result.{ok, err, value_error, os_error}
use gepruft_lidar.Protocol.Commands.{Command, telegram, status_request, type_request}
use gepruft_lidar.Protocol.Responses.{Response, response, confirm, Severity, Source}
use gepruft_lidar.Protocol.Crc.{crc16}
use gepruft_lidar.Protocol.Framing
use gepruft_lidar.Device
use gepruft_lidar.Device.{Device, Transport, Phase}
use gepruft_lidar.Device.Exec.{done, raised, ◌>>=◌}
use gepruft_lidar.Device.Command.{command, io}
use gepruft_lidar.Config.{require_write}
use gepruft_lidar.Device.Command.Reply.{command_refused, command_answered, Answers}
use gepruft_lidar.Device.Command.Keeps.{Keeps, Keeps-command}
use gepruft_lidar.Device.Lifecycle.{initialize}
use gepruft_lidar.Device.Lifecycle.Closing.{
  initialize_refused, initialize_fails_closed, ClosesQuietly,
}
use gepruft_lidar.Device.Reader.{idle}
use gepruft_lidar.Device.Reader.Scans.{idle-IsNumbered, IsNumbered, count_from}
use gepruft_lidar.Service.Actions.{start_action, Service, action, action_refused}
use gepruft_lidar.Service.Fanout
use gepruft_lidar.Examples.{bench, hardware, hardware_unconfirmed}

-- A line on which nothing is heard, and which cannot be opened.
abbrev pub quiet_line : Transport
quiet_line = record {
  State = ℕ;
  can_set_baud = false;
  baud = λ s. 9600;
  now = λ s. s;
  wall_clock = λ s. s;
  open_port = λ s. (err os_error, s);
  read = λ s. (ok [], suc s);
  write = λ bytes s. (ok tt, s);
  set_baud = λ baud s. (ok tt, s);
  close_port = λ s. (ok tt, s);
  rest = suc;
  recorded = λ s. none;
  timestamp = λ s. none;
}

-- An acknowledgement and a reply to the type request.
abbrev type_reply : List ℕ
type_reply = 0x06 ∷ 0x02 ∷ 0x80 ∷ 0x03 ∷ 0x00 ∷ 0xBA ∷ 0x4C ∷ 0x10 ∷ 0xE6 ∷ 0x72 ∷ []

-- A line with a scanner that answers each telegram with this reply.
abbrev answering_line : Transport
answering_line = record {
  State = ℕ × List ℕ;
  can_set_baud = false;
  baud = λ s. 9600;
  now = λ s. s.0;
  wall_clock = λ s. s.0;
  open_port = λ s. (ok tt, s);
  read = λ s. (ok s.1, (suc s.0, []));
  write = λ bytes s. (ok tt, (s.0, type_reply));
  set_baud = λ baud s. (ok tt, s);
  close_port = λ s. (ok tt, s);
  rest = λ s. (suc s.0, s.1);
  recorded = λ s. none;
  timestamp = λ s. none;
}

abbrev scanner : Device ℕ
scanner = Device.init hardware 0

abbrev simulation : Device ℕ
simulation = Device.init bench 0

abbrev idle_service : Service ℕ
idle_service = record { device = scanner; fanout = Fanout.init; busy = false }

abbrev change_mode : Command
change_mode = record {
  payload = 0x20 ∷ 0x24 ∷ [];
  response_id = 0xA0;
  timeout = 3000;
  attempts = 1;
  mutates = true;
}

command_refused_example : command quiet_line 9 change_mode (scanner) ≡ (raised value_error, scanner)
command_refused_example =
    command_refused quiet_line 9 change_mode (scanner) refl refl hardware_unconfirmed

initialize_refused_example : initialize quiet_line 9 true (scanner) ≡ (raised value_error, scanner)
initialize_refused_example =
    initialize_refused quiet_line 9 true (scanner) refl hardware_unconfirmed

action_refused_example : action start_action idle_service ≡ (err value_error, idle_service)
action_refused_example = action_refused start_action idle_service refl refl hardware_unconfirmed

quiet_line-ClosesQuietly : ClosesQuietly quiet_line
quiet_line-ClosesQuietly = record { closes = λ s. refl }

quiet_line-raises : (initialize quiet_line 9 true (simulation)).0 ≡ raised os_error
unfolding initialize ◌>>=◌ require_write io
quiet_line-raises = refl

initialize_fails_closed_example :
    ((initialize quiet_line 9 true (simulation)).1 ≡ simulation)
    ⊎ ((initialize quiet_line 9 true (simulation)).1.is_open ≡ false)
      × ((initialize quiet_line 9 true (simulation)).1.phase ≡ Phase.faulted)
initialize_fails_closed_example =
    initialize_fails_closed quiet_line 9 true (simulation) os_error quiet_line-ClosesQuietly refl
      quiet_line-raises

Keeps-command_example : Keeps (command quiet_line 9 status_request)
Keeps-command_example = Keeps-command quiet_line 9 status_request

nothing-IsNumbered : IsNumbered (simulation)
unfolding count_from
nothing-IsNumbered = refl

idle-IsNumbered_example : IsNumbered (idle quiet_line (simulation))
idle-IsNumbered_example = idle-IsNumbered quiet_line (simulation) nothing-IsNumbered

abbrev answering_device : Device (ℕ × List ℕ)
answering_device = record (Device.init bench (0, [])) { reading = true }

abbrev type_response : Response
type_response = record {
  command = 0xBA;
  body = 0x4C ∷ [];
  status = record {
    raw = 0x10;
    severity = Severity.fine;
    source = Source.lms_type_6;
    restart_high = false;
    implausible = false;
    pollution = false;
  };
  frame = record {
    address = 0x80;
    payload = 0xBA ∷ 0x4C ∷ 0x10 ∷ [];
    raw = 0x02 ∷ 0x80 ∷ 0x03 ∷ 0x00 ∷ 0xBA ∷ 0x4C ∷ 0x10 ∷ 0xE6 ∷ 0x72 ∷ [];
  };
}

type_answered : (command answering_line 9 type_request answering_device).0 ≡ done type_response
unfolding command ◌>>=◌ io telegram Framing.encode idle Framing.feed Framing.turn Framing.round
    Framing.accept crc16 response confirm
type_answered = refl

command_answered_example : Answers type_request type_response
command_answered_example =
    command_answered answering_line 9 type_request answering_device type_response type_answered
