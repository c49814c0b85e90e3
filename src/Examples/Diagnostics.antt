-- ===== src/Examples/Diagnostics.antt =====
-- The theorems on the commissioning programs of src/lms200 at concrete inputs: a port whose two data
-- pins are joined, so that it receives what it sends.
use gepruft_lidar.Prelude.{
  ℕ, ◌+◌, ◌≡◌, ◌⊎◌, refl, Bool, true, false, List, [], ◌∷◌, ◌++◌, length, take, drop, All, arith,
}
use gepruft_lidar.Prelude.Result.{Error, ok}
use gepruft_lidar.Protocol.Framing
use gepruft_lidar.Protocol.Framing.{feed}
use gepruft_lidar.Protocol.Framing.Matched.{IsMatched, feed-IsMatched}
use gepruft_lidar.Protocol.Framing.Offsets.{IsSlice, IsSuffix, feed-IsSliced}
use gepruft_lidar.Diagnostic.Capture
use gepruft_lidar.Diagnostic.Capture.{Capture}
use gepruft_lidar.Diagnostic.Bench.{Port, Bench, status_request, now}
use gepruft_lidar.Protocol.Commands.{type_request}
use gepruft_lidar.Device
use gepruft_lidar.Device.Command.Ends.Wait
use gepruft_lidar.Examples.{bench}
use gepruft_lidar.Examples.Devices.{quiet_line}
use gepruft_lidar.Diagnostic.Bench.Rules.{IsClock, Raises}
use gepruft_lidar.Diagnostic.Repeat
use gepruft_lidar.Diagnostic.Repeat.{run_status_repeat, is_caught, exchange}
use gepruft_lidar.Diagnostic.Repeat.Reported.{begun, IsReported}
use gepruft_lidar.Diagnostic.Repeat.Limits.{
  IsBounded, run_status_repeat-IsBounded, run_status_repeat-returns,
}
use gepruft_lidar.Diagnostic.Decisions
use gepruft_lidar.Diagnostic.Reset
use gepruft_lidar.Diagnostic.Reset.{run}
use gepruft_lidar.Diagnostic.Reset.Once.{IsConfirmedOnce, run-IsConfirmedOnce}
use gepruft_lidar.Diagnostic.Modes.{run_diagnostic}
use gepruft_lidar.Diagnostic.Decisions.{Gates, loopback}
use gepruft_lidar.Diagnostic.Modes.Safety.{IsOneAtMost, run_diagnostic-IsOneAtMost}
use gepruft_lidar.Device.Exec.{done, raised}
use gepruft_lidar.Device.Command.{command}
use gepruft_lidar.Device.Command.Reply.{Answers}
use gepruft_lidar.Device.Command.Ends.{command_ends}
use gepruft_lidar.Protocol.Responses.{Response}

record Wire : Type 0 where
  clock : ℕ
  held : List ℕ
  opened : Bool
  calls : List (List ℕ)

abbrev joined : Port
joined = record {
  State = Wire;
  now = λ w. w.clock;
  is_open = λ w. w.opened;
  create_log = λ w. (ok tt, w);
  open_port = λ w. (ok tt, record w { opened = true });
  in_waiting = λ w. (ok (length w.held), w);
  read_bytes =
      λ n w. (ok (take n w.held), record w { clock = w.clock + 1000; held = drop n w.held });
  write = λ bytes w.
      (ok (length bytes), record w { held = w.held ++ bytes; calls = w.calls ++ bytes ∷ [] });
  drains = λ w. true;
  flush = λ w. (ok tt, w);
  cut_flush = λ w. (ok tt, w);
  close_port = λ w. (ok tt, record w { opened = false });
  power_confirmed = λ w. true;
  startup_complete = λ w. true;
  written = λ w. w.calls;
  write_adds = λ bytes w. refl;
  create_log_keeps = λ w. refl;
  open_port_keeps = λ w. refl;
  in_waiting_keeps = λ w. refl;
  read_bytes_keeps = λ n w. refl;
  flush_keeps = λ w. refl;
  cut_flush_keeps = λ w. refl;
  close_port_keeps = λ w. refl;
}

joined-IsClock : IsClock joined
joined-IsClock = record { in_waiting = λ w. omega arith; read_bytes = λ n w. omega arith }

abbrev idle_wire : Wire
idle_wire = record { clock = 0; held = []; opened = false; calls = [] }

abbrev repeat_bench : Bench Wire Repeat.Report
repeat_bench = record { port = idle_wire; capture = Capture.init; report = Repeat.blank }

abbrev loop_bench : Bench Wire Decisions.Report
loop_bench = record { port = idle_wire; capture = Capture.init; report = Decisions.blank }

abbrev isolated : Gates
isolated = record { power = false; complete = false; isolated = true; direct = false }

run_status_repeat-IsBounded_example :
    IsBounded [] 3 true (run_status_repeat joined 6000 3 true repeat_bench).1.port.calls
run_status_repeat-IsBounded_example =
    run_status_repeat-IsBounded joined 6000 3 true repeat_bench joined-IsClock (omega arith)

joined-Raises : Raises joined (λ e. is_caught e ≡ true)
joined-Raises = record {
  open_port = λ s e x. cc;
  in_waiting = λ s e x. cc;
  read_bytes = λ n s e x. cc;
  write = λ bytes s e x. cc;
  flush = λ s e x. cc;
  cut_flush = λ s e x. cc;
  timeout = refl;
  short_write = refl;
}

run_status_repeat-returns_example :
    ((run_status_repeat joined 6000 3 true repeat_bench).0 ≡ done tt)
    × IsReported joined 6000 3
        (exchange joined 6000 3 (begun joined 6000 3 repeat_bench))
        (run_status_repeat joined 6000 3 true repeat_bench).1
run_status_repeat-returns_example =
    run_status_repeat-returns joined 6000 3 repeat_bench joined-IsClock (omega arith) (omega arith)
      (omega arith) refl joined-Raises (λ s e x. cc)

run_diagnostic-IsOneAtMost_example :
    IsOneAtMost joined [] loopback isolated
      (run_diagnostic joined 700000 loopback isolated loop_bench).1.port.calls
      (run_diagnostic joined 700000 loopback isolated loop_bench).1.report
run_diagnostic-IsOneAtMost_example =
    run_diagnostic-IsOneAtMost joined 700000 loopback isolated loop_bench joined-IsClock
      (omega arith)

feed-IsMatched_example : IsMatched (feed Framing.init (0x06 ∷ status_request))
feed-IsMatched_example = feed-IsMatched Framing.init (0x06 ∷ status_request)

feed-IsSliced_example :
    IsSuffix
      (0x06 ∷ status_request)
      (feed Framing.init (0x06 ∷ status_request)).framer.offset
      (feed Framing.init (0x06 ∷ status_request)).framer.buffer
    × All (IsSlice (0x06 ∷ status_request)) (feed Framing.init (0x06 ∷ status_request)).observed
feed-IsSliced_example = feed-IsSliced Framing.init [] (0x06 ∷ status_request) (refl, omega arith)

quiet_line-IsClock : Wait.IsClock quiet_line
quiet_line-IsClock = record { read_later = λ s. omega arith; rest_later = λ s. omega arith }

command_ends_example :
    ((r : Response) × ((command quiet_line 1000000 type_request (Device.init bench 0)).0 ≡ done r)
      × Answers type_request r)
    ⊎ ((e : Error) × ((command quiet_line 1000000 type_request (Device.init bench 0)).0 ≡ raised e))
command_ends_example =
    command_ends quiet_line 1000000 type_request (Device.init bench 0) quiet_line-IsClock
      (record { events = omega arith; times = omega arith }) (omega arith)

abbrev reset_bench : Bench Wire Reset.Report
reset_bench = record { port = idle_wire; capture = Capture.init; report = Reset.blank }

run-IsConfirmedOnce_example :
    IsConfirmedOnce [] true true true (run joined 70000 true true true reset_bench).1.port.calls
run-IsConfirmedOnce_example =
    run-IsConfirmedOnce joined 70000 true true true reset_bench joined-IsClock (omega arith)
