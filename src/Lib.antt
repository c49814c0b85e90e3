-- ===== src/Lib.antt =====
-- A verification library for the Python package lms200, the driver of the LMS200 laser scanner.
--
-- The program talks to a scanner over a byte stream: bytes are framed into telegrams with a checksum
-- (Framer), telegrams are decoded into responses and scans, a device object sends commands, waits for
-- their replies and keeps the scanner's state, and a service passes the scans on to subscribers and
-- to a recording. The byte stream is a serial port, a TCP bridge, a simulated scanner or a recording.
--
-- The files, and the source that each is about:
--   Prelude              lists, tests and bits on native numbers; Python's exceptions as values
--   Protocol/Crc         src/lms200/protocol/crc.py: crc16
--   Protocol/Framing     src/lms200/protocol/framing.py: encode, Framer.feed, expire, reset
--   Protocol/Commands    src/lms200/protocol/commands.py: the builders of commands
--   Protocol/Responses   src/lms200/protocol/responses.py: response, confirm, Configuration,
--                        decode_status
--   Protocol/Measurements  src/lms200/protocol/measurements.py: decode_scan
--   Config               src/lms200/config.py: validate_settings, require_write
--   Device               src/lms200/state_machine.py: the state of Device; Device/Reader is _handle
--                        and _read_loop, Device/Command is command, Device/Lifecycle is connect,
--                        initialize, close and reconnect; Device/Exec holds the actions they are
--                        written in, with rules for invariants and results
--   Recording            src/lms200/recording.py: Recorder
--   Recording/Replay     src/lms200/transports/replay.py: ReplayTransport
--   Service              src/lms200/service.py: Fanout is publish, subscribe and the recording task,
--                        Actions is action, _run_action and _watch
--   Simulator            src/lms200/transports/simulator.py: SimulatorTransport
--   Bridge               src/lms200/bridge.py: the lease of SerialBridge
--   Tcp                  src/lms200/transports/tcp.py: TCPTransport
--   Diagnostic           src/lms200/hardware_diagnostic.py: Diagnostic/Capture is Capture,
--                        Diagnostic/Bench the port and what the programs share, Diagnostic/Modes
--                        run_diagnostic, with its decisions in Diagnostic/Decisions, and
--                        Diagnostic/Repeat run_status_repeat; Diagnostic/Reset is run of
--                        src/lms200/reset_experiment.py
--   Serial               src/lms200/transports/serial.py: SerialTransport
--   Examples             the theorems at concrete inputs
-- A function keeps its name from the source, without a leading underscore; a helper stands for a
-- branch or a loop of the function that its comment names.
--
-- Conventions. An exception is its class, without its message. Angles and resolutions are in
-- hundredths of a degree where the source has fractions (a field of view is in whole degrees), times
-- are milliseconds, timeout_scale and the replay speed are hundredths, distances are millimetres; the
-- coordinates x and y of a point are left out. A byte is a number below 256, and a text the list of
-- its code points. What a callback receives is returned instead (`observed`, `published`). The log is
-- left out.
--
-- Tasks. The tasks of asyncio are one sequence of steps. The reader of the device runs where a
-- command waits, one read at a time, with any transport: Device.Transport is a record of its
-- operations and its clock, over a state of its own. The locks, which let one method run at a time,
-- are the order of the calls. Cancellation from outside a method is not modelled. An assertion that
-- a field is set is a ValueError where it fails.
--
-- Bounds. The loop of `feed` runs on as many rounds as the buffer has bytes: a round that goes on
-- takes at least one. The waits of the device (a sleep, the wait for a reply) and the windows of the
-- diagnostic run on fuel; where it ends the outcome is `stuck`, which is neither a result nor an
-- exception, and each theorem says which outcomes it is about. Where each read moves the clock on, a
-- window of the diagnostic takes at most one step for a millisecond, and a wait of a command at most
-- one for each millisecond and one for each of the 64 events that can be queued before the next read.
-- All other loops are structural.
--
-- The diagnostic. pyserial's port is a parameter, a record of its operations over a state of its own,
-- with the monotonic clock and the operator's files, and with the arguments that `write` was called
-- with so far (`written`), to which no other operation adds. The journal is left out. The interrupt of
-- the keyboard is an exception that an operation of the port may raise; `except Exception` leaves it.
--
-- Not modelled: pydantic's checks of single fields, files, sockets and JSON text, the exports, the
-- web API, the command line, the status probe, and the programs that drive other libraries.
pub mod Prelude
pub mod Protocol
pub mod Recording
pub mod Config
pub mod Device
pub mod Service
pub mod Simulator
pub mod Bridge
pub mod Tcp
pub mod Diagnostic
pub mod Serial
pub mod Examples
