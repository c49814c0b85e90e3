-- ===== src/Device/Lifecycle.antt =====
-- src/lms200/state_machine.py: the methods of Device that open, configure and close the scanner.
-- The lock that lets one of them run at a time is their order in the model.
pub mod Closing
pub mod ReadBack
pub mod Verified
use gepruft_lidar.Prelude.{
  ℕ, zero, suc, ◌+◌, ◌-◌, ◌*◌, ◌/◌, ◌≤◌, ◌<◌, Bool, true, false, not, ◌&&◌, ◌||◌, Option, none,
  some, List, [], ◌∷◌, ◌++◌, ltb, leb, ◌==◌, if◌then◌else◌, length, same,
}
use gepruft_lidar.Prelude.Result.{
  Result, Error, ok, err, value_error, protocol_error, device_error, timeout_error, eof_error,
  os_error, is_protocol_error, is_exception,
}
use gepruft_lidar.Protocol.Framing
use gepruft_lidar.Protocol.Commands.{
  Command, Mode, installation, continuous, on_request, status_request, type_request,
  configuration_request, operating_mode, baud_rate, variant, write_configuration,
}
use gepruft_lidar.Protocol.Responses.{
  Response, Configuration, DeviceStatus, Distance, mm, cm, configuration, config_unit, config_mode,
  updated, decode_status, is_ascii, strip, truthy,
}
use gepruft_lidar.Config.{Settings, require_write, equals}
use gepruft_lidar.Device.{
  Device, Transport, Recorded, Phase, is_streaming, transition, bump_timeouts, bump_unexpected,
}
use gepruft_lidar.Device.Command.{io, sleep, command}
use gepruft_lidar.Device.Exec.{
  Outcome, done, raised, stuck, Exec, pure, raise, lift, catch, caught, modify, gets, ◌>>=◌, ◌>>◌,
  continue,
}

abbrev is_timeout : Error → Bool
is_timeout Error.timeout_error = true
is_timeout _ = false

-- The prefixes of self.model.startswith(("LMS200;30106", "LMS200-30106"))
abbrev pub starts_with : List ℕ → List ℕ → Bool
starts_with prefix [] = length prefix == 0
starts_with [] (c ∷ cs) = true
starts_with (p ∷ prefix) (c ∷ cs) = p == c && starts_with prefix cs

abbrev lms200 : ℕ → List ℕ
lms200 separator =
    b'L' ∷ b'M' ∷ b'S' ∷ b'2' ∷ b'0' ∷ b'0' ∷ separator ∷ b'3' ∷ b'0' ∷ b'1' ∷ b'0' ∷ b'6' ∷ []

abbrev pub is_supported : Option (List ℕ) → Bool
is_supported none = false
is_supported (some model) = starts_with (lms200 b';') model || starts_with (lms200 b'-') model

abbrev default_password : List ℕ
default_password = b'S' ∷ b'I' ∷ b'C' ∷ b'K' ∷ b'_' ∷ b'L' ∷ b'M' ∷ b'S' ∷ []

abbrev pub same_distance : Distance → Distance → Bool
same_distance mm mm = true
same_distance cm cm = true
same_distance _ _ = false

-- An attribute that an assertion says is set.
abbrev expect : {S A : Type 0} → Option A → Exec S A
expect none = raise value_error
expect (some a) = pure a

module _ (T : Transport) (fuel : ℕ) where
  abbrev pub Action : Type 0 → Type 0
  Action A = Exec (Device T.State) A

  abbrev pub moves : Phase → Action (Unit {0})
  moves phase = modify (transition phase)

  -- await self.command(…) of a command that may be refused already when it is built
  abbrev pub run_command : Result Command → Action Response
  run_command c = do built ← lift c; command T fuel built

  -- Device._status
  unfoldable pub status : Action DeviceStatus
  status = do
    moves Phase.requesting_status
    r ← command T fuel status_request
    info ← lift (decode_status r)
    modify λ d. record d { info = some info }
    pure info

  abbrev start_reader : Device T.State → Device T.State
  start_reader d = record d { reading = true; last_bytes = T.now d.transport }

  -- `for rate in rates: … else: raise`
  unfoldable pub detect : List ℕ → Action (Unit {0})
  unfolding status
  detect [] = raise timeout_error
  detect (rate ∷ rates) = do
    io T fuel (T.set_baud rate)
    modify λ d. record d { framer = Framing.reset d.framer }
    found ←
        catch (status >> pure true)
          λ e. if is_timeout e || is_protocol_error e then pure false else raise e
    if found then pure tt else detect rates

  abbrev rates : Device T.State → List ℕ
  rates d =
      if d.settings.detect_baud && T.can_set_baud
      then 9600 ∷ 38400 ∷ 19200 ∷ (if d.settings.high_speed then 500000 ∷ [] else [])
      else T.baud d.transport ∷ []

  connect_replay : Recorded → Action (Unit {0})
  connect_replay r = do
    config ← lift (configuration r.configuration)
    modify λ d. record d { configuration = some config; info = some r.status; model = some r.model }
    moves Phase.connected

  connect_scanner : Action (Unit {0})
  unfolding detect
  connect_scanner = do
    modify start_reader
    moves Phase.detecting
    tried ← gets rates
    detect tried
    info ← (do found ← gets (λ d. d.info); expect found)
    baud ← gets λ d. T.baud d.transport
    if info.baud == baud then pure tt else raise protocol_error
    moves Phase.connected
    identity ← command T fuel type_request
    if is_ascii identity.body then pure tt else raise protocol_error
    modify λ d. record d { model = some (strip identity.body) }
    reply ← command T fuel configuration_request
    config ← lift (configuration reply.body)
    modify λ d. record d { configuration = some config }
    moves Phase.connected

  connect_opened : Option Recorded → Action (Unit {0})
  unfolding connect_replay connect_scanner
  connect_opened none = connect_scanner
  connect_opened (some r) = connect_replay r

  connecting : Action (Unit {0})
  unfolding connect_opened
  connecting = do
    modify λ d. record d {
      fault = none;
      last_telegram_index = none;
      times = [];
      framer = Framing.reset d.framer;
    }
    moves Phase.opening
    wait ← gets λ d. d.settings.startup_wait
    if truthy wait then sleep T fuel wait else pure tt
    io T fuel T.open_port
    modify λ d. record d { is_open = true }
    found ← gets λ d. T.recorded d.transport
    connect_opened found

  -- Device.connect
  unfoldable pub connect : Action (Unit {0})
  unfolding connecting
  connect d = if d.is_open then (done tt, d) else connecting d

  abbrev is_replay : Device T.State → Bool
  is_replay d = elim (T.recorded d.transport) [ none ↦ false | some r ↦ true ]

  -- Stopping the scanner's output, whatever exception comes of it, an interrupt from the keyboard
  -- apart.
  unfoldable pub stop_output : Action (Unit {0})
  stop_output =
      catch (run_command (operating_mode on_request default_password) >> pure tt)
        λ e. if is_exception e then pure tt else raise e

  unfoldable pub closing : Action (Unit {0})
  unfolding stop_output
  closing = do
    moves Phase.stopping
    changed ← gets λ d. d.changed && not (is_replay d)
    if changed then stop_output else pure tt
    modify λ d. record d { reading = false }
    io T fuel T.close_port
    modify λ d. record d { is_open = false; changed = false }
    moves Phase.disconnected

  -- Device._close_unlocked and Device.close
  unfoldable pub close : Action (Unit {0})
  unfolding closing
  close d = if not d.is_open then (done tt, d) else closing d

  -- Replaying, `initialize` only starts the reader.
  initialize_replay : Action (Unit {0})
  initialize_replay = do
    moves Phase.streaming
    modify λ d. record (start_reader d) { stream_since = T.now d.transport }

  abbrev changes_geometry : Settings → DeviceStatus → Bool
  changes_geometry settings info =
      not ((info.angle == settings.angle) && (info.resolution == settings.resolution))

  -- The branch for a target baud rate.
  change_baud : ℕ → Action (Unit {0})
  unfolding status
  change_baud target = do
    moves Phase.changing_baud
    run_command (baud_rate target)
    io T fuel (T.set_baud target)
    info ← status
    if info.baud == target then pure tt else raise protocol_error

  maybe_change_baud : Option ℕ → Action (Unit {0})
  unfolding change_baud
  maybe_change_baud none = pure tt
  maybe_change_baud (some target) = do
    baud ← gets λ d. T.baud d.transport
    if target == baud then pure tt else change_baud target

  -- The readback at the end of the configuration.
  unfoldable pub verify : Configuration → Action (Unit {0})
  unfolding status
  verify desired = do
    moves Phase.verifying
    reply ← command T fuel configuration_request
    config ← lift (configuration reply.body)
    modify λ d. record d { configuration = some config }
    info ← status
    settings ← gets λ d. d.settings
    unit ← lift (config_unit desired)
    if same config.raw desired.raw
          && (info.angle == settings.angle)
          && (info.resolution == settings.resolution)
          && same_distance info.unit unit
          && (info.measuring_mode == config_mode desired)
        then pure tt
        else raise protocol_error

  -- From the desired configuration to its verification.
  unfoldable pub configure :
      Settings → DeviceStatus → Configuration → Configuration → Action (Unit {0})
  unfolding maybe_change_baud verify
  configure settings info config desired = do
    let geometry = changes_geometry settings info
    let changes = not (same desired.raw config.raw)
    if changes || geometry
        then (do
          moves Phase.installing
          run_command (operating_mode installation settings.password)
          pure tt)
        else pure tt
    maybe_change_baud settings.target_baud
    moves Phase.configuring
    if geometry
        then (run_command (variant settings.angle settings.resolution) >> pure tt)
        else pure tt
    if changes then (run_command (write_configuration desired.raw) >> pure tt) else pure tt
    verify desired

  -- The end of `initialize`: the stream, or the connected state.
  unfoldable pub start : Bool → Action (Unit {0})
  start start_stream = do
    run_command (operating_mode on_request default_password)
    if start_stream
        then (do
          moves Phase.starting
          run_command (operating_mode continuous default_password)
          modify λ d. record d { stream_since = T.now d.transport }
          moves Phase.streaming)
        else moves Phase.connected

  initialize_scanner : Bool → Action (Unit {0})
  unfolding configure start
  initialize_scanner start_stream = do
    info ← (do found ← gets (λ d. d.info); expect found)
    config ← (do found ← gets (λ d. d.configuration); expect found)
    if truthy info.device_error then raise device_error else pure tt
    model ← gets λ d. d.model
    if is_supported model then pure tt else raise device_error
    run_command (operating_mode on_request default_password)
    settings ← gets λ d. d.settings
    desired ← lift (updated config settings.unit settings.indices)
    configure settings info config desired
    start start_stream

  initialize_connected : Bool → Bool → Action (Unit {0})
  unfolding initialize_replay initialize_scanner
  initialize_connected true start_stream = initialize_replay
  initialize_connected false start_stream = initialize_scanner start_stream

  -- The body of the `try` of `initialize`.
  unfoldable pub initializing : Bool → Action (Unit {0})
  unfolding connect initialize_connected
  initializing start_stream = do
    connect
    replaying ← gets is_replay
    initialize_connected replaying start_stream

  -- `except BaseException`
  unfoldable pub abandon : Error → Action (Unit {0})
  unfolding close
  abandon e = do close; moves Phase.faulted; raise e

  -- Device.initialize
  unfoldable pub initialize : Bool → Action (Unit {0})
  unfolding initializing abandon
  initialize start_stream = do
    settings ← gets λ d. d.settings
    lift (require_write settings)
    phase ← gets λ d. d.phase
    if is_streaming phase then pure tt else catch (initializing start_stream) abandon

  -- Device.reconnect
  unfoldable pub reconnect : Action (Unit {0})
  unfolding initialize
  reconnect = do moves Phase.recovering; close; initialize true
