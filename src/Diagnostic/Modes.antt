-- ===== src/Diagnostic/Modes.antt =====
-- src/lms200/hardware_diagnostic.py: run_diagnostic, in its four modes.
pub mod Window
pub mod Sending
pub mod Passive
pub mod Limits
pub mod Startup
pub mod Safety
use gepruft_lidar.Prelude.{
  ℕ, zero, suc, ◌+◌, ◌-◌, ◌≤◌, ◌<◌, ◌==◌, Bool, true, false, not, ◌&&◌, ◌||◌, Option, none, some,
  List, [], ◌∷◌, ◌++◌, leb, ltb, length, drop, take, same, if◌then◌else◌,
}
use gepruft_lidar.Prelude.Result.{
  Result, Error, ok, err, value_error, os_error, keyboard_interrupt, is_os_error,
}
use gepruft_lidar.Diagnostic.Capture.{Capture, post_tx, passive, is_present}
use gepruft_lidar.Diagnostic.Capture
use gepruft_lidar.Diagnostic.Bench.{
  Port, Bench, enter, status_request, has_crc, io, now, receive, listen, sample, transmit,
  flush_output, close, finally,
}
use gepruft_lidar.Diagnostic.Decisions.{
  Gates, Mode, Reason, Report, State, assess, attempted, blank, conclude, confirmed_at, direct_test,
  echo, echo_differs, from_boundary, is_direct, is_listening, is_loopback, is_missing, is_over,
  is_refused, is_sending, is_startup, is_status, judge, keep_failure, listen_startup, loopback,
  loopback_pattern, nak_received, no_completion, no_echo, no_power, no_startup, no_status,
  note_closed, note_complete, note_power, operator, reason, request_of, set_boundary, settle_flags,
  starts_with, status, unless_closed, why_not, window_of, written_down,
}
use gepruft_lidar.Diagnostic.Repeat.{is_caught}
use gepruft_lidar.Device.Exec.{Exec, stuck, pure, raise, lift, catch, modify, gets, ◌>>=◌, ◌>>◌}

module _ (P : Port) (fuel : ℕ) (mode : Mode) (g : Gates) where
  abbrev pub break_or :
      Option (Option Reason) → Exec (State P) (Unit {0}) → Exec (State P) (Unit {0})
  break_or none rest = rest
  break_or (some none) rest = pure tt
  break_or (some (some why)) rest = modify (enter (reason why))

  abbrev pub found_or : Bool → Exec (State P) (Unit {0}) → Exec (State P) (Unit {0})
  found_or true rest = modify (enter λ r. record r { success = true })
  found_or false rest = rest

  -- A turn of the loop, with what goes on from it.
  unfoldable pub turn :
      ℕ → ℕ → Option ℕ → Bool → Exec (State P) (Unit {0}) → Exec (State P) (Unit {0})
  unfolding ◌>>=◌
  turn ready time confirmed power again = do
    modify (enter (note_power power confirmed))
    complete ← gets λ b. g.complete && P.startup_complete b.port
    modify (enter (note_complete mode complete (confirmed_at power time confirmed)))
    over ← gets λ b. is_over mode ready time (confirmed_at power time confirmed) b.report
    break_or over (do
      receive P passive true
      found ← gets λ b. is_startup mode && is_present b.capture.startup
      found_or found again)

  -- The passive part, up to a break.
  unfoldable pub passive_loop : ℕ → ℕ → Option ℕ → Exec (State P) (Unit {0})
  unfolding turn
  passive_loop zero ready confirmed b = (stuck, b)
  passive_loop (suc n) ready confirmed b =
      (do
        time ← now P
        power ← gets λ b. g.power && P.power_confirmed b.port
        turn ready time confirmed power (passive_loop n ready (confirmed_at power time confirmed)))
        b

  unfoldable pub listen_first : Exec (State P) (Unit {0})
  unfolding passive_loop
  listen_first = do started ← now P; passive_loop fuel (started + 300000) none

  abbrev pub judged_or : Option Report → Exec (State P) (Unit {0}) → Exec (State P) (Unit {0})
  judged_or none rest = rest
  judged_or (some r) rest = modify λ b. record b { report = r }

  -- The window after the flush.
  unfoldable pub await : ℕ → ℕ → Exec (State P) (Unit {0})
  unfolding ◌>>=◌
  await zero deadline b = (stuck, b)
  await (suc n) deadline b = elim (ltb (P.now b.port) deadline) [
    | true ↦
        (do
          receive P post_tx (not (is_loopback mode))
          verdict ← gets λ b. judge mode b.capture b.report
          judged_or verdict (await n deadline))
          b
    | false ↦ modify (λ b. record b { report = conclude mode b.capture b.report }) b
  ]

  -- From the sample before the telegram to the end.
  unfoldable pub send : Exec (State P) (Unit {0})
  unfolding await
  send = do
    sample P fuel (not (is_loopback mode))
    modify λ b. record b {
      capture = set_boundary b.capture;
      report = attempted (request_of mode) b.report;
    }
    written ← transmit P (request_of mode)
    modify (enter (written_down written))
    if written == length (request_of mode) then pure tt else raise os_error
    modify (enter λ r. record r { flush_attempted = true })
    flush_output P
    modify (enter λ r. record r { flush_completed = some true })
    started ← now P
    await fuel (started + window_of mode)

  -- The `try` block.
  unfoldable pub exchange : Exec (State P) (Unit {0})
  unfolding listen_first send
  exchange = do
    io P P.open_port
    modify (enter λ r. record r { port_opened = true; port_closed = false })
    if is_listening mode then listen_first else pure tt
    ready ← gets λ b. is_sending mode b.report
    if ready then send else pure tt

  unfoldable pub on_failure : Error → Exec (State P) (Unit {0})
  unfolding ◌>>=◌
  on_failure keyboard_interrupt =
      modify
        (enter λ r. record r { failure = some keyboard_interrupt; timeout_reason = some operator })
  on_failure e = if is_caught e then modify (enter λ r. record r { failure = some e }) else raise e

  -- The `finally` block.
  unfoldable pub finish : Exec (State P) (Unit {0})
  unfolding ◌>>=◌
  finish = do
    modify (enter (settle_flags mode))
    close P is_os_error keep_failure note_closed
    modify (enter unless_closed)

  -- run_diagnostic, with the report in the state.
  unfoldable pub run_diagnostic : Exec (State P) (Unit {0})
  unfolding exchange on_failure finish
  run_diagnostic = do
    if not (is_refused mode g) then pure tt else raise value_error
    if has_crc status_request then pure tt else raise value_error
    io P P.create_log
    modify λ b. record b { capture = Capture.init; report = blank }
    finally (catch exchange on_failure) finish
