-- ===== src/Diagnostic/Repeat.antt =====
-- src/lms200/hardware_diagnostic.py: run_status_repeat, which asks for the status at most ten times.
pub mod Attempts
pub mod Trial
pub mod Honest
pub mod Reported
pub mod Returned
pub mod Limits
use gepruft_lidar.Prelude.{
  ℕ, zero, suc, ◌+◌, ◌-◌, ◌≤◌, ◌<◌, ◌==◌, Bool, true, false, not, ◌&&◌, ◌||◌, Option, none, some,
  List, [], ◌∷◌, ◌++◌, leb, ltb, length, drop, if◌then◌else◌,
}
use gepruft_lidar.Prelude.Result.{
  Result, Error, ok, err, value_error, os_error, index_error, runtime_error, is_os_error, eof_error,
}
use gepruft_lidar.Protocol.Framing.{crc_valid}
use gepruft_lidar.Diagnostic.Capture.{Capture, Detail, post_tx, pre_tx, is_past, is_present}
use gepruft_lidar.Diagnostic.Capture
use gepruft_lidar.Diagnostic.Bench.{
  Port, Bench, enter, status_request, has_crc, io, now, listen, sample, transmit, flush_output,
  close, finally,
}
use gepruft_lidar.Device.Exec.{
  Outcome, done, raised, stuck, Exec, pure, raise, lift, catch, modify, gets, ◌>>=◌, ◌>>◌, continue,
}

-- An entry of `report["attempts"]`. The bytes received are those of the capture from `rx_start` on,
-- and times are in milliseconds.
pub record Attempt : Type 0 where
  pub number : ℕ
  pub write_return : Option ℕ
  pub flush_completed : Bool
  pub rx_start : ℕ
  pub listen_time : Option ℕ
  pub rx : Option (List ℕ)
  pub ack : Option Bool
  pub nak : Option Bool
  pub status : Option ℕ

pub data Stop : Type 0 where
  response_observed attempts_exhausted interrupted : Stop

pub record Report : Type 0 where
  pub success : Bool
  pub port_opened : Bool
  pub port_closed : Bool
  pub attempts : List Attempt
  pub failure : Option Error
  pub stop_reason : Option Stop
  pub close_failure : Option Error

abbrev pub blank : Report
blank = record {
  success = false;
  port_opened = false;
  port_closed = true;
  attempts = [];
  failure = none;
  stop_reason = none;
  close_failure = none;
}

abbrev State : Port → Type 0
State P = Bench P.State Report

-- A change of the attempt that goes on, the last of the report.
abbrev pub change_last : (Attempt → Attempt) → List Attempt → List Attempt
change_last f [] = []
change_last f (a ∷ []) = f a ∷ []
change_last f (a ∷ b ∷ attempts) = a ∷ change_last f (b ∷ attempts)

abbrev pub amend : {S : Type 0} → (Attempt → Attempt) → Bench S Report → Bench S Report
amend f b = enter (λ r. record r { attempts = change_last f r.attempts }) b

-- The assignments at the head of an attempt.
abbrev pub begin : {S : Type 0} → ℕ → Bench S Report → Bench S Report
begin number b =
    let start : ℕ = length b.capture.raw in
    record b {
      capture = record (b.capture) {
        tx_boundary = some start;
        post_ack = false;
        post_nak = false;
        status = none;
      };
      report = record (b.report) {
        attempts =
            b.report.attempts
            ++ record {
              number = number;
              write_return = none;
              flush_completed = false;
              rx_start = start;
              listen_time = none;
              rx = none;
              ack = none;
              nak = none;
              status = none;
            }
              ∷ [];
      };
    }

abbrev pub any_telegram : (Detail → Bool) → List Detail → Bool
any_telegram test [] = false
any_telegram test (d ∷ ds) = test d || any_telegram test ds

abbrev pub valid_frame : Capture → Bool
valid_frame s =
    any_telegram (λ d. crc_valid d.candidate && is_past s.tx_boundary d.candidate.offset)
      s.telegrams

-- What is written down when the window of an attempt has passed.
abbrev pub conclude : {S : Type 0} → ℕ → Bench S Report → Bench S Report
conclude time b =
    enter (λ r. record r { success = is_present b.capture.status && not b.capture.post_nak })
      (amend
        (λ a. record a {
          listen_time = some time;
          rx = some (drop a.rx_start b.capture.raw);
          ack = some b.capture.post_ack;
          nak = some b.capture.post_nak;
          status = b.capture.status;
        })
        b)

abbrev pub is_answered : {S : Type 0} → Bench S Report → Bool
is_answered b =
    b.report.success || b.capture.post_ack || b.capture.post_nak || valid_frame b.capture

-- The exceptions that the programs catch.
abbrev pub is_caught : Error → Bool
is_caught index_error = false
is_caught eof_error = false
is_caught runtime_error = false
is_caught _ = true

-- `if "rx_hex" not in attempt`
abbrev pub fill : Capture → Attempt → Attempt
fill s a = if is_present a.rx then a else record a { rx = some (drop a.rx_start s.raw) }

abbrev pub keep_failure : Error → Report → Report
keep_failure e r = record r { close_failure = some e }

abbrev pub note_closed : Bool → Report → Report
note_closed closed r = record r { port_closed = closed }

module _ (P : Port) (fuel : ℕ) where
  -- The five seconds of an attempt, and how long they were.
  unfoldable pub listen_period : Exec (State P) ℕ
  unfolding ◌>>=◌
  listen_period = do
    started ← now P
    listen P fuel (λ time. ltb (time - started) 5000) post_tx true
    ended ← now P
    pure (ended - started)

  -- One attempt: whether an answer of any kind was seen.
  unfoldable pub attempt : ℕ → Exec (State P) Bool
  unfolding listen_period
  attempt number = do
    modify (begin number)
    written ← transmit P status_request
    modify (amend λ a. record a { write_return = some written })
    if written == 7 then pure tt else raise os_error
    flush_output P
    modify (amend λ a. record a { flush_completed = true })
    time ← listen_period
    modify (conclude time)
    gets is_answered

  abbrev pub stop : Stop → Exec (State P) (Unit {0})
  stop reason = modify (enter λ r. record r { stop_reason = some reason })

  unfoldable pub attempts_loop : ℕ → ℕ → Exec (State P) (Unit {0})
  unfolding attempt
  attempts_loop zero number = stop attempts_exhausted
  attempts_loop (suc left) number = do
    answered ← attempt number
    if answered then stop response_observed else attempts_loop left (suc number)

  -- The `try` block.
  unfoldable pub exchange : ℕ → Exec (State P) (Unit {0})
  unfolding ◌>>=◌
  exchange attempts = do
    io P P.open_port
    modify (enter λ r. record r { port_opened = true; port_closed = false })
    sample P fuel true
    attempts_loop attempts 1

  unfoldable pub on_failure : Error → Exec (State P) (Unit {0})
  unfolding ◌>>=◌
  on_failure e =
      if is_caught e
      then modify (enter λ r. record r { failure = some e; stop_reason = some interrupted })
      else raise e

  -- The `finally` block.
  unfoldable pub finish : Exec (State P) (Unit {0})
  unfolding ◌>>=◌
  finish = do
    modify λ b. amend (fill b.capture) b
    close P is_os_error keep_failure note_closed
    modify (enter λ r. if r.port_closed then r else record r { success = false })

  -- run_status_repeat, with the report in the state.
  unfoldable pub run_status_repeat : ℕ → Bool → Exec (State P) (Unit {0})
  unfolding exchange on_failure finish
  run_status_repeat attempts confirmed = do
    if confirmed then pure tt else raise value_error
    if leb 1 attempts && leb attempts 10 then pure tt else raise value_error
    if has_crc status_request then pure tt else raise value_error
    modify λ b. record b { capture = Capture.init; report = blank }
    io P P.create_log
    finally (catch (exchange attempts) on_failure) finish
