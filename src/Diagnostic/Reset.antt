-- ===== src/Diagnostic/Reset.antt =====
-- src/lms200/reset_experiment.py: one software reset. What the report says of the plan, of times and
-- of the bytes received, which are the capture's, is left out.
pub mod Once
use gepruft_lidar.Prelude.{
  ℕ, ◌+◌, ◌-◌, ◌*◌, ◌==◌, Bool, true, false, not, ◌&&◌, ◌||◌, Option, none, some, List, [], ◌∷◌,
  length, ltb, get_or, if◌then◌else◌,
}
use gepruft_lidar.Prelude.Result.{Error, value_error, os_error, runtime_error, is_exception}
use gepruft_lidar.Protocol.Framing.{FrameCandidate, crc_valid, word_at}
use gepruft_lidar.Diagnostic.Capture.{Capture, Detail, post_tx, is_past, is_present}
use gepruft_lidar.Diagnostic.Capture
use gepruft_lidar.Diagnostic.Bench.{
  Port, Bench, enter, has_crc, io, window, sample, transmit, flush_output, close, finally,
}
use gepruft_lidar.Diagnostic.Repeat.{any_telegram}
use gepruft_lidar.Diagnostic.Decisions.{set_boundary}
use gepruft_lidar.Device.Exec.{Exec, pure, raise, catch, modify, ◌>>=◌, ◌>>◌}

abbrev pub reset_request : List ℕ
reset_request = 0x02 ∷ 0x00 ∷ 0x01 ∷ 0x00 ∷ 0x10 ∷ 0x34 ∷ 0x12 ∷ []

pub record Report : Type 0 where
  pub write_count : Option ℕ
  pub flush_completed : Bool
  pub port_closed : Option Bool
  pub failure : Option Error
  pub close_failure : Option Error
  pub reset_reply_valid : Bool
  pub startup_reply_valid : Bool
  pub exchange_observed : Bool

abbrev pub blank : Report
blank = record {
  write_count = none;
  flush_completed = false;
  port_closed = none;
  failure = none;
  close_failure = none;
  reset_reply_valid = false;
  startup_reply_valid = false;
  exchange_observed = false;
}

abbrev pub State : Port → Type 0
State P = Bench P.State Report

-- A telegram from behind the boundary, from a scanner's address, with a valid checksum.
abbrev pub is_reply : Option ℕ → Detail → Bool
is_reply boundary d =
    is_past boundary d.candidate.offset
    && (get_or d.candidate.raw 1 0 == 0x80 || get_or d.candidate.raw 1 0 == 0x81)
    && crc_valid d.candidate

abbrev pub is_reset_reply : Option ℕ → Detail → Bool
is_reset_reply boundary d =
    is_reply boundary d && (get_or d.candidate.raw 4 0 == 0x91 && word_at d.candidate.raw 2 == 2)

abbrev pub is_startup_reply : Option ℕ → Detail → Bool
is_startup_reply boundary d =
    is_reply boundary d && (get_or d.candidate.raw 4 0 == 0x90 && is_present d.identity)

-- The last entries of the report.
abbrev pub observed : Capture → Report → Report
observed s r =
    let reset : Bool = any_telegram (is_reset_reply s.tx_boundary) s.telegrams in
    let startup : Bool = any_telegram (is_startup_reply s.tx_boundary) s.telegrams in
    record r {
      reset_reply_valid = reset;
      startup_reply_valid = startup;
      exchange_observed = s.post_ack && not s.post_nak && reset && startup;
    }

abbrev pub keep_failure : Error → Report → Report
keep_failure e r = record r { close_failure = some e }

abbrev pub note_closed : Bool → Report → Report
note_closed closed r = record r { port_closed = some closed }

module _ (P : Port) (fuel : ℕ) where
  -- The `try` block.
  unfoldable pub exchange : Exec (State P) (Unit {0})
  unfolding ◌>>=◌
  exchange = do
    io P P.open_port
    sample P fuel true
    modify λ b. record b { capture = set_boundary b.capture }
    written ← transmit P reset_request
    modify (enter λ r. record r { write_count = some written })
    if written == 7 then pure tt else raise os_error
    flush_output P
    modify (enter λ r. record r { flush_completed = true })
    window P fuel (λ started time. ltb (time - started) 65000) post_tx true

  unfoldable pub on_failure : Error → Exec (State P) (Unit {0})
  unfolding ◌>>=◌
  on_failure e = modify (enter λ r. record r { failure = some e })

  -- The `finally` block.
  unfoldable pub finish : Exec (State P) (Unit {0})
  unfolding ◌>>=◌
  finish = do
    close P is_exception keep_failure note_closed
    modify λ b. enter (observed b.capture) b

  -- `run`, with the report in the state; `native` says that the system is Windows.
  unfoldable pub run : Bool → Bool → Bool → Exec (State P) (Unit {0})
  unfolding exchange on_failure finish
  run native confirmed_reset confirmed_hardware = do
    if not (not confirmed_reset || not confirmed_hardware) then pure tt else raise value_error
    if native then pure tt else raise runtime_error
    if has_crc reset_request then pure tt else raise value_error
    io P P.create_log
    modify λ b. record b { capture = Capture.init; report = blank }
    finally (catch exchange on_failure) finish
