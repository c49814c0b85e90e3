-- ===== src/Diagnostic/Decisions.antt =====
-- src/lms200/hardware_diagnostic.py: the modes of run_diagnostic, its report, and what it decides. What
-- the report says of the fixed settings and of times is left out, and `passive_result`, which repeats
-- entries of the report.
use gepruft_lidar.Prelude.{
  ℕ, ◌+◌, Bool, true, false, not, ◌&&◌, ◌||◌, Option, none, some, List, [], ◌∷◌, leb, length, drop,
  take, same, if◌then◌else◌,
}
use gepruft_lidar.Prelude.Result.{Error}
use gepruft_lidar.Diagnostic.Capture.{Capture, is_present}
use gepruft_lidar.Diagnostic.Bench.{Port, Bench, status_request}

pub data Mode : Type 0 where
  listen_startup status loopback direct_test : Mode

pub data Reason : Type 0 where
  no_completion no_startup no_power nak_received echo_differs no_echo no_status operator : Reason

-- Which of the operator's tests are given, and what else is confirmed.
pub record Gates : Type 0 where
  pub power : Bool
  pub complete : Bool
  pub isolated : Bool
  pub direct : Bool

pub record Report : Type 0 where
  pub success : Bool
  pub port_opened : Bool
  pub port_closed : Bool
  pub tx_attempted : List ℕ
  pub tx_bytes : Option ℕ
  pub write_return : Option ℕ
  pub flush_attempted : Bool
  pub flush_completed : Option Bool
  pub timeout_reason : Option Reason
  pub failure : Option Error
  pub power_cycle_confirmed : Bool
  pub startup_complete_confirmed : Bool
  pub loopback_passed : Option Bool
  pub status_response : Option ℕ
  pub close_failure : Option Error

abbrev pub blank : Report
blank = record {
  success = false;
  port_opened = false;
  port_closed = true;
  tx_attempted = [];
  tx_bytes = some 0;
  write_return = none;
  flush_attempted = false;
  flush_completed = none;
  timeout_reason = none;
  failure = none;
  power_cycle_confirmed = false;
  startup_complete_confirmed = false;
  loopback_passed = none;
  status_response = none;
  close_failure = none;
}

abbrev pub State : Port → Type 0
State P = Bench P.State Report

abbrev pub loopback_pattern : List ℕ
loopback_pattern =
    0x55 ∷ 0xAA ∷ 0x00 ∷ 0xFF ∷ 0x11 ∷ 0x13 ∷ 0x06 ∷ 0x15 ∷ 0x02 ∷ 0x7E ∷ 0x80 ∷ 0x01 ∷ 0xFE ∷ 0xA5
    ∷ 0x5A ∷ []

abbrev pub is_loopback : Mode → Bool
is_loopback loopback = true
is_loopback _ = false

abbrev pub is_listening : Mode → Bool
is_listening listen_startup = true
is_listening direct_test = true
is_listening _ = false

abbrev pub is_direct : Mode → Bool
is_direct direct_test = true
is_direct _ = false

abbrev pub is_status : Mode → Bool
is_status status = true
is_status _ = false

abbrev pub is_startup : Mode → Bool
is_startup listen_startup = true
is_startup _ = false

-- The checks at the head, on a mode that is known.
abbrev pub is_refused : Mode → Gates → Bool
is_refused mode g =
    is_loopback mode && not g.isolated
    || is_listening mode && not g.power
    || is_direct mode && (not g.direct || not g.complete)

abbrev pub reason : Reason → Report → Report
reason why r = record r { timeout_reason = some why }

abbrev pub request_of : Mode → List ℕ
request_of loopback = loopback_pattern
request_of _ = status_request

abbrev pub window_of : Mode → ℕ
window_of direct_test = 5000
window_of _ = 3000

abbrev pub from_boundary : Option ℕ → List ℕ → List ℕ
from_boundary none raw = raw
from_boundary (some boundary) raw = drop boundary raw

-- `capture.raw[capture.tx_boundary :]`
abbrev pub echo : Capture → List ℕ
echo s = from_boundary s.tx_boundary s.raw

-- `request.startswith(echo)`
abbrev pub starts_with : List ℕ → List ℕ → Bool
starts_with request prefix = same (take (length prefix) request) prefix

abbrev pub set_boundary : Capture → Capture
set_boundary s = record s { tx_boundary = some (length s.raw) }

abbrev pub keep_failure : Error → Report → Report
keep_failure e r = record r { close_failure = some e }

abbrev pub note_closed : Bool → Report → Report
note_closed closed r = record r { port_closed = closed }

-- The deadlines of the passive part stand at fixed times from the operator's confirmation of the
-- power, which `confirmed` is the time of.
abbrev pub confirmed_at : Bool → ℕ → Option ℕ → Option ℕ
confirmed_at power time (some t) = some t
confirmed_at power time none = if power then some time else none

abbrev pub note_power : Bool → Option ℕ → Report → Report
note_power power (some t) r = r
note_power power none r = if power then record r { power_cycle_confirmed = true } else r

abbrev pub note_complete : Mode → Bool → Option ℕ → Report → Report
note_complete direct_test complete (some t) r =
    if complete then record r { startup_complete_confirmed = true } else r
note_complete mode complete confirmed r = r

-- Whether the loop breaks, and with what reason.
abbrev pub is_over : Mode → ℕ → ℕ → Option ℕ → Report → Option (Option Reason)
is_over mode ready time none r = if leb ready time then some (some no_power) else none
is_over direct_test ready time (some t) r =
    if leb (t + 65000) time && r.startup_complete_confirmed
    then some none
    else if leb (t + 300000) time
    then some (some no_completion)
    else none
is_over mode ready time (some t) r = if leb (t + 65000) time then some (some no_startup) else none

-- Whether a telegram is sent.
abbrev pub is_sending : Mode → Report → Bool
is_sending listen_startup r = false
is_sending direct_test r = r.startup_complete_confirmed && not (is_present r.timeout_reason)
is_sending _ r = true

-- What a read of the last window breaks with.
abbrev pub judge : Mode → Capture → Report → Option Report
judge status s r =
    if s.post_nak
    then some (reason nak_received r)
    else if is_present s.status
    then some (record r { success = true; status_response = s.status })
    else none
judge loopback s r =
    if starts_with loopback_pattern (echo s) then none else some (reason echo_differs r)
judge _ s r = none

abbrev pub why_not : Mode → Capture → Reason
why_not loopback s = no_echo
why_not _ s = if s.post_nak then nak_received else no_status

abbrev pub assess : Mode → Capture → Report → Report
assess direct_test s r = record r {
  success = is_present s.status && not s.post_nak;
  status_response = s.status;
}
assess loopback s r = record r {
  loopback_passed = some (same (echo s) loopback_pattern);
  success = same (echo s) loopback_pattern;
}
assess _ s r = r

-- The `else` of the loop.
abbrev pub conclude : Mode → Capture → Report → Report
conclude mode s r =
    let r' : Report = assess mode s r in if r'.success then r' else reason (why_not mode s) r'

abbrev pub attempted : List ℕ → Report → Report
attempted request r = record r { tx_attempted = request; tx_bytes = none }

abbrev pub written_down : ℕ → Report → Report
written_down written r = record r { write_return = some written; tx_bytes = some written }

abbrev pub is_missing : Option Bool → Bool
is_missing none = true
is_missing (some b) = false

-- The first lines of `finally`.
abbrev pub settle_flags : Mode → Report → Report
settle_flags mode r =
    let r' : Report =
      if r.flush_attempted && is_missing r.flush_completed
      then record r { flush_completed = some false }
      else r in
    if is_loopback mode && is_missing r'.loopback_passed && r'.port_opened
    then record r' { loopback_passed = some false }
    else r'

abbrev pub unless_closed : Report → Report
unless_closed r = if r.port_closed then r else record r { success = false }
