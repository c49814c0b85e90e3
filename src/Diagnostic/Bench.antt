-- ===== src/Diagnostic/Bench.antt =====
-- src/lms200/hardware_diagnostic.py: the serial port, and what the commissioning programs share. A
-- program is an action on the port, the capture and the program's own report.
pub mod Rules
pub mod Closing
pub mod Clock
pub mod Listening
use gepruft_lidar.Prelude.{
  ℕ, zero, suc, ◌+◌, ◌*◌, ◌-◌, ◌≤◌, ◌<◌, ◌≡◌, ◌==◌, Bool, true, false, not, Option, none, some,
  List, [], ◌∷◌, ◌++◌, leb, ltb, length, take, if◌then◌else◌,
}
use gepruft_lidar.Prelude.Result.{
  Result, Error, ok, err, timeout_error, value_error, is_os_error, index_error,
}
use gepruft_lidar.Protocol.Crc.{crc16}
use gepruft_lidar.Diagnostic.Capture.{Capture, Direction, read, pre_tx}
use gepruft_lidar.Diagnostic.Capture
use gepruft_lidar.Device.Exec.{
  Outcome, done, raised, stuck, Exec, pure, raise, lift, catch, modify, gets, ◌>>=◌, ◌>>◌, continue,
}

-- pyserial's Serial, with `time.monotonic` in milliseconds. The state is that of the port and of all
-- that is outside the program: `create_log` makes the journal's file, and the two tests are those
-- that the operator answers. `drains` says whether a flush ends within a second; if not, `cut_flush`
-- is what is left of the flush while the timer closes the port. `written` are the arguments that
-- `write` was called with, in order: a call of it adds its argument, whatever comes of the call, and
-- no other operation calls it.
pub record Port : Type 1 where
  pub State : Type 0
  pub now : State → ℕ
  pub is_open : State → Bool
  pub create_log : State → Result (Unit {0}) × State
  pub open_port : State → Result (Unit {0}) × State
  pub in_waiting : State → Result ℕ × State
  pub read_bytes : ℕ → State → Result (List ℕ) × State
  pub write : List ℕ → State → Result ℕ × State
  pub drains : State → Bool
  pub flush : State → Result (Unit {0}) × State
  pub cut_flush : State → Result (Unit {0}) × State
  pub close_port : State → Result (Unit {0}) × State
  pub power_confirmed : State → Bool
  pub startup_complete : State → Bool
  pub written : State → List (List ℕ)
  pub write_adds :
      (bytes : List ℕ) (s : State) → written (write bytes s).1 ≡ written s ++ bytes ∷ []
  pub create_log_keeps : (s : State) → written (create_log s).1 ≡ written s
  pub open_port_keeps : (s : State) → written (open_port s).1 ≡ written s
  pub in_waiting_keeps : (s : State) → written (in_waiting s).1 ≡ written s
  pub read_bytes_keeps : (n : ℕ) (s : State) → written (read_bytes n s).1 ≡ written s
  pub flush_keeps : (s : State) → written (flush s).1 ≡ written s
  pub cut_flush_keeps : (s : State) → written (cut_flush s).1 ≡ written s
  pub close_port_keeps : (s : State) → written (close_port s).1 ≡ written s

pub record Bench (S R : Type 0) : Type 0 where
  pub port : S
  pub capture : Capture
  pub report : R

abbrev pub status_request : List ℕ
status_request = 0x02 ∷ 0x00 ∷ 0x01 ∷ 0x00 ∷ 0x31 ∷ 0x15 ∷ 0x12 ∷ []

-- The CRC of a fixed telegram of seven bytes, and the two bytes at its end.
abbrev pub has_crc : List ℕ → Bool
has_crc (a ∷ b ∷ c ∷ d ∷ e ∷ low ∷ high ∷ []) = crc16 (a ∷ b ∷ c ∷ d ∷ e ∷ []) == low + 256 * high
has_crc _ = false

-- max(1, min(4096, n))
abbrev pub clamped : ℕ → ℕ
clamped n = if leb n 1 then 1 else if leb n 4096 then n else 4096

abbrev pub to_result : Option Capture → Result Capture
to_result none = err index_error
to_result (some s) = ok s

-- `expired.is_set()` after a flush that the timer cut short.
abbrev pub expired : Result (Unit {0}) → Result (Unit {0})
expired (ok _) = err timeout_error
expired (err e) = err e

-- `report[…] = …`
abbrev pub enter : {S R : Type 0} → (R → R) → Bench S R → Bench S R
enter f b = record b { report = f b.report }

-- `finally`: the last actions run however `m` ends, and what they raise replaces its exception.
abbrev pub ended : {S A : Type 0} → Outcome A → Outcome (Unit {0}) × S → Outcome A × S
ended stuck (last, s) = (stuck, s)
ended r (done u, s) = (r, s)
ended r (raised e, s) = (raised e, s)
ended r (stuck, s) = (stuck, s)

unfoldable pub finally : {S A : Type 0} → Exec S A → Exec S (Unit {0}) → Exec S A
finally m last s = let (r, s') = m s in ended r (last s')

-- `flush_output`, but for its caller's state.
unfoldable pub flush_port : (P : Port) → P.State → Result (Unit {0}) × P.State
flush_port P s = if P.drains s then P.flush s else (let (r, s') = P.cut_flush s in (expired r, s'))

module _ (P : Port) {R : Type 0} where
  -- A call of the port.
  unfoldable pub io : {A : Type 0} → (P.State → Result A × P.State) → Exec (Bench P.State R) A
  unfolding ◌>>=◌
  io op b = let (r, s) = op b.port in lift r (record b { port = s })

  unfoldable pub now : Exec (Bench P.State R) ℕ
  unfolding ◌>>=◌
  now = gets λ b. P.now b.port

  unfoldable pub captured : List ℕ → Direction → Bool → Exec (Bench P.State R) (Unit {0})
  unfolding ◌>>=◌
  captured bytes phase framed = do
    next ← gets λ b. read bytes phase framed b.capture
    s ← lift (to_result next)
    modify λ b. record b { capture = s }

  -- Capture.read
  unfoldable pub receive : Direction → Bool → Exec (Bench P.State R) (Unit {0})
  unfolding captured
  receive phase framed = do
    waiting ← io P.in_waiting
    bytes ← io (P.read_bytes (clamped waiting))
    captured bytes phase framed

  -- `while test(time.monotonic()): capture.read(…)`
  unfoldable pub listen : ℕ → (ℕ → Bool) → Direction → Bool → Exec (Bench P.State R) (Unit {0})
  unfolding receive
  listen zero test phase framed b = (stuck, b)
  listen (suc n) test phase framed b = elim (test (P.now b.port)) [
    | true ↦ (receive phase framed >>= λ u. listen n test phase framed) b
    | false ↦ (done tt, b)
  ]

  -- `started = time.monotonic()`, and such a loop.
  unfoldable pub window : ℕ → (ℕ → ℕ → Bool) → Direction → Bool → Exec (Bench P.State R) (Unit {0})
  unfolding listen
  window fuel test phase framed = do started ← now; listen fuel (test started) phase framed

  -- The tenth of a second in which all the programs listen before they send.
  unfoldable pub sample : ℕ → Bool → Exec (Bench P.State R) (Unit {0})
  unfolding window
  sample fuel framed = window fuel (λ started time. ltb time (started + 100)) pre_tx framed

  -- `device.write`, behind the entry of the journal that says what is written.
  unfoldable pub transmit : List ℕ → Exec (Bench P.State R) ℕ
  unfolding io
  transmit bytes = io (P.write bytes)

  unfoldable pub flush_output : Exec (Bench P.State R) (Unit {0})
  unfolding flush_port
  flush_output = io (flush_port P)

  -- `device.close()`, with the exceptions that are caught kept in the report.
  unfoldable pub close :
      (Error → Bool) → (Error → R → R) → (Bool → R → R) → Exec (Bench P.State R) (Unit {0})
  unfolding io
  close caught keep note = do
    catch (io P.close_port) λ e. if caught e then modify (enter (keep e)) else raise e
    modify λ b. enter (note (not (P.is_open b.port))) b
