-- ===== src/Serial.antt =====
-- src/lms200/transports/serial.py: SerialTransport. The lock, which lets one write or change of the
-- rate run at a time, is the order of the calls; the threads that the calls run in are left out.
pub mod Written
use gepruft_lidar.Prelude.{
  ℕ, ◌==◌, Bool, true, false, ◌&&◌, List, [], ◌∷◌, length, leb, if◌then◌else◌,
}
use gepruft_lidar.Prelude.Result.{Result, os_error, eof_error}
use gepruft_lidar.Device.Exec.{Exec, pure, raise, lift, modify, gets, ◌>>=◌, ◌>>◌}

-- pyserial's Serial. `open_url` is `serial_for_url` at a rate, `rest` the sleep between two bytes.
pub record SerialDevice : Type 1 where
  pub State : Type 0
  pub is_open : State → Bool
  pub open_url : ℕ → State → Result (Unit {0}) × State
  pub in_waiting : State → Result ℕ × State
  pub read_bytes : ℕ → State → Result (List ℕ) × State
  pub write_bytes : List ℕ → State → Result ℕ × State
  pub flush : State → Result (Unit {0}) × State
  pub rest : State → State
  pub set_rate : ℕ → State → Result (Unit {0}) × State
  pub close_device : State → Result (Unit {0}) × State

-- `present` says that `self.serial` is not None.
pub record SerialTransport (S : Type 0) : Type 0 where
  pub baud : ℕ
  pub present : Bool
  pub device : S

-- __init__
abbrev pub init : {S : Type 0} → ℕ → S → SerialTransport S
init baud s = record { baud = baud; present = false; device = s }

-- max(1, min(size, n))
abbrev pub amount : ℕ → ℕ → ℕ
amount size n = let least : ℕ = if leb size n then size else n in if leb 1 least then least else 1

module _ (D : SerialDevice) where
  unfoldable pub io :
      {A : Type 0} → (D.State → Result A × D.State) → Exec (SerialTransport D.State) A
  unfolding ◌>>=◌
  io op s = let (r, d) = op s.device in lift r (record s { device = d })

  unfoldable pub open_serial : Exec (SerialTransport D.State) (Unit {0})
  unfolding io
  open_serial = do
    baud ← gets λ s. s.baud
    io (D.open_url baud)
    modify λ s. record s { present = true }

  -- _device
  unfoldable pub check_device : Exec (SerialTransport D.State) (Unit {0})
  unfolding ◌>>=◌
  check_device = do
    ready ← gets λ s. s.present && D.is_open s.device
    if ready then pure tt else raise eof_error

  unfoldable pub read : ℕ → Exec (SerialTransport D.State) (List ℕ)
  unfolding check_device io
  read size = do check_device; waiting ← io D.in_waiting; io (D.read_bytes (amount size waiting))

  -- The loop at 500000 baud.
  unfoldable pub write_each : List ℕ → Exec (SerialTransport D.State) (Unit {0})
  unfolding io
  write_each [] = pure tt
  write_each (b ∷ bs) = do
    written ← io (D.write_bytes (b ∷ []))
    if written == 1 then pure tt else raise os_error
    io D.flush
    modify λ s. record s { device = D.rest s.device }
    write_each bs

  unfoldable pub write_all : List ℕ → Exec (SerialTransport D.State) (Unit {0})
  unfolding io
  write_all bytes = do
    written ← io (D.write_bytes bytes)
    if written == length bytes then pure tt else raise os_error
    io D.flush

  -- _write
  unfoldable pub write : List ℕ → Exec (SerialTransport D.State) (Unit {0})
  unfolding check_device write_each write_all
  write bytes = do
    check_device
    baud ← gets λ s. s.baud
    if baud == 500000 then write_each bytes else write_all bytes

  unfoldable pub set_baud : ℕ → Exec (SerialTransport D.State) (Unit {0})
  unfolding check_device io
  set_baud baud = do check_device; io (D.set_rate baud); modify λ s. record s { baud = baud }

  unfoldable pub close : Exec (SerialTransport D.State) (Unit {0})
  unfolding io
  close = do
    present ← gets λ s. s.present
    if present then (do io D.close_device; modify λ s. record s { present = false }) else pure tt
