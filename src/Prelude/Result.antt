-- ===== src/Prelude/Result.antt =====
-- Python's exceptions as values: an exception is its class. `DeviceError` is a subclass of
-- `ProtocolError`, so a handler of the second also takes the first.
use mathlib.Core.Bool.{Bool, true, false}

pub data Error : Type 0 where
  value_error protocol_error device_error timeout_error os_error eof_error index_error runtime_error
        keyboard_interrupt :
      Error

pub data Result {ℓ} (A : Type ℓ) : Type ℓ where
  ok : A → Result A
  err : Error → Result A

module _ {ℓ κ} {A : Type ℓ} {B : Type κ} where
  infixl 5 ◌>>=◌
  -- The first exception ends a chain of calls.
  abbrev pub ◌>>=◌ : Result A → (A → Result B) → Result B
  err raised >>= next = err raised
  ok value >>= next = next value

module _ {ℓ} {B : Type ℓ} where
  infixl 5 ◌>>◌
  -- A check, and what comes behind it.
  abbrev pub ◌>>◌ : Result (Unit {0}) → Result B → Result B
  check >> next = check >>= λ passed. next

-- `if not test: raise e`
abbrev pub require : Bool → Error → Result (Unit {0})
require true e = ok tt
require false e = err e

abbrev pub is_protocol_error : Error → Bool
is_protocol_error Error.protocol_error = true
is_protocol_error Error.device_error = true
is_protocol_error _ = false

-- TimeoutError is a subclass of OSError.
abbrev pub is_os_error : Error → Bool
is_os_error Error.os_error = true
is_os_error Error.timeout_error = true
is_os_error _ = false

-- `except Exception`: KeyboardInterrupt is only a BaseException.
abbrev pub is_exception : Error → Bool
is_exception Error.keyboard_interrupt = false
is_exception _ = true
