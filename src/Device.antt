-- ===== src/Device.antt =====
-- src/lms200/state_machine.py, class Device. The state of the device is a record over the state of
-- its transport, and each method is an action of `Exec`. The text of the log is left out. The tasks
-- of asyncio are one sequence of steps: the reader runs where a command waits, and `now` is the
-- transport's clock.
pub mod Exec
pub mod Reader
pub mod Command
pub mod Lifecycle
use gepruft_lidar.Prelude.{
  ℕ, zero, suc, ◌+◌, ◌-◌, ◌*◌, ◌%◌, ◌≤◌, ◌<◌, Bool, true, false, not, ◌&&◌, ◌||◌, Option, none,
  some, List, [], ◌∷◌, ◌++◌, ltb, leb, ◌==◌, if◌then◌else◌, length, drop,
}
use gepruft_lidar.Prelude.Result.{Result, Error}
use gepruft_lidar.Protocol.Framing
use gepruft_lidar.Protocol.Framing.{Framer, Control}
use gepruft_lidar.Protocol.Responses.{Response, Configuration, DeviceStatus}
use gepruft_lidar.Protocol.Measurements.{Scan}
use gepruft_lidar.Config.{Settings}

-- What the sidecar of a recording tells the device (transports/replay.py).
pub record Recorded : Type 0 where
  pub configuration : List ℕ
  pub status : DeviceStatus
  pub model : List ℕ

-- transports/base.py: the byte stream under the device, with the clock that the device reads. An
-- empty read is idle. `rest` is time that passes with no read, and `recorded` and `timestamp` are
-- those of a ReplayTransport.
pub record Transport : Type 1 where
  pub State : Type 0
  pub can_set_baud : Bool
  pub baud : State → ℕ
  pub now : State → ℕ
  pub wall_clock : State → ℕ
  pub open_port : State → Result (Unit {0}) × State
  pub read : State → Result (List ℕ) × State
  pub write : List ℕ → State → Result (Unit {0}) × State
  pub set_baud : ℕ → State → Result (Unit {0}) × State
  pub close_port : State → Result (Unit {0}) × State
  pub rest : State → State
  pub recorded : State → Option Recorded
  pub timestamp : State → Option ℕ

-- class State
pub data Phase : Type 0 where
  disconnected opening detecting connected requesting_status installing configuring : Phase
  changing_baud verifying starting streaming recovering stopping faulted : Phase

abbrev pub is_streaming : Phase → Bool
is_streaming streaming = true
is_streaming _ = false

pub record Counters : Type 0 where
  pub timeouts : ℕ
  pub naks : ℕ
  pub malformed : ℕ
  pub unexpected : ℕ
  pub dropped_scans : ℕ
  pub received_scans : ℕ

-- Control | Response | Exception
pub data Item : Type 0 where
  control : Control → Item
  reply : Response → Item
  failure : Error → Item

-- The texts of Device.error.
pub data Fault : Type 0 where
  unhealthy scanner_reset measurement_timeout replay_truncated disconnected read_failed : Fault
  operation_failed : Error → Fault

pub record Device (S : Type 0) : Type 0 where
  pub settings : Settings
  pub transport : S
  pub phase : Phase
  pub history : List Phase
  pub counters : Counters
  pub framer : Framer
  pub info : Option DeviceStatus
  pub model : Option (List ℕ)
  pub configuration : Option Configuration
  pub latest : Option Scan
  pub fault : Option Fault
  pub events : List Item
  pub reading : Bool
  pub last_bytes : ℕ
  pub changed : Bool
  pub is_open : Bool
  pub times : List ℕ
  pub last_telegram_index : Option ℕ
  pub stream_since : ℕ
  pub published : List Scan

-- Device.__init__
abbrev pub init : {S : Type 0} → Settings → S → Device S
init settings transport = record {
  settings = settings;
  transport = transport;
  phase = Phase.disconnected;
  history = Phase.disconnected ∷ [];
  counters = record {
    timeouts = 0;
    naks = 0;
    malformed = 0;
    unexpected = 0;
    dropped_scans = 0;
    received_scans = 0;
  };
  framer = Framing.init;
  info = none;
  model = none;
  configuration = none;
  latest = none;
  fault = none;
  events = [];
  reading = false;
  last_bytes = 0;
  changed = false;
  is_open = false;
  times = [];
  last_telegram_index = none;
  stream_since = 0;
  published = [];
}

module _ {S : Type 0} where
  -- Device.transition
  abbrev pub transition : Phase → Device S → Device S
  transition phase d = record d { phase = phase; history = d.history ++ phase ∷ [] }

  abbrev pub bump_malformed : Device S → Device S
  bump_malformed d = record d {
    counters = record d.counters { malformed = d.counters.malformed + 1 };
  }

  abbrev pub bump_unexpected : Device S → Device S
  bump_unexpected d = record d {
    counters = record d.counters { unexpected = d.counters.unexpected + 1 };
  }

  abbrev pub bump_timeouts : Device S → Device S
  bump_timeouts d = record d { counters = record d.counters { timeouts = d.counters.timeouts + 1 } }

  abbrev pub bump_naks : Device S → Device S
  bump_naks d = record d { counters = record d.counters { naks = d.counters.naks + 1 } }

  -- `while not self._events.empty(): self._events.get_nowait()`
  abbrev pub cleared : Device S → Device S
  cleared d = record d { events = [] }

  -- `self._changed = True`
  abbrev pub marked : Device S → Device S
  marked d = record d { changed = true }

  abbrev pub fail_with : Fault → Device S → Device S
  fail_with fault d = transition Phase.faulted (record d { fault = some fault })

  -- Device._queue
  unfoldable pub queue : Item → Device S → Device S
  queue item d =
      if leb 64 (length d.events)
      then record (bump_unexpected d) { events = drop 1 d.events ++ item ∷ [] }
      else record d { events = d.events ++ item ∷ [] }
