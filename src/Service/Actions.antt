-- ===== src/Service/Actions.antt =====
-- src/lms200/service.py: the actions on the device. The scans that the device publishes meanwhile
-- are the business of the fan-out.
use gepruft_lidar.Prelude.{
  ◌≡◌, Bool, true, false, not, ◌&&◌, if◌then◌else◌, ℕ, inl, inr, some, arith,
}
use gepruft_lidar.Prelude.Result.{Result, ok, err, value_error, keyboard_interrupt}
use gepruft_lidar.Protocol.Measurements.{Scan}
use gepruft_lidar.Recording.{Recorder}
use gepruft_lidar.Config.{require_write, is_physical}
use gepruft_lidar.Config.Consent.{IsConfirmed, require_write_iff}
use gepruft_lidar.Device.{Device, Transport, Phase, Fault, transition}
use gepruft_lidar.Device.Lifecycle.{initialize, reconnect, connect, close}
use gepruft_lidar.Device.Exec.{Outcome, done, raised, Exec}
use gepruft_lidar.Service.Fanout.{Fanout, stop_recording}

-- The names of the actions; any other text is `unknown`.
pub data Name : Type 0 where
  start_action reconnect_action stop_action probe_action unknown : Name

pub record Service (S : Type 0) : Type 0 where
  pub device : Device S
  pub fanout : Fanout
  pub busy : Bool

abbrev pub needs_write : Name → Bool
needs_write start_action = true
needs_write reconnect_action = true
needs_write _ = false

module _ {S : Type 0} where
  abbrev allowed : Service S → Result (Unit {0}) → Result (Unit {0}) × Service S
  allowed s (ok _) = (ok tt, record s { busy = true })
  allowed s (err e) = (err e, s)

  -- Service.action up to the task that it creates.
  unfoldable pub action : Name → Service S → Result (Unit {0}) × Service S
  action name s =
      if s.busy
      then (err value_error, s)
      else allowed s (if needs_write name then require_write s.device.settings else ok tt)

  -- On physical hardware the service refuses to start or reconnect, and changes nothing, unless
  -- writing is enabled and the whole checklist confirmed.
  pub action_refused :
      (name : Name) (s : Service S)
      → needs_write name ≡ true
      → is_physical s.device.settings.transport ≡ true
      → ¬ IsConfirmed s.device.settings
      → action name s ≡ (err value_error, s)
  unfolding action
  action_refused name s needs physical unconfirmed =
      elim (require_write_iff s.device.settings physical).1 [
        | inl e ↦ absurd (unconfirmed ((require_write_iff s.device.settings physical).0.0 e))
        | inr e ↦ ground (arith, needs, e)
      ]

module _ (T : Transport) (fuel : ℕ) (refuses : Recorder → Scan → Bool) where
  abbrev on_device :
      Exec (Device T.State) (Unit {0}) → Service T.State → Outcome (Unit {0}) × Service T.State
  on_device m s = ((m s.device).0, record s { device = (m s.device).1 })

  abbrev stopped : Service T.State → Service T.State
  stopped s = record s { fanout = stop_recording refuses s.fanout }

  abbrev then_stopped : Outcome (Unit {0}) × Service T.State → Outcome (Unit {0}) × Service T.State
  then_stopped (done _, s) = (done tt, stopped s)
  then_stopped (r, s) = (r, s)

  -- The `try` of Service._run_action
  unfoldable pub act : Name → Service T.State → Outcome (Unit {0}) × Service T.State
  act start_action s = on_device (initialize T fuel true) s
  act reconnect_action s = on_device (reconnect T fuel) (stopped s)
  act stop_action s = then_stopped (on_device (close T fuel) s)
  act probe_action s = on_device (connect T fuel) s
  act unknown s = (raised value_error, s)

  abbrev then_faulted : Outcome (Unit {0}) × Service T.State → Outcome (Unit {0}) × Service T.State
  then_faulted (done _, s) = (done tt, record s { device = transition Phase.faulted s.device })
  then_faulted (r, s) = (r, s)

  -- `except Exception`
  unfoldable pub handled :
      Outcome (Unit {0}) × Service T.State → Outcome (Unit {0}) × Service T.State
  handled (raised keyboard_interrupt, s) = (raised keyboard_interrupt, s)
  handled (raised e, s) = then_faulted (
      on_device (close T fuel)
        (record s { device = record s.device { fault = some (Fault.operation_failed e) } }))
  handled (r, s) = (r, s)

  -- Service._run_action, with the end of its task.
  unfoldable pub run_action : Name → Service T.State → Outcome (Unit {0}) × Service T.State
  unfolding act handled
  run_action name s = let (r, s') = handled (act name s) in (r, record s' { busy = false })

  -- A round of Service._watch
  unfoldable pub watch : Service T.State → Outcome (Unit {0}) × Service T.State
  watch s =
      if is_faulted s.device.phase && not s.busy
      then kept (on_device (close T fuel) (stopped s))
      else (done tt, s)
    where
      is_faulted : Phase → Bool
      is_faulted Phase.faulted = true
      is_faulted _ = false

      kept : Outcome (Unit {0}) × Service T.State → Outcome (Unit {0}) × Service T.State
      kept (done _, s') =
          (done tt, record s' { device = record s'.device { phase = Phase.faulted } })
      kept (r, s') = (r, s')
