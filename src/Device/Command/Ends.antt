-- ===== src/Device/Command/Ends.antt =====
-- Device.command of src/lms200/state_machine.py ends: reading takes time, so its deadlines pass.
pub mod Wait
use gepruft_lidar.Prelude.{
  ℕ, zero, suc, ◌+◌, ◌-◌, ◌*◌, ◌/◌, ◌≤◌, ◌<◌, ◌≡◌, ◌≢◌, refl, ◌∙◌, ◌⊎◌, inl, inr, Bool, true, false,
  Option, none, some, List, [], ◌∷◌, ◌++◌, ltb, leb, ◌==◌, if◌then◌else◌, length, arith, Bool-cases,
  Option-cases, ap, subst,
}
use gepruft_lidar.Prelude.Result.{
  Result, Error, ok, err, value_error, protocol_error, device_error, timeout_error, eof_error,
  os_error, index_error, keyboard_interrupt, runtime_error,
}
use gepruft_lidar.Protocol.Framing.{Control}
use gepruft_lidar.Protocol.Commands.{Command, telegram}
use gepruft_lidar.Protocol.Responses.{Response, confirm}
use gepruft_lidar.Config.{Settings, require_write}
use gepruft_lidar.Device.{
  Device, Transport, Item, control, reply, failure, bump_naks, bump_timeouts,
}
use gepruft_lidar.Device.Reader.{idle}
use gepruft_lidar.Device.Reader.Bounds.{IsBounded, idle-Good, idled, idled_when}
use gepruft_lidar.Device.Command.{
  take_item, take_first, Verdict, returns, raises, goes_on, settle, io, sleep, sleep_loop, on_ack,
  on_item, wait_reply, send, on_failure, attempts_loop, command,
}
use gepruft_lidar.Device.Command.Keeps.{
  idle-Safe, take_item-Safe, on_item-Keeps, sleep_loop-Safe, Keeps, Safe, Unmoved, unmoved,
  timeouts-Keeps, cleared-Keeps, Keeps-sleep, Keeps-io, Keeps-send, changed-Keeps, wait_reply-Safe,
  attempts_loop-Keeps,
}
use gepruft_lidar.Device.Command.Reply.{Answers, command_answered}
use gepruft_lidar.Device.Command.Ends.Wait.{
  IsClock, reply_time, sleep-ends, wait_reply-ends, continue-ends, caught-ends, lift-ends,
}
use gepruft_lidar.Device.Exec.Frame
use gepruft_lidar.Device.Exec.Returns.{Returns, Returns-bind}
use gepruft_lidar.Device.Exec.{
  Outcome, done, raised, stuck, Exec, pure, raise, lift, catch, caught, modify, gets, ◌>>=◌, ◌>>◌,
  continue,
}

module _ (T : Transport) (clock : IsClock T) (fuel : ℕ) where
  -- An action that ends, from a device within its limits and with the settings given.
  module _ (settings : Settings) where
    record Ends {A : Type 0} (m : Exec (Device T.State) A) : Type 0 where
      at : (d : Device T.State) → IsBounded d → d.settings ≡ settings → (m d).0 ≢ stuck

    Ends-raise : {A : Type 0} (e : Error) → Ends {A = A} (raise e)
    unfolding raise
    Ends-raise e = record { at = λ d v s p. cc }

    Ends-modify : (f : Device T.State → Device T.State) → Ends (modify f)
    unfolding modify
    Ends-modify f = record { at = λ d v s p. cc }

    Ends-if :
        {A : Type 0} (b : Bool) (m n : Exec (Device T.State) A)
        → Ends m
        → Ends n
        → Ends (if b then m else n)
    Ends-if true m n km kn = km
    Ends-if false m n km kn = kn

    Ends-lift : {A : Type 0} (r : Result A) → Ends (lift r)
    Ends-lift r = record { at = λ d v s. lift-ends r d }

    Ends-gets : {A : Type 0} (f : Device T.State → A) → Ends (gets f)
    unfolding gets
    Ends-gets f = record { at = λ d v s p. cc }

    Ends-io : {A : Type 0} (op : T.State → Result A × T.State) → Ends (io T fuel op)
    unfolding io
    Ends-io op = record { at = λ d v s. lift-ends _ _ }

    Ends-sleep : (time : ℕ) → time < fuel → Ends (sleep T fuel time)
    Ends-sleep time h = record { at = λ d v s. sleep-ends T clock fuel time d v h }

    Ends-bind :
        {A B : Type 0} (m : Exec (Device T.State) A) (f : A → Exec (Device T.State) B)
        → Keeps m
        → Ends m
        → ((a : A) → Ends (f a))
        → Ends (m >>= f)
    unfolding ◌>>=◌
    Ends-bind m f k e g = record {
      at = λ d v s.
          let (v', u) = k.at d v in
          continue-ends (m d).0 f (m d).1 (e.at d v s)
            (λ a p. (g a).at (m d).1 v' (u.settings ∙ s));
    }

    on_failure-Ends :
        (left : ℕ) (again : Exec (Device T.State) Response) (e : Error)
        → 30 < fuel
        → Ends again
        → Ends (on_failure T fuel left again e)
    unfolding on_failure
    on_failure-Ends left again timeout_error h k =
        Ends-bind _ _ (timeouts-Keeps T fuel) (Ends-modify _) λ u.
          Ends-if (left == 0) _ _ (Ends-raise timeout_error)
            (Ends-bind _ _ (Keeps-sleep T fuel 30) (Ends-sleep 30 h) λ u'. k)
    on_failure-Ends left again protocol_error h k =
        Ends-if (left == 0) _ _ (Ends-raise protocol_error)
          (Ends-bind _ _ (Keeps-sleep T fuel 30) (Ends-sleep 30 h) λ u'. k)
    on_failure-Ends left again value_error h k = Ends-raise value_error
    on_failure-Ends left again device_error h k = Ends-raise device_error
    on_failure-Ends left again os_error h k = Ends-raise os_error
    on_failure-Ends left again eof_error h k = Ends-raise eof_error
    on_failure-Ends left again index_error h k = Ends-raise index_error
    on_failure-Ends left again keyboard_interrupt h k = Ends-raise keyboard_interrupt
    on_failure-Ends left again runtime_error h k = Ends-raise runtime_error

    module _ (c : Command) where
      send-Ends : Ends (send T fuel c)
      unfolding send
      send-Ends = Ends-bind _ _ (cleared-Keeps T fuel) (Ends-modify _) λ u.
          Ends-bind _ _ (Frame.Keeps-gets unmoved _) (Ends-gets _) λ address.
            Ends-bind _ _ (Frame.Keeps-lift unmoved _) (Ends-lift _)
              λ bytes. Ends-bind _ _ (Keeps-io T fuel (T.write bytes)) (Ends-io _) λ u'. Ends-gets _

      abbrev IsDeadline : ℕ → Device T.State → Type 0
      IsDeadline deadline d = deadline ≡ T.now d.transport + d.settings.ack_timeout

      gets-IsDeadline : Returns IsDeadline (gets λ d. T.now d.transport + d.settings.ack_timeout)
      unfolding gets
      gets-IsDeadline = record { at = λ d a h. ground arith }

      -- The deadline of the acknowledgement.
      send-IsDeadline : Returns IsDeadline (send T fuel c)
      unfolding send
      send-IsDeadline = Returns-bind _ _ λ u.
          Returns-bind _ _
            λ address. Returns-bind _ _ λ bytes. Returns-bind _ _ λ u'. gets-IsDeadline

      -- Fuel for the time of an acknowledgement and of a reply.
      abbrev IsEnough : Type 0
      IsEnough = 65 * (settings.ack_timeout + reply_time settings c + 2) < fuel

      sent-Ends :
          (enough : IsEnough) (left : ℕ)
          → Ends (attempts_loop T fuel left c)
          → (d : Device T.State) (deadline : ℕ) → IsBounded d
          → d.settings ≡ settings
          → IsDeadline deadline d
          → (catch
              (wait_reply T fuel fuel c false deadline)
              (on_failure T fuel left (attempts_loop T fuel left c))
              d).0
            ≢ stuck
      unfolding catch
      sent-Ends enough left k d deadline v s e =
          let (v', u) = wait_reply-Safe T fuel fuel c false deadline d v in
          caught-ends _ _ _
            (wait_reply-ends T clock fuel c (reply_time settings c) (omega (arith, enough)) fuel
              false deadline d v (ap (λ s. reply_time s c) s)
              (omega (arith, enough, e, v.events, ap (λ (x : Settings). x.ack_timeout) s)))
            (λ x.
              (on_failure-Ends left (attempts_loop T fuel left c) x (omega (arith, enough)) k).at _
                v' (u.settings ∙ s))

      attempts_loop-Ends : IsEnough → (left : ℕ) → Ends (attempts_loop T fuel left c)
      unfolding attempts_loop ◌>>=◌
      attempts_loop-Ends enough zero = Ends-raise protocol_error
      attempts_loop-Ends enough (suc left) = record {
        at = λ d v s.
            let (v', u) = (Keeps-send T fuel c).at d v in
            continue-ends (send T fuel c d).0 _ (send T fuel c d).1 (send-Ends.at d v s)
              (λ deadline p.
                sent-Ends enough left (attempts_loop-Ends enough left) (send T fuel c d).1 deadline
                  v' (u.settings ∙ s) (send-IsDeadline.at d deadline p));
      }

      command-Ends : IsEnough → Ends (command T fuel c)
      unfolding command
      command-Ends enough =
          Ends-if c.mutates _ _
            (Ends-bind _ _ (Frame.Keeps-gets unmoved _) (Ends-gets _) λ s.
              Ends-bind _ _ (Frame.Keeps-lift unmoved _) (Ends-lift _) λ u.
                Ends-bind _ _ (changed-Keeps T fuel) (Ends-modify _)
                  λ u'. attempts_loop-Ends enough c.attempts)
            (attempts_loop-Ends enough c.attempts)

-- An outcome of the program, and `stuck`, which is none.
outcomes :
    {A : Type 0} (r : Outcome A)
    → r ≢ stuck
    → ((a : A) × (r ≡ done a)) ⊎ ((e : Error) × (r ≡ raised e))
outcomes (done a) h = inl (a, refl)
outcomes (raised e) h = inr (e, refl)
outcomes stuck h = absurd (h refl)

-- If the clock moves on with every read and every rest, then a command ends, from a device within
-- the limits of its queues, on any transport and whatever is received: with the reply it asked for,
-- confirmed against the request, or with an exception. 65 steps of fuel for each millisecond of its
-- two deadlines, and 130 more, are enough.
pub command_ends :
    (T : Transport) (fuel : ℕ) (c : Command) (d : Device T.State)
    → IsClock T
    → IsBounded d
    → 65 * (d.settings.ack_timeout + reply_time d.settings c + 2) < fuel
    → ((r : Response) × ((command T fuel c d).0 ≡ done r) × Answers c r)
      ⊎ ((e : Error) × ((command T fuel c d).0 ≡ raised e))
command_ends T fuel c d clock v enough =
    elim (outcomes (command T fuel c d).0
      ((command-Ends T clock fuel d.settings c enough).at d v refl)) [
        | inl (r, e) ↦ inl (r, e, command_answered T fuel c d r e)
        | inr x ↦ inr x
      ]
