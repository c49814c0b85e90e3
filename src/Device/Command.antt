-- ===== src/Device/Command.antt =====
-- src/lms200/state_machine.py: Device.command. The reader runs wherever the command waits.
pub mod Keeps
pub mod Reply
pub mod Ends
use gepruft_lidar.Prelude.{
  ℕ, zero, suc, ◌+◌, ◌-◌, ◌*◌, ◌/◌, ◌≤◌, ◌<◌, Bool, true, false, Option, none, some, List, [], ◌∷◌,
  ◌++◌, ltb, leb, ◌==◌, if◌then◌else◌, length,
}
use gepruft_lidar.Prelude.Result.{
  Result, Error, ok, err, value_error, protocol_error, device_error, timeout_error, eof_error,
  os_error,
}
use gepruft_lidar.Protocol.Framing.{Control, ack, nak}
use gepruft_lidar.Protocol.Commands.{Command, telegram}
use gepruft_lidar.Protocol.Responses.{Response, confirm}
use gepruft_lidar.Config.{Settings, require_write}
use gepruft_lidar.Device.{
  Device, Transport, Item, control, reply, failure, bump_naks, bump_timeouts, bump_unexpected,
  cleared, marked,
}
use gepruft_lidar.Device.Reader.{idle}
use gepruft_lidar.Device.Exec.{
  Outcome, done, raised, stuck, Exec, pure, raise, lift, catch, caught, modify, gets, ◌>>=◌, ◌>>◌,
  continue,
}

-- What one event makes of the wait for the reply: an end of it, or the wait goes on with the
-- acknowledgement and the deadline given.
pub data Verdict : Type 0 where
  returns : Response → Verdict
  raises : Error → Verdict
  goes_on : Bool → ℕ → Verdict

abbrev to_verdict : Result (Unit {0}) → Response → Verdict
to_verdict (ok _) r = returns r
to_verdict (err e) r = raises e

abbrev take_first : {S : Type 0} → Device S → List Item → Option (Item × Device S)
take_first d [] = none
take_first d (item ∷ items) = some (item, record d { events = items })

abbrev take_item : {S : Type 0} → Device S → Option (Item × Device S)
take_item d = take_first d d.events

abbrev settle : {S : Type 0} → Outcome Verdict → (Bool → ℕ → Exec S Response) → Exec S Response
settle (done (returns r)) k d = (done r, d)
settle (done (raises e)) k d = (raised e, d)
settle (done (goes_on acked deadline)) k d = k acked deadline d
settle (raised e) k d = (raised e, d)
settle stuck k d = (stuck, d)

module _ (T : Transport) (fuel : ℕ) where
  -- await self.transport.…
  unfoldable pub io : {A : Type 0} → (T.State → Result A × T.State) → Exec (Device T.State) A
  unfolding ◌>>=◌
  io op d = let (r, s) = op d.transport in lift r (record d { transport = s })

  -- asyncio.sleep, until the clock shows `until`
  unfoldable pub sleep_loop : ℕ → ℕ → Exec (Device T.State) (Unit {0})
  sleep_loop zero until d = (stuck, d)
  sleep_loop (suc n) until d = elim (leb until (T.now d.transport)) [
    | true ↦ (done tt, d)
    | false ↦ sleep_loop n until (idle T d)
  ]

  unfoldable pub sleep : ℕ → Exec (Device T.State) (Unit {0})
  unfolding sleep_loop
  sleep time d = sleep_loop fuel (T.now d.transport + time) d

  unfoldable pub on_ack : Command → Bool → ℕ → Exec (Device T.State) Verdict
  on_ack c true deadline d = (done (goes_on true deadline), d)
  on_ack c false deadline d =
      (done (goes_on true (T.now d.transport + c.timeout * d.settings.timeout_scale / 100)), d)

  unfoldable pub on_item : Command → Bool → ℕ → Item → Exec (Device T.State) Verdict
  unfolding on_ack
  on_item c acked deadline (failure e) = pure (raises e)
  on_item c acked deadline (control Control.nak) = do
    modify bump_naks
    sleep 30
    pure (raises protocol_error)
  on_item c acked deadline (control Control.ack) = on_ack c acked deadline
  on_item c acked deadline (reply r) =
      if r.command == c.response_id
      then (if acked
          then pure (to_verdict (confirm r c.payload) r)
          else (do modify bump_unexpected; pure (goes_on acked deadline)))
      else (do modify bump_unexpected; pure (goes_on acked deadline))

  -- `while True:` up to the reply: a round takes an event, lets some time pass, or times out.
  unfoldable pub wait_reply : ℕ → Command → Bool → ℕ → Exec (Device T.State) Response
  unfolding on_item
  wait_reply zero c acked deadline d = (stuck, d)
  wait_reply (suc n) c acked deadline d = elim (leb deadline (T.now d.transport)) [
    | true ↦ (raised timeout_error, d)
    | false ↦ elim (take_item d) [
      | none ↦ wait_reply n c acked deadline (idle T d)
      | some (item, d') ↦
          let (verdict, d'') = on_item c acked deadline item d' in
          settle verdict (wait_reply n c) d''
    ]
  ]

  -- The `except` clauses around it, with `left` attempts to come.
  unfoldable pub on_failure :
      ℕ → Exec (Device T.State) Response → Error → Exec (Device T.State) Response
  unfolding sleep
  on_failure left again timeout_error = do
    modify bump_timeouts
    if left == 0 then raise timeout_error else (do sleep 30; again)
  on_failure left again protocol_error =
      if left == 0 then raise protocol_error else (do sleep 30; again)
  on_failure left again e = raise e

  -- A round of the loop over the attempts up to its `try`; the result is the deadline for the ACK.
  unfoldable pub send : Command → Exec (Device T.State) ℕ
  send c = do
    modify cleared
    address ← gets λ d. d.settings.address
    bytes ← lift (telegram c address)
    io (T.write bytes)
    gets λ d. T.now d.transport + d.settings.ack_timeout

  -- `for attempt in range(cmd.attempts)`
  unfoldable pub attempts_loop : ℕ → Command → Exec (Device T.State) Response
  unfolding send wait_reply on_failure
  attempts_loop zero c = raise protocol_error
  attempts_loop (suc left) c = do
    deadline ← send c
    catch (wait_reply fuel c false deadline) (on_failure left (attempts_loop left c))

  -- Device.command
  unfoldable pub command : Command → Exec (Device T.State) Response
  unfolding attempts_loop require_write
  command c =
      if c.mutates
      then (do
        settings ← gets λ d. d.settings
        lift (require_write settings)
        modify marked
        attempts_loop c.attempts c)
      else attempts_loop c.attempts c
