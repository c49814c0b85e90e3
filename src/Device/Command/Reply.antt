-- ===== src/Device/Command/Reply.antt =====
-- What Device.command of src/lms200/state_machine.py returns, and what it refuses to send.
use gepruft_lidar.Prelude.{
  ℕ, zero, suc, ◌≡◌, refl, Bool, true, false, leb, ◌==◌, arith, Bool-cases, Option-cases, inl, inr,
}
use gepruft_lidar.Prelude.Result.{Error, ok, err, value_error, protocol_error, timeout_error}
use gepruft_lidar.Protocol.Framing.{Control}
use gepruft_lidar.Protocol.Commands.{Command}
use gepruft_lidar.Protocol.Responses.{Response, confirm}
use gepruft_lidar.Config.{require_write, is_physical}
use gepruft_lidar.Config.Consent.{IsConfirmed, require_write_iff}
use gepruft_lidar.Device.{Device, Transport, Item, control, reply, failure}
use gepruft_lidar.Device.Reader.{idle}
use gepruft_lidar.Device.Command.{
  take_item, Verdict, returns, raises, goes_on, settle, on_ack, on_item, wait_reply, on_failure,
  attempts_loop, command,
}
use gepruft_lidar.Device.Exec.{Outcome, done, raised, stuck, Exec, ◌>>=◌}
use gepruft_lidar.Device.Exec.Returns.{
  Returns, Returns-raise, Returns-if, Returns-bind, Returns-catch,
}

-- The reply that the command asked for, confirmed against the request.
pub record Answers (c : Command) (r : Response) : Type 0 where
  pub expected : r.command ≡ c.response_id
  pub confirmed : confirm r c.payload ≡ ok tt

module _ (T : Transport) (fuel : ℕ) (c : Command) where
  on_item-Answers :
      (acked : Bool) (deadline : ℕ) (item : Item) (d : Device T.State) (r : Response)
      → (on_item T fuel c acked deadline item d).0 ≡ done (returns r)
      → Answers c r
  unfolding on_item ◌>>=◌
  on_item-Answers acked deadline (failure e) d r h = cc
  on_item-Answers acked deadline (control Control.nak) d r h = ground arith
  on_item-Answers true deadline (control Control.ack) d r h = unfold on_ack in cc
  on_item-Answers false deadline (control Control.ack) d r h = unfold on_ack in cc
  on_item-Answers acked deadline (reply x) d r h = ground arith

  settle-Answers :
      (v : Outcome Verdict) (k : Bool → ℕ → Exec (Device T.State) Response) (d : Device T.State)
      (r : Response)
      → ((x : Response) → v ≡ done (returns x) → Answers c x)
      → ((acked : Bool) (deadline : ℕ) → (k acked deadline d).0 ≡ done r → Answers c r)
      → (settle v k d).0 ≡ done r
      → Answers c r
  settle-Answers (done (returns x)) k d r h g e = ground (arith, h x refl)
  settle-Answers (done (raises x)) k d r h g e = cc
  settle-Answers (done (goes_on acked deadline)) k d r h g e = g acked deadline e
  settle-Answers (raised x) k d r h g e = cc
  settle-Answers stuck k d r h g e = cc

  wait_reply-Answers :
      (n : ℕ) (acked : Bool) (deadline : ℕ) (d : Device T.State) (r : Response)
      → (wait_reply T fuel n c acked deadline d).0 ≡ done r
      → Answers c r
  unfolding wait_reply
  wait_reply-Answers zero acked deadline d r h = cc
  wait_reply-Answers (suc n) acked deadline d r h =
      elim (Bool-cases (leb deadline (T.now d.transport))) [
        | inl e ↦ cc (rw (wait_reply, e) at h)
        | inr e ↦ elim (Option-cases (take_item d)) [
          | inl e' ↦ wait_reply-Answers n acked deadline (idle T d) r (rw (wait_reply, e, e') at h)
          | inr ((item, d'), e') ↦
              settle-Answers (on_item T fuel c acked deadline item d').0 (wait_reply T fuel n c)
                (on_item T fuel c acked deadline item d').1 r
                (λ x p. on_item-Answers acked deadline item d' x p)
                (λ acked' deadline' p. wait_reply-Answers n acked' deadline' _ r p)
                (rw (wait_reply, e, e') at h)
        ]
      ]

  abbrev Answered : Response → Device T.State → Type 0
  Answered r d = Answers c r

  on_failure-Answers :
      (left : ℕ) (again : Exec (Device T.State) Response) (e : Error)
      → Returns Answered again
      → Returns Answered (on_failure T fuel left again e)
  unfolding on_failure
  on_failure-Answers left again timeout_error k = Returns-bind _ _ λ _.
      Returns-if (left == 0) _ _ (λ _. Returns-raise timeout_error) (λ _. Returns-bind _ _ λ _. k)
  on_failure-Answers left again protocol_error k =
      Returns-if (left == 0) _ _ (λ _. Returns-raise protocol_error) (λ _. Returns-bind _ _ λ _. k)
  on_failure-Answers left again _ k = Returns-raise _

  attempts_loop-Answers : (left : ℕ) → Returns Answered (attempts_loop T fuel left c)
  unfolding attempts_loop
  attempts_loop-Answers zero = Returns-raise protocol_error
  attempts_loop-Answers (suc left) = Returns-bind _ _ λ deadline.
      Returns-catch (wait_reply T fuel fuel c false deadline) _
        (record { at = λ d r h. wait_reply-Answers fuel false deadline d r h })
        (λ e. on_failure-Answers left _ e (attempts_loop-Answers left))

  command-Answers : Returns Answered (command T fuel c)
  unfolding command
  command-Answers =
      Returns-if c.mutates _ _
        (λ _.
          Returns-bind _ _
            λ _. Returns-bind _ _ λ _. Returns-bind _ _ λ _. attempts_loop-Answers c.attempts)
        (λ _. attempts_loop-Answers c.attempts)

refused :
    (T : Transport) (fuel : ℕ) (c : Command) (d : Device T.State) {e : Error}
    → c.mutates ≡ true
    → require_write d.settings ≡ err e
    → command T fuel c d ≡ (raised e, d)
unfolding command ◌>>=◌
refused T fuel c d mutates e = rw (mutates, e)

-- A command that returns has the reply it asked for: the expected response id, and a body that
-- confirms the request's payload.
pub command_answered :
    (T : Transport) (fuel : ℕ) (c : Command) (d : Device T.State) (r : Response)
    → (command T fuel c d).0 ≡ done r
    → Answers c r
command_answered T fuel c d r h = (command-Answers T fuel c).at d r h

-- On physical hardware a command that changes the scanner is refused with a ValueError, and nothing
-- is changed or sent, not even read, unless writing is enabled and the whole checklist confirmed.
pub command_refused :
    (T : Transport) (fuel : ℕ) (c : Command) (d : Device T.State)
    → c.mutates ≡ true
    → is_physical d.settings.transport ≡ true
    → ¬ IsConfirmed d.settings
    → command T fuel c d ≡ (raised value_error, d)
command_refused T fuel c d mutates physical unconfirmed =
    elim (require_write_iff d.settings physical).1 [
      | inl e ↦ absurd (unconfirmed ((require_write_iff d.settings physical).0.0 e))
      | inr e ↦ refused T fuel c d mutates e
    ]
