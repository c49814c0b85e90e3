-- ===== src/Device/Command/Ends/Wait.antt =====
-- The waits of Device.command of src/lms200/state_machine.py end: reading takes time, so that their
-- deadlines pass.
use gepruft_lidar.Prelude.{
  ℕ, zero, suc, ◌+◌, ◌-◌, ◌*◌, ◌/◌, ◌≤◌, ◌<◌, ◌≡◌, ◌≢◌, refl, ◌∙◌, ◌⊎◌, inl, inr, Bool, true, false,
  some, List, [], ◌∷◌, leb, if◌then◌else◌, length, arith, Bool-cases, Option-cases, ap, subst,
}
use gepruft_lidar.Prelude.Result.{Result, Error, ok, err}
use gepruft_lidar.Protocol.Framing.{Control}
use gepruft_lidar.Protocol.Commands.{Command}
use gepruft_lidar.Protocol.Responses.{Response}
use gepruft_lidar.Config.{Settings}
use gepruft_lidar.Device.{Device, Transport, Item, control, reply, failure, bump_naks}
use gepruft_lidar.Device.Reader.{idle}
use gepruft_lidar.Device.Reader.Bounds.{IsBounded, idle-Good, idled_when}
use gepruft_lidar.Device.Command.{
  take_item, take_first, Verdict, returns, raises, goes_on, settle, sleep, sleep_loop, on_ack,
  on_item, wait_reply,
}
use gepruft_lidar.Device.Command.Keeps.{idle-Safe, take_item-Safe, on_item-Keeps}
use gepruft_lidar.Device.Exec.{Outcome, done, raised, stuck, Exec, lift, caught, ◌>>=◌, continue}

-- The clock moves on while the device waits.
pub record IsClock (T : Transport) : Type 0 where
  pub read_later : (s : T.State) → T.now s < T.now (T.read s).1
  pub rest_later : (s : T.State) → T.now s < T.now (T.rest s)

-- The time for the reply, from the acknowledgement on.
abbrev pub reply_time : Settings → Command → ℕ
reply_time settings c = c.timeout * settings.timeout_scale / 100

settle-ends :
    {S : Type 0} (r : Outcome Verdict) (k : Bool → ℕ → Exec S Response) (d : S)
    → r ≢ stuck
    → ((acked : Bool) (deadline : ℕ)
        → r ≡ done (goes_on acked deadline)
        → (k acked deadline d).0 ≢ stuck)
    → (settle r k d).0 ≢ stuck
settle-ends (done (returns r)) k d h g = λ p. cc
settle-ends (done (raises e)) k d h g = λ p. cc
settle-ends (done (goes_on acked deadline)) k d h g = g acked deadline refl
settle-ends (raised e) k d h g = λ p. cc
settle-ends stuck k d h g = λ p. h refl

module _ {S A B : Type 0} where
  pub continue-ends :
      (r : Outcome A) (f : A → Exec S B) (s : S)
      → r ≢ stuck
      → ((a : A) → r ≡ done a → (f a s).0 ≢ stuck)
      → (continue r f s).0 ≢ stuck
  continue-ends (done a) f s h g = g a refl
  continue-ends (raised e) f s h g = λ p. cc
  continue-ends stuck f s h g = λ p. h refl

pub caught-ends :
    {S A : Type 0} (r : Outcome A) (handler : Error → Exec S A) (s : S)
    → r ≢ stuck
    → ((e : Error) → (handler e s).0 ≢ stuck)
    → (caught r handler s).0 ≢ stuck
caught-ends (done a) handler s h g = λ p. cc
caught-ends (raised e) handler s h g = g e
caught-ends stuck handler s h g = λ p. h refl

pub lift-ends : {S A : Type 0} (r : Result A) (s : S) → (lift r s).0 ≢ stuck
unfolding lift
lift-ends (ok a) s = λ p. cc
lift-ends (err e) s = λ p. cc

module _ (T : Transport) (clock : IsClock T) (fuel : ℕ) where
  abbrev now : Device T.State → ℕ
  now d = T.now d.transport

  idled-later : (s : T.State) (reading : Bool) → T.now s < T.now (idled_when T s reading)
  idled-later s true = clock.read_later s
  idled-later s false = clock.rest_later s

  idle-later : (d : Device T.State) → IsBounded d → now d < now (idle T d)
  idle-later d v =
      let (v', k, t) = idle-Good T d v in
      omega (arith, ap T.now t, idled-later d.transport d.reading)

  sleep_loop-ends :
      (n until : ℕ) (d : Device T.State)
      → IsBounded d
      → until - now d < n
      → (sleep_loop T fuel n until d).0 ≢ stuck
  unfolding sleep_loop
  sleep_loop-ends zero until d v h = absurd (omega arith)
  sleep_loop-ends (suc n) until d v h = elim (Bool-cases (leb until (now d))) [
    | inl e ↦ rw (e, sleep_loop) (λ x. cc)
    | inr e ↦
        rw (e, sleep_loop)
          (sleep_loop-ends n until (idle T d) (idle-Safe T fuel d v).0
            (ground (arith, idle-later d v)))
  ]

  pub sleep-ends :
      (time : ℕ) (d : Device T.State) → IsBounded d → time < fuel → (sleep T fuel time d).0 ≢ stuck
  unfolding sleep
  sleep-ends time d v h = sleep_loop-ends fuel (now d + time) d v (omega arith)

  -- What is left to wait for, in units of a 65th of a millisecond: a read takes a millisecond and
  -- brings 64 events at most.
  abbrev measure : ℕ → Bool → ℕ → Device T.State → ℕ
  measure w acked deadline d =
      (deadline - now d) * 65 + length d.events + (if acked then 0 else 65 * w + 65)

  -- How an event lets the wait go on.
  record GoesOn (w : ℕ) (acked : Bool) (deadline : ℕ) (d : Device T.State) (a : Bool) (t : ℕ)
      (d' : Device T.State) : Type 0 where
    transport : d'.transport ≡ d.transport
    events : d'.events ≡ d.events
    cases : (a ≡ acked) × (t ≡ deadline) ⊎ (acked ≡ false) × (a ≡ true) × (t ≡ now d + w)

  measure-le :
      (w : ℕ) (acked : Bool) (deadline : ℕ) (d : Device T.State) (a : Bool) (t : ℕ)
      (d' : Device T.State)
      → GoesOn w acked deadline d a t d'
      → measure w a t d' ≤ measure w acked deadline d
  measure-le w acked deadline d a t d' g =
      ground (arith, ap T.now g.transport, ap length g.events, g.cases)

  -- What taking an event leaves.
  taken :
      (items : List Item) (d : Device T.State) (item : Item) (d' : Device T.State)
      → take_first d items ≡ some (item, d')
      → (length items ≡ length d'.events + 1) × (d'.transport ≡ d.transport)
  taken [] d item d' e = cc
  taken (x ∷ xs) d item d' e = ground arith

  module _ (c : Command) where
    abbrev reply_in : Device T.State → ℕ
    reply_in d = reply_time d.settings c

    on_item-GoesOn :
        (acked : Bool) (deadline : ℕ) (item : Item) (d : Device T.State) (a : Bool) (t : ℕ)
        → (on_item T fuel c acked deadline item d).0 ≡ done (goes_on a t)
        → GoesOn (reply_in d) acked deadline d a t (on_item T fuel c acked deadline item d).1
    unfolding on_item ◌>>=◌
    on_item-GoesOn acked deadline (failure e) d a t h = cc
    on_item-GoesOn acked deadline (control Control.nak) d a t h = ground arith
    on_item-GoesOn true deadline (control Control.ack) d a t h = unfold on_ack in ground arith
    on_item-GoesOn false deadline (control Control.ack) d a t h = unfold on_ack in ground arith
    on_item-GoesOn acked deadline (reply x) d a t h = ground arith

    on_item-ends :
        (acked : Bool) (deadline : ℕ) (item : Item) (d : Device T.State)
        → IsBounded d
        → 30 < fuel
        → (on_item T fuel c acked deadline item d).0 ≢ stuck
    unfolding on_item ◌>>=◌
    on_item-ends acked deadline (failure e) d v h = λ p. cc
    on_item-ends acked deadline (control Control.nak) d v h =
        continue-ends (sleep T fuel 30 (bump_naks d)).0 _ (sleep T fuel 30 (bump_naks d)).1
          (sleep-ends 30 (bump_naks d) (record { events = v.events; times = v.times }) h)
          (λ a e. λ p. cc)
    on_item-ends true deadline (control Control.ack) d v h = unfold on_ack in λ p. cc
    on_item-ends false deadline (control Control.ack) d v h = unfold on_ack in λ p. cc
    on_item-ends acked deadline (reply x) d v h = ground arith

    module _ (w : ℕ) (enough : 30 < fuel) where
      pub wait_reply-ends :
          (n : ℕ) (acked : Bool) (deadline : ℕ) (d : Device T.State)
          → IsBounded d
          → reply_in d ≡ w
          → measure w acked deadline d < n
          → (wait_reply T fuel n c acked deadline d).0 ≢ stuck
      unfolding wait_reply
      wait_reply-ends zero acked deadline d v e h = absurd (omega arith)
      wait_reply-ends (suc n) acked deadline d v e h = elim (Bool-cases (leb deadline (now d))) [
        | inl x ↦ rw (x, wait_reply) (λ p. cc)
        | inr x ↦ elim (Option-cases (take_item d)) [
          | inl y ↦
              let (v', k) = idle-Safe T fuel d v in
              rw (x, y, wait_reply)
                (wait_reply-ends n acked deadline (idle T d) v'
                  (ap (λ s. reply_time s c) k.settings ∙ e) (ground (arith, idle-later d v)))
          | inr ((item, d'), y) ↦
              let (v', k) = take_item-Safe T fuel d.events d item d' refl v y in
              let (v'', k') = (on_item-Keeps T fuel c acked deadline item).at d' v' in
              rw (x, y, wait_reply)
                (settle-ends _ (wait_reply T fuel n c) _
                  (on_item-ends acked deadline item d' v' enough)
                  λ a t p.
                    let g = on_item-GoesOn acked deadline item d' a t p in
                    let after : Device T.State = (on_item T fuel c acked deadline item d').1 in
                    wait_reply-ends n a t after v''
                      (ap (λ s. reply_time s c) k'.settings
                        ∙ (ap (λ s. reply_time s c) k.settings ∙ e))
                      (omega (
                        arith,
                        measure-le w acked deadline d' a t after (
                            subst (λ (x : ℕ). GoesOn x acked deadline d' a t after)
                              (ap (λ s. reply_time s c) k.settings ∙ e) g),
                        (taken d.events d item d' y).0,
                        ap T.now (taken d.events d item d' y).1,
                      )))
        ]
      ]
