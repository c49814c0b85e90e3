-- ===== src/Device/Command/Keeps.antt =====
-- What a command leaves alone, however it ends (src/lms200/state_machine.py, Device.command).
use gepruft_lidar.Prelude.{
  ℕ, zero, suc, ◌+◌, ◌≡◌, refl, ◌∙◌, Bool, true, false, some, List, [], ◌∷◌, leb, length, arith,
  Bool-cases, Option-cases, inl, inr, ap,
}
use gepruft_lidar.Prelude.Result.{Result, Error, protocol_error, timeout_error}
use gepruft_lidar.Protocol.Framing.{Control}
use gepruft_lidar.Protocol.Commands.{Command}
use gepruft_lidar.Protocol.Responses.{Response}
use gepruft_lidar.Device.{
  Device, Transport, Item, control, reply, failure, bump_naks, bump_timeouts, bump_unexpected,
  cleared, marked,
}
use gepruft_lidar.Device.Reader.{idle}
use gepruft_lidar.Device.Reader.Bounds.{IsBounded, idle-Good}
use gepruft_lidar.Device.Command.{
  take_first, take_item, Verdict, returns, raises, goes_on, settle, io, sleep, sleep_loop, on_ack,
  on_item, wait_reply, send, on_failure, attempts_loop, command,
}
use gepruft_lidar.Device.Exec.{Outcome, done, raised, stuck, Exec, modify}
use gepruft_lidar.Device.Exec.Frame
use gepruft_lidar.Device.Exec.Frame.{
  Frame, Keeps-pure, Keeps-raise, Keeps-lift, Keeps-gets, Keeps-if, Keeps-catch, Keeps-bind,
  lift_state,
}

-- What only `connect`, `initialize` and `close` set.
pub record Unmoved {S : Type 0} (d d' : Device S) : Type 0 where
  pub settings : d'.settings ≡ d.settings
  pub info : d'.info ≡ d.info
  pub model : d'.model ≡ d.model
  pub configuration : d'.configuration ≡ d.configuration
  pub is_open : d'.is_open ≡ d.is_open

pub Unmoved-refl : {S : Type 0} (d : Device S) → Unmoved d d
Unmoved-refl d = record {
  settings = refl;
  info = refl;
  model = refl;
  configuration = refl;
  is_open = refl;
}

pub Unmoved-trans : {S : Type 0} {a b c : Device S} → Unmoved a b → Unmoved b c → Unmoved a c
Unmoved-trans p q = record {
  settings = q.settings ∙ p.settings;
  info = q.info ∙ p.info;
  model = q.model ∙ p.model;
  configuration = q.configuration ∙ p.configuration;
  is_open = q.is_open ∙ p.is_open;
}

abbrev pub unmoved : {S : Type 0} → Frame (Device S)
unmoved = record {
  Inv = IsBounded;
  Rel = Unmoved;
  rel_refl = Unmoved-refl;
  rel_trans = Unmoved-trans;
}

abbrev pub Keeps : {S A : Type 0} → Exec (Device S) A → Type 0
Keeps m = Frame.Keeps unmoved m

abbrev pub Safe : {S : Type 0} → Device S → Device S → Type 0
Safe d d' = IsBounded d' × Unmoved d d'

ruleset safe_rules = (
  Frame.Keeps-pure, Frame.Keeps-raise, Frame.Keeps-lift, Frame.Keeps-gets, Frame.Keeps-if,
  Frame.Keeps-bind, Frame.Keeps-catch,
)

module _ (T : Transport) (fuel : ℕ) where
  moved : (d : Device T.State) (s : T.State) → IsBounded d → Safe d (record d { transport = s })
  moved d s v = (
    record { events = v.events; times = v.times },
    record { settings = refl; info = refl; model = refl; configuration = refl; is_open = refl },
  )

  pub Keeps-io : {A : Type 0} (op : T.State → Result A × T.State) → Keeps (io T fuel op)
  unfolding io
  Keeps-io op = record {
    at = λ d v.
        rw (lift_state unmoved (op d.transport).0 (record d { transport = (op d.transport).1 }))
          (moved d (op d.transport).1 v);
  }

  pub Keeps-modify :
      (f : Device T.State → Device T.State)
      → ((d : Device T.State) → IsBounded d → Safe d (f d))
      → Keeps (modify f)
  unfolding modify
  Keeps-modify f h = record { at = h }

  naks-Keeps : Keeps (modify (bump_naks {S = T.State}))
  naks-Keeps = Keeps-modify bump_naks (λ d v. ground arith)

  pub timeouts-Keeps : Keeps (modify (bump_timeouts {S = T.State}))
  timeouts-Keeps = Keeps-modify bump_timeouts (λ d v. ground arith)

  unexpected-Keeps : Keeps (modify (bump_unexpected {S = T.State}))
  unexpected-Keeps = Keeps-modify bump_unexpected (λ d v. ground arith)

  pub cleared-Keeps : Keeps (modify (cleared {S = T.State}))
  cleared-Keeps = Keeps-modify cleared (λ d v. ground arith)

  pub changed-Keeps : Keeps (modify (marked {S = T.State}))
  changed-Keeps = Keeps-modify marked (λ d v. ground arith)

  pub idle-Safe : (d : Device T.State) → IsBounded d → Safe d (idle T d)
  idle-Safe d v =
      let (v', k, t) = idle-Good T d v in
      (
        v',
        record {
          settings = k.settings;
          info = k.info;
          model = k.model;
          configuration = k.configuration;
          is_open = k.is_open;
        },
      )

  pub sleep_loop-Safe :
      (n until : ℕ) (d : Device T.State) → IsBounded d → Safe d (sleep_loop T fuel n until d).1
  unfolding sleep_loop
  sleep_loop-Safe zero until d v = (v, Unmoved-refl d)
  sleep_loop-Safe (suc n) until d v = elim (Bool-cases (leb until (T.now d.transport))) [
    | inl e ↦ rw (e, sleep_loop) (v, Unmoved-refl d)
    | inr e ↦
        rw (e, sleep_loop)
          (let (v', k) = idle-Safe d v in
            let (v'', k') = sleep_loop-Safe n until (idle T d) v' in (v'', Unmoved-trans k k'))
  ]

  pub Keeps-sleep : (time : ℕ) → Keeps (sleep T fuel time)
  unfolding sleep
  Keeps-sleep time = record { at = λ d v. sleep_loop-Safe fuel (T.now d.transport + time) d v }

  on_ack-Keeps :
      (c : Command) (acked : Bool) (deadline : ℕ) → Keeps (on_ack T fuel c acked deadline)
  unfolding on_ack
  on_ack-Keeps c true deadline = record { at = λ d v. (v, Unmoved-refl d) }
  on_ack-Keeps c false deadline = record { at = λ d v. (v, Unmoved-refl d) }

  pub on_item-Keeps :
      (c : Command) (acked : Bool) (deadline : ℕ) (item : Item)
      → Keeps (on_item T fuel c acked deadline item)
  unfolding on_item
  on_item-Keeps c acked deadline (failure e) = Keeps-pure unmoved _
  on_item-Keeps c acked deadline (control Control.nak) =
      search (safe_rules, Keeps-sleep, naks-Keeps)
  on_item-Keeps c acked deadline (control Control.ack) = on_ack-Keeps c acked deadline
  on_item-Keeps c acked deadline (reply r) = search (safe_rules, unexpected-Keeps)

  settle-Safe :
      (r : Outcome Verdict) (k : Bool → ℕ → Exec (Device T.State) Response) (d : Device T.State)
      → ((acked : Bool) (deadline : ℕ) (d' : Device T.State)
          → IsBounded d'
          → Safe d' (k acked deadline d').1)
      → IsBounded d
      → Safe d (settle r k d).1
  settle-Safe (done (returns r)) k d h v = (v, Unmoved-refl d)
  settle-Safe (done (raises e)) k d h v = (v, Unmoved-refl d)
  settle-Safe (done (goes_on acked deadline)) k d h v = h acked deadline d v
  settle-Safe (raised e) k d h v = (v, Unmoved-refl d)
  settle-Safe stuck k d h v = (v, Unmoved-refl d)

  pub take_item-Safe :
      (items : List Item) (d : Device T.State) (item : Item) (d' : Device T.State)
      → items ≡ d.events
      → IsBounded d
      → take_first d items ≡ some (item, d')
      → Safe d d'
  take_item-Safe [] d item d' p v e = cc
  take_item-Safe (x ∷ xs) d item d' p v e = ground (arith, ap length p)

  pub wait_reply-Safe :
      (n : ℕ) (c : Command) (acked : Bool) (deadline : ℕ) (d : Device T.State)
      → IsBounded d
      → Safe d (wait_reply T fuel n c acked deadline d).1
  unfolding wait_reply
  wait_reply-Safe zero c acked deadline d v = (v, Unmoved-refl d)
  wait_reply-Safe (suc n) c acked deadline d v =
      elim (Bool-cases (leb deadline (T.now d.transport))) [
        | inl e ↦ rw (e, wait_reply) (v, Unmoved-refl d)
        | inr e ↦ elim (Option-cases (take_item d)) [
          | inl e' ↦
              rw (e, e', wait_reply)
                (let (v', k) = idle-Safe d v in
                  let (v'', k') = wait_reply-Safe n c acked deadline (idle T d) v' in
                  (v'', Unmoved-trans k k'))
          | inr ((item, d'), e') ↦
              rw (e, e', wait_reply)
                (let (v', k) = take_item-Safe d.events d item d' refl v e' in
                  let (v'', k') = (on_item-Keeps c acked deadline item).at d' v' in
                  let (w, k'') =
                    settle-Safe _ (wait_reply T fuel n c) _ (wait_reply-Safe n c) v'' in
                  (w, Unmoved-trans k (Unmoved-trans k' k'')))
        ]
      ]

  pub on_failure-Keeps :
      (left : ℕ) (again : Exec (Device T.State) Response) (e : Error)
      → Keeps again
      → Keeps (on_failure T fuel left again e)
  unfolding on_failure
  on_failure-Keeps left again timeout_error k = search (safe_rules, Keeps-sleep, timeouts-Keeps)
  on_failure-Keeps left again protocol_error k = search (safe_rules, Keeps-sleep)
  on_failure-Keeps left again _ k = search safe_rules

  pub Keeps-send : (c : Command) → Keeps (send T fuel c)
  unfolding send
  Keeps-send c = search (safe_rules, Keeps-io, cleared-Keeps)

  pub attempts_loop-Keeps : (left : ℕ) (c : Command) → Keeps (attempts_loop T fuel left c)
  unfolding attempts_loop
  attempts_loop-Keeps zero c = search safe_rules
  attempts_loop-Keeps (suc left) c = Keeps-bind unmoved (send T fuel c) _ (Keeps-send c) λ deadline.
      Keeps-catch unmoved (wait_reply T fuel fuel c false deadline) _
        (record { at = λ d v. wait_reply-Safe fuel c false deadline d v })
        (λ e. on_failure-Keeps left _ e (attempts_loop-Keeps left c))

  -- However a command ends, if the queues of events and receive times were within their limits, 64
  -- and 150, they still are, and the settings, the status, the model, the configuration and the open
  -- flag of the device are as they were.
  pub Keeps-command : (c : Command) → Keeps (command T fuel c)
  unfolding command
  Keeps-command c = search (safe_rules, attempts_loop-Keeps, changed-Keeps)
