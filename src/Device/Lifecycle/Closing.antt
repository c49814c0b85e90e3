-- ===== src/Device/Lifecycle/Closing.antt =====
-- How src/lms200/state_machine.py fails: Device.close, and the `except` of Device.initialize.
use gepruft_lidar.Prelude.{
  ℕ, ◌≡◌, refl, ap, Bool, true, false, not, if◌then◌else◌, inl, inr, ◌⊎◌, arith,
}
use gepruft_lidar.Prelude.Result.{Result, Error, ok, err, value_error, is_exception}
use gepruft_lidar.Config.{require_write, is_physical}
use gepruft_lidar.Config.Consent.{IsConfirmed, require_write_iff}
use gepruft_lidar.Device.{Device, Transport, Phase, is_streaming}
use gepruft_lidar.Device.Command.{io}
use gepruft_lidar.Device.Lifecycle.{
  close, closing, stop_output, initialize, initializing, abandon, moves,
}
use gepruft_lidar.Device.Exec.{
  Outcome, done, raised, stuck, Exec, pure, raise, lift, catch, caught, modify, gets, continue,
  ◌>>=◌, ◌>>◌,
}
use gepruft_lidar.Device.Exec.Returns.{Returns, Returns-bind}

-- An action that raises no `Exception`.
record Quiet {S A : Type 0} (m : Exec S A) : Type 0 where
  at : (s : S) (e : Error) → is_exception e ≡ true → ¬ ((m s).0 ≡ raised e)

-- An exception has no value, of whichever type.
abbrev passed : {A B : Type 0} → Outcome B → Outcome A
passed (done b) = stuck
passed (raised e) = raised e
passed stuck = stuck

module _ {S A B : Type 0} where
  continue-Quiet :
      (r : Outcome A) (f : A → Exec S B) (s : S)
      → ((e : Error) → is_exception e ≡ true → ¬ (r ≡ raised e))
      → ((a : A) → Quiet (f a))
      → (e : Error) → is_exception e ≡ true
      → ¬ ((continue r f s).0 ≡ raised e)
  continue-Quiet (done a) f s h k e i p = (k a).at s e i p
  continue-Quiet (raised x) f s h k e i p = absurd (h e i (ap (passed {A = A}) p))
  continue-Quiet stuck f s h k e i p = cc

  Quiet-bind :
      (m : Exec S A) (f : A → Exec S B) → Quiet m → ((a : A) → Quiet (f a)) → Quiet (m >>= f)
  unfolding ◌>>=◌
  Quiet-bind m f q k = record { at = λ s e. continue-Quiet (m s).0 f (m s).1 (q.at s) k e }

module _ {S : Type 0} where
  Quiet-modify : (f : S → S) → Quiet (modify f)
  unfolding modify
  Quiet-modify f = record { at = λ s e i p. cc }

  Quiet-pure : {A : Type 0} (a : A) → Quiet {S = S} (pure a)
  unfolding pure
  Quiet-pure a = record { at = λ s e i p. cc }

  Quiet-gets : {A : Type 0} (f : S → A) → Quiet (gets f)
  unfolding gets
  Quiet-gets f = record { at = λ s e i p. cc }

  Quiet-if :
      {A : Type 0} (b : Bool) (m n : Exec S A) → Quiet m → Quiet n → Quiet (if b then m else n)
  Quiet-if true m n km kn = km
  Quiet-if false m n km kn = kn

  caught-Quiet :
      {A : Type 0} (r : Outcome A) (handler : Error → Exec S A) (s : S)
      → ((e : Error) → Quiet (handler e))
      → (e : Error) → is_exception e ≡ true
      → ¬ ((caught r handler s).0 ≡ raised e)
  caught-Quiet (done a) handler s k e i p = cc
  caught-Quiet (raised x) handler s k e i p = (k x).at s e i p
  caught-Quiet stuck handler s k e i p = cc

  Quiet-catch :
      {A : Type 0} (m : Exec S A) (handler : Error → Exec S A)
      → ((e : Error) → Quiet (handler e))
      → Quiet (catch m handler)
  unfolding catch
  Quiet-catch m handler k = record { at = λ s e. caught-Quiet (m s).0 handler (m s).1 k e }

-- A transport that closes without an exception.
pub record ClosesQuietly (T : Transport) : Type 0 where
  pub closes : (s : T.State) → (T.close_port s).0 ≡ ok tt

module _ (T : Transport) (fuel : ℕ) where
  abbrev IsClosed : Device T.State → Type 0
  IsClosed d = d.is_open ≡ false

  -- The end of `closing`.
  ended-IsClosed :
      Returns
        (λ (x : Unit {0}) (d : Device T.State). IsClosed d)
        (modify (λ (d : Device T.State). record d { is_open = false; changed = false })
          >> moves T fuel Phase.disconnected)
  unfolding ◌>>=◌
  ended-IsClosed = record { at = λ s a h. refl }

  closing-IsClosed : Returns (λ (x : Unit {0}) (d : Device T.State). IsClosed d) (closing T fuel)
  unfolding closing
  closing-IsClosed = Returns-bind _ _ λ _.
      Returns-bind _ _
        λ c. Returns-bind _ _ λ _. Returns-bind _ _ λ _. Returns-bind _ _ λ _. ended-IsClosed

  -- `close` with its test spelled out.
  abbrev close_if : Bool → Exec (Device T.State) (Unit {0})
  close_if is_open d = if not is_open then (done tt, d) else closing T fuel d

  close_if-IsClosed :
      (b : Bool) (d : Device T.State) (x : Unit {0})
      → d.is_open ≡ b
      → (close_if b d).0 ≡ done x
      → IsClosed (close_if b d).1
  close_if-IsClosed true d x e h = closing-IsClosed.at d x h
  close_if-IsClosed false d x e h = e

  close-IsClosed : Returns (λ (x : Unit {0}) (d : Device T.State). IsClosed d) (close T fuel)
  unfolding close
  close-IsClosed = record { at = λ d x h. close_if-IsClosed d.is_open d x refl h }

  module _ (quiet : ClosesQuietly T) where
    lift-Quiet :
        {A : Type 0} (r : Result A) (s : Device T.State)
        → (a : A) → r ≡ ok a
        → (e : Error) → is_exception e ≡ true
        → ¬ ((lift r s).0 ≡ raised e)
    unfolding lift
    lift-Quiet (ok b) s a h e i p = cc
    lift-Quiet (err x) s a h e i p = cc

    io-Quiet : Quiet (io T fuel T.close_port)
    unfolding io
    io-Quiet = record {
      at = λ d. lift-Quiet (T.close_port d.transport).0 _ tt (quiet.closes d.transport);
    }

    passed_on-Quiet :
        (e : Error) → Quiet {S = Device T.State} (if is_exception e then pure tt else raise e)
    unfolding pure raise
    passed_on-Quiet e = record { at = λ s x i p. ground (arith, i, p) }

    stop_output-Quiet : Quiet (stop_output T fuel)
    unfolding stop_output
    stop_output-Quiet = Quiet-catch _ _ passed_on-Quiet

    closing-Quiet : Quiet (closing T fuel)
    unfolding closing
    closing-Quiet = Quiet-bind _ _ (Quiet-modify _) λ _. Quiet-bind _ _ (Quiet-gets _) λ changed.
        Quiet-bind _ _ (Quiet-if changed _ _ stop_output-Quiet (Quiet-pure tt)) λ _.
          Quiet-bind _ _ (Quiet-modify _)
            λ _. Quiet-bind _ _ io-Quiet λ _. Quiet-bind _ _ (Quiet-modify _) λ _. Quiet-modify _

    close_if-Quiet : (b : Bool) → Quiet (close_if b)
    close_if-Quiet true = closing-Quiet
    close_if-Quiet false = record { at = λ d e i p. cc }

    close-Quiet : Quiet (close T fuel)
    unfolding close
    close-Quiet = record { at = λ d e. (close_if-Quiet d.is_open).at d e }

    abbrev HasFailed : Device T.State → Type 0
    HasFailed d = (d.is_open ≡ false) × (d.phase ≡ Phase.faulted)

    -- The end of `abandon`, behind what `close` did.
    closed-HasFailed :
        (r : Outcome (Unit {0})) (d : Device T.State) (e : Error)
        → ((x : Unit {0}) → r ≡ done x → IsClosed d)
        → ((x : Error) → is_exception x ≡ true → ¬ (r ≡ raised x))
        → {x : Error} → is_exception x ≡ true
        → (continue r (λ u. moves T fuel Phase.faulted >> raise {A = Unit {0}} e) d).0 ≡ raised x
        → HasFailed (continue r (λ u. moves T fuel Phase.faulted >> raise {A = Unit {0}} e) d).1
    unfolding ◌>>=◌
    closed-HasFailed (done u) d e h q i p = (h u refl, refl)
    closed-HasFailed (raised y) d e h q {x} i p = absurd (q x i p)
    closed-HasFailed stuck d e h q i p = cc

    abandon-HasFailed :
        (d : Device T.State) (e x : Error)
        → is_exception x ≡ true
        → (abandon T fuel e d).0 ≡ raised x
        → HasFailed (abandon T fuel e d).1
    unfolding abandon ◌>>=◌
    abandon-HasFailed d e x i h =
        closed-HasFailed (close T fuel d).0 (close T fuel d).1 e (λ u p. close-IsClosed.at d u p)
          (close-Quiet.at d) i h

    caught-HasFailed :
        (r : Outcome (Unit {0})) (d : Device T.State) (x : Error)
        → is_exception x ≡ true
        → (caught r (abandon T fuel) d).0 ≡ raised x
        → HasFailed (caught r (abandon T fuel) d).1
    caught-HasFailed (done u) d x i h = cc
    caught-HasFailed (raised e) d x i h = abandon-HasFailed d e x i h
    caught-HasFailed stuck d x i h = cc

    -- The part of `initialize` behind the consent.
    permitted-HasFailed :
        (start : Bool) (b : Bool) (d : Device T.State) (x : Error)
        → is_exception x ≡ true
        → ((if b then pure tt else catch (initializing T fuel start) (abandon T fuel)) d).0
          ≡ raised x
        → HasFailed
            ((if b then pure tt else catch (initializing T fuel start) (abandon T fuel)) d).1
    unfolding pure catch
    permitted-HasFailed start true d x i h = cc
    permitted-HasFailed start false d x i h =
        caught-HasFailed (initializing T fuel start d).0 (initializing T fuel start d).1 x i h

    consent-HasFailed :
        (r : Result (Unit {0})) (start : Bool) (d : Device T.State) (x : Error)
        → is_exception x ≡ true
        → ((lift r
              >> (gets (λ (d' : Device T.State). d'.phase) >>= λ phase.
                  if is_streaming phase
                  then pure tt
                  else catch (initializing T fuel start) (abandon T fuel)))
            d).0
          ≡ raised x
        → (((lift r
                >> (gets (λ (d' : Device T.State). d'.phase) >>= λ phase.
                    if is_streaming phase
                    then pure tt
                    else catch (initializing T fuel start) (abandon T fuel)))
              d).1
            ≡ d)
          ⊎ HasFailed
              ((lift r
                  >> (gets (λ (d' : Device T.State). d'.phase) >>= λ phase.
                      if is_streaming phase
                      then pure tt
                      else catch (initializing T fuel start) (abandon T fuel)))
                d).1
    unfolding ◌>>=◌
    consent-HasFailed (ok u) start d x i h =
        inr (permitted-HasFailed start (is_streaming d.phase) d x i h)
    consent-HasFailed (err e) start d x i h = inl refl

-- If `initialize` raises an exception, a KeyboardInterrupt apart, on a transport that closes without
-- one, the device is as it was before, or it is closed and in the faulted phase.
pub initialize_fails_closed :
    (T : Transport) (fuel : ℕ) (start : Bool) (d : Device T.State) (e : Error)
    → ClosesQuietly T
    → is_exception e ≡ true
    → (initialize T fuel start d).0 ≡ raised e
    → ((initialize T fuel start d).1 ≡ d)
      ⊎ ((initialize T fuel start d).1.is_open ≡ false)
        × ((initialize T fuel start d).1.phase ≡ Phase.faulted)
unfolding initialize ◌>>=◌
initialize_fails_closed T fuel start d e quiet i h =
    consent-HasFailed T fuel quiet (require_write d.settings) start d e i h

-- On physical hardware `initialize` raises a ValueError and changes nothing, not even opens the
-- transport, unless writing is enabled and the whole checklist confirmed.
pub initialize_refused :
    (T : Transport) (fuel : ℕ) (start : Bool) (d : Device T.State)
    → is_physical d.settings.transport ≡ true
    → ¬ IsConfirmed d.settings
    → initialize T fuel start d ≡ (raised value_error, d)
unfolding initialize ◌>>=◌
initialize_refused T fuel start d physical unconfirmed =
    elim (require_write_iff d.settings physical).1 [
      | inl e ↦ absurd (unconfirmed ((require_write_iff d.settings physical).0.0 e))
      | inr e ↦ rw e refl
    ]
