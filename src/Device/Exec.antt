-- ===== src/Device/Exec.antt =====
-- Methods that change the device, await its transport and may raise: what was changed before an
-- exception stays changed. A loop that runs out of fuel is `stuck`, which is no outcome of the
-- program.
pub mod Frame
pub mod Returns
pub mod Triple
use gepruft_lidar.Prelude.{Bool, true, false}
use gepruft_lidar.Prelude.Result.{Result, Error, ok, err}

pub data Outcome {ℓ} (A : Type ℓ) : Type ℓ where
  done : A → Outcome A
  raised : Error → Outcome A
  stuck : Outcome A

abbrev pub Exec : Type 0 → Type 0 → Type 0
Exec S A = S → Outcome A × S

module _ {S A : Type 0} where
  unfoldable pub pure : A → Exec S A
  pure a s = (done a, s)

  unfoldable pub raise : Error → Exec S A
  raise e s = (raised e, s)

  unfoldable pub lift : Result A → Exec S A
  lift (ok a) s = (done a, s)
  lift (err e) s = (raised e, s)

  -- `except` on the exceptions that `handler` takes; what it does not take it raises again.
  abbrev pub caught : Outcome A → (Error → Exec S A) → Exec S A
  caught (done a) handler s = (done a, s)
  caught (raised e) handler s = handler e s
  caught stuck handler s = (stuck, s)

  unfoldable pub catch : Exec S A → (Error → Exec S A) → Exec S A
  catch m handler s = let (r, s') = m s in caught r handler s'

module _ {S : Type 0} where
  unfoldable pub modify : (S → S) → Exec S (Unit {0})
  modify f s = (done tt, f s)

  unfoldable pub gets : {A : Type 0} → (S → A) → Exec S A
  gets f s = (done (f s), s)

module _ {S A B : Type 0} where
  abbrev pub continue : Outcome A → (A → Exec S B) → Exec S B
  continue (done a) f s = f a s
  continue (raised e) f s = (raised e, s)
  continue stuck f s = (stuck, s)

  infixl 5 ◌>>=◌ ◌>>◌
  -- Opening this opens all the ways to build an action.
  unfoldable pub ◌>>=◌ : Exec S A → (A → Exec S B) → Exec S B
  unfolding pure raise lift modify gets catch
  ◌>>=◌ first next s = let (outcome, left) = first s in continue outcome next left

  abbrev pub ◌>>◌ : Exec S A → Exec S B → Exec S B
  first >> second = first >>= λ unused. second
