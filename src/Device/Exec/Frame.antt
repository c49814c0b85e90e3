-- ===== src/Device/Exec/Frame.antt =====
-- Invariants and frame conditions of actions, with one rule for each way to build an action.
use gepruft_lidar.Prelude.{◌≡◌, refl, Bool, true, false, if◌then◌else◌}
use gepruft_lidar.Prelude.Result.{Result, Error, ok, err}
use gepruft_lidar.Device.Exec.{
  Outcome, done, raised, stuck, Exec, pure, raise, lift, catch, caught, gets, continue, ◌>>=◌,
}

-- An invariant, and a relation between the state before and the state after.
pub record Frame (S : Type 0) : Type 1 where
  pub Inv : S → Type 0
  pub Rel : S → S → Type 0
  pub rel_refl : (s : S) → Rel s s
  pub rel_trans : {a b c : S} → Rel a b → Rel b c → Rel a c

module _ {S : Type 0} (F : Frame S) where
  open F use {Inv, Rel, rel_refl, rel_trans}

  -- The state after `m`, however it ends.
  pub record Keeps {A : Type 0} (m : Exec S A) : Type 0 where
    pub at : (s : S) → Inv s → Inv (m s).1 × Rel s (m s).1

  module _ {A : Type 0} where
    pub Keeps-pure : (a : A) → Keeps (pure a)
    unfolding pure
    Keeps-pure a = record { at = λ s i. (i, rel_refl s) }

    pub Keeps-raise : (e : Error) → Keeps (raise {A = A} e)
    unfolding raise
    Keeps-raise e = record { at = λ s i. (i, rel_refl s) }

    pub lift_state : (r : Result A) (s : S) → (lift r s).1 ≡ s
    unfolding lift
    lift_state (ok a) s = refl
    lift_state (err e) s = refl

    pub Keeps-lift : (r : Result A) → Keeps (lift r)
    Keeps-lift r = record { at = λ s i. rw (lift_state r s) (i, rel_refl s) }

    pub Keeps-gets : (f : S → A) → Keeps (gets f)
    unfolding gets
    Keeps-gets f = record { at = λ s i. (i, rel_refl s) }

    pub Keeps-if : (b : Bool) (m n : Exec S A) → Keeps m → Keeps n → Keeps (if b then m else n)
    Keeps-if true m n km kn = km
    Keeps-if false m n km kn = kn

    caught-Keeps :
        (r : Outcome A) (handler : Error → Exec S A)
        → ((e : Error) → Keeps (handler e))
        → Keeps (caught r handler)
    caught-Keeps (done a) handler k = record { at = λ s i. (i, rel_refl s) }
    caught-Keeps (raised e) handler k = k e
    caught-Keeps stuck handler k = record { at = λ s i. (i, rel_refl s) }

    pub Keeps-catch :
        (m : Exec S A) (handler : Error → Exec S A)
        → Keeps m
        → ((e : Error) → Keeps (handler e))
        → Keeps (catch m handler)
    unfolding catch
    Keeps-catch m handler km kh = record {
      at = λ s i.
          let (i', r) = km.at s i in
          let (i'', r') = (caught-Keeps (m s).0 handler kh).at (m s).1 i' in (i'', rel_trans r r');
    }

  module _ {A B : Type 0} where
    continue-Keeps :
        (r : Outcome A) (f : A → Exec S B) → ((a : A) → Keeps (f a)) → Keeps (continue r f)
    continue-Keeps (done a) f k = k a
    continue-Keeps (raised e) f k = record { at = λ s i. (i, rel_refl s) }
    continue-Keeps stuck f k = record { at = λ s i. (i, rel_refl s) }

    pub Keeps-bind :
        (m : Exec S A) (f : A → Exec S B) → Keeps m → ((a : A) → Keeps (f a)) → Keeps (m >>= f)
    unfolding ◌>>=◌
    Keeps-bind m f km kf = record {
      at = λ s i.
          let (i', r) = km.at s i in
          let (i'', r') = (continue-Keeps (m s).0 f kf).at (m s).1 i' in (i'', rel_trans r r');
    }
