-- ===== src/Device/Exec/Returns.antt =====
-- Postconditions of actions: what holds of the result and the state if an action returns.
use gepruft_lidar.Prelude.{◌≡◌, refl, ap, Bool, true, false, if◌then◌else◌}
use gepruft_lidar.Prelude.Result.{Error}
use gepruft_lidar.Device.Exec.{
  Outcome, done, raised, stuck, Exec, raise, catch, caught, continue, ◌>>=◌,
}

module _ {S : Type 0} where
  pub record Returns {A : Type 0} (P : A → S → Type 0) (m : Exec S A) : Type 0 where
    pub at : (s : S) (a : A) → (m s).0 ≡ done a → P a (m s).1

  module _ {A : Type 0} {P : A → S → Type 0} where
    pub Returns-raise : (e : Error) → Returns P (raise e)
    unfolding raise
    Returns-raise e = record { at = λ s a h. cc }

    pub Returns-if :
        (b : Bool) (m n : Exec S A)
        → (b ≡ true → Returns P m)
        → (b ≡ false → Returns P n)
        → Returns P (if b then m else n)
    Returns-if true m n km kn = km refl
    Returns-if false m n km kn = kn refl

    pub caught-Returns :
        (r : Outcome A) (handler : Error → Exec S A)
        → (s : S) → ((a : A) → r ≡ done a → P a s)
        → ((e : Error) → Returns P (handler e))
        → (a : A) → (caught r handler s).0 ≡ done a
        → P a (caught r handler s).1
    caught-Returns (done b) handler s km kh a h = km a h
    caught-Returns (raised e) handler s km kh a h = (kh e).at s a h
    caught-Returns stuck handler s km kh a h = cc

  module _ {A B : Type 0} {P : B → S → Type 0} where
    continue-Returns :
        (r : Outcome A) (f : A → Exec S B)
        → ((a : A) → r ≡ done a → Returns P (f a))
        → Returns P (continue r f)
    continue-Returns (done a) f k = k a refl
    continue-Returns (raised e) f k = record { at = λ s b h. cc }
    continue-Returns stuck f k = record { at = λ s b h. cc }

    pub Returns-bind :
        (m : Exec S A) (f : A → Exec S B) → ((a : A) → Returns P (f a)) → Returns P (m >>= f)
    unfolding ◌>>=◌
    Returns-bind m f k = record {
      at = λ s b h. (continue-Returns (m s).0 f (λ a _. k a)).at (m s).1 b h;
    }

  module _ {A B : Type 0} where
    -- A bind that returns splits into two actions that return.
    pub bind-done :
        (m : Exec S A) (f : A → Exec S B) (s : S) (b : B)
        → ((m >>= f) s).0 ≡ done b
        → (a : A) × ((m s).0 ≡ done a) × ((f a (m s).1).0 ≡ done b) × ((m >>= f) s ≡ f a (m s).1)
    unfolding ◌>>=◌
    bind-done m f s b h = split (m s).0 refl h
      where
        split :
            (r : Outcome A)
            → (m s).0 ≡ r
            → (continue r f (m s).1).0 ≡ done b
            → (a : A) × ((m s).0 ≡ done a)
              × ((f a (m s).1).0 ≡ done b)
              × (continue (m s).0 f (m s).1 ≡ f a (m s).1)
        split (done a) e k = (a, e, k, ap (λ (r : Outcome A). continue r f (m s).1) e)
        split (raised x) e k = cc
        split stuck e k = cc

  module _ {A : Type 0} {P : A → S → Type 0} where
    pub Returns-catch :
        (m : Exec S A) (handler : Error → Exec S A)
        → Returns P m
        → ((e : Error) → Returns P (handler e))
        → Returns P (catch m handler)
    unfolding catch
    Returns-catch m handler km kh = record {
      at = λ s a h. caught-Returns (m s).0 handler (m s).1 (km.at s) kh a h;
    }
