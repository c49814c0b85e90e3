-- ===== src/Device/Exec/Triple.antt =====
-- Triples: what holds of the state when an action returns and when it raises, given what held before
-- it. `Lost` is what is known of a loop out of fuel: Unit for nothing, ⊥ where there is none.
use gepruft_lidar.Prelude.{◌≡◌, refl, subst, Bool, true, false, if◌then◌else◌}
use gepruft_lidar.Prelude.Result.{Result, Error, ok, err}
use gepruft_lidar.Device.Exec.{
  Outcome, done, raised, stuck, Exec, pure, raise, lift, catch, caught, modify, gets, continue,
  ◌>>=◌,
}

module _ (Lost : Type 0) {S : Type 0} where
  abbrev pub Ending :
      {A : Type 0} → (A → S → Type 0) → (Error → S → Type 0) → Outcome A → S → Type 0
  Ending Post Fail (done a) s = Post a s
  Ending Post Fail (raised e) s = Fail e s
  Ending Post Fail stuck s = Lost

  pub record Triple {A : Type 0} (Pre : S → Type 0) (m : Exec S A) (Post : A → S → Type 0)
      (Fail : Error → S → Type 0) : Type 0 where
    pub at : (s : S) → Pre s → Ending Post Fail (m s).0 (m s).1

  module _ {A : Type 0} {Post : A → S → Type 0} {Fail : Error → S → Type 0} where
    pub Triple-raise :
        {Pre : S → Type 0} (e : Error)
        → ((s : S) → Pre s → Fail e s)
        → Triple Pre (raise e) Post Fail
    unfolding raise
    Triple-raise e h = record { at = λ s p. h s p }

    pub Triple-pure :
        {Pre : S → Type 0} (a : A) → ((s : S) → Pre s → Post a s) → Triple Pre (pure a) Post Fail
    unfolding pure
    Triple-pure a h = record { at = λ s p. h s p }

    pub Triple-gets :
        {Pre : S → Type 0} (f : S → A)
        → ((s : S) → Pre s → Post (f s) s)
        → Triple Pre (gets f) Post Fail
    unfolding gets
    Triple-gets f h = record { at = λ s p. h s p }

    pub Triple-lift :
        {Pre : S → Type 0} (r : Result A)
        → ((a : A) → r ≡ ok a → (s : S) → Pre s → Post a s)
        → ((e : Error) → r ≡ err e → (s : S) → Pre s → Fail e s)
        → Triple Pre (lift r) Post Fail
    unfolding lift
    Triple-lift (ok a) h k = record { at = λ s p. h a refl s p }
    Triple-lift (err e) h k = record { at = λ s p. k e refl s p }

    pub Triple-if :
        {Pre : S → Type 0} (b : Bool) (m n : Exec S A)
        → (b ≡ true → Triple Pre m Post Fail)
        → (b ≡ false → Triple Pre n Post Fail)
        → Triple Pre (if b then m else n) Post Fail
    Triple-if true m n km kn = km refl
    Triple-if false m n km kn = kn refl

    pub Triple-weaken :
        {Pre : S → Type 0} {Post' : A → S → Type 0} {Fail' : Error → S → Type 0} (m : Exec S A)
        → ((a : A) (s : S) → Post' a s → Post a s)
        → ((e : Error) (s : S) → Fail' e s → Fail e s)
        → Triple Pre m Post' Fail'
        → Triple Pre m Post Fail
    Triple-weaken {Post' = Post'} {Fail' = Fail'} m h k t = record {
      at = λ s p. weaker (m s).0 (m s).1 (t.at s p);
    }
      where
        weaker : (r : Outcome A) (s : S) → Ending Post' Fail' r s → Ending Post Fail r s
        weaker (done a) s x = h a s x
        weaker (raised e) s x = k e s x
        weaker stuck s x = x

    -- What does not speak of the state.
    pub Triple-assume :
        {Pre : S → Type 0} (F : Type 0) (m : Exec S A)
        → (F → Triple Pre m Post Fail)
        → Triple (λ s. F × Pre s) m Post Fail
    Triple-assume F m t = record { at = λ s p. (t p.0).at s p.1 }

    pub Triple-catch :
        {Pre : S → Type 0} {Mid : Error → S → Type 0} (m : Exec S A) (handler : Error → Exec S A)
        → Triple Pre m Post Mid
        → ((e : Error) → Triple (Mid e) (handler e) Post Fail)
        → Triple Pre (catch m handler) Post Fail
    unfolding catch
    Triple-catch {Mid = Mid} m handler t k = record {
      at = λ s p. handled (m s).0 (m s).1 (t.at s p);
    }
      where
        handled :
            (r : Outcome A) (s : S)
            → Ending Post Mid r s
            → Ending Post Fail (caught r handler s).0 (caught r handler s).1
        handled (done a) s x = x
        handled (raised e) s x = (k e).at s x
        handled stuck s x = x

  module _ {Post : Unit {0} → S → Type 0} {Fail : Error → S → Type 0} where
    pub Triple-modify :
        {Pre : S → Type 0} (f : S → S)
        → ((s : S) → Pre s → Post tt (f s))
        → Triple Pre (modify f) Post Fail
    unfolding modify
    Triple-modify f h = record { at = λ s p. h s p }

  module _ {A B : Type 0} {Post : B → S → Type 0} {Fail : Error → S → Type 0} where
    pub Triple-bind :
        {Pre : S → Type 0} {Mid : A → S → Type 0} (m : Exec S A) (f : A → Exec S B)
        → Triple Pre m Mid Fail
        → ((a : A) → Triple (Mid a) (f a) Post Fail)
        → Triple Pre (m >>= f) Post Fail
    unfolding ◌>>=◌
    Triple-bind {Mid = Mid} m f t k = record { at = λ s p. continued (m s).0 (m s).1 (t.at s p) }
      where
        continued :
            (r : Outcome A) (s : S)
            → Ending Mid Fail r s
            → Ending Post Fail (continue r f s).0 (continue r f s).1
        continued (done a) s x = (k a).at s x
        continued (raised e) s x = x
        continued stuck s x = x

  -- A check, `if not test: raise e`.
  pub Triple-guard :
      {Pre : S → Type 0} {Fail : Error → S → Type 0} (test : Bool) (e : Error)
      → ((s : S) → Pre s → Fail e s)
      → Triple Pre (if test then pure tt else raise e) (λ u s. (test ≡ true) × Pre s) Fail
  Triple-guard true e h = Triple-pure tt λ s p. (refl, p)
  Triple-guard false e h = Triple-raise e h

  pub Triple-passed :
      {Pre : S → Type 0} {Fail : Error → S → Type 0} (test : Bool) (e : Error)
      → test ≡ true
      → Triple Pre (if test then pure tt else raise e) (λ u. Pre) Fail
  Triple-passed true e h = Triple-pure tt λ s p. p
  Triple-passed false e h = Triple-raise e λ s p. cc

  -- Two triples of one action.
  pub Triple-both :
      {A : Type 0} {Pre Pre' : S → Type 0} {Post Post' : A → S → Type 0}
      {Fail Fail' : Error → S → Type 0} (m : Exec S A)
      → Triple Pre m Post Fail
      → Triple Pre' m Post' Fail'
      → Triple (λ s. Pre s × Pre' s) m (λ a s. Post a s × Post' a s) (λ e s. Fail e s × Fail' e s)
  Triple-both {Post = Post} {Post' = Post'} {Fail = Fail} {Fail' = Fail'} m t t' = record {
    at = λ s p. both (m s).0 (m s).1 (t.at s p.0) (t'.at s p.1);
  }
    where
      both :
          (r : Outcome _) (s : S)
          → Ending Post Fail r s
          → Ending Post' Fail' r s
          → Ending (λ a s. Post a s × Post' a s) (λ e s. Fail e s × Fail' e s) r s
      both (done a) s x y = (x, y)
      both (raised e) s x y = (x, y)
      both stuck s x y = x

  pub Triple-strengthen :
      {A : Type 0} {Pre Pre' : S → Type 0} {Post : A → S → Type 0} {Fail : Error → S → Type 0}
      (m : Exec S A)
      → ((s : S) → Pre s → Pre' s)
      → Triple Pre' m Post Fail
      → Triple Pre m Post Fail
  Triple-strengthen m h t = record { at = λ s p. t.at s (h s p) }

-- What holds however a total action ends.
pub Ending-any :
    {S A : Type 0} (Q : S → Type 0) (r : Outcome A) (s : S)
    → Ending ⊥ (λ (a : A). Q) (λ e. Q) r s
    → Q s
Ending-any Q (done a) s x = x
Ending-any Q (raised e) s x = x
Ending-any Q stuck s x = absurd x

pub Ending-done :
    (Lost : Type 0) {S A : Type 0} (Post : A → S → Type 0) (Fail : Error → S → Type 0)
    (r : Outcome A) (s : S) (a : A)
    → r ≡ done a
    → Ending Lost Post Fail r s
    → Post a s
Ending-done Lost Post Fail r s a e x = subst (λ (o : Outcome _). Ending Lost Post Fail o s) e x
