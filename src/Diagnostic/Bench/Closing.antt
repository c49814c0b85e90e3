-- ===== src/Diagnostic/Bench/Closing.antt =====
-- Sending, closing and `finally` of src/lms200/hardware_diagnostic.py, as triples.
use gepruft_lidar.Prelude.{ℕ, ◌≡◌, subst, sym, ◌⊎◌, inl, inr, Bool, false, not, List, [], ◌∷◌, ◌++◌}
use gepruft_lidar.Prelude.Result.{Error, err}
use gepruft_lidar.Diagnostic.Capture.{Capture}
use gepruft_lidar.Diagnostic.Bench.{Port, Bench, enter, transmit, close, finally, ended}
use gepruft_lidar.Device.Exec.{Outcome, done, raised, stuck, Exec, modify}
use gepruft_lidar.Device.Exec.Triple.{
  Triple, Ending, Triple-bind, Triple-modify, Triple-if, Triple-raise, Triple-catch,
}
use gepruft_lidar.Diagnostic.Bench.Rules.{Raises, Steady, Broken, io-Steady, io-KeepsSteady}

-- An exception of `close` that is not caught.
abbrev pub IsFromClose : Port → (Error → Bool) → Error → Type 0
IsFromClose P caught e = (caught e ≡ false) × (s : P.State) × ((P.close_port s).0 ≡ err e)

module _ (P : Port) {R : Type 0} (Lost : Type 0) (Allowed : Error → Type 0)
    (J J' : Capture → List (List ℕ) → R → Type 0) where
  pub transmit-Triple :
      Raises P Allowed
      → (bytes : List ℕ)
      → ((s : Capture) (sent : List (List ℕ)) (r : R) → J s sent r → J' s (sent ++ bytes ∷ []) r)
      → Triple Lost
          (Steady P Lost Allowed J)
          (transmit P bytes)
          (λ a. Steady P Lost Allowed J')
          (Broken P Lost Allowed J')
  unfolding transmit
  transmit-Triple raises bytes h =
      io-Steady P Lost Allowed J J' (P.write bytes) (raises.write bytes) λ c r s j.
        subst (λ (sent : List (List ℕ)). J' c sent r) (sym (P.write_adds bytes s))
          (h c (P.written s) r j)

  pub enter-Triple :
      {Fail : Error → Bench P.State R → Type 0} (f : R → R)
      → ((s : Capture) (sent : List (List ℕ)) (r : R) → J s sent r → J' s sent (f r))
      → Triple Lost
          (Steady P Lost Allowed J)
          (modify (enter f))
          (λ a. Steady P Lost Allowed J')
          Fail
  enter-Triple f h =
      Triple-modify Lost (enter f)
        λ b (settled, j). (settled, h b.capture (P.written b.port) b.report j)

  pub close-Triple :
      (caught : Error → Bool) (keep : Error → R → R) (note : Bool → R → R)
      → ((e : Error) (s : Capture) (sent : List (List ℕ)) (r : R)
          → J s sent r
          → J s sent (keep e r))
      → ((closed : Bool) (s : Capture) (sent : List (List ℕ)) (r : R)
          → J s sent r
          → J' s sent (note closed r))
      → Triple Lost
          (Steady P Lost Allowed J)
          (close P caught keep note)
          (λ u. Steady P Lost Allowed J')
          (λ e b. IsFromClose P caught e × Steady P Lost Allowed J b)
  unfolding close
  close-Triple caught keep note h k =
      Triple-bind Lost _ _
        (Triple-catch Lost _ _
          (io-KeepsSteady P Lost (λ e. (s : P.State) × ((P.close_port s).0 ≡ err e)) J P.close_port
            P.close_port_keeps (λ s e x. (s, x)))
          λ e.
            Triple-if Lost (caught e) _ _
              (λ x.
                Triple-modify Lost _
                  λ b (from, (settled, j)). (settled, h e b.capture (P.written b.port) b.report j))
              (λ x. Triple-raise Lost e λ b (from, v). ((x, from.0, from.1), v)))
        λ u. Triple-modify Lost _ λ b (settled, j).
          (settled, k (not (P.is_open b.port)) b.capture (P.written b.port) b.report j)

abbrev unit_raised : Error → Outcome (Unit {0})
unit_raised e = raised e

module _ (Lost : Type 0) {S : Type 0} where
  pub finally-Triple :
      {Pre Mid Post : S → Type 0} {F : Error → Type 0} {Fail : Error → S → Type 0}
      (m last : Exec S (Unit {0}))
      → Triple Lost Pre m (λ u. Mid) (λ e s. F e × Mid s)
      → Triple Lost Mid last (λ u. Post) Fail
      → Triple Lost Pre (finally m last) (λ u. Post) (λ e s. (F e × Post s) ⊎ Fail e s)
  unfolding finally
  finally-Triple {Mid = Mid} {Post = Post} {F = F} {Fail = Fail} m last t k = record {
    at = λ s p. closing (m s).0 (m s).1 (t.at s p);
  }
    where
      returned :
          (o : Outcome (Unit {0}) × S)
          → Ending Lost (λ (u : Unit {0}). Post) Fail o.0 o.1
          → Ending Lost
              (λ (u : Unit {0}). Post)
              (λ e s. (F e × Post s) ⊎ Fail e s)
              (ended (done tt) o).0
              (ended (done tt) o).1
      returned (done u, s) x = x
      returned (raised e, s) x = inr x
      returned (stuck, s) x = x

      thrown :
          (e : Error) (o : Outcome (Unit {0}) × S)
          → F e
          → Ending Lost (λ (u : Unit {0}). Post) Fail o.0 o.1
          → Ending Lost
              (λ (u : Unit {0}). Post)
              (λ e s. (F e × Post s) ⊎ Fail e s)
              (ended (unit_raised e) o).0
              (ended (unit_raised e) o).1
      thrown e (done u, s) f x = inl (f, x)
      thrown e (raised e', s) f x = inr x
      thrown e (stuck, s) f x = x

      closing :
          (r : Outcome (Unit {0})) (s : S)
          → Ending Lost (λ (u : Unit {0}). Mid) (λ e s. F e × Mid s) r s
          → Ending Lost
              (λ (u : Unit {0}). Post)
              (λ e s. (F e × Post s) ⊎ Fail e s)
              (ended r (last s)).0
              (ended r (last s)).1
      closing (done u) s v = returned (last s) (k.at s v)
      closing (raised e) s (f, v) = thrown e (last s) f (k.at s v)
      closing stuck s v = v
