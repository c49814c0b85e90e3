-- ===== src/Tcp/Baud.antt =====
-- What TCPTransport of src/lms200/transports/tcp.py promises of its baud rate and its connections.
use gepruft_lidar.Prelude.{ℕ, ◌≡◌, inl, inr, arith, Bool-cases}
use gepruft_lidar.Prelude.Result.{Result, ok, err}
use gepruft_lidar.Tcp.{
  Net, Tcp, Answer, Request, ask_baud, can_set_baud, control, confirmed, set_baud,
}

module _ (N : Net) where
  -- The baud rate of the transport is the one asked for, or it has not moved.
  abbrev pub Followed : ℕ → Tcp N.State → Result (Unit {0}) × Tcp N.State → Type 0
  Followed baud t (ok u, t') = t'.baud ≡ baud
  Followed baud t (err e, t') = t'.baud ≡ t.baud

  control_baud : (r : Request) (t : Tcp N.State) → (control N r t).1.baud ≡ t.baud
  unfolding control
  control_baud r t = ground arith

  confirmed-Followed :
      (baud : ℕ) (t : Tcp N.State) (r : Result Answer) (t' : Tcp N.State)
      → t'.baud ≡ t.baud
      → Followed baud t (confirmed N baud (r, t'))
  confirmed-Followed baud t (ok a) t' e = ground arith
  confirmed-Followed baud t (err x) t' e = e

  -- If `set_baud` returns, the transport's baud rate is the one asked for; if it raises an exception,
  -- the baud rate has not moved.
  pub set_baud-Followed : (baud : ℕ) (t : Tcp N.State) → Followed baud t (set_baud N baud t)
  unfolding set_baud
  set_baud-Followed baud t = elim (Bool-cases (can_set_baud t.control_port)) [
    | inl e ↦ rw e (
        confirmed-Followed baud t (control N (ask_baud baud) t).0 (control N (ask_baud baud) t).1
          (control_baud (ask_baud baud) t))
    | inr e ↦ rw e (ground arith)
  ]
