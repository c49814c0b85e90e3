-- ===== src/Bridge/Lease.antt =====
-- Who holds the lease of src/lms200/bridge.py and its data connection, through any steps.
use gepruft_lidar.Prelude.{
  ℕ, ◌≡◌, ◌⊎◌, inl, inr, refl, ap, subst, Bool, true, false, Option, none, List, [], ◌∷◌, arith,
}
use gepruft_lidar.Prelude.Result.{Result, ok, err}
use gepruft_lidar.Device.{Transport}
use gepruft_lidar.Bridge.{
  Bridge, Message, lease_op, baud_op, status_op, broken, create, end_lease, on_first, hang_up,
  on_data_client, end_data, on_request, after_baud, owns, disown,
}

-- Either the lease is taken and one connection owns it, or it is free and none does; and the data
-- connection belongs to the peer that the lease was granted to, unless the bridge has no control
-- channel.
pub record IsExclusive {S : Type 0} (b : Bridge S) : Type 0 where
  pub owned :
      (b.lease ≡ true) × ((id : ℕ) × (b.owners ≡ id ∷ [])) ⊎ (b.lease ≡ false) × (b.owners ≡ [])
  pub data_is_peer :
      (b.control_port ≡ none) ⊎ (b.data_client ≡ none) ⊎ (b.lease ≡ true) × (b.data_client ≡ b.peer)

pub data Step : Type 0 where
  first : ℕ → ℕ → Message → Step
  request : ℕ → Message → Step
  hangs_up : ℕ → Step
  connects : ℕ → Step
  disconnects : Step

module _ (T : Transport) where
  abbrev asked : Bool → ℕ → Message → Bridge T.State → Bridge T.State
  asked false id m b = b
  asked true id m b = (on_request T id m b).1

  -- A request counts only from a connection that owns a lease.
  abbrev pub step : Step → Bridge T.State → Bridge T.State
  step (first id peer m) b = (on_first T id peer m b).1
  step (request id m) b = asked (owns b.owners id) id m b
  step (hangs_up id) b = hang_up id b
  step (connects peer) b = (on_data_client peer b).1
  step disconnects b = end_data b

  abbrev pub run : List Step → Bridge T.State → Bridge T.State
  run [] b = b
  run (s ∷ steps) b = run steps (step s b)

  released-IsExclusive :
      (b : Bridge T.State) (owners : List ℕ)
      → owners ≡ []
      → IsExclusive (record (end_lease b) { owners = owners })
  released-IsExclusive b owners e = record { owned = inr (refl, e); data_is_peer = inr (inl refl) }

  -- A connection that owns the lease is the only one.
  disown_lem :
      (id : ℕ) (b : Bridge T.State)
      → IsExclusive b
      → owns b.owners id ≡ true
      → disown id b.owners ≡ []
  disown_lem id b v h = elim v.owned [
    | inl (l, (i, e)) ↦ alone i e (subst (λ o. owns o id ≡ true) e h)
    | inr (l, e) ↦ ap (disown id) e
  ]
    where
      alone : (i : ℕ) → b.owners ≡ i ∷ [] → owns (i ∷ []) id ≡ true → disown id b.owners ≡ []
      alone i e g = rw e (ground arith)

  hang_up-IsExclusive : (id : ℕ) (b : Bridge T.State) → IsExclusive b → IsExclusive (hang_up id b)
  unfolding hang_up
  hang_up-IsExclusive id b v =
      ground (arith, disown_lem id b v, released-IsExclusive b (disown id b.owners))

  on_first-IsExclusive :
      (id peer : ℕ) (m : Message) (b : Bridge T.State)
      → IsExclusive b
      → IsExclusive (on_first T id peer m b).1
  unfolding on_first
  on_first-IsExclusive id peer (lease_op token) b v = ground arith
  on_first-IsExclusive id peer _ b v = v

  on_data_client-IsExclusive :
      (peer : ℕ) (b : Bridge T.State) → IsExclusive b → IsExclusive (on_data_client peer b).1
  unfolding on_data_client
  on_data_client-IsExclusive peer b v = ground arith

  after_baud-IsExclusive :
      (r : Result (Unit {0}) × T.State) (id : ℕ) (b : Bridge T.State)
      → IsExclusive b
      → IsExclusive (after_baud T r id b).1
  after_baud-IsExclusive (ok u, s) id b v = record {
    owned = v.owned;
    data_is_peer = v.data_is_peer;
  }
  after_baud-IsExclusive (err e, s) id b v =
      hang_up-IsExclusive id (record b { serial = s })
        (record { owned = v.owned; data_is_peer = v.data_is_peer })

  on_request-IsExclusive :
      (id : ℕ) (m : Message) (b : Bridge T.State)
      → IsExclusive b
      → IsExclusive (on_request T id m b).1
  unfolding on_request
  on_request-IsExclusive id (baud_op baud) b v =
      ground (arith, after_baud-IsExclusive (T.set_baud baud b.serial) id b v)
  on_request-IsExclusive id status_op b v = v
  on_request-IsExclusive id broken b v = hang_up-IsExclusive id b v
  on_request-IsExclusive id _ b v = v

  asked-IsExclusive :
      (owner : Bool) (id : ℕ) (m : Message) (b : Bridge T.State)
      → IsExclusive b
      → IsExclusive (asked owner id m b)
  asked-IsExclusive false id m b v = v
  asked-IsExclusive true id m b v = on_request-IsExclusive id m b v

  step-IsExclusive : (s : Step) (b : Bridge T.State) → IsExclusive b → IsExclusive (step s b)
  step-IsExclusive (first id peer m) b v = on_first-IsExclusive id peer m b v
  step-IsExclusive (request id m) b v = asked-IsExclusive (owns b.owners id) id m b v
  step-IsExclusive (hangs_up id) b v = hang_up-IsExclusive id b v
  step-IsExclusive (connects peer) b v = on_data_client-IsExclusive peer b v
  step-IsExclusive disconnects b v = record { owned = v.owned; data_is_peer = inr (inl refl) }

  run-IsExclusive :
      (steps : List Step) (b : Bridge T.State) → IsExclusive b → IsExclusive (run steps b)
  run-IsExclusive [] b v = v
  run-IsExclusive (s ∷ steps) b v = run-IsExclusive steps (step s b) (step-IsExclusive s b v)

create-IsExclusive :
    {S : Type 0} (serial : S) (loopback : Bool) (port : Option ℕ) (token : List ℕ)
    (high_speed : Bool) (b : Bridge S)
    → create serial loopback port token high_speed ≡ ok b
    → IsExclusive b
unfolding create
create-IsExclusive serial loopback port token high_speed b e = ground arith

-- From a new bridge on, through any control connections, requests, hang-ups and data connections in
-- any order, either the lease is taken and one control connection alone owns it, or it is free and
-- none does; and with a control channel the data connection, if there is one, comes from the peer
-- that the lease was granted to.
pub bridge-IsExclusive :
    (T : Transport) (serial : T.State) (loopback : Bool) (port : Option ℕ) (token : List ℕ)
    (high_speed : Bool) (b : Bridge T.State) (steps : List Step)
    → create serial loopback port token high_speed ≡ ok b
    → IsExclusive (run T steps b)
bridge-IsExclusive T serial loopback port token high_speed b steps e =
    run-IsExclusive T steps b (create-IsExclusive serial loopback port token high_speed b e)
