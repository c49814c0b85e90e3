-- ===== src/Device/Lifecycle/ReadBack.antt =====
-- Device.initialize of src/lms200/state_machine.py: what the readback asks for, and what it keeps.
use gepruft_lidar.Prelude.{
  ℕ, ◌≡◌, refl, ap, sym, subst, Bool, true, false, ◌&&◌, some, same→eq, if◌then◌else◌,
}
use gepruft_lidar.Prelude.Result.{Result, ok, err, protocol_error}
use gepruft_lidar.Protocol.Commands.{configuration_request, status_request}
use gepruft_lidar.Protocol.Responses.{
  Response, Configuration, DeviceStatus, configuration, decode_status,
}
use gepruft_lidar.Config.{Settings}
use gepruft_lidar.Device.{Device, Transport, Phase, transition}
use gepruft_lidar.Device.Command.{command}
use gepruft_lidar.Device.Lifecycle.{status, verify, configure}
use gepruft_lidar.Device.Exec.{Outcome, done, Exec, pure, raise, lift, modify, gets, ◌>>=◌}
use gepruft_lidar.Device.Exec.Returns.{bind-done}

module _ {S : Type 0} where
  -- What holds of the result and the state when the action returns from this state.
  record After {A : Type 0} (Q : A → S → Type 0) (m : Exec S A) (s : S) : Type 0 where
    at : (a : A) → (m s).0 ≡ done a → Q a (m s).1

  After-bind :
      {A B : Type 0} (Q : B → S → Type 0) (m : Exec S A) (f : A → Exec S B) (s : S)
      → ((a : A) (s' : S) → (m s).0 ≡ done a → s' ≡ (m s).1 → After Q (f a) s')
      → After Q (m >>= f) s
  After-bind Q m f s k = record {
    at = λ b h.
        let (a, e, h', r) = bind-done m f s b h in
        subst (λ (x : Outcome _ × S). Q b x.1) (sym r) ((k a (m s).1 e refl).at b h');
  }

  After-modify :
      {B : Type 0} (Q : B → S → Type 0) (g : S → S) (f : Unit {0} → Exec S B) (s : S)
      → After Q (f tt) (g s)
      → After Q (modify g >>= f) s
  unfolding modify ◌>>=◌
  After-modify Q g f s k = record { at = k.at }

  After-gets :
      {A B : Type 0} (Q : B → S → Type 0) (g : S → A) (f : A → Exec S B) (s : S)
      → After Q (f (g s)) s
      → After Q (gets g >>= f) s
  unfolding gets ◌>>=◌
  After-gets Q g f s k = record { at = k.at }

  After-lift :
      {A B : Type 0} (Q : B → S → Type 0) (r : Result A) (f : A → Exec S B) (s : S)
      → ((a : A) → r ≡ ok a → After Q (f a) s)
      → After Q (lift r >>= f) s
  unfolding lift ◌>>=◌
  After-lift Q (ok a) f s k = record { at = (k a refl).at }
  After-lift Q (err e) f s k = record { at = λ b h. cc }

  After-pure : {A : Type 0} (Q : A → S → Type 0) (a : A) (s : S) → Q a s → After Q (pure a) s
  unfolding pure
  After-pure {A} Q a s q = record { at = λ b h. subst (λ (x : A). Q x s) (cc) q }

  After-test :
      (Q : Unit {0} → S → Type 0) (b : Bool) (s : S)
      → (b ≡ true → Q tt s)
      → After Q (if b then pure tt else raise protocol_error) s
  unfolding pure raise
  After-test Q true s k = record { at = λ u h. k refl }
  After-test Q false s k = record { at = λ u h. cc }

module _ (T : Transport) (fuel : ℕ) where
  -- The device at the status request, behind the configuration request.
  abbrev pub configured : Device T.State → Configuration → Device T.State
  configured before config =
      transition Phase.requesting_status
        (record (command T fuel configuration_request before).1 { configuration = some config })

  -- The device is what a configuration request and then a status request left, sent one after the
  -- other, with what their replies decode to in its configuration and its status.
  pub record IsReadBack (config : Configuration) (info : DeviceStatus) (d : Device T.State)
      : Type 0 where
    pub before : Device T.State
    pub reply : Response
    pub answer : Response
    pub is_asked : (command T fuel configuration_request before).0 ≡ done reply
    pub is_read : configuration reply.body ≡ ok config
    pub is_answered : (command T fuel status_request (configured before config)).0 ≡ done answer
    pub is_reported : decode_status answer ≡ ok info
    pub is_left :
        d ≡ record (command T fuel status_request (configured before config)).1 { info = some info }

  first_true : (a b c d e : Bool) → (a && b && c && d && e) ≡ true → a ≡ true
  first_true true b c d e h = refl
  first_true false b c d e h = cc

  -- A status request that returns.
  record IsReported (before : Device T.State) (info : DeviceStatus) (d : Device T.State)
      : Type 0 where
    answer : Response
    is_answered :
        (command T fuel status_request (transition Phase.requesting_status before)).0 ≡ done answer
    is_reported : decode_status answer ≡ ok info
    is_left :
        d ≡ record (command T fuel status_request (transition Phase.requesting_status before)).1 {
          info = some info;
        }

  status-After : (d : Device T.State) → After (λ i d'. IsReported d i d') (status T fuel) d
  unfolding status
  status-After d = After-modify _ _ _ d (
      After-bind _ _ _ _ λ answer s e p. After-lift _ _ _ s λ info ok_info. After-modify _ _ _ s (
        After-pure _ info _ (record {
          answer = answer;
          is_answered = e;
          is_reported = ok_info;
          is_left = ap (λ (x : Device T.State). record x { info = some info }) p;
        })))

  status-IsReported :
      {B : Type 0} (Q : B → Device T.State → Type 0) (f : DeviceStatus → Exec (Device T.State) B)
      (d : Device T.State)
      → ((info : DeviceStatus) (d' : Device T.State) → IsReported d info d' → After Q (f info) d')
      → After Q (status T fuel >>= f) d
  status-IsReported Q f d k =
      After-bind Q (status T fuel) f d
        λ info d' e p. k info d' (subst (IsReported d info) (sym p) ((status-After d).at info e))

  abbrev Verified : Configuration → Unit {0} → Device T.State → Type 0
  Verified desired u d =
      (config : Configuration) × (info : DeviceStatus) × IsReadBack config info d
      × (config.raw ≡ desired.raw)

  verify-Verified :
      (desired : Configuration) (d : Device T.State)
      → After (Verified desired) (verify T fuel desired) d
  unfolding verify
  verify-Verified desired d = After-modify _ _ _ d (
      After-bind _ _ _ _ λ reply s e p. After-lift _ _ _ s λ config is_ok. After-modify _ _ _ s (
        status-IsReported _ _ _ λ info d' v. After-gets _ _ _ d' (
          After-lift _ _ _ d' λ unit is_unit. After-test _ _ d' λ test. (
            config,
            info,
            read (transition Phase.verifying d) reply config s e is_ok p info d' v,
            same→eq config.raw desired.raw (first_true _ _ _ _ _ test),
          ))))
    where
      read :
          (before : Device T.State) (reply : Response) (config : Configuration) (s : Device T.State)
          → (command T fuel configuration_request before).0 ≡ done reply
          → configuration reply.body ≡ ok config
          → s ≡ (command T fuel configuration_request before).1
          → (info : DeviceStatus) (d' : Device T.State)
          → IsReported (record s { configuration = some config }) info d'
          → IsReadBack config info d'
      read before reply config s e is_ok p info d' v =
          let w : IsReported
              (record (command T fuel configuration_request before).1 {
                configuration = some config;
              })
              info d' =
            subst
              (λ (x : Device T.State).
                IsReported (record x { configuration = some config }) info d')
              p v in
          record {
            before = before;
            reply = reply;
            answer = w.answer;
            is_asked = e;
            is_read = is_ok;
            is_answered = w.is_answered;
            is_reported = w.is_reported;
            is_left = w.is_left;
          }

  configure-Verified :
      (settings : Settings) (info : DeviceStatus) (config desired : Configuration)
      (d : Device T.State)
      → After (Verified desired) (configure T fuel settings info config desired) d
  unfolding configure
  configure-Verified settings info config desired d = After-bind _ _ _ d λ u1 s1 e1 p1.
      After-bind _ _ _ s1 λ u2 s2 e2 p2. After-bind _ _ _ s2 λ u3 s3 e3 p3.
        After-bind _ _ _ s3
          λ u4 s4 e4 p4. After-bind _ _ _ s4 λ u5 s5 e5 p5. verify-Verified desired s5

  -- `configure` ends with a readback.
  pub configure-IsReadBack :
      (settings : Settings) (info : DeviceStatus) (config desired : Configuration)
      (d : Device T.State)
      → (configure T fuel settings info config desired d).0 ≡ done tt
      → (read : Configuration) × (seen : DeviceStatus) × IsReadBack read seen
          (configure T fuel settings info config desired d).1
        × (read.raw ≡ desired.raw)
  configure-IsReadBack settings info config desired d h =
      (configure-Verified settings info config desired d).at tt h
