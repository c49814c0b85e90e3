-- ===== src/Device/Lifecycle/Verified.antt =====
-- Device.initialize of src/lms200/state_machine.py: the configuration is read back and compared.
use gepruft_lidar.Prelude.{
  ℕ, ◌≡◌, refl, ap, sym, subst, List, ◌∙◌, Bool, true, false, not, ◌&&◌, ◌||◌, ◌==◌, Option, none,
  some, same, same→eq, arith, if◌then◌else◌,
}
use gepruft_lidar.Prelude.Result.{Result, ok, protocol_error}
use gepruft_lidar.Protocol.Commands.{
  Command, operating_mode, variant, write_configuration, baud_rate, configuration_request,
  status_request, installation,
}
use gepruft_lidar.Protocol.Responses.{
  Configuration, DeviceStatus, Distance, configuration, config_unit, config_mode, decode_status,
}
use gepruft_lidar.Config.{Settings}
use gepruft_lidar.Device.{Device, Transport, Phase, transition}
use gepruft_lidar.Device.Reader.Bounds.{IsBounded}
use gepruft_lidar.Device.Command.{command, io}
use gepruft_lidar.Device.Command.Keeps.{Keeps-command, Unmoved}
use gepruft_lidar.Device.Lifecycle.ReadBack.{IsReadBack, configure-IsReadBack}
use gepruft_lidar.Device.Lifecycle.{
  status, verify, configure, run_command, same_distance, moves, changes_geometry, maybe_change_baud,
  change_baud,
}
use gepruft_lidar.Device.Exec.{Outcome, done, raised, stuck, Exec, pure, raise, lift, ◌>>◌}
use gepruft_lidar.Device.Exec.Triple.{
  Triple, Ending, Ending-done, Triple-bind, Triple-modify, Triple-gets, Triple-lift, Triple-pure,
  Triple-if, Triple-raise, Triple-assume,
}

-- The device's configuration and status are those that were wanted.
pub record IsVerified {S : Type 0} (settings : Settings) (desired : Configuration) (d : Device S)
    : Type 0 where
  pub config : Configuration
  pub info : DeviceStatus
  pub unit : Distance
  pub has_config : d.configuration ≡ some config
  pub has_info : d.info ≡ some info
  pub same_config : config.raw ≡ desired.raw
  pub angle : info.angle ≡ settings.angle
  pub resolution : info.resolution ≡ settings.resolution
  pub wanted_unit : config_unit desired ≡ ok unit
  pub same_unit : same_distance info.unit unit ≡ true
  pub mode : info.measuring_mode ≡ config_mode desired

module _ (T : Transport) (fuel : ℕ) where
  abbrev Leads :
      {A : Type 0}
      → (Device T.State → Type 0)
      → Exec (Device T.State) A
      → (A → Device T.State → Type 0)
      → Type 0
  Leads Pre m Post = Triple Unit Pre m Post (λ e d. Unit)

  -- What a command leaves.
  abbrev Holds : (Device T.State → Type 0) → Device T.State → Type 0
  Holds Q d = IsBounded d × Q d

  abbrev IsKept : (Device T.State → Type 0) → Type 0
  IsKept Q = (d d' : Device T.State) → Unmoved d d' → Q d → Q d'

  Outcome-Holds :
      {A : Type 0} (Q : Device T.State → Type 0) (r : Outcome A) (d : Device T.State)
      → Holds Q d
      → Ending Unit (λ (a : A). Holds Q) (λ e d. Unit) r d
  Outcome-Holds Q (done a) d v = v
  Outcome-Holds Q (raised e) d v = tt
  Outcome-Holds Q stuck d v = tt

  command-Holds :
      (Q : Device T.State → Type 0)
      → IsKept Q
      → (c : Command) → Leads (Holds Q) (command T fuel c) (λ r. Holds Q)
  command-Holds Q kept c = record {
    at = λ d (v, q).
        let (v', u) = (Keeps-command T fuel c).at d v in
        Outcome-Holds Q (command T fuel c d).0 (command T fuel c d).1
          (v', kept d (command T fuel c d).1 u q);
  }

  moves-Holds :
      (Q : Device T.State → Type 0)
      → IsKept Q
      → (p : Phase) → Leads (Holds Q) (moves T fuel p) (λ u. Holds Q)
  moves-Holds Q kept p = Triple-modify Unit (transition p) λ d (v, q). (
    record { events = v.events; times = v.times },
    kept d (transition p d)
        (record {
          settings = refl;
          info = refl;
          model = refl;
          configuration = refl;
          is_open = refl;
        })
        q,
  )

  lift-Holds :
      {A : Type 0} (Q : Device T.State → Type 0) (r : Result A)
      → Leads (Holds Q) (lift r) (λ a d. (r ≡ ok a) × Holds Q d)
  lift-Holds Q r = Triple-lift Unit r (λ a e d v. (e, v)) (λ e h d v. tt)

  -- The status that comes is the device's.
  status-Holds :
      (Q : Device T.State → Type 0)
      → IsKept Q
      → ((d : Device T.State) (i : DeviceStatus) → Q d → Q (record d { info = some i }))
      → Leads (Holds Q) (status T fuel) (λ i d. (d.info ≡ some i) × Holds Q d)
  unfolding status
  status-Holds Q kept informed =
      Triple-bind Unit _ _ (moves-Holds Q kept Phase.requesting_status) λ u.
        Triple-bind Unit _ _ (command-Holds Q kept status_request) λ r.
          Triple-bind Unit _ _ (lift-Holds Q (decode_status r)) λ i.
            Triple-bind Unit {Mid = λ u d. (d.info ≡ some i) × Holds Q d} _ _
              (Triple-modify Unit (λ d. record d { info = some i })
                λ d (e, v).
                  (refl, (record { events = v.0.events; times = v.0.times }, informed d i v.1)))
              λ u'. Triple-pure Unit i λ d v. v

  module _ (settings : Settings) where
    abbrev WithSettings : Device T.State → Type 0
    WithSettings d = d.settings ≡ settings

    abbrev WithConfig : Configuration → Device T.State → Type 0
    WithConfig config d = (d.settings ≡ settings) × (d.configuration ≡ some config)

    settings-IsKept : IsKept WithSettings
    settings-IsKept d d' u e = u.settings ∙ e

    config-IsKept : (config : Configuration) → IsKept (WithConfig config)
    config-IsKept config d d' u (e, h) = (u.settings ∙ e, u.configuration ∙ h)

    -- The comparison at the end.
    compared :
        (desired config : Configuration) (info : DeviceStatus) (unit : Distance) (s : Settings)
        (test : Bool)
        → config_unit desired ≡ ok unit
        → test ≡ (
            same config.raw desired.raw
            && (info.angle == s.angle)
            && (info.resolution == s.resolution)
            && same_distance info.unit unit
            && (info.measuring_mode == config_mode desired))
        → Leads
            (λ d. (s ≡ settings) × (d.info ≡ some info) × Holds (WithConfig config) d)
            (if test then pure tt else raise protocol_error)
            (λ u. IsVerified settings desired)
    compared desired config info unit s true e h =
        let (a, b, c, d', f) = all_five _ _ _ _ _ (sym h) in
        Triple-pure Unit tt λ d (es, i, v). record {
          config = config;
          info = info;
          unit = unit;
          has_config = v.1.1;
          has_info = i;
          same_config = same→eq config.raw desired.raw a;
          angle = ground (arith, b) ∙ ap (λ (x : Settings). x.angle) es;
          resolution = ground (arith, c) ∙ ap (λ (x : Settings). x.resolution) es;
          wanted_unit = e;
          same_unit = d';
          mode = ground (arith, f);
        }
      where
        all_five :
            (a b c d e : Bool)
            → (a && b && c && d && e) ≡ true
            → (a ≡ true) × (b ≡ true) × (c ≡ true) × (d ≡ true) × (e ≡ true)
        all_five true true true true true h = (refl, refl, refl, refl, refl)
        all_five true true true true false h = cc
        all_five true true true false e h = cc
        all_five true true false d e h = cc
        all_five true false c d e h = cc
        all_five false b c d e h = cc
    compared desired config info unit s false e h = Triple-raise Unit protocol_error λ d v. tt

    verify-IsVerified :
        (desired : Configuration)
        → Leads (Holds WithSettings) (verify T fuel desired) (λ u. IsVerified settings desired)
    unfolding verify
    verify-IsVerified desired =
        Triple-bind Unit _ _ (moves-Holds WithSettings settings-IsKept Phase.verifying) λ u.
          Triple-bind Unit _ _ (command-Holds WithSettings settings-IsKept configuration_request)
            λ reply.
              Triple-bind Unit _ _ (lift-Holds WithSettings (configuration reply.body)) λ config.
                Triple-bind Unit {Mid = λ u. Holds (WithConfig config)} _ _
                  (Triple-modify Unit (λ d. record d { configuration = some config })
                    λ d (e, v). (record { events = v.0.events; times = v.0.times }, (v.1, refl)))
                  λ u2.
                    Triple-bind Unit _ _
                      (status-Holds (WithConfig config) (config-IsKept config) (λ d i v. v))
                      λ info.
                        Triple-bind Unit
                          {Mid = λ s d.
                            (s ≡ settings) × (d.info ≡ some info) × Holds (WithConfig config) d}
                          _ _ (Triple-gets Unit (λ d. d.settings) λ d v. (v.1.1.0, v.0, v.1))
                          λ s.
                            Triple-bind Unit
                              {Mid = λ unit d.
                                (config_unit desired ≡ ok unit)
                                × ((s ≡ settings)
                                    × (d.info ≡ some info)
                                    × Holds (WithConfig config) d)}
                              _ _
                              (Triple-lift Unit (config_unit desired) (λ unit e d v. (e, v))
                                (λ e h d v. tt))
                              λ unit.
                                Triple-assume Unit _ _
                                  λ e. compared desired config info unit s _ e refl

    run_command-Holds :
        (c : Result Command)
        → Leads (Holds WithSettings) (run_command T fuel c) (λ r. Holds WithSettings)
    run_command-Holds c =
        Triple-bind Unit _ _ (lift-Holds WithSettings c)
          λ built. Triple-assume Unit _ _ λ e. command-Holds WithSettings settings-IsKept built

    rate-Holds :
        (target : ℕ)
        → Leads (Holds WithSettings) (io T fuel (T.set_baud target)) (λ u. Holds WithSettings)
    unfolding io
    rate-Holds target = record {
      at = λ d v.
          (lifted-Leads (T.set_baud target d.transport).0).at
            (record d { transport = (T.set_baud target d.transport).1 })
            (record { events = v.0.events; times = v.0.times }, v.1);
    }
      where
        lifted-Leads :
            (r : Result (Unit {0})) → Leads (Holds WithSettings) (lift r) (λ u. Holds WithSettings)
        lifted-Leads r = Triple-lift Unit r (λ a e d v. v) (λ e h d v. tt)

    optional :
        (c : Bool) (m : Exec (Device T.State) (Unit {0}))
        → Leads (Holds WithSettings) m (λ u. Holds WithSettings)
        → Leads (Holds WithSettings) (if c then m else pure tt) (λ u. Holds WithSettings)
    optional true m t = t
    optional false m t = Triple-pure Unit tt λ d v. v

    then_pure :
        (c : Result Command)
        → Leads (Holds WithSettings) (run_command T fuel c >> pure tt) (λ u. Holds WithSettings)
    then_pure c = Triple-bind Unit _ _ (run_command-Holds c) λ r. Triple-pure Unit tt λ d v. v

    change_baud-Holds :
        (target : ℕ)
        → Leads (Holds WithSettings) (change_baud T fuel target) (λ u. Holds WithSettings)
    unfolding change_baud
    change_baud-Holds target =
        Triple-bind Unit _ _ (moves-Holds WithSettings settings-IsKept Phase.changing_baud) λ u.
          Triple-bind Unit _ _ (run_command-Holds (baud_rate target)) λ r.
            Triple-bind Unit _ _ (rate-Holds target) λ u2.
              Triple-bind Unit _ _ (status-Holds WithSettings settings-IsKept (λ d i v. v)) λ info.
                Triple-if Unit (info.baud == target) _ _ (λ h. Triple-pure Unit tt λ d v. v.1)
                  (λ h. Triple-raise Unit protocol_error λ d v. tt)

    maybe_change_baud-Holds :
        (target : Option ℕ)
        → Leads (Holds WithSettings) (maybe_change_baud T fuel target) (λ u. Holds WithSettings)
    unfolding maybe_change_baud
    maybe_change_baud-Holds none = Triple-pure Unit tt λ d v. v
    maybe_change_baud-Holds (some target) =
        Triple-bind Unit {Mid = λ b. Holds WithSettings} _ _
          (Triple-gets Unit (λ d. T.baud d.transport) λ d v. v)
          λ b.
            Triple-if Unit (target == b) _ _ (λ h. Triple-pure Unit tt λ d v. v)
              (λ h. change_baud-Holds target)

    configure-Leads :
        (info : DeviceStatus) (config desired : Configuration)
        → Leads
            (Holds WithSettings)
            (configure T fuel settings info config desired)
            (λ u. IsVerified settings desired)
    unfolding configure
    configure-Leads info config desired =
        Triple-bind Unit _ _
          (optional (not (same desired.raw config.raw) || changes_geometry T fuel settings info) _ (
            Triple-bind Unit _ _ (moves-Holds WithSettings settings-IsKept Phase.installing)
              λ u. then_pure (operating_mode installation settings.password)))
          λ u. Triple-bind Unit _ _ (maybe_change_baud-Holds settings.target_baud) λ u2.
            Triple-bind Unit _ _ (moves-Holds WithSettings settings-IsKept Phase.configuring) λ u3.
              Triple-bind Unit _ _
                (optional (changes_geometry T fuel settings info) _
                  (then_pure (variant settings.angle settings.resolution)))
                λ u4.
                  Triple-bind Unit _ _
                    (optional (not (same desired.raw config.raw)) _
                      (then_pure (write_configuration desired.raw)))
                    λ u5. verify-IsVerified desired

some-injective : {A : Type 0} (a b : A) → some a ≡ some b → a ≡ b
some-injective a b e = cc

-- If the part of `initialize` that configures the scanner returns, from a device within the limits of
-- its queues and whatever the scanner answers, then the configuration that the device has is the one
-- desired, byte for byte, and its status has the angle and the resolution of the settings and the
-- unit and the measuring mode of the desired configuration. Both were read back at the end: the
-- device is what a configuration request and then a status request have left, and its configuration
-- and its status are what their replies decode to.
pub configure-IsVerified :
    (T : Transport) (fuel : ℕ) (info : DeviceStatus) (config desired : Configuration)
    (d : Device T.State)
    → IsBounded d
    → (configure T fuel d.settings info config desired d).0 ≡ done tt
    → (verified : IsVerified d.settings desired
        (configure T fuel d.settings info config desired d).1)
      × IsReadBack T fuel verified.config verified.info
          (configure T fuel d.settings info config desired d).1
configure-IsVerified T fuel info config desired d v e =
    let verified =
      Ending-done Unit (λ (u : Unit {0}). IsVerified d.settings desired) (λ e d. Unit)
        (configure T fuel d.settings info config desired d).0
        (configure T fuel d.settings info config desired d).1 tt e
        ((configure-Leads T fuel d.settings info config desired).at d (v, refl)) in
    let (read, seen, back, same_raw) =
      configure-IsReadBack T fuel d.settings info config desired d e in
    let read_config : read ≡ verified.config =
      ap (λ (raw : List ℕ). record { raw = raw }) (same_raw ∙ sym verified.same_config) in
    let seen_info : seen ≡ verified.info =
      some-injective _ _
        (ap (λ (x : Device T.State). x.info) (sym back.is_left) ∙ verified.has_info) in
    (
      verified,
      subst
          (λ (c : Configuration).
            IsReadBack T fuel c verified.info (configure T fuel d.settings info config desired d).1)
          read_config
          (subst
            (λ (i : DeviceStatus).
              IsReadBack T fuel read i (configure T fuel d.settings info config desired d).1)
            seen_info back),
    )
