-- ===== src/Simulator/Wire.antt =====
-- What the simulated scanner puts on the wire (src/lms200/transports/simulator.py).
use gepruft_lidar.Prelude.{
  ℕ, ◌+◌, ◌*◌, ◌/◌, ◌%◌, ◌≡◌, refl, ap, ◌∙◌, some, List, [], ◌∷◌, ◌++◌, take, drop, arith,
  take-append-drop, append-nil,
}
use gepruft_lidar.Prelude.Result.{Result, ok, err}
use gepruft_lidar.Protocol.Framing.{to_bytes}
use gepruft_lidar.Protocol.Commands.{validate_geometry, status_baud}
use gepruft_lidar.Protocol.Responses.{
  Response, DeviceStatus, Distance, mm, cm, config_mode, config_unit, decode_status,
}
use gepruft_lidar.Simulator.{Simulator, pieces, status_layout, status_code, status_data}
use gepruft_lidar.Device.Exec.{done, continue, lift, pure, gets, ◌>>=◌}

abbrev pub concat : List (List ℕ) → List ℕ
concat [] = []
concat (xs ∷ xss) = xs ++ concat xss

-- However the emitted data is cut into pieces, the pieces joined are the data.
pub concat-pieces : (sizes bytes : List ℕ) → concat (pieces sizes bytes) ≡ bytes
unfolding pieces
concat-pieces [] [] = refl
concat-pieces [] (b ∷ bs) = append-nil (b ∷ bs)
concat-pieces (size ∷ sizes) [] = refl
concat-pieces (size ∷ sizes) (b ∷ bs) =
    ap (λ (xs : List ℕ). take size (b ∷ bs) ++ xs) (concat-pieces sizes (drop size (b ∷ bs)))
    ∙ take-append-drop size (b ∷ bs)

-- The status that a simulated scanner reports.
pub record Reports (s : Simulator) (d : DeviceStatus) : Type 0 where
  pub operating_mode : d.operating_mode ≡ s.mode
  pub angle : d.angle ≡ s.angle
  pub resolution : d.resolution ≡ s.resolution
  pub baud : d.baud ≡ s.device_baud
  pub unit : config_unit s.config ≡ ok d.unit
  pub measuring_mode : d.measuring_mode ≡ config_mode s.config

word_lem : (n : ℕ) → n % 256 + 256 * (n / 256) ≡ n
word_lem n = omega arith

code_known : (baud code : ℕ) → status_code baud ≡ ok code → status_baud code ≡ some baud
code_known baud code h = ground arith

-- The decoded status of a reply with these bytes.
layout-Reports :
    (s : Simulator) (code : ℕ) (unit : Distance) (r : Response)
    → r.command ≡ 0xB1
    → r.body ≡ status_layout s code unit
    → config_unit s.config ≡ ok unit
    → status_code s.device_baud ≡ ok code
    → validate_geometry s.angle s.resolution ≡ ok tt
    → (d : DeviceStatus) × (decode_status r ≡ ok d) × Reports s d
unfolding decode_status to_bytes
layout-Reports s code mm r c b u sc g =
    rw
      (
        c,
        b,
        word_lem s.angle,
        word_lem s.resolution,
        word_lem code,
        g,
        code_known s.device_baud code sc,
      )
      (
        _,
        refl,
        record {
          operating_mode = refl;
          angle = refl;
          resolution = refl;
          baud = refl;
          unit = u;
          measuring_mode = refl;
        },
      )
layout-Reports s code cm r c b u sc g =
    rw
      (
        c,
        b,
        word_lem s.angle,
        word_lem s.resolution,
        word_lem code,
        g,
        code_known s.device_baud code sc,
      )
      (
        _,
        refl,
        record {
          operating_mode = refl;
          angle = refl;
          resolution = refl;
          baud = refl;
          unit = u;
          measuring_mode = refl;
        },
      )

-- What the steps of `status_data` give when it returns.
returned :
    (s : Simulator) (body : List ℕ) (rate : Result ℕ) (distance : Result Distance)
    → (continue
        (lift rate s).0
        (λ code. lift distance >>= λ unit. pure (status_layout s code unit))
        (lift rate s).1).0
      ≡ done body
    → (code : ℕ) × (unit : Distance) × (rate ≡ ok code)
      × (distance ≡ ok unit)
      × (body ≡ status_layout s code unit)
unfolding lift pure ◌>>=◌
returned s body (ok code) (ok unit) h = (code, unit, refl, refl, cc)
returned s body (ok code) (err e) h = cc
returned s body (err e) distance h = cc

status_data_lem :
    (s : Simulator) (body : List ℕ)
    → (status_data s).0 ≡ done body
    → (code : ℕ) × (unit : Distance) × (status_code s.device_baud ≡ ok code)
      × (config_unit s.config ≡ ok unit)
      × (body ≡ status_layout s code unit)
unfolding status_data ◌>>=◌ gets
status_data_lem s body h = returned s body (status_code s.device_baud) (config_unit s.config) h

-- The status reply of a simulated scanner whose geometry is one that it has is decoded, and the
-- decoded status reports the scanner's operating mode, geometry, baud rate and measuring mode, and
-- the unit of its configuration.
pub simulated_status :
    (s : Simulator) (r : Response)
    → r.command ≡ 0xB1
    → (status_data s).0 ≡ done r.body
    → validate_geometry s.angle s.resolution ≡ ok tt
    → (d : DeviceStatus) × (decode_status r ≡ ok d) × Reports s d
simulated_status s r c h g =
    let (code, unit, sc, u, b) = status_data_lem s r.body h in
    layout-Reports s code unit r c b u sc g
