-- ===== src/Protocol/Measurements/Layout.antt =====
-- What a decoded scan of src/lms200/protocol/measurements.py is, of the telegram's body.
use gepruft_lidar.Prelude.{
  ℕ, zero, suc, ◌+◌, ◌-◌, ◌*◌, ◌/◌, ◌%◌, ◌≡◌, ◌≤◌, ◌<◌, refl, false, ◌&&◌, ◌||◌, Option, none, some,
  List, [], ◌∷◌, ◌++◌, leb, ◌==◌, if◌then◌else◌, length, arith, ap, ◌∙◌, ◌≢◌, ◌⊎◌, get_elem?,
}
use native.Mathlib.Nat.{add-zero, zero-add}
use gepruft_lidar.Prelude.Bits.{bit_and_mask, bit_and_top}
use gepruft_lidar.Prelude.Result.{ok}
use gepruft_lidar.Protocol.Framing.{word_at}
use gepruft_lidar.Protocol.Commands.{validate_geometry}
use gepruft_lidar.Protocol.Responses.{
  Response, Configuration, Distance, is_mm, config_mode, config_unit, config_indices,
}
use gepruft_lidar.Protocol.Measurements.{
  Scan, Point, decode_scan, points, point, dazzled, bit_flags, special_flags, overflow, Flag,
}

-- What `decode_scan` has checked and copied when it returns.
pub record IsScanOf (r : Response) (angle resolution : ℕ) (config : Configuration) (sequence : ℕ)
    (scan : Scan) : Type 0 where
  pub sequence_is : scan.sequence ≡ sequence
  pub command_is : r.command ≡ 0xB0
  pub count_is : scan.count ≡ angle * 100 / resolution + 1
  pub size_is : length r.body ≡ 2 + scan.count * 2 + (if config_indices config then 2 else 0)
  pub unit_is : config_unit config ≡ ok scan.unit
  pub mode_is : scan.measuring_mode ≡ config_mode config
  pub start_is : scan.starting_angle ≡ (180 - angle) * 50
  pub points_are :
      scan.points
      ≡ points scan.unit (config_mode config) ((180 - angle) * 50) resolution r.body 0 scan.count

pub decode_scan-IsScanOf :
    (r : Response) (angle resolution : ℕ) (config : Configuration) (sequence : ℕ)
    (timestamp : Option ℕ) (now : ℕ) (scan : Scan)
    → decode_scan r angle resolution config sequence timestamp now ≡ ok scan
    → IsScanOf r angle resolution config sequence scan
unfolding decode_scan
decode_scan-IsScanOf r angle resolution config sequence timestamp now scan e = ground arith

module _ (unit : Distance) (mode start resolution : ℕ) (body : List ℕ) where
  abbrev point_at : ℕ → Point
  point_at i = point unit mode (start + i * resolution) (word_at body (2 + i * 2))

  length-points :
      (index left : ℕ) → length (points unit mode start resolution body index left) ≡ left
  unfolding points
  length-points index zero = refl
  length-points index (suc left) = ap suc (length-points (index + 1) left)

  get_elem?-points :
      (index left i : ℕ)
      → i < left
      → get_elem? (points unit mode start resolution body index left) i
        ≡ some (point_at (index + i))
  unfolding points
  get_elem?-points index zero i h = absurd (omega arith)
  get_elem?-points index (suc left) zero h = rw add-zero refl
  get_elem?-points index (suc left) (suc i) h =
      get_elem?-points (index + 1) left i (omega arith)
      ∙ ap (λ (k : ℕ). some (point_at k)) (omega arith)

-- A decoded scan has a point for each word of the telegram, in order: point `i` is made of the word
-- at byte 2 + 2 * i and stands at the angle start + i * resolution.
pub decode_scan-points :
    (r : Response) (angle resolution : ℕ) (config : Configuration) (sequence : ℕ)
    (timestamp : Option ℕ) (now : ℕ) (scan : Scan) (i : ℕ)
    → decode_scan r angle resolution config sequence timestamp now ≡ ok scan
    → i < scan.count
    → (length scan.points ≡ scan.count)
      × (2 + i * 2 + 1 < length r.body)
      × (get_elem? scan.points i
          ≡ some (
              point scan.unit
                (config_mode config)
                ((180 - angle) * 50 + i * resolution)
                (word_at r.body (2 + i * 2))))
decode_scan-points r angle resolution config sequence timestamp now scan i e h =
    let s = decode_scan-IsScanOf r angle resolution config sequence timestamp now scan e in
    (
      rw s.points_are (length-points _ _ _ _ _ 0 scan.count),
      omega arith,
      rw s.points_are (get_elem?-points _ _ _ _ _ 0 scan.count i h ∙ rw zero-add refl),
    )

geometry :
    (r : Response) (angle resolution : ℕ) (config : Configuration) (sequence : ℕ)
    (timestamp : Option ℕ) (now : ℕ) {scan : Scan}
    → decode_scan r angle resolution config sequence timestamp now ≡ ok scan
    → validate_geometry angle resolution ≡ ok tt
unfolding decode_scan
geometry r angle resolution config sequence timestamp now e = ground arith

spans :
    (angle resolution : ℕ)
    → validate_geometry angle resolution ≡ ok tt
    → (angle * 100 / resolution * resolution ≡ angle * 100)
      × (angle ≤ 180)
      × (angle * 100 / resolution ≤ 400)
unfolding validate_geometry
spans angle resolution e = ground arith

add_one-sub : (n : ℕ) → n + 1 - 1 ≡ n
add_one-sub n = omega arith

-- The points of a decoded scan, 401 at most, span the field of view symmetrically about 90 degrees:
-- the angles of the first and the last point add up to 180 degrees, and lie as far apart as the field
-- of view is wide. (Angles in hundredths.)
pub decode_scan_span :
    (r : Response) (angle resolution : ℕ) (config : Configuration) (sequence : ℕ)
    (timestamp : Option ℕ) (now : ℕ) (scan : Scan)
    → decode_scan r angle resolution config sequence timestamp now ≡ ok scan
    → (first : Point) × (last : Point) × (get_elem? scan.points 0 ≡ some first)
      × (get_elem? scan.points (scan.count - 1) ≡ some last)
      × (first.angle + last.angle ≡ 18000)
      × (first.angle + angle * 100 ≡ last.angle)
      × (scan.count ≤ 401)
unfolding point
decode_scan_span r angle resolution config sequence timestamp now scan e =
    let s = decode_scan-IsScanOf r angle resolution config sequence timestamp now scan e in
    let (exact, wide, few) =
      spans angle resolution (geometry r angle resolution config sequence timestamp now e) in
    let width : (scan.count - 1) * resolution ≡ angle * 100 =
      rw s.count_is (rw (add_one-sub (angle * 100 / resolution)) exact) in
    let (l0, s0, first) =
      decode_scan-points r angle resolution config sequence timestamp now scan 0 e (omega arith) in
    let (l1, s1, last) =
      decode_scan-points r angle resolution config sequence timestamp now scan (scan.count - 1) e
        (omega arith) in
    (_, _, first, last, rw width (ground arith), rw width (ground arith), omega arith)

dazzled_bits :
    (mode raw : ℕ) → raw < 65536 → dazzled (bit_flags mode raw) ≡ (mode == 0) && leb 32768 raw
dazzled_bits mode raw h = ground (arith, bit_and_top 15 raw h)

dazzled-append : (xs ys : List Flag) → dazzled (xs ++ ys) ≡ dazzled xs || dazzled ys
dazzled-append [] ys = refl
dazzled-append (x ∷ xs) ys = ground (arith, dazzled-append xs ys)

special :
    (distance : ℕ)
    → distance < 0x1FF7
    → dazzled (special_flags distance (overflow distance)) ≡ false
special distance h = ground arith

-- A point has no distance exactly when the 13 low bits of its word are one of the special values, or
-- when the dazzling bit is set in mode 0; else its distance is those bits, in millimetres.
pub point_distance :
    (unit : Distance) (mode theta raw : ℕ)
    → raw < 65536
    → ((point unit mode theta raw).distance_mm ≡ none)
        × ((0x1FF7 ≤ raw % 8192) ⊎ (mode ≡ 0) × (32768 ≤ raw))
      ⊎ ((point unit mode theta raw).distance_mm
          ≡ some (raw % 8192 * (if is_mm unit then 1 else 10)))
        × (raw % 8192 < 0x1FF7)
        × ((mode ≢ 0) ⊎ (raw < 32768))
unfolding point
point_distance unit mode theta raw h = ground (
  arith,
  bit_and_mask 13 raw,
  dazzled_bits mode raw h,
  dazzled-append (bit_flags mode raw) (special_flags (raw % 8192) (overflow (raw % 8192))),
  special (raw % 8192),
)
