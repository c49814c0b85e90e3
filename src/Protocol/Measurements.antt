-- ===== src/Protocol/Measurements.antt =====
-- src/lms200/protocol/measurements.py. Angles are hundredths of a degree and distances millimetres,
-- in which the scanner's values are whole; a point's x and y, products of its distance with a cosine
-- and a sine, are left out. A time stamp is a number: `now` is what datetime.now would give.
pub mod Layout
use gepruft_lidar.Prelude.{
  ℕ, zero, suc, ◌+◌, ◌-◌, ◌*◌, ◌/◌, ◌%◌, ◌^◌, Bool, true, false, not, ◌&&◌, ◌||◌, Option, none,
  some, List, [], ◌∷◌, ◌++◌, leb, ltb, ◌==◌, if◌then◌else◌, length, get_or, bit_and,
}
use gepruft_lidar.Prelude.Result.{Result, ok, err, protocol_error, ◌>>=◌, ◌>>◌, require}
use gepruft_lidar.Protocol.Framing.{word_at}
use gepruft_lidar.Protocol.Commands.{validate_geometry}
use gepruft_lidar.Protocol.Responses.{
  Response, Configuration, StatusByte, Distance, mm, cm, is_mm, truthy, config_mode, config_unit,
  config_indices,
}

pub data Flag : Type 0 where
  field_a field_b field_c dazzling : Flag
  invalid_no_return operation_overflow low_signal channel_error above_maximum : Flag
  reserved_special_value : Flag
  reflector_level : ℕ → Flag

-- OVERFLOW
abbrev pub overflow : ℕ → Option Flag
overflow distance =
    if distance == 0x1FFF
    then some invalid_no_return
    else if distance == 0x1FFE
    then some dazzling
    else if distance == 0x1FFD
    then some operation_overflow
    else if distance == 0x1FFB
    then some low_signal
    else if distance == 0x1FFA
    then some channel_error
    else if distance == 0x1FF7
    then some above_maximum
    else none

pub record Point : Type 0 where
  pub angle : ℕ
  pub raw : ℕ
  pub distance_raw : ℕ
  pub distance_mm : Option ℕ
  pub flags : List Flag

pub record Scan : Type 0 where
  pub timestamp : ℕ
  pub sequence : ℕ
  pub status : StatusByte
  pub field_of_view : ℕ
  pub resolution : ℕ
  pub count : ℕ
  pub starting_angle : ℕ
  pub angle_increment : ℕ
  pub unit : Distance
  pub measuring_mode : ℕ
  pub scan_index : Option ℕ
  pub telegram_index : Option ℕ
  pub points : List Point
  pub raw_telegram : List ℕ

abbrev pub when : Bool → Flag → List Flag
when b flag = if b then flag ∷ [] else []

-- The flags of the top three bits of a word.
abbrev pub bit_flags : ℕ → ℕ → List Flag
bit_flags mode raw =
    if (mode == 0) || (mode == 2)
    then when (truthy (bit_and raw 0x2000)) field_a
      ++ when (truthy (bit_and raw 0x4000)) field_b
      ++ when (truthy (bit_and raw 0x8000)) (if mode == 0 then dazzling else field_c)
    else reflector_level (raw / 2 ^ 13) ∷ []

abbrev pub special_flags : ℕ → Option Flag → List Flag
special_flags distance (some flag) = flag ∷ []
special_flags distance none = when (leb 0x1FF7 distance) reserved_special_value

abbrev pub is_dazzling : Flag → Bool
is_dazzling dazzling = true
is_dazzling _ = false

-- "dazzling" in flags
abbrev pub dazzled : List Flag → Bool
dazzled [] = false
dazzled (flag ∷ flags) = is_dazzling flag || dazzled flags

-- The body of the loop over the points, on one word.
unfoldable pub point : Distance → ℕ → ℕ → ℕ → Point
point unit mode theta raw =
    let distance : ℕ = bit_and raw 0x1FFF in
    let flags : List Flag = bit_flags mode raw ++ special_flags distance (overflow distance) in
    record {
      angle = theta;
      raw = raw;
      distance_raw = distance;
      distance_mm =
          if ltb distance 0x1FF7 && not (dazzled flags)
          then some (distance * (if is_mm unit then 1 else 10))
          else none;
      flags = flags;
    }

module _ (unit : Distance) (mode start resolution : ℕ) (body : List ℕ) where
  -- `for index in range(count)`, from `index` on with `left` rounds to go
  unfoldable pub points : ℕ → ℕ → List Point
  unfolding point
  points index zero = []
  points index (suc left) =
      point unit mode (start + index * resolution) (word_at body (2 + index * 2))
      ∷ points (index + 1) left

abbrev same_unit : Distance → Distance → Bool
same_unit mm mm = true
same_unit cm cm = true
same_unit _ _ = false

abbrev or_now : Option ℕ → ℕ → ℕ
or_now none now = now
or_now (some timestamp) now = timestamp

-- round(angle / resolution) + 1
abbrev pub scan_count : ℕ → ℕ → ℕ
scan_count angle resolution = angle * 100 / resolution + 1

unfoldable pub decode_scan : Response → ℕ → ℕ → Configuration → ℕ → Option ℕ → ℕ → Result Scan
decode_scan reply angle resolution config sequence timestamp now = do
  validate_geometry angle resolution
  let body = reply.body
  require (not (not (reply.command == 0xB0) || ltb (length body) 2)) protocol_error
  let mode = config_mode config
  require ((mode == 0) || (mode == 1) || (mode == 2)) protocol_error
  let header = word_at body 0
  require (not (truthy (bit_and header 0x3C00))) protocol_error
  let unit_code = header / 2 ^ 14
  require ((unit_code == 0) || (unit_code == 1)) protocol_error
  let unit : Distance = if truthy unit_code then mm else cm
  expected ← config_unit config
  require (same_unit unit expected) protocol_error
  let count = bit_and header 0x03FF
  require (count == scan_count angle resolution) protocol_error
  let size = 2 + count * 2
  let indices = config_indices config
  require (length body == size + (if indices then 2 else 0)) protocol_error
  let start = (180 - angle) * 50
  ok (record {
    timestamp = or_now timestamp now;
    sequence = sequence;
    status = reply.status;
    field_of_view = angle;
    resolution = resolution;
    count = count;
    starting_angle = start;
    angle_increment = resolution;
    unit = unit;
    measuring_mode = mode;
    scan_index = if indices then some (get_or body size 0) else none;
    telegram_index = if indices then some (get_or body (size + 1) 0) else none;
    points = points unit mode start resolution body 0 count;
    raw_telegram = reply.frame.raw;
  })
