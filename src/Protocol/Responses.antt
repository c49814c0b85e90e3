-- ===== src/Protocol/Responses.antt =====
-- src/lms200/protocol/responses.py. Texts that only messages show are left out; a name of two values ("mm", "cm") is a data type.
use gepruft_lidar.Prelude.{
  ℕ, ◌+◌, ◌-◌, ◌/◌, ◌^◌, Bool, true, false, not, ◌&&◌, ◌||◌, Option, none, some, List, [], ◌∷◌, leb,
  ltb, ◌==◌, if◌then◌else◌, length, get_or, take, drop, set, same, bit_and, bit_or,
}
use mathlib.Core.List.{reverse}
use gepruft_lidar.Prelude.Result.{
  Result, ok, err, protocol_error, device_error, ◌>>=◌, ◌>>◌, require,
}
use gepruft_lidar.Protocol.Framing.{Frame, frame_command, word_at}
use gepruft_lidar.Protocol.Commands.{validate_geometry, status_baud}

pub data Severity : Type 0 where
  fine info warning error fatal : Severity

pub data Source : Type 0 where
  lms_type_6 special_device reserved : Source

pub record StatusByte : Type 0 where
  pub raw : ℕ
  pub severity : Severity
  pub source : Source
  pub restart_high : Bool
  pub implausible : Bool
  pub pollution : Bool

abbrev pub severity_of : ℕ → Option Severity
severity_of code =
    if code == 0
    then some fine
    else if code == 1
    then some info
    else if code == 2
    then some warning
    else if code == 3
    then some error
    else if code == 4
    then some fatal
    else none

abbrev pub source_of : ℕ → Source
source_of code = if code == 2 then lms_type_6 else if code == 3 then special_device else reserved

abbrev pub truthy : ℕ → Bool
truthy n = not (n == 0)

status_byte : ℕ → Option Severity → Result StatusByte
status_byte raw none = err protocol_error
status_byte raw (some severity) = ok (record {
  raw = raw;
  severity = severity;
  source = source_of (bit_and (raw / 2 ^ 3) 3);
  restart_high = truthy (bit_and raw 0x20);
  implausible = truthy (bit_and raw 0x40);
  pollution = truthy (bit_and raw 0x80);
})

-- StatusByte.decode
unfoldable pub decode_status_byte : ℕ → Result StatusByte
unfolding status_byte
decode_status_byte raw = status_byte raw (severity_of (bit_and raw 7))

pub record Response : Type 0 where
  pub command : ℕ
  pub body : List ℕ
  pub status : StatusByte
  pub frame : Frame

-- frame.address in expected
abbrev pub is_expected : ℕ → ℕ → Bool
is_expected address from =
    if address == 0 then (from == 0x80) || (from == 0x81) else from == bit_or address 0x80

unfoldable pub response : Frame → ℕ → Result Response
unfolding decode_status_byte
response f address = do
  require (is_expected address f.address) protocol_error
  require (not (ltb (length f.payload) 2 || ltb (frame_command f) 0x80)) protocol_error
  status ← decode_status_byte (get_or f.payload (length f.payload - 1) 0)
  require (not (frame_command f == 0x92)) device_error
  ok (record {
    command = frame_command f;
    body = drop 1 (take (length f.payload - 1) f.payload);
    status = status;
    frame = f;
  })

abbrev pub is_unhealthy : Severity → Bool
is_unhealthy error = true
is_unhealthy fatal = true
is_unhealthy _ = false

unfoldable pub require_healthy : Response → Result (Unit {0})
require_healthy reply = require (not (is_unhealthy reply.status.severity)) device_error

confirm_body : Response → List ℕ → Result (Unit {0})
confirm_body reply request =
    let body : List ℕ = reply.body in
    if reply.command == 0xA0
    then require (same body (0x00 ∷ [])) device_error
    else if reply.command == 0xBB
    then require
        (not (
          not (length body == 5)
          || not (get_or body 0 0 == 1)
          || not (same (drop 1 body) (drop 1 request))))
        device_error
    else if reply.command == 0xF7
    then (do
      require (not (not (length body == length request) || not (get_or body 0 0 == 1))) device_error
      require (same (drop 1 body) (drop 1 request)) device_error)
    else ok tt

unfoldable pub confirm : Response → List ℕ → Result (Unit {0})
unfolding require_healthy confirm_body
confirm reply request =
    if (reply.command == 0xA0) || (reply.command == 0xBB) || (reply.command == 0xF7)
    then (do require_healthy reply; confirm_body reply request)
    else confirm_body reply request

pub data Distance : Type 0 where
  mm cm : Distance

abbrev pub is_mm : Distance → Bool
is_mm mm = true
is_mm cm = false

pub record Configuration : Type 0 where
  pub raw : List ℕ

-- Configuration.__post_init__
unfoldable pub configuration : List ℕ → Result Configuration
configuration raw =
    if not ((length raw == 32) || (length raw == 34))
    then err protocol_error
    else ok (record { raw = raw })

-- Configuration.mode, .unit, .indices
abbrev pub config_mode : Configuration → ℕ
config_mode c = get_or c.raw 5 0

abbrev unit_code : ℕ → Result Distance
unit_code b =
    if not ((b == 0) || (b == 1)) then err protocol_error else if truthy b then ok mm else ok cm

unfoldable pub config_unit : Configuration → Result Distance
config_unit c = unit_code (get_or c.raw 6 0)

abbrev pub config_indices : Configuration → Bool
config_indices c = truthy (bit_and (get_or c.raw 4 0) 2)

-- data[4] & ~2, of a byte
abbrev pub clear_indices : ℕ → ℕ
clear_indices b = bit_and b 0xFD

-- Configuration.updated
unfoldable pub updated : Configuration → Distance → Bool → Result Configuration
unfolding configuration
updated c unit indices =
    let flags : ℕ = get_or c.raw 4 0 in
    configuration (
      set (set (set c.raw 4 (if indices then bit_or flags 2 else clear_indices flags)) 5 2) 6
        (if is_mm unit then 1 else 0))

pub record DeviceStatus : Type 0 where
  pub firmware : List ℕ
  pub operating_mode : ℕ
  pub device_error : ℕ
  pub angle : ℕ
  pub resolution : ℕ
  pub baud : ℕ
  pub unit : Distance
  pub measuring_mode : ℕ
  pub permanent_baud : Bool
  pub address : ℕ
  pub raw : List ℕ

-- `except (ValueError, KeyError)` of `decode_status`
abbrev unsupported {ℓ} : {A : Type ℓ} → Result A → Result A
unsupported (ok a) = ok a
unsupported (err e) = err protocol_error

abbrev or_unsupported : Option ℕ → Result ℕ
or_unsupported none = err protocol_error
or_unsupported (some n) = ok n

-- data[:7].decode("ascii")
abbrev pub is_ascii : List ℕ → Bool
is_ascii [] = true
is_ascii (c ∷ cs) = ltb c 128 && is_ascii cs

-- The white space of str.strip, among the ASCII characters.
abbrev is_space : ℕ → Bool
is_space c = (leb 9 c && leb c 13) || (leb 28 c && leb c 32)

abbrev strip_left : List ℕ → List ℕ
strip_left [] = []
strip_left (c ∷ cs) = if is_space c then strip_left cs else c ∷ cs

-- bytes.decode("ascii").strip(), as code points
unfoldable pub strip : List ℕ → List ℕ
strip text = reverse (strip_left (reverse (strip_left text)))

unfoldable pub decode_status : Response → Result DeviceStatus
unfolding validate_geometry
decode_status reply = do
  let body = reply.body
  require (reply.command == 0xB1) protocol_error
  require ((length body == 146) || (length body == 152)) protocol_error
  let shift = if length body == 152 then 6 else 0
  let angle = word_at body (100 + shift)
  let resolution = word_at body (102 + shift)
  unsupported (validate_geometry angle resolution)
  require (is_ascii (take 7 body)) protocol_error
  baud ← or_unsupported (status_baud (word_at body (109 + shift)))
  unit ← unit_code (get_or body (115 + shift) 0)
  ok (record {
    firmware = strip (take 7 body);
    operating_mode = get_or body 7 0;
    device_error = get_or body 8 0;
    angle = angle;
    resolution = resolution;
    baud = baud;
    unit = unit;
    measuring_mode = get_or body (95 + shift) 0;
    permanent_baud = truthy (get_or body (112 + shift) 0);
    address = get_or body (113 + shift) 0;
    raw = body;
  })
