-- ===== src/Protocol/Commands.antt =====
-- src/lms200/protocol/commands.py. A resolution is a number of hundredths of a degree, in which the
-- three resolutions of the scanner are whole; times are milliseconds. A command's name, which only
-- messages show, is left out.
use gepruft_lidar.Prelude.{
  ℕ, Bool, true, false, not, ◌&&◌, ◌||◌, Option, none, some, List, [], ◌∷◌, ◌++◌, leb, ◌==◌,
  if◌then◌else◌, length,
}
use gepruft_lidar.Prelude.Result.{Result, ok, err, value_error, ◌>>◌, require}
use gepruft_lidar.Protocol.Framing.{encode, to_bytes}

-- Mode
pub data Mode : Type 0 where
  installation continuous on_request : Mode

abbrev pub mode_code : Mode → ℕ
mode_code installation = 0x00
mode_code continuous = 0x24
mode_code on_request = 0x25

-- BAUD_CODES
abbrev pub baud_code : ℕ → Option ℕ
baud_code baud =
    if baud == 9600
    then some 0x42
    else if baud == 19200
    then some 0x41
    else if baud == 38400
    then some 0x40
    else if baud == 500000
    then some 0x48
    else none

-- STATUS_BAUD_CODES
abbrev pub status_baud : ℕ → Option ℕ
status_baud code =
    if code == 0x8067
    then some 9600
    else if code == 0x8033
    then some 19200
    else if code == 0x8019
    then some 38400
    else if code == 0x8001
    then some 500000
    else none

pub record Command : Type 0 where
  pub payload : List ℕ
  pub response_id : ℕ
  pub timeout : ℕ
  pub attempts : ℕ
  pub mutates : Bool

-- The dataclass' defaults.
abbrev request : List ℕ → ℕ → Command
request payload response_id = record {
  payload = payload;
  response_id = response_id;
  timeout = 3000;
  attempts = 3;
  mutates = false;
}

abbrev change : List ℕ → ℕ → Command
change payload response_id = record (request payload response_id) { attempts = 1; mutates = true }

-- Command.telegram
unfoldable pub telegram : Command → ℕ → Result (List ℕ)
telegram c address = do require (leb address 0x7F) value_error; encode c.payload address

abbrev pub status_request : Command
status_request = request (0x31 ∷ []) 0xB1

abbrev pub type_request : Command
type_request = request (0x3A ∷ []) 0xBA

abbrev pub configuration_request : Command
configuration_request = request (0x74 ∷ []) 0xF4

-- c.isascii() and (c.isalnum() or c == "_"), of a code point
abbrev pub is_password_char : ℕ → Bool
is_password_char c =
    (leb b'0' c && leb c b'9')
    || (leb b'A' c && leb c b'Z')
    || (leb b'a' c && leb c b'z')
    || (c == b'_')

abbrev all_chars : List ℕ → Bool
all_chars [] = true
all_chars (c ∷ cs) = is_password_char c && all_chars cs

-- operating_mode; a password is the list of its code points.
unfoldable pub operating_mode : Mode → List ℕ → Result Command
operating_mode installation password =
    if not (length password == 8) || not (all_chars password)
    then err value_error
    else ok (change (0x20 ∷ mode_code installation ∷ password) 0xA0)
operating_mode continuous password = ok (change (0x20 ∷ mode_code continuous ∷ []) 0xA0)
operating_mode on_request password = ok (change (0x20 ∷ mode_code on_request ∷ []) 0xA0)

baud_command : Option ℕ → Result Command
baud_command none = err value_error
baud_command (some code) = ok (change (0x20 ∷ code ∷ []) 0xA0)

unfoldable pub baud_rate : ℕ → Result Command
unfolding baud_command
baud_rate baud = baud_command (baud_code baud)

abbrev pub is_resolution : ℕ → Bool
is_resolution r = (r == 25) || (r == 50) || (r == 100)

unfoldable pub validate_geometry : ℕ → ℕ → Result (Unit {0})
validate_geometry angle resolution =
    if not ((angle == 100) || (angle == 180)) || not (is_resolution resolution)
    then err value_error
    else if (resolution == 25) && not (angle == 100)
    then err value_error
    else ok tt

unfoldable pub variant : ℕ → ℕ → Result Command
unfolding validate_geometry
variant angle resolution = do
  validate_geometry angle resolution
  ok (change (0x3B ∷ to_bytes angle ++ to_bytes resolution) 0xBB)

unfoldable pub write_configuration : List ℕ → Result Command
write_configuration bytes =
    if not ((length bytes == 32) || (length bytes == 34))
    then err value_error
    else ok (record (change (0x77 ∷ bytes) 0xF7) { timeout = 8000 })
