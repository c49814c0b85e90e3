-- ===== src/Bridge.antt =====
-- src/lms200/bridge.py: the lease of SerialBridge. A control connection is known by a number, and
-- `owners` are the connections whose local `owns` is true. The bytes that the data connection pumps,
-- the sockets and the JSON text are left out: a line is what it decodes to.
pub mod Lease
use gepruft_lidar.Prelude.{
  ℕ, Bool, true, false, not, ◌&&◌, ◌||◌, Option, none, some, List, [], ◌∷◌, same, ◌==◌,
  if◌then◌else◌, length,
}
use gepruft_lidar.Prelude.Result.{Result, ok, err, value_error}
use gepruft_lidar.Device.{Transport}

-- A line of the control channel; `broken` is one that raises a ValueError or an OSError, or no line.
pub data Message : Type 0 where
  lease_op : List ℕ → Message
  baud_op : ℕ → Message
  status_op : Message
  other_op : Message
  broken : Message

pub data Reply : Type 0 where
  accepted : ℕ → Reply
  refused : Reply

pub record Bridge (S : Type 0) : Type 0 where
  pub serial : S
  pub control_port : Option ℕ
  pub token : List ℕ
  pub high_speed : Bool
  pub lease : Bool
  pub owners : List ℕ
  pub peer : Option ℕ
  pub data_server : Bool
  pub data_client : Option ℕ

abbrev pub has_control : Option ℕ → Bool
has_control none = false
has_control (some port) = true

abbrev pub is_one : Option ℕ → ℕ → Bool
is_one none n = false
is_one (some m) n = m == n

-- `owns` of a control connection
abbrev pub owns : List ℕ → ℕ → Bool
owns [] id = false
owns (owner ∷ owners) id = (owner == id) || owns owners id

abbrev pub disown : ℕ → List ℕ → List ℕ
disown id [] = []
disown id (owner ∷ owners) =
    let rest = disown id owners in if owner == id then rest else owner ∷ rest

module _ {S : Type 0} where
  -- SerialBridge.__init__
  unfoldable pub create : S → Bool → Option ℕ → List ℕ → Bool → Result (Bridge S)
  create serial is_loopback control_port token high_speed =
      if not is_loopback && (length token == 0)
      then err value_error
      else if not (length token == 0) && not (has_control control_port)
      then err value_error
      else ok (record {
        serial = serial;
        control_port = control_port;
        token = token;
        high_speed = high_speed;
        lease = false;
        owners = [];
        peer = none;
        data_server = not (has_control control_port);
        data_client = none;
      })

  -- SerialBridge._end_lease
  abbrev pub end_lease : Bridge S → Bridge S
  end_lease b = record b { data_server = false; data_client = none; lease = false; peer = none }

  -- `finally` of SerialBridge._control
  unfoldable pub hang_up : ℕ → Bridge S → Bridge S
  hang_up id b =
      if owns b.owners id then record (end_lease b) { owners = disown id b.owners } else b

  -- The head of SerialBridge._data, whether the connection is served.
  unfoldable pub on_data_client : ℕ → Bridge S → Bool × Bridge S
  on_data_client peer b =
      if has_control b.data_client
        || (has_control b.control_port && (not b.lease || not (is_one b.peer peer)))
      then (false, b)
      else (
        true,
        record b {
          data_client = some peer;
          data_server = if has_control b.control_port then false else b.data_server;
        },
      )

  -- The end of SerialBridge._data
  abbrev pub end_data : Bridge S → Bridge S
  end_data b = record b { data_client = none }

module _ (T : Transport) where
  -- The first line of a control connection.
  unfoldable pub on_first : ℕ → ℕ → Message → Bridge T.State → Reply × Bridge T.State
  on_first id peer (lease_op token) b =
      if b.lease || not (same token b.token) then (refused, b) else (
        accepted (T.baud b.serial),
        record b { lease = true; owners = id ∷ b.owners; peer = some peer; data_server = true },
      )
  on_first id peer _ b = (refused, b)

  abbrev is_rate : ℕ → Bool
  is_rate baud = (baud == 9600) || (baud == 19200) || (baud == 38400) || (baud == 500000)

  abbrev after_baud :
      Result (Unit {0}) × T.State → ℕ → Bridge T.State → Option Reply × Bridge T.State
  after_baud (ok _, s) id b = (some (accepted (T.baud s)), record b { serial = s })
  after_baud (err e, s) id b = (none, hang_up id (record b { serial = s }))

  -- A further line of a control connection that owns a lease; no reply is its end.
  unfoldable pub on_request : ℕ → Message → Bridge T.State → Option Reply × Bridge T.State
  unfolding hang_up
  on_request id (baud_op baud) b =
      if is_rate baud
      then (if (baud == 500000) && not b.high_speed
          then (some refused, b)
          else after_baud (T.set_baud baud b.serial) id b)
      else (some refused, b)
  on_request id status_op b = (some (accepted (T.baud b.serial)), b)
  on_request id broken b = (none, hang_up id b)
  on_request id _ b = (some refused, b)
