-- ===== src/Tcp.antt =====
-- src/lms200/transports/tcp.py: the client side of the bridge, over a control channel and a data
-- channel that are parameters. The five-second limits are left out: a call that runs into one is a
-- TimeoutError of the channel.
pub mod Baud
use gepruft_lidar.Prelude.{
  ℕ, ◌+◌, Bool, true, false, not, Option, none, some, List, [], ◌∷◌, ◌==◌, if◌then◌else◌,
}
use gepruft_lidar.Prelude.Result.{Result, ok, err, value_error, os_error, timeout_error, eof_error}

-- A request on the control channel, and the answer of the bridge: `ok`, its data port, its baud rate.
pub data Request : Type 0 where
  ask_lease : List ℕ → Request
  ask_baud : ℕ → Request

pub record Answer : Type 0 where
  pub is_ok : Bool
  pub data_port : ℕ
  pub baud : ℕ

-- The sockets: what the code calls of asyncio. `receive` gives the bytes that came, none at the end
-- of the stream.
pub record Net : Type 1 where
  pub State : Type 0
  pub dial : ℕ → State → Result (Unit {0}) × State
  pub exchange : Request → State → Result Answer × State
  pub receive : ℕ → State → Result (List ℕ) × State
  pub send : List ℕ → State → Result (Unit {0}) × State

pub record Tcp (S : Type 0) : Type 0 where
  pub net : S
  pub port : ℕ
  pub baud : ℕ
  pub control_port : Option ℕ
  pub token : List ℕ
  pub has_control : Bool
  pub has_data : Bool

abbrev pub can_set_baud : Option ℕ → Bool
can_set_baud none = false
can_set_baud (some port) = true

module _ (N : Net) where
  abbrev pub Reply : Type 0 → Type 0
  Reply A = Result A × Tcp N.State

  -- TCPTransport.__init__
  abbrev pub init : N.State → ℕ → ℕ → Option ℕ → List ℕ → Tcp N.State
  init net port baud control_port token = record {
    net = net;
    port = port;
    baud = baud;
    control_port = control_port;
    token = token;
    has_control = false;
    has_data = false;
  }

  -- TCPTransport.close
  abbrev pub close : Tcp N.State → Tcp N.State
  close t = record t { has_control = false; has_data = false }

  abbrev accepted : Result Answer → Result Answer
  accepted (ok a) = if not a.is_ok then err os_error else ok a
  accepted (err e) = err e

  -- TCPTransport._control
  unfoldable pub control : Request → Tcp N.State → Reply Answer
  control r t =
      if not t.has_control
      then (err os_error, t)
      else let (a, net) = N.exchange r t.net in (accepted a, record t { net = net })

  abbrev connected : Result (Unit {0}) × N.State → Tcp N.State → Reply (Unit {0})
  connected (ok _, net) t = (ok tt, record t { net = net; has_data = true })
  connected (err e, net) t = (err e, close (record t { net = net }))

  abbrev leased : Reply Answer → Reply (Unit {0})
  leased (ok a, t) = connected (N.dial a.data_port t.net) (record t { baud = a.baud })
  leased (err e, t) = (err e, close t)

  controlled : Result (Unit {0}) × N.State → Tcp N.State → Reply (Unit {0})
  unfolding control
  controlled (ok _, net) t =
      leased (control (ask_lease t.token) (record t { net = net; has_control = true }))
  controlled (err e, net) t = (err e, close (record t { net = net }))

  open_by : Option ℕ → Tcp N.State → Reply (Unit {0})
  unfolding controlled
  open_by none t = connected (N.dial t.port t.net) t
  open_by (some port) t = controlled (N.dial port t.net) t

  -- TCPTransport.open
  unfoldable pub open_tcp : Tcp N.State → Reply (Unit {0})
  unfolding open_by
  open_tcp t = open_by t.control_port t

  abbrev received : Result (List ℕ) → Result (List ℕ)
  received (ok []) = err eof_error
  received (ok (b ∷ bs)) = ok (b ∷ bs)
  received (err timeout_error) = ok []
  received (err e) = err e

  -- TCPTransport.read
  unfoldable pub read : ℕ → Tcp N.State → Reply (List ℕ)
  read size t =
      if not t.has_data
      then (err eof_error, t)
      else let (r, net) = N.receive size t.net in (received r, record t { net = net })

  -- TCPTransport.write
  unfoldable pub write : List ℕ → Tcp N.State → Reply (Unit {0})
  write bytes t =
      if not t.has_data
      then (err eof_error, t)
      else let (r, net) = N.send bytes t.net in (r, record t { net = net })

  abbrev confirmed : ℕ → Reply Answer → Reply (Unit {0})
  confirmed baud (ok a, t) =
      if not (a.baud == baud) then (err os_error, t) else (ok tt, record t { baud = baud })
  confirmed baud (err e, t) = (err e, t)

  -- TCPTransport.set_baud
  unfoldable pub set_baud : ℕ → Tcp N.State → Reply (Unit {0})
  unfolding control
  set_baud baud t =
      if not (can_set_baud t.control_port)
      then (if not (baud == t.baud) then (err value_error, t) else (ok tt, t))
      else confirmed baud (control (ask_baud baud) t)
