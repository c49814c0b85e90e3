-- ===== src/Diagnostic/Capture.antt =====
-- src/lms200/hardware_diagnostic.py: class Capture. The details of a telegram are one object that
-- the report, the queue of valid candidates, `status` and `startup` share: the store is `telegrams`,
-- and the others hold its positions in it. A read is given the bytes that the port returned.
pub mod Queue
pub mod Answer
pub mod Boundary
pub mod Pending
pub mod Evidence
use gepruft_lidar.Prelude.{
  ℕ, zero, suc, ◌+◌, ◌-◌, ◌==◌, Bool, true, false, not, ◌&&◌, ◌||◌, Option, none, some, List, [],
  ◌∷◌, ◌++◌, leb, ltb, length, take, get_elem?, get_or, same, set, if◌then◌else◌,
}
use gepruft_lidar.Prelude.Result.{
  Result, Error, ok, err, protocol_error, value_error, ◌>>=◌, ◌>>◌, require,
}
use gepruft_lidar.Protocol.Framing
use gepruft_lidar.Protocol.Framing.{
  Framer, Frame, FrameCandidate, Control, Event, Fed, feed, crc_valid,
}
use gepruft_lidar.Protocol.Responses.{
  Response, StatusByte, DeviceStatus, response, decode_status, is_ascii, strip,
}

-- The dictionary that describes a candidate; what is computed from its bytes is left out.
pub record Detail : Type 0 where
  pub candidate : FrameCandidate
  pub status_byte : Option StatusByte
  pub identity : Option (List ℕ)
  pub decoded_status : Option DeviceStatus
  pub preceding_ack : Option Bool
  pub decode_error : Option Error

pub data Direction : Type 0 where
  pre_tx post_tx passive : Direction

abbrev pub is_post : Direction → Bool
is_post post_tx = true
is_post _ = false

pub record Capture : Type 0 where
  pub raw : List ℕ
  pub telegrams : List Detail
  pub valid_candidates : List ℕ
  pub framer : Framer
  pub tx_boundary : Option ℕ
  pub post_ack : Bool
  pub post_nak : Bool
  pub status : Option ℕ
  pub startup : Option ℕ
  pub ack : Bool
  pub nak : Bool

-- Capture.__init__, and the fields of the report that it fills.
abbrev pub init : Capture
init = record {
  raw = [];
  telegrams = [];
  valid_candidates = [];
  framer = Framing.init;
  tx_boundary = none;
  post_ack = false;
  post_nak = false;
  status = none;
  startup = none;
  ack = false;
  nak = false;
}

abbrev pub plain : FrameCandidate → Detail
plain c = record {
  candidate = c;
  status_byte = none;
  identity = none;
  decoded_status = none;
  preceding_ack = none;
  decode_error = none;
}

-- Capture.candidate
unfoldable pub candidate : FrameCandidate → Capture → Capture
candidate c s =
    let index : ℕ = length s.telegrams in
    let s' : Capture = record s { telegrams = s.telegrams ++ plain c ∷ [] } in
    if crc_valid c then record s' { valid_candidates = s.valid_candidates ++ index ∷ [] } else s'

-- The calls of the observer during `feed`.
unfoldable pub observe : List FrameCandidate → Capture → Capture
unfolding candidate
observe [] s = s
observe (c ∷ cs) s = observe cs (candidate c s)

abbrev pub change : (Detail → Detail) → ℕ → List Detail → List Detail
change f i [] = []
change f zero (d ∷ ds) = f d ∷ ds
change f (suc i) (d ∷ ds) = d ∷ change f i ds

-- `detail[…] = …`
abbrev pub note : (Detail → Detail) → ℕ → Capture → Capture
note f i s = record s { telegrams = change f i s.telegrams }

abbrev pub offset_of : Option Detail → ℕ
offset_of none = 0
offset_of (some d) = d.candidate.offset

abbrev pub is_past : Option ℕ → ℕ → Bool
is_past none offset = false
is_past (some boundary) offset = leb boundary offset

abbrev pub lms200 : List ℕ
lms200 = b'L' ∷ b'M' ∷ b'S' ∷ b'2' ∷ b'0' ∷ b'0' ∷ b';' ∷ []

abbrev pub is_present : {A : Type 0} → Option A → Bool
is_present none = false
is_present (some a) = true

-- The branch for a startup telegram.
abbrev pub identity_of : Frame → Response → Result (List ℕ)
identity_of f reply = do
  require (not (not (length f.payload == 23) || not (same (take 7 reply.body) lms200)))
      protocol_error
  require (is_ascii reply.body) value_error
  ok (strip reply.body)

abbrev pub note_error : ℕ → Error → Capture → Capture
note_error i e s = note (λ d. record d { decode_error = some e }) i s

abbrev pub on_startup : ℕ → Result (List ℕ) → Capture → Capture
on_startup i (ok name) s = record (note (λ d. record d { identity = some name }) i s) {
  startup = some i;
}
on_startup i (err e) s = note_error i e s

abbrev pub on_status : ℕ → Result DeviceStatus → Capture → Capture
on_status i (ok status) s =
    let s' : Capture =
      note (λ d. record d { decoded_status = some status; preceding_ack = some s.post_ack }) i s in
    if is_past s.tx_boundary (offset_of (get_elem? s.telegrams i)) && s.post_ack
    then record s' { status = some i }
    else s'
on_status i (err e) s = note_error i e s

unfoldable pub on_reply : ℕ → Frame → Result Response → Capture → Capture
on_reply i f (err e) s = note_error i e s
on_reply i f (ok reply) s =
    let s' : Capture = note (λ d. record d { status_byte = some reply.status }) i s in
    if reply.command == 0x90
    then on_startup i (identity_of f reply) s'
    else if reply.command == 0xB1
    then on_status i (decode_status reply) s'
    else s'

-- The body of the loop on a frame; `none` is the IndexError of `popleft` on an empty queue.
abbrev pub on_frame : Frame → List ℕ → Capture → Option Capture
on_frame f [] s = none
on_frame f (i ∷ queue) s =
    some (on_reply i f (response f 0) (record s { valid_candidates = queue }))

abbrev pub on_control : Control → Direction → Capture → Capture
on_control Control.ack phase s = record s { ack = true; post_ack = s.post_ack || is_post phase }
on_control Control.nak phase s = record s { nak = true; post_nak = s.post_nak || is_post phase }

abbrev pub and_then {ℓ} : {A : Type ℓ} → Option A → (A → Option A) → Option A
and_then none f = none
and_then (some a) f = f a

-- Capture.process
unfoldable pub process : List Event → Direction → Capture → Option Capture
unfolding on_reply
process [] phase s = some s
process (Event.control c ∷ events) phase s = process events phase (on_control c phase s)
process (Event.frame f ∷ events) phase s =
    and_then (on_frame f s.valid_candidates s) (process events phase)

abbrev pub framed_read : Fed → Direction → Capture → Option Capture
framed_read t phase s = process t.events phase (record (observe t.observed s) { framer = t.framer })

-- Capture.read, on the bytes that `device.read` returned.
unfoldable pub read : List ℕ → Direction → Bool → Capture → Option Capture
unfolding observe process
read [] phase framed s = some s
read (b ∷ bs) phase framed s =
    let s' : Capture = record s { raw = s.raw ++ b ∷ bs } in
    if framed then framed_read (feed s.framer (b ∷ bs)) phase s' else some s'
