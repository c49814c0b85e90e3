-- ===== src/Protocol/Framing.antt =====
-- src/lms200/protocol/framing.py. The observer of a framer is not a field: `feed` returns, beside
-- the events, the candidates that it hands to the observer, in their order.
pub mod Turns
pub mod Chunks
pub mod Kept
pub mod Stream
pub mod RoundTrip
pub mod Corruption
pub mod Matched
pub mod Offsets
use gepruft_lidar.Prelude.{
  ◌≡◌, refl, ℕ, zero, suc, ◌+◌, ◌-◌, ◌*◌, ◌/◌, ◌%◌, Bool, true, false, not, ◌&&◌, ◌||◌, Option,
  none, some, List, [], ◌∷◌, ◌++◌, ltb, leb, ◌==◌, if◌then◌else◌, length, get_or, take, drop,
}
use gepruft_lidar.Prelude.Result.{Result, ok, err, value_error}
use gepruft_lidar.Protocol.Crc.{crc16}

abbrev pub stx : ℕ
stx = 0x02

abbrev pub max_payload : ℕ
max_payload = 808

-- Control.ACK and Control.NAK
pub data Control : Type 0 where
  ack nak : Control

abbrev pub ack_byte : ℕ
ack_byte = 0x06

abbrev pub nak_byte : ℕ
nak_byte = 0x15

pub record Frame : Type 0 where
  pub address : ℕ
  pub payload : List ℕ
  pub raw : List ℕ

-- `payload[0]`; every caller has tested the length before.
abbrev pub frame_command : Frame → ℕ
frame_command f = get_or f.payload 0 0

pub record FrameStats : Type 0 where
  pub frames : ℕ
  pub crc_errors : ℕ
  pub invalid_lengths : ℕ
  pub noise_bytes : ℕ
  pub truncated_frames : ℕ

pub record FrameCandidate : Type 0 where
  pub offset : ℕ
  pub raw : List ℕ
  pub crc_expected : ℕ
  pub crc_received : ℕ

abbrev pub crc_valid : FrameCandidate → Bool
crc_valid c = c.crc_expected == c.crc_received

-- int.to_bytes(2, "little") of a number below 2 ^ 16
unfoldable pub to_bytes : ℕ → List ℕ
to_bytes n = n % 256 ∷ n / 256 ∷ []

-- int.from_bytes(bytes[i : i + 2], "little") and unpack_from("<H", bytes, i), inside the bytes
abbrev pub word_at : List ℕ → ℕ → ℕ
word_at bs i = get_or bs i 0 + 256 * get_or bs (suc i) 0

unfoldable pub encode : List ℕ → ℕ → Result (List ℕ)
encode payload address =
    let message : List ℕ = stx ∷ address ∷ to_bytes (length payload) ++ payload in
    if not (leb address 255) || not (leb 1 (length payload) && leb (length payload) max_payload)
    then err value_error
    else ok (message ++ to_bytes (crc16 message))

pub data Event : Type 0 where
  frame : Frame → Event
  control : Control → Event

pub record Framer : Type 0 where
  pub buffer : List ℕ
  pub stats : FrameStats
  pub offset : ℕ

abbrev pub no_stats : FrameStats
no_stats = record {
  frames = 0;
  crc_errors = 0;
  invalid_lengths = 0;
  noise_bytes = 0;
  truncated_frames = 0;
}

-- Framer.__init__
abbrev pub init : Framer
init = record { buffer = []; stats = no_stats; offset = 0 }

-- Framer._discard
abbrev pub discard : Framer → ℕ → Framer
discard s count = record s { buffer = drop count s.buffer; offset = s.offset + count }

-- What one call leaves: the framer, the events returned and the candidates observed.
pub record Fed : Type 0 where
  pub framer : Framer
  pub events : List Event
  pub observed : List FrameCandidate

abbrev pub quiet : Framer → Fed
quiet s = record { framer = s; events = []; observed = [] }

-- raw[:-2] and raw[4:-2]
abbrev pub without_crc : List ℕ → List ℕ
without_crc raw = take (length raw - 2) raw

abbrev pub payload_of : List ℕ → List ℕ
payload_of raw = drop 4 (without_crc raw)

abbrev pub candidate_of : Framer → ℕ → FrameCandidate
candidate_of s total =
    let raw : List ℕ = take total s.buffer in
    record {
      offset = s.offset;
      raw = raw;
      crc_expected = crc16 (without_crc raw);
      crc_received = word_at raw (length raw - 2);
    }

-- The loop's end, from the complete candidate on.
unfoldable pub accept : Framer → ℕ → Fed
accept s total =
    let c : FrameCandidate = candidate_of s total in
    if not (crc_valid c)
    then record {
      framer =
          discard (record s { stats = record s.stats { crc_errors = s.stats.crc_errors + 1 } }) 1;
      events = [];
      observed = c ∷ [];
    }
    else record {
      framer = discard (record s { stats = record s.stats { frames = s.stats.frames + 1 } }) total;
      events =
          frame (record { address = get_or c.raw 1 0; payload = payload_of c.raw; raw = c.raw })
          ∷ [];
      observed = c ∷ [];
    }

-- One round of the loop of `feed` on a buffer that starts with `first`; `none` is `break`.
unfoldable pub round : Framer → ℕ → Option Fed
round s first =
    if first == ack_byte
    then some (record (quiet (discard s 1)) { events = control ack ∷ [] })
    else if first == nak_byte
    then some (record (quiet (discard s 1)) { events = control nak ∷ [] })
    else if not (first == stx)
    then some (
        quiet (
          discard (record s { stats = record s.stats { noise_bytes = s.stats.noise_bytes + 1 } })
            1))
    else if ltb (length s.buffer) 4
    then none
    else let size : ℕ = word_at s.buffer 2 in
      if not (leb 1 size && leb size max_payload)
      then some (
          quiet (
            discard
              (record s {
                stats = record s.stats { invalid_lengths = s.stats.invalid_lengths + 1 };
              })
              1))
      else if ltb (length s.buffer) (size + 6)
      then none
      else some (accept s (size + 6))

at_head : Framer → List ℕ → Option Fed
at_head s [] = none
at_head s (first ∷ rest) = round s first

-- `while self.buffer:` and the round; `none` ends the loop.
unfoldable pub turn : Framer → Option Fed
unfolding at_head
turn s = at_head s s.buffer

abbrev pub join : Fed → Fed → Fed
join t u = record u { events = t.events ++ u.events; observed = t.observed ++ u.observed }

-- The loop, with fuel for its rounds. Each round drops a byte at least.
unfoldable pub drain : ℕ → Framer → Fed
drain zero s = quiet s
drain (suc fuel) s = elim (turn s) [ none ↦ quiet s | some t ↦ join t (drain fuel t.framer) ]

unfoldable pub feed : Framer → List ℕ → Fed
unfolding drain
feed s bytes =
    let filled : Framer = record s { buffer = s.buffer ++ bytes } in
    drain (length filled.buffer) filled

-- Framer.expire
unfoldable pub expire : Framer → Fed
expire s =
    if length s.buffer == 0
    then quiet s
    else feed
        (discard
          (record s { stats = record s.stats { truncated_frames = s.stats.truncated_frames + 1 } })
          1)
        []

-- Framer.reset
abbrev pub reset : Framer → Framer
reset s = record s { buffer = []; offset = 0 }

-- The published status request comes back from `feed`, behind an acknowledgement.
feed_golden :
    (feed init (0x06 ∷ 0x02 ∷ 0x00 ∷ 0x01 ∷ 0x00 ∷ 0x31 ∷ 0x15 ∷ 0x12 ∷ [])).events
    ≡ control ack
      ∷ frame (record {
        address = 0;
        payload = 0x31 ∷ [];
        raw = 0x02 ∷ 0x00 ∷ 0x01 ∷ 0x00 ∷ 0x31 ∷ 0x15 ∷ 0x12 ∷ [];
      })
      ∷ []
unfolding feed turn round accept crc16
feed_golden = refl
