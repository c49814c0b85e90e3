-- ===== src/Device/Reader.antt =====
-- src/lms200/state_machine.py: Device._handle and one round of Device._read_loop.
pub mod Bounds
pub mod Scans
use gepruft_lidar.Prelude.{
  ℕ, zero, suc, ◌+◌, ◌-◌, ◌*◌, ◌%◌, ◌≤◌, ◌<◌, Bool, true, false, not, ◌&&◌, ◌||◌, Option, none,
  some, List, [], ◌∷◌, ◌++◌, ltb, leb, ◌==◌, if◌then◌else◌, length, drop,
}
use gepruft_lidar.Prelude.Result.{
  Result, Error, ok, err, value_error, protocol_error, device_error, eof_error, os_error,
  keyboard_interrupt, ◌>>=◌, ◌>>◌,
}
use gepruft_lidar.Protocol.Framing
use gepruft_lidar.Protocol.Framing.{Framer, Frame, Event, Fed, feed, expire}
use gepruft_lidar.Protocol.Responses.{
  Response, Configuration, DeviceStatus, response, require_healthy,
}
use gepruft_lidar.Protocol.Measurements.{Scan, decode_scan}
use gepruft_lidar.Config.{Settings}
use gepruft_lidar.Device.{
  Device, Transport, Item, control, reply, failure, Fault, Phase, is_streaming, transition,
  bump_malformed, bump_timeouts, fail_with, queue,
}

-- (index - last - 1) % 256, of two bytes
abbrev pub gap : Option ℕ → Option ℕ → ℕ
gap none last = 0
gap (some index) none = 0
gap (some index) (some last) = (index + 255 - last) % 256

-- deque(maxlen=150).append
abbrev pub push_time : List ℕ → ℕ → List ℕ
push_time times now = if leb 150 (length times) then drop 1 times ++ now ∷ [] else times ++ now ∷ []

abbrev last_or : List ℕ → ℕ → ℕ
last_or [] d = d
last_or (x ∷ xs) d = last_or xs x

module _ (T : Transport) where
  -- The end of the branch for B0, on a decoded scan.
  unfoldable pub receive_scan : Device T.State → Scan → Device T.State
  receive_scan d scan = record d {
    counters = record d.counters {
      dropped_scans = d.counters.dropped_scans + gap scan.telegram_index d.last_telegram_index;
      received_scans = d.counters.received_scans + 1;
    };
    last_telegram_index = scan.telegram_index;
    times = push_time d.times (T.now d.transport);
    latest = some scan;
    published = d.published ++ scan ∷ [];
  }

  -- The three ends of its `try`.
  unfoldable pub scan_result : Device T.State → Result Scan → Device T.State
  unfolding receive_scan queue
  scan_result d (ok scan) = receive_scan d scan
  scan_result d (err device_error) = fail_with Fault.unhealthy (queue (failure device_error) d)
  scan_result d (err _) = bump_malformed d

  checked_scan : Response → Result Scan → Result Scan
  checked_scan r decoded = do scan ← decoded; require_healthy r; ok scan

  unfoldable pub on_scan :
      Device T.State → Response → Option DeviceStatus → Option Configuration → Device T.State
  unfolding scan_result checked_scan
  on_scan d r none config = d
  on_scan d r (some info) none = d
  on_scan d r (some info) (some config) = scan_result d (
      checked_scan r (
        decode_scan r info.angle info.resolution config (d.counters.received_scans + 1)
          (T.timestamp d.transport) (T.wall_clock d.transport)))

  unfoldable pub on_reply : Device T.State → Response → Device T.State
  unfolding on_scan queue
  on_reply d r =
      if r.command == 0xB0
      then on_scan d r d.info d.configuration
      else if (r.command == 0x90) || (r.command == 0x91)
      then (if is_streaming d.phase then fail_with Fault.scanner_reset d else d)
      else queue (reply r) d

  unfoldable pub on_response : Device T.State → Result Response → Device T.State
  unfolding on_reply
  on_response d (ok r) = on_reply d r
  on_response d (err device_error) = queue (failure device_error) d
  on_response d (err _) = bump_malformed d

  -- Device._handle
  unfoldable pub handle : Device T.State → Event → Device T.State
  unfolding on_response
  handle d (Framing.control c) = queue (control c) d
  handle d (Framing.frame f) = on_response d (response f d.settings.address)

  unfoldable pub handle_all : Device T.State → List Event → Device T.State
  unfolding handle
  handle_all d [] = d
  handle_all d (e ∷ es) = handle_all (handle d e) es

  take_fed : Device T.State → Fed → ℕ → Device T.State
  unfolding handle_all
  take_fed d t now = record (handle_all (record d { framer = t.framer }) t.events) {
    last_bytes = now;
  }

  -- `if data: … elif self.framer.buffer and now - last_bytes > 0.25: …`
  unfoldable pub on_data : Device T.State → List ℕ → ℕ → Device T.State
  unfolding take_fed
  on_data d [] now =
      if not (length d.framer.buffer == 0) && ltb 250 (now - d.last_bytes)
      then take_fed d (expire d.framer) now
      else d
  on_data d (b ∷ bs) now = take_fed d (feed d.framer (b ∷ bs)) now

  -- `if self.state == State.STREAMING: …`
  unfoldable pub watch_stream : Device T.State → ℕ → Device T.State
  watch_stream d now =
      if is_streaming d.phase
        && ltb d.settings.stream_timeout (now - last_or d.times d.stream_since)
      then fail_with Fault.measurement_timeout (bump_timeouts d)
      else d

  on_end : Device T.State → Bool → Device T.State
  on_end d false = fail_with Fault.disconnected d
  on_end d true =
      if length d.framer.buffer == 0
      then transition Phase.connected d
      else fail_with Fault.replay_truncated (record d {
        framer = record d.framer {
          stats = record d.framer.stats { truncated_frames = d.framer.stats.truncated_frames + 1 };
        };
      })

  abbrev is_replay : T.State → Bool
  is_replay s = elim (T.recorded s) [ none ↦ false | some r ↦ true ]

  -- What the loop makes of one `transport.read()`. The loop ends after an exception; of one that is no
  -- `Exception` it makes nothing.
  unfoldable pub on_read : Device T.State → Result (List ℕ) → Device T.State
  unfolding on_data watch_stream on_end queue
  on_read d (ok bytes) = let now : ℕ = T.now d.transport in watch_stream (on_data d bytes now) now
  on_read d (err eof_error) =
      record (queue (failure eof_error) (on_end d (is_replay d.transport))) { reading = false }
  on_read d (err keyboard_interrupt) = record d { reading = false }
  on_read d (err _) = record (queue (failure os_error) (fail_with Fault.read_failed d)) {
    reading = false;
  }

  idle_when : Device T.State → Bool → Device T.State
  unfolding on_read
  idle_when d true =
      let (result, s) = T.read d.transport in on_read (record d { transport = s }) result
  idle_when d false = record d { transport = T.rest d.transport }

  -- One round of the reader where it runs, and else some time.
  unfoldable pub idle : Device T.State → Device T.State
  unfolding idle_when
  idle d = idle_when d d.reading
