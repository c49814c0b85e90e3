-- ===== src/Device/Reader/Scans.antt =====
-- How the reader of src/lms200/state_machine.py counts and numbers the scans that it delivers.
use gepruft_lidar.Prelude.{
  ℕ, zero, suc, ◌+◌, ◌%◌, ◌<◌, ◌≡◌, refl, sym, ap, ◌∙◌, Bool, true, false, Option, none, some, List,
  [], ◌∷◌, ◌++◌, map, arith,
}
use mathlib.Core.List.{map-append}
use native.Mathlib.Nat.{add-zero}
use gepruft_lidar.Prelude.Result.{
  Result, ok, err, device_error, eof_error, os_error, keyboard_interrupt,
}
use gepruft_lidar.Protocol.Framing.{Event, Fed, feed, expire, frame, control}
use gepruft_lidar.Protocol.Responses.{Response, Configuration, DeviceStatus, response}
use gepruft_lidar.Protocol.Measurements.{Scan, decode_scan}
use gepruft_lidar.Protocol.Measurements.Layout.{decode_scan-IsScanOf}
use gepruft_lidar.Device.{Device, Transport, Item, Fault, queue, failure, fail_with}
use gepruft_lidar.Device.Reader.{
  handle, handle_all, on_response, on_reply, on_scan, scan_result, receive_scan, checked_scan,
  on_data, take_fed, watch_stream, on_end, on_read, idle, idle_when, is_replay,
}

-- The numbers n, n + 1, …, as many as `count`.
unfoldable pub count_from : ℕ → ℕ → List ℕ
count_from n zero = []
count_from n (suc count) = n ∷ count_from (n + 1) count

count_from-suc : (n count : ℕ) → count_from n (suc count) ≡ count_from n count ++ (n + count) ∷ []
unfolding count_from
count_from-suc n zero = rw add-zero refl
count_from-suc n (suc count) = ap (◌∷◌ n) (
    count_from-suc (n + 1) count ∙ ap (λ (k : ℕ). count_from (n + 1) count ++ k ∷ []) (omega arith))

count_from_next : (c : ℕ) → count_from 1 c ++ (c + 1) ∷ [] ≡ count_from 1 (c + 1)
count_from_next c =
    ap (λ (k : ℕ). count_from 1 c ++ k ∷ []) (omega arith)
    ∙ sym (count_from-suc 1 c)
    ∙ ap (count_from 1) (omega arith)

-- Every received scan was handed to `on_scan`, and carries its number, 1, 2, 3, ….
abbrev pub IsNumbered : {S : Type 0} → Device S → Type 0
IsNumbered d = map (λ s. s.sequence) d.published ≡ count_from 1 d.counters.received_scans

queue-IsNumbered :
    {S : Type 0} (item : Item) (d : Device S) → IsNumbered d → IsNumbered (queue item d)
unfolding queue
queue-IsNumbered item d v = ground arith

module _ (T : Transport) where
  receive_scan-IsNumbered :
      (d : Device T.State) (scan : Scan)
      → scan.sequence ≡ d.counters.received_scans + 1
      → IsNumbered d
      → IsNumbered (receive_scan T d scan)
  unfolding receive_scan
  receive_scan-IsNumbered d scan e v =
      map-append (λ s. s.sequence) d.published (scan ∷ [])
      ∙ rw (v, e) (count_from_next d.counters.received_scans)

  scan_result-IsNumbered :
      (d : Device T.State) (r : Result Scan)
      → ((scan : Scan) → r ≡ ok scan → scan.sequence ≡ d.counters.received_scans + 1)
      → IsNumbered d
      → IsNumbered (scan_result T d r)
  unfolding scan_result
  scan_result-IsNumbered d (ok scan) e v = receive_scan-IsNumbered d scan (e scan refl) v
  scan_result-IsNumbered d (err device_error) e v = queue-IsNumbered (failure device_error) d v
  scan_result-IsNumbered d (err _) e v = v

  checked_scan-ok :
      (r : Response) (decoded : Result Scan) (scan : Scan)
      → checked_scan T r decoded ≡ ok scan
      → decoded ≡ ok scan
  unfolding checked_scan
  checked_scan-ok r (ok scan') scan e = ground arith
  checked_scan-ok r (err x) scan e = cc

  decoded_number :
      (d : Device T.State) (r : Response) (info : DeviceStatus) (config : Configuration)
      (scan : Scan)
      → checked_scan T r (
          decode_scan r info.angle info.resolution config
            (d.counters.received_scans + 1)
            (T.timestamp d.transport)
            (T.wall_clock d.transport))
        ≡ ok scan
      → scan.sequence ≡ d.counters.received_scans + 1
  decoded_number d r info config scan e =
      (decode_scan-IsScanOf r _ _ config _ _ _ scan (checked_scan-ok r _ scan e)).sequence_is

  on_scan-IsNumbered :
      (d : Device T.State) (r : Response) (info : Option DeviceStatus)
      (config : Option Configuration)
      → IsNumbered d
      → IsNumbered (on_scan T d r info config)
  unfolding on_scan
  on_scan-IsNumbered d r none config v = v
  on_scan-IsNumbered d r (some info) none v = v
  on_scan-IsNumbered d r (some info) (some config) v =
      scan_result-IsNumbered d _ (λ scan e. decoded_number d r info config scan e) v

  on_reply-IsNumbered :
      (d : Device T.State) (r : Response) → IsNumbered d → IsNumbered (on_reply T d r)
  unfolding on_reply
  on_reply-IsNumbered d r v =
      ground (
        arith,
        on_scan-IsNumbered d r d.info d.configuration v,
        queue-IsNumbered (Item.reply r) d v,
      )

  on_response-IsNumbered :
      (d : Device T.State) (r : Result Response) → IsNumbered d → IsNumbered (on_response T d r)
  unfolding on_response
  on_response-IsNumbered d (ok r) v = on_reply-IsNumbered d r v
  on_response-IsNumbered d (err device_error) v = queue-IsNumbered (failure device_error) d v
  on_response-IsNumbered d (err _) v = v

  handle_all-IsNumbered :
      (es : List Event) (d : Device T.State) → IsNumbered d → IsNumbered (handle_all T d es)
  unfolding handle_all handle
  handle_all-IsNumbered [] d v = v
  handle_all-IsNumbered (control c ∷ es) d v =
      handle_all-IsNumbered es (queue (Item.control c) d) (queue-IsNumbered (Item.control c) d v)
  handle_all-IsNumbered (frame f ∷ es) d v =
      let r : Result Response = response f d.settings.address in
      handle_all-IsNumbered es (on_response T d r) (on_response-IsNumbered d r v)

  on_data-IsNumbered :
      (d : Device T.State) (bytes : List ℕ) (now : ℕ)
      → IsNumbered d
      → IsNumbered (on_data T d bytes now)
  unfolding on_data take_fed
  on_data-IsNumbered d [] now v = ground (
    arith,
    handle_all-IsNumbered (expire d.framer).events (record d { framer = (expire d.framer).framer })
        v,
  )
  on_data-IsNumbered d (b ∷ bs) now v =
      let t : Fed = feed d.framer (b ∷ bs) in
      handle_all-IsNumbered t.events (record d { framer = t.framer }) v

  on_end-IsNumbered : (d : Device T.State) (b : Bool) → IsNumbered d → IsNumbered (on_end T d b)
  unfolding on_end
  on_end-IsNumbered d false v = v
  on_end-IsNumbered d true v = ground arith

  on_read-IsNumbered :
      (d : Device T.State) (r : Result (List ℕ)) → IsNumbered d → IsNumbered (on_read T d r)
  unfolding on_read watch_stream
  on_read-IsNumbered d (ok bytes) v =
      ground (arith, on_data-IsNumbered d bytes (T.now d.transport) v)
  on_read-IsNumbered d (err eof_error) v =
      queue-IsNumbered (failure eof_error) _ (on_end-IsNumbered d (is_replay T d.transport) v)
  on_read-IsNumbered d (err keyboard_interrupt) v = v
  on_read-IsNumbered d (err _) v =
      queue-IsNumbered (failure os_error) (fail_with Fault.read_failed d) v

  idle_when-IsNumbered :
      (d : Device T.State) (b : Bool) → IsNumbered d → IsNumbered (idle_when T d b)
  unfolding idle_when
  idle_when-IsNumbered d false v = v
  idle_when-IsNumbered d true v =
      on_read-IsNumbered (record d { transport = (T.read d.transport).1 }) _ v

  -- Whatever a read brings, the scans delivered to `on_scan` stay numbered 1, 2, 3, … with no number
  -- left out or used twice, as many as the counter of received scans says.
  pub idle-IsNumbered : (d : Device T.State) → IsNumbered d → IsNumbered (idle T d)
  unfolding idle
  idle-IsNumbered d v = idle_when-IsNumbered d d.reading v

  -- If `lost` telegrams, fewer than 256, went missing since the last scan, then the counter of
  -- dropped scans grows by just that number, also where the 8-bit index has wrapped round.
  pub dropped_scans_exact :
      (d : Device T.State) (scan : Scan) (last lost : ℕ)
      → last < 256
      → lost < 256
      → d.last_telegram_index ≡ some last
      → scan.telegram_index ≡ some ((last + 1 + lost) % 256)
      → ((receive_scan T d scan).counters.dropped_scans ≡ d.counters.dropped_scans + lost)
        × ((receive_scan T d scan).last_telegram_index ≡ some ((last + 1 + lost) % 256))
  unfolding receive_scan
  dropped_scans_exact d scan last lost hl hk e e' = rw (e, e') (omega arith, refl)
