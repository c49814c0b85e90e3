-- ===== src/Device/Reader/Bounds.antt =====
-- What the reader of src/lms200/state_machine.py keeps: the limits of its queues, and all that only
-- the methods of the device set.
use gepruft_lidar.Prelude.{
  ℕ, ◌≤◌, ◌≡◌, refl, ◌∙◌, Bool, true, false, Option, none, some, List, [], ◌∷◌, length, drop,
  length-append, length-drop, arith,
}
use gepruft_lidar.Prelude.Result.{Result, Error, ok, err, device_error, eof_error, os_error}
use gepruft_lidar.Protocol.Framing.{Event, Fed, feed, expire, frame, control}
use gepruft_lidar.Protocol.Responses.{Response, Configuration, DeviceStatus, response}
use gepruft_lidar.Protocol.Measurements.{Scan}
use gepruft_lidar.Device.{Device, Transport, Item, Fault, queue, failure, fail_with}
use gepruft_lidar.Device.Reader.{
  handle, handle_all, on_response, on_reply, on_scan, scan_result, push_time, on_data, take_fed,
  watch_stream, on_end, on_read, idle, idle_when, is_replay,
}

-- The queue of events holds 64 at most, and the window of receive times 150.
pub record IsBounded {S : Type 0} (d : Device S) : Type 0 where
  pub events : length d.events ≤ 64
  pub times : length d.times ≤ 150

-- What the reader does not touch.
pub record Keeps {S : Type 0} (d d' : Device S) : Type 0 where
  pub settings : d'.settings ≡ d.settings
  pub info : d'.info ≡ d.info
  pub model : d'.model ≡ d.model
  pub configuration : d'.configuration ≡ d.configuration
  pub changed : d'.changed ≡ d.changed
  pub is_open : d'.is_open ≡ d.is_open
  pub stream_since : d'.stream_since ≡ d.stream_since

abbrev pub Good : {S : Type 0} → Device S → Device S → Type 0
Good d d' = IsBounded d' × Keeps d d' × (d'.transport ≡ d.transport)

pub Keeps-refl : {S : Type 0} (d : Device S) → Keeps d d
Keeps-refl d = record {
  settings = refl;
  info = refl;
  model = refl;
  configuration = refl;
  changed = refl;
  is_open = refl;
  stream_since = refl;
}

pub Keeps-trans : {S : Type 0} {a b c : Device S} → Keeps a b → Keeps b c → Keeps a c
Keeps-trans p q = record {
  settings = q.settings ∙ p.settings;
  info = q.info ∙ p.info;
  model = q.model ∙ p.model;
  configuration = q.configuration ∙ p.configuration;
  changed = q.changed ∙ p.changed;
  is_open = q.is_open ∙ p.is_open;
  stream_since = q.stream_since ∙ p.stream_since;
}

pub queue-Good : {S : Type 0} (item : Item) (d : Device S) → IsBounded d → Good d (queue item d)
unfolding queue
queue-Good item d v = ground (
  arith,
  length-drop 1 d.events,
  length-append (drop 1 d.events) (item ∷ []),
  length-append d.events (item ∷ []),
)

push_time-le : (times : List ℕ) (now : ℕ) → length times ≤ 150 → length (push_time times now) ≤ 150
push_time-le times now h = ground (
  arith,
  length-drop 1 times,
  length-append (drop 1 times) (now ∷ []),
  length-append times (now ∷ []),
)

module _ (T : Transport) where
  scan_result-Good :
      (d : Device T.State) (r : Result Scan) → IsBounded d → Good d (scan_result T d r)
  unfolding scan_result
  scan_result-Good d (ok scan) v = ground (arith, push_time-le d.times (T.now d.transport))
  scan_result-Good d (err device_error) v = ground (arith, queue-Good (failure device_error) d v)
  scan_result-Good d (err _) v = ground arith

  on_scan-Good :
      (d : Device T.State) (r : Response) (info : Option DeviceStatus)
      (config : Option Configuration)
      → IsBounded d
      → Good d (on_scan T d r info config)
  unfolding on_scan
  on_scan-Good d r none config v = (v, Keeps-refl d, refl)
  on_scan-Good d r (some info) none v = (v, Keeps-refl d, refl)
  on_scan-Good d r (some info) (some config) v = scan_result-Good d _ v

  on_reply-Good : (d : Device T.State) (r : Response) → IsBounded d → Good d (on_reply T d r)
  unfolding on_reply
  on_reply-Good d r v =
      ground (arith, on_scan-Good d r d.info d.configuration v, queue-Good (Item.reply r) d v)

  on_response-Good :
      (d : Device T.State) (r : Result Response) → IsBounded d → Good d (on_response T d r)
  unfolding on_response
  on_response-Good d (ok r) v = on_reply-Good d r v
  on_response-Good d (err device_error) v = queue-Good (failure device_error) d v
  on_response-Good d (err _) v = ground arith

  handle-Good : (d : Device T.State) (e : Event) → IsBounded d → Good d (handle T d e)
  unfolding handle
  handle-Good d (control c) v = queue-Good (Item.control c) d v
  handle-Good d (frame f) v = on_response-Good d (response f d.settings.address) v

  handle_all-Good :
      (es : List Event) (d : Device T.State) → IsBounded d → Good d (handle_all T d es)
  unfolding handle_all
  handle_all-Good [] d v = (v, Keeps-refl d, refl)
  handle_all-Good (e ∷ es) d v =
      let (v', k, t) = handle-Good d e v in
      let (v'', k', t') = handle_all-Good es (handle T d e) v' in (v'', Keeps-trans k k', t' ∙ t)

  take_fed-Good :
      (d : Device T.State) (t : Fed) (now : ℕ) → IsBounded d → Good d (take_fed T d t now)
  unfolding take_fed
  take_fed-Good d t now v =
      let (v', k, e) =
        handle_all-Good t.events (record d { framer = t.framer })
          (record { events = v.events; times = v.times }) in
      ground arith

  on_data-Good :
      (d : Device T.State) (bytes : List ℕ) (now : ℕ) → IsBounded d → Good d (on_data T d bytes now)
  unfolding on_data
  on_data-Good d [] now v = ground (arith, take_fed-Good d (expire d.framer) now v)
  on_data-Good d (b ∷ bs) now v = take_fed-Good d (feed d.framer (b ∷ bs)) now v

  watch_stream-Good : (d : Device T.State) (now : ℕ) → IsBounded d → Good d (watch_stream T d now)
  unfolding watch_stream
  watch_stream-Good d now v = ground arith

  on_end-Good : (d : Device T.State) (replay : Bool) → IsBounded d → Good d (on_end T d replay)
  unfolding on_end
  on_end-Good d false v = ground arith
  on_end-Good d true v = ground arith

  ended-Good :
      (d d' : Device T.State) (e : Error)
      → Good d d'
      → Good d (record (queue (failure e) d') { reading = false })
  ended-Good d d' e (v, k, t) = ground (arith, queue-Good (failure e) d' v)

  on_read-Good : (d : Device T.State) (r : Result (List ℕ)) → IsBounded d → Good d (on_read T d r)
  unfolding on_read
  on_read-Good d (ok bytes) v =
      let now : ℕ = T.now d.transport in
      let (v', k, t) = on_data-Good d bytes now v in
      let (v'', k', t') = watch_stream-Good (on_data T d bytes now) now v' in
      (v'', Keeps-trans k k', t' ∙ t)
  on_read-Good d (err eof_error) v =
      ended-Good d _ eof_error (on_end-Good d (is_replay T d.transport) v)
  on_read-Good d (err Error.keyboard_interrupt) v = ground arith
  on_read-Good d (err _) v = ended-Good d (fail_with Fault.read_failed d) os_error (ground arith)

  abbrev pub idled_when : T.State → Bool → T.State
  idled_when s true = (T.read s).1
  idled_when s false = T.rest s

  -- The transport's state after one step of waiting.
  abbrev pub idled : Device T.State → T.State
  idled d = idled_when d.transport d.reading

  abbrev pub Waited : Device T.State → Device T.State → T.State → Type 0
  Waited d d' s = IsBounded d' × Keeps d d' × (d'.transport ≡ s)

  idle_when-Good :
      (d : Device T.State) (b : Bool)
      → IsBounded d
      → Waited d (idle_when T d b) (idled_when d.transport b)
  unfolding idle_when
  idle_when-Good d false v = ground arith
  idle_when-Good d true v =
      let s : T.State = (T.read d.transport).1 in
      let (v', k, t) =
        on_read-Good (record d { transport = s }) (T.read d.transport).0
          (record { events = v.events; times = v.times }) in
      (
        v',
        record {
          settings = k.settings;
          info = k.info;
          model = k.model;
          configuration = k.configuration;
          changed = k.changed;
          is_open = k.is_open;
          stream_since = k.stream_since;
        },
        t,
      )

  -- One step of waiting keeps the limits and all that the reader does not own.
  pub idle-Good : (d : Device T.State) → IsBounded d → Waited d (idle T d) (idled d)
  unfolding idle
  idle-Good d v = idle_when-Good d d.reading v
