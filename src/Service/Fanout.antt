-- ===== src/Service/Fanout.antt =====
-- src/lms200/service.py: the queues of the service and its recording.
use gepruft_lidar.Prelude.{
  ℕ, suc, ◌+◌, Bool, true, not, Option, none, some, List, [], ◌∷◌, ◌++◌, length, drop, leb,
  if◌then◌else◌,
}
use gepruft_lidar.Prelude.Result.{Result, ok, err, value_error, os_error}
use gepruft_lidar.Protocol.Measurements.{Scan}
use gepruft_lidar.Recording.{Recorder, create, write, close}
use gepruft_lidar.Device.{Phase, is_streaming}

-- The queue of a recording ends with `None`; `finished` are the recorders that were closed.
pub record Fanout : Type 0 where
  pub subscribers : List (List Scan)
  pub client_drops : ℕ
  pub record_drops : ℕ
  pub recorder : Option Recorder
  pub record_queue : List (Option Scan)
  pub finished : List Recorder

-- Service.__init__
abbrev pub init : Fanout
init = record {
  subscribers = [];
  client_drops = 0;
  record_drops = 0;
  recorder = none;
  record_queue = [];
  finished = [];
}

-- A full queue loses its oldest scan.
abbrev pub put_newest : Scan → List Scan → List Scan
put_newest scan queue =
    if leb 2 (length queue) then drop 1 queue ++ scan ∷ [] else queue ++ scan ∷ []

abbrev pub put_each : Scan → List (List Scan) → List (List Scan)
put_each scan [] = []
put_each scan (queue ∷ queues) = put_newest scan queue ∷ put_each scan queues

abbrev pub full_queues : List (List Scan) → ℕ
full_queues [] = 0
full_queues (queue ∷ queues) =
    if leb 2 (length queue) then suc (full_queues queues) else full_queues queues

abbrev pub publish_record : Scan → Option Recorder → Fanout → Fanout
publish_record scan none s = s
publish_record scan (some r) s =
    if not r.closed
    then (if leb 128 (length s.record_queue)
        then record s { record_drops = s.record_drops + 1 }
        else record s { record_queue = s.record_queue ++ some scan ∷ [] })
    else s

-- Service.publish
unfoldable pub publish : Scan → Fanout → Fanout
publish scan s = publish_record scan s.recorder (record s {
  subscribers = put_each scan s.subscribers;
  client_drops = s.client_drops + full_queues s.subscribers;
})

-- Service.subscribe
abbrev pub subscribe : Fanout → Fanout
subscribe s = record s { subscribers = s.subscribers ++ [] ∷ [] }

abbrev pub begin_recording : Option Recorder → Fanout → Fanout
begin_recording (some r) s = s
begin_recording none s = record s { recorder = some (create true); record_queue = [] }

-- Service.start_recording
unfoldable pub start_recording : Phase → Fanout → Result (Unit {0}) × Fanout
start_recording phase s =
    if not (is_streaming phase) then (err value_error, s) else (ok tt, begin_recording s.recorder s)

-- The disk tells whether it refuses a write.
module _ (refuses : Recorder → Scan → Bool) where
  abbrev pub disk_write : Scan → Recorder → Result (Unit {0}) × Recorder
  disk_write scan r = if refuses r scan then (err os_error, r) else write scan r

  abbrev pub recorded : Result (Unit {0}) × Recorder → List (Option Scan) → Fanout → Fanout
  recorded (ok _, r) queue s = record s { recorder = some r; record_queue = queue }
  recorded (err _, r) queue s = record s {
    recorder = none;
    record_queue = queue;
    record_drops = s.record_drops + (length queue + 1);
    finished = s.finished ++ close r ∷ [];
  }

  abbrev pub record_next : Recorder → List (Option Scan) → Fanout → Fanout
  record_next r [] s = s
  record_next r (none ∷ queue) s = record s {
    recorder = none;
    record_queue = queue;
    finished = s.finished ++ close r ∷ [];
  }
  record_next r (some scan ∷ queue) s = recorded (disk_write scan r) queue s

  abbrev pub record_with : Option Recorder → Fanout → Fanout
  record_with none s = s
  record_with (some r) s = record_next r s.record_queue s

  -- A round of Service._record
  unfoldable pub record_one : Fanout → Fanout
  record_one s = record_with s.recorder s

  -- `await task`: a round for each item of the queue.
  unfoldable pub finish : List (Option Scan) → Fanout → Fanout
  unfolding record_one
  finish [] s = s
  finish (item ∷ items) s = finish items (record_one s)

  abbrev pub stop_with : Option Recorder → Fanout → Fanout
  stop_with none s = s
  stop_with (some r) s =
      let queue : List (Option Scan) = s.record_queue ++ none ∷ [] in
      finish queue (record s { record_queue = queue })

  -- Service.stop_recording
  unfoldable pub stop_recording : Fanout → Fanout
  unfolding finish
  stop_recording s = stop_with s.recorder s
