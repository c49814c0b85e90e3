-- ===== src/Service/Accounts/Session.antt =====
-- A recording of src/lms200/service.py from its start to its end, with publishing and the task that
-- records in any order, on a disk that takes every write.
use gepruft_lidar.Prelude.{
  ℕ, suc, ◌+◌, ◌≡◌, refl, sym, ap, ◌∙◌, Bool, true, false, Option, none, some, List, [], ◌∷◌, ◌++◌,
  length, leb, arith, map, append-nil, append_assoc, length-append, subst, Bool-cases, inl, inr,
}
use gepruft_lidar.Protocol.Measurements.{Scan}
use gepruft_lidar.Recording.{Recorder, create, write, close}
use gepruft_lidar.Recording.Replay.RoundTrip.{write_all}
use gepruft_lidar.Service.Fanout.{
  Fanout, put_each, full_queues, publish_record, publish, record_one, record_with, record_next,
  recorded, finish, stop_recording, stop_with, start_recording, begin_recording,
}
use gepruft_lidar.Prelude.Result.{Result, ok}
use gepruft_lidar.Device.{Phase}

abbrev pub accepts : Recorder → Scan → Bool
accepts r scan = false

pub data Step : Type 0 where
  publishes : Scan → Step
  records : Step

abbrev pub run : List Step → Fanout → Fanout
run [] s = s
run (publishes scan ∷ steps) s = run steps (publish scan s)
run (records ∷ steps) s = run steps (record_one accepts s)

abbrev pub published : List Step → List Scan
published [] = []
published (publishes scan ∷ steps) = scan ∷ published steps
published (records ∷ steps) = published steps

-- The first list is the second with some scans left out.
pub data IsPartOf : List Scan → List Scan → Type 0 where
  empty : IsPartOf [] []
  kept : (scan : Scan) {a b : List Scan} → IsPartOf a b → IsPartOf (a ++ scan ∷ []) (b ++ scan ∷ [])
  left_out : (scan : Scan) {a b : List Scan} → IsPartOf a b → IsPartOf a (b ++ scan ∷ [])

abbrev pub file_of : List Scan → Recorder
file_of scans = write_all scans (create true)

-- The state during a recording: the recorder has written some scans, the queue holds others, and
-- with the dropped ones they are `all` that was published.
record IsRecording (drops : ℕ) (all : List Scan) (before : List Recorder)
    (written queued : List Scan) (s : Fanout) : Type 0 where
  recorder : s.recorder ≡ some (file_of written)
  queue : s.record_queue ≡ map some queued
  part : IsPartOf (written ++ queued) all
  balance : length written + length queued + s.record_drops ≡ drops + length all
  before_it : s.finished ≡ before

write_all_open :
    (scans : List Scan) (r : Recorder) → r.closed ≡ false → (write_all scans r).closed ≡ false
unfolding write
write_all_open [] r h = h
write_all_open (scan ∷ scans) r h = write_all_open scans (write scan r).1 (rw h refl)

write_all-append :
    (a b : List Scan) (r : Recorder) → write_all (a ++ b) r ≡ write_all b (write_all a r)
write_all-append [] b r = refl
write_all-append (scan ∷ a) b r = write_all-append a b (write scan r).1

map-append : (a b : List Scan) → map some (a ++ b) ≡ map some a ++ map some b
map-append [] b = refl
map-append (x ∷ a) b = ap (λ (xs : List (Option Scan)). some x ∷ xs) (map-append a b)

length-map : (a : List Scan) → length (map {B = Option Scan} some a) ≡ length a
length-map [] = refl
length-map (x ∷ a) = ap suc (length-map a)

-- The subscribers' part of `publish`.
abbrev fanned : Scan → Fanout → Fanout
fanned scan s = record s {
  subscribers = put_each scan s.subscribers;
  client_drops = s.client_drops + full_queues s.subscribers;
}

abbrev offered : Scan → Bool → Fanout → Fanout
offered scan true s = record (fanned scan s) { record_drops = s.record_drops + 1 }
offered scan false s = record (fanned scan s) { record_queue = s.record_queue ++ some scan ∷ [] }

publish-offered :
    (scan : Scan) (s : Fanout) (r : Recorder)
    → s.recorder ≡ some r
    → r.closed ≡ false
    → publish scan s ≡ offered scan (leb 128 (length s.record_queue)) s
unfolding publish
publish-offered scan s r e h =
    ap (λ (o : Option Recorder). publish_record scan o (fanned scan s)) e
    ∙ elim (Bool-cases (leb 128 (length s.record_queue))) [
      | inl t ↦ rw (h, t) refl
      | inr t ↦ rw (h, t) refl
    ]

-- What holds of a recording in which `all` was published.
abbrev Recording : ℕ → List Scan → List Recorder → Fanout → Type 0
Recording drops all before s =
    (written : List Scan) × (queued : List Scan) × IsRecording drops all before written queued s

publish-Recording :
    (scan : Scan) (drops : ℕ) (all : List Scan) (before : List Recorder) (s : Fanout)
    → Recording drops all before s
    → Recording drops (all ++ scan ∷ []) before (publish scan s)
publish-Recording scan drops all before s (written, queued, v) =
    rw
      (publish-offered scan s (file_of written) v.recorder
        (write_all_open written (create true) refl))
      (elim (Bool-cases (leb 128 (length s.record_queue))) [
        | inl t ↦ rw t (
          written,
          queued,
          record {
            recorder = v.recorder;
            queue = v.queue;
            part = left_out scan v.part;
            balance = omega (arith, v.balance, length-append all (scan ∷ []));
            before_it = v.before_it;
          },
        )
        | inr t ↦ rw t (
          written,
          queued ++ scan ∷ [],
          record {
            recorder = v.recorder;
            queue =
                ap (λ (q : List (Option Scan)). q ++ some scan ∷ []) v.queue
                ∙ sym (map-append queued (scan ∷ []));
            part =
                subst (λ (xs : List Scan). IsPartOf xs (all ++ scan ∷ []))
                  (append_assoc written queued (scan ∷ [])) (kept scan v.part);
            balance =
                omega (
                  arith,
                  v.balance,
                  length-append queued (scan ∷ []),
                  length-append all (scan ∷ []),
                );
            before_it = v.before_it;
          },
        )
      ])

write_ok :
    (scan : Scan) (r : Recorder) → r.closed ≡ false → write scan r ≡ (ok tt, (write scan r).1)
unfolding write
write_ok scan r h = rw h refl

-- A round that finds a scan writes it.
record_one_writes :
    (s : Fanout) (written : List Scan) (scan : Scan) (rest : List (Option Scan))
    → s.recorder ≡ some (file_of written)
    → s.record_queue ≡ some scan ∷ rest
    → record_one accepts s
      ≡ record s { recorder = some (file_of (written ++ scan ∷ [])); record_queue = rest }
unfolding record_one
record_one_writes s written scan rest e q =
    ap (λ (o : Option Recorder). record_with accepts o s) e
    ∙ (ap (λ (items : List (Option Scan)). record_next accepts (file_of written) items s) q
        ∙ (ap (λ (r : Result (Unit {0}) × Recorder). recorded accepts r rest s)
              (write_ok scan (file_of written) (write_all_open written (create true) refl))
            ∙ ap (λ (r : Recorder). record s { recorder = some r; record_queue = rest })
                (sym (write_all-append written (scan ∷ []) (create true)))))

record_one_waits :
    (s : Fanout) (r : Recorder)
    → s.recorder ≡ some r
    → s.record_queue ≡ []
    → record_one accepts s ≡ s
unfolding record_one
record_one_waits s r e q =
    ap (λ (o : Option Recorder). record_with accepts o s) e
    ∙ ap (λ (items : List (Option Scan)). record_next accepts r items s) q

record_one-Recording :
    (drops : ℕ) (all : List Scan) (before : List Recorder) (s : Fanout)
    → Recording drops all before s
    → Recording drops all before (record_one accepts s)
record_one-Recording drops all before s (written, [], v) =
    rw (record_one_waits s (file_of written) v.recorder v.queue) (written, [], v)
record_one-Recording drops all before s (written, scan ∷ queued, v) =
    rw (record_one_writes s written scan (map some queued) v.recorder v.queue) (
      written ++ scan ∷ [],
      queued,
      record {
        recorder = refl;
        queue = refl;
        part =
            subst (λ (xs : List Scan). IsPartOf xs all)
              (sym (append_assoc written (scan ∷ []) queued)) v.part;
        balance = omega (arith, v.balance, length-append written (scan ∷ []));
        before_it = v.before_it;
      },
    )

run-Recording :
    (steps : List Step) (drops : ℕ) (all : List Scan) (before : List Recorder) (s : Fanout)
    → Recording drops all before s
    → Recording drops (all ++ published steps) before (run steps s)
run-Recording [] drops all before s v =
    subst (λ (xs : List Scan). Recording drops xs before s) (sym (append-nil all)) v
run-Recording (publishes scan ∷ steps) drops all before s v =
    subst (λ (xs : List Scan). Recording drops xs before (run steps (publish scan s)))
      (append_assoc all (scan ∷ []) (published steps))
      (run-Recording steps drops (all ++ scan ∷ []) before (publish scan s)
        (publish-Recording scan drops all before s v))
run-Recording (records ∷ steps) drops all before s v =
    run-Recording steps drops all before (record_one accepts s)
      (record_one-Recording drops all before s v)

-- The rounds at the end write what is in the queue, and the last closes the recorder.
finish_lem :
    (queued written : List Scan) (s : Fanout)
    → s.recorder ≡ some (file_of written)
    → s.record_queue ≡ map some queued ++ none ∷ []
    → finish accepts (map some queued ++ none ∷ []) s ≡ record s {
      recorder = none;
      record_queue = [];
      finished = s.finished ++ close (file_of (written ++ queued)) ∷ [];
    }
unfolding finish
finish_lem [] written s e q =
    unfold record_one in
    (ap (λ (o : Option Recorder). record_with accepts o s) e
      ∙ (ap (λ (items : List (Option Scan)). record_next accepts (file_of written) items s) q
          ∙ ap
              (λ (w : List Scan). record s {
                recorder = none;
                record_queue = [];
                finished = s.finished ++ close (file_of w) ∷ [];
              })
              (sym (append-nil written))))
finish_lem (scan ∷ queued) written s e q =
    ap (finish accepts (map some queued ++ none ∷ []))
      (record_one_writes s written scan (map some queued ++ none ∷ []) e q)
    ∙ (finish_lem queued (written ++ scan ∷ [])
          (record s {
            recorder = some (file_of (written ++ scan ∷ []));
            record_queue = map some queued ++ none ∷ [];
          })
          refl refl
        ∙ ap
            (λ (w : List Scan). record s {
              recorder = none;
              record_queue = [];
              finished = s.finished ++ close (file_of w) ∷ [];
            })
            (append_assoc written (scan ∷ []) queued))

stop_lem :
    (drops : ℕ) (all : List Scan) (before : List Recorder) (s : Fanout)
    → Recording drops all before s
    → (scans : List Scan) × IsPartOf scans all
      × (length scans + s.record_drops ≡ drops + length all)
      × ((stop_recording accepts s).finished ≡ before ++ close (file_of scans) ∷ [])
unfolding stop_recording
stop_lem drops all before s (written, queued, v) =
    let queue : List (Option Scan) = s.record_queue ++ none ∷ [] in
    let same_queue : queue ≡ map some queued ++ none ∷ [] =
      ap (λ (q : List (Option Scan)). q ++ none ∷ []) v.queue in
    let end : finish accepts queue (record s { record_queue = queue })
        ≡ finish accepts (map some queued ++ none ∷ [])
            (record s { record_queue = map some queued ++ none ∷ [] }) =
      ap (λ (q : List (Option Scan)). finish accepts q (record s { record_queue = q }))
        same_queue in
    (
      written ++ queued,
      v.part,
      omega (arith, v.balance, length-append written queued),
      ap (λ (o : Option Recorder). (stop_with accepts o s).finished) v.recorder
          ∙ (ap (λ (x : Fanout). x.finished)
                (end
                  ∙ finish_lem queued written
                      (record s { record_queue = map some queued ++ none ∷ [] }) v.recorder refl)
              ∙ ap (λ (b : List Recorder). b ++ close (file_of (written ++ queued)) ∷ [])
                  v.before_it),
    )

-- On a disk that takes every write, a recording that starts with no other going on, while the
-- scanner streams, goes on through any steps of publishing and of its task, and is stopped, leaves
-- one closed recorder more: the recorder that wrote the published scans in their order but for some
-- left out, which are as many as the recording's drops went up by.
pub recording_accounts :
    (steps : List Step) (s : Fanout)
    → s.recorder ≡ none
    → (scans : List Scan) × IsPartOf scans (published steps)
      × (length scans + (run steps (start_recording Phase.streaming s).1).record_drops
          ≡ s.record_drops + length (published steps))
      × ((stop_recording accepts (run steps (start_recording Phase.streaming s).1)).finished
          ≡ s.finished ++ close (file_of scans) ∷ [])
unfolding start_recording
recording_accounts steps s e =
    stop_lem s.record_drops (published steps) s.finished (run steps (begin_recording s.recorder s))
      (run-Recording steps s.record_drops [] s.finished (begin_recording s.recorder s) (
        rw e (
          [],
          [],
          record {
            recorder = refl;
            queue = refl;
            part = empty;
            balance = omega arith;
            before_it = refl;
          },
        )))
