-- ===== src/Service/Accounts.antt =====
-- What src/lms200/service.py delivers: to a subscriber, and to a recording.
pub mod Session
use gepruft_lidar.Prelude.{
  ℕ, zero, suc, ◌+◌, ◌-◌, ◌≤◌, ◌<◌, ◌≡◌, refl, sym, ap, ◌∙◌, subst, Bool, true, false, not, Option,
  none, some, List, [], ◌∷◌, ◌++◌, length, drop, leb, ltb, if◌then◌else◌, arith, All, map,
  append-nil, append_assoc, length-append, length-drop, drop-append, take, drop_whole,
}
use gepruft_lidar.Protocol.Measurements.{Scan}
use gepruft_lidar.Recording.{Recorder, create, write, close}
use gepruft_lidar.Recording.Replay.RoundTrip.{write_all}
use gepruft_lidar.Service.Fanout.{
  Fanout, init, put_newest, put_each, full_queues, publish_record, publish, record_one, record_with,
  record_next, finish, stop_recording, stop_with,
}

abbrev pub publish_all : List Scan → Fanout → Fanout
publish_all [] s = s
publish_all (scan ∷ scans) s = publish_all scans (publish scan s)

-- The last two of a list.
abbrev pub newest : List Scan → List Scan
newest scans = drop (length scans - 2) scans

-- A subscriber's queue holds two scans at most.
abbrev pub IsShort : List Scan → Type 0
IsShort queue = length queue ≤ 2

put_newest_lem :
    (scan : Scan) (queue : List Scan)
    → IsShort queue
    → put_newest scan queue ≡ newest (queue ++ scan ∷ [])
put_newest_lem scan [] h = refl
put_newest_lem scan (x ∷ []) h = refl
put_newest_lem scan (x ∷ y ∷ []) h = refl
put_newest_lem scan (x ∷ y ∷ z ∷ zs) h = absurd (omega arith)

newest_more : (a : Scan) (scans : List Scan) → 2 ≤ length scans → newest (a ∷ scans) ≡ newest scans
newest_more a scans h =
    ap (λ (n : ℕ). drop n (a ∷ scans))
      (let e : suc (length scans) - 2 ≡ suc (length scans - 2) = omega (arith, h) in e)

put_newest_more :
    (scan : Scan) (queue scans : List Scan)
    → IsShort queue
    → newest (put_newest scan queue ++ scans) ≡ newest (queue ++ scan ∷ scans)
put_newest_more scan [] scans h = refl
put_newest_more scan (x ∷ []) scans h = refl
put_newest_more scan (x ∷ y ∷ []) scans h = sym (newest_more x (y ∷ scan ∷ scans) (omega arith))
put_newest_more scan (x ∷ y ∷ z ∷ zs) scans h = absurd (omega arith)

put_newest-IsShort :
    (scan : Scan) (queue : List Scan) → IsShort queue → IsShort (put_newest scan queue)
put_newest-IsShort scan queue h = ground (
  arith,
  length-drop 1 queue,
  length-append (drop 1 queue) (scan ∷ []),
  length-append queue (scan ∷ []),
)

put_each-IsShort :
    (scan : Scan) (queues : List (List Scan))
    → All IsShort queues
    → All IsShort (put_each scan queues)
put_each-IsShort scan [] h = tt
put_each-IsShort scan (queue ∷ queues) h =
    (put_newest-IsShort scan queue h.0, put_each-IsShort scan queues h.1)

-- What a subscriber holds that does not read while the scans are published.
abbrev pub delivered : List Scan → List (List Scan) → List (List Scan)
delivered scans = map λ queue. newest (queue ++ scans)

delivered-put_each :
    (scan : Scan) (scans : List Scan) (queues : List (List Scan))
    → All IsShort queues
    → delivered scans (put_each scan queues) ≡ delivered (scan ∷ scans) queues
delivered-put_each scan scans [] h = refl
delivered-put_each scan scans (queue ∷ queues) h =
    rw (put_newest_more scan queue scans h.0, delivered-put_each scan scans queues h.1) refl

delivered_none : (queues : List (List Scan)) → All IsShort queues → delivered [] queues ≡ queues
delivered_none [] h = refl
delivered_none (queue ∷ queues) h =
    rw
      (
        append-nil queue,
        delivered_none queues h.1,
        (let e : length queue - 2 ≡ 0 = omega (arith, h.0) in e),
      )
      refl

publish_subscribers :
    (scan : Scan) (s : Fanout) → (publish scan s).subscribers ≡ put_each scan s.subscribers
unfolding publish
publish_subscribers scan s = recorded_subscribers s.recorder
  where
    recorded_subscribers :
        (r : Option Recorder)
        → (publish_record scan r (record s {
          subscribers = put_each scan s.subscribers;
          client_drops = s.client_drops + full_queues s.subscribers;
        })).subscribers
          ≡ put_each scan s.subscribers
    recorded_subscribers none = refl
    recorded_subscribers (some r) = ground arith

-- However many scans are published, a subscriber that does not read holds the last two of all that
-- were put in its queue, if its queue held two at most before.
pub subscribers_hold_newest :
    (scans : List Scan) (s : Fanout)
    → All IsShort s.subscribers
    → (publish_all scans s).subscribers ≡ delivered scans s.subscribers
subscribers_hold_newest [] s h = sym (delivered_none s.subscribers h)
subscribers_hold_newest (scan ∷ scans) s h =
    let e : (publish scan s).subscribers ≡ put_each scan s.subscribers =
      publish_subscribers scan s in
    subscribers_hold_newest scans (publish scan s) (
      subst (λ (qs : List (List Scan)). All IsShort qs) (sym e)
        (put_each-IsShort scan s.subscribers h))
    ∙ (ap (delivered scans) e ∙ delivered-put_each scan scans s.subscribers h)
