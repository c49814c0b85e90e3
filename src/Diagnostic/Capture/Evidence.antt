-- ===== src/Diagnostic/Capture/Evidence.antt =====
-- What Capture of src/lms200/hardware_diagnostic.py reports is what the telegrams say.
use gepruft_lidar.Prelude.{
  ℕ, ◌≡◌, refl, sym, ap, ◌∙◌, inl, inr, Bool, true, false, Option, some, List, [], ◌∷◌, ◌++◌, arith,
  All, All-append, Bool-cases, append_assoc, append-nil, subst,
}
use gepruft_lidar.Protocol.Framing.{
  FrameCandidate, Event, Fed, Control, crc_valid, frame, control, feed,
}
use gepruft_lidar.Protocol.Framing.Kept.{IsCutEvent, feed-IsKept}
use gepruft_lidar.Protocol.Framing.Matched.{frames, valid, IsMatched, feed-IsMatched}
use gepruft_lidar.Protocol.Responses.{response}
use gepruft_lidar.Diagnostic.Capture.Answer.{
  IsCredible, same-IsCredible, observe-IsCredible, on_control-IsCredible,
}
use gepruft_lidar.Diagnostic.Capture.{
  Capture, Direction, plain, candidate, observe, on_reply, on_frame, on_control, and_then, process,
  framed_read, read,
}
use gepruft_lidar.Diagnostic.Capture.Queue.{HasEvidence, Waits, candidate-Waits}
use gepruft_lidar.Diagnostic.Capture.Pending.{IsPending, on_reply-Holds}

observe-Waits :
    (cs : List FrameCandidate) (s : Capture) (raws : List (List ℕ))
    → Waits s.telegrams s.valid_candidates raws
    → Waits (observe cs s).telegrams (observe cs s).valid_candidates (raws ++ valid cs)
unfolding observe
observe-Waits [] s raws w = rw (append-nil raws) w
observe-Waits (c ∷ cs) s raws w =
    subst
      (λ (x : List (List ℕ)).
        Waits (observe cs (candidate c s)).telegrams (observe cs (candidate c s)).valid_candidates
          x)
      (append_assoc raws (valid (c ∷ [])) (valid cs)
        ∙ ap (λ (x : List (List ℕ)). raws ++ x) (valid_cons c cs))
      (observe-Waits cs (candidate c s) (raws ++ valid (c ∷ [])) (candidate-Waits c s raws w))
  where
    valid_cons :
        (c : FrameCandidate) (cs : List FrameCandidate)
        → valid (c ∷ []) ++ valid cs ≡ valid (c ∷ cs)
    valid_cons c cs = ground arith

candidate_evidence :
    (c : FrameCandidate) (s : Capture)
    → All HasEvidence s.telegrams
    → All HasEvidence (candidate c s).telegrams
unfolding candidate
candidate_evidence c s v = elim (Bool-cases (crc_valid c)) [
  | inl e ↦ rw e (All-append HasEvidence s.telegrams (plain c ∷ []) v ((inl refl, inl refl), tt))
  | inr e ↦ rw e (All-append HasEvidence s.telegrams (plain c ∷ []) v ((inl refl, inl refl), tt))
]

observe_evidence :
    (cs : List FrameCandidate) (s : Capture)
    → All HasEvidence s.telegrams
    → All HasEvidence (observe cs s).telegrams
unfolding observe
observe_evidence [] s v = v
observe_evidence (c ∷ cs) s v = observe_evidence cs (candidate c s) (candidate_evidence c s v)

-- The state between the reads.
pub record IsSettled (s : Capture) : Type 0 where
  pub empty : s.valid_candidates ≡ []
  pub evidence : All HasEvidence s.telegrams
  pub credible : IsCredible s

-- What the events leave: the queue is empty again, and nothing was missing from it.
abbrev Leaves : Option Capture → Type 0
Leaves o = (s : Capture) × (o ≡ some s) × IsSettled s

on_control-IsPending :
    (c : Control) (phase : Direction) (left queue : List ℕ) (raws : List (List ℕ)) (s : Capture)
    → IsPending left queue raws s
    → IsPending left queue raws (on_control c phase s)
on_control-IsPending Control.ack phase left queue raws s v = record {
  waits = v.waits;
  evidence = v.evidence;
  credible = on_control-IsCredible Control.ack phase s v.credible;
  queue_left = v.queue_left;
}
on_control-IsPending Control.nak phase left queue raws s v = record {
  waits = v.waits;
  evidence = v.evidence;
  credible = on_control-IsCredible Control.nak phase s v.credible;
  queue_left = v.queue_left;
}

process-Leaves :
    (events : List Event) (phase : Direction) (s : Capture) (queue : List ℕ)
    → All IsCutEvent events
    → IsPending queue queue (frames events) s
    → Leaves (process events phase s)
unfolding process
process-Leaves [] phase s [] cs v =
    (s, refl, record { empty = v.queue_left; evidence = v.evidence; credible = v.credible })
process-Leaves [] phase s (i ∷ queue) cs v = absurd v.waits
process-Leaves (control c ∷ events) phase s queue cs v =
    process-Leaves events phase (on_control c phase s) queue cs.1
      (on_control-IsPending c phase queue queue (frames events) s v)
process-Leaves (frame f ∷ events) phase s [] cs v = absurd v.waits
process-Leaves (frame f ∷ events) phase s (i ∷ queue) cs v =
    let next : Capture = on_reply i f (response f 0) (record s { valid_candidates = queue }) in
    let w : IsPending queue (i ∷ queue) (f.raw ∷ frames events) next =
      on_reply-Holds i f cs.0 queue queue (frames events) (response f 0)
        (record s { valid_candidates = queue }) refl
        (record {
          waits = v.waits;
          evidence = v.evidence;
          credible = same-IsCredible s _ refl refl refl refl (λ h. h) v.credible;
          queue_left = refl;
        }) in
    subst (λ (q : List ℕ). Leaves (and_then (on_frame f q s) (process events phase)))
      (sym v.queue_left)
      (process-Leaves events phase next queue cs.1 (record {
        waits = w.waits.1;
        evidence = w.evidence;
        credible = w.credible;
        queue_left = w.queue_left;
      }))

-- The queue that observing leaves, for the frames of the same read.
framed_read-Leaves :
    (t : Fed) (phase : Direction) (s : Capture)
    → All IsCutEvent t.events
    → IsMatched t
    → IsSettled s
    → Leaves (framed_read t phase s)
framed_read-Leaves t phase s cs m v =
    let before : Waits s.telegrams s.valid_candidates [] = rw v.empty tt in
    let o : Capture = observe t.observed s in
    process-Leaves t.events phase (record o { framer = t.framer }) o.valid_candidates cs
      (record {
        waits = rw m (observe-Waits t.observed s [] before);
        evidence = observe_evidence t.observed s v.evidence;
        credible =
            same-IsCredible o _ refl refl refl refl (λ h. h)
              (observe-IsCredible t.observed s v.credible);
        queue_left = refl;
      })

pub read-IsSettled :
    (bytes : List ℕ) (phase : Direction) (framed : Bool) (s : Capture)
    → IsSettled s
    → (s' : Capture) × (read bytes phase framed s ≡ some s') × IsSettled s'
unfolding read
read-IsSettled [] phase framed s v = (s, refl, v)
read-IsSettled (b ∷ bs) phase false s v = (
  record s { raw = s.raw ++ b ∷ bs },
  refl,
  record {
    empty = v.empty;
    evidence = v.evidence;
    credible = same-IsCredible s _ refl refl refl refl (λ h. h) v.credible;
  },
)
read-IsSettled (b ∷ bs) phase true s v =
    framed_read-Leaves (feed s.framer (b ∷ bs)) phase (record s { raw = s.raw ++ b ∷ bs })
      (feed-IsKept s.framer (b ∷ bs)).0 (feed-IsMatched s.framer (b ∷ bs))
      (record {
        empty = v.empty;
        evidence = v.evidence;
        credible = same-IsCredible s _ refl refl refl refl (λ h. h) v.credible;
      })
