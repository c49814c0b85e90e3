-- ===== src/Protocol/Framing/Matched.antt =====
-- The frames that `feed` of src/lms200/protocol/framing.py returns, and the candidates that it shows
-- its observer.
use gepruft_lidar.Prelude.{
  ℕ, zero, suc, ◌+◌, ◌≡◌, refl, sym, ap, ◌∙◌, some, List, [], ◌∷◌, ◌++◌, arith, length,
  Option-cases, inl, inr, if◌then◌else◌,
}
use gepruft_lidar.Protocol.Framing.{
  Framer, FrameCandidate, Event, Fed, crc_valid, turn, at_head, round, accept, drain, feed, frame,
  control, word_at,
}
use gepruft_lidar.Protocol.Framing.Chunks.{drain_stop, drain_go}

-- The raw bytes of the frames among the events, and of the valid ones among the candidates.
abbrev pub frames : List Event → List (List ℕ)
frames [] = []
frames (frame f ∷ events) = f.raw ∷ frames events
frames (control c ∷ events) = frames events

abbrev pub valid : List FrameCandidate → List (List ℕ)
valid [] = []
valid (c ∷ cs) = if crc_valid c then c.raw ∷ valid cs else valid cs

frames-append : (xs ys : List Event) → frames (xs ++ ys) ≡ frames xs ++ frames ys
frames-append [] ys = refl
frames-append (frame f ∷ xs) ys = ap (◌∷◌ f.raw) (frames-append xs ys)
frames-append (control c ∷ xs) ys = frames-append xs ys

valid-append : (xs ys : List FrameCandidate) → valid (xs ++ ys) ≡ valid xs ++ valid ys
valid-append [] ys = refl
valid-append (c ∷ xs) ys = ground (arith, valid-append xs ys)

-- Each frame comes with the candidate that it was.
abbrev pub IsMatched : Fed → Type 0
IsMatched t = frames t.events ≡ valid t.observed

accept-IsMatched : (s : Framer) (total : ℕ) → IsMatched (accept s total)
unfolding accept
accept-IsMatched s total = ground arith

round-IsMatched : (s : Framer) (first : ℕ) (t : Fed) → round s first ≡ some t → IsMatched t
unfolding round
round-IsMatched s first t e = ground (arith, accept-IsMatched s (word_at s.buffer 2 + 6))

at_head-IsMatched : (s : Framer) (bs : List ℕ) (t : Fed) → at_head s bs ≡ some t → IsMatched t
unfolding at_head
at_head-IsMatched s [] t e = cc
at_head-IsMatched s (b ∷ bs) t e = round-IsMatched s b t e

turn-IsMatched : (s : Framer) (t : Fed) → turn s ≡ some t → IsMatched t
unfolding turn
turn-IsMatched s t e = at_head-IsMatched s s.buffer t e

drain-IsMatched : (n : ℕ) (s : Framer) → IsMatched (drain n s)
drain-IsMatched zero s = unfold drain in refl
drain-IsMatched (suc n) s = elim (Option-cases (turn s)) [
  | inl e ↦ rw (drain_stop (suc n) s e) refl
  | inr (t, e) ↦ rw (drain_go n s t e) (
      frames-append t.events (drain n t.framer).events
      ∙ rw (turn-IsMatched s t e, drain-IsMatched n t.framer)
          (sym (valid-append t.observed (drain n t.framer).observed)))
]

-- For each frame that `feed` returns, in their order, its observer was shown a candidate with a
-- valid checksum and the frame's bytes, and no other valid candidate.
pub feed-IsMatched : (s : Framer) (bytes : List ℕ) → IsMatched (feed s bytes)
unfolding feed
feed-IsMatched s bytes =
    drain-IsMatched (length (s.buffer ++ bytes)) (record s { buffer = s.buffer ++ bytes })
