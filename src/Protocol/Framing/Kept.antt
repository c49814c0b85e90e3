-- ===== src/Protocol/Framing/Kept.antt =====
-- What a round of `feed` (src/lms200/protocol/framing.py) leaves of its buffer, and how a frame is
-- cut from its raw bytes.
use gepruft_lidar.Prelude.{
  ℕ, zero, suc, ◌+◌, ◌≤◌, ◌≡◌, refl, ap, ◌∙◌, some, List, [], ◌∷◌, ◌++◌, arith, length, length-drop,
  drop, get_or, Option-cases, Bool-cases, inl, inr, All, All-append,
}
use gepruft_lidar.Protocol.Framing.{
  Framer, Frame, Event, Fed, frame, control, crc_valid, candidate_of, turn, at_head, round, accept,
  drain, feed, word_at, payload_of,
}
use gepruft_lidar.Protocol.Framing.Chunks.{drain_stop, drain_go}
use gepruft_lidar.Protocol.Framing.Offsets.{drop_add}

-- The second list is an end of the first.
abbrev pub IsTail : List ℕ → List ℕ → Type 0
IsTail xs ys = (k : ℕ) × (k ≤ length xs) × (drop k xs ≡ ys)

IsTail-trans : (xs ys zs : List ℕ) → IsTail xs ys → IsTail ys zs → IsTail xs zs
IsTail-trans xs ys zs (k, h, e) (l, h', e') = (
  k + l,
  omega (arith, h, h', ap length e, length-drop k xs),
  drop_add k l xs ∙ ap (drop l) e ∙ e',
)

-- The address and the payload of a frame are those that stand in its raw bytes.
abbrev pub IsCut : Frame → Type 0
IsCut f = (f.address ≡ get_or f.raw 1 0) × (f.payload ≡ payload_of f.raw)

abbrev pub IsCutEvent : Event → Type 0
IsCutEvent (frame f) = IsCut f
IsCutEvent (control c) = Unit

abbrev pub IsKept : List ℕ → Fed → Type 0
IsKept xs t = All IsCutEvent t.events × IsTail xs t.framer.buffer

accept-IsKept :
    (s : Framer) (total : ℕ)
    → 1 ≤ total
    → total ≤ length s.buffer
    → IsKept s.buffer (accept s total)
unfolding accept
accept-IsKept s total lo hi = elim (Bool-cases (crc_valid (candidate_of s total))) [
  | inl e ↦ rw e (((refl, refl), tt), (total, hi, refl))
  | inr e ↦ rw e (tt, (1, omega (arith, lo, hi), refl))
]

round-IsKept :
    (s : Framer) (first : ℕ) (t : Fed)
    → 1 ≤ length s.buffer
    → round s first ≡ some t
    → IsKept s.buffer t
unfolding round
round-IsKept s first t h e =
    let one : IsTail s.buffer (drop 1 s.buffer) = (1, h, refl) in
    ground (arith, one, accept-IsKept s (word_at s.buffer 2 + 6))

at_head-IsKept :
    (s : Framer) (bs : List ℕ) (t : Fed) → bs ≡ s.buffer → at_head s bs ≡ some t → IsKept s.buffer t
unfolding at_head
at_head-IsKept s [] t p e = cc
at_head-IsKept s (b ∷ bs) t p e = round-IsKept s b t (omega (arith, ap length p)) e

turn-IsKept : (s : Framer) (t : Fed) → turn s ≡ some t → IsKept s.buffer t
unfolding turn
turn-IsKept s t e = at_head-IsKept s s.buffer t refl e

drain-IsKept : (n : ℕ) (s : Framer) → IsKept s.buffer (drain n s)
drain-IsKept zero s = unfold drain in (tt, (0, omega arith, refl))
drain-IsKept (suc n) s = elim (Option-cases (turn s)) [
  | inl e ↦ rw (drain_stop (suc n) s e) (tt, (0, omega arith, refl))
  | inr (t, e) ↦
      let (cut, tail) = turn-IsKept s t e in
      let (more, left) = drain-IsKept n t.framer in
      rw (drain_go n s t e) (
        All-append IsCutEvent t.events (drain n t.framer).events cut more,
        IsTail-trans s.buffer t.framer.buffer _ tail left,
      )
]

pub feed-IsKept : (s : Framer) (bytes : List ℕ) → IsKept (s.buffer ++ bytes) (feed s bytes)
unfolding feed
feed-IsKept s bytes =
    drain-IsKept (length (s.buffer ++ bytes)) (record s { buffer = s.buffer ++ bytes })
