-- ===== src/Protocol/Framing/Offsets.antt =====
-- The offsets of the candidates that `feed` of src/lms200/protocol/framing.py shows its observer.
use gepruft_lidar.Prelude.{
  ℕ, zero, suc, ◌+◌, ◌≤◌, ◌≡◌, refl, sym, ap, ◌∙◌, some, List, [], ◌∷◌, ◌++◌, arith, length, take,
  drop, Option-cases, inl, inr, All, All-append, drop-append, take-append, Bool-cases, length-drop,
  length-take, length-append,
}
use gepruft_lidar.Protocol.Framing.{
  Framer, FrameCandidate, Fed, crc_valid, turn, at_head, round, accept, drain, feed, candidate_of,
  word_at,
}
use gepruft_lidar.Protocol.Framing.Chunks.{drain_stop, drain_go}

take-length : (n : ℕ) (xs : List ℕ) → take (length (take n xs)) xs ≡ take n xs
take-length zero xs = refl
take-length (suc n) [] = refl
take-length (suc n) (x ∷ xs) = ap (◌∷◌ x) (take-length n xs)

-- The bytes of the candidate stand at its offset in the stream.
abbrev pub IsSlice : List ℕ → FrameCandidate → Type 0
IsSlice stream c = (take (length c.raw) (drop c.offset stream) ≡ c.raw) × (c.offset ≤ length stream)

-- The buffer is what has not been discarded of the stream.
abbrev pub IsSuffix : List ℕ → ℕ → List ℕ → Type 0
IsSuffix stream offset buffer = (drop offset stream ≡ buffer) × (offset ≤ length stream)

pub drop_add : (p a : ℕ) (xs : List ℕ) → drop (p + a) xs ≡ drop a (drop p xs)
drop_add zero a xs = ap (λ (n : ℕ). drop n xs) (omega arith)
drop_add (suc p) a [] = drop_nil (suc p + a) ∙ sym (drop_nil a)
  where
    drop_nil : (n : ℕ) → drop {A = ℕ} n [] ≡ []
    drop_nil zero = refl
    drop_nil (suc n) = refl
drop_add (suc p) a (x ∷ xs) =
    let e : suc p + a ≡ suc (p + a) = omega arith in rw e (drop_add p a xs)

module _ (stream : List ℕ) where
  discarded :
      (p n : ℕ) (bs : List ℕ)
      → IsSuffix stream p bs
      → n ≤ length bs
      → IsSuffix stream (p + n) (drop n bs)
  discarded p n bs (e, h) le =
      (drop_add p n stream ∙ ap (drop n) e, omega (arith, h, le, ap length e, length-drop p stream))

  abbrev IsSuffixOf : Framer → Type 0
  IsSuffixOf s = IsSuffix stream s.offset s.buffer

  abbrev IsSliced : Fed → Type 0
  IsSliced t = IsSuffixOf t.framer × All (IsSlice stream) t.observed

  candidate-IsSlice :
      (s : Framer) (total : ℕ) → IsSuffixOf s → IsSlice stream (candidate_of s total)
  candidate-IsSlice s total (e, h) =
      (ap (take (length (take total s.buffer))) e ∙ take-length total s.buffer, h)

  accept-IsSliced :
      (s : Framer) (total : ℕ)
      → IsSuffixOf s
      → 1 ≤ total
      → total ≤ length s.buffer
      → IsSliced (accept s total)
  unfolding accept
  accept-IsSliced s total v lo hi = elim (Bool-cases (crc_valid (candidate_of s total))) [
    | inl e ↦ rw e (discarded s.offset total s.buffer v hi, (candidate-IsSlice s total v, tt))
    | inr e ↦
        rw e (
          discarded s.offset 1 s.buffer v (omega (arith, lo, hi)),
          (candidate-IsSlice s total v, tt),
        )
  ]

  round-IsSliced :
      (s : Framer) (first : ℕ) (t : Fed)
      → IsSuffixOf s
      → 1 ≤ length s.buffer
      → round s first ≡ some t
      → IsSliced t
  unfolding round
  round-IsSliced s first t v h e =
      ground
        (arith, discarded s.offset 1 s.buffer v h, accept-IsSliced s (word_at s.buffer 2 + 6) v)

  at_head-IsSliced :
      (s : Framer) (bs : List ℕ) (t : Fed)
      → bs ≡ s.buffer
      → IsSuffixOf s
      → at_head s bs ≡ some t
      → IsSliced t
  unfolding at_head
  at_head-IsSliced s [] t p v e = cc
  at_head-IsSliced s (b ∷ bs) t p v e = round-IsSliced s b t v (omega (arith, ap length p)) e

  turn-IsSliced : (s : Framer) (t : Fed) → IsSuffixOf s → turn s ≡ some t → IsSliced t
  unfolding turn
  turn-IsSliced s t v e = at_head-IsSliced s s.buffer t refl v e

  drain-IsSliced : (n : ℕ) (s : Framer) → IsSuffixOf s → IsSliced (drain n s)
  drain-IsSliced zero s v = unfold drain in (v, tt)
  drain-IsSliced (suc n) s v = elim (Option-cases (turn s)) [
    | inl e ↦ rw (drain_stop (suc n) s e) (v, tt)
    | inr (t, e) ↦
        let (v', slices) = turn-IsSliced s t v e in
        let (v'', more) = drain-IsSliced n t.framer v' in
        rw (drain_go n s t e)
          (v'', All-append (IsSlice stream) t.observed (drain n t.framer).observed slices more)
  ]

-- When the bytes of a read go to the end of the stream, the framer's buffer stays what has not been
-- discarded of the stream, and each candidate that the observer is shown has the bytes that stand at
-- its offset in the stream.
pub feed-IsSliced :
    (s : Framer) (stream bytes : List ℕ)
    → IsSuffix stream s.offset s.buffer
    → IsSuffix (stream ++ bytes) (feed s bytes).framer.offset (feed s bytes).framer.buffer
      × All (IsSlice (stream ++ bytes)) (feed s bytes).observed
unfolding feed
feed-IsSliced s stream bytes (e, h) =
    drain-IsSliced (stream ++ bytes) (length (s.buffer ++ bytes))
      (record s { buffer = s.buffer ++ bytes })
      (
        drop-append s.offset stream bytes h ∙ ap (λ (xs : List ℕ). xs ++ bytes) e,
        omega (arith, h, length-append stream bytes),
      )

-- A candidate keeps its place as the stream grows.
pub IsSlice-append :
    (stream bytes : List ℕ) (c : FrameCandidate) → IsSlice stream c → IsSlice (stream ++ bytes) c
IsSlice-append stream bytes c (e, h) = (
  ap (take (length c.raw)) (drop-append c.offset stream bytes h)
      ∙ (take-append (length c.raw) (drop c.offset stream) bytes
            (omega (arith, ap length e, length-take (length c.raw) (drop c.offset stream)))
          ∙ e),
  omega (arith, h, length-append stream bytes),
)
