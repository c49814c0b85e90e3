-- ===== src/Protocol/Framing/Chunks.antt =====
-- How the stream is cut into reads makes no difference to `feed` (src/lms200/protocol/framing.py).
use gepruft_lidar.Prelude.{
  ℕ, zero, suc, ◌+◌, ◌≤◌, ◌≡◌, refl, sym, ap, ◌∙◌, none, some, List, [], ◌∷◌, ◌++◌, arith, length,
  length-append, get_or-append, take-append, drop-append, Option-cases, inl, inr, append_assoc,
}
use gepruft_lidar.Protocol.Framing.{
  Framer, Fed, turn, at_head, round, accept, drain, feed, word_at, quiet, join,
}
use gepruft_lidar.Protocol.Framing.Turns.{turn_counts}

abbrev pub extend : Framer → List ℕ → Framer
extend s more = record s { buffer = s.buffer ++ more }

abbrev extend_fed : Fed → List ℕ → Fed
extend_fed t more = record t { framer = extend t.framer more }

module _ (s : Framer) (more : List ℕ) where
  accept-extend :
      (total : ℕ)
      → 1 ≤ total
      → total ≤ length s.buffer
      → accept (extend s more) total ≡ extend_fed (accept s total) more
  unfolding accept
  accept-extend total h k =
      rw (take-append total s.buffer more k, drop-append total s.buffer more k)
        (rw (drop-append 1 s.buffer more (omega arith)) (ground arith))

  round-extend :
      (first : ℕ) (t : Fed)
      → 1 ≤ length s.buffer
      → round s first ≡ some t
      → round (extend s more) first ≡ some (extend_fed t more)
  unfolding round
  round-extend first t h e = ground (
    arith,
    length-append s.buffer more,
    get_or-append s.buffer more 2 0,
    get_or-append s.buffer more 3 0,
    drop-append 1 s.buffer more h,
    accept-extend (word_at s.buffer 2 + 6),
  )

  at_head-extend :
      (bs : List ℕ) (t : Fed)
      → bs ≡ s.buffer
      → at_head s bs ≡ some t
      → at_head (extend s more) (bs ++ more) ≡ some (extend_fed t more)
  unfolding at_head
  at_head-extend [] t p e = cc
  at_head-extend (x ∷ bs) t p e = round-extend x t (rw (← p) (omega arith)) e

  turn-extend : (t : Fed) → turn s ≡ some t → turn (extend s more) ≡ some (extend_fed t more)
  unfolding turn
  turn-extend t e = at_head-extend s.buffer t refl e

pub idle_drain : (n : ℕ) (s : Framer) → length s.buffer ≤ 0 → drain n s ≡ quiet s
unfolding drain turn at_head
idle_drain zero s h = refl
idle_drain (suc n) s h = ground (arith)

run : Framer → Fed
run s = drain (length s.buffer) s

pub drain_stop : (n : ℕ) (s : Framer) → turn s ≡ none → drain n s ≡ quiet s
unfolding drain
drain_stop zero s e = refl
drain_stop (suc n) s e = rw (e, drain)

pub drain_go :
    (n : ℕ) (s : Framer) (t : Fed) → turn s ≡ some t → drain (suc n) s ≡ join t (drain n t.framer)
unfolding drain
drain_go n s t e = rw (e, drain)

-- Fuel for each byte of the buffer is enough.
pub drain_fuel :
    (n m : ℕ) (s : Framer) → length s.buffer ≤ n → length s.buffer ≤ m → drain n s ≡ drain m s
drain_fuel zero zero s p q = refl
drain_fuel zero (suc m) s p q = idle_drain zero s p ∙ sym (idle_drain (suc m) s p)
drain_fuel (suc n) zero s p q = idle_drain (suc n) s q ∙ sym (idle_drain zero s q)
drain_fuel (suc n) (suc m) s p q = elim (Option-cases (turn s)) [
  | inl e ↦ drain_stop (suc n) s e ∙ sym (drain_stop (suc m) s e)
  | inr (t, e) ↦
      drain_go n s t e
      ∙ ap (join t) (
          drain_fuel n m t.framer (omega (arith, turn_counts s t e))
            (omega (arith, turn_counts s t e)))
      ∙ sym (drain_go m s t e)
]

join_assoc : (t u v : Fed) → join (join t u) v ≡ join t (join u v)
join_assoc t u v =
    rw (append_assoc t.events u.events v.events, append_assoc t.observed u.observed v.observed)

run_go : (s : Framer) (t : Fed) → turn s ≡ some t → run s ≡ join t (run t.framer)
unfolding run
run_go s t e =
    drain_fuel (length s.buffer) (suc (length s.buffer)) s (omega arith) (omega arith)
    ∙ drain_go (length s.buffer) s t e
    ∙ ap (join t) (
        drain_fuel (length s.buffer) (length t.framer.buffer) t.framer
          (omega (arith, turn_counts s t e)) (omega arith))

drain-extend :
    (n : ℕ) (s : Framer) (more : List ℕ)
    → length s.buffer ≤ n
    → run (extend s more) ≡ join (drain n s) (run (extend (drain n s).framer more))
drain-extend zero s more p = rw (idle_drain zero s p)
drain-extend (suc n) s more p = elim (Option-cases (turn s)) [
  | inl e ↦ rw (drain_stop (suc n) s e)
  | inr (t, e) ↦ rw (drain_go n s t e) (
      run_go (extend s more) (extend_fed t more) (turn-extend s more t e)
      ∙ ap (join t) (drain-extend n t.framer more (omega (arith, turn_counts s t e)))
      ∙ sym (join_assoc t (drain n t.framer) (run (extend (drain n t.framer).framer more))))
]

-- Feeding two reads one after the other is feeding them as one: the same events and candidates in
-- the same order, and the same framer.
pub feed-append :
    (s : Framer) (a b : List ℕ) → feed s (a ++ b) ≡ join (feed s a) (feed (feed s a).framer b)
unfolding feed run
feed-append s a b =
    rw (← append_assoc s.buffer a b)
      (drain-extend (length (s.buffer ++ a)) (extend s a) b (omega arith))
