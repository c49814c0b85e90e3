-- ===== src/Protocol/Framing/Turns.antt =====
-- One round of the loop of `feed` (src/lms200/protocol/framing.py): what it uses up.
use gepruft_lidar.Prelude.{
  ℕ, ◌+◌, ◌≤◌, ◌<◌, ◌≡◌, refl, some, List, [], ◌∷◌, arith, length, length-drop,
}
use gepruft_lidar.Protocol.Framing.{Framer, Fed, turn, at_head, round, accept, word_at}

abbrev pub seen : Framer → ℕ
seen s = s.offset + length s.buffer

accept_counts :
    (s : Framer) (total : ℕ)
    → 1 ≤ total
    → total ≤ length s.buffer
    → (seen (accept s total).framer ≡ seen s)
      × (length (accept s total).framer.buffer < length s.buffer)
unfolding accept
accept_counts s total h k = ground (arith, length-drop 1 s.buffer, length-drop total s.buffer)

round_counts :
    (s : Framer) (first : ℕ) (t : Fed)
    → 1 ≤ length s.buffer
    → round s first ≡ some t
    → (seen t.framer ≡ seen s) × (length t.framer.buffer < length s.buffer)
unfolding round
round_counts s first t h e =
    ground (arith, length-drop 1 s.buffer, accept_counts s (word_at s.buffer 2 + 6))

at_head_counts :
    (s : Framer) (bs : List ℕ) (t : Fed)
    → bs ≡ s.buffer
    → at_head s bs ≡ some t
    → (seen t.framer ≡ seen s) × (length t.framer.buffer < length s.buffer)
unfolding at_head
at_head_counts s [] t p e = cc
at_head_counts s (x ∷ bs) t p e = round_counts s x t (rw (← p) (omega arith)) e

-- A round drops a byte at least, and counts each byte that it drops.
pub turn_counts :
    (s : Framer) (t : Fed)
    → turn s ≡ some t
    → (seen t.framer ≡ seen s) × (length t.framer.buffer < length s.buffer)
unfolding turn
turn_counts s t e = at_head_counts s s.buffer t refl e
