-- ===== src/Protocol/Framing/Stream.antt =====
-- What `feed` (src/lms200/protocol/framing.py) keeps and what it returns, for any bytes at all.
use gepruft_lidar.Prelude.{
  ℕ, zero, suc, ◌+◌, ◌-◌, ◌*◌, ◌≤◌, ◌<◌, ◌≡◌, refl, sym, ap, ◌∙◌, none, some, List, [], ◌∷◌, ◌++◌,
  arith, length, length-append, length-drop, length-take, take, drop, get_or, Option-cases,
  Bool-cases, ==_iff, inl, inr, All, All-append, All-take, All-drop,
}
use gepruft_lidar.Prelude.Result.{ok}
use gepruft_lidar.Protocol.Crc.{IsByte, crc16}
use gepruft_lidar.Protocol.Framing.{
  Framer, Fed, Frame, Event, stx, candidate_of, crc_valid, frame, control, turn, at_head, round,
  accept, drain, feed, word_at, encode, payload_of, max_payload, to_bytes, without_crc,
}
use gepruft_lidar.Protocol.Framing.Turns.{turn_counts, seen}
use gepruft_lidar.Protocol.Framing.Chunks.{drain_stop, drain_go, idle_drain}
use gepruft_lidar.Protocol.Framing.Kept.{IsTail, feed-IsKept}

drain_counts : (n : ℕ) (s : Framer) → seen (drain n s).framer ≡ seen s
drain_counts zero s = unfold drain in refl
drain_counts (suc n) s = elim (Option-cases (turn s)) [
  | inl e ↦ rw (drain_stop (suc n) s e) refl
  | inr (t, e) ↦ rw (drain_go n s t e) (drain_counts n t.framer ∙ (turn_counts s t e).0)
]

empty_rests : (s : Framer) → length s.buffer ≤ 0 → turn s ≡ none
unfolding turn at_head
empty_rests s h = ground arith

drain_rests : (n : ℕ) (s : Framer) → length s.buffer ≤ n → turn (drain n s).framer ≡ none
drain_rests zero s h = rw (idle_drain zero s h) (empty_rests s h)
drain_rests (suc n) s h = elim (Option-cases (turn s)) [
  | inl e ↦ rw (drain_stop (suc n) s e) e
  | inr (t, e) ↦ rw (drain_go n s t e) (drain_rests n t.framer (omega (arith, turn_counts s t e)))
]

round_waits : (s : Framer) (first : ℕ) → round s first ≡ none → length s.buffer < 814
unfolding round
round_waits s first e = ground arith

at_head_waits :
    (s : Framer) (bs : List ℕ) → bs ≡ s.buffer → at_head s bs ≡ none → length s.buffer < 814
unfolding at_head
at_head_waits s [] p e = rw (← p) (omega arith)
at_head_waits s (x ∷ bs) p e = round_waits s x e

turn_waits : (s : Framer) → turn s ≡ none → length s.buffer < 814
unfolding turn
turn_waits s e = at_head_waits s s.buffer refl e

-- After any read the loop of `feed` has ended by its own test, with every byte either counted as
-- discarded or still in the buffer, and the buffer shorter than the longest telegram, 814 bytes.
pub feed_lem :
    (s : Framer) (bytes : List ℕ)
    → (turn (feed s bytes).framer ≡ none)
      × (seen (feed s bytes).framer ≡ seen s + length bytes)
      × (length (feed s bytes).framer.buffer < 814)
unfolding feed
feed_lem s bytes =
    let n : ℕ = length (s.buffer ++ bytes) in
    let filled : Framer = record s { buffer = s.buffer ++ bytes } in
    let rests = drain_rests n filled (omega arith) in
    (
      rests,
      omega (arith, drain_counts n filled, length-append s.buffer bytes),
      turn_waits (drain n filled).framer rests,
    )

-- A telegram, as the documents have it: what `encode` makes of its payload and its address.
abbrev pub IsTelegram : Frame → Type 0
IsTelegram f = encode f.payload f.address ≡ ok f.raw

abbrev pub IsSound : Event → Type 0
IsSound (frame f) = IsTelegram f
IsSound (control c) = Unit

get_or-IsByte : (bs : List ℕ) (i : ℕ) → All IsByte bs → IsByte (get_or bs i 0)
get_or-IsByte [] i h = omega arith
get_or-IsByte (b ∷ bs) zero h = h.0
get_or-IsByte (b ∷ bs) (suc i) h = get_or-IsByte bs i h.1

split_last_two :
    (n : ℕ) (xs : List ℕ)
    → length xs ≡ n + 2
    → take n xs ++ (get_or xs n 0 ∷ get_or xs (suc n) 0 ∷ []) ≡ xs
split_last_two n [] h = absurd (omega arith)
split_last_two zero (a ∷ []) h = absurd (omega arith)
split_last_two zero (a ∷ b ∷ []) h = refl
split_last_two zero (a ∷ b ∷ c ∷ xs) h = absurd (omega arith)
split_last_two (suc n) (a ∷ xs) h = ap (◌∷◌ a) (split_last_two n xs (omega arith))

to_bytes_word : (a b : ℕ) → IsByte a → to_bytes (a + 256 * b) ≡ a ∷ b ∷ []
unfolding to_bytes
to_bytes_word a b h = ground arith

-- A byte string that has the layout and the checksum of a telegram is one.
telegram_layout :
    (a l0 l1 n : ℕ) (rest : List ℕ)
    → IsByte a
    → IsByte l0
    → l0 + 256 * l1 ≡ n
    → 1 ≤ n
    → n ≤ max_payload
    → length rest ≡ n + 2
    → All IsByte rest
    → crc16 (stx ∷ a ∷ l0 ∷ l1 ∷ take n rest) ≡ word_at rest n
    → encode (take n rest) a ≡ ok (stx ∷ a ∷ l0 ∷ l1 ∷ rest)
unfolding encode
telegram_layout a l0 l1 n rest ha h0 size lo hi len bytes crc =
    let long : length (take n rest) ≡ n = omega (arith, length-take n rest) in
    let header : to_bytes n ≡ l0 ∷ l1 ∷ [] = rw (← size) (to_bytes_word l0 l1 h0) in
    let tail : to_bytes (word_at rest n) ≡ get_or rest n 0 ∷ get_or rest (suc n) 0 ∷ [] =
      to_bytes_word _ _ (get_or-IsByte rest n bytes) in
    rw long (rw header (rw crc (rw (tail, split_last_two n rest len) (ground arith))))

get_four :
    (n : ℕ) (bs : List ℕ)
    → 4 ≤ length bs
    → take (n + 6) bs
      ≡ get_or bs 0 0 ∷ get_or bs 1 0 ∷ get_or bs 2 0 ∷ get_or bs 3 0 ∷ take (n + 2) (drop 4 bs)
get_four n bs h = rw (sums) (four bs h)
  where
    sums : n + 6 ≡ suc (suc (suc (suc (n + 2))))
    sums = omega arith

    four :
        (xs : List ℕ)
        → 4 ≤ length xs
        → take (suc (suc (suc (suc (n + 2))))) xs
          ≡ get_or xs 0 0 ∷ get_or xs 1 0 ∷ get_or xs 2 0 ∷ get_or xs 3 0 ∷ take (n + 2) (drop 4 xs)
    four [] k = absurd (omega arith)
    four (a ∷ []) k = absurd (omega arith)
    four (a ∷ b ∷ []) k = absurd (omega arith)
    four (a ∷ b ∷ c ∷ []) k = absurd (omega arith)
    four (a ∷ b ∷ c ∷ d ∷ xs) k = refl

-- What a candidate with a valid checksum is held to, of its raw bytes alone.
abbrev Holds : List ℕ → Type 0
Holds raw =
    crc16 (without_crc raw) ≡ word_at raw (length raw - 2)
    → encode (payload_of raw) (get_or raw 1 0) ≡ ok raw

telegram-Holds :
    (a l0 l1 n : ℕ) (rest : List ℕ)
    → IsByte a
    → IsByte l0
    → l0 + 256 * l1 ≡ n
    → 1 ≤ n
    → n ≤ max_payload
    → length rest ≡ n + 2
    → All IsByte rest
    → Holds (stx ∷ a ∷ l0 ∷ l1 ∷ rest)
telegram-Holds a l0 l1 n rest ha h0 size lo hi len bytes =
    rw stop (telegram_layout a l0 l1 n rest ha h0 size lo hi len bytes)
  where
    stop : suc (suc (suc (suc (length rest)))) - 2 ≡ suc (suc (suc (suc n)))
    stop = omega arith

module _ (s : Framer) (bytes : All IsByte s.buffer) where
  accept-IsSound :
      get_or s.buffer 0 0 ≡ stx
      → 1 ≤ word_at s.buffer 2
      → word_at s.buffer 2 ≤ max_payload
      → word_at s.buffer 2 + 6 ≤ length s.buffer
      → All IsSound (accept s (word_at s.buffer 2 + 6)).events
  unfolding accept
  accept-IsSound first lo hi long = elim (Bool-cases (crc_valid (candidate_of s total))) [
    | inr e ↦ rw e tt
    | inl e ↦ rw e (held ((==_iff _ _).0 e), tt)
  ]
    where
      size : ℕ
      size = word_at s.buffer 2

      total : ℕ
      total = size + 6

      rest : List ℕ
      rest = take (size + 2) (drop 4 s.buffer)

      shape :
          take total s.buffer
          ≡ stx ∷ get_or s.buffer 1 0 ∷ get_or s.buffer 2 0 ∷ get_or s.buffer 3 0 ∷ rest
      shape =
          get_four size s.buffer (omega arith)
          ∙ ap
              (λ (t : ℕ).
                t ∷ get_or s.buffer 1 0 ∷ get_or s.buffer 2 0 ∷ get_or s.buffer 3 0 ∷ rest)
              first

      held : Holds (take total s.buffer)
      held = rw shape (
          telegram-Holds (get_or s.buffer 1 0) (get_or s.buffer 2 0) (get_or s.buffer 3 0) size rest
            (get_or-IsByte s.buffer 1 bytes) (get_or-IsByte s.buffer 2 bytes) refl lo hi
            (omega (arith, length-take (size + 2) (drop 4 s.buffer), length-drop 4 s.buffer))
            (All-take IsByte (size + 2) (drop 4 s.buffer) (All-drop IsByte 4 s.buffer bytes)))

  round-IsSound :
      (first : ℕ) (t : Fed)
      → get_or s.buffer 0 0 ≡ first
      → round s first ≡ some t
      → All IsSound t.events
  unfolding round
  round-IsSound first t h e = ground (arith, accept-IsSound)

  accept-IsByte : (total : ℕ) → All IsByte (accept s total).framer.buffer
  unfolding accept
  accept-IsByte total =
      ground (arith, All-drop IsByte 1 s.buffer bytes, All-drop IsByte total s.buffer bytes)

  round-IsByte : (first : ℕ) (t : Fed) → round s first ≡ some t → All IsByte t.framer.buffer
  unfolding round
  round-IsByte first t e =
      ground (arith, All-drop IsByte 1 s.buffer bytes, accept-IsByte (word_at s.buffer 2 + 6))

  at_head-IsSound :
      (bs : List ℕ) (t : Fed)
      → bs ≡ s.buffer
      → at_head s bs ≡ some t
      → All IsSound t.events × All IsByte t.framer.buffer
  unfolding at_head
  at_head-IsSound [] t p e = cc
  at_head-IsSound (x ∷ bs) t p e =
      (round-IsSound x t (ap (λ (xs : List ℕ). get_or xs 0 0) (sym p)) e, round-IsByte x t e)

turn-IsSound :
    (s : Framer) (t : Fed)
    → All IsByte s.buffer
    → turn s ≡ some t
    → All IsSound t.events × All IsByte t.framer.buffer
unfolding turn
turn-IsSound s t h e = at_head-IsSound s h s.buffer t refl e

drain-IsSound :
    (n : ℕ) (s : Framer)
    → All IsByte s.buffer
    → All IsSound (drain n s).events × All IsByte (drain n s).framer.buffer
drain-IsSound zero s h = unfold drain in (tt, h)
drain-IsSound (suc n) s h = elim (Option-cases (turn s)) [
  | inl e ↦ rw (drain_stop (suc n) s e) (tt, h)
  | inr (t, e) ↦
      let (sound, bytes) = turn-IsSound s t h e in
      let (more, left) = drain-IsSound n t.framer bytes in
      rw (drain_go n s t e) (All-append IsSound t.events (drain n t.framer).events sound more, left)
]

-- Whatever bytes arrive, every frame that `feed` returns is a telegram: encoding its payload under
-- its address gives back its raw bytes, checksum and length field included. What stays in the buffer
-- are bytes again, and an end of what was there followed by what arrived.
pub feed-IsSound :
    (s : Framer) (bytes : List ℕ)
    → All IsByte s.buffer
    → All IsByte bytes
    → All IsSound (feed s bytes).events
      × All IsByte (feed s bytes).framer.buffer
      × IsTail (s.buffer ++ bytes) (feed s bytes).framer.buffer
unfolding feed
feed-IsSound s bytes hs hb =
    let (sound, left) =
      drain-IsSound (length (s.buffer ++ bytes)) (record s { buffer = s.buffer ++ bytes })
        (All-append IsByte s.buffer bytes hs hb) in
    (sound, left, (feed-IsKept s bytes).1)
