-- ===== src/Recording/Replay/RoundTrip.antt =====
-- A recording read back: src/lms200/recording.py against src/lms200/transports/replay.py.
use gepruft_lidar.Prelude.{
  ℕ, zero, suc, ◌+◌, ◌-◌, ◌≤◌, ◌<◌, ◌≡◌, refl, sym, ◌∙◌, ap, Bool, true, false, Option, none, some,
  List, [], ◌∷◌, ◌++◌, length, take, drop, arith, length-append, append_assoc, append-nil,
  length-take, length-drop, take-append-drop, All, take-append, drop-append,
}
use gepruft_lidar.Prelude.Result.{Result, Error, ok, err, eof_error}
use gepruft_lidar.Protocol.Measurements.{Scan}
use gepruft_lidar.Recording.{Entry, Recorder, add_decoded, create, write}
use gepruft_lidar.Recording.Replay.{
  Files, Replay, init, open_replay, read, took, smaller, wait_until,
}

-- The recorder after all the scans.
abbrev pub write_all : List Scan → Recorder → Recorder
write_all [] r = r
write_all (scan ∷ scans) r = write_all scans (write scan r).1

-- What the reads of a transport give up to the first exception: all the bytes, and the exception.
abbrev after : Result (List ℕ) → List ℕ × Option Error → List ℕ × Option Error
after (err e) later = ([], some e)
after (ok bs) (more, e) = (bs ++ more, e)

unfoldable pub read_all : ℕ → Replay → List ℕ × Option Error
read_all zero s = ([], none)
read_all (suc n) s = after (read 4096 s).0 (read_all n (read 4096 s).1)

abbrev pub bytes : List Scan → List ℕ
bytes [] = []
bytes (scan ∷ scans) = scan.raw_telegram ++ bytes scans

-- The index of a recording of the scans, from the offset given on.
abbrev entries : ℕ → List Scan → List Entry
entries offset [] = []
entries offset (scan ∷ scans) =
    record {
      offset = offset;
      size = length scan.raw_telegram;
      timestamp = scan.timestamp;
      sequence = scan.sequence;
    }
    ∷ entries (offset + length scan.raw_telegram) scans

abbrev added : Scan → Recorder → Recorder
added scan r = record r {
  raw = r.raw ++ scan.raw_telegram;
  index = r.index ++ entries (length r.raw) (scan ∷ []);
  decoded = add_decoded scan r.decoded;
  count = r.count + 1;
}

added_lem : (scan : Scan) (r : Recorder) → r.closed ≡ false → (write scan r).1 ≡ added scan r
unfolding write
added_lem scan r h = rw h refl

write_all_lem :
    (scans : List Scan) (r : Recorder)
    → r.closed ≡ false
    → ((write_all scans r).raw ≡ r.raw ++ bytes scans)
      × ((write_all scans r).index ≡ r.index ++ entries (length r.raw) scans)
write_all_lem [] r h = (sym (append-nil r.raw), sym (append-nil r.index))
write_all_lem (scan ∷ scans) r h =
    let (p, q) = write_all_lem scans (added scan r) h in
    rw (write_all, added_lem scan r h)
      (
        p ∙ append_assoc r.raw scan.raw_telegram (bytes scans),
        rw (length-append r.raw scan.raw_telegram) at (
            q
            ∙ append_assoc r.index (entries (length r.raw) (scan ∷ []))
                (entries (length (r.raw ++ scan.raw_telegram)) scans)),
      )

-- A replay in the middle of a recording.
abbrev at : Replay → List ℕ → ℕ → List Entry → ℕ → Replay
at s file position lines remaining = record s {
  file = some file;
  position = position;
  lines = some lines;
  remaining = remaining;
}

module _ (s : Replay) (file : List ℕ) where
  took_lem :
      (p : ℕ) (lines : List Entry) (r : ℕ) (bs : List ℕ)
      → 0 < length bs
      → took bs (at s file p lines r) ≡ (ok bs, at s file (p + length bs) lines (r - length bs))
  unfolding took
  took_lem p lines r [] h = absurd (omega arith)
  took_lem p lines r (b ∷ bs) h = refl

  abbrev amount : ℕ → ℕ
  amount r = smaller 137 r

  read_open :
      (p : ℕ) (lines : List Entry) (r : ℕ)
      → 0 < r
      → read 4096 (at s file p lines r) ≡ took (take (amount r) (drop p file)) (at s file p lines r)
  unfolding read
  read_open p lines r h = ground arith

  amount-le : (r : ℕ) → amount r ≤ r
  amount-le r = ground arith

  amount-pos : (r : ℕ) → 0 < r → 0 < amount r
  amount-pos r h = ground arith

  read_rest :
      (p : ℕ) (lines : List Entry) (chunk rest : List ℕ)
      → 0 < length chunk
      → drop p file ≡ chunk ++ rest
      → read 4096 (at s file p lines (length chunk)) ≡ (
        ok (take (amount (length chunk)) chunk),
        at s file (p + amount (length chunk)) lines (length chunk - amount (length chunk)),
      )
  read_rest p lines chunk rest h e =
      let r : ℕ = length chunk in
      let n : length (take (amount r) chunk) ≡ amount r =
        omega (arith, length-take (amount r) chunk, amount-le r) in
      read_open p lines r h
      ∙ (ap (λ (bs : List ℕ). took bs (at s file p lines r))
            (ap (take (amount r)) e ∙ take-append (amount r) chunk rest (amount-le r))
          ∙ (took_lem p lines r (take (amount r) chunk) (omega (arith, n, amount-pos r h))
              ∙ ap (λ (k : ℕ). (ok (take (amount r) chunk), at s file (p + k) lines (r - k))) n))

  read_line :
      (p : ℕ) (entry : Entry) (lines : List Entry)
      → 1 ≤ entry.size
      → entry.size ≤ 814
      → entry.offset ≡ p
      → read 4096 (at s file p (entry ∷ lines) 0)
        ≡ read 4096 (at (wait_until entry.timestamp s) file p lines entry.size)
  unfolding read
  read_line p entry lines h h' e = ground arith

  read_end :
      (p : ℕ) → length file ≤ p → read 4096 (at s file p [] 0) ≡ (err eof_error, at s file p [] 0)
  unfolding read
  read_end p h = ground arith

-- A telegram has between 1 and 814 bytes.
abbrev pub IsTelegramSize : Scan → Type 0
IsTelegramSize scan = (1 ≤ length scan.raw_telegram) × (length scan.raw_telegram ≤ 814)

drop_nil : (n : ℕ) → drop {A = ℕ} n [] ≡ []
drop_nil zero = refl
drop_nil (suc n) = refl

drop_add : (p a : ℕ) (xs : List ℕ) → drop (p + a) xs ≡ drop a (drop p xs)
drop_add zero a xs = ap (λ (n : ℕ). drop n xs) (omega arith)
drop_add (suc p) a [] = drop_nil (suc p + a) ∙ sym (drop_nil a)
drop_add (suc p) a (x ∷ xs) =
    let e : suc p + a ≡ suc (p + a) = omega arith in rw e (drop_add p a xs)

-- The reads from `chunk`, the rest of a telegram, and the telegrams of `scans` behind it.
abbrev ReadsAll : ℕ → Type 0
ReadsAll n =
    (s : Replay) (file : List ℕ) (p : ℕ) (chunk : List ℕ) (scans : List Scan)
    → drop p file ≡ chunk ++ bytes scans
    → All IsTelegramSize scans
    → length chunk + length (bytes scans) < n
    → read_all n (at s file p (entries (p + length chunk) scans) (length chunk))
      ≡ (chunk ++ bytes scans, some eof_error)

read_all_chunk :
    (n : ℕ)
    → ReadsAll n
    → (s : Replay) (file : List ℕ) (p : ℕ) (chunk : List ℕ) (scans : List Scan) → 0 < length chunk
    → drop p file ≡ chunk ++ bytes scans
    → All IsTelegramSize scans
    → length chunk + length (bytes scans) < suc n
    → read_all (suc n) (at s file p (entries (p + length chunk) scans) (length chunk))
      ≡ (chunk ++ bytes scans, some eof_error)
unfolding read_all
read_all_chunk n ih s file p chunk scans pos e sizes h =
    let a : ℕ = amount s file (length chunk) in
    let le : a ≤ length chunk = amount-le s file (length chunk) in
    let len : length (drop a chunk) ≡ length chunk - a = length-drop a chunk in
    let end : p + a + length (drop a chunk) ≡ p + length chunk = omega (arith, le, len) in
    let later : read_all n (
          at s file (p + a) (entries (p + a + length (drop a chunk)) scans) (length (drop a chunk)))
        ≡ (drop a chunk ++ bytes scans, some eof_error) =
      ih s file (p + a) (drop a chunk) scans
        (drop_add p a file ∙ (ap (drop a) e ∙ drop-append a chunk (bytes scans) le)) sizes
        (omega (arith, len, amount-pos s file (length chunk) pos, le)) in
    rw
      (
        read_rest s file p (entries (p + length chunk) scans) chunk (bytes scans) pos e,
        (rw (end, len) at later),
        sym (append_assoc (take a chunk) (drop a chunk) (bytes scans)),
        take-append-drop a chunk,
      )
      refl

reads_all : (n : ℕ) → ReadsAll n
unfolding read_all
reads_all zero s file p chunk scans e sizes h = absurd (omega arith)
reads_all (suc n) s file p (c ∷ cs) scans e sizes h =
    read_all_chunk n (reads_all n) s file p (c ∷ cs) scans (omega arith) e sizes h
reads_all (suc n) s file p [] [] e sizes h =
    rw (read_end s file p (omega (arith, length-drop p file, ap length e))) refl
reads_all (suc n) s file p [] (scan ∷ scans) e ((lo, hi), sizes) h =
    let size : ℕ = length scan.raw_telegram in
    let skip : read 4096 (at s file p (entries (p + 0) (scan ∷ scans)) 0)
        ≡ read 4096 (at (wait_until scan.timestamp s) file p (entries (p + size) scans) size) =
      (let z : p + 0 ≡ p = omega arith in
        rw z (read_line s file p _ (entries (p + size) scans) lo hi refl)) in
    ap (λ (r : Result (List ℕ) × Replay). after r.0 (read_all n r.1)) skip
    ∙ read_all_chunk n (reads_all n) (wait_until scan.timestamp s) file p scan.raw_telegram scans
        (omega (arith, lo)) e sizes
        (omega (arith, h, length-append scan.raw_telegram (bytes scans)))

-- What a recorder wrote, beside a sidecar of its format with the baud rate given.
abbrev pub recorded_files : Recorder → ℕ → Files
recorded_files r baud = record {
  sidecar = some (record { is_raw_v1 = true; baud = baud });
  raw = r.raw;
  index = some r.index;
}

-- A recording of scans whose telegrams have 1 to 814 bytes is read back whole: with one read for
-- each byte and one more as fuel, the reads give the bytes of all the telegrams in their order, and
-- then the end of the file.
pub replay_recording :
    (scans : List Scan) (jsonl : Bool) (baud speed n : ℕ)
    → All IsTelegramSize scans
    → length (bytes scans) < n
    → read_all n (open_replay (init (recorded_files (write_all scans (create jsonl)) baud) speed)).1
      ≡ (bytes scans, some eof_error)
unfolding open_replay
replay_recording scans jsonl baud speed n sizes h =
    let (p, q) = write_all_lem scans (create jsonl) refl in
    let files : Files = record {
      sidecar = some (record { is_raw_v1 = true; baud = baud });
      raw = bytes scans;
      index = some (entries 0 scans);
    } in
    rw (p, q)
      (reads_all n (record (init files speed) { baud = baud }) (bytes scans) 0 [] scans refl sizes
        (omega (arith, h)))
