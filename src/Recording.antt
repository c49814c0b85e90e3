-- ===== src/Recording.antt =====
-- src/lms200/recording.py: the recorder of scans. The directory, the file names and the JSON text
-- are left out: a file is its bytes, or the list of what its lines encode.
pub mod Replay
use gepruft_lidar.Prelude.{
  ℕ, ◌+◌, Bool, true, false, Option, none, some, List, [], ◌∷◌, ◌++◌, length, if◌then◌else◌,
}
use gepruft_lidar.Prelude.Result.{Result, ok, err, value_error}
use gepruft_lidar.Protocol.Measurements.{Scan}

-- A line of the timing index; its length is `size`.
pub record Entry : Type 0 where
  pub offset : ℕ
  pub size : ℕ
  pub timestamp : ℕ
  pub sequence : ℕ

pub record Recorder : Type 0 where
  pub raw : List ℕ
  pub index : List Entry
  pub decoded : Option (List Scan)
  pub count : ℕ
  pub closed : Bool

-- Recorder.__init__
abbrev pub create : Bool → Recorder
create jsonl = record {
  raw = [];
  index = [];
  decoded = if jsonl then some [] else none;
  count = 0;
  closed = false;
}

abbrev pub add_decoded : Scan → Option (List Scan) → Option (List Scan)
add_decoded scan none = none
add_decoded scan (some scans) = some (scans ++ scan ∷ [])

-- Recorder.write
unfoldable pub write : Scan → Recorder → Result (Unit {0}) × Recorder
write scan r = if r.closed then (err value_error, r) else (
  ok tt,
  record r {
    raw = r.raw ++ scan.raw_telegram;
    index =
        r.index
        ++ record {
          offset = length r.raw;
          size = length scan.raw_telegram;
          timestamp = scan.timestamp;
          sequence = scan.sequence;
        }
          ∷ [];
    decoded = add_decoded scan r.decoded;
    count = r.count + 1;
  },
)

-- Recorder.close
abbrev pub close : Recorder → Recorder
close r = record r { closed = true }
