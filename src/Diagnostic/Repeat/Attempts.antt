-- ===== src/Diagnostic/Repeat/Attempts.antt =====
-- The attempts in the report of run_status_repeat of src/lms200/hardware_diagnostic.py.
use gepruft_lidar.Prelude.{
  ℕ, zero, suc, ◌≤◌, ◌≡◌, refl, ◌∙◌, ap, true, false, none, some, List, [], ◌∷◌, ◌++◌, length,
  replicate, All, All-append, append_assoc,
}
use gepruft_lidar.Diagnostic.Capture.{Capture}
use gepruft_lidar.Diagnostic.Bench.{status_request}
use gepruft_lidar.Diagnostic.Repeat.{Attempt, Report, change_last}

replicate-last : {A : Type 0} (n : ℕ) (a : A) → replicate n a ++ a ∷ [] ≡ replicate (suc n) a
replicate-last zero a = refl
replicate-last {A = A} (suc n) a = ap (λ (x : List A). a ∷ x) (replicate-last n a)

-- An attempt that was sent in full, and listened to for five seconds in which nothing answered.
pub record IsQuiet (a : Attempt) : Type 0 where
  pub written : a.write_return ≡ some 7
  pub flushed : a.flush_completed ≡ true
  pub time : ℕ
  pub listened : a.listen_time ≡ some time
  pub long : 5000 ≤ time
  pub no_ack : a.ack ≡ some false
  pub no_nak : a.nak ≡ some false
  pub no_status : a.status ≡ none

abbrev pub AllButLast : {A : Type 0} → (A → Type 0) → List A → Type 0
AllButLast P [] = Unit
AllButLast P (a ∷ []) = Unit
AllButLast P (a ∷ b ∷ xs) = P a × AllButLast P (b ∷ xs)

pub All-AllButLast : {A : Type 0} (P : A → Type 0) (xs : List A) → All P xs → AllButLast P xs
All-AllButLast P [] v = tt
All-AllButLast P (a ∷ []) v = tt
All-AllButLast P (a ∷ b ∷ xs) (p, v) = (p, All-AllButLast P (b ∷ xs) v)

AllButLast-last :
    {A : Type 0} (P : A → Type 0) (xs : List A) (a : A) → All P xs → AllButLast P (xs ++ a ∷ [])
AllButLast-last P [] a v = tt
AllButLast-last P (x ∷ []) a (p, v) = (p, tt)
AllButLast-last P (x ∷ y ∷ xs) a (p, v) = (p, AllButLast-last P (y ∷ xs) a v)

change_last-append :
    (f : Attempt → Attempt) (xs : List Attempt) (a : Attempt)
    → change_last f (xs ++ a ∷ []) ≡ xs ++ f a ∷ []
change_last-append f [] a = refl
change_last-append f (x ∷ []) a = refl
change_last-append f (x ∷ y ∷ xs) a =
    ap (λ (l : List Attempt). x ∷ l) (change_last-append f (y ∷ xs) a)

pub AllButLast-change_last :
    (P : Attempt → Type 0) (f : Attempt → Attempt) (xs : List Attempt)
    → AllButLast P xs
    → AllButLast P (change_last f xs)
AllButLast-change_last P f [] v = tt
AllButLast-change_last P f (a ∷ []) v = tt
AllButLast-change_last P f (a ∷ b ∷ []) (p, v) = (p, tt)
AllButLast-change_last P f (a ∷ b ∷ c ∷ xs) (p, v) = (p, AllButLast-change_last P f (b ∷ c ∷ xs) v)

pub length-change_last :
    (f : Attempt → Attempt) (xs : List Attempt) → length (change_last f xs) ≡ length xs
length-change_last f [] = refl
length-change_last f (a ∷ []) = refl
length-change_last f (a ∷ b ∷ xs) = ap suc (length-change_last f (b ∷ xs))

length_last : {A : Type 0} (xs : List A) (a : A) → length (xs ++ a ∷ []) ≡ suc (length xs)
length_last [] a = refl
length_last (x ∷ xs) a = ap suc (length_last xs a)

-- The capture has a status that no NAK goes with.
pub record IsAnswered (s : Capture) : Type 0 where
  pub index : ℕ
  pub status : s.status ≡ some index
  pub no_nak : s.post_nak ≡ false

module _ (start : List (List ℕ)) where
  -- A report after at most `n` attempts.
  pub record Made (n : ℕ) (s : Capture) (sent : List (List ℕ)) (r : Report) : Type 0 where
    pub count : ℕ
    pub bound : count ≤ n
    pub sends : sent ≡ start ++ replicate count status_request
    pub number : length r.attempts ≡ count
    pub quiet : AllButLast IsQuiet r.attempts
    pub honest : r.success ≡ true → IsAnswered s

  -- Between two attempts, after `k` of them.
  pub record Ready (k : ℕ) (s : Capture) (sent : List (List ℕ)) (r : Report) : Type 0 where
    pub sends : sent ≡ start ++ replicate k status_request
    pub number : length r.attempts ≡ k
    pub quiet : All IsQuiet r.attempts
    pub failed : r.success ≡ false

  -- In the attempt after the first `k`, with `c` telegrams sent and the facts `F` about the attempt.
  pub record Trying (F : Attempt → Type 0) (k c : ℕ) (s : Capture) (sent : List (List ℕ))
      (r : Report) : Type 0 where
    pub previous : List Attempt
    pub current : Attempt
    pub made : r.attempts ≡ previous ++ current ∷ []
    pub sends : sent ≡ start ++ replicate c status_request
    pub number : length previous ≡ k
    pub quiet : All IsQuiet previous
    pub facts : F current
    pub failed : r.success ≡ false

  pub Ready-Made :
      (k n : ℕ) (s : Capture) (sent : List (List ℕ)) (r : Report)
      → k ≤ n
      → Ready k s sent r
      → Made n s sent r
  Ready-Made k n s sent r h v = record {
    count = k;
    bound = h;
    sends = v.sends;
    number = v.number;
    quiet = All-AllButLast IsQuiet r.attempts v.quiet;
    honest = λ e. cc;
  }

  pub Trying-Made :
      (F : Attempt → Type 0) (k n : ℕ) (s : Capture) (sent : List (List ℕ)) (r : Report)
      → suc k ≤ n
      → Trying F k (suc k) s sent r
      → Made n s sent r
  Trying-Made F k n s sent r h v = record {
    count = suc k;
    bound = h;
    sends = v.sends;
    number =
        ap (λ (l : List Attempt). length l) v.made
        ∙ length_last v.previous v.current
        ∙ ap suc v.number;
    quiet = rw v.made (AllButLast-last IsQuiet v.previous v.current v.quiet);
    honest = λ e. cc;
  }

  -- An attempt that was quiet.
  pub Trying-Ready :
      (k : ℕ) (s : Capture) (sent : List (List ℕ)) (r : Report)
      → Trying IsQuiet k (suc k) s sent r
      → Ready (suc k) s sent r
  Trying-Ready k s sent r v = record {
    sends = v.sends;
    number =
        ap (λ (l : List Attempt). length l) v.made
        ∙ length_last v.previous v.current
        ∙ ap suc v.number;
    quiet = rw v.made (All-append IsQuiet v.previous (v.current ∷ []) v.quiet (v.facts, tt));
    failed = v.failed;
  }

  pub Trying-sent :
      (F : Attempt → Type 0) (k : ℕ) (s : Capture) (sent : List (List ℕ)) (r : Report)
      → Trying F k k s sent r
      → Trying F k (suc k) s (sent ++ status_request ∷ []) r
  Trying-sent F k s sent r v = record {
    previous = v.previous;
    current = v.current;
    made = v.made;
    sends =
        ap (λ (l : List (List ℕ)). l ++ status_request ∷ []) v.sends
        ∙ append_assoc start (replicate k status_request) (status_request ∷ [])
        ∙ ap (λ (l : List (List ℕ)). start ++ l) (replicate-last k status_request);
    number = v.number;
    quiet = v.quiet;
    facts = v.facts;
    failed = v.failed;
  }

  -- A change of the attempt that goes on.
  pub Trying-change_last :
      (F F' : Attempt → Type 0) (f : Attempt → Attempt) (k c : ℕ) (s : Capture)
      (sent : List (List ℕ)) (r : Report)
      → ((a : Attempt) → F a → F' (f a))
      → Trying F k c s sent r
      → Trying F' k c s sent (record r { attempts = change_last f r.attempts })
  Trying-change_last F F' f k c s sent r h v = record {
    previous = v.previous;
    current = f v.current;
    made =
        ap (λ (l : List Attempt). change_last f l) v.made
        ∙ change_last-append f v.previous v.current;
    sends = v.sends;
    number = v.number;
    quiet = v.quiet;
    facts = h v.current v.facts;
    failed = v.failed;
  }

  -- Neither speaks of the capture.
  pub Trying-stable :
      (F : Attempt → Type 0) (k c : ℕ) (s s' : Capture) (sent : List (List ℕ)) (r : Report)
      → s'.tx_boundary ≡ s.tx_boundary
      → Trying F k c s sent r
      → Trying F k c s' sent r
  Trying-stable F k c s s' sent r e v = record {
    previous = v.previous;
    current = v.current;
    made = v.made;
    sends = v.sends;
    number = v.number;
    quiet = v.quiet;
    facts = v.facts;
    failed = v.failed;
  }

  pub Ready-stable :
      (k : ℕ) (s s' : Capture) (sent : List (List ℕ)) (r : Report)
      → s'.tx_boundary ≡ s.tx_boundary
      → Ready k s sent r
      → Ready k s' sent r
  Ready-stable k s s' sent r e v = record {
    sends = v.sends;
    number = v.number;
    quiet = v.quiet;
    failed = v.failed;
  }
