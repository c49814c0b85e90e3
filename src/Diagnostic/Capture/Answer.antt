-- ===== src/Diagnostic/Capture/Answer.antt =====
-- The status that Capture of src/lms200/hardware_diagnostic.py keeps stands for an answer.
use gepruft_lidar.Prelude.{
  ℕ, zero, suc, ◌≡◌, refl, sym, ◌∙◌, ◌⊎◌, inl, inr, Bool, true, false, ◌||◌, some, List, [], ◌∷◌,
  ◌++◌, arith, get_elem?, Bool-cases, append-nil,
}
use gepruft_lidar.Protocol.Framing.{FrameCandidate, Control, crc_valid}
use gepruft_lidar.Diagnostic.Capture.{
  Capture, Direction, Detail, plain, candidate, observe, change, note, on_control, is_past,
  is_present,
}
use gepruft_lidar.Diagnostic.Capture.Queue.{get_elem?-append}

-- The status of a capture is the position of a decoded telegram, from behind the boundary of what
-- was sent, and an ACK had come.
pub record IsAnswer (s : Capture) (i : ℕ) : Type 0 where
  pub telegram : Detail
  pub found : get_elem? s.telegrams i ≡ some telegram
  pub decoded : is_present telegram.decoded_status ≡ true
  pub past : is_past s.tx_boundary telegram.candidate.offset ≡ true
  pub acked : s.post_ack ≡ true

-- The position is that of a telegram with an identity.
pub record IsNamed (ds : List Detail) (i : ℕ) : Type 0 where
  pub telegram : Detail
  pub found : get_elem? ds i ≡ some telegram
  pub named : is_present telegram.identity ≡ true

abbrev pub IsCredible : Capture → Type 0
IsCredible s =
    ((i : ℕ) → s.status ≡ some i → IsAnswer s i)
    × ((i : ℕ) → s.startup ≡ some i → IsNamed s.telegrams i)

pub get_elem?-changed :
    (f : Detail → Detail) (ds : List Detail) (i : ℕ) (d : Detail)
    → get_elem? ds i ≡ some d
    → get_elem? (change f i ds) i ≡ some (f d)
get_elem?-changed f [] i d e = cc
get_elem?-changed f (x ∷ ds) zero d e = ground (arith, e)
get_elem?-changed f (x ∷ ds) (suc i) d e = get_elem?-changed f ds i d e

get_elem?-either :
    (f : Detail → Detail) (ds : List Detail) (i j : ℕ) (d : Detail)
    → get_elem? ds j ≡ some d
    → (d' : Detail) × (get_elem? (change f i ds) j ≡ some d') × ((d' ≡ d) ⊎ (d' ≡ f d))
get_elem?-either f [] i j d e = cc
get_elem?-either f (x ∷ ds) zero zero d e = (f x, refl, inr (ground (arith, e)))
get_elem?-either f (x ∷ ds) zero (suc j) d e = (d, e, inl refl)
get_elem?-either f (x ∷ ds) (suc i) zero d e = (d, e, inl refl)
get_elem?-either f (x ∷ ds) (suc i) (suc j) d e = get_elem?-either f ds i j d e

abbrev pub KeepsAnswer : (Detail → Detail) → Type 0
KeepsAnswer f =
    (d : Detail)
    → ((f d).candidate ≡ d.candidate)
      × (is_present d.decoded_status ≡ true → is_present (f d).decoded_status ≡ true)
      × (is_present d.identity ≡ true → is_present (f d).identity ≡ true)

note-IsAnswer :
    (f : Detail → Detail) (i : ℕ) (s : Capture) (j : ℕ)
    → KeepsAnswer f
    → IsAnswer s j
    → IsAnswer (note f i s) j
note-IsAnswer f i s j keeps a =
    let (d, found, same) = get_elem?-either f s.telegrams i j a.telegram a.found in
    elim same [
      | inl h ↦ record {
        telegram = d;
        found = found;
        decoded = rw h a.decoded;
        past = rw h a.past;
        acked = a.acked;
      }
      | inr h ↦ record {
        telegram = d;
        found = found;
        decoded = rw h ((keeps a.telegram).1 a.decoded);
        past = rw (h, (keeps a.telegram).0) a.past;
        acked = a.acked;
      }
    ]

pub change-IsNamed :
    (f : Detail → Detail) (i : ℕ) (ds : List Detail) (j : ℕ)
    → KeepsAnswer f
    → IsNamed ds j
    → IsNamed (change f i ds) j
change-IsNamed f i ds j keeps a =
    let (d, found, same) = get_elem?-either f ds i j a.telegram a.found in
    elim same [
      | inl h ↦ record { telegram = d; found = found; named = rw h a.named }
      | inr h ↦ record { telegram = d; found = found; named = rw h ((keeps a.telegram).2 a.named) }
    ]

pub note-IsCredible :
    (f : Detail → Detail) (i : ℕ) (s : Capture)
    → KeepsAnswer f
    → IsCredible s
    → IsCredible (note f i s)
note-IsCredible f i s keeps (v, w) = (
  λ j e. note-IsAnswer f i s j keeps (v j e),
  λ j e. change-IsNamed f i s.telegrams j keeps (w j e),
)

-- What comes behind the telegrams, and what the acknowledgements leave, takes no answer away.
pub carry :
    (s s' : Capture) (es : List Detail)
    → s'.telegrams ≡ s.telegrams ++ es
    → s'.tx_boundary ≡ s.tx_boundary
    → s'.status ≡ s.status
    → s'.startup ≡ s.startup
    → (s.post_ack ≡ true → s'.post_ack ≡ true)
    → IsCredible s
    → IsCredible s'
carry s s' es t b st su a (v, w) = (
  λ i e.
      let answer : IsAnswer s i = v i (sym st ∙ e) in
      record {
        telegram = answer.telegram;
        found = rw t (get_elem?-append s.telegrams es i answer.telegram answer.found);
        decoded = answer.decoded;
        past = rw b answer.past;
        acked = a answer.acked;
      },
  λ i e.
      let name : IsNamed s.telegrams i = w i (sym su ∙ e) in
      record {
        telegram = name.telegram;
        found = rw t (get_elem?-append s.telegrams es i name.telegram name.found);
        named = name.named;
      },
)

pub same-IsCredible :
    (s s' : Capture)
    → s'.telegrams ≡ s.telegrams
    → s'.tx_boundary ≡ s.tx_boundary
    → s'.status ≡ s.status
    → s'.startup ≡ s.startup
    → (s.post_ack ≡ true → s'.post_ack ≡ true)
    → IsCredible s
    → IsCredible s'
same-IsCredible s s' t b st su a v = carry s s' [] (t ∙ sym (append-nil s.telegrams)) b st su a v

candidate-IsCredible :
    (c : FrameCandidate) (s : Capture) → IsCredible s → IsCredible (candidate c s)
unfolding candidate
candidate-IsCredible c s v = elim (Bool-cases (crc_valid c)) [
  | inl e ↦ rw e (carry s _ (plain c ∷ []) refl refl refl refl (λ h. h) v)
  | inr e ↦ rw e (carry s _ (plain c ∷ []) refl refl refl refl (λ h. h) v)
]

pub observe-IsCredible :
    (cs : List FrameCandidate) (s : Capture) → IsCredible s → IsCredible (observe cs s)
unfolding observe
observe-IsCredible [] s v = v
observe-IsCredible (c ∷ cs) s v = observe-IsCredible cs (candidate c s) (candidate-IsCredible c s v)

stays : (a b : Bool) → a ≡ true → (a || b) ≡ true
stays true b h = refl
stays false b h = cc

pub on_control-IsCredible :
    (c : Control) (phase : Direction) (s : Capture)
    → IsCredible s
    → IsCredible (on_control c phase s)
on_control-IsCredible Control.ack phase s v =
    same-IsCredible s _ refl refl refl refl (stays s.post_ack _) v
on_control-IsCredible Control.nak phase s v = same-IsCredible s _ refl refl refl refl (λ h. h) v

-- A status decoded from the telegram at `i`, where the program has found both conditions to hold.
pub answered-IsCredible :
    (f : Detail → Detail) (s s' : Capture) (i : ℕ) (d : Detail)
    → get_elem? s.telegrams i ≡ some d
    → s'.telegrams ≡ change f i s.telegrams
    → s'.status ≡ some i
    → s'.post_ack ≡ true
    → is_present (f d).decoded_status ≡ true
    → (f d).candidate ≡ d.candidate
    → is_past s'.tx_boundary d.candidate.offset ≡ true
    → s'.startup ≡ s.startup
    → KeepsAnswer f
    → IsCredible s
    → IsCredible s'
answered-IsCredible f s s' i d found t st a p c past su keeps v = (
  λ j e. record {
    telegram = f d;
    found = rw (sym (index j (sym st ∙ e)), t) (get_elem?-changed f s.telegrams i d found);
    decoded = p;
    past = rw c past;
    acked = a;
  },
  λ j e. rw t (change-IsNamed f i s.telegrams j keeps (v.1 j (sym su ∙ e))),
)
  where
    index : (j : ℕ) → some i ≡ some j → i ≡ j
    index j h = cc

-- An identity found in the telegram at `i`.
pub named-IsCredible :
    (f : Detail → Detail) (s : Capture) (i : ℕ) (d : Detail)
    → get_elem? s.telegrams i ≡ some d
    → is_present (f d).identity ≡ true
    → KeepsAnswer f
    → IsCredible s
    → IsCredible (record (note f i s) { startup = some i })
named-IsCredible f s i d found p keeps v = (
  λ j e.
      let a : IsAnswer (note f i s) j = note-IsAnswer f i s j keeps (v.0 j e) in
      record {
        telegram = a.telegram;
        found = a.found;
        decoded = a.decoded;
        past = a.past;
        acked = a.acked;
      },
  λ j e. record {
    telegram = f d;
    found = rw (sym (index j e)) (get_elem?-changed f s.telegrams i d found);
    named = p;
  },
)
  where
    index : (j : ℕ) → some i ≡ some j → i ≡ j
    index j h = cc
