-- ===== src/Diagnostic/Capture/Queue.antt =====
-- Capture of src/lms200/hardware_diagnostic.py finds the candidate of each frame in its queue, and
-- writes what it decodes to the telegram that it decoded.
use gepruft_lidar.Prelude.{
  ℕ, zero, suc, ◌≡◌, refl, ap, ◌∙◌, ◌⊎◌, inl, inr, none, some, List, [], ◌∷◌, ◌++◌, arith, length,
  get_elem?, All, Bool-cases, append-nil,
}
use gepruft_lidar.Prelude.Result.{ok}
use gepruft_lidar.Protocol.Framing.Kept.{IsCut}
use gepruft_lidar.Protocol.Framing.{Frame, FrameCandidate, crc_valid}
use gepruft_lidar.Protocol.Framing.Matched.{valid}
use gepruft_lidar.Protocol.Responses.{Response, DeviceStatus, response, decode_status}
use gepruft_lidar.Diagnostic.Capture.{Capture, Detail, plain, candidate, change, identity_of}

-- A decoded status is what the reply in the telegram's bytes says: those in its frame, whose address
-- and payload are cut from them.
pub record IsDecoded (d : Detail) (status : DeviceStatus) : Type 0 where
  pub source : Frame
  pub reply : Response
  pub same_bytes : source.raw ≡ d.candidate.raw
  pub cut : IsCut source
  pub replied : response source 0 ≡ ok reply
  pub decoded : decode_status reply ≡ ok status
  pub noted : d.decoded_status ≡ some status

-- An identity is that of a startup telegram, in the same way.
pub record IsIdentified (d : Detail) (name : List ℕ) : Type 0 where
  pub source : Frame
  pub reply : Response
  pub same_bytes : source.raw ≡ d.candidate.raw
  pub cut : IsCut source
  pub replied : response source 0 ≡ ok reply
  pub command : reply.command ≡ 0x90
  pub identified : identity_of source reply ≡ ok name
  pub noted : d.identity ≡ some name

abbrev pub HasStatus : Detail → Type 0
HasStatus d = (d.decoded_status ≡ none) ⊎ ((status : DeviceStatus) × IsDecoded d status)

abbrev pub HasIdentity : Detail → Type 0
HasIdentity d = (d.identity ≡ none) ⊎ ((name : List ℕ) × IsIdentified d name)

abbrev pub HasEvidence : Detail → Type 0
HasEvidence d = HasStatus d × HasIdentity d

-- The queue holds the positions of telegrams with these bytes, in this order.
abbrev pub Waits : List Detail → List ℕ → List (List ℕ) → Type 0
Waits ds [] [] = Unit
Waits ds (i ∷ queue) (raw ∷ raws) =
    ((d : Detail) × (get_elem? ds i ≡ some d) × (d.candidate.raw ≡ raw)) × Waits ds queue raws
Waits ds _ _ = ⊥

pub get_elem?-append :
    (ds es : List Detail) (i : ℕ) (d : Detail)
    → get_elem? ds i ≡ some d
    → get_elem? (ds ++ es) i ≡ some d
get_elem?-append [] es i d e = cc
get_elem?-append (x ∷ ds) es zero d e = e
get_elem?-append (x ∷ ds) es (suc i) d e = get_elem?-append ds es i d e

get_elem?-last : (ds : List Detail) (d : Detail) → get_elem? (ds ++ d ∷ []) (length ds) ≡ some d
get_elem?-last [] d = refl
get_elem?-last (x ∷ ds) d = get_elem?-last ds d

Waits-append :
    (ds es : List Detail) (queue : List ℕ) (raws : List (List ℕ))
    → Waits ds queue raws
    → Waits (ds ++ es) queue raws
Waits-append ds es [] [] w = tt
Waits-append ds es (i ∷ queue) (raw ∷ raws) ((d, e, h), w) =
    ((d, get_elem?-append ds es i d e, h), Waits-append ds es queue raws w)
Waits-append ds es [] (raw ∷ raws) w = absurd w
Waits-append ds es (i ∷ queue) [] w = absurd w

Waits-last :
    (ds : List Detail) (queue : List ℕ) (raws : List (List ℕ)) (i : ℕ) (d : Detail)
    → get_elem? ds i ≡ some d
    → Waits ds queue raws
    → Waits ds (queue ++ i ∷ []) (raws ++ d.candidate.raw ∷ [])
Waits-last ds [] [] i d e w = ((d, e, refl), tt)
Waits-last ds (j ∷ queue) (raw ∷ raws) i d e (x, w) = (x, Waits-last ds queue raws i d e w)
Waits-last ds [] (raw ∷ raws) i d e w = absurd w
Waits-last ds (j ∷ queue) [] i d e w = absurd w

-- A change that keeps the candidates.
pub get_elem?-change :
    (f : Detail → Detail) (ds : List Detail) (i j : ℕ) (d : Detail)
    → ((x : Detail) → (f x).candidate ≡ x.candidate)
    → get_elem? ds j ≡ some d
    → (d' : Detail) × (get_elem? (change f i ds) j ≡ some d') × (d'.candidate ≡ d.candidate)
get_elem?-change f [] i j d keeps e = cc
get_elem?-change f (x ∷ ds) zero zero d keeps e = (f x, refl, ground (arith, keeps x))
get_elem?-change f (x ∷ ds) zero (suc j) d keeps e = (d, e, refl)
get_elem?-change f (x ∷ ds) (suc i) zero d keeps e = (d, e, refl)
get_elem?-change f (x ∷ ds) (suc i) (suc j) d keeps e = get_elem?-change f ds i j d keeps e

pub Waits-change :
    (f : Detail → Detail) (ds : List Detail) (i : ℕ) (queue : List ℕ) (raws : List (List ℕ))
    → ((x : Detail) → (f x).candidate ≡ x.candidate)
    → Waits ds queue raws
    → Waits (change f i ds) queue raws
Waits-change f ds i [] [] keeps w = tt
Waits-change f ds i (j ∷ queue) (raw ∷ raws) keeps ((d, e, h), w) =
    let (d', e', h') = get_elem?-change f ds i j d keeps e in
    ((d', e', ap (λ (c : FrameCandidate). c.raw) h' ∙ h), Waits-change f ds i queue raws keeps w)
Waits-change f ds i [] (raw ∷ raws) keeps w = absurd w
Waits-change f ds i (j ∷ queue) [] keeps w = absurd w

pub All-change :
    (P : Detail → Type 0) (f : Detail → Detail) (i : ℕ) (ds : List Detail)
    → ((d : Detail) → get_elem? ds i ≡ some d → P d → P (f d))
    → All P ds
    → All P (change f i ds)
All-change P f i [] h v = tt
All-change P f zero (d ∷ ds) h (p, v) = (h d refl p, v)
All-change P f (suc i) (d ∷ ds) h (p, v) = (p, All-change P f i ds h v)

pub candidate-Waits :
    (c : FrameCandidate) (s : Capture) (raws : List (List ℕ))
    → Waits s.telegrams s.valid_candidates raws
    → Waits (candidate c s).telegrams (candidate c s).valid_candidates (raws ++ valid (c ∷ []))
unfolding candidate
candidate-Waits c s raws w = elim (Bool-cases (crc_valid c)) [
  | inl e ↦ rw e (
      Waits-last (s.telegrams ++ plain c ∷ []) s.valid_candidates raws (length s.telegrams)
        (plain c) (get_elem?-last s.telegrams (plain c))
        (Waits-append s.telegrams (plain c ∷ []) s.valid_candidates raws w))
  | inr e ↦
      rw (e, append-nil raws) (Waits-append s.telegrams (plain c ∷ []) s.valid_candidates raws w)
]
