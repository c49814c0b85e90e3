-- ===== src/Diagnostic/Capture/Pending.antt =====
-- Capture of src/lms200/hardware_diagnostic.py while it decodes a telegram.
use gepruft_lidar.Prelude.{
  ==_iff, ℕ, ◌==◌, ◌≡◌, refl, sym, ap, ◌∙◌, inl, inr, Bool, true, false, ◌&&◌, Option, none, some,
  List, [], ◌∷◌, get_elem?, All, Bool-cases, subst,
}
use gepruft_lidar.Prelude.Result.{Result, Error, ok, err}
use gepruft_lidar.Protocol.Framing.{Frame, FrameCandidate}
use gepruft_lidar.Protocol.Responses.{Response, DeviceStatus, response, decode_status}
use gepruft_lidar.Diagnostic.Capture.Answer.{
  IsCredible, KeepsAnswer, note-IsCredible, answered-IsCredible, named-IsCredible,
}
use gepruft_lidar.Diagnostic.Capture.{
  Capture, Detail, note, identity_of, note_error, on_startup, on_status, on_reply, is_past,
  offset_of,
}
use gepruft_lidar.Protocol.Framing.Kept.{IsCut}
use gepruft_lidar.Diagnostic.Capture.Queue.{
  HasStatus, HasIdentity, HasEvidence, Waits, Waits-change, All-change,
}

-- The state while a telegram is decoded: the positions `queue` are those of the telegrams with the
-- bytes `raws`, and the queue of the object is `left`.
pub record IsPending (left queue : List ℕ) (raws : List (List ℕ)) (s : Capture) : Type 0 where
  pub waits : Waits s.telegrams queue raws
  pub evidence : All HasEvidence s.telegrams
  pub credible : IsCredible s
  pub queue_left : s.valid_candidates ≡ left

same_status :
    (d d' : Detail)
    → d'.candidate ≡ d.candidate
    → d'.decoded_status ≡ d.decoded_status
    → HasStatus d
    → HasStatus d'
same_status d d' c e (inl h) = inl (e ∙ h)
same_status d d' c e (inr (status, h)) = inr (
  status,
  record {
    source = h.source;
    reply = h.reply;
    same_bytes = h.same_bytes ∙ ap (λ (x : FrameCandidate). x.raw) (sym c);
    cut = h.cut;
    replied = h.replied;
    decoded = h.decoded;
    noted = e ∙ h.noted;
  },
)

same_identity :
    (d d' : Detail)
    → d'.candidate ≡ d.candidate
    → d'.identity ≡ d.identity
    → HasIdentity d
    → HasIdentity d'
same_identity d d' c e (inl h) = inl (e ∙ h)
same_identity d d' c e (inr (name, h)) = inr (
  name,
  record {
    source = h.source;
    reply = h.reply;
    same_bytes = h.same_bytes ∙ ap (λ (x : FrameCandidate). x.raw) (sym c);
    cut = h.cut;
    replied = h.replied;
    command = h.command;
    identified = h.identified;
    noted = e ∙ h.noted;
  },
)

module _ (i : ℕ) (f : Frame) (is_cut : IsCut f) (left queue : List ℕ) (raws : List (List ℕ)) where
  abbrev pub Holds : Capture → Type 0
  Holds s = IsPending left (i ∷ queue) (f.raw ∷ raws) s

  note-Holds :
      (g : Detail → Detail) (s : Capture)
      → KeepsAnswer g
      → ((d : Detail) → get_elem? s.telegrams i ≡ some d → HasEvidence d → HasEvidence (g d))
      → Holds s
      → Holds (note g i s)
  note-Holds g s keeps h v = record {
    waits = Waits-change g s.telegrams i (i ∷ queue) (f.raw ∷ raws) (λ d. (keeps d).0) v.waits;
    evidence = All-change HasEvidence g i s.telegrams h v.evidence;
    credible = note-IsCredible g i s keeps v.credible;
    queue_left = v.queue_left;
  }

  -- A change that keeps the decoded status and the identity as well.
  note_same-Holds :
      (g : Detail → Detail) (s : Capture)
      → ((d : Detail)
          → ((g d).candidate ≡ d.candidate)
            × ((g d).decoded_status ≡ d.decoded_status)
            × ((g d).identity ≡ d.identity))
      → Holds s
      → Holds (note g i s)
  note_same-Holds g s keeps v =
      note-Holds g s (λ d. ((keeps d).0, (λ p. rw ((keeps d).1) p), (λ p. rw ((keeps d).2) p)))
        (λ d e h. (
          same_status d (g d) (keeps d).0 (keeps d).1 h.0,
          same_identity d (g d) (keeps d).0 (keeps d).2 h.1,
        ))
        v

  note_error-Holds : (e : Error) (s : Capture) → Holds s → Holds (note_error i e s)
  note_error-Holds e s v = note_same-Holds _ s (λ d. (refl, refl, refl)) v

  -- The telegram at the position has the bytes of the frame.
  at_position :
      (s : Capture) (d : Detail)
      → Holds s
      → get_elem? s.telegrams i ≡ some d
      → f.raw ≡ d.candidate.raw
  at_position s d v e =
      let ((x, found, raw), w) = v.waits in
      sym raw ∙ ap (λ (o : Option Detail). raw_of o) (sym found ∙ e)
    where
      raw_of : Option Detail → List ℕ
      raw_of none = []
      raw_of (some y) = y.candidate.raw

  on_startup-Holds :
      (reply : Response) (r : Result (List ℕ)) (s : Capture)
      → response f 0 ≡ ok reply
      → reply.command ≡ 0x90
      → identity_of f reply ≡ r
      → Holds s
      → Holds (on_startup i r s)
  on_startup-Holds reply (ok name) s p c q v =
      let g : Detail → Detail = λ d. record d { identity = some name } in
      let w : Holds (note g i s) =
        note-Holds g s (λ d. (refl, (λ h. h), (λ h. refl)))
          (λ d e h. (
            same_status d (g d) refl refl h.0,
            inr (
              name,
              record {
                source = f;
                reply = reply;
                same_bytes = at_position s d v e;
                cut = is_cut;
                replied = p;
                command = c;
                identified = q;
                noted = refl;
              },
            ),
          ))
          v in
      let ((x, found, raw), rest) = v.waits in
      record {
        waits = w.waits;
        evidence = w.evidence;
        credible =
            named-IsCredible g s i x found refl (λ d. (refl, (λ h. h), (λ h. refl))) v.credible;
        queue_left = w.queue_left;
      }
  on_startup-Holds reply (err e) s p c q v = note_error-Holds e s v

  on_status-Holds :
      (reply : Response) (r : Result DeviceStatus) (s : Capture)
      → response f 0 ≡ ok reply
      → decode_status reply ≡ r
      → Holds s
      → Holds (on_status i r s)
  on_status-Holds reply (err e) s p q v = note_error-Holds e s v
  on_status-Holds reply (ok status) s p q v =
      let g : Detail → Detail =
        λ d. record d { decoded_status = some status; preceding_ack = some s.post_ack } in
      let w : Holds (note g i s) =
        note-Holds g s (λ d. (refl, (λ h. refl), (λ h. h)))
          (λ d e h. (
            inr (
              status,
              record {
                source = f;
                reply = reply;
                same_bytes = at_position s d v e;
                cut = is_cut;
                replied = p;
                decoded = q;
                noted = refl;
              },
            ),
            same_identity d (g d) refl refl h.1,
          ))
          v in
      elim (Bool-cases
        (is_past s.tx_boundary (offset_of (get_elem? s.telegrams i)) && s.post_ack)) [
          | inl e ↦ rw e (record {
            waits = w.waits;
            evidence = w.evidence;
            credible = answers e;
            queue_left = w.queue_left;
          })
          | inr e ↦ rw e w
        ]
    where
      both : (a b : Bool) → (a && b) ≡ true → (a ≡ true) × (b ≡ true)
      both true b h = (refl, h)
      both false b h = cc

      written : Capture
      written =
          note (λ d. record d { decoded_status = some status; preceding_ack = some s.post_ack }) i s

      answers :
          (is_past s.tx_boundary (offset_of (get_elem? s.telegrams i)) && s.post_ack) ≡ true
          → IsCredible (record written { status = some i })
      answers e =
          let ((x, found, raw), rest) = v.waits in
          let (past, acked) = both _ _ e in
          answered-IsCredible
            (λ d. record d { decoded_status = some status; preceding_ack = some s.post_ack }) s _ i
            x found refl refl acked refl refl
            (subst (λ (o : Option Detail). is_past s.tx_boundary (offset_of o) ≡ true) found past)
            refl (λ d. (refl, (λ h. refl), (λ h. h))) v.credible

  pub on_reply-Holds :
      (r : Result Response) (s : Capture) → response f 0 ≡ r → Holds s → Holds (on_reply i f r s)
  unfolding on_reply
  on_reply-Holds (err e) s p v = note_error-Holds e s v
  on_reply-Holds (ok reply) s p v =
      let w : Holds (note (λ d. record d { status_byte = some reply.status }) i s) =
        note_same-Holds _ s (λ d. (refl, refl, refl)) v in
      let s' : Capture = note (λ d. record d { status_byte = some reply.status }) i s in
      elim (Bool-cases (reply.command == 0x90)) [
        | inl e ↦ rw e (on_startup-Holds reply (identity_of f reply) s' p ((==_iff _ _).0 e) refl w)
        | inr e ↦ elim (Bool-cases (reply.command == 0xB1)) [
          | inl e' ↦ rw (e, e') (on_status-Holds reply (decode_status reply) s' p refl w)
          | inr e' ↦ rw (e, e') w
        ]
      ]
