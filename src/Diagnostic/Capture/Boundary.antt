-- ===== src/Diagnostic/Capture/Boundary.antt =====
-- Reading with Capture of src/lms200/hardware_diagnostic.py leaves the boundary of what was sent.
use gepruft_lidar.Prelude.{
  ℕ, ◌≡◌, refl, sym, ◌∙◌, ap, Bool, true, false, ◌&&◌, ◌==◌, Option, none, some, List, [], ◌∷◌,
  ◌++◌, get_elem?, if◌then◌else◌,
}
use gepruft_lidar.Prelude.Result.{Result, ok, err}
use gepruft_lidar.Protocol.Framing.{
  Frame, FrameCandidate, Event, Control, crc_valid, frame, control, feed,
}
use gepruft_lidar.Protocol.Responses.{Response, DeviceStatus, response, decode_status}
use gepruft_lidar.Diagnostic.Capture.{
  Capture, Direction, candidate, observe, is_past, offset_of, identity_of, on_startup, on_status,
  on_reply, on_frame, on_control, and_then, process, read,
}

either :
    (c : Bool) (s s' : Capture) (b : Option ℕ)
    → s.tx_boundary ≡ b
    → s'.tx_boundary ≡ b
    → (if c then s else s').tx_boundary ≡ b
either true s s' b h k = h
either false s s' b h k = k

observe-tx_boundary :
    (cs : List FrameCandidate) (s : Capture) → (observe cs s).tx_boundary ≡ s.tx_boundary
unfolding observe candidate
observe-tx_boundary [] s = refl
observe-tx_boundary (c ∷ cs) s =
    observe-tx_boundary cs (candidate c s) ∙ either (crc_valid c) _ _ s.tx_boundary refl refl

on_startup-tx_boundary :
    (i : ℕ) (r : Result (List ℕ)) (s : Capture) → (on_startup i r s).tx_boundary ≡ s.tx_boundary
on_startup-tx_boundary i (ok name) s = refl
on_startup-tx_boundary i (err e) s = refl

on_status-tx_boundary :
    (i : ℕ) (r : Result DeviceStatus) (s : Capture) → (on_status i r s).tx_boundary ≡ s.tx_boundary
on_status-tx_boundary i (ok status) s =
    either (is_past s.tx_boundary (offset_of (get_elem? s.telegrams i)) && s.post_ack) _ _
      s.tx_boundary refl refl
on_status-tx_boundary i (err e) s = refl

on_reply-tx_boundary :
    (i : ℕ) (f : Frame) (r : Result Response) (s : Capture)
    → (on_reply i f r s).tx_boundary ≡ s.tx_boundary
unfolding on_reply
on_reply-tx_boundary i f (err e) s = refl
on_reply-tx_boundary i f (ok reply) s =
    either (reply.command == 0x90) _ _ s.tx_boundary
      (on_startup-tx_boundary i (identity_of f reply) _)
      (either (reply.command == 0xB1) _ _ s.tx_boundary
        (on_status-tx_boundary i (decode_status reply) _) refl)

on_control-tx_boundary :
    (c : Control) (phase : Direction) (s : Capture)
    → (on_control c phase s).tx_boundary ≡ s.tx_boundary
on_control-tx_boundary Control.ack phase s = refl
on_control-tx_boundary Control.nak phase s = refl

abbrev boundary_of : Option Capture → Option ℕ
boundary_of none = none
boundary_of (some s) = s.tx_boundary

process-tx_boundary :
    (events : List Event) (phase : Direction) (s s' : Capture)
    → process events phase s ≡ some s'
    → s'.tx_boundary ≡ s.tx_boundary
unfolding process
process-tx_boundary [] phase s s' e = ap boundary_of (sym e)
process-tx_boundary (control c ∷ events) phase s s' e =
    process-tx_boundary events phase (on_control c phase s) s' e ∙ on_control-tx_boundary c phase s
process-tx_boundary (frame f ∷ events) phase s s' e =
    framed s.valid_candidates e (λ x h. process-tx_boundary events phase x s' h)
  where
    framed :
        (queue : List ℕ)
        → and_then (on_frame f queue s) (process events phase) ≡ some s'
        → ((x : Capture) → process events phase x ≡ some s' → s'.tx_boundary ≡ x.tx_boundary)
        → s'.tx_boundary ≡ s.tx_boundary
    framed [] h again = cc
    framed (i ∷ queue) h again =
        again _ h ∙ on_reply-tx_boundary i f (response f 0) (record s { valid_candidates = queue })

pub read-tx_boundary :
    (bytes : List ℕ) (phase : Direction) (framed : Bool) (s s' : Capture)
    → read bytes phase framed s ≡ some s'
    → s'.tx_boundary ≡ s.tx_boundary
unfolding read
read-tx_boundary [] phase framed s s' e = ap boundary_of (sym e)
read-tx_boundary (b ∷ bs) phase false s s' e = ap boundary_of (sym e)
read-tx_boundary (b ∷ bs) phase true s s' e =
    process-tx_boundary (feed s.framer (b ∷ bs)).events phase _ s' e
    ∙ observe-tx_boundary (feed s.framer (b ∷ bs)).observed (record s { raw = s.raw ++ b ∷ bs })
