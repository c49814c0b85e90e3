-- ===== src/Diagnostic/Modes/Startup.antt =====
-- The startup telegram that listen-startup of src/lms200/hardware_diagnostic.py looks for.
use gepruft_lidar.Prelude.{
  ℕ, ◌≡◌, refl, true, Option, none, some, List, length, take, same, same→eq, get_elem?, arith, inl,
  inr,
}
use gepruft_lidar.Prelude.Result.{ok}
use gepruft_lidar.Protocol.Framing.{Frame}
use gepruft_lidar.Protocol.Responses.{Response, strip}
use gepruft_lidar.Diagnostic.Capture.{Capture, Detail, identity_of, is_present, lms200}
use gepruft_lidar.Diagnostic.Capture.Answer.{IsNamed}
use gepruft_lidar.Diagnostic.Capture.Queue.{HasEvidence, HasIdentity, IsIdentified}
use gepruft_lidar.Diagnostic.Capture.Evidence.{IsSettled}
use gepruft_lidar.Diagnostic.Repeat.Limits.{All-get_elem?}

-- The capture holds a startup telegram: the reply in its bytes is a 90 with a payload of 23 bytes,
-- whose text starts with `LMS200;` and is the identity.
pub record IsStarted (s : Capture) : Type 0 where
  pub index : ℕ
  pub telegram : Detail
  pub name : List ℕ
  pub startup : s.startup ≡ some index
  pub found : get_elem? s.telegrams index ≡ some telegram
  pub identified : IsIdentified telegram name
  pub long : length identified.source.payload ≡ 23
  pub starts : take 7 identified.reply.body ≡ lms200
  pub text : name ≡ strip identified.reply.body

identity_lem :
    (f : Frame) (reply : Response) (name : List ℕ)
    → identity_of f reply ≡ ok name
    → (length f.payload ≡ 23) × (same (take 7 reply.body) lms200 ≡ true) × (name ≡ strip reply.body)
identity_lem f reply name e = ground (arith, e)

named_evidence :
    (d : Detail)
    → HasIdentity d
    → is_present d.identity ≡ true
    → (name : List ℕ) × IsIdentified d name
named_evidence d (inl e) h = cc
named_evidence d (inr x) h = x

present : (o : Option ℕ) → is_present o ≡ true → (i : ℕ) × (o ≡ some i)
present none e = cc
present (some i) e = (i, refl)

pub startup-IsStarted : (s : Capture) → IsSettled s → is_present s.startup ≡ true → IsStarted s
startup-IsStarted s settled h =
    let (i, e) = present s.startup h in
    let n : IsNamed s.telegrams i = settled.credible.1 i e in
    let (name, x) =
      named_evidence n.telegram
        (All-get_elem? HasEvidence s.telegrams i n.telegram settled.evidence n.found).1 n.named in
    let (long, starts, text) = identity_lem x.source x.reply name x.identified in
    record {
      index = i;
      telegram = n.telegram;
      name = name;
      startup = e;
      found = n.found;
      identified = x;
      long = long;
      starts = same→eq (take 7 x.reply.body) lms200 starts;
      text = text;
    }
