-- ===== src/Ingress/Signature.antt =====
-- src/wootpilot/application/security.py: verify_chatwoot_signature. The digest is a parameter.
use Prim.Native.Nat.{ℕ, ◌+◌, ◌≤◌, ◌-◌}
use mathlib.Core.Path.{◌≡◌, refl}
use mathlib.Core.Logic.{◌↔◌}
use mathlib.Core.Bool.{Bool, true, false, ◌||◌, not}
use mathlib.Core.Option.{Option, none, some}
use mathlib.Core.List.{[], ◌∷◌, ◌++◌}
use native.Mathlib.Omega.{arith}
use wootpilot.Prelude.Tests.{ltb, leb, if◌then◌else◌}
use wootpilot.Prelude.Lists.{all}
use wootpilot.Prelude.Text.{Text, codes, truthy, str_eq, str_eq_iff}
use wootpilot.Domain.Outbound.{Settings, seconds}
use wootpilot.Persistence.MessageOrder.{Signed, parse_int}

-- The headers of the configured names, where they are present, and the body.
pub record SignedRequest : Type 0 where
  pub signature : Option Text
  pub timestamp : Option Text
  pub body : Text

-- `rejected` is an HTTPException of status 401; `raised` is any other exception.
pub data Verdict : Type 0 where
  accepted : Verdict
  rejected : (detail : Text) → Verdict
  raised : Verdict

-- The seconds that datetime.fromtimestamp takes: the years 1 to 9999.
abbrev pub in_range : Signed → Bool
in_range t = if t.negative then leb t.magnitude 62135596800 else leb t.magnitude 253402300799

-- abs(now - received), in microseconds
unfoldable pub age : (now : ℕ) → Signed → ℕ
age now t =
    let received = seconds t.magnitude in
    if t.negative
    then now + received
    else if leb received now
    then now - received
    else received - now

-- compare_digest takes ASCII only
abbrev pub is_ascii : Text → Bool
is_ascii t = all (λ c. ltb c 128) t

abbrev pub text_of : Option Text → Text
text_of none = []
text_of (some t) = t

module _ (decimal : ℕ → Option ℕ) (hexdigest : (secret message : Text) → Text) where
  -- f"sha256={digest}"
  unfoldable pub expected_signature : Settings → (timestamp body : Text) → Text
  expected_signature settings timestamp body =
      codes "sha256=" ++ hexdigest settings.chatwoot_webhook_secret (timestamp ++ (b'.' ∷ body))

  unfoldable pub compare_signature : Settings → (signature timestamp body : Text) → Verdict
  compare_signature settings signature timestamp body =
      if not (is_ascii signature)
      then Verdict.raised
      else if not (str_eq signature (expected_signature settings timestamp body))
      then Verdict.rejected (codes "invalid Chatwoot signature")
      else Verdict.accepted

  unfoldable pub check_age :
      Settings → (now : ℕ) (signature timestamp body : Text) → Option Signed → Verdict
  unfolding compare_signature
  check_age settings now signature timestamp body none =
      Verdict.rejected (codes "invalid webhook timestamp")
  check_age settings now signature timestamp body (some t) =
      if not (in_range t)
      then Verdict.raised
      else if ltb (seconds settings.webhook_replay_window_seconds) (age now t)
      then Verdict.rejected (codes "stale webhook timestamp")
      else compare_signature settings signature timestamp body

  unfoldable pub verify_chatwoot_signature : Settings → (now : ℕ) → SignedRequest → Verdict
  unfolding check_age
  verify_chatwoot_signature settings now request =
      let secret = settings.chatwoot_webhook_secret in
      let signature = text_of request.signature in
      let timestamp = text_of request.timestamp in
      if not (truthy secret) || str_eq secret (codes "change-me")
      then Verdict.rejected (codes "webhook secret is not configured")
      else if not (truthy signature) || not (truthy timestamp)
      then Verdict.rejected (codes "missing Chatwoot signature headers")
      else check_age settings now signature timestamp request.body (parse_int decimal timestamp)

  -- A request that the holder of the secret signed within the replay window.
  pub record Authentic (settings : Settings) (now : ℕ) (request : SignedRequest) : Type 0 where
    pub has_secret : truthy settings.chatwoot_webhook_secret ≡ true
    pub own_secret : str_eq settings.chatwoot_webhook_secret (codes "change-me") ≡ false
    pub signed : truthy (text_of request.signature) ≡ true
    pub dated : truthy (text_of request.timestamp) ≡ true
    pub sent_at : Signed
    pub parsed : parse_int decimal (text_of request.timestamp) ≡ some sent_at
    pub representable : in_range sent_at ≡ true
    pub recent : age now sent_at ≤ seconds settings.webhook_replay_window_seconds
    pub ascii : is_ascii (text_of request.signature) ≡ true
    pub matches :
        text_of request.signature
        ≡ expected_signature settings (text_of request.timestamp) request.body

  accepted→Authentic :
      (settings : Settings) (now : ℕ) (request : SignedRequest) (parsed : Option Signed)
      → parse_int decimal (text_of request.timestamp) ≡ parsed
      → verify_chatwoot_signature settings now request ≡ Verdict.accepted
      → Authentic settings now request
  unfolding verify_chatwoot_signature
  accepted→Authentic settings now request none e h = absurd (ground arith)
  accepted→Authentic settings now request (some t) e h =
      let s = text_of request.signature in
      let same : str_eq s (expected_signature settings (text_of request.timestamp) request.body)
          ≡ true =
        ground arith in
      record {
        has_secret = ground arith;
        own_secret = ground arith;
        signed = ground arith;
        dated = ground arith;
        sent_at = t;
        parsed = e;
        representable = ground arith;
        recent = ground arith;
        ascii = ground arith;
        matches =
            (str_eq_iff s (expected_signature settings (text_of request.timestamp) request.body)).0
              same;
      }

  Authentic→accepted :
      (settings : Settings) (now : ℕ) (request : SignedRequest)
      → Authentic settings now request
      → verify_chatwoot_signature settings now request ≡ Verdict.accepted
  unfolding verify_chatwoot_signature
  Authentic→accepted settings now request a =
      let s = text_of request.signature in
      let same =
        (str_eq_iff s (expected_signature settings (text_of request.timestamp) request.body)).1
          a.matches in
      ground (arith, same)

-- The check accepts a request exactly when a secret of one's own is configured, both headers are
-- present and not empty, the timestamp is an integer in the range of dates and at most the replay
-- window away from now, and the signature is the digest of the timestamp and the body.
pub verify_chatwoot_signature-accepted_iff :
    (decimal : ℕ → Option ℕ) (hexdigest : (secret message : Text) → Text) (settings : Settings)
    (now : ℕ) (request : SignedRequest)
    → (verify_chatwoot_signature decimal hexdigest settings now request ≡ Verdict.accepted)
      ↔ Authentic decimal hexdigest settings now request
verify_chatwoot_signature-accepted_iff decimal hexdigest settings now request = (
  accepted→Authentic decimal hexdigest settings now request
      (parse_int decimal (text_of request.timestamp)) refl,
  Authentic→accepted decimal hexdigest settings now request,
)
