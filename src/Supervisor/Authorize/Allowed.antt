-- ===== src/Supervisor/Authorize/Allowed.antt =====
-- What an execution is that is allowed.
use outscan.Prelude.{◌<◌, ◌≡◌, refl, true, Option, none, some, arith, inl, inr, ◌⊎◌, Option-cases}
use mathlib.Core.Path.{subst}
use outscan.Js.{codes, Value, text_eq_sound}
use outscan.ScannerPolicy.{
  ScannerExecutionRequest, PolicyDecision, PolicyDenyCode, authorized, authorize_scanner_execution,
}
use outscan.ScannerPolicy.Authorized.{IsGranted, authorize-IsGranted}
use outscan.ScannerPolicy.Complete.{profile_name}
use outscan.Supervisor.{
  ExecutionEnvelope, TrustedExecutionState, ScannerTemplateApproval, ApprovalStatus, approved,
  revoked, allowed,
}
use outscan.Supervisor.Artifact.{parse_artifact_identity, matches_approval, artifact_value}
use outscan.Supervisor.Artifact.Matching.{matches_approval_sound}
use outscan.Supervisor.Authorize.{
  parse_envelope, approve, of_policy, authorize_envelope, authorize_supervisor_execution,
}

-- The envelope is the one of the trusted state, at a time before the end of its lease and before its
-- deadline.
abbrev pub IsCurrent : ExecutionEnvelope → TrustedExecutionState → Type 0
IsCurrent envelope trusted =
    (envelope.job_id ≡ trusted.job_id)
    × (envelope.attempt_id ≡ trusted.attempt_id)
    × (envelope.fence ≡ trusted.fence)
    × (envelope.canonical_target ≡ trusted.canonical_target)
    × (envelope.authorization_ref ≡ trusted.authorization_ref)
    × (envelope.lease_expires_at_unix_seconds ≡ trusted.lease_expires_at_unix_seconds)
    × (trusted.now_unix_seconds < trusted.lease_expires_at_unix_seconds)
    × (envelope.hard_deadline_unix_seconds ≡ trusted.hard_deadline_unix_seconds)
    × (trusted.now_unix_seconds < trusted.hard_deadline_unix_seconds)

-- The artifact is the one of the policy and of the profile, and the one that is approved.
abbrev pub IsApproved : ExecutionEnvelope → ScannerExecutionRequest → TrustedExecutionState → Type 0
IsApproved envelope request trusted =
    (envelope.artifact_identity.policy_id ≡ codes "outscan-v1")
    × (envelope.artifact_identity.policy_version ≡ codes "1.0.0")
    × (envelope.artifact_identity.profile ≡ profile_name request.profile)
    × ((approval : ScannerTemplateApproval) × (trusted.approval ≡ some approval)
        × (approval.status ≡ approved)
        × (parse_artifact_identity (artifact_value approval.artifact_identity)
            ≡ some envelope.artifact_identity))

PolicyDecision-cases :
    (d : PolicyDecision)
    → ((code : PolicyDenyCode) × (d ≡ PolicyDecision.denied code))
      ⊎ ((request : ScannerExecutionRequest) × (d ≡ authorized request))
PolicyDecision-cases (PolicyDecision.denied code) = inl (code, refl)
PolicyDecision-cases (authorized request) = inr (request, refl)

ApprovalStatus-cases : (s : ApprovalStatus) → (s ≡ approved) ⊎ (s ≡ revoked)
ApprovalStatus-cases approved = inl refl
ApprovalStatus-cases revoked = inr refl

approve_sound :
    (e : ExecutionEnvelope) (r : ScannerExecutionRequest) (o : Option ScannerTemplateApproval)
    {e' : ExecutionEnvelope} {r' : ScannerExecutionRequest}
    → approve e r o ≡ allowed e' r'
    → (e ≡ e')
      × (r ≡ r')
      × ((approval : ScannerTemplateApproval) × (o ≡ some approval)
          × (approval.status ≡ approved)
          × (matches_approval e.artifact_identity approval ≡ true))
approve_sound e r none h = cc
approve_sound e r (some approval) h = elim (ApprovalStatus-cases approval.status) [
  | inl good ↦ (
    ground (arith, h, good),
    ground (arith, h, good),
    (approval, refl, good, ground (arith, h, good)),
  )
  | inr bad ↦ ground (arith, h, bad)
]

envelope_sound :
    (e : ExecutionEnvelope) (policy : Value) (trusted : TrustedExecutionState)
    {e' : ExecutionEnvelope} {r : ScannerExecutionRequest}
    → authorize_envelope e policy trusted ≡ allowed e' r
    → IsCurrent e trusted
      × ((request : ScannerExecutionRequest) × (authorize_scanner_execution policy
            ≡ authorized request)
          × (of_policy e request ≡ true)
          × (approve e request trusted.approval ≡ allowed e' r))
unfolding authorize_envelope
envelope_sound e policy trusted h =
    elim (PolicyDecision-cases (authorize_scanner_execution policy)) [
      | inl (code, refused) ↦ ground (arith, h, refused)
      | inr (request, granted) ↦ (
        ground (
          arith,
          h,
          granted,
          text_eq_sound e.job_id trusted.job_id,
          text_eq_sound e.attempt_id trusted.attempt_id,
          text_eq_sound e.canonical_target trusted.canonical_target,
          text_eq_sound e.authorization_ref trusted.authorization_ref,
        ),
        (request, granted, ground (arith, h, granted), ground (arith, h, granted)),
      )
    ]

-- An execution is allowed only if its envelope has the shape that is asked for and is that of the
-- trusted state in identity, fence, target, authorisation, lease and deadline, neither of them over;
-- its policy is granted by the scanner policy; and its artifact is of that policy and profile and
-- the very artifact of an approval that stands.
pub authorize-IsApproved :
    (input : Value) (trusted : TrustedExecutionState) (envelope : ExecutionEnvelope)
    (request : ScannerExecutionRequest)
    → authorize_supervisor_execution input trusted ≡ allowed envelope request
    → (policy : Value) × (parse_envelope input ≡ some (envelope, policy))
      × IsCurrent envelope trusted
      × (authorize_scanner_execution policy ≡ authorized request)
      × IsGranted request
      × IsApproved envelope request trusted
unfolding authorize_supervisor_execution
authorize-IsApproved input trusted envelope request h = elim (Option-cases (parse_envelope input)) [
  | inl malformed ↦ ground (arith, h, malformed)
  | inr ((e, policy), parsed) ↦
      let (current, (r, granted, policy_ok, approving)) =
        envelope_sound e policy trusted (ground (arith, h, parsed)) in
      let (same, same_request, (approval, approval_is, good, matching)) =
        approve_sound e r trusted.approval approving in
      let found = matches_approval_sound e.artifact_identity approval matching in
      let identity : IsApproved e r trusted = (
        ground (arith, policy_ok, text_eq_sound e.artifact_identity.policy_id (codes "outscan-v1")),
        ground (arith, policy_ok, text_eq_sound e.artifact_identity.policy_version (codes "1.0.0")),
        ground
            (arith, policy_ok, text_eq_sound e.artifact_identity.profile (profile_name r.profile)),
        (approval, approval_is, good, found),
      ) in
      (
        policy,
        subst (λ x. parse_envelope input ≡ some (x, policy)) same parsed,
        subst (λ x. IsCurrent x trusted) same current,
        subst (λ x. authorize_scanner_execution policy ≡ authorized x) same_request granted,
        subst IsGranted same_request (authorize-IsGranted policy r granted),
        subst (λ x. IsApproved x request trusted) same
            (subst (λ x. IsApproved e x trusted) same_request identity),
      )
]
