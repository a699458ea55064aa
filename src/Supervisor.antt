-- ===== src/Supervisor.antt =====
-- What the supervisor is told and answers: apps/api/src/supervisor/model.ts.
pub mod Artifact
pub mod Authorize
use outscan.Prelude.{ℕ, Option, List}
use outscan.Js.{Text, Value}
use outscan.ScannerPolicy.{ScannerExecutionRequest, PolicyDenyCode}

pub record ScannerArtifactIdentity : Type 0 where
  pub template_workflow_digest : Text
  pub transitive_dependency_digests : List Text
  pub engine_version : Text
  pub scanner_image_digest : Text
  pub config_version : Text
  pub policy_id : Text
  pub policy_version : Text
  pub profile : Text

pub data ApprovalStatus : Type 0 where
  approved : ApprovalStatus
  revoked : ApprovalStatus

pub record ScannerTemplateApproval : Type 0 where
  pub approval_id : Text
  pub status : ApprovalStatus
  pub artifact_identity : ScannerArtifactIdentity

-- The envelope without its policy; `schema_version` has the literal type 1.
pub record ExecutionEnvelope : Type 0 where
  pub job_id : Text
  pub attempt_id : Text
  pub fence : ℕ
  pub canonical_target : Text
  pub authorization_ref : Text
  pub lease_expires_at_unix_seconds : ℕ
  pub hard_deadline_unix_seconds : ℕ
  pub artifact_identity : ScannerArtifactIdentity

pub record TrustedExecutionState : Type 0 where
  pub now_unix_seconds : ℕ
  pub job_id : Text
  pub attempt_id : Text
  pub fence : ℕ
  pub canonical_target : Text
  pub authorization_ref : Text
  pub lease_expires_at_unix_seconds : ℕ
  pub hard_deadline_unix_seconds : ℕ
  pub approval : Option ScannerTemplateApproval

pub data SupervisorDenyCode : Type 0 where
  invalid_envelope : SupervisorDenyCode
  stale_attempt : SupervisorDenyCode
  authorization_mismatch : SupervisorDenyCode
  lease_expired : SupervisorDenyCode
  attempt_deadline_exceeded : SupervisorDenyCode
  policy_denied : PolicyDenyCode → SupervisorDenyCode
  approval_required : SupervisorDenyCode
  approval_revoked : SupervisorDenyCode
  artifact_not_approved : SupervisorDenyCode

-- The envelope of an execution that is allowed comes with the policy's own copy of the request.
pub data SupervisorDecision : Type 0 where
  allowed : ExecutionEnvelope → ScannerExecutionRequest → SupervisorDecision
  denied : SupervisorDenyCode → SupervisorDecision
