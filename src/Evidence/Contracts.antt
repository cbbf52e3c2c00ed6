-- ===== src/Evidence/Contracts.antt =====
-- The evidence types of static_analysis/contracts.rs. A string is the bytes of its UTF-8.
use pre_commit_review.Prelude.{ℕ, Bool, List, Option, Bytes}
use pre_commit_review.ReviewScope.WorkOrder.{ReviewSource}

pub record ToolIdentity : Type 0 where
  pub name : Bytes
  pub version : Option Bytes

pub data ReportStatus : Type 0 where
  completed failed timeout unavailable : ReportStatus

pub data Severity : Type 0 where
  critical error warning note none unknown : Severity

-- `data_loss` is the constructor `Data`.
pub data FindingCategory : Type 0 where
  security privacy build correctness data_loss compatibility reliability : FindingCategory
  performance maintainability unknown : FindingCategory

pub data Confidence : Type 0 where
  very_high high medium low unknown : Confidence

pub data BaselineState : Type 0 where
  new existing unknown : BaselineState

pub data OutputFormat : Type 0 where
  sarif normalized_json : OutputFormat

pub data EvidenceTrust : Type 0 where
  explicit_input controlled_execution : EvidenceTrust

pub data EvidenceScopeBinding : Type 0 where
  embedded explicit_assertion controlled_execution : EvidenceScopeBinding

pub record EvidenceReport : Type 0 where
  pub report_id : Bytes
  pub format : OutputFormat
  pub tool : ToolIdentity
  pub status : ReportStatus
  pub trust : EvidenceTrust
  pub scope_binding : EvidenceScopeBinding
  pub execution_id : Option Bytes
  pub finding_count : ℕ

pub record EvidenceScope : Type 0 where
  pub source : ReviewSource
  pub head : Bytes
  pub fingerprint : Bytes

pub record EvidenceCounts : Type 0 where
  pub reports : ℕ
  pub input_findings : ℕ
  pub deduplicated_findings : ℕ
  pub mapped_to_units : ℕ
  pub added_line : ℕ
  pub blocking_candidates : ℕ
  pub priority_candidates : ℕ
  pub notes : ℕ
  pub outside_scope : ℕ

pub data LineScope : Type 0 where
  added unchanged outside_scope unknown : LineScope

pub data FindingDisposition : Type 0 where
  blocking_candidate priority_candidate note outside_scope : FindingDisposition

pub record EvidenceFinding : Type 0 where
  pub finding_id : Bytes
  pub report_ids : List Bytes
  pub tool : ToolIdentity
  pub rule_id : Bytes
  pub message : Bytes
  pub path : Bytes
  pub start_line : Option ℕ
  pub end_line : Option ℕ
  pub severity : Severity
  pub category : FindingCategory
  pub confidence : Confidence
  pub baseline_state : BaselineState
  pub manifest_unit_id : Option Bytes
  pub line_scope : LineScope
  pub disposition : FindingDisposition
  pub blocking_candidate : Bool

pub record DecisionContract : Type 0 where
  pub blocking : Bytes
  pub non_blocking : Bytes
  pub verification : Bytes
  pub finalization : Bytes

pub record StaticAnalysisEvidence : Type 0 where
  pub schema_version : ℕ
  pub kind : Bytes
  pub authoritative : Bool
  pub scope : EvidenceScope
  pub reports : List EvidenceReport
  pub counts : EvidenceCounts
  pub findings : List EvidenceFinding
  pub truncated : Bool
  pub decision_contract : DecisionContract

pub record ExecutionEvidenceLinks : Type 0 where
  pub report_ids : List Bytes

-- The records of the profile, the executable, the snapshot, the isolation and the execution, which
-- the union never reads, are one field of the type `X`.
pub record StaticAnalysisExecution (X : Type 0) : Type 0 where
  pub schema_version : ℕ
  pub kind : Bytes
  pub authoritative : Bool
  pub execution_id : Bytes
  pub scope : EvidenceScope
  pub tool : ToolIdentity
  pub records : X
  pub evidence : ExecutionEvidenceLinks
