-- ===== src/Evidence/Validate/Examples.antt =====
-- The checks of static_analysis/contracts.rs on small inputs.
use pre_commit_review.Prelude.{
  ◌≡◌, ◌<◌, ◌↔◌, refl, true, [], ◌∷◌, none, some, ok, err, codes, length,
}
use pre_commit_review.Evidence.Contracts.{
  ToolIdentity, ReportStatus, Severity, FindingCategory, Confidence, BaselineState, OutputFormat,
  EvidenceTrust, EvidenceScopeBinding, EvidenceReport,
}
use pre_commit_review.Evidence.Validate.{
  InputFinding, StaticAnalysisInput, ProfileLimits, contract_error, compact_id_matches,
  validate_input, validate_limits, validate_report,
}
use pre_commit_review.Evidence.Validate.Accepted.{
  IsBounded, Provenance, validate_limits-IsBounded, validate_report-Provenance,
}
use pre_commit_review.Evidence.Validate.Orchestration.{
  OrchestrationLimits, IsWithin, validate_orchestration, validate_orchestration-IsWithin,
}
use pre_commit_review.Evidence.Validate.Inputs.{IsValidInput, validate_input-IsValidInput}

abbrev limits : ProfileLimits
limits = record {
  timeout_seconds = 600;
  max_output_bytes = 1_024;
  max_snapshot_bytes = 1_048_576;
  max_snapshot_files = 1;
}

validate_limits-IsBounded_example : (validate_limits limits ≡ ok tt) ↔ IsBounded limits
validate_limits-IsBounded_example = validate_limits-IsBounded limits

limits_accepted : validate_limits limits ≡ ok tt
unfolding validate_limits
limits_accepted = refl

abbrev tool : ToolIdentity
tool = record { name = codes "lint"; version = none }

abbrev report : EvidenceReport
report = record {
  report_id = codes "0123456789abcdef";
  format = OutputFormat.sarif;
  tool = tool;
  status = ReportStatus.completed;
  trust = EvidenceTrust.controlled_execution;
  scope_binding = EvidenceScopeBinding.controlled_execution;
  execution_id = some (codes "fedcba9876543210");
  finding_count = 1;
}

report_accepted : validate_report report ≡ ok tt
unfolding validate_report
report_accepted = refl

validate_report-Provenance_example :
    (compact_id_matches report.report_id ≡ true)
    × (0 < length report.tool.name)
    × Provenance report.trust report
validate_report-Provenance_example = validate_report-Provenance report report_accepted

abbrev finding : InputFinding
finding = record {
  rule_id = codes "rule";
  message = codes "message";
  path = codes "a.rs";
  start_line = some 3;
  end_line = some 3;
  severity = Severity.warning;
  category = FindingCategory.correctness;
  confidence = Confidence.high;
  baseline_state = BaselineState.new;
}

abbrev input : InputFinding → StaticAnalysisInput
input f = record {
  schema_version = 1;
  kind = codes "static_analysis_input";
  scope_fingerprint = codes "0123456789abcdef0123456789abcdef01234567";
  tool = tool;
  status = ReportStatus.completed;
  findings = f ∷ [];
}

input_accepted : validate_input (input finding) ≡ ok tt
unfolding validate_input
input_accepted = refl

input_refused :
    validate_input (input (record finding { end_line = some 2 }))
    ≡ err (contract_error "finding.end_line cannot precede finding.start_line")
unfolding validate_input
input_refused = refl

validate_input-IsValidInput_example :
    (validate_input (input finding) ≡ ok tt) ↔ IsValidInput (input finding)
validate_input-IsValidInput_example = validate_input-IsValidInput (input finding)

abbrev orchestration : OrchestrationLimits
orchestration = record {
  max_execution_seconds = 1_800;
  max_captured_output_bytes = 1_024;
  max_findings = 5_000;
  max_snapshot_bytes = 1_048_576;
  max_snapshot_files = 1;
}

validate_orchestration-IsWithin_example :
    (validate_orchestration orchestration ≡ ok tt) ↔ IsWithin orchestration
validate_orchestration-IsWithin_example = validate_orchestration-IsWithin orchestration
