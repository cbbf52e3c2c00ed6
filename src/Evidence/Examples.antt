-- ===== src/Evidence/Examples.antt =====
-- Two runs through `union_evidence` of static_analysis/evidence_union.rs.
use pre_commit_review.Prelude.{
  ◌≡◌, refl, true, false, ◌||◌, List, [], ◌∷◌, none, Result, ok, err, Bytes, String, codes, ltb,
  length, take, drop, min, usize_max, All,
}
use pre_commit_review.ReviewScope.WorkOrder.{ReviewSource}
use pre_commit_review.Evidence.Contracts.{
  ReportStatus, Severity, FindingCategory, Confidence, BaselineState, OutputFormat, EvidenceTrust,
  EvidenceScopeBinding, EvidenceReport, EvidenceScope, LineScope, FindingDisposition,
  EvidenceFinding, StaticAnalysisEvidence, ToolIdentity,
}
use pre_commit_review.Evidence.Rename.{OrchestrationError}
use pre_commit_review.Evidence.Union.{
  EvidenceRun, empty_counts, empty_decision_contract, union_evidence,
}
use pre_commit_review.Evidence.Union.Counts.{Counter, count_of}
use pre_commit_review.Evidence.Union.Exact.{gather, any_truncated, sum_of, union_exact}
use pre_commit_review.Evidence.Union.Links.{Resolve}
use pre_commit_review.Evidence.Union.Resolved.{evidence_linked}

-- A digest that shows the execution and the source behind the label.
abbrev hex_digest : Bytes → Bytes
hex_digest = drop 24

abbrev scope : EvidenceScope
scope = record { source = ReviewSource.staged; head = codes "h"; fingerprint = codes "f" }

abbrev tool : ToolIdentity
tool = record { name = codes "lint"; version = none }

abbrev report : String → EvidenceReport
report id = record {
  report_id = codes id;
  format = OutputFormat.sarif;
  tool = tool;
  status = ReportStatus.completed;
  trust = EvidenceTrust.controlled_execution;
  scope_binding = EvidenceScopeBinding.controlled_execution;
  execution_id = none;
  finding_count = 1;
}

abbrev finding : String → String → EvidenceFinding
finding id report_id = record {
  finding_id = codes id;
  report_ids = codes report_id ∷ [];
  tool = tool;
  rule_id = codes "rule";
  message = codes "message";
  path = codes "a.rs";
  start_line = none;
  end_line = none;
  severity = Severity.warning;
  category = FindingCategory.correctness;
  confidence = Confidence.high;
  baseline_state = BaselineState.new;
  manifest_unit_id = none;
  line_scope = LineScope.added;
  disposition = FindingDisposition.note;
  blocking_candidate = false;
}

abbrev evidence : List EvidenceReport → List EvidenceFinding → StaticAnalysisEvidence
evidence reports findings = record {
  schema_version = 1;
  kind = codes "static_analysis_evidence";
  authoritative = true;
  scope = scope;
  reports = reports;
  counts = record empty_counts { reports = 1; notes = usize_max };
  findings = findings;
  truncated = false;
  decision_contract = empty_decision_contract;
}

abbrev run : String → EvidenceRun (Unit {0})
run id = record {
  execution = record {
    schema_version = 1;
    kind = codes "static_analysis_execution";
    authoritative = true;
    execution_id = codes id;
    scope = scope;
    tool = tool;
    records = tt;
    evidence = record { report_ids = codes "r" ∷ [] };
  };
  evidence = evidence (report "r" ∷ []) (finding "f" "r" ∷ []);
}

abbrev runs : List (EvidenceRun (Unit {0}))
runs = run "e1" ∷ run "e2" ∷ []

abbrev result : Result StaticAnalysisEvidence OrchestrationError → StaticAnalysisEvidence
result (ok e) = e
result (err x) = evidence [] []

unfoldable returned : StaticAnalysisEvidence
unfolding union_evidence
returned = result (union_evidence hex_digest scope runs 1).1

union_returns : (union_evidence hex_digest scope runs 1).1 ≡ ok returned
unfolding returned
union_returns = refl

-- One of the two findings is left out, and the saturated count stays at the bound.
returned_shape :
    (length returned.findings ≡ 1)
    × (returned.truncated ≡ true)
    × (returned.counts.notes ≡ usize_max)
unfolding returned
returned_shape = (refl, refl, refl)

evidence_linked_example :
    All (λ f. Resolve returned.reports f.report_ids) returned.findings
    × All
        (λ r. Resolve returned.reports r.execution.evidence.report_ids)
        (union_evidence hex_digest scope runs 1).0
evidence_linked_example = evidence_linked hex_digest scope runs 1 returned union_returns

union_exact_example :
    (returned.reports ≡ gather (λ r. r.evidence.reports) (union_evidence hex_digest scope runs 1).0)
    × (returned.findings
        ≡ take 1 (gather (λ r. r.evidence.findings) (union_evidence hex_digest scope runs 1).0))
    × ((k : Counter) → count_of k returned.counts ≡ min (sum_of (count_of k) runs) usize_max)
    × (returned.truncated
        ≡ (any_truncated runs || ltb 1 (length (gather (λ r. r.evidence.findings) runs))))
    × (length returned.reports ≡ length (gather (λ r. r.evidence.reports) runs))
union_exact_example = union_exact hex_digest scope runs 1 returned union_returns
