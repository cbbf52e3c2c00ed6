-- ===== src/Evidence/Union.antt =====
-- `union_evidence` of static_analysis/evidence_union.rs: the loop over the runs.
pub mod Counts
pub mod Renames
pub mod Exact
pub mod Links
pub mod Resolved
use pre_commit_review.Prelude.{
  ℕ, ◌+◌, Bool, true, false, not, ◌&&◌, ◌||◌, List, [], ◌∷◌, ◌++◌, Result, ok, err, Bytes, codes,
  ltb, if◌then◌else◌, length, take, min, usize_max,
}
use pre_commit_review.Prelude.Texts.{text_eq}
use pre_commit_review.ReviewScope.WorkOrder.{ReviewSource}
use pre_commit_review.Evidence.Contracts.{
  EvidenceReport, EvidenceScope, EvidenceCounts, EvidenceFinding, DecisionContract,
  StaticAnalysisEvidence, StaticAnalysisExecution,
}
use pre_commit_review.Evidence.Rename.{
  OrchestrationError, error, IdMap, map_links, RenamedReports, rename_reports, RenamedFindings,
  rename_findings,
}

pub record EvidenceRun (X : Type 0) : Type 0 where
  pub execution : StaticAnalysisExecution X
  pub evidence : StaticAnalysisEvidence

abbrev source_eq : ReviewSource → ReviewSource → Bool
source_eq ReviewSource.staged ReviewSource.staged = true
source_eq ReviewSource.unstaged ReviewSource.unstaged = true
source_eq ReviewSource.branch ReviewSource.branch = true
source_eq _ _ = false

-- `EvidenceScope::eq`.
unfoldable pub scope_eq : EvidenceScope → EvidenceScope → Bool
unfolding text_eq
scope_eq a b =
    source_eq a.source b.source && text_eq a.head b.head && text_eq a.fingerprint b.fingerprint

abbrev pub empty_counts : EvidenceCounts
empty_counts = record {
  reports = 0;
  input_findings = 0;
  deduplicated_findings = 0;
  mapped_to_units = 0;
  added_line = 0;
  blocking_candidates = 0;
  priority_candidates = 0;
  notes = 0;
  outside_scope = 0;
}

-- `usize::saturating_add`.
abbrev pub saturating_add : ℕ → ℕ → ℕ
saturating_add a b = min (a + b) usize_max

unfoldable pub add_counts : EvidenceCounts → EvidenceCounts → EvidenceCounts
add_counts target source = record {
  reports = saturating_add target.reports source.reports;
  input_findings = saturating_add target.input_findings source.input_findings;
  deduplicated_findings = saturating_add target.deduplicated_findings source.deduplicated_findings;
  mapped_to_units = saturating_add target.mapped_to_units source.mapped_to_units;
  added_line = saturating_add target.added_line source.added_line;
  blocking_candidates = saturating_add target.blocking_candidates source.blocking_candidates;
  priority_candidates = saturating_add target.priority_candidates source.priority_candidates;
  notes = saturating_add target.notes source.notes;
  outside_scope = saturating_add target.outside_scope source.outside_scope;
}

abbrev pub empty_decision_contract : DecisionContract
empty_decision_contract = record {
  blocking =
      codes "blocking candidates require independent verification before they affect the verdict";
  non_blocking =
      codes "invalidated and not-run analyzers are unavailable verification, not clean results";
  verification = codes "preserve every available analyzer result with its execution provenance";
  finalization =
      codes "revalidate scope and authorization before releasing the orchestration artifact";
}

-- What the loop over the runs has collected.
pub record Total : Type 0 where
  pub reports : List EvidenceReport
  pub findings : List EvidenceFinding
  pub counts : EvidenceCounts
  pub truncated : Bool

abbrev pub empty_total : Total
empty_total = record { reports = []; findings = []; counts = empty_counts; truncated = false }

abbrev pub Renamed : Type 0 → Type 0
Renamed X = EvidenceRun X × Result (Unit {0}) OrchestrationError

abbrev pub Collected : Type 0 → Type 0
Collected X = List (EvidenceRun X) × Result Total OrchestrationError

abbrev pub execution_link_error : OrchestrationError
execution_link_error = error "execution report link is missing from its source evidence"

abbrev pub finish_union : EvidenceScope → ℕ → DecisionContract → Total → StaticAnalysisEvidence
finish_union scope max_findings contract t = record {
  schema_version = 1;
  kind = codes "static_analysis_evidence";
  authoritative = true;
  scope = scope;
  reports = t.reports;
  counts = t.counts;
  findings =
      if ltb max_findings (length t.findings) then take max_findings t.findings else t.findings;
  truncated = if ltb max_findings (length t.findings) then true else t.truncated;
  decision_contract = contract;
}

abbrev pub finish_result :
    (Total → StaticAnalysisEvidence)
    → Result Total OrchestrationError
    → Result StaticAnalysisEvidence OrchestrationError
finish_result f (ok t) = ok (f t)
finish_result f (err e) = err e

module _ {X : Type 0} where
  abbrev pub with_reports : EvidenceRun X → List EvidenceReport → EvidenceRun X
  with_reports run rs = record run { evidence = record (run.evidence) { reports = rs } }

  abbrev pub with_findings : EvidenceRun X → List EvidenceFinding → EvidenceRun X
  with_findings run fs = record run { evidence = record (run.evidence) { findings = fs } }

  abbrev pub with_links : EvidenceRun X → List Bytes → EvidenceRun X
  with_links run links = record run {
    execution = record (run.execution) { evidence = record { report_ids = links } };
  }

  unfoldable pub collect : Total → EvidenceRun X → Total
  unfolding add_counts
  collect t run = record {
    reports = t.reports ++ run.evidence.reports;
    findings = t.findings ++ run.evidence.findings;
    counts = add_counts t.counts run.evidence.counts;
    truncated = t.truncated || run.evidence.truncated;
  }

  abbrev pub first_contract : List (EvidenceRun X) → DecisionContract
  first_contract [] = empty_decision_contract
  first_contract (run ∷ runs) = run.evidence.decision_contract

module _ {X : Type 0} (hex_digest : Bytes → Bytes) where
  abbrev findings_step : EvidenceRun X → RenamedFindings → Renamed X
  findings_step run (fs, r) = (with_findings run fs, r)

  abbrev pub links_step : EvidenceRun X → IdMap → Result (List Bytes) OrchestrationError → Renamed X
  links_step run ids (err e) = (run, err e)
  links_step run ids (ok links) =
      findings_step (with_links run links)
        (rename_findings hex_digest run.execution.execution_id ids [] run.evidence.findings)

  abbrev pub reports_step : EvidenceRun X → RenamedReports → Renamed X
  reports_step run (rs, err e) = (with_reports run rs, err e)
  reports_step run (rs, ok ids) =
      links_step (with_reports run rs) ids
        (map_links ids execution_link_error run.execution.evidence.report_ids)

  -- The body of the loop over the runs up to the collection of the run.
  unfoldable pub rename_run : EvidenceScope → EvidenceRun X → Renamed X
  unfolding scope_eq rename_reports rename_findings map_links
  rename_run scope run =
      if not (scope_eq run.execution.scope scope) || not (scope_eq run.evidence.scope scope)
      then (run, err (error "evidence union scopes must match the orchestration scope"))
      else reports_step run
          (rename_reports hex_digest run.execution.execution_id [] run.evidence.reports)

  abbrev next_run : Renamed X → List (EvidenceRun X) → (EvidenceRun X → Collected X) → Collected X
  next_run (run, err e) runs rest = (run ∷ runs, err e)
  next_run (run, ok u) runs rest = (run ∷ (rest run).0, (rest run).1)

  unfoldable pub collect_runs : EvidenceScope → Total → List (EvidenceRun X) → Collected X
  unfolding rename_run collect
  collect_runs scope t [] = ([], ok t)
  collect_runs scope t (run ∷ runs) =
      next_run (rename_run scope run) runs (λ run'. collect_runs scope (collect t run') runs)

  unfoldable pub union_evidence :
      EvidenceScope
      → List (EvidenceRun X)
      → ℕ
      → List (EvidenceRun X) × Result StaticAnalysisEvidence OrchestrationError
  unfolding collect_runs
  union_evidence scope runs max_findings =
      let collected = collect_runs scope empty_total runs in
      (
        collected.0,
        finish_result (finish_union scope max_findings (first_contract runs)) collected.1,
      )
