-- ===== src/Evidence/Union/Renames.antt =====
-- What the renaming of a run in static_analysis/evidence_union.rs leaves as it is.
use pre_commit_review.Prelude.{◌≡◌, refl, List, [], ◌∷◌, Bytes, length, arith}
use pre_commit_review.Evidence.Contracts.{EvidenceScope, EvidenceReport, EvidenceFinding}
use pre_commit_review.Evidence.Rename.{IdMap, rename_reports, rename_findings, compact_hash}
use pre_commit_review.Evidence.Union.{EvidenceRun, rename_run}

module _ (hex_digest : Bytes → Bytes) where
  rename_reports-length :
      (x : Bytes) (ids : IdMap) (rs : List EvidenceReport)
      → length (rename_reports hex_digest x ids rs).0 ≡ length rs
  unfolding rename_reports
  rename_reports-length x ids [] = refl
  rename_reports-length x ids (r ∷ rs) = ground (
    arith,
    rename_reports-length x
        ((r.report_id, compact_hash hex_digest "orchestration-report-v1" x r.report_id) ∷ ids) rs,
  )

  rename_findings-length :
      (x : Bytes) (ids : IdMap) (seen : List Bytes) (fs : List EvidenceFinding)
      → length (rename_findings hex_digest x ids seen fs).0 ≡ length fs
  unfolding rename_findings
  rename_findings-length x ids seen [] = refl
  rename_findings-length x ids seen (f ∷ fs) =
      ground (arith, rename_findings-length x ids (f.finding_id ∷ seen) fs)

module _ {X : Type 0} (hex_digest : Bytes → Bytes) where
  pub rename_run-keeps :
      (scope : EvidenceScope) (run : EvidenceRun X)
      → ((rename_run hex_digest scope run).0.evidence.counts ≡ run.evidence.counts)
        × ((rename_run hex_digest scope run).0.evidence.truncated ≡ run.evidence.truncated)
  unfolding rename_run
  rename_run-keeps scope run = ground arith

  pub rename_run-length :
      (scope : EvidenceScope) (run : EvidenceRun X)
      → (length (rename_run hex_digest scope run).0.evidence.reports ≡ length run.evidence.reports)
        × (length (rename_run hex_digest scope run).0.evidence.findings
            ≡ length run.evidence.findings)
  unfolding rename_run
  rename_run-length scope run = grind (
    arith,
    rename_reports-length hex_digest run.execution.execution_id [] run.evidence.reports,
    rename_findings-length,
  )
