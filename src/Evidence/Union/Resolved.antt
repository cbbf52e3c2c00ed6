-- ===== src/Evidence/Union/Resolved.antt =====
-- The links of the evidence that `union_evidence` of static_analysis/evidence_union.rs returns.
use mathlib.Core.List.{Mem, mem-append_right, mem-append_left, map-append}
use pre_commit_review.Prelude.{
  All-map, ℕ, zero, suc, ◌≡◌, List, [], ◌∷◌, ◌++◌, map, ok, Bytes, take, All, All-append,
}
use pre_commit_review.Evidence.Contracts.{
  EvidenceScope, EvidenceReport, EvidenceFinding, StaticAnalysisEvidence,
}
use pre_commit_review.Evidence.Union.{
  EvidenceRun, Total, empty_total, finish_union, first_contract, collect_runs, union_evidence,
}
use pre_commit_review.Evidence.Union.Exact.{
  gather, after, collect_runs-cons, collected, union_exact,
}
use pre_commit_review.Evidence.Union.Links.{Resolve, Linked, rename_run-Linked}

All-take : {A : Type 0} (P : A → Type 0) (n : ℕ) (xs : List A) → All P xs → All P (take n xs)
All-take P zero xs a = tt
All-take P (suc n) [] a = tt
All-take P (suc n) (x ∷ xs) a = (a.0, All-take P n xs a.1)

abbrev ids_of : List EvidenceReport → List Bytes
ids_of = map (λ r. r.report_id)

left : (id : Bytes) (rs qs : List EvidenceReport) → Mem id (ids_of rs) → Mem id (ids_of (rs ++ qs))
left id rs qs m = rw (map-append (λ r. r.report_id) rs qs) (mem-append_left (ids_of qs) m)

right : (id : Bytes) (rs qs : List EvidenceReport) → Mem id (ids_of qs) → Mem id (ids_of (rs ++ qs))
right id rs qs m = rw (map-append (λ r. r.report_id) rs qs) (mem-append_right (ids_of rs) m)

module _ {X : Type 0} where
  Linked-mono :
      (rs qs : List EvidenceReport) (run : EvidenceRun X)
      → ((id : Bytes) → Mem id (ids_of rs) → Mem id (ids_of qs))
      → Linked rs run
      → Linked qs run
  Linked-mono rs qs run f l = (
    All-map run.execution.evidence.report_ids f l.0,
    All-map run.evidence.findings (λ x. All-map x.report_ids f) l.1,
  )

  -- Runs whose links stay inside them link to the reports of all.
  Linked-gather :
      (runs : List (EvidenceRun X))
      → All (λ run. Linked run.evidence.reports run) runs
      → All (Linked (gather (λ r. r.evidence.reports) runs)) runs
  Linked-gather [] a = tt
  Linked-gather (run ∷ runs) a =
      let rs = run.evidence.reports in
      let qs = gather (λ (r : EvidenceRun X). r.evidence.reports) runs in
      (
        Linked-mono rs (rs ++ qs) run (λ id. left id rs qs) a.0,
        All-map runs (λ r. Linked-mono qs (rs ++ qs) r (λ id. right id rs qs))
            (Linked-gather runs a.1),
      )

  All-gather :
      {A : Type 0} (P : A → Type 0) (f : EvidenceRun X → List A) (runs : List (EvidenceRun X))
      → All (λ run. All P (f run)) runs
      → All P (gather f runs)
  All-gather P f [] a = tt
  All-gather P f (run ∷ runs) a = All-append P (f run) (gather f runs) a.0 (All-gather P f runs a.1)

module _ {X : Type 0} (hex_digest : Bytes → Bytes) where
  collect_runs-Linked :
      (scope : EvidenceScope) (t : Total) (runs : List (EvidenceRun X)) {t' : Total}
      → (collect_runs hex_digest scope t runs).1 ≡ ok t'
      → All (λ run. Linked run.evidence.reports run) (collect_runs hex_digest scope t runs).0
  unfolding collect_runs
  collect_runs-Linked scope t [] h = tt
  collect_runs-Linked scope t (run ∷ runs) h =
      let (h', e, done) = collect_runs-cons hex_digest scope t run runs h in
      rw e (
        rename_run-Linked hex_digest scope run done,
        collect_runs-Linked scope (after hex_digest scope t run) runs h',
      )

  -- If the union succeeds, every report id that a finding of the evidence carries is the id of a
  -- report of the evidence, and so is every report id that the execution of a rewritten run links to.
  pub evidence_linked :
      (scope : EvidenceScope) (runs : List (EvidenceRun X)) (max_findings : ℕ)
      (e : StaticAnalysisEvidence)
      → (union_evidence hex_digest scope runs max_findings).1 ≡ ok e
      → All (λ f. Resolve e.reports f.report_ids) e.findings
        × All
            (λ run. Resolve e.reports run.execution.evidence.report_ids)
            (union_evidence hex_digest scope runs max_findings).0
  unfolding union_evidence
  evidence_linked scope runs max_findings e h =
      let (t, c, f) =
        collected (collect_runs hex_digest scope empty_total runs).1
          (finish_union scope max_findings (first_contract runs)) h in
      let runs' = (collect_runs hex_digest scope empty_total runs).0 in
      let exact = union_exact hex_digest scope runs max_findings e h in
      let linked = Linked-gather runs' (collect_runs-Linked scope empty_total runs c) in
      let P : EvidenceFinding → Type 0 =
        λ f. Resolve (gather (λ r. r.evidence.reports) runs') f.report_ids in
      rw exact.0 (
        rw exact.1 (
            All-take P max_findings (gather (λ r. r.evidence.findings) runs')
              (All-gather P (λ r. r.evidence.findings) runs' (All-map runs' (λ r l. l.1) linked))),
        All-map runs' (λ r l. l.0) linked,
      )
