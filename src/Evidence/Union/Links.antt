-- ===== src/Evidence/Union/Links.antt =====
-- The links between findings, executions and reports after `union_evidence` of
-- static_analysis/evidence_union.rs.
use mathlib.Core.List.{Mem, mem-cons_self, mem-cons_of_mem}
use pre_commit_review.Prelude.{
  ◌≡◌, refl, subst, not, ◌||◌, List, [], ◌∷◌, map, Option, none, some, Result, ok, err,
  ok-injective, err-ne-ok, Bytes, is_some, arith, Bool-cases, inl, inr, All,
}
use pre_commit_review.Prelude.Texts.{text_eq}
use pre_commit_review.Evidence.Contracts.{EvidenceScope, EvidenceReport, EvidenceFinding}
use pre_commit_review.Evidence.Rename.{
  OrchestrationError, RenamedReports, RenamedFindings, relink, finding_link_error, and_link, has,
  IdMap, get, map_links, rename_reports, rename_findings, compact_hash,
}
use pre_commit_review.Evidence.Union.{
  EvidenceRun, links_step, reports_step, with_reports, execution_link_error, scope_eq, rename_run,
}

module _ (P : Bytes → Type 0) where
  abbrev Values : IdMap → Type 0
  Values = All (λ kv. P kv.1)

  get-value : (ids : IdMap) (id v : Bytes) → Values ids → get ids id ≡ some v → P v
  unfolding get
  get-value [] id v h e = absurd (ground arith)
  get-value ((k, w) ∷ ids) id v h e = elim (Bool-cases (text_eq k id)) [
    | inl q ↦ subst P (ground arith) h.0
    | inr q ↦ get-value ids id v h.1 (ground arith)
  ]

  and_link-Values :
      (o : Option Bytes) (e : OrchestrationError) (r : Result (List Bytes) OrchestrationError)
      (links : List Bytes)
      → ((v : Bytes) → o ≡ some v → P v)
      → ((ls : List Bytes) → r ≡ ok ls → All P ls)
      → and_link o e r ≡ ok links
      → All P links
  and_link-Values none e r links p q h = absurd (err-ne-ok h)
  and_link-Values (some v) e (err x) links p q h = absurd (err-ne-ok h)
  and_link-Values (some v) e (ok ls) links p q h =
      subst (All P) (ok-injective h) (p v refl, q ls refl)

  map_links-Values :
      (ids : IdMap) (e : OrchestrationError) (ls : List Bytes) (links : List Bytes)
      → Values ids
      → map_links ids e ls ≡ ok links
      → All P links
  unfolding map_links
  map_links-Values ids e [] links h q = subst (All P) (ok-injective q) tt
  map_links-Values ids e (l ∷ ls) links h q =
      and_link-Values (get ids l) e (map_links ids e ls) links (λ v. get-value ids l v h)
        (λ vs. map_links-Values ids e ls vs h) q

  relink-links :
      (f : EvidenceFinding) (fs : List EvidenceFinding) (rest : RenamedFindings)
      (r : Result (List Bytes) OrchestrationError)
      → ((ls : List Bytes) → r ≡ ok ls → All P ls)
      → (rest.1 ≡ ok tt → All (λ g. All P g.report_ids) rest.0)
      → (relink f fs rest r).1 ≡ ok tt
      → All (λ g. All P g.report_ids) (relink f fs rest r).0
  relink-links f fs rest (ok links) p q h = (p links refl, q h)
  relink-links f fs rest (err x) p q h = absurd (err-ne-ok h)

  module _ (hex_digest : Bytes → Bytes) where
    rename_reports-Values :
        (x : Bytes) (ids : IdMap) (rs : List EvidenceReport) (ids' : IdMap)
        → Values ids
        → All P (map (λ r. r.report_id) (rename_reports hex_digest x ids rs).0)
        → (rename_reports hex_digest x ids rs).1 ≡ ok ids'
        → Values ids'
    unfolding rename_reports
    rename_reports-Values x ids [] ids' h = λ a e. subst Values (ok-injective e) h
    rename_reports-Values x ids (r ∷ rs) ids' h =
        elim (Bool-cases (is_some (get ids r.report_id))) [
          | inl q ↦ rw q (λ a e. absurd (err-ne-ok e))
          | inr q ↦ rw q (λ a e.
              rename_reports-Values x
                ((r.report_id, compact_hash hex_digest "orchestration-report-v1" x r.report_id)
                  ∷ ids)
                rs ids' (a.0, h) a.1 e)
        ]

    rename_findings-links :
        (x : Bytes) (ids : IdMap) (seen : List Bytes) (fs : List EvidenceFinding)
        → Values ids
        → (rename_findings hex_digest x ids seen fs).1 ≡ ok tt
        → All (λ f. All P f.report_ids) (rename_findings hex_digest x ids seen fs).0
    unfolding rename_findings
    rename_findings-links x ids seen [] h = λ e. tt
    rename_findings-links x ids seen (f ∷ fs) h = elim (Bool-cases (has f.finding_id seen)) [
      | inl q ↦ rw q (λ e. absurd (err-ne-ok e))
      | inr q ↦ rw q (
          relink-links
            (record f {
              finding_id = compact_hash hex_digest "orchestration-finding-v1" x f.finding_id;
            })
            fs (rename_findings hex_digest x ids (f.finding_id ∷ seen) fs)
            (map_links ids finding_link_error f.report_ids)
            (λ ls. map_links-Values ids finding_link_error f.report_ids ls h)
            (rename_findings-links x ids (f.finding_id ∷ seen) fs h))
    ]

-- Every id is the id of one of the reports.
abbrev pub Resolve : List EvidenceReport → List Bytes → Type 0
Resolve rs = All (λ id. Mem id (map (λ r. r.report_id) rs))

-- What a finding and an execution link to is among the reports.
abbrev pub Linked : {X : Type 0} → List EvidenceReport → EvidenceRun X → Type 0
Linked rs run =
    Resolve rs run.execution.evidence.report_ids
    × All (λ f. Resolve rs f.report_ids) run.evidence.findings

pub All-Mem : {A : Type 0} (P : A → Type 0) (xs : List A) → ((x : A) → Mem x xs → P x) → All P xs
All-Mem P [] f = tt
All-Mem P (x ∷ xs) f = (f x mem-cons_self, All-Mem P xs (λ y m. f y (mem-cons_of_mem x m)))

module _ {X : Type 0} (hex_digest : Bytes → Bytes) where
  links_step-Linked :
      (run : EvidenceRun X) (ids : IdMap) (r : Result (List Bytes) OrchestrationError)
      → ((ls : List Bytes) → r ≡ ok ls → Resolve run.evidence.reports ls)
      → Values (λ id. Mem id (map (λ r. r.report_id) run.evidence.reports)) ids
      → (links_step hex_digest run ids r).1 ≡ ok tt
      → Linked
          (links_step hex_digest run ids r).0.evidence.reports
          (links_step hex_digest run ids r).0
  links_step-Linked run ids (err x) q v e = absurd (err-ne-ok e)
  links_step-Linked run ids (ok links) q v e = (
    q links refl,
    rename_findings-links _ hex_digest run.execution.execution_id ids [] run.evidence.findings v e,
  )

  reports_step-Linked :
      (run : EvidenceRun X) (p : RenamedReports)
      → ((ids : IdMap) → p.1 ≡ ok ids → Values (λ id. Mem id (map (λ r. r.report_id) p.0)) ids)
      → (reports_step hex_digest run p).1 ≡ ok tt
      → Linked (reports_step hex_digest run p).0.evidence.reports (reports_step hex_digest run p).0
  reports_step-Linked run (rs, err x) v e = absurd (err-ne-ok e)
  reports_step-Linked run (rs, ok ids) v e =
      links_step-Linked (with_reports run rs) ids
        (map_links ids execution_link_error run.execution.evidence.report_ids)
        (λ ls.
          map_links-Values _ ids execution_link_error run.execution.evidence.report_ids ls
            (v ids refl))
        (v ids refl) e

  pub rename_run-Linked :
      (scope : EvidenceScope) (run : EvidenceRun X)
      → (rename_run hex_digest scope run).1 ≡ ok tt
      → Linked
          (rename_run hex_digest scope run).0.evidence.reports
          (rename_run hex_digest scope run).0
  unfolding rename_run
  rename_run-Linked scope run =
      elim (Bool-cases
        (not (scope_eq run.execution.scope scope) || not (scope_eq run.evidence.scope scope))) [
          | inl q ↦ rw q (λ e. absurd (err-ne-ok e))
          | inr q ↦ rw q (
              reports_step-Linked run
                (rename_reports hex_digest run.execution.execution_id [] run.evidence.reports)
                (λ ids.
                  rename_reports-Values _ hex_digest run.execution.execution_id []
                    run.evidence.reports ids tt (All-Mem _ _ (λ x m. m))))
        ]
