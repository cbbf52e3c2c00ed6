-- ===== src/Evidence/Union/Exact.antt =====
-- What `union_evidence` of static_analysis/evidence_union.rs collects.
use pre_commit_review.Prelude.{
  ℕ, zero, suc, ◌+◌, ◌≤◌, ◌≡◌, refl, ap, sym, ◌∙◌, Bool, true, false, ◌||◌, List, [], ◌∷◌, ◌++◌,
  append_assoc, append-nil, Result, ok, err, ok-injective, err-ne-ok, Bytes, ltb, if◌then◌else◌,
  length, length-append, take, min, usize_max, arith, Bool-cases, inl, inr,
}
use pre_commit_review.Evidence.Contracts.{EvidenceScope, EvidenceCounts, StaticAnalysisEvidence}
use pre_commit_review.Evidence.Rename.{OrchestrationError}
use pre_commit_review.Evidence.Union.{
  EvidenceRun, Total, empty_total, empty_counts, collect, finish_union, finish_result,
  first_contract, rename_run, collect_runs, union_evidence, saturating_add,
}
use pre_commit_review.Evidence.Union.Counts.{
  Counter, count_of, add_counts-count, empty_counts-count,
}
use pre_commit_review.Evidence.Union.Renames.{rename_run-keeps, rename_run-length}

module _ {X : Type 0} where
  -- A list of every run, one behind another.
  abbrev pub gather : {A : Type 0} → (EvidenceRun X → List A) → List (EvidenceRun X) → List A
  gather f [] = []
  gather f (run ∷ runs) = f run ++ gather f runs

  abbrev pub any_truncated : List (EvidenceRun X) → Bool
  any_truncated [] = false
  any_truncated (run ∷ runs) = run.evidence.truncated || any_truncated runs

  -- A count of every run, added without a bound.
  abbrev pub sum_of : (EvidenceCounts → ℕ) → List (EvidenceRun X) → ℕ
  sum_of f [] = 0
  sum_of f (run ∷ runs) = f run.evidence.counts + sum_of f runs

take-all : {A : Type 0} (n : ℕ) (l : List A) → length l ≤ n → take n l ≡ l
take-all zero [] h = refl
take-all (suc n) [] h = refl
take-all zero (x ∷ l) h = absurd (omega arith)
take-all (suc n) (x ∷ l) h = ap (◌∷◌ x) (take-all n l (omega arith))

truncate_lem :
    {A : Type 0} (n : ℕ) (l : List A) → (if ltb n (length l) then take n l else l) ≡ take n l
truncate_lem n l = elim (Bool-cases (ltb n (length l))) [
  | inl e ↦ rw e refl
  | inr e ↦ rw e (sym (take-all n l (ground arith)))
]

flag_lem : (a b c : Bool) → a ≡ b → (if c then true else a) ≡ (b || c)
flag_lem a b c h = ground arith

pub collected :
    (r : Result Total OrchestrationError) (f : Total → StaticAnalysisEvidence)
    {e : StaticAnalysisEvidence}
    → finish_result f r ≡ ok e
    → (t : Total) × (r ≡ ok t) × (f t ≡ e)
collected (ok t) f h = (t, refl, ok-injective h)
collected (err x) f h = absurd (err-ne-ok h)

module _ {X : Type 0} (hex_digest : Bytes → Bytes) where
  -- The rewritten run is collected as long as no run fails.
  pub collect_runs-cons :
      (scope : EvidenceScope) (t : Total) (run : EvidenceRun X) (runs : List (EvidenceRun X))
      {t' : Total}
      → (collect_runs hex_digest scope t (run ∷ runs)).1 ≡ ok t'
      → ((collect_runs hex_digest scope (collect t (rename_run hex_digest scope run).0) runs).1
          ≡ ok t')
        × ((collect_runs hex_digest scope t (run ∷ runs)).0
            ≡ (rename_run hex_digest scope run).0
              ∷ (collect_runs hex_digest scope
                  (collect t (rename_run hex_digest scope run).0)
                  runs).0)
        × ((rename_run hex_digest scope run).1 ≡ ok tt)
  unfolding collect_runs
  collect_runs-cons scope t run runs h = ground arith

  abbrev pub after : EvidenceScope → Total → EvidenceRun X → Total
  after scope t run = collect t (rename_run hex_digest scope run).0

  collect_runs-lists :
      (scope : EvidenceScope) (t : Total) (runs : List (EvidenceRun X)) {t' : Total}
      → (collect_runs hex_digest scope t runs).1 ≡ ok t'
      → (t'.reports
          ≡ t.reports ++ gather (λ r. r.evidence.reports) (collect_runs hex_digest scope t runs).0)
        × (t'.findings
            ≡ t.findings
              ++ gather (λ r. r.evidence.findings) (collect_runs hex_digest scope t runs).0)
  unfolding collect_runs collect
  collect_runs-lists scope t [] h = (
    ap (λ u. u.reports) (sym (ok-injective h)) ∙ sym (append-nil t.reports),
    ap (λ u. u.findings) (sym (ok-injective h)) ∙ sym (append-nil t.findings),
  )
  collect_runs-lists scope t (run ∷ runs) h =
      let (h', e, done) = collect_runs-cons scope t run runs h in
      let (p, q) = collect_runs-lists scope (after scope t run) runs h' in
      let run' = (rename_run hex_digest scope run).0 in
      let runs' = (collect_runs hex_digest scope (after scope t run) runs).0 in
      rw e (
        p ∙ append_assoc t.reports run'.evidence.reports (gather (λ r. r.evidence.reports) runs'),
        q
            ∙ append_assoc t.findings run'.evidence.findings
                (gather (λ r. r.evidence.findings) runs'),
      )

  collect_runs-truncated :
      (scope : EvidenceScope) (t : Total) (runs : List (EvidenceRun X)) {t' : Total}
      → (collect_runs hex_digest scope t runs).1 ≡ ok t'
      → t'.truncated ≡ (t.truncated || any_truncated runs)
  unfolding collect_runs collect
  collect_runs-truncated scope t [] h = ground arith
  collect_runs-truncated scope t (run ∷ runs) h = ground (
    arith,
    collect_runs-truncated scope (after scope t run) runs (collect_runs-cons scope t run runs h).0,
    rename_run-keeps hex_digest scope run,
  )

  collect_runs-counts :
      (k : Counter) (scope : EvidenceScope) (t : Total) (runs : List (EvidenceRun X)) {t' : Total}
      → count_of k t.counts ≤ usize_max
      → (collect_runs hex_digest scope t runs).1 ≡ ok t'
      → count_of k t'.counts ≡ min (count_of k t.counts + sum_of (count_of k) runs) usize_max
  unfolding collect_runs collect
  collect_runs-counts k scope t [] le h =
      ap (λ u. count_of k u.counts) (sym (ok-injective h)) ∙ omega arith
  collect_runs-counts k scope t (run ∷ runs) le h =
      let kept = ap (count_of k) (rename_run-keeps hex_digest scope run).0 in
      let added : count_of k (after scope t run).counts
          ≡ saturating_add (count_of k t.counts) (count_of k run.evidence.counts) =
        add_counts-count k t.counts (rename_run hex_digest scope run).0.evidence.counts
        ∙ ap (saturating_add (count_of k t.counts)) kept in
      let h' = (collect_runs-cons scope t run runs h).0 in
      let rest = collect_runs-counts k scope (after scope t run) runs (omega (arith, added)) h' in
      omega (arith, added, rest)

  collect_runs-length :
      (scope : EvidenceScope) (t : Total) (runs : List (EvidenceRun X)) {t' : Total}
      → (collect_runs hex_digest scope t runs).1 ≡ ok t'
      → (length (gather (λ r. r.evidence.reports) (collect_runs hex_digest scope t runs).0)
          ≡ length (gather (λ r. r.evidence.reports) runs))
        × (length (gather (λ r. r.evidence.findings) (collect_runs hex_digest scope t runs).0)
            ≡ length (gather (λ r. r.evidence.findings) runs))
  unfolding collect_runs
  collect_runs-length scope t [] h = (refl, refl)
  collect_runs-length scope t (run ∷ runs) h =
      let (h', e, done) = collect_runs-cons scope t run runs h in
      let run' = (rename_run hex_digest scope run).0 in
      let runs' = (collect_runs hex_digest scope (after scope t run) runs).0 in
      let rest = collect_runs-length scope (after scope t run) runs h' in
      let here = rename_run-length hex_digest scope run in
      rw e (
        omega (
          arith,
          rest.0,
          here.0,
          length-append run'.evidence.reports (gather (λ r. r.evidence.reports) runs'),
          length-append run.evidence.reports (gather (λ r. r.evidence.reports) runs),
        ),
        omega (
          arith,
          rest.1,
          here.1,
          length-append run'.evidence.findings (gather (λ r. r.evidence.findings) runs'),
          length-append run.evidence.findings (gather (λ r. r.evidence.findings) runs),
        ),
      )

  -- If the union succeeds, its reports are those of the rewritten runs in their order, its findings
  -- are the first `max_findings` of the findings of the rewritten runs, each of its nine counts is
  -- the sum of that count over the runs, held at `usize::MAX`, and it is marked truncated exactly
  -- when a run was or when the runs came with more than `max_findings` findings. No report is lost:
  -- there are as many as the runs came with.
  pub union_exact :
      (scope : EvidenceScope) (runs : List (EvidenceRun X)) (max_findings : ℕ)
      (e : StaticAnalysisEvidence)
      → (union_evidence hex_digest scope runs max_findings).1 ≡ ok e
      → (e.reports
          ≡ gather (λ r. r.evidence.reports) (union_evidence hex_digest scope runs max_findings).0)
        × (e.findings
            ≡ take max_findings (
                gather
                  (λ r. r.evidence.findings)
                  (union_evidence hex_digest scope runs max_findings).0))
        × ((k : Counter) → count_of k e.counts ≡ min (sum_of (count_of k) runs) usize_max)
        × (e.truncated ≡ (
            any_truncated runs
            || ltb max_findings (length (gather (λ r. r.evidence.findings) runs))))
        × (length e.reports ≡ length (gather (λ r. r.evidence.reports) runs))
  unfolding union_evidence
  union_exact scope runs max_findings e h =
      let (t, c, f) =
        collected (collect_runs hex_digest scope empty_total runs).1
          (finish_union scope max_findings (first_contract runs)) h in
      let (rs, fs) = collect_runs-lists scope empty_total runs c in
      let lengths = collect_runs-length scope empty_total runs c in
      let truncated = collect_runs-truncated scope empty_total runs c in
      let counts : (k : Counter)
          → count_of k t.counts
            ≡ min (count_of k empty_counts + sum_of (count_of k) runs) usize_max =
        λ k. collect_runs-counts k scope empty_total runs (omega (arith, empty_counts-count k)) c in
      (
        ap (λ u. u.reports) (sym f) ∙ rs,
        ap (λ u. u.findings) (sym f)
            ∙ truncate_lem max_findings t.findings
            ∙ ap (take max_findings) fs,
        λ k. ap (λ u. count_of k u.counts) (sym f) ∙ omega (arith, counts k, empty_counts-count k),
        ap (λ u. u.truncated) (sym f)
            ∙ flag_lem t.truncated (any_truncated runs) (ltb max_findings (length t.findings))
                truncated
            ∙ ap (λ n. any_truncated runs || ltb max_findings n) (ap length fs ∙ lengths.1),
        ap (λ u. length u.reports) (sym f) ∙ ap length rs ∙ lengths.0,
      )
