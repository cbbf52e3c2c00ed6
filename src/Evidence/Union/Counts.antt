-- ===== src/Evidence/Union/Counts.antt =====
-- The counters of `EvidenceCounts` (static_analysis/contracts.rs) under `add_counts` of
-- static_analysis/evidence_union.rs.
use pre_commit_review.Prelude.{ℕ, ◌≡◌, refl}
use pre_commit_review.Evidence.Contracts.{EvidenceCounts}
use pre_commit_review.Evidence.Union.{add_counts, empty_counts, saturating_add}

-- The nine counters.
pub data Counter : Type 0 where
  reports input_findings deduplicated_findings mapped_to_units added_line : Counter
  blocking_candidates priority_candidates notes outside_scope : Counter

abbrev pub count_of : Counter → EvidenceCounts → ℕ
count_of Counter.reports c = c.reports
count_of Counter.input_findings c = c.input_findings
count_of Counter.deduplicated_findings c = c.deduplicated_findings
count_of Counter.mapped_to_units c = c.mapped_to_units
count_of Counter.added_line c = c.added_line
count_of Counter.blocking_candidates c = c.blocking_candidates
count_of Counter.priority_candidates c = c.priority_candidates
count_of Counter.notes c = c.notes
count_of Counter.outside_scope c = c.outside_scope

pub add_counts-count :
    (k : Counter) (a b : EvidenceCounts)
    → count_of k (add_counts a b) ≡ saturating_add (count_of k a) (count_of k b)
unfolding add_counts
add_counts-count Counter.reports a b = refl
add_counts-count Counter.input_findings a b = refl
add_counts-count Counter.deduplicated_findings a b = refl
add_counts-count Counter.mapped_to_units a b = refl
add_counts-count Counter.added_line a b = refl
add_counts-count Counter.blocking_candidates a b = refl
add_counts-count Counter.priority_candidates a b = refl
add_counts-count Counter.notes a b = refl
add_counts-count Counter.outside_scope a b = refl

pub empty_counts-count : (k : Counter) → count_of k empty_counts ≡ 0
empty_counts-count Counter.reports = refl
empty_counts-count Counter.input_findings = refl
empty_counts-count Counter.deduplicated_findings = refl
empty_counts-count Counter.mapped_to_units = refl
empty_counts-count Counter.added_line = refl
empty_counts-count Counter.blocking_candidates = refl
empty_counts-count Counter.priority_candidates = refl
empty_counts-count Counter.notes = refl
empty_counts-count Counter.outside_scope = refl
