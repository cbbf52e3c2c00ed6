-- ===== src/ReviewScope/Examples.antt =====
-- A diff with one addition of two lines and one deletion, and a work order, for review_scope.rs.
use mathlib.Core.List.{Perm}
use pre_commit_review.Prelude.{
  ◌≡◌, ◌↔◌, some, refl, true, false, List, [], ◌∷◌, map, ok, Bytes, codes, All,
}
use pre_commit_review.Prelude.Utf8.{from_utf8}
use pre_commit_review.Prelude.Digits
use pre_commit_review.Prelude.Ordered.{contains, insert}
use pre_commit_review.JsonRpc.Header.{split_once}
use pre_commit_review.ReviewScope.Hunks.{ChangedRange, parse_added_lines, parse_changed_ranges}
use pre_commit_review.ReviewScope.Hunks.Ranges.{covered, added_lines_covered}
use pre_commit_review.ReviewScope.Hunks.Bounds.{IsLineRange, changed_ranges_valid}
use pre_commit_review.ReviewScope.WorkOrder.{
  ReviewSource, ScopeGroup, ScopeParts, WorkOrderEntry, staged, from_parts,
}
use pre_commit_review.ReviewScope.Source
use pre_commit_review.ReviewScope.WorkOrder.Sorted.{IsSorted, AreEntries, work_order-IsSorted}

abbrev diff : Bytes
diff =
    codes "diff --git a/f b/f\n--- a/f\n+++ b/f\n@@ -1,0 +2,2 @@\n+a\n+b\n@@ -9 +11,0 @@ fn\n-x\n"

abbrev ranges : List ChangedRange
ranges =
    record { start_line = 2; end_line = 3; deletion_anchor = false }
    ∷ record { start_line = 11; end_line = 11; deletion_anchor = true }
    ∷ []

added : parse_added_lines diff ≡ ok (2 ∷ 3 ∷ [])
unfolding parse_added_lines from_utf8 Digits.parse split_once insert
added = refl

changed : parse_changed_ranges diff ≡ ok ranges
unfolding parse_changed_ranges from_utf8 Digits.parse split_once
changed = refl

added_lines_covered_example : covered 3 ranges ≡ true
unfolding contains
added_lines_covered_example = added_lines_covered diff (2 ∷ 3 ∷ []) ranges 3 added changed refl

changed_ranges_valid_example : All IsLineRange ranges
changed_ranges_valid_example = changed_ranges_valid diff ranges changed

abbrev group : Bytes → Bytes → Bytes → ScopeGroup
group id risk status = record {
  group_id = id;
  risk = risk;
  reason = [];
  diff_bytes = 1;
  files = [];
  budget_status = status;
}

abbrev parts : ScopeParts
parts = record {
  repository = codes "/r";
  source = staged;
  head = [];
  base = [];
  selected_ref = [];
  fingerprint = [];
  collection_start = [];
  collection_end = [];
  units = [];
  groups =
      group (codes "g2") (codes "low") (codes "ok")
      ∷ group (codes "g3") (codes "high") (codes "ok")
      ∷ group (codes "g1") (codes "low") (codes "split-required")
      ∷ [];
}

abbrev ids : WorkOrderEntry → Bytes
ids e = e.group_id

split_then_high : map ids (from_parts parts).work_order ≡ codes "g1" ∷ codes "g3" ∷ codes "g2" ∷ []
unfolding from_parts
split_then_high = refl

work_order-IsSorted_example :
    IsSorted (from_parts parts).work_order
    × ((entries : List WorkOrderEntry) × Perm (from_parts parts).work_order entries
        × AreEntries parts.groups entries)
work_order-IsSorted_example = work_order-IsSorted parts

parse-as_str_example :
    (Source.parse (codes "branch") ≡ some ReviewSource.branch)
    ↔ (codes "branch" ≡ Source.as_str ReviewSource.branch)
parse-as_str_example = Source.parse-as_str (codes "branch") ReviewSource.branch
