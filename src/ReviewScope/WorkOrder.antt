-- ===== src/ReviewScope/WorkOrder.antt =====
-- The scope types and `AuthoritativeScope::from_parts` of review_scope.rs. A string is the list of
-- its code points, whose order is that of Rust's strings.
pub mod Sorted
use pre_commit_review.Prelude.{
  ℕ, Bool, true, false, ◌&&◌, ◌||◌, List, [], ◌∷◌, map, Bytes, codes, ltb, ◌==◌, if◌then◌else◌,
}
use pre_commit_review.Prelude.Utf8.{Text}
use pre_commit_review.Prelude.Texts.{text_eq, text_le}

pub data ReviewSource : Type 0 where
  staged unstaged branch : ReviewSource

pub record ScopeUnit : Type 0 where
  pub unit_id : Text
  pub path : Text
  pub status : Text
  pub additions : ℕ
  pub deletions : ℕ
  pub diff_bytes : ℕ
  pub risk_tags : List Text
  pub group_id : Text
  pub review_command : Text
  pub context_command : Text
  pub content_fingerprint : Text

pub record ScopeGroup : Type 0 where
  pub group_id : Text
  pub risk : Text
  pub reason : Text
  pub diff_bytes : ℕ
  pub files : List Text
  pub budget_status : Text

pub record WorkOrderEntry : Type 0 where
  pub priority : ℕ
  pub group_id : Text
  pub action : Text

pub record ScopeParts : Type 0 where
  pub repository : Text
  pub source : ReviewSource
  pub head : Text
  pub base : Text
  pub selected_ref : Text
  pub fingerprint : Text
  pub collection_start : Text
  pub collection_end : Text
  pub units : List ScopeUnit
  pub groups : List ScopeGroup

pub record AuthoritativeScope : Type 0 where
  pub authoritative : Bool
  pub parts : ScopeParts
  pub open parts use *
  pub work_order : List WorkOrderEntry

-- The entry of one group.
abbrev entry : ScopeGroup → ℕ → Text → WorkOrderEntry
entry g priority action = record { priority = priority; group_id = g.group_id; action = action }

unfoldable pub entry_of : ScopeGroup → WorkOrderEntry
unfolding text_eq
entry_of g =
    if text_eq g.budget_status (codes "split-required")
    then entry g 1 (codes "split")
    else if text_eq g.risk (codes "high")
    then entry g 2 (codes "review")
    else if text_eq g.risk (codes "consistency")
    then entry g 3 (codes "review")
    else entry g 4 (codes "review")

-- The comparison of `sort_by`: by priority, then by group id.
unfoldable pub entry_le : WorkOrderEntry → WorkOrderEntry → Bool
unfolding text_le
entry_le a b =
    ltb a.priority b.priority || (a.priority == b.priority && text_le a.group_id b.group_id)

-- `slice::sort_by`, which is stable: an entry goes before those that it is not greater than.
unfoldable pub insert : WorkOrderEntry → List WorkOrderEntry → List WorkOrderEntry
unfolding entry_le
insert e [] = e ∷ []
insert e (x ∷ xs) = if entry_le e x then e ∷ x ∷ xs else x ∷ insert e xs

unfoldable pub sort_entries : List WorkOrderEntry → List WorkOrderEntry
unfolding insert
sort_entries [] = []
sort_entries (e ∷ es) = insert e (sort_entries es)

unfoldable pub from_parts : ScopeParts → AuthoritativeScope
unfolding sort_entries entry_of
from_parts p = record {
  authoritative = true;
  parts = p;
  work_order = sort_entries (map entry_of p.groups);
}
