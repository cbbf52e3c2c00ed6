-- ===== src/ReviewScope/Hunks/Bounds.antt =====
-- The ranges that `parse_changed_ranges` reports are line numbers of a `u32`.
use pre_commit_review.Prelude.{
  ℕ, ◌≤◌, ◌≡◌, refl, sym, subst, ◌∙◌, inl, inr, true, false, List, [], ◌∷◌, ◌++◌, Option, none,
  some, ok, ok_or, >>=-eq-ok, ok-injective, Bytes, arith, Bool-cases, u32_max, All, All-append,
}
use pre_commit_review.Prelude.Utf8.{Text, from_utf8}
use pre_commit_review.Prelude.Digits
use pre_commit_review.ReviewScope.Hunks.{
  scope_error, ChangedRange, HunkRanges, split_lines, is_hunk_header, range_of, parse_hunk_range,
  read_fields, parse_hunk_ranges, changed_range, range_rounds, parse_changed_ranges,
  split_whitespace,
}
use pre_commit_review.ReviewScope.Hunks.Ranges.{header_rounds, range_step}

range_of-le :
    (start count : Option ℕ) (r : ℕ × ℕ)
    → ((n : ℕ) → start ≡ some n → n ≤ u32_max)
    → range_of start count ≡ ok r
    → r.0 ≤ u32_max
range_of-le none count r le h = absurd (ground arith)
range_of-le (some n) none r le h = absurd (ground arith)
range_of-le (some n) (some k) r le h = ground (arith, le n refl)

parse_hunk_range-le : (value : Text) (r : ℕ × ℕ) → parse_hunk_range value ≡ ok r → r.0 ≤ u32_max
unfolding parse_hunk_range
parse_hunk_range-le value r h = range_of-le _ _ r (Digits.parse-le u32_max _) h

read_fields-le :
    (fields : List Text) (h : HunkRanges) → read_fields fields ≡ ok h → h.new_start ≤ u32_max
unfolding read_fields
read_fields-le fields h e = grind (arith, parse_hunk_range-le)

parse_hunk_ranges-le :
    (line : Bytes) (h : HunkRanges) → parse_hunk_ranges line ≡ ok h → h.new_start ≤ u32_max
unfolding parse_hunk_ranges
parse_hunk_ranges-le line h e =
    let (header, decoded, parsed) =
      >>=-eq-ok (ok_or (scope_error "git diff emitted a non-UTF-8 hunk header") (from_utf8 line))
        (λ header. read_fields (split_whitespace header)) e in
    read_fields-le (split_whitespace header) h parsed

-- A range of `u32` line numbers, in order; an anchor of a deletion is one line, and not line 0.
abbrev pub IsLineRange : ChangedRange → Type 0
IsLineRange r =
    (r.start_line ≤ r.end_line)
    × (r.end_line ≤ u32_max)
    × (r.deletion_anchor ≡ true → (r.start_line ≡ r.end_line) × (1 ≤ r.start_line))

changed_range-IsLineRange :
    (h : HunkRanges) (r : ChangedRange)
    → h.new_start ≤ u32_max
    → changed_range h ≡ ok r
    → IsLineRange r
unfolding changed_range
changed_range-IsLineRange h r le e = ground arith

rounds-IsLineRange :
    (lines : List Bytes) (rs out : List ChangedRange)
    → range_rounds rs lines ≡ ok out
    → All IsLineRange rs
    → All IsLineRange out
unfolding range_rounds
rounds-IsLineRange [] rs out e a = subst (All IsLineRange) (ok-injective e) a
rounds-IsLineRange (line ∷ lines) rs out e a = elim (Bool-cases (is_hunk_header line)) [
  | inl t ↦
      let (h, r, read, made, rest) = header_rounds rs out line lines t e in
      rounds-IsLineRange lines (rs ++ r ∷ []) out rest (
        All-append IsLineRange rs (r ∷ []) a
          (changed_range-IsLineRange h r (parse_hunk_ranges-le line h read) made, tt))
  | inr t ↦ rounds-IsLineRange lines rs out (sym (range_step rs line lines false t) ∙ e) a
]

-- On any diff, each range that `parse_changed_ranges` reports runs from a line to the same or a
-- later one within `u32`, and an anchor of a deletion is a single line that is not line 0.
pub changed_ranges_valid :
    (diff : Bytes) (ranges : List ChangedRange)
    → parse_changed_ranges diff ≡ ok ranges
    → All IsLineRange ranges
unfolding parse_changed_ranges
changed_ranges_valid diff ranges e = rounds-IsLineRange (split_lines diff) [] ranges e tt
