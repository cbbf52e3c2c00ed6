-- ===== src/ReviewScope/Hunks.antt =====
-- `parse_added_lines`, `parse_changed_ranges` and the hunk header parsers of review_scope.rs, with
-- the string operations of Rust that they call.
pub mod Ranges
pub mod Bounds
use pre_commit_review.Prelude.{
  ℕ, ◌+◌, ◌-◌, ◌^◌, Bool, true, false, not, ◌&&◌, ◌||◌, List, [], ◌∷◌, ◌++◌, Option, none, some,
  Result, ok, err, ◌>>=◌, ok_or, refuse_if, ◌>>◌, Bytes, codes, String, ltb, leb, ◌==◌,
  if◌then◌else◌, starts_with, u32_max, usize_max, max,
}
use pre_commit_review.Prelude.Utf8.{Text, from_utf8, is_whitespace}
use pre_commit_review.Prelude.Digits
use pre_commit_review.Prelude.Ordered.{NatSet, insert}
use pre_commit_review.JsonRpc.Header.{split_once}

pub record ScopeError : Type 0 where
  pub reason : String
  pub deadline_exceeded : Bool

-- `ScopeError::new`.
abbrev pub scope_error : String → ScopeError
scope_error reason = record { reason = reason; deadline_exceeded = false }

-- `ScopeError::deadline`.
abbrev pub deadline_error : String → ScopeError
deadline_error reason = record { reason = reason; deadline_exceeded = true }

pub record ChangedRange : Type 0 where
  pub start_line : ℕ
  pub end_line : ℕ
  pub deletion_anchor : Bool

pub record HunkCursor : Type 0 where
  pub next_new_line : ℕ
  pub remaining_old : ℕ
  pub remaining_new : ℕ

-- The line numbers are `u32`, the counts `u64`.
pub record HunkRanges : Type 0 where
  pub old_start : ℕ
  pub old_count : ℕ
  pub new_start : ℕ
  pub new_count : ℕ

abbrev on_first : ℕ → List Bytes → List Bytes
on_first c [] = (c ∷ []) ∷ []
on_first c (l ∷ ls) = (c ∷ l) ∷ ls

-- `diff.split(|byte| *byte == b'\n')`.
unfoldable pub split_lines : Bytes → List Bytes
split_lines [] = [] ∷ []
split_lines (c ∷ s) = let rest = split_lines s in if c == b'\n' then [] ∷ rest else on_first c rest

abbrev starts_word : Text → Bool
starts_word [] = false
starts_word (c ∷ s) = not (is_whitespace c)

-- `str::split_whitespace`.
unfoldable pub split_whitespace : Text → List Text
split_whitespace [] = []
split_whitespace (c ∷ s) =
    let rest = split_whitespace s in
    if is_whitespace c then rest else if starts_word s then on_first c rest else (c ∷ []) ∷ rest

-- `str::strip_prefix` with a character.
abbrev pub strip_prefix : ℕ → Text → Option Text
strip_prefix p [] = none
strip_prefix p (c ∷ s) = if c == p then some s else none

abbrev unwrap_count : Text → Option (Text × Text) → Text × Text
unwrap_count value none = (value, codes "1")
unwrap_count value (some parts) = parts

-- The line number is parsed first.
abbrev pub range_of : Option ℕ → Option ℕ → Result (ℕ × ℕ) ScopeError
range_of none count = err (scope_error "git diff emitted an invalid hunk line number")
range_of (some start) none = err (scope_error "git diff emitted an invalid hunk line count")
range_of (some start) (some count) = ok (start, count)

unfoldable pub parse_hunk_range : Text → Result (ℕ × ℕ) ScopeError
parse_hunk_range value =
    let parts = unwrap_count value (split_once b',' value) in
    range_of (Digits.parse u32_max parts.0) (Digits.parse usize_max parts.1)

abbrev pub and_strip : ℕ → Option Text → Option Text
and_strip sign none = none
and_strip sign (some field) = strip_prefix sign field

-- `fields.next()` and the fields behind it.
abbrev pub next_field : List Text → Option Text
next_field [] = none
next_field (f ∷ fs) = some f

abbrev pub later_fields : List Text → List Text
later_fields [] = []
later_fields (f ∷ fs) = fs

abbrev is_marker : Option Text → Bool
is_marker none = false
is_marker (some []) = false
is_marker (some (a ∷ [])) = false
is_marker (some (a ∷ b ∷ [])) = a == b'@' && b == b'@'
is_marker (some (a ∷ b ∷ c ∷ s)) = false

unfoldable pub read_fields : List Text → Result HunkRanges ScopeError
read_fields fields = do
  refuse_if (not (is_marker (next_field fields)))
      (scope_error "git diff emitted an invalid hunk header")
  old_range ←
      ok_or (scope_error "git diff emitted an invalid old hunk range")
        (and_strip b'-' (next_field (later_fields fields)))
  new_range ←
      ok_or (scope_error "git diff emitted an invalid new hunk range")
        (and_strip b'+' (next_field (later_fields (later_fields fields))))
  old ← parse_hunk_range old_range
  new ← parse_hunk_range new_range
  ok (record { old_start = old.0; old_count = old.1; new_start = new.0; new_count = new.1 })

unfoldable pub parse_hunk_ranges : Bytes → Result HunkRanges ScopeError
unfolding read_fields split_whitespace parse_hunk_range
parse_hunk_ranges line = do
  header ← ok_or (scope_error "git diff emitted a non-UTF-8 hunk header") (from_utf8 line)
  read_fields (split_whitespace header)

unfoldable pub is_hunk_header : Bytes → Bool
is_hunk_header = starts_with (codes "@@ -")

-- `parse_hunk_header` on a line that is one.
abbrev pub cursor_of : HunkRanges → HunkCursor
cursor_of h = record {
  next_new_line = h.new_start;
  remaining_old = h.old_count;
  remaining_new = h.new_count;
}

-- `(cursor.remaining_old != 0 || cursor.remaining_new != 0).then_some(cursor)`.
unfoldable pub then_some : HunkCursor → Option HunkCursor
then_some c = if not (c.remaining_old == 0) || not (c.remaining_new == 0) then some c else none

abbrev pub LineState : Type 0
LineState = NatSet × Option HunkCursor

abbrev pub first_byte : Bytes → Option ℕ
first_byte [] = none
first_byte (c ∷ s) = some c

abbrev pub next_line : ℕ → Result ℕ ScopeError
next_line n =
    if ltb u32_max (n + 1) then err (scope_error "added line number exceeds u32") else ok (n + 1)

-- The `match` on the first byte of a line inside a hunk.
unfoldable pub hunk_line : NatSet → HunkCursor → Option ℕ → Result LineState ScopeError
hunk_line added c none = ok (added, then_some c)
hunk_line added c (some b) =
    if b == b'+' && ltb 0 c.remaining_new
    then (next_line c.next_new_line >>= λ n. ok (
      insert c.next_new_line added,
      then_some (record c { next_new_line = n; remaining_new = c.remaining_new - 1 }),
    ))
    else if b == b'-' && ltb 0 c.remaining_old
    then ok (added, then_some (record c { remaining_old = c.remaining_old - 1 }))
    else if b == b' ' && (ltb 0 c.remaining_old && ltb 0 c.remaining_new)
    then (next_line c.next_new_line >>= λ n. ok (
      added,
      then_some (record {
        next_new_line = n;
        remaining_old = c.remaining_old - 1;
        remaining_new = c.remaining_new - 1;
      }),
    ))
    else ok (added, then_some c)

-- One round of the loop of `parse_added_lines`.
abbrev pub plain_line : LineState → Bytes → Result LineState ScopeError
plain_line (added, none) line = ok (added, none)
plain_line (added, some c) line = hunk_line added c (first_byte line)

unfoldable pub added_round : LineState → Bytes → Result LineState ScopeError
unfolding is_hunk_header parse_hunk_ranges hunk_line then_some
added_round s line =
    if is_hunk_header line
    then (parse_hunk_ranges line >>= λ h. ok (s.0, some (cursor_of h)))
    else plain_line s line

unfoldable pub added_rounds : LineState → List Bytes → Result LineState ScopeError
unfolding added_round
added_rounds s [] = ok s
added_rounds s (line ∷ lines) = added_round s line >>= λ s'. added_rounds s' lines

unfoldable pub parse_added_lines : Bytes → Result NatSet ScopeError
unfolding added_rounds split_lines
parse_added_lines diff = added_rounds ([], none) (split_lines diff) >>= λ s. ok s.0

-- The range of one hunk; `new_start + (new_count - 1)` is computed in `u64`.
unfoldable pub changed_range : HunkRanges → Result ChangedRange ScopeError
changed_range h =
    if h.new_count == 0
    then ok (record {
      start_line = max h.new_start 1;
      end_line = max h.new_start 1;
      deletion_anchor = true;
    })
    else if ltb u32_max (h.new_start + (h.new_count - 1))
    then err (scope_error "changed range exceeds u32")
    else ok (record {
      start_line = h.new_start;
      end_line = h.new_start + (h.new_count - 1);
      deletion_anchor = false;
    })

unfoldable pub range_rounds : List ChangedRange → List Bytes → Result (List ChangedRange) ScopeError
unfolding is_hunk_header parse_hunk_ranges changed_range
range_rounds ranges [] = ok ranges
range_rounds ranges (line ∷ lines) =
    let parsed =
      (parse_hunk_ranges line >>= changed_range) >>= λ r. range_rounds (ranges ++ r ∷ []) lines in
    let skipped = range_rounds ranges lines in if is_hunk_header line then parsed else skipped

unfoldable pub parse_changed_ranges : Bytes → Result (List ChangedRange) ScopeError
unfolding range_rounds split_lines
parse_changed_ranges diff = range_rounds [] (split_lines diff)
