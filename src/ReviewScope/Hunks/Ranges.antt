-- ===== src/ReviewScope/Hunks/Ranges.antt =====
-- The two parsers of a diff agree: `parse_added_lines` and `parse_changed_ranges`.
use pre_commit_review.Prelude.{
  ℕ, ◌+◌, ◌-◌, ◌≤◌, ◌<◌, ◌≡◌, refl, ap, sym, subst, ◌∙◌, ◌⊎◌, inl, inr, Bool, true, false, not,
  ◌&&◌, ◌||◌, List, [], ◌∷◌, ◌++◌, Option, none, some, ok, ◌>>=◌, >>=-eq-ok, ok-injective, Bytes,
  leb, ◌==◌, if◌then◌else◌, arith, Bool-cases,
}
use pre_commit_review.Prelude.Ordered.{NatSet, insert, contains, contains-insert}
use pre_commit_review.ReviewScope.Hunks.{
  ChangedRange, HunkCursor, HunkRanges, LineState, split_lines, is_hunk_header, cursor_of,
  parse_hunk_ranges, hunk_line, plain_line, first_byte, then_some, added_round, added_rounds,
  parse_added_lines, changed_range, range_rounds, parse_changed_ranges,
}

-- Whether a line lies in one of the ranges that are no anchors of a deletion.
abbrev pub covered : ℕ → List ChangedRange → Bool
covered i [] = false
covered i (r ∷ rs) =
    (not r.deletion_anchor && (leb r.start_line i && leb i r.end_line)) || covered i rs

covered-append :
    (i : ℕ) (rs qs : List ChangedRange) → covered i (rs ++ qs) ≡ (covered i rs || covered i qs)
covered-append i [] qs = refl
covered-append i (r ∷ rs) qs = ground (arith, covered-append i rs qs)

-- Every line number that a cursor may still hand out is covered.
abbrev CursorCovered : Option HunkCursor → List ChangedRange → Type 0
CursorCovered none rs = Unit {0}
CursorCovered (some c) rs =
    (j : ℕ) → c.next_new_line ≤ j → j < c.next_new_line + c.remaining_new → covered j rs ≡ true

record IsCovered (s : LineState) (rs : List ChangedRange) : Type 0 where
  lines : (i : ℕ) → contains i s.0 ≡ true → covered i rs ≡ true
  cursor : CursorCovered s.1 rs

then_some-CursorCovered :
    (c : HunkCursor) (rs : List ChangedRange)
    → CursorCovered (some c) rs
    → CursorCovered (then_some c) rs
unfolding then_some
then_some-CursorCovered c rs h =
    elim (Bool-cases (not (c.remaining_old == 0) || not (c.remaining_new == 0))) [
      | inl e ↦ rw e h
      | inr e ↦ rw e tt
    ]

changed_range-covered :
    (h : HunkRanges) (r : ChangedRange) (j : ℕ)
    → changed_range h ≡ ok r
    → h.new_start ≤ j
    → j < h.new_start + h.new_count
    → covered j (r ∷ []) ≡ true
unfolding changed_range
changed_range-covered h r j e le lt = ground arith

header-IsCovered :
    (s : LineState) (rs : List ChangedRange) (h : HunkRanges) (r : ChangedRange)
    → changed_range h ≡ ok r
    → IsCovered s rs
    → IsCovered (s.0, some (cursor_of h)) (rs ++ r ∷ [])
header-IsCovered s rs h r e v = record {
  lines = λ i m. ground (arith, v.lines i m, covered-append i rs (r ∷ []));
  cursor =
      λ j le lt. ground (arith, covered-append j rs (r ∷ []), changed_range-covered h r j e le lt);
}

-- The cursor behind a line of the new file.
abbrev step_new : HunkCursor → ℕ → HunkCursor
step_new c old = record {
  next_new_line = c.next_new_line + 1;
  remaining_old = old;
  remaining_new = c.remaining_new - 1;
}

-- What a line of a hunk's body does: it is added, it is context, or it leaves the new file alone.
hunk_line_cases :
    (added : NatSet) (c : HunkCursor) (b : Option ℕ) (s : LineState)
    → hunk_line added c b ≡ ok s
    → ((0 < c.remaining_new)
        × ((insert c.next_new_line added, then_some (step_new c c.remaining_old)) ≡ s))
      ⊎ ((0 < c.remaining_new) × ((added, then_some (step_new c (c.remaining_old - 1))) ≡ s))
      ⊎ ((added, then_some (record c { remaining_old = c.remaining_old - 1 })) ≡ s)
      ⊎ ((added, then_some c) ≡ s)
unfolding hunk_line
hunk_line_cases added c none s e = inr (inr (inr (ok-injective e)))
hunk_line_cases added c (some b) s e = ground arith

hunk_line-IsCovered :
    (added : NatSet) (c : HunkCursor) (b : Option ℕ) (rs : List ChangedRange) (s : LineState)
    → hunk_line added c b ≡ ok s
    → IsCovered (added, some c) rs
    → IsCovered s rs
hunk_line-IsCovered added c b rs s e v = elim (hunk_line_cases added c b s e) [
  | inl (room, p) ↦
      subst (λ x. IsCovered x rs) p
        (record {
          lines =
              λ i m. ground (arith, contains-insert i c.next_new_line added, v.lines i, v.cursor i);
          cursor =
              then_some-CursorCovered (step_new c c.remaining_old) rs
                (λ j le lt. v.cursor j (omega arith) (omega arith));
        })
  | inr (inl (room, p)) ↦
      subst (λ x. IsCovered x rs) p
        (record {
          lines = v.lines;
          cursor =
              then_some-CursorCovered (step_new c (c.remaining_old - 1)) rs
                (λ j le lt. v.cursor j (omega arith) (omega arith));
        })
  | inr (inr (inl p)) ↦
      subst (λ x. IsCovered x rs) p
        (record {
          lines = v.lines;
          cursor =
              then_some-CursorCovered (record c { remaining_old = c.remaining_old - 1 }) rs
                v.cursor;
        })
  | inr (inr (inr p)) ↦
      subst (λ x. IsCovered x rs) p
        (record { lines = v.lines; cursor = then_some-CursorCovered c rs v.cursor })
]

plain_line-IsCovered :
    (s s' : LineState) (line : Bytes) (rs : List ChangedRange)
    → plain_line s line ≡ ok s'
    → IsCovered s rs
    → IsCovered s' rs
plain_line-IsCovered (added, none) s' line rs e v = subst (λ x. IsCovered x rs) (ok-injective e) v
plain_line-IsCovered (added, some c) s' line rs e v =
    hunk_line-IsCovered added c (first_byte line) rs s' e v

-- One round of each loop.
pub range_step :
    (rs : List ChangedRange) (line : Bytes) (lines : List Bytes) (t : Bool)
    → is_hunk_header line ≡ t
    → range_rounds rs (line ∷ lines) ≡ (
        if t
        then ((parse_hunk_ranges line >>= changed_range) >>= λ r. range_rounds (rs ++ r ∷ []) lines)
        else range_rounds rs lines)
unfolding range_rounds
range_step rs line lines t e =
    ap
      (λ b.
        if b
        then ((parse_hunk_ranges line >>= changed_range) >>= λ r. range_rounds (rs ++ r ∷ []) lines)
        else range_rounds rs lines)
      e

added_step :
    (s : LineState) (line : Bytes) (t : Bool)
    → is_hunk_header line ≡ t
    → added_round s line ≡ (
        if t
        then (parse_hunk_ranges line >>= λ h. ok (s.0, some (cursor_of h)))
        else plain_line s line)
unfolding added_round
added_step s line t e =
    ap
      (λ b.
        if b
        then (parse_hunk_ranges line >>= λ h. ok (s.0, some (cursor_of h)))
        else plain_line s line)
      e

pub header_rounds :
    (rs out : List ChangedRange) (line : Bytes) (lines : List Bytes)
    → is_hunk_header line ≡ true
    → range_rounds rs (line ∷ lines) ≡ ok out
    → (h : HunkRanges) × (r : ChangedRange) × (parse_hunk_ranges line ≡ ok h)
      × (changed_range h ≡ ok r)
      × (range_rounds (rs ++ r ∷ []) lines ≡ ok out)
header_rounds rs out line lines t e =
    let (r, parsed, rest) =
      >>=-eq-ok (parse_hunk_ranges line >>= changed_range) (λ r. range_rounds (rs ++ r ∷ []) lines)
        (sym (range_step rs line lines true t) ∙ e) in
    let (h, read, made) = >>=-eq-ok (parse_hunk_ranges line) changed_range parsed in
    (h, r, read, made, rest)

rounds-IsCovered :
    (lines : List Bytes) (s s' : LineState) (rs out : List ChangedRange)
    → added_rounds s lines ≡ ok s'
    → range_rounds rs lines ≡ ok out
    → IsCovered s rs
    → IsCovered s' out
unfolding added_rounds range_rounds
rounds-IsCovered [] s s' rs out e f v =
    subst (IsCovered s') (ok-injective f) (subst (λ x. IsCovered x rs) (ok-injective e) v)
rounds-IsCovered (line ∷ lines) s s' rs out e f v =
    let (mid, one, rest) = >>=-eq-ok (added_round s line) (λ x. added_rounds x lines) e in
    elim (Bool-cases (is_hunk_header line)) [
      | inl t ↦
          let (h, r, read, made, ranges) = header_rounds rs out line lines t f in
          rounds-IsCovered lines mid s' (rs ++ r ∷ []) out rest ranges (
            subst (λ x. IsCovered x (rs ++ r ∷ []))
              (ok-injective (
                sym (ap (λ p. p >>= λ h. ok (s.0, some (cursor_of h))) read)
                ∙ sym (added_step s line true t)
                ∙ one))
              (header-IsCovered s rs h r made v))
      | inr t ↦
          rounds-IsCovered lines mid s' rs out rest (sym (range_step rs line lines false t) ∙ f)
            (plain_line-IsCovered s mid line rs (sym (added_step s line false t) ∙ one) v)
    ]

-- On any diff that both parsers accept, each line number that `parse_added_lines` reports lies in a
-- range that `parse_changed_ranges` reports and that is no anchor of a deletion.
pub added_lines_covered :
    (diff : Bytes) (added : NatSet) (ranges : List ChangedRange) (i : ℕ)
    → parse_added_lines diff ≡ ok added
    → parse_changed_ranges diff ≡ ok ranges
    → contains i added ≡ true
    → covered i ranges ≡ true
unfolding parse_added_lines parse_changed_ranges contains
added_lines_covered diff added ranges i e f m =
    let (s, looped, same) = >>=-eq-ok (added_rounds ([], none) (split_lines diff)) _ e in
    let start : IsCovered ([], none) [] = record { lines = λ j h. cc; cursor = tt } in
    (rounds-IsCovered (split_lines diff) ([], none) s [] ranges looped f start).lines i
      (rw (ok-injective same) m)
