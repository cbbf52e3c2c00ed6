-- ===== src/JsonRpc/Header/Search.antt =====
-- `find_header_end` and `contains_bare_lf` on a buffer to which more bytes are appended.
use pre_commit_review.Prelude.{
  ℕ, zero, suc, ◌+◌, ◌≤◌, ◌<◌, ◌≡◌, refl, true, false, [], ◌∷◌, ◌++◌, none, some, Bytes,
  if◌then◌else◌, starts_with, arith, length, take, Option-cases, inl, inr,
}
use mathlib.Core.Option
use pre_commit_review.JsonRpc.Header.{delimiter, at_delimiter, find_header_end, bare_lf_behind}

starts_with-append : (p xs ys : Bytes) → starts_with p xs ≡ true → starts_with p (xs ++ ys) ≡ true
starts_with-append [] xs ys h = refl
starts_with-append (c ∷ p) [] ys h = absurd (ground arith)
starts_with-append (c ∷ p) (d ∷ xs) ys h = ground (arith, starts_with-append p xs ys)

starts_with-cut :
    (p xs ys : Bytes)
    → length p ≤ length xs
    → starts_with p xs ≡ false
    → starts_with p (xs ++ ys) ≡ false
starts_with-cut [] xs ys le h = absurd (ground arith)
starts_with-cut (c ∷ p) [] ys le h = absurd (omega arith)
starts_with-cut (c ∷ p) (d ∷ xs) ys le h = ground (arith, starts_with-cut p xs ys)

starts_with-length : (p xs : Bytes) → starts_with p xs ≡ true → length p ≤ length xs
starts_with-length [] xs h = omega arith
starts_with-length (c ∷ p) [] h = absurd (ground arith)
starts_with-length (c ∷ p) (d ∷ xs) h = ground (arith, starts_with-length p xs)

at_delimiter-append : (xs ys : Bytes) → at_delimiter xs ≡ true → at_delimiter (xs ++ ys) ≡ true
unfolding at_delimiter
at_delimiter-append = starts_with-append delimiter

at_delimiter-cut :
    (xs ys : Bytes) → 4 ≤ length xs → at_delimiter xs ≡ false → at_delimiter (xs ++ ys) ≡ false
unfolding at_delimiter
at_delimiter-cut xs ys h = starts_with-cut delimiter xs ys (omega arith)

at_delimiter-length : (xs : Bytes) → at_delimiter xs ≡ true → 4 ≤ length xs
unfolding at_delimiter
at_delimiter-length xs h = omega (arith, starts_with-length delimiter xs h)

-- One round of the search.
find_step :
    (c : ℕ) (s : Bytes)
    → find_header_end (c ∷ s)
      ≡ (if at_delimiter (c ∷ s) then some 0 else Option.map suc (find_header_end s))
unfolding find_header_end at_delimiter
find_step c s = refl

-- The delimiter that was found lies in the buffer.
pub find_header_end-length : (xs : Bytes) (d : ℕ) → find_header_end xs ≡ some d → d + 4 ≤ length xs
find_header_end-length [] d h = absurd (unfold find_header_end in ground arith)
find_header_end-length (c ∷ xs) d h = elim (Option-cases (find_header_end xs)) [
  | inl e ↦ ground (arith, find_step c xs, at_delimiter-length (c ∷ xs))
  | inr (d', e) ↦
      ground (arith, find_step c xs, at_delimiter-length (c ∷ xs), find_header_end-length xs d' e)
]

-- A delimiter that was found stays the first one.
pub find_header_end-append :
    (xs ys : Bytes) (d : ℕ) → find_header_end xs ≡ some d → find_header_end (xs ++ ys) ≡ some d
find_header_end-append [] ys d h = absurd (unfold find_header_end in ground arith)
find_header_end-append (c ∷ xs) ys d h = elim (Option-cases (find_header_end xs)) [
  | inl e ↦ ground (arith, find_step c xs, find_step c (xs ++ ys), at_delimiter-append (c ∷ xs) ys)
  | inr (d', e) ↦ ground (
    arith,
    find_step c xs,
    find_step c (xs ++ ys),
    at_delimiter-append (c ∷ xs) ys,
    at_delimiter-cut (c ∷ xs) ys,
    find_header_end-length xs d' e,
    find_header_end-append xs ys d' e,
  )
]

-- A delimiter that the appended bytes complete ends behind the old buffer.
pub find_header_end-new :
    (xs ys : Bytes) (d : ℕ)
    → find_header_end xs ≡ none
    → find_header_end (xs ++ ys) ≡ some d
    → length xs < d + 4
find_header_end-new [] ys d e h = omega arith
find_header_end-new (c ∷ xs) ys d e h = elim (Option-cases (find_header_end (xs ++ ys))) [
  | inl e' ↦ ground (arith, find_step c xs, find_step c (xs ++ ys), at_delimiter-cut (c ∷ xs) ys)
  | inr (d', e') ↦ ground (
    arith,
    find_step c xs,
    find_step c (xs ++ ys),
    at_delimiter-cut (c ∷ xs) ys,
    find_header_end-new xs ys d',
  )
]

pub bare_lf_behind-append :
    (p : ℕ) (xs ys : Bytes) → bare_lf_behind p xs ≡ true → bare_lf_behind p (xs ++ ys) ≡ true
unfolding bare_lf_behind
bare_lf_behind-append p [] ys h = absurd (ground arith)
bare_lf_behind-append p (c ∷ xs) ys h = ground (arith, bare_lf_behind-append c xs ys)

-- A proper beginning of the delimiter has no bare line feed.
delimiter_part :
    (p : ℕ) (xs ys : Bytes)
    → length xs < 4
    → at_delimiter (xs ++ ys) ≡ true
    → bare_lf_behind p xs ≡ false
unfolding bare_lf_behind at_delimiter
delimiter_part p [] ys le h = refl
delimiter_part p (a ∷ []) ys le h = ground arith
delimiter_part p (a ∷ b ∷ []) ys le h = ground arith
delimiter_part p (a ∷ b ∷ c ∷ []) ys le h = ground arith
delimiter_part p (a ∷ b ∷ c ∷ d ∷ xs) ys le h = absurd (omega arith)

at_delimiter_here :
    (c : ℕ) (s : Bytes) → find_header_end (c ∷ s) ≡ some 0 → at_delimiter (c ∷ s) ≡ true
at_delimiter_here c s h = elim (Option-cases (find_header_end s)) [
  | inl e ↦ ground (arith, find_step c s)
  | inr (d, e) ↦ ground (arith, find_step c s)
]

-- A bare line feed of a buffer with no delimiter stands before the delimiter that appended bytes
-- complete.
pub bare_lf_behind-new :
    (p : ℕ) (xs ys : Bytes) (d : ℕ)
    → find_header_end xs ≡ none
    → find_header_end (xs ++ ys) ≡ some d
    → bare_lf_behind p xs ≡ true
    → bare_lf_behind p (take d (xs ++ ys)) ≡ true
unfolding bare_lf_behind
bare_lf_behind-new p [] ys d e h b = absurd (ground arith)
bare_lf_behind-new p (c ∷ xs) ys zero e h b = absurd (
    ground (
      arith,
      delimiter_part p (c ∷ xs) ys,
      find_header_end-new (c ∷ xs) ys 0 e h,
      at_delimiter_here c (xs ++ ys) h,
    ))
bare_lf_behind-new p (c ∷ xs) ys (suc d) e h b = ground (
  arith,
  find_step c xs,
  find_step c (xs ++ ys),
  at_delimiter-cut (c ∷ xs) ys,
  bare_lf_behind-new c xs ys d,
)
