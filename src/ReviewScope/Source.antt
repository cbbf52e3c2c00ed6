-- ===== src/ReviewScope/Source.antt =====
-- The names of `ReviewSource` in review_scope.rs.
use pre_commit_review.Prelude.{
  ◌≡◌, ◌↔◌, refl, ap, ◌∙◌, true, Option, none, some, codes, if◌then◌else◌, Bool-cases, inl, inr,
}
use pre_commit_review.Prelude.Utf8.{Text}
use pre_commit_review.Prelude.Texts.{text_eq, text_eq→eq}
use pre_commit_review.ReviewScope.WorkOrder.{ReviewSource}

abbrev pub as_str : ReviewSource → Text
as_str ReviewSource.staged = codes "staged"
as_str ReviewSource.unstaged = codes "unstaged"
as_str ReviewSource.branch = codes "branch"

unfoldable pub parse : Text → Option ReviewSource
unfolding text_eq
parse value =
    if text_eq value (codes "staged")
    then some ReviewSource.staged
    else if text_eq value (codes "unstaged")
    then some ReviewSource.unstaged
    else if text_eq value (codes "branch")
    then some ReviewSource.branch
    else none

named :
    (v : Text) (s r : ReviewSource) → text_eq v (as_str s) ≡ true → some s ≡ some r → v ≡ as_str r
named v s r q h = text_eq→eq v (as_str s) q ∙ ap as_str (some-injective h)
  where
    some-injective : {a b : ReviewSource} → some a ≡ some b → a ≡ b
    some-injective e = cc

parse-named : (v : Text) (r : ReviewSource) → parse v ≡ some r → v ≡ as_str r
unfolding parse
parse-named v r = elim (Bool-cases (text_eq v (codes "staged"))) [
  | inl q ↦ rw q (named v ReviewSource.staged r q)
  | inr q ↦ rw q (elim (Bool-cases (text_eq v (codes "unstaged"))) [
    | inl q' ↦ rw q' (named v ReviewSource.unstaged r q')
    | inr q' ↦ rw q' (elim (Bool-cases (text_eq v (codes "branch"))) [
      | inl q'' ↦ rw q'' (named v ReviewSource.branch r q'')
      | inr q'' ↦ rw q'' (λ h. absurd (none-ne-some h))
    ])
  ])
]
  where
    none-ne-some : {a : ReviewSource} → none ≡ some a → ⊥
    none-ne-some e = cc

parse-name : (r : ReviewSource) → parse (as_str r) ≡ some r
unfolding parse
parse-name ReviewSource.staged = refl
parse-name ReviewSource.unstaged = refl
parse-name ReviewSource.branch = refl

-- A text is parsed as a source exactly if it is the name of that source.
pub parse-as_str : (v : Text) (r : ReviewSource) → (parse v ≡ some r) ↔ (v ≡ as_str r)
parse-as_str v r = (parse-named v r, λ e. ap parse e ∙ parse-name r)
