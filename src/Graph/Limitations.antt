-- ===== src/Graph/Limitations.antt =====
-- `canonicalize_limitations` of impact_context/index/traversal.rs and index/overlay.rs.
use pre_commit_review.Prelude.{
  Bool, true, false, ◌&&◌, List, [], ◌∷◌, Option, none, some, Bytes, if◌then◌else◌, unwrap_or,
}
use pre_commit_review.Prelude.Texts.{text_eq, text_le}
use pre_commit_review.Graph.Model.{IndexLimitation}

abbrev pub limitation_key : IndexLimitation → List Bytes
limitation_key l =
    l.code ∷ unwrap_or [] l.path ∷ unwrap_or [] l.symbol_id ∷ l.reason ∷ l.interpretation ∷ []

-- The lexicographic order of keys.
unfoldable pub key_le : List Bytes → List Bytes → Bool
unfolding text_eq text_le
key_le [] ks = true
key_le (j ∷ js) [] = false
key_le (j ∷ js) (k ∷ ks) = let rest = key_le js ks in if text_eq j k then rest else text_le j k

option_eq : Option Bytes → Option Bytes → Bool
unfolding text_eq
option_eq none none = true
option_eq none (some t) = false
option_eq (some s) none = false
option_eq (some s) (some t) = text_eq s t

unfoldable pub limitation_eq : IndexLimitation → IndexLimitation → Bool
unfolding text_eq option_eq
limitation_eq a b =
    text_eq a.code b.code
    && option_eq a.path b.path
    && option_eq a.symbol_id b.symbol_id
    && text_eq a.reason b.reason
    && text_eq a.interpretation b.interpretation

-- `sort_by`, which is stable.
unfoldable pub place : IndexLimitation → List IndexLimitation → List IndexLimitation
unfolding key_le
place l [] = l ∷ []
place l (m ∷ ms) =
    let rest = place l ms in
    if key_le (limitation_key l) (limitation_key m) then l ∷ m ∷ ms else m ∷ rest

unfoldable pub sort_limitations : List IndexLimitation → List IndexLimitation
unfolding place
sort_limitations [] = []
sort_limitations (l ∷ ls) = place l (sort_limitations ls)

-- `dedup`: an element that equals the one kept before it is dropped.
unfoldable pub dedup_after : IndexLimitation → List IndexLimitation → List IndexLimitation
unfolding limitation_eq
dedup_after l [] = []
dedup_after l (m ∷ ms) =
    let kept = m ∷ dedup_after m ms in
    let dropped = dedup_after l ms in if limitation_eq l m then dropped else kept

abbrev dedup : List IndexLimitation → List IndexLimitation
dedup [] = []
dedup (l ∷ ls) = l ∷ dedup_after l ls

unfoldable pub canonicalize_limitations : List IndexLimitation → List IndexLimitation
unfolding sort_limitations dedup_after
canonicalize_limitations ls = dedup (sort_limitations ls)
