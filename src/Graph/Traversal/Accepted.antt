-- ===== src/Graph/Traversal/Accepted.antt =====
-- What impact_context/index/traversal.rs refuses before it reads the graph.
use pre_commit_review.Prelude.{
  ◌≡◌, refl, ap, ◌∙◌, sym, Bool, true, false, not, ◌||◌, List, [], ◌∷◌, Option, none, some, Result,
  ok, err, >>=-eq-ok, refuse_if, Bytes, arith, length, all, All, ==→eq, ◌==◌,
}
use pre_commit_review.Prelude.Texts.{text_eq, text_eq→eq, text_eq_self}
use pre_commit_review.Graph.Model.{RepositoryOverlay}
use pre_commit_review.Graph.Traversal.{World, TraversalRequest}
use pre_commit_review.Graph.Traversal.Run.{
  TraversalResult, is_hex, validate_request, check_overlay, identified, traverse_repository_graph,
}

-- A symbol id: 64 lowercase hexadecimal digits.
abbrev pub IsSymbolId : Bytes → Type 0
IsSymbolId root = (length root ≡ 64) × (all is_hex root ≡ true)

-- The overlay was built over the opened generation.
abbrev pub Belongs : World → Option RepositoryOverlay → Type 0
Belongs w none = Unit {0}
Belongs w (some o) = w.generation_key ≡ ok o.base_generation_key

refuse_if-ok : {E : Type 0} (t : Bool) (e : E) → refuse_if t e ≡ ok tt → t ≡ false
refuse_if-ok true e h = absurd (ground arith)
refuse_if-ok false e h = refl

validate_request-ok : (roots : List Bytes) → validate_request roots ≡ ok tt → All IsSymbolId roots
unfolding validate_request
validate_request-ok [] h = tt
validate_request-ok (root ∷ roots) h =
    let (u, hu, h') =
      >>=-eq-ok (refuse_if (not (length root == 64) || not (all is_hex root)) _) _ h in
    let fit = refuse_if-ok (not (length root == 64) || not (all is_hex root)) _ hu in
    (
      (==→eq (length root) 64 (ground (arith, fit)), ground (arith, fit)),
      validate_request-ok roots h',
    )

identified-ok : (r : Result Bytes Bytes) (k : Bytes) → identified r ≡ ok k → r ≡ ok k
identified-ok (ok x) k h = ground arith
identified-ok (err e) k h = absurd (ground arith)

check_overlay-ok :
    (w : World) (o : Option RepositoryOverlay) → check_overlay w o ≡ ok tt → Belongs w o
unfolding check_overlay
check_overlay-ok w none h = tt
check_overlay-ok w (some o) h =
    let (key, hk, h') = >>=-eq-ok (identified w.generation_key) _ h in
    let same = refuse_if-ok (not (text_eq o.base_generation_key key)) _ h' in
    identified-ok w.generation_key key hk
    ∙ ap ok (sym (text_eq→eq o.base_generation_key key (ground (arith, same))))

pub check_overlay-Belongs :
    (w : World) (o : RepositoryOverlay) → Belongs w (some o) → check_overlay w (some o) ≡ ok tt
unfolding check_overlay
check_overlay-Belongs w o h = rw (h, text_eq_self o.base_generation_key) refl

-- A traversal gives a result only if each root is a symbol id and the overlay, if there is one, was
-- built over the generation that is open: otherwise it is refused.
pub traverse-Belongs :
    (w : World) (o : Option RepositoryOverlay) (request : TraversalRequest) (r : TraversalResult)
    → traverse_repository_graph w o request ≡ ok r
    → All IsSymbolId request.roots × Belongs w o
unfolding traverse_repository_graph
traverse-Belongs w o request r h =
    let (u, hu, h1) = >>=-eq-ok (validate_request request.roots) _ h in
    let (u', hu', h2) = >>=-eq-ok (check_overlay w o) _ h1 in
    (validate_request-ok request.roots hu, check_overlay-ok w o hu')
