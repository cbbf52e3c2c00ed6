-- ===== src/Graph/Traversal/Steps.antt =====
-- The loops of impact_context/index/traversal.rs over directions and symbols close what they visit.
use mathlib.Core.List.{Memᴰ}
use pre_commit_review.Prelude.{
  refl, ◌&&◌, ℕ, ◌≡◌, inl, inr, ap, sym, ◌∙◌, subst, List, [], ◌∷◌, Option, ok, >>=-eq-ok,
  ok-injective, Bytes, arith, Bool-cases, All, All-map, ◌==◌, some,
}
use mathlib.Core.Path.{fun_ext}
use pre_commit_review.Prelude.Texts.{TextSet, contains, text_eq, text_eq→eq}
use pre_commit_review.Graph.Model.{GraphEdge, RepositoryOverlay}
use pre_commit_review.Graph.Traversal.Edges.{
  Complete, Sees, InSeen, each_edge-EdgeMoves, Unmoved, each_edge-Only,
}
use pre_commit_review.Graph.Traversal.Levels.{Queries, edges_of, Outcome, lookup-Outcome}
use pre_commit_review.Graph.Traversal.Closed.{
  AllVisited, Closed, Looked, IsSound, Step, Closed-mono, Looked-mono, edges_of-none,
  unvisited-none, unvisited-all, added-AllVisited, direction-eq, Reach, Honest,
}
use pre_commit_review.Graph.Traversal.{
  World, TraversalRequest, TraversalDirection, TraversalBuilder, add_lookups, direction_rank,
  unvisited_kinds, Lookups, neighbor,
}
use pre_commit_review.Graph.Traversal.Output.{Frontier}
use pre_commit_review.Graph.Traversal.Search.{deepen, visit_direction}
use pre_commit_review.Graph.Traversal.Lookup.{Rows, lookup}

add_lookups-nil : (v : Lookups) (d : TraversalDirection) (s : Bytes) → add_lookups v d s [] ≡ v
unfolding add_lookups
add_lookups-nil v d s = fun_ext λ d'. fun_ext λ s'. fun_ext λ k'. ground arith

pub Memᴰ-All : {A : Type 0} {P : A → Type 0} (xs : List A) → ((x : A) → Memᴰ x xs → P x) → All P xs
Memᴰ-All [] f = tt
Memᴰ-All (x ∷ xs) f = (f x (Memᴰ.head refl), Memᴰ-All xs (λ y m. f y (Memᴰ.tail m)))

module _ (w : World) (o : Option RepositoryOverlay) (request : TraversalRequest)
    (full : TraversalDirection → Bytes → List GraphEdge) (law : Queries w full) where
  abbrev pub Shut : TraversalBuilder → TraversalDirection → Bytes → Type 0
  Shut = Closed w o request full

  abbrev pub Sound : TraversalBuilder → Type 0
  Sound = IsSound w o request full

  abbrev pub Moves : Frontier → Frontier → Type 0
  Moves = Step w o request full

  deepen-Unmoved :
      (depth : ℕ) (es : List GraphEdge) (b : TraversalBuilder) → Unmoved b (deepen depth es b)
  deepen-Unmoved depth [] b = ground arith
  deepen-Unmoved depth (e ∷ es) b = ground arith

  -- The lookups behind a lookup that added (d, s), once the neighbors of s in d are seen.
  added-Looked :
      (b b' : TraversalBuilder) (d d' : TraversalDirection) (s s' : Bytes)
      → b'.visited_lookups ≡ add_lookups b.visited_lookups d s request.edge_kinds
      → ((n : Bytes) → Sees b n → Sees b' n)
      → Shut b' d s
      → Looked w o request full b d' s'
      → Looked w o request full b' d' s'
  unfolding add_lookups
  added-Looked b b' d d' s s' e grows c l =
      elim (Bool-cases (direction_rank d == direction_rank d' && text_eq s s')) [
        | inl q ↦
            let p = direction-eq d d' (ground arith) in
            let p' = text_eq→eq s s' (ground arith) in
            subst (λ x. Looked w o request full b' x s') p
              (subst (Looked w o request full b' d) p' (
                inl (
                  subst (λ v. AllVisited v d s request.edge_kinds) (sym e)
                      (added-AllVisited b.visited_lookups d s request.edge_kinds),
                  c,
                )))
        | inr q ↦ elim l [
          | inl (a, k) ↦ inl (
            rw e (All-map request.edge_kinds (λ j h. ground arith) a),
            Closed-mono w o request full b b' d' s' grows k,
          )
          | inr a ↦ inr (rw e (All-map request.edge_kinds (λ j h. ground arith) a))
        ]
      ]

  -- Either nothing of the symbol has been looked up, and the lookup found its relationships, or all.
  visited-Shut :
      (b b' : TraversalBuilder) (r : Rows) (d : TraversalDirection) (s : Bytes)
      → b'.visited_lookups ≡ r.0.visited_lookups
      → ((n : Bytes) → Sees b n → Sees b' n)
      → Outcome w o request full b d s (unvisited_kinds b.visited_lookups d s request.edge_kinds) r
      → All (InSeen w request b' d) r.1
      → Looked w o request full b d s
      → Shut b' d s
  visited-Shut b b' r d s e grows (inl (nil, same, none_found)) a (inl (v, c)) =
      Closed-mono w o request full b b' d s grows c
  visited-Shut b b' r d s e grows (inr (added, found)) a (inl (v, c)) =
      Closed-mono w o request full b b' d s grows c
  visited-Shut b b' r d s e grows (inl (nil, same, none_found)) a (inr v) = λ es h.
      let q : request.edge_kinds ≡ [] =
        sym (unvisited-none b.visited_lookups d s request.edge_kinds v) ∙ nil in
      subst (All (InSeen w request b' d))
        (ok-injective (
          sym (edges_of-none w o request full d s)
          ∙ ap (λ ks. edges_of w o request full ks d s) (sym q)
          ∙ h))
        tt
  visited-Shut b b' r d s e grows (inr (added, found)) a (inr v) = λ es h.
      let q = unvisited-none b.visited_lookups d s request.edge_kinds v in
      subst (All (InSeen w request b' d))
        (ok-injective (sym found ∙ ap (λ ks. edges_of w o request full ks d s) q ∙ h)) a

  visited-Looked :
      (b b' : TraversalBuilder) (r : Rows) (d d' : TraversalDirection) (s s' : Bytes)
      → b'.visited_lookups ≡ r.0.visited_lookups
      → ((n : Bytes) → Sees b n → Sees b' n)
      → Outcome w o request full b d s (unvisited_kinds b.visited_lookups d s request.edge_kinds) r
      → All (InSeen w request b' d) r.1
      → Looked w o request full b d s
      → Looked w o request full b d' s'
      → Looked w o request full b' d' s'
  visited-Looked b b' r d d' s s' e grows (inl (nil, same, none_found)) a l l' =
      Looked-mono w o request full b b' d' s' (e ∙ same) grows l'
  visited-Looked b b' r d d' s s' e grows (inr (added, found)) a (inl (v, c)) l' =
      Looked-mono w o request full b b' d' s'
        (e
          ∙ added
          ∙ ap (add_lookups b.visited_lookups d s)
              (unvisited-all b.visited_lookups d s request.edge_kinds v)
          ∙ add_lookups-nil b.visited_lookups d s)
        grows l'
  visited-Looked b b' r d d' s s' e grows (inr (added, found)) a (inr v) l' =
      added-Looked b b' d d' s s'
        (e
          ∙ added
          ∙ ap (add_lookups b.visited_lookups d s)
              (unvisited-none b.visited_lookups d s request.edge_kinds v))
        grows (visited-Shut b b' r d s e grows (inr (added, found)) a (inr v)) l'

  -- What a lookup of a reached symbol finds leads to reached nodes.
  found-Reach :
      (b : TraversalBuilder) (r : Rows) (d : TraversalDirection) (s : Bytes)
      → Outcome w o request full b d s (unvisited_kinds b.visited_lookups d s request.edge_kinds) r
      → Looked w o request full b d s
      → Memᴰ d request.directions
      → Reach w o request full s
      → All (λ e. (n : Bytes) → neighbor d e ≡ some n → Reach w o request full n) r.1
  found-Reach b r d s (inl (nil, same, none_found)) l md rs =
      subst (All (λ e. (n : Bytes) → neighbor d e ≡ some n → Reach w o request full n))
        (sym none_found) tt
  found-Reach b r d s (inr (added, found)) (inl (v, c)) md rs =
      subst (All (λ e. (n : Bytes) → neighbor d e ≡ some n → Reach w o request full n))
        (ok-injective (
          sym (edges_of-none w o request full d s)
          ∙ ap (λ ks. edges_of w o request full ks d s)
              (sym (unvisited-all b.visited_lookups d s request.edge_kinds v))
          ∙ found))
        tt
  found-Reach b r d s (inr (added, found)) (inr v) md rs =
      let q = unvisited-none b.visited_lookups d s request.edge_kinds v in
      Memᴰ-All r.1 (λ e me n hn.
        Reach.step rs md (ap (λ ks. edges_of w o request full ks d s) (sym q) ∙ found) me hn)

  -- The kinds of a symbol and a direction are looked up together.
  pub visit_direction-Step :
      (depth : ℕ) (s : Bytes) (d : TraversalDirection) (b : TraversalBuilder) (next : TextSet)
      (g : Frontier)
      → visit_direction w o request depth s d (b, next) ≡ ok g
      → Complete g.0
      → Moves (b, next) g
        × (Sound b
            → Shut g.0 d s
              × (Memᴰ d request.directions
                  → Sees b s
                  → Honest w o request full b
                  → Honest w o request full g.0))
  unfolding visit_direction
  visit_direction-Step depth s d b next g h c =
      let (r, hr, h') = >>=-eq-ok (lookup w o request d s b) _ h in
      let b1 = deepen depth r.1 r.0 in
      let (moves, seen) = each_edge-EdgeMoves w request d r.1 b1 next g h' in
      let u = deepen-Unmoved depth r.1 r.0 in
      let cr : Complete r.0 = sym u.completeness ∙ moves.before c in
      let (kept, out) = lookup-Outcome w o request full d s b r law hr cr in
      let grows : (n : Bytes) → Sees b n → Sees g.0 n =
        λ n x. moves.grows n (ap (contains n) (u.seen ∙ kept.seen) ∙ x) in
      let lookups : g.0.visited_lookups ≡ r.0.visited_lookups = moves.lookups ∙ u.lookups in
      let shut = visited-Shut b g.0 r d s lookups grows out (seen c) in
      (
        record {
          before = sym kept.completeness ∙ cr;
          sound = λ v. record {
            running = moves.halted ∙ u.halted ∙ kept.halted ∙ v.running;
            looked = λ d' s'.
                visited-Looked b g.0 r d d' s s' lookups grows out (seen c) (v.looked d s)
                  (v.looked d' s');
          };
          grows = grows;
          fresh = λ n x. elim (moves.fresh n x) [
            | inl y ↦ inl (ap (contains n) (sym kept.seen ∙ sym u.seen) ∙ y)
            | inr y ↦ inr y
          ];
          keeps = moves.keeps;
          waits = λ v. moves.waits (λ n x. ap (contains n) (u.seen ∙ kept.seen) ∙ v n x);
        },
        λ v. (
          shut (v.looked d s),
          λ md hs hh.
              each_edge-Only w request (Reach w o request full) d r.1 b1 next g h'
                (found-Reach b r d s out (v.looked d s) md (hh s hs))
                (λ n x. hh n (ap (contains n) (sym kept.seen ∙ sym u.seen) ∙ x)),
        ),
      )
