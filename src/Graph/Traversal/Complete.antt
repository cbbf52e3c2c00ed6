-- ===== src/Graph/Traversal/Complete.antt =====
-- The nodes that a complete traversal of impact_context/index/traversal.rs has seen.
use pre_commit_review.Prelude.{
  zero, suc, ◌≡◌, ◌⊎◌, inl, inr, refl, ap, sym, ◌∙◌, subst, false, List, [], ◌∷◌, Option, ok,
  >>=-eq-ok, ok-injective, Bytes, arith, All, All-map, ◌↔◌,
}
use pre_commit_review.Prelude.Texts.{contains-All, All-contains}
use pre_commit_review.Graph.Model.{EdgeKind, GraphEdge, RepositoryOverlay}
use pre_commit_review.Graph.Traversal.Edges.{Complete, Sees, InSeen}
use pre_commit_review.Graph.Traversal.Levels.{Queries}
use pre_commit_review.Graph.Traversal.Closed.{Closed, NoneVisited, IsSound, Honest, Reach}
use pre_commit_review.Graph.Traversal.Sweeps.{AllClosed}
use pre_commit_review.Graph.Traversal.Reachable.{Nodes, Ends, each_level-Ends, All-Memᴰ}
use pre_commit_review.Graph.Traversal.{
  World, TraversalDirection, TraversalRequest, TraversalBuilder, initial, mark_query_partial,
}
use pre_commit_review.Graph.Traversal.Search.{
  search, seed_roots, root_set, mark_depth, Levels, each_level,
}
use pre_commit_review.Graph.Traversal.Seeds.{
  seed_roots-Seeded, seed_roots-Waits, seed_roots-only, nothing_waits,
}

all_unvisited :
    (d : TraversalDirection) (s : Bytes) (ks : List EdgeKind) → NoneVisited (λ d s k. false) d s ks
all_unvisited d s [] = tt
all_unvisited d s (k ∷ ks) = (refl, all_unvisited d s ks)

module _ (w : World) (o : Option RepositoryOverlay) (request : TraversalRequest)
    (full : TraversalDirection → Bytes → List GraphEdge) where
  mark_depth-Complete :
      (l : Levels)
      → (l.1 ≡ []) ⊎ (l.2 ≡ zero)
      → Complete (mark_depth l)
      → Complete l.0 × (l.1 ≡ []) × (mark_depth l ≡ l.0)
  unfolding mark_depth mark_query_partial
  mark_depth-Complete (b, [], left) e c = (c, refl, refl)
  mark_depth-Complete (b, s ∷ ss, zero) e c = absurd (ground arith)
  mark_depth-Complete (b, s ∷ ss, suc left) e c = absurd (ground arith)

  mark_depth-before : (l : Levels) → Complete (mark_depth l) → Complete l.0
  unfolding mark_depth mark_query_partial
  mark_depth-before (b, [], left) c = c
  mark_depth-before (b, s ∷ ss, zero) c = absurd (ground arith)
  mark_depth-before (b, s ∷ ss, suc left) c = c

  initial-IsSound :
      (b : TraversalBuilder)
      → b.visited_lookups ≡ (initial o).visited_lookups
      → b.query_halted ≡ (initial o).query_halted
      → IsSound w o request full b
  unfolding initial
  initial-IsSound b p q = record {
    running = q;
    looked = λ d s. inr (
        subst (λ v. NoneVisited v d s request.edge_kinds) (sym p)
          (all_unvisited d s request.edge_kinds));
  }

  finish_level :
      (b : TraversalBuilder) (l : Levels)
      → Queries w full
      → each_level w o request request.maximum_depth
          (seed_roots request (root_set request.roots) (initial o, []))
        ≡ ok l
      → Complete b
      → mark_depth l ≡ b
      → All (Sees b) (root_set request.roots)
        × ((s : Bytes) → Sees b s → AllClosed w o request full b request.directions s)
        × Honest w o request full b
  unfolding initial
  finish_level b l law hl c e =
      let roots = root_set request.roots in
      let f = seed_roots request roots (initial o, []) in
      let ends : Complete l.0 → Ends w o request full f.0 f.1 l =
        each_level-Ends w o request full law request.maximum_depth f.0 f.1 l hl in
      let (cl, empty, same) =
        mark_depth-Complete l
          (ends (mark_depth-before l (ap (λ x. x.query_completeness) e ∙ c))).ended
          (ap (λ x. x.query_completeness) e ∙ c) in
      let end = ends cl in
      let seeded = seed_roots-Seeded request (root_set request.roots) (initial o) [] end.before in
      let sound = initial-IsSound f.0 seeded.lookups seeded.halted in
      let start : Nodes w o request full f.0 f.1 = λ s x. inl (seeded.waits (λ n y. y) s x) in
      let b-eq : l.0 ≡ b = sym same ∙ e in
      subst
        (λ x.
          All (Sees x) (root_set request.roots)
          × ((s : Bytes) → Sees x s → AllClosed w o request full x request.directions s)
          × Honest w o request full x)
        b-eq
        (
          All-map (root_set request.roots) end.grows seeded.seeds,
          λ s x. elim (end.nodes sound start s x) [
            | inl y ↦ absurd (nothing_waits l.1 s empty y)
            | inr y ↦ y
          ],
          end.honest sound
              (seed_roots-Waits request roots (initial o) []
                (λ s x. absurd (nothing_waits [] s refl x)))
              (seed_roots-only (Reach w o request full) request roots (initial o) []
                (contains-All (Reach w o request full) roots (λ s x. Reach.root x))
                (λ s x. absurd (nothing_waits [] s refl x))),
        )

  -- The builder behind a complete query is closed, and has seen the roots.
  search-Closed :
      (b : TraversalBuilder)
      → Queries w full
      → search w o request ≡ ok b
      → Complete b
      → All (Sees b) (root_set request.roots)
        × ((s : Bytes) → Sees b s → AllClosed w o request full b request.directions s)
        × Honest w o request full b
  unfolding search
  search-Closed b law h c =
      let roots = root_set request.roots in
      let f = seed_roots request roots (initial o, []) in
      let (l, hl, h') = >>=-eq-ok (each_level w o request request.maximum_depth f) _ h in
      finish_level b l law hl c (ok-injective h')

  Reach-Sees :
      (b : TraversalBuilder)
      → All (Sees b) (root_set request.roots)
      → ((s : Bytes) → Sees b s → AllClosed w o request full b request.directions s)
      → {n : Bytes} → Reach w o request full n
      → Sees b n
  Reach-Sees b roots closed (Reach.root h) =
      All-contains (Sees b) (root_set request.roots) _ h roots
  Reach-Sees b roots closed (Reach.step {s} {n} {d} {es} {e} r md he me hn) =
      All-Memᴰ (InSeen w request b d)
        (All-Memᴰ (λ x. Closed w o request full b x s) (closed s (Reach-Sees b roots closed r)) md
          es he)
        me n hn

  -- Where a query returns the first rows of what the base graph holds, a search that ends with the
  -- mark `complete` has seen exactly the nodes that are reached from the roots along relationships
  -- of the requested kinds and directions, in the base graph under the overlay.
  pub search_exact :
      (b : TraversalBuilder) (n : Bytes)
      → Queries w full
      → search w o request ≡ ok b
      → Complete b
      → Sees b n ↔ Reach w o request full n
  search_exact b n law h c =
      let (roots, closed, honest) = search-Closed b law h c in (honest n, Reach-Sees b roots closed)
