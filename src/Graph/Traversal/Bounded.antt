-- ===== src/Graph/Traversal/Bounded.antt =====
-- A whole traversal stays within its budgets: impact_context/index/traversal.rs.
use pre_commit_review.Prelude.{
  stop_or, ◌<◌, ℕ, zero, suc, ◌-◌, ◌≤◌, ◌≡◌, subst, List, [], ◌∷◌, Option, none, some, ok,
  >>=-eq-ok, ok-injective, Bytes, arith, Bool-cases, inl, inr, ◌<◌,
}
use pre_commit_review.Prelude.Texts.{TextSet, insert, sum_values, length-insert-le}
use pre_commit_review.Graph.Model.{GraphEdge, RepositoryOverlay}
use pre_commit_review.Graph.Traversal.{
  TraversalDirection, TraversalRequest, World, TraversalBuilder, initial, neighbor,
}
use pre_commit_review.Graph.Traversal.Lookup.{lookup}
use pre_commit_review.Graph.Traversal.Output.{Frontier, consider_output, check_deadline}
use pre_commit_review.Graph.Traversal.Search.{
  seed_roots, visit_neighbor, each_edge, visit_direction, each_direction, each_symbol, each_level,
  mark_depth, search,
}
use pre_commit_review.Graph.Traversal.Search.{Levels, root_set, deepen}
use pre_commit_review.Graph.Traversal.Bounds.{
  LimitsRows, IsWithin, consider_output-IsWithin, consider_neighbor-IsWithin,
  check_deadline-IsWithin, lookup-IsWithin,
}

module _ (w : World) (request : TraversalRequest) where
  abbrev Within : TraversalBuilder → Type 0
  Within = IsWithin w request

  visit_neighbor-Within :
      (n : Option Bytes) (b : TraversalBuilder) (next : TextSet)
      → Within b
      → Within (visit_neighbor request n (b, next)).0
  visit_neighbor-Within none b next v = v
  visit_neighbor-Within (some node) b next v = consider_neighbor-IsWithin w request node b next v

  each_edge-Within :
      (d : TraversalDirection) (es : List GraphEdge) (b : TraversalBuilder) (next : TextSet)
      (f : Frontier)
      → Within b
      → each_edge w request d es (b, next) ≡ ok f
      → Within f.0
  unfolding each_edge
  each_edge-Within d [] b next f v h = subst (λ x. Within x.0) (ok-injective h) v
  each_edge-Within d (e ∷ es) b next f v h =
      let (b', hb, h') = >>=-eq-ok (consider_output w request e b) _ h in
      let step = visit_neighbor request (neighbor d e) (b', next) in
      each_edge-Within d es step.0 step.1 f
        (visit_neighbor-Within (neighbor d e) b' next
          (consider_output-IsWithin w request e b b' v hb))
        h'

  deepen-Within :
      (depth : ℕ) (es : List GraphEdge) (b : TraversalBuilder)
      → depth < request.maximum_depth
      → Within b
      → Within (deepen depth es b)
  deepen-Within depth [] b lt v = v
  deepen-Within depth (e ∷ es) b lt v = ground arith

  module _ (o : Option RepositoryOverlay) (law : LimitsRows w) where
    visit_direction-Within :
        (depth : ℕ) (s : Bytes) (d : TraversalDirection) (b : TraversalBuilder) (next : TextSet)
        (f : Frontier)
        → depth < request.maximum_depth
        → Within b
        → visit_direction w o request depth s d (b, next) ≡ ok f
        → Within f.0
    unfolding visit_direction
    visit_direction-Within depth s d b next f lt v h =
        let (r, hr, h') = >>=-eq-ok (lookup w o request d s b) _ h in
        each_edge-Within d r.1 (deepen depth r.1 r.0) next f
          (deepen-Within depth r.1 r.0 lt (lookup-IsWithin w request o d s b r law v hr)) h'

    each_direction-Within :
        (depth : ℕ) (s : Bytes) (ds : List TraversalDirection) (b : TraversalBuilder)
        (next : TextSet) (f : Frontier)
        → depth < request.maximum_depth
        → Within b
        → each_direction w o request depth s ds (b, next) ≡ ok f
        → Within f.0
    unfolding each_direction
    each_direction-Within depth s [] b next f lt v = λ h. subst (λ x. Within x.0) (ok-injective h) v
    each_direction-Within depth s (d ∷ ds) b next f lt v =
        let c = check_deadline w request (some s) b in
        let vc = check_deadline-IsWithin w request (some s) b v in
        elim (Bool-cases c.1) [
          | inr q ↦ rw q (λ h. subst (λ x. Within x.0) (ok-injective h) vc)
          | inl q ↦ rw q (λ h.
              let (g, hg, h') = >>=-eq-ok (visit_direction w o request depth s d (c.0, next)) _ h in
              let vg = visit_direction-Within depth s d c.0 next g lt vc hg in
              stop_or (λ x. Within x.0) g.0.query_halted g _ f (λ _. vg)
                (each_direction-Within depth s ds g.0 g.1 f lt vg) h')
        ]

    each_symbol-Within :
        (depth : ℕ) (ss : TextSet) (b : TraversalBuilder) (next : TextSet) (f : Frontier)
        → depth < request.maximum_depth
        → Within b
        → each_symbol w o request depth ss (b, next) ≡ ok f
        → Within f.0
    unfolding each_symbol
    each_symbol-Within depth [] b next f lt v = λ h. subst (λ x. Within x.0) (ok-injective h) v
    each_symbol-Within depth (s ∷ ss) b next f lt v =
        let c = check_deadline w request (some s) b in
        let vc = check_deadline-IsWithin w request (some s) b v in
        elim (Bool-cases c.1) [
          | inr q ↦ rw q (λ h. subst (λ x. Within x.0) (ok-injective h) vc)
          | inl q ↦ rw q (λ h.
              let (g, hg, h') =
                >>=-eq-ok (each_direction w o request depth s request.directions (c.0, next)) _ h in
              let vg = each_direction-Within depth s request.directions c.0 next g lt vc hg in
              stop_or (λ x. Within x.0) g.0.query_halted g _ f (λ _. vg)
                (each_symbol-Within depth ss g.0 g.1 f lt vg) h')
        ]

    each_level-Within :
        (left : ℕ) (b : TraversalBuilder) (frontier : TextSet) (l : Levels)
        → left ≤ request.maximum_depth
        → Within b
        → each_level w o request left (b, frontier) ≡ ok l
        → Within l.0
    unfolding each_level
    each_level-Within zero b frontier l le v = λ h. subst (λ x. Within x.0) (ok-injective h) v
    each_level-Within (suc left) b [] l le v = λ h. subst (λ x. Within x.0) (ok-injective h) v
    each_level-Within (suc left) b (s ∷ ss) l le v =
        let c = check_deadline w request none b in
        let vc = check_deadline-IsWithin w request none b v in
        elim (Bool-cases c.1) [
          | inr q ↦ rw q (λ h. subst (λ x. Within x.0) (ok-injective h) vc)
          | inl q ↦ rw q (λ h.
              let (g, hg, h') =
                >>=-eq-ok
                  (each_symbol w o request (request.maximum_depth - suc left) (s ∷ ss) (c.0, [])) _
                  h in
              let vg =
                each_symbol-Within (request.maximum_depth - suc left) (s ∷ ss) c.0 [] g
                  (omega arith) vc hg in
              stop_or (λ x. Within x.0) g.0.query_halted (g.0, [], suc left) _ l (λ _. vg)
                (each_level-Within left g.0 g.1 l (omega arith) vg) h')
        ]

  seed_roots-Within :
      (roots : List Bytes) (b : TraversalBuilder) (frontier : TextSet)
      → Within b
      → Within (seed_roots request roots (b, frontier)).0
  unfolding seed_roots
  seed_roots-Within [] b frontier v = v
  seed_roots-Within (r ∷ rs) b frontier v = ground (
    arith,
    length-insert-le r b.seen_nodes,
    seed_roots-Within rs (record b { seen_nodes = insert r b.seen_nodes }) (insert r frontier),
  )

  mark_depth-Within : (l : Levels) → Within l.0 → Within (mark_depth l)
  unfolding mark_depth
  mark_depth-Within (b, [], left) v = v
  mark_depth-Within (b, s ∷ ss, suc left) v = v
  mark_depth-Within (b, s ∷ ss, zero) v = ground arith

  initial-Within : (o : Option RepositoryOverlay) → Within (initial o)
  unfolding initial sum_values
  initial-Within o = omega arith

  pub search-IsWithin :
      (o : Option RepositoryOverlay) (b : TraversalBuilder)
      → LimitsRows w
      → search w o request ≡ ok b
      → IsWithin w request b
  unfolding search
  search-IsWithin o b law h =
      let start = seed_roots request (root_set request.roots) (initial o, []) in
      let (l, hl, h') = >>=-eq-ok (each_level w o request request.maximum_depth start) _ h in
      subst Within (ok-injective h') (
        mark_depth-Within l (
          each_level-Within o law request.maximum_depth start.0 start.1 l (omega arith)
            (seed_roots-Within (root_set request.roots) (initial o) [] (initial-Within o)) hl))
