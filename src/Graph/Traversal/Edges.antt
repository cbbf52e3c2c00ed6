-- ===== src/Graph/Traversal/Edges.antt =====
-- What the loop over the relationships of one lookup does to the nodes that are seen
-- (impact_context/index/traversal.rs).
use pre_commit_review.Prelude.{
  [], true, false, none, some, ◌≡◌, refl, sym, ◌∙◌, ap, inl, ◌⊎◌, arith, String, Option, ℕ, ok, inr,
  some, >>=-eq-ok, subst, List, All, ok-injective, ◌∷◌, Bool-cases,
}
use pre_commit_review.Graph.Model.{Completeness, GraphEdge}
use pre_commit_review.Graph.Traversal.{
  TraversalBuilder, Bytes, TextSet, World, TraversalRequest, contains, Bool, true,
  TraversalDirection, neighbor,
}
use pre_commit_review.Graph.Traversal.Output.{
  write_edge, consider_neighbor, add_output, replace_output, replace_if, Frontier, consider_output,
  output_over,
}
use pre_commit_review.Prelude.Texts.{contains-insert, text_eq_self, text_eq, text_eq→eq}
use pre_commit_review.Prelude.Texts.{get}
use pre_commit_review.Graph.Traversal.Lookup.{candidate_is_preferred}
use pre_commit_review.Graph.Traversal.Search.{each_edge, visit_neighbor}

-- Nothing has cut the query short so far.
abbrev pub Complete : TraversalBuilder → Type 0
Complete b = b.query_completeness ≡ Completeness.complete

abbrev pub Sees : TraversalBuilder → Bytes → Type 0
Sees b s = contains s b.seen_nodes ≡ true

-- What waits in the frontier is seen.
abbrev pub Waits : Frontier → Type 0
Waits f = (s : Bytes) → contains s f.1 ≡ true → Sees f.0 s

-- What is considered changes neither the lookups nor whether the query is halted. Nodes are only
-- added, and each that is added waits in the next frontier.
pub record EdgeMoves (f g : Frontier) : Type 0 where
  pub before : Complete g.0 → Complete f.0
  pub lookups : g.0.visited_lookups ≡ f.0.visited_lookups
  pub halted : g.0.query_halted ≡ f.0.query_halted
  pub grows : (s : Bytes) → Sees f.0 s → Sees g.0 s
  pub fresh : (s : Bytes) → Sees g.0 s → Sees f.0 s ⊎ (contains s g.1 ≡ true)
  pub keeps : (s : Bytes) → contains s f.1 ≡ true → contains s g.1 ≡ true
  pub waits : Waits f → Waits g

pub EdgeMoves-self : (f : Frontier) → EdgeMoves f f
EdgeMoves-self f = record {
  before = λ c. c;
  lookups = refl;
  halted = refl;
  grows = λ s h. h;
  fresh = λ s h. inl h;
  keeps = λ s h. h;
  waits = λ v. v;
}

pub EdgeMoves-trans : {f g h : Frontier} → EdgeMoves f g → EdgeMoves g h → EdgeMoves f h
EdgeMoves-trans p q = record {
  before = λ c. p.before (q.before c);
  lookups = q.lookups ∙ p.lookups;
  halted = q.halted ∙ p.halted;
  grows = λ s x. q.grows s (p.grows s x);
  fresh = λ s x. elim (q.fresh s x) [
    | inr y ↦ inr y
    | inl y ↦ elim (p.fresh s y) [ inl z ↦ inl z | inr z ↦ inr (q.keeps s z) ]
  ];
  keeps = λ s x. q.keeps s (p.keeps s x);
  waits = λ v. q.waits (p.waits v);
}

-- An operation that leaves the fields alone which the query is about.
pub record Unmoved (b b' : TraversalBuilder) : Type 0 where
  pub completeness : b'.query_completeness ≡ b.query_completeness
  pub lookups : b'.visited_lookups ≡ b.visited_lookups
  pub halted : b'.query_halted ≡ b.query_halted
  pub seen : b'.seen_nodes ≡ b.seen_nodes

pub Unmoved-EdgeMoves :
    (b b' : TraversalBuilder) (next : TextSet) → Unmoved b b' → EdgeMoves (b, next) (b', next)
Unmoved-EdgeMoves b b' next u = record {
  before = λ c. sym u.completeness ∙ c;
  lookups = u.lookups;
  halted = u.halted;
  grows = λ s h. ap (contains s) u.seen ∙ h;
  fresh = λ s h. inl (ap (contains s) (sym u.seen) ∙ h);
  keeps = λ s h. h;
  waits = λ v s h. ap (contains s) u.seen ∙ v s h;
}

module _ (w : World) (request : TraversalRequest) where
  write_edge-Unmoved :
      (text : String) (e : GraphEdge) (n m : ℕ) (b b' : TraversalBuilder)
      → write_edge request text e n m b ≡ ok b'
      → Unmoved b b'
  unfolding write_edge
  write_edge-Unmoved text e n m b b' h = ground arith

  replace_if-Unmoved :
      (e old : GraphEdge) (b b' : TraversalBuilder) (preferred : Bool)
      → replace_if w request e old b preferred ≡ ok b'
      → Unmoved b b'
  replace_if-Unmoved e old b b' false h = ground arith
  replace_if-Unmoved e old b b' true h = grind (arith, write_edge-Unmoved)

  add_output-Unmoved :
      (e : GraphEdge) (b b' : TraversalBuilder) → add_output w request e b ≡ ok b' → Unmoved b b'
  unfolding add_output
  add_output-Unmoved e b b' h = grind (arith, write_edge-Unmoved)

  output_over-Unmoved :
      (e : GraphEdge) (b b' : TraversalBuilder) (old : Option GraphEdge)
      → output_over w request e b old ≡ ok b'
      → Unmoved b b'
  unfolding replace_output
  output_over-Unmoved e b b' none h = add_output-Unmoved e b b' h
  output_over-Unmoved e b b' (some old) h =
      let (p, hp, h') = >>=-eq-ok (candidate_is_preferred w e old) _ h in
      replace_if-Unmoved e old b b' p h'

  consider_output-Unmoved :
      (e : GraphEdge) (b b' : TraversalBuilder)
      → consider_output w request e b ≡ ok b'
      → Unmoved b b'
  unfolding consider_output
  consider_output-Unmoved e b b' = output_over-Unmoved e b b' (get e.edge_id b.output_edges)

  consider_neighbor-EdgeMoves :
      (n : Bytes) (b : TraversalBuilder) (next : TextSet)
      → EdgeMoves (b, next) (consider_neighbor request n b next)
  unfolding consider_neighbor
  consider_neighbor-EdgeMoves n b next = record {
    before = ground arith;
    lookups = ground arith;
    halted = ground arith;
    grows = λ s h. ground (arith, contains-insert s n b.seen_nodes);
    fresh = λ s h. ground (arith, contains-insert s n b.seen_nodes, contains-insert s n next);
    keeps = λ s h. ground (arith, contains-insert s n next);
    waits =
        λ v s h. ground (arith, contains-insert s n b.seen_nodes, contains-insert s n next, v s);
  }

  -- A neighbor is seen, unless the node budget cut the query short.
  consider_neighbor-Sees :
      (n : Bytes) (b : TraversalBuilder) (next : TextSet)
      → Complete (consider_neighbor request n b next).0
      → Sees (consider_neighbor request n b next).0 n
  unfolding consider_neighbor
  consider_neighbor-Sees n b next c =
      ground (arith, contains-insert n n b.seen_nodes, text_eq_self n)

  visit_neighbor-EdgeMoves :
      (n : Option Bytes) (b : TraversalBuilder) (next : TextSet)
      → EdgeMoves (b, next) (visit_neighbor request n (b, next))
  visit_neighbor-EdgeMoves none b next = EdgeMoves-self (b, next)
  visit_neighbor-EdgeMoves (some node) b next = consider_neighbor-EdgeMoves node b next

  visit_neighbor-Sees :
      (o : Option Bytes) (n : Bytes) (b : TraversalBuilder) (next : TextSet)
      → o ≡ some n
      → Complete (visit_neighbor request o (b, next)).0
      → Sees (visit_neighbor request o (b, next)).0 n
  visit_neighbor-Sees none n b next q c = absurd (ground arith)
  visit_neighbor-Sees (some m) n b next q c =
      subst (Sees (consider_neighbor request m b next).0) (ground arith)
        (consider_neighbor-Sees m b next c)

  -- Every relationship of the list has its neighbor among the seen nodes.
  abbrev pub InSeen : TraversalBuilder → TraversalDirection → GraphEdge → Type 0
  InSeen b d e = (n : Bytes) → neighbor d e ≡ some n → Sees b n

  pub each_edge-EdgeMoves :
      (d : TraversalDirection) (es : List GraphEdge) (b : TraversalBuilder) (next : TextSet)
      (g : Frontier)
      → each_edge w request d es (b, next) ≡ ok g
      → EdgeMoves (b, next) g × (Complete g.0 → All (InSeen g.0 d) es)
  unfolding each_edge
  each_edge-EdgeMoves d [] b next g h =
      (subst (EdgeMoves (b, next)) (ok-injective h) (EdgeMoves-self (b, next)), λ c. tt)
  each_edge-EdgeMoves d (e ∷ es) b next g h =
      let (b', hb, h') = >>=-eq-ok (consider_output w request e b) _ h in
      let f = visit_neighbor request (neighbor d e) (b', next) in
      let (moves, seen) = each_edge-EdgeMoves d es f.0 f.1 g h' in
      let first = visit_neighbor-EdgeMoves (neighbor d e) b' next in
      let start = Unmoved-EdgeMoves b b' next (consider_output-Unmoved e b b' hb) in
      (
        EdgeMoves-trans (EdgeMoves-trans start first) moves,
        λ c. (
          λ n q. moves.grows n (visit_neighbor-Sees (neighbor d e) n b' next q (moves.before c)),
          seen c,
        ),
      )

  -- Every node that becomes seen is a neighbor.
  consider_neighbor-Only :
      (P : Bytes → Type 0) (n : Option Bytes) (b : TraversalBuilder) (next : TextSet)
      → ((m : Bytes) → n ≡ some m → P m)
      → ((m : Bytes) → Sees b m → P m)
      → (m : Bytes) → Sees (visit_neighbor request n (b, next)).0 m
      → P m
  unfolding consider_neighbor
  consider_neighbor-Only P none b next new old m h = old m h
  consider_neighbor-Only P (some n) b next new old m h = elim (Bool-cases (text_eq m n)) [
    | inl q ↦ new m (ap some (sym (text_eq→eq m n q)))
    | inr q ↦ old m (ground (arith, contains-insert m n b.seen_nodes))
  ]

  pub each_edge-Only :
      (P : Bytes → Type 0) (d : TraversalDirection) (es : List GraphEdge) (b : TraversalBuilder)
      (next : TextSet) (g : Frontier)
      → each_edge w request d es (b, next) ≡ ok g
      → All (λ e. (n : Bytes) → neighbor d e ≡ some n → P n) es
      → ((n : Bytes) → Sees b n → P n)
      → (n : Bytes) → Sees g.0 n
      → P n
  unfolding each_edge
  each_edge-Only P d [] b next g h a old =
      subst (λ x. (n : Bytes) → Sees x.0 n → P n) (ok-injective h) old
  each_edge-Only P d (e ∷ es) b next g h a old =
      let (b', hb, h') = >>=-eq-ok (consider_output w request e b) _ h in
      let u = consider_output-Unmoved e b b' hb in
      let f = visit_neighbor request (neighbor d e) (b', next) in
      each_edge-Only P d es f.0 f.1 g h' a.1 (
        consider_neighbor-Only P (neighbor d e) b' next a.0
          (λ n x. old n (ap (contains n) (sym u.seen) ∙ x)))
