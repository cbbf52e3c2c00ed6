-- ===== src/Graph/Traversal/Closed.antt =====
-- As long as a query of impact_context/index/traversal.rs is complete, the neighbors of each node
-- that was looked up are seen.
use mathlib.Core.List.{Memᴰ}
use pre_commit_review.Prelude.{
  ◌≡◌, ◌⊎◌, inl, inr, refl, Bool, true, false, List, [], ◌∷◌, Option, Result, ok, Bytes, arith,
  Bool-cases, All, All-map, ◌==◌, some,
}
use pre_commit_review.Prelude.Texts.{TextMap, contains, values, text_eq_self}
use pre_commit_review.Graph.Model.{EdgeKind, GraphEdge, RepositoryOverlay}
use pre_commit_review.Graph.Traversal.Edges.{Complete, Sees, InSeen, Waits}
use pre_commit_review.Graph.Traversal.Levels.{edges_of}
use pre_commit_review.Graph.Traversal.{
  has_kind, TraversalDirection, World, add_lookups, unvisited_kinds, Lookups, direction_rank,
  TraversalRequest, TraversalBuilder, TraversalError, overlay_rows, base_lookup_is_fully_replaced,
  neighbor,
}
use pre_commit_review.Graph.Traversal.Lookup.{merge_edges}
use pre_commit_review.Graph.Traversal.Output.{Frontier}
use pre_commit_review.Graph.Traversal.Search.{root_set}

abbrev pub AllVisited : Lookups → TraversalDirection → Bytes → List EdgeKind → Type 0
AllVisited v d s = All (λ k. v d s k ≡ true)

abbrev pub NoneVisited : Lookups → TraversalDirection → Bytes → List EdgeKind → Type 0
NoneVisited v d s = All (λ k. v d s k ≡ false)

pub unvisited-none :
    (v : Lookups) (d : TraversalDirection) (s : Bytes) (ks : List EdgeKind)
    → NoneVisited v d s ks
    → unvisited_kinds v d s ks ≡ ks
unfolding unvisited_kinds
unvisited-none v d s [] a = refl
unvisited-none v d s (k ∷ ks) a = ground (arith, unvisited-none v d s ks a.1)

pub unvisited-all :
    (v : Lookups) (d : TraversalDirection) (s : Bytes) (ks : List EdgeKind)
    → AllVisited v d s ks
    → unvisited_kinds v d s ks ≡ []
unfolding unvisited_kinds
unvisited-all v d s [] a = refl
unvisited-all v d s (k ∷ ks) a = ground (arith, unvisited-all v d s ks a.1)

has_kind-member :
    (ks js : List EdgeKind)
    → ((k : EdgeKind) → has_kind k ks ≡ true → has_kind k js ≡ true)
    → All (λ k. has_kind k js ≡ true) ks
has_kind-member [] js f = tt
has_kind-member (k ∷ ks) js f =
    (f k (ground arith), has_kind-member ks js (λ j h. f j (ground arith)))

-- The kinds that were just looked up are visited.
pub added-AllVisited :
    (v : Lookups) (d : TraversalDirection) (s : Bytes) (ks : List EdgeKind)
    → AllVisited (add_lookups v d s ks) d s ks
unfolding add_lookups
added-AllVisited v d s ks =
    All-map ks (λ k h. ground (arith, text_eq_self s)) (has_kind-member ks ks (λ k h. h))

pub direction-eq :
    (d d' : TraversalDirection) → (direction_rank d == direction_rank d') ≡ true → d ≡ d'
direction-eq TraversalDirection.incoming TraversalDirection.incoming h = refl
direction-eq TraversalDirection.incoming TraversalDirection.outgoing h = absurd (ground arith)
direction-eq TraversalDirection.outgoing TraversalDirection.incoming h = absurd (ground arith)
direction-eq TraversalDirection.outgoing TraversalDirection.outgoing h = refl

merge_none :
    (w : World) (keep : GraphEdge → Bool) (m : TextMap GraphEdge) (rows : List GraphEdge)
    → ((e : GraphEdge) → keep e ≡ false)
    → merge_edges w keep m rows ≡ ok m
unfolding merge_edges
merge_none w keep m [] f = refl
merge_none w keep m (e ∷ es) f = rw (f e) (merge_none w keep m es f)

module _ (w : World) (o : Option RepositoryOverlay) (request : TraversalRequest)
    (full : TraversalDirection → Bytes → List GraphEdge) where
  abbrev pub relationships : TraversalDirection → Bytes → Result (List GraphEdge) TraversalError
  relationships = edges_of w o request full request.edge_kinds

  -- The neighbors of a symbol in a direction are seen.
  abbrev pub Closed : TraversalBuilder → TraversalDirection → Bytes → Type 0
  Closed b d s = (es : List GraphEdge) → relationships d s ≡ ok es → All (InSeen w request b d) es

  abbrev pub Looked : TraversalBuilder → TraversalDirection → Bytes → Type 0
  Looked b d s =
      (AllVisited b.visited_lookups d s request.edge_kinds × Closed b d s)
      ⊎ NoneVisited b.visited_lookups d s request.edge_kinds

  pub record IsSound (b : TraversalBuilder) : Type 0 where
    pub running : b.query_halted ≡ false
    pub looked : (d : TraversalDirection) (s : Bytes) → Looked b d s

  -- What is reached from the roots along the relationships in the directions of the request.
  pub data Reach : Bytes → Type 0 where
    root : {s : Bytes} → contains s (root_set request.roots) ≡ true → Reach s
    step :
        {s n : Bytes} {d : TraversalDirection} {es : List GraphEdge} {e : GraphEdge}
        → Reach s
        → Memᴰ d request.directions
        → relationships d s ≡ ok es
        → Memᴰ e es
        → neighbor d e ≡ some n
        → Reach n

  -- Nothing is seen that is not reached.
  abbrev pub Honest : TraversalBuilder → Type 0
  Honest b = (n : Bytes) → Sees b n → Reach n

  -- No kinds, no relationships.
  pub edges_of-none :
      (d : TraversalDirection) (s : Bytes) → edges_of w o request full [] d s ≡ ok []
  unfolding values
  edges_of-none d s =
      rw (merge_none w (λ e. false) [] (overlay_rows o d s) (λ e. refl))
        (elim (Bool-cases (base_lookup_is_fully_replaced o d s)) [
          | inl q ↦ rw q refl
          | inr q ↦ rw (q, merge_none w (λ e. false) [] (full d s) (λ e. refl)) refl
        ])

  -- One stretch of the query, as long as it is complete.
  pub record Step (f g : Frontier) : Type 0 where
    pub before : Complete f.0
    pub sound : IsSound f.0 → IsSound g.0
    pub grows : (s : Bytes) → Sees f.0 s → Sees g.0 s
    pub fresh : (s : Bytes) → Sees g.0 s → Sees f.0 s ⊎ (contains s g.1 ≡ true)
    pub keeps : (s : Bytes) → contains s f.1 ≡ true → contains s g.1 ≡ true
    pub waits : Waits f → Waits g

  pub Step-self : (f : Frontier) → Complete f.0 → Step f f
  Step-self f c = record {
    before = c;
    sound = λ v. v;
    grows = λ s h. h;
    fresh = λ s h. inl h;
    keeps = λ s h. h;
    waits = λ v. v;
  }

  pub Step-trans : {f g h : Frontier} → Step f g → Step g h → Step f h
  Step-trans p q = record {
    before = p.before;
    sound = λ v. q.sound (p.sound v);
    grows = λ s x. q.grows s (p.grows s x);
    fresh = λ s x. elim (q.fresh s x) [
      | inr y ↦ inr y
      | inl y ↦ elim (p.fresh s y) [ inl z ↦ inl z | inr z ↦ inr (q.keeps s z) ]
    ];
    keeps = λ s x. q.keeps s (p.keeps s x);
    waits = λ v. q.waits (p.waits v);
  }

  pub Closed-mono :
      (b b' : TraversalBuilder) (d : TraversalDirection) (s : Bytes)
      → ((n : Bytes) → Sees b n → Sees b' n)
      → Closed b d s
      → Closed b' d s
  Closed-mono b b' d s grows c es h = All-map es (λ e f n q. grows n (f n q)) (c es h)

  pub Looked-mono :
      (b b' : TraversalBuilder) (d : TraversalDirection) (s : Bytes)
      → b'.visited_lookups ≡ b.visited_lookups
      → ((n : Bytes) → Sees b n → Sees b' n)
      → Looked b d s
      → Looked b' d s
  Looked-mono b b' d s e grows l =
      rw e (elim l [ inl (a, c) ↦ inl (a, Closed-mono b b' d s grows c) | inr a ↦ inr a ])
