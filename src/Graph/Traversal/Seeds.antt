-- ===== src/Graph/Traversal/Seeds.antt =====
-- The loop over the roots of impact_context/index/traversal.rs.
use pre_commit_review.Prelude.{
  ◌≡◌, inl, inr, refl, sym, subst, true, List, [], ◌∷◌, Bytes, arith, Bool-cases, All, leb, length,
}
use pre_commit_review.Prelude.Texts.{
  TextSet, contains, insert, contains-insert, text_eq_self, text_eq, text_eq→eq,
}
use pre_commit_review.Graph.Traversal.Edges.{Complete, Sees, Waits}
use pre_commit_review.Graph.Traversal.Output.{Frontier}
use pre_commit_review.Graph.Traversal.{TraversalRequest, TraversalBuilder, mark_query_partial}
use pre_commit_review.Graph.Traversal.Search.{seed_roots}

-- The loop over the roots, if the node budget admits them.
pub record Seeded (roots : List Bytes) (f g : Frontier) : Type 0 where
  pub before : Complete f.0
  pub lookups : g.0.visited_lookups ≡ f.0.visited_lookups
  pub halted : g.0.query_halted ≡ f.0.query_halted
  pub grows : (s : Bytes) → Sees f.0 s → Sees g.0 s
  pub waits :
      ((s : Bytes) → Sees f.0 s → contains s f.1 ≡ true)
      → (s : Bytes) → Sees g.0 s
      → contains s g.1 ≡ true
  pub seeds : All (Sees g.0) roots

pub seed_roots-Seeded :
    (request : TraversalRequest) (roots : List Bytes) (b : TraversalBuilder) (frontier : TextSet)
    → Complete (seed_roots request roots (b, frontier)).0
    → Seeded roots (b, frontier) (seed_roots request roots (b, frontier))
unfolding seed_roots
seed_roots-Seeded request [] b frontier = λ c. record {
  before = c;
  lookups = refl;
  halted = refl;
  grows = λ s h. h;
  waits = λ f. f;
  seeds = tt;
}
seed_roots-Seeded request (r ∷ rs) b frontier =
    elim (Bool-cases (leb request.maximum_nodes (length b.seen_nodes))) [
      | inl q ↦ rw q (λ c. absurd (ground arith))
      | inr q ↦ rw q (λ c.
          let b' = record b { seen_nodes = insert r b.seen_nodes } in
          let rest = seed_roots-Seeded request rs b' (insert r frontier) c in
          record {
            before = rest.before;
            lookups = rest.lookups;
            halted = rest.halted;
            grows = λ s h. rest.grows s (ground (arith, contains-insert s r b.seen_nodes));
            waits = λ f. rest.waits (λ s h.
                ground
                  (arith, contains-insert s r b.seen_nodes, contains-insert s r frontier, f s));
            seeds = (
              rest.grows r (ground (arith, contains-insert r r b.seen_nodes, text_eq_self r)),
              rest.seeds,
            );
          })
    ]

pub seed_roots-Waits :
    (request : TraversalRequest) (roots : List Bytes) (b : TraversalBuilder) (frontier : TextSet)
    → Waits (b, frontier)
    → Waits (seed_roots request roots (b, frontier))
unfolding seed_roots mark_query_partial
seed_roots-Waits request [] b frontier v = v
seed_roots-Waits request (r ∷ rs) b frontier v =
    elim (Bool-cases (leb request.maximum_nodes (length b.seen_nodes))) [
      | inl q ↦ rw q v
      | inr q ↦ rw q (
          seed_roots-Waits request rs (record b { seen_nodes = insert r b.seen_nodes })
            (insert r frontier)
            (λ s h.
              ground (arith, contains-insert s r b.seen_nodes, contains-insert s r frontier, v s)))
    ]

-- Nothing but roots becomes seen.
pub seed_roots-only :
    (P : Bytes → Type 0) (request : TraversalRequest) (roots : List Bytes) (b : TraversalBuilder)
    (frontier : TextSet)
    → All P roots
    → ((s : Bytes) → Sees b s → P s)
    → (s : Bytes) → Sees (seed_roots request roots (b, frontier)).0 s
    → P s
unfolding seed_roots mark_query_partial
seed_roots-only P request [] b frontier a old = old
seed_roots-only P request (r ∷ rs) b frontier a old =
    elim (Bool-cases (leb request.maximum_nodes (length b.seen_nodes))) [
      | inl q ↦ rw q old
      | inr q ↦ rw q (
          seed_roots-only P request rs (record b { seen_nodes = insert r b.seen_nodes })
            (insert r frontier) a.1
            (λ s h. elim (Bool-cases (text_eq s r)) [
              | inl e ↦ subst P (sym (text_eq→eq s r e)) a.0
              | inr e ↦ old s (ground (arith, contains-insert s r b.seen_nodes))
            ]))
    ]

pub nothing_waits :
    (frontier : TextSet) (s : Bytes) → frontier ≡ [] → contains s frontier ≡ true → ⊥
unfolding contains
nothing_waits [] s e h = ground arith
nothing_waits (t ∷ ss) s e h = ground arith
