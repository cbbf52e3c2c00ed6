-- ===== src/Graph/Traversal/Levels.antt =====
-- What one lookup of impact_context/index/traversal.rs finds, as long as the query is complete.
use pre_commit_review.Prelude.{
  ℕ, zero, suc, ◌≡◌, ◌≢◌, ◌⊎◌, inl, inr, refl, ap, List, [], ◌∷◌, Option, Result, ok, ◌>>=◌,
  >>=-eq-ok, ok-injective, Bytes, length, take, min, arith, Bool-cases, if◌then◌else◌, ◌-◌, ◌==◌,
  ◌∙◌, subst,
}
use pre_commit_review.Prelude.Texts.{TextMap, values}
use pre_commit_review.Graph.Model.{EdgeKind, GraphEdge, RepositoryOverlay}
use pre_commit_review.Graph.Traversal.Edges.{Complete, Unmoved}
use pre_commit_review.Graph.Traversal.{
  World, TraversalDirection, TraversalRequest, TraversalBuilder, TraversalError, mark_query_partial,
  has_kind, overlay_rows, base_lookup_is_fully_replaced, add_lookups, unvisited_kinds,
}
use pre_commit_review.Graph.Traversal.Lookup.{
  read_base, count_rows, Rows, merge_edges, keeps_base, lookup_base, lookup_kinds, lookup,
}

-- A query returns the first rows of what the graph holds (`ORDER BY kind, edge_id LIMIT ?2`).
abbrev pub Queries : World → (TraversalDirection → Bytes → List GraphEdge) → Type 0
Queries w full =
    (d : TraversalDirection) (s : Bytes) (n : ℕ) (rows : List GraphEdge)
    → w.query d s n ≡ ok rows
    → rows ≡ take n (full d s)

take_short : {A : Type 0} (n : ℕ) (l : List A) → length (take n l) ≢ n → take n l ≡ l
take_short zero l h = absurd (h refl)
take_short (suc n) [] h = refl
take_short (suc n) (x ∷ l) h = ap (◌∷◌ x) (take_short n l (λ e. h (ap suc e)))

module _ (w : World) (o : Option RepositoryOverlay) (request : TraversalRequest)
    (full : TraversalDirection → Bytes → List GraphEdge) where
  -- The relationships of a symbol: those of the overlay, and those of the base graph that it leaves.
  abbrev pub edges_of :
      List EdgeKind → TraversalDirection → Bytes → Result (List GraphEdge) TraversalError
  edges_of ks d s = merge_edges w (λ e. has_kind e.kind ks) [] (overlay_rows o d s) >>= λ m.
      if base_lookup_is_fully_replaced o d s
      then ok (values m)
      else (merge_edges w (keeps_base o ks) m (full d s) >>= λ n. ok (values n))

  Found : TraversalBuilder → TraversalDirection → Bytes → Rows → Type 0
  Found b d s r = Unmoved b r.0 × (r.1 ≡ full d s)

  count_rows-Found :
      (d : TraversalDirection) (s : Bytes) (remaining limit : ℕ) (b : TraversalBuilder)
      (rows : List GraphEdge) (r : Rows)
      → rows ≡ take limit (full d s)
      → count_rows request s remaining limit b rows ≡ ok r
      → Complete r.0
      → Unmoved b r.0 × (r.1 ≡ full d s)
  unfolding count_rows mark_query_partial
  count_rows-Found d s remaining limit b rows r q h c = elim (Bool-cases (length rows == limit)) [
    | inl e ↦ absurd (ground arith)
    | inr e ↦ (
      ground arith,
      ground (
        arith,
        take_short limit (full d s) (λ (x : length (take limit (full d s)) ≡ limit). ground arith),
      ),
    )
  ]

  read_base-Found :
      (d : TraversalDirection) (s : Bytes) (b : TraversalBuilder) (r : Rows)
      → Queries w full
      → read_base w request d s b ≡ ok r
      → Complete r.0
      → Unmoved b r.0 × (r.1 ≡ full d s)
  unfolding read_base mark_query_partial
  read_base-Found d s b r law =
      let remaining = request.maximum_rows - b.rows_read in
      let limit = min remaining w.maximum_rows_per_query in
      elim (Bool-cases (remaining == 0)) [
        | inl e ↦ rw e (λ h c. absurd (ground arith))
        | inr e ↦ rw e (λ h c.
            let (rows, hq, h') = >>=-eq-ok (w.query d s limit) _ h in
            count_rows-Found d s remaining limit b rows r (law d s limit rows hq) h' c)
      ]

  -- What a lookup leaves alone, whatever it finds.
  pub record Kept (b b' : TraversalBuilder) : Type 0 where
    pub completeness : b'.query_completeness ≡ b.query_completeness
    pub halted : b'.query_halted ≡ b.query_halted
    pub seen : b'.seen_nodes ≡ b.seen_nodes

  lookup_base-Found :
      (d : TraversalDirection) (s : Bytes) (ks : List EdgeKind) (m : TextMap GraphEdge)
      (b : TraversalBuilder) (r : Rows)
      → Queries w full
      → merge_edges w (λ e. has_kind e.kind ks) [] (overlay_rows o d s) ≡ ok m
      → lookup_base w o request d s ks m b ≡ ok r
      → Complete r.0
      → Unmoved b r.0 × (edges_of ks d s ≡ ok r.1)
  unfolding lookup_base
  lookup_base-Found d s ks m b r law hm = elim (Bool-cases (base_lookup_is_fully_replaced o d s)) [
    | inl q ↦ rw (q, hm) (λ h c. (ground arith, ground arith))
    | inr q ↦
        rw (q, hm)
          (λ h c.
            let (x, hx, h') = >>=-eq-ok (read_base w request d s b) _ h in
            let (y, hy, h'') = >>=-eq-ok (merge_edges w (keeps_base o ks) m x.1) _ h' in
            let (u, e) =
              read_base-Found d s b x law hx
                (ap (λ z. z.0.query_completeness) (ok-injective h'') ∙ c) in
            (subst (λ z. Unmoved b z.0) (ok-injective h'') u, ground arith))
  ]

  -- A lookup of kinds that have been looked up finds nothing; any other finds the relationships.
  abbrev pub Outcome : TraversalBuilder → TraversalDirection → Bytes → List EdgeKind → Rows → Type 0
  Outcome b d s ks r =
      ((ks ≡ []) × (r.0.visited_lookups ≡ b.visited_lookups) × (r.1 ≡ []))
      ⊎ ((r.0.visited_lookups ≡ add_lookups b.visited_lookups d s ks) × (edges_of ks d s ≡ ok r.1))

  lookup_kinds-Outcome :
      (d : TraversalDirection) (s : Bytes) (b : TraversalBuilder) (ks : List EdgeKind) (r : Rows)
      → Queries w full
      → lookup_kinds w o request d s b ks ≡ ok r
      → Complete r.0
      → Kept b r.0 × Outcome b d s ks r
  lookup_kinds-Outcome d s b [] r law h c = (ground arith, inl (refl, ground arith, ground arith))
  lookup_kinds-Outcome d s b (k ∷ ks) r law h c =
      let (m, hm, h') =
        >>=-eq-ok (merge_edges w (λ e. has_kind e.kind (k ∷ ks)) [] (overlay_rows o d s)) _ h in
      let (u, e) = lookup_base-Found d s (k ∷ ks) m _ r law hm h' c in
      (
        record { completeness = u.completeness; halted = u.halted; seen = u.seen },
        inr (u.lookups, e),
      )

  pub lookup-Outcome :
      (d : TraversalDirection) (s : Bytes) (b : TraversalBuilder) (r : Rows)
      → Queries w full
      → lookup w o request d s b ≡ ok r
      → Complete r.0
      → Kept b r.0 × Outcome b d s (unvisited_kinds b.visited_lookups d s request.edge_kinds) r
  unfolding lookup
  lookup-Outcome d s b r =
      lookup_kinds-Outcome d s b (unvisited_kinds b.visited_lookups d s request.edge_kinds) r
