-- ===== src/Graph/Traversal/Bounds.antt =====
-- The budgets of a traversal in impact_context/index/traversal.rs.
use pre_commit_review.Prelude.{
  ℕ, ◌-◌, ◌≤◌, ◌≡◌, subst, Bool, true, false, List, [], ◌∷◌, Option, none, some, Result, ok, err,
  >>=-eq-ok, ok-injective, Bytes, String, length, min, arith, Bool-cases, Option-cases, inl, inr,
}
use pre_commit_review.Prelude.Texts.{
  TextSet, TextMap, get, sum_values, length-insert-le, length-put, put-sum_new, put-sum_old,
  get-sum_le,
}
use pre_commit_review.Graph.Model.{EdgeKind, GraphEdge, RepositoryOverlay}
use pre_commit_review.Graph.Traversal.{
  TraversalDirection, TraversalRequest, World, TraversalBuilder, mark_query_partial,
  mark_output_truncated, has_kind, unvisited_kinds, base_lookup_is_fully_replaced, overlay_rows,
}
use pre_commit_review.Graph.Traversal.Lookup.{
  canonical_edge_bytes, candidate_is_preferred, count_rows, read_base, merge_edges, keeps_base,
  lookup_base, lookup_kinds, lookup,
}
use pre_commit_review.Graph.Traversal.Output.{
  write_edge, replace_if, replace_output, add_output, consider_output, consider_neighbor,
  check_deadline,
}

-- A query returns no more rows than its limit (`LIMIT ?2`).
abbrev pub LimitsRows : World → Type 0
LimitsRows w =
    (d : TraversalDirection) (s : Bytes) (n : ℕ) (rows : List GraphEdge)
    → w.query d s n ≡ ok rows
    → length rows ≤ n

abbrev pub size_of : Result Bytes Bytes → ℕ
size_of (ok bytes) = length bytes
size_of (err e) = 0

module _ (w : World) (request : TraversalRequest) where
  abbrev pub edge_size : GraphEdge → ℕ
  edge_size e = size_of (w.to_vec e)

  pub record IsWithin (b : TraversalBuilder) : Type 0 where
    pub nodes : length b.seen_nodes ≤ request.maximum_nodes
    pub edges : length b.output_edges ≤ request.maximum_edges
    pub bytes : b.output_bytes ≤ request.maximum_bytes
    pub counted : b.output_bytes ≡ sum_values edge_size b.output_edges
    pub rows : b.rows_read ≤ request.maximum_rows
    pub depth : b.reached_depth ≤ request.maximum_depth

  canonical_edge_bytes-size :
      (e : GraphEdge) (bytes : Bytes)
      → canonical_edge_bytes w e ≡ ok bytes
      → length bytes ≡ edge_size e
  unfolding canonical_edge_bytes
  canonical_edge_bytes-size e bytes h = ground arith

  add_output-IsWithin :
      (e : GraphEdge) (b b' : TraversalBuilder)
      → get e.edge_id b.output_edges ≡ none
      → IsWithin b
      → add_output w request e b ≡ ok b'
      → IsWithin b'
  unfolding add_output write_edge
  add_output-IsWithin e b b' g v h = grind (
    arith,
    canonical_edge_bytes-size,
    put-sum_new edge_size e.edge_id e b.output_edges,
    length-put e.edge_id e b.output_edges,
  )

  write_old-IsWithin :
      (e old : GraphEdge) (text : String) (n m : ℕ) (b b' : TraversalBuilder)
      → get e.edge_id b.output_edges ≡ some old
      → n ≡ edge_size old
      → m ≡ edge_size e
      → IsWithin b
      → write_edge request text e (b.output_bytes - n) m b ≡ ok b'
      → IsWithin b'
  unfolding write_edge mark_output_truncated
  write_old-IsWithin e old text n m b b' g p q v h = ground (
    arith,
    put-sum_old edge_size e.edge_id e old b.output_edges,
    get-sum_le edge_size e.edge_id old b.output_edges,
    length-put e.edge_id e b.output_edges,
  )

  replace_if-IsWithin :
      (e old : GraphEdge) (b b' : TraversalBuilder) (preferred : Bool)
      → get e.edge_id b.output_edges ≡ some old
      → IsWithin b
      → replace_if w request e old b preferred ≡ ok b'
      → IsWithin b'
  replace_if-IsWithin e old b b' false g v h = subst IsWithin (ok-injective h) v
  replace_if-IsWithin e old b b' true g v h =
      let (x, hx, h') = >>=-eq-ok (canonical_edge_bytes w old) _ h in
      let (y, hy, h'') = >>=-eq-ok (canonical_edge_bytes w e) _ h' in
      write_old-IsWithin e old _ (length x) (length y) b b' g (canonical_edge_bytes-size old x hx)
        (canonical_edge_bytes-size e y hy) v h''

  replace_output-IsWithin :
      (e old : GraphEdge) (b b' : TraversalBuilder)
      → get e.edge_id b.output_edges ≡ some old
      → IsWithin b
      → replace_output w request e old b ≡ ok b'
      → IsWithin b'
  unfolding replace_output
  replace_output-IsWithin e old b b' g v h =
      let (p, hp, h') = >>=-eq-ok (candidate_is_preferred w e old) _ h in
      replace_if-IsWithin e old b b' p g v h'

  pub consider_output-IsWithin :
      (e : GraphEdge) (b b' : TraversalBuilder)
      → IsWithin b
      → consider_output w request e b ≡ ok b'
      → IsWithin b'
  unfolding consider_output
  consider_output-IsWithin e b b' v = elim (Option-cases (get e.edge_id b.output_edges)) [
    | inl g ↦ rw g (add_output-IsWithin e b b' g v)
    | inr (old, g) ↦ rw g (replace_output-IsWithin e old b b' g v)
  ]

  pub consider_neighbor-IsWithin :
      (node : Bytes) (b : TraversalBuilder) (next : TextSet)
      → IsWithin b
      → IsWithin (consider_neighbor request node b next).0
  unfolding consider_neighbor mark_query_partial
  consider_neighbor-IsWithin node b next v = ground (arith, length-insert-le node b.seen_nodes)

  pub check_deadline-IsWithin :
      (s : Option Bytes) (b : TraversalBuilder)
      → IsWithin b
      → IsWithin (check_deadline w request s b).0
  unfolding check_deadline mark_query_partial
  check_deadline-IsWithin s b v = ground arith

  read_base-IsWithin :
      (d : TraversalDirection) (s : Bytes) (b : TraversalBuilder)
      (r : TraversalBuilder × List GraphEdge)
      → LimitsRows w
      → IsWithin b
      → read_base w request d s b ≡ ok r
      → IsWithin r.0
  unfolding read_base mark_query_partial count_rows
  read_base-IsWithin d s b r law v h =
      grind (arith, law d s (min (request.maximum_rows - b.rows_read) w.maximum_rows_per_query))

  lookup_base-IsWithin :
      (o : Option RepositoryOverlay) (d : TraversalDirection) (s : Bytes) (ks : List EdgeKind)
      (m : TextMap GraphEdge) (b : TraversalBuilder) (r : TraversalBuilder × List GraphEdge)
      → LimitsRows w
      → IsWithin b
      → lookup_base w o request d s ks m b ≡ ok r
      → IsWithin r.0
  unfolding lookup_base
  lookup_base-IsWithin o d s ks m b r law v =
      elim (Bool-cases (base_lookup_is_fully_replaced o d s)) [
        | inl q ↦ rw q (λ h. subst (λ x. IsWithin x.0) (ok-injective h) v)
        | inr q ↦ rw q (λ h.
            let (x, hx, h') = >>=-eq-ok (read_base w request d s b) _ h in
            let (y, hy, h'') = >>=-eq-ok (merge_edges w (keeps_base o ks) m x.1) _ h' in
            subst (λ z. IsWithin z.0) (ok-injective h'') (read_base-IsWithin d s b x law v hx))
      ]

  lookup_kinds-IsWithin :
      (o : Option RepositoryOverlay) (d : TraversalDirection) (s : Bytes) (b : TraversalBuilder)
      (ks : List EdgeKind) (r : TraversalBuilder × List GraphEdge)
      → LimitsRows w
      → IsWithin b
      → lookup_kinds w o request d s b ks ≡ ok r
      → IsWithin r.0
  lookup_kinds-IsWithin o d s b [] r law v h = subst (λ x. IsWithin x.0) (ok-injective h) v
  lookup_kinds-IsWithin o d s b (k ∷ ks) r law v h =
      let (m, hm, h') =
        >>=-eq-ok (merge_edges w (λ e. has_kind e.kind (k ∷ ks)) [] (overlay_rows o d s)) _ h in
      lookup_base-IsWithin o d s (k ∷ ks) m _ r law (ground arith) h'

  pub lookup-IsWithin :
      (o : Option RepositoryOverlay) (d : TraversalDirection) (s : Bytes) (b : TraversalBuilder)
      (r : TraversalBuilder × List GraphEdge)
      → LimitsRows w
      → IsWithin b
      → lookup w o request d s b ≡ ok r
      → IsWithin r.0
  unfolding lookup
  lookup-IsWithin o d s b r =
      lookup_kinds-IsWithin o d s b (unvisited_kinds b.visited_lookups d s request.edge_kinds) r
