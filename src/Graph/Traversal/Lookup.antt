-- ===== src/Graph/Traversal/Lookup.antt =====
-- `lookup`, `read_base` and the merging of relationships in impact_context/index/traversal.rs.
use pre_commit_review.Prelude.{
  ℕ, ◌+◌, ◌-◌, Bool, not, ◌&&◌, List, [], ◌∷◌, ◌++◌, Option, none, some, Result, ok, err, ◌>>=◌,
  Bytes, codes, ltb, ◌==◌, if◌then◌else◌, length, usize_max, min,
}
use pre_commit_review.Prelude.Texts.{text_eq, text_le, TextMap, get, put, values}
use pre_commit_review.Graph.Model.{EdgeKind, GraphEdge, RepositoryOverlay, confidence_rank}
use pre_commit_review.Graph.Traversal.{
  TraversalDirection, TraversalRequest, TraversalError, traversal_error, World, TraversalBuilder,
  mark_query_partial, halt, has_kind, unvisited_kinds, add_lookups, overlay_rows,
  base_edge_is_suppressed, base_lookup_is_fully_replaced,
}

abbrev serialized : Result Bytes Bytes → Result Bytes TraversalError
serialized (ok bytes) = ok bytes
serialized (err e) = err (record {
  code = codes "traversal-edge-serialization-failed";
  message = codes "cannot serialize repository graph edge: " ++ e;
})

unfoldable pub canonical_edge_bytes : World → GraphEdge → Result Bytes TraversalError
canonical_edge_bytes w e = serialized (w.to_vec e)

unfoldable pub candidate_is_preferred : World → GraphEdge → GraphEdge → Result Bool TraversalError
unfolding canonical_edge_bytes text_eq text_le
candidate_is_preferred w candidate existing =
    if not (confidence_rank candidate.confidence == confidence_rank existing.confidence)
    then ok (ltb (confidence_rank existing.confidence) (confidence_rank candidate.confidence))
    else (canonical_edge_bytes w candidate >>= λ a.
        canonical_edge_bytes w existing >>= λ b. ok (text_le a b && not (text_eq a b)))

abbrev merge_over :
    World
    → TextMap GraphEdge
    → GraphEdge
    → Option GraphEdge
    → Result (TextMap GraphEdge) TraversalError
merge_over w merged candidate none = ok (put candidate.edge_id candidate merged)
merge_over w merged candidate (some existing) =
    candidate_is_preferred w candidate existing >>= λ preferred.
    ok (if preferred then put candidate.edge_id candidate merged else merged)

unfoldable pub merge_edge :
    World → TextMap GraphEdge → GraphEdge → Result (TextMap GraphEdge) TraversalError
unfolding candidate_is_preferred get put
merge_edge w merged candidate = merge_over w merged candidate (get candidate.edge_id merged)

-- The loops that merge the edges which pass a test.
unfoldable pub merge_edges :
    World
    → (GraphEdge → Bool)
    → TextMap GraphEdge
    → List GraphEdge
    → Result (TextMap GraphEdge) TraversalError
unfolding merge_edge
merge_edges w keep merged [] = ok merged
merge_edges w keep merged (e ∷ es) =
    (if keep e then merge_edge w merged e else ok merged) >>= λ m. merge_edges w keep m es

abbrev pub Rows : Type 0
Rows = TraversalBuilder × List GraphEdge

-- What `read_base` does with the rows of a query under a limit.
unfoldable pub count_rows :
    TraversalRequest
    → Bytes
    → ℕ
    → ℕ
    → TraversalBuilder
    → List GraphEdge
    → Result Rows TraversalError
unfolding mark_query_partial
count_rows request s remaining limit b rows =
    let b' = record b { rows_read = b.rows_read + length rows } in
    let marked =
      if limit == remaining
      then mark_query_partial "index-query-row-budget-exhausted" (some s)
          "the traversal row budget was exhausted" "additional indexed relationships may exist" b'
      else mark_query_partial "index-query-row-limit-reached" (some s)
          "an indexed graph lookup reached the immutable reader row limit"
          "additional indexed relationships may exist" b' in
    if ltb usize_max (b.rows_read + length rows)
    then err
        (traversal_error "traversal-row-count-overflow" "repository traversal row count overflowed")
    else if length rows == limit
    then ok (halt marked, rows)
    else ok (b', rows)

unfoldable pub read_base :
    World
    → TraversalRequest
    → TraversalDirection
    → Bytes
    → TraversalBuilder
    → Result Rows TraversalError
unfolding mark_query_partial count_rows
read_base w request d s b =
    let remaining = request.maximum_rows - b.rows_read in
    let limit = min remaining w.maximum_rows_per_query in
    if remaining == 0
    then ok (
      halt (
          mark_query_partial "index-query-row-budget-exhausted" (some s)
            "the traversal row budget was exhausted"
            "additional indexed relationships were not queried" b),
      [],
    )
    else (w.query d s limit >>= count_rows request s remaining limit b)

abbrev pub keeps_base : Option RepositoryOverlay → List EdgeKind → GraphEdge → Bool
keeps_base o ks e = has_kind e.kind ks && not (base_edge_is_suppressed o e)

-- The second half of `lookup`.
unfoldable pub lookup_base :
    World
    → Option RepositoryOverlay
    → TraversalRequest
    → TraversalDirection
    → Bytes
    → List EdgeKind
    → TextMap GraphEdge
    → TraversalBuilder
    → Result Rows TraversalError
unfolding base_lookup_is_fully_replaced read_base merge_edges values base_edge_is_suppressed
lookup_base w o request d s ks merged b =
    if base_lookup_is_fully_replaced o d s
    then ok (b, values merged)
    else (read_base w request d s b >>= λ r.
        merge_edges w (keeps_base o ks) merged r.1 >>= λ m. ok (r.0, values m))

abbrev pub lookup_kinds :
    World
    → Option RepositoryOverlay
    → TraversalRequest
    → TraversalDirection
    → Bytes
    → TraversalBuilder
    → List EdgeKind
    → Result Rows TraversalError
lookup_kinds w o request d s b [] = ok (b, [])
lookup_kinds w o request d s b (k ∷ ks) =
    merge_edges w (λ e. has_kind e.kind (k ∷ ks)) [] (overlay_rows o d s) >>= λ m.
    lookup_base w o request d s (k ∷ ks) m
      (record b { visited_lookups = add_lookups b.visited_lookups d s (k ∷ ks) })

unfoldable pub lookup :
    World
    → Option RepositoryOverlay
    → TraversalRequest
    → TraversalDirection
    → Bytes
    → TraversalBuilder
    → Result Rows TraversalError
unfolding unvisited_kinds merge_edges lookup_base overlay_rows add_lookups
lookup w o request d s b =
    lookup_kinds w o request d s b (unvisited_kinds b.visited_lookups d s request.edge_kinds)
