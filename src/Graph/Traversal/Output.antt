-- ===== src/Graph/Traversal/Output.antt =====
-- `consider_output`, `consider_neighbor` and `check_deadline` of impact_context/index/traversal.rs.
use pre_commit_review.Prelude.{
  ℕ, ◌+◌, ◌-◌, Bool, true, false, Option, none, some, Result, ok, err, ◌>>=◌, Bytes, String, ltb,
  leb, if◌then◌else◌, length, usize_max,
}
use pre_commit_review.Prelude.Texts.{TextSet, contains, insert, get, put}
use pre_commit_review.Graph.Model.{GraphEdge}
use pre_commit_review.Graph.Traversal.{
  TraversalRequest, TraversalError, traversal_error, World, TraversalBuilder, mark_query_partial,
  mark_output_truncated, halt,
}
use pre_commit_review.Graph.Traversal.Lookup.{canonical_edge_bytes, candidate_is_preferred}

abbrev pub byte_overflow : TraversalError
byte_overflow =
    traversal_error "traversal-byte-count-overflow" "repository traversal byte count overflowed"

-- The edge is written if the bytes that are then held stay within the budget.
unfoldable pub write_edge :
    TraversalRequest
    → String
    → GraphEdge
    → ℕ
    → ℕ
    → TraversalBuilder
    → Result TraversalBuilder TraversalError
unfolding mark_output_truncated
write_edge request interpretation e retained bytes b =
    if ltb usize_max (retained + bytes)
    then err byte_overflow
    else if ltb request.maximum_bytes (retained + bytes)
    then ok (
        mark_output_truncated "index-output-byte-budget-exhausted" (some e.from_symbol)
          "the traversal byte output budget was exhausted" interpretation b)
    else ok (record b {
      output_bytes = retained + bytes;
      output_edges = put e.edge_id e b.output_edges;
    })

-- A preferred edge takes the place of the old one.
abbrev pub replace_if :
    World
    → TraversalRequest
    → GraphEdge
    → GraphEdge
    → TraversalBuilder
    → Bool
    → Result TraversalBuilder TraversalError
replace_if w request e existing b false = ok b
replace_if w request e existing b true = canonical_edge_bytes w existing >>= λ old.
    canonical_edge_bytes w e >>= λ new.
    write_edge request
      "a higher-confidence duplicate relationship could not replace the retained row" e
      (b.output_bytes - length old) (length new) b

unfoldable pub replace_output :
    World
    → TraversalRequest
    → GraphEdge
    → GraphEdge
    → TraversalBuilder
    → Result TraversalBuilder TraversalError
replace_output w request e existing b =
    candidate_is_preferred w e existing >>= replace_if w request e existing b

unfoldable pub add_output :
    World → TraversalRequest → GraphEdge → TraversalBuilder → Result TraversalBuilder TraversalError
unfolding mark_output_truncated
add_output w request e b =
    if leb request.maximum_edges (length b.output_edges)
    then ok (
        mark_output_truncated "index-edge-budget-exhausted" (some e.from_symbol)
          "the traversal edge output budget was exhausted"
          "additional queried relationships were omitted from output" b)
    else (canonical_edge_bytes w e >>= λ bytes.
        write_edge request "additional queried relationships were omitted from output" e
          b.output_bytes (length bytes) b)

abbrev pub output_over :
    World
    → TraversalRequest
    → GraphEdge
    → TraversalBuilder
    → Option GraphEdge
    → Result TraversalBuilder TraversalError
output_over w request e b none = add_output w request e b
output_over w request e b (some existing) = replace_output w request e existing b

unfoldable pub consider_output :
    World → TraversalRequest → GraphEdge → TraversalBuilder → Result TraversalBuilder TraversalError
unfolding get add_output replace_output
consider_output w request e b = output_over w request e b (get e.edge_id b.output_edges)

abbrev pub node_budget : Bytes → TraversalBuilder → TraversalBuilder
node_budget node =
    mark_query_partial "index-node-budget-exhausted" (some node)
      "the traversal node budget was exhausted" "additional repository graph nodes were not visited"

-- The builder and the next frontier.
abbrev pub Frontier : Type 0
Frontier = TraversalBuilder × TextSet

unfoldable pub consider_neighbor : TraversalRequest → Bytes → TraversalBuilder → TextSet → Frontier
unfolding contains insert mark_query_partial
consider_neighbor request node b next =
    if contains node b.seen_nodes
    then (b, next)
    else if leb request.maximum_nodes (length b.seen_nodes)
    then (node_budget node b, next)
    else (record b { seen_nodes = insert node b.seen_nodes }, insert node next)

-- Reads the clock once.
unfoldable pub check_deadline :
    World → TraversalRequest → Option Bytes → TraversalBuilder → TraversalBuilder × Bool
unfolding mark_query_partial
check_deadline w request symbol_id b =
    let b' = record b { clock = b.clock + 1 } in
    if leb request.deadline (w.elapsed b.clock)
    then (
      halt (
          mark_query_partial "index-deadline-exhausted" symbol_id
            "the traversal deadline was exhausted"
            "the bounded repository graph query stopped before completion" b'),
      false,
    )
    else (b', true)
