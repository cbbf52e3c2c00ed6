-- ===== src/Graph/Traversal/Run.antt =====
-- The result of `TraversalBuilder::run`, and `traverse_repository_graph`, of
-- impact_context/index/traversal.rs.
use pre_commit_review.Prelude.{
  ℕ, ◌/◌, Bool, not, ◌&&◌, ◌||◌, List, [], ◌∷◌, ◌++◌, Option, none, some, Result, ok, err, ◌>>=◌,
  ◌>>◌, refuse_if, Bytes, codes, leb, ◌==◌, length, all, min, usize_max,
}
use pre_commit_review.Prelude.Texts.{text_eq, values}
use pre_commit_review.Graph.Model.{
  Completeness, GraphEdge, IndexLimitation, RepositoryOverlay, merge_completeness,
}
use pre_commit_review.Graph.Limitations.{canonicalize_limitations}
use pre_commit_review.Graph.Traversal.{
  TraversalRequest, TraversalError, traversal_error, World, TraversalBuilder,
}
use pre_commit_review.Graph.Traversal.Search.{search}

pub record TraversalResult : Type 0 where
  pub edges : List GraphEdge
  pub reached_depth : ℕ
  pub rows_read : ℕ
  pub nodes_visited : ℕ
  pub bytes_read : ℕ
  pub index_completeness : Completeness
  pub query_completeness : Completeness
  pub output_truncated : Bool
  pub limitations : List IndexLimitation
  pub elapsed_ms : ℕ

unfoldable pub index_completeness : World → Option RepositoryOverlay → Completeness
unfolding merge_completeness
index_completeness w none = merge_completeness w.completeness Completeness.complete
index_completeness w (some o) = merge_completeness w.completeness o.completeness

-- The result of `run`. The values of the map are in the order of their ids already, and `sort_by`
-- leaves them so. A duration is in nanoseconds.
unfoldable pub result_of : World → Option RepositoryOverlay → TraversalBuilder → TraversalResult
unfolding index_completeness values canonicalize_limitations
result_of w o b = record {
  edges = values b.output_edges;
  reached_depth = b.reached_depth;
  rows_read = b.rows_read;
  nodes_visited = length b.seen_nodes;
  bytes_read = b.output_bytes;
  index_completeness = index_completeness w o;
  query_completeness = b.query_completeness;
  output_truncated = b.output_truncated;
  limitations = canonicalize_limitations b.limitations;
  elapsed_ms = min (w.elapsed b.clock / 1_000_000) usize_max;
}

abbrev pub is_hex : ℕ → Bool
is_hex c = (leb b'0' c && leb c b'9') || (leb b'a' c && leb c b'f')

unfoldable pub validate_request : List Bytes → Result (Unit {0}) TraversalError
validate_request [] = ok tt
validate_request (root ∷ roots) =
    refuse_if (not (length root == 64) || not (all is_hex root)) (
      traversal_error "traversal-root-invalid"
        "traversal roots must be 64 lowercase hex symbol ids")
    >> validate_request roots

abbrev pub identified : Result Bytes Bytes → Result Bytes TraversalError
identified (ok key) = ok key
identified (err e) = err (record {
  code = codes "traversal-base-identity-invalid";
  message = codes "cannot identify base repository graph: " ++ e;
})

-- The overlay belongs to the opened generation.
unfoldable pub check_overlay : World → Option RepositoryOverlay → Result (Unit {0}) TraversalError
unfolding text_eq
check_overlay w none = ok tt
check_overlay w (some o) = do
  base_key ← identified w.generation_key
  refuse_if (not (text_eq o.base_generation_key base_key)) (
      traversal_error "traversal-overlay-base-mismatch"
        "repository overlay does not belong to the opened base generation")

unfoldable pub traverse_repository_graph :
    World → Option RepositoryOverlay → TraversalRequest → Result TraversalResult TraversalError
unfolding validate_request check_overlay search result_of
traverse_repository_graph w o request = do
  validate_request request.roots
  check_overlay w o
  b ← search w o request
  ok (result_of w o b)
