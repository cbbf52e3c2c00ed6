-- ===== src/Graph/Traversal/Budgets.antt =====
-- What `traverse_repository_graph` of impact_context/index/traversal.rs reports of its budgets.
use pre_commit_review.Prelude.{
  ℕ, ◌+◌, ◌≤◌, ◌≡◌, refl, subst, List, [], ◌∷◌, Option, ok, >>=-eq-ok, ok-injective, length, arith,
}
use pre_commit_review.Prelude.Texts.{TextMap, values, sum_values, length-values}
use pre_commit_review.Graph.Model.{RepositoryOverlay}
use pre_commit_review.Graph.Traversal.{TraversalRequest, TraversalBuilder, World}
use pre_commit_review.Graph.Traversal.Search.{search}
use pre_commit_review.Graph.Traversal.Run.{
  TraversalResult, result_of, validate_request, check_overlay, traverse_repository_graph,
}
use pre_commit_review.Graph.Traversal.Bounds.{LimitsRows, edge_size, IsWithin}
use pre_commit_review.Graph.Traversal.Bounded.{search-IsWithin}

abbrev pub total {ℓ} : {A : Type ℓ} → (A → ℕ) → List A → ℕ
total f [] = 0
total f (x ∷ xs) = f x + total f xs

sum_values-total {ℓ} :
    {V : Type ℓ} (f : V → ℕ) (m : TextMap V) → sum_values f m ≡ total f (values m)
unfolding sum_values values
sum_values-total f [] = refl
sum_values-total f ((k, v) ∷ m) = omega (arith, sum_values-total f m)

-- A result within the budgets of the request, whose byte count is that of its edges.
pub record IsBounded (w : World) (request : TraversalRequest) (r : TraversalResult) : Type 0 where
  pub nodes : r.nodes_visited ≤ request.maximum_nodes
  pub edges : length r.edges ≤ request.maximum_edges
  pub bytes : r.bytes_read ≤ request.maximum_bytes
  pub counted : r.bytes_read ≡ total (edge_size w request) r.edges
  pub rows : r.rows_read ≤ request.maximum_rows
  pub depth : r.reached_depth ≤ request.maximum_depth

result_of-IsBounded :
    (w : World) (o : Option RepositoryOverlay) (request : TraversalRequest) (b : TraversalBuilder)
    → IsWithin w request b
    → IsBounded w request (result_of w o b)
unfolding result_of
result_of-IsBounded w o request b v = omega (
  arith,
  v.counted,
  v.nodes,
  v.edges,
  v.bytes,
  v.rows,
  v.depth,
  length-values b.output_edges,
  sum_values-total (edge_size w request) b.output_edges,
)

-- Where a query returns no more rows than its limit, a traversal that succeeds stays within the
-- budgets of its request for nodes, edges, bytes, rows and depth, and the bytes that it reports are
-- the sizes of the edges that it returns, added up.
pub traverse-IsBounded :
    (w : World) (o : Option RepositoryOverlay) (request : TraversalRequest) (r : TraversalResult)
    → LimitsRows w
    → traverse_repository_graph w o request ≡ ok r
    → IsBounded w request r
unfolding traverse_repository_graph
traverse-IsBounded w o request r law h =
    let (u, hu, h1) = >>=-eq-ok (validate_request request.roots) _ h in
    let (u', hu', h2) = >>=-eq-ok (check_overlay w o) _ h1 in
    let (b, hb, h3) = >>=-eq-ok (search w o request) _ h2 in
    subst (IsBounded w request) (ok-injective h3)
      (result_of-IsBounded w o request b (search-IsWithin w request o b law hb))
