-- ===== src/Graph/Traversal/Search.antt =====
-- `TraversalBuilder::run` and `traverse_repository_graph` of impact_context/index/traversal.rs. The
-- loop over the depth recurs on the levels that are left: `maximum_depth` less the depth.
use pre_commit_review.Prelude.{
  ℕ, zero, suc, ◌+◌, ◌-◌, List, [], ◌∷◌, Option, none, some, Result, ok, ◌>>=◌, Bytes, leb,
  if◌then◌else◌, length, max,
}
use pre_commit_review.Prelude.Texts.{TextSet, insert}
use pre_commit_review.Graph.Model.{GraphEdge, RepositoryOverlay}
use pre_commit_review.Graph.Traversal.{
  TraversalDirection, TraversalRequest, TraversalError, World, TraversalBuilder, mark_query_partial,
  neighbor, initial,
}
use pre_commit_review.Graph.Traversal.Lookup.{lookup}
use pre_commit_review.Graph.Traversal.Output.{
  Frontier, consider_output, consider_neighbor, check_deadline, node_budget,
}

-- A `BTreeSet` of the roots, in its order.
unfoldable pub root_set : List Bytes → TextSet
unfolding insert
root_set [] = []
root_set (r ∷ rs) = insert r (root_set rs)

-- The loop over the roots, which stops where the node budget is reached.
unfoldable pub seed_roots : TraversalRequest → List Bytes → Frontier → Frontier
unfolding insert mark_query_partial
seed_roots request [] f = f
seed_roots request (root ∷ roots) (b, frontier) =
    let rest =
      seed_roots request roots
        (record b { seen_nodes = insert root b.seen_nodes }, insert root frontier) in
    if leb request.maximum_nodes (length b.seen_nodes) then (node_budget root b, frontier) else rest

abbrev pub visit_neighbor : TraversalRequest → Option Bytes → Frontier → Frontier
visit_neighbor request none f = f
visit_neighbor request (some node) (b, next) = consider_neighbor request node b next

-- The loop over the relationships of one lookup.
unfoldable pub each_edge :
    World
    → TraversalRequest
    → TraversalDirection
    → List GraphEdge
    → Frontier
    → Result Frontier TraversalError
unfolding consider_output consider_neighbor neighbor
each_edge w request d [] f = ok f
each_edge w request d (e ∷ es) (b, next) = consider_output w request e b >>= λ b'.
    each_edge w request d es (visit_neighbor request (neighbor d e) (b', next))

abbrev pub deepen : ℕ → List GraphEdge → TraversalBuilder → TraversalBuilder
deepen depth [] b = b
deepen depth (e ∷ es) b = record b { reached_depth = max b.reached_depth (depth + 1) }

-- The body of the loop over the directions, behind its deadline check.
unfoldable pub visit_direction :
    World
    → Option RepositoryOverlay
    → TraversalRequest
    → ℕ
    → Bytes
    → TraversalDirection
    → Frontier
    → Result Frontier TraversalError
unfolding lookup each_edge
visit_direction w o request depth symbol d (b, next) =
    lookup w o request d symbol b >>= λ r. each_edge w request d r.1 (deepen depth r.1 r.0, next)

-- The loop over the directions of one symbol.
unfoldable pub each_direction :
    World
    → Option RepositoryOverlay
    → TraversalRequest
    → ℕ
    → Bytes
    → List TraversalDirection
    → Frontier
    → Result Frontier TraversalError
unfolding check_deadline visit_direction
each_direction w o request depth symbol [] f = ok f
each_direction w o request depth symbol (d ∷ ds) (b, next) =
    let checked = check_deadline w request (some symbol) b in
    if checked.1
    then (visit_direction w o request depth symbol d (checked.0, next) >>= λ f.
        if f.0.query_halted then ok f else each_direction w o request depth symbol ds f)
    else ok (checked.0, next)

-- The loop over the symbols of one level.
unfoldable pub each_symbol :
    World
    → Option RepositoryOverlay
    → TraversalRequest
    → ℕ
    → TextSet
    → Frontier
    → Result Frontier TraversalError
unfolding check_deadline each_direction
each_symbol w o request depth [] f = ok f
each_symbol w o request depth (symbol ∷ symbols) (b, next) =
    let checked = check_deadline w request (some symbol) b in
    if checked.1
    then (each_direction w o request depth symbol request.directions (checked.0, next) >>= λ f.
        if f.0.query_halted then ok f else each_symbol w o request depth symbols f)
    else ok (checked.0, next)

-- The builder, the frontier that is left, and the levels that are left.
abbrev pub Levels : Type 0
Levels = TraversalBuilder × TextSet × ℕ

-- A level that halts the query leaves an empty frontier behind, since the level took it.
abbrev pub next_level :
    ℕ → (Frontier → Result Levels TraversalError) → Frontier → Result Levels TraversalError
next_level left continue (b, next) =
    if b.query_halted then ok (b, [], suc left) else continue (b, next)

-- The loop over the levels.
unfoldable pub each_level :
    World
    → Option RepositoryOverlay
    → TraversalRequest
    → ℕ
    → Frontier
    → Result Levels TraversalError
unfolding check_deadline each_symbol
each_level w o request zero (b, frontier) = ok (b, frontier, zero)
each_level w o request (suc left) (b, []) = ok (b, [], suc left)
each_level w o request (suc left) (b, s ∷ frontier) =
    let checked = check_deadline w request none b in
    let depth = request.maximum_depth - suc left in
    if checked.1
    then (each_symbol w o request depth (s ∷ frontier) (checked.0, [])
        >>= next_level left (each_level w o request left))
    else ok (checked.0, s ∷ frontier, suc left)

-- The mark behind the loop, if its bound left a frontier.
unfoldable pub mark_depth : Levels → TraversalBuilder
unfolding mark_query_partial
mark_depth (b, [], left) = b
mark_depth (b, s ∷ frontier, suc left) = b
mark_depth (b, s ∷ frontier, zero) =
    mark_query_partial "index-graph-depth-budget-exhausted" (some s)
      "the traversal depth budget was exhausted"
      "relationships beyond the reached depth were not queried" b

-- `run` up to the result.
unfoldable pub search :
    World → Option RepositoryOverlay → TraversalRequest → Result TraversalBuilder TraversalError
unfolding root_set seed_roots each_level mark_depth initial
search w o request =
    each_level w o request request.maximum_depth
      (seed_roots request (root_set request.roots) (initial o, []))
    >>= λ levels. ok (mark_depth levels)
