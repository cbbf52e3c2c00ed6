-- ===== src/Graph/Traversal/Examples.antt =====
-- A small graph for impact_context/index/traversal.rs: a calls b, and b calls c.
use pre_commit_review.Prelude.{
  All, ℕ, ◌≡◌, ◌↔◌, refl, sym, subst, List, [], ◌∷◌, none, some, ok, ok-injective, Bytes, codes,
  take, length-take-le, zero, suc, length, ◌≤◌, ◌==◌, if◌then◌else◌, Result, err,
}
use pre_commit_review.Graph.Model.{EdgeKind, Resolution, Confidence, Completeness, GraphEdge}
use pre_commit_review.Graph.Traversal.{
  World, TraversalDirection, TraversalRequest, TraversalBuilder, initial,
}
use pre_commit_review.Graph.Traversal.Search.{search}
use pre_commit_review.Graph.Traversal.Output.{write_edge}
use pre_commit_review.Graph.Traversal.Run.{TraversalResult, result_of, traverse_repository_graph}
use pre_commit_review.Graph.Traversal.Accepted.{IsSymbolId, Belongs, traverse-Belongs}
use pre_commit_review.Graph.Traversal.Bounds.{LimitsRows}
use pre_commit_review.Graph.Traversal.Budgets.{IsBounded, traverse-IsBounded}
use pre_commit_review.Graph.Traversal.Edges.{Complete, Sees}
use pre_commit_review.Graph.Traversal.Levels.{Queries}
use pre_commit_review.Graph.Traversal.Closed.{Reach}
use pre_commit_review.Graph.Traversal.Complete.{search_exact}

abbrev times : ℕ → ℕ → Bytes
times zero digit = []
times (suc n) digit = digit ∷ times n digit

-- A symbol id: 64 times one digit.
abbrev symbol : ℕ → Bytes
symbol digit = times 64 digit

abbrev call : ℕ → ℕ → ℕ → GraphEdge
call id a b = record {
  edge_id = symbol id;
  kind = EdgeKind.calls;
  from_symbol = symbol a;
  to_symbol = some (symbol b);
  unresolved_target = none;
  path = codes "a.rs";
  range = record {
    start_line = 1;
    start_column = 0;
    end_line = 1;
    end_column = 4;
    start_byte = 0;
    end_byte = 4;
  };
  provider_id = codes "p";
  provider_version = codes "1";
  resolution = Resolution.semantic;
  confidence = Confidence.high;
  limitation_code = none;
}

abbrev calls : ℕ → List GraphEdge
calls c = if c == 97 then call 49 97 98 ∷ [] else if c == 98 then call 50 98 99 ∷ [] else []

abbrev first : Bytes → ℕ
first [] = 0
first (c ∷ cs) = c

abbrev graph : TraversalDirection → Bytes → List GraphEdge
graph TraversalDirection.incoming s = []
graph TraversalDirection.outgoing s = calls (first s)

abbrev world : World
world = record {
  completeness = Completeness.complete;
  maximum_rows_per_query = 8;
  generation_key = ok (codes "g");
  query = λ d s n. ok (take n (graph d s));
  to_vec = λ e. ok (take 8 e.edge_id);
  elapsed = λ n. 0;
}

abbrev request : TraversalRequest
request = record {
  roots = symbol 97 ∷ [];
  directions = TraversalDirection.outgoing ∷ [];
  edge_kinds = EdgeKind.calls ∷ [];
  maximum_depth = 4;
  maximum_rows = 100;
  maximum_nodes = 10;
  maximum_edges = 10;
  maximum_bytes = 100;
  deadline = 1;
}

world-Queries : Queries world graph
world-Queries d s n rows h = sym (ok-injective h)

world-LimitsRows : LimitsRows world
world-LimitsRows d s n rows h =
    subst (λ x. length x ≤ n) (ok-injective h) (length-take-le n (graph d s))

abbrev or_else : {A E : Type 0} → A → Result A E → A
or_else a (ok b) = b
or_else a (err e) = a

abbrev result : TraversalResult
unfolding traverse_repository_graph result_of initial write_edge
result =
    or_else (result_of world none (initial none)) (traverse_repository_graph world none request)

traversed : traverse_repository_graph world none request ≡ ok result
unfolding traverse_repository_graph result_of initial write_edge
traversed = refl

two_calls : result.edges ≡ call 49 97 98 ∷ call 50 98 99 ∷ []
unfolding traverse_repository_graph result_of initial write_edge
two_calls = refl

traverse-IsBounded_example : IsBounded world request result
traverse-IsBounded_example = traverse-IsBounded world none request result world-LimitsRows traversed

abbrev found : TraversalBuilder
unfolding search initial write_edge
found = or_else (initial none) (search world none request)

searched : search world none request ≡ ok found
unfolding search initial write_edge
searched = refl

found-Complete : Complete found
unfolding search initial write_edge
found-Complete = refl

search_exact_example : Sees found (symbol 99) ↔ Reach world none request graph (symbol 99)
search_exact_example =
    search_exact world none request graph found (symbol 99) world-Queries searched found-Complete

traverse-Belongs_example : All IsSymbolId request.roots × Belongs world none
traverse-Belongs_example = traverse-Belongs world none request result traversed
