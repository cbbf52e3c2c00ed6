-- ===== src/Graph/Overlay/Examples.antt =====
-- A small overlay for impact_context/index/overlay.rs: a.rs has changed and b.rs calls into it.
use pre_commit_review.Prelude.{
  Bool, true, false, ◌+◌, ◌≡◌, ◌≢◌, ◌≤◌, refl, List, [], ◌∷◌, Option, none, some, ok, err, codes,
  String, take, arith, length,
}
use pre_commit_review.Prelude.Texts.{TextSet, text_eq}
use pre_commit_review.Budget.Tracker.{new, check_deadline, consume, amount}
use pre_commit_review.Budget.Index.{kind, fast_defaults, limit, IndexResource-discrete}
use pre_commit_review.Graph.Model.{
  EdgeKind, Resolution, Confidence, Completeness, SourceRange, CandidatePresence, GraphEdge,
  GraphSymbol, GraphFile, RepositoryOverlay,
}
use pre_commit_review.Graph.Overlay.{OverlayWorld, RepositoryGraph, IndexTracker, Outcome}
use pre_commit_review.Graph.Traversal.{World}
use pre_commit_review.Graph.Traversal.Run.{check_overlay}
use pre_commit_review.Graph.Overlay.Build.{start, build_repository_overlay}
use pre_commit_review.Graph.Overlay.Complete.{
  IsWhole, paths_charged, paths_limit, overlay_ends, overlay-IsWhole, overlay_charged,
  check_overlay-built,
}

abbrev range : SourceRange
range = record {
  start_line = 1;
  start_column = 0;
  end_line = 1;
  end_column = 4;
  start_byte = 0;
  end_byte = 4;
}

abbrev symbol : String → String → GraphSymbol
symbol id path = record {
  symbol_id = codes id;
  local_id = codes id;
  module_id = codes "m";
  path = codes path;
  language = codes "rust";
  kind = codes "function";
  name = codes id;
  owner_symbol_id = none;
  signature = none;
  visibility = none;
  range = range;
  confidence = Confidence.high;
}

abbrev call : String → String → String → GraphEdge
call id from target = record {
  edge_id = codes id;
  kind = EdgeKind.calls;
  from_symbol = codes from;
  to_symbol = some (codes target);
  unresolved_target = none;
  path = codes "b.rs";
  range = range;
  provider_id = codes "p";
  provider_version = codes "1";
  resolution = Resolution.semantic;
  confidence = Confidence.high;
  limitation_code = none;
}

abbrev file : String → GraphFile
file path = record {
  path = codes path;
  mode = codes "100644";
  presence = CandidatePresence.present;
  content_sha256 = none;
  file_fact_key = none;
  language = none;
  module_id = none;
}

abbrev candidate : RepositoryGraph
candidate = record {
  identity = record {
    graph_schema_version = 1;
    candidate_manifest_digest = codes "d";
    project_model_digest = [];
    resolver_digest = [];
    adapter_query_digest = [];
    file_facts_manifest_digest = [];
    normalization_rules_digest = [];
  };
  files = file "a.rs" ∷ file "b.rs" ∷ [];
  modules = [];
  symbols = symbol "new" "a.rs" ∷ symbol "user" "b.rs" ∷ [];
  edges = call "e2" "user" "new" ∷ [];
  completeness = Completeness.complete;
  limitations = [];
}

-- The base graph has the symbol "old" in a.rs, which "user" in b.rs calls.
abbrev only : {A : Type 0} → Bool → A → List A
only true x = x ∷ []
only false x = []

abbrev world : OverlayWorld
unfolding text_eq
world = record {
  completeness = Completeness.complete;
  maximum_rows_per_query = 8;
  generation_key = ok (codes "g");
  symbols_for_path = λ p n. ok (take n (only (text_eq p (codes "a.rs")) (symbol "old" "a.rs")));
  edges_for_path = λ p n. ok (take n (only (text_eq p (codes "b.rs")) (call "e1" "user" "old")));
  incoming = λ s n. ok (take n (only (text_eq s (codes "old")) (call "e1" "user" "old")));
  file_to_vec = λ f. ok f.path;
  module_to_vec = λ m. ok m.path;
  symbol_to_vec = λ s. ok s.symbol_id;
  edge_to_vec = λ e. ok e.edge_id;
  sha256 = λ b. b;
  elapsed = λ n. 0;
}

abbrev changed : TextSet
changed = codes "a.rs" ∷ []

abbrev budget : IndexTracker
unfolding new
budget = new kind fast_defaults

abbrev nothing : IndexTracker × RepositoryOverlay
unfolding start new
nothing = (budget, (start world candidate changed budget []).overlay)

abbrev or_else :
    Option (Outcome (IndexTracker × RepositoryOverlay)) → IndexTracker × RepositoryOverlay
or_else none = nothing
or_else (some (err e)) = nothing
or_else (some (ok r)) = r

abbrev result : IndexTracker × RepositoryOverlay
unfolding build_repository_overlay new check_deadline consume limit amount IndexResource-discrete
result = or_else (build_repository_overlay world candidate changed budget)

built : build_repository_overlay world candidate changed budget ≡ some (ok result)
unfolding build_repository_overlay new check_deadline consume limit amount IndexResource-discrete
built = refl

whole : result.1.completeness ≡ Completeness.complete
unfolding build_repository_overlay new check_deadline consume limit amount IndexResource-discrete
whole = refl

both_replaced : result.1.path_tombstones ≡ codes "a.rs" ∷ codes "b.rs" ∷ []
unfolding build_repository_overlay new check_deadline consume limit amount IndexResource-discrete
both_replaced = refl

old_call_suppressed : result.1.suppressed_base_edge_ids ≡ codes "e1" ∷ []
unfolding build_repository_overlay new check_deadline consume limit amount IndexResource-discrete
old_call_suppressed = refl

overlay_ends_example : build_repository_overlay world candidate changed budget ≢ none
overlay_ends_example = overlay_ends world candidate changed budget

overlay-IsWhole_example : IsWhole world candidate changed result.1
overlay-IsWhole_example =
    overlay-IsWhole world candidate changed budget result.0 result.1 built whole

nothing_charged : paths_charged budget ≤ paths_limit budget
unfolding new
nothing_charged = omega arith

overlay_charged_example :
    (length result.1.path_tombstones + paths_charged budget ≤ paths_charged result.0)
    × (paths_charged result.0 ≤ paths_limit budget)
overlay_charged_example =
    overlay_charged world candidate changed budget result.0 result.1 built nothing_charged

-- A reader of the same generation.
abbrev reader : World
reader = record {
  completeness = Completeness.complete;
  maximum_rows_per_query = 8;
  generation_key = ok (codes "g");
  query = λ d s n. ok [];
  to_vec = λ e. ok e.edge_id;
  elapsed = λ n. 0;
}

same_generation : reader.generation_key ≡ world.generation_key
unfolding world
same_generation = refl

check_overlay-built_example : check_overlay reader (some result.1) ≡ ok tt
check_overlay-built_example =
    check_overlay-built world candidate changed budget reader result.0 result.1 same_generation
      built
