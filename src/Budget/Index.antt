-- ===== src/Budget/Index.antt =====
-- The budget of the repository index: impact_context/index/budget.rs. A duration is in nanoseconds.
use pre_commit_review.Prelude.{ℕ, ◌*◌, String}
use pre_commit_review.Budget.Tracker.{Kind}

pub record IndexBudget : Type 0 where
  pub deadline : ℕ
  pub max_manifest_files : ℕ
  pub max_manifest_bytes : ℕ
  pub max_project_model_files : ℕ
  pub max_project_model_bytes : ℕ
  pub max_file_bytes : ℕ
  pub max_parse_bytes : ℕ
  pub max_nodes : ℕ
  pub max_facts : ℕ
  pub max_symbols : ℕ
  pub max_edges : ℕ
  pub max_generation_bytes : ℕ
  pub max_overlay_paths : ℕ
  pub max_query_rows : ℕ
  pub max_graph_depth : ℕ

abbrev pub deep_defaults : IndexBudget
deep_defaults = record {
  deadline = 30 * 1_000_000_000;
  max_manifest_files = 100_000;
  max_manifest_bytes = 32 * 1024 * 1024;
  max_project_model_files = 1_000;
  max_project_model_bytes = 8 * 1024 * 1024;
  max_file_bytes = 2 * 1024 * 1024;
  max_parse_bytes = 512 * 1024 * 1024;
  max_nodes = 10_000_000;
  max_facts = 2_000_000;
  max_symbols = 1_000_000;
  max_edges = 5_000_000;
  max_generation_bytes = 2 * 1024 * 1024 * 1024;
  max_overlay_paths = 10_000;
  max_query_rows = 50_000;
  max_graph_depth = 2;
}

abbrev pub fast_defaults : IndexBudget
fast_defaults = record deep_defaults {
  deadline = 750 * 1_000_000;
  max_parse_bytes = 8 * 1024 * 1024;
  max_nodes = 250_000;
  max_facts = 50_000;
  max_symbols = 50_000;
  max_edges = 500;
  max_generation_bytes = 64 * 1024 * 1024;
  max_overlay_paths = 30;
  max_query_rows = 500;
  max_graph_depth = 1;
}

pub data IndexResource : Type 0 where
  manifest_files : IndexResource
  manifest_bytes : IndexResource
  project_model_files : IndexResource
  project_model_bytes : IndexResource
  file_bytes : IndexResource
  parse_bytes : IndexResource
  nodes : IndexResource
  facts : IndexResource
  symbols : IndexResource
  edges : IndexResource
  generation_bytes : IndexResource
  overlay_paths : IndexResource
  query_rows : IndexResource
  graph_depth : IndexResource

abbrev pub exhaustion_code : IndexResource → String
exhaustion_code manifest_files = "index-manifest-file-budget-exhausted"
exhaustion_code manifest_bytes = "index-manifest-byte-budget-exhausted"
exhaustion_code project_model_files = "index-project-model-file-budget-exhausted"
exhaustion_code project_model_bytes = "index-project-model-byte-budget-exhausted"
exhaustion_code file_bytes = "index-file-byte-budget-exhausted"
exhaustion_code parse_bytes = "index-parse-byte-budget-exhausted"
exhaustion_code nodes = "index-node-budget-exhausted"
exhaustion_code facts = "index-fact-budget-exhausted"
exhaustion_code symbols = "index-symbol-budget-exhausted"
exhaustion_code edges = "index-edge-budget-exhausted"
exhaustion_code generation_bytes = "index-generation-byte-budget-exhausted"
exhaustion_code overlay_paths = "index-overlay-path-budget-exhausted"
exhaustion_code query_rows = "index-query-row-budget-exhausted"
exhaustion_code graph_depth = "index-graph-depth-budget-exhausted"

unfoldable pub limit : IndexBudget → IndexResource → ℕ
limit b manifest_files = b.max_manifest_files
limit b manifest_bytes = b.max_manifest_bytes
limit b project_model_files = b.max_project_model_files
limit b project_model_bytes = b.max_project_model_bytes
limit b file_bytes = b.max_file_bytes
limit b parse_bytes = b.max_parse_bytes
limit b nodes = b.max_nodes
limit b facts = b.max_facts
limit b symbols = b.max_symbols
limit b edges = b.max_edges
limit b generation_bytes = b.max_generation_bytes
limit b overlay_paths = b.max_overlay_paths
limit b query_rows = b.max_query_rows
limit b graph_depth = b.max_graph_depth

unfoldable pub IndexResource-discrete : Discrete IndexResource
IndexResource-discrete = hlevel

abbrev pub kind : Kind IndexResource IndexBudget
kind = record {
  discrete = IndexResource-discrete;
  limit = limit;
  deadline = λ b. b.deadline;
  exhaustion_code = exhaustion_code;
  deadline_code = "index-deadline-exhausted";
}
