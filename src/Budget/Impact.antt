-- ===== src/Budget/Impact.antt =====
-- The budget of one impact analysis: impact_context/budget.rs. A duration is in nanoseconds.
use pre_commit_review.Prelude.{ℕ, ◌*◌, String}
use pre_commit_review.Budget.Tracker.{Kind}

pub record ImpactBudget : Type 0 where
  pub deadline : ℕ
  pub max_changed_files : ℕ
  pub max_file_bytes : ℕ
  pub max_total_bytes : ℕ
  pub max_nodes : ℕ
  pub max_nesting_depth : ℕ
  pub max_facts : ℕ
  pub max_edges : ℕ
  pub max_output_bytes : ℕ
  pub max_query_patterns : ℕ
  pub max_matches_per_pattern : ℕ

abbrev pub fast_defaults : ImpactBudget
fast_defaults = record {
  deadline = 750 * 1_000_000;
  max_changed_files = 30;
  max_file_bytes = 2 * 1024 * 1024;
  max_total_bytes = 8 * 1024 * 1024;
  max_nodes = 250_000;
  max_nesting_depth = 512;
  max_facts = 5_000;
  max_edges = 500;
  max_output_bytes = 1_048_576;
  max_query_patterns = 32;
  max_matches_per_pattern = 20;
}

abbrev pub deep_defaults : ImpactBudget
deep_defaults = record {
  deadline = 30 * 1_000_000_000;
  max_changed_files = 30;
  max_file_bytes = 2 * 1024 * 1024;
  max_total_bytes = 512 * 1024 * 1024;
  max_nodes = 10_000_000;
  max_nesting_depth = 512;
  max_facts = 5_000;
  max_edges = 500;
  max_output_bytes = 1_048_576;
  max_query_patterns = 32;
  max_matches_per_pattern = 20;
}

pub data BudgetResource : Type 0 where
  changed_files : BudgetResource
  file_bytes : BudgetResource
  total_bytes : BudgetResource
  nodes : BudgetResource
  nesting_depth : BudgetResource
  facts : BudgetResource
  edges : BudgetResource
  output_bytes : BudgetResource
  query_patterns : BudgetResource
  matches_per_pattern : BudgetResource

abbrev pub exhaustion_code : BudgetResource → String
exhaustion_code changed_files = "changed-file-budget-exhausted"
exhaustion_code file_bytes = "file-byte-budget-exhausted"
exhaustion_code total_bytes = "total-byte-budget-exhausted"
exhaustion_code nodes = "node-budget-exhausted"
exhaustion_code nesting_depth = "nesting-depth-budget-exhausted"
exhaustion_code facts = "fact-budget-exhausted"
exhaustion_code edges = "edge-budget-exhausted"
exhaustion_code output_bytes = "output-byte-budget-exhausted"
exhaustion_code query_patterns = "query-pattern-budget-exhausted"
exhaustion_code matches_per_pattern = "query-match-budget-exhausted"

unfoldable pub limit : ImpactBudget → BudgetResource → ℕ
limit b changed_files = b.max_changed_files
limit b file_bytes = b.max_file_bytes
limit b total_bytes = b.max_total_bytes
limit b nodes = b.max_nodes
limit b nesting_depth = b.max_nesting_depth
limit b facts = b.max_facts
limit b edges = b.max_edges
limit b output_bytes = b.max_output_bytes
limit b query_patterns = b.max_query_patterns
limit b matches_per_pattern = b.max_matches_per_pattern

unfoldable pub BudgetResource-discrete : Discrete BudgetResource
BudgetResource-discrete = hlevel

abbrev pub kind : Kind BudgetResource ImpactBudget
kind = record {
  discrete = BudgetResource-discrete;
  limit = limit;
  deadline = λ b. b.deadline;
  exhaustion_code = exhaustion_code;
  deadline_code = "deadline-exhausted";
}
