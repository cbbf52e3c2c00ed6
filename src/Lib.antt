-- ===== src/Lib.antt =====
-- Verification library of collect-diff-context-cli, the Rust program that collects the context of a
-- code review before a commit.
--
-- The program opens a review scope over git (review_scope.rs), analyses the impact of the change
-- within work budgets (impact_context), unites the evidence of static analysers (static_analysis), and
-- asks a rust-analyzer server for repository context over JSON-RPC (repository_context_provider).
-- Paths below are from collect-diff-context-cli/src.
--
-- Prelude: shared names. Tests (Boolean tests, machine bounds), Lists, Outcome (`Result` and `?`),
--   Utf8, Digits (`to_string` and `parse` of the Rust library), Keyed (maps over an enumeration),
--   Ordered (`BTreeSet` of numbers as its ascending list) and Texts (`BTreeSet` and `BTreeMap` of
--   strings as ascending lists).
-- Budget: impact_context/budget.rs and impact_context/index/budget.rs. The two trackers have one code;
--   Budget/Tracker.antt is `BudgetTracker` and `IndexBudgetTracker` over a record of what differs,
--   and Budget/Impact.antt and Budget/Index.antt give the resources, limits, defaults and codes.
--   The clock is outside the model: `elapsed` is an argument.
-- JsonRpc: repository_context_provider/json_rpc.rs. Protocol has the errors and the bounded
--   counter, Header the header grammar, Frame the `FrameDecoder`, Encode `frame_json`, Message
--   `parse_inbound` and the encoders over a record of what `serde_json` does, Correlation the
--   `CorrelationState`. A method that fails keeps the changes it made before: it returns the state
--   beside its answer. `serde_json` is a parameter, and JsonRpc/Message/SerdeJson.antt names what
--   the round trip relies on: its decoder stops at 128 levels and does not keep every float. The
--   loop of `drain_frames` runs on fuel: one more than twice the length of the buffer plus one for
--   a body that is waited for, and each round lowers that weight (JsonRpc/Frame/Loop.antt).
-- ReviewScope: review_scope.rs and `ChangedRange` of candidate/content.rs. Hunks parses the output of
--   `git diff` (`parse_added_lines`, `parse_changed_ranges`), Source has the names of the sources,
--   WorkOrder the scope types and `AuthoritativeScope::from_parts`, whose `sort_by` is written as a
--   stable insertion sort.
-- Evidence: static_analysis/contracts.rs (Contracts has its types, Validate the checks of inputs,
--   reports and limits, with the regular expressions written out) and
--   static_analysis/evidence_union.rs: Rename has the loops that give reports and findings their new
--   ids, Union the loop over the runs. SHA-256 is a parameter. The runs are changed in place, also
--   where the union fails, so they are returned.
-- Graph: impact_context/index/traversal.rs and overlay.rs, over the types of
--   impact_context/contracts.rs and
--   impact_context/index/model.rs (Graph/Model.antt). Graph/Traversal.antt has the builder, Lookup what
--   one lookup reads and merges, Output what it adds to the result, Search the loops of `run`, Run the
--   result and `traverse_repository_graph`. The reader over SQLite, `serde_json::to_vec` and the clock
--   are the record `World`. The loop over the depth recurs on the levels that are left, so it needs no
--   fuel. Bounds to Budgets prove the budgets, Edges to Complete that a complete query is exact,
--   Accepted what is refused before the graph is read.
--   Graph/Overlay.antt is the `OverlayBuilder` of impact_context/index/overlay.rs over the tracker of
--   Budget/Index.antt, Insert what it takes from the candidate graph, Refresh `process_path`, Build the
--   loop and `build_repository_overlay`; `OverlayWorld` is its reader, `serde_json`, SHA-256 and clock.
--   The loop runs on fuel, one more than the limit for overlay paths, since each round consumes one.
--
-- Bounds: `usize` and `u64` are those of a 64-bit target. Checked additions are written out.
--
-- Not modelled: git, processes, sockets, SQLite, the file system and third-party parsers, which are
-- input and output (the traversal takes its queries as a parameter); JSON values, which are
-- parameters; the parts of the program that are not named above.
pub mod Prelude
pub mod Budget
pub mod JsonRpc
pub mod ReviewScope
pub mod Graph
pub mod Evidence
