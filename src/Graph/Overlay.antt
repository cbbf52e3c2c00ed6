-- ===== src/Graph/Overlay.antt =====
-- `OverlayBuilder` of impact_context/index/overlay.rs: its state, its queries and what it charges to
-- the index budget. An operation that fails returns the budget beside the error, since the caller
-- keeps it. The graph reader, `serde_json::to_vec`, SHA-256 and the clock are the record
-- `OverlayWorld`.
pub mod Insert
pub mod Refresh
pub mod Build
pub mod Moves
pub mod Processed
pub mod Refreshed
pub mod Rounds
pub mod Replaced
pub mod Loop
pub mod Complete
mod Examples
use pre_commit_review.Prelude.{
  ℕ, ◌+◌, ◌/◌, ◌%◌, ◌^◌, Bool, true, false, not, ◌&&◌, ◌||◌, List, [], ◌∷◌, ◌++◌, Option, none,
  some, Result, ok, err, ◌>>=◌, Bytes, codes, String, ◌==◌, if◌then◌else◌, length, unwrap_or, min,
}
use pre_commit_review.Prelude.Texts.{TextSet, text_eq, get, put}
use pre_commit_review.Budget.Tracker.{Tracker, Exhaustion, consume, amount}
use pre_commit_review.Budget.Index.{IndexBudget, IndexResource, kind}
use pre_commit_review.Graph.Model.{
  Completeness, GraphEdge, GraphSymbol, GraphModule, GraphFile, IndexLimitation, RepositoryOverlay,
}

pub record OverlayError : Type 0 where
  pub code : Bytes
  pub message : Bytes

pub record GraphGenerationIdentity : Type 0 where
  pub graph_schema_version : ℕ
  pub candidate_manifest_digest : Bytes
  pub project_model_digest : Bytes
  pub resolver_digest : Bytes
  pub adapter_query_digest : Bytes
  pub file_facts_manifest_digest : Bytes
  pub normalization_rules_digest : Bytes

pub record RepositoryGraph : Type 0 where
  pub identity : GraphGenerationIdentity
  pub files : List GraphFile
  pub modules : List GraphModule
  pub symbols : List GraphSymbol
  pub edges : List GraphEdge
  pub completeness : Completeness
  pub limitations : List IndexLimitation

abbrev pub IndexTracker : Type 0
IndexTracker = Tracker IndexResource IndexBudget

-- What the overlay calls. SHA-256 gives the digest in lowercase hexadecimal; the last field is the
-- time since the start at each reading of the clock.
pub record OverlayWorld : Type 0 where
  pub completeness : Completeness
  pub maximum_rows_per_query : ℕ
  pub generation_key : Result Bytes Bytes
  pub symbols_for_path : Bytes → ℕ → Result (List GraphSymbol) OverlayError
  pub edges_for_path : Bytes → ℕ → Result (List GraphEdge) OverlayError
  pub incoming : Bytes → ℕ → Result (List GraphEdge) OverlayError
  pub file_to_vec : GraphFile → Result Bytes Bytes
  pub module_to_vec : GraphModule → Result Bytes Bytes
  pub symbol_to_vec : GraphSymbol → Result Bytes Bytes
  pub edge_to_vec : GraphEdge → Result Bytes Bytes
  pub sha256 : Bytes → Bytes
  pub elapsed : ℕ → ℕ

-- `clock` is the number of readings so far.
pub record OverlayBuilder : Type 0 where
  pub budget : IndexTracker
  pub overlay : RepositoryOverlay
  pub queued_paths : TextSet
  pub queue : List Bytes
  pub queried_symbols : TextSet
  pub clock : ℕ

abbrev pub Outcome {ℓ} : Type ℓ → Type ℓ
Outcome A = Result A (IndexTracker × OverlayError)

abbrev pub or_fail {ℓ} : {A : Type ℓ} → OverlayBuilder → Result A OverlayError → Outcome A
or_fail b (ok a) = ok a
or_fail b (err e) = err (b.budget, e)

unfoldable pub mark_partial :
    String → Option Bytes → String → String → OverlayBuilder → OverlayBuilder
mark_partial code path reason interpretation b = record b {
  overlay = record b.overlay {
    completeness = Completeness.partial;
    limitations =
        b.overlay.limitations
        ++ record {
          code = codes code;
          path = path;
          symbol_id = none;
          reason = codes reason;
          interpretation = codes interpretation;
        }
          ∷ [];
  };
}

unfoldable pub record_exhaustion :
    Exhaustion IndexResource → Option Bytes → OverlayBuilder → OverlayBuilder
unfolding mark_partial
record_exhaustion e path =
    mark_partial e.code path "repository overlay resource budget was exhausted"
      "the candidate overlay and reverse-dependent closure are partial"

abbrev pub answered :
    Bytes → OverlayBuilder → Result (Unit {0}) (Exhaustion IndexResource) → OverlayBuilder × Bool
answered path b (ok u) = (b, true)
answered path b (err e) = (record_exhaustion e (some path) b, false)

unfoldable pub consume_candidate :
    IndexResource → ℕ → Bytes → OverlayBuilder → OverlayBuilder × Bool
unfolding record_exhaustion
consume_candidate r n path b =
    let c = consume kind b.budget r n in answered path (record b { budget = c.0 }) c.1

abbrev pub sized : Result Bytes Bytes → Result Bytes OverlayError
sized (ok bytes) = ok bytes
sized (err e) = err (record {
  code = codes "overlay-value-serialization-failed";
  message = codes "cannot size repository overlay value: " ++ e;
})

-- The second argument is the value as JSON.
unfoldable pub consume_overlay_value :
    IndexResource → Result Bytes Bytes → Bytes → OverlayBuilder → Outcome (OverlayBuilder × Bool)
unfolding consume_candidate
consume_overlay_value r json path b =
    let c = consume_candidate r 1 path b in
    if not c.1
    then ok c
    else (or_fail c.0 (sized json) >>= λ bytes.
        ok (consume_candidate IndexResource.generation_bytes (length bytes) path c.0))

unfoldable pub query_limit : OverlayWorld → Bytes → OverlayBuilder → OverlayBuilder × Option ℕ
unfolding consume_candidate
query_limit w path b =
    let limit =
      min (amount kind b.budget IndexResource.query_rows).remaining w.maximum_rows_per_query in
    if limit == 0
    then ((consume_candidate IndexResource.query_rows 1 path b).0, none)
    else (b, some limit)

unfoldable pub observe_query_result : ℕ → ℕ → Bytes → OverlayBuilder → OverlayBuilder
unfolding consume_candidate mark_partial
observe_query_result rows limit path b =
    let b' = (consume_candidate IndexResource.query_rows rows path b).0 in
    if rows == limit
    then mark_partial "index-query-row-limit-reached" (some path)
        "an indexed graph query reached its exact row limit"
        "additional base symbols or relationships may exist" b'
    else b'

abbrev pub query_within {ℓ} :
    {A : Type ℓ}
    → (ℕ → Result (List A) OverlayError)
    → Bytes
    → OverlayBuilder × Option ℕ
    → Outcome (OverlayBuilder × List A)
query_within ask path (b, none) = ok (b, [])
query_within ask path (b, some limit) =
    or_fail b (ask limit) >>= λ rows. ok (observe_query_result (length rows) limit path b, rows)

-- The common body of `query_symbols_for_path`, `query_edges_for_path` and `query_incoming`.
unfoldable pub query {ℓ} :
    {A : Type ℓ}
    → OverlayWorld
    → (ℕ → Result (List A) OverlayError)
    → Bytes
    → OverlayBuilder
    → Outcome (OverlayBuilder × List A)
unfolding query_limit observe_query_result
query w ask path b = query_within ask path (query_limit w path b)

unfoldable pub insert_outgoing : GraphEdge → OverlayBuilder → OverlayBuilder
unfolding get put
insert_outgoing e b = record b {
  overlay = record b.overlay {
    outgoing_edges =
        put e.from_symbol (unwrap_or [] (get e.from_symbol b.overlay.outgoing_edges) ++ e ∷ [])
          b.overlay.outgoing_edges;
  };
}

unfoldable pub insert_incoming_for : Bytes → GraphEdge → OverlayBuilder → OverlayBuilder
unfolding get put
insert_incoming_for s e b = record b {
  overlay = record b.overlay {
    incoming_edges =
        put s (unwrap_or [] (get s b.overlay.incoming_edges) ++ e ∷ []) b.overlay.incoming_edges;
  };
}

abbrev pub insert_target : Option Bytes → GraphEdge → OverlayBuilder → OverlayBuilder
insert_target none e b = b
insert_target (some target) e b = insert_incoming_for target e b

unfoldable pub insert_edge : GraphEdge → OverlayBuilder → OverlayBuilder
unfolding insert_incoming_for insert_outgoing
insert_edge e b = insert_outgoing e (insert_target e.to_symbol e b)

-- `u64::to_be_bytes`.
abbrev be_bytes : ℕ → Bytes
be_bytes n =
    n / 2 ^ 56 % 256
    ∷ n / 2 ^ 48 % 256
    ∷ n / 2 ^ 40 % 256
    ∷ n / 2 ^ 32 % 256
    ∷ n / 2 ^ 24 % 256
    ∷ n / 2 ^ 16 % 256
    ∷ n / 2 ^ 8 % 256
    ∷ n % 256
    ∷ []

abbrev pub hash_component : Bytes → Bytes
hash_component value = be_bytes (length value) ++ value
