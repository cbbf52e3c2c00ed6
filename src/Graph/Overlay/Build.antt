-- ===== src/Graph/Overlay/Build.antt =====
-- `build`, `finish` and `build_repository_overlay` of impact_context/index/overlay.rs. The loop over
-- the queue runs on fuel: one more than the budget's limit for overlay paths, of which each round
-- consumes one.
use pre_commit_review.Prelude.{
  ℕ, zero, suc, ◌+◌, Bool, false, List, [], ◌∷◌, ◌++◌, Option, none, some, Result, ok, err, ◌>>=◌,
  Bytes, codes, if◌then◌else◌,
}
use pre_commit_review.Prelude.Texts.{TextSet, TextMap, text_eq, text_le}
use pre_commit_review.Budget.Tracker.{Exhaustion, check_deadline, limit_of}
use pre_commit_review.Budget.Index.{IndexResource, kind}
use pre_commit_review.Graph.Model.{
  Completeness, GraphEdge, IndexLimitation, RepositoryOverlay, merge_completeness,
}
use pre_commit_review.Graph.Limitations.{canonicalize_limitations}
use pre_commit_review.Graph.Overlay.{
  OverlayWorld, RepositoryGraph, OverlayBuilder, IndexTracker, Outcome, record_exhaustion,
  consume_candidate,
}
use pre_commit_review.Graph.Overlay.Refresh.{process_path}

-- The two charges at the head of the loop.
abbrev pub charge_path :
    Bytes → OverlayBuilder → Result (Unit {0}) (Exhaustion IndexResource) → OverlayBuilder × Bool
charge_path path b (err e) = (record_exhaustion e (some path) b, false)
charge_path path b (ok u) = consume_candidate IndexResource.overlay_paths 1 path b

unfoldable pub start_path :
    OverlayWorld → Bytes → List Bytes → OverlayBuilder → OverlayBuilder × Bool
unfolding consume_candidate record_exhaustion
start_path w path rest b =
    let d = check_deadline kind b.budget (w.elapsed b.clock) in
    charge_path path (record b { budget = d.0; queue = rest; clock = b.clock + 1 }) d.1

abbrev pub next_round :
    (OverlayBuilder → Option (Outcome OverlayBuilder))
    → Outcome OverlayBuilder
    → Option (Outcome OverlayBuilder)
next_round continue (ok b) = continue b
next_round continue (err e) = some (err e)

abbrev pub build_round :
    OverlayWorld
    → RepositoryGraph
    → TextSet
    → (OverlayBuilder → Option (Outcome OverlayBuilder))
    → OverlayBuilder
    → List Bytes
    → Option (Outcome OverlayBuilder)
build_round w candidate changed continue b [] = some (ok b)
build_round w candidate changed continue b (path ∷ rest) =
    let c = start_path w path rest b in
    if c.1 then next_round continue (process_path w candidate changed path c.0) else some (ok c.0)

unfoldable pub build :
    ℕ → OverlayWorld → RepositoryGraph → TextSet → OverlayBuilder → Option (Outcome OverlayBuilder)
unfolding start_path process_path
build zero w candidate changed b = none
build (suc n) w candidate changed b =
    build_round w candidate changed (build n w candidate changed) b b.queue

-- `sort_by` on the ids of edges, which is stable.
unfoldable pub place_edge : GraphEdge → List GraphEdge → List GraphEdge
unfolding text_le
place_edge e [] = e ∷ []
place_edge e (f ∷ fs) =
    let rest = place_edge e fs in if text_le e.edge_id f.edge_id then e ∷ f ∷ fs else f ∷ rest

unfoldable pub sort_edges : List GraphEdge → List GraphEdge
unfolding place_edge
sort_edges [] = []
sort_edges (e ∷ es) = place_edge e (sort_edges es)

-- `dedup_by`: an edge with the id of the one kept before it is dropped.
unfoldable pub dedup_edges : GraphEdge → List GraphEdge → List GraphEdge
unfolding text_eq
dedup_edges e [] = []
dedup_edges e (f ∷ fs) =
    let kept = f ∷ dedup_edges f fs in
    let dropped = dedup_edges e fs in if text_eq f.edge_id e.edge_id then dropped else kept

abbrev pub without_duplicates : List GraphEdge → List GraphEdge
without_duplicates [] = []
without_duplicates (e ∷ es) = e ∷ dedup_edges e es

unfoldable pub canonicalize_edges : List GraphEdge → List GraphEdge
unfolding sort_edges dedup_edges
canonicalize_edges es = without_duplicates (sort_edges es)

-- `values_mut`.
unfoldable pub map_values : {V : Type 0} → (V → V) → TextMap V → TextMap V
map_values f [] = []
map_values f ((k, v) ∷ m) = (k, f v) ∷ map_values f m

abbrev pub demote : List IndexLimitation → Completeness → Completeness
demote [] c = c
demote (l ∷ ls) Completeness.complete = Completeness.partial
demote (l ∷ ls) Completeness.partial = Completeness.partial
demote (l ∷ ls) Completeness.unavailable = Completeness.unavailable

unfoldable pub finish : RepositoryOverlay → RepositoryOverlay
unfolding canonicalize_edges map_values canonicalize_limitations
finish o = record o {
  outgoing_edges = map_values canonicalize_edges o.outgoing_edges;
  incoming_edges = map_values canonicalize_edges o.incoming_edges;
  limitations = canonicalize_limitations o.limitations;
  completeness = demote (canonicalize_limitations o.limitations) o.completeness;
}

unfoldable pub start :
    OverlayWorld → RepositoryGraph → TextSet → IndexTracker → Bytes → OverlayBuilder
unfolding merge_completeness
start w candidate changed budget key = record {
  budget = budget;
  overlay = record {
    base_generation_key = key;
    candidate_manifest_digest = candidate.identity.candidate_manifest_digest;
    path_tombstones = [];
    files = [];
    modules = [];
    symbols = [];
    outgoing_edges = [];
    incoming_edges = [];
    suppressed_base_edge_ids = [];
    completeness = merge_completeness w.completeness candidate.completeness;
    limitations = candidate.limitations;
  };
  queued_paths = changed;
  queue = changed;
  queried_symbols = [];
  clock = 0;
}

abbrev pub identified : IndexTracker → Result Bytes Bytes → Outcome Bytes
identified budget (ok key) = ok key
identified budget (err e) = err (
  budget,
  record {
    code = codes "overlay-base-identity-invalid";
    message = codes "cannot identify base repository graph: " ++ e;
  },
)

abbrev pub finished : Outcome OverlayBuilder → Outcome (IndexTracker × RepositoryOverlay)
finished o = o >>= λ b. ok (b.budget, finish b.overlay)

abbrev pub build_from :
    OverlayWorld
    → RepositoryGraph
    → TextSet
    → IndexTracker
    → Outcome Bytes
    → Option (Outcome (IndexTracker × RepositoryOverlay))
build_from w candidate changed budget (err e) = some (err e)
build_from w candidate changed budget (ok key) =
    elim (build (suc (limit_of kind budget IndexResource.overlay_paths)) w candidate changed
      (start w candidate changed budget key)) [ none ↦ none | some o ↦ some (finished o) ]

unfoldable pub build_repository_overlay :
    OverlayWorld
    → RepositoryGraph
    → TextSet
    → IndexTracker
    → Option (Outcome (IndexTracker × RepositoryOverlay))
unfolding build start finish
build_repository_overlay w candidate changed budget =
    build_from w candidate changed budget (identified budget w.generation_key)
