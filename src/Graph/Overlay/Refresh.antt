-- ===== src/Graph/Overlay/Refresh.antt =====
-- `process_path` and `enqueue_path` of impact_context/index/overlay.rs.
use pre_commit_review.Prelude.{
  Bool, true, false, not, ◌&&◌, List, [], ◌∷◌, ◌++◌, some, ok, ◌>>=◌, Bytes, if◌then◌else◌, is_some,
}
use pre_commit_review.Prelude.Texts.{TextSet, text_le, contains, insert, get}
use pre_commit_review.Budget.Index.{IndexResource}
use pre_commit_review.Graph.Model.{EdgeKind, GraphEdge, GraphSymbol}
use pre_commit_review.Graph.Overlay.{
  OverlayWorld, RepositoryGraph, OverlayBuilder, Outcome, mark_partial, consume_overlay_value,
  query, insert_outgoing, insert_incoming_for,
}
use pre_commit_review.Graph.Overlay.Insert.{
  candidate_has_path, candidate_retargets_edge, insert_candidate_path,
  unresolved_deleted_target_edge,
}

-- `sort` on paths, which is stable.
unfoldable pub place_path : Bytes → List Bytes → List Bytes
unfolding text_le
place_path p [] = p ∷ []
place_path p (q ∷ qs) = let rest = place_path p qs in if text_le p q then p ∷ q ∷ qs else q ∷ rest

unfoldable pub sort_paths : List Bytes → List Bytes
unfolding place_path
sort_paths [] = []
sort_paths (p ∷ ps) = place_path p (sort_paths ps)

unfoldable pub enqueue_path : Bytes → OverlayBuilder → OverlayBuilder
unfolding contains insert sort_paths
enqueue_path path b = if contains path b.queued_paths then b else record b {
  queued_paths = insert path b.queued_paths;
  queue = sort_paths (b.queue ++ path ∷ []);
}

abbrev pub suppress : GraphEdge → OverlayBuilder → OverlayBuilder
suppress e b = record b {
  overlay = record b.overlay {
    suppressed_base_edge_ids = insert e.edge_id b.overlay.suppressed_base_edge_ids;
  };
}

unfoldable pub suppress_all : List GraphEdge → OverlayBuilder → OverlayBuilder
unfolding insert
suppress_all [] b = b
suppress_all (e ∷ es) b = suppress_all es (suppress e b)

-- The kinds of an edge whose file is looked at again.
abbrev pub refreshes : EdgeKind → Bool
refreshes EdgeKind.calls = true
refreshes EdgeKind.imports = true
refreshes EdgeKind.references = true
refreshes EdgeKind.exports = true
refreshes EdgeKind.defines = false
refreshes EdgeKind.implements = false
refreshes EdgeKind.overrides = false

-- The edge without its target takes the place of an edge whose target is gone.
unfoldable pub unresolve :
    OverlayWorld → Bytes → Bytes → GraphEdge → OverlayBuilder → Outcome OverlayBuilder
unfolding consume_overlay_value insert_outgoing insert_incoming_for unresolved_deleted_target_edge
unresolve w path s e b =
    let u = unresolved_deleted_target_edge w e s in
    consume_overlay_value IndexResource.edges (w.edge_to_vec u) path b >>= λ c.
    ok (if c.1 then insert_outgoing u (insert_incoming_for s u c.0) else c.0)

-- The body of the loop over the relationships that lead to a symbol of the base graph.
unfoldable pub refresh_edge :
    OverlayWorld
    → RepositoryGraph
    → Bytes
    → Bytes
    → Bool
    → GraphEdge
    → OverlayBuilder
    → Outcome OverlayBuilder
unfolding enqueue_path contains candidate_retargets_edge insert unresolve
refresh_edge w candidate path s target_removed e b =
    let b' = if refreshes e.kind then enqueue_path e.path b else b in
    if target_removed
      && not (contains e.path b'.overlay.path_tombstones)
      && not (candidate_retargets_edge candidate e s)
    then unresolve w path s e (suppress e b')
    else ok b'

unfoldable pub refresh_edges :
    OverlayWorld
    → RepositoryGraph
    → Bytes
    → Bytes
    → Bool
    → List GraphEdge
    → OverlayBuilder
    → Outcome OverlayBuilder
unfolding refresh_edge
refresh_edges w candidate path s target_removed [] b = ok b
refresh_edges w candidate path s target_removed (e ∷ es) b =
    refresh_edge w candidate path s target_removed e b
    >>= refresh_edges w candidate path s target_removed es

-- The body of the loop over the symbols that the base graph has for a path.
unfoldable pub refresh_symbol :
    OverlayWorld → RepositoryGraph → Bytes → GraphSymbol → OverlayBuilder → Outcome OverlayBuilder
unfolding contains insert get query refresh_edges
refresh_symbol w candidate path s b =
    if contains s.symbol_id b.queried_symbols
    then ok b
    else (query w (w.incoming s.symbol_id) path
          (record b { queried_symbols = insert s.symbol_id b.queried_symbols })
        >>= λ r.
            refresh_edges w candidate path s.symbol_id
              (not (is_some (get s.symbol_id b.overlay.symbols))) r.1 r.0)

unfoldable pub refresh_symbols :
    OverlayWorld
    → RepositoryGraph
    → Bytes
    → List GraphSymbol
    → OverlayBuilder
    → Outcome OverlayBuilder
unfolding refresh_symbol
refresh_symbols w candidate path [] b = ok b
refresh_symbols w candidate path (s ∷ ss) b =
    refresh_symbol w candidate path s b >>= refresh_symbols w candidate path ss

abbrev pub tombstone : Bytes → OverlayBuilder → OverlayBuilder
tombstone path b = record b {
  overlay = record b.overlay { path_tombstones = insert path b.overlay.path_tombstones };
}

abbrev pub refresh_unavailable : Bytes → OverlayBuilder → OverlayBuilder
refresh_unavailable path =
    mark_partial "repository-overlay-dependent-refresh-unavailable" (some path)
      "a known reverse dependent was not present in the bounded candidate delta"
      "the compatible base relationships were retained, but the dependent was not re-resolved"

-- `process_path` behind its tombstone.
unfoldable pub replace_path :
    OverlayWorld → RepositoryGraph → Bytes → OverlayBuilder → Outcome OverlayBuilder
unfolding query suppress_all insert_candidate_path refresh_symbols
replace_path w candidate path b = query w (w.symbols_for_path path) path b >>= λ symbols.
    query w (w.edges_for_path path) path symbols.0 >>= λ edges.
    insert_candidate_path w candidate path (suppress_all edges.1 edges.0)
    >>= refresh_symbols w candidate path symbols.1

unfoldable pub process_path :
    OverlayWorld → RepositoryGraph → TextSet → Bytes → OverlayBuilder → Outcome OverlayBuilder
unfolding contains insert candidate_has_path mark_partial replace_path
process_path w candidate changed path b =
    if not (contains path changed) && not (candidate_has_path candidate path)
    then ok (refresh_unavailable path b)
    else replace_path w candidate path (tombstone path b)
