-- ===== src/Graph/Overlay/Refreshed.antt =====
-- What the refresh of dependents by impact_context/index/overlay.rs leaves alone: it only queues paths.
use pre_commit_review.Prelude.{
  ◌||◌, stop_or, go_or, ◌≡◌, inl, inr, refl, subst, Bool, not, ◌&&◌, List, [], ◌∷◌, ◌++◌, ok,
  >>=-eq-ok, ok-injective, Bytes, arith, Bool-cases, if◌then◌else◌, is_some,
}
use pre_commit_review.Prelude.Texts.{contains, insert, get, contains-insert, text_eq, text_le}
use pre_commit_review.Budget.Index.{IndexResource}
use pre_commit_review.Graph.Model.{GraphEdge, GraphSymbol}
use pre_commit_review.Graph.Overlay.{
  OverlayWorld, RepositoryGraph, OverlayBuilder, consume_overlay_value, query,
}
use pre_commit_review.Graph.Overlay.Insert.{
  insert_candidate_path, candidate_retargets_edge, unresolved_deleted_target_edge,
}
use pre_commit_review.Graph.Overlay.Refresh.{
  place_path, sort_paths, enqueue_path, suppress, suppress_all, refreshes, unresolve, refresh_edge,
  refresh_edges, refresh_symbol, refresh_symbols, replace_path,
}
use pre_commit_review.Graph.Overlay.Moves.{
  Moves, Moves-filled, Moves-self, Moves-trans, consume_overlay_value-Moves, query-Moves,
  insert_both-Moves,
}
use pre_commit_review.Graph.Overlay.Processed.{insert_candidate_path-Moves}

contains-place_path :
    (p q : Bytes) (qs : List Bytes) → contains p (place_path q qs) ≡ (text_eq p q || contains p qs)
unfolding contains place_path
contains-place_path p q [] = refl
contains-place_path p q (r ∷ rs) = elim (Bool-cases (text_le q r)) [
  | inl e ↦ rw e refl
  | inr e ↦ rw e (ground (arith, contains-place_path p q rs))
]

contains-sort_paths : (p : Bytes) (qs : List Bytes) → contains p (sort_paths qs) ≡ contains p qs
unfolding contains sort_paths
contains-sort_paths p [] = refl
contains-sort_paths p (q ∷ qs) =
    ground (arith, contains-place_path p q (sort_paths qs), contains-sort_paths p qs)

contains-snoc :
    (p q : Bytes) (qs : List Bytes) → contains p (qs ++ q ∷ []) ≡ (contains p qs || text_eq p q)
unfolding contains
contains-snoc p q [] = ground arith
contains-snoc p q (r ∷ rs) = ground (arith, contains-snoc p q rs)

enqueue_path-Moves : (path : Bytes) (b : OverlayBuilder) → Moves b (enqueue_path path b)
unfolding enqueue_path
enqueue_path-Moves path b = elim (Bool-cases (contains path b.queued_paths)) [
  | inl q ↦ rw q (Moves-self b)
  | inr q ↦ rw q (record {
    limits = refl;
    charges = refl;
    before = λ h. h;
    tombs = refl;
    key = refl;
    waits = λ p h. ground (
      arith,
      contains-insert p path b.queued_paths,
      contains-sort_paths p (b.queue ++ path ∷ []),
      contains-snoc p path b.queue,
    );
    keeps = λ p h.
        ground (arith, contains-sort_paths p (b.queue ++ path ∷ []), contains-snoc p path b.queue);
    known = λ p h. ground (arith, contains-insert p path b.queued_paths);
  })
]

suppress-Moves : (e : GraphEdge) (b : OverlayBuilder) → Moves b (suppress e b)
suppress-Moves e b = Moves-filled b (suppress e b) refl refl refl refl refl refl

suppress_all-Moves : (es : List GraphEdge) (b : OverlayBuilder) → Moves b (suppress_all es b)
unfolding suppress_all
suppress_all-Moves [] b = Moves-self b
suppress_all-Moves (e ∷ es) b =
    Moves-trans (suppress-Moves e b) (suppress_all-Moves es (suppress e b))

module _ (w : OverlayWorld) (candidate : RepositoryGraph) (path : Bytes) where
  unresolve-Moves :
      (s : Bytes) (e : GraphEdge) (b b' : OverlayBuilder)
      → unresolve w path s e b ≡ ok b'
      → Moves b b'
  unfolding unresolve
  unresolve-Moves s e b b' h =
      let u = unresolved_deleted_target_edge w e s in
      let (c, hc, h') =
        >>=-eq-ok (consume_overlay_value IndexResource.edges (w.edge_to_vec u) path b) _ h in
      let paid =
        consume_overlay_value-Moves IndexResource.edges (w.edge_to_vec u) path b c
          (λ x. absurd (ground arith)) hc in
      subst (Moves b) (ok-injective h') (elim (Bool-cases c.1) [
        | inl q ↦ rw q (Moves-trans paid (insert_both-Moves s u c.0))
        | inr q ↦ rw q paid
      ])

  requeued-Moves :
      (e : GraphEdge) (b : OverlayBuilder)
      → Moves b (if refreshes e.kind then enqueue_path e.path b else b)
  requeued-Moves e b = elim (Bool-cases (refreshes e.kind)) [
    | inl q ↦ rw q (enqueue_path-Moves e.path b)
    | inr q ↦ rw q (Moves-self b)
  ]

  refresh_edge-Moves :
      (s : Bytes) (removed : Bool) (e : GraphEdge) (b b' : OverlayBuilder)
      → refresh_edge w candidate path s removed e b ≡ ok b'
      → Moves b b'
  unfolding refresh_edge
  refresh_edge-Moves s removed e b b' h =
      let c = if refreshes e.kind then enqueue_path e.path b else b in
      go_or (Moves b)
        (removed
          && not (contains e.path c.overlay.path_tombstones)
          && not (candidate_retargets_edge candidate e s))
        c (unresolve w path s e (suppress e c)) b' (requeued-Moves e b)
        (λ hr.
          Moves-trans (requeued-Moves e b)
            (Moves-trans (suppress-Moves e c) (unresolve-Moves s e (suppress e c) b' hr)))
        h

  refresh_edges-Moves :
      (s : Bytes) (removed : Bool) (es : List GraphEdge) (b b' : OverlayBuilder)
      → refresh_edges w candidate path s removed es b ≡ ok b'
      → Moves b b'
  unfolding refresh_edges
  refresh_edges-Moves s removed [] b b' h = subst (Moves b) (ok-injective h) (Moves-self b)
  refresh_edges-Moves s removed (e ∷ es) b b' h =
      let (c, hc, h') = >>=-eq-ok (refresh_edge w candidate path s removed e b) _ h in
      Moves-trans (refresh_edge-Moves s removed e b c hc) (refresh_edges-Moves s removed es c b' h')

  refresh_symbol-Moves :
      (s : GraphSymbol) (b b' : OverlayBuilder)
      → refresh_symbol w candidate path s b ≡ ok b'
      → Moves b b'
  unfolding refresh_symbol
  refresh_symbol-Moves s b b' h =
      let c = record b { queried_symbols = insert s.symbol_id b.queried_symbols } in
      stop_or (Moves b) (contains s.symbol_id b.queried_symbols) b _ b' (λ stop. Moves-self b)
        (λ hr.
          let (r, hq, h') = >>=-eq-ok (query w (w.incoming s.symbol_id) path c) _ hr in
          Moves-trans (Moves-filled b c refl refl refl refl refl refl) (
            Moves-trans (query-Moves w (w.incoming s.symbol_id) path c r hq) (
              refresh_edges-Moves s.symbol_id (not (is_some (get s.symbol_id b.overlay.symbols)))
                r.1 r.0 b' h')))
        h

  refresh_symbols-Moves :
      (ss : List GraphSymbol) (b b' : OverlayBuilder)
      → refresh_symbols w candidate path ss b ≡ ok b'
      → Moves b b'
  unfolding refresh_symbols
  refresh_symbols-Moves [] b b' h = subst (Moves b) (ok-injective h) (Moves-self b)
  refresh_symbols-Moves (s ∷ ss) b b' h =
      let (c, hc, h') = >>=-eq-ok (refresh_symbol w candidate path s b) _ h in
      Moves-trans (refresh_symbol-Moves s b c hc) (refresh_symbols-Moves ss c b' h')

  pub replace_path-Moves :
      (b b' : OverlayBuilder) → replace_path w candidate path b ≡ ok b' → Moves b b'
  unfolding replace_path
  replace_path-Moves b b' h =
      let (symbols, hs, h1) = >>=-eq-ok (query w (w.symbols_for_path path) path b) _ h in
      let (edges, he, h2) = >>=-eq-ok (query w (w.edges_for_path path) path symbols.0) _ h1 in
      let c = suppress_all edges.1 edges.0 in
      let (d, hd, h3) = >>=-eq-ok (insert_candidate_path w candidate path c) _ h2 in
      Moves-trans (query-Moves w (w.symbols_for_path path) path b symbols hs) (
        Moves-trans (query-Moves w (w.edges_for_path path) path symbols.0 edges he) (
          Moves-trans (suppress_all-Moves edges.1 edges.0) (
            Moves-trans (insert_candidate_path-Moves w candidate path c d hd)
              (refresh_symbols-Moves symbols.1 d b' h3))))
