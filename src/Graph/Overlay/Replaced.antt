-- ===== src/Graph/Overlay/Replaced.antt =====
-- What `process_path` of impact_context/index/overlay.rs does to the tombstones and the queue.
use pre_commit_review.Prelude.{
  ◌+◌, ◌≤◌, ◌≡◌, ◌⊎◌, inl, refl, sym, ap, ◌∙◌, subst, true, not, ◌&&◌, ok, Bytes, arith, length,
  stop_or,
}
use pre_commit_review.Prelude.Texts.{
  TextSet, contains, contains-insert, length-insert-le, text_eq_self,
}
use pre_commit_review.Budget.Index.{IndexResource, kind}
use pre_commit_review.Graph.Overlay.{OverlayWorld, RepositoryGraph, OverlayBuilder, mark_partial}
use pre_commit_review.Graph.Overlay.Insert.{candidate_has_path}
use pre_commit_review.Graph.Overlay.Refresh.{
  tombstone, refresh_unavailable, replace_path, process_path,
}
use pre_commit_review.Graph.Overlay.Moves.{Complete, charged, Moves}
use pre_commit_review.Graph.Overlay.Refreshed.{replace_path-Moves}
use pre_commit_review.Graph.Overlay.Rounds.{limit}

-- What the processing of a path does to the tombstones and the queue.
pub record Processed (path : Bytes) (b b' : OverlayBuilder) : Type 0 where
  pub limits : limit b' ≡ limit b
  pub charges : charged b' ≡ charged b
  pub key : b'.overlay.base_generation_key ≡ b.overlay.base_generation_key
  pub before : Complete b' → Complete b
  pub covers : Complete b' → contains path b'.overlay.path_tombstones ≡ true
  pub grows :
      (p : Bytes)
      → contains p b.overlay.path_tombstones ≡ true
      → contains p b'.overlay.path_tombstones ≡ true
  pub few : length b'.overlay.path_tombstones ≤ length b.overlay.path_tombstones + 1
  pub waits :
      (p : Bytes)
      → contains p b'.queued_paths ≡ true
      → (contains p b.queued_paths ≡ true) ⊎ (contains p b'.queue ≡ true)
  pub keeps : (p : Bytes) → contains p b.queue ≡ true → contains p b'.queue ≡ true
  pub known : (p : Bytes) → contains p b.queued_paths ≡ true → contains p b'.queued_paths ≡ true

skipped-Processed :
    (path : Bytes) (b : OverlayBuilder) → Processed path b (refresh_unavailable path b)
unfolding mark_partial
skipped-Processed path b = record {
  limits = refl;
  charges = refl;
  key = refl;
  before = λ h. absurd (ground arith);
  covers = λ h. absurd (ground arith);
  grows = λ p h. h;
  few = omega arith;
  waits = λ p h. inl h;
  keeps = λ p h. h;
  known = λ p h. h;
}

tombstone-Processed :
    (path : Bytes) (b b' : OverlayBuilder) → Moves (tombstone path b) b' → Processed path b b'
tombstone-Processed path b b' m = record {
  limits = ap (λ x. kind.limit x IndexResource.overlay_paths) m.limits;
  charges = m.charges;
  key = m.key;
  before = m.before;
  covers = λ h.
      ap (contains path) m.tombs
      ∙ ground (arith, contains-insert path path b.overlay.path_tombstones, text_eq_self path);
  grows = λ p h.
      ap (contains p) m.tombs ∙ ground (arith, contains-insert p path b.overlay.path_tombstones);
  few =
      subst (λ s. length s ≤ length b.overlay.path_tombstones + 1) (sym m.tombs)
        (length-insert-le path b.overlay.path_tombstones);
  waits = m.waits;
  keeps = m.keeps;
  known = m.known;
}

pub process_path-Processed :
    (w : OverlayWorld) (candidate : RepositoryGraph) (changed : TextSet) (path : Bytes)
    (b b' : OverlayBuilder)
    → process_path w candidate changed path b ≡ ok b'
    → Processed path b b'
unfolding process_path
process_path-Processed w candidate changed path b b' h =
    stop_or (Processed path b)
      (not (contains path changed) && not (candidate_has_path candidate path))
      (refresh_unavailable path b) (replace_path w candidate path (tombstone path b)) b'
      (λ stop. skipped-Processed path b)
      (λ hr.
        tombstone-Processed path b b'
          (replace_path-Moves w candidate path (tombstone path b) b' hr))
      h
