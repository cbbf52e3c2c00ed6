-- ===== src/Graph/Overlay/Complete.antt =====
-- What `build_repository_overlay` of impact_context/index/overlay.rs promises of the overlay.
use pre_commit_review.Prelude.{
  Result, ap, sym, ◌∙◌, All, ℕ, suc, ◌+◌, ◌≤◌, ◌≡◌, ◌≢◌, refl, inl, subst, true, List, [], ◌∷◌,
  Option, none, some, ok, err, Bytes, arith, length,
}
use pre_commit_review.Prelude.Texts.{contains-All, TextSet, contains}
use pre_commit_review.Budget.Tracker.{recorded, limit_of}
use pre_commit_review.Budget.Index.{IndexResource, kind}
use pre_commit_review.Graph.Model.{
  Completeness, IndexLimitation, RepositoryOverlay, merge_completeness,
}
use pre_commit_review.Graph.Limitations.{canonicalize_limitations}
use pre_commit_review.Graph.Overlay.{
  OverlayWorld, RepositoryGraph, OverlayBuilder, IndexTracker, Outcome,
}
use pre_commit_review.Graph.Overlay.Build.{
  identified, demote, start, finish, finished, build, build_from, build_repository_overlay,
}
use pre_commit_review.Graph.Traversal.{World}
use pre_commit_review.Graph.Traversal.Run.{check_overlay}
use pre_commit_review.Graph.Traversal.Accepted.{check_overlay-Belongs}
use pre_commit_review.Graph.Overlay.Moves.{Complete}
use pre_commit_review.Graph.Overlay.Loop.{Built, build-Built, build_ends}

abbrev pub paths_limit : IndexTracker → ℕ
paths_limit t = limit_of kind t IndexResource.overlay_paths

abbrev pub paths_charged : IndexTracker → ℕ
paths_charged t = recorded kind t IndexResource.overlay_paths

-- What a built overlay is, against what it was built from.
record IsBuilt (w : OverlayWorld) (candidate : RepositoryGraph) (changed : TextSet)
    (budget t : IndexTracker) (o : RepositoryOverlay) : Type 0 where
  base : o.completeness ≡ Completeness.complete → w.completeness ≡ Completeness.complete
  whole : o.completeness ≡ Completeness.complete → candidate.completeness ≡ Completeness.complete
  unlimited : o.completeness ≡ Completeness.complete → o.limitations ≡ []
  covers :
      o.completeness ≡ Completeness.complete
      → (p : Bytes) → contains p changed ≡ true
      → contains p o.path_tombstones ≡ true
  key : w.generation_key ≡ ok o.base_generation_key
  counts : length o.path_tombstones + paths_charged budget ≤ paths_charged t
  within : paths_charged budget ≤ paths_limit budget → paths_charged t ≤ paths_limit budget

-- A complete overlay.
pub record IsWhole (w : OverlayWorld) (candidate_graph : RepositoryGraph) (changed : TextSet)
    (o : RepositoryOverlay) : Type 0 where
  pub base : w.completeness ≡ Completeness.complete
  pub candidate : candidate_graph.completeness ≡ Completeness.complete
  pub limitations : o.limitations ≡ []
  pub tombstones : All (λ p. contains p o.path_tombstones ≡ true) changed

demote-complete :
    (ls : List IndexLimitation) (c : Completeness)
    → demote ls c ≡ Completeness.complete
    → (ls ≡ []) × (c ≡ Completeness.complete)
demote-complete [] c h = (refl, h)
demote-complete (l ∷ ls) Completeness.complete h = absurd (ground arith)
demote-complete (l ∷ ls) Completeness.partial h = absurd (ground arith)
demote-complete (l ∷ ls) Completeness.unavailable h = absurd (ground arith)

merge_completeness-complete :
    (a b : Completeness)
    → merge_completeness a b ≡ Completeness.complete
    → (a ≡ Completeness.complete) × (b ≡ Completeness.complete)
unfolding merge_completeness
merge_completeness-complete Completeness.unavailable b h = absurd (ground arith)
merge_completeness-complete Completeness.partial Completeness.unavailable h = absurd (ground arith)
merge_completeness-complete Completeness.partial Completeness.partial h = absurd (ground arith)
merge_completeness-complete Completeness.partial Completeness.complete h = absurd (ground arith)
merge_completeness-complete Completeness.complete Completeness.unavailable h = absurd (ground arith)
merge_completeness-complete Completeness.complete Completeness.partial h = absurd (ground arith)
merge_completeness-complete Completeness.complete Completeness.complete h = (refl, refl)

identified-ok :
    (t : IndexTracker) (r : Result Bytes Bytes) (k : Bytes) → identified t r ≡ ok k → r ≡ ok k
identified-ok t (ok x) k h = ground arith
identified-ok t (err e) k h = absurd (ground arith)

module _ (w : OverlayWorld) (candidate : RepositoryGraph) (changed : TextSet)
    (budget : IndexTracker) where
  Built-IsBuilt :
      (key : Bytes) (b : OverlayBuilder)
      → w.generation_key ≡ ok key
      → Built (start w candidate changed budget key) b
      → IsBuilt w candidate changed budget b.budget (finish b.overlay)
  unfolding start finish
  Built-IsBuilt key b g bt =
      let ls = canonicalize_limitations b.overlay.limitations in
      let graphs : Complete b → _ =
        λ c. merge_completeness-complete w.completeness candidate.completeness (bt.before c) in
      record {
        base = λ h. (graphs (demote-complete ls b.overlay.completeness h).1).0;
        whole = λ h. (graphs (demote-complete ls b.overlay.completeness h).1).1;
        unlimited = λ h. (demote-complete ls b.overlay.completeness h).0;
        covers = λ h. bt.covers (demote-complete ls b.overlay.completeness h).1 (λ p x. inl x);
        key = g ∙ ap ok (sym bt.key);
        counts = omega (arith, bt.counts);
        within = bt.within;
      }

  finished-IsBuilt :
      (key : Bytes) (r : Option (Outcome OverlayBuilder)) (t : IndexTracker) (o : RepositoryOverlay)
      → w.generation_key ≡ ok key
      → ((b : OverlayBuilder) → r ≡ some (ok b) → Built (start w candidate changed budget key) b)
      → elim r [ none ↦ none | some x ↦ some (finished x) ] ≡ some (ok (t, o))
      → IsBuilt w candidate changed budget t o
  finished-IsBuilt key none t o g f h = absurd (ground arith)
  finished-IsBuilt key (some (err e)) t o g f h = absurd (ground arith)
  finished-IsBuilt key (some (ok b)) t o g f h =
      let e : ◌≡◌ {A = IndexTracker × RepositoryOverlay} (b.budget, finish b.overlay) (t, o) =
        ground arith in
      subst (λ x. IsBuilt w candidate changed budget x.0 x.1) e (Built-IsBuilt key b g (f b refl))

  finished_ends :
      (r : Option (Outcome OverlayBuilder))
      → r ≢ none
      → elim r [ none ↦ none | some x ↦ some (finished x) ] ≢ none
  finished_ends none f = λ h. f refl
  finished_ends (some x) f = λ h. ground arith

  build_from-IsBuilt :
      (key : Outcome Bytes) (t : IndexTracker) (o : RepositoryOverlay)
      → identified budget w.generation_key ≡ key
      → build_from w candidate changed budget key ≡ some (ok (t, o))
      → IsBuilt w candidate changed budget t o
  build_from-IsBuilt (err e) t o g = λ h. absurd (ground arith)
  build_from-IsBuilt (ok key) t o g =
      let b = start w candidate changed budget key in
      let n = suc (paths_limit budget) in
      finished-IsBuilt key (build n w candidate changed b) t o
        (identified-ok budget w.generation_key key g)
        (λ c h. build-Built w candidate changed n b c h)

  build_from_ends : (key : Outcome Bytes) → build_from w candidate changed budget key ≢ none
  unfolding start
  build_from_ends (err e) = λ h. ground arith
  build_from_ends (ok key) =
      let b = start w candidate changed budget key in
      finished_ends (build (suc (paths_limit budget)) w candidate changed b)
        (build_ends w candidate changed (paths_limit budget) b (omega arith))

  -- The loop over the queue ends before its fuel does, which is one more than the limit for overlay
  -- paths: the overlay is built or an error is returned, whatever the graph reader answers.
  pub overlay_ends : build_repository_overlay w candidate changed budget ≢ none
  unfolding build_repository_overlay
  overlay_ends = build_from_ends _

  overlay-IsBuilt :
      (t : IndexTracker) (o : RepositoryOverlay)
      → build_repository_overlay w candidate changed budget ≡ some (ok (t, o))
      → IsBuilt w candidate changed budget t o
  unfolding build_repository_overlay
  overlay-IsBuilt t o h = build_from-IsBuilt (identified budget w.generation_key) t o refl h

  -- An overlay that is built with the mark `complete` comes from a complete base graph and a complete
  -- candidate graph, has no limitation and has a tombstone for each changed path.
  pub overlay-IsWhole :
      (t : IndexTracker) (o : RepositoryOverlay)
      → build_repository_overlay w candidate changed budget ≡ some (ok (t, o))
      → o.completeness ≡ Completeness.complete
      → IsWhole w candidate changed o
  overlay-IsWhole t o h c =
      let v = overlay-IsBuilt t o h in
      record {
        base = v.base c;
        candidate = v.whole c;
        limitations = v.unlimited c;
        tombstones = contains-All (λ p. contains p o.path_tombstones ≡ true) changed (v.covers c);
      }

  -- If the charges for paths were within their limit before, an overlay that is built has been
  -- charged for each of its tombstones, and the charges stay within the limit.
  pub overlay_charged :
      (t : IndexTracker) (o : RepositoryOverlay)
      → build_repository_overlay w candidate changed budget ≡ some (ok (t, o))
      → paths_charged budget ≤ paths_limit budget
      → (length o.path_tombstones + paths_charged budget ≤ paths_charged t)
        × (paths_charged t ≤ paths_limit budget)
  overlay_charged t o h v = let u = overlay-IsBuilt t o h in (u.counts, u.within v)

  -- An overlay that is built belongs to the generation of the graph that it was built over, so a
  -- traversal of that generation accepts it.
  pub check_overlay-built :
      (reader : World) (t : IndexTracker) (o : RepositoryOverlay)
      → reader.generation_key ≡ w.generation_key
      → build_repository_overlay w candidate changed budget ≡ some (ok (t, o))
      → check_overlay reader (some o) ≡ ok tt
  check_overlay-built reader t o same h =
      check_overlay-Belongs reader o (same ∙ (overlay-IsBuilt t o h).key)
