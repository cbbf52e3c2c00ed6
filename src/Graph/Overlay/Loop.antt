-- ===== src/Graph/Overlay/Loop.antt =====
-- The loop of impact_context/index/overlay.rs: it ends, and what it has done then.
use pre_commit_review.Prelude.{
  ℕ, zero, suc, ◌+◌, ◌≤◌, ◌<◌, ◌≡◌, ◌≢◌, ◌⊎◌, inl, inr, refl, sym, ap, ◌∙◌, subst, true, List, [],
  ◌∷◌, Option, none, some, ok, err, Bytes, arith, Bool-cases, length,
}
use pre_commit_review.Prelude.Texts.{TextSet, contains, text_eq, text_eq→eq}
use pre_commit_review.Graph.Overlay.{OverlayWorld, RepositoryGraph, OverlayBuilder, Outcome}
use pre_commit_review.Graph.Overlay.Refresh.{process_path}
use pre_commit_review.Graph.Overlay.Build.{start_path, next_round, build_round, build}
use pre_commit_review.Graph.Overlay.Moves.{Complete, charged}
use pre_commit_review.Graph.Overlay.Replaced.{Processed, process_path-Processed}
use pre_commit_review.Graph.Overlay.Rounds.{limit, Started, Stopped, start_path-Charged}

-- What is known waits in the queue or has a tombstone.
abbrev pub Covered : OverlayBuilder → Type 0
Covered b =
    (p : Bytes)
    → contains p b.queued_paths ≡ true
    → (contains p b.queue ≡ true) ⊎ (contains p b.overlay.path_tombstones ≡ true)

-- What the loop has done when it ends. If it is complete, all that was known has a tombstone.
pub record Built (b b' : OverlayBuilder) : Type 0 where
  pub before : Complete b' → Complete b
  pub key : b'.overlay.base_generation_key ≡ b.overlay.base_generation_key
  pub covers :
      Complete b'
      → Covered b
      → (p : Bytes) → contains p b.queued_paths ≡ true
      → contains p b'.overlay.path_tombstones ≡ true
  pub counts :
      length b'.overlay.path_tombstones + charged b ≤ charged b' + length b.overlay.path_tombstones
  pub within : charged b ≤ limit b → charged b' ≤ limit b

round_ended :
    {P : Type 0} {continue : OverlayBuilder → Option (Outcome OverlayBuilder)} {b' : OverlayBuilder}
    (r : Outcome OverlayBuilder)
    → ((d : OverlayBuilder) → r ≡ ok d → continue d ≡ some (ok b') → P)
    → next_round continue r ≡ some (ok b')
    → P
round_ended (ok d) f h = f d refl h
round_ended (err e) f h = absurd (ground arith)

round_ends :
    {continue : OverlayBuilder → Option (Outcome OverlayBuilder)} (r : Outcome OverlayBuilder)
    → ((d : OverlayBuilder) → r ≡ ok d → continue d ≢ none)
    → next_round continue r ≢ none
round_ends (ok d) f h = f d refl h
round_ends (err e) f h = ground arith

module _ (w : OverlayWorld) (candidate : RepositoryGraph) (changed : TextSet) where
  -- The empty queue.
  empty-Built : (b : OverlayBuilder) → b.queue ≡ [] → Built b b
  unfolding contains
  empty-Built b q = record {
    before = λ h. h;
    key = refl;
    covers =
        λ c v p h. elim (v p h) [ inl x ↦ absurd (ground (arith, ap (contains p) q)) | inr x ↦ x ];
    counts = omega arith;
    within = λ h. h;
  }

  Stopped-Built : (b c : OverlayBuilder) → Stopped b c → Built b c
  Stopped-Built b c s = record {
    before = λ h. absurd (s.cut h);
    key = s.key;
    covers = λ h. absurd (s.cut h);
    counts = omega (arith, s.charges, ap length s.tombs);
    within = λ h. omega (arith, s.charges, h);
  }

  round-Covered :
      (path : Bytes) (rest : List Bytes) (b c d : OverlayBuilder)
      → b.queue ≡ path ∷ rest
      → Started rest b c
      → Processed path c d
      → Complete d
      → Covered b
      → Covered d
  unfolding contains
  round-Covered path rest b c d q st pr h v p k = elim (pr.waits p k) [
    | inr x ↦ inl x
    | inl x ↦ elim (v p (ap (contains p) (sym st.queued) ∙ x)) [
      | inr y ↦ inr (pr.grows p (ap (λ o. contains p o.path_tombstones) st.overlay ∙ y))
      | inl y ↦ elim (Bool-cases (text_eq p path)) [
        | inl e ↦ inr (
            subst (λ x. contains x d.overlay.path_tombstones ≡ true) (sym (text_eq→eq p path e))
              (pr.covers h))
        | inr e ↦ inl (pr.keeps p (ap (contains p) st.queue ∙ ground (arith, ap (contains p) q)))
      ]
    ]
  ]

  round-Built :
      (path : Bytes) (rest : List Bytes) (b c d b' : OverlayBuilder)
      → b.queue ≡ path ∷ rest
      → Started rest b c
      → Processed path c d
      → Built d b'
      → Built b b'
  round-Built path rest b c d b' q st pr bt = record {
    before = λ h. ap (λ o. o.completeness) (sym st.overlay) ∙ pr.before (bt.before h);
    key = bt.key ∙ pr.key ∙ ap (λ o. o.base_generation_key) st.overlay;
    covers = λ h v p k.
        bt.covers h (round-Covered path rest b c d q st pr (bt.before h) v) p
          (pr.known p (ap (contains p) st.queued ∙ k));
    counts = omega (
      arith,
      bt.counts,
      pr.few,
      pr.charges,
      st.charges,
      ap (λ o. length o.path_tombstones) st.overlay,
    );
    within = λ h.
        omega (
          arith,
          bt.within (omega (arith, pr.charges, pr.limits, st.within)),
          pr.limits,
          st.limits,
        );
  }

  build_round-Built :
      (continue : OverlayBuilder → Option (Outcome OverlayBuilder)) (b b' : OverlayBuilder)
      (queue : List Bytes)
      → b.queue ≡ queue
      → ((d : OverlayBuilder) → continue d ≡ some (ok b') → Built d b')
      → build_round w candidate changed continue b queue ≡ some (ok b')
      → Built b b'
  build_round-Built continue b b' [] q f = λ h. subst (Built b) (ground arith) (empty-Built b q)
  build_round-Built continue b b' (path ∷ rest) q f =
      let c = start_path w path rest b in
      elim (start_path-Charged w path rest b) [
        | inr (e, s) ↦ rw e (λ h. subst (Built b) (ground arith) (Stopped-Built b c.0 s))
        | inl (e, s) ↦ rw e (
            round_ended (process_path w candidate changed path c.0) (λ d hp hd.
              round-Built path rest b c.0 d b' q s
                (process_path-Processed w candidate changed path c.0 d hp) (f d hd)))
      ]

  pub build-Built :
      (n : ℕ) (b b' : OverlayBuilder) → build n w candidate changed b ≡ some (ok b') → Built b b'
  unfolding build
  build-Built zero b b' h = absurd (ground arith)
  build-Built (suc n) b b' h =
      build_round-Built (build n w candidate changed) b b' b.queue refl (λ d. build-Built n d b') h

  build_round_ends :
      (continue : OverlayBuilder → Option (Outcome OverlayBuilder)) (b : OverlayBuilder)
      (queue : List Bytes)
      → ((d : OverlayBuilder)
          → (limit d ≡ limit b) × (charged d ≤ limit d)
          → charged d ≡ charged b + 1
          → continue d ≢ none)
      → build_round w candidate changed continue b queue ≢ none
  build_round_ends continue b [] f = λ h. ground arith
  build_round_ends continue b (path ∷ rest) f =
      let c = start_path w path rest b in
      elim (start_path-Charged w path rest b) [
        | inr (e, s) ↦ rw e (λ h. ground arith)
        | inl (e, s) ↦ rw e (
            round_ends (process_path w candidate changed path c.0) (λ d hp.
              let pr = process_path-Processed w candidate changed path c.0 d hp in
              f d (pr.limits ∙ s.limits, omega (arith, pr.charges, pr.limits, s.within))
                (pr.charges ∙ s.charges)))
      ]

  -- Each round consumes a path of the budget, so the fuel of one more than the limit is enough.
  pub build_ends :
      (n : ℕ) (b : OverlayBuilder)
      → limit b < suc n + charged b
      → build (suc n) w candidate changed b ≢ none
  unfolding build
  build_ends zero b lt =
      build_round_ends (build zero w candidate changed) b b.queue
        (λ d l c. absurd (omega (arith, lt, l, c)))
  build_ends (suc n) b lt =
      build_round_ends (build (suc n) w candidate changed) b b.queue
        (λ d l c. build_ends n d (omega (arith, lt, l, c)))
