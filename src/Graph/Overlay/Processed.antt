-- ===== src/Graph/Overlay/Processed.antt =====
-- What the processing of a path by impact_context/index/overlay.rs leaves alone.
use pre_commit_review.Prelude.{
  go_or, ◌≡◌, inl, inr, refl, subst, Bool, ◌&&◌, List, [], ◌∷◌, Option, none, some, ok, ◌>>=◌,
  >>=-eq-ok, ok-injective, Bytes, arith, Bool-cases,
}
use pre_commit_review.Prelude.Texts.{text_eq}
use pre_commit_review.Budget.Index.{IndexResource}
use pre_commit_review.Graph.Model.{GraphSymbol, GraphFile}
use pre_commit_review.Graph.Overlay.{
  OverlayWorld, RepositoryGraph, OverlayBuilder, consume_candidate, consume_overlay_value,
}
use pre_commit_review.Graph.Overlay.Insert.{
  Intake, insert_all, charge_symbol, modules_of, symbols_of, edges_of, insert_contents, insert_file,
  insert_candidate_path, put_file, put_module, put_symbol, find, is_present,
}
use pre_commit_review.Graph.Overlay.Moves.{
  Moves, Moves-filled, Moves-self, Moves-trans, consume_candidate-Moves,
  consume_overlay_value-Moves, insert_edge-Moves,
}

-- An intake that moves.
record Steady {A : Type 0} (intake : Intake A) : Type 0 where
  charges :
      (x : A) (b : OverlayBuilder) (c : OverlayBuilder × Bool)
      → intake.charge x b ≡ ok c
      → Moves b c.0
  admits : (x : A) (b : OverlayBuilder) → Moves b (intake.admit x b)

insert_all-Moves :
    {A : Type 0} (intake : Intake A) (xs : List A) (b b' : OverlayBuilder)
    → Steady intake
    → insert_all intake xs b ≡ ok b'
    → Moves b b'
unfolding insert_all
insert_all-Moves intake [] b b' st = λ h. subst (Moves b) (ok-injective h) (Moves-self b)
insert_all-Moves intake (x ∷ xs) b b' st = elim (Bool-cases (intake.belongs x)) [
  | inr q ↦ rw q (λ h. insert_all-Moves intake xs b b' st h)
  | inl q ↦ rw q (λ h.
      let (c, hc, h') = >>=-eq-ok (intake.charge x b) _ h in
      let paid = st.charges x b c hc in
      go_or (Moves b) c.1 c.0 (insert_all intake xs (intake.admit x c.0)) b' paid
        (λ hr. Moves-trans paid (
          Moves-trans (st.admits x c.0) (insert_all-Moves intake xs (intake.admit x c.0) b' st hr)))
        h')
]

charge_symbol-Moves :
    (w : OverlayWorld) (path : Bytes) (s : GraphSymbol) (b : OverlayBuilder)
    (c : OverlayBuilder × Bool)
    → charge_symbol w path s b ≡ ok c
    → Moves b c.0
unfolding charge_symbol
charge_symbol-Moves w path s b c =
    let first = consume_candidate IndexResource.symbols 1 path b in
    let paid =
      consume_candidate-Moves IndexResource.symbols 1 path b (λ e. absurd (ground arith)) in
    elim (Bool-cases first.1) [
      | inr q ↦ rw q (λ h. subst (λ x. Moves b x.0) (ok-injective h) paid)
      | inl q ↦ rw q (λ h. Moves-trans paid (
          consume_overlay_value-Moves IndexResource.nodes (w.symbol_to_vec s) path first.0 c
            (λ e. absurd (ground arith)) h))
    ]

module _ (w : OverlayWorld) (candidate : RepositoryGraph) (path : Bytes) where
  modules_of-Steady : Steady (modules_of w path)
  modules_of-Steady = record {
    charges = λ m b c h.
        consume_overlay_value-Moves IndexResource.nodes (w.module_to_vec m) path b c
          (λ e. absurd (ground arith)) h;
    admits = λ m b. Moves-filled b (put_module m b) refl refl refl refl refl refl;
  }

  symbols_of-Steady : Steady (symbols_of w path)
  symbols_of-Steady = record {
    charges = charge_symbol-Moves w path;
    admits = λ s b. Moves-filled b (put_symbol s b) refl refl refl refl refl refl;
  }

  edges_of-Steady : Steady (edges_of w path)
  edges_of-Steady = record {
    charges = λ x b c h.
        consume_overlay_value-Moves IndexResource.edges (w.edge_to_vec x) path b c
          (λ e. absurd (ground arith)) h;
    admits = insert_edge-Moves;
  }

  insert_contents-Moves :
      (b b' : OverlayBuilder) → insert_contents w candidate path b ≡ ok b' → Moves b b'
  unfolding insert_contents
  insert_contents-Moves b b' h =
      let (d, hd, h2) =
        >>=-eq-ok
          (insert_all (modules_of w path) candidate.modules b
            >>= insert_all (symbols_of w path) candidate.symbols)
          _ h in
      let (c, hc, h1) = >>=-eq-ok (insert_all (modules_of w path) candidate.modules b) _ hd in
      Moves-trans
        (Moves-trans
          (insert_all-Moves (modules_of w path) candidate.modules b c modules_of-Steady hc)
          (insert_all-Moves (symbols_of w path) candidate.symbols c d symbols_of-Steady h1))
        (insert_all-Moves (edges_of w path) candidate.edges d b' edges_of-Steady h2)

  insert_file-Moves :
      (b b' : OverlayBuilder) (f : Option GraphFile)
      → insert_file w candidate path b f ≡ ok b'
      → Moves b b'
  insert_file-Moves b b' none h = insert_contents-Moves b b' h
  insert_file-Moves b b' (some f) h =
      let (c, hc, h') =
        >>=-eq-ok (consume_overlay_value IndexResource.nodes (w.file_to_vec f) path b) _ h in
      let paid =
        consume_overlay_value-Moves IndexResource.nodes (w.file_to_vec f) path b c
          (λ e. absurd (ground arith)) hc in
      go_or (Moves b) c.1 c.0 (insert_contents w candidate path (put_file path f c.0)) b' paid
        (λ hr. Moves-trans paid (
          Moves-trans (Moves-filled c.0 (put_file path f c.0) refl refl refl refl refl refl)
            (insert_contents-Moves (put_file path f c.0) b' hr)))
        h'

  pub insert_candidate_path-Moves :
      (b b' : OverlayBuilder) → insert_candidate_path w candidate path b ≡ ok b' → Moves b b'
  unfolding insert_candidate_path
  insert_candidate_path-Moves b b' =
      insert_file-Moves b b'
        (find (λ f. text_eq f.path path && is_present f.presence) candidate.files)
