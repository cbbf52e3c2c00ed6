-- ===== src/Graph/Overlay/Insert.antt =====
-- `candidate_has_path`, `candidate_retargets_edge`, `insert_candidate_path` and
-- `unresolved_deleted_target_edge` of impact_context/index/overlay.rs.
use pre_commit_review.Prelude.{
  Bool, true, false, not, ◌&&◌, ◌||◌, List, [], ◌∷◌, ◌++◌, Option, none, some, ok, ◌>>=◌, Bytes,
  codes, ◌==◌, if◌then◌else◌,
}
use pre_commit_review.Prelude.Texts.{text_eq, put}
use pre_commit_review.Budget.Index.{IndexResource}
use pre_commit_review.Graph.Model.{
  CandidatePresence, Confidence, Resolution, GraphEdge, GraphSymbol, GraphModule, GraphFile,
  SourceRange, kind_eq,
}
use pre_commit_review.Graph.Overlay.{
  OverlayWorld, RepositoryGraph, OverlayBuilder, Outcome, consume_candidate, consume_overlay_value,
  insert_edge, hash_component,
}

-- `Iterator::any`.
abbrev pub any {ℓ} : {A : Type ℓ} → (A → Bool) → List A → Bool
any p [] = false
any p (x ∷ xs) = p x || any p xs

-- `Iterator::find`.
abbrev pub find {ℓ} : {A : Type ℓ} → (A → Bool) → List A → Option A
find p [] = none
find p (x ∷ xs) = let rest = find p xs in if p x then some x else rest

unfoldable pub candidate_has_path : RepositoryGraph → Bytes → Bool
unfolding text_eq
candidate_has_path candidate path =
    any (λ f. text_eq f.path path) candidate.files
    || any (λ m. text_eq m.path path) candidate.modules
    || any (λ s. text_eq s.path path) candidate.symbols
    || any (λ e. text_eq e.path path) candidate.edges

abbrev pub range_eq : SourceRange → SourceRange → Bool
range_eq a b =
    a.start_line == b.start_line
    && a.start_column == b.start_column
    && a.end_line == b.end_line
    && a.end_column == b.end_column
    && a.start_byte == b.start_byte
    && a.end_byte == b.end_byte

abbrev pub retargeted : Bytes → Option Bytes → Bool
retargeted removed none = false
retargeted removed (some target) = not (text_eq target removed)

unfoldable pub candidate_retargets_edge : RepositoryGraph → GraphEdge → Bytes → Bool
unfolding text_eq
candidate_retargets_edge candidate base removed =
    any
      (λ e.
        text_eq e.path base.path
        && kind_eq e.kind base.kind
        && range_eq e.range base.range
        && retargeted removed e.to_symbol)
      candidate.edges

unfoldable pub unresolved_deleted_target_edge : OverlayWorld → GraphEdge → Bytes → GraphEdge
unresolved_deleted_target_edge w base target = record {
  edge_id = w.sha256 (
      hash_component (codes "repository-overlay-deleted-target/v1")
      ++ hash_component base.edge_id
      ++ hash_component target);
  kind = base.kind;
  from_symbol = base.from_symbol;
  to_symbol = none;
  unresolved_target = some target;
  path = base.path;
  range = base.range;
  provider_id = codes "repository-overlay";
  provider_version = codes "repository-overlay/v1";
  resolution = Resolution.unresolved;
  confidence = Confidence.low;
  limitation_code = some (codes "repository-overlay-target-deleted");
}

-- What is charged for a value, and what is then done with it.
pub record Intake (A : Type 0) : Type 0 where
  pub belongs : A → Bool
  pub charge : A → OverlayBuilder → Outcome (OverlayBuilder × Bool)
  pub admit : A → OverlayBuilder → OverlayBuilder

-- The loops over the modules, symbols and edges of a path: each stops where a charge is refused.
unfoldable pub insert_all :
    {A : Type 0} → Intake A → List A → OverlayBuilder → Outcome OverlayBuilder
insert_all intake [] b = ok b
insert_all intake (x ∷ xs) b =
    let skip = insert_all intake xs b in
    if intake.belongs x
    then (intake.charge x b >>= λ c.
        if c.1 then insert_all intake xs (intake.admit x c.0) else ok c.0)
    else skip

abbrev pub put_file : Bytes → GraphFile → OverlayBuilder → OverlayBuilder
put_file path f b = record b { overlay = record b.overlay { files = put path f b.overlay.files } }

abbrev pub put_module : GraphModule → OverlayBuilder → OverlayBuilder
put_module m b = record b {
  overlay = record b.overlay { modules = put m.module_id m b.overlay.modules };
}

abbrev pub put_symbol : GraphSymbol → OverlayBuilder → OverlayBuilder
put_symbol s b = record b {
  overlay = record b.overlay { symbols = put s.symbol_id s b.overlay.symbols };
}

unfoldable pub charge_symbol :
    OverlayWorld → Bytes → GraphSymbol → OverlayBuilder → Outcome (OverlayBuilder × Bool)
unfolding consume_candidate consume_overlay_value
charge_symbol w path s b =
    let c = consume_candidate IndexResource.symbols 1 path b in
    if not c.1 then ok c else consume_overlay_value IndexResource.nodes (w.symbol_to_vec s) path c.0

abbrev pub modules_of : OverlayWorld → Bytes → Intake GraphModule
modules_of w path = record {
  belongs = λ m. text_eq m.path path;
  charge = λ m. consume_overlay_value IndexResource.nodes (w.module_to_vec m) path;
  admit = put_module;
}

abbrev pub symbols_of : OverlayWorld → Bytes → Intake GraphSymbol
symbols_of w path = record {
  belongs = λ s. text_eq s.path path;
  charge = charge_symbol w path;
  admit = put_symbol;
}

abbrev pub edges_of : OverlayWorld → Bytes → Intake GraphEdge
edges_of w path = record {
  belongs = λ e. text_eq e.path path;
  charge = λ e. consume_overlay_value IndexResource.edges (w.edge_to_vec e) path;
  admit = insert_edge;
}

abbrev pub is_present : CandidatePresence → Bool
is_present CandidatePresence.present = true
is_present CandidatePresence.deleted = false
is_present CandidatePresence.gitlink = false

-- The three loops behind the file.
unfoldable pub insert_contents :
    OverlayWorld → RepositoryGraph → Bytes → OverlayBuilder → Outcome OverlayBuilder
unfolding insert_all charge_symbol consume_overlay_value insert_edge text_eq put
insert_contents w candidate path b =
    insert_all (modules_of w path) candidate.modules b
    >>= insert_all (symbols_of w path) candidate.symbols
    >>= insert_all (edges_of w path) candidate.edges

abbrev pub insert_file :
    OverlayWorld
    → RepositoryGraph
    → Bytes
    → OverlayBuilder
    → Option GraphFile
    → Outcome OverlayBuilder
insert_file w candidate path b none = insert_contents w candidate path b
insert_file w candidate path b (some f) =
    consume_overlay_value IndexResource.nodes (w.file_to_vec f) path b >>= λ c.
    if c.1 then insert_contents w candidate path (put_file path f c.0) else ok c.0

unfoldable pub insert_candidate_path :
    OverlayWorld → RepositoryGraph → Bytes → OverlayBuilder → Outcome OverlayBuilder
unfolding text_eq insert_contents consume_overlay_value put
insert_candidate_path w candidate path b =
    insert_file w candidate path b
      (find (λ f. text_eq f.path path && is_present f.presence) candidate.files)
