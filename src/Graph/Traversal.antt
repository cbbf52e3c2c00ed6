-- ===== src/Graph/Traversal.antt =====
-- `TraversalBuilder` of impact_context/index/traversal.rs: its state and what one lookup does. The
-- graph reader over SQLite, `serde_json::to_vec` and the clock are the record `World`.
pub mod Lookup
pub mod Output
pub mod Search
pub mod Run
pub mod Accepted
pub mod Bounds
pub mod Bounded
pub mod Budgets
pub mod Edges
pub mod Levels
pub mod Closed
pub mod Steps
pub mod Sweeps
pub mod Reachable
pub mod Seeds
pub mod Complete
mod Examples
use pre_commit_review.Prelude.{
  ℕ, ◌+◌, ◌-◌, Bool, true, false, not, ◌&&◌, ◌||◌, List, [], ◌∷◌, ◌++◌, Option, none, some, Result,
  ok, err, ◌>>=◌, Bytes, codes, String, ltb, leb, ◌==◌, if◌then◌else◌, length, unwrap_or, usize_max,
  min, max,
}
use pre_commit_review.Prelude.Texts.{
  text_eq, text_le, TextSet, contains, insert, TextMap, get, put, values,
}
use pre_commit_review.Graph.Model.{
  EdgeKind, Completeness, GraphEdge, IndexLimitation, RepositoryOverlay, kind_eq, confidence_rank,
}

pub data TraversalDirection : Type 0 where
  incoming outgoing : TraversalDirection

pub record TraversalRequest : Type 0 where
  pub roots : List Bytes
  pub directions : List TraversalDirection
  pub edge_kinds : List EdgeKind
  pub maximum_depth : ℕ
  pub maximum_rows : ℕ
  pub maximum_nodes : ℕ
  pub maximum_edges : ℕ
  pub maximum_bytes : ℕ
  pub deadline : ℕ

pub record TraversalError : Type 0 where
  pub code : Bytes
  pub message : Bytes

abbrev pub traversal_error : String → String → TraversalError
traversal_error code message = record { code = codes code; message = codes message }

-- What the traversal calls: `RepositoryGraphReader`, whose queries take a direction, a symbol and a
-- limit, the serialisation of an edge, and the time since the start at each reading of the clock.
pub record World : Type 0 where
  pub completeness : Completeness
  pub maximum_rows_per_query : ℕ
  pub generation_key : Result Bytes Bytes
  pub query : TraversalDirection → Bytes → ℕ → Result (List GraphEdge) TraversalError
  pub to_vec : GraphEdge → Result Bytes Bytes
  pub elapsed : ℕ → ℕ

abbrev pub direction_rank : TraversalDirection → ℕ
direction_rank TraversalDirection.incoming = 0
direction_rank TraversalDirection.outgoing = 1

abbrev pub Lookups : Type 0
Lookups = TraversalDirection → Bytes → EdgeKind → Bool

-- `visited_lookups` is a set that is only asked for members, `clock` the number of readings so far.
pub record TraversalBuilder : Type 0 where
  pub output_edges : TextMap GraphEdge
  pub output_bytes : ℕ
  pub seen_nodes : TextSet
  pub visited_lookups : Lookups
  pub rows_read : ℕ
  pub reached_depth : ℕ
  pub query_completeness : Completeness
  pub output_truncated : Bool
  pub query_halted : Bool
  pub limitations : List IndexLimitation
  pub clock : ℕ

abbrev pub limitation : String → Option Bytes → String → String → IndexLimitation
limitation code symbol_id reason interpretation = record {
  code = codes code;
  path = none;
  symbol_id = symbol_id;
  reason = codes reason;
  interpretation = codes interpretation;
}

unfoldable pub mark_query_partial :
    String → Option Bytes → String → String → TraversalBuilder → TraversalBuilder
mark_query_partial code symbol_id reason interpretation b = record b {
  query_completeness = Completeness.partial;
  limitations = b.limitations ++ limitation code symbol_id reason interpretation ∷ [];
}

unfoldable pub mark_output_truncated :
    String → Option Bytes → String → String → TraversalBuilder → TraversalBuilder
mark_output_truncated code symbol_id reason interpretation b = record b {
  output_truncated = true;
  limitations = b.limitations ++ limitation code symbol_id reason interpretation ∷ [];
}

abbrev pub halt : TraversalBuilder → TraversalBuilder
halt b = record b { query_halted = true }

-- `edge_kinds.contains`.
abbrev pub has_kind : EdgeKind → List EdgeKind → Bool
has_kind k [] = false
has_kind k (j ∷ js) = kind_eq k j || has_kind k js

-- The kinds that have not been looked up.
unfoldable pub unvisited_kinds :
    Lookups → TraversalDirection → Bytes → List EdgeKind → List EdgeKind
unvisited_kinds v d s [] = []
unvisited_kinds v d s (k ∷ ks) =
    let rest = unvisited_kinds v d s ks in if v d s k then rest else k ∷ rest

unfoldable pub add_lookups : Lookups → TraversalDirection → Bytes → List EdgeKind → Lookups
add_lookups v d s ks d' s' k' =
    (direction_rank d == direction_rank d' && text_eq s s' && has_kind k' ks) || v d' s' k'

abbrev overlay_edges : RepositoryOverlay → TraversalDirection → TextMap (List GraphEdge)
overlay_edges o TraversalDirection.incoming = o.incoming_edges
overlay_edges o TraversalDirection.outgoing = o.outgoing_edges

-- The relationships of a symbol in the overlay.
unfoldable pub overlay_rows : Option RepositoryOverlay → TraversalDirection → Bytes → List GraphEdge
unfolding get
overlay_rows none d s = []
overlay_rows (some o) d s = unwrap_or [] (get s (overlay_edges o d))

unfoldable pub id_set : List GraphEdge → TextSet → TextSet
unfolding insert
id_set [] ids = ids
id_set (e ∷ es) ids = id_set es (insert e.edge_id ids)

unfoldable pub id_sets : List (List GraphEdge) → TextSet → TextSet
unfolding id_set
id_sets [] ids = ids
id_sets (es ∷ ess) ids = id_sets ess (id_set es ids)

unfoldable pub overlay_edge_ids : Option RepositoryOverlay → TextSet
unfolding id_sets values
overlay_edge_ids none = []
overlay_edge_ids (some o) = id_sets (values o.incoming_edges) (id_sets (values o.outgoing_edges) [])

unfoldable pub base_edge_is_suppressed : Option RepositoryOverlay → GraphEdge → Bool
unfolding contains overlay_edge_ids
base_edge_is_suppressed none e = false
base_edge_is_suppressed (some o) e =
    contains e.edge_id o.suppressed_base_edge_ids
    || contains e.path o.path_tombstones
    || contains e.edge_id (overlay_edge_ids (some o))

abbrev tombstoned : RepositoryOverlay → Option Bytes → Bool
tombstoned o none = false
tombstoned o (some path) = contains path o.path_tombstones

abbrev replaced_path : RepositoryOverlay → Bytes → Option Bytes
replaced_path o s = elim (get s o.symbols) [
  | none ↦ none
  | some replacement ↦ some replacement.path
]

unfoldable pub base_lookup_is_fully_replaced :
    Option RepositoryOverlay → TraversalDirection → Bytes → Bool
unfolding contains get
base_lookup_is_fully_replaced o TraversalDirection.incoming s = false
base_lookup_is_fully_replaced none TraversalDirection.outgoing s = false
base_lookup_is_fully_replaced (some o) TraversalDirection.outgoing s =
    tombstoned o (replaced_path o s)

unfoldable pub neighbor : TraversalDirection → GraphEdge → Option Bytes
neighbor TraversalDirection.incoming e = some e.from_symbol
neighbor TraversalDirection.outgoing e = e.to_symbol

unfoldable pub initial : Option RepositoryOverlay → TraversalBuilder
initial o = record {
  output_edges = [];
  output_bytes = 0;
  seen_nodes = [];
  visited_lookups = λ d s k. false;
  rows_read = 0;
  reached_depth = 0;
  query_completeness = Completeness.complete;
  output_truncated = false;
  query_halted = false;
  limitations = elim o [ none ↦ [] | some overlay ↦ overlay.limitations ];
  clock = 0;
}
