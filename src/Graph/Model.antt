-- ===== src/Graph/Model.antt =====
-- The graph types of impact_context/contracts.rs and impact_context/index/model.rs, with what
-- index/traversal.rs and index/overlay.rs do to them. A string is the bytes of its UTF-8.
use pre_commit_review.Prelude.{ℕ, Bool, List, Option, Bytes, ◌==◌}
use pre_commit_review.Prelude.Texts.{TextMap, TextSet}

pub data EdgeKind : Type 0 where
  defines references imports exports calls implements overrides : EdgeKind

pub data Resolution : Type 0 where
  syntactic lexical resolved_reference semantic polymorphic_candidate unresolved : Resolution

pub data Confidence : Type 0 where
  high medium low : Confidence

pub data Completeness : Type 0 where
  complete partial unavailable : Completeness

pub record SourceRange : Type 0 where
  pub start_line : ℕ
  pub start_column : ℕ
  pub end_line : ℕ
  pub end_column : ℕ
  pub start_byte : ℕ
  pub end_byte : ℕ

pub record GraphEdge : Type 0 where
  pub edge_id : Bytes
  pub kind : EdgeKind
  pub from_symbol : Bytes
  pub to_symbol : Option Bytes
  pub unresolved_target : Option Bytes
  pub path : Bytes
  pub range : SourceRange
  pub provider_id : Bytes
  pub provider_version : Bytes
  pub resolution : Resolution
  pub confidence : Confidence
  pub limitation_code : Option Bytes

pub record GraphSymbol : Type 0 where
  pub symbol_id : Bytes
  pub local_id : Bytes
  pub module_id : Bytes
  pub path : Bytes
  pub language : Bytes
  pub kind : Bytes
  pub name : Bytes
  pub owner_symbol_id : Option Bytes
  pub signature : Option Bytes
  pub visibility : Option Bytes
  pub range : SourceRange
  pub confidence : Confidence

pub record GraphModule : Type 0 where
  pub module_id : Bytes
  pub parent_module_id : Option Bytes
  pub crate_name : Bytes
  pub path : Bytes
  pub inline : Bool
  pub root_module : Bool
  pub resolution_status : Bytes

pub data CandidatePresence : Type 0 where
  present deleted gitlink : CandidatePresence

pub record FileFactKey : Type 0 where
  pub language : Bytes
  pub content_sha256 : Bytes
  pub grammar_version : Bytes
  pub query_digest : Bytes
  pub adapter_version : Bytes
  pub normalization_rules_digest : Bytes
  pub schema_version : ℕ

pub record GraphFile : Type 0 where
  pub path : Bytes
  pub mode : Bytes
  pub presence : CandidatePresence
  pub content_sha256 : Option Bytes
  pub file_fact_key : Option FileFactKey
  pub language : Option Bytes
  pub module_id : Option Bytes

pub record IndexLimitation : Type 0 where
  pub code : Bytes
  pub path : Option Bytes
  pub symbol_id : Option Bytes
  pub reason : Bytes
  pub interpretation : Bytes

pub record RepositoryOverlay : Type 0 where
  pub base_generation_key : Bytes
  pub candidate_manifest_digest : Bytes
  pub path_tombstones : TextSet
  pub files : TextMap GraphFile
  pub modules : TextMap GraphModule
  pub symbols : TextMap GraphSymbol
  pub outgoing_edges : TextMap (List GraphEdge)
  pub incoming_edges : TextMap (List GraphEdge)
  pub suppressed_base_edge_ids : TextSet
  pub completeness : Completeness
  pub limitations : List IndexLimitation

-- The place of a kind in its enumeration, by which it is ordered.
abbrev pub kind_rank : EdgeKind → ℕ
kind_rank EdgeKind.defines = 0
kind_rank EdgeKind.references = 1
kind_rank EdgeKind.imports = 2
kind_rank EdgeKind.exports = 3
kind_rank EdgeKind.calls = 4
kind_rank EdgeKind.implements = 5
kind_rank EdgeKind.overrides = 6

abbrev pub kind_eq : EdgeKind → EdgeKind → Bool
kind_eq a b = kind_rank a == kind_rank b

abbrev pub confidence_rank : Confidence → ℕ
confidence_rank Confidence.high = 3
confidence_rank Confidence.medium = 2
confidence_rank Confidence.low = 1

unfoldable pub merge_completeness : Completeness → Completeness → Completeness
merge_completeness Completeness.unavailable r = Completeness.unavailable
merge_completeness Completeness.partial Completeness.unavailable = Completeness.unavailable
merge_completeness Completeness.complete Completeness.unavailable = Completeness.unavailable
merge_completeness Completeness.partial Completeness.partial = Completeness.partial
merge_completeness Completeness.partial Completeness.complete = Completeness.partial
merge_completeness Completeness.complete Completeness.partial = Completeness.partial
merge_completeness Completeness.complete Completeness.complete = Completeness.complete
