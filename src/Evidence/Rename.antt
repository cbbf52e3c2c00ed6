-- ===== src/Evidence/Rename.antt =====
-- The renaming loops of `union_evidence` in static_analysis/evidence_union.rs. A loop that fails
-- keeps what it wrote before: each returns the rewritten data beside its answer. A `HashMap` is the
-- list of its entries. `hex_digest` is the SHA-256 of the bytes in its 64 lower hexadecimal digits.
use pre_commit_review.Prelude.{
  Bool, false, ◌||◌, List, [], ◌∷◌, ◌++◌, Option, none, some, Result, ok, err, Bytes, codes, String,
  if◌then◌else◌, take, is_some,
}
use pre_commit_review.Prelude.Texts.{text_eq}
use pre_commit_review.Evidence.Contracts.{EvidenceReport, EvidenceFinding}

pub record OrchestrationError : Type 0 where
  pub message : String

abbrev pub error : String → OrchestrationError
error message = record { message = message }

abbrev pub IdMap : Type 0
IdMap = List (Bytes × Bytes)

-- `HashMap::get`.
unfoldable pub get : IdMap → Bytes → Option Bytes
unfolding text_eq
get [] id = none
get ((k, v) ∷ ids) id = let rest = get ids id in if text_eq k id then some v else rest

abbrev cons_ok :
    Bytes → Result (List Bytes) OrchestrationError → Result (List Bytes) OrchestrationError
cons_ok id (ok ids) = ok (id ∷ ids)
cons_ok id (err e) = err e

abbrev pub and_link :
    Option Bytes
    → OrchestrationError
    → Result (List Bytes) OrchestrationError
    → Result (List Bytes) OrchestrationError
and_link none e rest = err e
and_link (some id) e rest = cons_ok id rest

-- The links through `report_ids.get(..)`, collected up to the first that is missing.
unfoldable pub map_links :
    IdMap → OrchestrationError → List Bytes → Result (List Bytes) OrchestrationError
unfolding get
map_links ids e [] = ok []
map_links ids e (l ∷ ls) = and_link (get ids l) e (map_links ids e ls)

-- `HashSet::contains`.
unfoldable pub has : Bytes → List Bytes → Bool
unfolding text_eq
has id [] = false
has id (k ∷ ks) = text_eq k id || has id ks

abbrev pub RenamedReports : Type 0
RenamedReports = List EvidenceReport × Result IdMap OrchestrationError

abbrev pub RenamedFindings : Type 0
RenamedFindings = List EvidenceFinding × Result (Unit {0}) OrchestrationError

abbrev pub finding_link_error : OrchestrationError
finding_link_error = error "finding report link is missing from its source evidence"

-- The links of a finding that has its new id are written, or the loop fails.
abbrev pub relink :
    EvidenceFinding
    → List EvidenceFinding
    → RenamedFindings
    → Result (List Bytes) OrchestrationError
    → RenamedFindings
relink f fs rest (ok links) = (record f { report_ids = links } ∷ rest.0, rest.1)
relink f fs rest (err e) = (f ∷ fs, err e)

module _ (hex_digest : Bytes → Bytes) where
  unfoldable pub compact_hash : String → Bytes → Bytes → Bytes
  compact_hash label execution_id source_id =
      take 16 (hex_digest (codes label ++ 0 ∷ execution_id ++ 0 ∷ source_id ++ 0 ∷ []))

  abbrev report_hash : Bytes → EvidenceReport → Bytes
  report_hash execution_id r = compact_hash "orchestration-report-v1" execution_id r.report_id

  -- The loop over `run.evidence.reports`.
  unfoldable pub rename_reports : Bytes → IdMap → List EvidenceReport → RenamedReports
  unfolding get compact_hash
  rename_reports execution_id ids [] = ([], ok ids)
  rename_reports execution_id ids (r ∷ rs) =
      let id = report_hash execution_id r in
      let rest = rename_reports execution_id ((r.report_id, id) ∷ ids) rs in
      if is_some (get ids r.report_id)
      then (r ∷ rs, err (error "one evidence run contains duplicate report identifiers"))
      else (record r { report_id = id } ∷ rest.0, rest.1)

  -- The loop over `run.evidence.findings`.
  unfoldable pub rename_findings :
      Bytes → IdMap → List Bytes → List EvidenceFinding → RenamedFindings
  unfolding has compact_hash map_links
  rename_findings execution_id ids seen [] = ([], ok tt)
  rename_findings execution_id ids seen (f ∷ fs) =
      let id = compact_hash "orchestration-finding-v1" execution_id f.finding_id in
      let rest = rename_findings execution_id ids (f.finding_id ∷ seen) fs in
      let links = map_links ids finding_link_error f.report_ids in
      if has f.finding_id seen
      then (f ∷ fs, err (error "one evidence run contains duplicate finding identifiers"))
      else relink (record f { finding_id = id }) fs rest links
