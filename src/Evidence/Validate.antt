-- ===== src/Evidence/Validate.antt =====
-- The checks of reports, findings and limits in static_analysis/contracts.rs. A string is the bytes
-- of its UTF-8.
pub mod Accepted
pub mod Inputs
pub mod Orchestration
mod Examples
use pre_commit_review.Prelude.{
  ℕ, ◌+◌, Bool, true, false, not, ◌&&◌, ◌||◌, List, [], ◌∷◌, ◌++◌, Option, none, some, Result, ok,
  err, refuse_if, ◌>>=◌, ◌>>◌, Bytes, codes, String, ltb, leb, ◌==◌, if◌then◌else◌, length, all,
  is_some, usize_max,
}
use pre_commit_review.Prelude.Digits.{to_string}
use pre_commit_review.Prelude.Texts.{text_eq}
use pre_commit_review.Evidence.Contracts.{
  ToolIdentity, ReportStatus, Severity, FindingCategory, Confidence, BaselineState, EvidenceTrust,
  EvidenceScopeBinding, EvidenceReport,
}

pub record ContractError : Type 0 where
  pub message : Bytes

abbrev pub Checked : Type 0
Checked = Result (Unit {0}) ContractError

abbrev pub contract_error : String → ContractError
contract_error message = record { message = codes message }

-- The class `[0-9a-f]`.
abbrev pub is_hex : ℕ → Bool
is_hex c = (leb b'0' c && leb c b'9') || (leb b'a' c && leb c b'f')

unfoldable pub fingerprint_matches : Bytes → Bool
fingerprint_matches s = all is_hex s && (length s == 40 || length s == 64)

unfoldable pub compact_id_matches : Bytes → Bool
compact_id_matches s = all is_hex s && length s == 16

abbrev count_if : Bool → ℕ → ℕ
count_if true n = n + 1
count_if false n = n

-- `chars().count()`: the bytes that begin a character.
unfoldable pub char_count : Bytes → ℕ
char_count [] = 0
char_count (c ∷ s) = count_if (not (leb 0x80 c && leb c 0xBF)) (char_count s)

unfoldable pub has_nul : Bytes → Bool
has_nul [] = false
has_nul (c ∷ s) = c == 0 || has_nul s

abbrev pub is_empty : Bytes → Bool
is_empty s = length s == 0

unfoldable pub require_string : Bytes → String → ℕ → Checked
unfolding has_nul char_count
require_string value label maximum =
    refuse_if (is_empty value || has_nul value || ltb maximum (char_count value)) (record {
      message =
          codes label
          ++ codes " must be a non-empty string of at most "
          ++ to_string maximum
          ++ codes " characters";
    })

pub record InputFinding : Type 0 where
  pub rule_id : Bytes
  pub message : Bytes
  pub path : Bytes
  pub start_line : Option ℕ
  pub end_line : Option ℕ
  pub severity : Severity
  pub category : FindingCategory
  pub confidence : Confidence
  pub baseline_state : BaselineState

abbrev is_zero : Option ℕ → Bool
is_zero none = false
is_zero (some n) = n == 0

abbrev precedes : Option ℕ → Option ℕ → Bool
precedes none start = false
precedes (some end_line) none = false
precedes (some end_line) (some start) = ltb end_line start

-- The checks of the two lines.
unfoldable pub check_lines : Option ℕ → Option ℕ → Checked
check_lines start_line end_line = do
  refuse_if (is_zero start_line)
      (contract_error "finding.start_line must be a positive integer or null")
  refuse_if (is_zero end_line)
      (contract_error "finding.end_line must be a positive integer or null")
  refuse_if (precedes end_line start_line)
      (contract_error "finding.end_line cannot precede finding.start_line")

unfoldable pub validate_finding : InputFinding → Checked
unfolding require_string check_lines
validate_finding f = do
  require_string f.rule_id "finding.rule_id" usize_max
  require_string f.message "finding.message" usize_max
  require_string f.path "finding.path" usize_max
  check_lines f.start_line f.end_line

pub record StaticAnalysisInput : Type 0 where
  pub schema_version : ℕ
  pub kind : Bytes
  pub scope_fingerprint : Bytes
  pub tool : ToolIdentity
  pub status : ReportStatus
  pub findings : List InputFinding

-- `ToolIdentity::validate_input` and `validate_evidence`.
unfoldable pub validate_tool : ToolIdentity → Checked
validate_tool t =
    refuse_if (is_empty t.name) (contract_error "tool.name must be a non-empty string")

abbrev pub check_version : Option Bytes → Checked
check_version none = err (contract_error "tool.version is required")
check_version (some version) = require_string version "tool.version" 100

-- `ToolIdentity::validate_profile`.
unfoldable pub validate_profile_tool : ToolIdentity → Checked
unfolding require_string
validate_profile_tool t = require_string t.name "tool.name" 200 >> check_version t.version

unfoldable pub sha256_matches : Bytes → Bool
sha256_matches s = all is_hex s && length s == 64

unfoldable pub validate_findings : List InputFinding → Checked
unfolding validate_finding
validate_findings [] = ok tt
validate_findings (f ∷ fs) = validate_finding f >> validate_findings fs

unfoldable pub validate_input : StaticAnalysisInput → Checked
unfolding text_eq fingerprint_matches validate_tool validate_findings
validate_input i = do
  refuse_if (not (i.schema_version == 1)) (contract_error "schema_version must be 1")
  refuse_if (not (text_eq i.kind (codes "static_analysis_input")))
      (contract_error "kind must be static_analysis_input")
  refuse_if (not (fingerprint_matches i.scope_fingerprint))
      (contract_error "scope_fingerprint must be 40 or 64 lowercase hexadecimal characters")
  validate_tool i.tool
  validate_findings i.findings

pub record ProfileLimits : Type 0 where
  pub timeout_seconds : ℕ
  pub max_output_bytes : ℕ
  pub max_snapshot_bytes : ℕ
  pub max_snapshot_files : ℕ

-- `(lo..=hi).contains(&n)`.
abbrev pub within : ℕ → ℕ → ℕ → Bool
within lo hi n = leb lo n && leb n hi

unfoldable pub validate_limits : ProfileLimits → Checked
validate_limits l = do
  refuse_if (not (within 1 600 l.timeout_seconds))
      (contract_error "limits.timeout_seconds must be between 1 and 600")
  refuse_if (not (within 1_024 10_000_000 l.max_output_bytes))
      (contract_error "limits.max_output_bytes must be between 1024 and 10000000")
  refuse_if (not (within 1_048_576 2_147_483_648 l.max_snapshot_bytes))
      (contract_error "limits.max_snapshot_bytes must be between 1048576 and 2147483648")
  refuse_if (not (within 1 200_000 l.max_snapshot_files))
      (contract_error "limits.max_snapshot_files must be between 1 and 200000")

abbrev pub is_controlled : EvidenceScopeBinding → Bool
is_controlled EvidenceScopeBinding.controlled_execution = true
is_controlled EvidenceScopeBinding.embedded = false
is_controlled EvidenceScopeBinding.explicit_assertion = false

unfoldable pub check_execution_id : Option Bytes → Checked
unfolding compact_id_matches
check_execution_id none = err (contract_error "controlled execution report requires execution_id")
check_execution_id (some id) =
    refuse_if (not (compact_id_matches id))
      (contract_error "execution_id must be 16 lowercase hexadecimal characters")

-- The `match` on `self.trust`.
unfoldable pub check_trust : EvidenceReport → EvidenceTrust → Checked
unfolding check_execution_id
check_trust r EvidenceTrust.controlled_execution = do
  refuse_if (not (is_controlled r.scope_binding))
      (contract_error "controlled execution report must use controlled scope binding")
  check_execution_id r.execution_id
check_trust r EvidenceTrust.explicit_input =
    refuse_if (is_some r.execution_id || is_controlled r.scope_binding)
      (contract_error "explicit input report cannot claim controlled execution provenance")

unfoldable pub validate_report : EvidenceReport → Checked
unfolding compact_id_matches validate_tool check_trust
validate_report r = do
  refuse_if (not (compact_id_matches r.report_id))
      (contract_error "report_id must be 16 lowercase hexadecimal characters")
  validate_tool r.tool
  check_trust r r.trust
