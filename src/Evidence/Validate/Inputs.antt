-- ===== src/Evidence/Validate/Inputs.antt =====
-- The analyser inputs that static_analysis/contracts.rs accepts.
use pre_commit_review.Prelude.{
  ℕ, ◌≤◌, ◌<◌, ◌≡◌, ◌↔◌, refl, true, false, List, [], ◌∷◌, Option, none, some, ok, Bytes, String,
  length, codes, usize_max, arith, All,
}
use pre_commit_review.Prelude.Texts.{text_eq}
use pre_commit_review.Evidence.Validate.{
  InputFinding, StaticAnalysisInput, require_string, char_count, has_nul, fingerprint_matches,
  check_lines, validate_finding, validate_findings, validate_tool, validate_input,
}

-- A string that is not empty, has no NUL and is not too long.
abbrev pub Fits : Bytes → Type 0
Fits s = (0 < length s) × (has_nul s ≡ false) × (char_count s ≤ usize_max)

-- Lines are positive, and the last is not before the first.
abbrev pub Lines : Option ℕ → Option ℕ → Type 0
Lines none none = Unit {0}
Lines none (some e) = 1 ≤ e
Lines (some s) none = 1 ≤ s
Lines (some s) (some e) = (1 ≤ s) × (1 ≤ e) × (s ≤ e)

pub record IsValidFinding (f : InputFinding) : Type 0 where
  pub rule_id : Fits f.rule_id
  pub message : Fits f.message
  pub path : Fits f.path
  pub lines : Lines f.start_line f.end_line

pub record IsValidInput (i : StaticAnalysisInput) : Type 0 where
  pub schema_version : i.schema_version ≡ 1
  pub kind : text_eq i.kind (codes "static_analysis_input") ≡ true
  pub scope_fingerprint : fingerprint_matches i.scope_fingerprint ≡ true
  pub tool : 0 < length i.tool.name
  pub findings : All IsValidFinding i.findings

require_string-Fits :
    (s : Bytes) (label : String) → (require_string s label usize_max ≡ ok tt) ↔ Fits s
unfolding require_string
require_string-Fits s label = (λ h. (ground arith, ground arith, ground arith), λ f. ground arith)

check_lines-Lines : (s e : Option ℕ) → (check_lines s e ≡ ok tt) ↔ Lines s e
unfolding check_lines
check_lines-Lines none none = (λ h. tt, λ l. refl)
check_lines-Lines none (some e) = (λ h. ground arith, λ l. ground arith)
check_lines-Lines (some s) none = (λ h. ground arith, λ l. ground arith)
check_lines-Lines (some s) (some e) =
    (λ h. (ground arith, ground arith, ground arith), λ l. ground arith)

validate_finding-IsValidFinding :
    (f : InputFinding) → (validate_finding f ≡ ok tt) ↔ IsValidFinding f
unfolding validate_finding
validate_finding-IsValidFinding f = (
  λ h. record {
    rule_id = (require_string-Fits f.rule_id "finding.rule_id").0 (ground arith);
    message = (require_string-Fits f.message "finding.message").0 (ground arith);
    path = (require_string-Fits f.path "finding.path").0 (ground arith);
    lines = (check_lines-Lines f.start_line f.end_line).0 (ground arith);
  },
  λ v. ground (
    arith,
    (require_string-Fits f.rule_id "finding.rule_id").1 v.rule_id,
    (require_string-Fits f.message "finding.message").1 v.message,
    (require_string-Fits f.path "finding.path").1 v.path,
    (check_lines-Lines f.start_line f.end_line).1 v.lines,
  ),
)

validate_findings-All :
    (fs : List InputFinding) → (validate_findings fs ≡ ok tt) ↔ All IsValidFinding fs
unfolding validate_findings
validate_findings-All [] = (λ h. tt, λ a. refl)
validate_findings-All (f ∷ fs) = (
  λ h. (
    (validate_finding-IsValidFinding f).0 (ground arith),
    (validate_findings-All fs).0 (ground arith),
  ),
  λ a. ground (arith, (validate_finding-IsValidFinding f).1 a.0, (validate_findings-All fs).1 a.1),
)

-- An input is accepted exactly if its version and kind are right, its fingerprint is 40 or 64
-- hexadecimal digits, its tool has a name, and every finding has its three strings, without a NUL,
-- and positive lines in order.
pub validate_input-IsValidInput :
    (i : StaticAnalysisInput) → (validate_input i ≡ ok tt) ↔ IsValidInput i
unfolding validate_input validate_tool
validate_input-IsValidInput i = (
  λ h. record {
    schema_version = ground arith;
    kind = ground arith;
    scope_fingerprint = ground arith;
    tool = ground arith;
    findings = (validate_findings-All i.findings).0 (ground arith);
  },
  λ v. ground (
    arith,
    v.schema_version,
    v.kind,
    v.scope_fingerprint,
    v.tool,
    (validate_findings-All i.findings).1 v.findings,
  ),
)
