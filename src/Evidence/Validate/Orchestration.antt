-- ===== src/Evidence/Validate/Orchestration.antt =====
-- `OrchestrationLimits` of static_analysis/contracts.rs.
use pre_commit_review.Prelude.{ℕ, ◌≤◌, ◌≡◌, ◌↔◌, not, ok, ◌>>◌, refuse_if, arith}
use pre_commit_review.Evidence.Validate.{Checked, contract_error, within}

pub record OrchestrationLimits : Type 0 where
  pub max_execution_seconds : ℕ
  pub max_captured_output_bytes : ℕ
  pub max_findings : ℕ
  pub max_snapshot_bytes : ℕ
  pub max_snapshot_files : ℕ

unfoldable pub validate_orchestration : OrchestrationLimits → Checked
validate_orchestration l = do
  refuse_if (not (within 1 1_800 l.max_execution_seconds))
      (contract_error "limits.max_execution_seconds must be between 1 and 1800")
  refuse_if (not (within 1_024 100_000_000 l.max_captured_output_bytes))
      (contract_error "limits.max_captured_output_bytes must be between 1024 and 100000000")
  refuse_if (not (within 1 5_000 l.max_findings))
      (contract_error "limits.max_findings must be between 1 and 5000")
  refuse_if (not (within 1_048_576 2_147_483_648 l.max_snapshot_bytes))
      (contract_error "limits.max_snapshot_bytes must be between 1048576 and 2147483648")
  refuse_if (not (within 1 200_000 l.max_snapshot_files))
      (contract_error "limits.max_snapshot_files must be between 1 and 200000")

pub record IsWithin (l : OrchestrationLimits) : Type 0 where
  pub seconds : (1 ≤ l.max_execution_seconds) × (l.max_execution_seconds ≤ 1_800)
  pub output : (1_024 ≤ l.max_captured_output_bytes) × (l.max_captured_output_bytes ≤ 100_000_000)
  pub findings : (1 ≤ l.max_findings) × (l.max_findings ≤ 5_000)
  pub snapshot : (1_048_576 ≤ l.max_snapshot_bytes) × (l.max_snapshot_bytes ≤ 2_147_483_648)
  pub files : (1 ≤ l.max_snapshot_files) × (l.max_snapshot_files ≤ 200_000)

-- The limits of an orchestration are accepted exactly if each lies in its range.
pub validate_orchestration-IsWithin :
    (l : OrchestrationLimits) → (validate_orchestration l ≡ ok tt) ↔ IsWithin l
unfolding validate_orchestration
validate_orchestration-IsWithin l = (
  λ h. record {
    seconds = ground arith;
    output = ground arith;
    findings = ground arith;
    snapshot = ground arith;
    files = ground arith;
  },
  λ b. ground arith,
)
