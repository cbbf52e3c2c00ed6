-- ===== src/Evidence/Validate/Accepted.antt =====
-- What the checks of static_analysis/contracts.rs accept.
use pre_commit_review.Prelude.{
  ◌≤◌, ◌<◌, ◌≡◌, ◌↔◌, refl, true, false, Option, none, some, ok, Bytes, length, arith,
}
use pre_commit_review.Evidence.Contracts.{EvidenceReport, EvidenceTrust}
use pre_commit_review.Evidence.Validate.{
  ProfileLimits, compact_id_matches, validate_tool, validate_limits, check_trust,
  check_execution_id, validate_report, is_controlled,
}

-- The ranges that the profile's limits are documented with.
pub record IsBounded (l : ProfileLimits) : Type 0 where
  pub timeout : (1 ≤ l.timeout_seconds) × (l.timeout_seconds ≤ 600)
  pub output : (1_024 ≤ l.max_output_bytes) × (l.max_output_bytes ≤ 10_000_000)
  pub snapshot : (1_048_576 ≤ l.max_snapshot_bytes) × (l.max_snapshot_bytes ≤ 2_147_483_648)
  pub files : (1 ≤ l.max_snapshot_files) × (l.max_snapshot_files ≤ 200_000)

-- The limits of a profile are accepted exactly if each lies in its range.
pub validate_limits-IsBounded : (l : ProfileLimits) → (validate_limits l ≡ ok tt) ↔ IsBounded l
unfolding validate_limits
validate_limits-IsBounded l = (
  λ h. record {
    timeout = ground arith;
    output = ground arith;
    snapshot = ground arith;
    files = ground arith;
  },
  λ b. ground arith,
)

-- Where a report says it comes from: with a controlled execution and its compact id, or with neither.
abbrev pub Provenance : EvidenceTrust → EvidenceReport → Type 0
Provenance EvidenceTrust.controlled_execution r =
    (is_controlled r.scope_binding ≡ true)
    × ((id : Bytes) × (r.execution_id ≡ some id) × (compact_id_matches id ≡ true))
Provenance EvidenceTrust.explicit_input r =
    (is_controlled r.scope_binding ≡ false) × (r.execution_id ≡ none)

check_execution_id-ok :
    (o : Option Bytes)
    → check_execution_id o ≡ ok tt
    → (id : Bytes) × (o ≡ some id) × (compact_id_matches id ≡ true)
unfolding check_execution_id
check_execution_id-ok none h = absurd (ground arith)
check_execution_id-ok (some id) h = (id, refl, ground arith)

check_trust-Provenance :
    (r : EvidenceReport) (t : EvidenceTrust) → check_trust r t ≡ ok tt → Provenance t r
unfolding check_trust
check_trust-Provenance r EvidenceTrust.controlled_execution h =
    (ground arith, check_execution_id-ok r.execution_id (ground arith))
check_trust-Provenance r EvidenceTrust.explicit_input h = (ground arith, ground arith)

-- A report that is accepted has a compact id, a named tool and a provenance that agrees with its
-- trust: controlled trust goes with the controlled binding and the compact id of an execution,
-- explicit input with neither.
pub validate_report-Provenance :
    (r : EvidenceReport)
    → validate_report r ≡ ok tt
    → (compact_id_matches r.report_id ≡ true) × (0 < length r.tool.name) × Provenance r.trust r
unfolding validate_report validate_tool
validate_report-Provenance r h =
    (ground arith, ground arith, check_trust-Provenance r r.trust (ground arith))
