-- ===== src/Decision/Engine.antt =====
-- `DecisionEngine.decide` (apps/api/src/decision/decision.engine.ts).
use mini_sentinel.Prelude.{
  String, Option, none, some, List, ◌++◌, if◌then◌else◌, filter, length, is_empty,
}
use mini_sentinel.Values.Runtime.{Runtime}
use mini_sentinel.Types.{
  Verdict, is_pass, is_fail, is_warning, ParsedRequest, ValidationCheck, ValidationResult, Decision,
}
use mini_sentinel.Decision.Scan.{Policy, Flags, no_flags, scan, verdict_of, base_risk_score}
use mini_sentinel.Decision.Report.{
  tool_factors, cost_factors, verdict_factors, warnings_of, recommendations_of, summary_of,
}

module _ {F : Type 0} where
  abbrev pub failed_checks : ValidationResult F → List (ValidationCheck F)
  failed_checks result = filter (λ c. is_fail c.status) result.checks

  abbrev pub warning_checks : ValidationResult F → List (ValidationCheck F)
  warning_checks result = filter (λ c. is_warning c.status) result.checks

  abbrev pub passed_checks : ValidationResult F → List (ValidationCheck F)
  passed_checks result = filter (λ c. is_pass c.status) result.checks

  unfoldable pub flags_of : Policy F → ValidationResult F → Flags
  flags_of policy result = scan policy.rules (failed_checks result) no_flags

abbrev non_empty : List String → Option (List String)
non_empty ws = if is_empty ws then none else some ws

module _ {F : Type 0} ⦃js : Runtime F⦄ (policy : Policy F) where
  unfoldable pub verdict : ParsedRequest F → ValidationResult F → Verdict
  unfolding verdict_of flags_of base_risk_score
  verdict request result =
      verdict_of policy.thresholds (flags_of policy result) (base_risk_score request result)

  unfoldable pub decide : ParsedRequest F → ValidationResult F → Decision F
  unfolding verdict tool_factors cost_factors verdict_factors
  decide request result =
      let score = base_risk_score request result in
      let flags = flags_of policy result in
      let failed = failed_checks result in
      let v = verdict request result in
      let summary = summary_of v score policy.rules failed in
      record {
        verdict = v;
        request_id = request.id;
        risk_score = score;
        reasoning = summary;
        reasoning_details = some (record {
          summary = summary;
          factors =
              tool_factors request.tool.risk_level
              ++ (cost_factors request.action.cost_estimate
                  ++ verdict_factors policy.thresholds flags score failed);
          recommendations = recommendations_of v;
          warnings = non_empty (warnings_of v failed (warning_checks result));
        });
        validation_summary = some (record {
          total_checks = length result.checks;
          passed_checks = length (passed_checks result);
          failed_checks = length failed;
          failures = result.failures;
        });
      }
