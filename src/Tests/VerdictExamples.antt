-- ===== src/Tests/VerdictExamples.antt =====
-- Examples for the verdicts of apps/api/src/decision/decision.engine.ts.
use mini_sentinel.Prelude.{
  ℕ, ◌≤◌, String, false, none, some, List, [], ◌∷◌, ◌≡◌, ◌≢◌, ◌↔◌, refl, inl, All, arith,
}
use mini_sentinel.Values.Json.{null, end}
use mini_sentinel.Types.{
  Verdict, low, ToolDefinition, ValidationCheck, ValidationResult, fail, ParsedRequest, RuleAction,
  RuleType, ComplianceRule, ValidationType,
}
use mini_sentinel.Decision.Scan.{Policy, base_risk_score, rule_of}
use mini_sentinel.Decision.Engine.{failed_checks, decide}
use mini_sentinel.Decision.Verdicts.{IsTolerated, IsBelow, decide-approve_iff, decide_escalating}
use mini_sentinel.Decision.Risk.{rank, decide_mono, high_tool-ne-approve}
use mini_sentinel.Tests.{engine, dialer, request_to, rule_with, policy_of}

abbrev failed_check : String → ValidationCheck ℕ
failed_check name = record {
  id = name;
  type = ValidationType.business_logic;
  name = name;
  description = "";
  status = fail;
  result = null;
  error = none;
  rule_id = some name;
}

abbrev result_with : List (ValidationCheck ℕ) → ValidationResult ℕ
result_with checks = record { passed = false; failures = []; risk_score = 4000; checks = checks }

abbrev reader : ToolDefinition
reader = record dialer { risk_level = low }

abbrev lookup : ParsedRequest ℕ
lookup = request_to reader end []

abbrev rule_of_action : RuleAction → ComplianceRule ℕ
rule_of_action action = rule_with "amount" RuleType.business action null

abbrev policy_with : RuleAction → Policy ℕ
policy_with action = policy_of (rule_of_action action ∷ [])

abbrev amount_failed : ValidationResult ℕ
amount_failed = result_with (failed_check "amount" ∷ [])

decide-approve_iff_example :
    ((decide (policy_with RuleAction.log) lookup amount_failed).verdict ≡ Verdict.approve) ↔ (
      All (IsTolerated (policy_with RuleAction.log).rules) (failed_checks amount_failed)
      × IsBelow (base_risk_score lookup amount_failed) (some 9000)
      × IsBelow (base_risk_score lookup amount_failed) (some 7000))
decide-approve_iff_example = decide-approve_iff (policy_with RuleAction.log) lookup amount_failed

decide_escalating_example :
    (decide (policy_with RuleAction.escalate) lookup amount_failed).verdict ≡ Verdict.escalate
unfolding rule_of
decide_escalating_example =
    decide_escalating (policy_with RuleAction.escalate) lookup amount_failed refl refl

decide_mono_example :
    rank (decide (policy_with RuleAction.log) lookup amount_failed).verdict
    ≤ rank
        (decide
          (policy_with RuleAction.log)
          lookup
          (record amount_failed { risk_score = 9500 })).verdict
decide_mono_example =
    decide_mono (policy_with RuleAction.log) lookup amount_failed 9500 (omega arith)

high_tool-ne-approve_example :
    (decide (policy_of []) (request_to dialer end []) (result_with [])).verdict ≢ Verdict.approve
high_tool-ne-approve_example =
    high_tool-ne-approve (policy_of []) (request_to dialer end []) (result_with []) refl (inl refl)
