-- ===== src/Tests/RuleExamples.antt =====
-- Examples for the rules, the security validator and the pipeline of apps/api/src/validation, and for
-- the jobs of apps/api/src/common/queue/job.worker.service.ts.
use mini_sentinel.Prelude.{
  codes, to_upper, some, ℕ, ◌≤◌, true, false, none, [], ◌∷◌, ◌≡◌, ◌≢◌, ◌↔◌, refl, all, arith,
  eq_iff, ◌==◌, name_has,
}
use mini_sentinel.Values.Json.{Json, null, bool, str, Fields, end, field, get, object}
use mini_sentinel.Values.Coerce.{get_nested_value, split, prop}
use mini_sentinel.Types.{
  ToolDefinition, ParsedRequest, ComplianceRule, RuleType, RuleAction, Verdict, is_pass, critical,
}
use mini_sentinel.Decision.Scan.{rule_of}
use mini_sentinel.Decision.Engine.{decide}
use mini_sentinel.Compliance.Params.{request_json, normalize}
use mini_sentinel.Compliance.RegF.{Surroundings, evaluate_reg_f, cease_contact}
use mini_sentinel.Compliance.Sanctions.{held_name-failure}
use mini_sentinel.Compliance.Engine.{
  Services, normalized, run_rule, check_of, failures_of, evaluate,
}
use mini_sentinel.Compliance.Outcome.{evaluate-failures, failed_rules, names_not_passed}
use mini_sentinel.Security.Content.{here, in_object, at_key, injection-refused}
use mini_sentinel.Security.Validator.{Settings, validate_security}
use mini_sentinel.Pipeline.Run.{Validators, validate}
use mini_sentinel.Pipeline.Verdicts.{validate-passed_iff, grave-ne-approve}
use mini_sentinel.Pipeline.Enforced.{blocking_rule-block}
use mini_sentinel.Review.Tickets.{of_job, Desk}
use mini_sentinel.Worker.Dispatch.{Handled, desk_of, execution_of, process_job}
use mini_sentinel.Worker.Enforce.{process_job-executed, blocking_rule-process_job}
use mini_sentinel.Tests.{engine, dialer, request_to, rule_with, policy_of}

abbrev pub evening : Surroundings ℕ
evening = record { hours = 20; minutes = 30; contacts = λ customer. 0 }

abbrev services : Services ℕ
services = record { around = evening; sanctions = "OSAMA" ∷ [] }

abbrev settings : Settings
settings = record {
  enable_prompt_injection_detection = true;
  max_request_size_bytes = none;
  require_request_signatures = false;
}

abbrev pub cease_rule : ComplianceRule ℕ
cease_rule = rule_with "cease contact" RuleType.reg_f RuleAction.block null

abbrev pub validators : Validators ℕ
validators = record {
  redact = λ params. record { redacted_params = params; redacted_count = 0; matches = null };
  rules = cease_rule ∷ [];
  services = services;
  settings = settings;
  test = λ pattern text. text == "bypass safety filters";
}

abbrev pub ceased : Fields ℕ
ceased = field "ceaseContact" (bool true) end

abbrev pub call : ParsedRequest ℕ
call = request_to dialer ceased []

abbrev lender : ToolDefinition
lender = record dialer { name = "loan-underwriter" }

evaluate-failures_example :
    (failed_rules (evaluate services (cease_rule ∷ []) call).failures
      ≡ names_not_passed (evaluate services (cease_rule ∷ []) call).checks)
    × ((evaluate services (cease_rule ∷ []) call).passed
        ≡ all (λ c. is_pass c.status) (evaluate services (cease_rule ∷ []) call).checks)
evaluate-failures_example = evaluate-failures services (cease_rule ∷ []) call

abbrev sanctions_rule : ComplianceRule ℕ
sanctions_rule = rule_with "OFAC" RuleType.ofac RuleAction.block null

abbrev listing : Services ℕ
listing = record services { sanctions = "Acme" ∷ (" Osama " ∷ []) }

abbrev transfer : ParsedRequest ℕ
transfer = request_to lender (field "fullName" (str "Mr. osama b") end) []

held_name-failure_example :
    failures_of listing transfer sanctions_rule
    ≡ (record {
      rule = "OFAC";
      reason = "OFAC Sanction Match detected for name: Mr. osama b";
      severity = critical;
    })
      ∷ []
unfolding name_has get_nested_value request_json get object prop split to_upper
held_name-failure_example =
    held_name-failure listing transfer sanctions_rule "Mr. osama b" " Osama " ("Acme" ∷ []) []
      (codes " ") (codes "OSAMA") (codes " ") (codes "MR. ") (codes " B") refl refl refl refl refl
      (λ e. ground (arith, eq_iff "Mr. osama b" "")) refl refl refl refl refl

abbrev attack : ParsedRequest ℕ
attack = request_to dialer (field "note" (str "bypass safety filters") end) []

injection-refused_example :
    ((validate_security validators.test settings attack).passed ≡ false)
    × (8000 ≤ (validate_security validators.test settings attack).risk_score)
injection-refused_example =
    injection-refused validators.test settings attack "bypass safety filters" refl refl
      (in_object (at_key (here refl)))

validate-passed_iff_example :
    ((validate validators call).result.passed ≡ true)
    ↔ ((validate validators call).result.risk_score ≤ 1000)
validate-passed_iff_example = validate-passed_iff validators call

grave-ne-approve_example :
    (decide (policy_of []) call (validate validators call).result).verdict ≢ Verdict.approve
unfolding validate evaluate name_has evaluate_reg_f run_rule cease_contact get normalize failures_of
grave-ne-approve_example = grave-ne-approve validators (policy_of []) call call refl refl

blocking_rule-block_example :
    (decide (policy_of (cease_rule ∷ [])) call (validate validators call).result).verdict
    ≡ Verdict.block
unfolding check_of rule_of run_rule name_has evaluate_reg_f cease_contact get normalize normalized
blocking_rule-block_example =
    blocking_rule-block validators (policy_of (cease_rule ∷ [])) call call [] [] cease_rule
      (cease_contact evening (normalize ceased)) refl refl refl refl refl refl refl refl

abbrev pub empty_desk : Desk ℕ
empty_desk = record { tickets = []; rows = []; executed = [] }

abbrev pub run_tool : ParsedRequest ℕ → Json ℕ
run_tool request = str "executed"

abbrev masking : Validators ℕ
masking = record validators {
  redact = λ params. record {
    redacted_params = field "masked" (bool true) end;
    redacted_count = 1;
    matches = null;
  };
}

abbrev private_call : ParsedRequest ℕ
private_call = request_to (record dialer { requires_pii_redaction = true }) ceased []

abbrev masked : ParsedRequest ℕ
masked = (validate masking private_call).redacted_request

abbrev masked_job : Handled ℕ
masked_job =
    process_job run_tool "k1" masking (policy_of (cease_rule ∷ [])) "OBSERVE" private_call
      empty_desk

masked-parameters : masked.parameters ≡ field "masked" (bool true) end
unfolding validate evaluate normalize
masked-parameters = refl

process_job-executed_example :
    ((desk_of masked_job).executed ≡ of_job masked ∷ [])
    × (execution_of masked_job ≡ some (str "executed"))
process_job-executed_example =
    process_job-executed run_tool "k1" masking (policy_of (cease_rule ∷ [])) "OBSERVE" private_call
      empty_desk

blocking_rule-process_job_example :
    desk_of
      (process_job run_tool "k1" validators (policy_of (cease_rule ∷ [])) "ENFORCE" call empty_desk)
    ≡ empty_desk
unfolding check_of rule_of run_rule name_has evaluate_reg_f cease_contact get normalize normalized
blocking_rule-process_job_example =
    blocking_rule-process_job run_tool "k1" validators (policy_of (cease_rule ∷ [])) "ENFORCE" call
      empty_desk [] [] cease_rule (cease_contact evening (normalize ceased)) refl refl refl refl
      refl refl refl refl refl
