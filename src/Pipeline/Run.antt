-- ===== src/Pipeline/Run.antt =====
-- `ValidationPipeline.validate` of apps/api/src/validation/validation.pipeline.ts. The rule engine
-- writes to the parameters of the request that it is given: the security validator reads them after
-- that, and so does the redacted request where it still shares them.
use mini_sentinel.Prelude.{
  ℕ, String, Bool, false, none, List, [], ◌∷◌, ◌++◌, map, max, if◌then◌else◌, any, is_empty, ltb,
}
use mini_sentinel.Values.Json.{Json, null, num, str, arr, obj, Items, nil, cons, Fields, end, field}
use mini_sentinel.Values.Runtime.{Runtime}
use mini_sentinel.Types.{
  ParsedRequest, ValidationCheck, ValidationFailure, ValidationResult, ValidationType, critical,
  is_critical, is_high, CheckStatus, ComplianceRule,
}
use mini_sentinel.Compliance.Engine.{Services, evaluate}
use mini_sentinel.Security.Validator.{Settings, validate_security}

-- What `PiiRedactor.redactParametersAsync` returns.
pub record Redaction (F : Type 0) : Type 0 where
  pub redacted_params : Fields F
  pub redacted_count : ℕ
  pub matches : Json F

-- The collaborators of the pipeline, with what they read of the configuration.
pub record Validators (F : Type 0) : Type 0 where
  pub redact : Fields F → Redaction F
  pub rules : List (ComplianceRule F)
  pub services : Services F
  pub settings : Settings
  -- `pattern.test(text)` of the security patterns
  pub test : String → String → Bool

pub record Validated (F : Type 0) : Type 0 where
  pub result : ValidationResult F
  pub redacted_request : ParsedRequest F

-- What a stage adds.
pub record Stage (F : Type 0) : Type 0 where
  pub checks : List (ValidationCheck F)
  pub failures : List ValidationFailure
  -- `riskScore` after the stage, from that before
  pub score : ℕ
  -- the parameters of `request` and of `redactedRequest`
  pub parameters : Fields F
  pub redacted : Fields F

unfoldable pub parse_failures : List String → List ValidationFailure
parse_failures errors =
    map (λ err. record { rule = "REQUEST_PARSING"; reason = err; severity = critical }) errors

-- The contribution of the compliance rules: the worst severity decides.
unfoldable pub compliance_risk : List ValidationFailure → ℕ
compliance_risk failures =
    if any (λ f. is_critical f.severity) failures
    then 9500
    else if any (λ f. is_high f.severity) failures
    then 7500
    else 4000

module _ {F : Type 0} where
  abbrev texts : List String → Items F
  texts [] = nil
  texts (s ∷ ss) = cons (str s) (texts ss)

  plain_check : String → ValidationType → String → String → CheckStatus → Json F → ValidationCheck F
  plain_check id type name description status result = record {
    id = id;
    type = type;
    name = name;
    description = description;
    status = status;
    result = result;
    error = none;
    rule_id = none;
  }

  -- the check of the early return
  unfoldable pub parse_check : List String → ValidationCheck F
  unfolding plain_check
  parse_check errors =
      plain_check "parse_err" ValidationType.schema_validation "Request Parsing & Schema Validation"
        "Validates input JSON parameters against Zod schema" CheckStatus.fail
        (obj (field "parseErrors" (arr (texts errors)) end))

  unfoldable pub parse_rejection : ParsedRequest F → Validated F
  unfolding parse_failures parse_check
  parse_rejection request = record {
    result = record {
      passed = false;
      failures = parse_failures request.parse_errors;
      risk_score = 10000;
      checks = parse_check request.parse_errors ∷ [];
    };
    redacted_request = request;
  }

module _ {F : Type 0} ⦃js : Runtime F⦄ (validators : Validators F) where
  redaction_check : Redaction F → ValidationCheck F
  unfolding plain_check
  redaction_check r =
      plain_check "pii_redact" ValidationType.pii_redaction "PII Detection & Redaction"
        "Scan and redact SSN, Credit Cards, Bank Accounts, and Addresses"
        (if ltb 0 r.redacted_count then CheckStatus.warning else CheckStatus.pass)
        (obj
          (field "redactedCount" (num (js.lit r.redacted_count 0)) (field "matches" r.matches end)))

  -- step 2
  unfoldable pub pii_stage : ParsedRequest F → Stage F
  unfolding redaction_check plain_check
  pii_stage request =
      let redaction = validators.redact request.parameters in
      if request.tool.requires_pii_redaction
      then record {
        checks = redaction_check redaction ∷ [];
        failures = [];
        score = if ltb 0 redaction.redacted_count then max 0 1000 else 0;
        parameters = request.parameters;
        redacted = redaction.redacted_params;
      }
      else record {
        checks =
            plain_check "pii_redact" ValidationType.pii_redaction "PII Detection & Redaction"
              "PII scan skipped (not required for this tool)" CheckStatus.skipped null
            ∷ [];
        failures = [];
        score = 0;
        parameters = request.parameters;
        redacted = request.parameters;
      }

  -- step 3; the parameters stay shared with the redacted request where step 2 was skipped
  unfoldable pub compliance_stage : ParsedRequest F → Stage F → Stage F
  unfolding plain_check
  compliance_stage request before =
      let r = evaluate validators.services validators.rules request in
      if request.tool.requires_compliance_check
      then record {
        checks = before.checks ++ r.checks;
        failures = before.failures ++ r.failures;
        score = if r.passed then before.score else max before.score (compliance_risk r.failures);
        parameters = r.parameters;
        redacted = if request.tool.requires_pii_redaction then before.redacted else r.parameters;
      }
      else record before {
        checks =
            before.checks
            ++ plain_check "compliance_rules" ValidationType.reg_f_compliance
                "Compliance Rules Evaluation"
                "Compliance checks skipped (not required for this tool)" CheckStatus.skipped null
              ∷ [];
      }

  -- step 4 and the result
  unfoldable pub security_stage : ParsedRequest F → Stage F → Validated F
  security_stage request before =
      let s =
        validate_security validators.test validators.settings
          (record request { parameters = before.parameters }) in
      let failures = before.failures ++ s.failures in
      record {
        result = record {
          passed = is_empty failures;
          failures = failures;
          risk_score = if s.passed then before.score else max before.score s.risk_score;
          checks = before.checks ++ s.checks;
        };
        redacted_request = record request { parameters = before.redacted };
      }

  -- `validate(request)`
  unfoldable pub validate : ParsedRequest F → Validated F
  unfolding pii_stage compliance_stage security_stage parse_rejection
  validate request =
      if is_empty request.parse_errors
      then security_stage request (compliance_stage request (pii_stage request))
      else parse_rejection request
