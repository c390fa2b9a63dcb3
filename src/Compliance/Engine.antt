-- ===== src/Compliance/Engine.antt =====
-- `RuleEngine.evaluate` of apps/api/src/validation/compliance/rule.engine.ts: the loop over the
-- enabled rules. Each rule gives one check, and a failure where it does not pass.
use mini_sentinel.Prelude.{
  String, Bool, true, false, not, Option, none, some, List, [], ◌∷◌, if◌then◌else◌, ◌&&◌, ◌||◌,
  ◌==◌, ◌^^◌, name_has, filter, is_empty, text_or, ◌++◌,
}
use mini_sentinel.Values.Json.{Json, null, arr, Items, Fields}
use mini_sentinel.Values.Runtime.{Runtime}
use mini_sentinel.Types.{
  ParsedRequest, ValidationCheck, ValidationFailure, ValidationType, Level, medium, high, critical,
  CheckStatus, pass, fail, error, ComplianceRule, RuleType, reg_f, qm, ofac, RuleAction,
}
use mini_sentinel.Compliance.Params.{
  Evaluated, returned, threw, skipped_check, normalize, request_json,
}
use mini_sentinel.Compliance.RegF.{Surroundings, evaluate_reg_f}
use mini_sentinel.Compliance.Conditions.{conditions}
use mini_sentinel.Compliance.Checkers.{evaluate_qm, evaluate_ofac, evaluate_generic}

-- `mapRuleTypeToValidationType`
unfoldable pub validation_type_of : RuleType → ValidationType
validation_type_of reg_f = ValidationType.reg_f_compliance
validation_type_of qm = ValidationType.qm_compliance
validation_type_of ofac = ValidationType.ofac_compliance
validation_type_of RuleType.pii = ValidationType.pii_redaction
validation_type_of RuleType.security = ValidationType.security_validation
validation_type_of _ = ValidationType.business_logic

-- The branch of the loop that a rule takes.
pub data Kind (F : Type 0) : Type 0 where
  collections : Kind F
  conditional : Items F → Kind F
  qualified_mortgage : Kind F
  sanctions : Kind F
  generic : Kind F

pub record ComplianceResult (F : Type 0) : Type 0 where
  pub passed : Bool
  pub checks : List (ValidationCheck F)
  pub failures : List ValidationFailure
  -- the parameters of the request as `evaluate` leaves them
  pub parameters : Fields F

-- What the rules read besides the request: the surroundings, and the setting `ofac_sanctions`.
pub record Services (F : Type 0) : Type 0 where
  pub around : Surroundings F
  pub sanctions : List String

abbrev is_reg_f : RuleType → Bool
is_reg_f reg_f = true
is_reg_f _ = false

abbrev is_underwriting : String → Bool
is_underwriting name =
    name_has name "dti" || name_has name "credit score" || name_has name "employment"

abbrev condition_severity : RuleAction → Level
condition_severity RuleAction.block = high
condition_severity _ = medium

module _ {F : Type 0} where
  abbrev typed_kind : RuleType → Kind F
  typed_kind qm = qualified_mortgage
  typed_kind ofac = sanctions
  typed_kind _ = generic

  abbrev listed_kind : RuleType → Option (Json F) → Kind F
  listed_kind type (some (arr conds)) = conditional conds
  listed_kind type _ = typed_kind type

  -- the chain of `if`s that picks the evaluator
  unfoldable pub kind_of : ComplianceRule F → Kind F
  kind_of rule =
      if is_reg_f rule.type || name_has rule.name "bankruptcy"
      then collections
      else listed_kind rule.type rule.conditions

  -- The severity of the failure of a rule that is not satisfied.
  unfoldable pub severity_of : ComplianceRule F → Kind F → Level
  severity_of rule collections = high
  severity_of rule (conditional conds) = condition_severity rule.action
  severity_of rule qualified_mortgage = critical
  severity_of rule sanctions = critical
  severity_of rule generic = medium

  abbrev pub status_of : Evaluated F → CheckStatus
  status_of (returned c) = if c.passed then pass else fail
  status_of (threw message) = error

  abbrev result_of : Evaluated F → Json F
  result_of (returned c) = c.details
  result_of (threw message) = null

  abbrev error_of : Evaluated F → Option String
  error_of (returned c) = none
  error_of (threw message) = some (text_or (some message) "Error executing rule")

  unfoldable pub failures_with : ComplianceRule F → Evaluated F → List ValidationFailure
  unfolding severity_of kind_of
  failures_with rule (returned c) =
      if c.passed
      then []
      else (record {
        rule = rule.name;
        reason = c.reason;
        severity = severity_of rule (kind_of rule);
      })
        ∷ []
  failures_with rule (threw message) =
      (record {
        rule = rule.name;
        reason = "Execution Error: " ^^ text_or (some message) "Error executing rule";
        severity = high;
      })
      ∷ []

  abbrev pub enabled_rules : List (ComplianceRule F) → List (ComplianceRule F)
  enabled_rules rules = filter (λ r. r.enabled) rules

module _ {F : Type 0} ⦃js : Runtime F⦄ (services : Services F) where
  -- `request` with its parameters normalised
  unfoldable pub normalized : ParsedRequest F → ParsedRequest F
  normalized request = record request { parameters = normalize request.parameters }

  run_kind : ParsedRequest F → ComplianceRule F → Kind F → Evaluated F
  unfolding evaluate_reg_f conditions evaluate_qm evaluate_ofac evaluate_generic request_json
  run_kind request rule collections =
      if request.tool.name == "dialer"
      then returned (evaluate_reg_f services.around request.parameters rule)
      else returned (skipped_check "Skipped: Collections rule only applies to dialer tool.")
  run_kind request rule (conditional conds) =
      if is_underwriting rule.name && not (request.tool.name == "loan-underwriter")
      then returned (
          skipped_check
            ("Skipped: Underwriting rule '" ^^ rule.name ^^ "' only applies to loan-underwriter."))
      else conditions (request_json request) rule conds
  run_kind request rule qualified_mortgage =
      if request.tool.name == "loan-underwriter"
      then returned (evaluate_qm (request_json request) rule)
      else returned (skipped_check "Skipped: QM rule only applies to loan-underwriter.")
  run_kind request rule sanctions =
      returned (evaluate_ofac (request_json request) rule services.sanctions)
  run_kind request rule generic = returned (evaluate_generic (request_json request) rule)

  -- what the `try` block runs for a rule, on the request with its parameters normalised
  unfoldable pub run_rule : ParsedRequest F → ComplianceRule F → Evaluated F
  unfolding run_kind kind_of
  run_rule request rule = run_kind request rule (kind_of rule)

  -- the check that is pushed for a rule
  unfoldable pub check_of : ParsedRequest F → ComplianceRule F → ValidationCheck F
  unfolding run_rule validation_type_of
  check_of request rule =
      let evaluated = run_rule request rule in
      record {
        id = rule.id;
        type = validation_type_of rule.type;
        name = rule.name;
        description = text_or rule.description "";
        status = status_of evaluated;
        result = result_of evaluated;
        error = error_of evaluated;
        rule_id = some rule.id;
      }

  -- the failures that are pushed for a rule: none or one
  unfoldable pub failures_of : ParsedRequest F → ComplianceRule F → List ValidationFailure
  unfolding failures_with run_rule
  failures_of request rule = failures_with rule (run_rule request rule)

  -- the loop, with the checks and the failures that it has pushed so far
  unfoldable pub loop :
      ParsedRequest F
      → List (ComplianceRule F)
      → List (ValidationCheck F)
      → List ValidationFailure
      → ComplianceResult F
  unfolding check_of failures_of
  loop request [] checks failures = record {
    passed = is_empty failures;
    checks = checks;
    failures = failures;
    parameters = request.parameters;
  }
  loop request (rule ∷ rules) checks failures = elim rule.enabled [
    | true ↦
        loop request rules (checks ++ check_of request rule ∷ [])
          (failures ++ failures_of request rule)
    | false ↦ loop request rules checks failures
  ]

  -- `evaluate(request)`, given `configService.getRules()`
  unfoldable pub evaluate : List (ComplianceRule F) → ParsedRequest F → ComplianceResult F
  unfolding loop normalized
  evaluate rules request = loop (normalized request) rules [] []
