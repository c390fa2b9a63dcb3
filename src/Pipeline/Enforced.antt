-- ===== src/Pipeline/Enforced.antt =====
-- The way of a compliance rule from apps/api/src/validation/compliance/rule.engine.ts through
-- apps/api/src/validation/validation.pipeline.ts to apps/api/src/decision/decision.engine.ts.
use mini_sentinel.Prelude.{
  Bool, true, false, some, List, [], ◌∷◌, ◌++◌, ◌&&◌, ◌≡◌, ap, any, is_empty, any-append,
  any-filter, any-map, any_middle, arith,
}
use mini_sentinel.Values.Runtime.{Runtime}
use mini_sentinel.Types.{
  ParsedRequest, ValidationCheck, is_fail, Verdict, ComplianceRule, RuleAction,
}
use mini_sentinel.Decision.Scan.{Policy, rule_of}
use mini_sentinel.Decision.Engine.{decide}
use mini_sentinel.Decision.Verdicts.{decide_blocking, is_blocking}
use mini_sentinel.Compliance.Params.{Checked, returned}
use mini_sentinel.Compliance.Engine.{evaluate, normalized, check_of, run_rule, enabled_rules}
use mini_sentinel.Compliance.Outcome.{evaluate-checks}
use mini_sentinel.Security.Validator.{validate_security}
use mini_sentinel.Pipeline.Run.{
  Validators, Stage, compliance_stage, security_stage, pii_stage, validate,
}

module _ {F : Type 0} ⦃js : Runtime F⦄ (validators : Validators F) where
  -- The checks of a stage are kept by the later ones.
  any-security_stage :
      (p : ValidationCheck F → Bool) (request : ParsedRequest F) (before : Stage F)
      → any p before.checks ≡ true
      → any p (security_stage validators request before).result.checks ≡ true
  unfolding security_stage
  any-security_stage p request before h =
      let r = record request { parameters = before.parameters } in
      ground (
        arith,
        h,
        any-append p before.checks (validate_security validators.test validators.settings r).checks,
      )

  any-compliance_stage :
      (p : ValidationCheck F → Bool) (request : ParsedRequest F) (before : Stage F)
      → request.tool.requires_compliance_check ≡ true
      → any p (evaluate validators.services validators.rules request).checks ≡ true
      → any p (compliance_stage validators request before).checks ≡ true
  unfolding compliance_stage
  any-compliance_stage p request before on h = ground (
    arith,
    on,
    h,
    any-append p before.checks (evaluate validators.services validators.rules request).checks,
  )

  -- The checks of the compliance rules are among those of the result.
  any-validate :
      (p : ValidationCheck F → Bool) (request : ParsedRequest F)
      → request.parse_errors ≡ []
      → request.tool.requires_compliance_check ≡ true
      → any p (evaluate validators.services validators.rules request).checks ≡ true
      → any p (validate validators request).result.checks ≡ true
  unfolding validate
  any-validate p request parsed on h = simp (ap is_empty parsed) (
      any-security_stage p request
        (compliance_stage validators request (pii_stage validators request))
        (any-compliance_stage p request (pii_stage validators request) on h))

  -- The check of an enabled rule is among the checks of the rules.
  any-evaluate :
      (p : ValidationCheck F → Bool) (request : ParsedRequest F)
      (before after : List (ComplianceRule F)) (rule : ComplianceRule F)
      → rule.enabled ≡ true
      → p (check_of validators.services (normalized validators.services request) rule) ≡ true
      → any p (evaluate validators.services (before ++ rule ∷ after) request).checks ≡ true
  any-evaluate p request before after rule on h =
      let check = check_of validators.services (normalized validators.services request) in
      let rules = before ++ rule ∷ after in
      ground (
        arith,
        evaluate-checks validators.services rules request,
        any-map p check (enabled_rules rules),
        any-filter (λ r. p (check r)) (λ r. r.enabled) rules,
        any_middle (λ r. r.enabled && p (check r)) before after rule (ground (arith, on, h)),
      )

  -- A request that parses, for a tool that requires the compliance check, is blocked when an enabled
  -- rule with the action BLOCK does not hold for its normalised parameters, provided that the decision
  -- engine finds this rule behind the check.
  pub blocking_rule-block :
      (policy : Policy F) (request received : ParsedRequest F)
      (before after : List (ComplianceRule F)) (rule : ComplianceRule F) (c : Checked F)
      → request.parse_errors ≡ []
      → request.tool.requires_compliance_check ≡ true
      → validators.rules ≡ before ++ rule ∷ after
      → rule.enabled ≡ true
      → rule.action ≡ RuleAction.block
      → run_rule validators.services (normalized validators.services request) rule ≡ returned c
      → c.passed ≡ false
      → rule_of policy.rules
          (check_of validators.services (normalized validators.services request) rule)
        ≡ some rule
      → (decide policy received (validate validators request).result).verdict ≡ Verdict.block
  unfolding check_of
  blocking_rule-block policy request received before after rule c parsed on split enabled blocks run
        failed found =
      let check = check_of validators.services (normalized validators.services request) rule in
      let p : ValidationCheck F → Bool = λ x. is_fail x.status && is_blocking policy.rules x in
      let failing : is_fail check.status ≡ true = ground (arith, run, failed) in
      let checked : any p (validate validators request).result.checks ≡ true =
        any-validate p request parsed on (
          rw split (
            any-evaluate p request before after rule enabled
              (ground (arith, failing, found, blocks)))) in
      decide_blocking policy received (validate validators request).result (
        ground (
          arith,
          checked,
          any-filter (is_blocking policy.rules) (λ x. is_fail x.status)
              (validate validators request).result.checks,
        ))
