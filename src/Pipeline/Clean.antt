-- ===== src/Pipeline/Clean.antt =====
-- That a request without failures is approved, through
-- apps/api/src/validation/validation.pipeline.ts and apps/api/src/decision/decision.engine.ts.
use mini_sentinel.Prelude.{
  ℕ, suc, ◌≤◌, String, Bool, true, false, not, List, [], ◌∷◌, ◌++◌, ◌≡◌, ◌⊎◌, inl, inr, refl, sym,
  ◌∙◌, any, all, filter, is_empty, any-append, is_empty-append, arith, Bool-cases,
}
use mini_sentinel.Values.Runtime.{Runtime}
use mini_sentinel.Types.{ParsedRequest, ValidationCheck, is_pass, is_fail, Verdict, low, medium}
use mini_sentinel.Decision.Scan.{
  Policy, default_thresholds, base_risk_score, is_costly, cost_risk, tool_risk,
}
use mini_sentinel.Decision.Engine.{failed_checks, decide}
use mini_sentinel.Decision.Verdicts.{decide-approve_iff}
use mini_sentinel.Compliance.Engine.{evaluate}
use mini_sentinel.Compliance.Outcome.{evaluate-failures, evaluate-passed}
use mini_sentinel.Security.Validator.{
  Performed, issue_failures, size_failure, signature_failure, too_large, lacks_signature, found_in,
  content_failures, performed, number_checks, security_failures, validate_security,
}
use mini_sentinel.Pipeline.Run.{
  Validators, Stage, pii_stage, compliance_stage, security_stage, validate,
}
use mini_sentinel.Pipeline.Verdicts.{validate-passed_iff}

module _ {F : Type 0} where
  abbrev any_fail : List (ValidationCheck F) → Bool
  any_fail cs = any (λ c. is_fail c.status) cs

  any_fail-all :
      (cs : List (ValidationCheck F)) → all (λ c. is_pass c.status) cs ≡ true → any_fail cs ≡ false
  any_fail-all [] h = refl
  any_fail-all (c ∷ cs) h = ground (arith, any_fail-all cs)

  filter-any_fail :
      (cs : List (ValidationCheck F)) → any_fail cs ≡ false → filter (λ c. is_fail c.status) cs ≡ []
  filter-any_fail [] h = refl
  filter-any_fail (c ∷ cs) h = ground (arith, filter-any_fail cs)

is_empty-issue_failures :
    (issues : List String) → is_empty (issue_failures issues) ≡ is_empty issues
unfolding issue_failures
is_empty-issue_failures [] = refl
is_empty-issue_failures (i ∷ is) = refl

module _ {F : Type 0} ⦃js : Runtime F⦄ (validators : Validators F) where
  any_fail-number_checks :
      (idx : ℕ) (ps : List (Performed F))
      → all (λ p. p.passed) ps ≡ true
      → any_fail (number_checks validators.test validators.settings idx ps) ≡ false
  unfolding number_checks
  any_fail-number_checks idx [] h = refl
  any_fail-number_checks idx (p ∷ ps) h = ground (arith, any_fail-number_checks (suc idx) ps)

  is_empty-size_failure :
      (request : ParsedRequest F)
      → is_empty (size_failure validators.test validators.settings request)
        ≡ not (too_large validators.test validators.settings request)
  unfolding size_failure
  is_empty-size_failure request = ground arith

  is_empty-signature_failure :
      (request : ParsedRequest F)
      → is_empty (signature_failure validators.test validators.settings request)
        ≡ not (lacks_signature validators.test validators.settings request)
  unfolding signature_failure
  is_empty-signature_failure request = ground arith

  all-performed :
      (request : ParsedRequest F)
      → is_empty (security_failures validators.test validators.settings request) ≡ true
      → all (λ p. p.passed) (performed validators.test validators.settings request) ≡ true
  unfolding security_failures performed content_failures
  all-performed request h =
      let size = size_failure validators.test validators.settings request in
      let signed = signature_failure validators.test validators.settings request in
      let content = content_failures validators.test validators.settings request in
      let found = found_in validators.test validators.settings request in
      ground (
        arith,
        h,
        is_empty-append size (signed ++ content),
        is_empty-append signed content,
        is_empty-size_failure request,
        is_empty-signature_failure request,
        is_empty-append found.failures (issue_failures found.issues),
        is_empty-issue_failures found.issues,
      )

  -- A security validation that passed has no failed check.
  any_fail-validate_security :
      (request : ParsedRequest F)
      → let s = validate_security validators.test validators.settings request in
        s.passed ≡ true → any_fail s.checks ≡ false
  unfolding validate_security
  any_fail-validate_security request h =
      any_fail-number_checks 0 (performed validators.test validators.settings request)
        (all-performed request h)

  any_fail-pii_stage :
      (request : ParsedRequest F) → any_fail (pii_stage validators request).checks ≡ false
  unfolding pii_stage
  any_fail-pii_stage request = ground arith

  any_fail-compliance_stage :
      (request : ParsedRequest F) (before : Stage F)
      → any_fail before.checks ≡ false
      → is_empty (compliance_stage validators request before).failures ≡ true
      → any_fail (compliance_stage validators request before).checks ≡ false
  unfolding compliance_stage
  any_fail-compliance_stage request before clean h =
      let r = evaluate validators.services validators.rules request in
      let passing = (evaluate-failures validators.services validators.rules request).1 in
      let counted = evaluate-passed validators.services validators.rules request in
      elim (Bool-cases request.tool.requires_compliance_check) [
        | inl on ↦
            let none_failed : is_empty r.failures ≡ true =
              ground (arith, h, on, is_empty-append before.failures r.failures) in
            ground (
              arith,
              on,
              clean,
              any-append (λ c. is_fail c.status) before.checks r.checks,
              any_fail-all r.checks (sym passing ∙ (counted ∙ none_failed)),
            )
        | inr off ↦ grind (arith, off, clean, any-append)
      ]

  any_fail-security_stage :
      (request : ParsedRequest F) (before : Stage F)
      → any_fail before.checks ≡ false
      → (security_stage validators request before).result.passed ≡ true
      → any_fail (security_stage validators request before).result.checks ≡ false
  unfolding security_stage
  any_fail-security_stage request before clean h =
      let r = record request { parameters = before.parameters } in
      let s = validate_security validators.test validators.settings r in
      let none_failed : is_empty s.failures ≡ true =
        ground (arith, h, is_empty-append before.failures s.failures) in
      ground (
        arith,
        clean,
        any-append (λ c. is_fail c.status) before.checks s.checks,
        any_fail-validate_security r (unfold validate_security in none_failed),
      )

  no_failures :
      (request : ParsedRequest F) (before : Stage F)
      → (security_stage validators request before).result.passed ≡ true
      → is_empty before.failures ≡ true
  unfolding security_stage
  no_failures request before h =
      let r = record request { parameters = before.parameters } in
      ground (
        arith,
        h,
        is_empty-append before.failures
            (validate_security validators.test validators.settings r).failures,
      )

  -- A result that has passed has no failed check.
  failed_checks-validate :
      (request : ParsedRequest F)
      → (validate validators request).result.passed ≡ true
      → failed_checks (validate validators request).result ≡ []
  unfolding validate
  failed_checks-validate request h =
      let after = compliance_stage validators request (pii_stage validators request) in
      elim (Bool-cases (is_empty request.parse_errors)) [
        | inr broken ↦ absurd (ground (arith, h, broken))
        | inl parsed ↦
            let passed : (security_stage validators request after).result.passed ≡ true =
              rw parsed at h in
            simp parsed (
              filter-any_fail (security_stage validators request after).result.checks (
                any_fail-security_stage request after
                  (any_fail-compliance_stage request (pii_stage validators request)
                    (any_fail-pii_stage request) (no_failures request after passed))
                  passed))
      ]

  -- Under the default thresholds, a request whose validation has passed is approved when its tool is of
  -- risk level LOW or MEDIUM and its cost is not above the limit.
  pub passed-approve :
      (policy : Policy F) (request received : ParsedRequest F)
      → policy.thresholds ≡ default_thresholds
      → (validate validators request).result.passed ≡ true
      → (received.tool.risk_level ≡ low) ⊎ (received.tool.risk_level ≡ medium)
      → is_costly received.action.cost_estimate ≡ false
      → (decide policy received (validate validators request).result).verdict ≡ Verdict.approve
  unfolding base_risk_score cost_risk tool_risk
  passed-approve policy request received t h tool cheap =
      let result = (validate validators request).result in
      let risk : result.risk_score ≤ 1000 = (validate-passed_iff validators request).0 h in
      let score : base_risk_score received result ≤ 1000 = ground (arith, risk, tool, cheap) in
      (decide-approve_iff policy received result).1 (
        rw (failed_checks-validate request h) tt,
        λ n e. ground (arith, score, e, t),
        λ n e. ground (arith, score, e, t),
      )
