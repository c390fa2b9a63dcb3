-- ===== src/Pipeline/Verdicts.antt =====
-- What the result of `ValidationPipeline.validate` (apps/api/src/validation/validation.pipeline.ts)
-- means: its risk score against its failures, and the verdict of
-- apps/api/src/decision/decision.engine.ts on it.
use mini_sentinel.Prelude.{
  ℕ, ◌≤◌, ◌<◌, String, Bool, true, false, none, List, [], ◌∷◌, ◌++◌, ◌||◌, ◌≡◌, ◌≢◌, ◌↔◌, refl, ap,
  max, if◌then◌else◌, any, is_empty, any-append, is_empty-append, append-nil, Bool-cases, inl, inr,
  arith,
}
use mini_sentinel.Values.Runtime.{Runtime}
use mini_sentinel.Types.{ParsedRequest, ValidationFailure, is_critical, is_high, Verdict}
use mini_sentinel.Decision.Scan.{Policy, default_thresholds, rule_of, base_risk_score}
use mini_sentinel.Decision.Engine.{decide}
use mini_sentinel.Decision.Verdicts.{decide_blocking, decide-approve_iff}
use mini_sentinel.Decision.Risk.{le-base_risk_score}
use mini_sentinel.Compliance.Engine.{evaluate}
use mini_sentinel.Compliance.Outcome.{evaluate-passed}
use mini_sentinel.Security.Validator.{validate_security, security_risk}
use mini_sentinel.Pipeline.Run.{
  Validators, parse_check, parse_rejection, parse_failures, Stage, compliance_risk,
  compliance_stage, security_stage, pii_stage, validate,
}

abbrev pub is_grave : ValidationFailure → Bool
is_grave f = is_critical f.severity || is_high f.severity

any-is_grave :
    (fs : List ValidationFailure)
    → any is_grave fs ≡ (any (λ f. is_critical f.severity) fs || any (λ f. is_high f.severity) fs)
any-is_grave [] = refl
any-is_grave (f ∷ fs) = ground (arith, any-is_grave fs)

le-compliance_risk : (fs : List ValidationFailure) → 4000 ≤ compliance_risk fs
unfolding compliance_risk
le-compliance_risk fs = ground arith

compliance_risk-is_grave :
    (fs : List ValidationFailure) → any is_grave fs ≡ true → 7500 ≤ compliance_risk fs
unfolding compliance_risk
compliance_risk-is_grave fs h = ground (arith, any-is_grave fs)

is_empty-parse_failures :
    (errors : List String) → is_empty (parse_failures errors) ≡ is_empty errors
unfolding parse_failures
is_empty-parse_failures [] = refl
is_empty-parse_failures (e ∷ es) = refl

-- The score of a run of the stages, against its failures.
abbrev IsScored : List ValidationFailure → ℕ → Type 0
IsScored fs n =
    (is_empty fs ≡ true → n ≤ 1000)
    × (is_empty fs ≡ false → 4000 ≤ n)
    × (any is_grave fs ≡ true → 7500 ≤ n)

IsScored-add :
    (fs gs : List ValidationFailure) (m n : ℕ)
    → IsScored fs m
    → (is_empty gs ≡ false → 4000 ≤ n)
    → (any is_grave gs ≡ true → 7500 ≤ n)
    → IsScored (fs ++ gs) (if is_empty gs then m else max m n)
IsScored-add fs [] m n h g1 g2 = rw append-nil h
IsScored-add fs (g ∷ gs) m n (f0, f1, f2) g1 g2 = (
  λ h. absurd (ground (arith, is_empty-append fs (g ∷ gs), h)),
  λ h. ground (arith, g1 refl),
  λ h. ground (arith, any-append is_grave fs (g ∷ gs), h, f2, g2),
)

module _ {F : Type 0} ⦃js : Runtime F⦄ (validators : Validators F) where
  security-risk :
      (request : ParsedRequest F)
      → let s = validate_security validators.test validators.settings request in
        (s.passed ≡ is_empty s.failures) × (s.passed ≡ false → 8000 ≤ s.risk_score)
  unfolding validate_security security_risk
  security-risk request = (refl, λ h. ground arith)

  IsScored-compliance_stage :
      (request : ParsedRequest F) (before : Stage F)
      → IsScored before.failures before.score
      → IsScored
          (compliance_stage validators request before).failures
          (compliance_stage validators request before).score
  unfolding compliance_stage
  IsScored-compliance_stage request before h =
      let r = evaluate validators.services validators.rules request in
      let added =
        IsScored-add before.failures r.failures before.score (compliance_risk r.failures) h
          (λ e. le-compliance_risk r.failures) (compliance_risk-is_grave r.failures) in
      elim (Bool-cases request.tool.requires_compliance_check) [
        | inl on ↦ simp (on, evaluate-passed validators.services validators.rules request) added
        | inr off ↦ simp off h
      ]

  IsScored-security_stage :
      (request : ParsedRequest F) (before : Stage F)
      → IsScored before.failures before.score
      → IsScored
          (security_stage validators request before).result.failures
          (security_stage validators request before).result.risk_score
  unfolding security_stage validate_security
  IsScored-security_stage request before h =
      let r = record request { parameters = before.parameters } in
      let s = validate_security validators.test validators.settings r in
      let risk = security-risk r in
      IsScored-add before.failures s.failures before.score s.risk_score h
        (λ e. ground (arith, risk.1 e)) (λ e. ground (arith, risk.1, e))

  IsScored-pii_stage :
      (request : ParsedRequest F)
      → IsScored (pii_stage validators request).failures (pii_stage validators request).score
  unfolding pii_stage
  IsScored-pii_stage request = ground arith

  IsScored-validate :
      (request : ParsedRequest F)
      → IsScored
          (validate validators request).result.failures
          (validate validators request).result.risk_score
  unfolding validate pii_stage parse_rejection
  IsScored-validate request = elim (Bool-cases (is_empty request.parse_errors)) [
    | inl clean ↦ simp clean (
        IsScored-security_stage request
          (compliance_stage validators request (pii_stage validators request))
          (IsScored-compliance_stage request (pii_stage validators request)
            (IsScored-pii_stage request)))
    | inr broken ↦ simp broken (
      λ h. absurd (ground (arith, is_empty-parse_failures request.parse_errors)),
      λ h. omega arith,
      λ h. omega arith,
    )
  ]

module _ {F : Type 0} ⦃js : Runtime F⦄ (validators : Validators F) where
  -- The validation has passed exactly when its risk score is at most that of redacted personal data,
  -- 0.1.
  pub validate-passed_iff :
      (request : ParsedRequest F)
      → ((validate validators request).result.passed ≡ true)
        ↔ ((validate validators request).result.risk_score ≤ 1000)
  unfolding validate pii_stage compliance_stage security_stage parse_rejection
  validate-passed_iff request =
      let scored = IsScored-validate validators request in
      let passed : (validate validators request).result.passed
          ≡ is_empty (validate validators request).result.failures =
        ground arith in
      (λ h. scored.0 (ground (arith, passed)), λ h. ground (arith, passed, scored.1))

  -- Under the default thresholds, no request with a failure of severity HIGH or CRITICAL is approved,
  -- whatever the rules and the status of the checks are, a rule that threw an error included.
  pub grave-ne-approve :
      (policy : Policy F) (request received : ParsedRequest F)
      → policy.thresholds ≡ default_thresholds
      → any is_grave (validate validators request).result.failures ≡ true
      → (decide policy received (validate validators request).result).verdict ≢ Verdict.approve
  grave-ne-approve policy request received t h e =
      let result = (validate validators request).result in
      let scored = IsScored-validate validators request in
      let (tolerated, below_block, below_escalate) =
        (decide-approve_iff policy received result).0 e in
      let below : base_risk_score received result < 7000 =
        below_escalate 7000 (ap (λ x. x.escalate) t) in
      absurd (ground (arith, below, scored.2 h, le-base_risk_score received result))

  -- A request that does not parse is blocked, with a risk score of 1.0, unless the decision engine finds
  -- a rule behind the check of the parser.
  pub unparsed-block :
      (policy : Policy F) (request received : ParsedRequest F)
      → is_empty request.parse_errors ≡ false
      → rule_of policy.rules (parse_check request.parse_errors) ≡ none
      → ((decide policy received (validate validators request).result).verdict ≡ Verdict.block)
        × ((validate validators request).result.risk_score ≡ 10000)
  unfolding validate parse_rejection parse_check
  unparsed-block policy request received broken unnamed = simp broken (
    decide_blocking policy received (parse_rejection request).result (ground (arith, unnamed)),
    refl,
  )
