-- ===== src/Types/Encode.antt =====
-- The typed values of apps/api/src/common/types.ts as the JSON that the audit table stores. The
-- durations (`durationMs`, `validationTime`) are left out, as in the types.
use mini_sentinel.Prelude.{ℕ, String, Option, none, some, List, [], ◌∷◌, map}
use mini_sentinel.Values.Json.{Json, bool, num, str, arr, obj, nil, of_list, object}
use mini_sentinel.Values.Runtime.{Runtime}
use mini_sentinel.Types.{
  Verdict, Level, low, medium, high, critical, ToolDefinition, ActionDefinition, ParsedRequest,
  ValidationType, pii_detection, pii_redaction, reg_f_compliance, qm_compliance, ofac_compliance,
  security_validation, schema_validation, business_logic, CheckStatus, pass, fail, warning, skipped,
  error, ValidationFailure, ValidationCheck, ValidationResult, Impact, positive, negative, neutral,
  Factor, DecisionReasoning, ValidationSummary, Decision,
}

abbrev pub verdict_name : Verdict → String
verdict_name Verdict.approve = "APPROVE"
verdict_name Verdict.block = "BLOCK"
verdict_name Verdict.escalate = "ESCALATE"

abbrev level_name : Level → String
level_name low = "LOW"
level_name medium = "MEDIUM"
level_name high = "HIGH"
level_name critical = "CRITICAL"

abbrev type_name : ValidationType → String
type_name pii_detection = "PII_DETECTION"
type_name pii_redaction = "PII_REDACTION"
type_name reg_f_compliance = "REG_F_COMPLIANCE"
type_name qm_compliance = "QM_COMPLIANCE"
type_name ofac_compliance = "OFAC_COMPLIANCE"
type_name security_validation = "SECURITY_VALIDATION"
type_name schema_validation = "SCHEMA_VALIDATION"
type_name business_logic = "BUSINESS_LOGIC"

abbrev status_name : CheckStatus → String
status_name pass = "PASS"
status_name fail = "FAIL"
status_name warning = "WARNING"
status_name skipped = "SKIPPED"
status_name error = "ERROR"

abbrev impact_name : Impact → String
impact_name positive = "POSITIVE"
impact_name negative = "NEGATIVE"
impact_name neutral = "NEUTRAL"

module _ {F : Type 0} where
  abbrev text_json : Option String → Option (Json F)
  text_json none = none
  text_json (some s) = some (str s)

  abbrev texts_json : List String → Json F
  texts_json ss = arr (of_list (map str ss))

  abbrev pub failure_json : ValidationFailure → Json F
  failure_json f = obj (
      object (
        ("rule", some (str f.rule))
        ∷ ("reason", some (str f.reason))
        ∷ ("severity", some (str (level_name f.severity)))
        ∷ []))

  abbrev pub failures_json : List ValidationFailure → Json F
  failures_json fs = arr (of_list (map failure_json fs))

  check_json : ValidationCheck F → Json F
  check_json c = obj (
      object (
        ("id", some (str c.id))
        ∷ ("type", some (str (type_name c.type)))
        ∷ ("name", some (str c.name))
        ∷ ("description", some (str c.description))
        ∷ ("status", some (str (status_name c.status)))
        ∷ ("result", some c.result)
        ∷ ("error", text_json c.error)
        ∷ ("ruleId", text_json c.rule_id)
        ∷ []))

module _ {F : Type 0} ⦃js : Runtime F⦄ where
  abbrev score_json : ℕ → Json F
  score_json n = num (js.lit n 4)

  abbrev count_json : ℕ → Json F
  count_json n = num (js.lit n 0)

  unfoldable pub result_json : ValidationResult F → Json F
  unfolding object check_json
  result_json r = obj (
      object (
        ("passed", some (bool r.passed))
        ∷ ("failures", some (failures_json r.failures))
        ∷ ("riskScore", some (score_json r.risk_score))
        ∷ ("checks", some (arr (of_list (map check_json r.checks))))
        ∷ []))

  factor_json : Factor F → Json F
  factor_json f = obj (
      object (
        ("type", some (str f.type))
        ∷ ("description", some (str f.description))
        ∷ ("impact", some (str (impact_name f.impact)))
        ∷ ("weight", some (score_json f.weight))
        ∷ ("value", some f.value)
        ∷ []))

  details_json : DecisionReasoning F → Json F
  unfolding factor_json
  details_json d = obj (
      object (
        ("summary", some (str d.summary))
        ∷ ("factors", some (arr (of_list (map factor_json d.factors))))
        ∷ ("recommendations", some (texts_json d.recommendations))
        ∷ ("warnings", elim d.warnings [ none ↦ none | some ws ↦ some (texts_json ws) ])
        ∷ []))

  summary_json : ValidationSummary F → Json F
  summary_json s = obj (
      object (
        ("totalChecks", some (count_json s.total_checks))
        ∷ ("passedChecks", some (count_json s.passed_checks))
        ∷ ("failedChecks", some (count_json s.failed_checks))
        ∷ ("failures", some (failures_json s.failures))
        ∷ []))

  -- a decision taken at `now`
  unfoldable pub decision_json : String → Decision F → Json F
  unfolding object details_json summary_json
  decision_json now d = obj (
      object (
        ("verdict", some (str (verdict_name d.verdict)))
        ∷ ("requestId", some (str d.request_id))
        ∷ ("timestamp", some (str now))
        ∷ ("riskScore", some (score_json d.risk_score))
        ∷ ("reasoning", some (str d.reasoning))
        ∷ (
          "reasoningDetails",
          elim d.reasoning_details [ none ↦ none | some r ↦ some (details_json r) ],
        )
        ∷ (
          "validationSummary",
          elim d.validation_summary [ none ↦ none | some s ↦ some (summary_json s) ],
        )
        ∷ []))

  tool_json : ToolDefinition → Json F
  tool_json t = obj (
      object (
        ("id", some (str t.id))
        ∷ ("name", some (str t.name))
        ∷ ("category", some (str t.category))
        ∷ ("riskLevel", some (str (level_name t.risk_level)))
        ∷ ("requiresPiiRedaction", some (bool t.requires_pii_redaction))
        ∷ ("requiresComplianceCheck", some (bool t.requires_compliance_check))
        ∷ ("maxExecutionTimeMs", some (count_json t.max_execution_time_ms))
        ∷ []))

  -- the action that the parser makes up, which has no side effects
  action_json : ActionDefinition F → Json F
  action_json a = obj (
      object (
        ("name", some (str a.name))
        ∷ ("description", some (str a.description))
        ∷ ("sideEffects", some (arr nil))
        ∷ ("costEstimate", a.cost_estimate)
        ∷ []))

  unfoldable pub request_json : ParsedRequest F → Json F
  unfolding object tool_json action_json
  request_json r = obj (
      object (
        ("id", some (str r.id))
        ∷ ("agentId", some (str r.agent_id))
        ∷ ("sessionId", some (str r.session_id))
        ∷ ("timestamp", some (str r.timestamp))
        ∷ ("tool", some (tool_json r.tool))
        ∷ ("action", some (action_json r.action))
        ∷ ("parameters", some (obj r.parameters))
        ∷ ("metadata", some r.metadata)
        ∷ ("raw", some r.raw)
        ∷ ("parseErrors", some (texts_json r.parse_errors))
        ∷ []))
