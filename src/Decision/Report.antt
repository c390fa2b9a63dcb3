-- ===== src/Decision/Report.antt =====
-- The factors, the summary, the recommendations and the warnings of `DecisionEngine.decide`
-- (apps/api/src/decision/decision.engine.ts).
use mini_sentinel.Prelude.{
  ℕ, String, Option, none, some, List, [], ◌∷◌, map, if◌then◌else◌, is_empty, text_or, join, ◌^^◌,
}
use mini_sentinel.Values.Json.{Json, str, num}
use mini_sentinel.Values.Runtime.{Runtime, to_string}
use mini_sentinel.Values.Coerce.{opt_prop, first_truthy}
use mini_sentinel.Types.{
  Verdict, Level, high, critical, positive, negative, ValidationCheck, Factor, ComplianceRule,
}
use mini_sentinel.Decision.Scan.{Thresholds, Flags, reaches, rule_of, is_costly}

module _ {F : Type 0} where
  unfoldable pub tool_factors : Level → List (Factor F)
  tool_factors critical =
      record {
        type = "RISK_THRESHOLD";
        description = "Tool risk level is CRITICAL";
        impact = negative;
        weight = 4000;
        value = str "CRITICAL";
      }
      ∷ []
  tool_factors high =
      record {
        type = "RISK_THRESHOLD";
        description = "Tool risk level is HIGH";
        impact = negative;
        weight = 2500;
        value = str "HIGH";
      }
      ∷ []
  tool_factors _ = []

  violation : String → String → ℕ → ValidationCheck F → Factor F
  violation verb otherwise weight c = record {
    type = "COMPLIANCE_VIOLATION";
    description =
        "Validation check '" ^^ c.name ^^ "' " ^^ verb ^^ ": " ^^ text_or c.error otherwise;
    impact = negative;
    weight = weight;
    value = c.result;
  }

  approval : Factor F
  approval = record {
    type = "OPERATIONAL_RISK";
    description = "All validation checks successfully passed within standard parameters.";
    impact = positive;
    weight = 9000;
    value = str "Passed";
  }

  -- `warnings`, of the failed checks when blocked and of the warning checks when escalated
  unfoldable pub warnings_of :
      Verdict → List (ValidationCheck F) → List (ValidationCheck F) → List String
  warnings_of Verdict.approve failed warned = []
  warnings_of Verdict.block failed warned = map (λ c. c.name ^^ " violation") failed
  warnings_of Verdict.escalate failed warned = map (λ c. c.name ^^ " alert") warned

unfoldable pub recommendations_of : Verdict → List String
recommendations_of Verdict.approve = "Proceed with tool execution immediately." ∷ []
recommendations_of Verdict.block =
    "Review parameter values and re-submit with valid compliance data." ∷ []
recommendations_of Verdict.escalate =
    "Await manual compliance officer validation before executing the tool." ∷ []

module _ {F : Type 0} ⦃js : Runtime F⦄ where
  cost_factor : Json F → Factor F
  cost_factor cost = record {
    type = "COST_IMPACT";
    description = "High financial transaction value: $" ^^ to_string cost;
    impact = negative;
    weight = 3000;
    value = cost;
  }

  unfoldable pub cost_factors : Option (Json F) → List (Factor F)
  unfolding is_costly cost_factor
  cost_factors none = []
  cost_factors (some cost) = if is_costly (some cost) then cost_factor cost ∷ [] else []

  -- A risk score as a number of the engine.
  abbrev score_num : ℕ → F
  score_num score = js.lit score 4

  abbrev threshold_value : Option ℕ → Option (Json F)
  threshold_value none = none
  threshold_value (some t) = some (num (score_num t))

  abbrev show_value : Option (Json F) → String
  show_value none = "undefined"
  show_value (some v) = to_string v

  threshold_factor : String → Option ℕ → ℕ → ℕ → Factor F
  threshold_factor kind t weight score = record {
    type = "RISK_THRESHOLD";
    description =
        "Aggregate risk score ("
        ^^ js.to_fixed (score_num score)
        ^^ ") exceeds "
        ^^ kind
        ^^ " threshold ("
        ^^ show_value (threshold_value t)
        ^^ ")";
    impact = negative;
    weight = weight;
    value = num (score_num score);
  }

  -- the factors that part 3 pushes
  unfoldable pub verdict_factors :
      Thresholds → Flags → ℕ → List (ValidationCheck F) → List (Factor F)
  unfolding violation threshold_factor approval
  verdict_factors t f score failed =
      if f.has_block_failure
      then map (violation "failed" "Constraint mismatch" 9000) failed
      else if f.has_escalate_failure
      then map (violation "flagged for escalation" "Triggered policy review" 7500) failed
      else if reaches score t.block
      then threshold_factor "block" t.block 10000 score ∷ []
      else if reaches score t.escalate
      then threshold_factor "escalation" t.escalate 8000 score ∷ []
      else approval ∷ []

  abbrev action_params_of : Option (ComplianceRule F) → Option (Json F)
  action_params_of none = none
  action_params_of (some r) = r.action_params

  abbrev error_value : Option String → Option (Json F)
  error_value none = none
  error_value (some e) = some (str e)

  -- the message of the rule, the error, the reason of the result, or a default
  unfoldable pub detail : List (ComplianceRule F) → String → ValidationCheck F → String
  unfolding rule_of opt_prop first_truthy
  detail rules verb c =
      first_truthy
        (opt_prop (action_params_of (rule_of rules c)) "message"
          ∷ error_value c.error
          ∷ opt_prop (some c.result) "reason"
          ∷ [])
        ("Rule '" ^^ c.name ^^ "' " ^^ verb)

  -- `summary`
  unfoldable pub summary_of :
      Verdict → ℕ → List (ComplianceRule F) → List (ValidationCheck F) → String
  unfolding detail join
  summary_of Verdict.approve score rules failed =
      "Request approved. All security and compliance validation checks passed."
  summary_of Verdict.block score rules failed =
      if is_empty failed
      then "Request blocked due to compliance/security violations."
      else "Request blocked: " ^^ join ", " (map (detail rules "failed") failed)
  summary_of Verdict.escalate score rules failed =
      if is_empty failed
      then "Request escalated to human review. The operation triggered a compliance flag or exceeds risk threshold ("
        ^^ js.to_fixed (score_num score)
        ^^ ")."
      else "Request escalated: " ^^ join ", " (map (detail rules "flagged") failed)
