-- ===== src/Decision/Scan.antt =====
-- Parts 1 to 3 of `DecisionEngine.decide` (apps/api/src/decision/decision.engine.ts): the base risk
-- score, the scan of the failed checks, and the verdict. A threshold that the stored setting lacks is
-- `none`, and a comparison with it is false, as with `undefined`.
use mini_sentinel.Prelude.{
  ℕ, String, Bool, true, false, Option, none, some, List, [], ◌∷◌, max, ◌&&◌, ◌||◌, ◌==◌,
  if◌then◌else◌, leb, find?,
}
use mini_sentinel.Values.Json.{Json}
use mini_sentinel.Values.Runtime.{Runtime}
use mini_sentinel.Values.Coerce.{truthy, number_of}
use mini_sentinel.Types.{
  Verdict, Level, high, critical, ParsedRequest, ValidationCheck, ValidationResult, ComplianceRule,
  RuleAction,
}

pub record Thresholds : Type 0 where
  pub escalate : Option ℕ
  pub block : Option ℕ

-- The default in the call of `configService.get`.
abbrev pub default_thresholds : Thresholds
default_thresholds = record { escalate = some 7000; block = some 9000 }

-- What `decide` reads of the configuration service.
pub record Policy (F : Type 0) : Type 0 where
  pub thresholds : Thresholds
  pub rules : List (ComplianceRule F)

-- `score >= threshold`
abbrev pub reaches : ℕ → Option ℕ → Bool
reaches score none = false
reaches score (some t) = leb t score

unfoldable pub tool_risk : Level → ℕ → ℕ
tool_risk critical score = max score 8500
tool_risk high score = max score 7000
tool_risk _ score = score

pub record Flags : Type 0 where
  pub has_block_failure : Bool
  pub has_escalate_failure : Bool

abbrev pub no_flags : Flags
no_flags = record { has_block_failure = false; has_escalate_failure = false }

abbrev pub act : RuleAction → Flags → Flags
act RuleAction.block f = record f { has_block_failure = true }
act RuleAction.escalate f = record f { has_escalate_failure = true }
act _ f = f

-- the chain of `if`s of part 3
unfoldable pub verdict_of : Thresholds → Flags → ℕ → Verdict
verdict_of t f score =
    if f.has_block_failure
    then Verdict.block
    else if f.has_escalate_failure
    then Verdict.escalate
    else if reaches score t.block
    then Verdict.block
    else if reaches score t.escalate
    then Verdict.escalate
    else Verdict.approve

abbrev pub same_rule_id : Option String → String → Bool
same_rule_id none id = false
same_rule_id (some i) id = id == i

module _ {F : Type 0} where
  -- `r.id === c.ruleId || r.name === c.name`
  abbrev pub is_rule_of : ValidationCheck F → ComplianceRule F → Bool
  is_rule_of c r = same_rule_id c.rule_id r.id || r.name == c.name

  unfoldable pub rule_of : List (ComplianceRule F) → ValidationCheck F → Option (ComplianceRule F)
  rule_of rules c = find? (is_rule_of c) rules

  abbrev pub flag : Option (ComplianceRule F) → Flags → Flags
  flag (some r) f = act r.action f
  flag none f = record f { has_block_failure = true }

  -- the loop over `failedChecks`
  unfoldable pub scan : List (ComplianceRule F) → List (ValidationCheck F) → Flags → Flags
  scan rules [] f = f
  scan rules (c ∷ cs) f = scan rules cs (flag (rule_of rules c) f)

module _ {F : Type 0} ⦃js : Runtime F⦄ where
  -- `cost && cost > 5000`
  unfoldable pub is_costly : Option (Json F) → Bool
  is_costly none = false
  is_costly (some cost) = truthy cost && js.lt (js.lit 5000 0) (number_of cost)

  unfoldable pub cost_risk : Option (Json F) → ℕ → ℕ
  unfolding is_costly
  cost_risk cost score = if is_costly cost then max score 8000 else score

  -- `baseRiskScore` after the contributions of the tool and of the amount
  unfoldable pub base_risk_score : ParsedRequest F → ValidationResult F → ℕ
  unfolding tool_risk cost_risk
  base_risk_score request result =
      cost_risk request.action.cost_estimate (tool_risk request.tool.risk_level result.risk_score)
