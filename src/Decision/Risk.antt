-- ===== src/Decision/Risk.antt =====
-- How the risk score and the risk level of the tool act on the verdict of `DecisionEngine.decide`
-- (apps/api/src/decision/decision.engine.ts).
use mini_sentinel.Prelude.{ℕ, ◌≤◌, ◌≡◌, ◌≢◌, ◌⊎◌, arith}
use mini_sentinel.Values.Runtime.{Runtime}
use mini_sentinel.Types.{Verdict, Level, high, critical, ParsedRequest, ValidationResult}
use mini_sentinel.Decision.Scan.{
  Thresholds, default_thresholds, Policy, Flags, verdict_of, base_risk_score, tool_risk,
}
use mini_sentinel.Decision.Engine.{flags_of, decide}

abbrev pub rank : Verdict → ℕ
rank Verdict.approve = 0
rank Verdict.escalate = 1
rank Verdict.block = 2

verdict_of_mono :
    (t : Thresholds) (f : Flags) (s s' : ℕ)
    → s ≤ s'
    → rank (verdict_of t f s) ≤ rank (verdict_of t f s')
unfolding verdict_of
verdict_of_mono t f s s' h = ground arith

tool_risk_mono : (l : Level) (s s' : ℕ) → s ≤ s' → tool_risk l s ≤ tool_risk l s'
unfolding tool_risk
tool_risk_mono high s s' h = omega arith
tool_risk_mono critical s s' h = omega arith
tool_risk_mono _ s s' h = h

le-tool_risk : (l : Level) (s : ℕ) → s ≤ tool_risk l s
unfolding tool_risk
le-tool_risk high s = omega arith
le-tool_risk critical s = omega arith
le-tool_risk _ s = omega arith

module _ {F : Type 0} ⦃js : Runtime F⦄ where
  -- The base score is at least the score of the validation, and grows with it.
  pub le-base_risk_score :
      (request : ParsedRequest F) (result : ValidationResult F)
      → result.risk_score ≤ base_risk_score request result
  unfolding base_risk_score
  le-base_risk_score request result =
      ground (arith, le-tool_risk request.tool.risk_level result.risk_score)

  base_risk_score_mono :
      (request : ParsedRequest F) (result : ValidationResult F) (n : ℕ)
      → result.risk_score ≤ n
      → base_risk_score request result ≤ base_risk_score request (record result { risk_score = n })
  unfolding base_risk_score
  base_risk_score_mono request result n h =
      ground (arith, tool_risk_mono request.tool.risk_level result.risk_score n h)

  -- With the same checks, a higher risk score of the validation never weakens the verdict, in the
  -- order approve, escalate, block, whatever the thresholds are.
  pub decide_mono :
      (policy : Policy F) (request : ParsedRequest F) (result : ValidationResult F) (n : ℕ)
      → result.risk_score ≤ n
      → rank (decide policy request result).verdict
        ≤ rank (decide policy request (record result { risk_score = n })).verdict
  unfolding decide flags_of
  decide_mono policy request result n h =
      verdict_of_mono policy.thresholds _ _ _ (base_risk_score_mono request result n h)

  high_tool_score :
      (request : ParsedRequest F) (result : ValidationResult F)
      → (request.tool.risk_level ≡ high) ⊎ (request.tool.risk_level ≡ critical)
      → 7000 ≤ base_risk_score request result
  unfolding base_risk_score
  high_tool_score request result h = ground arith

  -- Under the default thresholds a tool of risk level HIGH or CRITICAL is never approved, whatever the
  -- parameters of the request, the rules, and the outcome of the checks.
  pub high_tool-ne-approve :
      (policy : Policy F) (request : ParsedRequest F) (result : ValidationResult F)
      → policy.thresholds ≡ default_thresholds
      → (request.tool.risk_level ≡ high) ⊎ (request.tool.risk_level ≡ critical)
      → (decide policy request result).verdict ≢ Verdict.approve
  unfolding decide verdict_of
  high_tool-ne-approve policy request result t h = ground (arith, high_tool_score request result h)
