-- ===== src/Decision/Verdicts.antt =====
-- When `DecisionEngine.decide` (apps/api/src/decision/decision.engine.ts) approves, escalates or
-- blocks, in terms of the rules behind the failed checks.
use mini_sentinel.Prelude.{
  ℕ, ◌<◌, Bool, true, false, Option, none, some, List, [], ◌∷◌, ◌||◌, ◌≡◌, refl, ◌≢◌, ◌↔◌, inl, inr,
  any, All, arith, Option-cases,
}
use mini_sentinel.Values.Runtime.{Runtime}
use mini_sentinel.Types.{
  Verdict, ParsedRequest, ValidationCheck, ValidationResult, ComplianceRule, RuleAction,
}
use mini_sentinel.Decision.Scan.{
  Policy, Flags, no_flags, flag, rule_of, scan, reaches, verdict_of, base_risk_score,
}
use mini_sentinel.Decision.Engine.{failed_checks, decide}

abbrev pub blocks : RuleAction → Bool
blocks RuleAction.block = true
blocks _ = false

abbrev pub escalates : RuleAction → Bool
escalates RuleAction.escalate = true
escalates _ = false

module _ {F : Type 0} (rules : List (ComplianceRule F)) where
  abbrev blocking : Option (ComplianceRule F) → Bool
  blocking none = true
  blocking (some r) = blocks r.action

  abbrev escalating : Option (ComplianceRule F) → Bool
  escalating none = false
  escalating (some r) = escalates r.action

  -- A failed check that no rule stands behind, or a rule that blocks.
  abbrev pub is_blocking : ValidationCheck F → Bool
  is_blocking c = blocking (rule_of rules c)

  abbrev pub is_escalating : ValidationCheck F → Bool
  is_escalating c = escalating (rule_of rules c)

  scan-block :
      (cs : List (ValidationCheck F)) (f : Flags)
      → (scan rules cs f).has_block_failure ≡ (f.has_block_failure || any is_blocking cs)
  unfolding scan
  scan-block [] f = ground arith
  scan-block (c ∷ cs) f = ground (arith, scan-block cs (flag (rule_of rules c) f))

  scan-escalate :
      (cs : List (ValidationCheck F)) (f : Flags)
      → (scan rules cs f).has_escalate_failure ≡ (f.has_escalate_failure || any is_escalating cs)
  unfolding scan
  scan-escalate [] f = ground arith
  scan-escalate (c ∷ cs) f = ground (arith, scan-escalate cs (flag (rule_of rules c) f))

  -- A rule stands behind the failed check, and its action neither blocks nor escalates.
  abbrev pub IsTolerated : ValidationCheck F → Type 0
  IsTolerated c =
      (r : ComplianceRule F) × (rule_of rules c ≡ some r)
      × (r.action ≢ RuleAction.block)
      × (r.action ≢ RuleAction.escalate)

  IsTolerated-no_flags :
      (c : ValidationCheck F) → is_blocking c ≡ false → is_escalating c ≡ false → IsTolerated c
  IsTolerated-no_flags c b e = elim (Option-cases (rule_of rules c)) [
    | inl missing ↦ absurd (ground arith)
    | inr (r, found) ↦ (r, found, ground arith, ground arith)
  ]

  All-IsTolerated :
      (cs : List (ValidationCheck F))
      → any is_blocking cs ≡ false
      → any is_escalating cs ≡ false
      → All IsTolerated cs
  All-IsTolerated [] b e = tt
  All-IsTolerated (c ∷ cs) b e = (
    IsTolerated-no_flags c (ground arith) (ground arith),
    All-IsTolerated cs (ground arith) (ground arith),
  )

  no_flags-IsTolerated :
      (c : ValidationCheck F) → IsTolerated c → (is_blocking c ≡ false) × (is_escalating c ≡ false)
  no_flags-IsTolerated c (r, found, b, e) = ground arith

  any-All-IsTolerated :
      (cs : List (ValidationCheck F))
      → All IsTolerated cs
      → (any is_blocking cs ≡ false) × (any is_escalating cs ≡ false)
  any-All-IsTolerated [] h = (refl, refl)
  any-All-IsTolerated (c ∷ cs) (h, hs) =
      ground (arith, no_flags-IsTolerated c h, any-All-IsTolerated cs hs)

-- The score is below a threshold, where one is set.
abbrev pub IsBelow : ℕ → Option ℕ → Type 0
IsBelow score t = (n : ℕ) → t ≡ some n → score < n

IsBelow-reaches : (score : ℕ) (t : Option ℕ) → reaches score t ≡ false → IsBelow score t
IsBelow-reaches score none h n e = cc
IsBelow-reaches score (some m) h n e = ground arith

reaches-IsBelow : (score : ℕ) (t : Option ℕ) → IsBelow score t → reaches score t ≡ false
reaches-IsBelow score none h = refl
reaches-IsBelow score (some m) h = ground (arith, h m refl)

module _ {F : Type 0} ⦃js : Runtime F⦄ (policy : Policy F) where
  verdict_flags :
      (request : ParsedRequest F) (result : ValidationResult F)
      → (decide policy request result).verdict
        ≡ verdict_of policy.thresholds
            (record {
              has_block_failure = any (is_blocking policy.rules) (failed_checks result);
              has_escalate_failure = any (is_escalating policy.rules) (failed_checks result);
            })
            (base_risk_score request result)
  unfolding decide
  verdict_flags request result =
      let failed = failed_checks result in
      ground
        (arith, scan-block policy.rules failed no_flags, scan-escalate policy.rules failed no_flags)

  -- A request is approved exactly when every failed check has a rule whose action neither blocks nor
  -- escalates, and the base risk score is below each of the two thresholds that is set.
  pub decide-approve_iff :
      (request : ParsedRequest F) (result : ValidationResult F)
      → ((decide policy request result).verdict ≡ Verdict.approve) ↔ (
          All (IsTolerated policy.rules) (failed_checks result)
          × IsBelow (base_risk_score request result) policy.thresholds.block
          × IsBelow (base_risk_score request result) policy.thresholds.escalate)
  unfolding verdict_of
  decide-approve_iff request result = (
    λ e. (
      All-IsTolerated policy.rules (failed_checks result)
          (ground (arith, verdict_flags request result))
          (ground (arith, verdict_flags request result)),
      IsBelow-reaches _ _ (ground (arith, verdict_flags request result)),
      IsBelow-reaches _ _ (ground (arith, verdict_flags request result)),
    ),
    λ h.
        let (tolerated, below_block, below_escalate) = h in
        ground (
          arith,
          verdict_flags request result,
          any-All-IsTolerated policy.rules (failed_checks result) tolerated,
          reaches-IsBelow _ _ below_block,
          reaches-IsBelow _ _ below_escalate,
        ),
  )

  -- A failed check with no rule, or with a rule that blocks, blocks the request whatever else holds.
  pub decide_blocking :
      (request : ParsedRequest F) (result : ValidationResult F)
      → any (is_blocking policy.rules) (failed_checks result) ≡ true
      → (decide policy request result).verdict ≡ Verdict.block
  unfolding verdict_of
  decide_blocking request result h = ground (arith, verdict_flags request result)

  -- If no failed check blocks and one escalates, the request is escalated whatever its risk score,
  -- also where the score reaches the threshold for a block.
  pub decide_escalating :
      (request : ParsedRequest F) (result : ValidationResult F)
      → any (is_blocking policy.rules) (failed_checks result) ≡ false
      → any (is_escalating policy.rules) (failed_checks result) ≡ true
      → (decide policy request result).verdict ≡ Verdict.escalate
  unfolding verdict_of
  decide_escalating request result n h = ground (arith, verdict_flags request result)
