-- ===== src/Config/Seeds/Underwriting.antt =====
-- The rules on loans of `sampleRules` of apps/api/src/config/configuration.service.ts. The version
-- is the default of the column.
use mini_sentinel.Prelude.{true, some, [], ◌∷◌}
use mini_sentinel.Values.Json.{null, num, str, arr, obj, fields_of, of_list}
use mini_sentinel.Values.Runtime.{Runtime}
use mini_sentinel.Types.{ComplianceRule, RuleType, RuleCategory, RuleOperator, RuleAction}

module _ {F : Type 0} ⦃js : Runtime F⦄ where
  abbrev pub valid_credit_score_range : ComplianceRule F
  valid_credit_score_range = record {
    id = "191943d5-666c-407a-9ed3-6205571cbfa0";
    name = "Valid Credit Score Range";
    description = some "Credit score must be within valid FICO range";
    type = RuleType.custom;
    category = RuleCategory.risk;
    enabled = true;
    priority = 5;
    field = "credit_score";
    operator = RuleOperator.equals;
    value = num (js.lit 0 0);
    conditions = some (
        arr (
          of_list (
            obj (
              fields_of (
                ("field", str "credit_score")
                ∷ ("operator", null)
                ∷ ("value", null)
                ∷ ("value_expression", null)
                ∷ ("type", str "range")
                ∷ ("conditions", null)
                ∷ ("if", null)
                ∷ ("then", null)
                ∷ ("min", num (js.lit 3000 1))
                ∷ ("max", num (js.lit 8500 1))
                ∷ ("values", null)
                ∷ ("fields", null)
                ∷ ("expression", null)
                ∷ []))
            ∷ [])));
    action = RuleAction.block;
    action_params = some (
        obj (
          fields_of (
            ("verdict", str "BLOCK")
            ∷ ("message", str "Credit score outside valid range (300-850)")
            ∷ [])));
    created_by = "SYSTEM";
    updated_by = "SYSTEM";
    version = 1;
  }

  abbrev pub minimum_credit_score : ComplianceRule F
  minimum_credit_score = record {
    id = "09fd91c9-b1f1-412e-bde4-9a4645ce997a";
    name = "Minimum Credit Score";
    description = some "Credit score must meet minimum threshold";
    type = RuleType.custom;
    category = RuleCategory.risk;
    enabled = true;
    priority = 10;
    field = "credit_score";
    operator = RuleOperator.greater_than_or_equal;
    value = num (js.lit 620 0);
    conditions = some (
        arr (
          of_list (
            obj (
              fields_of (
                ("field", str "credit_score")
                ∷ ("operator", str "gte")
                ∷ ("value", num (js.lit 620 0))
                ∷ ("value_expression", null)
                ∷ ("type", str "threshold")
                ∷ ("conditions", null)
                ∷ ("if", null)
                ∷ ("then", null)
                ∷ ("min", null)
                ∷ ("max", null)
                ∷ ("values", null)
                ∷ ("fields", null)
                ∷ ("expression", null)
                ∷ []))
            ∷ [])));
    action = RuleAction.block;
    action_params = some (
        obj (
          fields_of (
            ("verdict", str "BLOCK")
            ∷ ("message", str "Credit score below minimum threshold of 620")
            ∷ [])));
    created_by = "SYSTEM";
    updated_by = "SYSTEM";
    version = 1;
  }

  abbrev pub maximum_dti_ratio : ComplianceRule F
  maximum_dti_ratio = record {
    id = "4c907171-8921-40ae-8a19-3c22c3bb6f80";
    name = "Maximum DTI Ratio (QM)";
    description = some "Debt-to-income ratio cannot exceed 43%";
    type = RuleType.qm;
    category = RuleCategory.amount;
    enabled = true;
    priority = 20;
    field = "debt_to_income_ratio";
    operator = RuleOperator.less_than_or_equal;
    value = num (js.lit 43 2);
    conditions = some (
        arr (
          of_list (
            obj (
              fields_of (
                ("field", str "debt_to_income_ratio")
                ∷ ("operator", str "lte")
                ∷ ("value", num (js.lit 43 2))
                ∷ ("value_expression", null)
                ∷ ("type", str "threshold")
                ∷ ("conditions", null)
                ∷ ("if", null)
                ∷ ("then", null)
                ∷ ("min", null)
                ∷ ("max", null)
                ∷ ("values", null)
                ∷ ("fields", null)
                ∷ ("expression", null)
                ∷ []))
            ∷ [])));
    action = RuleAction.block;
    action_params = some (
        obj (
          fields_of (("verdict", str "BLOCK") ∷ ("message", str "DTI exceeds 43% QM limit") ∷ [])));
    created_by = "SYSTEM";
    updated_by = "SYSTEM";
    version = 1;
  }

  abbrev pub minimum_employment_history : ComplianceRule F
  minimum_employment_history = record {
    id = "e8613c55-866c-4dca-8184-95cb12672dc1";
    name = "Minimum Employment History";
    description = some "Applicant should have at least 2 years employment history";
    type = RuleType.custom;
    category = RuleCategory.behavior;
    enabled = true;
    priority = 30;
    field = "employment_years";
    operator = RuleOperator.greater_than_or_equal;
    value = num (js.lit 2 0);
    conditions = some (
        arr (
          of_list (
            obj (
              fields_of (
                ("field", str "employment_years")
                ∷ ("operator", str "gte")
                ∷ ("value", num (js.lit 2 0))
                ∷ ("value_expression", null)
                ∷ ("type", str "threshold")
                ∷ ("conditions", null)
                ∷ ("if", null)
                ∷ ("then", null)
                ∷ ("min", null)
                ∷ ("max", null)
                ∷ ("values", null)
                ∷ ("fields", null)
                ∷ ("expression", null)
                ∷ []))
            ∷ [])));
    action = RuleAction.escalate;
    action_params = some (
        obj (
          fields_of (
            ("verdict", str "FLAG")
            ∷ ("message", str "Employment history less than 2 years")
            ∷ [])));
    created_by = "SYSTEM";
    updated_by = "SYSTEM";
    version = 1;
  }
