-- ===== src/Config/Seeds/EnforcedCalls.antt =====
-- The rules on the time of a call, the variants named "(Enforce)", of `sampleRules` of apps/api/src/config/configuration.service.ts. The version
-- is the default of the column.
use mini_sentinel.Prelude.{true, some, [], ◌∷◌}
use mini_sentinel.Values.Json.{null, num, str, arr, obj, fields_of, of_list}
use mini_sentinel.Values.Runtime.{Runtime}
use mini_sentinel.Types.{ComplianceRule, RuleType, RuleCategory, RuleOperator, RuleAction}

module _ {F : Type 0} ⦃js : Runtime F⦄ where
  abbrev pub call_frequency_enforce : ComplianceRule F
  call_frequency_enforce = record {
    id = "9d26163d-0a45-4d86-bbed-402c83fb2503";
    name = "No More Than 7 Calls In 7 Days Per Account (Enforce)";
    description = some "Reg F call frequency cap";
    type = RuleType.reg_f;
    category = RuleCategory.frequency;
    enabled = true;
    priority = 10;
    field = "calls_last_7_days";
    operator = RuleOperator.less_than_or_equal;
    value = num (js.lit 6 0);
    conditions = some (
        arr (
          of_list (
            obj (
              fields_of (
                ("field", str "calls_last_7_days")
                ∷ ("operator", str "lte")
                ∷ ("value", num (js.lit 6 0))
                ∷ ("value_expression", null)
                ∷ ("type", str "threshold")
                ∷ ("conditions", null)
                ∷ ("if", null)
                ∷ ("then", null)
                ∷ ("min", null)
                ∷ ("max", null)
                ∷ ("values", null)
                ∷ ("fields", null)
                ∷ ("expression", null)
                ∷ []))
            ∷ [])));
    action = RuleAction.block;
    action_params = some (
        obj (
          fields_of (
            ("verdict", str "BLOCK")
            ∷ (
              "message",
              str
                  "Call frequency cap: Reg F 12 CFR 1006.14(b)(2)(i) presumes a violation above 7 calls about one debt within 7 consecutive days.",
            )
            ∷ [])));
    created_by = "SYSTEM";
    updated_by = "SYSTEM";
    version = 1;
  }

  abbrev pub call_cooldown_enforce : ComplianceRule F
  call_cooldown_enforce = record {
    id = "5231528a-0f4f-4cb4-bc44-02ef1f688046";
    name = "7-Day Cooldown After A Telephone Conversation (Enforce)";
    description = some "Reg F post-conversation cooldown";
    type = RuleType.reg_f;
    category = RuleCategory.frequency;
    enabled = true;
    priority = 10;
    field = "days_since_last_conversation";
    operator = RuleOperator.greater_than_or_equal;
    value = num (js.lit 7 0);
    conditions = some (
        arr (
          of_list (
            obj (
              fields_of (
                ("field", str "days_since_last_conversation")
                ∷ ("operator", str "gte")
                ∷ ("value", num (js.lit 7 0))
                ∷ ("value_expression", null)
                ∷ ("type", str "threshold")
                ∷ ("conditions", null)
                ∷ ("if", null)
                ∷ ("then", null)
                ∷ ("min", null)
                ∷ ("max", null)
                ∷ ("values", null)
                ∷ ("fields", null)
                ∷ ("expression", null)
                ∷ []))
            ∷ [])));
    action = RuleAction.block;
    action_params = some (
        obj (
          fields_of (
            ("verdict", str "BLOCK")
            ∷ (
              "message",
              str
                  "Post-conversation cooldown: Reg F 12 CFR 1006.14(b)(2)(ii) presumes a violation where the consumer is called about a debt within 7 consecutive days of a telephone conversation.",
            )
            ∷ [])));
    created_by = "SYSTEM";
    updated_by = "SYSTEM";
    version = 1;
  }

  abbrev pub contact_hours_enforce : ComplianceRule F
  contact_hours_enforce = record {
    id = "98d376da-61df-467b-9b40-4a0d19c97745";
    name = "Contact Only Between 8am And 9pm Consumer Local Time (Enforce)";
    description = some "Contact only convenient times";
    type = RuleType.reg_f;
    category = RuleCategory.behavior;
    enabled = true;
    priority = 10;
    field = "contact_hour_local";
    operator = RuleOperator.equals;
    value = num (js.lit 0 0);
    conditions = some (
        arr (
          of_list (
            obj (
              fields_of (
                ("field", str "contact_hour_local")
                ∷ ("operator", null)
                ∷ ("value", null)
                ∷ ("value_expression", null)
                ∷ ("type", str "range")
                ∷ ("conditions", null)
                ∷ ("if", null)
                ∷ ("then", null)
                ∷ ("min", num (js.lit 80 1))
                ∷ ("max", num (js.lit 200 1))
                ∷ ("values", null)
                ∷ ("fields", null)
                ∷ ("expression", null)
                ∷ []))
            ∷ [])));
    action = RuleAction.block;
    action_params = some (
        obj (
          fields_of (
            ("verdict", str "BLOCK")
            ∷ (
              "message",
              str
                  "Inconvenient time: Reg F 12 CFR 1006.6(b)(1)(i) prohibits contact before 8:00 a.m. or after 9:00 p.m. local time.",
            )
            ∷ [])));
    created_by = "SYSTEM";
    updated_by = "SYSTEM";
    version = 1;
  }
