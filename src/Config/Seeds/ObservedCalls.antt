-- ===== src/Config/Seeds/ObservedCalls.antt =====
-- The rules on the time of a call, the variants named "(Observe)", of `sampleRules` of apps/api/src/config/configuration.service.ts. The version
-- is the default of the column.
use mini_sentinel.Prelude.{true, some, [], ◌∷◌}
use mini_sentinel.Values.Json.{null, num, str, arr, obj, fields_of, of_list}
use mini_sentinel.Values.Runtime.{Runtime}
use mini_sentinel.Types.{ComplianceRule, RuleType, RuleCategory, RuleOperator, RuleAction}

module _ {F : Type 0} ⦃js : Runtime F⦄ where
  abbrev pub call_frequency_observe : ComplianceRule F
  call_frequency_observe = record {
    id = "101964f7-f518-4842-b168-ff6c2ba70e1d";
    name = "No More Than 7 Calls In 7 Days Per Account (Observe)";
    description = some "Observe Reg F call limits";
    type = RuleType.reg_f;
    category = RuleCategory.frequency;
    enabled = true;
    priority = 10;
    field = "calls_last_7_days";
    operator = RuleOperator.less_than_or_equal;
    value = num (js.lit 6 0);
    conditions = some (
        arr (
          of_list (
            obj (
              fields_of (
                ("field", str "calls_last_7_days")
                ∷ ("operator", str "lte")
                ∷ ("value", num (js.lit 6 0))
                ∷ ("value_expression", null)
                ∷ ("type", str "threshold")
                ∷ ("conditions", null)
                ∷ ("if", null)
                ∷ ("then", null)
                ∷ ("min", null)
                ∷ ("max", null)
                ∷ ("values", null)
                ∷ ("fields", null)
                ∷ ("expression", null)
                ∷ []))
            ∷ [])));
    action = RuleAction.block;
    action_params = some (
        obj (
          fields_of (
            ("verdict", str "BLOCK")
            ∷ ("message", str "Call frequency cap: Reg F 12 CFR 1006.14(b)(2)(i).")
            ∷ [])));
    created_by = "SYSTEM";
    updated_by = "SYSTEM";
    version = 1;
  }

  abbrev pub call_cooldown_observe : ComplianceRule F
  call_cooldown_observe = record {
    id = "07c63548-c249-4aed-970d-3e16390fc015";
    name = "7-Day Cooldown After A Telephone Conversation (Observe)";
    description = some "Observe Reg F conversation cooldown";
    type = RuleType.reg_f;
    category = RuleCategory.frequency;
    enabled = true;
    priority = 10;
    field = "days_since_last_conversation";
    operator = RuleOperator.greater_than_or_equal;
    value = num (js.lit 7 0);
    conditions = some (
        arr (
          of_list (
            obj (
              fields_of (
                ("field", str "days_since_last_conversation")
                ∷ ("operator", str "gte")
                ∷ ("value", num (js.lit 7 0))
                ∷ ("value_expression", null)
                ∷ ("type", str "threshold")
                ∷ ("conditions", null)
                ∷ ("if", null)
                ∷ ("then", null)
                ∷ ("min", null)
                ∷ ("max", null)
                ∷ ("values", null)
                ∷ ("fields", null)
                ∷ ("expression", null)
                ∷ []))
            ∷ [])));
    action = RuleAction.block;
    action_params = some (
        obj (
          fields_of (
            ("verdict", str "BLOCK")
            ∷ ("message", str "Post-conversation cooldown: Reg F 12 CFR 1006.14(b)(2)(ii).")
            ∷ [])));
    created_by = "SYSTEM";
    updated_by = "SYSTEM";
    version = 1;
  }

  abbrev pub contact_hours_observe : ComplianceRule F
  contact_hours_observe = record {
    id = "61fc9542-3c93-422b-8eca-5283ff7ef444";
    name = "Contact Only Between 8am And 9pm Consumer Local Time (Observe)";
    description = some "Observe Local Time rules";
    type = RuleType.reg_f;
    category = RuleCategory.behavior;
    enabled = true;
    priority = 10;
    field = "contact_hour_local";
    operator = RuleOperator.equals;
    value = num (js.lit 0 0);
    conditions = some (
        arr (
          of_list (
            obj (
              fields_of (
                ("field", str "contact_hour_local")
                ∷ ("operator", null)
                ∷ ("value", null)
                ∷ ("value_expression", null)
                ∷ ("type", str "range")
                ∷ ("conditions", null)
                ∷ ("if", null)
                ∷ ("then", null)
                ∷ ("min", num (js.lit 80 1))
                ∷ ("max", num (js.lit 200 1))
                ∷ ("values", null)
                ∷ ("fields", null)
                ∷ ("expression", null)
                ∷ []))
            ∷ [])));
    action = RuleAction.block;
    action_params = some (
        obj (
          fields_of (
            ("verdict", str "BLOCK")
            ∷ ("message", str "Inconvenient time: Reg F 12 CFR 1006.6(b)(1)(i).")
            ∷ [])));
    created_by = "SYSTEM";
    updated_by = "SYSTEM";
    version = 1;
  }
