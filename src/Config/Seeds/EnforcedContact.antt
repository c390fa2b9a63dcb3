-- ===== src/Config/Seeds/EnforcedContact.antt =====
-- The rules on whom to contact, the variants named "(Enforce)", of `sampleRules` of apps/api/src/config/configuration.service.ts. The version
-- is the default of the column.
use mini_sentinel.Prelude.{true, false, some, [], ◌∷◌}
use mini_sentinel.Values.Json.{null, bool, str, arr, obj, fields_of, of_list}
use mini_sentinel.Values.Runtime.{Runtime}
use mini_sentinel.Types.{ComplianceRule, RuleType, RuleCategory, RuleOperator, RuleAction}

module _ {F : Type 0} ⦃js : Runtime F⦄ where
  abbrev pub cease_communication_enforce : ComplianceRule F
  cease_communication_enforce = record {
    id = "98ce76bc-6abc-48e5-8db4-beb58ff204d6";
    name = "Honour A Cease-Communication Request (Enforce)";
    description = some "Stop direct contact";
    type = RuleType.reg_f;
    category = RuleCategory.behavior;
    enabled = true;
    priority = 10;
    field = "cease_communication_requested";
    operator = RuleOperator.equals;
    value = bool false;
    conditions = some (
        arr (
          of_list (
            obj (
              fields_of (
                ("field", null)
                ∷ ("operator", null)
                ∷ ("value", null)
                ∷ ("value_expression", null)
                ∷ ("type", str "expression")
                ∷ ("conditions", null)
                ∷ ("if", null)
                ∷ ("then", null)
                ∷ ("min", null)
                ∷ ("max", null)
                ∷ ("values", null)
                ∷ ("fields", null)
                ∷ ("expression", str "not cease_communication_requested")
                ∷ []))
            ∷ [])));
    action = RuleAction.block;
    action_params = some (
        obj (
          fields_of (
            ("verdict", str "BLOCK")
            ∷ (
              "message",
              str
                  "Cease-communication in force: FDCPA 15 U.S.C. 1692c(c) requires contact to stop.",
            )
            ∷ [])));
    created_by = "SYSTEM";
    updated_by = "SYSTEM";
    version = 1;
  }

  abbrev pub attorney_contact_enforce : ComplianceRule F
  attorney_contact_enforce = record {
    id = "20149450-1f21-4bfb-8fd4-be1be7f2814d";
    name = "No Direct Contact Where Counsel Is Known (Enforce)";
    description = some "No direct represented client contact";
    type = RuleType.reg_f;
    category = RuleCategory.identity;
    enabled = true;
    priority = 10;
    field = "consumer_represented_by_attorney";
    operator = RuleOperator.equals;
    value = bool false;
    conditions = some (
        arr (
          of_list (
            obj (
              fields_of (
                ("field", null)
                ∷ ("operator", null)
                ∷ ("value", null)
                ∷ ("value_expression", null)
                ∷ ("type", str "expression")
                ∷ ("conditions", null)
                ∷ ("if", null)
                ∷ ("then", null)
                ∷ ("min", null)
                ∷ ("max", null)
                ∷ ("values", null)
                ∷ ("fields", null)
                ∷ ("expression", str "not consumer_represented_by_attorney")
                ∷ []))
            ∷ [])));
    action = RuleAction.block;
    action_params = some (
        obj (
          fields_of (
            ("verdict", str "BLOCK")
            ∷ (
              "message",
              str
                  "Consumer is represented: FDCPA 15 U.S.C. 1692c(a)(2) requires communicating through attorney.",
            )
            ∷ [])));
    created_by = "SYSTEM";
    updated_by = "SYSTEM";
    version = 1;
  }

  abbrev pub third_party_disclosure_enforce : ComplianceRule F
  third_party_disclosure_enforce = record {
    id = "3e1a9c1a-698d-4cc2-85a9-c92d77063ee3";
    name = "No Debt Disclosure To Third Parties (Enforce)";
    description = some "No third party disclosures";
    type = RuleType.reg_f;
    category = RuleCategory.identity;
    enabled = true;
    priority = 10;
    field = "third_party_recipient";
    operator = RuleOperator.equals;
    value = bool false;
    conditions = some (
        arr (
          of_list (
            obj (
              fields_of (
                ("field", null)
                ∷ ("operator", null)
                ∷ ("value", null)
                ∷ ("value_expression", null)
                ∷ ("type", str "expression")
                ∷ ("conditions", null)
                ∷ ("if", null)
                ∷ ("then", null)
                ∷ ("min", null)
                ∷ ("max", null)
                ∷ ("values", null)
                ∷ ("fields", null)
                ∷ ("expression", str "not third_party_recipient")
                ∷ []))
            ∷ [])));
    action = RuleAction.block;
    action_params = some (
        obj (
          fields_of (
            ("verdict", str "BLOCK")
            ∷ (
              "message",
              str
                  "Third-party disclosure: FDCPA 15 U.S.C. 1692c(b) prohibits communicating about the debt.",
            )
            ∷ [])));
    created_by = "SYSTEM";
    updated_by = "SYSTEM";
    version = 1;
  }

  abbrev pub bankruptcy_hold_enforce : ComplianceRule F
  bankruptcy_hold_enforce = record {
    id = "bd3e73bd-e67c-47ea-bd3b-fde358bf3688";
    name = "Bankruptcy Hold (Enforce)";
    description = some "Must be false to communicate with customer";
    type = RuleType.reg_f;
    category = RuleCategory.risk;
    enabled = true;
    priority = 10;
    field = "bankruptcy_hold";
    operator = RuleOperator.equals;
    value = bool false;
    conditions = some (
        arr (
          of_list (
            obj (
              fields_of (
                ("field", null)
                ∷ ("operator", null)
                ∷ ("value", null)
                ∷ ("value_expression", null)
                ∷ ("type", str "expression")
                ∷ ("conditions", null)
                ∷ ("if", null)
                ∷ ("then", null)
                ∷ ("min", null)
                ∷ ("max", null)
                ∷ ("values", null)
                ∷ ("fields", null)
                ∷ ("expression", str "not bankruptcy_hold")
                ∷ []))
            ∷ [])));
    action = RuleAction.block;
    action_params = some (
        obj (
          fields_of (
            ("verdict", str "BLOCK")
            ∷ ("message", str "Bankruptcy Hold is in place for this account.")
            ∷ [])));
    created_by = "SYSTEM";
    updated_by = "SYSTEM";
    version = 1;
  }
