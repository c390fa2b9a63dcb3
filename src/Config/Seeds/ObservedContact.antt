-- ===== src/Config/Seeds/ObservedContact.antt =====
-- The rules on whom to contact, the variants named "(Observe)", of `sampleRules` of apps/api/src/config/configuration.service.ts. The version
-- is the default of the column.
use mini_sentinel.Prelude.{true, false, some, [], ◌∷◌}
use mini_sentinel.Values.Json.{null, bool, str, arr, obj, fields_of, of_list}
use mini_sentinel.Values.Runtime.{Runtime}
use mini_sentinel.Types.{ComplianceRule, RuleType, RuleCategory, RuleOperator, RuleAction}

module _ {F : Type 0} ⦃js : Runtime F⦄ where
  abbrev pub cease_communication_observe : ComplianceRule F
  cease_communication_observe = record {
    id = "efed49f0-30eb-44c1-9618-68c11473d64d";
    name = "Honour A Cease-Communication Request (Observe)";
    description = some "Observe Cease Communication requests";
    type = RuleType.reg_f;
    category = RuleCategory.behavior;
    enabled = true;
    priority = 10;
    field = "cease_communication_requested";
    operator = RuleOperator.equals;
    value = bool false;
    conditions = some (
        arr (
          of_list (
            obj (
              fields_of (
                ("field", null)
                ∷ ("operator", null)
                ∷ ("value", null)
                ∷ ("value_expression", null)
                ∷ ("type", str "expression")
                ∷ ("conditions", null)
                ∷ ("if", null)
                ∷ ("then", null)
                ∷ ("min", null)
                ∷ ("max", null)
                ∷ ("values", null)
                ∷ ("fields", null)
                ∷ ("expression", str "not cease_communication_requested")
                ∷ []))
            ∷ [])));
    action = RuleAction.block;
    action_params = some (
        obj (
          fields_of (
            ("verdict", str "BLOCK")
            ∷ ("message", str "Cease-communication in force: FDCPA 15 U.S.C. 1692c(c).")
            ∷ [])));
    created_by = "SYSTEM";
    updated_by = "SYSTEM";
    version = 1;
  }

  abbrev pub attorney_contact_observe : ComplianceRule F
  attorney_contact_observe = record {
    id = "a1a899e7-7255-448d-b881-309902354306";
    name = "No Direct Contact Where Counsel Is Known (Observe)";
    description = some "Observe attorney direct contact rules";
    type = RuleType.reg_f;
    category = RuleCategory.identity;
    enabled = true;
    priority = 10;
    field = "consumer_represented_by_attorney";
    operator = RuleOperator.equals;
    value = bool false;
    conditions = some (
        arr (
          of_list (
            obj (
              fields_of (
                ("field", null)
                ∷ ("operator", null)
                ∷ ("value", null)
                ∷ ("value_expression", null)
                ∷ ("type", str "expression")
                ∷ ("conditions", null)
                ∷ ("if", null)
                ∷ ("then", null)
                ∷ ("min", null)
                ∷ ("max", null)
                ∷ ("values", null)
                ∷ ("fields", null)
                ∷ ("expression", str "not consumer_represented_by_attorney")
                ∷ []))
            ∷ [])));
    action = RuleAction.block;
    action_params = some (
        obj (
          fields_of (
            ("verdict", str "BLOCK")
            ∷ ("message", str "Consumer is represented: FDCPA 15 U.S.C. 1692c(a)(2).")
            ∷ [])));
    created_by = "SYSTEM";
    updated_by = "SYSTEM";
    version = 1;
  }

  abbrev pub third_party_disclosure_observe : ComplianceRule F
  third_party_disclosure_observe = record {
    id = "728284df-f8c3-44bb-b69b-9481ee60dd82";
    name = "No Debt Disclosure To Third Parties (Observe)";
    description = some "Observe Third Party disclosures";
    type = RuleType.reg_f;
    category = RuleCategory.identity;
    enabled = true;
    priority = 10;
    field = "third_party_recipient";
    operator = RuleOperator.equals;
    value = bool false;
    conditions = some (
        arr (
          of_list (
            obj (
              fields_of (
                ("field", null)
                ∷ ("operator", null)
                ∷ ("value", null)
                ∷ ("value_expression", null)
                ∷ ("type", str "expression")
                ∷ ("conditions", null)
                ∷ ("if", null)
                ∷ ("then", null)
                ∷ ("min", null)
                ∷ ("max", null)
                ∷ ("values", null)
                ∷ ("fields", null)
                ∷ ("expression", str "not third_party_recipient")
                ∷ []))
            ∷ [])));
    action = RuleAction.block;
    action_params = some (
        obj (
          fields_of (
            ("verdict", str "BLOCK")
            ∷ ("message", str "Third-party disclosure: FDCPA 15 U.S.C. 1692c(b).")
            ∷ [])));
    created_by = "SYSTEM";
    updated_by = "SYSTEM";
    version = 1;
  }

  abbrev pub bankruptcy_hold_observe : ComplianceRule F
  bankruptcy_hold_observe = record {
    id = "a2b7c6d5-a3d8-4f76-bc8a-7890bfe1234a";
    name = "Bankruptcy Hold (Observe)";
    description = some "Observe Bankruptcy Hold rules";
    type = RuleType.reg_f;
    category = RuleCategory.risk;
    enabled = true;
    priority = 10;
    field = "bankruptcy_hold";
    operator = RuleOperator.equals;
    value = bool false;
    conditions = some (
        arr (
          of_list (
            obj (
              fields_of (
                ("field", null)
                ∷ ("operator", null)
                ∷ ("value", null)
                ∷ ("value_expression", null)
                ∷ ("type", str "expression")
                ∷ ("conditions", null)
                ∷ ("if", null)
                ∷ ("then", null)
                ∷ ("min", null)
                ∷ ("max", null)
                ∷ ("values", null)
                ∷ ("fields", null)
                ∷ ("expression", str "not bankruptcy_hold")
                ∷ []))
            ∷ [])));
    action = RuleAction.block;
    action_params = some (
        obj (
          fields_of (
            ("verdict", str "BLOCK")
            ∷ ("message", str "Bankruptcy Hold is in place for this account.")
            ∷ [])));
    created_by = "SYSTEM";
    updated_by = "SYSTEM";
    version = 1;
  }
