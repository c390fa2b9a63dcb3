-- ===== src/Config/Seeds/Settings.antt =====
-- The settings that `bootstrapDatabase` of apps/api/src/config/configuration.service.ts creates. The
-- version and the activity are the defaults of the columns.
use mini_sentinel.Prelude.{true, false, some, [], ◌∷◌}
use mini_sentinel.Values.Json.{bool, num, str, arr, obj, fields_of, of_list}
use mini_sentinel.Values.Runtime.{Runtime}
use mini_sentinel.Config.Rows.{Setting, ValueType}

module _ {F : Type 0} ⦃js : Runtime F⦄ where
  abbrev pub risk_thresholds : Setting F
  risk_thresholds = record {
    key = "risk_thresholds";
    value = obj (fields_of (("escalate", num (js.lit 7 1)) ∷ ("block", num (js.lit 9 1)) ∷ []));
    value_type = ValueType.object;
    description = some "Risk thresholds for verdicts";
    version = 1;
    is_active = true;
    created_by = "SYSTEM";
    updated_by = "SYSTEM";
  }

  abbrev pub execution_mode : Setting F
  execution_mode = record {
    key = "execution_mode";
    value = str "ENFORCE";
    value_type = ValueType.string;
    description = some "Global execution mode (ENFORCE or OBSERVE)";
    version = 1;
    is_active = true;
    created_by = "SYSTEM";
    updated_by = "SYSTEM";
  }

  abbrev pub security_settings : Setting F
  security_settings = record {
    key = "security_settings";
    value = obj (
        fields_of (
          ("enablePromptInjectionDetection", bool true)
          ∷ ("maxRequestSizeBytes", num (js.lit 1048576 0))
          ∷ ("requireRequestSignatures", bool false)
          ∷ []));
    value_type = ValueType.object;
    description = some "Global security validation settings";
    version = 1;
    is_active = true;
    created_by = "SYSTEM";
    updated_by = "SYSTEM";
  }

  abbrev pub tools : Setting F
  tools = record {
    key = "tools";
    value = arr (
        of_list (
          obj (
            fields_of (
              ("id", str "payment-processor")
              ∷ ("name", str "payment-processor")
              ∷ ("category", str "EXTERNAL_SERVICE")
              ∷ ("riskLevel", str "HIGH")
              ∷ ("requiresPiiRedaction", bool true)
              ∷ ("requiresComplianceCheck", bool true)
              ∷ ("maxExecutionTimeMs", num (js.lit 2000 0))
              ∷ []))
          ∷ obj (
              fields_of (
                ("id", str "customer-database")
                ∷ ("name", str "customer-database")
                ∷ ("category", str "DATABASE")
                ∷ ("riskLevel", str "MEDIUM")
                ∷ ("requiresPiiRedaction", bool true)
                ∷ ("requiresComplianceCheck", bool false)
                ∷ ("maxExecutionTimeMs", num (js.lit 1000 0))
                ∷ []))
          ∷ obj (
              fields_of (
                ("id", str "loan-underwriter")
                ∷ ("name", str "loan-underwriter")
                ∷ ("category", str "INTERNAL_SERVICE")
                ∷ ("riskLevel", str "HIGH")
                ∷ ("requiresPiiRedaction", bool false)
                ∷ ("requiresComplianceCheck", bool true)
                ∷ ("maxExecutionTimeMs", num (js.lit 1500 0))
                ∷ []))
          ∷ obj (
              fields_of (
                ("id", str "email-sender")
                ∷ ("name", str "email-sender")
                ∷ ("category", str "EXTERNAL_SERVICE")
                ∷ ("riskLevel", str "LOW")
                ∷ ("requiresPiiRedaction", bool true)
                ∷ ("requiresComplianceCheck", bool true)
                ∷ ("maxExecutionTimeMs", num (js.lit 3000 0))
                ∷ []))
          ∷ obj (
              fields_of (
                ("id", str "dialer")
                ∷ ("name", str "dialer")
                ∷ ("category", str "EXTERNAL_SERVICE")
                ∷ ("riskLevel", str "HIGH")
                ∷ ("requiresPiiRedaction", bool true)
                ∷ ("requiresComplianceCheck", bool true)
                ∷ ("maxExecutionTimeMs", num (js.lit 2000 0))
                ∷ []))
          ∷ []));
    value_type = ValueType.array;
    description = some "Registered tools and their security properties";
    version = 1;
    is_active = true;
    created_by = "SYSTEM";
    updated_by = "SYSTEM";
  }

  abbrev pub ofac_sanctions : Setting F
  ofac_sanctions = record {
    key = "ofac_sanctions";
    value = arr (
        of_list (
          str "VLADIMIR PUTIN"
          ∷ str "SADDAM HUSSEIN"
          ∷ str "OSAMA BIN LADEN"
          ∷ str "AL-QAEDA"
          ∷ str "KIM JONG UN"
          ∷ []));
    value_type = ValueType.array;
    description = some "OFAC Sanctioned names list (Mock)";
    version = 1;
    is_active = true;
    created_by = "SYSTEM";
    updated_by = "SYSTEM";
  }
