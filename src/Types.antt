-- ===== src/Types.antt =====
-- apps/api/src/common/types.ts and the enumerations of apps/api/prisma/schema.prisma: the requests,
-- checks, decisions and rules that the services hand to one another. Clock readings of durations
-- (`durationMs`, `validationTime`) are left out. A risk score is a number of ten-thousandths.
use mini_sentinel.Prelude.{ℕ, String, Bool, true, false, Option, List}
use mini_sentinel.Values.Json.{Json, Fields}
pub mod Encode

pub data Verdict : Type 0 where
  approve block escalate : Verdict

pub data Level : Type 0 where
  low medium high critical : Level

abbrev pub is_critical : Level → Bool
is_critical critical = true
is_critical _ = false

abbrev pub is_high : Level → Bool
is_high high = true
is_high _ = false

pub data ValidationType : Type 0 where
  pii_detection pii_redaction reg_f_compliance qm_compliance ofac_compliance : ValidationType
  security_validation schema_validation business_logic : ValidationType

pub data CheckStatus : Type 0 where
  pass fail warning skipped error : CheckStatus

abbrev pub is_pass : CheckStatus → Bool
is_pass pass = true
is_pass _ = false

abbrev pub is_fail : CheckStatus → Bool
is_fail fail = true
is_fail _ = false

abbrev pub is_warning : CheckStatus → Bool
is_warning warning = true
is_warning _ = false

pub data Impact : Type 0 where
  positive negative neutral : Impact

pub record ToolDefinition : Type 0 where
  pub id : String
  pub name : String
  pub category : String
  pub risk_level : Level
  pub requires_pii_redaction : Bool
  pub requires_compliance_check : Bool
  pub max_execution_time_ms : ℕ

pub record ValidationFailure : Type 0 where
  pub rule : String
  pub reason : String
  pub severity : Level

pub data RuleType : Type 0 where
  reg_f qm ofac pii security business custom : RuleType

pub data RuleCategory : Type 0 where
  frequency amount identity location behavior risk : RuleCategory

pub data RuleOperator : Type 0 where
  equals not_equals greater_than less_than greater_than_or_equal less_than_or_equal : RuleOperator
  contains not_contains starts_with ends_with matches_pattern in_list not_in between : RuleOperator

pub data RuleAction : Type 0 where
  allow block escalate redact log transform : RuleAction

module _ (F : Type 0) where
  pub record ActionDefinition : Type 0 where
    pub name : String
    pub description : String
    pub cost_estimate : Option (Json F)

  pub record ParsedRequest : Type 0 where
    pub id : String
    pub agent_id : String
    pub session_id : String
    pub timestamp : String
    pub tool : ToolDefinition
    pub action : ActionDefinition
    pub parameters : Fields F
    pub metadata : Json F
    pub raw : Json F
    pub parse_errors : List String

  pub record ValidationCheck : Type 0 where
    pub id : String
    pub type : ValidationType
    pub name : String
    pub description : String
    pub status : CheckStatus
    pub result : Json F
    pub error : Option String
    pub rule_id : Option String

  pub record ValidationResult : Type 0 where
    pub passed : Bool
    pub failures : List ValidationFailure
    pub risk_score : ℕ
    pub checks : List ValidationCheck

  pub record Factor : Type 0 where
    pub type : String
    pub description : String
    pub impact : Impact
    pub weight : ℕ
    pub value : Json F

  pub record DecisionReasoning : Type 0 where
    pub summary : String
    pub factors : List Factor
    pub recommendations : List String
    pub warnings : Option (List String)

  pub record ValidationSummary : Type 0 where
    pub total_checks : ℕ
    pub passed_checks : ℕ
    pub failed_checks : ℕ
    pub failures : List ValidationFailure

  pub record Decision : Type 0 where
    pub verdict : Verdict
    pub request_id : String
    pub risk_score : ℕ
    pub reasoning : String
    pub reasoning_details : Option DecisionReasoning
    pub validation_summary : Option ValidationSummary

  -- The model `ComplianceRule` of the schema, less its bookkeeping dates.
  pub record ComplianceRule : Type 0 where
    pub id : String
    pub name : String
    pub description : Option String
    pub type : RuleType
    pub category : RuleCategory
    pub enabled : Bool
    pub priority : ℕ
    pub field : String
    pub operator : RuleOperator
    pub value : Json F
    pub conditions : Option (Json F)
    pub action : RuleAction
    pub action_params : Option (Json F)
    pub created_by : String
    pub updated_by : String
    pub version : ℕ
