-- ===== src/Tests.antt =====
-- Concrete values on which the theorems are run: numbers cut to ℕ in place of the engine's doubles, a
-- digest that is never empty, and small requests, rules and rows. The children have the examples.
use mini_sentinel.Prelude.{
  ℕ, ◌+◌, ◌*◌, ◌/◌, ◌^◌, String, Bool, true, false, Option, none, some, List, [], ltb, leb, eqb,
  ◌^^◌,
}
use mini_sentinel.Values.Json.{Json, null, bool, num, str, obj, Fields, end, field}
use mini_sentinel.Values.Runtime.{Runtime}
use mini_sentinel.Types.{
  Level, low, high, ToolDefinition, ParsedRequest, ValidationResult, ComplianceRule, RuleType,
  RuleCategory, RuleOperator, RuleAction,
}
use mini_sentinel.Decision.Scan.{Policy, default_thresholds}
mod VerdictExamples
mod TrailExamples
mod RuleExamples
mod MetricsExamples
mod ReviewExamples
mod ConfigExamples
mod GatewayExamples

abbrev date_of : Option (Json ℕ) → Option String
date_of (some (str s)) = some s
date_of _ = none

instance abbrev engine : Runtime ℕ
engine = record {
  lit = λ m k. m / 10 ^ k;
  nan = 0;
  add = λ a b. a + b;
  mul = λ a b. a * b;
  div = λ a b. a / b;
  lt = ltb;
  le = leb;
  eq = eqb;
  is_nan = λ x. false;
  number = λ s. 0;
  parse_int = λ s. 0;
  parse_float = λ s. 0;
  show = λ x. "n";
  to_fixed = λ x. "n";
  quote = λ s. "'" ^^ s ^^ "'";
  iso_date = date_of;
  built_in = λ v key. none;
}

abbrev dialer : ToolDefinition
dialer = record {
  id = "t1";
  name = "dialer";
  category = "collections";
  risk_level = high;
  requires_pii_redaction = false;
  requires_compliance_check = true;
  max_execution_time_ms = 5000;
}

-- A request to the tool with the parameters, and the errors of the parser.
abbrev request_to : ToolDefinition → Fields ℕ → List String → ParsedRequest ℕ
request_to tool parameters errors = record {
  id = "r1";
  agent_id = "a1";
  session_id = "s1";
  timestamp = "d1";
  tool = tool;
  action = record { name = "call"; description = ""; cost_estimate = none };
  parameters = parameters;
  metadata = obj end;
  raw = obj end;
  parse_errors = errors;
}

abbrev rule_with : String → RuleType → RuleAction → Json ℕ → ComplianceRule ℕ
rule_with name type action value = record {
  id = name;
  name = name;
  description = none;
  type = type;
  category = RuleCategory.behavior;
  enabled = true;
  priority = 1;
  field = "";
  operator = RuleOperator.equals;
  value = value;
  conditions = none;
  action = action;
  action_params = none;
  created_by = "admin";
  updated_by = "admin";
  version = 1;
}

abbrev policy_of : List (ComplianceRule ℕ) → Policy ℕ
policy_of rules = record { thresholds = default_thresholds; rules = rules }
