-- ===== src/Compliance/Params.antt =====
-- The request as the rules of apps/api/src/validation/compliance/rule.engine.ts read it, and the
-- normalisation of its parameters at the start of `evaluate`.
use mini_sentinel.Prelude.{String, Bool, true, Option, none, some, List, [], ◌∷◌, if◌then◌else◌}
use mini_sentinel.Values.Json.{
  Json, bool, num, str, arr, obj, Items, nil, cons, Fields, end, field, get, set, object,
}
use mini_sentinel.Values.Runtime.{Runtime}
use mini_sentinel.Values.Coerce.{truthy, number_of, split}
use mini_sentinel.Types.{
  Level, low, medium, high, critical, ToolDefinition, ActionDefinition, ParsedRequest,
}

-- The outcome of one rule: the object that the checkers return.
pub record Checked (F : Type 0) : Type 0 where
  pub passed : Bool
  pub reason : String
  pub details : Json F

-- A checker may throw, with a message.
pub data Evaluated (F : Type 0) : Type 0 where
  returned : Checked F → Evaluated F
  threw : String → Evaluated F

abbrev level_text : Level → String
level_text low = "LOW"
level_text medium = "MEDIUM"
level_text high = "HIGH"
level_text critical = "CRITICAL"

module _ {F : Type 0} where
  abbrev text_items : List String → Items F
  text_items [] = nil
  text_items (s ∷ ss) = cons (str s) (text_items ss)

  -- `message` alone, the details of a rule that is not applied
  abbrev pub message : String → Json F
  message s = obj (field "message" (str s) end)

  -- `passed ? "" : reason`
  abbrev pub checked : Bool → String → Json F → Checked F
  checked passed reason details = record {
    passed = passed;
    reason = if passed then "" else reason;
    details = details;
  }

  abbrev pub skipped_check : String → Checked F
  skipped_check s = record { passed = true; reason = ""; details = message s }

abbrev head_or : List String → String
head_or [] = ""
head_or (s ∷ ss) = s

module _ {F : Type 0} ⦃js : Runtime F⦄ where
  tool_json : ToolDefinition → Json F
  tool_json tool = obj (
      object (
        ("id", some (str tool.id))
        ∷ ("name", some (str tool.name))
        ∷ ("category", some (str tool.category))
        ∷ ("riskLevel", some (str (level_text tool.risk_level)))
        ∷ ("requiresPiiRedaction", some (bool tool.requires_pii_redaction))
        ∷ ("requiresComplianceCheck", some (bool tool.requires_compliance_check))
        ∷ ("maxExecutionTimeMs", some (num (js.lit tool.max_execution_time_ms 0)))
        ∷ []))

  action_json : ActionDefinition F → Json F
  action_json action = obj (
      object (
        ("name", some (str action.name))
        ∷ ("description", some (str action.description))
        ∷ ("sideEffects", some (arr nil))
        ∷ ("costEstimate", action.cost_estimate)
        ∷ []))

  -- The parsed request as the object that the paths of the rules walk.
  unfoldable pub request_json : ParsedRequest F → Json F
  unfolding tool_json action_json object
  request_json r = obj (
      object (
        ("id", some (str r.id))
        ∷ ("agentId", some (str r.agent_id))
        ∷ ("sessionId", some (str r.session_id))
        ∷ ("timestamp", some (str r.timestamp))
        ∷ ("tool", some (tool_json r.tool))
        ∷ ("action", some (action_json r.action))
        ∷ ("parameters", some (obj r.parameters))
        ∷ ("metadata", some r.metadata)
        ∷ ("raw", some r.raw)
        ∷ ("parseErrors", some (arr (text_items r.parse_errors)))
        ∷ []))

  -- A parameter under its new name, unless that is set already.
  unfoldable pub adopt : String → Option (Json F) → Fields F → Fields F
  unfolding get set
  adopt key none params = params
  adopt key (some v) params = elim (get key params) [ none ↦ set key v params | some _ ↦ params ]

  -- the hour of `localTime`: of a text the number before the first colon, if it is one
  unfoldable pub hour_of : Option (Json F) → Option (Json F)
  unfolding split
  hour_of (some (str s)) =
      let hr = js.parse_int (head_or (split b':' s)) in if js.is_nan hr then none else some (num hr)
  hour_of (some (num x)) = some (num x)
  hour_of _ = none

  abbrev number_if : Option (Json F) → Option (Json F)
  number_if none = none
  number_if (some v) = some (num (number_of v))

  abbrev flag_if : Option (Json F) → Option (Json F)
  flag_if none = none
  flag_if (some v) = some (bool (truthy v))

  -- the four adjustments at the start of `evaluate`
  unfoldable pub normalize : Fields F → Fields F
  unfolding adopt hour_of get set
  normalize p =
      let p1 = adopt "calls_last_7_days" (number_if (get "contactAttemptsLast7Days" p)) p in
      let p2 = adopt "contact_hour_local" (hour_of (get "localTime" p1)) p1 in
      let p3 = adopt "cease_communication_requested" (flag_if (get "ceaseContact" p2)) p2 in
      adopt "bankruptcy_hold" (flag_if (get "bankruptcyHold" p3)) p3
