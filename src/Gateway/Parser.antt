-- ===== src/Gateway/Parser.antt =====
-- `ParserService.parse` of apps/api/src/interceptors/parsing/parser.service.ts. The structural validation
-- by the schema of apps/api/src/common/schemas.ts, which zod runs, is a parameter, and so is the look-up
-- of a tool. The types promise that the fields of a body are texts and its parameters an object; a body
-- that the schema refuses may break that, and is `untyped` where it does.
use mini_sentinel.Prelude.{
  String, Bool, true, false, Option, none, some, List, [], ◌∷◌, ◌++◌, map, if◌then◌else◌, ◌==◌,
  ◌^^◌, join,
}
use mini_sentinel.Values.Json.{Json, str, obj, Fields, end, fields_of}
use mini_sentinel.Values.Runtime.{Runtime, to_string}
use mini_sentinel.Values.Coerce.{truthy}
use mini_sentinel.Types.{high, ToolDefinition, ActionDefinition, ParsedRequest}
use mini_sentinel.Audit.Row.{own}
pub mod Accepted

pub record Issue : Type 0 where
  pub path : List String
  pub message : String

-- The result of `RawRequestSchema.safeParse(raw)`.
pub data SafeParse (F : Type 0) : Type 0 where
  success : Json F → SafeParse F
  refused : List Issue → SafeParse F

-- What the clock and the random source make up: the date, and the number of `Date.now()`.
pub record Moment : Type 0 where
  pub now : String
  pub stamp : String

pub data Parse (F : Type 0) : Type 0 where
  parsed : ParsedRequest F → Parse F
  untyped : Parse F

-- The fields that are read with `||`.
record Fallbacks (F : Type 0) : Type 0 where
  pub id : String
  pub agent_id : String
  pub session_id : String
  pub action : String
  pub parameters : Fields F

-- A field that is read with `||`: falsy or absent, a text, or another value.
pub data Field : Type 0 where
  missing : Field
  text : String → Field
  other : Field

abbrev pub error_detail : Issue → String
error_detail e = join "." e.path ^^ ": " ^^ e.message

abbrev text_or : Field → String → Option String
text_or missing d = some d
text_or (text s) d = some s
text_or other d = none

-- the fallback of `resolvedTool`
unfoldable pub fallback_tool : String → ToolDefinition
fallback_tool name = record {
  id = name;
  name = name;
  category = "API";
  risk_level = high;
  requires_pii_redaction = true;
  requires_compliance_check = true;
  max_execution_time_ms = 1000;
}

-- what is made of the field `tool`: the errors and the tool
abbrev pub Resolved : Type 0
Resolved = List String × ToolDefinition

abbrev pub found_tool : String → Option ToolDefinition → Resolved
unfolding fallback_tool
found_tool name (some tool) = ([], tool)
found_tool name none =
    (("Tool '" ^^ name ^^ "' is not registered in the gateway.") ∷ [], fallback_tool name)

abbrev pub resolve_tool : (String → Option ToolDefinition) → Field → Option Resolved
unfolding fallback_tool
resolve_tool get_tool missing =
    some ("Field 'tool' is missing or invalid." ∷ [], fallback_tool "unknown")
resolve_tool get_tool (text name) = some (found_tool name (get_tool name))
resolve_tool get_tool other = none

module _ {F : Type 0} ⦃js : Runtime F⦄ where
  -- `raw?.key`
  abbrev pub read : Json F → String → Field
  read raw key = elim (own raw key) [
    | none ↦ missing
    | some (str s) ↦ if s == "" then missing else text s
    | some v ↦ if truthy v then other else missing
  ]

  -- `raw?.parameters || {}`
  abbrev read_parameters : Json F → Option (Fields F)
  read_parameters raw = elim (own raw "parameters") [
    | none ↦ some end
    | some (obj fs) ↦ some fs
    | some v ↦ if truthy v then none else some end
  ]

  abbrev truthy_or : Option (Json F) → Json F → Json F
  truthy_or none d = d
  truthy_or (some v) d = if truthy v then v else d

  -- `v || undefined`
  abbrev truthy_only : Option (Json F) → Option (Json F)
  truthy_only none = none
  truthy_only (some v) = if truthy v then some v else none

  -- `new Date(raw.timestamp)`, as the text that it prints as
  abbrev date_text : Option (Json F) → String → String
  date_text none now = now
  date_text (some v) now =
      if truthy v then elim (js.iso_date (some v)) [ some d ↦ d | none ↦ "Invalid Date" ] else now

  default_metadata : String → Json F
  default_metadata stamp = obj (
      fields_of (
        ("sourceIp", str "127.0.0.1")
        ∷ ("userAgent", str "unknown")
        ∷ ("correlationId", str ("corr_err_" ^^ stamp))
        ∷ ("traceId", str ("trace_err_" ^^ stamp))
        ∷ ("environment", str "development")
        ∷ ("priority", str "NORMAL")
        ∷ []))

  -- the errors of the schema and `validatedRaw`
  abbrev pub validated_raw : Json F → SafeParse F → List String × Json F
  validated_raw raw (success v) = ([], v)
  validated_raw raw (refused issues) = (map error_detail issues, raw)

  action_of : String → String → Fields F → ActionDefinition F
  action_of action tool_name parameters = record {
    name = action;
    description = "Action " ^^ action ^^ " on tool " ^^ tool_name;
    cost_estimate = truthy_only (own (obj parameters) "amount");
  }

  assemble : Moment → Json F → List String → Resolved → Fallbacks F → ParsedRequest F
  unfolding action_of default_metadata
  assemble moment raw errors resolved f = record {
    id = f.id;
    agent_id = f.agent_id;
    session_id = f.session_id;
    timestamp = date_text (own raw "timestamp") moment.now;
    tool = resolved.1;
    action = action_of f.action resolved.1.name f.parameters;
    parameters = f.parameters;
    metadata = truthy_or (own raw "metadata") (default_metadata moment.stamp);
    raw = raw;
    parse_errors = errors ++ resolved.0;
  }

infixl 5 ◌>>=◌
abbrev pub ◌>>=◌ {ℓ κ} : {A : Type ℓ} {B : Type κ} → Option A → (A → Option B) → Option B
none >>= f = none
some a >>= f = f a

abbrev parse_of : {F : Type 0} → Option (ParsedRequest F) → Parse F
parse_of none = untyped
parse_of (some r) = parsed r

module _ {F : Type 0} ⦃js : Runtime F⦄ where
  read_fields : Moment → Json F → Option (Fallbacks F)
  read_fields moment raw = do
    id ← text_or (read raw "id") ("req_err_" ^^ moment.stamp)
    agent_id ← text_or (read raw "agentId") "unknown"
    session_id ← text_or (read raw "sessionId") "unknown"
    action ← text_or (read raw "action") "unknown"
    parameters ← read_parameters raw
    some (record {
      id = id;
      agent_id = agent_id;
      session_id = session_id;
      action = action;
      parameters = parameters;
    })

module _ {F : Type 0} ⦃js : Runtime F⦄ (get_tool : String → Option ToolDefinition) where
  parse_raw : Moment → List String × Json F → Option (ParsedRequest F)
  unfolding assemble read_fields
  parse_raw moment (errors, raw) = do
    resolved ← resolve_tool get_tool (read raw "tool")
    fields ← read_fields moment raw
    some (assemble moment raw errors resolved fields)

module _ {F : Type 0} ⦃js : Runtime F⦄ (safe_parse : Json F → SafeParse F)
    (get_tool : String → Option ToolDefinition) where
  -- `parse(raw)`
  unfoldable pub parse : Moment → Json F → Parse F
  unfolding parse_raw
  parse moment raw = parse_of (parse_raw get_tool moment (validated_raw raw (safe_parse raw)))
