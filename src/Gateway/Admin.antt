-- ===== src/Gateway/Admin.antt =====
-- `AdminController` of apps/api/src/api/admin.controller.ts: the requests that change the state, and the
-- summary with the alerts. The readers hand out what the services return, as they are.
use mini_sentinel.Prelude.{
  ℕ, String, Bool, true, Option, none, some, List, length, if◌then◌else◌, ◌==◌, ◌||◌,
}
use mini_sentinel.Values.Json.{Json}
use mini_sentinel.Values.Runtime.{Runtime}
use mini_sentinel.Types.{ComplianceRule, RuleType, RuleCategory, RuleOperator, RuleAction}
use mini_sentinel.Audit.Row.{Row}
use mini_sentinel.Review.Tickets.{ReviewDecision, Desk, Submitted, submit_decision}
use mini_sentinel.Metrics.Window.{Metrics, Alert}
use mini_sentinel.Metrics.Summary.{Summary, get_metrics_summary}
use mini_sentinel.Config.Store.{Service}
use mini_sentinel.Config.Updates.{
  Written, RuleUpdate, update_rule, create_rule, update_config, Records, reset_database,
}

-- `400` with its message, or what the service answered.
pub data Answer (A : Type 0) : Type 0 where
  bad_request : String → Answer A
  answered : A → Answer A

-- The body of `review/decide`.
pub record DecisionBody : Type 0 where
  pub ticket_id : Option String
  pub reviewer_id : Option String
  pub decision : Option String
  pub notes : Option String

-- The body of a new rule.
pub record RuleBody (F : Type 0) : Type 0 where
  pub name : String
  pub description : Option String
  pub type : RuleType
  pub category : RuleCategory
  pub field : String
  pub operator : RuleOperator
  pub value : Json F
  pub action : RuleAction
  pub created_by : String

abbrev missing_text : String
missing_text = "Missing required parameters: ticketId, reviewerId, decision"

-- `!text`
abbrev is_missing : Option String → Bool
is_missing none = true
is_missing (some s) = s == ""

abbrev given_text : Option String → String
given_text none = ""
given_text (some s) = s

-- What the review service makes of the text: every other one than "APPROVE" rejects.
abbrev review_decision_of : String → ReviewDecision
review_decision_of decision =
    if decision == "APPROVE" then ReviewDecision.approve else ReviewDecision.reject

-- `body.description || null`
abbrev description_or_null : Option String → Option String
description_or_null none = none
description_or_null (some s) = if s == "" then none else some s

module _ {F : Type 0} where
  -- the data of a new rule, with the identifier that the database makes
  unfoldable pub rule_data : String → RuleBody F → ComplianceRule F
  rule_data id body = record {
    id = id;
    name = body.name;
    description = description_or_null body.description;
    type = body.type;
    category = body.category;
    enabled = true;
    priority = 10;
    field = body.field;
    operator = body.operator;
    value = body.value;
    conditions = none;
    action = body.action;
    action_params = none;
    created_by = body.created_by;
    updated_by = body.created_by;
    version = 1;
  }

  -- `POST config/rules`
  unfoldable pub post_rule : String → RuleBody F → Service F → Service F × Written
  unfolding rule_data
  post_rule id body s = create_rule (rule_data id body) s

  -- `PUT config/rules/:id`
  unfoldable pub put_rule : String → RuleUpdate F → Service F → Service F × Written
  put_rule id body s = update_rule id body s

  -- `PUT config/:key`
  unfoldable pub put_config : String → Option (Json F) → Service F → Service F × Answer String
  put_config key none s = (s, bad_request "Missing value in request body.")
  put_config key (some value) s = (update_config key value s, answered key)

module _ {F : Type 0} ⦃js : Runtime F⦄ where
  decide_with :
      (String → String)
      → (Json F → Json F)
      → String
      → DecisionBody
      → Desk F
      → Desk F × Answer (Submitted F)
  decide_with sha256 execute now body desk =
      let (after, outcome) =
        submit_decision sha256 execute now (given_text body.ticket_id) (given_text body.reviewer_id)
          (review_decision_of (given_text body.decision)) body.notes desk in
      if is_missing body.ticket_id || (is_missing body.reviewer_id || is_missing body.decision)
      then (desk, bad_request missing_text)
      else (after, answered outcome)

  -- `POST review/decide`
  unfoldable pub submit_review_decision :
      (String → String)
      → (Json F → Json F)
      → String
      → DecisionBody
      → Desk F
      → Desk F × Answer (Submitted F)
  unfolding decide_with
  submit_review_decision sha256 execute now body desk = decide_with sha256 execute now body desk

  -- `POST system/reset`
  unfoldable pub reset_system :
      {T R M : Type 0} → Service F × Records T R M → Service F × Records T R M
  reset_system state = reset_database state

  -- `GET metrics`: the summary, the number of the alerts and the alerts
  unfoldable pub get_metrics : (String → ℕ) → List (Row F) → Metrics → Summary × ℕ × List Alert
  get_metrics time rows m = (get_metrics_summary time rows, length m.alerts, m.alerts)
