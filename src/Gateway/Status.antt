-- ===== src/Gateway/Status.antt =====
-- `getStatus` of apps/api/src/api/gateway.controller.ts. The processing time, a difference of dates, is
-- left out.
use mini_sentinel.Prelude.{
  String, Bool, false, Option, none, some, List, [], ◌∷◌, if◌then◌else◌, ◌==◌, ◌||◌, find?,
  name_has, codes, includes,
}
use mini_sentinel.Values.Json.{Json, null, str, arr, Items, nil, cons}
use mini_sentinel.Values.Runtime.{Runtime}
use mini_sentinel.Values.Coerce.{truthy}
use mini_sentinel.Audit.Row.{Row, own}
use mini_sentinel.Audit.Store.{find_request}
use mini_sentinel.Review.Tickets.{Ticket}

pub record Details (F : Type 0) : Type 0 where
  pub request_id : String
  pub status : String
  pub verdict : Option (Json F)
  pub timestamp : String
  pub reasoning : Option (Json F)
  pub risk_score : Option (Json F)
  pub validation_summary : Option (Json F)
  pub escalation_ticket_id : Option (Json F)
  pub redacted_parameters : Option (Json F)
  pub execution_result : Option (Json F)
  pub rules_triggered : List String
  pub audit_hash : String
  pub observe_override : Bool
  pub ai_classification : Option (Json F)

-- `unknown` is the status 404; `thrown` is a stored value that is not of its type.
pub data StatusReply (F : Type 0) : Type 0 where
  unknown : StatusReply F
  pending : StatusReply F
  known : Details F → StatusReply F
  thrown : StatusReply F

-- the label of a failed rule
unfoldable pub rule_label : String → String
rule_label rule =
    if name_has rule "time" || name_has rule "window"
    then "REG_F_TIME_WINDOW"
    else if name_has rule "calls" || name_has rule "frequency"
    then "REG_F_FREQUENCY"
    else if name_has rule "cease"
    then "REG_F_CEASE_CONTACT"
    else if name_has rule "bankruptcy"
    then "BANKRUPTCY_HOLD"
    else rule

module _ {F : Type 0} where
  abbrev label_next : Option (Json F) → Option (List String) → Option (List String)
  label_next (some (str rule)) (some labels) = some (rule_label rule ∷ labels)
  label_next _ _ = none

  labels : Items F → Option (List String)
  labels nil = some []
  labels (cons f fs) = label_next (own f "rule") (labels fs)

  -- `validationResult?.failures?.map(…) || []`
  abbrev pub triggered : Option (Json F) → Option (List String)
  unfolding labels
  triggered none = some []
  triggered (some null) = some []
  triggered (some (arr fs)) = labels fs
  triggered (some _) = none

  abbrev is_marker : Json F → Bool
  is_marker (str s) = s == "[OBSERVE ONLY OVERRIDE]"
  is_marker _ = false

  has_marker : Items F → Bool
  has_marker nil = false
  has_marker (cons v vs) = is_marker v || has_marker vs

  -- `reasoning?.includes('[OBSERVE ONLY OVERRIDE]') || false`
  abbrev pub overridden : Option (Json F) → Option Bool
  unfolding has_marker
  overridden none = some false
  overridden (some null) = some false
  overridden (some (str s)) = some (includes (codes s) (codes "[OBSERVE ONLY OVERRIDE]"))
  overridden (some (arr vs)) = some (has_marker vs)
  overridden (some _) = none

  abbrev pub is_text : String → Option (Json F) → Bool
  is_text t (some (str s)) = s == t
  is_text t _ = false

  unfoldable pub status_of : Option (Json F) → String
  status_of verdict =
      if is_text "ESCALATE" verdict
      then "ESCALATED"
      else if is_text "BLOCK" verdict
      then "REJECTED"
      else "COMPLETED"

  -- `v?.key` of a value that may be absent
  abbrev own_opt : Option (Json F) → String → Option (Json F)
  own_opt none key = none
  own_opt (some v) key = own v key

  -- `findUnique({ include: { reviewTicket: true } })`
  abbrev pub ticket_of : Row F → List Ticket → Option Ticket
  ticket_of r ts = find? (λ t. t.audit_record_id == r.id) ts

module _ {F : Type 0} ⦃js : Runtime F⦄ where
  -- `v || undefined`
  abbrev if_truthy : Option (Json F) → Option (Json F)
  if_truthy none = none
  if_truthy (some v) = if truthy v then some v else none

  abbrev ticket_id : Option Ticket → Option (Json F) → Option (Json F)
  ticket_id none stored = if_truthy stored
  ticket_id (some t) stored = if t.id == "" then if_truthy stored else some (str t.id)

  -- `requestRequiresRedaction(parsedRequest)`
  abbrev requires_redaction : Json F → Bool
  requires_redaction request = elim (own_opt (own request "tool") "requiresPiiRedaction") [
    | none ↦ false
    | some v ↦ truthy v
  ]

  details : List Ticket → Row F → Option (List String) → Option Bool → StatusReply F
  unfolding status_of
  details ts r none override = thrown
  details ts r (some rules) none = thrown
  details ts r (some rules) (some override) = known (record {
    request_id = r.request_id;
    status = status_of (own r.decision_record "verdict");
    verdict = own r.decision_record "verdict";
    timestamp = r.completed_at;
    reasoning = own r.decision_record "reasoning";
    risk_score = own r.decision_record "riskScore";
    validation_summary = own r.decision_record "validationSummary";
    escalation_ticket_id = ticket_id (ticket_of r ts) (own r.decision_record "escalationTicketId");
    redacted_parameters =
        if requires_redaction r.parsed_request then own r.parsed_request "parameters" else none;
    execution_result = if_truthy (some r.execution_result);
    rules_triggered = rules;
    audit_hash = r.hash;
    observe_override = override;
    ai_classification = if_truthy (own_opt (own r.parsed_request "parameters") "aiClassification");
  })

  abbrev pub status_found : List Ticket → Option (Row F) → StatusReply F
  unfolding details
  status_found ts none = unknown
  status_found ts (some r) =
      if is_text "PENDING" (own r.decision_record "verdict")
      then pending
      else details ts r (triggered (own r.validation_result "failures"))
          (overridden (own r.decision_record "reasoning"))

  -- `getStatus(requestId)`
  unfoldable pub get_status : String → List Ticket → List (Row F) → StatusReply F
  unfolding status_found
  get_status request_id ts rows = status_found ts (find_request request_id rows)
