-- ===== src/Review/Tickets.antt =====
-- `ReviewService` of apps/api/src/workflow/review.service.ts and the model `ReviewTicket` of
-- apps/api/prisma/schema.prisma, as functions on the tickets and the audit table. Dates are left out.
-- `RequestExecutor.execute` is a parameter; the requests that it is called with are logged.
use mini_sentinel.Prelude.{
  ℕ, ◌+◌, String, Bool, true, false, Option, none, some, List, [], ◌∷◌, ◌++◌, map, filter, find?,
  any, length, eqb, leb, ltb, ◌||◌, if◌then◌else◌, ◌==◌, ◌^^◌,
}
use mini_sentinel.Values.Json.{Json, null, bool, num, str, arr, obj, nil, Fields, end, set, object}
use mini_sentinel.Values.Runtime.{Runtime}
use mini_sentinel.Types.{ParsedRequest, Decision}
use mini_sentinel.Audit.Row.{Row}
use mini_sentinel.Audit.Store.{find_request, find_id}
use mini_sentinel.Audit.Service.{
  Outcome, done, not_found, thrown, UpdateData, update_record_and_recalculate,
}

pub data ReviewStatus : Type 0 where
  pending in_review approved rejected expired cancelled : ReviewStatus

pub data ReviewPriority : Type 0 where
  low normal high critical : ReviewPriority

pub data ReviewDecision : Type 0 where
  approve reject : ReviewDecision

pub record Ticket : Type 0 where
  pub id : String
  pub request_id : String
  pub audit_record_id : String
  pub ticket_number : ℕ
  pub status : ReviewStatus
  pub priority : ReviewPriority
  pub agent_id : String
  pub tool_name : String
  pub action_name : String
  pub risk_score : ℕ
  pub assigned_to : Option String
  pub reviewer_notes : Option String
  pub reviewer_decision : Option ReviewDecision

-- A request that was handed to the executor: by a job, or for a ticket, with the ticket's identifier.
pub data Execution (F : Type 0) : Type 0 where
  of_job : ParsedRequest F → Execution F
  of_ticket : String → Json F → Execution F

-- The tables, and what was handed to the executor, the latest last.
pub record Desk (F : Type 0) : Type 0 where
  pub tickets : List Ticket
  pub rows : List (Row F)
  pub executed : List (Execution F)

pub data Submitted (F : Type 0) : Type 0 where
  submitted : Ticket → Option (Json F) → Submitted F
  missing : String → Submitted F
  bad_request : Submitted F
  audit_failed : Submitted F

-- `status === PENDING || status === IN_REVIEW`
abbrev pub is_open : ReviewStatus → Bool
is_open pending = true
is_open in_review = true
is_open _ = false

-- `priority` of a risk score
unfoldable pub priority_of : ℕ → ReviewPriority
priority_of score =
    if leb 9000 score
    then critical
    else if leb 8000 score
    then high
    else if ltb score 4000
    then low
    else normal

abbrev pub find_ticket : String → List Ticket → Option Ticket
find_ticket id ts = find? (λ t. t.id == id) ts

abbrev status_after : ReviewDecision → ReviewStatus
status_after approve = approved
status_after reject = rejected

abbrev pub review : String → ReviewDecision → Option String → Ticket → Ticket
review reviewer d notes t = record t {
  status = status_after d;
  assigned_to = some reviewer;
  reviewer_notes = notes;
  reviewer_decision = some d;
}

abbrev pub change_ticket : String → (Ticket → Ticket) → Ticket → Ticket
change_ticket id f t = if t.id == id then f t else t

-- `reviewTicket.update({ where: { id }, data })`
unfoldable pub update_ticket : String → (Ticket → Ticket) → List Ticket → List Ticket
update_ticket id f ts = map (change_ticket id f) ts

-- The unique columns of the table.
abbrev clashes : Ticket → Ticket → Bool
clashes t u =
    t.id == u.id
    || (t.request_id == u.request_id
        || (t.audit_record_id == u.audit_record_id || eqb t.ticket_number u.ticket_number))

-- `getPending`, less the order
unfoldable pub get_pending : List Ticket → List Ticket
get_pending ts = filter (λ t. elim t.status [ pending ↦ true | _ ↦ false ]) ts

-- `getHistory`, less the order
unfoldable pub get_history : List Ticket → List Ticket
get_history ts = filter (λ t. elim t.status [ approved ↦ true | rejected ↦ true | _ ↦ false ]) ts

abbrev verdict_text : ReviewDecision → String
verdict_text approve = "APPROVE"
verdict_text reject = "BLOCK"

abbrev outcome_text : ReviewDecision → String
outcome_text approve = "approved"
outcome_text reject = "rejected"

module _ {F : Type 0} where
  -- the ticket that `escalate` creates, with the identifier that the database makes up
  unfoldable pub new_ticket : String → Decision F → ParsedRequest F → Row F → List Ticket → Ticket
  unfolding priority_of
  new_ticket id decision request row tickets = record {
    id = id;
    request_id = request.id;
    audit_record_id = row.id;
    ticket_number = 1000 + length tickets + 1;
    status = pending;
    priority = priority_of decision.risk_score;
    agent_id = request.agent_id;
    tool_name = request.tool.name;
    action_name = request.action.name;
    risk_score = decision.risk_score;
    assigned_to = none;
    reviewer_notes = none;
    reviewer_decision = none;
  }

  abbrev create_ticket : Ticket → Desk F → Desk F × Outcome Ticket
  create_ticket t desk =
      if any (clashes t) desk.tickets
      then (desk, thrown)
      else (record desk { tickets = desk.tickets ++ t ∷ [] }, done t)

  -- `escalate(decision, request)`; a second ticket of a request is refused by the unique index
  unfoldable pub escalate : String → Decision F → ParsedRequest F → Desk F → Desk F × Outcome Ticket
  unfolding new_ticket
  escalate id decision request desk = elim (find_request request.id desk.rows) [
    | none ↦ (desk, not_found ("Audit record not found for request ID " ^^ request.id))
    | some row ↦ create_ticket (new_ticket id decision request row desk.tickets) desk
  ]

  -- `{ ...v }` of a stored decision, which is an object
  abbrev spread : Json F → Fields F
  spread (obj fs) = fs
  spread _ = end

  abbrev notes_json : Option String → Option (Json F)
  notes_json none = none
  notes_json (some s) = some (str s)

  -- `finalDecision`
  unfoldable pub final_decision : Json F → String → ReviewDecision → Option String → Json F
  unfolding set object
  final_decision decision reviewer d notes =
      let metadata = obj (
        object (
          ("decisionMaker", some (str "HUMAN_REVIEWER"))
          ∷ ("decisionMakerId", some (str reviewer))
          ∷ ("overrideReason", notes_json notes)
          ∷ ("appliedPolicies", some (arr nil))
          ∷ [])) in
      let reasoning =
        "Escalated request " ^^ outcome_text d ^^ " by human reviewer " ^^ reviewer ^^ "." in
      obj (
        set "metadata" metadata (
          set "reasoning" (str reasoning) (set "verdict" (str (verdict_text d)) (spread decision))))

module _ {F : Type 0} where
  abbrev pub log_execution :
      ReviewDecision → String → Row F → List (Execution F) → List (Execution F)
  log_execution approve id row log = log ++ of_ticket id row.parsed_request ∷ []
  log_execution reject id row log = log

  abbrev pub execution : (Json F → Json F) → ReviewDecision → Row F → Option (Json F)
  execution execute approve row = some (execute row.parsed_request)
  execution execute reject row = none

  abbrev answer : Ticket → Option (Json F) → Outcome (Row F) → Submitted F
  answer t result (done row) = submitted t result
  answer t result _ = audit_failed

module _ {F : Type 0} ⦃js : Runtime F⦄ where
  -- the result of a request that was rejected
  rejected_result : String → Json F
  unfolding object
  rejected_result request_id = obj (
      object (
        ("requestId", some (str request_id))
        ∷ ("success", some (bool false))
        ∷ ("response", some null)
        ∷ ("executionTimeMs", some (num (js.lit 0 0)))
        ∷ ("error", some (str "Rejected by reviewer."))
        ∷ []))

  abbrev result_or : Option (Json F) → String → Json F
  result_or none request_id = rejected_result request_id
  result_or (some v) request_id = v

  -- what is passed to `updateRecordAndRecalculate`, at the given time
  unfoldable pub review_data :
      (Json F → Json F)
      → String
      → Ticket
      → Row F
      → String
      → ReviewDecision
      → Option String
      → UpdateData F
  unfolding final_decision rejected_result
  review_data execute now t row reviewer d notes = record {
    now = now;
    decision_record = final_decision row.decision_record reviewer d notes;
    validation_result = none;
    execution_result = some (result_or (execution execute d row) t.request_id);
    parsed_request = none;
  }

module _ {F : Type 0} ⦃js : Runtime F⦄ (sha256 : String → String) (execute : Json F → Json F) where
  -- from the call of the executor on
  unfoldable pub process :
      String
      → Ticket
      → Row F
      → String
      → ReviewDecision
      → Option String
      → Desk F
      → Desk F × Submitted F
  unfolding review_data
  process now t row reviewer d notes desk =
      let updated =
        update_record_and_recalculate sha256 t.request_id
          (review_data execute now t row reviewer d notes) desk.rows in
      (
        record {
          tickets = update_ticket t.id (review reviewer d notes) desk.tickets;
          rows = updated.0;
          executed = log_execution d t.id row desk.executed;
        },
        answer (review reviewer d notes t) (execution execute d row) updated.1,
      )

  abbrev pub with_row :
      String
      → Ticket
      → Option (Row F)
      → String
      → ReviewDecision
      → Option String
      → Desk F
      → Desk F × Submitted F
  with_row now t none reviewer d notes desk = (desk, audit_failed)
  with_row now t (some row) reviewer d notes desk = process now t row reviewer d notes desk

  -- `submitDecision(ticketId, reviewerId, decision, notes)`
  unfoldable pub submit_decision :
      String → String → String → ReviewDecision → Option String → Desk F → Desk F × Submitted F
  submit_decision now id reviewer d notes desk = elim (find_ticket id desk.tickets) [
    | none ↦ (desk, missing ("Review ticket with ID " ^^ id ^^ " not found."))
    | some t ↦
        if is_open t.status
        then with_row now t (find_id t.audit_record_id desk.rows) reviewer d notes desk
        else (desk, bad_request)
  ]
