-- ===== src/Worker/Run.antt =====
-- `processJob` of apps/api/src/common/queue/job.worker.service.ts from its first to its last step: the
-- classification, steps 2 to 4 of `Dispatch`, the update of the trail, the notification, the metrics,
-- and the `catch`. `classify` and `execute` are the classifier and the executor; the duration and the
-- texts of exceptions of the database and the engine are parameters.
use mini_sentinel.Prelude.{
  ℕ, String, true, false, Option, none, some, List, [], ◌∷◌, if◌then◌else◌, ◌==◌, ◌^^◌,
}
use mini_sentinel.Values.Json.{Json, str, get, set}
use mini_sentinel.Values.Runtime.{Runtime}
use mini_sentinel.Values.Coerce.{or_else}
use mini_sentinel.Types.{Verdict, ParsedRequest, ValidationResult, critical, Decision}
use mini_sentinel.Types.Encode.{decision_json, result_json, request_json}
use mini_sentinel.Decision.Scan.{Policy}
use mini_sentinel.Audit.Row.{Row}
use mini_sentinel.Audit.Service.{
  Outcome, done, not_found, internal_error, thrown, UpdateData, update_record_and_recalculate,
}
use mini_sentinel.Review.Tickets.{Desk}
use mini_sentinel.Pipeline.Run.{Validators, validate}
use mini_sentinel.Metrics.Window.{Metrics, record_request}
use mini_sentinel.Integration.Notifier.{Notice, notify_verdict}
use mini_sentinel.Worker.Dispatch.{Handled, handled, failed, process_job}

-- What a job changes.
pub record Site (F : Type 0) : Type 0 where
  pub desk : Desk F
  pub notices : List Notice
  pub metrics : Metrics

-- What the clock and the database make up during a job, and what the job reads of the settings.
pub record Occasion (F : Type 0) : Type 0 where
  pub now : String
  pub ticket_id : String
  pub duration : ℕ
  pub unknown_error : String
  pub mode : String
  pub webhook_urls : Option (Json F)

-- the message of an exception
abbrev pub message_of : String → Option String → String
message_of unknown none = unknown
message_of unknown (some message) = message

module _ {F : Type 0} where
  abbrev pub with_rows : List (Row F) → Site F → Site F
  with_rows rows site = record site { desk = record site.desk { rows = rows } }

  -- the decision of the `catch`
  unfoldable pub failure_decision : String → String → Decision F
  failure_decision request_id message = record {
    verdict = Verdict.block;
    request_id = request_id;
    risk_score = 10000;
    reasoning = "Internal processing error: " ^^ message;
    reasoning_details = none;
    validation_summary = none;
  }

  unfoldable pub failure_result : String → ValidationResult F
  failure_result message = record {
    passed = false;
    failures = record { rule = "SYSTEM_ERROR"; reason = message; severity = critical } ∷ [];
    risk_score = 10000;
    checks = [];
  }

  unfoldable pub notice_of :
      String → Decision F → ParsedRequest F → ValidationResult F → Option String → Notice
  notice_of now d request result ticket_id = record {
    request_id = request.id;
    agent_id = request.agent_id;
    verdict = d.verdict;
    timestamp = now;
    risk_score = d.risk_score;
    reasoning = d.reasoning;
    validation_failures = result.failures;
    escalation_ticket_id = ticket_id;
  }

module _ {F : Type 0} ⦃js : Runtime F⦄ where
  -- `typeof messageText === 'string'`
  abbrev classified_text : (String → String) → Option (Json F) → ParsedRequest F → ParsedRequest F
  classified_text classify (some (str s)) request = if s == "" then request else record request {
    parameters = set "aiClassification" (str (classify s)) request.parameters;
  }
  classified_text classify _ request = request

  -- step 1
  unfoldable pub classified : (String → String) → ParsedRequest F → ParsedRequest F
  classified classify request =
      let text =
        or_else (get "message" request.parameters)
          (or_else (get "emailBody" request.parameters) (get "text" request.parameters)) in
      classified_text classify text request

  -- what step 5 passes on
  unfoldable pub update_data :
      String → Decision F → ValidationResult F → Option (Json F) → ParsedRequest F → UpdateData F
  unfolding decision_json result_json request_json
  update_data now d result executed request = record {
    now = now;
    decision_record = decision_json now d;
    validation_result = some (result_json result);
    execution_result = executed;
    parsed_request = some (request_json request);
  }

  unfoldable pub failure_data : String → String → String → UpdateData F
  unfolding decision_json result_json failure_decision failure_result
  failure_data now request_id message = record {
    now = now;
    decision_record = decision_json now (failure_decision request_id message);
    validation_result = some (result_json (failure_result message));
    execution_result = none;
    parsed_request = none;
  }

module _ {F : Type 0} ⦃js : Runtime F⦄ (sha256 : String → String) (occasion : Occasion F)
    (request_id : String) where
  -- the `catch`, whose own failures are only logged
  unfoldable pub fall_back : String → Site F → Site F
  unfolding failure_data
  fall_back message site =
      let metrics = record_request occasion.duration false site.metrics in
      let rows =
        (update_record_and_recalculate sha256 request_id
          (failure_data occasion.now request_id message) site.desk.rows).0 in
      with_rows rows (record site { metrics = metrics })

  -- steps 6 and 7
  unfoldable pub finish : Notice → Site F → Site F
  unfolding fall_back notify_verdict
  finish notice site =
      let (notices, returned) = notify_verdict occasion.webhook_urls notice site.notices in
      let notified = record site { notices = notices } in
      if returned
      then record notified { metrics = record_request occasion.duration true site.metrics }
      else fall_back occasion.unknown_error notified

  unfoldable pub after_update : Notice → Site F → List (Row F) × Outcome (Row F) → Site F
  unfolding finish
  after_update notice site (rows, done r) = finish notice (with_rows rows site)
  after_update notice site (rows, not_found message) = fall_back message (with_rows rows site)
  after_update notice site (rows, internal_error message) = fall_back message (with_rows rows site)
  after_update notice site (rows, thrown) = fall_back occasion.unknown_error (with_rows rows site)

  -- steps 5 to 7, after the decision is carried out
  unfoldable pub conclude : ValidationResult F → ParsedRequest F → Site F → Handled F → Site F
  unfolding after_update update_data notice_of
  conclude result request site (handled desk d executed ticket_id) =
      after_update (notice_of occasion.now d request result ticket_id) (record site { desk = desk })
        (update_record_and_recalculate sha256 request_id
          (update_data occasion.now d result executed request) desk.rows)
  conclude result request site (failed desk d message) =
      fall_back (message_of occasion.unknown_error message) (record site { desk = desk })

module _ {F : Type 0} ⦃js : Runtime F⦄ (sha256 : String → String) (classify : String → String)
    (execute : ParsedRequest F → Json F) (validators : Validators F) (policy : Policy F) where
  -- the whole of `processJob`
  unfoldable pub run_job : Occasion F → String → ParsedRequest F → Site F → Site F
  unfolding classified conclude
  run_job occasion request_id parsed site =
      let request = classified classify parsed in
      let v = validate validators request in
      conclude sha256 occasion request_id v.result v.redacted_request site
        (process_job execute occasion.ticket_id validators policy occasion.mode request site.desk)
