-- ===== src/Tests/GatewayExamples.antt =====
-- Examples for the way of a request through apps/api/src/api/gateway.controller.ts, the queue and the
-- worker of apps/api/src/common/queue, and for the summary of
-- apps/api/src/integration/metrics.service.ts.
use mini_sentinel.Prelude.{
  ℕ, ◌+◌, ◌*◌, ◌≤◌, String, Option, none, some, List, [], ◌∷◌, ◌++◌, ◌≡◌, refl, length, filter, leb,
  is_empty, All, if◌then◌else◌, ◌==◌, arith,
}
use mini_sentinel.Values.Json.{Json, num, str, obj, end, field, get}
use mini_sentinel.Types.{ToolDefinition, ParsedRequest}
use mini_sentinel.Audit.Row.{Row, content_str}
use mini_sentinel.Audit.Service.{record_entry, new_row, verified, verify_chain}
use mini_sentinel.Decision.Scan.{rule_of}
use mini_sentinel.Metrics.Window.{no_metrics}
use mini_sentinel.Metrics.Summary.{latencies, get_metrics_summary}
use mini_sentinel.Metrics.Percentiles.{get_metrics_summary-bounds}
use mini_sentinel.Worker.Dispatch.{desk_of, process_job}
use mini_sentinel.Worker.Run.{Site, Occasion, classified, run_job}
use mini_sentinel.Worker.Queue.{
  Event, added, polled, add_job, brpop, poll, after_events, polls, polls-after_events,
}
use mini_sentinel.Worker.Settled.{IsSettled, job_decision}
use mini_sentinel.Worker.Webhooks.{IsBlocked, run_job-broken_webhooks}
use mini_sentinel.Gateway.Parser.{SafeParse, success, Moment, parsed, parse, fallback_tool}
use mini_sentinel.Gateway.Parser.Accepted.{accepts, parse-errors, refused-process_job}
use mini_sentinel.Gateway.Intercept.{Gateway, accepted, Making, job_of, intercept_parsed}
use mini_sentinel.Gateway.Status.{pending, get_status}
use mini_sentinel.Gateway.Received.{intercept_parsed-pending}
use mini_sentinel.Gateway.Polling.{IsAnswered, run_job-IsAnswered}
use mini_sentinel.Tests.{engine, dialer, policy_of}
use mini_sentinel.Tests.RuleExamples.{cease_rule, validators, call, empty_desk, run_tool}
use mini_sentinel.Tests.TrailExamples.{text-ne, mark, mark-ne, first_row, second_row}
use mini_sentinel.Audit.Store.{find_latest, update, find_request}
use mini_sentinel.Review.Tickets.{submit_decision, ReviewDecision}
use mini_sentinel.Gateway.Steps.{
  work, Round, work_rounds, decide_ticket, Reached, started, intercepted, worked, reviewed,
}
use mini_sentinel.Gateway.Sound.{Reached-verified}
use mini_sentinel.Gateway.Drained.{Reached-drained}

abbrev topic : String → String
topic text = "Dispute"

abbrev occasion : Occasion ℕ
occasion = record {
  now = "d9";
  ticket_id = "k1";
  duration = 3;
  unknown_error = "error";
  mode = "OBSERVE";
  webhook_urls = none;
}

abbrev site : Site ℕ
site = record {
  desk = record { tickets = []; rows = first_row ∷ (second_row ∷ []); executed = [] };
  notices = [];
  metrics = no_metrics;
}

abbrev rows_after : List (Row ℕ)
rows_after =
    (run_job mark topic run_tool validators (policy_of []) occasion "r1" call site).desk.rows

run_job-IsAnswered_example :
    IsSettled "r1" (job_decision topic validators (policy_of []) "OBSERVE" call) rows_after
    × IsAnswered "r1" [] rows_after
run_job-IsAnswered_example =
    run_job-IsAnswered mark topic run_tool validators (policy_of []) occasion "r1" call site
      second_row [] refl

abbrev misconfigured : Occasion ℕ
misconfigured = record occasion { webhook_urls = some (num 7) }

run_job-broken_webhooks_example :
    IsBlocked mark misconfigured "r1"
      (desk_of (
        process_job run_tool "k1" validators
          (policy_of [])
          "OBSERVE"
          (classified topic call)
          site.desk)).executed
      (run_job mark topic run_tool validators (policy_of []) misconfigured "r1" call site)
run_job-broken_webhooks_example =
    run_job-broken_webhooks mark topic run_tool validators (policy_of []) misconfigured "r1" call
      site second_row refl refl

abbrev note : String → List String → List String
note job done = done ++ job ∷ []

abbrev events : List (Event String)
events = added "a" ∷ (added "b" ∷ (polled ∷ (added "c" ∷ [])))

polls-after_events_example :
    polls note 3 (after_events note events ([], [])) ≡ ([], "a" ∷ ("b" ∷ ("c" ∷ [])))
polls-after_events_example = polls-after_events note 3 events [] [] (omega arith)

abbrev moment : Moment
moment = record { now = "d9"; stamp = "9" }

abbrev accept_all : Json ℕ → SafeParse ℕ
accept_all raw = success raw

abbrev find_dialer : String → Option ToolDefinition
find_dialer name = if name == "dialer" then some dialer else none

abbrev body : Json ℕ
body = obj (field "id" (str "r1") (field "tool" (str "fax") (field "timestamp" (str "d1") end)))

-- What the parser makes of the body.
abbrev fax_request : ParsedRequest ℕ
fax_request = record {
  id = "r1";
  agent_id = "unknown";
  session_id = "unknown";
  timestamp = "d1";
  tool = fallback_tool "fax";
  action = record {
    name = "unknown";
    description = "Action unknown on tool fax";
    cost_estimate = none;
  };
  parameters = end;
  metadata = obj (
      field "sourceIp" (str "127.0.0.1") (
        field "userAgent" (str "unknown") (
          field "correlationId" (str "corr_err_9") (
            field "traceId" (str "trace_err_9")
              (field "environment" (str "development") (field "priority" (str "NORMAL") end))))));
  raw = body;
  parse_errors = "Tool 'fax' is not registered in the gateway." ∷ [];
}

fax_request-parsed : parse accept_all find_dialer moment body ≡ parsed fax_request
unfolding parse get fallback_tool
fax_request-parsed = refl

parse-errors_example :
    is_empty fax_request.parse_errors ≡ accepts find_dialer body (accept_all body)
parse-errors_example =
    parse-errors accept_all find_dialer moment body fax_request fax_request-parsed

refused-process_job_example :
    desk_of (
      process_job run_tool "k1" validators
        (policy_of [])
        "ENFORCE"
        (classified topic fax_request)
        empty_desk)
    ≡ empty_desk
unfolding accepts get rule_of
refused-process_job_example =
    refused-process_job accept_all find_dialer topic run_tool "k1" validators (policy_of [])
      "ENFORCE" moment body fax_request empty_desk fax_request-parsed refl refl refl

abbrev idle : Gateway ℕ
idle = record {
  site = record { desk = empty_desk; notices = []; metrics = no_metrics };
  queue = [];
}

abbrev making : Making
making = record { moment = moment; row_id = "i1"; temp_hash = "t"; duration = 3 }

intercept_parsed-pending_example :
    (verify_chain mark (intercept_parsed mark making body fax_request idle).0.site.desk.rows
      ≡ verified)
    × ((intercept_parsed mark making body fax_request idle).0.queue ≡ job_of body fax_request ∷ [])
    × ((intercept_parsed mark making body fax_request idle).1 ≡ accepted "r1" "/api/v1/status/r1")
    × (get_status "r1" [] (intercept_parsed mark making body fax_request idle).0.site.desk.rows
        ≡ pending)
unfolding get add_job
intercept_parsed-pending_example =
    intercept_parsed-pending mark making body fax_request idle [] "d1" "d1" tt refl tt refl refl

abbrev millis : String → ℕ
millis d = if d == "d9" then 12 else 5

abbrev decided : Row ℕ
decided = record first_row {
  decision_record = obj (field "verdict" (str "BLOCK") (field "reasoning" (str "failed") end));
}

get_metrics_summary-bounds_example :
    (length (latencies millis (decided ∷ [])) * 95
      ≤ length (
          filter
            (λ a. leb a (get_metrics_summary millis (decided ∷ [])).p95_latency)
            (latencies millis (decided ∷ [])))
        * 100)
    × (length (latencies millis (decided ∷ [])) * 99
        ≤ length (
            filter
              (λ a. leb a (get_metrics_summary millis (decided ∷ [])).p99_latency)
              (latencies millis (decided ∷ [])))
          * 100)
    × ((get_metrics_summary millis (decided ∷ [])).failed
        ≤ (get_metrics_summary millis (decided ∷ [])).verdict_distribution.block)
    × ((get_metrics_summary millis (decided ∷ [])).verdict_distribution.approve
          + (get_metrics_summary millis (decided ∷ [])).verdict_distribution.block
          + (get_metrics_summary millis (decided ∷ [])).verdict_distribution.escalate
        ≤ (get_metrics_summary millis (decided ∷ [])).total_requests)
unfolding latencies get
get_metrics_summary-bounds_example = get_metrics_summary-bounds millis (decided ∷ []) (omega arith)

abbrev carry_out : Json ℕ → Json ℕ
carry_out v = str "executed"

-- A round of the worker without a job, an interception and a submission for a ticket that is not there.
abbrev later : Gateway ℕ
later =
    decide_ticket mark carry_out "d11" "k1" "officer" ReviewDecision.approve none
      (intercept_parsed mark making body fax_request
        (work mark topic run_tool validators (policy_of []) occasion idle)).0

later-Reached : Reached mark topic run_tool carry_out later
unfolding work poll brpop
later-Reached = reviewed "d11" "k1" "officer" ReviewDecision.approve none _ (
    intercepted making body fax_request "d1" _ tt refl
      (worked validators (policy_of []) occasion idle (started idle.site refl)))

Reached-verified_example :
    (verify_chain mark later.site.desk.rows ≡ verified)
    × All
        (λ job. (x : Row ℕ) × (find_request job.request_id later.site.desk.rows ≡ some x))
        later.queue
Reached-verified_example =
    Reached-verified mark topic run_tool carry_out mark-ne later later-Reached

-- A second interception.
abbrev busy : Gateway ℕ
busy =
    (intercept_parsed mark (record making { row_id = "i2" }) body (record fax_request { id = "r2" })
      later).0

busy-Reached : Reached mark topic run_tool carry_out busy
unfolding work poll brpop intercept_parsed record_entry decide_ticket submit_decision new_row get
    content_str find_latest update
busy-Reached =
    intercepted (record making { row_id = "i2" }) body (record fax_request { id = "r2" }) "d1" later
      (text-ne "i1" "i2" refl, tt) refl later-Reached

-- Two rounds, the second with another identifier, mode and policy, and with the broken setting.
abbrev two_rounds : List (Round ℕ)
two_rounds =
    record { validators = validators; policy = policy_of []; occasion = occasion }
    ∷ (record {
      validators = validators;
      policy = policy_of (cease_rule ∷ []);
      occasion = record misconfigured { ticket_id = "k2"; mode = "ENFORCE" };
    }
        ∷ [])

Reached-drained_example :
    ((work_rounds mark topic run_tool two_rounds busy).queue ≡ [])
    × (verify_chain mark (work_rounds mark topic run_tool two_rounds busy).site.desk.rows
        ≡ verified)
    × All
        (λ job.
          IsAnswered job.request_id []
            (work_rounds mark topic run_tool two_rounds busy).site.desk.rows)
        busy.queue
unfolding work poll brpop intercept_parsed record_entry decide_ticket submit_decision add_job get
    content_str find_latest update new_row
Reached-drained_example =
    Reached-drained mark topic run_tool mark-ne carry_out busy [] two_rounds busy-Reached
      (omega arith)
