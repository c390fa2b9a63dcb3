-- ===== src/Gateway/Intercept.antt =====
-- `intercept` of apps/api/src/api/gateway.controller.ts: a body is parsed, a pending row is recorded, and
-- a job is queued. The audit table stands in the desk of the site, and the queue beside it.
use mini_sentinel.Prelude.{ℕ, String, Bool, true, false, Option, none, some, List, [], ◌∷◌, ◌^^◌}
use mini_sentinel.Values.Json.{Json, bool, num, str, arr, obj, nil, fields_of}
use mini_sentinel.Values.Runtime.{Runtime}
use mini_sentinel.Types.{ToolDefinition, ParsedRequest}
use mini_sentinel.Types.Encode.{request_json}
use mini_sentinel.Audit.Row.{Row}
use mini_sentinel.Audit.Service.{
  Outcome, done, not_found, internal_error, thrown, Entry, record_entry,
}
use mini_sentinel.Metrics.Window.{record_request}
use mini_sentinel.Worker.Run.{Site, with_rows}
use mini_sentinel.Worker.Queue.{add_job}
use mini_sentinel.Gateway.Parser.{Moment, SafeParse, Parse, parsed, untyped, parse}

-- A payload of the queue, less the time of queueing.
pub record Job (F : Type 0) : Type 0 where
  pub request_id : String
  pub raw_request : Json F
  pub parsed_request : ParsedRequest F

pub record Gateway (F : Type 0) : Type 0 where
  pub site : Site F
  pub queue : List (Job F)

pub data Reply : Type 0 where
  -- the status 202 with the identifier and the address to poll
  accepted : String → String → Reply
  -- the status 500 with the reasoning, where the code gives a message
  rejected : Option String → Reply

-- What the clock, the database and the random source make up.
pub record Making : Type 0 where
  pub moment : Moment
  pub row_id : String
  pub temp_hash : String
  pub duration : ℕ

module _ {F : Type 0} ⦃js : Runtime F⦄ where
  initial_validation : Json F
  initial_validation = obj (
      fields_of (
        ("passed", bool false)
        ∷ ("failures", arr nil)
        ∷ ("riskScore", num (js.lit 0 0))
        ∷ ("validationTime", num (js.lit 0 0))
        ∷ ("checks", arr nil)
        ∷ []))

  unfoldable pub initial_decision : String → String → Json F
  initial_decision now request_id = obj (
      fields_of (
        ("verdict", str "PENDING")
        ∷ ("requestId", str request_id)
        ∷ ("timestamp", str now)
        ∷ ("riskScore", num (js.lit 0 0))
        ∷ ("reasoning", str "Queued for processing")
        ∷ []))

  -- what step 2 records
  unfoldable pub pending_entry : Making → Json F → ParsedRequest F → Entry F
  unfolding initial_validation initial_decision request_json
  pending_entry making raw request = record {
    id = making.row_id;
    temp_hash = making.temp_hash;
    now = making.moment.now;
    raw_request = raw;
    request_id = request.id;
    session_id = request.session_id;
    agent_id = request.agent_id;
    parsed_request = request_json request;
    validation_result = initial_validation;
    decision_record = initial_decision making.moment.now request.id;
    execution_result = none;
  }

module _ {F : Type 0} where
  abbrev pub job_of : Json F → ParsedRequest F → Job F
  job_of raw request = record {
    request_id = request.id;
    raw_request = raw;
    parsed_request = request;
  }

  -- the metrics of the answer
  abbrev counted : ℕ → Bool → Gateway F → Gateway F
  counted duration success g = record g {
    site = record g.site { metrics = record_request duration success g.site.metrics };
  }

  abbrev refuse : ℕ → Option String → Gateway F → Gateway F × Reply
  refuse duration message g = (counted duration false g, rejected message)

  abbrev accept : ℕ → Job F → Gateway F → Gateway F × Reply
  accept duration job g = (
    counted duration true (record g { queue = add_job job g.queue }),
    accepted job.request_id ("/api/v1/status/" ^^ job.request_id),
  )

  abbrev pub after_record : ℕ → Job F → Gateway F → Outcome (Row F) → Gateway F × Reply
  after_record duration job g (done r) = accept duration job g
  after_record duration job g (not_found message) = refuse duration (some message) g
  after_record duration job g (internal_error message) = refuse duration (some message) g
  after_record duration job g thrown = refuse duration none g

module _ {F : Type 0} ⦃js : Runtime F⦄ (sha256 : String → String) where
  -- steps 2 to 4, for a request that was parsed
  unfoldable pub intercept_parsed :
      Making → Json F → ParsedRequest F → Gateway F → Gateway F × Reply
  unfolding pending_entry
  intercept_parsed making raw request g =
      let (rows, outcome) =
        record_entry sha256 (pending_entry making raw request) g.site.desk.rows in
      after_record making.duration (job_of raw request) (record g { site = with_rows rows g.site })
        outcome

module _ {F : Type 0} ⦃js : Runtime F⦄ (sha256 : String → String)
    (safe_parse : Json F → SafeParse F) (get_tool : String → Option ToolDefinition) where
  intercept_parse : Making → Json F → Gateway F → Parse F → Option (Gateway F × Reply)
  unfolding intercept_parsed
  intercept_parse making raw g (parsed request) =
      some (intercept_parsed sha256 making raw request g)
  intercept_parse making raw g untyped = none

  -- `intercept(rawBody)`; `none` for a body that the parser reads against its types
  unfoldable pub intercept : Making → Json F → Gateway F → Option (Gateway F × Reply)
  unfolding intercept_parse
  intercept making raw g =
      intercept_parse making raw g (parse safe_parse get_tool making.moment raw)
