-- ===== src/Worker/Webhooks.antt =====
-- What a value of the setting `webhook_urls` that is no list does to the jobs of
-- apps/api/src/common/queue/job.worker.service.ts: `notifyVerdict` throws after the request was executed.
use mini_sentinel.Prelude.{String, false, some, List, ◌≡◌, refl}
use mini_sentinel.Values.Json.{Json, get}
use mini_sentinel.Values.Runtime.{Runtime}
use mini_sentinel.Types.{ParsedRequest, ValidationResult}
use mini_sentinel.Types.Encode.{verdict_name, decision_json}
use mini_sentinel.Decision.Scan.{Policy}
use mini_sentinel.Decision.Engine.{decide}
use mini_sentinel.Audit.Row.{Row}
use mini_sentinel.Audit.Store.{find_request}
use mini_sentinel.Audit.Service.{
  Outcome, done, not_found, internal_error, thrown, update_record_and_recalculate,
}
use mini_sentinel.Review.Tickets.{Execution}
use mini_sentinel.Pipeline.Run.{Validators, validate}
use mini_sentinel.Integration.Notifier.{Notice, notify_verdict, is_iterable, urls_or_none}
use mini_sentinel.Worker.Dispatch.{Handled, handled, failed, desk_of, observe, process_job}
use mini_sentinel.Worker.Run.{
  Site, Occasion, with_rows, update_data, fall_back, finish, after_update, conclude, classified,
  run_job, notice_of,
}
use mini_sentinel.Worker.Settled.{
  HasVerdict, HasRow, update-HasVerdict, fall_back-HasVerdict, HasVerdict-row, dispatch-rows,
}

module _ {F : Type 0} ⦃js : Runtime F⦄ (sha256 : String → String) (occasion : Occasion F)
    (request_id : String) where
  -- The row says BLOCK, and the log of executions is the given one.
  abbrev pub IsBlocked : List (Execution F) → Site F → Type 0
  IsBlocked executed site =
      HasVerdict request_id "BLOCK" site.desk.rows × (site.desk.executed ≡ executed)

  fall_back-IsBlocked :
      (message : String) (site : Site F)
      → HasRow request_id site.desk.rows
      → IsBlocked site.desk.executed (fall_back sha256 occasion request_id message site)
  unfolding fall_back
  fall_back-IsBlocked message site h =
      (fall_back-HasVerdict sha256 occasion request_id message site h, refl)

  after_update-IsBlocked :
      (notice : Notice) (site : Site F) (rows : List (Row F)) (o : Outcome (Row F))
      → is_iterable (urls_or_none occasion.webhook_urls) ≡ false
      → HasRow request_id rows
      → IsBlocked site.desk.executed (after_update sha256 occasion request_id notice site (rows, o))
  unfolding after_update finish
  after_update-IsBlocked notice site rows (done r) broken h = rw broken (
      fall_back-IsBlocked occasion.unknown_error
        (record (with_rows rows site) {
          notices = (notify_verdict occasion.webhook_urls notice site.notices).0;
        })
        h)
  after_update-IsBlocked notice site rows (not_found message) broken h =
      fall_back-IsBlocked message (with_rows rows site) h
  after_update-IsBlocked notice site rows (internal_error message) broken h =
      fall_back-IsBlocked message (with_rows rows site) h
  after_update-IsBlocked notice site rows thrown broken h =
      fall_back-IsBlocked occasion.unknown_error (with_rows rows site) h

  conclude-IsBlocked :
      (result : ValidationResult F) (request : ParsedRequest F) (site : Site F) (h : Handled F)
      → is_iterable (urls_or_none occasion.webhook_urls) ≡ false
      → HasRow request_id (desk_of h).rows
      → IsBlocked (desk_of h).executed (conclude sha256 occasion request_id result request site h)
  unfolding conclude decision_json get
  conclude-IsBlocked result request site (handled desk d executed ticket_id) broken row =
      let u = update_data occasion.now d result executed request in
      let updated = update_record_and_recalculate sha256 request_id u desk.rows in
      let verdict = verdict_name d.verdict in
      after_update-IsBlocked (notice_of occasion.now d request result ticket_id)
        (record site { desk = desk }) updated.0 updated.1 broken
        (HasVerdict-row sha256 occasion request_id verdict updated.0
          (update-HasVerdict sha256 occasion request_id u verdict desk.rows row refl))
  conclude-IsBlocked result request site (failed desk d message) broken row =
      fall_back-IsBlocked _ (record site { desk = desk }) row

module _ {F : Type 0} ⦃js : Runtime F⦄ (sha256 : String → String) (classify : String → String)
    (execute : ParsedRequest F → Json F) (validators : Validators F) (policy : Policy F) where
  -- While the setting webhook_urls is neither a list nor a text, every job whose request has a row leaves
  -- BLOCK there, also where its request was approved and executed: the log of executions is the one that
  -- the steps up to the execution leave.
  pub run_job-broken_webhooks :
      (occasion : Occasion F) (request_id : String) (parsed : ParsedRequest F) (site : Site F)
      (x : Row F)
      → is_iterable (urls_or_none occasion.webhook_urls) ≡ false
      → find_request request_id site.desk.rows ≡ some x
      → IsBlocked sha256 occasion request_id
          (desk_of (
            process_job execute occasion.ticket_id validators policy occasion.mode
              (classified classify parsed)
              site.desk)).executed
          (run_job sha256 classify execute validators policy occasion request_id parsed site)
  unfolding run_job process_job
  run_job-broken_webhooks occasion request_id parsed site x broken found =
      let request = classified classify parsed in
      let v = validate validators request in
      let d = observe occasion.mode (decide policy v.redacted_request v.result) in
      let rows = (dispatch-rows execute occasion.ticket_id d v.redacted_request site.desk).0 in
      conclude-IsBlocked sha256 occasion request_id v.result v.redacted_request site
        (process_job execute occasion.ticket_id validators policy occasion.mode request site.desk)
        broken (x, rw rows found)
