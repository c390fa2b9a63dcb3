-- ===== src/Worker/Rows.antt =====
-- `processJob` of apps/api/src/common/queue/job.worker.service.ts neither adds nor removes rows of the
-- audit table.
use mini_sentinel.Prelude.{String, List, ◌≡◌, refl, sym, subst, ◌∙◌, Bool-cases, inl, inr}
use mini_sentinel.Values.Json.{Json}
use mini_sentinel.Values.Runtime.{Runtime}
use mini_sentinel.Types.{ParsedRequest, ValidationResult}
use mini_sentinel.Decision.Scan.{Policy}
use mini_sentinel.Decision.Engine.{decide}
use mini_sentinel.Audit.Row.{Row}
use mini_sentinel.Audit.Service.{
  UpdateData, Outcome, done, not_found, internal_error, thrown, update_record_and_recalculate,
}
use mini_sentinel.Audit.Content.{has_row, has_row-update}
use mini_sentinel.Pipeline.Run.{Validators, validate}
use mini_sentinel.Integration.Notifier.{Notice, notify_verdict, is_iterable, urls_or_none}
use mini_sentinel.Worker.Dispatch.{Handled, handled, failed, desk_of, process_job, observe}
use mini_sentinel.Worker.Run.{
  Site, Occasion, with_rows, failure_data, update_data, notice_of, fall_back, finish, after_update,
  conclude, classified, run_job,
}
use mini_sentinel.Worker.Settled.{dispatch-rows}

module _ {F : Type 0} ⦃js : Runtime F⦄ (sha256 : String → String) (occasion : Occasion F)
    (request_id : String) (P : List (Row F) → Type 0)
    (step : (u : UpdateData F) (t : List (Row F))
      → P t
      → P (update_record_and_recalculate sha256 request_id u t).0) where
  fall_back-kept :
      (message : String) (site : Site F)
      → P site.desk.rows
      → P (fall_back sha256 occasion request_id message site).desk.rows
  unfolding fall_back
  fall_back-kept message site h =
      step (failure_data occasion.now request_id message) site.desk.rows h

  finish-kept :
      (notice : Notice) (site : Site F)
      → P site.desk.rows
      → P (finish sha256 occasion request_id notice site).desk.rows
  unfolding finish
  finish-kept notice site h = elim (Bool-cases (is_iterable (urls_or_none occasion.webhook_urls))) [
    | inl e ↦ rw e h
    | inr e ↦ rw e (
        fall_back-kept occasion.unknown_error
          (record site { notices = (notify_verdict occasion.webhook_urls notice site.notices).0 })
          h)
  ]

  after_update-kept :
      (notice : Notice) (site : Site F) (rows : List (Row F)) (o : Outcome (Row F))
      → P rows
      → P (after_update sha256 occasion request_id notice site (rows, o)).desk.rows
  unfolding after_update
  after_update-kept notice site rows (done r) h = finish-kept notice (with_rows rows site) h
  after_update-kept notice site rows (not_found message) h =
      fall_back-kept message (with_rows rows site) h
  after_update-kept notice site rows (internal_error message) h =
      fall_back-kept message (with_rows rows site) h
  after_update-kept notice site rows thrown h =
      fall_back-kept occasion.unknown_error (with_rows rows site) h

  conclude-kept :
      (result : ValidationResult F) (request : ParsedRequest F) (site : Site F) (h : Handled F)
      → P (desk_of h).rows
      → P (conclude sha256 occasion request_id result request site h).desk.rows
  unfolding conclude
  conclude-kept result request site (handled desk d executed ticket_id) h =
      let u = update_data occasion.now d result executed request in
      let updated = update_record_and_recalculate sha256 request_id u desk.rows in
      after_update-kept (notice_of occasion.now d request result ticket_id)
        (record site { desk = desk }) updated.0 updated.1 (step u desk.rows h)
  conclude-kept result request site (failed desk d message) h =
      fall_back-kept _ (record site { desk = desk }) h

module _ {F : Type 0} ⦃js : Runtime F⦄ (sha256 : String → String) (classify : String → String)
    (execute : ParsedRequest F → Json F) (validators : Validators F) (policy : Policy F)
    (occasion : Occasion F) (request_id : String) (parsed : ParsedRequest F) (site : Site F) where
  -- What every update of the request's row keeps, the job keeps.
  pub run_job-kept :
      (P : List (Row F) → Type 0)
      → ((u : UpdateData F) (t : List (Row F))
          → P t
          → P (update_record_and_recalculate sha256 request_id u t).0)
      → P site.desk.rows
      → P
          (run_job sha256 classify execute validators policy occasion request_id parsed
            site).desk.rows
  unfolding run_job process_job
  run_job-kept P step h =
      let request = classified classify parsed in
      let v = validate validators request in
      let d = observe occasion.mode (decide policy v.redacted_request v.result) in
      conclude-kept sha256 occasion request_id P step v.result v.redacted_request site
        (process_job execute occasion.ticket_id validators policy occasion.mode request site.desk)
        (subst P (sym (dispatch-rows execute occasion.ticket_id d v.redacted_request site.desk).0)
          h)

  -- A job leaves every request with a row, or without one, as it was.
  pub run_job-has_row :
      (other : String)
      → has_row other
          (run_job sha256 classify execute validators policy occasion request_id parsed
            site).desk.rows
        ≡ has_row other site.desk.rows
  run_job-has_row other =
      run_job-kept (λ t. has_row other t ≡ has_row other site.desk.rows)
        (λ u t h. has_row-update sha256 other request_id u t ∙ h) refl
