-- ===== src/Worker/Settled.antt =====
-- What the row of a job says once `processJob` of apps/api/src/common/queue/job.worker.service.ts is
-- done, and what `getStatus` of apps/api/src/api/gateway.controller.ts then answers.
use mini_sentinel.Prelude.{
  String, some, List, ◌≡◌, ◌⊎◌, inl, inr, refl, ◌∙◌, ap, subst, Bool-cases, arith,
}
use mini_sentinel.Values.Json.{Json, str, get}
use mini_sentinel.Values.Runtime.{Runtime}
use mini_sentinel.Types.{ParsedRequest, ValidationResult, Decision}
use mini_sentinel.Types.Encode.{verdict_name, decision_json}
use mini_sentinel.Decision.Scan.{Policy}
use mini_sentinel.Decision.Engine.{decide}
use mini_sentinel.Audit.Row.{Row, own}
use mini_sentinel.Audit.Store.{find_request}
use mini_sentinel.Audit.Service.{
  Outcome, done, not_found, internal_error, thrown, UpdateData, amend,
  update_record_and_recalculate,
}
use mini_sentinel.Audit.Content.{find_request-update}
use mini_sentinel.Review.Tickets.{Desk, escalate}
use mini_sentinel.Pipeline.Run.{Validators, validate}
use mini_sentinel.Integration.Notifier.{Notice, notify_verdict, is_iterable, urls_or_none}
use mini_sentinel.Worker.Dispatch.{
  Handled, handled, failed, desk_of, decision_of, observe, dispatch, process_job,
}
use mini_sentinel.Worker.Run.{
  Site, Occasion, with_rows, failure_data, update_data, fall_back, finish, after_update, conclude,
  classified, run_job, notice_of,
}

module _ {F : Type 0} where
  -- The verdict that the row of the request has.
  abbrev pub HasVerdict : String → String → List (Row F) → Type 0
  HasVerdict request_id verdict rows =
      (r : Row F) × (find_request request_id rows ≡ some r)
      × (own r.decision_record "verdict" ≡ some (str verdict))

  -- The row of the request has the verdict of the decision, or BLOCK.
  abbrev pub IsSettled : String → Decision F → List (Row F) → Type 0
  IsSettled request_id d rows =
      HasVerdict request_id (verdict_name d.verdict) rows ⊎ HasVerdict request_id "BLOCK" rows

  abbrev pub HasRow : String → List (Row F) → Type 0
  HasRow request_id rows = (x : Row F) × (find_request request_id rows ≡ some x)

module _ {F : Type 0} ⦃js : Runtime F⦄ (sha256 : String → String) (occasion : Occasion F)
    (request_id : String) where
  pub update-HasVerdict :
      (u : UpdateData F) (verdict : String) (rows : List (Row F))
      → HasRow request_id rows
      → own u.decision_record "verdict" ≡ some (str verdict)
      → HasVerdict request_id verdict (update_record_and_recalculate sha256 request_id u rows).0
  unfolding amend
  update-HasVerdict u verdict rows (x, found) h =
      let (r, here, same) = find_request-update sha256 request_id u rows x found in
      (r, here, ap (λ q. own q.decision_record "verdict") same ∙ h)

  pub fall_back-HasVerdict :
      (message : String) (site : Site F)
      → HasRow request_id site.desk.rows
      → HasVerdict request_id "BLOCK" (fall_back sha256 occasion request_id message site).desk.rows
  unfolding fall_back get
  fall_back-HasVerdict message site h =
      update-HasVerdict (failure_data occasion.now request_id message) "BLOCK" site.desk.rows h refl

  pub HasVerdict-row :
      (verdict : String) (rows : List (Row F))
      → HasVerdict request_id verdict rows
      → HasRow request_id rows
  HasVerdict-row verdict rows (r, found, h) = (r, found)

  finish-IsSettled :
      (d : Decision F) (notice : Notice) (site : Site F)
      → HasVerdict request_id (verdict_name d.verdict) site.desk.rows
      → IsSettled request_id d (finish sha256 occasion request_id notice site).desk.rows
  unfolding finish
  finish-IsSettled d notice site h =
      elim (Bool-cases (is_iterable (urls_or_none occasion.webhook_urls))) [
        | inl e ↦ rw e (inl h)
        | inr e ↦ rw e (
            inr (
              fall_back-HasVerdict occasion.unknown_error
                (record site {
                  notices = (notify_verdict occasion.webhook_urls notice site.notices).0;
                })
                (HasVerdict-row (verdict_name d.verdict) site.desk.rows h)))
      ]

  after_update-IsSettled :
      (d : Decision F) (notice : Notice) (site : Site F) (rows : List (Row F)) (o : Outcome (Row F))
      → HasVerdict request_id (verdict_name d.verdict) rows
      → IsSettled request_id d
          (after_update sha256 occasion request_id notice site (rows, o)).desk.rows
  unfolding after_update
  after_update-IsSettled d notice site rows (done r) h =
      finish-IsSettled d notice (with_rows rows site) h
  after_update-IsSettled d notice site rows (not_found message) h =
      inr (fall_back-HasVerdict message (with_rows rows site) (HasVerdict-row _ rows h))
  after_update-IsSettled d notice site rows (internal_error message) h =
      inr (fall_back-HasVerdict message (with_rows rows site) (HasVerdict-row _ rows h))
  after_update-IsSettled d notice site rows thrown h =
      inr (
        fall_back-HasVerdict occasion.unknown_error (with_rows rows site) (HasVerdict-row _ rows h))

  conclude-IsSettled :
      (result : ValidationResult F) (request : ParsedRequest F) (site : Site F) (h : Handled F)
      → HasRow request_id (desk_of h).rows
      → IsSettled request_id
          (decision_of h)
          (conclude sha256 occasion request_id result request site h).desk.rows
  unfolding conclude decision_json get
  conclude-IsSettled result request site (handled desk d executed ticket_id) row =
      let u = update_data occasion.now d result executed request in
      let updated = update_record_and_recalculate sha256 request_id u desk.rows in
      after_update-IsSettled d (notice_of occasion.now d request result ticket_id)
        (record site { desk = desk }) updated.0 updated.1
        (update-HasVerdict u (verdict_name d.verdict) desk.rows row refl)
  conclude-IsSettled result request site (failed desk d message) row =
      inr (fall_back-HasVerdict _ (record site { desk = desk }) row)

module _ {F : Type 0} (execute : ParsedRequest F → Json F) (ticket_id : String) where
  escalate-rows :
      (d : Decision F) (request : ParsedRequest F) (desk : Desk F)
      → (escalate ticket_id d request desk).0.rows ≡ desk.rows
  unfolding escalate
  escalate-rows d request desk = ground arith

  pub dispatch-rows :
      (d : Decision F) (request : ParsedRequest F) (desk : Desk F)
      → ((desk_of (dispatch execute ticket_id d request desk)).rows ≡ desk.rows)
        × (decision_of (dispatch execute ticket_id d request desk) ≡ d)
  unfolding dispatch
  dispatch-rows d request desk = ground (arith, escalate-rows d request desk)

module _ {F : Type 0} ⦃js : Runtime F⦄ (classify : String → String) (validators : Validators F)
    (policy : Policy F) where
  -- The decision of a job, after the override of the OBSERVE mode.
  abbrev pub job_decision : String → ParsedRequest F → Decision F
  job_decision mode parsed =
      let v = validate validators (classified classify parsed) in
      observe mode (decide policy v.redacted_request v.result)

module _ {F : Type 0} ⦃js : Runtime F⦄ (sha256 : String → String) (classify : String → String)
    (execute : ParsedRequest F → Json F) (validators : Validators F) (policy : Policy F) where
  -- A job whose request has a row leaves in this row the verdict of its decision, or BLOCK, whatever
  -- throws on the way.
  pub run_job-IsSettled :
      (occasion : Occasion F) (request_id : String) (parsed : ParsedRequest F) (site : Site F)
      (x : Row F)
      → find_request request_id site.desk.rows ≡ some x
      → IsSettled request_id
          (job_decision classify validators policy occasion.mode parsed)
          (run_job sha256 classify execute validators policy occasion request_id parsed
            site).desk.rows
  unfolding run_job process_job
  run_job-IsSettled occasion request_id parsed site x found =
      let v = validate validators (classified classify parsed) in
      let d = job_decision classify validators policy occasion.mode parsed in
      let h = dispatch execute occasion.ticket_id d v.redacted_request site.desk in
      let (rows, decided) =
        dispatch-rows execute occasion.ticket_id d v.redacted_request site.desk in
      subst
        (λ e.
          IsSettled request_id e
            (conclude sha256 occasion request_id v.result v.redacted_request site h).desk.rows)
        decided
        (conclude-IsSettled sha256 occasion request_id v.result v.redacted_request site h
          (x, rw rows found))
