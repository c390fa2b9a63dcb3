-- ===== src/Worker/Chained.antt =====
-- What `processJob` of apps/api/src/common/queue/job.worker.service.ts leaves of the audit trail.
use mini_sentinel.Prelude.{
  String, some, List, ◌≡◌, sym, ◌∙◌, ap, subst, Bool-cases, inl, inr, arith,
}
use mini_sentinel.Values.Json.{Json, str, get}
use mini_sentinel.Values.Runtime.{Runtime}
use mini_sentinel.Types.{ParsedRequest, ValidationResult}
use mini_sentinel.Types.Encode.{request_json}
use mini_sentinel.Decision.Scan.{Policy}
use mini_sentinel.Audit.Row.{Row}
use mini_sentinel.Audit.Store.{find_request}
use mini_sentinel.Audit.Service.{
  Outcome, done, not_found, internal_error, thrown, amend, verified, verify_chain,
  update_record_and_recalculate,
}
use mini_sentinel.Audit.Verify.{verify_chain-Chain}
use mini_sentinel.Audit.Content.{find_request-update}
use mini_sentinel.Audit.Heal.Prefix.{NonEmpty}
use mini_sentinel.Audit.Trail.{IsTrail, IsTrail-IsDated, update-IsTrail}
use mini_sentinel.Pipeline.Run.{Validators, validate, security_stage, parse_rejection}
use mini_sentinel.Integration.Notifier.{Notice, notify_verdict, is_iterable, urls_or_none}
use mini_sentinel.Worker.Dispatch.{Handled, handled, failed, desk_of, process_job, observe}
use mini_sentinel.Decision.Engine.{decide}
use mini_sentinel.Worker.Run.{
  Site, Occasion, with_rows, failure_data, update_data, notice_of, fall_back, finish, after_update,
  conclude, classified, run_job,
}
use mini_sentinel.Worker.Settled.{HasRow, dispatch-rows}

module _ {F : Type 0} ⦃js : Runtime F⦄ (sha256 : String → String) (ne : NonEmpty sha256)
    (occasion : Occasion F) (request_id : String) where
  fall_back-IsTrail :
      (message : String) (site : Site F)
      → IsTrail sha256 site.desk.rows
      → HasRow request_id site.desk.rows
      → IsTrail sha256 (fall_back sha256 occasion request_id message site).desk.rows
  unfolding fall_back amend
  fall_back-IsTrail message site trail (x, found) =
      (update-IsTrail sha256 ne request_id (failure_data occasion.now request_id message)
        site.desk.rows x trail found
        (IsTrail-IsDated sha256 request_id site.desk.rows x trail found)).0

  finish-IsTrail :
      (notice : Notice) (site : Site F)
      → IsTrail sha256 site.desk.rows
      → HasRow request_id site.desk.rows
      → IsTrail sha256 (finish sha256 occasion request_id notice site).desk.rows
  unfolding finish
  finish-IsTrail notice site trail row =
      elim (Bool-cases (is_iterable (urls_or_none occasion.webhook_urls))) [
        | inl e ↦ rw e trail
        | inr e ↦ rw e (
            fall_back-IsTrail occasion.unknown_error
              (record site {
                notices = (notify_verdict occasion.webhook_urls notice site.notices).0;
              })
              trail row)
      ]

  after_update-IsTrail :
      (notice : Notice) (site : Site F) (rows : List (Row F)) (o : Outcome (Row F))
      → IsTrail sha256 rows
      → HasRow request_id rows
      → IsTrail sha256 (after_update sha256 occasion request_id notice site (rows, o)).desk.rows
  unfolding after_update
  after_update-IsTrail notice site rows (done r) trail row =
      finish-IsTrail notice (with_rows rows site) trail row
  after_update-IsTrail notice site rows (not_found message) trail row =
      fall_back-IsTrail message (with_rows rows site) trail row
  after_update-IsTrail notice site rows (internal_error message) trail row =
      fall_back-IsTrail message (with_rows rows site) trail row
  after_update-IsTrail notice site rows thrown trail row =
      fall_back-IsTrail occasion.unknown_error (with_rows rows site) trail row

  conclude-IsTrail :
      (result : ValidationResult F) (request : ParsedRequest F) (date : String) (site : Site F)
      (h : Handled F)
      → js.iso_date (some (str request.timestamp)) ≡ some date
      → IsTrail sha256 (desk_of h).rows
      → HasRow request_id (desk_of h).rows
      → IsTrail sha256 (conclude sha256 occasion request_id result request site h).desk.rows
  unfolding conclude amend request_json get
  conclude-IsTrail result request date site (handled desk d executed ticket_id) dated trail
        (x, found) =
      let u = update_data occasion.now d result executed request in
      let updated = update_record_and_recalculate sha256 request_id u desk.rows in
      let (r, here, same) = find_request-update sha256 request_id u desk.rows x found in
      after_update-IsTrail (notice_of occasion.now d request result ticket_id)
        (record site { desk = desk }) updated.0 updated.1
        (update-IsTrail sha256 ne request_id u desk.rows x trail found (date, dated)).0 (r, here)
  conclude-IsTrail result request date site (failed desk d message) dated trail row =
      fall_back-IsTrail _ (record site { desk = desk }) trail row

module _ {F : Type 0} ⦃js : Runtime F⦄ where
  classified-timestamp :
      (classify : String → String) (r : ParsedRequest F)
      → (classified classify r).timestamp ≡ r.timestamp
  unfolding classified
  classified-timestamp classify r = ground arith

  validate-timestamp :
      (validators : Validators F) (r : ParsedRequest F)
      → (validate validators r).redacted_request.timestamp ≡ r.timestamp
  unfolding validate security_stage parse_rejection
  validate-timestamp validators r = ground arith

module _ {F : Type 0} ⦃js : Runtime F⦄ (sha256 : String → String) (classify : String → String)
    (execute : ParsedRequest F → Json F) (validators : Validators F) (policy : Policy F) where
  -- Over a verified trail whose rows have distinct identifiers, a job whose request has a row and a date
  -- that can be printed leaves such a trail, on every path through the job, its failures included.
  pub run_job-IsTrail :
      NonEmpty sha256
      → (occasion : Occasion F) (request_id date : String) (parsed : ParsedRequest F)
        (site : Site F) (x : Row F)
      → IsTrail sha256 site.desk.rows
      → find_request request_id site.desk.rows ≡ some x
      → js.iso_date (some (str parsed.timestamp)) ≡ some date
      → let rows =
          (run_job sha256 classify execute validators policy occasion request_id parsed
            site).desk.rows in
        IsTrail sha256 rows × (verify_chain sha256 rows ≡ verified)
  unfolding run_job process_job
  run_job-IsTrail ne occasion request_id date parsed site x trail found dated =
      let request = classified classify parsed in
      let v = validate validators request in
      let d = observe occasion.mode (decide policy v.redacted_request v.result) in
      let same = (dispatch-rows execute occasion.ticket_id d v.redacted_request site.desk).0 in
      let time = validate-timestamp validators request ∙ classified-timestamp classify parsed in
      let kept =
        conclude-IsTrail sha256 ne occasion request_id v.result v.redacted_request date site
          (process_job execute occasion.ticket_id validators policy occasion.mode request site.desk)
          (ap (λ t. js.iso_date (some (str t))) time ∙ dated)
          (subst (IsTrail sha256) (sym same) trail)
          (x, ap (find_request request_id) same ∙ found) in
      (kept, verify_chain-Chain sha256 _ kept.chain)
