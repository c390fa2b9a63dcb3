-- ===== src/Gateway/Polling.antt =====
-- What `getStatus` of apps/api/src/api/gateway.controller.ts answers before and after the job of
-- apps/api/src/common/queue/job.worker.service.ts.
use mini_sentinel.Prelude.{String, false, some, List, ◌≡◌, ◌≢◌, inl, inr, refl, ◌==◌, arith}
use mini_sentinel.Values.Json.{Json}
use mini_sentinel.Values.Runtime.{Runtime}
use mini_sentinel.Types.{Verdict, ParsedRequest, Decision}
use mini_sentinel.Types.Encode.{verdict_name}
use mini_sentinel.Decision.Scan.{Policy}
use mini_sentinel.Audit.Row.{Row}
use mini_sentinel.Audit.Store.{find_request}
use mini_sentinel.Review.Tickets.{Ticket}
use mini_sentinel.Pipeline.Run.{Validators}
use mini_sentinel.Worker.Run.{Site, Occasion, run_job}
use mini_sentinel.Worker.Settled.{HasVerdict, IsSettled, job_decision, run_job-IsSettled}
use mini_sentinel.Gateway.Status.{unknown, pending, get_status}

pub verdict_name-pending : (v : Verdict) → (verdict_name v == "PENDING") ≡ false
verdict_name-pending Verdict.approve = refl
verdict_name-pending Verdict.block = refl
verdict_name-pending Verdict.escalate = refl

module _ {F : Type 0} ⦃js : Runtime F⦄ where
  -- The answer is neither the status 404 nor PENDING.
  abbrev pub IsAnswered : String → List Ticket → List (Row F) → Type 0
  IsAnswered request_id ts rows =
      (get_status request_id ts rows ≢ unknown) × (get_status request_id ts rows ≢ pending)

  pub HasVerdict-IsAnswered :
      (request_id verdict : String) (ts : List Ticket) (rows : List (Row F))
      → (verdict == "PENDING") ≡ false
      → HasVerdict request_id verdict rows
      → IsAnswered request_id ts rows
  unfolding get_status
  HasVerdict-IsAnswered request_id verdict ts rows other (r, found, h) =
      (λ e. ground (arith, found, h, other, e), λ e. ground (arith, found, h, other, e))

  IsSettled-IsAnswered :
      (request_id : String) (d : Decision F) (ts : List Ticket) (rows : List (Row F))
      → IsSettled request_id d rows
      → IsAnswered request_id ts rows
  IsSettled-IsAnswered request_id d ts rows (inl h) =
      HasVerdict-IsAnswered request_id (verdict_name d.verdict) ts rows
        (verdict_name-pending d.verdict) h
  IsSettled-IsAnswered request_id d ts rows (inr h) =
      HasVerdict-IsAnswered request_id "BLOCK" ts rows refl h

module _ {F : Type 0} ⦃js : Runtime F⦄ (sha256 : String → String) (classify : String → String)
    (execute : ParsedRequest F → Json F) (validators : Validators F) (policy : Policy F) where
  -- A job whose request has a row in the trail ends, whatever throws on the way, with the verdict of its
  -- decision or with BLOCK in that row, and a poll for the status is from then on answered neither with
  -- 404 nor with PENDING.
  pub run_job-IsAnswered :
      (occasion : Occasion F) (request_id : String) (parsed : ParsedRequest F) (site : Site F)
      (x : Row F) (ts : List Ticket)
      → find_request request_id site.desk.rows ≡ some x
      → let rows =
          (run_job sha256 classify execute validators policy occasion request_id parsed
            site).desk.rows in
        IsSettled request_id (job_decision classify validators policy occasion.mode parsed) rows
        × IsAnswered request_id ts rows
  run_job-IsAnswered occasion request_id parsed site x ts found =
      let settled =
        run_job-IsSettled sha256 classify execute validators policy occasion request_id parsed site
          x found in
      let d = job_decision classify validators policy occasion.mode parsed in
      (settled, IsSettled-IsAnswered request_id d ts _ settled)
