-- ===== src/Worker/Dispatch.antt =====
-- Steps 2 to 4 of `processJob` of apps/api/src/common/queue/job.worker.service.ts: the validation, the
-- decision, the override of the OBSERVE mode, and the execution or the ticket. Executed requests are
-- logged; `execute` is the executor. The classification before, the update of the trail, the
-- notification and the metrics after these steps are left out.
use mini_sentinel.Prelude.{
  String, Bool, true, false, not, Option, none, some, [], ◌∷◌, ◌++◌, ◌&&◌, if◌then◌else◌, ◌==◌,
  ◌^^◌,
}
use mini_sentinel.Values.Json.{Json}
use mini_sentinel.Values.Runtime.{Runtime}
use mini_sentinel.Types.{Verdict, ParsedRequest, Decision}
use mini_sentinel.Types.Encode.{verdict_name}
use mini_sentinel.Decision.Scan.{Policy}
use mini_sentinel.Decision.Engine.{decide}
use mini_sentinel.Audit.Service.{Outcome, done, not_found, internal_error, thrown}
use mini_sentinel.Review.Tickets.{Ticket, of_job, Desk, escalate}
use mini_sentinel.Pipeline.Run.{Validators, validate}

abbrev pub is_approve : Verdict → Bool
is_approve Verdict.approve = true
is_approve _ = false

-- What the steps leave: the tickets and the log, the decision, the result of an execution, and the
-- identifier of a ticket; or the exception of `escalate`, with its message where the code gives one.
pub data Handled (F : Type 0) : Type 0 where
  handled : Desk F → Decision F → Option (Json F) → Option String → Handled F
  failed : Desk F → Decision F → Option String → Handled F

module _ {F : Type 0} where
  abbrev pub desk_of : Handled F → Desk F
  desk_of (handled desk d result id) = desk
  desk_of (failed desk d message) = desk

  abbrev pub decision_of : Handled F → Decision F
  decision_of (handled desk d result id) = d
  decision_of (failed desk d message) = d

  -- the result of the executor, where it was called
  abbrev pub execution_of : Handled F → Option (Json F)
  execution_of (handled desk d result id) = result
  execution_of (failed desk d message) = none

  -- the override of the OBSERVE mode
  unfoldable pub observe : String → Decision F → Decision F
  observe mode d =
      if mode == "OBSERVE" && not (is_approve d.verdict)
      then record d {
        verdict = Verdict.approve;
        reasoning =
            "[OBSERVE ONLY OVERRIDE] Request would have been "
            ^^ verdict_name d.verdict
            ^^ " due to compliance violations, but was allowed under OBSERVE mode. Original reasoning: "
            ^^ d.reasoning;
      }
      else d

  abbrev with_ticket : Decision F → Desk F × Outcome Ticket → Handled F
  with_ticket d (desk, done t) = handled desk d none (some t.id)
  with_ticket d (desk, not_found message) = failed desk d (some message)
  with_ticket d (desk, internal_error message) = failed desk d (some message)
  with_ticket d (desk, thrown) = failed desk d none

  module _ (execute : ParsedRequest F → Json F) (ticket_id : String) where
    dispatch_to : Verdict → Decision F → ParsedRequest F → Desk F → Handled F
    unfolding escalate
    dispatch_to Verdict.approve d request desk =
        handled (record desk { executed = desk.executed ++ of_job request ∷ [] }) d
          (some (execute request)) none
    dispatch_to Verdict.escalate d request desk = with_ticket d (escalate ticket_id d request desk)
    dispatch_to Verdict.block d request desk = handled desk d none none

    -- step 4
    unfoldable pub dispatch : Decision F → ParsedRequest F → Desk F → Handled F
    unfolding dispatch_to
    dispatch d request desk = dispatch_to d.verdict d request desk

module _ {F : Type 0} ⦃js : Runtime F⦄ (execute : ParsedRequest F → Json F)
    (ticket_id : String) where
  -- steps 2 to 4
  unfoldable pub process_job :
      Validators F → Policy F → String → ParsedRequest F → Desk F → Handled F
  unfolding dispatch observe
  process_job validators policy mode request desk =
      let v = validate validators request in
      dispatch execute ticket_id (observe mode (decide policy v.redacted_request v.result))
        v.redacted_request desk
