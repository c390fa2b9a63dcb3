-- ===== src/Worker/Enforce.antt =====
-- What the execution mode means for a job of apps/api/src/common/queue/job.worker.service.ts.
use mini_sentinel.Prelude.{
  String, true, false, some, none, List, [], ◌∷◌, ◌++◌, ◌||◌, ◌≡◌, if◌then◌else◌, ◌==◌, arith,
}
use mini_sentinel.Values.Json.{Json}
use mini_sentinel.Values.Runtime.{Runtime}
use mini_sentinel.Types.{ParsedRequest, Decision, ComplianceRule, RuleAction}
use mini_sentinel.Decision.Scan.{Policy, rule_of}
use mini_sentinel.Decision.Engine.{decide}
use mini_sentinel.Compliance.Params.{Checked, returned}
use mini_sentinel.Compliance.Engine.{normalized, check_of, run_rule}
use mini_sentinel.Review.Tickets.{of_job, Desk, escalate}
use mini_sentinel.Pipeline.Run.{Validators, validate}
use mini_sentinel.Pipeline.Enforced.{blocking_rule-block}
use mini_sentinel.Worker.Dispatch.{
  is_approve, desk_of, execution_of, observe, dispatch, process_job,
}

module _ {F : Type 0} (execute : ParsedRequest F → Json F) (ticket_id : String) where
  -- Escalation does not touch the log.
  escalate-executed :
      (d : Decision F) (request : ParsedRequest F) (desk : Desk F)
      → (escalate ticket_id d request desk).0.executed ≡ desk.executed
  unfolding escalate
  escalate-executed d request desk = ground arith

  dispatch-executed :
      (d : Decision F) (request : ParsedRequest F) (desk : Desk F)
      → (desk_of (dispatch execute ticket_id d request desk)).executed
        ≡ (if is_approve d.verdict then desk.executed ++ of_job request ∷ [] else desk.executed)
  unfolding dispatch
  dispatch-executed d request desk = ground (arith, escalate-executed d request desk)

  execution_of-dispatch :
      (d : Decision F) (request : ParsedRequest F) (desk : Desk F)
      → execution_of (dispatch execute ticket_id d request desk)
        ≡ (if is_approve d.verdict then some (execute request) else none)
  unfolding dispatch escalate
  execution_of-dispatch d request desk = ground arith

module _ {F : Type 0} ⦃js : Runtime F⦄ (execute : ParsedRequest F → Json F)
    (ticket_id : String) where
  -- A job hands the request that the validation has redacted to the executor, once, and keeps its result,
  -- when the mode is OBSERVE or the decision on that request approves it; otherwise it hands over
  -- nothing, and has no result.
  pub process_job-executed :
      (validators : Validators F) (policy : Policy F) (mode : String) (request : ParsedRequest F)
      (desk : Desk F)
      → let v = validate validators request in
        let runs =
          mode == "OBSERVE" || is_approve (decide policy v.redacted_request v.result).verdict in
        let after = process_job execute ticket_id validators policy mode request desk in
        ((desk_of after).executed
          ≡ (if runs then desk.executed ++ of_job v.redacted_request ∷ [] else desk.executed))
        × (execution_of after ≡ (if runs then some (execute v.redacted_request) else none))
  unfolding process_job observe
  process_job-executed validators policy mode request desk =
      let v = validate validators request in
      let d = decide policy v.redacted_request v.result in
      let log = dispatch-executed execute ticket_id (observe mode d) v.redacted_request desk in
      let result =
        execution_of-dispatch execute ticket_id (observe mode d) v.redacted_request desk in
      (ground (arith, log), ground (arith, result))

  -- In another mode than OBSERVE, a job whose request parses, for a tool that requires the compliance
  -- check, changes neither the tickets nor the log when an enabled rule with the action BLOCK returns
  -- that it does not hold, and the decision engine finds that rule behind the check.
  pub blocking_rule-process_job :
      (validators : Validators F) (policy : Policy F) (mode : String) (request : ParsedRequest F)
      (desk : Desk F) (before after : List (ComplianceRule F)) (rule : ComplianceRule F)
      (c : Checked F)
      → (mode == "OBSERVE") ≡ false
      → request.parse_errors ≡ []
      → request.tool.requires_compliance_check ≡ true
      → validators.rules ≡ before ++ rule ∷ after
      → rule.enabled ≡ true
      → rule.action ≡ RuleAction.block
      → run_rule validators.services (normalized validators.services request) rule ≡ returned c
      → c.passed ≡ false
      → rule_of policy.rules
          (check_of validators.services (normalized validators.services request) rule)
        ≡ some rule
      → desk_of (process_job execute ticket_id validators policy mode request desk) ≡ desk
  unfolding process_job observe dispatch
  blocking_rule-process_job validators policy mode request desk before after rule c enforced parsed
        on split enabled blocks run unmet found =
      let v = validate validators request in
      let blocked =
        blocking_rule-block validators policy request v.redacted_request before after rule c parsed
          on split enabled blocks run unmet found in
      ground (arith, enforced, blocked)
