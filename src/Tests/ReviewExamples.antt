-- ===== src/Tests/ReviewExamples.antt =====
-- Examples for the reviews of apps/api/src/workflow/review.service.ts and the redaction of
-- apps/api/src/validation/pii.
use mini_sentinel.Prelude.{
  true, any, ◌&&◌, ℕ, ◌+◌, ◌≤◌, String, false, none, List, [], ◌∷◌, ◌≡◌, refl,
}
use mini_sentinel.Values.Json.{Json, str, end, field, get}
use mini_sentinel.Values.Runtime.{stringify}
use mini_sentinel.Audit.Row.{Row, hash_input, content_str}
use mini_sentinel.Audit.Service.{amend, verified, verify_chain}
use mini_sentinel.Review.Tickets.{
  ReviewStatus, ReviewPriority, ReviewDecision, Ticket, Desk, submitted, review, execution,
  review_data, submit_decision,
}
use mini_sentinel.Review.Once.{Submission, count, submit_all, submit_all-once}
use mini_sentinel.Review.Trail.{submit_decision-verified}
use mini_sentinel.Pii.Detector.{PiiType, Span, detect}
use mini_sentinel.Pii.Redactor.{redact_parameters_local, is_sensitive_key}
use mini_sentinel.Pii.Order.{Descending}
use mini_sentinel.Pii.Apart.{IsApart}
use mini_sentinel.Pii.Found.{is_match, is_span, detect_lem}
use mini_sentinel.Pii.Faithful.{redact_parameters_local-kept}
use mini_sentinel.Tests.{engine}
use mini_sentinel.Tests.TrailExamples.{
  mark, mark-ne, text-ne, first_row, first_row-Chain, second_row,
}

abbrev ticket : Ticket
ticket = record {
  id = "k1";
  request_id = "r1";
  audit_record_id = "i1";
  ticket_number = 1001;
  status = ReviewStatus.pending;
  priority = ReviewPriority.high;
  agent_id = "a";
  tool_name = "dialer";
  action_name = "call";
  risk_score = 8000;
  assigned_to = none;
  reviewer_notes = none;
  reviewer_decision = none;
}

abbrev desk : Desk ℕ
desk = record { tickets = ticket ∷ []; rows = first_row ∷ (second_row ∷ []); executed = [] }

abbrev execute : Json ℕ → Json ℕ
execute v = str "executed"

abbrev approval : Submission
approval = record {
  now = "d11";
  id = "k1";
  reviewer = "officer";
  decision = ReviewDecision.approve;
  notes = none;
}

submit_all-once_example :
    count "k1" (submit_all mark execute (approval ∷ (approval ∷ [])) desk).executed ≤ 0 + 1
submit_all-once_example = submit_all-once mark execute "k1" (approval ∷ (approval ∷ [])) desk

abbrev reviewed : Row ℕ
reviewed =
    amend (review_data execute "d11" ticket second_row "officer" ReviewDecision.approve none)
      second_row

submit_decision-verified_example :
    (verify_chain mark
        (submit_decision mark execute "d11" "k1" "officer" ReviewDecision.approve none desk).0.rows
      ≡ verified)
    × ((submit_decision mark execute "d11" "k1" "officer" ReviewDecision.approve none desk).1
        ≡ submitted
            (review "officer" ReviewDecision.approve none ticket)
            (execution execute ReviewDecision.approve second_row))
unfolding content_str hash_input get amend review_data
submit_decision-verified_example =
    submit_decision-verified mark execute mark-ne "d11" "k1" "officer" ReviewDecision.approve none
      desk ticket (first_row ∷ []) [] second_row refl refl refl refl refl refl first_row-Chain
      (refl, (refl, tt)) ((text-ne "i1" "i0" refl, tt), (tt, tt))
      ((stringify (hash_input reviewed "d1"), refl), tt)

abbrev exec : PiiType → String → List Span
exec PiiType.ssn content =
    (record { value = "111-22-3333"; start = 4 })
    ∷ (record { value = "444-55-6666"; start = 20 })
    ∷ []
exec _ content = []

abbrev text : String
text = "ssn 111-22-3333 and 444-55-6666"

detect_lem_example :
    Descending (detect exec (λ s. false) text)
    × IsApart (detect exec (λ s. false) text)
    × (any (is_match PiiType.ssn "444-55-6666" 20) (detect exec (λ s. false) text)
        ≡ any (is_span "444-55-6666" 20) (exec PiiType.ssn text) && true)
detect_lem_example = detect_lem exec (λ s. false) text PiiType.ssn "444-55-6666" 20 refl

redact_parameters_local-kept_example :
    (redact_parameters_local {F = ℕ} (λ s. []) (field "note" (str "hello") end)).redacted_params
    ≡ field "note" (str "hello") end
unfolding redact_parameters_local is_sensitive_key
redact_parameters_local-kept_example =
    redact_parameters_local-kept (λ s. []) (field "note" (str "hello") end) refl
