-- ===== src/Tests/MetricsExamples.antt =====
-- Examples for the metrics of apps/api/src/integration/metrics.service.ts and for a request without
-- failures.
use mini_sentinel.Prelude.{ℕ, ◌≤◌, ◌<◌, false, [], ◌∷◌, length, ◌≡◌, ◌↔◌, ◌⊎◌, inl, refl, arith}
use mini_sentinel.Values.Json.{end}
use mini_sentinel.Types.{ToolDefinition, ParsedRequest, Verdict, low}
use mini_sentinel.Decision.Scan.{is_costly}
use mini_sentinel.Decision.Engine.{decide}
use mini_sentinel.Compliance.Engine.{evaluate}
use mini_sentinel.Values.Runtime.{stringify}
use mini_sentinel.Compliance.Params.{normalize}
use mini_sentinel.Security.Scan.{scan_params}
use mini_sentinel.Security.Validator.{
  validate_security, security_failures, size_failure, signature_failure, content_failures, found_in,
  issue_failures,
}
use mini_sentinel.Pipeline.Run.{validate}
use mini_sentinel.Pipeline.Clean.{passed-approve}
use mini_sentinel.Metrics.Window.{
  Recent, no_metrics, record_request, error_alerts, failed_count, started, recorded,
}
use mini_sentinel.Metrics.Bounds.{recent_requests-bound, error_alerts_iff}
use mini_sentinel.Tests.{engine, dialer, request_to, policy_of}
use mini_sentinel.Tests.RuleExamples.{validators}

recent_requests-bound_example : length (record_request 700 false no_metrics).recent_requests ≤ 100
recent_requests-bound_example =
    recent_requests-bound (record_request 700 false no_metrics) (recorded 700 false started)

abbrev failed : Recent
failed = record { success = false; latency = 100 }

error_alerts_iff_example : (length (error_alerts (failed ∷ [])) ≡ 1) ↔ (
    (10 ≤ 1) × ((2 ≤ failed_count (failed ∷ [])) ⊎ ((1 ≤ failed_count (failed ∷ [])) × (1 < 100))))
error_alerts_iff_example = error_alerts_iff (failed ∷ []) (omega arith)

abbrev reader : ToolDefinition
reader = record dialer { risk_level = low; name = "customer-database" }

abbrev query : ParsedRequest ℕ
query = request_to reader end []

passed-approve_example :
    (decide (policy_of []) query (validate validators query).result).verdict ≡ Verdict.approve
unfolding validate evaluate validate_security is_costly security_failures size_failure stringify
    signature_failure content_failures found_in scan_params normalize issue_failures
passed-approve_example =
    passed-approve validators (policy_of []) query query refl refl (inl refl) refl
