-- ===== src/Metrics/Window.antt =====
-- `recordRequest`, `evaluateAlerts` and `clearAlerts` of
-- apps/api/src/integration/metrics.service.ts. Latencies are in hundredths of a millisecond; the dates,
-- the messages and the rows that are saved without waiting for them are left out. An error rate is kept
-- as the two counts of its fraction.
use mini_sentinel.Prelude.{
  ℕ, ◌*◌, Bool, not, List, [], ◌∷◌, ◌++◌, filter, length, leb, ltb, ◌&&◌, if◌then◌else◌,
}

pub record Recent : Type 0 where
  pub success : Bool
  pub latency : ℕ

pub data Alert : Type 0 where
  latency_exceeded : ℕ → Alert
  error_rate_exceeded : ℕ → ℕ → Alert

pub record Metrics : Type 0 where
  pub recent_requests : List Recent
  pub alerts : List Alert

abbrev pub no_metrics : Metrics
no_metrics = record { recent_requests = []; alerts = [] }

-- `shift()`
abbrev shift : List Recent → List Recent
shift [] = []
shift (r ∷ rs) = rs

unfoldable pub push_recent : Recent → List Recent → List Recent
push_recent r rs =
    let pushed = rs ++ r ∷ [] in if ltb 100 (length pushed) then shift pushed else pushed

unfoldable pub failed_count : List Recent → ℕ
failed_count rs = length (filter (λ r. not r.success) rs)

-- `currentLatency > 5.0`
unfoldable pub latency_alerts : ℕ → List Alert
latency_alerts latency = if ltb 500 latency then latency_exceeded latency ∷ [] else []

-- `(failedCount / length) * 100 > 1.0`, from ten requests on
unfoldable pub error_alerts : List Recent → List Alert
unfolding failed_count
error_alerts rs =
    if leb 10 (length rs) && ltb (length rs) (failed_count rs * 100)
    then error_rate_exceeded (failed_count rs) (length rs) ∷ []
    else []

-- `recordRequest(latencyMs, success)`
unfoldable pub record_request : ℕ → Bool → Metrics → Metrics
unfolding latency_alerts error_alerts
record_request latency success m =
    let recent = push_recent (record { success = success; latency = latency }) m.recent_requests in
    record {
      recent_requests = recent;
      alerts = m.alerts ++ (latency_alerts latency ++ error_alerts recent);
    }

-- `clearAlerts()`
unfoldable pub clear_alerts : Metrics → Metrics
clear_alerts m = record m { alerts = [] }

-- The states that the service can be in.
pub data IsReachable : Metrics → Type 0 where
  started : IsReachable no_metrics
  recorded :
      (latency : ℕ) (success : Bool) {m : Metrics}
      → IsReachable m
      → IsReachable (record_request latency success m)
  cleared : {m : Metrics} → IsReachable m → IsReachable (clear_alerts m)
