-- ===== src/Metrics/Bounds.antt =====
-- The window of recent requests of apps/api/src/integration/metrics.service.ts stays bounded, and an
-- alert on the error rate is raised exactly when it should be.
use mini_sentinel.Prelude.{◌≤◌, ◌<◌, List, [], ◌∷◌, length, length-append, ◌≡◌, ◌↔◌, ◌⊎◌, arith}
use mini_sentinel.Metrics.Window.{
  Recent, Metrics, push_recent, failed_count, error_alerts, record_request, clear_alerts,
  IsReachable, started, recorded, cleared,
}

length-push_recent :
    (r : Recent) (rs : List Recent) → length rs ≤ 100 → length (push_recent r rs) ≤ 100
unfolding push_recent
length-push_recent r [] h = ground arith
length-push_recent r (s ∷ rs) h = ground (arith, length-append rs (r ∷ []))

-- In every state that the service reaches, at most 100 requests are kept.
pub recent_requests-bound : (m : Metrics) → IsReachable m → length m.recent_requests ≤ 100
unfolding record_request clear_alerts
recent_requests-bound m started = omega arith
recent_requests-bound m (recorded latency success {m = before} h) =
    length-push_recent (record { success = success; latency = latency }) before.recent_requests
      (recent_requests-bound before h)
recent_requests-bound m (cleared {m = before} h) = recent_requests-bound before h

-- On a window of at most 100 requests the alert on the error rate is raised after a request exactly
-- when the window holds at least ten requests, and two of them failed, or one of fewer than 100.
pub error_alerts_iff :
    (rs : List Recent)
    → length rs ≤ 100
    → (length (error_alerts rs) ≡ 1)
      ↔ ((10 ≤ length rs) × ((2 ≤ failed_count rs) ⊎ ((1 ≤ failed_count rs) × (length rs < 100))))
unfolding error_alerts
error_alerts_iff rs h = ground arith
