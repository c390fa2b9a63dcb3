-- ===== src/Metrics/Summary.antt =====
-- `getMetricsSummary` of apps/api/src/integration/metrics.service.ts over the audit table. `time` is the
-- number of milliseconds of a date; the average and the error rate are kept as the two numbers of their
-- fractions; the products with 0.95 and 0.99 are taken exactly. A stored reasoning is a text.
use mini_sentinel.Prelude.{
  ℕ, ◌+◌, ◌-◌, ◌*◌, ◌/◌, min, String, Bool, false, not, Option, none, some, List, [], ◌∷◌, map,
  filter, length, leb, get_elem?, if◌then◌else◌, ◌==◌, ◌&&◌, ◌||◌, name_has,
}
use mini_sentinel.Values.Json.{Json, str}
use mini_sentinel.Values.Runtime.{Runtime}
use mini_sentinel.Values.Coerce.{truthy}
use mini_sentinel.Audit.Row.{Row, own}

pub record Distribution : Type 0 where
  pub approve : ℕ
  pub block : ℕ
  pub escalate : ℕ

pub record Summary : Type 0 where
  pub total_requests : ℕ
  -- the sum of the latencies, and their number
  pub latency_sum : ℕ
  pub latency_count : ℕ
  pub p95_latency : ℕ
  pub p99_latency : ℕ
  -- the failed requests, of `total_requests`
  pub failed : ℕ
  pub verdict_distribution : Distribution

unfoldable pub insert_latency : ℕ → List ℕ → List ℕ
insert_latency a [] = a ∷ []
insert_latency a (b ∷ bs) =
    let rest = insert_latency a bs in if leb a b then a ∷ (b ∷ bs) else b ∷ rest

-- `[...latencies].sort((a, b) => a - b)`
unfoldable pub sort_latencies : List ℕ → List ℕ
unfolding insert_latency
sort_latencies [] = []
sort_latencies (a ∷ ls) = insert_latency a (sort_latencies ls)

-- `Math.min(total - 1, Math.floor(total * percent / 100))`
abbrev pub percentile_index : ℕ → ℕ → ℕ
percentile_index percent total = min (total - 1) (total * percent / 100)

abbrev value_or : Option ℕ → ℕ
value_or none = 0
value_or (some a) = a

-- `p95` and `p99`; 0 without latencies
unfoldable pub percentile : ℕ → List ℕ → ℕ
unfolding sort_latencies
percentile percent latencies =
    value_or (get_elem? (sort_latencies latencies) (percentile_index percent (length latencies)))

abbrev pub sum : List ℕ → ℕ
sum [] = 0
sum (a ∷ ls) = a + sum ls

module _ {F : Type 0} where
  abbrev pub is_text : String → Option (Json F) → Bool
  is_text t (some (str s)) = s == t
  is_text t _ = false

  abbrev pub has_verdict : String → Row F → Bool
  has_verdict verdict r = is_text verdict (own r.decision_record "verdict")

  abbrev mentions : Option (Json F) → Bool
  mentions (some (str s)) = name_has s "error" || name_has s "failed"
  mentions _ = false

  -- a request that failed by an internal error
  unfoldable pub is_failed : Row F → Bool
  is_failed r = has_verdict "BLOCK" r && mentions (own r.decision_record "reasoning")

  abbrev pub count : (Row F → Bool) → List (Row F) → ℕ
  count p rows = length (filter p rows)

module _ {F : Type 0} ⦃js : Runtime F⦄ (time : String → ℕ) where
  -- `decision && decision.verdict !== 'PENDING'`
  unfoldable pub is_processed : Row F → Bool
  is_processed r = truthy r.decision_record && not (has_verdict "PENDING" r)

  -- `Math.max(0, end - start)`
  abbrev latency : Row F → ℕ
  latency r = time r.completed_at - time r.received_at

  unfoldable pub latencies : List (Row F) → List ℕ
  unfolding is_processed
  latencies rows = map latency (filter is_processed rows)

  unfoldable pub get_metrics_summary : List (Row F) → Summary
  unfolding latencies percentile is_failed
  get_metrics_summary rows =
      let ls = latencies rows in
      record {
        total_requests = length rows;
        latency_sum = sum ls;
        latency_count = length ls;
        p95_latency = percentile 95 ls;
        p99_latency = percentile 99 ls;
        failed = count is_failed rows;
        verdict_distribution = record {
          approve = count (has_verdict "APPROVE") rows;
          block = count (has_verdict "BLOCK") rows;
          escalate = count (has_verdict "ESCALATE") rows;
        };
      }
