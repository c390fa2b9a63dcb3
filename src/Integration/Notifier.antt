-- ===== src/Integration/Notifier.antt =====
-- `NotifierService` of apps/api/src/integration/notifier.service.ts. The requests to the webhooks, whose
-- failures are only logged, are left out.
use mini_sentinel.Prelude.{ℕ, String, Bool, true, false, Option, none, some, List, [], ◌∷◌, ◌++◌}
use mini_sentinel.Values.Json.{Json, str, arr, nil}
use mini_sentinel.Types.{Verdict, ValidationFailure}

-- `VerdictWebhookPayload`
pub record Notice : Type 0 where
  pub request_id : String
  pub agent_id : String
  pub verdict : Verdict
  pub timestamp : String
  pub risk_score : ℕ
  pub reasoning : String
  pub validation_failures : List ValidationFailure
  pub escalation_ticket_id : Option String

module _ {F : Type 0} where
  -- The loop `for (const url of webhookUrls)` throws on a value that is no array and no text.
  abbrev pub is_iterable : Json F → Bool
  is_iterable (arr vs) = true
  is_iterable (str s) = true
  is_iterable _ = false

  abbrev pub urls_or_none : Option (Json F) → Json F
  urls_or_none none = arr nil
  urls_or_none (some v) = v

  -- `notifyVerdict(payload)`, given the setting `webhook_urls`: the log, and whether it returns
  unfoldable pub notify_verdict : Option (Json F) → Notice → List Notice → List Notice × Bool
  notify_verdict urls notice log = (log ++ notice ∷ [], is_iterable (urls_or_none urls))

-- `clearLogs()`
abbrev pub clear_logs : List Notice → List Notice
clear_logs log = []
