-- ===== src/Tests/ConfigExamples.antt =====
-- Examples for apps/api/src/config/configuration.service.ts: the seeded service, after updates.
use mathlib.Core.List.{Perm}
use mini_sentinel.Prelude.{
  ℕ, String, true, false, none, some, List, [], ◌∷◌, ◌≡◌, refl, map, any, ◌==◌, name_has,
}
use mini_sentinel.Values.Json.{Json, bool, field, end, str, arr, nil, cons, get}
use mini_sentinel.Types.{ComplianceRule}
use mini_sentinel.Compliance.Params.{normalize}
use mini_sentinel.Compliance.Engine.{normalized, run_rule}
use mini_sentinel.Compliance.RegF.{evaluate_reg_f, cease_contact}
use mini_sentinel.Pipeline.Run.{Validators}
use mini_sentinel.Worker.Dispatch.{desk_of, process_job}
use mini_sentinel.Config.Rows.{StoredRule}
use mini_sentinel.Config.Seeds.{
  sample_settings, sample_rules, valid_credit_score_range, minimum_credit_score, maximum_dti_ratio,
  minimum_employment_history, call_frequency_enforce, call_cooldown_enforce, contact_hours_enforce,
  cease_communication_enforce, attorney_contact_enforce, third_party_disclosure_enforce,
  call_frequency_observe, call_cooldown_observe, contact_hours_observe, cease_communication_observe,
  attorney_contact_observe, third_party_disclosure_observe, bankruptcy_hold_enforce,
  bankruptcy_hold_observe,
}
use mini_sentinel.Config.Store.{Service, empty_service, get_config, get_rules, enabled_stored}
use mini_sentinel.Config.Updates.{
  done, seeded, find_rule, update_rule, update_config, bootstrap_database, on_module_init, Records,
  reset_database,
}
use mini_sentinel.Config.Values.{get_config-update_config, get_config-reset_database}
use mini_sentinel.Config.Invariant.{
  IsRunning, started, rule_updated, IsConsistent, running-IsConsistent,
}
use mini_sentinel.Config.Ordered.{IsByPriority, running-ordered}
use mini_sentinel.Config.Toggle.{enable, update_rule-enable}
use mini_sentinel.Config.Enforced.{stored_rule-process_job}
use mini_sentinel.Tests.{engine, policy_of}
use mini_sentinel.Tests.RuleExamples.{validators, call, ceased, evening, empty_desk, run_tool}

abbrev start : Service ℕ
start = on_module_init empty_service

abbrev hooks : Json ℕ
hooks = arr (cons (str "http://h") nil)

get_config-update_config_example :
    get_config "webhook_urls" none (update_config "webhook_urls" hooks start) ≡ some hooks
unfolding on_module_init bootstrap_database sample_settings
get_config-update_config_example =
    get_config-update_config "webhook_urls" "webhook_urls" hooks none start

abbrev ranged : ComplianceRule ℕ
ranged = valid_credit_score_range

abbrev records : Records String String String
records = record { tickets = "k1" ∷ []; audit = "i1" ∷ []; metrics = [] }

abbrev hooked : Service ℕ
hooked = update_config "webhook_urls" hooks start

get_config-reset_database_example :
    (get_config "webhook_urls" none (reset_database (hooked, records)).0
      ≡ get_config "webhook_urls" none hooked)
    × ((reset_database (hooked, records)).1 ≡ record { tickets = []; audit = []; metrics = [] })
unfolding sample_settings
get_config-reset_database_example = get_config-reset_database "webhook_urls" none hooked records

abbrev disabled : Service ℕ
disabled = (update_rule "191943d5-666c-407a-9ed3-6205571cbfa0" (enable false) start).0

disabled-IsRunning : IsRunning disabled
disabled-IsRunning = rule_updated "191943d5-666c-407a-9ed3-6205571cbfa0" (enable false) started

running-IsConsistent_example : IsConsistent disabled
running-IsConsistent_example = running-IsConsistent disabled disabled-IsRunning

running-ordered_example :
    IsByPriority disabled.rules_cache × Perm disabled.rules_cache (enabled_stored disabled.rules)
running-ordered_example = running-ordered disabled disabled-IsRunning

update_rule-enable_example :
    ((update_rule "191943d5-666c-407a-9ed3-6205571cbfa0" (enable false) start).1 ≡ done)
    × (find_rule "191943d5-666c-407a-9ed3-6205571cbfa0" disabled.rules
        ≡ some (record {
          rule = record ranged { enabled = false; updated_by = "API_UPDATE"; version = 2 };
          change_history =
              record {
                updated_by = ranged.updated_by;
                version = 1;
                name = ranged.name;
                enabled = true;
                priority = ranged.priority;
                value = ranged.value;
              }
              ∷ [];
        }))
    × (any (λ q. q.id == "191943d5-666c-407a-9ed3-6205571cbfa0") (get_rules disabled) ≡ false)
unfolding on_module_init bootstrap_database sample_rules
update_rule-enable_example =
    update_rule-enable start "191943d5-666c-407a-9ed3-6205571cbfa0" false
      (seeded valid_credit_score_range) started refl

abbrev before : List (StoredRule ℕ)
before = map seeded (
    valid_credit_score_range ∷ minimum_credit_score ∷ maximum_dti_ratio ∷ minimum_employment_history
    ∷ call_frequency_enforce ∷ call_cooldown_enforce ∷ contact_hours_enforce ∷ [])

abbrev after : List (StoredRule ℕ)
after = map seeded (
    attorney_contact_enforce ∷ third_party_disclosure_enforce ∷ call_frequency_observe
    ∷ call_cooldown_observe ∷ contact_hours_observe ∷ cease_communication_observe
    ∷ attorney_contact_observe ∷ third_party_disclosure_observe ∷ bankruptcy_hold_enforce
    ∷ bankruptcy_hold_observe ∷ [])

abbrev configured : Validators ℕ
configured = record validators { rules = get_rules start }

stored_rule-process_job_example :
    desk_of
      (process_job run_tool "k1" configured (policy_of (get_rules start)) "ENFORCE" call empty_desk)
    ≡ empty_desk
unfolding on_module_init bootstrap_database sample_rules run_rule evaluate_reg_f cease_contact get
    normalize normalized name_has
stored_rule-process_job_example =
    stored_rule-process_job run_tool "k1" start configured (policy_of (get_rules start)) "ENFORCE"
      call empty_desk (seeded cease_communication_enforce) before after
      (cease_contact evening (normalize ceased)) started refl refl refl refl refl refl refl refl
      refl refl

-- The seeded rule on the disclosure to third parties passes for a request that names a recipient.
third_party_seed :
    (evaluate_reg_f evening
      (field "third_party_recipient" (bool true) end)
      third_party_disclosure_enforce).passed
    ≡ true
unfolding evaluate_reg_f name_has
third_party_seed = refl
