-- ===== src/Compliance/RegF.antt =====
-- The rules on contacts of apps/api/src/validation/compliance/rule.engine.ts: `evaluateRegF` and the
-- seven checks that it picks from by the name of the rule. The time of day and the count of approved
-- contacts in the database are parameters.
use mini_sentinel.Prelude.{
  String, Bool, true, not, Option, none, some, List, [], ◌∷◌, if◌then◌else◌, ◌&&◌, ◌||◌, ◌==◌, ◌^^◌,
  name_has,
}
use mini_sentinel.Values.Json.{Json, num, str, obj, Fields, get, object}
use mini_sentinel.Values.Runtime.{Runtime, to_string}
use mini_sentinel.Values.Coerce.{holds, truthy, number_of, text_of, or_else, split}
use mini_sentinel.Types.{ComplianceRule}
use mini_sentinel.Compliance.Params.{Checked, checked, skipped_check}

-- What the checks read of the surroundings.
pub record Surroundings (F : Type 0) : Type 0 where
  pub hours : F
  pub minutes : F
  -- `auditRecord.count` of the approved records of the last seven days for a customer
  pub contacts : String → F

module _ {F : Type 0} ⦃js : Runtime F⦄ (around : Surroundings F) (params : Fields F) where
  abbrev parsed_minutes : List String → F
  parsed_minutes (h ∷ (m ∷ rest)) = if m == "" then js.lit 0 0 else js.parse_int m
  parsed_minutes _ = js.lit 0 0

  abbrev parsed_hours : List String → F
  parsed_hours (h ∷ rest) = js.parse_int h
  parsed_hours [] = js.parse_int ""

  -- the hour and the minute of a local time, or of now
  clock : Option (Json F) → F × F
  unfolding split
  clock (some (str s)) = (parsed_hours (split b':' s), parsed_minutes (split b':' s))
  clock (some (num x)) = (x, js.lit 0 0)
  clock _ = (around.hours, around.minutes)

  -- `evaluateRegFTimeWindow`
  unfoldable pub time_window : Checked F
  unfolding clock get object
  time_window =
      let local_time = or_else (get "localTime" params) (get "contact_hour_local" params) in
      let (hour, minute) = clock local_time in
      let minutes = js.add (js.mul hour (js.lit 60 0)) minute in
      checked (js.le (js.lit 480 0) minutes && js.lt minutes (js.lit 1260 0))
        ("Contact outside permitted hours (08:00 - 21:00). Actual: " ^^ text_of local_time)
        (obj (
          object (
            ("localTime", local_time)
            ∷ ("hour", some (num hour))
            ∷ ("minute", some (num minute))
            ∷ [])))

  abbrev contact_count : Json F → Option (Json F) → Option (Json F) → F
  contact_count customer (some v) w = number_of v
  contact_count customer none (some w) = number_of w
  contact_count customer none none = around.contacts (to_string customer)

  -- `(rule.value as number) || 7`
  abbrev limit_of : Json F → Json F
  limit_of v = if truthy v then v else num (js.lit 7 0)

  frequency_of : ComplianceRule F → Option (Json F) → Checked F
  unfolding get object
  frequency_of rule none = skipped_check "No customerId, frequency check skipped"
  frequency_of rule (some customer) =
      let count =
        contact_count customer (get "contactAttemptsLast7Days" params)
          (get "calls_last_7_days" params) in
      let limit = limit_of rule.value in
      if truthy customer
      then checked (js.lt count (number_of limit))
          ("Reg F contact attempts limit of "
            ^^ to_string limit
            ^^ " exceeded. Actual: "
            ^^ js.show count
            ^^ " contact attempts.")
          (obj (
            object (
              ("contactCount", some (num count))
              ∷ ("limit", some limit)
              ∷ ("customerId", some customer)
              ∷ [])))
      else skipped_check "No customerId, frequency check skipped"

  -- `evaluateRegFCallFrequency`
  unfoldable pub call_frequency : ComplianceRule F → Checked F
  unfolding frequency_of get
  call_frequency rule = frequency_of rule (get "customerId" params)

  abbrev either_param : Option (Json F) → Option (Json F) → Option (Json F)
  either_param (some v) w = some v
  either_param none w = w

  -- `evaluateRegFCeaseContact`
  unfoldable pub cease_contact : Checked F
  unfolding get object
  cease_contact =
      let cease =
        either_param (get "ceaseContact" params) (get "cease_communication_requested" params) in
      checked (not (holds cease)) "Cease contact request is in force for this customer."
        (obj (object (("ceaseContact", cease) ∷ [])))

  -- `evaluateBankruptcyHold`
  unfoldable pub bankruptcy_hold : Checked F
  unfolding get object
  bankruptcy_hold =
      let hold = either_param (get "bankruptcyHold" params) (get "bankruptcy_hold" params) in
      checked (not (holds hold)) "Bankruptcy hold is in force for this customer."
        (obj (object (("bankruptcyHold", hold) ∷ [])))

  abbrev cooled_down : Option (Json F) → Bool
  cooled_down none = true
  cooled_down (some days) = js.le (js.lit 7 0) (number_of days)

  -- `evaluateRegFCooldown`
  unfoldable pub cooldown : Checked F
  unfolding get object
  cooldown =
      let days = get "days_since_last_conversation" params in
      checked (cooled_down days)
        ("7-day post-conversation cooldown in force. Days since last contact: " ^^ text_of days)
        (obj (object (("daysSinceLastConv", days) ∷ [])))

  -- `evaluateRegFAttorney`
  unfoldable pub attorney : Checked F
  unfolding get object
  attorney =
      let represented = get "consumer_represented_by_attorney" params in
      checked (not (holds represented)) "Consumer is represented by an attorney."
        (obj (object (("represented", represented) ∷ [])))

  -- `evaluateRegFThirdParty`
  unfoldable pub third_party : Checked F
  unfolding get object
  third_party =
      let party = get "third_party_recipient" params in
      checked (not (holds party)) "Debt disclosure to third parties is prohibited."
        (obj (object (("thirdParty", party) ∷ [])))

  -- `evaluateRegF`: the check is chosen by words in the name of the rule
  unfoldable pub evaluate_reg_f : ComplianceRule F → Checked F
  evaluate_reg_f rule =
      if name_has rule.name "time" || name_has rule.name "window"
      then time_window
      else if name_has rule.name "calls" || name_has rule.name "frequency"
      then call_frequency rule
      else if name_has rule.name "cease"
      then cease_contact
      else if name_has rule.name "bankruptcy"
      then bankruptcy_hold
      else if name_has rule.name "cooldown"
      then cooldown
      else if name_has rule.name "attorney" || name_has rule.name "counsel"
      then attorney
      else if name_has rule.name "third party" || name_has rule.name "third-party"
      then third_party
      else skipped_check "Skipped rule check"
